-- ===== src/Tun/Darwin/Endpoint.antt =====
-- tun_darwin_gvisor.go: the link endpoint of the network stack.
use cropstun.Base.{
  ℕ, zero, suc, ◌+◌, Bool, true, false, List, [], ◌∷◌, Option, none, some, length, drop, ltb, ◌==◌,
  if◌then◌else◌,
}
use cropstun.Base.Int.{ℤ, pos, negsuc}
use cropstun.Base.Go.{Error, Result, ok, err, Outcome, returns, panics}
use cropstun.Tun.Darwin.Configure.{NativeTun}

-- `dispatcher`, and how many times the loop of deliveries has been started.
pub record Endpoint (D : Type 0) : Type 0 where
  pub dispatcher : Option D
  pub loops : ℕ

unfoldable pub attach : {D : Type 0} → Endpoint D → Option D → Endpoint D
attach e none = record e { dispatcher = none }
attach e (some d) = elim e.dispatcher [
  | none ↦ record { dispatcher = some d; loops = e.loops + 1 }
  | some d' ↦ e
]

abbrev pub is_attached : {D : Type 0} → Endpoint D → Bool
is_attached e = elim e.dispatcher [ none ↦ false | some d ↦ true ]

abbrev pub packet_offset : ℕ
packet_offset = 4

-- The network stack: how it reads the headers of packets (the version, and the destination, which
-- panics for a packet that is too short), and the numbers of its protocols.
pub record Header : Type 0 where
  pub ip_version : List ℕ → ℤ
  pub destination4 : List ℕ → Outcome ℕ
  pub destination6 : List ℕ → Outcome ℕ
  pub ipv4_protocol_number : ℕ
  pub ipv6_protocol_number : ℕ

-- What the loop does with a packet that it has read.
pub data Action : Type 0 where
  write_back : Action
  deliver : ℕ → Action

abbrev pub unless_own : ℕ → ℕ → Outcome ℕ → Outcome Action
unless_own protocol own panics = panics
unless_own protocol own (returns destination) =
    returns (if destination == own then Action.write_back else Action.deliver protocol)

abbrev pub by_version : Header → NativeTun → List ℕ → ℤ → Outcome Action
by_version h t packet (negsuc n) = returns Action.write_back
by_version h t packet (pos version) =
    if version == 4
    then unless_own h.ipv4_protocol_number t.inet4_address (h.destination4 packet)
    else (if version == 6
        then unless_own h.ipv6_protocol_number t.inet6_address (h.destination6 packet)
        else returns Action.write_back)

-- `read` are the bytes read, `packetBuffer[:n]`.
unfoldable pub classify : Header → NativeTun → List ℕ → Outcome Action
classify h t read =
    if ltb (length read) packet_offset
    then panics
    else by_version h t (drop packet_offset read) (h.ip_version (drop packet_offset read))

-- How the loop ends: the read fails, the endpoint is detached, or a panic; or not within the fuel.
pub data End : Type 0 where
  read_error : Error → End
  detached : End
  panicked : End
  out_of_fuel : End

-- The device's file and the dispatcher: `is_set` reads whether the endpoint has one, and
-- `deliver_network_packet` calls it.
pub record Device (K : Type 0) : Type 0 where
  pub read : K → ℕ → Result (List ℕ) × K
  pub write : K → List ℕ → K
  pub is_set : K → Bool
  pub deliver_network_packet : K → ℕ → List ℕ → K

-- `dispatchLoop`, of at most `fuel` rounds.
unfoldable pub dispatch_loop : {K : Type 0} → Header → Device K → NativeTun → ℕ → K → End × K
dispatch_loop h d t zero k = (End.out_of_fuel, k)
dispatch_loop h d t (suc fuel) k =
    let (r, k1) = d.read k (t.mtu + packet_offset) in
    elim r [
      | err e ↦ (End.read_error e, k1)
      | ok b ↦
          let back = dispatch_loop h d t fuel (d.write k1 b) in
          elim (classify h t b) [
            | panics ↦ (End.panicked, k1)
            | returns Action.write_back ↦ back
            | returns (Action.deliver protocol) ↦
                let on =
                  dispatch_loop h d t fuel (d.deliver_network_packet k1 protocol (drop 4 b)) in
                if d.is_set k1 then on else (End.detached, k1)
          ]
    ]

-- `WritePackets`, over `bufio.WriteVectorised` of the device: the number of packets written, and
-- whether the call was aborted.
unfoldable pub write_packets :
    {K P : Type 0} → (K → P → (ℕ × Option Error) × K) → ℕ → K → List P → (ℕ × Bool) × K
write_packets write n k [] = ((n, false), k)
write_packets write n k (p ∷ ps) =
    let (r, k') = write k p in
    let rest = write_packets write (n + 1) k' ps in
    elim r.1 [ some e ↦ ((n, true), k') | none ↦ rest ]
