-- ===== src/Tun/Windows/Dispatch.antt =====
-- tun_windows_gvisor.go: the loop of deliveries.
pub mod Reads
pub mod Delivered
use cropstun.Base.{
  ℕ, zero, suc, Bool, List, [], ◌∷◌, Option, none, some, length, ◌==◌, if◌then◌else◌,
}
use cropstun.Base.Int.{ℤ, pos, negsuc}
use cropstun.Base.Go.{Error, Result, ok, err}
use cropstun.Tun.Windows.Session.{Session, RateJuggler, await, update, write}

-- The network stack: the version in the first byte of a packet, the numbers of its protocols, whether
-- a dispatcher is set, and its call.
pub record Network (K : Type 0) : Type 0 where
  pub ip_version : List ℕ → ℤ
  pub ipv4_protocol_number : ℕ
  pub ipv6_protocol_number : ℕ
  pub is_set : K → Bool
  pub deliver_network_packet : K → ℕ → List ℕ → K

-- What becomes of a packet: nothing for an empty one, back to the device, or to the stack.
pub data Action : Type 0 where
  drop_empty : Action
  write_back : Action
  deliver : ℕ → Action

abbrev pub by_version : ℕ → ℕ → ℤ → Action
by_version v4_number v6_number (negsuc n) = Action.write_back
by_version v4_number v6_number (pos version) =
    if version == 4
    then Action.deliver v4_number
    else (if version == 6 then Action.deliver v6_number else Action.write_back)

-- `header.IPVersion` reads the first byte of the packet.
unfoldable pub classify : {K : Type 0} → Network K → List ℕ → Action
classify net [] = Action.drop_empty
classify net (b ∷ bs) =
    by_version net.ipv4_protocol_number net.ipv6_protocol_number (net.ip_version (b ∷ []))

-- How the loop ends; a read may not come to an end within its fuel.
pub data End : Type 0 where
  read_error : Error → End
  detached : End
  out_of_fuel : End

module _ {K : Type 0} (s : Session K) (net : Network K) where
  -- `ReadFunc` with a function that copies the packet.
  unfoldable pub read_copy : ℕ → K → RateJuggler → Option (Result (List ℕ)) × K × RateJuggler
  unfolding await update
  read_copy fuel k rate =
      let (r, k1) = await s fuel k rate in
      elim r [
        | none ↦ (none, k1, rate)
        | some (err e) ↦ (some (err e), k1, rate)
        | some (ok p) ↦
            let (rate', k2) = update s (s.release_receive k1 p) rate (length p) in
            (some (ok p), k2, rate')
      ]

  -- `dispatchLoop`, of at most `rounds` rounds, whose reads have `fuel` each.
  unfoldable pub dispatch_loop : ℕ → ℕ → K → RateJuggler → End × K × RateJuggler
  unfolding read_copy classify write
  dispatch_loop zero fuel k rate = (End.out_of_fuel, k, rate)
  dispatch_loop (suc rounds) fuel k rate =
      let (r, k1, rate1) = read_copy fuel k rate in
      let dropped = dispatch_loop rounds fuel k1 rate1 in
      elim r [
        | none ↦ (End.out_of_fuel, k1, rate1)
        | some (err e) ↦ (End.read_error e, k1, rate1)
        | some (ok p) ↦
            let (_, k2, rate2) = write s k1 rate1 p in
            let back = dispatch_loop rounds fuel k2 rate2 in
            elim (classify net p) [
              | Action.drop_empty ↦ dropped
              | Action.write_back ↦ back
              | Action.deliver protocol ↦
                  let on =
                    dispatch_loop rounds fuel (net.deliver_network_packet k1 protocol p) rate1 in
                  if net.is_set k1 then on else (End.detached, k1, rate1)
            ]
      ]
