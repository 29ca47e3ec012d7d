-- ===== src/Tun/Darwin/Tests.antt =====
-- The device on macOS at concrete inputs.
use cropstun.Base.{
  ℕ, ◌/◌, ◌≤◌, leb, All, replicate, window, ◌+◌, ◌*◌, ◌^◌, ◌≡◌, refl, ap, false≢true, true, false,
  Bool, List, [], ◌∷◌, ◌++◌, Option, none, some, get_or, drop, arith, ltb, length, if◌then◌else◌,
}
use cropstun.Base.Int.{ℤ, pos, negsuc}
use cropstun.Base.Go.{Error, Result, ok, err, Outcome, returns, panics}
use cropstun.Net.{Addr}
use cropstun.Tun.Options.{Options}
use cropstun.Tun.Darwin.System.{System}
use cropstun.Tun.Darwin.Requests
use cropstun.Tun.Darwin.Configure
use cropstun.Tun.Darwin.Configure.{NativeTun}
use cropstun.Tun.Darwin.Kept.{Tracks}
use cropstun.Tun.Darwin.Descriptors.{Settled, new_tun-Settled}
use cropstun.Tun.Darwin.Endpoint.{Header, Device, dispatch_loop}
use cropstun.Tun.Darwin.Dispatch.{
  Faithful, Dispatched, ReadsHeaders, IsFrame, to_device, dispatch_loop-Dispatched,
}
use cropstun.Process.Common.{read_big_endian}

-- `utun5`
abbrev name : List ℕ
name = b'u' ∷ b't' ∷ b'u' ∷ b'n' ∷ b'5' ∷ []

abbrev options : Options
options = record {
  name = name;
  inet4_address = record { addr = Addr.v4 (198 * 2 ^ 24 + 18 * 2 ^ 16 + 1); bits = 16 } ∷ [];
  inet6_address = record { addr = Addr.v6 (0xfd * 2 ^ 120 + 1); bits = 126 } ∷ [];
  mtu = 1500;
  table_index = pos 1;
  rule_index = pos 1;
  auto_route = true;
}

-- The state is the open descriptors and the number of requests that were written; the fourth
-- descriptor is the highest that can be opened beside the device's.
abbrev State : Type 0
State = List ℕ × ℕ

abbrev open_fd : State → Result ℕ × State
open_fd (fds, n) = (ok (length fds + 3), ((length fds + 3) ∷ fds, n))

abbrev close_last : State → Option Error × State
close_last ([], n) = (none, ([], n))
close_last (fd ∷ fds, n) = (none, (fds, n))

-- The kernel refuses every request to add a route after the ninth.
abbrev count : State → Option Error × State
count (fds, n) = (if ltb n 9 then none else some (Error.os 17), (fds, n + 1))

abbrev system : System State
system = record {
  socket = λ k d t p. open_fd k;
  close = λ k fd. close_last k;
  ioctl_ctl_info = λ k fd n. (ok 1, k);
  connect = λ k fd id unit. (none, k);
  set_nonblock = λ k fd. (none, k);
  set_ifreq_mtu = λ k fd n m. (none, k);
  siocaifaddr = λ k fd r. (none, k);
  siocaifaddr_in6 = λ k fd r. (none, k);
  marshal = λ m. ok (1 ∷ []);
  write = λ k fd b. count k;
  start_flush_cache = λ k. (none, k);
  raw_conn = λ k fd. true;
}

abbrev fds_of : State → List ℕ
fds_of (fds, n) = fds

abbrev is_err : Result ℕ → Bool
is_err (ok n) = false
is_err (err e) = true

abbrev value : Result ℕ → ℕ
value (ok n) = n
value (err e) = 0

close_last-fds :
    (k : State) (fd : ℕ) (rest : List ℕ) → fds_of k ≡ fd ∷ rest → fds_of (close_last k).1 ≡ rest
close_last-fds ([], n) fd rest h = absurd (omega (arith, ap length h))
close_last-fds (x ∷ fds, n) fd rest h = ap (drop 1) h

system-Tracks : Tracks system fds_of
system-Tracks = record {
  opened = λ k d t p fd h. ap (λ r. value r ∷ fds_of k) h;
  refused = λ k d t p e h. absurd (false≢true (ap is_err h));
  closed = λ k fd rest h. close_last-fds k fd rest h;
  ctl_info = λ k fd n. refl;
  connected = λ k fd id unit. refl;
  nonblock = λ k fd. refl;
  ifreq_mtu = λ k fd n m. refl;
  aifaddr = λ k fd r. refl;
  aifaddr_in6 = λ k fd r. refl;
  written = λ k fd b. refl;
  flushed = λ k. refl;
}

-- Seven more routes are refused: the device's descriptor is closed again, and 9 is left.
new_tun-Settled_example :
    Settled
      (9 ∷ [])
      (Configure.new_tun system (9 ∷ [], 0) options).0
      (fds_of (Configure.new_tun system (9 ∷ [], 0) options).1)
new_tun-Settled_example =
    new_tun-Settled system fds_of system-Tracks (9 ∷ [], 0) options (omega arith, tt)
      (omega arith, tt) (λ k fd. refl)

refused_route :
    Configure.new_tun system (9 ∷ [], 0) options ≡ (returns (err (Error.os 17)), (9 ∷ [], 10))
unfolding Configure.new_tun Configure.open_socket Configure.configure Configure.after_configure
    Requests.alias_request4 Requests.alias_request6
refused_route = refl

-- The state of a device: its packets to be read, those written back, and what the stack was given.
abbrev Traffic : Type 0
Traffic = List (List ℕ) × List (List ℕ) × List (ℕ × List ℕ)

abbrev next_packet : Traffic → Result (List ℕ) × Traffic
next_packet ([], out, stack) = (err Error.eof, ([], out, stack))
next_packet (b ∷ bs, out, stack) = (ok b, (bs, out, stack))

abbrev device : Device Traffic
device = record {
  read = λ k n. next_packet k;
  write = λ k b. (k.0, k.1 ++ (b ∷ []), k.2);
  is_set = λ k. true;
  deliver_network_packet = λ k p b. (k.0, k.1, k.2 ++ ((p, b) ∷ []));
}

next_packet-reads :
    (k : Traffic) (b : List ℕ) (rest : List (List ℕ))
    → k.0 ≡ b ∷ rest
    → ((next_packet k).0 ≡ ok b) × ((next_packet k).1.0 ≡ rest)
next_packet-reads ([], out, stack) b rest h = absurd (omega (arith, ap length h))
next_packet-reads (x ∷ bs, out, stack) b rest h = (ap (λ l. ok (get_or l 0 [])) h, ap (drop 1) h)

next_packet-ends : (k : Traffic) → k.0 ≡ [] → (e : Error) × ((next_packet k).0 ≡ err e)
next_packet-ends ([], out, stack) h = (Error.eof, refl)
next_packet-ends (x ∷ bs, out, stack) h = absurd (omega (arith, ap length h))

next_packet-out : (k : Traffic) → (next_packet k).1.1 ≡ k.1
next_packet-out ([], out, stack) = refl
next_packet-out (b ∷ bs, out, stack) = refl

next_packet-stack : (k : Traffic) → (next_packet k).1.2 ≡ k.2
next_packet-stack ([], out, stack) = refl
next_packet-stack (b ∷ bs, out, stack) = refl

device-Faithful : Faithful device (λ k. k.0) (λ k. k.1) (λ k. k.2)
device-Faithful = record {
  reads = λ k n b rest h. next_packet-reads k b rest h;
  ends = λ k n h. next_packet-ends k h;
  read_outbox = λ k n. next_packet-out k;
  read_stack = λ k n. next_packet-stack k;
  write_inbox = λ k b. refl;
  write_outbox = λ k b. refl;
  write_stack = λ k b. refl;
  deliver_inbox = λ k p b. refl;
  deliver_outbox = λ k p b. refl;
  deliver_stack = λ k p b. refl;
  is_set = λ k. refl;
}

-- A stack whose packets are their version and one byte of destination.
abbrev version_of : List ℕ → ℤ
version_of [] = negsuc 0
version_of (b ∷ bs) = pos (b / 16)

abbrev part : ℕ → ℕ → ℕ → List ℕ → Outcome ℕ
part size from n p =
    if leb size (length p) then returns (read_big_endian 0 (window from n p)) else panics

abbrev header : Header
header = record {
  ip_version = version_of;
  destination4 = part 20 16 4;
  destination6 = part 40 24 16;
  ipv4_protocol_number = 0x0800;
  ipv6_protocol_number = 0x86dd;
}

part-returns :
    (size from n : ℕ) (p : List ℕ)
    → size ≤ length p
    → part size from n p ≡ returns (read_big_endian 0 (window from n p))
part-returns size from n p h = let e : leb size (length p) ≡ true = ground (arith, h) in rw e refl

header-ReadsHeaders : ReadsHeaders header
header-ReadsHeaders = record {
  version = λ b bs. refl;
  no_version = refl;
  destination4 = λ p h. part-returns 20 16 4 p h;
  destination6 = λ p h. part-returns 40 24 16 p h;
}

abbrev tun : NativeTun
tun = record { tun_file = 3; mtu = 1500; inet4_address = 7; inet6_address = 8 }

abbrev framed4 : ℕ → ℕ → List ℕ
framed4 first destination =
    0 ∷ 0 ∷ 0 ∷ 2 ∷ first ∷ replicate 15 0 ++ (replicate 3 0 ++ (destination ∷ []))

abbrev framed6 : ℕ → List ℕ
framed6 destination = 0 ∷ 0 ∷ 0 ∷ 30 ∷ 96 ∷ replicate 23 0 ++ (replicate 15 0 ++ (destination ∷ []))

-- A packet for another host and one for the device, of each version, and one of no known version.
abbrev frames : List (List ℕ)
frames = framed4 69 9 ∷ framed4 69 7 ∷ framed6 8 ∷ framed4 80 9 ∷ framed6 7 ∷ []

goes : to_device tun frames ≡ framed4 69 7 ∷ framed6 8 ∷ framed4 80 9 ∷ []
goes = refl

frames-IsFrame : All IsFrame frames
frames-IsFrame = omega arith

dispatch_loop-Dispatched_example :
    Dispatched header tun
      (λ k. k.1)
      (λ k. k.2)
      (frames, [], [])
      frames
      (dispatch_loop header device tun 9 (frames, [], []))
dispatch_loop-Dispatched_example =
    dispatch_loop-Dispatched header device tun (λ k. k.0) (λ k. k.1) (λ k. k.2) device-Faithful
      header-ReadsHeaders 9 (frames, [], []) frames refl (omega arith) frames-IsFrame
