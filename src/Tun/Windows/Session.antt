-- ===== src/Tun/Windows/Session.antt =====
-- tun_windows.go: packets to and from the rings of a Wintun session, and the measure of their rate.
-- The calls are modelled one at a time; what other goroutines do, `Close` among it, is up to `K`.
pub mod Packets
use cropstun.Base.{
  ℕ, zero, suc, ◌+◌, ◌-◌, ◌*◌, ◌/◌, ◌%◌, ◌^◌, Bool, true, false, ◌&&◌, List, [], ◌∷◌, ◌++◌, concat,
  Option, none, some, length, overwrite, min, leb, ◌==◌, if◌then◌else◌,
}
use cropstun.Base.Go.{Error, Result, ok, err}

-- What a call of `ReceivePacket` yields other than ERROR_NO_MORE_ITEMS.
pub data Reply : Type 0 where
  received : List ℕ → Reply
  handle_eof invalid_data : Reply
  failed : ℕ → Reply

-- What `AllocateSendPacket` yields: room in the ring, or an error's code.
pub data Allocated : Type 0 where
  room : List ℕ → Allocated
  refused : ℕ → Allocated

-- The session, the clock and the flag `close`.
pub record Session (K : Type 0) : Type 0 where
  pub closed : K → Bool
  pub nanotime : K → ℕ × K
  -- `none` is ERROR_NO_MORE_ITEMS.
  pub receive : K → Option Reply × K
  pub wait : K → K
  pub procyield : K → K
  pub release_receive : K → List ℕ → K
  pub allocate_send : K → ℕ → Allocated × K
  pub send : K → List ℕ → K

pub record RateJuggler : Type 0 where
  pub current : ℕ
  pub next_byte_count : ℕ
  pub next_start_time : ℕ
  pub changing : ℕ

abbrev pub rate_measurement_granularity : ℕ
rate_measurement_granularity = 500000000

abbrev pub spinloop_rate_threshold : ℕ
spinloop_rate_threshold = 100000000

abbrev pub spinloop_duration : ℕ
spinloop_duration = 12500

-- `uint64(a - b)` of times.
abbrev pub elapsed : ℕ → ℕ → ℕ
elapsed a b = (a + 2 ^ 64 - b) % 2 ^ 64

abbrev pub eof_code : ℕ
eof_code = 38

abbrev pub overflow_code : ℕ
overflow_code = 111

-- `update` at the time `now`.
unfoldable pub update_at : ℕ → RateJuggler → ℕ → RateJuggler
update_at now rate packet_len =
    let total = (rate.next_byte_count + packet_len) % 2 ^ 64 in
    let period = elapsed now rate.next_start_time in
    let added = record rate { next_byte_count = total } in
    if leb rate_measurement_granularity period
    then (if rate.changing == 0
        then record added {
          next_start_time = now;
          current = total * 1000000000 % 2 ^ 64 / period;
          next_byte_count = 0;
          changing = 0;
        }
        else added)
    else added

-- The start of a wait: whether to spin.
abbrev pub should_spin : RateJuggler → ℕ → Bool
should_spin rate start =
    leb spinloop_rate_threshold rate.current
    && leb (elapsed start rate.next_start_time) (rate_measurement_granularity * 2)

abbrev pub answer : Reply → Result (List ℕ)
answer (Reply.received p) = ok p
answer Reply.handle_eof = err Error.closed
answer Reply.invalid_data = err Error.send_ring_corrupt
answer (Reply.failed code) = err (Error.os code)

-- `copy` of each element into what is left of the packet.
unfoldable pub gather : List ℕ → ℕ → List (List ℕ) → List ℕ
gather packet index [] = packet
gather packet index (e ∷ es) =
    gather (overwrite packet index e) (index + min (length e) (length packet - index)) es

abbrev pub total_size : List (List ℕ) → ℕ
total_size [] = 0
total_size (e ∷ es) = length e + total_size es

-- A full ring drops the packet without an error.
abbrev pub send_error : ℕ → Result ℕ
send_error code =
    if code == eof_code
    then err Error.closed
    else if code == overflow_code
    then ok 0
    else err (Error.os code)

module _ {K : Type 0} (s : Session K) where
  unfoldable pub update : K → RateJuggler → ℕ → RateJuggler × K
  unfolding update_at
  update k rate packet_len = let (now, k') = s.nanotime k in (update_at now rate packet_len, k')

  -- The loops of `ReadPacket` and `ReadFunc`, with fuel for the rounds; `none`: there are more.
  unfoldable pub poll : ℕ → K → RateJuggler → ℕ → Bool → Option (Result (List ℕ)) × K
  poll zero k rate start spin = (none, k)
  poll (suc fuel) k rate start spin =
      let (r, k1) = s.receive k in
      let (now, k2) = s.nanotime k1 in
      let (start_idle, k_idle) = s.nanotime (s.wait k1) in
      let (start_spun, k_spun) = s.nanotime (s.wait k2) in
      let idle = poll fuel k_idle rate start_idle (should_spin rate start_idle) in
      let spun = poll fuel k_spun rate start_spun (should_spin rate start_spun) in
      let again = poll fuel (s.procyield k2) rate start spin in
      if s.closed k then (some (err Error.closed), k) else elim r [
        | some reply ↦ (some (answer reply), k1)
        | none ↦
            if spin
            then (if leb spinloop_duration (elapsed now start)
                then if s.closed (s.wait k2) then (some (err Error.closed), s.wait k2) else spun
                else again)
            else if s.closed (s.wait k1)
            then (some (err Error.closed), s.wait k1)
            else idle
      ]

  unfoldable pub await : ℕ → K → RateJuggler → Option (Result (List ℕ)) × K
  unfolding poll
  await fuel k rate =
      let (start, k') = s.nanotime k in
      if s.closed k
      then (some (err Error.closed), k)
      else poll fuel k' rate start (should_spin rate start)

  -- `ReadPacket`; the function that it also returns calls `release_receive`.
  unfoldable pub read_packet : ℕ → K → RateJuggler → Option (Result (List ℕ)) × K × RateJuggler
  unfolding await update
  read_packet fuel k rate =
      let (r, k1) = await fuel k rate in
      elim r [
        | none ↦ (none, k1, rate)
        | some (err e) ↦ (some (err e), k1, rate)
        | some (ok p) ↦ let (rate', k2) = update k1 rate (length p) in (some (ok p), k2, rate')
      ]

  -- `ReadFunc`; `block` is what the function that it is given does to the state.
  unfoldable pub read_func :
      (K → List ℕ → K) → ℕ → K → RateJuggler → Option (Option Error) × K × RateJuggler
  unfolding await update
  read_func block fuel k rate =
      let (r, k1) = await fuel k rate in
      elim r [
        | none ↦ (none, k1, rate)
        | some (err e) ↦ (some (some e), k1, rate)
        | some (ok p) ↦
            let (rate', k2) = update (s.release_receive (block k1 p) p) rate (length p) in
            (some none, k2, rate')
      ]

  -- `write`; it returns 0 for the number of bytes.
  unfoldable pub write_elements : K → RateJuggler → List (List ℕ) → Result ℕ × K × RateJuggler
  unfolding gather update
  write_elements k rate elements =
      let size = total_size elements in
      let (rate', k1) = update k rate size in
      let (r, k2) = s.allocate_send k1 size in
      if s.closed k then (err Error.closed, k, rate) else elim r [
        | Allocated.room packet ↦ (ok 0, s.send k2 (gather packet 0 elements), rate')
        | Allocated.refused code ↦ (send_error code, k2, rate')
      ]

  -- `Write`
  unfoldable pub write : K → RateJuggler → List ℕ → Result ℕ × K × RateJuggler
  unfolding update
  write k rate p =
      let (rate', k1) = update k rate (length p) in
      let (r, k2) = s.allocate_send k1 (length p) in
      if s.closed k then (err Error.closed, k, rate) else elim r [
        | Allocated.room packet ↦ (ok (length p), s.send k2 (overwrite packet 0 p), rate')
        | Allocated.refused code ↦ (send_error code, k2, rate')
      ]
