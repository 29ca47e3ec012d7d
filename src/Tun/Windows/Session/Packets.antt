-- ===== src/Tun/Windows/Session/Packets.antt =====
-- tun_windows.go: what `ReadPacket` reads from the session, and what `write` sends.
use cropstun.Base.{
  ℕ, zero, suc, ◌+◌, ◌-◌, ◌<◌, ◌≡◌, refl, sym, ◌∙◌, subst, Bool, true, false, List, [], ◌∷◌, ◌++◌,
  append-nil, append_assoc, concat, none, some, length, length-overwrite, overwrite, take, take_all,
  window-overwrite, min, if◌then◌else◌, arith,
}
use cropstun.Base.Go.{Result, ok, err}
use cropstun.Tun.Windows.Session.{
  Reply, Allocated, Session, RateJuggler, answer, poll, await, read_packet, gather, total_size,
  write_elements, update,
}

-- A session that is not closed meanwhile, and whose next reply comes after `pending` empty polls,
-- however the time between is spent.
pub record Arrives {K : Type 0} (s : Session K) (pending : K → ℕ) (reply : Reply) : Type 0 where
  pub open_still : (k : K) → s.closed k ≡ false
  pub timed : (k : K) → pending (s.nanotime k).1 ≡ pending k
  pub waited : (k : K) → pending (s.wait k) ≡ pending k
  pub yielded : (k : K) → pending (s.procyield k) ≡ pending k
  pub empty :
      (k : K) (n : ℕ) → pending k ≡ suc n → ((s.receive k).0 ≡ none) × (pending (s.receive k).1 ≡ n)
  pub arrived : (k : K) → pending k ≡ 0 → (s.receive k).0 ≡ some reply

if_first :
    {A K : Type 0} (b : Bool) (x y : A × K) (a : A) → x.0 ≡ a → y.0 ≡ a → (if b then x else y).0 ≡ a
if_first true x y a h k = h
if_first false x y a h k = k

module _ {K : Type 0} (s : Session K) (pending : K → ℕ) (reply : Reply)
    (arrives : Arrives s pending reply) where
  poll-answer :
      (n fuel : ℕ) (k : K) (rate : RateJuggler) (start : ℕ) (spin : Bool)
      → pending k ≡ n
      → n < fuel
      → (poll s fuel k rate start spin).0 ≡ some (answer reply)
  unfolding poll
  poll-answer n zero k rate start spin h f = absurd (omega arith)
  poll-answer zero (suc fuel) k rate start spin h f =
      rw (poll, arrives.open_still k, arrives.arrived k h) refl
  poll-answer (suc n) (suc fuel) k rate start spin h f =
      let (none_yet, left) = arrives.empty k n h in
      let k1 = (s.receive k).1 in
      let later : (k2 : K)
          → pending k2 ≡ n
          → (start2 : ℕ) (spin2 : Bool)
          → (poll s fuel k2 rate start2 spin2).0 ≡ some (answer reply) =
        λ k2 h2 start2 spin2. poll-answer n fuel k2 rate start2 spin2 h2 (omega arith) in
      let k2 = (s.nanotime k1).1 in
      let now : pending k2 ≡ n = arrives.timed k1 ∙ left in
      let idle =
        later (s.nanotime (s.wait k1)).1 (arrives.timed (s.wait k1) ∙ arrives.waited k1 ∙ left) _
          _ in
      let spun =
        later (s.nanotime (s.wait k2)).1 (arrives.timed (s.wait k2) ∙ arrives.waited k2 ∙ now) _
          _ in
      let again = later (s.procyield k2) (arrives.yielded k2 ∙ now) start spin in
      rw
        (
          poll,
          arrives.open_still k,
          none_yet,
          arrives.open_still (s.wait k2),
          arrives.open_still (s.wait k1),
        )
        (if_first spin _ _ _ (if_first _ _ _ _ spun again) idle)

  await-answer :
      (fuel : ℕ) (k : K) (rate : RateJuggler)
      → pending k < fuel
      → (await s fuel k rate).0 ≡ some (answer reply)
  unfolding await
  await-answer fuel k rate f =
      rw (await, arrives.open_still k) (poll-answer (pending k) fuel _ rate _ _ (arrives.timed k) f)

  -- `ReadPacket` returns the session's next reply, however often it finds the ring empty before, and
  -- whether it spins or waits meanwhile: the packet, or the error that the reply stands for. One more
  -- round than there are empty polls is enough. Nobody closes the device meanwhile.
  pub read_packet-answer :
      (fuel : ℕ) (k : K) (rate : RateJuggler)
      → pending k < fuel
      → (read_packet s fuel k rate).0 ≡ some (answer reply)
  unfolding read_packet
  read_packet-answer fuel k rate f = by_reply (answer reply) (await-answer fuel k rate f)
    where
      by_reply :
          (r : Result (List ℕ))
          → (await s fuel k rate).0 ≡ some r
          → (read_packet s fuel k rate).0 ≡ some r
      by_reply (ok p) h = rw (read_packet, h) refl
      by_reply (err e) h = rw (read_packet, h) refl

-- What `copy` leaves in a packet with just enough room.
pub gather-concat :
    (packet : List ℕ) (index : ℕ) (es : List (List ℕ))
    → index + total_size es ≡ length packet
    → gather packet index es ≡ take index packet ++ concat es
unfolding gather
gather-concat packet index [] h =
    sym (take_all index packet (omega arith)) ∙ sym (append-nil (take index packet))
gather-concat packet index (e ∷ es) h =
    let n : index + min (length e) (length packet - index) ≡ index + length e = omega arith in
    let room : index + length e + total_size es ≡ length (overwrite packet index e) =
      omega (arith, length-overwrite packet index e) in
    let full : index + length e - 0 ≡ index + length e = omega arith in
    let front : index - 0 ≡ index = omega arith in
    let written : take (index + length e) (overwrite packet index e) ≡ take index packet ++ e =
      subst (λ m. take m (overwrite packet index e) ≡ take index packet ++ e) full
        (subst (λ m. take (index + length e - 0) (overwrite packet index e) ≡ take m packet ++ e)
          front (window-overwrite 0 index packet e (omega arith) (omega arith))) in
    rw (n, gather-concat (overwrite packet index e) (index + length e) es room, written)
      (append_assoc (take index packet) e (concat es))

-- `write` sends one packet that holds the elements one behind the other, if the device is not closed
-- and the ring gives room of the length that is asked for.
pub write_elements-concat :
    {K : Type 0} (s : Session K) (k : K) (rate : RateJuggler) (elements : List (List ℕ))
    (packet : List ℕ)
    → s.closed k ≡ false
    → (s.allocate_send (update s k rate (total_size elements)).1 (total_size elements)).0
      ≡ Allocated.room packet
    → length packet ≡ total_size elements
    → write_elements s k rate elements ≡ (
      ok 0,
      s.send
          (s.allocate_send (update s k rate (total_size elements)).1 (total_size elements)).1
          (concat elements),
      (update s k rate (total_size elements)).0,
    )
unfolding write_elements
write_elements-concat s k rate elements packet c a n =
    let gathered : gather packet 0 elements ≡ concat elements =
      gather-concat packet 0 elements (omega arith) in
    rw (write_elements, c, a, gathered) refl
