-- ===== src/Tun/Windows/Dispatch/Reads.antt =====
-- tun_windows_gvisor.go: what each read of the loop of deliveries yields.
use cropstun.Base.{
  ℕ, zero, suc, ◌<◌, ◌≡◌, refl, ◌∙◌, ap, Bool, true, false, List, [], ◌∷◌, ◌++◌, append-nil, Option,
  none, some, length, overwrite, if◌then◌else◌, ◌⊎◌, inl, inr, arith,
}
use cropstun.Base.Go.{Error, Result, ok, err}
use cropstun.Tun.Windows.Session.{
  Reply, Allocated, Session, RateJuggler, poll, await, update, gather, write,
}
use cropstun.Tun.Windows.Session.Packets.{gather-concat}
use cropstun.Tun.Windows.Dispatch.{Network, read_copy}

-- What the ring still yields, a packet or an empty poll at a time, what was sent into it, and what
-- the stack was given.
abbrev pub Traffic : Type 0
Traffic = List (Option (List ℕ)) × List (List ℕ) × List (ℕ × List ℕ)

abbrev pub reply : Option (List ℕ) → Option Reply
reply none = none
reply (some p) = some (Reply.received p)

abbrev pub packets : List (Option (List ℕ)) → List (List ℕ)
packets [] = []
packets (none ∷ ins) = packets ins
packets (some p ∷ ins) = p ∷ packets ins

-- The session is open, and its ring yields what is on the way and then ends; it has room for every
-- packet; and a dispatcher is set.
pub record Faithful {K : Type 0} (s : Session K) (net : Network K) (view : K → Traffic)
    : Type 0 where
  pub open_still : (k : K) → s.closed k ≡ false
  pub timed : (k : K) → view (s.nanotime k).1 ≡ view k
  pub waited : (k : K) → view (s.wait k) ≡ view k
  pub yielded : (k : K) → view (s.procyield k) ≡ view k
  pub released : (k : K) (p : List ℕ) → view (s.release_receive k p) ≡ view k
  pub receives :
      (k : K) (x : Option (List ℕ)) (ins : List (Option (List ℕ))) (out : List (List ℕ))
      (stack : List (ℕ × List ℕ))
      → view k ≡ (x ∷ ins, out, stack)
      → ((s.receive k).0 ≡ reply x) × (view (s.receive k).1 ≡ (ins, out, stack))
  pub ends :
      (k : K) (out : List (List ℕ)) (stack : List (ℕ × List ℕ))
      → view k ≡ ([], out, stack)
      → ((s.receive k).0 ≡ some Reply.handle_eof) × (view (s.receive k).1 ≡ ([], out, stack))
  pub allocates :
      (k : K) (n : ℕ)
      → (packet : List ℕ) × ((s.allocate_send k n).0 ≡ Allocated.room packet) × (length packet ≡ n)
  pub allocated : (k : K) (n : ℕ) → view (s.allocate_send k n).1 ≡ view k
  pub sends :
      (k : K) (p : List ℕ) → view (s.send k p) ≡ ((view k).0, (view k).1 ++ (p ∷ []), (view k).2)
  pub delivers :
      (k : K) (protocol : ℕ) (p : List ℕ)
      → view (net.deliver_network_packet k protocol p)
        ≡ ((view k).0, (view k).1, (view k).2 ++ ((protocol, p) ∷ []))
  pub is_set : (k : K) → net.is_set k ≡ true

-- The next packet, behind the empty polls, and what is left after it.
abbrev pub next : List (Option (List ℕ)) → Option (List ℕ) × List (Option (List ℕ))
next [] = (none, [])
next (none ∷ ins) = next ins
next (some p ∷ ins) = (some p, ins)

abbrev pub result : Option (List ℕ) → Result (List ℕ)
result none = err Error.closed
result (some p) = ok p

-- Either there is no packet any more, or one comes next and the others are left.
pub record Comes (ins : List (Option (List ℕ))) : Type 0 where
  pub packet : List ℕ
  pub left : List (Option (List ℕ))
  pub is_next : next ins ≡ (some packet, left)
  pub all : packets ins ≡ packet ∷ packets left
  pub shorter : length left < length ins

pub next-cases :
    (ins : List (Option (List ℕ))) → ((next ins ≡ (none, [])) × (packets ins ≡ [])) ⊎ Comes ins
next-cases [] = inl (refl, refl)
next-cases (none ∷ ins) = elim (next-cases ins) [
  | inl h ↦ inl h
  | inr c ↦ inr (record {
    packet = c.packet;
    left = c.left;
    is_next = c.is_next;
    all = c.all;
    shorter = omega (arith, c.shorter);
  })
]
next-cases (some p ∷ ins) =
    inr (record { packet = p; left = ins; is_next = refl; all = refl; shorter = omega arith })

-- A read has this answer, and leaves this traffic.
abbrev pub Reads :
    {K : Type 0} → (K → Traffic) → Result (List ℕ) → Traffic → Option (Result (List ℕ)) × K → Type 0
Reads view r t x = (x.0 ≡ some r) × (view x.1 ≡ t)

Reads-if :
    {K : Type 0} (view : K → Traffic) (r : Result (List ℕ)) (t : Traffic) (b : Bool)
    (x y : Option (Result (List ℕ)) × K)
    → Reads view r t x
    → Reads view r t y
    → Reads view r t (if b then x else y)
Reads-if view r t true x y h k = h
Reads-if view r t false x y h k = k

module _ {K : Type 0} (s : Session K) (net : Network K) (view : K → Traffic)
    (faithful : Faithful s net view) where
  poll-next :
      (ins : List (Option (List ℕ))) (out : List (List ℕ)) (stack : List (ℕ × List ℕ)) (fuel : ℕ)
      (k : K) (rate : RateJuggler) (start : ℕ) (spin : Bool)
      → view k ≡ (ins, out, stack)
      → length ins < fuel
      → Reads view (result (next ins).0) ((next ins).1, out, stack) (poll s fuel k rate start spin)
  unfolding poll
  poll-next ins out stack zero k rate start spin h f = absurd (omega (arith, f))
  poll-next [] out stack (suc fuel) k rate start spin h f =
      let (eof, left) = faithful.ends k out stack h in
      rw (poll, faithful.open_still k, eof) (refl, left)
  poll-next (some p ∷ ins) out stack (suc fuel) k rate start spin h f =
      let (got, left) = faithful.receives k (some p) ins out stack h in
      rw (poll, faithful.open_still k, got) (refl, left)
  poll-next (none ∷ ins) out stack (suc fuel) k rate start spin h f =
      let (none_yet, left) = faithful.receives k none ins out stack h in
      let k1 = (s.receive k).1 in
      let k2 = (s.nanotime k1).1 in
      let later : (k3 : K)
          → view k3 ≡ (ins, out, stack)
          → (start2 : ℕ) (spin2 : Bool)
          → Reads view (result (next ins).0) ((next ins).1, out, stack)
              (poll s fuel k3 rate start2 spin2) =
        λ k3 h3 start2 spin2.
          poll-next ins out stack fuel k3 rate start2 spin2 h3 (omega (arith, f)) in
      let now : view k2 ≡ (ins, out, stack) = faithful.timed k1 ∙ left in
      let idle =
        later (s.nanotime (s.wait k1)).1 (faithful.timed (s.wait k1) ∙ faithful.waited k1 ∙ left) _
          _ in
      let spun =
        later (s.nanotime (s.wait k2)).1 (faithful.timed (s.wait k2) ∙ faithful.waited k2 ∙ now) _
          _ in
      let again = later (s.procyield k2) (faithful.yielded k2 ∙ now) start spin in
      rw
        (
          poll,
          faithful.open_still k,
          none_yet,
          faithful.open_still (s.wait k2),
          faithful.open_still (s.wait k1),
        )
        (Reads-if view _ _ spin _ _ (Reads-if view _ _ _ _ _ spun again) idle)

  pub await-next :
      (ins : List (Option (List ℕ))) (out : List (List ℕ)) (stack : List (ℕ × List ℕ)) (fuel : ℕ)
      (k : K) (rate : RateJuggler)
      → view k ≡ (ins, out, stack)
      → length ins < fuel
      → Reads view (result (next ins).0) ((next ins).1, out, stack) (await s fuel k rate)
  unfolding await
  await-next ins out stack fuel k rate h f =
      rw (await, faithful.open_still k)
        (poll-next ins out stack fuel _ rate _ _ (faithful.timed k ∙ h) f)

  pub read_copy-next :
      (ins left : List (Option (List ℕ))) (out : List (List ℕ)) (stack : List (ℕ × List ℕ))
      (p : List ℕ) (fuel : ℕ) (k : K) (rate : RateJuggler)
      → next ins ≡ (some p, left)
      → view k ≡ (ins, out, stack)
      → length ins < fuel
      → ((read_copy s net fuel k rate).0 ≡ some (ok p))
        × (view (read_copy s net fuel k rate).1 ≡ (left, out, stack))
  unfolding read_copy update
  read_copy-next ins left out stack p fuel k rate n h f =
      let (got, moved) = await-next ins out stack fuel k rate h f in
      let answer : (await s fuel k rate).0 ≡ some (ok p) = got ∙ ap (λ x. some (result x.0)) n in
      let after : view (await s fuel k rate).1 ≡ (left, out, stack) =
        moved ∙ ap (λ x. (x.1, out, stack)) n in
      rw (read_copy, answer)
        (refl, faithful.timed _ ∙ faithful.released (await s fuel k rate).1 p ∙ after)

  pub read_copy-ended :
      (ins : List (Option (List ℕ))) (out : List (List ℕ)) (stack : List (ℕ × List ℕ)) (fuel : ℕ)
      (k : K) (rate : RateJuggler)
      → next ins ≡ (none, [])
      → view k ≡ (ins, out, stack)
      → length ins < fuel
      → ((read_copy s net fuel k rate).0 ≡ some (err Error.closed))
        × (view (read_copy s net fuel k rate).1 ≡ ([], out, stack))
  unfolding read_copy
  read_copy-ended ins out stack fuel k rate n h f =
      let (got, moved) = await-next ins out stack fuel k rate h f in
      let answer : (await s fuel k rate).0 ≡ some (err Error.closed) =
        got ∙ ap (λ x. some (result x.0)) n in
      rw (read_copy, answer) (refl, moved ∙ ap (λ x. (x.1, out, stack)) n)

  -- A packet that is written back is sent whole.
  pub write-sent :
      (k : K) (rate : RateJuggler) (p : List ℕ)
      → view (write s k rate p).1 ≡ ((view k).0, (view k).1 ++ (p ∷ []), (view k).2)
  unfolding write gather update
  write-sent k rate p =
      let k1 = (s.nanotime k).1 in
      let (packet, room, long) = faithful.allocates k1 (length p) in
      let whole : overwrite packet 0 p ≡ p =
        gather-concat packet 0 (p ∷ []) (omega (arith, long)) ∙ append-nil p in
      let same : view (s.allocate_send k1 (length p)).1 ≡ view k =
        faithful.allocated k1 (length p) ∙ faithful.timed k in
      rw (write, faithful.open_still k, room, whole)
        (faithful.sends (s.allocate_send k1 (length p)).1 p
          ∙ ap (λ v. (v.0, v.1 ++ (p ∷ []), v.2)) same)
