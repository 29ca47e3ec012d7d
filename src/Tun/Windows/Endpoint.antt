-- ===== src/Tun/Windows/Endpoint.antt =====
-- tun_windows_gvisor.go: the link endpoint that the network stack writes its packets to. A packet of
-- the stack is the list of its slices.
use cropstun.Base.{
  ℕ, ◌+◌, ◌≡◌, sym, ap, ◌∙◌, Bool, true, false, List, [], ◌∷◌, ◌++◌, append-nil, append_assoc, map,
  concat, Option, none, some, length, arith,
}
use cropstun.Base.Go.{ok, err}
use cropstun.Tun.Windows.Session.{
  Allocated, Session, RateJuggler, update, total_size, write_elements,
}
use cropstun.Tun.Windows.Session.Packets.{write_elements-concat}

-- `dispatcher` of the endpoint, and how many times the loop of deliveries has been started.
pub record Endpoint (D : Type 0) : Type 0 where
  pub dispatcher : Option D
  pub loops : ℕ

unfoldable pub attach : {D : Type 0} → Endpoint D → Option D → Endpoint D
attach e none = record e { dispatcher = none }
attach e (some d) = elim e.dispatcher [
  | none ↦ record { dispatcher = some d; loops = e.loops + 1 }
  | some d' ↦ e
]

-- The number of packets written, and whether the call was aborted.
unfoldable pub write_packets :
    {K : Type 0}
    → Session K
    → ℕ
    → K
    → RateJuggler
    → List (List (List ℕ))
    → (ℕ × Bool) × K × RateJuggler
write_packets s n k rate [] = ((n, false), k, rate)
write_packets s n k rate (p ∷ ps) =
    let (r, k', rate') = write_elements s k rate p in
    let rest = write_packets s (n + 1) k' rate' ps in
    elim r [ err e ↦ ((n, true), k', rate') | ok _ ↦ rest ]

-- A session that stays open and always has room, with the packets that have been sent.
pub record Roomy {K : Type 0} (s : Session K) (sent : K → List (List ℕ)) : Type 0 where
  pub open_still : (k : K) → s.closed k ≡ false
  pub timed : (k : K) → sent (s.nanotime k).1 ≡ sent k
  pub room : K → ℕ → List ℕ
  pub roomy : (k : K) (n : ℕ) → (s.allocate_send k n).0 ≡ Allocated.room (room k n)
  pub fitting : (k : K) (n : ℕ) → length (room k n) ≡ n
  pub reserved : (k : K) (n : ℕ) → sent (s.allocate_send k n).1 ≡ sent k
  pub passed_on : (k : K) (p : List ℕ) → sent (s.send k p) ≡ sent k ++ (p ∷ [])

module _ {K : Type 0} (s : Session K) (sent : K → List (List ℕ)) (roomy : Roomy s sent) where
  -- The call wrote `m` packets without an error, and those that have been sent are `ps`.
  abbrev pub Written : ℕ → List (List ℕ) → (ℕ × Bool) × K × RateJuggler → Type 0
  Written m ps r = (r.0 ≡ (m, false)) × (sent r.1 ≡ ps)

  pub write_elements-sent :
      (k : K) (rate : RateJuggler) (p : List (List ℕ))
      → ((write_elements s k rate p).0 ≡ ok 0)
        × (sent (write_elements s k rate p).1 ≡ sent k ++ (concat p ∷ []))
  unfolding update
  write_elements-sent k rate p =
      let n = total_size p in
      let k1 = (update s k rate n).1 in
      let e =
        write_elements-concat s k rate p (roomy.room k1 n) (roomy.open_still k) (roomy.roomy k1 n)
          (roomy.fitting k1 n) in
      (
        ap (λ r. r.0) e,
        ap (λ r. sent r.1) e
            ∙ roomy.passed_on (s.allocate_send k1 n).1 (concat p)
            ∙ ap (λ l. l ++ (concat p ∷ [])) (roomy.reserved k1 n ∙ roomy.timed k),
      )

  -- As long as the session is open and has room, `WritePackets` sends each packet of the stack whole
  -- and in its order, counts all of them and is not aborted.
  pub write_packets-Written :
      (ps : List (List (List ℕ))) (n : ℕ) (k : K) (rate : RateJuggler)
      → Written (n + length ps) (sent k ++ map concat ps) (write_packets s n k rate ps)
  unfolding write_packets
  write_packets-Written [] n k rate =
      (ap (λ m. (m, false)) (omega arith), sym (append-nil (sent k)))
  write_packets-Written (p ∷ ps) n k rate =
      let (done, sent_one) = write_elements-sent k rate p in
      let (_, k', rate') = write_elements s k rate p in
      let (counted, all) = write_packets-Written ps (n + 1) k' rate' in
      rw (write_packets, done)
        (
          counted ∙ ap (λ m. (m, false)) (omega arith),
          all
              ∙ ap (λ l. l ++ map concat ps) sent_one
              ∙ append_assoc (sent k) (concat p ∷ []) (map concat ps),
        )
