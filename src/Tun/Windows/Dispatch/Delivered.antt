-- ===== src/Tun/Windows/Dispatch/Delivered.antt =====
-- tun_windows_gvisor.go: where the packets go that the loop of deliveries reads.
use cropstun.Base.{
  ℕ, zero, suc, ◌/◌, ◌==◌, Bool-cases, if◌then◌else◌, ◌<◌, ◌≡◌, refl, ◌∙◌, ap, List, [], ◌∷◌, ◌++◌,
  append-nil, append_assoc, Option, length, map, ◌⊎◌, inl, inr, arith,
}
use cropstun.Base.Int.{pos}
use cropstun.Base.Go.{Error}
use cropstun.Tun.Windows.Session.{Session, RateJuggler, write}
use cropstun.Tun.Windows.Dispatch.{Network, Action, End, classify, read_copy, dispatch_loop}
use cropstun.Tun.Windows.Dispatch.Reads.{
  Traffic, Faithful, packets, next-cases, read_copy-next, read_copy-ended, write-sent,
}

-- The packets that go back to the device, and those that go to the stack.
abbrev written_back : List (List ℕ × Action) → List (List ℕ)
written_back [] = []
written_back ((p, Action.write_back) ∷ rest) = p ∷ written_back rest
written_back (_ ∷ rest) = written_back rest

abbrev delivered : List (List ℕ × Action) → List (ℕ × List ℕ)
delivered [] = []
delivered ((p, Action.deliver protocol) ∷ rest) = (protocol, p) ∷ delivered rest
delivered (_ ∷ rest) = delivered rest

abbrev classified : {K : Type 0} → Network K → List (List ℕ) → List (List ℕ × Action)
classified net ps = map (λ p. (p, classify net p)) ps

-- The loop ended at the end of the ring, with these packets sent and delivered.
record Moved {K : Type 0} (view : K → Traffic) (out : List (List ℕ)) (stack : List (ℕ × List ℕ))
    (ps : List (List ℕ × Action)) (r : End × K × RateJuggler) : Type 0 where
  ended : r.0 ≡ End.read_error Error.closed
  moved : view r.1 ≡ ([], out ++ written_back ps, stack ++ delivered ps)

Action-cases :
    (a : Action)
    → (a ≡ Action.drop_empty) ⊎ ((a ≡ Action.write_back) ⊎ ((p : ℕ) × (a ≡ Action.deliver p)))
Action-cases Action.drop_empty = inl refl
Action-cases Action.write_back = inr (inl refl)
Action-cases (Action.deliver p) = inr (inr (p, refl))

-- A packet more at the front of what is sent and delivered.
prepended :
    {K : Type 0} (view : K → Traffic) (out : List (List ℕ)) (stack : List (ℕ × List ℕ)) (p : List ℕ)
    (a : Action) (ps : List (List ℕ × Action)) (r : End × K × RateJuggler)
    → Moved view (out ++ written_back ((p, a) ∷ [])) (stack ++ delivered ((p, a) ∷ [])) ps r
    → Moved view out stack ((p, a) ∷ ps) r
prepended view out stack p Action.drop_empty ps r d = record {
  ended = d.ended;
  moved = d.moved ∙ rw (append-nil out, append-nil stack) refl;
}
prepended view out stack p Action.write_back ps r d = record {
  ended = d.ended;
  moved = d.moved ∙ rw (append-nil stack, append_assoc out (p ∷ []) (written_back ps)) refl;
}
prepended view out stack p (Action.deliver protocol) ps r d = record {
  ended = d.ended;
  moved =
      d.moved ∙ rw (append-nil out, append_assoc stack ((protocol, p) ∷ []) (delivered ps)) refl;
}

-- The packets whose first byte says neither version 4 nor version 6, and those that it does say so
-- of, each with the number of its protocol. Empty packets are in neither list.
abbrev pub to_device : List (List ℕ) → List (List ℕ)
to_device [] = []
to_device ([] ∷ ps) = to_device ps
to_device ((b ∷ bs) ∷ ps) =
    if b / 16 == 4
    then to_device ps
    else if b / 16 == 6
    then to_device ps
    else (b ∷ bs) ∷ to_device ps

abbrev pub to_stack : ℕ → ℕ → List (List ℕ) → List (ℕ × List ℕ)
to_stack ipv4 ipv6 [] = []
to_stack ipv4 ipv6 ([] ∷ ps) = to_stack ipv4 ipv6 ps
to_stack ipv4 ipv6 ((b ∷ bs) ∷ ps) =
    if b / 16 == 4
    then (ipv4, b ∷ bs) ∷ to_stack ipv4 ipv6 ps
    else if b / 16 == 6
    then (ipv6, b ∷ bs) ∷ to_stack ipv4 ipv6 ps
    else to_stack ipv4 ipv6 ps

-- `header.IPVersion` is the upper half of the first byte.
abbrev pub ReadsVersion : {K : Type 0} → Network K → Type 0
ReadsVersion net = (b : ℕ) → net.ip_version (b ∷ []) ≡ pos (b / 16)

-- The loop ended at the end of the ring, with all packets at the place of their version.
pub record Dispatched {K : Type 0} (net : Network K) (view : K → Traffic) (out : List (List ℕ))
    (stack : List (ℕ × List ℕ)) (ps : List (List ℕ)) (r : End × K × RateJuggler) : Type 0 where
  pub ended : r.0 ≡ End.read_error Error.closed
  pub moved : view r.1 ≡ (
    [],
    out ++ to_device ps,
    stack ++ to_stack net.ipv4_protocol_number net.ipv6_protocol_number ps,
  )

by_version-places :
    {K : Type 0} (net : Network K)
    → ReadsVersion net
    → (ps : List (List ℕ))
    → (written_back (classified net ps) ≡ to_device ps)
      × (delivered (classified net ps)
          ≡ to_stack net.ipv4_protocol_number net.ipv6_protocol_number ps)
unfolding classify
by_version-places net v [] = (refl, refl)
by_version-places net v ([] ∷ ps) = by_version-places net v ps
by_version-places net v ((b ∷ bs) ∷ ps) =
    let (back, on) = by_version-places net v ps in
    elim (Bool-cases (b / 16 == 4)) [
      | inl four ↦ rw (v b, four) (back, ap (◌∷◌ (net.ipv4_protocol_number, b ∷ bs)) on)
      | inr other ↦ elim (Bool-cases (b / 16 == 6)) [
        | inl six ↦ rw (v b, other, six) (back, ap (◌∷◌ (net.ipv6_protocol_number, b ∷ bs)) on)
        | inr unknown ↦ rw (v b, other, unknown) (ap (◌∷◌ (b ∷ bs)) back, on)
      ]
    ]

module _ {K : Type 0} (s : Session K) (net : Network K) (view : K → Traffic)
    (faithful : Faithful s net view) where
  dispatch_loop-Moved :
      (rounds fuel : ℕ) (k : K) (rate : RateJuggler) (ins : List (Option (List ℕ)))
      (out : List (List ℕ)) (stack : List (ℕ × List ℕ))
      → view k ≡ (ins, out, stack)
      → length ins < rounds
      → length ins < fuel
      → Moved view out stack (classified net (packets ins)) (dispatch_loop s net rounds fuel k rate)
  unfolding dispatch_loop
  dispatch_loop-Moved zero fuel k rate ins out stack h n f = absurd (omega (arith, n))
  dispatch_loop-Moved (suc rounds) fuel k rate ins out stack h n f = elim (next-cases ins) [
    | inl (over, empty) ↦
        let (r, v) = read_copy-ended s net view faithful ins out stack fuel k rate over h f in
        rw (dispatch_loop, r, empty)
          (record { ended = refl; moved = v ∙ rw (append-nil out, append-nil stack) refl })
    | inr c ↦
        let p = c.packet in
        let (r, v) =
          read_copy-next s net view faithful ins c.left out stack p fuel k rate c.is_next h f in
        let k1 = (read_copy s net fuel k rate).1 in
        let rate1 = (read_copy s net fuel k rate).2 in
        let later : (a : Action) (k2 : K) (rate2 : RateJuggler)
            → view k2
              ≡ (c.left, out ++ written_back ((p, a) ∷ []), stack ++ delivered ((p, a) ∷ []))
            → Moved view out stack ((p, a) ∷ classified net (packets c.left))
                (dispatch_loop s net rounds fuel k2 rate2) =
          λ a k2 rate2 v2. prepended view out stack p a _ _ (
            dispatch_loop-Moved rounds fuel k2 rate2 c.left _ _ v2 (omega (arith, n, c.shorter))
              (omega (arith, f, c.shorter))) in
        let all : (a : Action)
            → classify net p ≡ a
            → classified net (packets ins) ≡ (p, a) ∷ classified net (packets c.left) =
          λ a e. ap (classified net) c.all ∙ ap (λ x. (p, x) ∷ classified net (packets c.left)) e in
        elim (Action-cases (classify net p)) [
          | inl e ↦
              rw (dispatch_loop, r, all _ e, e)
                (later Action.drop_empty k1 rate1 (v ∙ rw (append-nil out, append-nil stack) refl))
          | inr (inl e) ↦
              rw (dispatch_loop, r, all _ e, e)
                (later Action.write_back (write s k1 rate1 p).1 (write s k1 rate1 p).2 (
                  write-sent s net view faithful k1 rate1 p
                  ∙ ap (λ x. (x.0, x.1 ++ (p ∷ []), x.2)) v
                  ∙ rw (append-nil stack) refl))
          | inr (inr (protocol, e)) ↦
              rw (dispatch_loop, r, all _ e, e, faithful.is_set k1)
                (later (Action.deliver protocol) (net.deliver_network_packet k1 protocol p) rate1 (
                  faithful.delivers k1 protocol p
                  ∙ ap (λ x. (x.0, x.1, x.2 ++ ((protocol, p) ∷ []))) v
                  ∙ rw (append-nil out) refl))
        ]
  ]

  -- The version that the stack reads of a byte is its upper half. The session stays open, its ring yields the packets of the traffic with any number of empty polls
  -- between them and then ends, it has room for what is sent, and a dispatcher is set all the time;
  -- the rounds and the fuel of a read are above the length of the traffic. Then the loop of deliveries
  -- on Windows ends when the ring has ended, with nothing left to read. It has written back to the
  -- device, whole and in their order, the packets of no known version, has given those of IPv4 and of
  -- IPv6 to the network stack, whole and in their order, and has dropped only the empty ones.
  pub windows_dispatch_loop-Dispatched :
      (reads : ReadsVersion net) (rounds fuel : ℕ) (k : K) (rate : RateJuggler)
      (ins : List (Option (List ℕ))) (out : List (List ℕ)) (stack : List (ℕ × List ℕ))
      → view k ≡ (ins, out, stack)
      → length ins < rounds
      → length ins < fuel
      → Dispatched net view out stack (packets ins) (dispatch_loop s net rounds fuel k rate)
  windows_dispatch_loop-Dispatched reads rounds fuel k rate ins out stack h n f =
      let m = dispatch_loop-Moved rounds fuel k rate ins out stack h n f in
      let (back, on) = by_version-places net reads (packets ins) in
      record {
        ended = m.ended;
        moved =
            m.moved
            ∙ ap (λ l. ([], out ++ l, stack ++ delivered (classified net (packets ins)))) back
            ∙ ap (λ l. ([], out ++ to_device (packets ins), stack ++ l)) on;
      }
