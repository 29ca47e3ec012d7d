-- ===== src/Tun/Darwin/Dispatch.antt =====
-- tun_darwin_gvisor.go: where the packets go that the loop of deliveries reads.
use cropstun.Base.{
  ℕ, zero, suc, ◌/◌, ◌==◌, ◌≤◌, Bool, false, ltb, window, Bool-cases, if◌then◌else◌, ◌<◌, ◌≡◌, refl,
  sym, ap, ◌∙◌, true, List, [], ◌∷◌, ◌++◌, append-nil, append_assoc, All, length, drop, map, ◌+◌,
  ◌⊎◌, inl, inr, arith,
}
use cropstun.Base.Int.{pos, negsuc}
use cropstun.Base.Go.{Error, ok, err, Outcome, returns, panics, Returns}
use cropstun.Process.Common.{read_big_endian}
use cropstun.Tun.Darwin.Configure.{NativeTun}
use cropstun.Tun.Darwin.Endpoint.{
  Header, Action, End, Device, classify, by_version, dispatch_loop, packet_offset,
}

-- The packets that the loop writes back to the device, whole, and those that it delivers to the
-- stack, with their protocol and without the device's header.
abbrev written_back : List (List ℕ × Outcome Action) → List (List ℕ)
written_back [] = []
written_back ((b, returns Action.write_back) ∷ rest) = b ∷ written_back rest
written_back (_ ∷ rest) = written_back rest

abbrev delivered : List (List ℕ × Outcome Action) → List (ℕ × List ℕ)
delivered [] = []
delivered ((b, returns (Action.deliver protocol)) ∷ rest) = (protocol, drop 4 b) ∷ delivered rest
delivered (_ ∷ rest) = delivered rest

-- The device yields the packets of its inbox, one at each read, and then an error; what is written to
-- it and what the stack is given is kept; and a dispatcher is set.
pub record Faithful {K : Type 0} (d : Device K) (inbox : K → List (List ℕ))
    (outbox : K → List (List ℕ)) (stack : K → List (ℕ × List ℕ)) : Type 0 where
  pub reads :
      (k : K) (n : ℕ) (b : List ℕ) (rest : List (List ℕ))
      → inbox k ≡ b ∷ rest
      → ((d.read k n).0 ≡ ok b) × (inbox (d.read k n).1 ≡ rest)
  pub ends : (k : K) (n : ℕ) → inbox k ≡ [] → (e : Error) × ((d.read k n).0 ≡ err e)
  pub read_outbox : (k : K) (n : ℕ) → outbox (d.read k n).1 ≡ outbox k
  pub read_stack : (k : K) (n : ℕ) → stack (d.read k n).1 ≡ stack k
  pub write_inbox : (k : K) (b : List ℕ) → inbox (d.write k b) ≡ inbox k
  pub write_outbox : (k : K) (b : List ℕ) → outbox (d.write k b) ≡ outbox k ++ (b ∷ [])
  pub write_stack : (k : K) (b : List ℕ) → stack (d.write k b) ≡ stack k
  pub deliver_inbox :
      (k : K) (p : ℕ) (b : List ℕ) → inbox (d.deliver_network_packet k p b) ≡ inbox k
  pub deliver_outbox :
      (k : K) (p : ℕ) (b : List ℕ) → outbox (d.deliver_network_packet k p b) ≡ outbox k
  pub deliver_stack :
      (k : K) (p : ℕ) (b : List ℕ)
      → stack (d.deliver_network_packet k p b) ≡ stack k ++ ((p, b) ∷ [])
  pub is_set : (k : K) → d.is_set k ≡ true

Action-cases :
    (o : Outcome Action)
    → Returns (λ a. Unit) o
    → (o ≡ returns Action.write_back) ⊎ ((p : ℕ) × (o ≡ returns (Action.deliver p)))
Action-cases (returns Action.write_back) h = inl refl
Action-cases (returns (Action.deliver p)) h = inr (p, refl)
Action-cases panics h = elim h [ ]

-- An entry behind a list, and then more of them.
append-snoc :
    {A : Type 0} (xs : List A) (x : A) (ys zs : List A)
    → zs ≡ xs ++ (x ∷ [])
    → zs ++ ys ≡ xs ++ (x ∷ ys)
append-snoc xs x ys zs e = rw e (append_assoc xs (x ∷ []) ys)

abbrev classified : Header → NativeTun → List (List ℕ) → List (List ℕ × Outcome Action)
classified h t ps = map (λ b. (b, classify h t b)) ps

-- The loop ended at a failed read, with these packets written and delivered.
record Moved {K : Type 0} (outbox : K → List (List ℕ)) (stack : K → List (ℕ × List ℕ)) (k : K)
    (ps : List (List ℕ × Outcome Action)) (r : End × K) : Type 0 where
  ended : (e : Error) × (r.0 ≡ End.read_error e)
  wrote : outbox r.1 ≡ outbox k ++ written_back ps
  gave : stack r.1 ≡ stack k ++ delivered ps

-- The stack's reading of headers: the version is the upper half of the first byte, the destination
-- stands 16 bytes into a header of IPv4, which has 20 bytes, and 24 into one of IPv6, which has 40.
pub record ReadsHeaders (h : Header) : Type 0 where
  pub version : (b : ℕ) (bs : List ℕ) → h.ip_version (b ∷ bs) ≡ pos (b / 16)
  pub no_version : h.ip_version [] ≡ negsuc 0
  pub destination4 :
      (p : List ℕ) → 20 ≤ length p → h.destination4 p ≡ returns (read_big_endian 0 (window 16 4 p))
  pub destination6 :
      (p : List ℕ) → 40 ≤ length p → h.destination6 p ≡ returns (read_big_endian 0 (window 24 16 p))

-- What is read of the device: four bytes and a packet, which has the header of its version.
abbrev pub HasHeader : List ℕ → Type 0
HasHeader [] = Unit
HasHeader (b ∷ bs) = (b / 16 ≡ 4 → 20 ≤ length (b ∷ bs)) × (b / 16 ≡ 6 → 40 ≤ length (b ∷ bs))

abbrev pub IsFrame : List ℕ → Type 0
IsFrame f = (4 ≤ length f) × HasHeader (drop 4 f)

-- Whether a packet goes back to the device: it has no known version, or is for the device itself.
abbrev pub goes_back : NativeTun → List ℕ → Bool
goes_back t [] = true
goes_back t (b ∷ bs) =
    if b / 16 == 4
    then read_big_endian 0 (window 16 4 (b ∷ bs)) == t.inet4_address
    else if b / 16 == 6
    then read_big_endian 0 (window 24 16 (b ∷ bs)) == t.inet6_address
    else true

abbrev pub protocol_of : Header → List ℕ → ℕ
protocol_of h [] = h.ipv6_protocol_number
protocol_of h (b ∷ bs) = if b / 16 == 4 then h.ipv4_protocol_number else h.ipv6_protocol_number

abbrev pub to_device : NativeTun → List (List ℕ) → List (List ℕ)
to_device t [] = []
to_device t (f ∷ fs) = if goes_back t (drop 4 f) then f ∷ to_device t fs else to_device t fs

abbrev pub to_stack : Header → NativeTun → List (List ℕ) → List (ℕ × List ℕ)
to_stack h t [] = []
to_stack h t (f ∷ fs) =
    if goes_back t (drop 4 f)
    then to_stack h t fs
    else (protocol_of h (drop 4 f), drop 4 f) ∷ to_stack h t fs

-- The loop ended at a failed read, with all packets at their places.
pub record Dispatched {K : Type 0} (h : Header) (t : NativeTun) (outbox : K → List (List ℕ))
    (stack : K → List (ℕ × List ℕ)) (k : K) (fs : List (List ℕ)) (r : End × K) : Type 0 where
  pub ended : (e : Error) × (r.0 ≡ End.read_error e)
  pub wrote : outbox r.1 ≡ outbox k ++ to_device t fs
  pub gave : stack r.1 ≡ stack k ++ to_stack h t fs

packet-fate :
    (h : Header) (t : NativeTun) (p : List ℕ)
    → ReadsHeaders h
    → HasHeader p
    → by_version h t p (h.ip_version p)
      ≡ returns (if goes_back t p then Action.write_back else Action.deliver (protocol_of h p))
packet-fate h t [] r w = rw r.no_version refl
packet-fate h t (b ∷ bs) r w = rw (r.version b bs) (elim (Bool-cases (b / 16 == 4)) [
  | inl four ↦ let d = r.destination4 (b ∷ bs) (w.0 (ground (arith, four))) in rw (four, d) refl
  | inr other ↦ elim (Bool-cases (b / 16 == 6)) [
    | inl six ↦
        let d = r.destination6 (b ∷ bs) (w.1 (ground (arith, six))) in rw (other, six, d) refl
    | inr unknown ↦ rw (other, unknown) refl
  ]
])

frame-fate :
    (h : Header) (t : NativeTun) (f : List ℕ)
    → ReadsHeaders h
    → IsFrame f
    → classify h t f
      ≡ returns (
          if goes_back t (drop 4 f)
          then Action.write_back
          else Action.deliver (protocol_of h (drop 4 f)))
unfolding classify
frame-fate h t f r w =
    let long : ltb (length f) 4 ≡ false = ground (arith, w.0) in
    rw long (packet-fate h t (drop 4 f) r w.1)

frames-places :
    (h : Header) (t : NativeTun) (fs : List (List ℕ))
    → ReadsHeaders h
    → All IsFrame fs
    → All (λ b. Returns (λ a. Unit) (classify h t b)) fs
      × (written_back (classified h t fs) ≡ to_device t fs)
      × (delivered (classified h t fs) ≡ to_stack h t fs)
frames-places h t [] r w = (tt, refl, refl)
frames-places h t (f ∷ fs) r w =
    let (fine, back, on) = frames-places h t fs r w.1 in
    let e = frame-fate h t f r w.0 in
    elim (Bool-cases (goes_back t (drop 4 f))) [
      | inl g ↦ rw (e, g) ((tt, fine), ap (◌∷◌ f) back, on)
      | inr g ↦ rw (e, g) ((tt, fine), back, ap (◌∷◌ (protocol_of h (drop 4 f), drop 4 f)) on)
    ]

module _ {K : Type 0} (h : Header) (d : Device K) (t : NativeTun) (inbox : K → List (List ℕ))
    (outbox : K → List (List ℕ)) (stack : K → List (ℕ × List ℕ))
    (faithful : Faithful d inbox outbox stack) where
  dispatch_loop-Moved :
      (fuel : ℕ) (k : K) (ps : List (List ℕ))
      → inbox k ≡ ps
      → length ps < fuel
      → All (λ b. Returns (λ a. Unit) (classify h t b)) ps
      → Moved outbox stack k (classified h t ps) (dispatch_loop h d t fuel k)
  unfolding dispatch_loop
  dispatch_loop-Moved zero k ps i f all = absurd (omega (arith, f))
  dispatch_loop-Moved (suc fuel) k [] i f all =
      let (e, r) = faithful.ends k (t.mtu + packet_offset) i in
      rw (dispatch_loop, r)
        (record {
          ended = (e, refl);
          wrote = faithful.read_outbox k _ ∙ sym (append-nil (outbox k));
          gave = faithful.read_stack k _ ∙ sym (append-nil (stack k));
        })
  dispatch_loop-Moved (suc fuel) k (b ∷ ps) i f all =
      let (r, left) = faithful.reads k (t.mtu + packet_offset) b ps i in
      let k1 = (d.read k (t.mtu + packet_offset)).1 in
      elim (Action-cases (classify h t b) all.0) [
        | inl c ↦
            let rest =
              dispatch_loop-Moved fuel (d.write k1 b) ps (faithful.write_inbox k1 b ∙ left)
                (omega (arith, f)) all.1 in
            rw (dispatch_loop, r, c)
              (record {
                ended = rest.ended;
                wrote =
                    rest.wrote
                    ∙ append-snoc (outbox k) b _ _ (
                        faithful.write_outbox k1 b
                        ∙ ap (λ xs. xs ++ (b ∷ [])) (faithful.read_outbox k _));
                gave =
                    rest.gave
                    ∙ ap (λ xs. xs ++ delivered (classified h t ps))
                        (faithful.write_stack k1 b ∙ faithful.read_stack k _);
              })
        | inr (p, c) ↦
            let rest =
              dispatch_loop-Moved fuel (d.deliver_network_packet k1 p (drop 4 b)) ps
                (faithful.deliver_inbox k1 p _ ∙ left) (omega (arith, f)) all.1 in
            rw (dispatch_loop, r, c, faithful.is_set k1)
              (record {
                ended = rest.ended;
                wrote =
                    rest.wrote
                    ∙ ap (λ xs. xs ++ written_back (classified h t ps))
                        (faithful.deliver_outbox k1 p _ ∙ faithful.read_outbox k _);
                gave =
                    rest.gave
                    ∙ append-snoc (stack k) (p, drop 4 b) _ _
                        (faithful.deliver_stack k1 p _
                          ∙ ap (λ xs. xs ++ ((p, drop 4 b) ∷ [])) (faithful.read_stack k _));
              })
      ]

  -- The stack reads the versions and destinations of packets where they stand. The device yields the
  -- frames of its inbox, packets behind four bytes each with the header of their version, and then an error, and a
  -- dispatcher is set all the time; the fuel is above the number of frames. Then the loop of
  -- deliveries on macOS ends at the failed read; it has written back, whole and in their order, the
  -- packets of IPv4 and of IPv6 to the device's own address and those of no known version, and has
  -- given all others, without the four bytes, in their order and under the number of their protocol,
  -- to the network stack.
  pub dispatch_loop-Dispatched :
      (reads : ReadsHeaders h) (fuel : ℕ) (k : K) (fs : List (List ℕ))
      → inbox k ≡ fs
      → length fs < fuel
      → All IsFrame fs
      → Dispatched h t outbox stack k fs (dispatch_loop h d t fuel k)
  dispatch_loop-Dispatched reads fuel k fs i f w =
      let (fine, back, on) = frames-places h t fs reads w in
      let m = dispatch_loop-Moved fuel k fs i f fine in
      record {
        ended = m.ended;
        wrote = m.wrote ∙ ap (λ l. outbox k ++ l) back;
        gave = m.gave ∙ ap (λ l. stack k ++ l) on;
      }
