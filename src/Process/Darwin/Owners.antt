-- ===== src/Process/Darwin/Owners.antt =====
-- process/process_darwin.go: which socket the search decides for.
use cropstun.Base.{
  ℕ, ◌+◌, ◌/◌, ◌%◌, ◌^◌, ◌<◌, ◌≡◌, refl, ap, ap₂, ◌∙◌, Bool, true, false, not, ◌&&◌, List, [], ◌∷◌,
  ◌++◌, concat, map, none, some, All, length, window, get_or, ◌==◌, inl, inr, Bool-cases,
  if◌then◌else◌, arith,
}
use cropstun.Base.Go.{ok}
use cropstun.Net.{Addr, is4, addr_eq, is_unspecified}
use cropstun.Process.Common.{read_big_endian, read_native_uint32, addr_from_slice}
use cropstun.Process.Darwin.{Kernel, struct_size, Verdict, classify, judge, find_in_list}
use cropstun.Process.Darwin.Items.{decided, find_in_list-classified}
use cropstun.Process.Darwin.Sockets.{
  Socket, IsSocket, bytes, process, local_port, verdict, verdict_at, port_bytes, flag_byte,
  low_bytes, all_bytes, address_size, pid_bytes,
}

-- The test of the family at the end of the loop's body holds there.
family_holds :
    (is_udp : Bool) (ip local : Addr) (pid : ℕ)
    → (if addr_eq ip local
        then Verdict.hit pid
        else (if is_udp && is_unspecified local && true
            then Verdict.fallback pid
            else Verdict.skip))
      ≡ verdict_at is_udp ip pid (some local)
family_holds is_udp ip local pid = rw (and_true is_udp (is_unspecified local)) refl
  where
    and_true : (a b : Bool) → (a && b && true) ≡ (a && b)
    and_true true true = refl
    and_true true false = refl
    and_true false b = refl

-- `classify` by the parts of an item.
abbrev judged : Bool → Addr → ℕ → List ℕ → ℕ → List ℕ → List ℕ → List ℕ → Verdict
judged is_udp ip port port_part flag low all pid_part =
    if read_big_endian 0 port_part == port
    then (if flag % 2 == 1 && is4 ip
        then judge is_udp ip (addr_from_slice low) true (read_native_uint32 pid_part)
        else (if flag / 2 % 2 == 1 && not (is4 ip)
            then judge is_udp ip (addr_from_slice all) false (read_native_uint32 pid_part)
            else Verdict.skip))
    else Verdict.skip

classify-judged :
    (is_udp : Bool) (ip : Addr) (port : ℕ) (item port_part : List ℕ) (flag : ℕ)
    (low all pid_part : List ℕ)
    → window 18 2 item ≡ port_part
    → get_or item 44 0 ≡ flag
    → window 76 4 item ≡ low
    → window 64 16 item ≡ all
    → window 172 4 item ≡ pid_part
    → classify is_udp ip port item ≡ judged is_udp ip port port_part flag low all pid_part
unfolding classify
classify-judged is_udp ip port item port_part flag low all pid_part p f l a i =
    ap₂
      (λ q g. judged is_udp ip port q g (window 76 4 item) (window 64 16 item) (window 172 4 item))
      p f
    ∙ ap₂ (λ m b. judged is_udp ip port port_part flag m b (window 172 4 item)) l a
    ∙ ap (judged is_udp ip port port_part flag low all) i

judged-verdict :
    (is_udp : Bool) (ip : Addr) (port : ℕ) (s : Socket) (v4 : Bool)
    → length s.address_low ≡ 4
    → length (s.address_high ++ s.address_low) ≡ 16
    → is4 ip ≡ v4
    → judged is_udp ip port
        (s.port_high ∷ s.port_low ∷ [])
        s.flags
        s.address_low
        (s.address_high ++ s.address_low)
        (s.pid0 ∷ s.pid1 ∷ s.pid2 ∷ s.pid3 ∷ [])
      ≡ verdict is_udp ip port s
judged-verdict is_udp ip port s true l a e =
    let p : read_big_endian 0 (s.port_high ∷ s.port_low ∷ []) ≡ local_port s = omega arith in
    let j = family_holds is_udp ip (Addr.v4 (read_big_endian 0 s.address_low)) (process s) in
    elim (Bool-cases (s.flags % 2 == 1)) [
      | inl f ↦ rw (p, l, e, f) (ap (λ x. if local_port s == port then x else Verdict.skip) j)
      | inr f ↦ elim (Bool-cases (s.flags / 2 % 2 == 1)) [
        | inl g ↦ rw (p, e, f, g) refl
        | inr g ↦ rw (p, e, f, g) refl
      ]
    ]
judged-verdict is_udp ip port s false l a e =
    let p : read_big_endian 0 (s.port_high ∷ s.port_low ∷ []) ≡ local_port s = omega arith in
    let j =
      family_holds is_udp ip (Addr.v6 (read_big_endian 0 (s.address_high ++ s.address_low)))
        (process s) in
    elim (Bool-cases (s.flags / 2 % 2 == 1)) [
      | inl g ↦ elim (Bool-cases (s.flags % 2 == 1)) [
        | inl f ↦ rw (p, a, e, f, g) (ap (λ x. if local_port s == port then x else Verdict.skip) j)
        | inr f ↦ rw (p, a, e, f, g) (ap (λ x. if local_port s == port then x else Verdict.skip) j)
      ]
      | inr g ↦ elim (Bool-cases (s.flags % 2 == 1)) [
        | inl f ↦ rw (p, e, f, g) refl
        | inr f ↦ rw (p, e, f, g) refl
      ]
    ]

classify-verdict :
    (size : ℕ) (is_udp : Bool) (ip : Addr) (port : ℕ) (s : Socket)
    → IsSocket size s
    → classify is_udp ip port (bytes s) ≡ verdict is_udp ip port s
classify-verdict size is_udp ip port s h =
    classify-judged is_udp ip port (bytes s) _ _ _ _ _ (port_bytes size s h) (flag_byte size s h)
      (low_bytes size s h) (all_bytes size s h) (pid_bytes size s h)
    ∙ judged-verdict is_udp ip port s (is4 ip) h.low_size (address_size size s h) refl

map-verdict :
    (size : ℕ) (is_udp : Bool) (ip : Addr) (port : ℕ) (ss : List Socket)
    → All (IsSocket size) ss
    → (map (classify is_udp ip port) (map bytes ss) ≡ map (verdict is_udp ip port) ss)
      × All (λ i. length i ≡ size) (map bytes ss)
map-verdict size is_udp ip port [] h = (refl, tt)
map-verdict size is_udp ip port (s ∷ ss) h =
    let (e, whole) = map-verdict size is_udp ip port ss h.1 in
    (ap₂ ◌∷◌ (classify-verdict size is_udp ip port s h.0) e, (h.0.whole, whole))

module _ {K : Type 0} (sys : Kernel K) (k : K) where
  -- The size of an item, on the release and for the network.
  abbrev pub item_size : Bool → ℕ
  item_size is_udp = struct_size sys.major_release + (if is_udp then 0 else 208)

  -- The list holds a head of 24 bytes, sockets in the layout of the kernel and a rest that is shorter
  -- than an item. Then the search of `findProcessName` yields the process of the first socket that has
  -- the lower 16 bits of the port, says that it is of the address's family, and has that address,
  -- whatever stands before it; if there is none, for UDP, the name alone of the process of the last socket of the port and of
  -- the family whose address is unspecified, if that has a name; and otherwise `ErrNotFound`.
  pub find_in_list-decided :
      (is_udp : Bool) (ip : Addr) (port : ℕ) (header tail : List ℕ) (ss : List Socket)
      → length header ≡ 24
      → length tail < item_size is_udp
      → All (IsSocket (item_size is_udp)) ss
      → sys.pcb_list k is_udp ≡ ok (header ++ (concat (map bytes ss) ++ tail))
      → find_in_list sys k is_udp ip port
        ≡ decided sys k is_udp (map (verdict is_udp ip (port % 2 ^ 16)) ss) none
  find_in_list-decided is_udp ip port header tail ss n t h b =
      let (e, whole) = map-verdict (item_size is_udp) is_udp ip (port % 2 ^ 16) ss h in
      find_in_list-classified sys k is_udp ip port header tail (map bytes ss) n t whole b
      ∙ ap (λ vs. decided sys k is_udp vs none) e
