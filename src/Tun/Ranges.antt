-- ===== src/Tun/Ranges.antt =====
-- tun_rules.go: the ranges of addresses that are routed into the device.
use cropstun.Base.{
  ℕ, ◌+◌, ◌-◌, ◌*◌, ◌/◌, ◌^◌, ◌<◌, ◌≤◌, ◌≡◌, refl, ◌∙◌, Bool, false, List, [], ◌∷◌, ◌++◌, ltb, ◌==◌,
  if◌then◌else◌, arith, dec_lt,
}
use cropstun.Net.{Addr, Prefix, hits}
use cropstun.Tun.Options.{Options, is_empty}

-- `runtime.GOOS`
pub data Os : Type 0 where
  linux darwin windows : Os

abbrev block : (ℕ → Addr) → ℕ → ℕ → ℕ → Prefix
block family width first bits = record { addr = family (first * 2 ^ (width - 8)); bits = bits }

-- 1.0.0.0/8, 2.0.0.0/7, … 128.0.0.0/1 in the first byte, and the same for IPv6.
abbrev blocks : (ℕ → Addr) → ℕ → List Prefix
blocks family width =
    block family width 1 8
    ∷ block family width 2 7
    ∷ block family width 4 6
    ∷ block family width 8 5
    ∷ block family width 16 4
    ∷ block family width 32 3
    ∷ block family width 64 2
    ∷ block family width 128 1
    ∷ []

unfoldable pub family_ranges : Os → (ℕ → Addr) → ℕ → List Prefix
family_ranges Os.darwin family width = blocks family width
family_ranges _ family width = record { addr = family 0; bits = 0 } ∷ []

-- `BuildAutoRouteRanges`; it returns no error.
unfoldable pub build_auto_route_ranges : Os → Options → List Prefix
unfolding family_ranges
build_auto_route_ranges goos o =
    (if is_empty o.inet4_address then [] else family_ranges goos Addr.v4 32)
    ++ (if is_empty o.inet6_address then [] else family_ranges goos Addr.v6 128)

hits-append : (ps qs : List Prefix) (a : Addr) → hits (ps ++ qs) a ≡ hits ps a + hits qs a
hits-append [] qs a = omega arith
hits-append (p ∷ ps) qs a = omega (arith, hits-append ps qs a)

-- One block of addresses [s, 2s) joins those below it.
below : ℕ → ℕ → ℕ
below s a = if ltb a s then 1 else 0

div-small : (s a : ℕ) → a < s → a / s ≡ 0
div-small s a h = grind arith

div-one : (s a : ℕ) → s ≤ a → a < s + s → a / s ≡ 1
div-one s a h k = grind arith

div-big : (s a : ℕ) → 0 < s → s + s ≤ a → 2 ≤ a / s
div-big s a z h = grind arith

below-block : (s a : ℕ) → 0 < s → (if 1 == a / s then 1 else 0) + below s a ≡ below (s + s) a
unfolding below
below-block s a h = elim (dec_lt a s) [
  | yes p ↦ ground (arith, div-small s a p)
  | no p ↦ elim (dec_lt a (s + s)) [
    | yes q ↦ ground (arith, div-one s a (omega arith) q)
    | no q ↦ ground (arith, div-big s a h (omega arith))
  ]
]

hits_blocks4 : (a : ℕ) → a < 2 ^ 32 → hits (blocks Addr.v4 32) (Addr.v4 a) + below (2 ^ 24) a ≡ 1
hits_blocks4 a h =
    let top : below (2 ^ 32) a ≡ 1 = unfold below in ground arith in
    omega (
      arith,
      top,
      below-block (2 ^ 24) a (omega arith),
      below-block (2 ^ 25) a (omega arith),
      below-block (2 ^ 26) a (omega arith),
      below-block (2 ^ 27) a (omega arith),
      below-block (2 ^ 28) a (omega arith),
      below-block (2 ^ 29) a (omega arith),
      below-block (2 ^ 30) a (omega arith),
      below-block (2 ^ 31) a (omega arith),
    )

hits_blocks6 : (a : ℕ) → a < 2 ^ 128 → hits (blocks Addr.v6 128) (Addr.v6 a) + below (2 ^ 120) a ≡ 1
hits_blocks6 a h =
    let top : below (2 ^ 128) a ≡ 1 = unfold below in ground arith in
    omega (
      arith,
      top,
      below-block (2 ^ 120) a (omega arith),
      below-block (2 ^ 121) a (omega arith),
      below-block (2 ^ 122) a (omega arith),
      below-block (2 ^ 123) a (omega arith),
      below-block (2 ^ 124) a (omega arith),
      below-block (2 ^ 125) a (omega arith),
      below-block (2 ^ 126) a (omega arith),
      below-block (2 ^ 127) a (omega arith),
    )

-- The address is left to the system on macOS.
abbrev pub reserved : Os → ℕ → ℕ → Bool
reserved Os.darwin first a = ltb a first
reserved _ first a = false

own_family4 :
    (goos : Os) (a : ℕ)
    → a < 2 ^ 32
    → hits (family_ranges goos Addr.v4 32) (Addr.v4 a) ≡ (if reserved goos (2 ^ 24) a then 0 else 1)
unfolding family_ranges below
own_family4 Os.darwin a h = ground (arith, hits_blocks4 a h)
own_family4 Os.linux a h = ground arith
own_family4 Os.windows a h = ground arith

own_family6 :
    (goos : Os) (a : ℕ)
    → a < 2 ^ 128
    → hits (family_ranges goos Addr.v6 128) (Addr.v6 a)
      ≡ (if reserved goos (2 ^ 120) a then 0 else 1)
unfolding family_ranges below
own_family6 Os.darwin a h = ground (arith, hits_blocks6 a h)
own_family6 Os.linux a h = ground arith
own_family6 Os.windows a h = ground arith

other_family46 : (goos : Os) (a : ℕ) → hits (family_ranges goos Addr.v6 128) (Addr.v4 a) ≡ 0
unfolding family_ranges
other_family46 Os.darwin a = refl
other_family46 Os.linux a = refl
other_family46 Os.windows a = refl

other_family64 : (goos : Os) (a : ℕ) → hits (family_ranges goos Addr.v4 32) (Addr.v6 a) ≡ 0
unfolding family_ranges
other_family64 Os.darwin a = refl
other_family64 Os.linux a = refl
other_family64 Os.windows a = refl

abbrev or_none : List Prefix → List Prefix → List Prefix
or_none addresses ranges = if is_empty addresses then [] else ranges

parts :
    (us ws ps qs : List Prefix) (a : Addr) (n : ℕ)
    → hits ps a ≡ n
    → hits qs a ≡ 0
    → hits (or_none us ps) a + hits (or_none ws qs) a ≡ (if is_empty us then 0 else n)
parts [] [] ps qs a n h k = refl
parts [] (b ∷ ws) ps qs a n h k = omega arith
parts (x ∷ us) [] ps qs a n h k = omega arith
parts (x ∷ us) (b ∷ ws) ps qs a n h k = omega arith

parts' :
    (us ws ps qs : List Prefix) (a : Addr) (n : ℕ)
    → hits ps a ≡ 0
    → hits qs a ≡ n
    → hits (or_none us ps) a + hits (or_none ws qs) a ≡ (if is_empty ws then 0 else n)
parts' [] [] ps qs a n h k = refl
parts' [] (b ∷ ws) ps qs a n h k = omega arith
parts' (x ∷ us) [] ps qs a n h k = omega arith
parts' (x ∷ us) (b ∷ ws) ps qs a n h k = omega arith

-- Of the ranges that are routed into the device, just one contains a given IPv4 address, except on
-- macOS, where none contains an address below 1.0.0.0; without an IPv4 address on the device no
-- range contains it.
pub hits-auto_route_ranges4 :
    (goos : Os) (o : Options) (a : ℕ)
    → a < 2 ^ 32
    → hits (build_auto_route_ranges goos o) (Addr.v4 a)
      ≡ (if is_empty o.inet4_address then 0 else if reserved goos (2 ^ 24) a then 0 else 1)
unfolding build_auto_route_ranges
hits-auto_route_ranges4 goos o a h =
    let split =
      hits-append (or_none o.inet4_address (family_ranges goos Addr.v4 32))
        (or_none o.inet6_address (family_ranges goos Addr.v6 128)) (Addr.v4 a) in
    split
    ∙ parts o.inet4_address o.inet6_address _ _ _ _ (own_family4 goos a h) (other_family46 goos a)

-- Of the ranges that are routed into the device, just one contains a given IPv6 address, except on
-- macOS, where none contains an address below 100:: (the first byte is 0); without an IPv6 address on
-- the device no range contains it.
pub hits-auto_route_ranges6 :
    (goos : Os) (o : Options) (a : ℕ)
    → a < 2 ^ 128
    → hits (build_auto_route_ranges goos o) (Addr.v6 a)
      ≡ (if is_empty o.inet6_address then 0 else if reserved goos (2 ^ 120) a then 0 else 1)
unfolding build_auto_route_ranges
hits-auto_route_ranges6 goos o a h =
    let split =
      hits-append (or_none o.inet4_address (family_ranges goos Addr.v4 32))
        (or_none o.inet6_address (family_ranges goos Addr.v6 128)) (Addr.v6 a) in
    split
    ∙ parts' o.inet4_address o.inet6_address _ _ _ _ (other_family64 goos a) (own_family6 goos a h)
