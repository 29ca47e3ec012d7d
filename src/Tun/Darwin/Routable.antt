-- ===== src/Tun/Darwin/Routable.antt =====
-- tun_darwin.go: addresses from which the requests to the kernel can be made.
use cropstun.Base.{ℕ, ◌*◌, ◌-◌, ◌^◌, ◌≤◌, List, [], ◌∷◌, All, All-append, arith, if◌then◌else◌}
use cropstun.Base.{true, ◌≡◌, refl, leb}
use cropstun.Base.Go.{returns, Returns}
use cropstun.Tun.Darwin.Requests.{
  as4, cidr_mask, alias_request4, alias_request6, route_message, own_address4,
}
use cropstun.Net.{Addr, Prefix}
use cropstun.Tun.Options.{Options, is_empty}
use cropstun.Tun.Ranges.{Os, family_ranges, build_auto_route_ranges}

-- A prefix of IPv4, and one of IPv6, with a length that its address can have.
abbrev pub FitsAddr4 : Addr → ℕ → Type 0
FitsAddr4 (Addr.v4 a) bits = bits ≤ 32
FitsAddr4 _ bits = ⊥

abbrev pub Fits4 : Prefix → Type 0
Fits4 p = FitsAddr4 p.addr p.bits

abbrev pub FitsAddr6 : Addr → ℕ → Type 0
FitsAddr6 (Addr.v6 a) bits = bits ≤ 128
FitsAddr6 _ bits = ⊥

abbrev pub Fits6 : Prefix → Type 0
Fits6 p = FitsAddr6 p.addr p.bits

-- A range whose family the device has an address of.
pub data Routable : List Prefix → List Prefix → Prefix → Type 0 where
  ranged4 :
      (a bits : ℕ) (q : Prefix) (qs ws : List Prefix)
      → bits ≤ 32
      → Routable (q ∷ qs) ws (record { addr = Addr.v4 a; bits = bits })
  ranged6 :
      (a bits : ℕ) (q : Prefix) (us qs : List Prefix)
      → bits ≤ 128
      → Routable us (q ∷ qs) (record { addr = Addr.v6 a; bits = bits })

family_ranges-All :
    (P : Prefix → Type 0) (family : ℕ → Addr) (width : ℕ)
    → ((a bits : ℕ) → bits ≤ 8 → P (record { addr = family a; bits = bits }))
    → All P (family_ranges Os.darwin family width)
unfolding family_ranges
family_ranges-All P family width h =
    let r : (first bits : ℕ)
        → bits ≤ 8
        → P (record { addr = family (first * 2 ^ (width - 8)); bits = bits }) =
      λ first bits. h (first * 2 ^ (width - 8)) bits in
    (
      r 1 8 (omega arith),
      (
        r 2 7 (omega arith),
        (
          r 4 6 (omega arith),
          (
            r 8 5 (omega arith),
            (
              r 16 4 (omega arith),
              (r 32 3 (omega arith), (r 64 2 (omega arith), (r 128 1 (omega arith), tt))),
            ),
          ),
        ),
      ),
    )

ranges4-Routable :
    (us ws : List Prefix)
    → All (Routable us ws) (if is_empty us then [] else family_ranges Os.darwin Addr.v4 32)
ranges4-Routable [] ws = tt
ranges4-Routable (q ∷ qs) ws =
    family_ranges-All _ Addr.v4 32 (λ a bits h. Routable.ranged4 a bits q qs ws (omega (arith, h)))

ranges6-Routable :
    (us ws : List Prefix)
    → All (Routable us ws) (if is_empty ws then [] else family_ranges Os.darwin Addr.v6 128)
ranges6-Routable us [] = tt
ranges6-Routable us (q ∷ qs) =
    family_ranges-All _ Addr.v6 128 (λ a bits h. Routable.ranged6 a bits q us qs (omega (arith, h)))

pub ranges-Routable :
    (o : Options)
    → All (Routable o.inet4_address o.inet6_address) (build_auto_route_ranges Os.darwin o)
unfolding build_auto_route_ranges
ranges-Routable o =
    All-append (Routable o.inet4_address o.inet6_address) _ _
      (ranges4-Routable o.inet4_address o.inet6_address)
      (ranges6-Routable o.inet4_address o.inet6_address)

pub mask-Returns : (width bits : ℕ) → bits ≤ width → Returns (λ m. Unit) (cidr_mask width bits)
mask-Returns width bits h = let t : leb bits width ≡ true = ground (arith, h) in rw t tt

pub alias_request4-Returns :
    (name : List ℕ) (addr : Addr) (bits : ℕ)
    → FitsAddr4 addr bits
    → Returns (λ r. Unit) (alias_request4 name (record { addr = addr; bits = bits }))
unfolding alias_request4
alias_request4-Returns name (Addr.v4 a) bits h =
    let t : leb bits 32 ≡ true = ground (arith, h) in rw t tt
alias_request4-Returns name (Addr.v6 a) bits h = elim h [ ]
alias_request4-Returns name Addr.invalid bits h = elim h [ ]

pub alias_request6-Returns :
    (name : List ℕ) (addr : Addr) (bits : ℕ)
    → FitsAddr6 addr bits
    → Returns (λ r. Unit) (alias_request6 name (record { addr = addr; bits = bits }))
unfolding alias_request6
alias_request6-Returns name (Addr.v6 a) bits h =
    let t : leb bits 128 ≡ true = ground (arith, h) in rw t tt
alias_request6-Returns name (Addr.v4 a) bits h = elim h [ ]
alias_request6-Returns name Addr.invalid bits h = elim h [ ]

pub own_address4-returns :
    (ps : List Prefix) → All Fits4 ps → (a : ℕ) × (own_address4 ps ≡ returns a)
own_address4-returns [] h = (0, refl)
own_address4-returns (p ∷ ps) h = as4-returns p.addr p.bits h.0
  where
    as4-returns : (addr : Addr) (bits : ℕ) → FitsAddr4 addr bits → (a : ℕ) × (as4 addr ≡ returns a)
    as4-returns (Addr.v4 a) bits h = (a, refl)
    as4-returns (Addr.v6 a) bits h = elim h [ ]
    as4-returns Addr.invalid bits h = elim h [ ]

-- The gateway has the range's family.
pub route_message4-Returns :
    (a bits : ℕ) (gateway : Addr) (n : ℕ)
    → bits ≤ 32
    → FitsAddr4 gateway n
    → Returns (λ m. Unit) (route_message (record { addr = Addr.v4 a; bits = bits }) gateway)
unfolding route_message
route_message4-Returns a bits (Addr.v4 g) n h f =
    let t : leb bits 32 ≡ true = ground (arith, h) in rw t tt
route_message4-Returns a bits (Addr.v6 g) n h f = elim f [ ]
route_message4-Returns a bits Addr.invalid n h f = elim f [ ]

pub route_message6-Returns :
    (a bits : ℕ) (gateway : Addr) (n : ℕ)
    → bits ≤ 128
    → FitsAddr6 gateway n
    → Returns (λ m. Unit) (route_message (record { addr = Addr.v6 a; bits = bits }) gateway)
unfolding route_message
route_message6-Returns a bits (Addr.v6 g) n h f =
    let t : leb bits 128 ≡ true = ground (arith, h) in rw t tt
route_message6-Returns a bits (Addr.v4 g) n h f = elim f [ ]
route_message6-Returns a bits Addr.invalid n h f = elim f [ ]
