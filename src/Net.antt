-- ===== src/Net.antt =====
-- What the source uses of Go's net/netip: addresses as numbers of 32 or 128 bits, and prefixes.
use cropstun.Base.{
  ℕ, ◌+◌, ◌-◌, ◌*◌, ◌/◌, ◌^◌, Bool, true, false, List, [], ◌∷◌, ◌==◌, if◌then◌else◌,
}

-- `invalid` is the zero `netip.Addr`. Zones do not occur.
pub data Addr : Type 0 where
  invalid : Addr
  v4 : ℕ → Addr
  v6 : ℕ → Addr

abbrev pub is4 : Addr → Bool
is4 (Addr.v4 a) = true
is4 _ = false

abbrev pub is6 : Addr → Bool
is6 (Addr.v6 a) = true
is6 _ = false

abbrev pub is_valid : Addr → Bool
is_valid Addr.invalid = false
is_valid _ = true

abbrev pub addr_eq : Addr → Addr → Bool
addr_eq Addr.invalid Addr.invalid = true
addr_eq (Addr.v4 a) (Addr.v4 b) = a == b
addr_eq (Addr.v6 a) (Addr.v6 b) = a == b
addr_eq _ _ = false

abbrev pub is_unspecified : Addr → Bool
is_unspecified (Addr.v4 a) = a == 0
is_unspecified (Addr.v6 a) = a == 0
is_unspecified _ = false

abbrev pub bit_length : Addr → ℕ
bit_length Addr.invalid = 0
bit_length (Addr.v4 a) = 32
bit_length (Addr.v6 a) = 128

pub record Prefix : Type 0 where
  pub addr : Addr
  pub bits : ℕ

-- The two addresses agree in their first `bits` bits.
abbrev pub same_start : ℕ → ℕ → ℕ → ℕ → Bool
same_start width bits a b = a / 2 ^ (width - bits) == b / 2 ^ (width - bits)

-- `Prefix.Contains`
abbrev pub contains_at : Addr → ℕ → Addr → Bool
contains_at (Addr.v4 a) bits (Addr.v4 b) = same_start 32 bits a b
contains_at (Addr.v6 a) bits (Addr.v6 b) = same_start 128 bits a b
contains_at _ _ _ = false

abbrev pub contains : Prefix → Addr → Bool
contains p a = contains_at p.addr p.bits a

-- `Prefix.Masked`: the bits behind the prefix are cleared.
abbrev pub masked_addr : Addr → ℕ → Addr
masked_addr Addr.invalid bits = Addr.invalid
masked_addr (Addr.v4 a) bits = Addr.v4 (a / 2 ^ (32 - bits) * 2 ^ (32 - bits))
masked_addr (Addr.v6 a) bits = Addr.v6 (a / 2 ^ (128 - bits) * 2 ^ (128 - bits))

abbrev pub masked : Prefix → Prefix
masked p = record p { addr = masked_addr p.addr p.bits }

-- How many of the prefixes contain the address.
abbrev pub hits : List Prefix → Addr → ℕ
hits [] a = 0
hits (p ∷ ps) a = (if contains p a then 1 else 0) + hits ps a
