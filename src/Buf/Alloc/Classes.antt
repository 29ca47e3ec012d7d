-- ===== src/Buf/Alloc/Classes.antt =====
-- Which pool `Get` chooses for a size.
use cropstun.Base.{
  ℕ, zero, suc, ◌+◌, ◌*◌, ◌/◌, ◌%◌, ◌^◌, ◌≤◌, ◌<◌, ◌≡◌, refl, ◌⊎◌, inl, inr, arith, two_pow-suc,
  two_pow_pos, exponent_lt, exponent_le, ap, dec_lt, ℕ_discrete, two_pow_mono, ◌≢◌,
}
use cropstun.Buf.Alloc.{bit_len, msb, class_index, class_size}

bit_len-zero : (rounds : ℕ) → bit_len rounds 0 ≡ 0
unfolding bit_len
bit_len-zero zero = refl
bit_len-zero (suc rounds) = refl

bit_len-le : (rounds x : ℕ) → bit_len rounds x ≤ rounds
unfolding bit_len
bit_len-le zero x = omega arith
bit_len-le (suc rounds) x = ground (arith, bit_len-le rounds (x / 2))

bit_len_above : (rounds x : ℕ) → x < 2 ^ rounds → x < 2 ^ bit_len rounds x
unfolding bit_len
bit_len_above zero x h = h
bit_len_above (suc rounds) x h =
    ground (
      arith,
      two_pow-suc rounds,
      two_pow-suc (bit_len rounds (x / 2)),
      bit_len_above rounds (x / 2),
    )

bit_len_below : (rounds x : ℕ) → 0 < x → 2 ^ bit_len rounds x ≤ 2 * x
unfolding bit_len
bit_len_below zero x h = omega arith
bit_len_below (suc rounds) x h =
    ground (
      arith,
      two_pow-suc (bit_len rounds (x / 2)),
      bit_len-zero rounds,
      bit_len_below rounds (x / 2),
    )

bit_len_pos : (rounds x : ℕ) → 0 < x → x < 2 ^ rounds → 0 < bit_len rounds x
bit_len_pos rounds x h k =
    exponent_lt 0 (bit_len rounds x) (omega (arith, bit_len_above rounds x k))

suc-msb : (x : ℕ) → 0 < x → x < 2 ^ 32 → suc (msb x) ≡ bit_len 32 x
unfolding msb
suc-msb x h k =
    let small : x % 2 ^ 32 ≡ x = omega arith in
    omega (arith, ap (bit_len 32) small, bit_len-le 32 x, bit_len_pos 32 x h k)

-- `msb` is the position of the highest bit.
pub msb_bounds :
    (x : ℕ) → 0 < x → x < 2 ^ 32 → (2 ^ msb x ≤ x) × (x < 2 ^ suc (msb x)) × (msb x ≤ 31)
msb_bounds x h k =
    let e = suc-msb x h k in
    (
      omega (arith, two_pow-suc (msb x), ap (λ n. 2 ^ n) e, bit_len_below 32 x h),
      omega (arith, ap (λ n. 2 ^ n) e, bit_len_above 32 x k),
      omega (arith, e, bit_len-le 32 x),
    )

-- A power of two is found.
pub msb-pow : (k : ℕ) → k ≤ 31 → msb (2 ^ k) ≡ k
msb-pow k h =
    let b = msb_bounds (2 ^ k) (two_pow_pos k) (omega (arith, two_pow_mono k 31 h)) in
    omega (arith, exponent_le (msb (2 ^ k)) k b.0, exponent_lt k (suc (msb (2 ^ k))) b.1)

-- What the search of a pool has to establish.
abbrev pub Serves : ℕ → ℕ → Type 0
Serves size index =
    (index ≤ 10)
    × (size ≤ class_size index)
    × ((size ≤ 64) × (index ≡ 0) ⊎ (class_size index < 2 * size))

class_index_small : (size : ℕ) → size ≤ 64 → class_index size ≡ 0
unfolding class_index
class_index_small size h = ground arith

class_index_exact :
    (size : ℕ)
    → 64 < size
    → 6 ≤ msb size
    → msb size ≤ 31
    → size ≡ 2 ^ msb size
    → class_index size + 6 ≡ msb size
unfolding class_index
class_index_exact size h low high e = ground arith

class_index_above :
    (size : ℕ)
    → 64 < size
    → 6 ≤ msb size
    → msb size ≤ 31
    → size ≢ 2 ^ msb size
    → class_index size + 6 ≡ suc (msb size)
unfolding class_index
class_index_above size h low high ne = ground arith

module _ (size : ℕ) (big : 64 < size) (bounded : size ≤ 65536)
    (b : (2 ^ msb size ≤ size) × (size < 2 ^ suc (msb size)) × (msb size ≤ 31)) where
  low : 6 ≤ msb size
  low = omega (arith, exponent_lt 6 (suc (msb size)) (omega arith))

  class_index_big : Serves size (class_index size)
  class_index_big = elim (ℕ_discrete size (2 ^ msb size)) [
    | yes e ↦
        let i = class_index_exact size big low b.2 e in
        let p = ap (λ n. 2 ^ n) i in
        (
          omega (arith, i, exponent_le (msb size) 16 (omega arith)),
          omega (arith, p),
          inr (omega (arith, p)),
        )
    | no ne ↦
        let i = class_index_above size big low b.2 ne in
        let p = ap (λ n. 2 ^ n) i in
        (
          omega (arith, i, exponent_lt (msb size) 16 (omega arith)),
          omega (arith, p),
          inr (omega (arith, p, two_pow-suc (msb size))),
        )
  ]

-- The pool of a size is one of the eleven; its arrays hold the size, and less than double of it
-- where the size is above 64.
pub class_index_lem : (size : ℕ) → 0 < size → size ≤ 65536 → Serves size (class_index size)
class_index_lem size h k = elim (dec_lt 64 size) [
  | no small ↦
      rw (class_index_small size (omega arith)) (omega arith, omega arith, inl (omega arith))
  | yes big ↦ class_index_big size big k (msb_bounds size h (omega arith))
]
