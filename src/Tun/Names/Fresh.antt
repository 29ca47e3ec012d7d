-- ===== src/Tun/Names/Fresh.antt =====
-- tun.go: the name that `CalculateInterfaceName` yields, and those in use.
use cropstun.Base.{
  ℕ, zero, suc, ◌+◌, ◌-◌, ◌*◌, ◌/◌, ◌%◌, ◌^◌, ◌≤◌, ◌<◌, ◌≡◌, refl, sym, ap, subst, ◌∙◌, ◌≢◌, true,
  false, ◌&&◌, List, [], ◌∷◌, ◌++◌, Option, none, some, length, drop, All, All-imp, inl, inr, leb,
  ltb, ◌==◌, ==_iff, Bool-cases, arith,
}
use cropstun.Base.Int.{ℤ, pos, negsuc}
use cropstun.Tun.Ranges.{Os}
use cropstun.Tun.Names.{
  format_onto, format, parse_digits, parse_int16, has_prefix, base_name, index_of, bump, next_index,
  calculate_interface_name,
}

parse_digits-cons :
    (acc d : ℕ) (tail : List ℕ)
    → d < 10
    → parse_digits acc ((b'0' + d) ∷ tail) ≡ parse_digits (acc * 10 + d) tail
unfolding parse_digits
parse_digits-cons acc d tail h =
    let g : (leb b'0' (b'0' + d) && leb (b'0' + d) b'9') ≡ true = ground arith in
    let e : b'0' + d - b'0' ≡ d = omega arith in rw (g, e)

parse_digits-format_onto :
    (fuel n : ℕ) (tail : List ℕ)
    → n < fuel
    → parse_digits 0 (format_onto fuel n tail) ≡ parse_digits n tail
unfolding format_onto
parse_digits-format_onto zero n tail h = absurd (omega arith)
parse_digits-format_onto (suc fuel) n tail h = elim (Bool-cases (ltb n 10)) [
  | inl e ↦
      rw e (parse_digits-cons 0 n tail (ground arith) ∙ ap (λ k. parse_digits k tail) (omega arith))
  | inr e ↦ rw e (
      parse_digits-format_onto fuel (n / 10) ((b'0' + n % 10) ∷ tail) (ground arith)
      ∙ parse_digits-cons (n / 10) (n % 10) tail (omega arith)
      ∙ ap (λ k. parse_digits k tail) (omega arith))
]

-- The text begins with a digit.
abbrev StartsWithDigit : List ℕ → Type 0
StartsWithDigit [] = ⊥
StartsWithDigit (c ∷ cs) = b'0' ≤ c

format_onto-StartsWithDigit :
    (fuel n : ℕ) (tail : List ℕ) → n < fuel → StartsWithDigit (format_onto fuel n tail)
unfolding format_onto
format_onto-StartsWithDigit zero n tail h = absurd (omega arith)
format_onto-StartsWithDigit (suc fuel) n tail h = elim (Bool-cases (ltb n 10)) [
  | inl e ↦ rw e (omega arith)
  | inr e ↦ rw e (format_onto-StartsWithDigit fuel (n / 10) _ (ground arith))
]

parse_int16-unsigned :
    (s : List ℕ) (n : ℕ)
    → StartsWithDigit s
    → parse_digits 0 s ≡ some n
    → n < 2 ^ 15
    → parse_int16 s ≡ some (pos n)
unfolding parse_int16
parse_int16-unsigned [] n d e h = elim d [ ]
parse_int16-unsigned (c ∷ cs) n d e h =
    let plus : (c == b'+') ≡ false = ground arith in
    let minus : (c == b'-') ≡ false = ground arith in rw (plus, minus, e) (ground arith)

-- A number that fits into 15 bits is read back.
parse_int16-format : (n : ℕ) → n < 2 ^ 15 → parse_int16 (format n) ≡ some (pos n)
unfolding format
parse_int16-format n h =
    parse_int16-unsigned (format_onto (suc n) n []) n
      (format_onto-StartsWithDigit (suc n) n [] (omega arith))
      (parse_digits-format_onto (suc n) n [] (omega arith) ∙ unfold parse_digits in refl) h

has_prefix-append : (base s : List ℕ) → has_prefix (base ++ s) base ≡ true
unfolding has_prefix
has_prefix-append [] s = refl
has_prefix-append (c ∷ cs) s = rw ((==_iff c c).1 refl) (has_prefix-append cs s)

drop-append : (base s : List ℕ) → drop (length base) (base ++ s) ≡ s
drop-append [] s = refl
drop-append (c ∷ cs) s = drop-append cs s

index_of-append :
    (base : List ℕ) (n : ℕ) → n < 2 ^ 15 → index_of base (base ++ format n) ≡ some (pos n)
unfolding index_of
index_of-append base n h =
    rw (has_prefix-append base (format n), drop-append base (format n)) (parse_int16-format n h)

bump-le : (r : Option ℤ) (k : ℕ) → k ≤ bump r k
bump-le none k = omega arith
bump-le (some (negsuc n)) k = omega arith
bump-le (some (pos i)) k = ground arith

bump_above : (i k : ℕ) → i < bump (some (pos i)) k
bump_above i k = ground arith

next_index-le : (base : List ℕ) (ns : List (List ℕ)) (k : ℕ) → k ≤ next_index base ns k
unfolding next_index
next_index-le base [] k = omega arith
next_index-le base (n ∷ ns) k =
    omega (arith, next_index-le base ns (bump (index_of base n) k), bump-le (index_of base n) k)

-- No interface has the number that the loop ends with.
next_index-unused :
    (base : List ℕ) (ns : List (List ℕ)) (k m : ℕ)
    → next_index base ns k ≤ m
    → All (λ n. index_of base n ≢ some (pos m)) ns
unfolding next_index
next_index-unused base [] k m h = tt
next_index-unused base (n ∷ ns) k m h = (
  λ e. absurd (
      omega (
        arith,
        h,
        next_index-le base ns (bump (index_of base n) k),
        subst (λ r. m < bump r k) (sym e) (bump_above m k),
      )),
  next_index-unused base ns _ m h,
)

-- The calculated name differs from the name of every interface that exists, as long as the number
-- that it ends with is below 32768.
pub calculate_interface_name-unused :
    (goos : Os) (name : List ℕ) (interfaces : List (List ℕ))
    → next_index (base_name goos name) interfaces 0 < 2 ^ 15
    → All (λ n. calculate_interface_name goos name (some interfaces) ≢ n) interfaces
unfolding calculate_interface_name
calculate_interface_name-unused goos name interfaces h =
    let base = base_name goos name in
    let k = next_index base interfaces 0 in
    All-imp (λ n. index_of base n ≢ some (pos k)) _ interfaces
      (λ n ne e. ne (ap (index_of base) (sym e) ∙ index_of-append base k h))
      (next_index-unused base interfaces 0 k (omega arith))
