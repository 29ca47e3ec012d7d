-- ===== src/Base/Windows.antt =====
-- Parts of an array: the window of `n` entries from index `i` on, and an overwrite from an index on
-- (Go's `copy` into a slice of the array).
use Prim.Native.Nat.{ℕ, zero, suc, ◌+◌, ◌-◌, ◌<◌, ◌≤◌}
use Prim.Native.Nat.add
use mathlib.Core.Path.{◌≡◌, refl, ap, sym, ◌∙◌}
use mathlib.Core.List.{List, [], ◌∷◌, ◌++◌}
use native.Mathlib.Omega.{arith}
use cropstun.Base.Lists.{length, set, take, drop, length-take, length-drop, get_elem?, get_or}
use mathlib.Core.Option.{some}

module _ {ℓ} {A : Type ℓ} where
  abbrev pub window : ℕ → ℕ → List A → List A
  window i n xs = take n (drop i xs)

  -- What does not fit into the array is lost.
  abbrev pub overwrite : List A → ℕ → List A → List A
  overwrite [] i src = []
  overwrite (x ∷ xs) zero [] = x ∷ xs
  overwrite (x ∷ xs) zero (v ∷ src) = v ∷ overwrite xs zero src
  overwrite (x ∷ xs) (suc i) src = x ∷ overwrite xs i src

module _ {ℓ} {A : Type ℓ} where
  pub length-overwrite :
      (xs : List A) (i : ℕ) (src : List A) → length (overwrite xs i src) ≡ length xs
  length-overwrite [] i src = refl
  length-overwrite (x ∷ xs) zero [] = refl
  length-overwrite (x ∷ xs) zero (v ∷ src) = ap suc (length-overwrite xs zero src)
  length-overwrite (x ∷ xs) (suc i) src = ap suc (length-overwrite xs i src)

  pub length-window : (i n : ℕ) (xs : List A) → i + n ≤ length xs → length (window i n xs) ≡ n
  length-window i n xs h = omega (arith, length-take n (drop i xs), length-drop i xs)

  take-nil : (n : ℕ) → take {A = A} n [] ≡ []
  take-nil zero = refl
  take-nil (suc n) = refl

  drop-nil : (n : ℕ) → drop {A = A} n [] ≡ []
  drop-nil zero = refl
  drop-nil (suc n) = refl

  pub take-add : (n m : ℕ) (xs : List A) → take (n + m) xs ≡ take n xs ++ window n m xs
  take-add zero m xs = ap (λ k. take k xs) (omega arith)
  take-add (suc n) m [] = take-nil (suc n + m) ∙ sym (take-nil m)
  take-add (suc n) m (x ∷ xs) = rw add.suc (ap (◌∷◌ x) (take-add n m xs))

  pub drop-drop : (i n : ℕ) (xs : List A) → drop n (drop i xs) ≡ drop (i + n) xs
  drop-drop zero n xs = ap (λ k. drop k xs) (omega arith)
  drop-drop (suc i) n [] = drop-nil n ∙ sym (drop-nil (suc i + n))
  drop-drop (suc i) n (x ∷ xs) = rw add.suc (drop-drop i n xs)

  -- A window splits where one likes.
  pub window-add :
      (i n m : ℕ) (xs : List A) → window i (n + m) xs ≡ window i n xs ++ window (i + n) m xs
  window-add i n m xs = rw (take-add n m (drop i xs), drop-drop i n xs)

  pub take-overwrite : (e n : ℕ) (xs src : List A) → n ≤ e → take n (overwrite xs e src) ≡ take n xs
  take-overwrite e zero xs src h = refl
  take-overwrite e (suc n) [] src h = refl
  take-overwrite zero (suc n) (x ∷ xs) src h = absurd (omega arith)
  take-overwrite (suc e) (suc n) (x ∷ xs) src h =
      ap (◌∷◌ x) (take-overwrite e n xs src (omega arith))

  -- An overwrite behind a window leaves it alone.
  pub window-overwrite_before :
      (e i n : ℕ) (xs src : List A) → i + n ≤ e → window i n (overwrite xs e src) ≡ window i n xs
  window-overwrite_before e zero n xs src h = take-overwrite e n xs src (omega arith)
  window-overwrite_before e (suc i) n [] src h = refl
  window-overwrite_before zero (suc i) n (x ∷ xs) src h = absurd (omega arith)
  window-overwrite_before (suc e) (suc i) n (x ∷ xs) src h =
      window-overwrite_before e i n xs src (omega arith)

  -- An overwrite that fits is read back.
  pub window-overwrite_self :
      (e : ℕ) (xs src : List A)
      → e + length src ≤ length xs
      → window e (length src) (overwrite xs e src) ≡ src
  window-overwrite_self zero [] [] h = refl
  window-overwrite_self zero [] (v ∷ src) h = absurd (omega arith)
  window-overwrite_self zero (x ∷ xs) [] h = refl
  window-overwrite_self zero (x ∷ xs) (v ∷ src) h =
      ap (◌∷◌ v) (window-overwrite_self zero xs src (omega arith))
  window-overwrite_self (suc e) [] [] h = refl
  window-overwrite_self (suc e) [] (v ∷ src) h = absurd (omega arith)
  window-overwrite_self (suc e) (x ∷ xs) src h = window-overwrite_self e xs src (omega arith)

  pub window_one :
      (i : ℕ) (xs : List A) (d : A) → i < length xs → window i 1 xs ≡ get_or xs i d ∷ []
  window_one i [] d h = absurd (omega arith)
  window_one zero (x ∷ xs) d h = refl
  window_one (suc i) (x ∷ xs) d h = window_one i xs d (omega arith)

  pub get_elem?-eq-get_or :
      (xs : List A) (i : ℕ) (d : A) → i < length xs → get_elem? xs i ≡ some (get_or xs i d)
  get_elem?-eq-get_or [] i d h = absurd (omega arith)
  get_elem?-eq-get_or (x ∷ xs) zero d h = refl
  get_elem?-eq-get_or (x ∷ xs) (suc i) d h = get_elem?-eq-get_or xs i d (omega arith)

  take-take : (n m : ℕ) (xs : List A) → n ≤ m → take n (take m xs) ≡ take n xs
  take-take zero m xs h = refl
  take-take (suc n) zero xs h = absurd (omega arith)
  take-take (suc n) (suc m) [] h = refl
  take-take (suc n) (suc m) (x ∷ xs) h = ap (◌∷◌ x) (take-take n m xs (omega arith))

  drop-take : (n m : ℕ) (xs : List A) → drop n (take m xs) ≡ take (m - n) (drop n xs)
  drop-take zero m xs = let e : m ≡ m - 0 = omega arith in ap (λ k. take k xs) e
  drop-take (suc n) zero xs =
      let e : 0 ≡ 0 - suc n = omega arith in drop-nil (suc n) ∙ ap (λ k. take k (drop (suc n) xs)) e
  drop-take (suc n) (suc m) [] = sym (take-nil (suc m - suc n))
  drop-take (suc n) (suc m) (x ∷ xs) =
      let e : m - n ≡ suc m - suc n = omega arith in
      drop-take n m xs ∙ ap (λ k. take k (drop n xs)) e

  -- The front of a window, and what is left of it.
  pub take-window : (n i m : ℕ) (xs : List A) → n ≤ m → take n (window i m xs) ≡ window i n xs
  take-window n i m xs h = take-take n m (drop i xs) h

  pub drop-window : (n i m : ℕ) (xs : List A) → drop n (window i m xs) ≡ window (i + n) (m - n) xs
  drop-window n i m xs = drop-take n m (drop i xs) ∙ ap (take (m - n)) (drop-drop i n xs)

  -- The window up to the end of what was written there.
  pub window-overwrite :
      (s e : ℕ) (xs src : List A)
      → s ≤ e
      → e + length src ≤ length xs
      → window s (e + length src - s) (overwrite xs e src) ≡ window s (e - s) xs ++ src
  window-overwrite s e xs src h k =
      let n : e + length src - s ≡ (e - s) + length src = omega arith in
      let m : s + (e - s) ≡ e = omega arith in
      rw (
        n,
        window-add s (e - s) (length src) (overwrite xs e src),
        m,
        window-overwrite_before e s (e - s) xs src (omega arith),
        window-overwrite_self e xs src k,
      )

  pub set-eq-overwrite : (xs : List A) (i : ℕ) (v : A) → set xs i v ≡ overwrite xs i (v ∷ [])
  set-eq-overwrite [] i v = refl
  set-eq-overwrite (x ∷ []) zero v = refl
  set-eq-overwrite (x ∷ y ∷ xs) zero v = refl
  set-eq-overwrite (x ∷ xs) (suc i) v = ap (◌∷◌ x) (set-eq-overwrite xs i v)

  pub get_elem?-take : (n i : ℕ) (xs : List A) → i < n → get_elem? (take n xs) i ≡ get_elem? xs i
  get_elem?-take zero i xs h = absurd (omega arith)
  get_elem?-take (suc n) i [] h = refl
  get_elem?-take (suc n) zero (x ∷ xs) h = refl
  get_elem?-take (suc n) (suc i) (x ∷ xs) h = get_elem?-take n i xs (omega arith)
