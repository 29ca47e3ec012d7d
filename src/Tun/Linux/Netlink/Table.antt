-- ===== src/Tun/Linux/Netlink/Table.antt =====
-- A kernel's table of rules, and what netlink does to it.
use cropstun.Base.{
  ℕ, zero, suc, ◌≡◌, refl, sym, ap, ◌∙◌, ◌⊎◌, inl, inr, Bool, true, false, false≢true, subst, ◌&&◌,
  List, [], ◌∷◌, none, if◌then◌else◌, Bool-cases, arith,
}
use cropstun.Base.Int.{ℤ, pos, ◌+ℤ◌, leb_ℤ}
use cropstun.Base.Go.{ok}
use cropstun.Tun.Linux.Rules.{Rule, Family}
use cropstun.Tun.Linux.Rules.Range.{InRange}
use cropstun.Tun.Linux.System.{System}

abbrev pub family_eq : Family → Family → Bool
family_eq Family.inet Family.inet = true
family_eq Family.inet6 Family.inet6 = true
family_eq Family.all Family.all = true
family_eq _ _ = false

abbrev pub int_eq : ℤ → ℤ → Bool
int_eq a b = leb_ℤ a b && leb_ℤ b a

abbrev pub matches : Family → ℤ → Rule → Bool
matches family priority r = family_eq family r.family && int_eq priority r.priority

abbrev pub has_match : Family → ℤ → List Rule → Bool
has_match family priority [] = false
has_match family priority (r ∷ rs) =
    if matches family priority r then true else has_match family priority rs

abbrev pub remove_first : Family → ℤ → List Rule → List Rule
remove_first family priority [] = []
remove_first family priority (r ∷ rs) =
    if matches family priority r then rs else r ∷ remove_first family priority rs

abbrev pub insert_at : ℕ → Rule → List Rule → List Rule
insert_at zero r rs = r ∷ rs
insert_at (suc i) r [] = r ∷ []
insert_at (suc i) r (x ∷ xs) = x ∷ insert_at i r xs

-- The documented behaviour of rule messages: a dump lists the table; an added rule stands somewhere
-- in it, and a failed addition changes nothing; a deletion removes the first rule with the family
-- and priority, if there is one.
pub record Faithful {K : Type 0} (sys : System K) (table : K → List Rule) : Type 0 where
  pub listed : (k : K) → sys.rule_list k Family.all ≡ ok (table k)
  pub added :
      (k : K) (r : Rule)
      → (table (sys.rule_add k r).1 ≡ table k)
        ⊎ (i : ℕ) × (table (sys.rule_add k r).1 ≡ insert_at i r (table k))
  pub deleted :
      (k : K) (r : Rule)
      → has_match r.family r.priority (table k) ≡ true
      → ((sys.rule_del k r).0 ≡ none)
        × (table (sys.rule_del k r).1 ≡ remove_first r.family r.priority (table k))

abbrev pub in_range : ℤ → ℤ → Bool
in_range start priority = leb_ℤ start priority && leb_ℤ priority (start +ℤ pos 10)

pub InRange→in_range :
    (start priority : ℤ) → InRange start priority → in_range start priority ≡ true
InRange→in_range start priority h = ground arith

-- The rules with a priority in the range, and the others.
abbrev pub inside : ℤ → List Rule → List Rule
inside start [] = []
inside start (r ∷ rs) = if in_range start r.priority then r ∷ inside start rs else inside start rs

abbrev pub outside : ℤ → List Rule → List Rule
outside start [] = []
outside start (r ∷ rs) =
    if in_range start r.priority then outside start rs else r ∷ outside start rs

matches_self : (r : Rule) → matches r.family r.priority r ≡ true
matches_self r = ground arith

matches-in_range :
    (start : ℤ) (family : Family) (priority : ℤ) (r : Rule)
    → matches family priority r ≡ true
    → in_range start priority ≡ true
    → in_range start r.priority ≡ true
matches-in_range start family priority r m h = ground arith

matches-outside :
    (start : ℤ) (family : Family) (priority : ℤ) (r : Rule)
    → in_range start priority ≡ true
    → in_range start r.priority ≡ false
    → matches family priority r ≡ false
matches-outside start family priority r h n = elim (Bool-cases (matches family priority r)) [
  | inl m ↦ absurd (false≢true (sym n ∙ matches-in_range start family priority r m h))
  | inr m ↦ m
]

pub outside-insert_at :
    (start : ℤ) (i : ℕ) (r : Rule) (rs : List Rule)
    → in_range start r.priority ≡ true
    → outside start (insert_at i r rs) ≡ outside start rs
outside-insert_at start zero r rs h = rw h
outside-insert_at start (suc i) r [] h = rw h
outside-insert_at start (suc i) r (x ∷ xs) h = elim (Bool-cases (in_range start x.priority)) [
  | inl e ↦ rw e (outside-insert_at start i r xs h)
  | inr e ↦ rw e (ap (◌∷◌ x) (outside-insert_at start i r xs h))
]

-- To delete by the family and priority of the first rule in the range deletes that rule.
pub remove-first_inside :
    (start : ℤ) (r : Rule) (q rs : List Rule)
    → in_range start r.priority ≡ true
    → inside start rs ≡ r ∷ q
    → (has_match r.family r.priority rs ≡ true)
      × (inside start (remove_first r.family r.priority rs) ≡ q)
      × (outside start (remove_first r.family r.priority rs) ≡ outside start rs)
remove-first_inside start r q [] h e = cc
remove-first_inside start r q (x ∷ xs) h e = elim (Bool-cases (in_range start x.priority)) [
  | inl i ↦
      let e' : x ∷ inside start xs ≡ r ∷ q = rw i at e in
      let same : x ≡ r = cc in
      let rest : inside start xs ≡ q = cc in
      let m = subst (λ y. matches r.family r.priority y ≡ true) (sym same) (matches_self r) in
      rw (m, i) (refl, rest, refl)
  | inr n ↦
      let e' : inside start xs ≡ r ∷ q = rw n at e in
      let (found, inner, outer) = remove-first_inside start r q xs h e' in
      let m = matches-outside start r.family r.priority x h n in
      rw (m, n) (found, inner, ap (◌∷◌ x) outer)
]
