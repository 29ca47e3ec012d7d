-- ===== src/Iface/Cached.antt =====
-- iface/iface.go: what the map holds after `FlushAllInterfaces`, and what is found in it.
use cropstun.Base.{
  ℕ, ◌≡◌, refl, sym, ap, subst, ◌∙◌, Bool, true, false, List, [], ◌∷◌, ◌++◌, Option, none, some,
  All, All-append, inl, inr, Bool-cases, if◌then◌else◌, false≢true,
}
use cropstun.Base.Go.{Result, ok, err}
use cropstun.Net.{Prefix, is4}
use cropstun.Process.Common.{bytes_eq}
use cropstun.Process.Linux.Holder.{bytes_eq_refl, bytes_eq→≡}
use cropstun.Iface.{
  Interface, NetInterface, Record, insert, lookup, or_error, get_interface_by_name, add_cidr,
  split_cidrs, interface_of, entry_with, entry_of, record_entry, record_all, flush_all_interfaces,
}

if_twice {ℓ} :
    {A : Type ℓ} (b : Bool) (x y z : A)
    → (if b then x else z) ≡ (if b then x else (if b then y else z))
if_twice true x y z = refl
if_twice false x y z = refl

-- A map yields what was put in last.
lookup-insert :
    (k n : List ℕ) (v : Interface) (r : Record)
    → lookup n (insert k v r) ≡ (if bytes_eq k n then some v else lookup n r)
unfolding lookup insert
lookup-insert k n v [] = refl
lookup-insert k n v ((k', v') ∷ r) = elim (Bool-cases (bytes_eq k' k)) [
  | inl e ↦ rw (lookup, insert, e, bytes_eq→≡ k' k e) (if_twice (bytes_eq k n) (some v) _ _)
  | inr e ↦
      rw (lookup, insert, e, lookup-insert k n v r)
        (elim (Bool-cases (bytes_eq k n)) [
          | inl h ↦
              let differs : bytes_eq k' n ≡ false =
                subst (λ x. bytes_eq k' x ≡ false) (bytes_eq→≡ k n h) e in
              rw (h, differs) refl
          | inr h ↦ rw h refl
        ])
]

-- The interface that the last one of that name in the list is recorded as.
abbrev pub latest : List ℕ → List NetInterface → Option Interface
latest n [] = none
latest n (i ∷ is) = elim (latest n is) [
  | some x ↦ some x
  | none ↦ if bytes_eq i.name n then entry_of i else none
]

abbrev or_else : Option Interface → Option Interface → Option Interface
or_else (some x) y = some x
or_else none y = y

-- The entry has the interface's name.
abbrev Named : NetInterface → Option Interface → Type 0
Named i none = Unit
Named i (some x) = x.name ≡ i.name

entry_with-Named : (i : NetInterface) (r : Result (List (Option Prefix))) → Named i (entry_with i r)
unfolding entry_with
entry_with-Named i (err e) = tt
entry_with-Named i (ok []) = tt
entry_with-Named i (ok (a ∷ addrs)) = refl

lookup-record_entry :
    (n : List ℕ) (i : NetInterface) (o : Option Interface) (r : Record)
    → Named i o
    → lookup n (record_entry o r) ≡ or_else (if bytes_eq i.name n then o else none) (lookup n r)
unfolding record_entry
lookup-record_entry n i none r h = elim (Bool-cases (bytes_eq i.name n)) [
  | inl e ↦ rw e refl
  | inr e ↦ rw e refl
]
lookup-record_entry n i (some x) r h =
    lookup-insert x.name n x r
    ∙ ap (λ k. if bytes_eq k n then some x else lookup n r) h
    ∙ elim (Bool-cases (bytes_eq i.name n)) [ inl e ↦ rw e refl | inr e ↦ rw e refl ]

or_else-later :
    (a b c : Option Interface)
    → or_else a (or_else b c) ≡ or_else (elim a [ some x ↦ some x | none ↦ b ]) c
or_else-later none b c = refl
or_else-later (some x) b c = refl

lookup-record_all :
    (n : List ℕ) (is : List NetInterface) (r : Record)
    → lookup n (record_all is r) ≡ or_else (latest n is) (lookup n r)
unfolding record_all entry_of
lookup-record_all n [] r = refl
lookup-record_all n (i ∷ is) r =
    lookup-record_all n is (record_entry (entry_of i) r)
    ∙ ap (or_else (latest n is))
        (lookup-record_entry n i (entry_of i) r (entry_with-Named i i.addrs))
    ∙ or_else-later (latest n is) _ (lookup n r)

or_else-none : (a : Option Interface) → or_else a none ≡ a
or_else-none none = refl
or_else-none (some x) = refl

-- When the interfaces of the system can be listed, then after `FlushAllInterfaces`, whatever the map
-- held before, `GetInterfaceByName` yields for a name the last listed interface of that name whose
-- addresses can be read and are not none, and an error if there is no such interface.
pub get_interface_by_name-latest :
    (is : List NetInterface) (before : Record) (name : List ℕ)
    → get_interface_by_name (flush_all_interfaces (ok is) before).1 name ≡ or_error (latest name is)
unfolding get_interface_by_name flush_all_interfaces lookup
get_interface_by_name-latest is before name =
    ap or_error (lookup-record_all name is [] ∙ or_else-none (latest name is))

-- An interface's addresses, those of IPv4 first.
pub record IsSplit (i : Interface) : Type 0 where
  pub both : i.addrs ≡ i.addrs4 ++ i.addrs6
  pub first : All (λ p. is4 p.addr ≡ true) i.addrs4
  pub second : All (λ p. is4 p.addr ≡ false) i.addrs6

-- No key occurs twice, and each entry stands under its own name, with its addresses split.
abbrev pub WellFormed : Record → Type 0
WellFormed [] = Unit
WellFormed ((k, i) ∷ r) =
    All (λ e. bytes_eq e.0 k ≡ false) r × (i.name ≡ k) × IsSplit i × WellFormed r

-- The maps that calls of `FlushAllInterfaces` lead to, from the one that is not yet made.
pub data Reach : Record → Type 0 where
  start : Reach []
  flush :
      (r : Record) (listed : Result (List NetInterface))
      → Reach r
      → Reach (flush_all_interfaces listed r).1

bytes_eq_sym : (a b : List ℕ) → bytes_eq a b ≡ false → bytes_eq b a ≡ false
bytes_eq_sym a b h = elim (Bool-cases (bytes_eq b a)) [
  | inr e ↦ e
  | inl e ↦ absurd (false≢true (sym h ∙ ap (bytes_eq a) (bytes_eq→≡ b a e) ∙ bytes_eq_refl a))
]

keys-insert :
    (k k' : List ℕ) (v : Interface) (r : Record)
    → bytes_eq k k' ≡ false
    → All (λ e. bytes_eq e.0 k' ≡ false) r
    → All (λ e. bytes_eq e.0 k' ≡ false) (insert k v r)
unfolding insert
keys-insert k k' v [] h all = (h, tt)
keys-insert k k' v ((k2, v2) ∷ r) h all = elim (Bool-cases (bytes_eq k2 k)) [
  | inl e ↦ rw (insert, e) (all.0, all.1)
  | inr e ↦ rw (insert, e) (all.0, keys-insert k k' v r h all.1)
]

insert-WellFormed :
    (v : Interface) (r : Record) → IsSplit v → WellFormed r → WellFormed (insert v.name v r)
unfolding insert
insert-WellFormed v [] s w = (tt, refl, s, tt)
insert-WellFormed v ((k, i) ∷ r) s w = elim (Bool-cases (bytes_eq k v.name)) [
  | inl e ↦ rw (insert, e) (w.0, sym (bytes_eq→≡ k v.name e), s, w.3)
  | inr e ↦
      rw (insert, e)
        (
          keys-insert v.name k v r (bytes_eq_sym k v.name e) w.0,
          w.1,
          w.2,
          insert-WellFormed v r s w.3,
        )
]

-- The two lists while the loop over the addresses runs.
abbrev Halves : List Prefix × List Prefix → Type 0
Halves cidrs = All (λ p. is4 p.addr ≡ true) cidrs.0 × All (λ p. is4 p.addr ≡ false) cidrs.1

add_cidr-Halves :
    (a : Option Prefix) (cidrs : List Prefix × List Prefix)
    → Halves cidrs
    → Halves (add_cidr a cidrs)
add_cidr-Halves none cidrs h = h
add_cidr-Halves (some p) cidrs h = elim (Bool-cases (is4 p.addr)) [
  | inl e ↦ rw e (All-append _ cidrs.0 (p ∷ []) h.0 (e, tt), h.1)
  | inr e ↦ rw e (h.0, All-append _ cidrs.1 (p ∷ []) h.1 (e, tt))
]

split_cidrs-Halves :
    (addrs : List (Option Prefix)) (cidrs : List Prefix × List Prefix)
    → Halves cidrs
    → Halves (split_cidrs addrs cidrs)
unfolding split_cidrs
split_cidrs-Halves [] cidrs h = h
split_cidrs-Halves (a ∷ addrs) cidrs h =
    split_cidrs-Halves addrs (add_cidr a cidrs) (add_cidr-Halves a cidrs h)

record_entry-WellFormed :
    (i : NetInterface) (l : Result (List (Option Prefix))) (r : Record)
    → WellFormed r
    → WellFormed (record_entry (entry_with i l) r)
unfolding record_entry entry_with
record_entry-WellFormed i (err e) r w = w
record_entry-WellFormed i (ok []) r w = w
record_entry-WellFormed i (ok (a ∷ addrs)) r w =
    let h = split_cidrs-Halves (a ∷ addrs) ([], []) (tt, tt) in
    insert-WellFormed (interface_of i (split_cidrs (a ∷ addrs) ([], []))) r
      (record { both = refl; first = h.0; second = h.1 }) w

record_all-WellFormed :
    (is : List NetInterface) (r : Record) → WellFormed r → WellFormed (record_all is r)
unfolding record_all entry_of
record_all-WellFormed [] r w = w
record_all-WellFormed (i ∷ is) r w =
    record_all-WellFormed is (record_entry (entry_of i) r) (record_entry-WellFormed i i.addrs r w)

-- After any calls of `FlushAllInterfaces`, failed ones among them, no name occurs twice in the map,
-- each interface stands under its own name, its IPv4 list holds addresses of IPv4 only and the other
-- list none of them, and its list of all addresses is the one followed by the other.
pub Reach-WellFormed : (r : Record) → Reach r → WellFormed r
unfolding flush_all_interfaces
Reach-WellFormed _ Reach.start = tt
Reach-WellFormed _ (Reach.flush r (err e) reach) = tt
Reach-WellFormed _ (Reach.flush r (ok is) reach) = record_all-WellFormed is [] tt
