-- ===== src/Tun/Linux/Netlink/Undo.antt =====
-- tun_linux.go: `setRules` followed by `unsetRules`.
use cropstun.Base.{
  ◌≡◌, refl, ap, ◌∙◌, inl, inr, true, false, List, [], ◌∷◌, Option, none, All, All-imp, Bool-cases,
  Option-cases,
}
use cropstun.Base.Int.{ℤ}
use cropstun.Base.Go.{Error}
use cropstun.Tun.Options.{Options}
use cropstun.Tun.Linux.Rules.{Rule, rules, auto_rules}
use cropstun.Tun.Linux.Rules.Range.{Placed, auto_rules-Placed}
use cropstun.Tun.Linux.System.{System}
use cropstun.Tun.Linux.Netlink.{
  NativeTun, try_each, try_each-none, try_each-some, set_rules, rule_to_del, del_in_range,
  unset_range, unset_auto, unset_rules,
}
use cropstun.Tun.Linux.Netlink.Table.{
  Faithful, in_range, inside, outside, outside-insert_at, remove-first_inside, InRange→in_range,
}

module _ {K : Type 0} (sys : System K) (table : K → List Rule) (law : Faithful sys table) where
  -- An added rule of the range leaves the other rules alone.
  outside-rule_add :
      (start : ℤ) (k : K) (r : Rule)
      → in_range start r.priority ≡ true
      → outside start (table (sys.rule_add k r).1) ≡ outside start (table k)
  outside-rule_add start k r h = elim (law.added k r) [
    | inl e ↦ ap (outside start) e
    | inr p ↦ ap (outside start) p.1 ∙ outside-insert_at start p.0 r (table k) h
  ]

  outside-try_add :
      (start : ℤ) (rs : List Rule) (k : K)
      → All (λ r. in_range start r.priority ≡ true) rs
      → outside start (table (try_each sys.rule_add k rs).1) ≡ outside start (table k)
  outside-try_add start [] k h = unfold try_each in refl
  outside-try_add start (r ∷ rs) k h = elim (Option-cases (sys.rule_add k r).0) [
    | inl e ↦
        rw (try_each-none sys.rule_add k r rs e)
          (outside-try_add start rs (sys.rule_add k r).1 h.1 ∙ outside-rule_add start k r h.0)
    | inr (x, e) ↦ rw (try_each-some sys.rule_add k r rs x e) (outside-rule_add start k r h.0)
  ]

  -- The range is empty, the other rules are those of an earlier state.
  abbrev Emptied : ℤ → K → Option Error × K → Type 0
  Emptied start k (e, k') =
      (e ≡ none)
      × (inside start (table k') ≡ [])
      × (outside start (table k') ≡ outside start (table k))

  del_outside :
      (start : ℤ) (k : K) (r : Rule)
      → in_range start r.priority ≡ false
      → del_in_range sys start k r ≡ (none, k)
  unfolding del_in_range
  del_outside start k r n = rw n

  del_inside :
      (start : ℤ) (k : K) (r : Rule)
      → in_range start r.priority ≡ true
      → del_in_range sys start k r ≡ sys.rule_del k (rule_to_del sys r.family r.priority)
  unfolding del_in_range
  del_inside start k r i = rw i

  -- The loop over a dump that agrees with the table in the range empties the range.
  unset-loop :
      (start : ℤ) (rs : List Rule) (k : K)
      → inside start (table k) ≡ inside start rs
      → Emptied start k (try_each (del_in_range sys start) k rs)
  unset-loop start [] k h = unfold try_each in (refl, h, refl)
  unset-loop start (r ∷ rs) k h = elim (Bool-cases (in_range start r.priority)) [
    | inr n ↦
        let e = del_outside start k r n in
        rw (try_each-none (del_in_range sys start) k r rs (ap (λ p. p.0) e))
          (rw e (unset-loop start rs k (rw n at h)))
    | inl i ↦
        let e = del_inside start k r i in
        let h' : inside start (table k) ≡ r ∷ inside start rs = rw i at h in
        let (found, inner, outer) = remove-first_inside start r _ (table k) i h' in
        let (fine, gone) = law.deleted k (rule_to_del sys r.family r.priority) found in
        let k' = (sys.rule_del k (rule_to_del sys r.family r.priority)).1 in
        let (done, empty, kept) = unset-loop start rs k' (ap (inside start) gone ∙ inner) in
        rw (try_each-none (del_in_range sys start) k r rs (ap (λ p. p.0) e ∙ fine))
          (rw e (done, empty, kept ∙ ap (outside start) gone ∙ outer))
  ]

  unset_range-Emptied :
      (k : K) (t : NativeTun) → Emptied t.options.rule_index k (unset_range sys k t)
  unfolding unset_range
  unset_range-Emptied k t =
      rw (law.listed k, unset_range) (unset-loop t.options.rule_index (table k) k refl)

  set_rules-auto :
      (k : K) (t : NativeTun)
      → t.options.auto_route ≡ true
      → set_rules sys k t
        ≡ (let (e, k') = try_each sys.rule_add k (auto_rules sys.new_rule t.options) in (e, k', t))
  unfolding set_rules rules
  set_rules-auto k t auto = rw (auto, rules)

  unset_rules-auto :
      (k : K) (t : NativeTun)
      → t.options.auto_route ≡ true
      → t.rule_index6 ≡ []
      → unset_rules sys k t ≡ (let (e, k') = unset_range sys k t in (e, k', t))
  unfolding unset_rules unset_auto
  unset_rules-auto k t auto none6 = rw (none6, auto, unset_auto)

  auto_rules-in_range :
      (o : Options) → All (λ r. in_range o.rule_index r.priority ≡ true) (auto_rules sys.new_rule o)
  auto_rules-in_range o =
      All-imp (Placed sys.new_rule o) _ (auto_rules sys.new_rule o)
        (λ r p. InRange→in_range o.rule_index r.priority p.in_range)
        (auto_rules-Placed sys.new_rule o)

  -- `setRules`, and then `unsetRules` on the device that it leaves.
  abbrev pub set_then_unset : K → NativeTun → Option Error × K × NativeTun
  set_then_unset k t = let (_, k', t') = set_rules sys k t in unset_rules sys k' t'

  -- On a kernel that keeps its table of rules as documented, with automatic routes and without an
  -- index that `nextIndex6` has noted, `unsetRules` returns no error and undoes `setRules`, also one
  -- that stopped half way with an error: no rule is left in the range of priorities from the rule index to ten
  -- above it, and the rules outside it are those from before, in their order.
  pub set_then_unset_lem :
      (k : K) (t : NativeTun)
      → t.options.auto_route ≡ true
      → t.rule_index6 ≡ []
      → ((set_then_unset k t).0 ≡ none)
        × (inside t.options.rule_index (table (set_then_unset k t).1) ≡ [])
        × (outside t.options.rule_index (table (set_then_unset k t).1)
            ≡ outside t.options.rule_index (table k))
  set_then_unset_lem k t auto none6 =
      let added = try_each sys.rule_add k (auto_rules sys.new_rule t.options) in
      let (done, empty, kept) = unset_range-Emptied added.1 t in
      rw (set_rules-auto k t auto, unset_rules-auto added.1 t auto none6)
        (
          done,
          empty,
          kept
              ∙ outside-try_add t.options.rule_index (auto_rules sys.new_rule t.options) k
                  (auto_rules-in_range t.options),
        )
