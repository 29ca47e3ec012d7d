-- ===== src/Tun/Linux/Rules/Range.antt =====
-- Where the priorities and the jumps of the automatic rules lie.
use cropstun.Base.{
  ℕ, ◌≤◌, ◌≡◌, refl, ◌⊎◌, inl, inr, Bool, true, false, not, List, All, All-append, All-map,
  All-concat, arith,
}
use cropstun.Base.Int.{ℤ, pos, ◌+ℤ◌, ◌≤ℤ◌}
use cropstun.Tun.Options.{Options, is_empty}
use cropstun.Tun.Linux.Rules.{
  Rule, Family, first4, first6, main_table, second4, second6, when, nop_rule, auto_groups,
  auto_rules,
}

-- The priorities that `unsetRules` removes.
abbrev pub InRange : ℤ → ℤ → Type 0
InRange start priority = (start ≤ℤ priority) × (priority ≤ℤ start +ℤ pos 10)

InRange-add : (start : ℤ) (k : ℕ) → k ≤ 10 → InRange start (start +ℤ pos k)
InRange-add start k h = ground arith

InRange-start : (start : ℤ) → InRange start start
InRange-start start = ground arith

before_nop : (start : ℤ) (k : ℕ) → k ≤ 9 → start +ℤ pos k +ℤ pos 1 ≤ℤ start +ℤ pos 10
before_nop start k h = ground arith

module _ (new_rule : Rule) (o : Options) where
  abbrev pub start : ℤ
  start = o.rule_index

  abbrev pub nop : ℤ
  nop = o.rule_index +ℤ pos 10

  -- No jump, or a jump forward to the last priority.
  abbrev pub Jumps : Rule → Type 0
  Jumps r = (r.goto ≡ new_rule.goto) ⊎ (r.goto ≡ nop) × (r.priority +ℤ pos 1 ≤ℤ nop)

  pub record Placed (r : Rule) : Type 0 where
    pub in_range : InRange start r.priority
    pub jumps : Jumps r

  plain :
      {r : Rule} (k : ℕ) → r.priority ≡ start +ℤ pos k → k ≤ 10 → r.goto ≡ new_rule.goto → Placed r
  plain k e h g = record { in_range = rw e (InRange-add start k h); jumps = inl g }

  at_start : {r : Rule} → r.priority ≡ start → r.goto ≡ new_rule.goto → Placed r
  at_start e g = record { in_range = rw e (InRange-start start); jumps = inl g }

  jumping : {r : Rule} (k : ℕ) → r.priority ≡ start +ℤ pos k → k ≤ 9 → r.goto ≡ nop → Placed r
  jumping k e h g = record {
    in_range = rw e (InRange-add start k (omega arith));
    jumps = inr (g, rw e (before_nop start k h));
  }

  when-Placed : (b : Bool) (rs : List Rule) → All Placed rs → All Placed (when new_rule b rs)
  when-Placed true rs h = h
  when-Placed false rs h = tt

  first4-Placed : All Placed (first4 new_rule o start)
  unfolding first4
  first4-Placed =
      All-append Placed _ _ (All-map Placed _ o.inet4_address (λ a. at_start refl refl))
        (plain 1 refl (omega arith) refl, tt)

  first6-Placed : All Placed (first6 new_rule o start)
  unfolding first6
  first6-Placed = (at_start refl refl, tt)

  main_table-Placed :
      (family : Family) (k : ℕ) → k ≤ 10 → All Placed (main_table new_rule family (start +ℤ pos k))
  unfolding main_table
  main_table-Placed family k h = (plain k refl h refl, tt)

  second4-Placed : All Placed (second4 new_rule o start nop)
  unfolding second4
  second4-Placed = (
    jumping 2 refl (omega arith) refl,
    (
      plain 3 refl (omega arith) refl,
      (
        plain 3 refl (omega arith) refl,
        All-map Placed _ o.inet4_address (λ a. plain 3 refl (omega arith) refl),
      ),
    ),
  )

  second6-Placed : All Placed (second6 new_rule o start nop)
  unfolding second6
  second6-Placed = (
    jumping 1 refl (omega arith) refl,
    (
      jumping 1 refl (omega arith) refl,
      (
        jumping 1 refl (omega arith) refl,
        All-append Placed _ _
            (All-map Placed _ o.inet6_address (λ a. plain 2 refl (omega arith) refl))
            (plain 3 refl (omega arith) refl, tt),
      ),
    ),
  )

  nop_rule-Placed : (family : Family) → All Placed (nop_rule new_rule family nop)
  nop_rule-Placed family = (plain 10 refl (omega arith) refl, tt)

  -- The priorities of the automatic rules are those that `unsetRules` removes, from the rule index to
  -- ten above it. A rule that jumps jumps to the last of them, and lies before it.
  pub auto_rules-Placed : All Placed (auto_rules new_rule o)
  unfolding auto_rules
  auto_rules-Placed = All-concat Placed (auto_groups new_rule o) groups
    where
      p4 : Bool
      p4 = not (is_empty o.inet4_address)

      p6 : Bool
      p6 = not (is_empty o.inet6_address)

      groups : All (All Placed) (auto_groups new_rule o)
      groups = (
        when-Placed p4 _ first4-Placed,
        (
          when-Placed p6 _ first6-Placed,
          (
            when-Placed p4 _ (main_table-Placed Family.inet 2 (omega arith)),
            (
              when-Placed p6 _ (main_table-Placed Family.inet6 1 (omega arith)),
              (
                when-Placed p4 _ second4-Placed,
                (
                  when-Placed p6 _ second6-Placed,
                  (
                    when-Placed p4 _ (nop_rule-Placed Family.inet),
                    (when-Placed p6 _ (nop_rule-Placed Family.inet6), tt),
                  ),
                ),
              ),
            ),
          ),
        ),
      )
