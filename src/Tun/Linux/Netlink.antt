-- ===== src/Tun/Linux/Netlink.antt =====
-- tun_linux.go: the methods that change routes and rules.
pub mod Table
pub mod Undo
use cropstun.Base.{
  ℕ, ◌≡◌, refl, Bool, true, false, ◌&&◌, List, [], ◌∷◌, Option, none, some, if◌then◌else◌,
}
use cropstun.Base.Int.{ℤ, pos, ◌+ℤ◌, leb_ℤ}
use cropstun.Base.Go.{Error, Result, ok, err}
use cropstun.Tun.Options.{Options, is_empty}
use cropstun.Tun.Linux.Rules.{Rule, Route, Family, rules, routes}
use cropstun.Tun.Linux.System.{System}

-- The fields of `NativeTun` that its methods change or read; `fd` is `tunFd` and the descriptor of
-- `tunFile`.
pub record NativeTun : Type 0 where
  pub fd : ℕ
  pub options : Options
  pub rule_index6 : List ℤ
  pub tx_checksum_offload : Bool

-- A loop that returns the first error.
unfoldable pub try_each {ℓ} :
    {A : Type ℓ} {K : Type 0} → (K → A → Option Error × K) → K → List A → Option Error × K
try_each call k [] = (none, k)
try_each call k (a ∷ rest) =
    let (e, k') = call k a in elim e [ none ↦ try_each call k' rest | some x ↦ (some x, k') ]

module _ {ℓ} {A : Type ℓ} {K : Type 0} (call : K → A → Option Error × K) where
  pub try_each-none :
      (k : K) (a : A) (rest : List A)
      → (call k a).0 ≡ none
      → try_each call k (a ∷ rest) ≡ try_each call (call k a).1 rest
  unfolding try_each
  try_each-none k a rest h = rw (h, try_each)

  pub try_each-some :
      (k : K) (a : A) (rest : List A) (x : Error)
      → (call k a).0 ≡ some x
      → try_each call k (a ∷ rest) ≡ (some x, (call k a).1)
  unfolding try_each
  try_each-some k a rest x h = rw (h, try_each)

-- A loop that ignores errors.
unfoldable pub do_each {ℓ} : {A : Type ℓ} {K : Type 0} → (K → A → Option Error × K) → K → List A → K
do_each call k [] = k
do_each call k (a ∷ rest) = do_each call (call k a).1 rest

abbrev pub to_option {ℓ} : {A : Type ℓ} → Result A → Option A
to_option (ok a) = some a
to_option (err e) = none

module _ {K : Type 0} (sys : System K) where
  unfoldable pub set_route : K → NativeTun → ℕ → Option Error × K
  unfolding try_each
  set_route k t link = try_each sys.route_add k (routes t.options link)

  -- `unsetRoute0`
  unfoldable pub unset_link_route : K → NativeTun → ℕ → K
  unfolding do_each
  unset_link_route k t link = do_each sys.route_del k (routes t.options link)

  unfoldable pub unset_route : K → NativeTun → Option Error × K
  unfolding unset_link_route
  unset_route k t = elim (sys.link_by_name k t.options.name) [
    | err e ↦ (some e, k)
    | ok link ↦ (none, unset_link_route k t link)
  ]

  unfoldable pub set_rules : K → NativeTun → Option Error × K × NativeTun
  set_rules k t =
      let (rs, index6) =
        rules sys.new_rule t.options (to_option (sys.rule_list k Family.inet6)) t.rule_index6 in
      let (e, k') = try_each sys.rule_add k rs in (e, k', record t { rule_index6 = index6 })

  -- What `unsetRules` passes to `netlink.RuleDel`.
  abbrev pub rule_to_del : Family → ℤ → Rule
  rule_to_del family priority = record sys.new_rule { family = family; priority = priority }

  unfoldable pub del_index6 : K → ℤ → Option Error × K
  del_index6 k index = sys.rule_del k (rule_to_del Family.inet6 index)

  -- The body of the loop over all rules.
  unfoldable pub del_in_range : ℤ → K → Rule → Option Error × K
  del_in_range start k r =
      if leb_ℤ start r.priority && leb_ℤ r.priority (start +ℤ pos 10)
      then sys.rule_del k (rule_to_del r.family r.priority)
      else (none, k)

  unfoldable pub unset_range : K → NativeTun → Option Error × K
  unfolding del_in_range
  unset_range k t = elim (sys.rule_list k Family.all) [
    | err e ↦ (some e, k)
    | ok rs ↦ try_each (del_in_range t.options.rule_index) k rs
  ]

  unfoldable pub unset_auto : K → NativeTun → Option Error × K × NativeTun
  unfolding unset_range
  unset_auto k t =
      if t.options.auto_route then (let (e, k') = unset_range k t in (e, k', t)) else (none, k, t)

  unfoldable pub unset_rules : K → NativeTun → Option Error × K × NativeTun
  unfolding unset_auto del_index6
  unset_rules k t =
      if is_empty t.rule_index6
      then unset_auto k t
      else (let (e, k') = try_each del_index6 k t.rule_index6 in
          elim e [
            | some x ↦ (some x, k', t)
            | none ↦ unset_auto k' (record t { rule_index6 = [] })
          ])

  unfoldable pub reset_rules : K → NativeTun → Option Error × K × NativeTun
  unfolding unset_rules set_rules
  reset_rules k t = let (_, k', t') = unset_rules k t in set_rules k' t'
