-- ===== src/Tun/Linux/Device/Kept.antt =====
-- tun_linux.go: what the steps of `configure` leave of the open descriptors.
use cropstun.Base.{
  ℕ, zero, suc, ◌≡◌, refl, ◌∙◌, Bool, true, false, ◌&&◌, List, [], ◌∷◌, Option, none, some, inl,
  inr, Bool-cases, Option-cases, if◌then◌else◌,
}
use cropstun.Base.Int.{ℤ, pos, leb_ℤ}
use cropstun.Base.Go.{Error, ok, err, Result-cases, is_eperm}
use cropstun.Net.{Prefix}
use cropstun.Tun.Options.{is_empty}
use cropstun.Tun.Linux.Rules.{Rule, Route, Family, routes}
use cropstun.Tun.Linux.System.{System}
use cropstun.Tun.Linux.Netlink.{
  NativeTun, try_each, try_each-none, try_each-some, do_each, set_route, unset_link_route,
  set_rules, del_index6, del_in_range, unset_range, unset_auto, unset_rules,
}
use cropstun.Tun.Linux.Device.{
  and_then, add_all, offload, find_table, choose_table, configure_rules, configure_routes,
  configure_link, configure,
}

-- The kernel keeps the list `fds` of the open descriptors: `open_device` opens one, `close_fd` closes
-- the last one opened, and no other call opens or closes any.
pub record Tracks {K : Type 0} (sys : System K) (fds : K → List ℕ) : Type 0 where
  pub opened :
      (k : K) (fd : ℕ) → (sys.open_device k).0 ≡ ok fd → fds (sys.open_device k).1 ≡ fd ∷ fds k
  pub refused :
      (k : K) (e : Error) → (sys.open_device k).0 ≡ err e → fds (sys.open_device k).1 ≡ fds k
  pub closed :
      (k : K) (fd : ℕ) (rest : List ℕ) → fds k ≡ fd ∷ rest → fds (sys.close_fd k fd).1 ≡ rest
  pub iff : (k : K) (fd : ℕ) (n : List ℕ) → fds (sys.set_iff k fd n).1 ≡ fds k
  pub nonblock : (k : K) (fd : ℕ) → fds (sys.set_nonblock k fd).1 ≡ fds k
  pub rule_added : (k : K) (r : Rule) → fds (sys.rule_add k r).1 ≡ fds k
  pub rule_deleted : (k : K) (r : Rule) → fds (sys.rule_del k r).1 ≡ fds k
  pub route_added : (k : K) (r : Route) → fds (sys.route_add k r).1 ≡ fds k
  pub route_deleted : (k : K) (r : Route) → fds (sys.route_del k r).1 ≡ fds k
  pub drawn : (k : K) → fds (sys.random k).1 ≡ fds k
  pub mtu_set : (k : K) (link mtu : ℕ) → fds (sys.link_set_mtu k link mtu).1 ≡ fds k
  pub link_up : (k : K) (link : ℕ) → fds (sys.link_set_up k link).1 ≡ fds k
  pub addr_added : (k : K) (link : ℕ) (p : Prefix) → fds (sys.addr_add k link p).1 ≡ fds k
  pub rx_read : (k : K) (n : List ℕ) → fds (sys.rx_checksum k n).1 ≡ fds k
  pub rx_set : (k : K) (n : List ℕ) → fds (sys.set_rx_checksum k n).1 ≡ fds k

module _ {K : Type 0} (fds : K → List ℕ) where
  try_each-fds :
      {A : Type 0} (call : K → A → Option Error × K)
      → ((k : K) (a : A) → fds (call k a).1 ≡ fds k)
      → (k : K) (l : List A) → fds (try_each call k l).1 ≡ fds k
  unfolding try_each
  try_each-fds call h k [] = refl
  try_each-fds call h k (a ∷ l) = elim (Option-cases (call k a).0) [
    | inl e ↦ rw (try_each-none call k a l e) (try_each-fds call h (call k a).1 l ∙ h k a)
    | inr (x, e) ↦ rw (try_each-some call k a l x e) (h k a)
  ]

  do_each-fds :
      {A : Type 0} (call : K → A → Option Error × K)
      → ((k : K) (a : A) → fds (call k a).1 ≡ fds k)
      → (k : K) (l : List A) → fds (do_each call k l) ≡ fds k
  unfolding do_each
  do_each-fds call h k [] = refl
  do_each-fds call h k (a ∷ l) = do_each-fds call h (call k a).1 l ∙ h k a

  pub and_then-fds :
      (fs : List ℕ) (r : Option Error × K) (next : K → Option Error × K)
      → fds r.1 ≡ fs
      → ((k : K) → fds (next k).1 ≡ fds k)
      → fds (and_then r next).1 ≡ fs
  and_then-fds fs (none, k) next h g = g k ∙ h
  and_then-fds fs (some e, k) next h g = h

  -- The call leaves the descriptors and the device's own as they are.
  abbrev pub Keeps : List ℕ → NativeTun → Option Error × K × NativeTun → Type 0
  Keeps fs t r = (fds r.1 ≡ fs) × (r.2.fd ≡ t.fd)

  if-fds :
      (fs : List ℕ) (b : Bool) (r s : Option Error × K)
      → fds r.1 ≡ fs
      → fds s.1 ≡ fs
      → fds (if b then r else s).1 ≡ fs
  if-fds fs true r s h g = h
  if-fds fs false r s h g = g

  if-Keeps :
      (fs : List ℕ) (t : NativeTun) (b : Bool) (r s : Option Error × K × NativeTun)
      → Keeps fs t r
      → Keeps fs t s
      → Keeps fs t (if b then r else s)
  if-Keeps fs t true r s h g = h
  if-Keeps fs t false r s h g = g

  -- Whichever way a call ends.
  elim-Keeps :
      (fs : List ℕ) (t : NativeTun) (o : Option Error) (f : Error → Option Error × K × NativeTun)
      (r : Option Error × K × NativeTun)
      → ((x : Error) → Keeps fs t (f x))
      → Keeps fs t r
      → Keeps fs t (elim o [ some x ↦ f x | none ↦ r ])
  elim-Keeps fs t none f r h g = g
  elim-Keeps fs t (some x) f r h g = h x

module _ {K : Type 0} (sys : System K) (fds : K → List ℕ) (tracks : Tracks sys fds) where
  offload-fds : (k : K) (name : List ℕ) → fds (offload sys k name) ≡ fds k
  unfolding offload
  offload-fds k name = elim (Result-cases (sys.rx_checksum k name).0) [
    | inr (e, r) ↦ rw (offload, r) (tracks.rx_read k name)
    | inl (true, r) ↦ rw (offload, r) (tracks.rx_read k name)
    | inl (false, r) ↦ rw (offload, r) (tracks.rx_set _ name ∙ tracks.rx_read k name)
  ]

  find_table-fds : (fuel : ℕ) (k : K) (index : ℤ) → fds (find_table sys fuel k index).1 ≡ fds k
  unfolding find_table
  find_table-fds zero k index = refl
  find_table-fds (suc fuel) k index =
      elim (Bool-cases (sys.table_free (sys.random k).1 (sys.random k).0)) [
        | inl e ↦ rw (find_table, e) (tracks.drawn k)
        | inr e ↦
            rw (find_table, e)
              (find_table-fds fuel (sys.random k).1 (sys.random k).0 ∙ tracks.drawn k)
      ]

  choose_table-Keeps :
      (fuel : ℕ) (k : K) (t : NativeTun)
      → (fds (choose_table sys fuel k t).0 ≡ fds k) × ((choose_table sys fuel k t).1.fd ≡ t.fd)
  unfolding choose_table
  choose_table-Keeps fuel k t =
      elim (Bool-cases
        (leb_ℤ t.options.table_index (pos 0) && leb_ℤ (pos 0) t.options.table_index)) [
          | inl e ↦ rw (choose_table, e) (find_table-fds fuel k t.options.table_index, refl)
          | inr e ↦ rw (choose_table, e) (refl, refl)
        ]

  del_in_range-fds : (start : ℤ) (k : K) (r : Rule) → fds (del_in_range sys start k r).1 ≡ fds k
  unfolding del_in_range
  del_in_range-fds start k r = if-fds fds (fds k) _ _ _ (tracks.rule_deleted k _) refl

  unset_range-fds : (k : K) (t : NativeTun) → fds (unset_range sys k t).1 ≡ fds k
  unfolding unset_range
  unset_range-fds k t = elim (Result-cases (sys.rule_list k Family.all)) [
    | inr (e, r) ↦ rw (unset_range, r) refl
    | inl (rs, r) ↦
        rw (unset_range, r)
          (try_each-fds fds (del_in_range sys t.options.rule_index)
            (del_in_range-fds t.options.rule_index) k rs)
  ]

  unset_auto-Keeps : (k : K) (t : NativeTun) → Keeps fds (fds k) t (unset_auto sys k t)
  unfolding unset_auto
  unset_auto-Keeps k t =
      if-Keeps fds (fds k) t t.options.auto_route _ _ (unset_range-fds k t, refl) (refl, refl)

  unset_rules-Keeps : (k : K) (t : NativeTun) → Keeps fds (fds k) t (unset_rules sys k t)
  unfolding unset_rules del_index6
  unset_rules-Keeps k t =
      let deleted =
        try_each-fds fds (del_index6 sys) (λ k' i. tracks.rule_deleted k' _) k t.rule_index6 in
      let k1 = (try_each (del_index6 sys) k t.rule_index6).1 in
      let auto = unset_auto-Keeps k1 (record t { rule_index6 = [] }) in
      if-Keeps fds (fds k) t (is_empty t.rule_index6) _ _ (unset_auto-Keeps k t) (
        elim-Keeps fds (fds k) t _ (λ x. (some x, k1, t)) _ (λ x. (deleted, refl))
          (auto.0 ∙ deleted, auto.1))

  set_rules-Keeps : (k : K) (t : NativeTun) → Keeps fds (fds k) t (set_rules sys k t)
  unfolding set_rules
  set_rules-Keeps k t = (try_each-fds fds sys.rule_add tracks.rule_added k _, refl)

  configure_rules-Keeps : (k : K) (t : NativeTun) → Keeps fds (fds k) t (configure_rules sys k t)
  unfolding configure_rules
  configure_rules-Keeps k t =
      let (_, k1, t1) = unset_rules sys k t in
      let unset = unset_rules-Keeps k t in
      let (_, k2, t2) = set_rules sys k1 t1 in
      let set = set_rules-Keeps k1 t1 in
      let again = unset_rules-Keeps k2 t2 in
      elim-Keeps fds (fds k) t (unset_rules sys k t).0 (λ x. (some x, k1, t1)) _ (λ x. unset)
        (elim-Keeps fds (fds k) t (set_rules sys k1 t1).0 _ (none, k2, t2)
          (λ x. (again.0 ∙ set.0 ∙ unset.0, again.1 ∙ set.1 ∙ unset.1))
          (set.0 ∙ unset.0, set.1 ∙ unset.1))

  configure_routes-Keeps :
      (k : K) (t : NativeTun) (link : ℕ) → Keeps fds (fds k) t (configure_routes sys k t link)
  unfolding configure_routes set_route unset_link_route
  configure_routes-Keeps k t link =
      let k1 = (set_route sys k t link).1 in
      let set : fds k1 ≡ fds k = try_each-fds fds sys.route_add tracks.route_added k _ in
      let rules = configure_rules-Keeps k1 t in
      elim-Keeps fds (fds k) t (set_route sys k t link).0
        (λ x. (some x, unset_link_route sys k1 t link, t)) _
        (λ x. (
          do_each-fds fds sys.route_del tracks.route_deleted k1 (routes t.options link) ∙ set,
          refl,
        ))
        (rules.0 ∙ set, rules.1)

  add_all-fds : (link : ℕ) (k : K) (ps : List Prefix) → fds (add_all sys link k ps).1 ≡ fds k
  unfolding add_all
  add_all-fds link k ps =
      try_each-fds fds (λ k' p. sys.addr_add k' link p) (λ k' p. tracks.addr_added k' link p) k ps

  configure_link-Keeps :
      (fuel : ℕ) (k : K) (t : NativeTun) (link : ℕ)
      → Keeps fds (fds k) t (configure_link sys fuel k t link)
  unfolding configure_link
  configure_link-Keeps fuel k t link =
      let set_up : K → Option Error × K =
        λ k2. sys.link_set_up (offload sys k2 t.options.name) link in
      let add6 : K → Option Error × K =
        λ k1. and_then (add_all sys link k1 t.options.inet6_address) set_up in
      let r : Option Error × K = and_then (add_all sys link k t.options.inet4_address) add6 in
      let up_fds : (k2 : K) → fds (set_up k2).1 ≡ fds k2 =
        λ k2. tracks.link_up (offload sys k2 t.options.name) link ∙ offload-fds k2 t.options.name in
      let add6_fds : (k1 : K) → fds (add6 k1).1 ≡ fds k1 = λ k1.
        and_then-fds fds (fds k1) (add_all sys link k1 t.options.inet6_address) set_up
          (add_all-fds link k1 t.options.inet6_address) up_fds in
      let up : fds r.1 ≡ fds k =
        and_then-fds fds (fds k) (add_all sys link k t.options.inet4_address) add6
          (add_all-fds link k t.options.inet4_address) add6_fds in
      let chosen = choose_table-Keeps fuel r.1 t in
      let routed =
        configure_routes-Keeps (choose_table sys fuel r.1 t).0 (choose_table sys fuel r.1 t).1
          link in
      elim-Keeps fds (fds k) t r.0 (λ x. (some x, r.1, t)) _ (λ x. (up, refl))
        (routed.0 ∙ chosen.0 ∙ up, routed.1 ∙ chosen.1)

  pub configure-Keeps :
      (fuel : ℕ) (k : K) (t : NativeTun) (link : ℕ)
      → Keeps fds (fds k) t (configure sys fuel k t link)
  unfolding configure
  configure-Keeps fuel k t link =
      let k1 = (sys.link_set_mtu k link t.options.mtu).1 in
      let set = tracks.mtu_set k link t.options.mtu in
      let rest = configure_link-Keeps fuel k1 t link in
      elim-Keeps fds (fds k) t (sys.link_set_mtu k link t.options.mtu).0
        (λ x. if is_eperm x then (none, k1, t) else (some x, k1, t))
        (configure_link sys fuel k1 t link)
        (λ x. if-Keeps fds (fds k) t (is_eperm x) _ _ (set, refl) (set, refl))
        (rest.0 ∙ set, rest.1)
