-- ===== src/Tun/Windows/Configure/Policy.antt =====
-- tun_windows.go: the filters of a successful `configure`, and connections.
use cropstun.Base.{
  ◌≡◌, refl, sym, ap, ◌∙◌, inl, inr, ℕ, true, List, [], ◌∷◌, ◌++◌, append-nil, append_assoc, Option,
  none, some, Option-cases,
}
use cropstun.Base.Go.{Error, ok, Result-cases}
use cropstun.Tun.Options.{Options}
use cropstun.Tun.Linux.Netlink.{try_each-none, try_each-some}
use cropstun.Tun.Linux.Device.{and_then}
use cropstun.Tun.Windows.Firewall.{
  Filter, Connection, program_filters, interface_filters, verdict, policy, verdict-layer,
}
use cropstun.Tun.Windows.Configure.{
  Api, add_filters, add_interface_filters, add_all_filters, install, guard, configure,
  set_up_addresses, set_up_routes, set_up_interfaces,
}

-- The documented behaviour of the filter engine: it opens with no filter of this session, a filter
-- that is added without an error is there, and the other calls add none. The program and the
-- interface of the device stay the same.
pub record Recording {K : Type 0} (api : Api K) (o : Options) (app index : ℕ)
    (table : K → List Filter) : Type 0 where
  pub opened : (k : K) → table (api.engine_open k).1 ≡ []
  pub guid : (k : K) → table (api.generate_guid k).1 ≡ table k
  pub sublayer : (k : K) (engine key : ℕ) → table (api.sublayer_add k engine key).1 ≡ table k
  pub added :
      (k : K) (engine key : ℕ) (f : Filter)
      → (api.filter_add k engine key f).0 ≡ none
      → table (api.filter_add k engine key f).1 ≡ table k ++ (f ∷ [])
  pub program : (k : K) → api.current_app_id k ≡ ok app
  pub interface : (k : K) → api.interface_index k o.name ≡ ok index

and_then-none :
    {K : Type 0} (p : Option Error × K) (next : K → Option Error × K)
    → (and_then p next).0 ≡ none
    → (p.0 ≡ none) × (and_then p next ≡ next p.1) × ((next p.1).0 ≡ none)
and_then-none (none, k) next h = (refl, refl, h)
and_then-none (some e, k) next h = absurd cc

module _ {K : Type 0} (api : Api K) (o : Options) (app index : ℕ) (table : K → List Filter)
    (recording : Recording api o app index table) where
  add_filters-table :
      (engine key : ℕ) (k : K) (fs : List Filter)
      → (add_filters api o engine key k fs).0 ≡ none
      → table (add_filters api o engine key k fs).1 ≡ table k ++ fs
  unfolding add_filters
  add_filters-table engine key k [] h = sym (append-nil (table k))
  add_filters-table engine key k (f ∷ fs) h =
      let call : K → Filter → Option Error × K = λ k' f'. api.filter_add k' engine key f' in
      elim (Option-cases (call k f).0) [
        | inl n ↦
            let step = try_each-none call k f fs n in
            let rest =
              add_filters-table engine key (call k f).1 fs (sym (ap (λ p. p.0) step) ∙ h) in
            ap (λ p. table p.1) step
            ∙ rest
            ∙ ap (λ l. l ++ fs) (recording.added k engine key f n)
            ∙ append_assoc (table k) (f ∷ []) fs
        | inr (x, e) ↦ absurd (let stop = try_each-some call k f fs x e in cc)
      ]

  add_interface_filters-table :
      (engine key : ℕ) (k : K)
      → (add_interface_filters api o engine key k).0 ≡ none
      → table (add_interface_filters api o engine key k).1 ≡ table k ++ interface_filters o index
  unfolding add_interface_filters
  add_interface_filters-table engine key k h =
      rw (add_interface_filters, recording.interface k)
        (add_filters-table engine key k (interface_filters o index)
          (rw (add_interface_filters, recording.interface k) at h))

  add_all_filters-table :
      (engine key : ℕ) (k : K)
      → (add_all_filters api o engine key k).0 ≡ none
      → table (add_all_filters api o engine key k).1
        ≡ table k ++ (program_filters o app ++ interface_filters o index)
  unfolding add_all_filters
  add_all_filters-table engine key k h =
      let first = add_filters api o engine key k (program_filters o app) in
      let (e, step, e') =
        and_then-none first (add_interface_filters api o engine key)
          (rw (add_all_filters, recording.program k) at h) in
      rw (add_all_filters, recording.program k)
        (ap (λ p. table p.1) step
          ∙ add_interface_filters-table engine key first.1 e'
          ∙ ap (λ l. l ++ interface_filters o index)
              (add_filters-table engine key k (program_filters o app) e)
          ∙ append_assoc (table k) (program_filters o app) (interface_filters o index))

  install-table :
      (engine : ℕ) (k : K)
      → (install api o engine k).0 ≡ none
      → table (install api o engine k).1
        ≡ table k ++ (program_filters o app ++ interface_filters o index)
  unfolding install
  install-table engine k h = elim (Result-cases (api.generate_guid k).0) [
    | inl (key, r) ↦
        let k' = (api.generate_guid k).1 in
        let (e, step, e') =
          and_then-none (api.sublayer_add k' engine key) (add_all_filters api o engine key)
            (rw (install, r) at h) in
        rw (install, r)
          (ap (λ p. table p.1) step
            ∙ add_all_filters-table engine key (api.sublayer_add k' engine key).1 e'
            ∙ ap (λ l. l ++ (program_filters o app ++ interface_filters o index))
                (recording.sublayer k' engine key ∙ recording.guid k))
    | inr (x, r) ↦ absurd (let failed : some x ≡ none = rw (install, r) at h in cc)
  ]

  guard-table :
      (k : K)
      → o.auto_route ≡ true
      → (guard api o k).0.0 ≡ none
      → table (guard api o k).0.1 ≡ program_filters o app ++ interface_filters o index
  unfolding guard program_filters interface_filters
  guard-table k auto h = elim (Result-cases (api.engine_open k).0) [
    | inl (engine, r) ↦
        rw (guard, auto, r)
          (install-table engine (api.engine_open k).1 (rw (guard, auto, r) at h)
            ∙ ap (λ l. l ++ (program_filters o app ++ interface_filters o index))
                (recording.opened k))
    | inr (x, r) ↦ absurd (let failed : some x ≡ none = rw (guard, auto, r) at h in cc)
  ]

  -- On a filter engine that records what it is given: when `configure` succeeds with automatic routes,
  -- the filters that it leaves decide on every outgoing connection as the policy says: they permit those of the program itself; of the others
  -- they block all by IPv6 if the device has no IPv6 address, permit those through the device by a
  -- family of which it has an address, block those to port 53, and say nothing on the rest.
  pub configure-policy :
      (k : K) (c : Connection)
      → o.auto_route ≡ true
      → (configure api o k).0.0 ≡ none
      → verdict (table (configure api o k).0.1) c ≡ policy o app index c
  unfolding configure
  configure-policy k c auto h =
      let set_up =
        and_then (set_up_addresses api o k)
          (λ k1. and_then (set_up_routes api o k1) (set_up_interfaces api o)) in
      elim (Option-cases set_up.0) [
        | inl n ↦
            rw (configure, n)
              (ap (λ l. verdict l c) (guard-table set_up.1 auto (rw (configure, n) at h))
                ∙ verdict-layer o.inet4_address o.inet6_address o app index c.at_layer c.program
                    c.interface c.port refl refl)
        | inr (x, n) ↦ absurd (let failed : some x ≡ none = rw (configure, n) at h in cc)
      ]
