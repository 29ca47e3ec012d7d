-- ===== src/Tun/Windows/Configure.antt =====
-- tun_windows.go: `configure` and `New`. The packages below internal/ and the system are a parameter.
pub mod Policy
use cropstun.Base.{
  ℕ, ◌≡◌, refl, Bool, true, false, not, ◌&&◌, ◌||◌, List, [], ◌∷◌, ◌++◌, Option, none, some,
  if◌then◌else◌,
}
use cropstun.Base.Go.{Error, Result, ok, err}
use cropstun.Net.{Prefix, is4}
use cropstun.Tun.Options.{Options, is_empty}
use cropstun.Tun.Ranges.{Os, build_auto_route_ranges}
use cropstun.Tun.Linux.Netlink.{try_each}
use cropstun.Tun.Linux.Device.{and_then}
use cropstun.Tun.Windows.Firewall.{Filter, program_filters, interface_filters}

-- The fields of an IP interface that the source sets.
pub record Interface : Type 0 where
  pub forwarding_enabled : Bool
  pub router_discovery : ℕ
  pub dad_transmits : ℕ
  pub managed_address : Bool
  pub other_stateful : Bool
  pub nl_mtu : ℕ
  pub automatic_metric : Bool
  pub metric : ℕ

-- A family is given by whether it is that of IPv4. `K` is the state of the system.
pub record Api (K : Type 0) : Type 0 where
  pub create_adapter : K → List ℕ → Result ℕ × K
  pub start_session : K → ℕ → Result ℕ × K
  pub end_session : K → ℕ → K
  pub close_adapter : K → ℕ → K
  pub set_addresses : K → Bool → List Prefix → Option Error × K
  pub disable_dns_registration : K → K
  -- The next hop is the unspecified address of the range's family.
  pub add_route : K → Prefix → Option Error × K
  pub flush_resolver_cache : K → Option Error × K
  pub ip_interface : K → Bool → Result Interface
  pub set_interface : K → Bool → Interface → Option Error × K
  pub engine_open : K → Result ℕ × K
  pub engine_close : K → ℕ → K
  pub generate_guid : K → Result ℕ × K
  pub sublayer_add : K → ℕ → ℕ → Option Error × K
  pub current_app_id : K → Result ℕ
  -- A filter in the sublayer with the key.
  pub filter_add : K → ℕ → ℕ → Filter → Option Error × K
  pub interface_index : K → List ℕ → Result ℕ

abbrev pub disabled : ℕ
disabled = 0

-- What both families set.
abbrev pub tuned : Options → Interface → Interface
tuned o i =
    let base = record i {
      router_discovery = disabled;
      dad_transmits = 0;
      managed_address = false;
      other_stateful = false;
      nl_mtu = o.mtu;
    } in
    if o.auto_route then record base { automatic_metric = false; metric = 0 } else base

abbrev pub tuned4 : Options → Interface → Interface
tuned4 o i = tuned o (record i { forwarding_enabled = true })

abbrev pub unless {ℓ} : {K : Type ℓ} → Bool → (K → Option Error × K) → K → Option Error × K
unless true call k = (none, k)
unless false call k = call k

module _ {K : Type 0} (api : Api K) (o : Options) where
  -- The loop over the routes: each call's error replaces the one before.
  unfoldable pub add_routes : Option Error → K → List Prefix → Option Error × K
  add_routes last k [] = (last, k)
  add_routes last k (r ∷ rs) = let (e, k') = api.add_route k r in add_routes e k' rs

  unfoldable pub set_up_routes : K → Option Error × K
  unfolding add_routes
  set_up_routes k =
      if o.auto_route
      then and_then (add_routes none k (build_auto_route_ranges Os.windows o))
          api.flush_resolver_cache
      else (none, k)

  unfoldable pub set_up_addresses : K → Option Error × K
  set_up_addresses k =
      and_then
        (unless (is_empty o.inet4_address) (λ k1. api.set_addresses k1 true o.inet4_address) k)
        (λ k2.
          and_then
            (unless (is_empty o.inet6_address) (λ k3. api.set_addresses k3 false o.inet6_address)
              k2)
            (λ k4.
              if is_empty o.inet4_address && is_empty o.inet6_address
              then (none, k4)
              else (none, api.disable_dns_registration k4)))

  unfoldable pub tune : Bool → (Interface → Interface) → K → Option Error × K
  tune v4 change k = elim (api.ip_interface k v4) [
    | err e ↦ (some e, k)
    | ok i ↦ api.set_interface k v4 (change i)
  ]

  unfoldable pub set_up_interfaces : K → Option Error × K
  unfolding tune
  set_up_interfaces k =
      and_then (unless (is_empty o.inet4_address) (tune true (tuned4 o)) k)
        (unless (is_empty o.inet6_address) (tune false (tuned o)))

  unfoldable pub add_filters : ℕ → ℕ → K → List Filter → Option Error × K
  unfolding try_each
  add_filters engine key k fs = try_each (λ k' f. api.filter_add k' engine key f) k fs

  unfoldable pub add_interface_filters : ℕ → ℕ → K → Option Error × K
  unfolding add_filters
  add_interface_filters engine key k = elim (api.interface_index k o.name) [
    | err e ↦ (some e, k)
    | ok index ↦ add_filters engine key k (interface_filters o index)
  ]

  unfoldable pub add_all_filters : ℕ → ℕ → K → Option Error × K
  unfolding add_filters add_interface_filters
  add_all_filters engine key k = elim (api.current_app_id k) [
    | err e ↦ (some e, k)
    | ok app ↦
        and_then (add_filters engine key k (program_filters o app))
          (add_interface_filters engine key)
  ]

  -- Behind the opening of the engine.
  unfoldable pub install : ℕ → K → Option Error × K
  unfolding add_all_filters
  install engine k =
      let (r, k') = api.generate_guid k in
      elim r [
        | err e ↦ (some e, k')
        | ok key ↦ and_then (api.sublayer_add k' engine key) (add_all_filters engine key)
      ]

  unfoldable pub guard : K → (Option Error × K) × Option ℕ
  unfolding install
  guard k =
      if o.auto_route
      then (let (r, k') = api.engine_open k in
          elim r [ err e ↦ ((some e, k'), none) | ok engine ↦ (install engine k', some engine) ])
      else ((none, k), none)

  -- `configure`; the last component is `fwpmSession`, which is set once the engine is open.
  unfoldable pub configure : K → (Option Error × K) × Option ℕ
  unfolding set_up_addresses set_up_routes set_up_interfaces guard
  configure k =
      let (e, k') =
        and_then (set_up_addresses k) (λ k1. and_then (set_up_routes k1) set_up_interfaces) in
      elim e [ some x ↦ ((some x, k'), none) | none ↦ guard k' ]

  -- `New`: the adapter, the session and `fwpmSession`.
  unfoldable pub new_tun : K → Result ((ℕ × ℕ) × Option ℕ) × K
  unfolding configure
  new_tun k =
      let (r, k1) = api.create_adapter k o.name in
      elim r [
        | err e ↦ (err e, k1)
        | ok adapter ↦
            let (s, k2) = api.start_session k1 adapter in
            elim s [
              | err e ↦ (err e, k2)
              | ok session ↦
                  let ((e, k3), engine) = configure k2 in
                  elim e [
                    | none ↦ (ok ((adapter, session), engine), k3)
                    | some x ↦ (err x, api.close_adapter (api.end_session k3 session) adapter)
                  ]
            ]
      ]

-- `NativeTun`; `closed` is the state of `closeOnce` and of `close`.
pub record NativeTun : Type 0 where
  pub adapter : ℕ
  pub session : ℕ
  pub fwpm_session : Option ℕ
  pub auto_route : Bool
  pub closed : Bool

abbrev pub close_engine : {K : Type 0} → Api K → K → Option ℕ → K
close_engine api k none = k
close_engine api k (some engine) = api.engine_close k engine

-- `Close`, once the calls that run have returned; it returns no error.
unfoldable pub close_tun : {K : Type 0} → Api K → K → NativeTun → K × NativeTun
close_tun api k t =
    let k' =
      close_engine api (api.close_adapter (api.end_session k t.session) t.adapter) t.fwpm_session in
    if t.closed
    then (k, t)
    else (if t.auto_route then (api.flush_resolver_cache k').1 else k', record t { closed = true })
