-- ===== src/Tun/Linux/Device.antt =====
-- tun_linux.go: `open`, `configure`, `New` and `Close`.
pub mod Kept
pub mod Descriptors
use cropstun.Base.{
  ℕ, zero, suc, ◌≡◌, refl, Bool, true, false, ◌&&◌, List, [], ◌∷◌, Option, none, some,
  if◌then◌else◌,
}
use cropstun.Base.Int.{ℤ, pos, leb_ℤ}
use cropstun.Base.Go.{Error, Result, ok, err, is_eperm, Outcome, returns, panics}
use cropstun.Net.{Prefix}
use cropstun.Tun.Options.{Options, is_empty}
use cropstun.Tun.Linux.System.{System}
use cropstun.Tun.Linux.Netlink.{
  NativeTun, try_each, set_route, unset_link_route, unset_route, set_rules, unset_rules,
}

-- Go on unless there is an error.
abbrev pub and_then {ℓ} :
    {K : Type ℓ} → Option Error × K → (K → Option Error × K) → Option Error × K
and_then (none, k) next = next k
and_then (some e, k) next = (some e, k)

abbrev pub device : ℕ → Options → NativeTun
device fd o = record { fd = fd; options = o; rule_index6 = []; tx_checksum_offload = false }

module _ {K : Type 0} (sys : System K) where
  unfoldable pub set_up_descriptor : K → ℕ → List ℕ → Result ℕ × K
  set_up_descriptor k fd name =
      let (e, k') = and_then (sys.set_iff k fd name) (λ k'. sys.set_nonblock k' fd) in
      elim e [ none ↦ (ok fd, k') | some x ↦ (err x, (sys.close_fd k' fd).1) ]

  -- `open`
  unfoldable pub open_tun : K → List ℕ → Result ℕ × K
  unfolding set_up_descriptor
  open_tun k name =
      let (r, k') = sys.open_device k in
      elim r [ err e ↦ (err e, k') | ok fd ↦ set_up_descriptor k' fd name ]

  unfoldable pub add_all : ℕ → K → List Prefix → Option Error × K
  unfolding try_each
  add_all link k ps = try_each (λ k' p. sys.addr_add k' link p) k ps

  -- Errors of both calls are ignored.
  unfoldable pub offload : K → List ℕ → K
  offload k name =
      let (r, k') = sys.rx_checksum k name in
      elim r [ err e ↦ k' | ok on ↦ if on then k' else (sys.set_rx_checksum k' name).1 ]

  -- The search for an unused table, of at most `fuel` rounds; the options change even when it fails.
  unfoldable pub find_table : ℕ → K → ℤ → ℤ × K
  find_table zero k index = (index, k)
  find_table (suc fuel) k index =
      let (i, k') = sys.random k in
      let more = find_table fuel k' i in if sys.table_free k' i then (i, k') else more

  unfoldable pub choose_table : ℕ → K → NativeTun → K × NativeTun
  unfolding find_table
  choose_table fuel k t =
      let index = t.options.table_index in
      if leb_ℤ index (pos 0) && leb_ℤ (pos 0) index
      then (let (i, k') = find_table fuel k index in
          (k', record t { options = record t.options { table_index = i } }))
      else (k, t)

  unfoldable pub configure_rules : K → NativeTun → Option Error × K × NativeTun
  configure_rules k t =
      let (e, k', t') = unset_rules sys k t in
      elim e [
        | some x ↦ (some x, k', t')
        | none ↦
            let (e', k'', t'') = set_rules sys k' t' in
            elim e' [
              | none ↦ (none, k'', t'')
              | some x ↦ let (_, k''', t''') = unset_rules sys k'' t'' in (some x, k''', t''')
            ]
      ]

  unfoldable pub configure_routes : K → NativeTun → ℕ → Option Error × K × NativeTun
  unfolding configure_rules
  configure_routes k t link =
      let (e, k') = set_route sys k t link in
      elim e [ some x ↦ (some x, unset_link_route sys k' t link, t) | none ↦ configure_rules k' t ]

  -- `configure` behind the MTU.
  unfoldable pub configure_link : ℕ → K → NativeTun → ℕ → Option Error × K × NativeTun
  unfolding add_all offload choose_table configure_routes
  configure_link fuel k t link =
      let (e, k') = and_then (add_all link k t.options.inet4_address) (λ k1.
        and_then (add_all link k1 t.options.inet6_address)
          (λ k2. sys.link_set_up (offload k2 t.options.name) link)) in
      elim e [
        | some x ↦ (some x, k', t)
        | none ↦ let (k'', t') = choose_table fuel k' t in configure_routes k'' t' link
      ]

  unfoldable pub configure : ℕ → K → NativeTun → ℕ → Option Error × K × NativeTun
  unfolding configure_link
  configure fuel k t link =
      let (e, k') = sys.link_set_mtu k link t.options.mtu in
      elim e [
        | some x ↦ if is_eperm x then (none, k', t) else (some x, k', t)
        | none ↦ configure_link fuel k' t link
      ]

  -- `New`; it panics if the descriptor yields no raw connection.
  unfoldable pub new_tun : ℕ → K → Options → Outcome (Result NativeTun) × K
  unfolding open_tun configure
  new_tun fuel k o =
      let (r, k1) = open_tun k o.name in
      elim r [
        | err e ↦ (returns (err e), k1)
        | ok fd ↦ elim (sys.link_by_name k1 o.name) [
          | err e ↦ (returns (err e), k1)
          | ok link ↦
              let (e, k2, t) = configure fuel k1 (device fd o) link in
              elim e [
                | some x ↦ (returns (err x), k2)
                | none ↦ if sys.raw_conn k2 fd then (returns (ok t), k2) else (panics, k2)
              ]
        ]
      ]

  -- `Close`: the error is that of the descriptor.
  unfoldable pub close_tun : K → NativeTun → Option Error × K × NativeTun
  close_tun k t =
      let (_, k1) = unset_route sys k t in
      let (_, k2, t') = unset_rules sys k1 t in let (e, k3) = sys.close_fd k2 t.fd in (e, k3, t')
