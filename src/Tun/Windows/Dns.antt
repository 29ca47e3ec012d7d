-- ===== src/Tun/Windows/Dns.antt =====
-- tun_windows.go: `SetupDNS` and `TeardownDNS`.
use cropstun.Base.{ℕ, List, [], ◌∷◌, ◌++◌, Option, none, some, if◌then◌else◌}
use cropstun.Base.Go.{Error}
use cropstun.Net.{Addr, is4, is_valid}

-- The libraries of Windows: the servers of the device for a family, and the resolver's cache.
pub record Api (K : Type 0) : Type 0 where
  pub set_dns : K → ℕ → List Addr → Option Error × K
  pub flush_resolver_cache : K → Option Error × K

abbrev pub af_inet : ℕ
af_inet = 2

abbrev pub af_inet6 : ℕ
af_inet6 = 23

-- The loop over the addresses, for the servers of both families.
unfoldable pub split_servers : List Addr → List Addr × List Addr → List Addr × List Addr
split_servers [] servers = servers
split_servers (a ∷ addrs) servers = split_servers addrs (
    if is_valid a
    then (if is4 a then (servers.0 ++ (a ∷ []), servers.1) else (servers.0, servers.1 ++ (a ∷ [])))
    else servers)

module _ {K : Type 0} (api : Api K) where
  abbrev set_family : K → ℕ → List Addr → Option Error × K
  set_family k family [] = (none, k)
  set_family k family (a ∷ addrs) = api.set_dns k family (a ∷ addrs)

  unfoldable pub set_servers : K → List Addr × List Addr → Option Error × K
  set_servers k servers =
      let (e4, k1) = set_family k af_inet servers.0 in
      elim e4 [
        | some e ↦ (some e, k1)
        | none ↦
            let (e6, k2) = set_family k1 af_inet6 servers.1 in
            elim e6 [ some e ↦ (some e, k2) | none ↦ api.flush_resolver_cache k2 ]
      ]

  unfoldable pub setup_dns : K → List Addr → Option Error × K
  unfolding split_servers set_servers
  setup_dns k [] = (none, k)
  setup_dns k (a ∷ addrs) = set_servers k (split_servers (a ∷ addrs) ([], []))

abbrev pub teardown_dns : Option Error
teardown_dns = none
