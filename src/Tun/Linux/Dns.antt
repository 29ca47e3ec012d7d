-- ===== src/Tun/Linux/Dns.antt =====
-- tun_linux.go: `SetupDNS` and `TeardownDNS`.
use cropstun.Base.{ℕ, List, [], ◌∷◌, ◌++◌, Option, none, some, if◌then◌else◌}
use cropstun.Base.Go.{Error, Result, ok, err}
use cropstun.Net.{Addr, is_valid}

-- Programs: where one is found, and the run of one with arguments; and `Addr.String`.
pub record Programs (K : Type 0) : Type 0 where
  pub look_path : K → List ℕ → Result (List ℕ)
  pub run : K → List ℕ → List (List ℕ) → Option Error × K
  pub addr_string : Addr → List ℕ

abbrev pub resolvectl : List ℕ
resolvectl = b'r' ∷ b'e' ∷ b's' ∷ b'o' ∷ b'l' ∷ b'v' ∷ b'e' ∷ b'c' ∷ b't' ∷ b'l' ∷ []

abbrev pub domain : List ℕ
domain = b'd' ∷ b'o' ∷ b'm' ∷ b'a' ∷ b'i' ∷ b'n' ∷ []

abbrev pub all_domains : List ℕ
all_domains = b'~' ∷ b'.' ∷ []

abbrev pub default_route : List ℕ
default_route =
    b'd' ∷ b'e' ∷ b'f' ∷ b'a' ∷ b'u' ∷ b'l' ∷ b't' ∷ b'-' ∷ b'r' ∷ b'o' ∷ b'u' ∷ b't' ∷ b'e' ∷ []

abbrev pub true_word : List ℕ
true_word = b't' ∷ b'r' ∷ b'u' ∷ b'e' ∷ []

abbrev pub dns : List ℕ
dns = b'd' ∷ b'n' ∷ b's' ∷ []

module _ {K : Type 0} (sys : Programs K) where
  -- The loop over the addresses.
  unfoldable pub server_list : List Addr → List (List ℕ) → List (List ℕ)
  server_list [] servers = servers
  server_list (a ∷ addrs) servers =
      server_list addrs (if is_valid a then servers ++ (sys.addr_string a ∷ []) else servers)

  -- The goroutine; errors are ignored.
  unfoldable pub configure_resolver : K → List ℕ → List ℕ → List (List ℕ) → K
  configure_resolver k path name servers =
      let k1 = (sys.run k path (domain ∷ name ∷ all_domains ∷ [])).1 in
      let k2 = (sys.run k1 path (default_route ∷ name ∷ true_word ∷ [])).1 in
      (sys.run k2 path (dns ∷ name ∷ servers)).1

  -- `SetupDNS`, with its goroutine run to its end.
  unfoldable pub setup_dns : K → List ℕ → List Addr → Option Error × K
  unfolding server_list configure_resolver
  setup_dns k name [] = (none, k)
  setup_dns k name (a ∷ addrs) = elim (sys.look_path k resolvectl) [
    | err e ↦ (some e, k)
    | ok path ↦ (none, configure_resolver k path name (server_list (a ∷ addrs) []))
  ]

abbrev pub teardown_dns : Option Error
teardown_dns = none
