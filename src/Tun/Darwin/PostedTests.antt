-- ===== src/Tun/Darwin/PostedTests.antt =====
-- The requests of `configure` on macOS, at concrete inputs.
use cropstun.Base.{ℕ, ◌+◌, ◌*◌, ◌^◌, ◌≡◌, refl, true, List, [], ◌∷◌, ◌++◌, none, length}
use cropstun.Base.Int.{pos}
use cropstun.Base.Go.{ok, returns}
use cropstun.Net.{Addr}
use cropstun.Tun.Options.{Options}
use cropstun.Tun.Ranges.{build_auto_route_ranges, family_ranges}
use cropstun.Tun.Darwin.System.{System, RouteAddrs}
use cropstun.Tun.Darwin.Requests
use cropstun.Tun.Darwin.Configure
use cropstun.Tun.Darwin.Requested.{Request, Logs, requests}
use cropstun.Tun.Darwin.Posted.{configure-Posted}

-- `utun5`
abbrev name : List ℕ
name = b'u' ∷ b't' ∷ b'u' ∷ b'n' ∷ b'5' ∷ []

abbrev options : Options
options = record {
  name = name;
  inet4_address = record { addr = Addr.v4 (198 * 2 ^ 24 + 18 * 2 ^ 16 + 1); bits = 16 } ∷ [];
  inet6_address = record { addr = Addr.v6 (0xfd * 2 ^ 120 + 1); bits = 126 } ∷ [];
  mtu = 1500;
  table_index = pos 1;
  rule_index = pos 1;
  auto_route = true;
}

abbrev fields : RouteAddrs → List ℕ
fields (RouteAddrs.inet4 dst mask gateway) = 4 ∷ dst ∷ mask ∷ gateway ∷ []
fields (RouteAddrs.inet6 dst mask gateway) = 6 ∷ dst ∷ mask ∷ gateway ∷ []

-- The state is the requests so far, and nothing fails.
abbrev system : System (List Request)
system = record {
  socket = λ k d t p. (ok 4, k);
  close = λ k fd. (none, k);
  ioctl_ctl_info = λ k fd n. (ok 1, k);
  connect = λ k fd id unit. (none, k);
  set_nonblock = λ k fd. (none, k);
  set_ifreq_mtu = λ k fd n m. (none, k ++ (Request.mtu n m ∷ []));
  siocaifaddr = λ k fd r. (none, k ++ (Request.alias4 r ∷ []));
  siocaifaddr_in6 = λ k fd r. (none, k ++ (Request.alias6 r ∷ []));
  marshal = λ m. ok (fields m.addrs);
  write = λ k fd b. (none, k ++ (Request.message b ∷ []));
  start_flush_cache = λ k. (none, k);
  raw_conn = λ k fd. true;
}

system-Logs : Logs system (λ k. k)
system-Logs = record {
  opened = λ k d t p. refl;
  closed = λ k fd. refl;
  ctl_info = λ k fd n. refl;
  connected = λ k fd id unit. refl;
  nonblock = λ k fd. refl;
  flushed = λ k. refl;
  ifreq_mtu = λ k fd n m h. refl;
  aifaddr = λ k fd r h. refl;
  aifaddr_in6 = λ k fd r h. refl;
  written = λ k fd b h. refl;
}

configures : (Configure.configure system [] 3 (pos 5) name options).0 ≡ returns none
unfolding Configure.configure Requests.alias_request4 Requests.alias_request6
configures = refl

configure-Posted_example :
    (Configure.configure system [] 3 (pos 5) name options).1 ≡ requests system name options
configure-Posted_example =
    configure-Posted system (λ k. k) system-Logs [] 3 (pos 5) name options configures

-- The MTU, an alias of each family and eight routes of each.
nineteen : length (requests system name options) ≡ 19
unfolding Requests.alias_request4 Requests.alias_request6 Requests.route_message
    build_auto_route_ranges family_ranges
nineteen = refl
