-- ===== src/Route/Linux.antt =====
-- route/route_linux.go: the default route among the routes of the main table.
pub mod First
use cropstun.Base.{
  ℕ, Bool, true, false, not, ◌&&◌, List, [], ◌∷◌, ◌++◌, Option, none, some, ◌==◌, replicate,
  if◌then◌else◌,
}
use cropstun.Base.Go.{Error, Result, ok, err}
use cropstun.Process.Common.{bytes_eq}
use cropstun.Route.{Route}

-- `net.IPNet`: the bytes of the address and the length of the mask.
pub record IpNet : Type 0 where
  pub ip : List ℕ
  pub ones : ℕ

-- What the search reads of a `netlink.Route`.
pub record Entry : Type 0 where
  pub dst : Option IpNet
  pub family : ℕ
  pub link_index : ℕ

-- The kernel: its main routing table, and the name and index of a link.
pub record Kernel : Type 0 where
  pub route_list : Result (List Entry)
  pub link_by_index : ℕ → Result (List ℕ × ℕ)

-- `net.IP` holds an IPv4 address in 4 bytes, or in 16 behind this prefix.
abbrev pub v4_in_v6_prefix : List ℕ
v4_in_v6_prefix = replicate 10 0 ++ (255 ∷ 255 ∷ [])

-- `IP.Equal` with `net.IPv4zero`, and with `net.IPv6zero`.
abbrev pub equal_ipv4_zero : List ℕ → Bool
equal_ipv4_zero ip =
    if bytes_eq ip (replicate 4 0) then true else bytes_eq ip (v4_in_v6_prefix ++ replicate 4 0)

abbrev pub equal_ipv6_zero : List ℕ → Bool
equal_ipv6_zero ip = bytes_eq ip (replicate 16 0)

abbrev pub family_v4 : ℕ
family_v4 = 2

abbrev pub family_v6 : ℕ
family_v6 = 10

-- The guards of the loop's body.
abbrev pub is_skipped_dst : ℕ → IpNet → Bool
is_skipped_dst family dst =
    if family == family_v4 && not (equal_ipv4_zero dst.ip)
    then true
    else family == family_v6 && not (equal_ipv6_zero dst.ip)

unfoldable pub is_skipped : Entry → Bool
is_skipped route = elim route.dst [ none ↦ true | some dst ↦ is_skipped_dst route.family dst ]

abbrev pub route_of_link : Result (List ℕ × ℕ) → Result Route
route_of_link (err e) = err e
route_of_link (ok link) = ok (record { interface_name = link.0; interface_index = link.1 })

module _ (sys : Kernel) where
  unfoldable pub search : List Entry → Result Route
  search [] = err Error.no_route
  search (route ∷ routes) =
      let rest = search routes in
      if is_skipped route then rest else route_of_link (sys.link_by_index route.link_index)

  unfoldable pub default_route_interface : Result Route
  default_route_interface = elim sys.route_list [ err e ↦ err e | ok routes ↦ search routes ]
