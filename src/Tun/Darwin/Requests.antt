-- ===== src/Tun/Darwin/Requests.antt =====
-- tun_darwin.go: the requests to the kernel that the addresses of a device are put into.
use cropstun.Base.{
  ℕ, ◌+◌, ◌-◌, ◌*◌, ◌/◌, ◌%◌, ◌^◌, List, [], ◌∷◌, Option, none, some, leb, ◌==◌, if◌then◌else◌,
}
use cropstun.Base.Go.{Outcome, returns, panics, ◌>>=◌}
use cropstun.Net.{Addr, Prefix}
use cropstun.Tun.Darwin.Name.{copy_name}
use cropstun.Tun.Darwin.System.{IfAliasReq, IfAliasReq6, RouteAddrs, RouteMessage}

-- `Addr.As4` and `Addr.As16`
abbrev pub as4 : Addr → Outcome ℕ
as4 Addr.invalid = panics
as4 (Addr.v4 a) = returns a
as4 (Addr.v6 a) = if a / 2 ^ 32 == 0xffff then returns (a % 2 ^ 32) else panics

abbrev pub as16 : Addr → ℕ
as16 Addr.invalid = 0
as16 (Addr.v4 a) = 0xffff * 2 ^ 32 + a
as16 (Addr.v6 a) = a

-- `Addr.Next`
abbrev pub next : Addr → Addr
next Addr.invalid = Addr.invalid
next (Addr.v4 a) = if a + 1 == 2 ^ 32 then Addr.invalid else Addr.v4 (a + 1)
next (Addr.v6 a) = if a + 1 == 2 ^ 128 then Addr.invalid else Addr.v6 (a + 1)

-- `net.CIDRMask`, parsed as an address: without a mask there is no address to parse. A prefix
-- without an address has no length.
abbrev pub cidr_mask : ℕ → ℕ → Outcome ℕ
cidr_mask width bits = if leb bits width then returns (2 ^ width - 2 ^ (width - bits)) else panics

abbrev pub prefix_mask : ℕ → Prefix → Outcome ℕ
prefix_mask width p = elim p.addr [ Addr.invalid ↦ panics | _ ↦ cidr_mask width p.bits ]

abbrev pub first_addr : List Prefix → Outcome Addr
first_addr [] = panics
first_addr (p ∷ ps) = returns p.addr

-- The constants of the system.
abbrev pub af_inet : ℕ
af_inet = 2

abbrev pub af_inet6 : ℕ
af_inet6 = 30

abbrev pub af_route : ℕ
af_route = 17

abbrev pub af_system : ℕ
af_system = 32

abbrev pub sock_dgram : ℕ
sock_dgram = 2

abbrev pub sock_raw : ℕ
sock_raw = 3

abbrev pub utun_control_name : List ℕ
utun_control_name =
    b'c' ∷ b'o' ∷ b'm' ∷ b'.' ∷ b'a' ∷ b'p' ∷ b'p' ∷ b'l' ∷ b'e' ∷ b'.' ∷ b'n' ∷ b'e' ∷ b't' ∷ b'.'
    ∷ b'u' ∷ b't' ∷ b'u' ∷ b'n' ∷ b'_' ∷ b'c' ∷ b'o' ∷ b'n' ∷ b't' ∷ b'r' ∷ b'o' ∷ b'l' ∷ []

abbrev pub in6_iff_nodad : ℕ
in6_iff_nodad = 0x20

abbrev pub in6_iff_secured : ℕ
in6_iff_secured = 0x400

abbrev pub nd6_infinite_lifetime : ℕ
nd6_infinite_lifetime = 2 ^ 32 - 1

-- The requests of the loops over the addresses.
unfoldable pub alias_request4 : List ℕ → Prefix → Outcome IfAliasReq
alias_request4 name p = do
  addr ← as4 p.addr
  mask ← prefix_mask 32 p
  returns (record { name = copy_name 16 name; addr = addr; dstaddr = addr; mask = mask })

abbrev pub next_hop6 : Prefix → Option ℕ
next_hop6 p = if p.bits == 128 then some (as16 (next p.addr)) else none

unfoldable pub alias_request6 : List ℕ → Prefix → Outcome IfAliasReq6
alias_request6 name p = do
  mask ← prefix_mask 128 p
  returns (record {
    name = copy_name 16 name;
    addr = as16 p.addr;
    dstaddr = next_hop6 p;
    mask = mask;
    flags = in6_iff_nodad + in6_iff_secured;
    vltime = nd6_infinite_lifetime;
    pltime = nd6_infinite_lifetime;
  })

-- `RTM_ADD`; `RTF_UP | RTF_STATIC | RTF_GATEWAY`; `RTM_VERSION`
abbrev pub message_with : RouteAddrs → RouteMessage
message_with addrs = record {
  message_type = 1;
  flags = 1 + 0x800 + 2;
  version = 5;
  seq = 1;
  addrs = addrs;
}

unfoldable pub route_message : Prefix → Addr → Outcome RouteMessage
route_message destination (Addr.v4 gateway) = do
  dst ← as4 destination.addr
  mask ← prefix_mask 32 destination
  returns (message_with (RouteAddrs.inet4 dst mask gateway))
route_message destination gateway = do
  mask ← prefix_mask 128 destination
  returns (message_with (RouteAddrs.inet6 (as16 destination.addr) mask (as16 gateway)))

-- The address of the device, or zeros.
abbrev pub own_address4 : List Prefix → Outcome ℕ
own_address4 [] = returns 0
own_address4 (p ∷ ps) = as4 p.addr

abbrev pub own_address6 : List Prefix → ℕ
own_address6 [] = 0
own_address6 (p ∷ ps) = as16 p.addr
