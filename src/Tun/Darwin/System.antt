-- ===== src/Tun/Darwin/System.antt =====
-- The kernel of macOS and the packages x/sys/unix and x/net/route as tun_darwin.go calls them. All of
-- it is a parameter: `K` is the state of the kernel.
use cropstun.Base.{ℕ, Bool, List, Option}
use cropstun.Base.Int.{ℤ}
use cropstun.Base.Go.{Error, Result}

-- `ifAliasReq` and `ifAliasReq6`; an address is a number of 32 or 128 bits, 0 in a structure left
-- empty.
pub record IfAliasReq : Type 0 where
  pub name : List ℕ
  pub addr : ℕ
  pub dstaddr : ℕ
  pub mask : ℕ

pub record IfAliasReq6 : Type 0 where
  pub name : List ℕ
  pub addr : ℕ
  pub dstaddr : Option ℕ
  pub mask : ℕ
  pub flags : ℕ
  pub vltime : ℕ
  pub pltime : ℕ

-- The addresses of a message, of one family: destination, netmask and gateway.
pub data RouteAddrs : Type 0 where
  inet4 : ℕ → ℕ → ℕ → RouteAddrs
  inet6 : ℕ → ℕ → ℕ → RouteAddrs

-- `route.RouteMessage`
pub record RouteMessage : Type 0 where
  pub message_type : ℕ
  pub flags : ℕ
  pub version : ℕ
  pub seq : ℕ
  pub addrs : RouteAddrs

pub record System (K : Type 0) : Type 0 where
  -- `unix.Socket`, for a domain, a type and a protocol.
  pub socket : K → ℕ → ℕ → ℕ → Result ℕ × K
  pub close : K → ℕ → Option Error × K
  -- The id of the control of that name.
  pub ioctl_ctl_info : K → ℕ → List ℕ → Result ℕ × K
  -- `unix.Connect` to a control's id and unit.
  pub connect : K → ℕ → ℕ → ℕ → Option Error × K
  pub set_nonblock : K → ℕ → Option Error × K
  pub set_ifreq_mtu : K → ℕ → List ℕ → ℤ → Option Error × K
  pub siocaifaddr : K → ℕ → IfAliasReq → Option Error × K
  pub siocaifaddr_in6 : K → ℕ → IfAliasReq6 → Option Error × K
  pub marshal : RouteMessage → Result (List ℕ)
  pub write : K → ℕ → List ℕ → Option Error × K
  -- `exec.Command("dscacheutil", "-flushcache").Start()`
  pub start_flush_cache : K → Option Error × K
  -- Whether `SyscallConn` of the file succeeds.
  pub raw_conn : K → ℕ → Bool
