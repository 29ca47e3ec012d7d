-- ===== src/Tun/Linux/System.antt =====
-- The kernel and the packages vishvananda/netlink and x/sys/unix as tun_linux.go calls them. All of
-- it is a parameter: `K` is the state of the kernel.
use cropstun.Base.{ℕ, Bool, List, Option}
use cropstun.Base.Int.{ℤ}
use cropstun.Base.Go.{Error, Result}
use cropstun.Net.{Prefix}
use cropstun.Tun.Linux.Rules.{Rule, Route, Family}

pub record System (K : Type 0) : Type 0 where
  -- `netlink.NewRule()`
  pub new_rule : Rule
  pub rule_add : K → Rule → Option Error × K
  pub rule_del : K → Rule → Option Error × K
  pub rule_list : K → Family → Result (List Rule)
  pub route_add : K → Route → Option Error × K
  pub route_del : K → Route → Option Error × K
  -- Whether the search for the routes of a table fails or finds none.
  pub table_free : K → ℤ → Bool
  -- `int(rand.Uint32())`
  pub random : K → ℤ × K
  -- The index of the link.
  pub link_by_name : K → List ℕ → Result ℕ
  pub link_set_mtu : K → ℕ → ℕ → Option Error × K
  pub link_set_up : K → ℕ → Option Error × K
  pub addr_add : K → ℕ → Prefix → Option Error × K
  -- The ioctl on the checksum of received packets: `data.data == 0`.
  pub rx_checksum : K → List ℕ → Result Bool × K
  pub set_rx_checksum : K → List ℕ → Option Error × K
  -- `unix.Open("/dev/net/tun", unix.O_RDWR, 0)`
  pub open_device : K → Result ℕ × K
  -- The ioctl TUNSETIFF for a name, without packet information.
  pub set_iff : K → ℕ → List ℕ → Option Error × K
  pub set_nonblock : K → ℕ → Option Error × K
  pub close_fd : K → ℕ → Option Error × K
  -- Whether `SyscallConn` of the file succeeds.
  pub raw_conn : K → ℕ → Bool
