-- ===== src/Bind/Windows.antt =====
-- bind/bind_windows.go: binding by the index of the interface, for both families.
pub mod Families
use cropstun.Base.{
  ℕ, ◌%◌, ◌^◌, Bool, true, false, not, ◌||◌, ◌&&◌, List, [], ◌∷◌, Option, none, some, if◌then◌else◌,
}
use cropstun.Base.Go.{Error}
use cropstun.Net.{Addr, is_valid, is_unspecified}
use cropstun.Iface.{Record, get_interface_by_name}
use cropstun.Process.Common.{bytes_eq, read_native_uint32}
use cropstun.Process.Linux.{big_endian}
use cropstun.Bind.Darwin.{tcp4, udp4, tcp6, udp6, ipproto_ip, ipproto_ipv6}
use cropstun.Bind.Control.{
  ControlFn, Dialer, ListenConfig, Socket, is_local, on_descriptor, bind_conn, bind_packet,
}

abbrev pub ip4 : List ℕ
ip4 = b'i' ∷ b'p' ∷ b'4' ∷ []

abbrev pub ip6 : List ℕ
ip6 = b'i' ∷ b'p' ∷ b'6' ∷ []

abbrev pub ip_unicast_if : ℕ
ip_unicast_if = 31

abbrev pub ipv6_unicast_if : ℕ
ipv6_unicast_if = 31

-- The index, put as big-endian bytes and read in the machine's order.
abbrev pub network_order : ℕ → ℕ
network_order index = read_native_uint32 (big_endian 4 (index % 2 ^ 32))

-- The wildcard: `addrPort` is the zero value when the address is not parsed.
abbrev pub is_wildcard : Option Addr → Bool
is_wildcard none = true
is_wildcard (some a) = not (is_valid a) || is_unspecified a

abbrev pub is_some : Option Error → Bool
is_some none = false
is_some (some e) = true

-- An error that wraps another is that other.
abbrev pub udp6_error : Bool → Option Error → Option Error → Option Error
udp6_error wildcard e6 e4 = if wildcard && is_some e6 then (if is_some e4 then e6 else e6) else e6

-- `innerErr`, for the network and the errors of both families.
abbrev pub inner_error : List ℕ → Bool → Option Error → Option Error → Option Error
inner_error network wildcard e6 e4 =
    if bytes_eq network ip6 || bytes_eq network tcp6
    then e6
    else (if bytes_eq network ip4 || bytes_eq network tcp4 || bytes_eq network udp4
        then e4
        else (if bytes_eq network udp6 then udp6_error wildcard e6 e4 else none))

module _ {K : Type 0} (sys : Socket K) where
  unfoldable pub bind4 : K → ℕ → ℕ → Option Error × K
  bind4 k handle iface_idx =
      sys.setsockopt_int k handle ipproto_ip ip_unicast_if (network_order iface_idx)

  unfoldable pub bind6 : K → ℕ → ℕ → Option Error × K
  bind6 k handle iface_idx = sys.setsockopt_int k handle ipproto_ipv6 ipv6_unicast_if iface_idx

  unfoldable pub bind_both : ℕ → List ℕ → Option Addr → K → ℕ → Option Error × K
  unfolding bind4 bind6
  bind_both iface_idx network parsed k handle =
      let (e6, k1) = bind6 k handle iface_idx in
      let (e4, k2) = bind4 k1 handle iface_idx in
      (inner_error network (is_wildcard parsed) e6 e4, k2)

  unfoldable pub setup_control : ℕ → ControlFn K
  unfolding bind_both
  setup_control iface_idx k network address =
      if is_local (sys.parse_addr_port address)
      then (none, k)
      else on_descriptor k (sys.fd k) (bind_both iface_idx network (sys.parse_addr_port address))

  unfoldable pub bind_to_device_for_conn : Record → List ℕ → Dialer K → Option Error × Dialer K
  unfolding setup_control bind_conn
  bind_to_device_for_conn r name d =
      bind_conn (λ i. setup_control i.index) (get_interface_by_name r name) d

  unfoldable pub bind_to_device_for_packet :
      Record → List ℕ → ListenConfig K → Option Error × ListenConfig K
  unfolding setup_control bind_packet
  bind_to_device_for_packet r name lc =
      bind_packet (λ i. setup_control i.index) (get_interface_by_name r name) lc
