-- ===== src/Bind/Darwin.antt =====
-- bind/bind_darwin.go: binding by the index of the interface.
use cropstun.Base.{ℕ, ◌||◌, List, [], ◌∷◌, Option, none, if◌then◌else◌}
use cropstun.Iface.{Record, get_interface_by_name}
use cropstun.Base.Go.{Error}
use cropstun.Process.Common.{bytes_eq}
use cropstun.Bind.Control.{
  ControlFn, Dialer, ListenConfig, Socket, is_local, on_descriptor, bind_conn, bind_packet,
}

abbrev pub tcp4 : List ℕ
tcp4 = b't' ∷ b'c' ∷ b'p' ∷ b'4' ∷ []

abbrev pub udp4 : List ℕ
udp4 = b'u' ∷ b'd' ∷ b'p' ∷ b'4' ∷ []

abbrev pub tcp6 : List ℕ
tcp6 = b't' ∷ b'c' ∷ b'p' ∷ b'6' ∷ []

abbrev pub udp6 : List ℕ
udp6 = b'u' ∷ b'd' ∷ b'p' ∷ b'6' ∷ []

-- The levels IPPROTO_IP and IPPROTO_IPV6, and the options IP_BOUND_IF and IPV6_BOUND_IF.
abbrev pub ipproto_ip : ℕ
ipproto_ip = 0

abbrev pub ipproto_ipv6 : ℕ
ipproto_ipv6 = 41

abbrev pub ip_bound_if : ℕ
ip_bound_if = 25

abbrev pub ipv6_bound_if : ℕ
ipv6_bound_if = 125

module _ {K : Type 0} (sys : Socket K) where
  abbrev bound_if : ℕ → List ℕ → K → ℕ → Option Error × K
  bound_if iface_index network k fd =
      if bytes_eq network tcp4 || bytes_eq network udp4
      then sys.setsockopt_int k fd ipproto_ip ip_bound_if iface_index
      else (if bytes_eq network tcp6 || bytes_eq network udp6
          then sys.setsockopt_int k fd ipproto_ipv6 ipv6_bound_if iface_index
          else (none, k))

  unfoldable pub setup_control : ℕ → ControlFn K
  setup_control iface_index k network address =
      if is_local (sys.parse_addr_port address)
      then (none, k)
      else on_descriptor k (sys.fd k) (bound_if iface_index network)

  unfoldable pub bind_to_device_for_conn : Record → List ℕ → Dialer K → Option Error × Dialer K
  unfolding setup_control bind_conn
  bind_to_device_for_conn r name d =
      bind_conn (λ i. setup_control i.index) (get_interface_by_name r name) d

  unfoldable pub bind_to_device_for_packet :
      Record → List ℕ → ListenConfig K → Option Error × ListenConfig K
  unfolding setup_control bind_packet
  bind_to_device_for_packet r name lc =
      bind_packet (λ i. setup_control i.index) (get_interface_by_name r name) lc
