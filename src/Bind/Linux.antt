-- ===== src/Bind/Linux.antt =====
-- bind/bind_linux.go: binding by the name of the interface.
use cropstun.Base.{ℕ, List, Option, none, if◌then◌else◌}
use cropstun.Iface.{Record, get_interface_by_name}
use cropstun.Base.Go.{Error}
use cropstun.Bind.Control.{
  ControlFn, Dialer, ListenConfig, Socket, is_local, on_descriptor, bind_conn, bind_packet,
}

module _ {K : Type 0} (sys : Socket K) where
  unfoldable pub setup_control : List ℕ → ControlFn K
  setup_control iface_name k network address =
      if is_local (sys.parse_addr_port address)
      then (none, k)
      else on_descriptor k (sys.fd k) (λ k' fd. sys.bind_to_device k' fd iface_name)

  unfoldable pub bind_to_device_for_conn : Record → List ℕ → Dialer K → Option Error × Dialer K
  unfolding setup_control bind_conn
  bind_to_device_for_conn r name d =
      bind_conn (λ i. setup_control i.name) (get_interface_by_name r name) d

  unfoldable pub bind_to_device_for_packet :
      Record → List ℕ → ListenConfig K → Option Error × ListenConfig K
  unfolding setup_control bind_packet
  bind_to_device_for_packet r name lc =
      bind_packet (λ i. setup_control i.name) (get_interface_by_name r name) lc
