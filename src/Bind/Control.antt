-- ===== src/Bind/Control.antt =====
-- bind/bind.go: functions that control a socket before it is used, added to those that are set, and
-- what the systems' files share.
use cropstun.Base.{
  ℕ, ◌-◌, ◌*◌, ◌/◌, ◌%◌, ◌^◌, ◌+◌, Bool, false, not, ◌&&◌, List, Option, none, some, ◌==◌,
  if◌then◌else◌,
}
use cropstun.Base.Go.{Error, Result, ok, err}
use cropstun.Net.{Addr}
use cropstun.Iface.{Interface}

-- A `controlFn`, and the functions of `net.Dialer` and `net.ListenConfig`: called with the network and
-- the address, on the state of the system. The context is left out.
abbrev pub ControlFn : Type 0 → Type 0
ControlFn K = K → List ℕ → List ℕ → Option Error × K

pub record Dialer (K : Type 0) : Type 0 where
  pub control_context : Option (ControlFn K)
  pub control : Option (ControlFn K)

pub record ListenConfig (K : Type 0) : Type 0 where
  pub control : Option (ControlFn K)

-- The second function runs unless the first fails.
abbrev pub first_then : {K : Type 0} → ControlFn K → ControlFn K → ControlFn K
first_then first fn k network address =
    let (e, k') = first k network address in
    elim e [ some x ↦ (some x, k') | none ↦ fn k' network address ]

abbrev pub after_control : {K : Type 0} → Option (ControlFn K) → ControlFn K → ControlFn K
after_control none fn = fn
after_control (some first) fn = first_then first fn

unfoldable pub add_control_to_listen_config :
    {K : Type 0} → ListenConfig K → ControlFn K → ListenConfig K
add_control_to_listen_config lc fn = record { control = some (after_control lc.control fn) }

-- Of the functions that a dialer has, `ControlContext` and `Control`.
abbrev pub joined :
    {K : Type 0} → Option (ControlFn K) → Option (ControlFn K) → ControlFn K → ControlFn K
joined (some first) control fn = first_then first fn
joined none control fn = after_control control fn

unfoldable pub add_control_to_dialer : {K : Type 0} → Dialer K → ControlFn K → Dialer K
add_control_to_dialer d fn = record d {
  control_context = some (joined d.control_context d.control fn);
}

-- `netip.Addr.IsGlobalUnicast`; an IPv4 address inside of an IPv6 one counts as itself.
abbrev pub is_global4 : ℕ → Bool
is_global4 a =
    not (a == 0)
    && not (a == 2 ^ 32 - 1)
    && not (a / 2 ^ 24 == 127)
    && not (a / 2 ^ 28 == 14)
    && not (a / 2 ^ 16 == 169 * 256 + 254)

abbrev pub is_global6 : ℕ → Bool
is_global6 a =
    not (a == 0) && not (a == 1) && not (a / 2 ^ 120 == 255) && not (a / 2 ^ 118 == 0xfe80 / 2 ^ 6)

abbrev pub is_global_unicast : Addr → Bool
is_global_unicast Addr.invalid = false
is_global_unicast (Addr.v4 a) = is_global4 a
is_global_unicast (Addr.v6 a) =
    if a / 2 ^ 32 == 0xffff then is_global4 (a % 2 ^ 32) else is_global6 a

-- The system: the address in a text as `netip.ParseAddrPort` reads it, the socket's descriptor, or the
-- error of `RawConn.Control`, and its options.
pub record Socket (K : Type 0) : Type 0 where
  pub parse_addr_port : List ℕ → Option Addr
  pub fd : K → Result ℕ
  pub setsockopt_int : K → ℕ → ℕ → ℕ → ℕ → Option Error × K
  pub bind_to_device : K → ℕ → List ℕ → Option Error × K

-- The frame that the systems' `setupControl` share: nothing is done for an address that is not of
-- global unicast; otherwise the function runs on the descriptor, and its error counts.
abbrev pub is_local : Option Addr → Bool
is_local none = false
is_local (some a) = not (is_global_unicast a)

abbrev pub on_descriptor :
    {K : Type 0} → K → Result ℕ → (K → ℕ → Option Error × K) → Option Error × K
on_descriptor k (err e) f = (some e, k)
on_descriptor k (ok fd) f = f k fd

-- `bindToDeviceForConn` and `bindToDeviceForPacket`, for the control of the interface found.
unfoldable pub bind_conn :
    {K : Type 0} → (Interface → ControlFn K) → Result Interface → Dialer K → Option Error × Dialer K
unfolding add_control_to_dialer
bind_conn fn (err e) d = (some e, d)
bind_conn fn (ok i) d = (none, add_control_to_dialer d (fn i))

unfoldable pub bind_packet :
    {K : Type 0}
    → (Interface → ControlFn K)
    → Result Interface
    → ListenConfig K
    → Option Error × ListenConfig K
unfolding add_control_to_listen_config
bind_packet fn (err e) lc = (some e, lc)
bind_packet fn (ok i) lc = (none, add_control_to_listen_config lc (fn i))
