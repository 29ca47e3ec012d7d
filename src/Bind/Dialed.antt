-- ===== src/Bind/Dialed.antt =====
-- bind/bind.go and bind_linux.go, over iface/iface.go: what happens to a socket that a dialer opens
-- after `BindToDeviceForConn`.
use cropstun.Base.{
  ℕ, ◌≡◌, refl, sym, ap, subst, ◌∙◌, true, false, List, Option, none, some, inl, inr, Bool-cases,
}
use cropstun.Base.Go.{Error, ok, err, Result-cases}
use cropstun.Iface.{
  Record, Interface, NetInterface, or_error, get_interface_by_name, flush_all_interfaces,
}
use cropstun.Iface.Cached.{latest, get_interface_by_name-latest}
use cropstun.Bind.Control.{
  ControlFn, Dialer, Socket, is_local, on_descriptor, after_control, joined, add_control_to_dialer,
  bind_conn,
}
use cropstun.Bind.Linux.{setup_control, bind_to_device_for_conn}

-- `net.Dialer` calls `ControlContext` if that is set, and otherwise `Control`.
abbrev chosen : {K : Type 0} → Option (ControlFn K) → Option (ControlFn K) → Option (ControlFn K)
chosen (some f) control = some f
chosen none control = control

abbrev run : {K : Type 0} → Option (ControlFn K) → ControlFn K
run none k network address = (none, k)
run (some f) k network address = f k network address

abbrev pub run_control : {K : Type 0} → Dialer K → ControlFn K
run_control d = run (chosen d.control_context d.control)

-- What may happen: the function that was set before fails, or it leads to `k1` and what follows is
-- decided there.
pub data Bound {K : Type 0} (sys : Socket K) (name : List ℕ) (address : List ℕ)
    : Option Error × K → Option Error × K → Type 0 where
  failed_before : (e : Error) (k1 : K) → Bound sys name address (some e, k1) (some e, k1)
  not_global :
      (k1 : K)
      → is_local (sys.parse_addr_port address) ≡ true
      → Bound sys name address (none, k1) (none, k1)
  no_descriptor :
      (k1 : K) (e : Error)
      → is_local (sys.parse_addr_port address) ≡ false
      → sys.fd k1 ≡ err e
      → Bound sys name address (none, k1) (some e, k1)
  bound :
      (k1 : K) (fd : ℕ)
      → is_local (sys.parse_addr_port address) ≡ false
      → sys.fd k1 ≡ ok fd
      → Bound sys name address (none, k1) (sys.bind_to_device k1 fd name)

module _ {K : Type 0} (sys : Socket K) where
  setup_control-Bound :
      (name : List ℕ) (k : K) (network address : List ℕ)
      → Bound sys name address (none, k) (setup_control sys name k network address)
  unfolding setup_control
  setup_control-Bound name k network address =
      elim (Bool-cases (is_local (sys.parse_addr_port address))) [
        | inl l ↦
            let e : setup_control sys name k network address ≡ (none, k) =
              rw (setup_control, l) refl in
            to e (Bound.not_global k l)
        | inr g ↦
            let e : setup_control sys name k network address
                ≡ on_descriptor k (sys.fd k) (λ k' fd. sys.bind_to_device k' fd name) =
              rw (setup_control, g) refl in
            let bind : K → ℕ → Option Error × K = λ k' fd. sys.bind_to_device k' fd name in
            elim (Result-cases (sys.fd k)) [
              | inl (fd, f) ↦ to (e ∙ ap (λ r. on_descriptor k r bind) f) (Bound.bound k fd g f)
              | inr (x, f) ↦
                  to (e ∙ ap (λ r. on_descriptor k r bind) f) (Bound.no_descriptor k x g f)
            ]
      ]
    where
      to :
          {r r' : Option Error × K}
          → r ≡ r'
          → Bound sys name address (none, k) r'
          → Bound sys name address (none, k) r
      to e b = subst (Bound sys name address (none, k)) (sym e) b

  -- The function that was set before runs, and then the new one unless it fails.
  first_then-Bound :
      (first : Option (ControlFn K)) (name : List ℕ) (k : K) (network address : List ℕ)
      → Bound sys name address
          (run first k network address)
          (after_control first (setup_control sys name) k network address)
  first_then-Bound none name k network address = setup_control-Bound name k network address
  first_then-Bound (some first) name k network address = go (first k network address)
    where
      go :
          (r : Option Error × K)
          → Bound sys name address r (elim r.0 [
            | some x ↦ (some x, r.1)
            | none ↦ setup_control sys name r.1 network address
          ])
      go (none, k1) = setup_control-Bound name k1 network address
      go (some e, k1) = Bound.failed_before e k1

  added-Bound :
      (d : Dialer K) (name : List ℕ) (k : K) (network address : List ℕ)
      → Bound sys name address
          (run_control d k network address)
          (run_control (add_control_to_dialer d (setup_control sys name)) k network address)
  unfolding add_control_to_dialer
  added-Bound d name k network address = by_context d.control_context d.control
    where
      by_context :
          (c c' : Option (ControlFn K))
          → Bound sys name address
              (run (chosen c c') k network address)
              (joined c c' (setup_control sys name) k network address)
      by_context none c' = first_then-Bound c' name k network address
      by_context (some f) c' = first_then-Bound (some f) name k network address

  -- The interfaces of the system can be listed, and the last listed one of the name has addresses that
  -- can be read. Then on Linux, after `FlushAllInterfaces`, `BindToDeviceForConn` succeeds. When the
  -- dialer then controls a socket, the function that was set before, if any, runs first, and its error
  -- is returned without a try to bind. Otherwise, an address that is parsed and is not of global
  -- unicast leaves the socket alone, and for any other the result is that of binding the socket's
  -- descriptor to the interface's name, or the error of reading the descriptor.
  pub bind_to_device_for_conn-Bound :
      (is : List NetInterface) (before : Record) (name : List ℕ) (i : Interface) (d : Dialer K)
      (k : K) (network address : List ℕ)
      → latest name is ≡ some i
      → ((bind_to_device_for_conn sys (flush_all_interfaces (ok is) before).1 name d).0 ≡ none)
        × Bound sys i.name address (run_control d k network address) (
            run_control
              (bind_to_device_for_conn sys (flush_all_interfaces (ok is) before).1 name d).1
              k
              network
              address)
  unfolding bind_to_device_for_conn bind_conn
  bind_to_device_for_conn-Bound is before name i d k network address h =
      let found : get_interface_by_name (flush_all_interfaces (ok is) before).1 name ≡ ok i =
        get_interface_by_name-latest is before name ∙ ap or_error h in
      rw (bind_to_device_for_conn, found) (refl, added-Bound d i.name k network address)
