-- ===== src/Bind/Tests.antt =====
-- Sockets bound to an interface, at a concrete system.
use cropstun.Base.{
  ℕ, ◌+◌, ◌*◌, ◌^◌, ◌≡◌, refl, List, [], ◌∷◌, Option, none, some, arith, ◌==◌, if◌then◌else◌,
}
use cropstun.Base.Go.{Error, ok}
use cropstun.Net.{Addr}
use cropstun.Iface.{entry_of, Interface, NetInterface, flush_all_interfaces}
use cropstun.Bind.Control.{ControlFn, Dialer, Socket}
use cropstun.Bind.Linux
use cropstun.Bind.Dialed.{Bound, run_control, bind_to_device_for_conn-Bound}
use cropstun.Bind.Darwin.{tcp4, udp6}
use cropstun.Bind.Windows
use cropstun.Bind.Windows.Families.{SetBoth, setup_control-SetBoth}

abbrev eth : List ℕ
eth = b'e' ∷ b'n' ∷ []

abbrev listed : List NetInterface
listed =
    record {
      index = 2;
      name = eth;
      mtu = 1500;
      hardware_addr = [];
      addrs = ok (some (record { addr = Addr.v4 (10 * 2 ^ 24 + 1); bits = 8 }) ∷ []);
    }
    ∷ []

abbrev device : Interface
device = record {
  index = 2;
  name = eth;
  mtu = 1500;
  addrs = record { addr = Addr.v4 (10 * 2 ^ 24 + 1); bits = 8 } ∷ [];
  addrs4 = record { addr = Addr.v4 (10 * 2 ^ 24 + 1); bits = 8 } ∷ [];
  addrs6 = [];
  hardware_addr = [];
}

-- The system counts the calls, and refuses the options of IPv6. An empty text is not parsed, and any
-- other is 8.8.8.8.
abbrev parse : List ℕ → Option Addr
parse [] = none
parse (c ∷ cs) = some (Addr.v4 (8 * 2 ^ 24 + 8 * 2 ^ 16 + 8 * 2 ^ 8 + 8))

abbrev system : Socket ℕ
system = record {
  parse_addr_port = parse;
  fd = λ k. ok 5;
  setsockopt_int =
      λ k fd level name value. (if level == 41 then some (Error.os 1) else none, k + 1);
  bind_to_device = λ k fd name. (none, k + 1);
}

-- A dialer with a function of its own, which counts for ten.
abbrev counting : ControlFn ℕ
counting k network address = (none, k + 10)

abbrev dialer : Dialer ℕ
dialer = record { control_context = none; control = some counting }

bind_to_device_for_conn-Bound_example :
    ((Linux.bind_to_device_for_conn system (flush_all_interfaces (ok listed) []).1 eth dialer).0
      ≡ none)
    × Bound system eth (b'd' ∷ []) (run_control dialer 0 tcp4 (b'd' ∷ [])) (
        run_control
          (Linux.bind_to_device_for_conn system
            (flush_all_interfaces (ok listed) []).1
            eth
            dialer).1
          0
          tcp4
          (b'd' ∷ []))
unfolding entry_of
bind_to_device_for_conn-Bound_example =
    bind_to_device_for_conn-Bound system listed [] eth device dialer 0 tcp4 (b'd' ∷ []) refl

setup_control-SetBoth_example : SetBoth system 0 5 7 udp6 (Windows.setup_control system 7 0 udp6 [])
setup_control-SetBoth_example = setup_control-SetBoth system 0 5 7 udp6 [] (omega arith) refl refl

-- On the wildcard address the error of IPv6 is returned, although the option of IPv4 was set.
wildcard_fails : Windows.setup_control system 7 0 udp6 [] ≡ (some (Error.os 1), 2)
unfolding Windows.setup_control Windows.bind_both Windows.bind4 Windows.bind6
wildcard_fails = refl
