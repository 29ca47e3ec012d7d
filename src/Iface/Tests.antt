-- ===== src/Iface/Tests.antt =====
-- The cached interfaces at a concrete system.
use cropstun.Base.{ℕ, ◌*◌, ◌^◌, ◌+◌, ◌≡◌, refl, List, [], ◌∷◌, Option, none, some}
use cropstun.Base.Go.{Error, Result, ok, err}
use cropstun.Net.{Addr, Prefix}
use cropstun.Iface.{NetInterface, get_interface_by_name, flush_all_interfaces, interface_of}
use cropstun.Iface.Cached.{WellFormed, Reach, Reach-WellFormed}

abbrev eth : List ℕ
eth = b'e' ∷ b'n' ∷ []

abbrev v6 : Prefix
v6 = record { addr = Addr.v6 (2 ^ 120); bits = 64 }

abbrev v4 : Prefix
v4 = record { addr = Addr.v4 (10 * 2 ^ 24 + 1); bits = 8 }

-- The system's interfaces: one whose addresses cannot be read, and one with three, one of them
-- not parsed.
abbrev device : List ℕ → ℕ → Result (List (Option Prefix)) → NetInterface
device name index addrs = record {
  index = index;
  name = name;
  mtu = 1500;
  hardware_addr = [];
  addrs = addrs;
}

abbrev listed : List NetInterface
listed =
    device (b'l' ∷ b'o' ∷ []) 1 (err (Error.os 5))
    ∷ device eth 2 (ok (some v6 ∷ none ∷ some v4 ∷ []))
    ∷ []

found :
    get_interface_by_name (flush_all_interfaces (ok listed) []).1 eth
    ≡ ok (interface_of (device eth 2 (ok [])) (v4 ∷ [], v6 ∷ []))
unfolding get_interface_by_name flush_all_interfaces
found = refl

Reach-WellFormed_example : WellFormed (flush_all_interfaces (ok listed) []).1
Reach-WellFormed_example =
    Reach-WellFormed (flush_all_interfaces (ok listed) []).1
      (Reach.flush [] (ok listed) Reach.start)
