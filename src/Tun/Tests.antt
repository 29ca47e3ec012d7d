-- ===== src/Tun/Tests.antt =====
-- The root package at concrete inputs.
use cropstun.Base.{
  ℕ, ◌+◌, ◌^◌, ◌≡◌, refl, inr, ◌≢◌, true, false, List, [], ◌∷◌, ◌*◌, none, some, All, arith,
}
use cropstun.Base.Int.{pos, negsuc}
use cropstun.Base.Go.{Error, ok}
use cropstun.Net.{Addr, Prefix, hits}
use cropstun.Tun.Options.{Options, Prepared, new_tun_device, new_tun_device-Prepared}
use cropstun.Tun.Ranges.{
  Os, build_auto_route_ranges, hits-auto_route_ranges4, hits-auto_route_ranges6,
}
use cropstun.Tun.Names.{calculate_interface_name, next_index, base_name}
use cropstun.Tun.Names.Fresh.{calculate_interface_name-unused}
use cropstun.Tun.Linux.Rules.{Rule, Family, auto_rules}
use cropstun.Tun.Linux.Rules.Range.{Placed, auto_rules-Placed}
use cropstun.Tun.Linux.System.{System}
use cropstun.Tun.Linux.Netlink.Table.{Faithful, remove_first, inside, outside}
use cropstun.Tun.Linux.Netlink.Undo.{set_then_unset, set_then_unset_lem}
use cropstun.Tun.Linux.Device.{device}

abbrev fake_ip : Prefix
fake_ip = record { addr = Addr.v4 (198 * 2 ^ 24 + 18 * 2 ^ 16 + 1); bits = 16 }

abbrev local6 : Prefix
local6 = record { addr = Addr.v6 (0xfd * 2 ^ 120 + 1); bits = 126 }

abbrev blank : Options
blank = record {
  name = [];
  inet4_address = [];
  inet6_address = [];
  mtu = 0;
  table_index = pos 0;
  rule_index = negsuc 4;
  auto_route = true;
}

abbrev dual : Options
dual = record {
  name = b't' ∷ b'u' ∷ b'n' ∷ b'0' ∷ [];
  inet4_address = fake_ip ∷ [];
  inet6_address = local6 ∷ [];
  mtu = 9000;
  table_index = pos 4000;
  rule_index = pos 10086;
  auto_route = true;
}

abbrev lo_name : List ℕ
lo_name = b'l' ∷ b'o' ∷ []

abbrev tun_name : List ℕ → List ℕ
tun_name digits = b't' ∷ b'u' ∷ b'n' ∷ digits

abbrev interfaces : List (List ℕ)
interfaces = lo_name ∷ tun_name (b'7' ∷ []) ∷ tun_name (b'0' ∷ []) ∷ tun_name (b'x' ∷ []) ∷ []

name_after_seven : calculate_interface_name Os.linux [] (some interfaces) ≡ tun_name (b'8' ∷ [])
unfolding calculate_interface_name
name_after_seven = refl

-- Beyond 15 bits the number of an interface is not read, and the calculated name may be in use.
abbrev crowded : List (List ℕ)
crowded =
    tun_name (b'3' ∷ b'2' ∷ b'7' ∷ b'6' ∷ b'7' ∷ [])
    ∷ tun_name (b'3' ∷ b'2' ∷ b'7' ∷ b'6' ∷ b'8' ∷ [])
    ∷ []

name_in_use :
    calculate_interface_name Os.linux [] (some crowded)
    ≡ tun_name (b'3' ∷ b'2' ∷ b'7' ∷ b'6' ∷ b'8' ∷ [])
unfolding calculate_interface_name
name_in_use = refl

calculate_interface_name-unused_example :
    All (λ n. calculate_interface_name Os.linux [] (some interfaces) ≢ n) interfaces
unfolding base_name next_index
calculate_interface_name-unused_example =
    calculate_interface_name-unused Os.linux [] interfaces (omega arith)

hits-auto_route_ranges4_example :
    hits (build_auto_route_ranges Os.darwin dual) (Addr.v4 (8 * 2 ^ 24 + 2056)) ≡ 1
hits-auto_route_ranges4_example =
    hits-auto_route_ranges4 Os.darwin dual (8 * 2 ^ 24 + 2056) (omega arith)

hits-auto_route_ranges6_example : hits (build_auto_route_ranges Os.darwin dual) (Addr.v6 1) ≡ 0
hits-auto_route_ranges6_example = hits-auto_route_ranges6 Os.darwin dual 1 (omega arith)

new_tun_device-Prepared_example :
    Prepared lo_name (fake_ip ∷ []) blank (new_tun_device lo_name (fake_ip ∷ []) blank)
new_tun_device-Prepared_example = new_tun_device-Prepared lo_name (fake_ip ∷ []) blank

-- A kernel that is its table of rules. It has no route to add.
abbrev fresh_rule : Rule
fresh_rule = record {
  family = Family.all;
  priority = negsuc 0;
  table = pos 0;
  dst = none;
  src = none;
  iif_name = [];
  oif_name = [];
  goto = negsuc 0;
  invert = false;
  dport = none;
  suppress_prefixlen = negsuc 0;
}

abbrev no_device : Error
no_device = Error.os 19

abbrev table_system : System (List Rule)
table_system = record {
  new_rule = fresh_rule;
  rule_add = λ k r. (none, r ∷ k);
  rule_del = λ k r. (none, remove_first r.family r.priority k);
  rule_list = λ k f. ok k;
  route_add = λ k r. (some no_device, k);
  route_del = λ k r. (none, k);
  table_free = λ k i. true;
  random = λ k. (pos 7, k);
  link_by_name = λ k n. ok 4;
  link_set_mtu = λ k l m. (none, k);
  link_set_up = λ k l. (none, k);
  addr_add = λ k l p. (none, k);
  rx_checksum = λ k n. (ok true, k);
  set_rx_checksum = λ k n. (none, k);
  open_device = λ k. (ok 3, k);
  set_iff = λ k f n. (none, k);
  set_nonblock = λ k f. (none, k);
  close_fd = λ k f. (none, k);
  raw_conn = λ k f. true;
}

table_system-Faithful : Faithful table_system (λ k. k)
table_system-Faithful = record {
  listed = λ k. refl;
  added = λ k r. inr (0, refl);
  deleted = λ k r h. (refl, refl);
}

abbrev main_rule : Rule
main_rule = record fresh_rule { family = Family.inet; priority = pos 32766; table = pos 254 }

auto_rules-Placed_example : All (Placed fresh_rule dual) (auto_rules fresh_rule dual)
auto_rules-Placed_example = auto_rules-Placed fresh_rule dual

set_then_unset_lem_example :
    ((set_then_unset table_system (λ k. k) table_system-Faithful (main_rule ∷ []) (device 3 dual)).0
      ≡ none)
    × (inside
          (pos 10086)
          (set_then_unset table_system
            (λ k. k)
            table_system-Faithful
            (main_rule ∷ [])
            (device 3 dual)).1
        ≡ [])
    × (outside
          (pos 10086)
          (set_then_unset table_system
            (λ k. k)
            table_system-Faithful
            (main_rule ∷ [])
            (device 3 dual)).1
        ≡ main_rule ∷ [])
set_then_unset_lem_example =
    set_then_unset_lem table_system (λ k. k) table_system-Faithful (main_rule ∷ []) (device 3 dual)
      refl refl
