-- ===== src/Route/Tests.antt =====
-- The searches for the default route at concrete tables.
use cropstun.Base.{ℕ, ◌≡◌, refl, List, [], ◌∷◌, some, replicate}
use cropstun.Base.Go.{ok, returns}
use cropstun.Net.{Addr}
use cropstun.Route.Linux
use cropstun.Route.Linux.{Entry}
use cropstun.Route.Linux.First
use cropstun.Route.Linux.First.{Ends}
use cropstun.Route.Darwin
use cropstun.Route.Darwin.{Message, SocketAddr}
use cropstun.Route.Windows
use cropstun.Route.Windows.{Row, IfRow, Api}
use cropstun.Route.Windows.Least.{Decides, default_route_interface-Decides}

abbrev eth : List ℕ
eth = b'e' ∷ b't' ∷ b'h' ∷ []

-- Linux: a route to 10.0.0.0/8, and one to 0.0.0.0/1.
abbrev entries : List Entry
entries =
    record {
      dst = some (record { ip = 10 ∷ 0 ∷ 0 ∷ 0 ∷ []; ones = 8 });
      family = 2;
      link_index = 1;
    }
    ∷ record { dst = some (record { ip = replicate 4 0; ones = 1 }); family = 2; link_index = 7 }
    ∷ []

abbrev linux : Linux.Kernel
linux = record { route_list = ok entries; link_by_index = λ i. ok (eth, i) }

-- The route of one bit counts as a default route.
half_is_default :
    Linux.default_route_interface linux ≡ ok (record { interface_name = eth; interface_index = 7 })
unfolding Linux.default_route_interface Linux.search Linux.is_skipped
half_is_default = refl

default_route_interface-Ends_example : Ends linux entries (Linux.default_route_interface linux)
default_route_interface-Ends_example = First.default_route_interface-Ends linux entries refl

-- macOS: a message of a host route without a gateway, which is static, is skipped for its address; the
-- next is the default route.
abbrev messages : List Message
messages =
    Message.route_message
      (record { flags = 2049; addrs = SocketAddr.inet4 (127 ∷ 0 ∷ 0 ∷ 1 ∷ []) ∷ []; index = 1 })
    ∷ Message.route_message (record {
      flags = 3;
      addrs = SocketAddr.inet4 (replicate 4 0) ∷ SocketAddr.inet4 (192 ∷ 168 ∷ 0 ∷ 1 ∷ []) ∷ [];
      index = 4;
    })
    ∷ []

darwin_default :
    Darwin.default_route_interface
      (record { rib = ok messages; interface_by_index = λ i. ok (eth, i) })
    ≡ returns (ok (record { interface_name = eth; interface_index = 4 }))
unfolding Darwin.default_route_interface Darwin.search Darwin.step
darwin_default = refl

-- Windows: the second row has the least metric, and the first one is not a default route.
abbrev row : ℕ → ℕ → ℕ → Row
row bits luid metric = record {
  prefix_length = bits;
  next_hop = Addr.v4 1;
  luid = luid;
  metric = metric;
}

abbrev rows : List Row
rows = row 8 1 0 ∷ row 0 2 20 ∷ row 0 3 5 ∷ row 0 4 5 ∷ []

abbrev windows : Api
windows = record {
  ip_forward_table2 = ok rows;
  interface = λ l. ok (record { oper_status = 1; if_type = 6; alias = eth; interface_index = l });
  ip_interface = λ l. ok 10;
}

windows_default :
    Windows.default_route_interface windows
    ≡ ok (record { interface_name = eth; interface_index = 3 })
unfolding Windows.default_route_interface Windows.choose Windows.candidate
windows_default = refl

default_route_interface-Decides_example :
    Decides windows rows (Windows.default_route_interface windows)
default_route_interface-Decides_example = default_route_interface-Decides windows rows refl
