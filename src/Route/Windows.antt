-- ===== src/Route/Windows.antt =====
-- route/route_windows.go: the default route of least metric.
pub mod Qualifying
pub mod Least
use cropstun.Base.{
  ℕ, ◌+◌, ◌-◌, ◌*◌, ◌^◌, ◌%◌, Bool, true, false, not, ◌&&◌, ◌||◌, List, [], ◌∷◌, Option, none, some,
  ◌==◌, ltb, if◌then◌else◌,
}
use cropstun.Base.Go.{Error, Result, ok, err}
use cropstun.Net.{Addr, addr_eq}
use cropstun.Tun.Options.{is_empty}
use cropstun.Route.{Route}

-- What the search reads of a row of the forwarding table.
pub record Row : Type 0 where
  pub prefix_length : ℕ
  pub next_hop : Addr
  pub luid : ℕ
  pub metric : ℕ

-- ... and of an interface's row.
pub record IfRow : Type 0 where
  pub oper_status : ℕ
  pub if_type : ℕ
  pub alias : List ℕ
  pub interface_index : ℕ

-- The libraries of Windows: the forwarding table of IPv4, an interface's row, and the metric that an
-- interface has for IPv4.
pub record Api : Type 0 where
  pub ip_forward_table2 : Result (List Row)
  pub interface : ℕ → Result IfRow
  pub ip_interface : ℕ → Result ℕ

-- 25.255.255.254
abbrev pub zero_tier_fake_gateway_ip : Addr
zero_tier_fake_gateway_ip = Addr.v4 (25 * 2 ^ 24 + 255 * 2 ^ 16 + 255 * 2 ^ 8 + 254)

abbrev pub if_oper_status_up : ℕ
if_oper_status_up = 1

abbrev pub if_type_software_loopback : ℕ
if_type_software_loopback = 24

abbrev pub if_type_prop_virtual : ℕ
if_type_prop_virtual = 53

-- `lowestMetric`, `alias` and `index`
pub record Best : Type 0 where
  pub lowest_metric : ℕ
  pub alias : List ℕ
  pub index : ℕ

abbrev pub max_uint32 : ℕ
max_uint32 = 2 ^ 32 - 1

abbrev pub initial : Best
initial = record { lowest_metric = max_uint32; alias = []; index = 0 }

-- The guards of the loop's body, in their order, and behind them the interface with the metric of
-- the route.
abbrev pub checked_type : IfRow → ℕ → Option (IfRow × ℕ)
checked_type ifrow metric =
    if ifrow.if_type == if_type_prop_virtual || ifrow.if_type == if_type_software_loopback
    then none
    else some (ifrow, metric)

abbrev pub with_metric : ℕ → IfRow → Result ℕ → Option (IfRow × ℕ)
with_metric metric ifrow (err e) = none
with_metric metric ifrow (ok m) = checked_type ifrow ((metric + m) % 2 ^ 32)

-- Behind the loop.
abbrev pub route_of : Best → Result Route
route_of best =
    if is_empty best.alias
    then err Error.no_route
    else ok (record { interface_name = best.alias; interface_index = best.index })

abbrev pub improve : Best → Option (IfRow × ℕ) → Best
improve best none = best
improve best (some (ifrow, metric)) =
    if ltb metric best.lowest_metric
    then record { lowest_metric = metric; alias = ifrow.alias; index = ifrow.interface_index }
    else best

module _ (sys : Api) where
  abbrev pub with_interface : Row → Result IfRow → Option (IfRow × ℕ)
  with_interface row (err e) = none
  with_interface row (ok ifrow) =
      if not (ifrow.oper_status == if_oper_status_up)
      then none
      else with_metric row.metric ifrow (sys.ip_interface row.luid)

  unfoldable pub candidate : Row → Option (IfRow × ℕ)
  candidate row =
      if not (row.prefix_length == 0)
      then none
      else if addr_eq row.next_hop zero_tier_fake_gateway_ip
      then none
      else with_interface row (sys.interface row.luid)

  -- The loop over the rows.
  unfoldable pub choose : List Row → Best → Best
  choose [] best = best
  choose (row ∷ rows) best = choose rows (improve best (candidate row))

  unfoldable pub default_route_interface : Result Route
  unfolding choose
  default_route_interface = elim sys.ip_forward_table2 [
    | err e ↦ err e
    | ok rows ↦ route_of (choose rows initial)
  ]
