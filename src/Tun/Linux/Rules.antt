-- ===== src/Tun/Linux/Rules.antt =====
-- tun_linux.go: `rules`, `nextIndex6` and `routes`.
pub mod Range
use cropstun.Base.{
  ℕ, ◌+◌, ◌-◌, ◌*◌, ◌^◌, Bool, true, false, not, ◌&&◌, ◌||◌, List, [], ◌∷◌, ◌++◌, map, concat,
  Option, none, some, if◌then◌else◌,
}
use cropstun.Base.Int.{ℤ, pos, negsuc, ◌+ℤ◌, ltb_ℤ, leb_ℤ}
use cropstun.Net.{Addr, Prefix, masked, bit_length}
use cropstun.Tun.Options.{Options, is_empty}
use cropstun.Tun.Ranges.{Os, build_auto_route_ranges}

-- `net.IPNet` with a mask of `ones` bits out of `size`.
pub record IpNet : Type 0 where
  pub ip : Addr
  pub ones : ℕ
  pub size : ℕ

abbrev pub prefix_to_ip_net : Prefix → IpNet
prefix_to_ip_net p = record { ip = p.addr; ones = p.bits; size = bit_length p.addr }

pub data Family : Type 0 where
  inet inet6 all : Family

-- The fields of a netlink rule that the source sets. The strings are their bytes.
pub record Rule : Type 0 where
  pub family : Family
  pub priority : ℤ
  pub table : ℤ
  pub dst : Option IpNet
  pub src : Option IpNet
  pub iif_name : List ℕ
  pub oif_name : List ℕ
  pub goto : ℤ
  pub invert : Bool
  pub dport : Option (ℕ × ℕ)
  pub suppress_prefixlen : ℤ

pub record Route : Type 0 where
  pub route_dst : IpNet
  pub link_index : ℕ
  pub route_table : ℤ

-- `RT_TABLE_MAIN`
abbrev pub table_main : ℤ
table_main = pos 254

abbrev pub lo : List ℕ
lo = b'l' ∷ b'o' ∷ []

abbrev pub dns_port : Option (ℕ × ℕ)
dns_port = some (53, 53)

-- `routes`; its error is that of `BuildAutoRouteRanges`, which returns none.
unfoldable pub routes : Options → ℕ → List Route
routes o link_index =
    map
      (λ r. record {
        route_dst = prefix_to_ip_net r;
        link_index = link_index;
        route_table = o.table_index;
      })
      (build_auto_route_ranges Os.linux o)

-- The loop of `nextIndex6` over the IPv6 rules.
unfoldable pub min_index : List Rule → ℤ → ℤ
min_index [] m = m
min_index (r ∷ rs) m = min_index rs (
    if ltb_ℤ (pos 0) r.priority && (leb_ℤ m (pos 0) && leb_ℤ (pos 0) m || ltb_ℤ r.priority m)
    then r.priority
    else m)

-- `nextIndex6`: the index, and `ruleIndex6` after the call. `none`: the list failed.
unfoldable pub next_index6 : Option (List Rule) → List ℤ → ℤ × List ℤ
unfolding min_index
next_index6 none rule_index6 = (negsuc 0, rule_index6)
next_index6 (some rs) rule_index6 =
    let m = min_index rs (pos 0) +ℤ negsuc 0 in (m, rule_index6 ++ (m ∷ []))

-- `new_rule` is what `netlink.NewRule` returns.
module _ (new_rule : Rule) where
  abbrev rule : Family → ℤ → ℤ → Rule
  rule family priority table = record new_rule {
    family = family;
    priority = priority;
    table = table;
  }

  -- Without automatic routes: one rule for the device's own traffic, and only for IPv6.
  unfoldable pub manual_rules : Options → Option (List Rule) → List ℤ → List Rule × List ℤ
  unfolding next_index6
  manual_rules o rules6 rule_index6 =
      if is_empty o.inet6_address
      then ([], rule_index6)
      else (let (priority, index6) = next_index6 rules6 rule_index6 in
          (record (rule Family.inet6 priority o.table_index) { oif_name = o.name } ∷ [], index6))

  -- The rules for IPv4 up to the one that suppresses the default route.
  unfoldable pub first4 : Options → ℤ → List Rule
  first4 o start =
      map
        (λ address. record (rule Family.inet start o.table_index) {
          dst = some (prefix_to_ip_net (masked address));
        })
        o.inet4_address
      ++ (record (rule Family.inet (start +ℤ pos 1) o.table_index) { suppress_prefixlen = pos 0 }
          ∷ [])

  unfoldable pub first6 : Options → ℤ → List Rule
  first6 o start =
      record (rule Family.inet6 start o.table_index) { suppress_prefixlen = pos 0 } ∷ []

  -- All but DNS may use the main table.
  unfoldable pub main_table : Family → ℤ → List Rule
  main_table family priority =
      record (rule family priority table_main) {
        invert = true;
        dport = dns_port;
        suppress_prefixlen = pos 0;
      }
      ∷ []

  abbrev jump : Options → Family → ℤ → ℤ → Rule
  jump o family priority nop = record new_rule {
    family = family;
    priority = priority;
    iif_name = o.name;
    goto = nop;
  }

  abbrev from_lo : Family → ℤ → ℤ → Prefix → Rule
  from_lo family priority table p = record (rule family priority table) {
    iif_name = lo;
    src = some (prefix_to_ip_net p);
  }

  unfoldable pub second4 : Options → ℤ → ℤ → List Rule
  second4 o start nop =
      jump o Family.inet (start +ℤ pos 2) nop
      ∷ record (rule Family.inet (start +ℤ pos 3) o.table_index) { invert = true; iif_name = lo }
      ∷ from_lo Family.inet (start +ℤ pos 3) o.table_index (record { addr = Addr.v4 0; bits = 32 })
      ∷ map (λ address. from_lo Family.inet (start +ℤ pos 3) o.table_index (masked address))
          o.inet4_address

  abbrev lo_jump : ℤ → ℤ → Prefix → Rule
  lo_jump priority nop p = record new_rule {
    family = Family.inet6;
    priority = priority;
    iif_name = lo;
    src = some (prefix_to_ip_net p);
    goto = nop;
  }

  unfoldable pub second6 : Options → ℤ → ℤ → List Rule
  second6 o start nop =
      jump o Family.inet6 (start +ℤ pos 1) nop
      ∷ lo_jump (start +ℤ pos 1) nop (record { addr = Addr.v6 0; bits = 1 })
      ∷ lo_jump (start +ℤ pos 1) nop (record { addr = Addr.v6 (128 * 2 ^ 120); bits = 1 })
      ∷ (map (λ address. from_lo Family.inet6 (start +ℤ pos 2) o.table_index (masked address))
            o.inet6_address
          ++ (rule Family.inet6 (start +ℤ pos 3) o.table_index ∷ []))

  abbrev pub nop_rule : Family → ℤ → List Rule
  nop_rule family nop = record new_rule { family = family; priority = nop } ∷ []

  abbrev pub when {ℓ} : {A : Type ℓ} → Bool → List A → List A
  when b xs = if b then xs else []

  -- The groups of rules, in the order in which they are appended.
  unfoldable pub auto_groups : Options → List (List Rule)
  unfolding first4 first6 main_table second4 second6
  auto_groups o =
      let start = o.rule_index in
      let nop = o.rule_index +ℤ pos 10 in
      let p4 = not (is_empty o.inet4_address) in
      let p6 = not (is_empty o.inet6_address) in
      when p4 (first4 o start)
      ∷ when p6 (first6 o start)
      ∷ when p4 (main_table Family.inet (start +ℤ pos 2))
      ∷ when p6 (main_table Family.inet6 (start +ℤ pos 1))
      ∷ when p4 (second4 o start nop)
      ∷ when p6 (second6 o start nop)
      ∷ when p4 (nop_rule Family.inet nop)
      ∷ when p6 (nop_rule Family.inet6 nop)
      ∷ []

  unfoldable pub auto_rules : Options → List Rule
  unfolding auto_groups
  auto_rules o = concat (auto_groups o)

  -- `rules`: the rules, and `ruleIndex6` after the call.
  unfoldable pub rules : Options → Option (List Rule) → List ℤ → List Rule × List ℤ
  unfolding manual_rules auto_rules
  rules o rules6 rule_index6 =
      if o.auto_route then (auto_rules o, rule_index6) else manual_rules o rules6 rule_index6
