-- ===== src/Tun/Options.antt =====
-- tun.go: the options of a device and the values that `NewTunDevice` fills in.
use cropstun.Base.{
  ◌≡◌, refl, sym, ◌∙◌, ◌⊎◌, append-nil, append_assoc, arith, ℕ, ◌<◌, Bool, true, false, List, [],
  ◌∷◌, ◌++◌, ◌==◌, if◌then◌else◌,
}
use cropstun.Base.Int.{ℤ, pos, ◌≤ℤ◌, leb_ℤ}
use cropstun.Net.{Addr, Prefix, is4, is6}

-- `name` is the string's bytes.
pub record Options : Type 0 where
  pub name : List ℕ
  pub inet4_address : List Prefix
  pub inet6_address : List Prefix
  pub mtu : ℕ
  pub table_index : ℤ
  pub rule_index : ℤ
  pub auto_route : Bool

abbrev pub default_mtu : ℕ
default_mtu = 9000

abbrev pub default_table_index : ℕ
default_table_index = 4000

abbrev pub default_rule_index : ℕ
default_rule_index = 10086

abbrev pub is_empty {ℓ} : {A : Type ℓ} → List A → Bool
is_empty [] = true
is_empty (x ∷ xs) = false

-- The loop over `cidrs`; the address of the prefix decides.
abbrev add_address : Addr → Prefix → Options → Options
add_address a cidr o =
    if is4 a
    then record o { inet4_address = o.inet4_address ++ (cidr ∷ []) }
    else (if is6 a then record o { inet6_address = o.inet6_address ++ (cidr ∷ []) } else o)

unfoldable pub add_addresses : List Prefix → Options → Options
add_addresses [] o = o
add_addresses (cidr ∷ cidrs) o = add_addresses cidrs (add_address cidr.addr cidr o)

-- `NewTunDevice` up to its call of `New`; `calculated` is what `CalculateInterfaceName` returns.
unfoldable pub new_tun_device : List ℕ → List Prefix → Options → Options
unfolding add_addresses
new_tun_device calculated cidrs o = add_addresses cidrs (record o {
  name = if is_empty o.name then calculated else o.name;
  mtu = if o.mtu == 0 then default_mtu else o.mtu;
  table_index = if leb_ℤ o.table_index (pos 0) then pos default_table_index else o.table_index;
  rule_index = if leb_ℤ o.rule_index (pos 0) then pos default_rule_index else o.rule_index;
})

-- The prefixes of one family, in their order.
abbrev pub of_family : (Addr → Bool) → List Prefix → List Prefix
of_family test [] = []
of_family test (p ∷ ps) = if test p.addr then p ∷ of_family test ps else of_family test ps

-- Only the two lists of addresses have changed, each by the prefixes of its family.
pub record Extended (cidrs : List Prefix) (o o' : Options) : Type 0 where
  pub inet4 : o'.inet4_address ≡ o.inet4_address ++ of_family is4 cidrs
  pub inet6 : o'.inet6_address ≡ o.inet6_address ++ of_family is6 cidrs
  pub same_name : o'.name ≡ o.name
  pub same_mtu : o'.mtu ≡ o.mtu
  pub same_table : o'.table_index ≡ o.table_index
  pub same_rule : o'.rule_index ≡ o.rule_index
  pub same_auto : o'.auto_route ≡ o.auto_route

extend-one :
    (a : Addr) (p : Prefix) (cidrs : List Prefix) (o o' : Options)
    → Extended cidrs (add_address a p o) o'
    → record {
      inet4 :
          o'.inet4_address
          ≡ o.inet4_address ++ (if is4 a then p ∷ of_family is4 cidrs else of_family is4 cidrs);
      inet6 :
          o'.inet6_address
          ≡ o.inet6_address ++ (if is6 a then p ∷ of_family is6 cidrs else of_family is6 cidrs);
      same_name : o'.name ≡ o.name;
      same_mtu : o'.mtu ≡ o.mtu;
      same_table : o'.table_index ≡ o.table_index;
      same_rule : o'.rule_index ≡ o.rule_index;
      same_auto : o'.auto_route ≡ o.auto_route;
    }
extend-one Addr.invalid p cidrs o o' x = record {
  inet4 = x.inet4;
  inet6 = x.inet6;
  same_name = x.same_name;
  same_mtu = x.same_mtu;
  same_table = x.same_table;
  same_rule = x.same_rule;
  same_auto = x.same_auto;
}
extend-one (Addr.v4 n) p cidrs o o' x = record {
  inet4 = x.inet4 ∙ append_assoc o.inet4_address (p ∷ []) (of_family is4 cidrs);
  inet6 = x.inet6;
  same_name = x.same_name;
  same_mtu = x.same_mtu;
  same_table = x.same_table;
  same_rule = x.same_rule;
  same_auto = x.same_auto;
}
extend-one (Addr.v6 n) p cidrs o o' x = record {
  inet4 = x.inet4;
  inet6 = x.inet6 ∙ append_assoc o.inet6_address (p ∷ []) (of_family is6 cidrs);
  same_name = x.same_name;
  same_mtu = x.same_mtu;
  same_table = x.same_table;
  same_rule = x.same_rule;
  same_auto = x.same_auto;
}

add_addresses-Extended :
    (cidrs : List Prefix) (o : Options) → Extended cidrs o (add_addresses cidrs o)
unfolding add_addresses
add_addresses-Extended [] o = record {
  inet4 = sym (append-nil o.inet4_address);
  inet6 = sym (append-nil o.inet6_address);
  same_name = refl;
  same_mtu = refl;
  same_table = refl;
  same_rule = refl;
  same_auto = refl;
}
add_addresses-Extended (p ∷ cidrs) o =
    let e = extend-one p.addr p cidrs o _ (add_addresses-Extended cidrs _) in
    record {
      inet4 = e.inet4;
      inet6 = e.inet6;
      same_name = e.same_name;
      same_mtu = e.same_mtu;
      same_table = e.same_table;
      same_rule = e.same_rule;
      same_auto = e.same_auto;
    }

-- What `New` is called with.
pub record Prepared (calculated : List ℕ) (cidrs : List Prefix) (o o' : Options) : Type 0 where
  pub inet4 : o'.inet4_address ≡ o.inet4_address ++ of_family is4 cidrs
  pub inet6 : o'.inet6_address ≡ o.inet6_address ++ of_family is6 cidrs
  pub named : o'.name ≡ (if is_empty o.name then calculated else o.name)
  pub mtu_pos : 0 < o'.mtu
  pub mtu_kept : (o.mtu ≡ 0) ⊎ (o'.mtu ≡ o.mtu)
  pub table_pos : pos 1 ≤ℤ o'.table_index
  pub table_kept : (o.table_index ≤ℤ pos 0) ⊎ (o'.table_index ≡ o.table_index)
  pub rule_pos : pos 1 ≤ℤ o'.rule_index
  pub rule_kept : (o.rule_index ≤ℤ pos 0) ⊎ (o'.rule_index ≡ o.rule_index)

positive : (z : ℤ) (d : ℕ) → 0 < d → pos 1 ≤ℤ (if leb_ℤ z (pos 0) then pos d else z)
positive z d h = ground arith

kept : (z : ℤ) (d : ℕ) → (z ≤ℤ pos 0) ⊎ ((if leb_ℤ z (pos 0) then pos d else z) ≡ z)
kept z d = ground arith

-- `NewTunDevice` calls `New` with an MTU, a table and a rule index that are positive, and that are
-- the caller's where those were; with the caller's addresses followed by the prefixes of each family
-- in their order, those of no family left out; and with the caller's name, or the calculated one if
-- that is empty.
pub new_tun_device-Prepared :
    (calculated : List ℕ) (cidrs : List Prefix) (o : Options)
    → Prepared calculated cidrs o (new_tun_device calculated cidrs o)
unfolding new_tun_device
new_tun_device-Prepared calculated cidrs o =
    let e = add_addresses-Extended cidrs (record o {
      name = if is_empty o.name then calculated else o.name;
      mtu = if o.mtu == 0 then default_mtu else o.mtu;
      table_index = if leb_ℤ o.table_index (pos 0) then pos default_table_index else o.table_index;
      rule_index = if leb_ℤ o.rule_index (pos 0) then pos default_rule_index else o.rule_index;
    }) in
    record {
      inet4 = e.inet4;
      inet6 = e.inet6;
      named = e.same_name;
      mtu_pos = rw e.same_mtu (ground arith);
      mtu_kept = rw e.same_mtu (ground arith);
      table_pos = rw e.same_table (positive o.table_index default_table_index (omega arith));
      table_kept = rw e.same_table (kept o.table_index default_table_index);
      rule_pos = rw e.same_rule (positive o.rule_index default_rule_index (omega arith));
      rule_kept = rw e.same_rule (kept o.rule_index default_rule_index);
    }
