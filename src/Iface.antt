-- ===== src/Iface.antt =====
-- iface/iface.go: the cached interfaces of the system. Each function holds the lock through its call,
-- so calls are modelled one at a time.
pub mod Cached
mod Tests
use cropstun.Base.{
  ℕ, Bool, true, false, List, [], ◌∷◌, ◌++◌, Option, none, some, map, ◌==◌, if◌then◌else◌,
}
use cropstun.Base.Go.{Error, Result, ok, err}
use cropstun.Net.{Addr, Prefix, is4}
use cropstun.Process.Common.{bytes_eq}

pub record Interface : Type 0 where
  pub index : ℕ
  pub name : List ℕ
  pub mtu : ℕ
  pub addrs : List Prefix
  pub addrs4 : List Prefix
  pub addrs6 : List Prefix
  pub hardware_addr : List ℕ

-- `net.Interface`, with what its method `Addrs` yields: an address is the prefix that its text is
-- parsed as, or `none` where that fails.
pub record NetInterface : Type 0 where
  pub index : ℕ
  pub name : List ℕ
  pub mtu : ℕ
  pub hardware_addr : List ℕ
  pub addrs : Result (List (Option Prefix))

-- The map `record`, its keys in the order in which they were first set.
abbrev pub Record : Type 0
Record = List (List ℕ × Interface)

unfoldable pub insert : List ℕ → Interface → Record → Record
insert k v [] = (k, v) ∷ []
insert k v ((k', v') ∷ r) =
    let rest = insert k v r in if bytes_eq k' k then (k', v) ∷ r else (k', v') ∷ rest

unfoldable pub lookup : List ℕ → Record → Option Interface
lookup k [] = none
lookup k ((k', v) ∷ r) = let rest = lookup k r in if bytes_eq k' k then some v else rest

abbrev pub or_error : {A : Type 0} → Option A → Result A
or_error none = err Error.interface_not_found
or_error (some a) = ok a

unfoldable pub get_interface_by_name : Record → List ℕ → Result Interface
unfolding lookup
get_interface_by_name r name = or_error (lookup name r)

-- Go ranges over a map in an order of its own: `visited` are the values in that order.
unfoldable pub find_index : ℕ → List Interface → Option Interface
find_index index [] = none
find_index index (i ∷ is) =
    let rest = find_index index is in if i.index == index then some i else rest

unfoldable pub get_interface_by_index : List Interface → ℕ → Result Interface
unfolding find_index
get_interface_by_index visited index = or_error (find_index index visited)

-- The loops that append what is visited.
unfoldable pub append_each : {A : Type 0} → List A → List A → List A
append_each list [] = list
append_each list (v ∷ visited) = append_each (list ++ (v ∷ [])) visited

unfoldable pub get_all_interfaces : List Interface → List Interface
unfolding append_each
get_all_interfaces visited = append_each [] visited

unfoldable pub get_all_interface_names : List (List ℕ) → List (List ℕ)
unfolding append_each
get_all_interface_names visited = append_each [] visited

-- The loop over the addresses, for the two lists.
abbrev add_cidr : Option Prefix → List Prefix × List Prefix → List Prefix × List Prefix
add_cidr none cidrs = cidrs
add_cidr (some p) cidrs =
    if is4 p.addr then (cidrs.0 ++ (p ∷ []), cidrs.1) else (cidrs.0, cidrs.1 ++ (p ∷ []))

unfoldable pub split_cidrs :
    List (Option Prefix) → List Prefix × List Prefix → List Prefix × List Prefix
split_cidrs [] cidrs = cidrs
split_cidrs (a ∷ addrs) cidrs = split_cidrs addrs (add_cidr a cidrs)

abbrev pub interface_of : NetInterface → List Prefix × List Prefix → Interface
interface_of i cidrs = record {
  index = i.index;
  name = i.name;
  mtu = i.mtu;
  addrs = cidrs.0 ++ cidrs.1;
  addrs4 = cidrs.0;
  addrs6 = cidrs.1;
  hardware_addr = i.hardware_addr;
}

-- What the loop over the interfaces records: nothing without addresses, or when reading them fails.
unfoldable pub entry_with : NetInterface → Result (List (Option Prefix)) → Option Interface
unfolding split_cidrs
entry_with i (err e) = none
entry_with i (ok []) = none
entry_with i (ok (a ∷ addrs)) = some (interface_of i (split_cidrs (a ∷ addrs) ([], [])))

unfoldable pub entry_of : NetInterface → Option Interface
unfolding entry_with
entry_of i = entry_with i i.addrs

unfoldable pub record_entry : Option Interface → Record → Record
unfolding insert
record_entry none r = r
record_entry (some i) r = insert i.name i r

unfoldable pub record_all : List NetInterface → Record → Record
unfolding record_entry entry_of
record_all [] r = r
record_all (i ∷ is) r = record_all is (record_entry (entry_of i) r)

-- `FlushAllInterfaces`, for what `net.Interfaces` yields: the error, and the map afterwards. The map
-- is cleared first.
unfoldable pub flush_all_interfaces : Result (List NetInterface) → Record → Option Error × Record
unfolding record_all
flush_all_interfaces (err e) r = (some e, [])
flush_all_interfaces (ok is) r = (none, record_all is [])
