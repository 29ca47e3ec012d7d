-- ===== src/Route/Linux/First.antt =====
-- route/route_linux.go: the route that the search takes.
use cropstun.Base.{
  ℕ, ◌≡◌, refl, sym, subst, true, false, false≢true, List, [], ◌∷◌, ◌++◌, All, inl, inr, Bool-cases,
  some, Option-cases, ◌==◌, replicate, arith,
}
use cropstun.Base.Go.{Error, Result, ok, err, Result-cases}
use cropstun.Process.Common.{bytes_eq}
use cropstun.Process.Linux.Holder.{bytes_eq→≡, bytes_eq_refl}
use cropstun.Route.{Route}
use cropstun.Route.Linux.{
  IpNet, Entry, Kernel, is_skipped, is_skipped_dst, equal_ipv4_zero, equal_ipv6_zero, search,
  default_route_interface,
}

-- The address 0.0.0.0, in 4 bytes or in 16, and the address ::.
pub data IsZero4 (ip : List ℕ) : Type 0 where
  short : ip ≡ 0 ∷ 0 ∷ 0 ∷ 0 ∷ [] → IsZero4 ip
  long : ip ≡ replicate 10 0 ++ (255 ∷ 255 ∷ 0 ∷ 0 ∷ 0 ∷ 0 ∷ []) → IsZero4 ip

-- A route with a destination whose address is zero in its family.
pub record IsDefault (route : Entry) : Type 0 where
  pub dst : IpNet
  pub has : route.dst ≡ some dst
  pub zero4 : route.family ≡ 2 → IsZero4 dst.ip
  pub zero6 : route.family ≡ 10 → dst.ip ≡ replicate 16 0

equal_ipv4_zero-IsZero4 : (ip : List ℕ) → equal_ipv4_zero ip ≡ true → IsZero4 ip
equal_ipv4_zero-IsZero4 ip h = elim (Bool-cases (bytes_eq ip (replicate 4 0))) [
  | inl e ↦ IsZero4.short (bytes_eq→≡ ip _ e)
  | inr e ↦ IsZero4.long (bytes_eq→≡ ip _ (rw e at h))
]

IsZero4-equal : (ip : List ℕ) → IsZero4 ip → equal_ipv4_zero ip ≡ true
IsZero4-equal ip (IsZero4.short e) = rw e refl
IsZero4-equal ip (IsZero4.long e) = rw e refl

-- What the guards of the loop leave is a default route, and they leave each one.
taken-IsDefault : (route : Entry) → is_skipped route ≡ false → IsDefault route
unfolding is_skipped
taken-IsDefault route h = elim (Option-cases route.dst) [
  | inl n ↦ absurd (false≢true (sym (rw (is_skipped, n) at h)))
  | inr (dst, e) ↦
      let kept : is_skipped_dst route.family dst ≡ false = rw (is_skipped, e) at h in
      record {
        dst = dst;
        has = e;
        zero4 = λ f. equal_ipv4_zero-IsZero4 dst.ip (ground (arith, kept, f));
        zero6 = λ f. bytes_eq→≡ dst.ip _ (ground (arith, kept, f));
      }
]

skipped-not : (route : Entry) → is_skipped route ≡ true → ¬ IsDefault route
unfolding is_skipped
skipped-not route h d =
    let gone : is_skipped_dst route.family d.dst ≡ true = rw (is_skipped, d.has) at h in
    elim (Bool-cases (route.family == 2)) [
      | inl four ↦
          let z = IsZero4-equal d.dst.ip (d.zero4 (ground (arith, four))) in
          false≢true (ground (arith, gone, four, z))
      | inr other ↦ elim (Bool-cases (route.family == 10)) [
        | inl six ↦
            let z : equal_ipv6_zero d.dst.ip ≡ true =
              rw (d.zero6 (ground (arith, six))) (bytes_eq_refl (replicate 16 0)) in
            false≢true (ground (arith, gone, other, six, z))
        | inr none_of_both ↦ false≢true (ground (arith, gone, other, none_of_both))
      ]
    ]

-- How the search ends: there is no default route, or the first of them decides by its link.
pub data Ends (sys : Kernel) : List Entry → Result Route → Type 0 where
  nowhere :
      (routes : List Entry) → All (λ r. ¬ IsDefault r) routes → Ends sys routes (err Error.no_route)
  at_first :
      (before : List Entry) (route : Entry) (after : List Entry) (name : List ℕ) (index : ℕ)
      → All (λ r. ¬ IsDefault r) before
      → IsDefault route
      → sys.link_by_index route.link_index ≡ ok (name, index)
      → Ends sys
          (before ++ (route ∷ after))
          (ok (record { interface_name = name; interface_index = index }))
  without_link :
      (before : List Entry) (route : Entry) (after : List Entry) (e : Error)
      → All (λ r. ¬ IsDefault r) before
      → IsDefault route
      → sys.link_by_index route.link_index ≡ err e
      → Ends sys (before ++ (route ∷ after)) (err e)

module _ (sys : Kernel) where
  Ends-cons :
      {r : Result Route} {routes : List Entry} (route : Entry)
      → ¬ IsDefault route
      → Ends sys routes r
      → Ends sys (route ∷ routes) r
  Ends-cons route h (Ends.nowhere routes all) = Ends.nowhere (route ∷ routes) (h, all)
  Ends-cons route h (Ends.at_first before r after name index all d l) =
      Ends.at_first (route ∷ before) r after name index (h, all) d l
  Ends-cons route h (Ends.without_link before r after e all d l) =
      Ends.without_link (route ∷ before) r after e (h, all) d l

  search-Ends : (routes : List Entry) → Ends sys routes (search sys routes)
  unfolding search
  search-Ends [] = Ends.nowhere [] tt
  search-Ends (route ∷ routes) = elim (Bool-cases (is_skipped route)) [
    | inl h ↦ rw h (Ends-cons route (skipped-not route h) (search-Ends routes))
    | inr h ↦ elim (Result-cases (sys.link_by_index route.link_index)) [
      | inl (link, l) ↦
          rw (h, l) (Ends.at_first [] route routes link.0 link.1 tt (taken-IsDefault route h) l)
      | inr (e, l) ↦ rw (h, l) (Ends.without_link [] route routes e tt (taken-IsDefault route h) l)
    ]
  ]

  -- On Linux, when the main table can be read, `DefaultRouteInterface` takes the first default route
  -- of the table: one that has a destination, whose address is 0.0.0.0 if the route is of IPv4 and ::
  -- if it is of IPv6, whatever its mask. It yields the name and the index of that route's link, or
  -- the error of reading the link, without a look at a later route; and `ErrNoRoute` if there is none.
  pub default_route_interface-Ends :
      (routes : List Entry)
      → sys.route_list ≡ ok routes
      → Ends sys routes (default_route_interface sys)
  unfolding default_route_interface
  default_route_interface-Ends routes h =
      let e : default_route_interface sys ≡ search sys routes = rw h refl in
      subst (Ends sys routes) (sym e) (search-Ends routes)
