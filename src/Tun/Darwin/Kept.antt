-- ===== src/Tun/Darwin/Kept.antt =====
-- tun_darwin.go: what the steps of `configure` leave of the open descriptors.
use cropstun.Base.{
  ℕ, ◌≡◌, refl, ◌∙◌, Bool, true, false, List, [], ◌∷◌, All, Option, none, some, inl, inr,
  if◌then◌else◌,
}
use cropstun.Base.Int.{ℤ}
use cropstun.Base.Go.{Error, Result, ok, err, Result-cases, Outcome, returns, panics, Returns}
use cropstun.Net.{Addr, Prefix, is4}
use cropstun.Tun.Options.{Options}
use cropstun.Tun.Darwin.Routable.{
  Fits4, Fits6, Routable, ranges-Routable, alias_request4-Returns, alias_request6-Returns,
  route_message4-Returns, route_message6-Returns,
}
use cropstun.Tun.Darwin.System.{System}
use cropstun.Tun.Darwin.Requests
use cropstun.Tun.Darwin.Configure

-- The kernel keeps the list `fds` of the open descriptors: `socket` opens one, `close` closes the
-- last one opened, and no other call opens or closes any.
pub record Tracks {K : Type 0} (sys : System K) (fds : K → List ℕ) : Type 0 where
  pub opened :
      (k : K) (d t p fd : ℕ)
      → (sys.socket k d t p).0 ≡ ok fd
      → fds (sys.socket k d t p).1 ≡ fd ∷ fds k
  pub refused :
      (k : K) (d t p : ℕ) (e : Error)
      → (sys.socket k d t p).0 ≡ err e
      → fds (sys.socket k d t p).1 ≡ fds k
  pub closed : (k : K) (fd : ℕ) (rest : List ℕ) → fds k ≡ fd ∷ rest → fds (sys.close k fd).1 ≡ rest
  pub ctl_info : (k : K) (fd : ℕ) (n : List ℕ) → fds (sys.ioctl_ctl_info k fd n).1 ≡ fds k
  pub connected : (k : K) (fd id unit : ℕ) → fds (sys.connect k fd id unit).1 ≡ fds k
  pub nonblock : (k : K) (fd : ℕ) → fds (sys.set_nonblock k fd).1 ≡ fds k
  pub ifreq_mtu : (k : K) (fd : ℕ) (n : List ℕ) (m : ℤ) → fds (sys.set_ifreq_mtu k fd n m).1 ≡ fds k
  pub aifaddr : (k : K) (fd : ℕ) (r : _) → fds (sys.siocaifaddr k fd r).1 ≡ fds k
  pub aifaddr_in6 : (k : K) (fd : ℕ) (r : _) → fds (sys.siocaifaddr_in6 k fd r).1 ≡ fds k
  pub written : (k : K) (fd : ℕ) (b : List ℕ) → fds (sys.write k fd b).1 ≡ fds k
  pub flushed : (k : K) → fds (sys.start_flush_cache k).1 ≡ fds k

-- The call does not panic, and afterwards `fs` are open.
abbrev pub Kept : {K : Type 0} → (K → List ℕ) → List ℕ → Outcome (Option Error) × K → Type 0
Kept fds fs r = Returns (λ e. Unit) r.0 × (fds r.1 ≡ fs)

pub then_try-Kept :
    {K : Type 0} (fds : K → List ℕ) (fs : List ℕ) (r : Outcome (Option Error) × K)
    (f : K → Outcome (Option Error) × K)
    → Kept fds fs r
    → ((k : K) → Kept fds (fds k) (f k))
    → Kept fds fs (Configure.then_try r f)
then_try-Kept fds fs (returns none, k) f h g = ((g k).0, (g k).1 ∙ h.1)
then_try-Kept fds fs (returns (some e), k) f h g = h
then_try-Kept fds fs (panics, k) f h g = h

if-Kept :
    {K : Type 0} (fds : K → List ℕ) (fs : List ℕ) (b : Bool) (r s : Outcome (Option Error) × K)
    → Kept fds fs r
    → Kept fds fs s
    → Kept fds fs (if b then r else s)
if-Kept fds fs true r s h g = h
if-Kept fds fs false r s h g = g

with_value-Kept :
    {A K : Type 0} (fds : K → List ℕ) (fs : List ℕ) (k : K) (o : Outcome A)
    (f : A → Outcome (Option Error) × K)
    → Returns (λ a. Unit) o
    → ((a : A) → Kept fds fs (f a))
    → Kept fds fs (Configure.with_value k o f)
with_value-Kept fds fs k (returns a) f h g = g a
with_value-Kept fds fs k panics f h g = elim h [ ]

module _ {K : Type 0} (sys : System K) (fds : K → List ℕ) (tracks : Tracks sys fds) where
  pub use_socket-fds :
      (k : K) (d t p : ℕ) (block : K → ℕ → Option Error × K)
      → ((k' : K) (fd : ℕ) → fds (block k' fd).1 ≡ fds k')
      → fds (Configure.use_socket sys k d t p block).1 ≡ fds k
  unfolding Configure.use_socket
  use_socket-fds k d t p block h = elim (Result-cases (sys.socket k d t p).0) [
    | inr (e, r) ↦ rw (Configure.use_socket, r) (tracks.refused k d t p e r)
    | inl (fd, r) ↦
        rw (Configure.use_socket, r)
          (tracks.closed _ fd (fds k) (h _ fd ∙ tracks.opened k d t p fd r))
  ]

  pub add_aliases4-Kept :
      (name : List ℕ) (k : K) (ps : List Prefix)
      → All Fits4 ps
      → Kept fds (fds k) (Configure.add_aliases4 sys name k ps)
  unfolding Configure.add_aliases4
  add_aliases4-Kept name k [] h = (tt, refl)
  add_aliases4-Kept name k (p ∷ ps) h =
      then_try-Kept fds (fds k) _ _
        (with_value-Kept fds (fds k) k (Requests.alias_request4 name p) _
          (alias_request4-Returns name p.addr p.bits h.0)
          (λ r. (
            tt,
            use_socket-fds k _ _ _ (λ k' fd. sys.siocaifaddr k' fd r)
                (λ k' fd. tracks.aifaddr k' fd r),
          )))
        (λ k'. add_aliases4-Kept name k' ps h.1)

  pub add_aliases6-Kept :
      (name : List ℕ) (k : K) (ps : List Prefix)
      → All Fits6 ps
      → Kept fds (fds k) (Configure.add_aliases6 sys name k ps)
  unfolding Configure.add_aliases6
  add_aliases6-Kept name k [] h = (tt, refl)
  add_aliases6-Kept name k (p ∷ ps) h =
      then_try-Kept fds (fds k) _ _
        (with_value-Kept fds (fds k) k (Requests.alias_request6 name p) _
          (alias_request6-Returns name p.addr p.bits h.0)
          (λ r. (
            tt,
            use_socket-fds k _ _ _ (λ k' fd. sys.siocaifaddr_in6 k' fd r)
                (λ k' fd. tracks.aifaddr_in6 k' fd r),
          )))
        (λ k'. add_aliases6-Kept name k' ps h.1)

  send_route-fds : (k : K) (r : Result (List ℕ)) → fds (Configure.send_route sys k r).1 ≡ fds k
  unfolding Configure.send_route
  send_route-fds k (err e) = refl
  send_route-fds k (ok b) =
      use_socket-fds k _ _ _ (λ k' fd. sys.write k' fd b) (λ k' fd. tracks.written k' fd b)

  add_route-Kept :
      (k : K) (p : Prefix) (gateway : Addr)
      → Returns (λ m. Unit) (Requests.route_message p gateway)
      → Kept fds (fds k) (Configure.add_route sys k p gateway)
  unfolding Configure.add_route
  add_route-Kept k p gateway h =
      with_value-Kept fds (fds k) k (Requests.route_message p gateway) _ h
        (λ m. (tt, send_route-fds k (sys.marshal m)))

  routed-Kept :
      (k : K) (us ws : List Prefix) (p : Prefix)
      → All Fits4 us
      → All Fits6 ws
      → Routable us ws p
      → Kept fds (fds k) (
          Configure.with_value k
            (Requests.first_addr (if is4 p.addr then us else ws))
            (Configure.add_route sys k p))
  routed-Kept k us ws p f g (Routable.ranged4 a bits q qs _ h) =
      add_route-Kept k p q.addr (route_message4-Returns a bits q.addr q.bits h f.0)
  routed-Kept k us ws p f g (Routable.ranged6 a bits q _ qs h) =
      add_route-Kept k p q.addr (route_message6-Returns a bits q.addr q.bits h g.0)

  add_routes-Kept :
      (k : K) (o : Options) (ps : List Prefix)
      → All Fits4 o.inet4_address
      → All Fits6 o.inet6_address
      → All (Routable o.inet4_address o.inet6_address) ps
      → Kept fds (fds k) (Configure.add_routes sys k o ps)
  unfolding Configure.add_routes Configure.add_range
  add_routes-Kept k o [] f4 f6 h = (tt, refl)
  add_routes-Kept k o (p ∷ ps) f4 f6 h =
      then_try-Kept fds (fds k) _ _ (routed-Kept k o.inet4_address o.inet6_address p f4 f6 h.0)
        (λ k'. add_routes-Kept k' o ps f4 f6 h.1)

  pub auto_route-Kept :
      (k : K) (o : Options)
      → All Fits4 o.inet4_address
      → All Fits6 o.inet6_address
      → Kept fds (fds k) (Configure.auto_route sys k o)
  unfolding Configure.auto_route
  auto_route-Kept k o f4 f6 =
      if-Kept fds (fds k) o.auto_route _ _
        (then_try-Kept fds (fds k) (Configure.add_routes sys k o _) _
          (add_routes-Kept k o _ f4 f6 (ranges-Routable o)) (λ k'. (tt, tracks.flushed k')))
        (tt, refl)
