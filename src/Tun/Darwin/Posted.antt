-- ===== src/Tun/Darwin/Posted.antt =====
-- tun_darwin.go: the requests that `configure` makes of the kernel.
use cropstun.Base.{
  ℕ, ◌≡◌, refl, sym, ap, ◌∙◌, Bool, true, false, false≢true, List, [], ◌∷◌, ◌++◌, append-nil,
  append_assoc, Option, none, some, inl, inr, if◌then◌else◌,
}
use cropstun.Base.Int.{ℤ}
use cropstun.Base.Go.{Error, Result, ok, err, Result-cases, Outcome, returns, panics}
use cropstun.Net.{Prefix, is4}
use cropstun.Tun.Options.{Options}
use cropstun.Tun.Ranges.{Os, build_auto_route_ranges}
use cropstun.Tun.Darwin.Name.{to_int32, copy_name}
use cropstun.Tun.Darwin.System.{System}
use cropstun.Tun.Darwin.Requests
use cropstun.Tun.Darwin.Configure
use cropstun.Tun.Darwin.Requested.{
  Request, Logs, made, aliases4, aliases6, marshalled, routes, requests,
}

-- If there is no error, the requests `rs` were carried out.
abbrev Posted :
    {K : Type 0} → (K → List Request) → K → List Request → Outcome (Option Error) × K → Type 0
Posted log k rs r = r.0 ≡ returns none → log r.1 ≡ log k ++ rs

abbrev is_success : Outcome (Option Error) → Bool
is_success (returns none) = true
is_success _ = false

module _ {K : Type 0} (log : K → List Request) where
  then_try-Posted :
      (k : K) (rs ss : List Request) (r : Outcome (Option Error) × K)
      (f : K → Outcome (Option Error) × K)
      → Posted log k rs r
      → ((k' : K) → Posted log k' ss (f k'))
      → Posted log k (rs ++ ss) (Configure.then_try r f)
  then_try-Posted k rs ss (returns none, k1) f h g e =
      g k1 e ∙ ap (λ l. l ++ ss) (h refl) ∙ append_assoc (log k) rs ss
  then_try-Posted k rs ss (returns (some x), k1) f h g e = absurd (false≢true (ap is_success e))
  then_try-Posted k rs ss (panics, k1) f h g e = absurd (false≢true (ap is_success e))

  with_value-Posted :
      {A : Type 0} (k : K) (o : Outcome A) (rs : A → List Request)
      (f : A → Outcome (Option Error) × K)
      → ((a : A) → Posted log k (rs a) (f a))
      → Posted log k (made o rs) (Configure.with_value k o f)
  with_value-Posted k (returns a) rs f h e = h a e
  with_value-Posted k panics rs f h e = absurd (false≢true (ap is_success e))

abbrev error_of : Outcome (Option Error) → Option Error
error_of (returns e) = e
error_of panics = none

call-Posted :
    {K : Type 0} (log : K → List Request) (k : K) (rs : List Request) (r : Option Error × K)
    → (r.0 ≡ none → log r.1 ≡ log k ++ rs)
    → Posted log k rs (Configure.call r)
call-Posted log k rs r h e = h (ap error_of e)

if-Posted :
    {K : Type 0} (log : K → List Request) (k : K) (b : Bool) (rs : List Request)
    (r s : Outcome (Option Error) × K)
    → Posted log k rs r
    → Posted log k [] s
    → Posted log k (if b then rs else []) (if b then r else s)
if-Posted log k true rs r s h g = h
if-Posted log k false rs r s h g = g

module _ {K : Type 0} (sys : System K) (log : K → List Request) (logs : Logs sys log) where
  use_socket-Posted :
      (k : K) (d t p : ℕ) (block : K → ℕ → Option Error × K) (rs : List Request)
      → ((k' : K) (fd : ℕ) → (block k' fd).0 ≡ none → log (block k' fd).1 ≡ log k' ++ rs)
      → Posted log k rs (Configure.call (Configure.use_socket sys k d t p block))
  unfolding Configure.use_socket
  use_socket-Posted k d t p block rs h = elim (Result-cases (sys.socket k d t p).0) [
    | inr (x, r) ↦ rw (Configure.use_socket, r) (λ e. absurd (false≢true (ap is_success e)))
    | inl (fd, r) ↦
        rw (Configure.use_socket, r)
          (λ e. logs.closed _ fd ∙ h _ fd (ap error_of e) ∙ ap (λ l. l ++ rs) (logs.opened k d t p))
  ]

  add_aliases4-Posted :
      (name : List ℕ) (k : K) (ps : List Prefix)
      → Posted log k (aliases4 name ps) (Configure.add_aliases4 sys name k ps)
  unfolding Configure.add_aliases4
  add_aliases4-Posted name k [] = λ e. sym (append-nil (log k))
  add_aliases4-Posted name k (p ∷ ps) =
      then_try-Posted log k _ (aliases4 name ps) _ _
        (with_value-Posted log k (Requests.alias_request4 name p) _ _
          (λ r. use_socket-Posted k _ _ _ _ _ (λ k' fd. logs.aifaddr k' fd r)))
        (λ k'. add_aliases4-Posted name k' ps)

  add_aliases6-Posted :
      (name : List ℕ) (k : K) (ps : List Prefix)
      → Posted log k (aliases6 name ps) (Configure.add_aliases6 sys name k ps)
  unfolding Configure.add_aliases6
  add_aliases6-Posted name k [] = λ e. sym (append-nil (log k))
  add_aliases6-Posted name k (p ∷ ps) =
      then_try-Posted log k _ (aliases6 name ps) _ _
        (with_value-Posted log k (Requests.alias_request6 name p) _ _
          (λ r. use_socket-Posted k _ _ _ _ _ (λ k' fd. logs.aifaddr_in6 k' fd r)))
        (λ k'. add_aliases6-Posted name k' ps)

  send_route-Posted :
      (k : K) (r : Result (List ℕ))
      → Posted log k (marshalled r) (Configure.call (Configure.send_route sys k r))
  unfolding Configure.send_route
  send_route-Posted k (err x) = λ e. absurd (false≢true (ap is_success e))
  send_route-Posted k (ok b) = use_socket-Posted k _ _ _ _ _ (λ k' fd. logs.written k' fd b)

  add_routes-Posted :
      (k : K) (o : Options) (ps : List Prefix)
      → Posted log k (routes sys o ps) (Configure.add_routes sys k o ps)
  unfolding Configure.add_routes Configure.add_range Configure.add_route
  add_routes-Posted k o [] = λ e. sym (append-nil (log k))
  add_routes-Posted k o (p ∷ ps) =
      then_try-Posted log k _ (routes sys o ps) _ _
        (with_value-Posted log k
          (Requests.first_addr (if is4 p.addr then o.inet4_address else o.inet6_address)) _ _
          (λ gateway.
            with_value-Posted log k (Requests.route_message p gateway) _ _
              (λ m. send_route-Posted k (sys.marshal m))))
        (λ k'. add_routes-Posted k' o ps)

  -- The DNS cache is flushed behind the routes.
  flushed-Posted :
      (k : K) (rs : List Request) (r : Outcome (Option Error) × K)
      → Posted log k rs r
      → Posted log k rs
          (Configure.then_try r (λ k'. (returns none, Configure.flush_dns_cache sys k')))
  flushed-Posted k rs (returns none, k1) h e = logs.flushed k1 ∙ h refl
  flushed-Posted k rs (returns (some x), k1) h e = absurd (false≢true (ap is_success e))
  flushed-Posted k rs (panics, k1) h e = absurd (false≢true (ap is_success e))

  auto_route-Posted :
      (k : K) (o : Options)
      → Posted log k
          (if o.auto_route then routes sys o (build_auto_route_ranges Os.darwin o) else [])
          (Configure.auto_route sys k o)
  unfolding Configure.auto_route
  auto_route-Posted k o =
      if-Posted log k o.auto_route _ _ _ (flushed-Posted k _ _ (add_routes-Posted k o _))
        (λ e. sym (append-nil (log k)))

  -- Nothing is asked for before the MTU.
  silent-Posted :
      (k : K) (r : Option Error × K) → log r.1 ≡ log k → Posted log k [] (Configure.call r)
  silent-Posted k r h e = h ∙ sym (append-nil (log k))

  connect_control-log :
      (k : K) (fd : ℕ) (if_index : ℤ) → log (Configure.connect_control sys k fd if_index).1 ≡ log k
  unfolding Configure.connect_control
  connect_control-log k fd if_index =
      elim (Result-cases (sys.ioctl_ctl_info k fd (copy_name 96 Requests.utun_control_name)).0) [
        | inr (e, r) ↦ rw (Configure.connect_control, r) (logs.ctl_info k fd _)
        | inl (id, r) ↦
            rw (Configure.connect_control, r) (logs.connected _ fd id _ ∙ logs.ctl_info k fd _)
      ]

  -- The kernel keeps a list of the requests that it carries out, and `configure` on macOS returns no
  -- error. Then it has made these requests and no other: the MTU of the device; an alias for each of
  -- its IPv4 addresses and then for each of its IPv6 addresses, in their order; and, with automatic
  -- routes, the message that adds a route for each of the ranges of `BuildAutoRouteRanges`, in their
  -- order, by way of the device's first address in the range's family.
  pub configure-Posted :
      (k : K) (fd : ℕ) (if_index : ℤ) (name : List ℕ) (o : Options)
      → (Configure.configure sys k fd if_index name o).0 ≡ returns none
      → log (Configure.configure sys k fd if_index name o).1 ≡ log k ++ requests sys name o
  unfolding Configure.configure Configure.set_mtu
  configure-Posted k fd if_index name o =
      then_try-Posted log k [] _ _ _
        (silent-Posted k (Configure.connect_control sys k fd if_index)
          (connect_control-log k fd if_index))
        (λ k1.
          then_try-Posted log k1 [] _ _ _
            (silent-Posted k1 (sys.set_nonblock k1 fd) (logs.nonblock k1 fd))
            (λ k2.
              then_try-Posted log k2 (Request.mtu (copy_name 16 name) (to_int32 o.mtu) ∷ []) _ _ _
                (use_socket-Posted k2 _ _ _ _ _
                  (λ k' fd'. logs.ifreq_mtu k' fd' (copy_name 16 name) (to_int32 o.mtu)))
                (λ k3.
                  then_try-Posted log k3 _ _ _ _ (add_aliases4-Posted name k3 o.inet4_address)
                    (λ k4.
                      then_try-Posted log k4 _ _ _ _ (add_aliases6-Posted name k4 o.inet6_address)
                        (λ k5. auto_route-Posted k5 o)))))
