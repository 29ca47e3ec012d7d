-- ===== src/Tun/Darwin/Configure.antt =====
-- tun_darwin.go: `useSocket`, `addRoute`, `configure`, `New` and `Close`.
use cropstun.Base.{ℕ, ◌+◌, ◌%◌, ◌^◌, List, [], ◌∷◌, Option, none, some, if◌then◌else◌}
use cropstun.Base.Int.{ℤ}
use cropstun.Base.Go.{Error, Result, ok, err, Outcome, returns, panics, ◌>>=◌}
use cropstun.Net.{Addr, Prefix, is4}
use cropstun.Tun.Options.{Options}
use cropstun.Tun.Ranges.{Os, build_auto_route_ranges}
use cropstun.Tun.Darwin.Name.{scan_utun, to_uint32, to_int32, copy_name}
use cropstun.Tun.Darwin.System.{System}
use cropstun.Tun.Darwin.Requests.{
  first_addr, af_inet, af_inet6, af_route, af_system, sock_dgram, sock_raw, utun_control_name,
  alias_request4, alias_request6, route_message, own_address4, own_address6,
}

-- `tun_file` is the descriptor of `tunFile`; an address is a number of 32 or 128 bits.
pub record NativeTun : Type 0 where
  pub tun_file : ℕ
  pub mtu : ℕ
  pub inet4_address : ℕ
  pub inet6_address : ℕ

-- Go on unless there is an error or a panic.
abbrev pub then_try :
    {K : Type 0}
    → Outcome (Option Error) × K
    → (K → Outcome (Option Error) × K)
    → Outcome (Option Error) × K
then_try (returns none, k) f = f k
then_try (o, k) f = (o, k)

-- A call that does not panic, and one that needs a value whose computation may.
abbrev pub call : {K : Type 0} → Option Error × K → Outcome (Option Error) × K
call r = (returns r.0, r.1)

abbrev pub with_value :
    {A : Type 0} {K : Type 0}
    → K
    → Outcome A
    → (A → Outcome (Option Error) × K)
    → Outcome (Option Error) × K
with_value k panics f = (panics, k)
with_value k (returns a) f = f a

module _ {K : Type 0} (sys : System K) where
  unfoldable pub use_socket : K → ℕ → ℕ → ℕ → (K → ℕ → Option Error × K) → Option Error × K
  use_socket k domain typ proto block =
      let (r, k1) = sys.socket k domain typ proto in
      elim r [
        | err e ↦ (some e, k1)
        | ok fd ↦ let (e, k2) = block k1 fd in (e, (sys.close k2 fd).1)
      ]

  unfoldable pub send_route : K → Result (List ℕ) → Option Error × K
  unfolding use_socket
  send_route k (err e) = (some e, k)
  send_route k (ok request) = use_socket k af_route sock_raw 0 (λ k' fd. sys.write k' fd request)

  unfoldable pub add_route : K → Prefix → Addr → Outcome (Option Error) × K
  unfolding route_message send_route
  add_route k destination gateway =
      with_value k (route_message destination gateway) (λ m. call (send_route k (sys.marshal m)))

  unfoldable pub add_aliases4 : List ℕ → K → List Prefix → Outcome (Option Error) × K
  unfolding use_socket
  add_aliases4 name k [] = (returns none, k)
  add_aliases4 name k (p ∷ ps) =
      then_try
        (with_value k (alias_request4 name p)
          (λ r. call (use_socket k af_inet sock_dgram 0 (λ k' fd. sys.siocaifaddr k' fd r))))
        (λ k'. add_aliases4 name k' ps)

  unfoldable pub add_aliases6 : List ℕ → K → List Prefix → Outcome (Option Error) × K
  unfolding use_socket
  add_aliases6 name k [] = (returns none, k)
  add_aliases6 name k (p ∷ ps) =
      then_try
        (with_value k (alias_request6 name p)
          (λ r. call (use_socket k af_inet6 sock_dgram 0 (λ k' fd. sys.siocaifaddr_in6 k' fd r))))
        (λ k'. add_aliases6 name k' ps)

  unfoldable pub add_range : K → Options → Prefix → Outcome (Option Error) × K
  unfolding add_route
  add_range k o p =
      with_value k (first_addr (if is4 p.addr then o.inet4_address else o.inet6_address))
        (add_route k p)

  unfoldable pub add_routes : K → Options → List Prefix → Outcome (Option Error) × K
  unfolding add_range
  add_routes k o [] = (returns none, k)
  add_routes k o (p ∷ ps) = then_try (add_range k o p) (λ k'. add_routes k' o ps)

  abbrev pub flush_dns_cache : K → K
  flush_dns_cache k = (sys.start_flush_cache k).1

  unfoldable pub auto_route : K → Options → Outcome (Option Error) × K
  unfolding add_routes build_auto_route_ranges
  auto_route k o =
      if o.auto_route
      then then_try (add_routes k o (build_auto_route_ranges Os.darwin o))
          (λ k'. (returns none, flush_dns_cache k'))
      else (returns none, k)

  -- The socket's setup at the start of `configure`.
  unfoldable pub connect_control : K → ℕ → ℤ → Option Error × K
  connect_control k fd if_index =
      let (r, k1) = sys.ioctl_ctl_info k fd (copy_name 96 utun_control_name) in
      elim r [
        | err e ↦ (some e, k1)
        | ok id ↦ sys.connect k1 fd id ((to_uint32 if_index + 1) % 2 ^ 32)
      ]

  unfoldable pub set_mtu : K → List ℕ → ℕ → Option Error × K
  unfolding use_socket
  set_mtu k name mtu =
      use_socket k af_inet sock_dgram 0
        (λ k' fd. sys.set_ifreq_mtu k' fd (copy_name 16 name) (to_int32 mtu))

  unfoldable pub configure : K → ℕ → ℤ → List ℕ → Options → Outcome (Option Error) × K
  unfolding connect_control set_mtu add_aliases4 add_aliases6 auto_route
  configure k fd if_index name o = then_try (call (connect_control k fd if_index)) (λ k1.
      then_try (call (sys.set_nonblock k1 fd)) (λ k2. then_try (call (set_mtu k2 name o.mtu)) (λ k3.
        then_try (add_aliases4 name k3 o.inet4_address)
          (λ k4. then_try (add_aliases6 name k4 o.inet6_address) (λ k5. auto_route k5 o)))))

  -- `New` behind `configure`.
  unfoldable pub finish_new : K → ℕ → Options → Outcome (Result NativeTun)
  finish_new k fd o = own_address4 o.inet4_address >>= λ inet4.
      if sys.raw_conn k fd
      then returns (
          ok (record {
            tun_file = fd;
            mtu = o.mtu;
            inet4_address = inet4;
            inet6_address = own_address6 o.inet6_address;
          }))
      else panics

  -- How `configure` ended decides.
  unfoldable pub after_configure :
      ℕ → Options → Outcome (Option Error) × K → Outcome (Result NativeTun) × K
  unfolding finish_new
  after_configure fd o (panics, k) = (panics, k)
  after_configure fd o (returns (some e), k) = (returns (err e), (sys.close k fd).1)
  after_configure fd o (returns none, k) = (finish_new k fd o, k)

  unfoldable pub open_socket : K → ℤ → Options → Outcome (Result NativeTun) × K
  unfolding configure after_configure
  open_socket k if_index o =
      let (r, k1) = sys.socket k af_system sock_dgram 2 in
      elim r [
        | err e ↦ (returns (err e), k1)
        | ok fd ↦ after_configure fd o (configure k1 fd if_index o.name o)
      ]

  -- `New`
  unfoldable pub new_tun : K → Options → Outcome (Result NativeTun) × K
  unfolding scan_utun open_socket
  new_tun k o = elim (scan_utun o.name) [
    | none ↦ (returns (err Error.bad_tun_name), k)
    | some if_index ↦ open_socket k if_index o
  ]

  -- `Close`
  unfoldable pub close_tun : K → NativeTun → Option Error × K
  close_tun k t = sys.close (flush_dns_cache k) t.tun_file
