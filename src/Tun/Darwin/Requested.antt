-- ===== src/Tun/Darwin/Requested.antt =====
-- tun_darwin.go: what `configure` is to ask the kernel for.
use cropstun.Base.{ℕ, ◌≡◌, List, [], ◌∷◌, ◌++◌, none, if◌then◌else◌}
use cropstun.Base.Int.{ℤ}
use cropstun.Base.Go.{Result, ok, err, Outcome, returns, panics}
use cropstun.Net.{Prefix, is4}
use cropstun.Tun.Options.{Options}
use cropstun.Tun.Ranges.{Os, build_auto_route_ranges}
use cropstun.Tun.Darwin.Name.{to_int32, copy_name}
use cropstun.Tun.Darwin.System.{System, IfAliasReq, IfAliasReq6}
use cropstun.Tun.Darwin.Requests

-- A request that the kernel has carried out.
pub data Request : Type 0 where
  mtu : List ℕ → ℤ → Request
  alias4 : IfAliasReq → Request
  alias6 : IfAliasReq6 → Request
  message : List ℕ → Request

-- The kernel keeps the list of the requests that it has carried out without an error.
pub record Logs {K : Type 0} (sys : System K) (log : K → List Request) : Type 0 where
  pub opened : (k : K) (d t p : ℕ) → log (sys.socket k d t p).1 ≡ log k
  pub closed : (k : K) (fd : ℕ) → log (sys.close k fd).1 ≡ log k
  pub ctl_info : (k : K) (fd : ℕ) (n : List ℕ) → log (sys.ioctl_ctl_info k fd n).1 ≡ log k
  pub connected : (k : K) (fd id unit : ℕ) → log (sys.connect k fd id unit).1 ≡ log k
  pub nonblock : (k : K) (fd : ℕ) → log (sys.set_nonblock k fd).1 ≡ log k
  pub flushed : (k : K) → log (sys.start_flush_cache k).1 ≡ log k
  pub ifreq_mtu :
      (k : K) (fd : ℕ) (n : List ℕ) (m : ℤ)
      → (sys.set_ifreq_mtu k fd n m).0 ≡ none
      → log (sys.set_ifreq_mtu k fd n m).1 ≡ log k ++ (Request.mtu n m ∷ [])
  pub aifaddr :
      (k : K) (fd : ℕ) (r : IfAliasReq)
      → (sys.siocaifaddr k fd r).0 ≡ none
      → log (sys.siocaifaddr k fd r).1 ≡ log k ++ (Request.alias4 r ∷ [])
  pub aifaddr_in6 :
      (k : K) (fd : ℕ) (r : IfAliasReq6)
      → (sys.siocaifaddr_in6 k fd r).0 ≡ none
      → log (sys.siocaifaddr_in6 k fd r).1 ≡ log k ++ (Request.alias6 r ∷ [])
  pub written :
      (k : K) (fd : ℕ) (b : List ℕ)
      → (sys.write k fd b).0 ≡ none
      → log (sys.write k fd b).1 ≡ log k ++ (Request.message b ∷ [])

-- What follows from a value, nothing if there is none.
abbrev pub made : {A : Type 0} → Outcome A → (A → List Request) → List Request
made (returns a) f = f a
made panics f = []

abbrev pub aliases4 : List ℕ → List Prefix → List Request
aliases4 name [] = []
aliases4 name (p ∷ ps) =
    made (Requests.alias_request4 name p) (λ r. Request.alias4 r ∷ []) ++ aliases4 name ps

abbrev pub aliases6 : List ℕ → List Prefix → List Request
aliases6 name [] = []
aliases6 name (p ∷ ps) =
    made (Requests.alias_request6 name p) (λ r. Request.alias6 r ∷ []) ++ aliases6 name ps

abbrev pub marshalled : Result (List ℕ) → List Request
marshalled (ok b) = Request.message b ∷ []
marshalled (err e) = []

-- The routes of ranges, by way of the first address of the device in the range's family.
abbrev pub routes : {K : Type 0} → System K → Options → List Prefix → List Request
routes sys o [] = []
routes sys o (p ∷ ps) =
    made (Requests.first_addr (if is4 p.addr then o.inet4_address else o.inet6_address))
      (λ gateway. made (Requests.route_message p gateway) (λ m. marshalled (sys.marshal m)))
    ++ routes sys o ps

abbrev pub requests : {K : Type 0} → System K → List ℕ → Options → List Request
requests sys name o =
    (Request.mtu (copy_name 16 name) (to_int32 o.mtu) ∷ [])
    ++ (aliases4 name o.inet4_address
        ++ (aliases6 name o.inet6_address
            ++ (if o.auto_route then routes sys o (build_auto_route_ranges Os.darwin o) else [])))
