-- ===== src/Tun/Darwin/Descriptors.antt =====
-- tun_darwin.go: the open descriptors after `New`, and the addresses for which it does not panic.
use cropstun.Base.{
  ℕ, ◌≡◌, subst, ◌∙◌, true, List, ◌∷◌, All, Option, none, some, inl, inr, Option-cases,
}
use cropstun.Base.Int.{ℤ}
use cropstun.Base.Go.{Error, Result, ok, err, Result-cases, Outcome, returns, panics}
use cropstun.Tun.Options.{Options}
use cropstun.Tun.Darwin.Routable.{Fits4, Fits6, own_address4-returns}
use cropstun.Tun.Darwin.Name.{scan_utun, copy_name, to_int32}
use cropstun.Tun.Darwin.System.{System}
use cropstun.Tun.Darwin.Requests
use cropstun.Tun.Darwin.Configure
use cropstun.Tun.Darwin.Kept.{
  Tracks, Kept, then_try-Kept, use_socket-fds, add_aliases4-Kept, add_aliases6-Kept,
  auto_route-Kept,
}

-- What `New` leaves behind, for the descriptors that were open before: the one of the device if it
-- succeeds, none if it fails, and it does not panic.
pub data Settled (before : List ℕ) : Outcome (Result Configure.NativeTun) → List ℕ → Type 0 where
  opened : (t : Configure.NativeTun) → Settled before (returns (ok t)) (t.tun_file ∷ before)
  failed : (e : Error) → Settled before (returns (err e)) before

module _ {K : Type 0} (sys : System K) (fds : K → List ℕ) (tracks : Tracks sys fds) where
  connect_control-fds :
      (k : K) (fd : ℕ) (i : ℤ) → fds (Configure.connect_control sys k fd i).1 ≡ fds k
  unfolding Configure.connect_control
  connect_control-fds k fd i =
      elim (Result-cases (sys.ioctl_ctl_info k fd (copy_name 96 Requests.utun_control_name)).0) [
        | inr (e, r) ↦ rw (Configure.connect_control, r) (tracks.ctl_info k fd _)
        | inl (id, r) ↦
            rw (Configure.connect_control, r) (tracks.connected _ fd id _ ∙ tracks.ctl_info k fd _)
      ]

  set_mtu-fds : (k : K) (name : List ℕ) (mtu : ℕ) → fds (Configure.set_mtu sys k name mtu).1 ≡ fds k
  unfolding Configure.set_mtu
  set_mtu-fds k name mtu =
      use_socket-fds sys fds tracks k _ _ _
        (λ k' fd. sys.set_ifreq_mtu k' fd (copy_name 16 name) (to_int32 mtu))
        (λ k' fd. tracks.ifreq_mtu k' fd (copy_name 16 name) (to_int32 mtu))

  configure-Kept :
      (k : K) (fd : ℕ) (i : ℤ) (name : List ℕ) (o : Options)
      → All Fits4 o.inet4_address
      → All Fits6 o.inet6_address
      → Kept fds (fds k) (Configure.configure sys k fd i name o)
  unfolding Configure.configure
  configure-Kept k fd i name o f4 f6 =
      then_try-Kept fds (fds k) (Configure.call (Configure.connect_control sys k fd i)) _
        (tt, connect_control-fds k fd i)
        (λ k1.
          then_try-Kept fds (fds k1) (Configure.call (sys.set_nonblock k1 fd)) _
            (tt, tracks.nonblock k1 fd)
            (λ k2.
              then_try-Kept fds (fds k2) (Configure.call (Configure.set_mtu sys k2 name o.mtu)) _
                (tt, set_mtu-fds k2 name o.mtu)
                (λ k3.
                  then_try-Kept fds (fds k3) _ _
                    (add_aliases4-Kept sys fds tracks name k3 o.inet4_address f4)
                    (λ k4.
                      then_try-Kept fds (fds k4) _ _
                        (add_aliases6-Kept sys fds tracks name k4 o.inet6_address f6)
                        (λ k5. auto_route-Kept sys fds tracks k5 o f4 f6)))))

  finish_new-Settled :
      (k : K) (fd : ℕ) (before : List ℕ) (o : Options)
      → All Fits4 o.inet4_address
      → sys.raw_conn k fd ≡ true
      → Settled before (Configure.finish_new sys k fd o) (fd ∷ before)
  unfolding Configure.finish_new
  finish_new-Settled k fd before o f4 raw =
      let (inet4, e) = own_address4-returns o.inet4_address f4 in
      rw (Configure.finish_new, e, raw) (Settled.opened _)

  after_configure-Settled :
      (fd : ℕ) (before : List ℕ) (o : Options) (r : Outcome (Option Error) × K)
      → All Fits4 o.inet4_address
      → ((k : K) → sys.raw_conn k fd ≡ true)
      → Kept fds (fd ∷ before) r
      → Settled before
          (Configure.after_configure sys fd o r).0
          (fds (Configure.after_configure sys fd o r).1)
  unfolding Configure.after_configure
  after_configure-Settled fd before o (panics, k) f4 raw h = elim h.0 [ ]
  after_configure-Settled fd before o (returns (some e), k) f4 raw h =
      rw (tracks.closed k fd before h.1) (Settled.failed e)
  after_configure-Settled fd before o (returns none, k) f4 raw h =
      rw h.1 (finish_new-Settled k fd before o f4 (raw k))

  open_socket-Settled :
      (k : K) (i : ℤ) (o : Options)
      → All Fits4 o.inet4_address
      → All Fits6 o.inet6_address
      → ((k' : K) (fd : ℕ) → sys.raw_conn k' fd ≡ true)
      → Settled
          (fds k)
          (Configure.open_socket sys k i o).0
          (fds (Configure.open_socket sys k i o).1)
  unfolding Configure.open_socket
  open_socket-Settled k i o f4 f6 raw =
      let k1 = (sys.socket k Requests.af_system Requests.sock_dgram 2).1 in
      elim (Result-cases (sys.socket k Requests.af_system Requests.sock_dgram 2).0) [
        | inr (e, r) ↦ rw (Configure.open_socket, r, tracks.refused k _ _ _ e r) (Settled.failed e)
        | inl (fd, r) ↦
            rw (Configure.open_socket, r)
              (after_configure-Settled fd (fds k) o (Configure.configure sys k1 fd i o.name o) f4
                (λ k'. raw k' fd)
                (subst (λ fs. Kept fds fs (Configure.configure sys k1 fd i o.name o))
                  (tracks.opened k _ _ _ fd r) (configure-Kept k1 fd i o.name o f4 f6)))
      ]

  -- The kernel keeps track of descriptors as it should, the device's addresses are IPv4 prefixes of
  -- length at most 32 and IPv6 prefixes of length at most 128, and the descriptor of the device can be
  -- made a raw connection. Then `New` on macOS does not panic, however the kernel's calls fail: it
  -- returns a device whose descriptor is the only one more that is open, or an error with the same
  -- descriptors open as before.
  pub new_tun-Settled :
      (k : K) (o : Options)
      → All Fits4 o.inet4_address
      → All Fits6 o.inet6_address
      → ((k' : K) (fd : ℕ) → sys.raw_conn k' fd ≡ true)
      → Settled (fds k) (Configure.new_tun sys k o).0 (fds (Configure.new_tun sys k o).1)
  unfolding Configure.new_tun Configure.open_socket
  new_tun-Settled k o f4 f6 raw = elim (Option-cases (scan_utun o.name)) [
    | inl n ↦ rw (Configure.new_tun, n) (Settled.failed _)
    | inr (i, n) ↦ rw (Configure.new_tun, n) (open_socket-Settled k i o f4 f6 raw)
  ]
