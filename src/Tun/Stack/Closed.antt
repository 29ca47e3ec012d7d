-- ===== src/Tun/Stack/Closed.antt =====
-- stack_gvisor.go: how often a connection is closed and its endpoint aborted.
use cropstun.Base.{
  ℕ, suc, ◌+◌, ◌≡◌, refl, sym, ap, subst, ◌∙◌, Bool, true, false, Option, none, some, arith,
  if◌then◌else◌,
}
use cropstun.Base.Go.{Error, ok}
use cropstun.Tun.Stack.Library.{NetAddr, SockOpt, Protocol, Metadata, Script}
use cropstun.Tun.Stack.Connection.{
  OnceCloser, new_conn, addr_port_of, close_once, run_handler, serve, both, set_keepalives,
  forward_tcp, forward_udp,
}

-- The calls of the library are counted, for each endpoint: of `Close` and of `Abort`.
pub record Counts {K : Type 0} (net : Protocol K) (closes aborts : K → ℕ → ℕ) : Type 0 where
  pub close_closes : (k : K) (e : ℕ) → closes (net.close k e).1 e ≡ suc (closes k e)
  pub close_aborts : (k : K) (e : ℕ) → aborts (net.close k e).1 e ≡ aborts k e
  pub abort_closes : (k : K) (e : ℕ) → closes (net.abort k e) e ≡ closes k e
  pub abort_aborts : (k : K) (e : ℕ) → aborts (net.abort k e) e ≡ suc (aborts k e)
  pub complete_closes : (k : K) (b : Bool) (e : ℕ) → closes (net.complete k b) e ≡ closes k e
  pub keep_alive_closes :
      (k : K) (e : ℕ) (b : Bool) → closes (net.set_keep_alive k e b) e ≡ closes k e
  pub sock_opt_closes :
      (k : K) (e : ℕ) (o : SockOpt) → closes (net.set_sock_opt k e o) e ≡ closes k e

-- A handler closes its connection by the closer only, and does not abort its endpoint.
abbrev pub Polite : {K : Type 0} → (K → ℕ → ℕ) → (K → ℕ → ℕ) → ℕ → Script K → Type 0
Polite closes aborts e (Script.finish o) = Unit
Polite closes aborts e (Script.act f s) =
    ((k : _) → (closes (f k) e ≡ closes k e) × (aborts (f k) e ≡ aborts k e))
    × Polite closes aborts e s
Polite closes aborts e (Script.look f) = (k : _) → Polite closes aborts e (f k)
Polite closes aborts e (Script.close_then f) = (o : Option Error) → Polite closes aborts e (f o)

-- The close that is still to come.
abbrev pending : OnceCloser → ℕ
pending c = if c.once then 0 else 1

abbrev pub failures : Option Error → ℕ
failures none = 0
failures (some e) = 1

one_more :
    (fin mid run start left p : ℕ)
    → fin + p ≡ mid + left
    → p ≡ 0
    → mid ≡ run
    → run + left ≡ start + 1
    → fin ≡ suc start
one_more fin mid run start left p a b c d = omega (arith, a, b, c, d)

abbrev pub metadata_of : NetAddr → NetAddr → Metadata
metadata_of l r = record { source = addr_port_of l; destination = addr_port_of r }

module _ {K : Type 0} (net : Protocol K) (closes aborts : K → ℕ → ℕ)
    (counts : Counts net closes aborts) where
  -- From a state with a closer to another, for the endpoint.
  abbrev Balanced : ℕ → OnceCloser → K → OnceCloser → K → Type 0
  Balanced e c k c' k' =
      (c'.conn ≡ e)
      × (closes k' e + pending c' ≡ closes k e + pending c)
      × (aborts k' e ≡ aborts k e)

  -- A call of the closer, for its own connection.
  CloseBalanced : ℕ → OnceCloser → K → Type 0
  CloseBalanced e c k =
      Balanced e c k (close_once net k c).1 (close_once net k c).2
      × ((close_once net k c).1.once ≡ true)

  own_close-Balanced :
      (conn : ℕ) (once : Bool) (e : Option Error) (k : K)
      → CloseBalanced conn (record { conn = conn; once = once; err = e }) k
  unfolding close_once CloseBalanced
  own_close-Balanced conn true e k = ((refl, refl, refl), refl)
  own_close-Balanced conn false e k =
      ((refl, omega (arith, counts.close_closes k conn), counts.close_aborts k conn), refl)

  close_once-Balanced : (e : ℕ) (c : OnceCloser) (k : K) → c.conn ≡ e → CloseBalanced e c k
  close_once-Balanced e c k h =
      subst (λ x. CloseBalanced x c k) h (own_close-Balanced c.conn c.once c.err k)

  run_handler-Balanced :
      (e : ℕ) (s : Script K) (c : OnceCloser) (k : K)
      → c.conn ≡ e
      → Polite closes aborts e s
      → Balanced e c k (run_handler net s c k).1 (run_handler net s c k).2
  unfolding run_handler CloseBalanced
  run_handler-Balanced e (Script.finish o) c k h p = (h, refl, refl)
  run_handler-Balanced e (Script.act f s) c k h p =
      let (same, rest) = p in
      let (conn, b, a) = run_handler-Balanced e s c (f k) h rest in
      (conn, omega (arith, b, (same k).0), a ∙ (same k).1)
  run_handler-Balanced e (Script.look f) c k h p = run_handler-Balanced e (f k) c k h (p k)
  run_handler-Balanced e (Script.close_then f) c k h p =
      let o = (close_once net k c).0 in
      let c1 = (close_once net k c).1 in
      let k1 = (close_once net k c).2 in
      let ((conn, b, a), done) = close_once-Balanced e c k h in
      let (conn', b', a') = run_handler-Balanced e (f o) c1 k1 conn (p o) in (conn', b' ∙ b, a' ∙ a)

  -- The endpoint is aborted if the handler failed.
  abbrev after : ℕ → Option Error → K → K
  after e h_err k = elim h_err [ some x ↦ net.abort k e | none ↦ k ]

  ended :
      (e : ℕ) (h_err : Option Error) (k : K)
      → (closes (after e h_err k) e ≡ closes k e)
        × (aborts (after e h_err k) e ≡ aborts k e + failures h_err)
  ended e none k = (refl, omega arith)
  ended e (some x) k = (counts.abort_closes k e, omega (arith, counts.abort_aborts k e))

  -- The goroutine of a connection.
  serve-closed_once :
      (handler : OnceCloser → Metadata → Script K) (k : K) (e : ℕ) (l r : NetAddr)
      → ((m : Metadata) → Polite closes aborts e (handler (new_conn e) m))
      → (closes (serve net handler k e l r) e ≡ suc (closes k e))
        × (aborts (serve net handler k e l r) e
            ≡ aborts k e
              + failures
                  (run_handler net (handler (new_conn e) (metadata_of l r)) (new_conn e) k).0)
  unfolding serve CloseBalanced
  serve-closed_once handler k e l r polite =
      let run = run_handler net (handler (new_conn e) (metadata_of l r)) (new_conn e) k in
      let (conn, b, a) =
        run_handler-Balanced e (handler (new_conn e) (metadata_of l r)) (new_conn e) k refl
          (polite _) in
      let (same, more) = ended e run.0 run.2 in
      let ((conn', b', a'), done) = close_once-Balanced e run.1 (after e run.0 run.2) conn in
      let none_left : pending (close_once net (after e run.0 run.2) run.1).1 ≡ 0 =
        ap (λ x. if x then 0 else 1) done in
      (one_more _ _ _ _ _ _ b' none_left same b, a' ∙ more ∙ ap (λ n. n + failures run.0) a)

  -- What is done for the addresses found.
  abbrev served : (OnceCloser → Metadata → Script K) → K → ℕ → Option (NetAddr × NetAddr) → K
  served handler k e addrs = elim addrs [
    | none ↦ (net.close k e).1
    | some (l, r) ↦ serve net handler k e l r
  ]

  served-closed_once :
      (handler : OnceCloser → Metadata → Script K) (k : K) (e : ℕ)
      (addrs : Option (NetAddr × NetAddr))
      → ((m : Metadata) → Polite closes aborts e (handler (new_conn e) m))
      → closes (served handler k e addrs) e ≡ suc (closes k e)
  served-closed_once handler k e none polite = counts.close_closes k e
  served-closed_once handler k e (some (l, r)) polite = (serve-closed_once handler k e l r polite).0

  set_keepalives-closes : (k : K) (e : ℕ) → closes (set_keepalives net k e) e ≡ closes k e
  set_keepalives-closes k e =
      counts.sock_opt_closes _ e _
      ∙ counts.sock_opt_closes _ e _
      ∙ counts.keep_alive_closes k e true

  -- On TCP, a handler is to close its connection by the closer only and not to abort its endpoint. When
  -- the endpoint of a request is created, the function of the forwarder closes the connection just once, however often the
  -- handler closes it, whether the handler fails or not, and also when an address of the connection
  -- is missing and no handler is called.
  pub forward_tcp-closed_once :
      (handler : OnceCloser → Metadata → Script K) (k : K) (e : ℕ)
      → (net.create_endpoint k).0 ≡ ok e
      → ((m : Metadata) → Polite closes aborts e (handler (new_conn e) m))
      → closes (forward_tcp net handler k) e ≡ suc (closes (net.create_endpoint k).1 e)
  unfolding forward_tcp
  forward_tcp-closed_once handler k e h polite =
      let k1 = (net.create_endpoint k).1 in
      let k2 = set_keepalives net (net.complete k1 false) e in
      let addrs = both net (net.remote_addr k2 e) (net.local_addr k2 e) in
      let eq : forward_tcp net handler k ≡ served handler k2 e addrs = rw (forward_tcp, h) refl in
      ap (λ s. closes s e) eq
      ∙ served-closed_once handler k2 e addrs polite
      ∙ ap suc (set_keepalives-closes (net.complete k1 false) e ∙ counts.complete_closes k1 false e)

  -- On UDP, a handler is to close its connection by the closer only and not to abort its endpoint. When
  -- the endpoint of a request is created and both of its addresses are known, the function of the
  -- forwarder closes the connection just once, however often the handler closes it, and aborts the
  -- endpoint once more if the handler returns an error, and not otherwise.
  pub forward_udp-closed_once :
      (handler : OnceCloser → Metadata → Script K) (k : K) (e : ℕ) (l r : NetAddr)
      → (net.create_endpoint k).0 ≡ ok e
      → net.remote_addr (net.create_endpoint k).1 e ≡ some l
      → net.local_addr (net.create_endpoint k).1 e ≡ some r
      → ((m : Metadata) → Polite closes aborts e (handler (new_conn e) m))
      → (closes (forward_udp net handler k) e ≡ suc (closes (net.create_endpoint k).1 e))
        × (aborts (forward_udp net handler k) e
            ≡ aborts (net.create_endpoint k).1 e
              + failures
                  (run_handler net
                    (handler (new_conn e) (metadata_of l r))
                    (new_conn e)
                    (net.create_endpoint k).1).0)
  unfolding forward_udp
  forward_udp-closed_once handler k e l r h hl hr polite =
      let k1 = (net.create_endpoint k).1 in
      let eq : forward_udp net handler k ≡ serve net handler k1 e l r =
        rw (forward_udp, h, hl, hr) refl in
      subst
        (λ s.
          (closes s e ≡ suc (closes k1 e))
          × (aborts s e
              ≡ aborts k1 e
                + failures
                    (run_handler net (handler (new_conn e) (metadata_of l r)) (new_conn e) k1).0))
        (sym eq) (serve-closed_once handler k1 e l r polite)
