-- ===== src/Tun/Stack/Connection.antt =====
-- stack_gvisor.go: the closers that run once, and what the forwarders do with a request.
use cropstun.Base.{ℕ, Bool, true, false, Option, none, some, if◌then◌else◌}
use cropstun.Base.Go.{Error, ok, err}
use cropstun.Net.{Addr}
use cropstun.Tun.Stack.Library.{NetAddr, SockOpt, Protocol, Metadata, Script}

-- `tcpOnceCloser` and `udpOnceCloser`: the connection, whether `once` is done, and `err`.
pub record OnceCloser : Type 0 where
  pub conn : ℕ
  pub once : Bool
  pub err : Option Error

abbrev pub new_conn : ℕ → OnceCloser
new_conn conn = record { conn = conn; once = false; err = none }

abbrev pub addr_port_of : NetAddr → Option (Addr × ℕ)
addr_port_of (NetAddr.addr_port a p) = some (a, p)
addr_port_of NetAddr.other_addr = none

module _ {K : Type 0} (net : Protocol K) where
  -- `Close`
  unfoldable pub close_once : K → OnceCloser → Option Error × OnceCloser × K
  close_once k c =
      let (e, k') = net.close k c.conn in
      if c.once then (c.err, c, k) else (e, record c { once = true; err = e }, k')

  -- The handler's call.
  unfoldable pub run_handler : Script K → OnceCloser → K → Option Error × OnceCloser × K
  unfolding close_once
  run_handler (Script.finish e) c k = (e, c, k)
  run_handler (Script.act f s) c k = run_handler s c (f k)
  run_handler (Script.look f) c k = run_handler (f k) c k
  run_handler (Script.close_then f) c k =
      let (e, c', k') = close_once k c in run_handler (f e) c' k'

  -- The goroutine of a connection: the handler, the endpoint's end if that fails, and the deferred
  -- call of `Close`.
  unfoldable pub serve : (OnceCloser → Metadata → Script K) → K → ℕ → NetAddr → NetAddr → K
  unfolding run_handler
  serve handler k endpoint l_addr r_addr =
      let metadata : Metadata = record {
        source = addr_port_of l_addr;
        destination = addr_port_of r_addr;
      } in
      let (h_err, c, k1) =
        run_handler (handler (new_conn endpoint) metadata) (new_conn endpoint) k in
      let k2 : K = elim h_err [ some e ↦ net.abort k1 endpoint | none ↦ k1 ] in (close_once k2 c).2

  abbrev pub both : Option NetAddr → Option NetAddr → Option (NetAddr × NetAddr)
  both (some l) (some r) = some (l, r)
  both _ _ = none

  abbrev pub set_keepalives : K → ℕ → K
  set_keepalives k endpoint =
      let k1 = net.set_keep_alive k endpoint true in
      let k2 = net.set_sock_opt k1 endpoint (SockOpt.keepalive_idle 15) in
      net.set_sock_opt k2 endpoint (SockOpt.keepalive_interval 15)

  -- The function of the forwarder of TCP.
  unfoldable pub forward_tcp : (OnceCloser → Metadata → Script K) → K → K
  unfolding serve
  forward_tcp handler k =
      let (r, k1) = net.create_endpoint k in
      elim r [
        | err e ↦ net.complete k1 true
        | ok endpoint ↦
            let k2 = set_keepalives (net.complete k1 false) endpoint in
            elim (both (net.remote_addr k2 endpoint) (net.local_addr k2 endpoint)) [
              | none ↦ (net.close k2 endpoint).1
              | some (l_addr, r_addr) ↦ serve handler k2 endpoint l_addr r_addr
            ]
      ]

  -- The function of the forwarder of UDP.
  unfoldable pub forward_udp : (OnceCloser → Metadata → Script K) → K → K
  unfolding serve
  forward_udp handler k =
      let (r, k1) = net.create_endpoint k in
      elim r [
        | err e ↦ k1
        | ok endpoint ↦ elim (both (net.remote_addr k1 endpoint) (net.local_addr k1 endpoint)) [
          | none ↦ net.abort k1 endpoint
          | some (l_addr, r_addr) ↦ serve handler k1 endpoint l_addr r_addr
        ]
      ]
