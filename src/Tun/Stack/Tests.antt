-- ===== src/Tun/Stack/Tests.antt =====
-- The network stack at concrete inputs.
use cropstun.Base.{ℕ, suc, ◌+◌, ◌≡◌, refl, none, some}
use cropstun.Base.Go.{Error, ok, returns, panics}
use cropstun.Net.{Addr}
use cropstun.Tun.Stack.Library.{NetAddr, Protocol, Metadata, Script}
use cropstun.Tun.Stack.Connection.{OnceCloser, new_conn, forward_tcp, forward_udp, run_handler}
use cropstun.Tun.Stack.Closed.{
  Counts, failures, metadata_of, forward_tcp-closed_once, forward_udp-closed_once,
}
use cropstun.Tun.Stack.Gvisor.{address_from_addr, addr_from_address, Library, close_gvisor}

-- How often the one endpoint has been closed and aborted.
abbrev State : Type 0
State = ℕ × ℕ

abbrev peer : NetAddr
peer = NetAddr.addr_port (Addr.v4 7) 443

abbrev net : Protocol State
net = record {
  create_endpoint = λ k. (ok 5, k);
  complete = λ k reset. k;
  set_keep_alive = λ k e b. k;
  set_sock_opt = λ k e o. k;
  remote_addr = λ k e. some peer;
  local_addr = λ k e. some peer;
  close = λ k e. (none, (suc k.0, k.1));
  abort = λ k e. (k.0, suc k.1);
}

net-Counts : Counts net (λ k e. k.0) (λ k e. k.1)
net-Counts = record {
  close_closes = λ k e. refl;
  close_aborts = λ k e. refl;
  abort_closes = λ k e. refl;
  abort_aborts = λ k e. refl;
  complete_closes = λ k b e. refl;
  keep_alive_closes = λ k e b. refl;
  sock_opt_closes = λ k e o. refl;
}

-- A handler that closes its connection twice and fails.
abbrev handler : OnceCloser → Metadata → Script State
handler c m = Script.close_then (λ o. Script.close_then (λ o'. Script.finish (some (Error.os 104))))

forward_tcp-closed_once_example : (forward_tcp net handler (0, 0)).0 ≡ 1
forward_tcp-closed_once_example =
    forward_tcp-closed_once net (λ k e. k.0) (λ k e. k.1) net-Counts handler (0, 0) 5 refl
      (λ m o o'. tt)

forward_udp-closed_once_example :
    ((forward_udp net handler (0, 0)).0 ≡ 1)
    × ((forward_udp net handler (0, 0)).1
        ≡ 0
          + failures
              (run_handler net
                (handler (new_conn 5) (metadata_of peer peer))
                (new_conn 5)
                (0, 0)).0)
forward_udp-closed_once_example =
    forward_udp-closed_once net (λ k e. k.0) (λ k e. k.1) net-Counts handler (0, 0) 5 peer peer refl
      refl refl (λ m o o'. tt)

-- The failed handler's endpoint is aborted.
aborted : forward_udp net handler (0, 0) ≡ (1, 1)
unfolding forward_udp
aborted = refl

converted :
    (address_from_addr (Addr.v4 9) ≡ returns (record { len = 4; number = 9 }))
    × (addr_from_address (record { len = 16; number = 9 }) ≡ returns (Addr.v6 9))
    × (address_from_addr Addr.invalid ≡ panics)
unfolding address_from_addr addr_from_address
converted = (refl, refl, refl)

-- `Close` before `Start`.
unstarted :
    {K S L E : Type 0} (lib : Library K S L E) (k : K)
    → close_gvisor lib k (record { stack = none; endpoint = none }) ≡ panics
unfolding close_gvisor
unstarted lib k = refl
