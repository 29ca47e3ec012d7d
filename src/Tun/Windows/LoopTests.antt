-- ===== src/Tun/Windows/LoopTests.antt =====
-- The loop of deliveries and the servers of names on Windows, at concrete inputs.
use cropstun.Base.{
  ℕ, ◌/◌, ◌≡◌, refl, true, false, List, [], ◌∷◌, ◌++◌, Option, none, some, get_or, ap, replicate,
  length-replicate, arith,
}
use cropstun.Base.Int.{pos}
use cropstun.Base.Go.{Error}
use cropstun.Net.{Addr}
use cropstun.Tun.Windows.Session.{Reply, Allocated, Session, RateJuggler, update_at}
use cropstun.Tun.Windows.Dispatch.{Network, End, dispatch_loop}
use cropstun.Tun.Windows.Dispatch.Reads.{Traffic, reply, packets, Faithful}
use cropstun.Tun.Windows.Dispatch.Delivered.{Dispatched, windows_dispatch_loop-Dispatched}
use cropstun.Tun.Windows.Dns.{Api, setup_dns}

-- The ring yields what is on the way, an empty poll or a packet at a time, and then ends.
abbrev receive : Traffic → Option Reply × Traffic
receive ([], out, stack) = (some Reply.handle_eof, ([], out, stack))
receive (x ∷ ins, out, stack) = (reply x, (ins, out, stack))

abbrev session : Session Traffic
session = record {
  closed = λ k. false;
  nanotime = λ k. (0, k);
  receive = receive;
  wait = λ k. k;
  procyield = λ k. k;
  release_receive = λ k p. k;
  allocate_send = λ k n. (Allocated.room (replicate n 0), k);
  send = λ k p. (k.0, k.1 ++ (p ∷ []), k.2);
}

abbrev net : Network Traffic
net = record {
  ip_version = λ b. pos (get_or b 0 0 / 16);
  ipv4_protocol_number = 0x0800;
  ipv6_protocol_number = 0x86dd;
  is_set = λ k. true;
  deliver_network_packet = λ k p b. (k.0, k.1, k.2 ++ ((p, b) ∷ []));
}

abbrev idle : RateJuggler
idle = record { current = 0; next_byte_count = 0; next_start_time = 0; changing = 0 }

abbrev on_the_way : List (Option (List ℕ))
on_the_way =
    none ∷ some (69 ∷ 1 ∷ []) ∷ some [] ∷ some (5 ∷ 2 ∷ []) ∷ none ∷ none ∷ some (96 ∷ 3 ∷ []) ∷ []

-- The empty packet is dropped, and the one of no known version goes back.
delivers :
    (dispatch_loop session net 9 9 (on_the_way, [], []) idle).1
    ≡ ([], (5 ∷ 2 ∷ []) ∷ [], (0x0800, 69 ∷ 1 ∷ []) ∷ (0x86dd, 96 ∷ 3 ∷ []) ∷ [])
unfolding dispatch_loop update_at
delivers = refl

ends : (dispatch_loop session net 9 9 (on_the_way, [], []) idle).0 ≡ End.read_error Error.closed
unfolding dispatch_loop update_at
ends = refl

faithful_session : Faithful session net (λ k. k)
faithful_session = record {
  open_still = λ k. refl;
  timed = λ k. refl;
  waited = λ k. refl;
  yielded = λ k. refl;
  released = λ k p. refl;
  receives = λ k x ins out stack h. (ap (λ t. (receive t).0) h, ap (λ t. (receive t).1) h);
  ends = λ k out stack h. (ap (λ t. (receive t).0) h, ap (λ t. (receive t).1) h);
  allocates = λ k n. (replicate n 0, refl, length-replicate n 0);
  allocated = λ k n. refl;
  sends = λ k p. refl;
  delivers = λ k protocol p. refl;
  is_set = λ k. refl;
}

windows_dispatch_loop-Dispatched_example :
    Dispatched net
      (λ k. k)
      []
      []
      (packets on_the_way)
      (dispatch_loop session net 9 9 (on_the_way, [], []) idle)
windows_dispatch_loop-Dispatched_example =
    windows_dispatch_loop-Dispatched session net (λ k. k) faithful_session (λ b. refl) 9 9
      (on_the_way, [], []) idle on_the_way [] [] refl (omega arith) (omega arith)

-- The calls on the servers of names.
abbrev log : Api (List (ℕ × List Addr))
log = record {
  set_dns = λ k family servers. (none, k ++ ((family, servers) ∷ []));
  flush_resolver_cache = λ k. (none, k ++ ((0, []) ∷ []));
}

servers_set :
    setup_dns log [] (Addr.v6 1 ∷ Addr.invalid ∷ Addr.v6 2 ∷ [])
    ≡ (none, (23, Addr.v6 1 ∷ Addr.v6 2 ∷ []) ∷ (0, []) ∷ [])
unfolding setup_dns
servers_set = refl
