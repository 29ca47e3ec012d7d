-- ===== src/Tun/Windows/Tests.antt =====
-- The device on Windows at a concrete system.
use cropstun.Base.{
  replicate, length-replicate, ℕ, Option, zero, suc, arith, ◌+◌, ◌*◌, ◌^◌, ◌≡◌, refl, true, false,
  List, [], ◌∷◌, ◌++◌, none, some,
}
use cropstun.Base.Int.{pos}
use cropstun.Base.{inl}
use cropstun.Base.Go.{ok, Returns}
use cropstun.Buf.Alloc.{new_default_allocator}
use cropstun.Buf.Alloc.Stored.{IsStocked}
use cropstun.Buf.Buffer.{Buffer}
use cropstun.Buf.Owner.Multi.{Ready}
use cropstun.Tun.Windows.Writer.{write_vectorised, SentOnce, write_vectorised-SentOnce}
use cropstun.Net.{Addr}
use cropstun.Tun.Options.{Options}
use cropstun.Tun.Ranges.{build_auto_route_ranges}
use cropstun.Tun.Windows.Firewall.{
  Filter, Connection, Layer, Action, program_filters, interface_filters, verdict, policy,
}
use cropstun.Tun.Windows.Configure.{Api, Interface, configure, set_up_routes}
use cropstun.Tun.Windows.Session.{
  gather, write_elements, Reply, Allocated, Session, RateJuggler, read_packet, update, update_at,
}
use cropstun.Tun.Windows.Session.Packets.{Arrives, read_packet-answer}
use cropstun.Tun.Windows.Endpoint.{
  Endpoint, attach, write_packets, Roomy, Written, write_packets-Written,
}
use cropstun.Tun.Windows.Configure.Policy.{Recording, configure-policy}

abbrev only4 : Options
only4 = record {
  name = b'w' ∷ [];
  inet4_address = record { addr = Addr.v4 (10 * 2 ^ 24 + 1); bits = 24 } ∷ [];
  inet6_address = [];
  mtu = 1500;
  table_index = pos 1;
  rule_index = pos 1;
  auto_route = true;
}

abbrev plain_interface : Interface
plain_interface = record {
  forwarding_enabled = false;
  router_discovery = 2;
  dad_transmits = 1;
  managed_address = true;
  other_stateful = true;
  nl_mtu = 0;
  automatic_metric = true;
  metric = 5;
}

-- A system that is its list of filters.
abbrev recorder : Api (List Filter)
recorder = record {
  create_adapter = λ k n. (ok 1, k);
  start_session = λ k a. (ok 2, k);
  end_session = λ k s. k;
  close_adapter = λ k a. k;
  set_addresses = λ k f ps. (none, k);
  disable_dns_registration = λ k. k;
  add_route = λ k r. (none, k);
  flush_resolver_cache = λ k. (none, k);
  ip_interface = λ k f. ok plain_interface;
  set_interface = λ k f i. (none, k);
  engine_open = λ k. (ok 3, []);
  engine_close = λ k e. [];
  generate_guid = λ k. (ok 4, k);
  sublayer_add = λ k e g. (none, k);
  current_app_id = λ k. ok 77;
  filter_add = λ k e g f. (none, k ++ (f ∷ []));
  interface_index = λ k n. ok 12;
}

recorder-Recording : Recording recorder only4 77 12 (λ k. k)
recorder-Recording = record {
  opened = λ k. refl;
  guid = λ k. refl;
  sublayer = λ k e g. refl;
  added = λ k e g f h. refl;
  program = λ k. refl;
  interface = λ k. refl;
}

-- A query to a DNS server that would not pass through the device.
abbrev query : Connection
query = record { at_layer = Layer.connect_v4; program = 5; interface = 3; port = 53 }

configure-policy_example :
    verdict (configure recorder only4 []).0.1 query ≡ policy only4 77 12 query
unfolding configure program_filters interface_filters set_up_routes build_auto_route_ranges
configure-policy_example =
    configure-policy recorder only4 77 12 (λ k. k) recorder-Recording [] query refl refl

query_blocked : verdict (configure recorder only4 []).0.1 query ≡ some Action.block
unfolding configure program_filters interface_filters set_up_routes build_auto_route_ranges
query_blocked = refl

-- A session that finds the ring empty as many times as its state says.
receive_after : Reply → ℕ → Option Reply × ℕ
receive_after reply zero = (some reply, zero)
receive_after reply (suc n) = (none, n)

abbrev lagging : Reply → Session ℕ
lagging reply = record {
  closed = λ k. false;
  nanotime = λ k. (5, k);
  receive = receive_after reply;
  wait = λ k. k;
  procyield = λ k. k;
  release_receive = λ k p. k;
  allocate_send = λ k n. (Allocated.refused 111, k);
  send = λ k p. k;
}

lagging-Arrives : (reply : Reply) → Arrives (lagging reply) (λ k. k) reply
unfolding receive_after
lagging-Arrives reply = record {
  open_still = λ k. refl;
  timed = λ k. refl;
  waited = λ k. refl;
  yielded = λ k. refl;
  empty = λ k n h. rw h (refl, refl);
  arrived = λ k h. rw h refl;
}

abbrev fast : RateJuggler
fast = record { current = 100000000; next_byte_count = 0; next_start_time = 0; changing = 0 }

read_packet-answer_example :
    (read_packet (lagging (Reply.received (1 ∷ 2 ∷ []))) 4 3 fast).0 ≡ some (ok (1 ∷ 2 ∷ []))
read_packet-answer_example =
    read_packet-answer (lagging (Reply.received (1 ∷ 2 ∷ []))) (λ k. k)
      (Reply.received (1 ∷ 2 ∷ [])) (lagging-Arrives (Reply.received (1 ∷ 2 ∷ []))) 4 3 fast
      (omega arith)

-- A session that is the list of the packets sent.
abbrev sending : Session (List (List ℕ))
sending = record {
  closed = λ k. false;
  nanotime = λ k. (500000000, k);
  receive = λ k. (none, k);
  wait = λ k. k;
  procyield = λ k. k;
  release_receive = λ k p. k;
  allocate_send = λ k n. (Allocated.room (9 ∷ 9 ∷ 9 ∷ []), k);
  send = λ k p. p ∷ k;
}

-- The elements are sent as one packet, and 0 is returned for the number of bytes.
elements_are_joined :
    write_elements sending [] fast ((1 ∷ []) ∷ (2 ∷ 3 ∷ []) ∷ [])
    ≡ (ok 0, (1 ∷ 2 ∷ 3 ∷ []) ∷ [], (update sending [] fast 3).0)
unfolding write_elements gather update
elements_are_joined = refl

-- Half a second after the last restart the rate is that of the bytes counted since.
rate_restarts :
    update_at 500000000 fast 100 ≡ record fast { current = 200; next_start_time = 500000000 }
unfolding update_at
rate_restarts = refl

abbrev wide : Session (List (List ℕ))
wide = record sending {
  allocate_send = λ k n. (Allocated.room (replicate n 9), k);
  send = λ k p. k ++ (p ∷ []);
}

wide-Roomy : Roomy wide (λ k. k)
wide-Roomy = record {
  open_still = λ k. refl;
  timed = λ k. refl;
  room = λ k n. replicate n 9;
  roomy = λ k n. refl;
  fitting = λ k n. length-replicate n 9;
  reserved = λ k n. refl;
  passed_on = λ k p. refl;
}

write_packets-Written_example :
    Written wide
      (λ k. k)
      wide-Roomy
      2
      ((1 ∷ 2 ∷ []) ∷ (3 ∷ []) ∷ [])
      (write_packets wide 0 [] fast (((1 ∷ []) ∷ (2 ∷ []) ∷ []) ∷ ((3 ∷ []) ∷ []) ∷ []))
write_packets-Written_example =
    write_packets-Written wide (λ k. k) wide-Roomy
      (((1 ∷ []) ∷ (2 ∷ []) ∷ []) ∷ ((3 ∷ []) ∷ []) ∷ []) 0 [] fast

-- A buffer over two bytes of someone else.
abbrev two_bytes : Buffer
two_bytes = record {
  slice = record { backing = 7 ∷ 8 ∷ []; len = 2 };
  start = 0;
  end = 2;
  capacity = 2;
  refs = pos 0;
  managed = false;
}

two_bytes-Ready : Ready two_bytes
two_bytes-Ready = record { valid = omega arith; owned = inl refl; unshared = refl }

stocked : IsStocked new_default_allocator
stocked index = tt

write_vectorised-SentOnce_example :
    Returns
      (SentOnce (λ k. k) [] (two_bytes ∷ two_bytes ∷ []))
      (write_vectorised wide new_default_allocator [] fast (two_bytes ∷ two_bytes ∷ []))
write_vectorised-SentOnce_example =
    write_vectorised-SentOnce wide (λ k. k) wide-Roomy new_default_allocator [] fast
      (two_bytes ∷ two_bytes ∷ []) stocked (two_bytes-Ready, (two_bytes-Ready, tt))

abbrev fresh_endpoint : Endpoint ℕ
fresh_endpoint = record { dispatcher = none; loops = 0 }

-- Detaching and attaching again starts a second loop.
attached_again :
    attach (attach (attach fresh_endpoint (some 1)) none) (some 2)
    ≡ record { dispatcher = some 2; loops = 2 }
unfolding attach
attached_again = refl
