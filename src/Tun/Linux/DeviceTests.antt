-- ===== src/Tun/Linux/DeviceTests.antt =====
-- The descriptors of the device on Linux, at concrete inputs.
use cropstun.Base.{ℕ, ◌+◌, ◌≡◌, refl, true, false, Bool, List, [], ◌∷◌, Option, none, some, length}
use cropstun.Base.Int.{pos, negsuc}
use cropstun.Base.Go.{Error, Result, ok, err, returns}
use cropstun.Tun.Options.{Options}
use cropstun.Tun.Linux.Rules.{Rule, Family}
use cropstun.Tun.Linux.System.{System}
use cropstun.Tun.Linux.Device.{new_tun}

abbrev options : Options
options = record {
  name = b't' ∷ b'u' ∷ b'n' ∷ b'0' ∷ [];
  inet4_address = [];
  inet6_address = [];
  mtu = 9000;
  table_index = pos 4000;
  rule_index = pos 10086;
  auto_route = false;
}

abbrev blank_rule : Rule
blank_rule = record {
  family = Family.all;
  priority = negsuc 0;
  table = pos 0;
  dst = none;
  src = none;
  iif_name = [];
  oif_name = [];
  goto = negsuc 0;
  invert = false;
  dport = none;
  suppress_prefixlen = negsuc 0;
}

abbrev close_last : List ℕ → Option Error × List ℕ
close_last [] = (none, [])
close_last (fd ∷ fds) = (none, fds)

-- The state is the open descriptors, and the link cannot be set up.
abbrev system : System (List ℕ)
system = record {
  new_rule = blank_rule;
  rule_add = λ k r. (none, k);
  rule_del = λ k r. (none, k);
  rule_list = λ k f. ok [];
  route_add = λ k r. (none, k);
  route_del = λ k r. (none, k);
  table_free = λ k i. true;
  random = λ k. (pos 7, k);
  link_by_name = λ k n. ok 4;
  link_set_mtu = λ k l m. (none, k);
  link_set_up = λ k l. (some (Error.os 19), k);
  addr_add = λ k l p. (none, k);
  rx_checksum = λ k n. (ok true, k);
  set_rx_checksum = λ k n. (none, k);
  open_device = λ k. (ok (length k + 3), (length k + 3) ∷ k);
  set_iff = λ k f n. (none, k);
  set_nonblock = λ k f. (none, k);
  close_fd = λ k f. close_last k;
  raw_conn = λ k f. true;
}

abbrev value : Result ℕ → ℕ
value (ok n) = n
value (err e) = 0

abbrev is_err : Result ℕ → Bool
is_err (ok n) = false
is_err (err e) = true

-- The error is returned, and the descriptor stays open.
leaks : new_tun system 1 (9 ∷ []) options ≡ (returns (err (Error.os 19)), 4 ∷ 9 ∷ [])
unfolding new_tun
leaks = refl
