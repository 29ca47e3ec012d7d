-- ===== src/Tun/Linux/Tests.antt =====
-- The ioctls on checksums and the servers of names on Linux, at concrete systems.
use cropstun.Base.{ℕ, ◌+◌, ◌≡◌, refl, [], ◌∷◌, none, some}
use cropstun.Base.Go.{Error, ok, err}
use cropstun.Net.{Addr}
use cropstun.Tun.Linux.Flags.{Sockets, set_checksum_offload}
use cropstun.Tun.Linux.Dns.{Programs, setup_dns}

-- The number of open sockets; the ioctl fails.
abbrev failing : Sockets ℕ
failing = record {
  socket = λ k d t p. (ok 3, k + 1);
  close = λ k fd. 0;
  ioctl_ethtool = λ k fd name v. ((some (Error.os 95), v), k);
}

closed_again : set_checksum_offload failing 0 (b'x' ∷ []) 22 ≡ (some (Error.os 95), 0)
unfolding set_checksum_offload
closed_again = refl

-- The programs that are run are counted, and none is found.
abbrev nothing : Programs ℕ
nothing = record {
  look_path = λ k name. err Error.not_found;
  run = λ k path args. (none, k + 1);
  addr_string = λ a. [];
}

abbrev found : Programs ℕ
found = record nothing { look_path = λ k name. ok name }

not_set : setup_dns nothing 0 (b'x' ∷ []) (Addr.v4 1 ∷ []) ≡ (some Error.not_found, 0)
unfolding setup_dns
not_set = refl

three_calls : setup_dns found 0 (b'x' ∷ []) (Addr.v4 1 ∷ []) ≡ (none, 3)
unfolding setup_dns
three_calls = refl
