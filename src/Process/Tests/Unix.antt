-- ===== src/Process/Tests/Unix.antt =====
-- The searches of Linux and macOS at concrete systems.
use cropstun.Base.{
  ℕ, ◌+◌, ◌*◌, ◌^◌, ◌≡◌, refl, inl, true, List, [], ◌∷◌, ◌++◌, concat, map, none, replicate, arith,
}
use cropstun.Base.Go.{Error, Result, ok, err}
use cropstun.Net.{Addr}
use cropstun.Tun.Names.{has_prefix, parse_unsigned}
use cropstun.Process.Common.{tcp}
use cropstun.Process.Linux
use cropstun.Process.Linux.{
  Entry, is_pid, socket_name, first_response, find_process_name,
  resolve_process_name_by_proc_search,
}
use cropstun.Process.Linux.Holder.{Owner, Passed, find_process_name-Owner, vanished_process_error}
use cropstun.Process.Darwin
use cropstun.Process.Darwin.{Verdict, act, classify, find_in_list}
use cropstun.Process.Darwin.Items.{decided}
use cropstun.Process.Darwin.Sockets.{Socket, IsSocket, bytes, verdict}
use cropstun.Process.Darwin.Owners.{find_in_list-decided}

abbrev dir : List ℕ → Result ℕ → Entry
dir name info = record { name = name; is_dir = true; info = info }

abbrev self_entry : Entry
self_entry = dir (b's' ∷ b'e' ∷ b'l' ∷ b'f' ∷ []) (ok 0)

abbrev root_entry : Entry
root_entry = dir (b'1' ∷ []) (ok 0)

abbrev user_entry : Entry
user_entry = dir (b'4' ∷ b'2' ∷ []) (ok 1000)

abbrev ended_entry : Entry
ended_entry = dir (b'7' ∷ []) (err (Error.os 2))

abbrev exe : List ℕ
exe = b'/' ∷ b'c' ∷ []

-- A response for user 1000 (232 + 3 * 256) and inode 33.
abbrev message : List ℕ
message = replicate 64 0 ++ (232 ∷ 3 ∷ 0 ∷ 0 ∷ 33 ∷ 0 ∷ 0 ∷ 0 ∷ [])

abbrev target : List ℕ
target = b's' ∷ b'o' ∷ b'c' ∷ b'k' ∷ b'e' ∷ b't' ∷ b':' ∷ b'[' ∷ b'3' ∷ b'3' ∷ b']' ∷ []

abbrev system : List Entry → Linux.Kernel (Unit {0})
system entries = record {
  sock_diag = λ k r. ok ((0 ∷ []) ∷ message ∷ []);
  proc_dir = λ k. ok entries;
  fd_dir = λ k name. ok ((b'3' ∷ []) ∷ []);
  fd_link = λ k name fd. ok target;
  exe_link = λ k name. ok exe;
}

abbrev entries : List Entry
entries = self_entry ∷ root_entry ∷ user_entry ∷ ended_entry ∷ []

self-Passed : Passed (system entries) tt 33 1000 self_entry
unfolding is_pid
self-Passed = Passed.no_process refl

root-Passed : Passed (system entries) tt 33 1000 root_entry
root-Passed = Passed.other_user 0 refl (λ h. omega arith)

user-Owner : Owner (system entries) tt 33 1000 user_entry
unfolding is_pid socket_name
user-Owner = record {
  dir = refl;
  numeric = refl;
  owned = refl;
  fds = (b'3' ∷ []) ∷ [];
  listed = refl;
  linked = inl refl;
}

find_process_name-Owner_example :
    find_process_name (system entries) tt tcp (Addr.v4 (127 * 2 ^ 24 + 1)) 1080
    ≡ (((1000, 42), exe), none)
unfolding has_prefix first_response parse_unsigned
find_process_name-Owner_example =
    find_process_name-Owner (system entries) tt tcp (Addr.v4 (127 * 2 ^ 24 + 1)) 1080 6 1000 33
      ((0 ∷ []) ∷ message ∷ []) (self_entry ∷ root_entry ∷ []) (ended_entry ∷ []) user_entry exe
      refl refl refl refl (self-Passed, (root-Passed, tt)) user-Owner refl

abbrev raced : List Entry
raced = ended_entry ∷ user_entry ∷ []

vanished_process_error_example :
    resolve_process_name_by_proc_search (system raced) tt 33 1000 ≡ err (Error.os 2)
unfolding is_pid
vanished_process_error_example =
    vanished_process_error (system raced) tt 33 1000 [] (user_entry ∷ []) ended_entry (Error.os 2)
      refl tt refl refl refl

-- A UDP socket of port 1080 by IPv4, on a host of 127.0.0.0/24.
abbrev socket : ℕ → ℕ → Socket
socket last pid = record {
  before_port = replicate 18 0;
  port_high = 4;
  port_low = 56;
  before_flags = replicate 24 0;
  flags = 1;
  before_address = replicate 19 0;
  address_high = replicate 12 0;
  address_low = 127 ∷ 0 ∷ 0 ∷ last ∷ [];
  before_pid = replicate 92 0;
  pid0 = pid;
  pid1 = 0;
  pid2 = 0;
  pid3 = 0;
  rest = replicate 208 0;
}

socket-IsSocket : (last pid : ℕ) → IsSocket 384 (socket last pid)
socket-IsSocket last pid = record {
  port_at = refl;
  flags_at = refl;
  address_at = refl;
  high_size = refl;
  low_size = refl;
  pid_at = refl;
  whole = refl;
}

abbrev sockets : List Socket
sockets = socket 2 8 ∷ socket 1 9 ∷ []

abbrev mac : Darwin.Kernel (Unit {0})
mac = record {
  major_release = 21;
  pcb_list = λ k is_udp. ok (replicate 24 0 ++ (concat (map bytes sockets) ++ (0 ∷ [])));
  exec_path = λ k pid. ok (pid ∷ []);
}

find_in_list-decided_example :
    find_in_list mac tt true (Addr.v4 (127 * 2 ^ 24 + 1)) 1080
    ≡ decided mac tt true (map (verdict true (Addr.v4 (127 * 2 ^ 24 + 1)) 1080) sockets) none
find_in_list-decided_example =
    find_in_list-decided mac tt true (Addr.v4 (127 * 2 ^ 24 + 1)) 1080 (replicate 24 0) (0 ∷ [])
      sockets refl (omega arith) (socket-IsSocket 2 8, (socket-IsSocket 1 9, tt)) refl

find_exact : find_in_list mac tt true (Addr.v4 (127 * 2 ^ 24 + 1)) 1080 ≡ (((0, 9), 9 ∷ []), none)
unfolding find_in_list classify act
find_exact = refl
