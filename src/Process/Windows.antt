-- ===== src/Process/Windows.antt =====
-- process/process_windows.go: the search in the tables of the IP helper library.
pub mod Search
pub mod Table
use cropstun.Base.{
  ℕ, zero, suc, ◌+◌, ◌-◌, ◌*◌, ◌/◌, ◌%◌, ◌^◌, Bool, true, false, not, ◌&&◌, ◌||◌, List, [], ◌∷◌,
  Option, none, some, length, drop, take, window, replicate, ◌==◌, leb, if◌then◌else◌,
}
use cropstun.Base.Int.{ℤ, pos, negsuc}
use cropstun.Base.Go.{Error, Outcome, returns, panics, ◌>>=◌, Result, ok, err}
use cropstun.Net.{Addr, is6, addr_eq, is_unspecified}
use cropstun.Process.Common.{
  tcp, udp, bytes_eq, slice, read_native_uint32, addr_from_slice, Found, failed, named_by,
}

-- Offsets within a row of a table; a negative `tcp_state` says that there is no state.
pub record Searcher : Type 0 where
  pub item_size : ℕ
  pub port : ℕ
  pub ip : ℕ
  pub ip_size : ℕ
  pub pid : ℕ
  pub tcp_state : ℤ

abbrev searcher_of : ℕ → ℕ → ℕ → ℕ → ℕ → ℤ → Searcher
searcher_of item_size port ip ip_size pid tcp_state = record {
  item_size = item_size;
  port = port;
  ip = ip;
  ip_size = ip_size;
  pid = pid;
  tcp_state = tcp_state;
}

abbrev pub new_searcher : Bool → Bool → Searcher
new_searcher true true = searcher_of 24 8 4 4 20 (pos 0)
new_searcher true false = searcher_of 12 4 0 4 8 (negsuc 0)
new_searcher false true = searcher_of 56 20 0 16 52 (pos 48)
new_searcher false false = searcher_of 28 20 0 16 24 (negsuc 0)

-- `syscall.Ntohs`
abbrev pub ntohs : ℕ → ℕ
ntohs n = n % 256 * 256 + n / 256

abbrev is_zeros : List ℕ → Bool
is_zeros [] = true
is_zeros (b ∷ bs) = b == 0 && is_zeros bs

-- `net.IP.To4`
abbrev to4 : List ℕ → Option (List ℕ)
to4 ip =
    if length ip == 4
    then some ip
    else (if length ip == 16 && is_zeros (take 10 ip) && bytes_eq (window 10 2 ip) (255 ∷ 255 ∷ [])
        then some (drop 12 ip)
        else none)

abbrev or_whole : List ℕ → Option (List ℕ) → List ℕ
or_whole ip none = ip
or_whole ip (some short) = short

abbrev pub ip_to_addr : List ℕ → Addr
ip_to_addr ip = addr_from_slice (if length ip == 4 then ip else or_whole ip (to4 ip))

abbrev pub state_passes : ℤ → List ℕ → Bool
state_passes (negsuc n) row = true
state_passes (pos offset) row = read_native_uint32 (window offset 4 row) == 5

abbrev pub stateless : ℤ → Bool
stateless (pos n) = false
stateless (negsuc n) = true

-- The body of the loop: whether the row is the one that is searched for. The offsets of
-- `new_searcher` lie within its rows.
abbrev pub row_matches : Searcher → Addr → ℕ → List ℕ → Bool
row_matches s ip port row =
    state_passes s.tcp_state row
    && ntohs (read_native_uint32 (window s.port 4 row) % 2 ^ 16) == port
    && (let src_ip = ip_to_addr (window s.ip s.ip_size row) in
        addr_eq ip src_ip || (is_unspecified src_ip && stateless s.tcp_state))

-- The loop, with the number of rows that are left and the index of the next one.
unfoldable pub search_rows : Searcher → Addr → ℕ → List ℕ → ℕ → ℕ → Outcome (Result ℕ)
search_rows s ip port b zero i = returns (err Error.not_found)
search_rows s ip port b (suc left) i =
    let rest = search_rows s ip port b left (i + 1) in
    slice (4 + s.item_size * i) (4 + s.item_size * (i + 1)) b >>= λ row.
    if row_matches s ip port row
    then returns (ok (read_native_uint32 (window s.pid 4 row)))
    else rest

-- `Search`
unfoldable pub search : Searcher → List ℕ → Addr → ℕ → Outcome (Result ℕ)
unfolding search_rows
search s b ip port = slice 0 4 b >>= λ head. search_rows s ip port b (read_native_uint32 head) 0

-- The library's tables and the processes. `K` is the state of the system.
pub record Api (K : Type 0) : Type 0 where
  -- The call of the table function: the status, the size that it stores and the buffer after it.
  -- The arguments tell whether the table is that of TCP and whether it is that of IPv4.
  pub table_call : K → Bool → Bool → List ℕ → ((ℕ × ℕ) × List ℕ) × K
  pub open_process : K → ℕ → Result ℕ
  -- The full name of the image, after `UTF16ToString`.
  pub image_name : K → ℕ → Result (List ℕ)

abbrev pub insufficient_buffer : ℕ
insufficient_buffer = 122

abbrev idle_name : List ℕ
idle_name =
    b':' ∷ b'S' ∷ b'y' ∷ b's' ∷ b't' ∷ b'e' ∷ b'm' ∷ b' ' ∷ b'I' ∷ b'd' ∷ b'l' ∷ b'e' ∷ b' ' ∷ b'P'
    ∷ b'r' ∷ b'o' ∷ b'c' ∷ b'e' ∷ b's' ∷ b's' ∷ []

abbrev system_name : List ℕ
system_name = b':' ∷ b'S' ∷ b'y' ∷ b's' ∷ b't' ∷ b'e' ∷ b'm' ∷ []

module _ {K : Type 0} (api : Api K) where
  -- The rounds of `getTransportTable` from one with the buffer `b` on, of which there are at most
  -- `fuel`; `none`: there are more.
  unfoldable pub table_rounds :
      ℕ → K → Bool → Bool → List ℕ → Option (Outcome (Result (List ℕ))) × K
  table_rounds zero k is_tcp is_v4 b = (none, k)
  table_rounds (suc fuel) k is_tcp is_v4 b =
      let (((status, size), b'), k') = api.table_call k is_tcp is_v4 b in
      let again = table_rounds fuel k' is_tcp is_v4 (replicate size 0) in
      if status == 0
      then (some (returns (ok b')), k')
      else (if status == insufficient_buffer
          then if size == 0 then (some panics, k') else again
          else (some (returns (err (Error.os status))), k'))

  unfoldable pub get_transport_table : ℕ → K → Bool → Bool → Option (Outcome (Result (List ℕ))) × K
  unfolding table_rounds
  get_transport_table fuel k is_tcp is_v4 = table_rounds fuel k is_tcp is_v4 (replicate 8 0)

  unfoldable pub get_exec_path_from_pid : K → ℕ → Result (List ℕ)
  get_exec_path_from_pid k pid =
      if pid == 0
      then ok idle_name
      else (if pid == 4 then ok system_name else elim (api.open_process k pid) [
        | err e ↦ err e
        | ok handle ↦ api.image_name k handle
      ])

  abbrev pub named : K → Result ℕ → Found
  unfolding get_exec_path_from_pid
  named k (err e) = failed e
  named k (ok pid) = named_by 0 pid (get_exec_path_from_pid k pid)

  abbrev pub found_in : K → Bool → Bool → Addr → ℕ → Outcome (Result (List ℕ)) → Outcome Found
  unfolding search
  found_in k is_tcp is_v4 ip port panics = panics
  found_in k is_tcp is_v4 ip port (returns (err e)) = returns (failed e)
  found_in k is_tcp is_v4 ip port (returns (ok b)) =
      search (new_searcher is_v4 is_tcp) b ip (port % 2 ^ 16) >>= λ r. returns (named k r)

  abbrev pub found :
      K → Bool → Bool → Addr → ℕ → Option (Outcome (Result (List ℕ))) → Option (Outcome Found)
  found k is_tcp is_v4 ip port none = none
  found k is_tcp is_v4 ip port (some o) = some (found_in k is_tcp is_v4 ip port o)

  unfoldable pub find_in_table : ℕ → K → Bool → Bool → Addr → ℕ → Option (Outcome Found) × K
  unfolding get_transport_table
  find_in_table fuel k is_tcp is_v4 ip port =
      let (r, k') = get_transport_table fuel k is_tcp is_v4 in (found k' is_tcp is_v4 ip port r, k')

  -- `findProcessName`, once the libraries are loaded.
  unfoldable pub find_process_name : ℕ → K → List ℕ → Addr → ℕ → Option (Outcome Found) × K
  unfolding find_in_table
  find_process_name fuel k network ip port =
      if bytes_eq network tcp
      then find_in_table fuel k true (not (is6 ip)) ip port
      else (if bytes_eq network udp
          then find_in_table fuel k false (not (is6 ip)) ip port
          else (some (returns (failed Error.invalid_network)), k))
