-- ===== src/Process/Linux.antt =====
-- process/process_linux.go: the socket by netlink, and the process by the files of /proc.
pub mod Holder
use cropstun.Base.{
  ℕ, zero, suc, ◌+◌, ◌-◌, ◌*◌, ◌/◌, ◌%◌, ◌^◌, Bool, true, false, ◌&&◌, List, [], ◌∷◌, ◌++◌, Option,
  none, some, length, window, overwrite, replicate, ◌==◌, leb, ltb, if◌then◌else◌,
}
use cropstun.Base.Go.{Error, Result, ok, err}
use cropstun.Net.{Addr, is4}
use cropstun.Tun.Names.{has_prefix, format, parse_unsigned}
use cropstun.Process.Common.{tcp, udp, bytes_eq, read_native_uint32, Found, failed, named_by}

-- The lowest `n` bytes of a number, the highest first.
abbrev pub big_endian : ℕ → ℕ → List ℕ
big_endian zero a = []
big_endian (suc n) a = big_endian n (a / 256) ++ (a % 256 ∷ [])

-- `AsSlice`
abbrev pub as_slice : Addr → List ℕ
as_slice Addr.invalid = []
as_slice (Addr.v4 a) = big_endian 4 a
as_slice (Addr.v6 a) = big_endian 16 a

-- `AF_INET` and `AF_INET6`
abbrev pub family_of : Addr → ℕ
family_of ip = if is4 ip then 2 else 10

-- `IPPROTO_TCP` and `IPPROTO_UDP`, by the start of the network's name.
abbrev pub protocol_of : List ℕ → Option ℕ
protocol_of network =
    if has_prefix network tcp then some 6 else if has_prefix network udp then some 17 else none

-- The bytes of `inetDiagRequest`.
unfoldable pub request : ℕ → Addr → ℕ → List ℕ
request protocol ip src_port =
    (family_of ip ∷ protocol ∷ 0 ∷ 0 ∷ [])
    ++ (replicate 4 255
        ++ (big_endian 2 (src_port % 2 ^ 16)
            ++ (replicate 2 0
                ++ (overwrite (replicate 16 0) 0 (as_slice ip)
                    ++ (replicate 16 0 ++ (replicate 4 0 ++ replicate 8 255))))))

abbrev pub response_size : ℕ
response_size = 72

-- The fields UID and INode of the first message that holds an `inetDiagResponse`.
unfoldable pub first_response : List (List ℕ) → Result (ℕ × ℕ)
first_response [] = err Error.not_found
first_response (m ∷ ms) =
    if leb response_size (length m)
    then ok (read_native_uint32 (window 64 4 m), read_native_uint32 (window 68 4 m))
    else first_response ms

-- An entry of /proc: its name, of ASCII characters, and what `Info` says of its user.
pub record Entry : Type 0 where
  pub name : List ℕ
  pub is_dir : Bool
  pub info : Result ℕ

-- The kernel. Links are read into a buffer of `PathMax` bytes.
pub record Kernel (K : Type 0) : Type 0 where
  -- `Dial`, `Execute` of a dump request for sockets, and `Close`: the data of the messages.
  pub sock_diag : K → List ℕ → Result (List (List ℕ))
  pub proc_dir : K → Result (List Entry)
  pub fd_dir : K → List ℕ → Result (List (List ℕ))
  pub fd_link : K → List ℕ → List ℕ → Result (List ℕ)
  pub exe_link : K → List ℕ → Result (List ℕ)

unfoldable pub is_pid : List ℕ → Bool
is_pid [] = true
is_pid (c ∷ cs) = leb b'0' c && leb c b'9' && is_pid cs

unfoldable pub socket_name : ℕ → List ℕ
unfolding format
socket_name inode =
    (b's' ∷ b'o' ∷ b'c' ∷ b'k' ∷ b'e' ∷ b't' ∷ b':' ∷ b'[' ∷ []) ++ (format inode ++ (b']' ∷ []))

-- `strconv.ParseUint(s, 10, 32)` without its error.
abbrev pub capped : Option ℕ → ℕ
capped none = 0
capped (some n) = if ltb n (2 ^ 32) then n else 2 ^ 32 - 1

module _ {K : Type 0} (sys : Kernel K) (k : K) where
  unfoldable pub resolve_socket_by_netlink : List ℕ → Addr → ℕ → Result (ℕ × ℕ)
  unfolding request first_response
  resolve_socket_by_netlink network ip src_port = elim (protocol_of network) [
    | none ↦ err Error.invalid_network
    | some protocol ↦ elim (sys.sock_diag k (request protocol ip src_port)) [
      | err e ↦ err e
      | ok messages ↦ first_response messages
    ]
  ]

  abbrev pub is_link : Result (List ℕ) → List ℕ → Bool
  is_link (err e) target = false
  is_link (ok link) target = bytes_eq link target

  -- The loop over the descriptors of a process.
  unfoldable pub any_link : List ℕ → List (List ℕ) → List ℕ → Bool
  any_link name [] target = false
  any_link name (fd ∷ fds) target =
      if is_link (sys.fd_link k name fd) target then true else any_link name fds target

  -- A directory that cannot be read holds nothing.
  abbrev pub holds : List ℕ → List ℕ → Bool
  unfolding any_link
  holds name target = elim (sys.fd_dir k name) [ err e ↦ false | ok fds ↦ any_link name fds target ]

  abbrev pub process_of : List ℕ → Result (ℕ × List ℕ)
  process_of name = elim (sys.exe_link k name) [
    | err e ↦ err e
    | ok exe ↦ ok (capped (parse_unsigned name), exe)
  ]

  -- The loop over the entries of /proc.
  unfoldable pub search_entries : ℕ → ℕ → List Entry → Result (ℕ × List ℕ)
  unfolding is_pid holds socket_name
  search_entries inode uid [] = err (Error.no_process uid inode)
  search_entries inode uid (f ∷ fs) =
      let rest = search_entries inode uid fs in
      if f.is_dir && is_pid f.name
      then elim f.info [
        | err e ↦ err e
        | ok u ↦
            if u == uid
            then if holds f.name (socket_name inode) then process_of f.name else rest
            else rest
      ]
      else rest

  unfoldable pub resolve_process_name_by_proc_search : ℕ → ℕ → Result (ℕ × List ℕ)
  unfolding search_entries
  resolve_process_name_by_proc_search inode uid = elim (sys.proc_dir k) [
    | err e ↦ err e
    | ok files ↦ search_entries inode uid files
  ]

  -- `findProcessName`; the user is known even if the process is not.
  unfoldable pub find_process_name : List ℕ → Addr → ℕ → Found
  unfolding resolve_socket_by_netlink resolve_process_name_by_proc_search
  find_process_name network ip src_port = elim (resolve_socket_by_netlink network ip src_port) [
    | err e ↦ failed e
    | ok (uid, inode) ↦ elim (resolve_process_name_by_proc_search inode uid) [
      | err e ↦ (((uid, 0), []), some e)
      | ok (pid, exe) ↦ (((uid, pid), exe), none)
    ]
  ]
