-- ===== src/Process/Darwin.antt =====
-- process/process_darwin.go: the search in the kernel's list of protocol control blocks.
pub mod Items
pub mod Sockets
pub mod Owners
use cropstun.Base.{
  ℕ, zero, suc, ◌+◌, ◌-◌, ◌*◌, ◌/◌, ◌%◌, ◌^◌, Bool, true, false, not, ◌&&◌, ◌||◌, List, [], ◌∷◌,
  Option, none, some, length, drop, take, window, get_or, ◌==◌, leb, if◌then◌else◌,
}
use cropstun.Base.Go.{Error, Result, ok, err}
use cropstun.Net.{Addr, is4, addr_eq, is_unspecified}
use cropstun.Tun.Options.{is_empty}
use cropstun.Process.Common.{
  tcp, udp, bytes_eq, read_native_uint32, read_big_endian, addr_from_slice, Found, failed, named_by,
}

-- The kernel: its release, its lists, read by their names, and the paths of processes.
pub record Kernel (K : Type 0) : Type 0 where
  pub major_release : ℕ
  pub pcb_list : K → Bool → Result (List ℕ)
  pub exec_path : K → ℕ → Result (List ℕ)

-- `structSize`
abbrev pub struct_size : ℕ → ℕ
struct_size major = if leb 22 major then 408 else 384

-- What an item means for the search: nothing, the process, or one to fall back on.
pub data Verdict : Type 0 where
  skip : Verdict
  hit : ℕ → Verdict
  fallback : ℕ → Verdict

-- The end of the loop's body, for the source address and whether that is one of IPv4.
abbrev pub judge : Bool → Addr → Addr → Bool → ℕ → Verdict
judge is_udp ip src_ip src_is4 pid =
    if addr_eq ip src_ip
    then Verdict.hit pid
    else (if is_udp && is_unspecified src_ip && (if is4 ip then src_is4 else not src_is4)
        then Verdict.fallback pid
        else Verdict.skip)

-- The body of the loop: `xsocket_n` stands 104 bytes behind the start of the item.
unfoldable pub classify : Bool → Addr → ℕ → List ℕ → Verdict
classify is_udp ip port item =
    let flag = get_or item 44 0 in
    let pid = read_native_uint32 (window (104 + 68) 4 item) in
    if read_big_endian 0 (window 18 2 item) == port
    then (if flag % 2 == 1 && is4 ip
        then judge is_udp ip (addr_from_slice (window 76 4 item)) true pid
        else (if flag / 2 % 2 == 1 && not (is4 ip)
            then judge is_udp ip (addr_from_slice (window 64 16 item)) false pid
            else Verdict.skip))
    else Verdict.skip

-- Behind the loop.
abbrev pub finish : Bool → List ℕ → Found
finish is_udp name =
    if is_udp && not (is_empty name) then (((0, 0), name), none) else failed Error.not_found

abbrev pub name_or_empty : Result (List ℕ) → List ℕ
name_or_empty (ok name) = name
name_or_empty (err e) = []

module _ {K : Type 0} (sys : Kernel K) (k : K) where
  unfoldable pub act : Verdict → (List ℕ → Found) → List ℕ → Found
  act Verdict.skip next name = next name
  act (Verdict.hit pid) next name = named_by 0 pid (sys.exec_path k pid)
  act (Verdict.fallback pid) next name = next (name_or_empty (sys.exec_path k pid))

  -- The loop over what is left of the list, of at most `fuel` rounds.
  unfoldable pub walk : ℕ → ℕ → Bool → Addr → ℕ → List ℕ → List ℕ → Found
  walk zero size is_udp ip port b name = finish is_udp name
  walk (suc fuel) size is_udp ip port b name =
      let next = walk fuel size is_udp ip port (drop size b) in
      let verdict = classify is_udp ip port (take size b) in
      if leb size (length b) then act verdict next name else finish is_udp name

  unfoldable pub find_in_list : Bool → Addr → ℕ → Found
  unfolding walk
  find_in_list is_udp ip port =
      let size = struct_size sys.major_release + (if is_udp then 0 else 208) in
      elim (sys.pcb_list k is_udp) [
        | err e ↦ failed e
        | ok b ↦ walk (suc (length b)) size is_udp ip (port % 2 ^ 16) (drop 24 b) []
      ]

  unfoldable pub find_process_name : List ℕ → Addr → ℕ → Found
  unfolding find_in_list
  find_process_name network ip port =
      if bytes_eq network tcp
      then find_in_list false ip port
      else if bytes_eq network udp
      then find_in_list true ip port
      else failed Error.invalid_network
