-- ===== src/Process/Darwin/Sockets.antt =====
-- process/process_darwin.go: the search in a list of sockets, by the meaning of their fields.
use cropstun.Base.{
  ℕ, zero, suc, ◌+◌, ◌*◌, ◌/◌, ◌%◌, ◌≡◌, refl, sym, ap, ap₂, ◌∙◌, Bool, ◌&&◌, List, [], ◌∷◌, ◌++◌,
  append_assoc, Option, none, some, length, length-append, get_or, take, window, ◌==◌,
  if◌then◌else◌, arith,
}
use cropstun.Net.{Addr, is4, addr_eq, is_unspecified}
use cropstun.Process.Common.{read_big_endian}
use cropstun.Process.Windows.Search.{take-append}
use cropstun.Process.Darwin.{Verdict}

-- An item of the list: what stands before the local port, between it and the flags, between these and
-- the local address (12 bytes and the 4 of an address of IPv4), and before and behind the process.
pub record Socket : Type 0 where
  pub before_port : List ℕ
  pub port_high : ℕ
  pub port_low : ℕ
  pub before_flags : List ℕ
  pub flags : ℕ
  pub before_address : List ℕ
  pub address_high : List ℕ
  pub address_low : List ℕ
  pub before_pid : List ℕ
  pub pid0 : ℕ
  pub pid1 : ℕ
  pub pid2 : ℕ
  pub pid3 : ℕ
  pub rest : List ℕ

abbrev pub bytes_from_pid : Socket → List ℕ
bytes_from_pid s = s.pid0 ∷ s.pid1 ∷ s.pid2 ∷ s.pid3 ∷ s.rest

abbrev pub bytes_from_address : Socket → List ℕ
bytes_from_address s = s.address_high ++ (s.address_low ++ (s.before_pid ++ bytes_from_pid s))

abbrev pub bytes : Socket → List ℕ
bytes s =
    s.before_port
    ++ (s.port_high ∷ s.port_low ∷ s.before_flags
        ++ (s.flags ∷ s.before_address ++ bytes_from_address s))

-- The layout of xinpcb_n and, 104 bytes behind its start, xsocket_n: the port is at 18, the flags at
-- 44, the address at 64, and the process at 104 + 68.
pub record IsSocket (size : ℕ) (s : Socket) : Type 0 where
  pub port_at : length s.before_port ≡ 18
  pub flags_at : length s.before_flags ≡ 24
  pub address_at : length s.before_address ≡ 19
  pub high_size : length s.address_high ≡ 12
  pub low_size : length s.address_low ≡ 4
  pub pid_at : length s.before_pid ≡ 92
  pub whole : length (bytes s) ≡ size

-- The port has its high byte first, the process its low one; bit 0 of the flags says IPv4, bit 1 IPv6.
abbrev pub local_port : Socket → ℕ
local_port s = s.port_high * 256 + s.port_low

abbrev pub process : Socket → ℕ
process s = s.pid0 + 256 * s.pid1 + 256 * 256 * s.pid2 + 256 * 256 * 256 * s.pid3

-- The local address in the family of the address that is looked for.
abbrev pub local_address : Addr → Socket → Option Addr
local_address ip s =
    if is4 ip
    then (if s.flags % 2 == 1 then some (Addr.v4 (read_big_endian 0 s.address_low)) else none)
    else (if s.flags / 2 % 2 == 1
        then some (Addr.v6 (read_big_endian 0 (s.address_high ++ s.address_low)))
        else none)

abbrev pub verdict_at : Bool → Addr → ℕ → Option Addr → Verdict
verdict_at is_udp ip pid none = Verdict.skip
verdict_at is_udp ip pid (some local) =
    if addr_eq ip local
    then Verdict.hit pid
    else (if is_udp && is_unspecified local then Verdict.fallback pid else Verdict.skip)

-- A socket of the port is the one looked for if its address is the same; of UDP it is one to fall back
-- on if its address is unspecified.
abbrev pub verdict : Bool → Addr → ℕ → Socket → Verdict
verdict is_udp ip port s =
    if local_port s == port
    then verdict_at is_udp ip (process s) (local_address ip s)
    else Verdict.skip

window-behind :
    (xs ys : List ℕ) (k o n : ℕ) → length xs ≡ k → window (k + o) n (xs ++ ys) ≡ window o n ys
window-behind [] ys k o n e = let z : k + o ≡ o = omega (arith, e) in rw z refl
window-behind (x ∷ xs) ys zero o n e = absurd (omega (arith, e))
window-behind (x ∷ xs) ys (suc k) o n e =
    let s : suc k + o ≡ suc (k + o) = omega arith in
    rw s (window-behind xs ys k o n (omega (arith, e)))

get_or-behind :
    (xs ys : List ℕ) (k o d : ℕ) → length xs ≡ k → get_or (xs ++ ys) (k + o) d ≡ get_or ys o d
get_or-behind [] ys k o d e = let z : k + o ≡ o = omega (arith, e) in rw z refl
get_or-behind (x ∷ xs) ys zero o d e = absurd (omega (arith, e))
get_or-behind (x ∷ xs) ys (suc k) o d e =
    let s : suc k + o ≡ suc (k + o) = omega arith in
    rw s (get_or-behind xs ys k o d (omega (arith, e)))

module _ (size : ℕ) (s : Socket) (h : IsSocket size s) where
  pub port_bytes : window 18 2 (bytes s) ≡ s.port_high ∷ s.port_low ∷ []
  port_bytes = window-behind s.before_port _ 18 0 2 h.port_at

  pub flag_byte : get_or (bytes s) 44 0 ≡ s.flags
  flag_byte =
      get_or-behind s.before_port _ 18 26 0 h.port_at
      ∙ get_or-behind s.before_flags _ 24 0 0 h.flags_at

  -- What stands `o` bytes behind the start of the address.
  behind_flags : (o n : ℕ) → window (64 + o) n (bytes s) ≡ window o n (bytes_from_address s)
  behind_flags o n =
      let at_port : 64 + o ≡ 18 + (46 + o) = omega arith in
      let at_flags : 46 + o ≡ suc (suc (24 + (20 + o))) = omega arith in
      let at_address : 20 + o ≡ suc (19 + o) = omega arith in
      rw at_port (
        window-behind s.before_port _ 18 (46 + o) n h.port_at
        ∙ rw at_flags (
            window-behind s.before_flags _ 24 (20 + o) n h.flags_at
            ∙ rw at_address (window-behind s.before_address _ 19 o n h.address_at)))

  pub low_bytes : window 76 4 (bytes s) ≡ s.address_low
  low_bytes =
      behind_flags 12 4
      ∙ window-behind s.address_high _ 12 0 4 h.high_size
      ∙ rw⁻¹ h.low_size (take-append s.address_low _)

  pub address_size : length (s.address_high ++ s.address_low) ≡ 16
  address_size =
      length-append s.address_high s.address_low ∙ ap₂ (λ a b. a + b) h.high_size h.low_size

  pub all_bytes : window 64 16 (bytes s) ≡ s.address_high ++ s.address_low
  all_bytes =
      behind_flags 0 16
      ∙ ap (take 16) (sym (append_assoc s.address_high s.address_low _))
      ∙ rw⁻¹ address_size (take-append (s.address_high ++ s.address_low) _)

  pub pid_bytes : window 172 4 (bytes s) ≡ s.pid0 ∷ s.pid1 ∷ s.pid2 ∷ s.pid3 ∷ []
  pid_bytes =
      behind_flags 108 4
      ∙ window-behind s.address_high _ 12 96 4 h.high_size
      ∙ window-behind s.address_low _ 4 92 4 h.low_size
      ∙ window-behind s.before_pid _ 92 0 4 h.pid_at
