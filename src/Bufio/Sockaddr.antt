-- ===== src/Bufio/Sockaddr.antt =====
-- common/bufio/addr_linux.go, addr_unix.go and addr_windows.go: addresses of sockets as the bytes of
-- the system's structures.
use cropstun.Base.{
  ℕ, zero, suc, ◌+◌, ◌*◌, ◌/◌, ◌%◌, ◌^◌, ◌<◌, ◌≡◌, refl, ap₂, ◌∙◌, List, [], ◌∷◌, ◌++◌, Option,
  none, some, window, get_or, replicate, arith, ◌==◌, if◌then◌else◌,
}
use native.Mathlib.Nat.{pow-suc}
use cropstun.Net.{Addr}
use cropstun.Process.Common.{read_big_endian}
use cropstun.Process.Linux.{big_endian}
use cropstun.Tun.Ranges.{Os}
use cropstun.Tun.Darwin.Requests.{as16}

-- The structures, from their first two bytes on: the family, a 16-bit number in the machine's
-- order, on macOS behind the structure's length.
abbrev inet4_structure : List ℕ → ℕ → ℕ → List ℕ
inet4_structure start port addr =
    start ++ (big_endian 2 port ++ (big_endian 4 addr ++ replicate 8 0))

abbrev inet6_structure : List ℕ → ℕ → ℕ → List ℕ
inet6_structure start port addr =
    start ++ (big_endian 2 port ++ (replicate 4 0 ++ (big_endian 16 addr ++ replicate 4 0)))

abbrev sizeof_sockaddr_inet4 : ℕ
sizeof_sockaddr_inet4 = 16

abbrev sizeof_sockaddr_inet6 : ℕ
sizeof_sockaddr_inet6 = 28

-- `ToSockaddr`: the bytes at `name`, and `nameLen`.
abbrev structure : List ℕ → List ℕ → Addr → ℕ → List ℕ × ℕ
structure start4 start6 (Addr.v4 a) port = (inet4_structure start4 port a, sizeof_sockaddr_inet4)
structure start4 start6 addr port = (inet6_structure start6 port (as16 addr), sizeof_sockaddr_inet6)

unfoldable pub linux_to_sockaddr : Addr → ℕ → List ℕ × ℕ
linux_to_sockaddr addr port = structure (2 ∷ 0 ∷ []) (10 ∷ 0 ∷ []) addr port

unfoldable pub darwin_to_sockaddr : Addr → ℕ → List ℕ × ℕ
darwin_to_sockaddr addr port = structure (16 ∷ 2 ∷ []) (28 ∷ 30 ∷ []) addr port

unfoldable pub windows_to_sockaddr : Addr → ℕ → List ℕ × ℕ
windows_to_sockaddr addr port = structure (2 ∷ 0 ∷ []) (23 ∷ 0 ∷ []) addr port

abbrev pub to_sockaddr : Os → Addr → ℕ → List ℕ × ℕ
unfolding linux_to_sockaddr darwin_to_sockaddr windows_to_sockaddr
to_sockaddr Os.linux = linux_to_sockaddr
to_sockaddr Os.darwin = darwin_to_sockaddr
to_sockaddr Os.windows = windows_to_sockaddr

-- How a system reads such a structure of `n` bytes.
abbrev pub family_at : Os → List ℕ → ℕ
family_at Os.darwin bs = get_or bs 1 0
family_at _ bs = get_or bs 0 0 + 256 * get_or bs 1 0

abbrev pub af_inet6 : Os → ℕ
af_inet6 Os.linux = 10
af_inet6 Os.darwin = 30
af_inet6 Os.windows = 23

abbrev pub from_sockaddr : Os → List ℕ → ℕ → Option (Addr × ℕ)
from_sockaddr goos bs n =
    let port = read_big_endian 0 (window 2 2 bs) in
    if family_at goos bs == 2
    then (if n == 16 then some (Addr.v4 (read_big_endian 0 (window 4 4 bs)), port) else none)
    else (if family_at goos bs == af_inet6 goos
        then (if n == 28 then some (Addr.v6 (read_big_endian 0 (window 8 16 bs)), port) else none)
        else none)

read_big_endian-snoc :
    (acc : ℕ) (xs : List ℕ) (x : ℕ)
    → read_big_endian acc (xs ++ (x ∷ [])) ≡ read_big_endian acc xs * 256 + x
read_big_endian-snoc acc [] x = refl
read_big_endian-snoc acc (y ∷ xs) x = read_big_endian-snoc (acc * 256 + y) xs x

-- The bytes of a number are read as that number.
div-below : (a b : ℕ) → a < 256 * b → a / 256 < b
div-below a b h = grind arith

pub read_big_endian-big_endian : (n a : ℕ) → a < 256 ^ n → read_big_endian 0 (big_endian n a) ≡ a
read_big_endian-big_endian zero a h = omega (arith, h)
read_big_endian-big_endian (suc n) a h =
    let small : a / 256 < 256 ^ n = div-below a (256 ^ n) (omega (arith, h, pow-suc 256 n)) in
    read_big_endian-snoc 0 (big_endian n (a / 256)) (a % 256)
    ∙ omega (arith, read_big_endian-big_endian n (a / 256) small)

-- The address has a family, and its number is one of that family.
abbrev pub InRange : Addr → Type 0
InRange Addr.invalid = ⊥
InRange (Addr.v4 a) = a < 256 ^ 4
InRange (Addr.v6 a) = a < 256 ^ 16

-- A destination is read back if its numbers are.
abbrev read_as : (ℕ → Addr) → ℕ → ℕ → Option (Addr × ℕ)
read_as family a port = some (family a, port)

read_numbers :
    (family : ℕ → Addr) (n a port : ℕ)
    → a < 256 ^ n
    → port < 256 ^ 2
    → read_as family (read_big_endian 0 (big_endian n a)) (read_big_endian 0 (big_endian 2 port))
      ≡ read_as family a port
read_numbers family n a port h p =
    ap₂ (read_as family) (read_big_endian-big_endian n a h) (read_big_endian-big_endian 2 port p)

-- For an address of IPv4 or IPv6 and a port of 16 bits, the structure that `ToSockaddr` builds on
-- Linux, macOS or Windows, with the length that it returns, is read back by the system as that address
-- and port.
pub from_sockaddr-to_sockaddr :
    (goos : Os) (addr : Addr) (port : ℕ)
    → InRange addr
    → port < 256 ^ 2
    → from_sockaddr goos (to_sockaddr goos addr port).0 (to_sockaddr goos addr port).1
      ≡ some (addr, port)
unfolding linux_to_sockaddr darwin_to_sockaddr windows_to_sockaddr
from_sockaddr-to_sockaddr goos Addr.invalid port h p = elim h [ ]
from_sockaddr-to_sockaddr Os.linux (Addr.v4 a) port h p = read_numbers Addr.v4 4 a port h p
from_sockaddr-to_sockaddr Os.darwin (Addr.v4 a) port h p = read_numbers Addr.v4 4 a port h p
from_sockaddr-to_sockaddr Os.windows (Addr.v4 a) port h p = read_numbers Addr.v4 4 a port h p
from_sockaddr-to_sockaddr Os.linux (Addr.v6 a) port h p = read_numbers Addr.v6 16 a port h p
from_sockaddr-to_sockaddr Os.darwin (Addr.v6 a) port h p = read_numbers Addr.v6 16 a port h p
from_sockaddr-to_sockaddr Os.windows (Addr.v6 a) port h p = read_numbers Addr.v6 16 a port h p
