-- ===== src/Process/Common.antt =====
-- process/process.go, and what the searches of the systems share: networks, parts of byte slices, and
-- addresses from bytes. The machine is little-endian.
use cropstun.Base.{
  ℕ, ◌+◌, ◌-◌, ◌*◌, Bool, true, false, ◌&&◌, List, [], ◌∷◌, Option, none, some, length, window,
  ◌==◌, leb, if◌then◌else◌,
}
use cropstun.Base.Go.{Error, Result, ok, err, Outcome, returns, panics}
use cropstun.Net.{Addr}

abbrev pub tcp : List ℕ
tcp = b't' ∷ b'c' ∷ b'p' ∷ []

abbrev pub udp : List ℕ
udp = b'u' ∷ b'd' ∷ b'p' ∷ []

-- Equal strings of bytes.
abbrev pub bytes_eq : List ℕ → List ℕ → Bool
bytes_eq [] [] = true
bytes_eq (x ∷ xs) (y ∷ ys) = x == y && bytes_eq xs ys
bytes_eq _ _ = false

-- `b[from:to]` of a slice whose capacity is its length, where `from ≤ to`.
abbrev pub slice : ℕ → ℕ → List ℕ → Outcome (List ℕ)
slice from to b = if leb to (length b) then returns (window from (to - from) b) else panics

abbrev pub read_native_uint32 : List ℕ → ℕ
read_native_uint32 (a ∷ b ∷ c ∷ d ∷ _) = a + 256 * b + 256 * 256 * c + 256 * 256 * 256 * d
read_native_uint32 _ = 0

abbrev pub read_big_endian : ℕ → List ℕ → ℕ
read_big_endian acc [] = acc
read_big_endian acc (b ∷ bs) = read_big_endian (acc * 256 + b) bs

-- `netip.AddrFromSlice`, where a failure leaves the zero address.
abbrev pub addr_from_slice : List ℕ → Addr
addr_from_slice bs =
    if length bs == 4
    then Addr.v4 (read_big_endian 0 bs)
    else if length bs == 16
    then Addr.v6 (read_big_endian 0 bs)
    else Addr.invalid

-- What `FindProcessName` returns: the user, the process, its name, and an error.
abbrev pub Found : Type 0
Found = ((ℕ × ℕ) × List ℕ) × Option Error

abbrev pub failed : Error → Found
failed e = (((0, 0), []), some e)

abbrev pub named_by : ℕ → ℕ → Result (List ℕ) → Found
named_by uid pid (ok name) = (((uid, pid), name), none)
named_by uid pid (err e) = (((uid, pid), []), some e)
