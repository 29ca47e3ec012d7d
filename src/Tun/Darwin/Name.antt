-- ===== src/Tun/Darwin/Name.antt =====
-- tun_darwin.go: the number in the name of a device, as `New` reads it by
-- `fmt.Sscanf(name, "utun%d", &ifIndex)`, and the names in the kernel's structures. Names are ASCII.
use cropstun.Base.{
  ℕ, ◌-◌, ◌^◌, ◌%◌, Bool, ◌&&◌, ◌||◌, List, [], ◌∷◌, Option, none, drop, replicate, overwrite, leb,
  ltb, ◌==◌, if◌then◌else◌,
}
use cropstun.Base.Int.{ℤ, pos, negsuc}
use cropstun.Tun.Names.{has_prefix, negate, at_most, parse_unsigned}

-- Space other than a line's end.
abbrev is_blank : ℕ → Bool
is_blank c = c == 32 || c == 9 || c == 11 || c == 12 || c == 13

unfoldable skip_space : List ℕ → List ℕ
skip_space [] = []
skip_space (c ∷ cs) = let rest = skip_space cs in if is_blank c then rest else c ∷ cs

-- The digits at the start.
unfoldable digits : List ℕ → List ℕ
digits [] = []
digits (c ∷ cs) = let rest = digits cs in if leb b'0' c && leb c b'9' then c ∷ rest else []

-- `%d` into an `int`: what stands behind the digits is left.
unfoldable scan_int : List ℕ → Option ℤ
unfolding digits parse_unsigned
scan_int [] = none
scan_int (c ∷ cs) =
    if c == b'+'
    then at_most (2 ^ 63 - 1) pos (parse_unsigned (digits cs))
    else (if c == b'-'
        then at_most (2 ^ 63) negate (parse_unsigned (digits cs))
        else at_most (2 ^ 63 - 1) pos (parse_unsigned (digits (c ∷ cs))))

abbrev utun : List ℕ
utun = b'u' ∷ b't' ∷ b'u' ∷ b'n' ∷ []

-- `none` is an error.
unfoldable pub scan_utun : List ℕ → Option ℤ
unfolding has_prefix skip_space scan_int
scan_utun name = if has_prefix name utun then scan_int (skip_space (drop 4 name)) else none

-- `uint32(i)` and `int32(n)`
abbrev pub to_uint32 : ℤ → ℕ
to_uint32 (pos n) = n % 2 ^ 32
to_uint32 (negsuc n) = 2 ^ 32 - 1 - n % 2 ^ 32

abbrev pub to_int32 : ℕ → ℤ
to_int32 n = if ltb n (2 ^ 31) then pos n else negsuc (2 ^ 32 - 1 - n)

-- `copy(dst[:], name)` into an array of zeros.
abbrev pub copy_name : ℕ → List ℕ → List ℕ
copy_name size name = overwrite (replicate size 0) 0 name
