-- ===== src/Tun/Names.antt =====
-- tun.go: `CalculateInterfaceName`. Strings are lists of bytes.
pub mod Fresh
use cropstun.Base.{
  ℕ, zero, suc, ◌+◌, ◌-◌, ◌*◌, ◌/◌, ◌%◌, ◌^◌, Bool, true, false, ◌&&◌, List, [], ◌∷◌, ◌++◌, Option,
  none, some, length, drop, leb, ltb, ◌==◌, if◌then◌else◌,
}
use cropstun.Base.Int.{ℤ, pos, negsuc}
use cropstun.Tun.Options.{is_empty}
use cropstun.Tun.Ranges.{Os}

-- `strconv.FormatInt` of a number that is not negative, with fuel above the number.
unfoldable pub format_onto : ℕ → ℕ → List ℕ → List ℕ
format_onto zero n tail = tail
format_onto (suc fuel) n tail =
    let more = format_onto fuel (n / 10) ((b'0' + n % 10) ∷ tail) in
    if ltb n 10 then (b'0' + n) ∷ tail else more

unfoldable pub format : ℕ → List ℕ
unfolding format_onto
format n = format_onto (suc n) n []

unfoldable pub parse_digits : ℕ → List ℕ → Option ℕ
parse_digits acc [] = some acc
parse_digits acc (c ∷ cs) =
    let rest = parse_digits (acc * 10 + (c - b'0')) cs in
    if leb b'0' c && leb c b'9' then rest else none

unfoldable pub parse_unsigned : List ℕ → Option ℕ
unfolding parse_digits
parse_unsigned [] = none
parse_unsigned (c ∷ cs) = parse_digits 0 (c ∷ cs)

-- `strconv.ParseInt(s, 10, 16)`; `none` is an error, of the syntax or of the range.
abbrev pub at_most : ℕ → (ℕ → ℤ) → Option ℕ → Option ℤ
at_most limit sign none = none
at_most limit sign (some n) = if leb n limit then some (sign n) else none

abbrev pub negate : ℕ → ℤ
negate zero = pos 0
negate (suc n) = negsuc n

unfoldable pub parse_int16 : List ℕ → Option ℤ
unfolding parse_unsigned
parse_int16 [] = none
parse_int16 (c ∷ cs) =
    if c == b'+'
    then at_most 32767 pos (parse_unsigned cs)
    else (if c == b'-'
        then at_most 32768 negate (parse_unsigned cs)
        else at_most 32767 pos (parse_unsigned (c ∷ cs)))

unfoldable pub has_prefix : List ℕ → List ℕ → Bool
has_prefix s [] = true
has_prefix [] (p ∷ ps) = false
has_prefix (c ∷ cs) (p ∷ ps) = c == p && has_prefix cs ps

-- The name without its number.
unfoldable pub base_name : Os → List ℕ → List ℕ
base_name Os.darwin name = b'u' ∷ b't' ∷ b'u' ∷ b'n' ∷ []
base_name _ name = if is_empty name then b't' ∷ b'u' ∷ b'n' ∷ [] else name

-- The number behind the base name, if the interface's name is of that form.
unfoldable pub index_of : List ℕ → List ℕ → Option ℤ
unfolding has_prefix parse_int16
index_of base name = if has_prefix name base then parse_int16 (drop (length base) name) else none

abbrev pub bump : Option ℤ → ℕ → ℕ
bump none tun_index = tun_index
bump (some (negsuc n)) tun_index = tun_index
bump (some (pos i)) tun_index = if leb tun_index i then i + 1 else tun_index

-- The loop over the interfaces.
unfoldable pub next_index : List ℕ → List (List ℕ) → ℕ → ℕ
unfolding index_of
next_index base [] tun_index = tun_index
next_index base (n ∷ ns) tun_index = next_index base ns (bump (index_of base n) tun_index)

-- `none`: `net.Interfaces` failed, and the name gets no number.
unfoldable pub calculate_interface_name : Os → List ℕ → Option (List (List ℕ)) → List ℕ
unfolding base_name next_index format
calculate_interface_name goos name none = base_name goos name
calculate_interface_name goos name (some interfaces) =
    base_name goos name ++ format (next_index (base_name goos name) interfaces 0)
