-- ===== src/Buf/Buffer.antt =====
-- common/buf/buffer.go: the buffer's state and the operations on its bytes. Positions are natural
-- numbers: the callers pass lengths, and none of them comes near the bound of Go's `int`.
pub mod Valid
pub mod Fill
pub mod Drain
pub mod Refine
use cropstun.Base.{
  ℕ, ◌+◌, ◌-◌, ◌%◌, Bool, ◌&&◌, List, [], ◌∷◌, Option, none, some, length, get_elem?, set, take,
  window, overwrite, min, ltb, leb, ◌==◌, if◌then◌else◌,
}
use cropstun.Base.Int.{ℤ, sub_ℕ}
use cropstun.Base.Go.{Error, Outcome, returns, panics, ◌>>=◌}
use cropstun.Buf.Alloc.{Slice}

-- `slice` is the field `data`.
pub record Buffer : Type 0 where
  pub slice : Slice
  pub start : ℕ
  pub end : ℕ
  pub capacity : ℕ
  pub refs : ℤ
  pub managed : Bool

-- The bytes of `data[lo:hi]`; a slice expression reaches up to the capacity of `data`.
unfoldable pub sub_slice : Slice → ℕ → ℕ → Outcome (List ℕ)
sub_slice s lo hi =
    if leb lo hi && leb hi (length s.backing)
    then returns (window lo (hi - lo) s.backing)
    else panics

-- `data[i]` reaches up to the length of `data`.
pub load : Slice → ℕ → Outcome ℕ
load s i = elim (get_elem? (take s.len s.backing) i) [ none ↦ panics | some v ↦ returns v ]

-- `data[i] = v`
pub store : Slice → ℕ → ℕ → Outcome Slice
store s i v = if ltb i s.len then returns (record s { backing = set s.backing i v }) else panics

-- `copy(data[lo:hi], src)`, with the number of bytes copied.
unfoldable pub copy_into : Slice → ℕ → ℕ → List ℕ → Outcome (ℕ × Slice)
copy_into s lo hi src =
    if leb lo hi && leb hi (length s.backing)
    then returns (
      min (hi - lo) (length src),
      record s { backing = overwrite s.backing lo (take (hi - lo) src) },
    )
    else panics

pub byte : Buffer → ℕ → Outcome ℕ
byte b index = load b.slice (b.start + index)

pub set_byte : Buffer → ℕ → ℕ → Outcome Buffer
set_byte b index value = do
  s ← store b.slice (b.start + index) value
  returns (record b { slice = s })

pub is_empty : Buffer → Bool
is_empty b = b.end == b.start

unfoldable pub is_full : Buffer → Bool
is_full b = b.end == b.capacity

-- What the methods that fill or drain the buffer return: a count, the bytes, and the error.
pub record Reply : Type 0 where
  pub count : ℕ
  pub bytes : List ℕ
  pub error : Option Error

abbrev pub fails : Error → Reply
fails e = record { count = 0; bytes = []; error = some e }

abbrev pub counts : ℕ → Reply
counts n = record { count = n; bytes = []; error = none }

abbrev pub yields : List ℕ → Reply
yields bs = record { count = length bs; bytes = bs; error = none }

pub extend : Buffer → ℕ → Outcome (List ℕ × Buffer)
extend b n =
    if ltb b.capacity (b.end + n)
    then panics
    else (do ext ← sub_slice b.slice b.end (b.end + n); returns (ext, record b { end = b.end + n }))

pub advance : Buffer → ℕ → Buffer
advance b from = record b { start = b.start + from }

pub truncate : Buffer → ℕ → Buffer
truncate b to = record b { end = b.start + to }

pub write : Buffer → List ℕ → Outcome (Reply × Buffer)
unfolding copy_into is_full
write b [] = returns (counts 0, b)
write b (x ∷ xs) = if is_full b then returns (fails Error.short_buffer, b) else (do
  (n, s) ← copy_into b.slice b.end b.capacity (x ∷ xs)
  returns (counts n, record b { slice = s; end = b.end + n }))

pub extend_header : Buffer → ℕ → Outcome (List ℕ × Buffer)
extend_header b n = if ltb b.start n then panics else (do
  header ← sub_slice b.slice (b.start - n) b.start
  returns (header, record b { start = b.start - n }))

pub write_byte : Buffer → ℕ → Outcome (Reply × Buffer)
unfolding store is_full
write_byte b d =
    if is_full b
    then returns (fails Error.short_buffer, b)
    else (do s ← store b.slice b.end d; returns (counts 0, record b { slice = s; end = b.end + 1 }))

-- `byte(s)` keeps the low eight bits of the rune.
pub write_rune : Buffer → ℕ → Outcome (Reply × Buffer)
unfolding write
write_rune b s = write b (s % 256 ∷ [])

-- The argument is the string's bytes.
pub write_string : Buffer → List ℕ → Outcome (Reply × Buffer)
unfolding copy_into is_full
write_string b [] = returns (counts 0, b)
write_string b (x ∷ xs) = if is_full b then returns (fails Error.short_buffer, b) else (do
  (n, s) ← copy_into b.slice b.end b.capacity (x ∷ xs)
  returns (counts n, record b { slice = s; end = b.end + n }))

pub write_zero : Buffer → Outcome (Reply × Buffer)
unfolding store is_full
write_zero b =
    if is_full b
    then returns (fails Error.short_buffer, b)
    else (do s ← store b.slice b.end 0; returns (counts 0, record b { slice = s; end = b.end + 1 }))

pub read_byte : Buffer → Outcome (Reply × Buffer)
unfolding load is_empty
read_byte b = if is_empty b then returns (fails Error.eof, b) else (do
  nb ← load b.slice b.start
  returns (yields (nb ∷ []), record b { start = b.start + 1 }))

pub read_bytes : Buffer → ℕ → Outcome (Reply × Buffer)
unfolding sub_slice
read_bytes b n = if ltb b.end (b.start + n) then returns (fails Error.eof, b) else (do
  nb ← sub_slice b.slice b.start (b.start + n)
  returns (yields nb, record b { start = b.start + n }))

-- `Read` into a slice of `room` bytes; the bytes of the reply are what it copies.
pub read : Buffer → ℕ → Outcome (Reply × Buffer)
unfolding sub_slice is_empty
read b room = if is_empty b then returns (fails Error.eof, b) else (do
  bs ← sub_slice b.slice b.start b.end
  let n = min room (length bs)
  returns (yields (take n bs), record b { start = b.start + n }))

pub resize : Buffer → ℕ → ℕ → Buffer
resize b start end = record b { start = start; end = start + end }

pub reserve : Buffer → ℕ → Outcome Buffer
reserve b n = if ltb b.capacity n then panics else returns (record b { capacity = b.capacity - n })

pub over_cap : Buffer → ℕ → Outcome Buffer
over_cap b n =
    if ltb b.slice.len (b.capacity + n)
    then panics
    else returns (record b { capacity = b.capacity + n })

pub reset : Buffer → Buffer
reset b = record b { start = 0; end = 0; capacity = b.slice.len }

pub full_reset : Buffer → Buffer
unfolding reset
full_reset b = reset b

-- `Start`, `Cap` and `RawCap`
abbrev pub start_of : Buffer → ℕ
start_of b = b.start

abbrev pub cap : Buffer → ℕ
cap b = b.capacity

abbrev pub raw_cap : Buffer → ℕ
raw_cap b = b.slice.len

unfoldable pub len : Buffer → ℤ
len b = sub_ℕ b.end b.start

pub free_len : Buffer → ℤ
free_len b = sub_ℕ b.capacity b.end

unfoldable pub bytes : Buffer → Outcome (List ℕ)
bytes b = sub_slice b.slice b.start b.end

pub from : Buffer → ℕ → Outcome (List ℕ)
from b n = sub_slice b.slice (b.start + n) b.end

pub to : Buffer → ℕ → Outcome (List ℕ)
to b n = sub_slice b.slice b.start (b.start + n)

pub range : Buffer → ℕ → ℕ → Outcome (List ℕ)
range b start end = sub_slice b.slice (b.start + start) (b.start + end)

pub index : Buffer → ℕ → Outcome (List ℕ)
index b start = sub_slice b.slice (b.start + start) (b.start + start)

unfoldable pub free_bytes : Buffer → Outcome (List ℕ)
free_bytes b = sub_slice b.slice b.end b.capacity
