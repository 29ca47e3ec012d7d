-- ===== src/Buf/Alloc.antt =====
-- common/buf/alloc.go and pool.go: byte arrays in eleven pools, 64 bytes to 64 KiB.
pub mod Classes
pub mod Stored
pub mod Reach
use cropstun.Base.{
  ℕ, zero, suc, ◌+◌, ◌/◌, ◌%◌, ◌^◌, Bool, not, ◌||◌, List, [], ◌∷◌, Option, none, some, length,
  replicate, ltb, leb, ◌==◌, if◌then◌else◌,
}
use cropstun.Base.Int.{ℤ, pos, negsuc}
use cropstun.Base.Go.{Error, Outcome, returns, panics}

-- A `[]byte`: the array from its first byte up to its capacity, and how many bytes it shows.
pub record Slice : Type 0 where
  pub backing : List ℕ
  pub len : ℕ

abbrev pub nil_slice : Slice
nil_slice = record { backing = []; len = 0 }

-- `make([]byte, size)`
abbrev pub make : ℕ → Slice
make size = record { backing = replicate size 0; len = size }

-- `bits.Len32` for `rounds` = 32: the number of bits that a word needs.
unfoldable pub bit_len : ℕ → ℕ → ℕ
bit_len zero x = 0
bit_len (suc rounds) x = let rest = bit_len rounds (x / 2) in if x == 0 then 0 else suc rest

-- `uint16(bits.Len32(uint32(size)) - 1)`; -1 wraps to 65535.
unfoldable pub msb : ℕ → ℕ
msb size = (bit_len 32 (size % 2 ^ 32) + 65535) % 2 ^ 16

-- The `sync.Pool`s by index. Each holds the arrays that were put back and not yet handed out.
pub record Allocator : Type 0 where
  pub buffers : ℕ → List (List ℕ)

abbrev pub new_default_allocator : Allocator
new_default_allocator = record { buffers = λ _. [] }

abbrev pub class_size : ℕ → ℕ
class_size index = 2 ^ (index + 6)

-- `index` of `Get`, in `uint16` arithmetic.
unfoldable pub class_index : ℕ → ℕ
class_index size =
    if ltb 64 size
    then ((if size == 2 ^ msb size then msb size else (msb size + 1) % 2 ^ 16) + 65530) % 2 ^ 16
    else 0

-- A pool's new content at one index.
abbrev pub at_index : (ℕ → List (List ℕ)) → ℕ → List (List ℕ) → ℕ → List (List ℕ)
at_index pools i pool j = if i == j then pool else pools j

-- `sync.Pool.Get`: an array that was put back, or what `New` makes.
pub pool_get : ℕ → List (List ℕ) → List ℕ × List (List ℕ)
pool_get index [] = (replicate (class_size index) 0, [])
pool_get index (array ∷ rest) = (array, rest)

-- `buffer.(*[1 << k]byte)[:size]`: the array's type tells its length.
pub cut : ℕ → ℕ → List ℕ → Outcome Slice
cut index size array =
    if length array == class_size index
    then (if leb size (class_size index)
        then returns (record { backing = array; len = size })
        else panics)
    else panics

pub get_class : Allocator → ℕ → ℕ → Outcome (Slice × Allocator)
get_class alloc index size =
    if leb index 10
    then (let (array, rest) = pool_get index (alloc.buffers index) in
        elim (cut index size array) [
          | returns s ↦ returns (s, record { buffers = at_index alloc.buffers index rest })
          | panics ↦ panics
        ])
    else panics

-- `Get`. `nil` for a size that no pool serves.
pub get : Allocator → ℤ → Outcome (Slice × Allocator)
get alloc (negsuc n) = returns (nil_slice, alloc)
get alloc (pos size) =
    if size == 0 || ltb 65536 size
    then returns (nil_slice, alloc)
    else get_class alloc (class_index size) size

-- `Put`. The result is its `error`.
pub put : Allocator → Slice → Outcome (Option Error × Allocator)
put alloc s =
    let cap = length s.backing in
    let bits = msb cap in
    if cap == 0 || ltb 65536 cap || not (cap == 2 ^ bits)
    then returns (some Error.incorrect_buffer_size, alloc)
    else (let index = (bits + 65530) % 2 ^ 16 in
        if leb index 10
        then returns (
          none,
          record { buffers = at_index alloc.buffers index (s.backing ∷ alloc.buffers index) },
        )
        else panics)
