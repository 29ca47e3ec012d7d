-- ===== src/Buf/Alloc/Stored.antt =====
-- What the pools hold after any sequence of `Get`s and `Put`s, and what both return.
use cropstun.Base.{
  ℕ, ◌+◌, ◌^◌, ◌≤◌, ◌<◌, ◌≡◌, refl, ap, inl, inr, ◌≢◌, true, false, not, ◌||◌, if◌then◌else◌, ◌∙◌,
  ◌%◌, List, [], ◌∷◌, none, some, All, length, length-replicate, arith, ltb, leb, ◌==◌, ==_iff,
  Bool-cases, ℕ_discrete, dec_lt, two_pow_pos, two_pow_mono, exponent_le,
}
use cropstun.Base.Int.{pos, negsuc}
use cropstun.Base.Go.{Error, returns, panics, Returns}
use cropstun.Buf.Alloc.{
  nil_slice, Slice, Allocator, class_size, class_index, at_index, pool_get, cut, get_class, get,
  put, msb,
}
use cropstun.Buf.Alloc.Classes.{Serves, class_index_lem, msb_bounds, msb-pow}

abbrev pub OfClass : ℕ → List ℕ → Type 0
OfClass index array = length array ≡ class_size index

-- Every pool holds arrays of its own size.
abbrev pub IsStocked : Allocator → Type 0
IsStocked alloc = (index : ℕ) → All (OfClass index) (alloc.buffers index)

-- The capacities that a pool serves.
abbrev pub Poolable : ℕ → Type 0
Poolable cap = (index : ℕ) × (index ≤ 10) × (cap ≡ class_size index)

pub at_index-IsStocked :
    (alloc : Allocator) (i : ℕ) (pool : List (List ℕ))
    → IsStocked alloc
    → All (OfClass i) pool
    → IsStocked (record { buffers = at_index alloc.buffers i pool })
at_index-IsStocked alloc i pool v p j = elim (Bool-cases (i == j)) [
  | inl e ↦ rw e (rw ((==_iff i j).0 e) at p)
  | inr e ↦ rw e (v j)
]

pool_get-OfClass :
    (i : ℕ) (pool : List (List ℕ))
    → All (OfClass i) pool
    → OfClass i (pool_get i pool).0 × All (OfClass i) (pool_get i pool).1
unfolding pool_get
pool_get-OfClass i [] v = (length-replicate (class_size i) 0, tt)
pool_get-OfClass i (a ∷ pool) v = v

le→leb : (a b : ℕ) → a ≤ b → leb a b ≡ true
le→leb a b h = ground arith

cut_lem :
    (i size : ℕ) (a : List ℕ)
    → OfClass i a
    → size ≤ class_size i
    → cut i size a ≡ returns (record { backing = a; len = size })
unfolding cut
cut_lem i size a e h = ground arith

abbrev pub Served : ℕ → Slice × Allocator → Type 0
Served size (s, alloc) =
    (s.len ≡ size)
    × Poolable (length s.backing)
    × Serves size (class_index size)
    × (length s.backing ≡ class_size (class_index size))
    × IsStocked alloc

-- The test at the top of `Put` lets every power of two up to 65536 through.
pow_guard :
    (cap k : ℕ) → k ≤ 16 → cap ≡ 2 ^ k → (cap == 0 || ltb 65536 cap || not (cap == 2 ^ k)) ≡ false
pow_guard cap k h e = ground (arith, two_pow_pos k, two_pow_mono k 16 h)

refused_guard :
    (cap : ℕ)
    → ((k : ℕ) → k ≤ 16 → cap ≢ 2 ^ k)
    → (cap == 0 || ltb 65536 cap || not (cap == 2 ^ msb cap)) ≡ true
refused_guard cap h = elim (dec_lt 65536 cap) [
  | yes big ↦ ground arith
  | no ok ↦ elim (ℕ_discrete cap 0) [
    | yes z ↦ ground arith
    | no nz ↦
        let b = msb_bounds cap (omega arith) (omega arith) in
        let le = exponent_le (msb cap) 16 (omega (arith, b)) in ground (arith, h (msb cap) le)
  ]
]

pub get_class-Served :
    (alloc : Allocator) (size : ℕ)
    → IsStocked alloc
    → Serves size (class_index size)
    → Returns (Served size) (get_class alloc (class_index size) size)
unfolding get_class
get_class-Served alloc size v s =
    let i = class_index size in
    let p = pool_get-OfClass i (alloc.buffers i) (v i) in
    rw (le→leb i 10 s.0, cut_lem i size _ p.0 s.1, get_class)
      (refl, (i, s.0, p.0), s, p.0, at_index-IsStocked alloc i _ v p.1)

-- A size from 1 to 65536 is served from any stock, without a panic: the slice shows that many bytes,
-- its capacity is that of the pool which the size belongs to (so it can be put back), at least the
-- size, and at most 64 bytes or less than double the size; the pools stay stocked.
pub get-Served :
    (alloc : Allocator) (size : ℕ)
    → IsStocked alloc
    → 0 < size
    → size ≤ 65536
    → Returns (Served size) (get alloc (pos size))
unfolding get
get-Served alloc size v h k =
    let guard : (size == 0 || ltb 65536 size) ≡ false = ground arith in
    rw (guard, get) (get_class-Served alloc size v (class_index_lem size h k))

put-pow :
    (alloc : Allocator) (s : Slice) (k : ℕ)
    → k ≤ 16
    → length s.backing ≡ 2 ^ k
    → put alloc s ≡ (
        if leb ((k + 65530) % 2 ^ 16) 10
        then returns (
          none,
          record {
            buffers =
                at_index alloc.buffers
                  ((k + 65530) % 2 ^ 16)
                  (s.backing ∷ alloc.buffers ((k + 65530) % 2 ^ 16));
          },
        )
        else panics)
unfolding put
put-pow alloc s k h e =
    let m = ap msb e ∙ msb-pow k (omega arith) in
    rw (m, put) (rw (pow_guard (length s.backing) k h e))

-- `Put` takes every array whose capacity belongs to a pool, puts it into that pool and no other,
-- and reports no error; a stocked allocator stays stocked.
pub put-Poolable :
    (alloc : Allocator) (s : Slice) (index : ℕ)
    → IsStocked alloc
    → index ≤ 10
    → length s.backing ≡ class_size index
    → (alloc' : Allocator) × (put alloc s ≡ returns (none, alloc'))
      × (alloc'.buffers ≡ at_index alloc.buffers index (s.backing ∷ alloc.buffers index))
      × IsStocked alloc'
put-Poolable alloc s index v h e =
    let same : (index + 6 + 65530) % 2 ^ 16 ≡ index = omega arith in
    (
      record { buffers = at_index alloc.buffers index (s.backing ∷ alloc.buffers index) },
      put-pow alloc s (index + 6) (omega arith) e ∙ rw (same, le→leb index 10 h),
      refl,
      at_index-IsStocked alloc index _ v (e, v index),
    )

-- A capacity that is no power of two up to 65536 is reported as an error, and nothing is stored.
put_refused :
    (alloc : Allocator) (s : Slice)
    → ((k : ℕ) → k ≤ 16 → length s.backing ≢ 2 ^ k)
    → put alloc s ≡ returns (some Error.incorrect_buffer_size, alloc)
unfolding put
put_refused alloc s h = rw (refused_guard (length s.backing) h)

-- A capacity of 1, 2, 4, 8, 16 or 32 bytes passes the test for a power of two and has no pool: the
-- index wraps round and `Put` panics instead of returning its error.
pub put_small_panics :
    (alloc : Allocator) (s : Slice) (k : ℕ)
    → k < 6
    → length s.backing ≡ 2 ^ k
    → put alloc s ≡ panics
put_small_panics alloc s k h e =
    let far : leb ((k + 65530) % 2 ^ 16) 10 ≡ false = ground arith in
    put-pow alloc s k (omega arith) e ∙ rw far

-- A negative size is not served, and a slice without an array is not taken.
pub get_negative : (alloc : Allocator) (n : ℕ) → get alloc (negsuc n) ≡ returns (nil_slice, alloc)
unfolding get
get_negative alloc n = refl

pub put_nil :
    (alloc : Allocator) → put alloc nil_slice ≡ returns (some Error.incorrect_buffer_size, alloc)
unfolding put
put_nil alloc = refl
