-- ===== src/Buf/Owner.antt =====
-- common/buf: where a buffer's array comes from and goes to (the constructors, `Release` and
-- `ToOwned` of buffer.go, pool.go), lists of buffers (multi.go), and common/cond.go.
pub mod Lifecycle
pub mod Negative
pub mod Copies
pub mod Multi
use cropstun.Base.{
  ℕ, ◌+◌, ◌-◌, ◌*◌, Bool, true, false, not, List, [], ◌∷◌, ◌++◌, Option, none, some, length, ltb,
  ◌==◌, if◌then◌else◌,
}
use cropstun.Base.Int.{ℤ, pos, negsuc, ◌+ℤ◌, ltb_ℤ}
use cropstun.Base.Go.{Error, Outcome, returns, panics, ◌>>=◌, ◌>>◌}
use cropstun.Buf.Alloc.{Slice, nil_slice, make, Allocator, get, put}
use cropstun.Buf.Buffer.{Buffer, sub_slice, copy_into, len, bytes}

-- pool.go's `Get`
pub pool_get : Allocator → ℤ → Outcome (Slice × Allocator)
pool_get alloc (pos size) = if size == 0 then returns (nil_slice, alloc) else get alloc (pos size)
pool_get alloc (negsuc n) = get alloc (negsuc n)

-- pool.go's `Put`
pub pool_put : Allocator → Slice → Outcome (Option Error × Allocator)
pool_put alloc s = put alloc s

-- `Buffer{}`
abbrev pub zero_buffer : Buffer
zero_buffer = record {
  slice = nil_slice;
  start = 0;
  end = 0;
  capacity = 0;
  refs = pos 0;
  managed = false;
}

abbrev pub buffer_size : ℕ
buffer_size = 32 * 1024

abbrev pub udp_buffer_size : ℕ
udp_buffer_size = 16 * 1024

-- A buffer over an array that the allocator hands out.
pub pooled : Allocator → ℕ → Outcome (Buffer × Allocator)
unfolding pool_get
pooled alloc size = do
  (s, alloc') ← pool_get alloc (pos size)
  returns (record zero_buffer { slice = s; capacity = size; managed = true }, alloc')

pub new : Allocator → Outcome (Buffer × Allocator)
unfolding pooled
new alloc = pooled alloc buffer_size

pub new_packet : Allocator → Outcome (Buffer × Allocator)
unfolding pooled
new_packet alloc = pooled alloc udp_buffer_size

-- `NewSize` for a size that is not negative.
pub new_buffer : Allocator → ℕ → Outcome (Buffer × Allocator)
new_buffer alloc size =
    if size == 0
    then returns (zero_buffer, alloc)
    else (if ltb 65535 size
        then returns (record zero_buffer { slice = make size; capacity = size }, alloc)
        else pooled alloc size)

-- What `NewSize` yields: a buffer, or for a size of -1 - n the managed one over this slice whose
-- capacity is that negative number and whose other fields are zero.
pub data Sized : Type 0 where
  buffer : Buffer → Sized
  negative : Slice → ℕ → Sized

-- `NewSize`
pub new_size : Allocator → ℤ → Outcome (Sized × Allocator)
unfolding new_buffer pool_get
new_size alloc (pos size) = do (b, alloc') ← new_buffer alloc size; returns (Sized.buffer b, alloc')
new_size alloc (negsuc n) = do
  (s, alloc') ← pool_get alloc (negsuc n)
  returns (Sized.negative s n, alloc')

-- `As`
pub as_full : Slice → Buffer
as_full s = record zero_buffer { slice = s; end = s.len; capacity = s.len }

-- `With`
pub with_free : Slice → Buffer
with_free s = record zero_buffer { slice = s; capacity = s.len }

pub inc_ref : Buffer → Buffer
inc_ref b = record b { refs = b.refs +ℤ pos 1 }

pub dec_ref : Buffer → Buffer
dec_ref b = record b { refs = b.refs +ℤ negsuc 0 }

-- `common.Must`
pub must : List (Option Error) → Outcome (Unit {0})
must [] = returns tt
must (none ∷ errs) = must errs
must (some e ∷ errs) = panics

-- `Release` on a buffer; on a nil pointer it does nothing.
pub release : Allocator → Buffer → Outcome (Buffer × Allocator)
unfolding must
release alloc b =
    if not b.managed
    then returns (b, alloc)
    else (if ltb_ℤ (pos 0) b.refs
        then returns (b, alloc)
        else (do (e, alloc') ← put alloc b.slice; must (e ∷ []); returns (zero_buffer, alloc')))

-- `Release` on what `NewSize` yields.
pub release_sized : Allocator → Sized → Outcome (Sized × Allocator)
unfolding release must
release_sized alloc (Sized.buffer b) = do
  (b', alloc') ← release alloc b
  returns (Sized.buffer b', alloc')
release_sized alloc (Sized.negative s n) = do
  (e, alloc') ← put alloc s
  must (e ∷ [])
  returns (Sized.buffer zero_buffer, alloc')

pub leak : Allocator → Buffer → Outcome (Buffer × Allocator)
unfolding release
leak alloc b = release alloc b

-- `copy(n.data[b.start:b.end], b.data[b.start:b.end])`, then the positions.
pub to_owned : Allocator → Buffer → Outcome (Buffer × Allocator)
to_owned alloc b = do
  (n, alloc') ← new_buffer alloc b.slice.len
  bs ← sub_slice b.slice b.start b.end
  (_, s) ← copy_into n.slice b.start b.end bs
  returns (record n { slice = s; start = b.start; end = b.end; capacity = b.capacity }, alloc')

-- `LenMulti`
pub len_multi : List Buffer → ℤ
len_multi [] = pos 0
len_multi (b ∷ bs) = len b +ℤ len_multi bs

-- `ToSliceMulti`, by `common.Map`
pub to_slice_multi : List Buffer → Outcome (List (List ℕ))
to_slice_multi [] = returns []
to_slice_multi (b ∷ bs) = do s ← bytes b; ss ← to_slice_multi bs; returns (s ∷ ss)

-- `ReleaseMulti`
pub release_multi : Allocator → List Buffer → Outcome (List Buffer × Allocator)
release_multi alloc [] = returns ([], alloc)
release_multi alloc (b ∷ bs) = do
  (b', alloc') ← release alloc b
  (bs', alloc'') ← release_multi alloc' bs
  returns (b' ∷ bs', alloc'')
