-- ===== src/Bufio/Vectorised.antt =====
-- common/bufio/vectorised.go and `CopyMulti` of common/buf/multi.go: the choice of a writer, and the
-- writers over a writer of bytes.
use cropstun.Base.{
  ℕ, zero, suc, ◌+◌, ◌-◌, Bool, List, [], ◌∷◌, Option, none, some, length, overwrite, min,
  replicate, ltb, if◌then◌else◌,
}
use cropstun.Base.Int.{ℤ, pos, negsuc}
use cropstun.Base.Go.{Error, Outcome, returns, panics, ◌>>=◌}
use cropstun.Buf.Alloc.{Slice, Allocator}
use cropstun.Buf.Buffer.{Buffer, bytes, free_bytes}
use cropstun.Buf.Owner.{new_buffer, as_full, release, len_multi, to_slice_multi, release_multi}

-- What the type of a value says of it; `syscall_conn` holds whether `SyscallConn` succeeds.
pub data WriterType : Type 0 where
  vectorised tcp_conn udp_conn ip_conn unix_conn : WriterType
  syscall_conn : Bool → WriterType
  raw_conn other : WriterType

-- The writer that is made: the value itself, or one around it.
pub data Made : Type 0 where
  itself net_wrapper syscall_writer : Made

-- `CreateVectorisedWriter`; `none` is `false`.
unfoldable pub create_vectorised_writer : WriterType → Option Made
create_vectorised_writer WriterType.vectorised = some Made.itself
create_vectorised_writer WriterType.tcp_conn = some Made.net_wrapper
create_vectorised_writer WriterType.udp_conn = some Made.net_wrapper
create_vectorised_writer WriterType.ip_conn = some Made.net_wrapper
create_vectorised_writer WriterType.unix_conn = some Made.net_wrapper
create_vectorised_writer (WriterType.syscall_conn works) =
    if works then some Made.syscall_writer else none
create_vectorised_writer WriterType.raw_conn = some Made.syscall_writer
create_vectorised_writer WriterType.other = none

-- `CopyMulti`, from the position `n` on: the position behind what was copied, and the bytes.
unfoldable pub copy_multi : List ℕ → ℕ → List Buffer → Outcome (ℕ × List ℕ)
copy_multi to_buffer n [] = returns (n, to_buffer)
copy_multi to_buffer n (b ∷ bs) = do
  s ← bytes b
  copy_multi (overwrite to_buffer n s) (n + min (length s) (length to_buffer - n)) bs

-- The bytes of the buffers, and the buffer that they were gathered in, if it is not too large.
unfoldable pub gather_multi :
    Allocator → ℕ → List Buffer → Outcome (List ℕ × Option Buffer × Allocator)
unfolding copy_multi
gather_multi alloc n bs =
    if ltb 65535 n
    then (do (_, s) ← copy_multi (replicate n 0) 0 bs; returns (s, none, alloc))
    else (do
      (b, alloc') ← new_buffer alloc n
      free ← free_bytes b
      (_, s) ← copy_multi free 0 bs
      let used : Buffer = record b {
        slice = record b.slice { backing = overwrite b.slice.backing b.end s };
      }
      returns (s, some used, alloc'))

abbrev pub release_option : Allocator → Option Buffer → Outcome Allocator
release_option alloc none = returns alloc
release_option alloc (some b) = do (_, alloc') ← release alloc b; returns alloc'

-- The results of a writer: the error, its buffers afterwards, the state of what it writes to, and
-- the pools.
abbrev pub Written : Type 0 → Type 0
Written K = Option Error × List Buffer × K × Allocator

-- The loop of the function `WriteVectorised`.
abbrev pub as_multi : List Slice → List Buffer
as_multi [] = []
as_multi (p ∷ ps) = as_full p ∷ as_multi ps

abbrev pub data_len : List Slice → ℕ
data_len [] = 0
data_len (p ∷ ps) = p.len + data_len ps

module _ {K : Type 0} where
  -- Behind the write, the deferred calls.
  abbrev pub give_back : Allocator → List Buffer → (ℕ × Option Error) × K → Outcome (Written K)
  give_back alloc bs ((_, e), k) = do
    (bs', alloc') ← release_multi alloc bs
    returns (e, bs', k, alloc')

  module _ (write : K → List ℕ → (ℕ × Option Error) × K) where
    unfoldable pub write_gathered : Allocator → K → List Buffer → Outcome (Written K)
    unfolding gather_multi
    write_gathered alloc k bs = elim (len_multi bs) [
      | negsuc n ↦ panics
      | pos n ↦ do
        (s, own, alloc1) ← gather_multi alloc n bs
        alloc2 ← release_option alloc1 own
        give_back alloc2 bs (write k s)
    ]

    unfoldable pub write_several : Allocator → K → List Buffer → Outcome (Written K)
    unfolding write_gathered
    write_several alloc k [] = write_gathered alloc k []
    write_several alloc k (b ∷ []) = do s ← bytes b; give_back alloc (b ∷ []) (write k s)
    write_several alloc k (b ∷ c ∷ bs) = write_gathered alloc k (b ∷ c ∷ bs)

    -- Where the total length decides.
    unfoldable pub write_by_len : Allocator → K → List Buffer → ℤ → Outcome (Written K)
    unfolding write_several
    write_by_len alloc k bs (pos zero) = give_back alloc bs (write k [])
    write_by_len alloc k bs (pos (suc n)) = write_several alloc k bs
    write_by_len alloc k bs (negsuc n) = write_several alloc k bs

    -- `WriteVectorised` of `BufferedVectorisedWriter`, whose upstream is `write`.
    unfoldable pub buffered_write_vectorised : Allocator → K → List Buffer → Outcome (Written K)
    unfolding write_by_len
    buffered_write_vectorised alloc k bs = write_by_len alloc k bs (len_multi bs)

  -- `WriteVectorised` of `NetVectorisedWriterWrapper`; `write_to` is `net.Buffers.WriteTo`.
  unfoldable pub net_write_vectorised :
      (K → List (List ℕ) → (ℕ × Option Error) × K)
      → Allocator
      → K
      → List Buffer
      → Outcome (Written K)
  net_write_vectorised write_to alloc k bs = do
    ss ← to_slice_multi bs
    give_back alloc bs (write_to k ss)

  -- The function `WriteVectorised`, over a writer's method: the length of the data if that succeeds.
  abbrev pub count : ℕ → Written K → (ℕ × Option Error) × K × Allocator
  count n (none, bs, k, alloc) = ((n, none), k, alloc)
  count n (some e, bs, k, alloc) = ((0, some e), k, alloc)

  unfoldable pub write_vectorised :
      (Allocator → K → List Buffer → Outcome (Written K))
      → Allocator
      → K
      → List Slice
      → Outcome ((ℕ × Option Error) × K × Allocator)
  write_vectorised method alloc k slices =
      method alloc k (as_multi slices) >>= λ w. returns (count (data_len slices) w)
