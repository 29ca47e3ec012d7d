-- ===== src/Bufio/Syscall.antt =====
-- common/bufio/vectorised_unix.go and vectorised_windows.go: the writer by one system call. The
-- writer's lock is held through a call, so calls are modelled one at a time.
pub mod Sent
use cropstun.Base.{
  ℕ, zero, suc, ◌%◌, ◌^◌, Bool, true, false, ◌||◌, List, [], ◌∷◌, Option, none, some, length, map,
  ◌==◌, if◌then◌else◌,
}
use cropstun.Base.Go.{Error, Outcome, returns, panics, ◌>>=◌}
use cropstun.Buf.Alloc.{Allocator}
use cropstun.Buf.Buffer.{Buffer, bytes}
use cropstun.Bufio.Vectorised.{Written, give_back}

-- An entry of the list for the call: cleared, or the bytes that it points to.
pub data Iovec : Type 0 where
  cleared : Iovec
  points : List ℕ → Iovec

-- The field `iovecList`, behind its pointer.
pub record SyscallVectorisedWriter : Type 0 where
  pub iovec_list : Option (List Iovec)

-- What the connection does: `prepare` and `wait` of `rawConn.Write`, before the first call of its
-- function and between two, and the system call, with the error's number (0 for none).
pub record Conn (K : Type 0) : Type 0 where
  pub prepare : K → Option Error × K
  pub wait : K → Option Error × K
  pub writev : K → List Iovec → ℕ × K

-- `&buffer.Bytes()[0]`
abbrev pub iovec : List ℕ → Outcome Iovec
iovec [] = panics
iovec (b ∷ bs) = returns (Iovec.points (b ∷ bs))

-- The loop over the buffers.
unfoldable pub iovecs : List Buffer → Outcome (List Iovec)
iovecs [] = returns []
iovecs (b ∷ bs) = do s ← bytes b; v ← iovec s; vs ← iovecs bs; returns (v ∷ vs)

-- How `rawConn.Write` ends: `innerErr`, and its own error.
abbrev pub Ended : Type 0 → Type 0
Ended K = (ℕ × Option Error) × K

module _ {K : Type 0} (conn : Conn K) where
  -- The calls of the function, for a number that is tried again; `none`: not within the fuel.
  unfoldable pub retry : ℕ → (ℕ → Bool) → K → List Iovec → Option (Ended K)
  retry zero again k vs = none
  retry (suc fuel) again k vs =
      let (errno, k1) = conn.writev k vs in
      let (e, k2) = conn.wait k1 in
      let more = retry fuel again k2 vs in
      if again errno
      then (elim e [ some x ↦ some ((errno, some x), k2) | none ↦ more ])
      else some ((errno, none), k1)

  -- With no entry, `&iovecList[0]` panics.
  unfoldable pub raw_write : ℕ → (ℕ → Bool) → K → List Iovec → Outcome (Option (Ended K))
  unfolding retry
  raw_write fuel again k vs =
      let (e, k1) = conn.prepare k in
      elim e [
        | some x ↦ returns (some ((0, some x), k1))
        | none ↦ elim vs [ [] ↦ panics | v ∷ vs' ↦ returns (retry fuel again k1 (v ∷ vs')) ]
      ]

  abbrev pub error_of : ℕ × Option Error → Option Error
  error_of (errno, e) = if errno == 0 then e else some (Error.os errno)

  -- Behind the write: the list is cleared, and the buffers are released.
  abbrev pub finish :
      Allocator
      → List Buffer
      → List Iovec
      → Option (Ended K)
      → Outcome (Option (Written K × SyscallVectorisedWriter))
  finish alloc bs vs none = returns none
  finish alloc bs vs (some (r, k)) = do
    w ← give_back alloc bs ((0, error_of r), k)
    returns (some (w, record { iovec_list = some (map (λ v. Iovec.cleared) vs) }))

  -- `WriteVectorised`, for the numbers that mean to try again.
  unfoldable pub write_vectorised :
      (ℕ → Bool)
      → ℕ
      → Allocator
      → K
      → List Buffer
      → Outcome (Option (Written K × SyscallVectorisedWriter))
  unfolding iovecs raw_write
  write_vectorised again fuel alloc k bs = do
    vs ← iovecs bs
    r ← raw_write fuel again k vs
    finish alloc bs vs r

  -- `innerErr` is EAGAIN or EWOULDBLOCK, the same number on a system.
  unfoldable pub unix_write_vectorised :
      ℕ → ℕ → Allocator → K → List Buffer → Outcome (Option (Written K × SyscallVectorisedWriter))
  unfolding write_vectorised
  unix_write_vectorised eagain fuel alloc k bs =
      write_vectorised (λ errno. errno == eagain) fuel alloc k bs

  -- The same on Windows, by `WSASend`; the error is WSAEWOULDBLOCK.
  unfoldable pub windows_write_vectorised :
      ℕ → Allocator → K → List Buffer → Outcome (Option (Written K × SyscallVectorisedWriter))
  unfolding write_vectorised
  windows_write_vectorised fuel alloc k bs =
      write_vectorised (λ errno. errno == 10035) fuel alloc k bs
