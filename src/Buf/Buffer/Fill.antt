-- ===== src/Buf/Buffer/Fill.antt =====
-- common/buf/buffer.go: the methods that fill the buffer.
use cropstun.Base.{
  ℕ, suc, ◌+◌, ◌-◌, ◌≤◌, ◌<◌, ◌≡◌, refl, sym, ap, ap₂, true, false, List, [], ◌∷◌, ◌++◌, inl, inr,
  length, set, take, overwrite, length-overwrite, length-take, window-overwrite, set-eq-overwrite,
  min, ◌==◌, Bool-cases, arith,
}
use cropstun.Base.Go.{returns, Returns}
use cropstun.Buf.Buffer.{
  Buffer, Reply, counts, write, write_string, write_byte, write_zero, copy_into, store,
}
use cropstun.Buf.Buffer.Valid.{IsValid, contents, view}
use cropstun.Buf.Queue.{Channel, put_bytes, put_byte}

-- The buffer still owns its array.
pub record Kept (b b' : Buffer) : Type 0 where
  pub stored : length b'.slice.backing ≡ length b.slice.backing
  pub owned : b'.managed ≡ b.managed
  pub counted : b'.refs ≡ b.refs

-- The call's outcome is the queue's, on a buffer that is valid and has kept its array.
abbrev pub Refined : Buffer → Reply × Channel → Reply × Buffer → Type 0
Refined b spec (r, b') = IsValid b' × (spec ≡ (r, view b')) × Kept b b'

pub copy_into-valid :
    (b : Buffer) (src : List ℕ)
    → IsValid b
    → copy_into b.slice b.end b.capacity src
      ≡ returns (
        min (b.capacity - b.end) (length src),
        record b.slice {
          backing = overwrite b.slice.backing b.end (take (b.capacity - b.end) src);
        },
      )
unfolding copy_into
copy_into-valid b src v = ground arith

-- Bytes written at the end join the queue at its back.
pub append_view :
    (b : Buffer) (src : List ℕ) (n : ℕ) (array : List ℕ)
    → IsValid b
    → n ≡ length src
    → n ≤ b.capacity - b.end
    → array ≡ overwrite b.slice.backing b.end src
    → let b' = record b { slice = record b.slice { backing = array }; end = b.end + n } in
      IsValid b'
      × (view b' ≡ record { queue = contents b ++ src; room = b.capacity - b.end - n })
      × Kept b b'
append_view b src n array v e h w = rw w (
  omega (arith, size),
  ap₂ pair (rw e (window-overwrite b.start b.end b.slice.backing src v.ordered (omega arith))) room,
  record { stored = size; owned = refl; counted = refl },
)
  where
    size : length (overwrite b.slice.backing b.end src) ≡ length b.slice.backing
    size = length-overwrite b.slice.backing b.end src

    pair : List ℕ → ℕ → Channel
    pair q r = record { queue = q; room = r }

    room : b.capacity - (b.end + n) ≡ b.capacity - b.end - n
    room = omega arith

pub write_lem :
    (b : Buffer) (src : List ℕ)
    → IsValid b
    → Returns (Refined b (put_bytes (view b) src)) (write b src)
unfolding put_bytes write
write_lem b [] v = (v, refl, record { stored = refl; owned = refl; counted = refl })
write_lem b (x ∷ xs) v = elim (Bool-cases (b.end == b.capacity)) [
  | inl e ↦
      let e' : (b.capacity - b.end == 0) ≡ true = ground arith in
      rw (e, e') (v, refl, record { stored = refl; owned = refl; counted = refl })
  | inr e ↦
      let e' : (b.capacity - b.end == 0) ≡ false = ground arith in
      let a =
        append_view b (take (b.capacity - b.end) (x ∷ xs)) _ _ v
          (sym (length-take (b.capacity - b.end) (x ∷ xs))) (omega arith) refl in
      rw (e, e', copy_into-valid b (x ∷ xs) v)
        (a.0, ap (λ c. (counts (min (b.capacity - b.end) (suc (length xs))), c)) (sym a.1), a.2)
]

pub write_string-eq-write : (b : Buffer) (src : List ℕ) → write_string b src ≡ write b src
unfolding write write_string
write_string-eq-write b [] = refl
write_string-eq-write b (x ∷ xs) = refl

store-valid :
    (b : Buffer) (d : ℕ)
    → IsValid b
    → b.end < b.capacity
    → store b.slice b.end d ≡ returns (record b.slice { backing = set b.slice.backing b.end d })
unfolding store
store-valid b d v h = ground arith

pub write_byte_lem :
    (b : Buffer) (d : ℕ) → IsValid b → Returns (Refined b (put_byte (view b) d)) (write_byte b d)
unfolding put_byte write_byte
write_byte_lem b d v = elim (Bool-cases (b.end == b.capacity)) [
  | inl e ↦
      let e' : (b.capacity - b.end == 0) ≡ true = ground arith in
      rw (e, e') (v, refl, record { stored = refl; owned = refl; counted = refl })
  | inr e ↦
      let e' : (b.capacity - b.end == 0) ≡ false = ground arith in
      let h : b.end < b.capacity = ground arith in
      let a =
        append_view b (d ∷ []) 1 _ v refl (omega arith)
          (set-eq-overwrite b.slice.backing b.end d) in
      rw (e, e', store-valid b d v h) (a.0, ap (λ c. (counts 0, c)) (sym a.1), a.2)
]

pub write_zero-eq-write_byte : (b : Buffer) → write_zero b ≡ write_byte b 0
unfolding write_zero write_byte
write_zero-eq-write_byte b = refl
