-- ===== src/Buf/Owner/Lifecycle.antt =====
-- From `NewSize` through any calls to `Release`.
use cropstun.Base.{
  ℕ, ◌≤◌, ◌<◌, ◌≡◌, refl, sym, ap, ◌∙◌, ◌⊎◌, inl, inr, true, false, List, [], length,
  length-replicate, arith, ltb, ◌==◌, Bool-cases, false≢true, dec_lt, ℕ_discrete,
}
use cropstun.Base.Int.{pos}
use cropstun.Base.Go.{Outcome, returns, Returns, Returns-bind, ◌>>=◌}
use cropstun.Buf.Alloc.{Slice, Allocator, get}
use cropstun.Buf.Alloc.Stored.{IsStocked, Poolable, Served, get-Served, put-Poolable}
use cropstun.Buf.Buffer.{Buffer, Reply}
use cropstun.Buf.Buffer.Valid.{IsValid, view}
use cropstun.Buf.Buffer.Fill.{Kept}
use cropstun.Buf.Buffer.Refine.{Agrees, run, run_queue, run_refines}
use cropstun.Buf.Queue.{Channel, Op}
use cropstun.Buf.Owner.{zero_buffer, pooled, new_buffer, release}

-- A buffer that is to be given back has an array which a pool serves.
abbrev pub IsOwned : Buffer → Type 0
IsOwned b = (b.managed ≡ false) ⊎ Poolable (length b.slice.backing)

abbrev pub empty_channel : ℕ → Channel
empty_channel room = record { queue = []; room = room }

-- A new buffer of a size.
pub record Fresh (size : ℕ) (b : Buffer) : Type 0 where
  pub valid : IsValid b
  pub owned : IsOwned b
  pub empty : view b ≡ empty_channel size
  pub unshared : b.refs ≡ pos 0
  pub pooled_size : (b.managed ≡ true) ⊎ (size ≡ 0) ⊎ (65535 < size)

abbrev pub FreshStocked : ℕ → Buffer × Allocator → Type 0
FreshStocked size (b, alloc) = Fresh size b × IsStocked alloc

pooled-Fresh :
    (alloc : Allocator) (size : ℕ)
    → IsStocked alloc
    → 0 < size
    → size ≤ 65535
    → Returns (FreshStocked size) (pooled alloc size)
unfolding pooled
pooled-Fresh alloc size v h k =
    let g : (size == 0) ≡ false = ground arith in
    rw g (
      Returns-bind (Served size) (FreshStocked size) (get alloc (pos size)) _
        (get-Served alloc size v h (omega arith))
        (λ (s, alloc') served. (fresh s alloc' served, served.4)))
  where
    fresh :
        (s : Slice) (alloc' : Allocator)
        → Served size (s, alloc')
        → Fresh size (record zero_buffer { slice = s; capacity = size; managed = true })
    fresh s alloc' served = record {
      valid = omega (arith, served.0, served.2.1, served.3);
      owned = inr served.1;
      empty = ap empty_channel (omega arith);
      unshared = refl;
      pooled_size = inl refl;
    }

-- Any size yields a valid, empty buffer with room for just that many bytes; a managed one has an
-- array that a pool serves.
pub new_buffer-Fresh :
    (alloc : Allocator) (size : ℕ)
    → IsStocked alloc
    → Returns (FreshStocked size) (new_buffer alloc size)
unfolding new_buffer
new_buffer-Fresh alloc size v = elim (ℕ_discrete size 0) [
  | yes z ↦
      let g : (size == 0) ≡ true = ground arith in
      rw g (
        record {
          valid = omega arith;
          owned = inl refl;
          empty = ap empty_channel (sym z);
          unshared = refl;
          pooled_size = inr (inl z);
        },
        v,
      )
  | no nz ↦ elim (dec_lt 65535 size) [
    | yes big ↦
        let g : (size == 0) ≡ false = ground arith in
        let g' : ltb 65535 size ≡ true = ground arith in
        rw (g, g')
          (
            record {
              valid = omega (arith, length-replicate {A = ℕ} size 0);
              owned = inl refl;
              empty = ap empty_channel (omega arith);
              unshared = refl;
              pooled_size = inr (inr big);
            },
            v,
          )
    | no small ↦
        let g : (size == 0) ≡ false = ground arith in
        let g' : ltb 65535 size ≡ false = ground arith in
        rw (g, g') (pooled-Fresh alloc size v (omega arith) (omega arith))
  ]
]

managed-Poolable : (b : Buffer) → IsOwned b → b.managed ≡ true → Poolable (length b.slice.backing)
managed-Poolable b (inl u) m = absurd (false≢true (sym u ∙ m))
managed-Poolable b (inr p) m = p

abbrev pub Gone : Buffer → Buffer × Allocator → Type 0
Gone b (b', alloc) =
    IsStocked alloc × ((b.managed ≡ true) × (b' ≡ zero_buffer) ⊎ (b.managed ≡ false) × (b' ≡ b))

-- `Release` of an owned buffer with no references left does not panic: it gives a managed array
-- back and leaves the zero buffer, and does nothing to another.
pub release-Gone :
    (alloc : Allocator) (b : Buffer)
    → IsStocked alloc
    → IsOwned b
    → b.refs ≡ pos 0
    → Returns (Gone b) (release alloc b)
unfolding release
release-Gone alloc b v o r = elim (Bool-cases b.managed) [
  | inr e ↦ rw e (v, inr (refl, refl))
  | inl e ↦
      let (index, h, c) = managed-Poolable b o e in
      let (alloc', p, _, v') = put-Poolable alloc b.slice index v h c in
      rw (e, r, p) (v', inl (refl, refl))
]

-- `NewSize`, any calls, `Release`, `Release` again.
pub session : Allocator → ℕ → List Op → Outcome (List Reply × Buffer × Buffer × Allocator)
session alloc size ops = do
  (b, stocked) ← new_buffer alloc size
  (rs, used) ← run b ops
  (gone, given) ← release stocked used
  (again, left) ← release given gone
  returns (rs, gone, again, left)

abbrev pub Ends : ℕ → List Op → List Reply × Buffer × Buffer × Allocator → Type 0
Ends size ops (rs, gone, again, left) =
    (rs ≡ (run_queue (empty_channel size) ops).0)
    × ((gone ≡ zero_buffer) ⊎ (size ≡ 0) ⊎ (65535 < size))
    × (again ≡ gone)
    × IsStocked left

-- A released buffer is not owned any more.
pub Gone-managed : (b : Buffer) (r : Buffer × Allocator) → Gone b r → r.0.managed ≡ false
Gone-managed b r (v, inl (m, e)) = rw e refl
Gone-managed b r (v, inr (m, e)) = rw e m

Gone-zero : (b : Buffer) (r : Buffer × Allocator) → Gone b r → b.managed ≡ true → r.0 ≡ zero_buffer
Gone-zero b r (v, inl (m, e)) h = e
Gone-zero b r (v, inr (m, e)) h = absurd (false≢true (sym m ∙ h))

release_unmanaged :
    (alloc : Allocator) (b : Buffer) → b.managed ≡ false → release alloc b ≡ returns (b, alloc)
unfolding release
release_unmanaged alloc b e = rw e

Kept-IsOwned : (b b' : Buffer) → Kept b b' → IsOwned b → IsOwned b'
Kept-IsOwned b b' k (inl u) = inl (k.owned ∙ u)
Kept-IsOwned b b' k (inr p) = inr (rw k.stored p)

zero_or_unpooled :
    {P : Type 0} {size : ℕ} (b : Buffer)
    → (b.managed ≡ true) ⊎ (size ≡ 0) ⊎ (65535 < size)
    → (b.managed ≡ true → P)
    → P ⊎ (size ≡ 0) ⊎ (65535 < size)
zero_or_unpooled b (inl m) k = inl (k m)
zero_or_unpooled b (inr u) k = inr u

-- The life of a buffer of a size that is not negative, over pools in any stocked state: `NewSize`, any
-- sequence of `Write`, `WriteString`, `WriteByte`, `WriteRune`, `WriteZero`, `Read`, `ReadByte` and
-- `ReadBytes` (of a number that is not negative), `Release`, and `Release` again. Nothing panics;
-- every reply is that of an empty queue with room for `size` bytes; a size from 1 to 65535 ends as
-- the zero buffer; releasing a second time changes nothing; the pools end stocked.
pub session_lem :
    (alloc : Allocator) (size : ℕ) (ops : List Op)
    → IsStocked alloc
    → Returns (Ends size ops) (session alloc size ops)
unfolding session
session_lem alloc size ops v =
    Returns-bind (FreshStocked size) (Ends size ops) (new_buffer alloc size) _
      (new_buffer-Fresh alloc size v)
      λ (b, stocked) (f, v').
        Returns-bind (Agrees b ops) (Ends size ops) (run b ops) _ (run_refines b ops f.valid)
          λ (rs, used) (_, q, k).
            Returns-bind (Gone used) (Ends size ops) (release stocked used) _
              (release-Gone stocked used v' (Kept-IsOwned b used k f.owned)
                (k.counted ∙ f.unshared))
              λ (gone, given) g.
                rw (release_unmanaged given gone (Gone-managed used (gone, given) g)) (
                  sym (ap (λ r. r.0) (rw f.empty at q)),
                  zero_or_unpooled b f.pooled_size
                      λ m. Gone-zero used (gone, given) g (k.owned ∙ m),
                  refl,
                  g.0,
                )
