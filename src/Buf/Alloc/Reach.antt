-- ===== src/Buf/Alloc/Reach.antt =====
-- The allocator over time: takings, puttings back and the drops of the garbage collector.
use cropstun.Base.{
  ℕ, ◌+◌, ◌^◌, ◌≤◌, ◌≡◌, refl, ap, subst, inl, inr, false, not, ◌||◌, ◌%◌, List, ◌∷◌, Option,
  length, arith, ltb, leb, ◌==◌, Bool-cases,
}
use cropstun.Base.Int.{ℤ, pos, negsuc}
use cropstun.Base.Go.{Error, Outcome, returns, panics, Returns}
use cropstun.Buf.Alloc.{
  Slice, Allocator, new_default_allocator, class_size, at_index, get, put, msb,
}
use cropstun.Buf.Alloc.Classes.{class_index_lem, msb_bounds}
use cropstun.Buf.Alloc.Stored.{IsStocked, Served, at_index-IsStocked, get_class-Served}

-- What the program and the garbage collector do to the allocator: `sync.Pool` may drop an array.
pub data Step : Allocator → Allocator → Type 0 where
  gets :
      (alloc alloc' : Allocator) (size : ℤ) (s : Slice)
      → get alloc size ≡ returns (s, alloc')
      → Step alloc alloc'
  puts :
      (alloc alloc' : Allocator) (s : Slice) (e : Option Error)
      → put alloc s ≡ returns (e, alloc')
      → Step alloc alloc'
  drops :
      (alloc : Allocator) (index : ℕ) (array : List ℕ) (rest : List (List ℕ))
      → alloc.buffers index ≡ array ∷ rest
      → Step alloc (record { buffers = at_index alloc.buffers index rest })

pub data Reach : Allocator → Type 0 where
  start : Reach new_default_allocator
  next : {alloc alloc' : Allocator} → Reach alloc → Step alloc alloc' → Reach alloc'

-- Whatever the call returned, it left the pools stocked.
abbrev StocksAfter {ℓ} : {A : Type ℓ} → Outcome (A × Allocator) → Type 0
StocksAfter panics = Unit
StocksAfter (returns r) = IsStocked r.1

get-StocksAfter : (alloc : Allocator) (size : ℤ) → IsStocked alloc → StocksAfter (get alloc size)
unfolding get
get-StocksAfter alloc (negsuc n) v = v
get-StocksAfter alloc (pos size) v = elim (Bool-cases (size == 0 || ltb 65536 size)) [
  | inl e ↦ rw e v
  | inr e ↦ rw e (
      of_Served _
        (get_class-Served alloc size v (class_index_lem size (ground arith) (ground arith))))
]
  where
    of_Served : (o : Outcome (Slice × Allocator)) → Returns (Served size) o → StocksAfter o
    of_Served (returns r) h = h.4
    of_Served panics h = elim h [ ]

pooled_cap :
    (cap index : ℕ)
    → (cap == 0 || ltb 65536 cap || not (cap == 2 ^ msb cap)) ≡ false
    → index ≡ (msb cap + 65530) % 2 ^ 16
    → index ≤ 10
    → cap ≡ class_size index
pooled_cap cap index g i h =
    let b = msb_bounds cap (ground arith) (ground arith) in
    let e : index + 6 ≡ msb cap = omega (arith, b) in ground (arith, ap (λ n. 2 ^ n) e)

put-StocksAfter : (alloc : Allocator) (s : Slice) → IsStocked alloc → StocksAfter (put alloc s)
unfolding put
put-StocksAfter alloc s v =
    elim (Bool-cases (cap == 0 || ltb 65536 cap || not (cap == 2 ^ msb cap))) [
      | inl e ↦ rw e v
      | inr e ↦ rw e (elim (Bool-cases (leb index 10)) [
        | inl h ↦ rw h (
            at_index-IsStocked alloc index _ v
              (pooled_cap cap index e refl (ground arith), v index))
        | inr h ↦ rw h tt
      ])
    ]
  where
    cap : ℕ
    cap = length s.backing

    index : ℕ
    index = (msb cap + 65530) % 2 ^ 16

Step-IsStocked : {alloc alloc' : Allocator} → Step alloc alloc' → IsStocked alloc → IsStocked alloc'
Step-IsStocked (gets alloc alloc' size s e) v = subst StocksAfter e (get-StocksAfter alloc size v)
Step-IsStocked (puts alloc alloc' s r e) v = subst StocksAfter e (put-StocksAfter alloc s v)
Step-IsStocked (drops alloc index array rest e) v =
    at_index-IsStocked alloc index rest v (rw e at (v index)).1

-- The pools stay stocked whatever is taken, put back and dropped, in any order.
pub Reach-IsStocked : {alloc : Allocator} → Reach alloc → IsStocked alloc
Reach-IsStocked start index = tt
Reach-IsStocked (next r st) index = Step-IsStocked st (Reach-IsStocked r) index
