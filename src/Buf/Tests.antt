-- ===== src/Buf/Tests.antt =====
-- common/buf at concrete inputs.
use cropstun.Base.{
  ℕ, ap, ◌≤◌, ◌≡◌, refl, Bool, List, [], ◌∷◌, none, some, length-replicate, arith, zero, suc, ◌<◌,
  ◌++◌, Option, length,
}
use cropstun.Base.Int.{pos}
use cropstun.Base.Go.{Error, returns, panics, Returns, returned}
use cropstun.Buf.Alloc.{
  make, Slice, Allocator, new_default_allocator, get, put, at_index, msb, class_index, bit_len,
}
use cropstun.Buf.Alloc.Stored.{IsStocked, Served, get-Served, put-Poolable, put_small_panics}
use cropstun.Buf.Alloc.Reach.{start, next, gets, puts, drops, Reach, Reach-IsStocked}
use cropstun.Buf.Buffer.{Buffer}
use cropstun.Buf.Buffer.Valid.{IsValid}
use cropstun.Buf.Buffer.Refine.{Agrees, run, run_refines}
use cropstun.Buf.Queue.{Op}
use cropstun.Buf.Source.{Reader, fed, read_from, read_full_from}
use cropstun.Buf.Source.Full.{ReadFully, read_full_from-ReadFully}
use cropstun.Buf.Source.Stream.{Conforms, Ended, read_from-Ended}
use cropstun.Buf.Owner.{to_owned}
use cropstun.Buf.Owner.Lifecycle.{Ends, session, session_lem}
use cropstun.Buf.Owner.Copies.{Copied, to_owned_lem}

abbrev stock : Allocator
stock = new_default_allocator

-- Five bytes, of which two are written and not yet read, with room for one more before `capacity`.
abbrev part_full : Buffer
part_full = record {
  slice = record { backing = 1 ∷ 2 ∷ 3 ∷ 4 ∷ 5 ∷ []; len = 5 };
  start = 1;
  end = 3;
  capacity = 4;
  refs = pos 0;
  managed = Bool.false;
}

abbrev calls : List Op
calls = Op.reads_byte ∷ Op.writes (7 ∷ 8 ∷ []) ∷ Op.writes_zero ∷ Op.reads 9 ∷ Op.reads_byte ∷ []

msb_values : (msb 1 ≡ 0) × (msb 65 ≡ 6) × (msb 65536 ≡ 16) × (msb 0 ≡ 65535)
unfolding msb bit_len
msb_values = (refl, refl, refl, refl)

class_values :
    (class_index 1 ≡ 0)
    × (class_index 64 ≡ 0)
    × (class_index 65 ≡ 1)
    × (class_index 128 ≡ 1)
    × (class_index 129 ≡ 2)
    × (class_index 65536 ≡ 10)
unfolding class_index msb bit_len
class_values = (refl, refl, refl, refl, refl, refl)

stock-IsStocked : IsStocked stock
stock-IsStocked = λ _. tt

get-Served_example : Returns (Served 100) (get stock (pos 100))
get-Served_example = get-Served stock 100 stock-IsStocked (omega arith) (omega arith)

put-Poolable_example :
    (alloc : Allocator) × (put stock (make 128) ≡ returns (none, alloc))
    × (alloc.buffers ≡ at_index stock.buffers 1 ((make 128).backing ∷ []))
    × IsStocked alloc
put-Poolable_example =
    put-Poolable stock (make 128) 1 stock-IsStocked (omega arith) (length-replicate {A = ℕ} 128 0)

put_small_panics_example : put stock (make 32) ≡ panics
put_small_panics_example = put_small_panics stock (make 32) 5 (omega arith) refl

-- Two arrays are put into the pool of 128 bytes, one is dropped, and one is taken.
once :
    (alloc : Allocator) × (put stock (make 128) ≡ returns (none, alloc))
    × (alloc.buffers ≡ at_index stock.buffers 1 ((make 128).backing ∷ stock.buffers 1))
    × IsStocked alloc
once =
    put-Poolable stock (make 128) 1 stock-IsStocked (omega arith) (length-replicate {A = ℕ} 128 0)

twice :
    (alloc : Allocator) × (put once.0 (make 128) ≡ returns (none, alloc))
    × (alloc.buffers ≡ at_index once.0.buffers 1 ((make 128).backing ∷ once.0.buffers 1))
    × IsStocked alloc
twice = put-Poolable once.0 (make 128) 1 once.3 (omega arith) (length-replicate {A = ℕ} 128 0)

abbrev dropped : Allocator
dropped = record { buffers = at_index twice.0.buffers 1 (once.0.buffers 1) }

dropped-Reach : Reach dropped
dropped-Reach =
    next
      (next (next start (puts stock once.0 (make 128) none once.1))
        (puts once.0 twice.0 (make 128) none twice.1))
      (drops twice.0 1 (make 128).backing (once.0.buffers 1) (ap (λ b. b 1) twice.2))

taken : (r : Slice × Allocator) × (get dropped (pos 100) ≡ returns r) × Served 100 r
taken =
    returned _ _
      (get-Served dropped 100 (Reach-IsStocked dropped-Reach) (omega arith) (omega arith))

Reach-IsStocked_example : IsStocked taken.0.1
Reach-IsStocked_example =
    Reach-IsStocked (next dropped-Reach (gets dropped taken.0.1 (pos 100) taken.0.0 taken.1))

run_refines_example : Returns (Agrees part_full calls) (run part_full calls)
run_refines_example = run_refines part_full calls (omega arith)

session_lem_example : Returns (Ends 100 calls) (session stock 100 calls)
session_lem_example = session_lem stock 100 calls stock-IsStocked

to_owned_lem_example : Returns (Copied part_full) (to_owned stock part_full)
to_owned_lem_example = to_owned_lem stock part_full stock-IsStocked (omega arith)

-- A reader that yields one byte at a time.
read_one : List ℕ → ℕ → (List ℕ × Option Error) × List ℕ
read_one [] room = (([], some Error.eof), [])
read_one (x ∷ xs) zero = (([], none), x ∷ xs)
read_one (x ∷ xs) (suc room) = ((x ∷ [], none), xs)

abbrev one_by_one : Reader (List ℕ)
one_by_one = record { read = read_one }

one_consumed : (k : List ℕ) (room : ℕ) → k ≡ (read_one k room).0.0 ++ (read_one k room).1
unfolding read_one
one_consumed [] room = refl
one_consumed (x ∷ xs) zero = refl
one_consumed (x ∷ xs) (suc room) = refl

one_bounded : (k : List ℕ) (room : ℕ) → length (read_one k room).0.0 ≤ room
unfolding read_one
one_bounded [] room = omega arith
one_bounded (x ∷ xs) zero = omega arith
one_bounded (x ∷ xs) (suc room) = omega arith

one_advances :
    (k : List ℕ) (room : ℕ)
    → 0 < room
    → (read_one k room).0.1 ≡ none
    → 0 < length (read_one k room).0.0
unfolding read_one
one_advances [] room h e = absurd cc
one_advances (x ∷ xs) zero h e = absurd (omega arith)
one_advances (x ∷ xs) (suc room) h e = omega arith

one_by_one-Conforms : Conforms one_by_one (λ k. k)
one_by_one-Conforms = record {
  consumed = one_consumed;
  bounded = one_bounded;
  advances = one_advances;
}

part_full-IsValid : IsValid part_full
part_full-IsValid = record {
  ordered = omega arith;
  within = omega arith;
  shown = omega arith;
  backed = omega arith;
}

read_from-Ended_example :
    Returns
      (Ended one_by_one (λ k. k) one_by_one-Conforms 0 part_full (7 ∷ []))
      (read_from one_by_one 2 part_full (7 ∷ []))
read_from-Ended_example =
    read_from-Ended one_by_one (λ k. k) one_by_one-Conforms 2 part_full (7 ∷ []) part_full-IsValid
      (omega arith)

-- The only byte arrives, and the reply is `ErrShortBuffer` with a count of 0.
arrived_short :
    read_from one_by_one 2 part_full (7 ∷ [])
    ≡ returns (
        some (
          fed 0
            (some Error.short_buffer)
            (record part_full {
              slice = record { backing = 1 ∷ 2 ∷ 3 ∷ 7 ∷ 5 ∷ []; len = 5 };
              end = 4;
            })
            []))
unfolding read_from read_one
arrived_short = refl

read_full_from-ReadFully_example :
    Returns
      (ReadFully one_by_one (λ k. k) one_by_one-Conforms 1 part_full (7 ∷ 8 ∷ []))
      (read_full_from one_by_one 2 part_full 1 (7 ∷ 8 ∷ []))
read_full_from-ReadFully_example =
    read_full_from-ReadFully one_by_one (λ k. k) one_by_one-Conforms 2 part_full 1 (7 ∷ 8 ∷ [])
      part_full-IsValid (omega arith)
