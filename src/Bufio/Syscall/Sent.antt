-- ===== src/Bufio/Syscall/Sent.antt =====
-- common/bufio/vectorised_unix.go: what the system call is given, and what the writer keeps.
use cropstun.Base.{
  ℕ, zero, suc, ◌≤◌, ◌<◌, ◌≡◌, refl, sym, subst, ◌⊎◌, inl, inr, Bool-cases, Option-cases, ◌==◌, ap,
  Bool, true, false, List, [], ◌∷◌, map, All, Option, none, some, arith, ◌≢◌,
}
use cropstun.Base.Go.{Error, returns, Returns, Returns-bind}
use cropstun.Buf.Alloc.{Allocator}
use cropstun.Buf.Alloc.Stored.{IsStocked}
use cropstun.Buf.Buffer.{Buffer}
use cropstun.Buf.Buffer.Valid.{contents}
use cropstun.Buf.Owner.Multi.{Ready, released, bytes-contents}
use cropstun.Bufio.Vectorised.{Written, give_back}
use cropstun.Bufio.Gathered.{give_back-released}
use cropstun.Bufio.Syscall.{
  Iovec, SyscallVectorisedWriter, Conn, iovecs, retry, raw_write, error_of, iovec, finish,
  write_vectorised,
}

-- The entries for buffers that are not empty.
abbrev pub pointing : List Buffer → List Iovec
pointing bs = map (λ b. Iovec.points (contents b)) bs

-- The buffer holds at least one byte.
abbrev pub NonEmpty : Buffer → Type 0
NonEmpty b = contents b ≢ []

-- A connection on which a call is not to be tried again for ever: a wait that succeeds lowers
-- `pending`; and a call that has succeeded is not tried again.
pub record Settles {K : Type 0} (conn : Conn K) (again : ℕ → Bool) (pending : K → ℕ) : Type 0 where
  pub prepared : (k : K) → pending (conn.prepare k).1 ≤ pending k
  pub retried :
      (k : K) (vs : List Iovec)
      → again (conn.writev k vs).0 ≡ true
      → (conn.wait (conn.writev k vs).1).0 ≡ none
      → pending (conn.wait (conn.writev k vs).1).1 < pending k
  pub done : again 0 ≡ false

-- The system calls with one list, from a state to the error and the state that they end with.
pub data Tried {K : Type 0} (conn : Conn K) (again : ℕ → Bool) (vs : List Iovec)
    : K → Option Error × K → Type 0 where
  accepted : (k : K) → (conn.writev k vs).0 ≡ 0 → Tried conn again vs k (none, (conn.writev k vs).1)
  refused :
      (k : K) (errno : ℕ)
      → (conn.writev k vs).0 ≡ suc errno
      → again (suc errno) ≡ false
      → Tried conn again vs k (some (Error.os (suc errno)), (conn.writev k vs).1)
  gave_up :
      (k : K) (errno : ℕ) (x : Error)
      → (conn.writev k vs).0 ≡ suc errno
      → again (suc errno) ≡ true
      → (conn.wait (conn.writev k vs).1).0 ≡ some x
      → Tried conn again vs k (some (Error.os (suc errno)), (conn.wait (conn.writev k vs).1).1)
  retried :
      (k : K) (r : Option Error × K)
      → again (conn.writev k vs).0 ≡ true
      → (conn.wait (conn.writev k vs).1).0 ≡ none
      → Tried conn again vs (conn.wait (conn.writev k vs).1).1 r
      → Tried conn again vs k r

-- The same from the start: without a call when the connection is not ready for writing.
pub data Called {K : Type 0} (conn : Conn K) (again : ℕ → Bool) (vs : List Iovec)
    : K → Option Error × K → Type 0 where
  unprepared :
      (k : K) (x : Error)
      → (conn.prepare k).0 ≡ some x
      → Called conn again vs k (some x, (conn.prepare k).1)
  prepared :
      (k : K) (r : Option Error × K)
      → (conn.prepare k).0 ≡ none
      → Tried conn again vs (conn.prepare k).1 r
      → Called conn again vs k r

iovecs-pointing :
    (bs : List Buffer) → All Ready bs → All NonEmpty bs → iovecs bs ≡ returns (pointing bs)
unfolding iovecs
iovecs-pointing [] h ne = refl
iovecs-pointing (b ∷ bs) h ne =
    rw (bytes-contents b h.0.valid, entry (contents b) ne.0, iovecs-pointing bs h.1 ne.1) refl
  where
    entry : (s : List ℕ) → s ≢ [] → iovec s ≡ returns (Iovec.points s)
    entry [] k = absurd (k refl)
    entry (x ∷ s) k = refl

-- The system calls were made with all contents; the buffers are released, the pools stocked, and in
-- the writer's list there is no entry that points anywhere.
pub record Sent {K : Type 0} (conn : Conn K) (again : ℕ → Bool) (k : K) (bs : List Buffer)
    (w : Written K × SyscallVectorisedWriter) : Type 0 where
  pub calls : Called conn again (pointing bs) k (w.0.0, w.0.2)
  pub buffers : w.0.1 ≡ map released bs
  pub stocked : IsStocked w.0.3
  pub no_reference : w.1.iovec_list ≡ some (map (λ b. Iovec.cleared) bs)

-- The call ends within the fuel.
pub data Ends {A : Type 0} (P : A → Type 0) : Option A → Type 0 where
  ended : (a : A) → P a → Ends P (some a)

Ends-imp :
    {A : Type 0} (P Q : A → Type 0) {o : Option A} → ((a : A) → P a → Q a) → Ends P o → Ends Q o
Ends-imp P Q f (Ends.ended a h) = Ends.ended a (f a h)

map-pointing :
    (bs : List Buffer) → map (λ v. Iovec.cleared) (pointing bs) ≡ map (λ b. Iovec.cleared) bs
map-pointing [] = refl
map-pointing (b ∷ bs) = ap (◌∷◌ Iovec.cleared) (map-pointing bs)

zero_or_suc : (n : ℕ) → (n ≡ 0) ⊎ ((m : ℕ) × (n ≡ suc m))
zero_or_suc zero = inl refl
zero_or_suc (suc m) = inr (m, refl)

module _ {K : Type 0} (conn : Conn K) (again : ℕ → Bool) (pending : K → ℕ)
    (settles : Settles conn again pending) where
  abbrev outcome : (ℕ × Option Error) × K → Option Error × K
  outcome (r, k) = (error_of conn r, k)

  retry-Tried :
      (fuel : ℕ) (k : K) (vs : List Iovec)
      → pending k < fuel
      → Ends (λ r. Tried conn again vs k (outcome r)) (retry conn fuel again k vs)
  unfolding retry
  retry-Tried zero k vs f = absurd (omega (arith, f))
  retry-Tried (suc fuel) k vs f = elim (zero_or_suc (conn.writev k vs).0) [
    | inl e ↦
        let last : again (conn.writev k vs).0 ≡ false = rw e settles.done in
        let none_left : error_of conn ((conn.writev k vs).0, none) ≡ none = rw e refl in
        rw (retry, last)
          (Ends.ended _ (
            subst (λ x. Tried conn again vs k (x, (conn.writev k vs).1)) (sym none_left)
              (Tried.accepted k e)))
    | inr (n, e) ↦
        let failed : (x : Option Error)
            → error_of conn ((conn.writev k vs).0, x) ≡ some (Error.os (suc n)) =
          λ x. let nz : (suc n == 0) ≡ false = ground arith in rw (e, nz) refl in
        elim (Bool-cases (again (suc n))) [
          | inr stop ↦
              let last : again (conn.writev k vs).0 ≡ false = rw e stop in
              rw (retry, last)
                (Ends.ended _ (
                  subst (λ x. Tried conn again vs k (x, (conn.writev k vs).1)) (sym (failed none))
                    (Tried.refused k n e stop)))
          | inl go ↦
              let more : again (conn.writev k vs).0 ≡ true = rw e go in
              elim (Option-cases (conn.wait (conn.writev k vs).1).0) [
                | inr (x, w) ↦
                    let k2 = (conn.wait (conn.writev k vs).1).1 in
                    rw (retry, more, w)
                      (Ends.ended _ (
                        subst (λ y. Tried conn again vs k (y, k2)) (sym (failed (some x)))
                          (Tried.gave_up k n x e go w)))
                | inl w ↦
                    rw (retry, more, w)
                      (Ends-imp _ _ (λ r t. Tried.retried k (outcome r) more w t)
                        (retry-Tried fuel (conn.wait (conn.writev k vs).1).1 vs
                          (omega (arith, f, settles.retried k vs more w))))
              ]
        ]
  ]

  raw_write-Called :
      (fuel : ℕ) (k : K) (v : Iovec) (vs : List Iovec)
      → pending k < fuel
      → Returns
          (Ends (λ r. Called conn again (v ∷ vs) k (outcome r)))
          (raw_write conn fuel again k (v ∷ vs))
  unfolding raw_write
  raw_write-Called fuel k v vs f = elim (Option-cases (conn.prepare k).0) [
    | inr (x, p) ↦ rw (raw_write, p) (Ends.ended _ (Called.unprepared k x p))
    | inl p ↦
        rw (raw_write, p)
          (Ends-imp _ _ (λ r t. Called.prepared k (outcome r) p t)
            (retry-Tried fuel (conn.prepare k).1 (v ∷ vs) (omega (arith, f, settles.prepared k))))
  ]

  finish-Sent :
      (alloc : Allocator) (k : K) (bs : List Buffer) (o : Option ((ℕ × Option Error) × K))
      → IsStocked alloc
      → All Ready bs
      → Ends (λ r. Called conn again (pointing bs) k (outcome r)) o
      → Returns (Ends (Sent conn again k bs)) (finish conn alloc bs (pointing bs) o)
  finish-Sent alloc k bs o v h (Ends.ended (r, k') c) =
      let given : (ℕ × Option Error) × K = ((0, error_of conn r), k') in
      Returns-bind _ _ (give_back alloc bs given) _ (give_back-released alloc bs given v h) λ x g.
        Ends.ended _ (record {
          calls =
              subst (λ e. Called conn again (pointing bs) k (e, x.2)) (sym g.0)
                (subst (λ s. Called conn again (pointing bs) k (error_of conn r, s)) (sym g.2) c);
          buffers = g.1;
          stocked = g.3;
          no_reference = ap some (map-pointing bs);
        })

  -- At least one buffer is given, and every buffer holds a byte, has no further references and has an
  -- array that can be given back; the pools are stocked; a wait that succeeds lowers a measure of the
  -- connection, a call that has succeeded is not to be tried again, and the fuel is above the measure.
  -- Then `WriteVectorised` of the writer by system calls does not panic and ends, also when the
  -- connection is not ready, a wait fails, or the system call is refused. Every system call that it
  -- makes has the contents of all buffers in their order; it makes one more after each wait that
  -- succeeds, as long as the call is to be tried again; and it returns no error if the last call
  -- has succeeded, else that call's error, or that of the connection if none was made. In each case the
  -- buffers are released, the pools stay stocked, and the list that the writer keeps has an entry for
  -- each buffer that points nowhere.
  pub write_vectorised-Sent :
      (fuel : ℕ) (alloc : Allocator) (k : K) (b : Buffer) (bs : List Buffer)
      → IsStocked alloc
      → All Ready (b ∷ bs)
      → All NonEmpty (b ∷ bs)
      → pending k < fuel
      → Returns
          (Ends (Sent conn again k (b ∷ bs)))
          (write_vectorised conn again fuel alloc k (b ∷ bs))
  unfolding write_vectorised
  write_vectorised-Sent fuel alloc k b bs v h ne f = rw (iovecs-pointing (b ∷ bs) h ne) (
      Returns-bind _ _ (raw_write conn fuel again k (pointing (b ∷ bs))) _
        (raw_write-Called fuel k (Iovec.points (contents b)) (pointing bs) f)
        λ o e. finish-Sent alloc k (b ∷ bs) o v h e)
