-- ===== src/Buf/Source/Full.antt =====
-- common/buf/buffer.go: `ReadFullFrom` on a reader of a stream.
use cropstun.Base.{
  ℕ, zero, suc, ◌+◌, ◌-◌, ◌≤◌, ◌<◌, ◌≡◌, refl, ◌∙◌, ◌≢◌, ◌⊎◌, inl, inr, Bool-cases, List, Option,
  none, some, Option-cases, leb, ltb, arith,
}
use cropstun.Base.Go.{Error, Returns, Returns-bind, Returns-imp}
use cropstun.Buf.Buffer.{Buffer}
use cropstun.Buf.Buffer.Valid.{IsValid}
use cropstun.Buf.Source.{Reader, Fed, round, settle, cut_short, at_least_on, read_full_from}
use cropstun.Buf.Source.Stream.{Conforms, Conserved, Moved, round-Moved, recount}

settle-none : (min n : ℕ) (e : Error) → settle min n e ≡ none → min ≤ n
settle-none min n e h = elim (Bool-cases (leb min n)) [
  | inl l ↦ ground arith
  | inr l ↦ absurd (let failed : some (cut_short n e) ≡ none = rw l at h in cc)
]

module _ {K : Type 0} (r : Reader K) (stream : K → List ℕ) (conforms : Conforms r stream) where
  -- What the loop comes to: the bytes conserved and counted, `n` of them before it began, none behind
  -- the limit, and no error only if there are enough.
  pub record Enough (limit min n : ℕ) (b : Buffer) (k : K) (f : Fed K) : Type 0 where
    conserved : Conserved r stream conforms b k f
    counted : f.buffer.end + n ≡ b.end + f.count
    in_limit : f.buffer.end ≤ limit
    enough : f.error ≡ none → min ≤ f.count

  abbrev pub Filled : ℕ → ℕ → ℕ → Buffer → K → Option (Fed K) → Type 0
  Filled limit min n b k none = ⊥
  Filled limit min n b k (some f) = Enough limit min n b k f

  after-Filled :
      (limit min n : ℕ) (b : Buffer) (k : K) (f : Fed K)
      → Moved r stream conforms b limit k f
      → (o : Option (Fed K)) → Filled limit min (n + f.count) f.buffer f.rest o
      → Filled limit min n b k o
  after-Filled limit min n b k f m none e = e
  after-Filled limit min n b k f m (some g) e = record {
    conserved = record {
      valid = e.conserved.valid;
      all_bytes = e.conserved.all_bytes ∙ m.conserved.all_bytes;
      capacity_kept = e.conserved.capacity_kept ∙ m.conserved.capacity_kept;
      start_kept = e.conserved.start_kept ∙ m.conserved.start_kept;
    };
    counted = omega (arith, m.counted, e.counted);
    in_limit = e.in_limit;
    enough = e.enough;
  }

  at_least_on-Filled :
      (fuel limit min n : ℕ) (b : Buffer) (k : K)
      → IsValid b
      → b.end ≤ limit
      → limit ≤ b.capacity
      → min ≤ n + (limit - b.end)
      → limit - b.end < fuel
      → Returns (Filled limit min n b k) (at_least_on r fuel limit min n b k)
  unfolding at_least_on
  at_least_on-Filled zero limit min n b k v low high room f = absurd (omega arith)
  at_least_on-Filled (suc fuel) limit min n b k v low high room f = elim (Bool-cases (leb min n)) [
    | inl e ↦
        rw (at_least_on, e)
          (record {
            conserved = record {
              valid = v;
              all_bytes = refl;
              capacity_kept = refl;
              start_kept = refl;
            };
            counted = omega arith;
            in_limit = low;
            enough = λ _. ground arith;
          })
    | inr e ↦
        let short : n < min = ground arith in
        rw (at_least_on, e)
          (Returns-bind (Moved r stream conforms b limit k) (Filled limit min n b k)
            (round r b limit k) _ (round-Moved r stream conforms b limit k v (omega arith) high)
            (λ g m. elim (Option-cases g.error) [
              | inl go_on ↦
                  let rest =
                    at_least_on-Filled fuel limit min (n + g.count) g.buffer g.rest
                      m.conserved.valid m.in_limit (omega (arith, m.conserved.capacity_kept))
                      (omega (arith, m.counted, m.in_limit))
                      (omega (arith, m.counted, m.in_limit, m.progress go_on)) in
                  rw go_on (Returns-imp _ (after-Filled limit min n b k g m) rest)
              | inr (x, stop) ↦ rw stop (record {
                conserved =
                    recount r stream conforms b k g (n + g.count) (settle min (n + g.count) x)
                      m.conserved;
                counted = omega (arith, m.counted);
                in_limit = m.in_limit;
                enough = settle-none min (n + g.count) x;
              })
            ]))
  ]

  -- What `ReadFullFrom` comes to: the bytes conserved and counted, and an error or just `size` bytes.
  abbrev pub ReadFully : ℕ → Buffer → K → Option (Fed K) → Type 0
  ReadFully size b k none = ⊥
  ReadFully size b k (some f) =
      Conserved r stream conforms b k f
      × (f.buffer.end ≡ b.end + f.count)
      × ((f.error ≢ none) ⊎ (f.count ≡ size))

  Filled→ReadFully :
      (size : ℕ) (b : Buffer) (k : K) (o : Option (Fed K))
      → Filled (b.end + size) size 0 b k o
      → ReadFully size b k o
  Filled→ReadFully size b k none e = e
  Filled→ReadFully size b k (some f) e = (
    e.conserved,
    omega (arith, e.counted),
    elim (Option-cases f.error) [
      | inl n ↦ inr (omega (arith, e.counted, e.in_limit, e.enough n))
      | inr (x, n) ↦ inl (λ h. let failed : some x ≡ none = rw n at h in cc)
    ],
  )

  -- `ReadFullFrom` on a valid buffer and a reader of a stream of bytes returns after at most one round more than the bytes asked for.
  -- Then the buffer is valid and holds its former bytes and those that were read, none is lost, the
  -- count is that of the bytes that have arrived, and without an error it is `size`.
  pub read_full_from-ReadFully :
      (fuel : ℕ) (b : Buffer) (size : ℕ) (k : K)
      → IsValid b
      → size < fuel
      → Returns (ReadFully size b k) (read_full_from r fuel b size k)
  unfolding read_full_from
  read_full_from-ReadFully fuel b size k v f = elim (Bool-cases (ltb b.capacity (b.end + size))) [
    | inl big ↦ rw big (
      record { valid = v; all_bytes = refl; capacity_kept = refl; start_kept = refl },
      omega arith,
      inl (λ h. cc),
    )
    | inr small ↦
        let fits : b.end + size ≤ b.capacity = ground arith in
        rw small (
          Returns-imp _ (Filled→ReadFully size b k) (
            at_least_on-Filled fuel (b.end + size) size 0 b k v (omega arith) fits (omega arith)
              (omega arith)))
  ]
