-- ===== src/Buf/Source/Stream.antt =====
-- common/buf/buffer.go: `ReadFrom` on a reader of a stream.
use cropstun.Base.{
  ℕ, zero, suc, ◌+◌, ◌-◌, ◌≤◌, ◌<◌, ◌≡◌, ◌≢◌, refl, sym, ap, ◌∙◌, ◌⊎◌, inl, inr, Bool-cases, List,
  ◌++◌, append_assoc, Option, none, some, Option-cases, length, take, take_all, ◌==◌, arith,
}
use cropstun.Base.Go.{Error, Returns, Returns-bind, Returns-imp}
use cropstun.Buf.Buffer.{Buffer, is_full}
use cropstun.Buf.Buffer.Valid.{IsValid, contents}
use cropstun.Buf.Buffer.Fill.{copy_into-valid, append_view}
use cropstun.Buf.Source.{Reader, Fed, fed, round, read_from_on, read_from, drop_eof}

-- The documented behaviour of a reader of the bytes `stream`: a call yields the next of them, no more
-- than it has room for, and not none of them without an error if it has room.
pub record Conforms {K : Type 0} (r : Reader K) (stream : K → List ℕ) : Type 0 where
  pub consumed : (k : K) (room : ℕ) → stream k ≡ (r.read k room).0.0 ++ stream (r.read k room).1
  pub bounded : (k : K) (room : ℕ) → length (r.read k room).0.0 ≤ room
  pub advances :
      (k : K) (room : ℕ) → 0 < room → (r.read k room).0.1 ≡ none → 0 < length (r.read k room).0.0

drop_eof-passes : (x : Error) → x ≢ Error.eof → drop_eof x ≡ some x
drop_eof-passes Error.eof h = absurd (h refl)
drop_eof-passes x h = refl

module _ {K : Type 0} (r : Reader K) (stream : K → List ℕ) (conforms : Conforms r stream) where
  -- No byte is lost or read twice, and the buffer stays valid.
  pub record Conserved (b : Buffer) (k : K) (f : Fed K) : Type 0 where
    pub valid : IsValid f.buffer
    pub all_bytes : contents f.buffer ++ stream f.rest ≡ contents b ++ stream k
    pub capacity_kept : f.buffer.capacity ≡ b.capacity
    pub start_kept : f.buffer.start ≡ b.start

  -- A call, which also says how far the end has moved.
  pub record Moved (b : Buffer) (limit : ℕ) (k : K) (f : Fed K) : Type 0 where
    pub conserved : Conserved b k f
    pub counted : f.buffer.end ≡ b.end + f.count
    pub progress : f.error ≡ none → 0 < f.count
    pub in_limit : f.buffer.end ≤ limit
    pub error_of : f.error ≡ (r.read k (limit - b.end)).0.1
    pub rest_of : f.rest ≡ (r.read k (limit - b.end)).1

  pub round-Moved :
      (b : Buffer) (limit : ℕ) (k : K)
      → IsValid b
      → b.end < limit
      → limit ≤ b.capacity
      → Returns (Moved b limit k) (round r b limit k)
  unfolding round
  round-Moved b limit k v h below =
      let room = limit - b.end in
      let bs = (r.read k room).0.0 in
      let fits : take room bs ≡ bs = take_all room bs (conforms.bounded k room) in
      let part : IsValid (record b { capacity = limit }) = record {
        ordered = v.ordered;
        within = omega arith;
        shown = omega (arith, v.shown);
        backed = v.backed;
      } in
      let (valid, shown, kept) =
        append_view b bs (length bs) _ v refl (omega (arith, conforms.bounded k room)) refl in
      rw (round, copy_into-valid (record b { capacity = limit }) bs part, fits)
        (record {
          conserved = record {
            valid = valid;
            all_bytes =
                ap (λ c. c.queue ++ stream (r.read k room).1) shown
                ∙ append_assoc (contents b) bs (stream (r.read k room).1)
                ∙ ap (λ s. contents b ++ s) (sym (conforms.consumed k room));
            capacity_kept = refl;
            start_kept = refl;
          };
          counted = refl;
          progress = conforms.advances k room (omega arith);
          in_limit = omega (arith, conforms.bounded k room);
          error_of = refl;
          rest_of = refl;
        })

  -- The reader failed at last, and its error is returned, but not io.EOF.
  pub record Stopped (f : Fed K) : Type 0 where
    pub before : K
    pub room : ℕ
    pub error : Error
    pub failed : (r.read before room).0.1 ≡ some error
    pub after : f.rest ≡ (r.read before room).1
    pub passed_on : error ≢ Error.eof → f.error ≡ some error
    pub dropped : error ≡ Error.eof → f.error ≡ none

  -- What `ReadFrom` comes to: the bytes conserved, and with them either a full buffer, an error
  -- for want of room and no count, or an end of the reader and the count of all bytes that have
  -- arrived since it began, `n` of them before.
  abbrev pub Ended : ℕ → Buffer → K → Option (Fed K) → Type 0
  Ended n b k none = ⊥
  Ended n b k (some f) =
      Conserved b k f
      × (((f.error ≡ some Error.short_buffer) × (f.count ≡ 0) × (f.buffer.end ≡ f.buffer.capacity))
          ⊎ ((f.buffer.end + n ≡ b.end + f.count) × Stopped f))

  pub recount :
      (b : Buffer) (k : K) (f : Fed K) (n : ℕ) (e : Option Error)
      → Conserved b k f
      → Conserved b k (fed n e f.buffer f.rest)
  recount b k f n e c = record {
    valid = c.valid;
    all_bytes = c.all_bytes;
    capacity_kept = c.capacity_kept;
    start_kept = c.start_kept;
  }

  after-Ended :
      (n : ℕ) (b : Buffer) (k : K) (f : Fed K)
      → Moved b b.capacity k f
      → (o : Option (Fed K)) → Ended (n + f.count) f.buffer f.rest o
      → Ended n b k o
  after-Ended n b k f m none e = e
  after-Ended n b k f m (some g) (c, counted) = (
    record {
      valid = c.valid;
      all_bytes = c.all_bytes ∙ m.conserved.all_bytes;
      capacity_kept = c.capacity_kept ∙ m.conserved.capacity_kept;
      start_kept = c.start_kept ∙ m.conserved.start_kept;
    },
    elim counted [ inl short ↦ inl short | inr (all, stop) ↦ inr (omega (arith, m.counted), stop) ],
  )

  read_from_on-Ended :
      (fuel n : ℕ) (b : Buffer) (k : K)
      → IsValid b
      → b.capacity - b.end < fuel
      → Returns (Ended n b k) (read_from_on r fuel n b k)
  unfolding read_from_on is_full
  read_from_on-Ended zero n b k v h = absurd (omega arith)
  read_from_on-Ended (suc fuel) n b k v h = elim (Bool-cases (b.end == b.capacity)) [
    | inl e ↦
        rw (read_from_on, e)
          (
            record { valid = v; all_bytes = refl; capacity_kept = refl; start_kept = refl },
            inl (refl, refl, ground (arith, e)),
          )
    | inr e ↦
        let room : b.end < b.capacity = ground (arith, v.within) in
        rw (read_from_on, e)
          (Returns-bind (Moved b b.capacity k) (Ended n b k) (round r b b.capacity k) _
            (round-Moved b b.capacity k v room (omega arith))
            (λ f m. elim (Option-cases f.error) [
              | inl go_on ↦
                  let rest =
                    read_from_on-Ended fuel (n + f.count) f.buffer f.rest m.conserved.valid
                      (omega (arith, m.counted, m.conserved.capacity_kept, m.progress go_on)) in
                  rw go_on (Returns-imp _ (after-Ended n b k f m) rest)
              | inr (x, stop) ↦ rw stop (
                recount b k f (n + f.count) (drop_eof x) m.conserved,
                inr (
                  omega (arith, m.counted),
                  record {
                    before = k;
                    room = b.capacity - b.end;
                    error = x;
                    failed = sym m.error_of ∙ stop;
                    after = m.rest_of;
                    passed_on = drop_eof-passes x;
                    dropped = λ e. rw e refl;
                  },
                ),
              )
            ]))
  ]

  -- `ReadFrom` on a valid buffer and a reader of a stream of bytes returns after at most one round
  -- more than there is room for bytes. Then the buffer is valid, and what it holds and what the reader
  -- still has are together the buffer's former bytes and all that the reader had. Either the buffer is
  -- full, the error is `ErrShortBuffer` and the count 0; or a call of the reader, the last one, has
  -- failed, the count is that of the bytes that have arrived, and the error is the reader's, or none
  -- if that is `io.EOF`.
  pub read_from-Ended :
      (fuel : ℕ) (b : Buffer) (k : K)
      → IsValid b
      → b.capacity - b.end < fuel
      → Returns (Ended 0 b k) (read_from r fuel b k)
  unfolding read_from
  read_from-Ended fuel b k v h = read_from_on-Ended fuel 0 b k v h
