-- ===== src/Buf/Source.antt =====
-- common/buf/buffer.go: the methods that fill a buffer from a reader.
pub mod Stream
pub mod Full
use cropstun.Base.{
  ℕ, zero, suc, ◌+◌, ◌-◌, Bool, List, [], ◌∷◌, ◌++◌, Option, none, some, length, ltb, leb, ◌==◌,
  if◌then◌else◌,
}
use cropstun.Base.Go.{Error, Outcome, returns, panics, ◌>>=◌}
use cropstun.Buf.Buffer.{Buffer, bytes, is_full, copy_into}

-- An `io.Reader` with its state: a call has room for so many bytes and yields bytes and an error.
pub record Reader (K : Type 0) : Type 0 where
  pub read : K → ℕ → (List ℕ × Option Error) × K

-- What a method returns, and the buffer and the reader after it.
pub record Fed (K : Type 0) : Type 0 where
  pub count : ℕ
  pub error : Option Error
  pub buffer : Buffer
  pub rest : K

abbrev pub fed : {K : Type 0} → ℕ → Option Error → Buffer → K → Fed K
fed n e b k = record { count = n; error = e; buffer = b; rest = k }

abbrev pub drop_eof : Error → Option Error
drop_eof Error.eof = none
drop_eof e = some e

abbrev pub cut_short : ℕ → Error → Error
cut_short n Error.eof = if n == 0 then Error.eof else Error.unexpected_eof
cut_short n e = e

-- The end of `io.ReadAtLeast`, where `n` bytes have been read and the last call had an error.
abbrev pub settle : ℕ → ℕ → Error → Option Error
settle min n e = if leb min n then none else some (cut_short n e)

module _ {K : Type 0} (r : Reader K) where
  -- A call of the reader on the bytes up to `limit` that are free.
  unfoldable pub round : Buffer → ℕ → K → Outcome (Fed K)
  unfolding copy_into
  round b limit k =
      let ((bs, e), k') = r.read k (limit - b.end) in
      copy_into b.slice b.end limit bs >>= λ copied.
      returns (fed (length bs) e (record b { slice = copied.1; end = b.end + length bs }) k')

  -- `ReadOnceFrom`
  unfoldable pub read_once_from : Buffer → K → Outcome (Fed K)
  unfolding round is_full
  read_once_from b k =
      if is_full b then returns (fed 0 (some Error.short_buffer) b k) else round b b.capacity k

  -- `ReadFrom`, of at most `fuel` rounds, with the bytes counted so far.
  unfoldable pub read_from_on : ℕ → ℕ → Buffer → K → Outcome (Option (Fed K))
  unfolding round is_full
  read_from_on zero n b k = returns none
  read_from_on (suc fuel) n b k =
      if is_full b
      then returns (some (fed 0 (some Error.short_buffer) b k))
      else (round b b.capacity k >>= λ f.
          let more = read_from_on fuel (n + f.count) f.buffer f.rest in
          elim f.error [
            | none ↦ more
            | some e ↦ returns (some (fed (n + f.count) (drop_eof e) f.buffer f.rest))
          ])

  unfoldable pub read_from : ℕ → Buffer → K → Outcome (Option (Fed K))
  unfolding read_from_on
  read_from fuel b k = read_from_on fuel 0 b k

  -- The loop of `io.ReadAtLeast` into the bytes up to `limit`, of at most `fuel` rounds.
  unfoldable pub at_least_on : ℕ → ℕ → ℕ → ℕ → Buffer → K → Outcome (Option (Fed K))
  unfolding round
  at_least_on zero limit min n b k = returns none
  at_least_on (suc fuel) limit min n b k =
      if leb min n
      then returns (some (fed n none b k))
      else (round b limit k >>= λ f.
          let more = at_least_on fuel limit min (n + f.count) f.buffer f.rest in
          elim f.error [
            | none ↦ more
            | some e ↦
                returns (some (fed (n + f.count) (settle min (n + f.count) e) f.buffer f.rest))
          ])

  -- `ReadAtLeastFrom`
  unfoldable pub read_at_least_from : ℕ → Buffer → ℕ → K → Outcome (Option (Fed K))
  unfolding read_once_from at_least_on
  read_at_least_from fuel b zero k = read_once_from b k >>= λ f. returns (some f)
  read_at_least_from fuel b (suc m) k =
      if is_full b
      then returns (some (fed 0 (some Error.short_buffer) b k))
      else (if ltb (b.capacity - b.end) (suc m)
          then returns (some (fed 0 (some Error.short_buffer) b k))
          else at_least_on fuel b.capacity (suc m) 0 b k)

  -- `ReadFullFrom`
  unfoldable pub read_full_from : ℕ → Buffer → ℕ → K → Outcome (Option (Fed K))
  unfolding at_least_on
  read_full_from fuel b size k =
      if ltb b.capacity (b.end + size)
      then returns (some (fed 0 (some Error.short_buffer) b k))
      else at_least_on fuel (b.end + size) size 0 b k

-- A `net.PacketConn`, whose addresses are `A`; `none` is `nil`.
pub record PacketConn (A K : Type 0) : Type 0 where
  pub read_from : K → ℕ → (List ℕ × Option A × Option Error) × K

module _ {A K : Type 0} (c : PacketConn A K) where
  -- The connection without its addresses.
  abbrev bytes_of : Reader K
  bytes_of = record { read = λ k n. let ((bs, address, e), k') = c.read_from k n in ((bs, e), k') }

  unfoldable pub read_packet_from : Buffer → K → Outcome (Fed K × Option A)
  unfolding round is_full
  read_packet_from b k =
      if is_full b
      then returns (fed 0 (some Error.short_buffer) b k, none)
      else (round bytes_of b b.capacity k >>= λ f.
          returns (f, (c.read_from k (b.capacity - b.end)).0.1))

-- `WriteTo`, for the writer's call.
pub write_to :
    {K : Type 0}
    → (K → List ℕ → (ℕ × Option Error) × K)
    → Buffer
    → K
    → Outcome ((ℕ × Option Error) × K)
write_to write b k = bytes b >>= λ s. returns (write k s)
