-- ===== src/Buf/Queue.antt =====
-- What a buffer promises: a queue of bytes with room for so many more. Reading makes no room.
use cropstun.Base.{
  ℕ, ◌-◌, ◌%◌, List, [], ◌∷◌, ◌++◌, length, take, drop, min, ltb, ◌==◌, if◌then◌else◌,
}
use cropstun.Base.Go.{Error}
use cropstun.Buf.Buffer.{Reply, fails, counts, yields}

pub record Channel : Type 0 where
  pub queue : List ℕ
  pub room : ℕ

-- The calls of a client.
pub data Op : Type 0 where
  writes : List ℕ → Op
  writes_string : List ℕ → Op
  writes_byte : ℕ → Op
  writes_rune : ℕ → Op
  writes_zero : Op
  reads : ℕ → Op
  reads_byte : Op
  reads_bytes : ℕ → Op

-- As many bytes as there is room for; an error only if there is no room at all.
unfoldable pub put_bytes : Channel → List ℕ → Reply × Channel
put_bytes c [] = (counts 0, c)
put_bytes c (x ∷ xs) = if c.room == 0 then (fails Error.short_buffer, c) else (
  counts (min c.room (length (x ∷ xs))),
  record { queue = c.queue ++ take c.room (x ∷ xs); room = c.room - min c.room (length (x ∷ xs)) },
)

unfoldable pub put_byte : Channel → ℕ → Reply × Channel
put_byte c d =
    if c.room == 0
    then (fails Error.short_buffer, c)
    else (counts 0, record { queue = c.queue ++ (d ∷ []); room = c.room - 1 })

unfoldable pub take_bytes : Channel → ℕ → Reply × Channel
take_bytes c n = (yields (take n c.queue), record c { queue = drop n c.queue })

-- `Read` gives what there is, `ReadByte` and `ReadBytes` all or nothing.
unfoldable pub step : Channel → Op → Reply × Channel
unfolding put_bytes put_byte take_bytes
step c (writes bs) = put_bytes c bs
step c (writes_string bs) = put_bytes c bs
step c (writes_byte d) = put_byte c d
step c (writes_rune r) = put_bytes c (r % 256 ∷ [])
step c writes_zero = put_byte c 0
step c (reads room) =
    if length c.queue == 0 then (fails Error.eof, c) else take_bytes c (min room (length c.queue))
step c reads_byte = if length c.queue == 0 then (fails Error.eof, c) else take_bytes c 1
step c (reads_bytes n) = if ltb (length c.queue) n then (fails Error.eof, c) else take_bytes c n
