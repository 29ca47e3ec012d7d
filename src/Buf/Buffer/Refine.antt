-- ===== src/Buf/Buffer/Refine.antt =====
-- common/buf/buffer.go: sequences of calls on a buffer, and on its queue.
use cropstun.Base.{◌%◌, ◌≡◌, refl, sym, subst, ◌∙◌, List, [], ◌∷◌}
use cropstun.Base.Go.{Outcome, returns, Returns, returned, ◌>>=◌}
use cropstun.Buf.Buffer.{
  Buffer, Reply, write, write_string, write_byte, write_rune, write_zero, read, read_byte,
  read_bytes,
}
use cropstun.Buf.Buffer.Valid.{IsValid, view}
use cropstun.Buf.Buffer.Fill.{
  Kept, Refined, write_lem, write_string-eq-write, write_byte_lem, write_zero-eq-write_byte,
}
use cropstun.Buf.Buffer.Drain.{read_lem, read_byte_lem, read_bytes_lem}
use cropstun.Buf.Queue
use cropstun.Buf.Queue.{Channel, Op}

-- One call of a client.
pub call : Buffer → Op → Outcome (Reply × Buffer)
call b (Op.writes bs) = write b bs
call b (Op.writes_string bs) = write_string b bs
call b (Op.writes_byte d) = write_byte b d
call b (Op.writes_rune r) = write_rune b r
call b Op.writes_zero = write_zero b
call b (Op.reads room) = read b room
call b Op.reads_byte = read_byte b
call b (Op.reads_bytes n) = read_bytes b n

pub run : Buffer → List Op → Outcome (List Reply × Buffer)
run b [] = returns ([], b)
run b (op ∷ ops) = do (r, b') ← call b op; (rs, b'') ← run b' ops; returns (r ∷ rs, b'')

pub run_queue : Channel → List Op → List Reply × Channel
run_queue c [] = ([], c)
run_queue c (op ∷ ops) =
    let (r, c') = Queue.step c op in let (rs, c'') = run_queue c' ops in (r ∷ rs, c'')

call-Refined :
    (b : Buffer) (op : Op) → IsValid b → Returns (Refined b (Queue.step (view b) op)) (call b op)
unfolding call Queue.step write_rune
call-Refined b (Op.writes bs) v = write_lem b bs v
call-Refined b (Op.writes_string bs) v = rw (write_string-eq-write b bs) (write_lem b bs v)
call-Refined b (Op.writes_byte d) v = write_byte_lem b d v
call-Refined b (Op.writes_rune r) v = write_lem b (r % 256 ∷ []) v
call-Refined b Op.writes_zero v = rw (write_zero-eq-write_byte b) (write_byte_lem b 0 v)
call-Refined b (Op.reads room) v = read_lem b room v
call-Refined b Op.reads_byte v = read_byte_lem b v
call-Refined b (Op.reads_bytes n) v = read_bytes_lem b n v

Kept-trans : (b b' b'' : Buffer) → Kept b b' → Kept b' b'' → Kept b b''
Kept-trans b b' b'' k l = record {
  stored = l.stored ∙ k.stored;
  owned = l.owned ∙ k.owned;
  counted = l.counted ∙ k.counted;
}

abbrev pub Agrees : Buffer → List Op → List Reply × Buffer → Type 0
Agrees b ops (rs, b') = IsValid b' × (run_queue (view b) ops ≡ (rs, view b')) × Kept b b'

-- Two runs that agree on the first call and on the rest.
run-cons :
    (b b' b'' : Buffer) (op : Op) (ops : List Op) (r : Reply) (rs : List Reply)
    → call b op ≡ returns (r, b')
    → run b' ops ≡ returns (rs, b'')
    → Queue.step (view b) op ≡ (r, view b')
    → run_queue (view b') ops ≡ (rs, view b'')
    → (run b (op ∷ ops) ≡ returns (r ∷ rs, b''))
      × (run_queue (view b) (op ∷ ops) ≡ (r ∷ rs, view b''))
unfolding run run_queue
run-cons b b' b'' op ops r rs c d q p = (rw (c, d), rw (q, p))

-- On a valid buffer no sequence of `Write`, `WriteString`, `WriteByte`, `WriteRune`, `WriteZero`,
-- `Read`, `ReadByte` and `ReadBytes` (of a number that is not negative) panics. What each of these
-- calls returns is what the queue of the buffer's bytes, with the room behind them, returns; the
-- buffer stays valid, stands for the queue that is left, and keeps its array and its owner.
pub run_refines : (b : Buffer) (ops : List Op) → IsValid b → Returns (Agrees b ops) (run b ops)
unfolding run run_queue
run_refines b [] v = (v, refl, record { stored = refl; owned = refl; counted = refl })
run_refines b (op ∷ ops) v =
    let (first, e, h) = returned _ (call b op) (call-Refined b op v) in
    let (rest, e', h') = returned _ (run first.1 ops) (run_refines first.1 ops h.0) in
    let c = run-cons b first.1 rest.1 op ops first.0 rest.0 e e' h.1 h'.1 in
    subst (Returns (Agrees b (op ∷ ops))) (sym c.0)
      (h'.0, c.1, Kept-trans b first.1 rest.1 h.2 h'.2)
