-- ===== src/Buf/Buffer/Drain.antt =====
-- common/buf/buffer.go: the methods that drain the buffer.
use cropstun.Base.{
  ℕ, ◌+◌, ◌-◌, ◌≤◌, ◌<◌, ◌≡◌, refl, sym, ap, ◌∙◌, true, false, ◌&&◌, [], ◌∷◌, inl, inr, length,
  get_or, take, drop, window, get_elem?-take, take-window, drop-window, window_one,
  get_elem?-eq-get_or, min, ltb, leb, ◌==◌, Bool-cases, arith,
}
use cropstun.Base.Go.{returns, Returns}
use cropstun.Buf.Buffer.{Buffer, yields, read, read_byte, read_bytes, sub_slice, load}
use cropstun.Buf.Buffer.Valid.{IsValid, contents, view, length-contents}
use cropstun.Buf.Queue
use cropstun.Buf.Queue.{Channel, Op, put_bytes, put_byte, take_bytes}
use cropstun.Buf.Buffer.Fill.{Kept, Refined}

-- Bytes read leave the queue at its front.
drain_view :
    (b : Buffer) (n : ℕ)
    → IsValid b
    → n ≤ b.end - b.start
    → let b' = record b { start = b.start + n } in
      IsValid b'
      × (view b' ≡ record { queue = drop n (contents b); room = b.capacity - b.end })
      × Kept b b'
drain_view b n v h = (
  omega arith,
  ap (λ q. record { queue = q; room = b.capacity - b.end })
      (ap (λ m. window (b.start + n) m b.slice.backing) rest
        ∙ sym (drop-window n b.start (b.end - b.start) b.slice.backing)),
  record { stored = refl; owned = refl; counted = refl },
)
  where
    rest : b.end - (b.start + n) ≡ b.end - b.start - n
    rest = omega arith

-- A slice expression from the start reads the front of the queue.
sub_slice-front :
    (b : Buffer) (n : ℕ)
    → IsValid b
    → n ≤ b.end - b.start
    → sub_slice b.slice b.start (b.start + n) ≡ returns (take n (contents b))
unfolding sub_slice
sub_slice-front b n v h =
    let g : (leb b.start (b.start + n) && leb (b.start + n) (length b.slice.backing)) ≡ true =
      ground arith in
    let m : b.start + n - b.start ≡ n = omega arith in
    rw (g, m, take-window n b.start (b.end - b.start) b.slice.backing h)

pub sub_slice-all :
    (b : Buffer) → IsValid b → sub_slice b.slice b.start b.end ≡ returns (contents b)
unfolding sub_slice
sub_slice-all b v = ground arith

load-front :
    (b : Buffer)
    → IsValid b
    → b.start < b.end
    → (d : ℕ) × (load b.slice b.start ≡ returns d) × (take 1 (contents b) ≡ d ∷ [])
unfolding load
load-front b v h = (
  get_or b.slice.backing b.start 0,
  rw (
    load,
    get_elem?-take b.slice.len b.start b.slice.backing (omega arith),
    get_elem?-eq-get_or b.slice.backing b.start 0 (omega arith),
  ),
  take-window 1 b.start (b.end - b.start) b.slice.backing (omega arith)
      ∙ window_one b.start b.slice.backing 0 (omega arith),
)

pub read_bytes_lem :
    (b : Buffer) (n : ℕ)
    → IsValid b
    → Returns (Refined b (Queue.step (view b) (Op.reads_bytes n))) (read_bytes b n)
unfolding read_bytes Queue.step
read_bytes_lem b n v = elim (Bool-cases (ltb b.end (b.start + n))) [
  | inl e ↦
      let e' : ltb (length (contents b)) n ≡ true = rw (length-contents b v) (ground arith) in
      rw (e, e') (v, refl, record { stored = refl; owned = refl; counted = refl })
  | inr e ↦
      let e' : ltb (length (contents b)) n ≡ false = rw (length-contents b v) (ground arith) in
      let a = drain_view b n v (ground arith) in
      rw (e, e', sub_slice-front b n v (ground arith))
        (a.0, ap (λ c. (yields (take n (contents b)), c)) (sym a.1), a.2)
]

pub read_byte_lem :
    (b : Buffer) → IsValid b → Returns (Refined b (Queue.step (view b) Op.reads_byte)) (read_byte b)
unfolding read_byte Queue.step
read_byte_lem b v = elim (Bool-cases (b.end == b.start)) [
  | inl e ↦
      let e' : (length (contents b) == 0) ≡ true = rw (length-contents b v) (ground arith) in
      rw (e, e') (v, refl, record { stored = refl; owned = refl; counted = refl })
  | inr e ↦
      let e' : (length (contents b) == 0) ≡ false = rw (length-contents b v) (ground arith) in
      let h : b.start < b.end = ground arith in
      let a = drain_view b 1 v (omega arith) in
      let f = load-front b v h in
      rw (e, e', f.1, f.2) (a.0, ap (λ c. (yields (f.0 ∷ []), c)) (sym a.1), a.2)
]

pub read_lem :
    (b : Buffer) (room : ℕ)
    → IsValid b
    → Returns (Refined b (Queue.step (view b) (Op.reads room))) (read b room)
unfolding read Queue.step
read_lem b room v = elim (Bool-cases (b.end == b.start)) [
  | inl e ↦
      let e' : (length (contents b) == 0) ≡ true = rw (length-contents b v) (ground arith) in
      rw (e, e') (v, refl, record { stored = refl; owned = refl; counted = refl })
  | inr e ↦
      let e' : (length (contents b) == 0) ≡ false = rw (length-contents b v) (ground arith) in
      let n = min room (length (contents b)) in
      let a = drain_view b n v (omega (arith, length-contents b v)) in
      rw (e, e', sub_slice-all b v)
        (a.0, ap (λ c. (yields (take n (contents b)), c)) (sym a.1), a.2)
]
