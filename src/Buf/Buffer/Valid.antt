-- ===== src/Buf/Buffer/Valid.antt =====
-- The buffer's invariant and the queue that it stands for.
use cropstun.Base.{ℕ, ◌-◌, ◌≤◌, ◌≡◌, List, length, window, length-window, arith}
use cropstun.Buf.Buffer.{Buffer}
use cropstun.Buf.Queue.{Channel}

pub record IsValid (b : Buffer) : Type 0 where
  pub ordered : b.start ≤ b.end
  pub within : b.end ≤ b.capacity
  pub shown : b.capacity ≤ b.slice.len
  pub backed : b.slice.len ≤ length b.slice.backing

-- The bytes written and not yet read.
abbrev pub contents : Buffer → List ℕ
contents b = window b.start (b.end - b.start) b.slice.backing

abbrev pub view : Buffer → Channel
view b = record { queue = contents b; room = b.capacity - b.end }

pub length-contents : (b : Buffer) → IsValid b → length (contents b) ≡ b.end - b.start
length-contents b v = length-window b.start (b.end - b.start) b.slice.backing (omega arith)
