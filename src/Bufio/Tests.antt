-- ===== src/Bufio/Tests.antt =====
-- common/bufio at concrete inputs.
use cropstun.Base.{
  false≢true, ◌<◌, true, ℕ, zero, suc, ◌+◌, ◌*◌, ◌^◌, ◌≡◌, refl, ap, inl, Bool, false, true, List,
  [], ◌∷◌, Option, none, some, length, arith, ◌==◌,
}
use cropstun.Base.Int.{pos}
use cropstun.Base.Go.{Error, Returns}
use cropstun.Net.{Addr}
use cropstun.Tun.Ranges.{Os}
use cropstun.Buf.Alloc.{Allocator, new_default_allocator}
use cropstun.Buf.Alloc.Stored.{IsStocked}
use cropstun.Buf.Buffer.{Buffer}
use cropstun.Buf.Owner.Multi.{Ready}
use cropstun.Bufio.Vectorised.{
  WriterType, Made, create_vectorised_writer, buffered_write_vectorised,
}
use cropstun.Bufio.Gathered.{WroteOnce, buffered_write_vectorised-WroteOnce}
use cropstun.Bufio.Syscall.{Iovec, Conn, write_vectorised}
use cropstun.Bufio.Syscall.Sent.{Settles, Sent, Ends, NonEmpty, write_vectorised-Sent}
use cropstun.Bufio.Sockaddr.{from_sockaddr, to_sockaddr, from_sockaddr-to_sockaddr}

-- A buffer over the bytes of someone else.
abbrev holding : ℕ → ℕ → Buffer
holding a b = record {
  slice = record { backing = a ∷ b ∷ 0 ∷ []; len = 3 };
  start = 0;
  end = 2;
  capacity = 3;
  refs = pos 0;
  managed = false;
}

holding-Ready : (a b : ℕ) → Ready (holding a b)
holding-Ready a b = record { valid = omega arith; owned = inl refl; unshared = refl }

abbrev stock : Allocator
stock = new_default_allocator

stock-IsStocked : IsStocked stock
stock-IsStocked index = tt

abbrev buffers : List Buffer
buffers = holding 1 2 ∷ holding 3 4 ∷ []

-- A writer that keeps what it is given.
abbrev keep : List (List ℕ) → List ℕ → (ℕ × Option Error) × List (List ℕ)
keep k s = ((length s, none), s ∷ k)

buffered_write_vectorised-WroteOnce_example :
    Returns (WroteOnce keep [] buffers) (buffered_write_vectorised keep stock [] buffers)
buffered_write_vectorised-WroteOnce_example =
    buffered_write_vectorised-WroteOnce keep [] stock buffers stock-IsStocked
      (holding-Ready 1 2, (holding-Ready 3 4, tt))

-- A connection that asks to try again (11) so many times.
abbrev State : Type 0
State = ℕ × List (List Iovec)

abbrev call : State → List Iovec → ℕ × State
call (zero, written) vs = (0, (0, vs ∷ written))
call (suc n, written) vs = (11, (n, written))

abbrev conn : Conn State
conn = record { prepare = λ k. (none, k); wait = λ k. (none, k); writev = call }

abbrev again : ℕ → Bool
again errno = errno == 11

-- A call that is to be tried again has used up one of the times.
call-retried :
    (k : State) (vs : List Iovec)
    → again (call k vs).0 ≡ true
    → (conn.wait (call k vs).1).0 ≡ none
    → (conn.wait (call k vs).1).1.0 < k.0
call-retried (zero, written) vs h w = absurd (false≢true h)
call-retried (suc n, written) vs h w = omega arith

conn-Settles : Settles conn again (λ k. k.0)
conn-Settles = record { prepared = λ k. omega arith; retried = call-retried; done = refl }

pair-NonEmpty : (a b : ℕ) → NonEmpty (holding a b)
pair-NonEmpty a b h = omega (arith, ap length h)

write_vectorised-Sent_example :
    Returns
      (Ends (Sent conn again (2, []) buffers))
      (write_vectorised conn again 3 stock (2, []) buffers)
write_vectorised-Sent_example =
    write_vectorised-Sent conn again (λ k. k.0) conn-Settles 3 stock (2, []) (holding 1 2)
      (holding 3 4 ∷ []) stock-IsStocked (holding-Ready 1 2, (holding-Ready 3 4, tt))
      (pair-NonEmpty 1 2, (pair-NonEmpty 3 4, tt)) (omega arith)

from_sockaddr-to_sockaddr_example :
    from_sockaddr Os.darwin
      (to_sockaddr Os.darwin (Addr.v4 (192 * 2 ^ 24 + 1)) 8080).0
      (to_sockaddr Os.darwin (Addr.v4 (192 * 2 ^ 24 + 1)) 8080).1
    ≡ some (Addr.v4 (192 * 2 ^ 24 + 1), 8080)
from_sockaddr-to_sockaddr_example =
    from_sockaddr-to_sockaddr Os.darwin (Addr.v4 (192 * 2 ^ 24 + 1)) 8080 (omega arith)
      (omega arith)

made :
    (create_vectorised_writer WriterType.tcp_conn ≡ some Made.net_wrapper)
    × (create_vectorised_writer (WriterType.syscall_conn true) ≡ some Made.syscall_writer)
    × (create_vectorised_writer (WriterType.syscall_conn false) ≡ none)
unfolding create_vectorised_writer
made = (refl, refl, refl)
