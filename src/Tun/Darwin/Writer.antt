-- ===== src/Tun/Darwin/Writer.antt =====
-- tun_darwin.go: `WriteVectorised`, which puts the header of a packet before its bytes.
use cropstun.Base.{ℕ, ◌/◌, List, [], ◌∷◌, ◌==◌, if◌then◌else◌}
use cropstun.Base.Go.{Outcome, panics, ◌>>=◌}
use cropstun.Buf.Alloc.{Slice, Allocator}
use cropstun.Buf.Buffer.{Buffer, byte}
use cropstun.Buf.Owner.{as_full}
use cropstun.Bufio.Vectorised.{Written}
use cropstun.Tun.Darwin.Requests.{af_inet, af_inet6}

abbrev pub packet_header : ℕ → Slice
packet_header family = record { backing = 0 ∷ 0 ∷ 0 ∷ family ∷ []; len = 4 }

abbrev pub packet_header4 : Slice
packet_header4 = packet_header af_inet

abbrev pub packet_header6 : Slice
packet_header6 = packet_header af_inet6

-- `writer` is the method of `tunWriter`.
unfoldable pub write_vectorised :
    {K : Type 0}
    → (Allocator → K → List Buffer → Outcome (Written K))
    → Allocator
    → K
    → List Buffer
    → Outcome (Written K)
write_vectorised writer alloc k [] = panics
write_vectorised writer alloc k (b ∷ bs) = do
  first ← byte b 0
  writer alloc k (as_full (if first / 16 == 4 then packet_header4 else packet_header6) ∷ b ∷ bs)
