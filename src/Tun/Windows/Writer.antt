-- ===== src/Tun/Windows/Writer.antt =====
-- tun_windows.go: `WriteVectorised`, over `write` and the lists of buffers.
use cropstun.Base.{ℕ, ◌≡◌, ap, List, [], ◌∷◌, ◌++◌, map, Option, none, some, All}
use cropstun.Base.Go.{Error, Result, ok, err, Outcome, returns, Returns, Returns-bind, ◌>>=◌}
use cropstun.Buf.Alloc.{Allocator}
use cropstun.Buf.Alloc.Stored.{IsStocked}
use cropstun.Buf.Buffer.{Buffer}
use cropstun.Buf.Buffer.Valid.{contents}
use cropstun.Buf.Owner.{to_slice_multi, release_multi}
use cropstun.Buf.Owner.Multi.{
  Ready, all_contents, released, to_slice_multi-contents, release_multi-released,
}
use cropstun.Tun.Windows.Session.{Session, RateJuggler, write_elements}
use cropstun.Tun.Windows.Endpoint.{Roomy, write_elements-sent}

abbrev pub error_of : Result ℕ → Option Error
error_of (ok n) = none
error_of (err e) = some e

-- The error, the buffers afterwards, the session, the rate and the pools.
abbrev pub Wrote : Type 0 → Type 0
Wrote K = Option Error × List Buffer × K × RateJuggler × Allocator

module _ {K : Type 0} (s : Session K) where
  unfoldable pub write_vectorised : Allocator → K → RateJuggler → List Buffer → Outcome (Wrote K)
  write_vectorised alloc k rate bs = do
    ss ← to_slice_multi bs
    let (r, k', rate') = write_elements s k rate ss
    (bs', alloc') ← release_multi alloc bs
    returns (error_of r, bs', k', rate', alloc')

-- One packet more was sent, with the contents; the buffers are released and the pools stocked.
pub record SentOnce {K : Type 0} (sent : K → List (List ℕ)) (k : K) (bs : List Buffer) (w : Wrote K)
    : Type 0 where
  pub no_error : w.0 ≡ none
  pub once : sent w.2 ≡ sent k ++ (all_contents bs ∷ [])
  pub buffers : w.1 ≡ map released bs
  pub stocked : IsStocked w.4

-- The session stays open and has room, every buffer is valid, has no further references and has an
-- array that can be given back, and the pools are stocked. Then `WriteVectorised` on Windows does not
-- panic and returns no error; it sends the bytes of the buffers, one behind the other, as one packet,
-- and releases all buffers; the pools stay stocked.
pub write_vectorised-SentOnce :
    {K : Type 0} (s : Session K) (sent : K → List (List ℕ))
    → Roomy s sent
    → (alloc : Allocator) (k : K) (rate : RateJuggler) (bs : List Buffer) → IsStocked alloc
    → All Ready bs
    → Returns (SentOnce sent k bs) (write_vectorised s alloc k rate bs)
unfolding write_vectorised
write_vectorised-SentOnce s sent roomy alloc k rate bs v h =
    let (e, p) = write_elements-sent s sent roomy k rate (map contents bs) in
    rw (to_slice_multi-contents bs h) (
      Returns-bind _ (SentOnce sent k bs) (release_multi alloc bs) _
        (release_multi-released alloc bs v h)
        λ r g. record { no_error = ap error_of e; once = p; buffers = g.0; stocked = g.1 })
