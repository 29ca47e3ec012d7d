-- ===== src/Buf/Owner/Copies.antt =====
-- common/buf/buffer.go: `ToOwned`.
use cropstun.Base.{
  ℕ, ◌-◌, ◌≤◌, ◌≡◌, refl, ap, true, ◌&&◌, length, take_all, window, length-window, overwrite,
  length-overwrite, window-overwrite_self, min, leb, arith, inl, inr,
}
use cropstun.Base.Go.{returns, Returns, Returns-bind}
use cropstun.Buf.Alloc.{Slice, Allocator}
use cropstun.Buf.Alloc.Stored.{IsStocked}
use cropstun.Buf.Buffer.{Buffer, copy_into}
use cropstun.Buf.Buffer.Valid.{IsValid, contents, view}
use cropstun.Buf.Buffer.Drain.{sub_slice-all}
use cropstun.Buf.Owner.{new_buffer, to_owned}
use cropstun.Buf.Owner.Lifecycle.{Fresh, FreshStocked, IsOwned, new_buffer-Fresh}

-- A copy holds the same bytes at the same positions.
abbrev pub Copied : Buffer → Buffer × Allocator → Type 0
Copied b (c, alloc) =
    IsValid c × (view c ≡ view b) × (c.start ≡ b.start) × IsOwned c × IsStocked alloc

copied_slice : Buffer → Buffer → Slice
copied_slice b n = record n.slice { backing = overwrite n.slice.backing b.start (contents b) }

Fresh-room : (size : ℕ) (n : Buffer) → Fresh size n → size ≤ n.slice.len
Fresh-room size n f = omega (arith, ap (λ c. c.room) f.empty, f.valid.shown)

copy_into-Fresh :
    (b n : Buffer)
    → IsValid b
    → Fresh b.slice.len n
    → copy_into n.slice b.start b.end (contents b)
      ≡ returns (min (b.end - b.start) (length (contents b)), copied_slice b n)
unfolding copy_into copied_slice
copy_into-Fresh b n v f =
    let g : (leb b.start b.end && leb b.end (length n.slice.backing)) ≡ true =
      ground (arith, Fresh-room b.slice.len n f, f.valid.backed) in
    let t = take_all (b.end - b.start) (contents b) (omega (arith, size)) in rw (g, t)
  where
    size : length (contents b) ≡ b.end - b.start
    size = length-window b.start (b.end - b.start) b.slice.backing (omega arith)

-- `ToOwned` of a valid buffer does not panic. The copy is valid, holds the same bytes at the same
-- positions with the same room, and has an array that can be released; the pools stay stocked.
pub to_owned_lem :
    (alloc : Allocator) (b : Buffer)
    → IsStocked alloc
    → IsValid b
    → Returns (Copied b) (to_owned alloc b)
unfolding to_owned copied_slice
to_owned_lem alloc b v w =
    Returns-bind (FreshStocked b.slice.len) (Copied b) (new_buffer alloc b.slice.len) _
      (new_buffer-Fresh alloc b.slice.len v)
      λ (n, alloc') (f, v').
        rw (sub_slice-all b w, copy_into-Fresh b n w f)
          (
            omega (arith, kept n, Fresh-room b.slice.len n f, f.valid.backed),
            ap (λ q. record { queue = q; room = b.capacity - b.end }) (same n f),
            refl,
            owned n f.owned,
            v',
          )
  where
    kept :
        (n : Buffer)
        → length (overwrite n.slice.backing b.start (contents b)) ≡ length n.slice.backing
    kept n = length-overwrite n.slice.backing b.start (contents b)

    same :
        (n : Buffer)
        → Fresh b.slice.len n
        → window b.start (b.end - b.start) (overwrite n.slice.backing b.start (contents b))
          ≡ contents b
    same n f =
        let size = length-window b.start (b.end - b.start) b.slice.backing (omega arith) in
        rw size at (
          window-overwrite_self b.start n.slice.backing (contents b)
            (omega (arith, size, Fresh-room b.slice.len n f, f.valid.backed)))

    owned : (n : Buffer) → IsOwned n → IsOwned (record n { slice = copied_slice b n })
    owned n (inl u) = inl u
    owned n (inr p) = inr (rw (kept n) p)
