-- ===== src/Bufio/Gathered.antt =====
-- common/bufio/vectorised.go: what `BufferedVectorisedWriter` writes, and what becomes of the buffers.
use cropstun.Base.{
  ℕ, zero, suc, ◌-◌, ◌≡◌, refl, sym, ap, ◌∙◌, true, List, [], ◌∷◌, map, concat, All, Option, some,
  length, length-append, length-overwrite, length-window, replicate, length-replicate, leb, ◌&&◌,
  overwrite, arith, inl, inr, Bool-cases, ltb, append-nil,
}
use cropstun.Base.Int.{pos}
use cropstun.Base.Go.{Error, Returns, Returns-bind, Returns-imp}
use cropstun.Buf.Alloc.{Allocator}
use cropstun.Buf.Alloc.Stored.{IsStocked}
use cropstun.Buf.Buffer.{Buffer, free_bytes, sub_slice}
use cropstun.Buf.Buffer.Valid.{contents}
use cropstun.Buf.Owner.{new_buffer, release, release_multi}
use cropstun.Buf.Owner.Lifecycle.{Fresh, FreshStocked, IsOwned, new_buffer-Fresh, release-Gone}
use cropstun.Buf.Owner.Multi.{
  Ready, all_contents, released, bytes-contents, len_multi-contents, release_multi-released,
}
use cropstun.Tun.Windows.Session.{gather, total_size}
use cropstun.Tun.Windows.Session.Packets.{gather-concat}
use cropstun.Bufio.Vectorised.{
  copy_multi, gather_multi, release_option, Written, give_back, write_gathered, write_several,
  write_by_len, buffered_write_vectorised,
}

total_size-concat : (es : List (List ℕ)) → total_size es ≡ length (concat es)
total_size-concat [] = refl
total_size-concat (e ∷ es) = omega (arith, total_size-concat es, length-append e (concat es))

copy_multi-gather :
    (to_buffer : List ℕ) (n : ℕ) (bs : List Buffer)
    → All Ready bs
    → Returns (λ r. r.1 ≡ gather to_buffer n (map contents bs)) (copy_multi to_buffer n bs)
unfolding copy_multi gather
copy_multi-gather to_buffer n [] h = refl
copy_multi-gather to_buffer n (b ∷ bs) h =
    rw (bytes-contents b h.0.valid)
      (copy_multi-gather (overwrite to_buffer n (contents b)) _ bs h.1)

-- A target of the right size is filled with the contents.
copy_multi-contents :
    (to_buffer : List ℕ) (bs : List Buffer)
    → All Ready bs
    → length to_buffer ≡ length (all_contents bs)
    → Returns (λ r. r.1 ≡ all_contents bs) (copy_multi to_buffer 0 bs)
copy_multi-contents to_buffer bs h n =
    let g =
      gather-concat to_buffer 0 (map contents bs)
        (omega (arith, n, total_size-concat (map contents bs))) in
    Returns-imp (copy_multi to_buffer 0 bs) (λ r e. e ∙ g) (copy_multi-gather to_buffer 0 bs h)

-- The bytes that were gathered, and the pools behind the release of the buffer they stand in.
pub record Gathered (bs : List Buffer) (r : List ℕ × Option Buffer × Allocator) : Type 0 where
  pub whole : r.0 ≡ all_contents bs
  pub freed : Returns IsStocked (release_option r.2 r.1)

free_bytes-Fresh :
    (size : ℕ) (b : Buffer) → Fresh size b → Returns (λ free. length free ≡ size) (free_bytes b)
unfolding free_bytes sub_slice
free_bytes-Fresh size b f =
    let room : b.capacity - b.end ≡ size = ap (λ c. c.room) f.empty in
    let g : (leb b.end b.capacity && leb b.capacity (length b.slice.backing)) ≡ true =
      ground (arith, f.valid.within, f.valid.shown, f.valid.backed) in
    rw g (
      length-window b.end (b.capacity - b.end) b.slice.backing
        (omega (arith, f.valid.within, f.valid.shown, f.valid.backed))
      ∙ room)

IsOwned-overwrite :
    (b : Buffer) (e : ℕ) (s : List ℕ)
    → IsOwned b
    → IsOwned (record b { slice = record b.slice { backing = overwrite b.slice.backing e s } })
IsOwned-overwrite b e s (inl u) = inl u
IsOwned-overwrite b e s (inr p) = inr (rw (length-overwrite b.slice.backing e s) p)

release_option-Ready :
    (alloc : Allocator) (b : Buffer)
    → IsStocked alloc
    → IsOwned b
    → b.refs ≡ pos 0
    → Returns IsStocked (release_option alloc (some b))
release_option-Ready alloc b v o r =
    Returns-bind _ IsStocked (release alloc b) _ (release-Gone alloc b v o r) λ x g. g.0

gather_multi-Gathered :
    (alloc : Allocator) (bs : List Buffer)
    → IsStocked alloc
    → All Ready bs
    → Returns (Gathered bs) (gather_multi alloc (length (all_contents bs)) bs)
unfolding gather_multi
gather_multi-Gathered alloc bs v h =
    let n = length (all_contents bs) in
    elim (Bool-cases (ltb 65535 n)) [
      | inl big ↦ rw big (
          Returns-bind _ (Gathered bs) (copy_multi (replicate n 0) 0 bs) _
            (copy_multi-contents (replicate n 0) bs h (length-replicate n 0))
            λ r e. record { whole = e; freed = v })
      | inr small ↦ rw small (
          Returns-bind (FreshStocked n) (Gathered bs) (new_buffer alloc n) _
            (new_buffer-Fresh alloc n v)
            λ (b, alloc') (f, v').
              Returns-bind _ (Gathered bs) (free_bytes b) _ (free_bytes-Fresh n b f) λ free l.
                Returns-bind _ (Gathered bs) (copy_multi free 0 bs) _
                  (copy_multi-contents free bs h l)
                  λ r e. record {
                    whole = e;
                    freed =
                        release_option-Ready alloc' _ v' (IsOwned-overwrite b b.end _ f.owned)
                          f.unshared;
                  })
    ]

length-zero : (xs : List ℕ) → length xs ≡ 0 → xs ≡ []
length-zero [] h = refl
length-zero (x ∷ xs) h = absurd (omega (arith, h))

-- The error and the state are those of one write of the bytes, the buffers are released, and the
-- pools are stocked.
pub record WroteOnce {K : Type 0} (write : K → List ℕ → (ℕ × Option Error) × K) (k : K)
    (bs : List Buffer) (r : Written K) : Type 0 where
  pub error : r.0 ≡ (write k (all_contents bs)).0.1
  pub state : r.2 ≡ (write k (all_contents bs)).1
  pub buffers : r.1 ≡ map released bs
  pub stocked : IsStocked r.3

-- The deferred calls keep the error and the state.
pub give_back-released :
    {K : Type 0} (alloc : Allocator) (bs : List Buffer) (r : (ℕ × Option Error) × K)
    → IsStocked alloc
    → All Ready bs
    → Returns
        (λ w. (w.0 ≡ r.0.1) × (w.1 ≡ map released bs) × (w.2 ≡ r.1) × IsStocked w.3)
        (give_back alloc bs r)
give_back-released alloc bs r v h =
    Returns-bind _ _ (release_multi alloc bs) _ (release_multi-released alloc bs v h)
      λ x g. (refl, g.0, refl, g.1)

module _ {K : Type 0} (write : K → List ℕ → (ℕ × Option Error) × K) (k : K) where
  give_back-WroteOnce :
      (alloc : Allocator) (bs : List Buffer) (s : List ℕ)
      → IsStocked alloc
      → All Ready bs
      → s ≡ all_contents bs
      → Returns (WroteOnce write k bs) (give_back alloc bs (write k s))
  give_back-WroteOnce alloc bs s v h e =
      Returns-imp (give_back alloc bs (write k s))
        (λ r g. record {
          error = g.0 ∙ ap (λ x. (write k x).0.1) e;
          buffers = g.1;
          state = g.2 ∙ ap (λ x. (write k x).1) e;
          stocked = g.3;
        })
        (give_back-released alloc bs (write k s) v h)

  write_gathered-WroteOnce :
      (alloc : Allocator) (bs : List Buffer)
      → IsStocked alloc
      → All Ready bs
      → Returns (WroteOnce write k bs) (write_gathered write alloc k bs)
  unfolding write_gathered
  write_gathered-WroteOnce alloc bs v h =
      let n = len_multi-contents bs h in
      rw (write_gathered, n)
        (Returns-bind (Gathered bs) (WroteOnce write k bs)
          (gather_multi alloc (length (all_contents bs)) bs) _ (gather_multi-Gathered alloc bs v h)
          λ r g.
            Returns-bind IsStocked (WroteOnce write k bs) (release_option r.2 r.1) _ g.freed
              λ alloc2 v2. give_back-WroteOnce alloc2 bs r.0 v2 h g.whole)

  write_several-WroteOnce :
      (alloc : Allocator) (bs : List Buffer)
      → IsStocked alloc
      → All Ready bs
      → Returns (WroteOnce write k bs) (write_several write alloc k bs)
  unfolding write_several
  write_several-WroteOnce alloc [] v h = write_gathered-WroteOnce alloc [] v h
  write_several-WroteOnce alloc (b ∷ []) v h =
      rw (bytes-contents b h.0.valid)
        (give_back-WroteOnce alloc (b ∷ []) (contents b) v h (sym (append-nil (contents b))))
  write_several-WroteOnce alloc (b ∷ c ∷ bs) v h = write_gathered-WroteOnce alloc (b ∷ c ∷ bs) v h

  write_by_len-WroteOnce :
      (alloc : Allocator) (bs : List Buffer) (n : ℕ)
      → IsStocked alloc
      → All Ready bs
      → n ≡ length (all_contents bs)
      → Returns (WroteOnce write k bs) (write_by_len write alloc k bs (pos n))
  unfolding write_by_len
  write_by_len-WroteOnce alloc bs zero v h e =
      give_back-WroteOnce alloc bs [] v h (sym (length-zero (all_contents bs) (sym e)))
  write_by_len-WroteOnce alloc bs (suc n) v h e = write_several-WroteOnce alloc bs v h

  -- Every buffer is valid, has no further references, and has an array that can be given back, and the
  -- pools are stocked. Then `WriteVectorised` of `BufferedVectorisedWriter` does not panic: it writes
  -- the bytes of the buffers, one behind the other, by one call of its writer (an empty one if there
  -- are no bytes), returns the error of that, and releases all buffers; the pools stay stocked.
  pub buffered_write_vectorised-WroteOnce :
      (alloc : Allocator) (bs : List Buffer)
      → IsStocked alloc
      → All Ready bs
      → Returns (WroteOnce write k bs) (buffered_write_vectorised write alloc k bs)
  unfolding buffered_write_vectorised
  buffered_write_vectorised-WroteOnce alloc bs v h =
      rw (buffered_write_vectorised, len_multi-contents bs h)
        (write_by_len-WroteOnce alloc bs (length (all_contents bs)) v h refl)
