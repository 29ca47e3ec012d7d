-- ===== src/Buf/Owner/Multi.antt =====
-- common/buf/multi.go: what lists of buffers hold, and their release.
use cropstun.Base.{
  ℕ, ◌≡◌, refl, sym, ap, ap₂, ◌∙◌, List, [], ◌∷◌, map, concat, All, length, length-append, arith,
  inl, inr, if◌then◌else◌,
}
use cropstun.Base.Int.{pos}
use cropstun.Base.Go.{returns, Returns, Returns-bind, Returns-imp}
use cropstun.Buf.Alloc.{Allocator}
use cropstun.Buf.Alloc.Stored.{IsStocked}
use cropstun.Buf.Buffer.{Buffer, bytes, len}
use cropstun.Buf.Buffer.Valid.{IsValid, contents, length-contents}
use cropstun.Buf.Buffer.Drain.{sub_slice-all}
use cropstun.Buf.Owner.{zero_buffer, release, len_multi, to_slice_multi, release_multi}
use cropstun.Buf.Owner.Lifecycle.{IsOwned, Gone, release-Gone}

-- The buffer is valid, nothing else refers to it, and its array can be given back.
pub record Ready (b : Buffer) : Type 0 where
  pub valid : IsValid b
  pub owned : IsOwned b
  pub unshared : b.refs ≡ pos 0

-- What the buffers hold together.
abbrev pub all_contents : List Buffer → List ℕ
all_contents bs = concat (map contents bs)

-- A released buffer.
abbrev pub released : Buffer → Buffer
released b = if b.managed then zero_buffer else b

pub bytes-contents : (b : Buffer) → IsValid b → bytes b ≡ returns (contents b)
unfolding bytes
bytes-contents b v = sub_slice-all b v

pub len_multi-contents :
    (bs : List Buffer) → All Ready bs → len_multi bs ≡ pos (length (all_contents bs))
unfolding len_multi len
len_multi-contents [] h = refl
len_multi-contents (b ∷ bs) h = rw (len_multi-contents bs h.1) (
    ground (
      arith,
      length-append (contents b) (all_contents bs),
      length-contents b h.0.valid,
      h.0.valid.ordered,
    ))

pub to_slice_multi-contents :
    (bs : List Buffer) → All Ready bs → to_slice_multi bs ≡ returns (map contents bs)
unfolding to_slice_multi
to_slice_multi-contents [] h = refl
to_slice_multi-contents (b ∷ bs) h =
    rw (bytes-contents b h.0.valid, to_slice_multi-contents bs h.1) refl

Gone-released : (b : Buffer) (r : Buffer × Allocator) → Gone b r → r.0 ≡ released b
Gone-released b r (v, inl (m, e)) = e ∙ ap (λ c. if c then zero_buffer else b) (sym m)
Gone-released b r (v, inr (m, e)) = e ∙ ap (λ c. if c then zero_buffer else b) (sym m)

pub release-released :
    (alloc : Allocator) (b : Buffer)
    → IsStocked alloc
    → Ready b
    → Returns (λ r. (r.0 ≡ released b) × IsStocked r.1) (release alloc b)
release-released alloc b v h =
    Returns-imp (release alloc b) (λ r g. (Gone-released b r g, g.0))
      (release-Gone alloc b v h.owned h.unshared)

pub release_multi-released :
    (alloc : Allocator) (bs : List Buffer)
    → IsStocked alloc
    → All Ready bs
    → Returns (λ r. (r.0 ≡ map released bs) × IsStocked r.1) (release_multi alloc bs)
unfolding release_multi
release_multi-released alloc [] v h = (refl, v)
release_multi-released alloc (b ∷ bs) v h =
    Returns-bind _ _ (release alloc b) _ (release-released alloc b v h.0) λ r g.
      Returns-bind _ _ (release_multi r.1 bs) _ (release_multi-released r.1 bs g.1 h.1)
        λ s k. (ap₂ (◌∷◌) g.0 k.0, k.1)
