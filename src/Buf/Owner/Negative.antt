-- ===== src/Buf/Owner/Negative.antt =====
-- common/buf/buffer.go: `NewSize` of any size, and then `Release`.
use cropstun.Base.{ℕ, ◌≡◌, false}
use cropstun.Base.Int.{ℤ, pos, negsuc}
use cropstun.Base.Go.{Outcome, panics, Returns, ◌>>=◌}
use cropstun.Buf.Alloc.{Allocator}
use cropstun.Buf.Alloc.Stored.{IsStocked}
use cropstun.Buf.Owner.{Sized, new_size, release_sized}
use cropstun.Buf.Owner.Lifecycle.{FreshStocked}

-- `NewSize`, and `Release` of what it yields.
pub make_and_release : Allocator → ℤ → Outcome (Sized × Allocator)
make_and_release alloc size = do (b, alloc') ← new_size alloc size; release_sized alloc' b

-- A buffer that `Release` leaves, over stocked pools.
abbrev pub Left : Sized × Allocator → Type 0
Left (Sized.buffer b, alloc) = (b.managed ≡ false) × IsStocked alloc
Left (Sized.negative s n, alloc) = ⊥

abbrev pub LeftUnlessNegative : ℤ → Outcome (Sized × Allocator) → Type 0
LeftUnlessNegative (pos size) o = Returns Left o
LeftUnlessNegative (negsuc n) o = o ≡ panics

-- A new buffer of a size that is not negative.
abbrev FreshSized : ℕ → Sized × Allocator → Type 0
FreshSized size (Sized.buffer b, alloc) = FreshStocked size (b, alloc)
FreshSized size (Sized.negative s n, alloc) = ⊥
