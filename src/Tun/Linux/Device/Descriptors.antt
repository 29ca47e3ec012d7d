-- ===== src/Tun/Linux/Device/Descriptors.antt =====
-- tun_linux.go: the descriptors that `New` leaves open.
use cropstun.Base.{ℕ, ◌≡◌, List, ◌∷◌}
use cropstun.Base.Go.{Result, ok, err, Outcome, returns}
use cropstun.Tun.Options.{Options}
use cropstun.Tun.Linux.System.{System}
use cropstun.Tun.Linux.Netlink.{NativeTun}
use cropstun.Tun.Linux.Device.Kept.{Tracks}

module _ {K : Type 0} (sys : System K) (fds : K → List ℕ) (tracks : Tracks sys fds) where
  -- `open` leaves its descriptor open, or on an error none.
  abbrev Opens : List ℕ → Result ℕ × K → Type 0
  Opens fs (ok fd, k) = fds k ≡ fd ∷ fs
  Opens fs (err e, k) = fds k ≡ fs

-- What `New` leaves, by what `open` has returned, over the descriptors from before.
abbrev pub Leaves : List ℕ → Result ℕ → Outcome (Result NativeTun) → List ℕ → Type 0
Leaves before (err e) (returns (err x)) after = (x ≡ e) × (after ≡ before)
Leaves before (ok fd) (returns (err x)) after = after ≡ fd ∷ before
Leaves before (ok fd) (returns (ok t)) after = (t.fd ≡ fd) × (after ≡ fd ∷ before)
Leaves before _ _ after = ⊥
