-- ===== src/Tun/Linux/Flags.antt =====
-- tun_linux_flags.go: the ioctls on the offload of checksums.
use cropstun.Base.{ℕ, Bool, List, Option, none, some, overwrite, replicate, ◌==◌}
use cropstun.Base.Go.{Error, Result, ok, err}

-- `ethtoolValue`
pub record EthtoolValue : Type 0 where
  pub cmd : ℕ
  pub data_value : ℕ

-- The kernel: sockets, and the ioctl SIOCETHTOOL for the name of an interface, in 16 bytes, and a value
-- that it may change.
pub record Sockets (K : Type 0) : Type 0 where
  pub socket : K → ℕ → ℕ → ℕ → Result ℕ × K
  pub close : K → ℕ → K
  pub ioctl_ethtool : K → ℕ → List ℕ → EthtoolValue → (Option Error × EthtoolValue) × K

module _ {K : Type 0} (sys : Sockets K) where
  -- The ioctl on a socket of its own, which the deferred call closes.
  unfoldable pub ethtool : K → List ℕ → EthtoolValue → Result EthtoolValue × K
  ethtool k name value =
      let (r, k1) = sys.socket k 2 2 0 in
      elim r [
        | err e ↦ (err e, k1)
        | ok fd ↦
            let ((e, value'), k2) =
              sys.ioctl_ethtool k1 fd (overwrite (replicate 16 0) 0 name) value in
            let answer : Result EthtoolValue = elim e [ some x ↦ err x | none ↦ ok value' ] in
            (answer, sys.close k2 fd)
      ]

  unfoldable pub check_checksum_offload : K → List ℕ → ℕ → Result Bool × K
  unfolding ethtool
  check_checksum_offload k name cmd =
      let (r, k') = ethtool k name (record { cmd = cmd; data_value = 0 }) in
      let answer : Result Bool = elim r [ err e ↦ err e | ok v ↦ ok (v.data_value == 0) ] in
      (answer, k')

  unfoldable pub set_checksum_offload : K → List ℕ → ℕ → Option Error × K
  unfolding ethtool
  set_checksum_offload k name cmd =
      let (r, k') = ethtool k name (record { cmd = cmd; data_value = 0 }) in
      let answer : Option Error = elim r [ err e ↦ some e | ok v ↦ none ] in (answer, k')
