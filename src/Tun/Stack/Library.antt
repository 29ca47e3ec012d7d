-- ===== src/Tun/Stack/Library.antt =====
-- The library gvisor and the application's handler as stack_gvisor.go calls them. `K` is the state of
-- all that lies outside.
use cropstun.Base.{ℕ, Bool, Option}
use cropstun.Base.Go.{Error, Result}
use cropstun.Net.{Addr}

-- `net.Addr`: that of the protocol, which holds an address and a port, or of another type.
pub data NetAddr : Type 0 where
  addr_port : Addr → ℕ → NetAddr
  other_addr : NetAddr

-- Seconds.
pub data SockOpt : Type 0 where
  keepalive_idle : ℕ → SockOpt
  keepalive_interval : ℕ → SockOpt

-- The calls for one protocol; an endpoint, and the connection made of it, are a number.
pub record Protocol (K : Type 0) : Type 0 where
  pub create_endpoint : K → Result ℕ × K
  -- `ForwarderRequest.Complete`, of TCP only.
  pub complete : K → Bool → K
  pub set_keep_alive : K → ℕ → Bool → K
  pub set_sock_opt : K → ℕ → SockOpt → K
  -- `none` is `nil`.
  pub remote_addr : K → ℕ → Option NetAddr
  pub local_addr : K → ℕ → Option NetAddr
  pub close : K → ℕ → Option Error × K
  pub abort : K → ℕ → K

-- `Metadata`; `none` is the zero `netip.AddrPort`.
pub record Metadata : Type 0 where
  pub source : Option (Addr × ℕ)
  pub destination : Option (Addr × ℕ)

-- What a handler does with its connection: it acts on the outside, looks at it, closes the
-- connection and sees the error of that, and returns an error or none.
pub data Script (K : Type 0) : Type 0 where
  finish : Option Error → Script K
  act : (K → K) → Script K → Script K
  look : (K → Script K) → Script K
  close_then : (Option Error → Script K) → Script K
