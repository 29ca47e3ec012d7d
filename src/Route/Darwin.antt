-- ===== src/Route/Darwin.antt =====
-- route/route_darwin.go: the default route among the messages of the routing socket.
use cropstun.Base.{ℕ, ◌/◌, ◌%◌, Bool, ◌&&◌, List, [], ◌∷◌, replicate, ◌==◌, if◌then◌else◌}
use cropstun.Base.Go.{Error, Outcome, returns, panics, Result, ok, err}
use cropstun.Process.Common.{bytes_eq}
use cropstun.Route.{Route}

-- `route.Addr`: an address of IPv4, one of another type, or none.
pub data SocketAddr : Type 0 where
  inet4 : List ℕ → SocketAddr
  other_addr : SocketAddr

pub record RouteMessage : Type 0 where
  pub flags : ℕ
  pub addrs : List SocketAddr
  pub index : ℕ

-- `route.Message`
pub data Message : Type 0 where
  route_message : RouteMessage → Message
  other_message : Message

-- The kernel: what the routing socket holds, parsed, and the name and index of an interface.
pub record Kernel : Type 0 where
  pub rib : Result (List Message)
  pub interface_by_index : ℕ → Result (List ℕ × ℕ)

-- `flags & (RTF_UP | RTF_GATEWAY | RTF_STATIC) == 0`, of the values 0x1, 0x2 and 0x800.
abbrev pub has_no_flag : ℕ → Bool
has_no_flag flags = flags % 2 == 0 && flags / 2 % 2 == 0 && flags / 2048 % 2 == 0

-- What the body of the loop does with a message.
pub data Step : Type 0 where
  continues : Step
  takes : ℕ → Step

abbrev pub step_gateway : ℕ → List SocketAddr → Outcome Step
step_gateway index [] = panics
step_gateway index (SocketAddr.inet4 ip ∷ addrs) = returns (Step.takes index)
step_gateway index (SocketAddr.other_addr ∷ addrs) = returns Step.continues

abbrev pub step_addresses : ℕ → List SocketAddr → Outcome Step
step_addresses index [] = panics
step_addresses index (SocketAddr.inet4 ip ∷ addrs) =
    if bytes_eq ip (replicate 4 0) then step_gateway index addrs else returns Step.continues
step_addresses index (SocketAddr.other_addr ∷ addrs) = returns Step.continues

unfoldable pub step : Message → Outcome Step
step Message.other_message = panics
step (Message.route_message m) =
    if has_no_flag m.flags then returns Step.continues else step_addresses m.index m.addrs

abbrev pub route_of_interface : Result (List ℕ × ℕ) → Result Route
route_of_interface (err e) = err e
route_of_interface (ok i) = ok (record { interface_name = i.0; interface_index = i.1 })

module _ (sys : Kernel) where
  unfoldable pub search : List Message → Outcome (Result Route)
  search [] = returns (err Error.no_route)
  search (message ∷ messages) =
      let rest = search messages in
      elim (step message) [
        | panics ↦ panics
        | returns Step.continues ↦ rest
        | returns (Step.takes index) ↦ returns (route_of_interface (sys.interface_by_index index))
      ]

  unfoldable pub default_route_interface : Outcome (Result Route)
  default_route_interface = elim sys.rib [ err e ↦ returns (err e) | ok messages ↦ search messages ]
