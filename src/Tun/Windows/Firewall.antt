-- ===== src/Tun/Windows/Firewall.antt =====
-- tun_windows.go: the filters of the Windows Filtering Platform that `configure` adds.
use cropstun.Base.{
  ℕ, ◌≡◌, Bool, true, false, ◌&&◌, List, [], ◌∷◌, ◌++◌, Option, none, some, ltb, ◌==◌,
  if◌then◌else◌, arith,
}
use cropstun.Net.{Prefix}
use cropstun.Tun.Options.{Options, is_empty}

-- `FWPM_LAYER_ALE_AUTH_CONNECT_V4` and `…_V6`
pub data Layer : Type 0 where
  connect_v4 connect_v6 : Layer

pub data Action : Type 0 where
  permit block : Action

-- The condition of a filter, with the value that is compared: the program, the index of the local
-- interface, or the remote port.
pub data Condition : Type 0 where
  always : Condition
  app_id local_interface remote_port : ℕ → Condition

pub record Filter : Type 0 where
  pub layer : Layer
  pub action : Action
  pub weight : ℕ
  pub condition : Condition
  -- `FWPM_FILTER_FLAG_CLEAR_ACTION_RIGHT`
  pub clear_action_right : Bool

abbrev filter : Layer → Action → ℕ → Condition → Bool → Filter
filter layer action weight condition clear = record {
  layer = layer;
  action = action;
  weight = weight;
  condition = condition;
  clear_action_right = clear;
}

abbrev dns_port : ℕ
dns_port = 53

-- The filters that are added before the interface is looked up, and those after.
unfoldable pub program_filters : Options → ℕ → List Filter
program_filters o app =
    filter Layer.connect_v4 Action.permit 13 (Condition.app_id app) true
    ∷ filter Layer.connect_v6 Action.permit 13 (Condition.app_id app) true
    ∷ (if is_empty o.inet6_address
        then filter Layer.connect_v6 Action.block 12 Condition.always false ∷ []
        else [])

abbrev tun_filters : Layer → List Prefix → ℕ → List Filter
tun_filters layer addresses index =
    if is_empty addresses
    then []
    else filter layer Action.permit 11 (Condition.local_interface index) false ∷ []

unfoldable pub interface_filters : Options → ℕ → List Filter
interface_filters o index =
    tun_filters Layer.connect_v4 o.inet4_address index
    ++ (tun_filters Layer.connect_v6 o.inet6_address index
        ++ (filter Layer.connect_v4 Action.block 10 (Condition.remote_port dns_port) false
            ∷ filter Layer.connect_v6 Action.block 10 (Condition.remote_port dns_port) false
            ∷ []))

-- An outgoing connection.
pub record Connection : Type 0 where
  pub at_layer : Layer
  pub program : ℕ
  pub interface : ℕ
  pub port : ℕ

abbrev pub same_layer : Layer → Layer → Bool
same_layer Layer.connect_v4 Layer.connect_v4 = true
same_layer Layer.connect_v6 Layer.connect_v6 = true
same_layer _ _ = false

abbrev pub meets : Condition → Connection → Bool
meets Condition.always c = true
meets (Condition.app_id a) c = c.program == a
meets (Condition.local_interface i) c = c.interface == i
meets (Condition.remote_port p) c = c.port == p

-- The documented evaluation of a sublayer: of the filters that match, the one of the greatest weight
-- decides; `best` is the one found so far.
abbrev pub heavier : Filter → Option Filter → Option Filter
heavier f none = some f
heavier f (some g) = if ltb g.weight f.weight then some f else some g

abbrev pub strongest : List Filter → Connection → Option Filter → Option Filter
strongest [] c best = best
strongest (f ∷ fs) c best =
    strongest fs c
      (if same_layer f.layer c.at_layer && meets f.condition c then heavier f best else best)

abbrev pub action_of : Option Filter → Option Action
action_of none = none
action_of (some f) = some f.action

abbrev pub verdict : List Filter → Connection → Option Action
verdict fs c = action_of (strongest fs c none)

-- What the filters are for. The program itself may connect. Without an IPv6 address on the device
-- nothing else may connect by IPv6. What goes through the device may connect, by a family of which
-- the device has an address. All other connections to DNS are blocked; on the rest there is no word.
abbrev pub may_use_device : Options → Layer → Bool
may_use_device o Layer.connect_v4 = if is_empty o.inet4_address then false else true
may_use_device o Layer.connect_v6 = if is_empty o.inet6_address then false else true

abbrev pub leaks6 : Options → Layer → Bool
leaks6 o Layer.connect_v4 = false
leaks6 o Layer.connect_v6 = is_empty o.inet6_address

abbrev pub policy : Options → ℕ → ℕ → Connection → Option Action
policy o app index c =
    if c.program == app
    then some Action.permit
    else (if leaks6 o c.at_layer
        then some Action.block
        else (if may_use_device o c.at_layer && c.interface == index
            then some Action.permit
            else if c.port == dns_port
            then some Action.block
            else none))

pub verdict-layer :
    (as4 as6 : List Prefix) (o : Options) (app index : ℕ) (layer : Layer)
    (program interface port : ℕ)
    → o.inet4_address ≡ as4
    → o.inet6_address ≡ as6
    → verdict
        (program_filters o app ++ interface_filters o index)
        (record { at_layer = layer; program = program; interface = interface; port = port })
      ≡ policy o app index
          (record { at_layer = layer; program = program; interface = interface; port = port })
unfolding program_filters interface_filters
verdict-layer [] [] o app index Layer.connect_v4 program interface port h k =
    rw (h, k) (ground arith)
verdict-layer [] [] o app index Layer.connect_v6 program interface port h k =
    rw (h, k) (ground arith)
verdict-layer [] (y ∷ ys) o app index Layer.connect_v4 program interface port h k =
    rw (h, k) (ground arith)
verdict-layer [] (y ∷ ys) o app index Layer.connect_v6 program interface port h k =
    rw (h, k) (ground arith)
verdict-layer (x ∷ xs) [] o app index Layer.connect_v4 program interface port h k =
    rw (h, k) (ground arith)
verdict-layer (x ∷ xs) [] o app index Layer.connect_v6 program interface port h k =
    rw (h, k) (ground arith)
verdict-layer (x ∷ xs) (y ∷ ys) o app index Layer.connect_v4 program interface port h k =
    rw (h, k) (ground arith)
verdict-layer (x ∷ xs) (y ∷ ys) o app index Layer.connect_v6 program interface port h k =
    rw (h, k) (ground arith)
