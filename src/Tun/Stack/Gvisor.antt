-- ===== src/Tun/Stack/Gvisor.antt =====
-- stack_gvisor.go: `Start`, `Close`, `newGVisorStack` and the conversion of addresses.
use cropstun.Base.{ℕ, ◌*◌, Bool, true, List, [], ◌∷◌, Option, none, some, ◌==◌, if◌then◌else◌}
use cropstun.Base.Go.{Error, Result, ok, err, Outcome, returns, panics, ◌>>=◌}
use cropstun.Net.{Addr, is6}
use cropstun.Tun.Darwin.Requests.{as4, as16}

-- The settings of the library's stack.
pub data Setting : Type 0 where
  route_table_of_both_families : ℕ → Setting
  spoofing : ℕ → Bool → Setting
  promiscuous_mode : ℕ → Bool → Setting
  tcp_receive_buffer : ℕ → ℕ → ℕ → Setting
  tcp_send_buffer : ℕ → ℕ → ℕ → Setting
  tcp_sack : Bool → Setting
  tcp_moderate_receive_buffer : Bool → Setting
  tcp_handler : Setting
  udp_handler : Setting

-- The library: stacks `S`, endpoints of a link `L` and of connections `E`.
pub record Library (K S L E : Type 0) : Type 0 where
  -- `NewEndpoint` of the device, and its `Close`.
  pub new_endpoint : K → Result L × K
  pub close_tun : K → Option Error × K
  -- `stack.New`, with IPv4, IPv6, TCP, UDP and both versions of ICMP.
  pub new_stack : K → S × K
  pub create_nic : K → S → ℕ → L → Option Error × K
  pub apply : K → S → Setting → K
  -- `Attach(nil)`
  pub detach : K → L → K
  pub close_stack : K → S → K
  pub cleanup_endpoints : K → S → List E × K
  pub abort : K → E → K

-- The fields `stack` and `endpoint`.
pub record GVisor (S L : Type 0) : Type 0 where
  pub stack : Option S
  pub endpoint : Option L

abbrev pub default_nic : ℕ
default_nic = 1

abbrev pub buf_size : ℕ
buf_size = 20 * 1024

abbrev pub settings : List Setting
settings =
    Setting.route_table_of_both_families default_nic
    ∷ Setting.spoofing default_nic true
    ∷ Setting.promiscuous_mode default_nic true
    ∷ Setting.tcp_receive_buffer 1 buf_size buf_size
    ∷ Setting.tcp_send_buffer 1 buf_size buf_size
    ∷ Setting.tcp_sack true
    ∷ Setting.tcp_moderate_receive_buffer true
    ∷ []

module _ {K S L E : Type 0} (lib : Library K S L E) where
  unfoldable pub apply_all : K → S → List Setting → K
  apply_all k s [] = k
  apply_all k s (x ∷ xs) = apply_all (lib.apply k s x) s xs

  unfoldable pub new_gvisor_stack : K → L → Result S × K
  unfolding apply_all
  new_gvisor_stack k ep =
      let (s, k1) = lib.new_stack k in
      let (e, k2) = lib.create_nic k1 s default_nic ep in
      elim e [ some x ↦ (err x, k2) | none ↦ (ok s, apply_all k2 s settings) ]

  -- `Start`
  unfoldable pub start : K → GVisor S L → Option Error × K × GVisor S L
  unfolding new_gvisor_stack
  start k g =
      let (r, k1) = lib.new_endpoint k in
      elim r [
        | err e ↦ (some e, k1, g)
        | ok ep ↦
            let (r', k2) = new_gvisor_stack k1 ep in
            elim r' [
              | err e ↦ (some e, k2, g)
              | ok s ↦ (
                none,
                lib.apply (lib.apply k2 s Setting.tcp_handler) s Setting.udp_handler,
                record { stack = some s; endpoint = some ep },
              )
            ]
      ]

  unfoldable pub abort_all : K → List E → K
  abort_all k [] = k
  abort_all k (e ∷ es) = abort_all (lib.abort k e) es

  abbrev close_both : K → Option S → Option L → Outcome K
  close_both k none _ = panics
  close_both k _ none = panics
  close_both k (some s) (some ep) =
      let (es, k1) = lib.cleanup_endpoints (lib.close_stack (lib.detach k ep) s) s in
      returns (lib.close_tun (abort_all k1 es)).1

  -- `Close`; it returns no error, and panics before a `Start` that succeeded.
  unfoldable pub close_gvisor : K → GVisor S L → Outcome K
  unfolding abort_all
  close_gvisor k g = close_both k g.stack g.endpoint

-- `tcpip.Address`, of 4 or 16 bytes, as a number.
pub record Address : Type 0 where
  pub len : ℕ
  pub number : ℕ

unfoldable pub address_from_addr : Addr → Outcome Address
address_from_addr destination =
    if is6 destination
    then returns (record { len = 16; number = as16 destination })
    else as4 destination >>= λ a. returns (record { len = 4; number = a })

-- `As4` of the library panics for another length.
unfoldable pub addr_from_address : Address → Outcome Addr
addr_from_address address =
    if address.len == 16
    then returns (Addr.v6 address.number)
    else if address.len == 4
    then returns (Addr.v4 address.number)
    else panics
