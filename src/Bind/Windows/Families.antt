-- ===== src/Bind/Windows/Families.antt =====
-- bind/bind_windows.go: the options that are set, and the error that counts.
use cropstun.Base.{
  ℕ, ◌+◌, ◌*◌, ◌/◌, ◌%◌, ◌^◌, ◌<◌, ◌≡◌, refl, sym, ap, subst, ◌∙◌, Bool, true, false, ◌||◌, List,
  [], ◌∷◌, Option, none, some, inl, inr, Bool-cases, arith, if◌then◌else◌,
}
use cropstun.Base.Go.{Error, ok}
use cropstun.Process.Common.{bytes_eq, read_native_uint32, read_big_endian}
use cropstun.Process.Linux.{big_endian}
use cropstun.Process.Linux.Holder.{bytes_eq→≡}
use cropstun.Bufio.Sockaddr.{read_big_endian-big_endian}
use cropstun.Net.{Addr}
use cropstun.Bind.Control.{Socket, is_local, on_descriptor}
use cropstun.Bind.Darwin.{tcp4, udp4, tcp6, udp6, ipproto_ip, ipproto_ipv6}
use cropstun.Bind.Windows.{
  ip4, ip6, ip_unicast_if, ipv6_unicast_if, network_order, is_wildcard, inner_error, udp6_error,
  bind4, bind6, bind_both, setup_control,
}

-- The family that a network's name ends in; its option decides.
abbrev pub family_error : List ℕ → Option Error → Option Error → Option Error
family_error network e6 e4 =
    if bytes_eq network ip6 || bytes_eq network tcp6 || bytes_eq network udp6
    then e6
    else (if bytes_eq network ip4 || bytes_eq network tcp4 || bytes_eq network udp4
        then e4
        else none)

-- How the number lies in memory.
abbrev pub native_bytes : ℕ → List ℕ
native_bytes n = n % 256 ∷ n / 256 % 256 ∷ n / 65536 % 256 ∷ n / 16777216 % 256 ∷ []

-- A call of the control function: the option of IPv6 is set, then that of IPv4, whose value lies in
-- memory as the index in network order; and the error is that of the network's family.
pub record SetBoth {K : Type 0} (sys : Socket K) (k : K) (fd index : ℕ) (network : List ℕ)
    (r : Option Error × K) : Type 0 where
  pub value : ℕ
  pub in_order : read_big_endian 0 (native_bytes value) ≡ index
  pub error :
      r.0
      ≡ family_error network
          (sys.setsockopt_int k fd ipproto_ipv6 ipv6_unicast_if index).0
          (sys.setsockopt_int
            (sys.setsockopt_int k fd ipproto_ipv6 ipv6_unicast_if index).1
            fd
            ipproto_ip
            ip_unicast_if
            value).0
  pub state :
      r.1
      ≡ (sys.setsockopt_int
          (sys.setsockopt_int k fd ipproto_ipv6 ipv6_unicast_if index).1
          fd
          ipproto_ip
          ip_unicast_if
          value).1

-- Four bytes are read from memory as they were written.
native_bytes-of :
    (a b c d : ℕ)
    → a < 256
    → b < 256
    → c < 256
    → d < 256
    → native_bytes (read_native_uint32 (a ∷ b ∷ c ∷ d ∷ [])) ≡ a ∷ b ∷ c ∷ d ∷ []
native_bytes-of a b c d h i j k =
    let n = a + 256 * b + 65536 * c + 16777216 * d in
    let n0 : n % 256 ≡ a = omega (arith, h) in
    let n1 : n / 256 % 256 ≡ b = omega (arith, h, i) in
    let n2 : n / 65536 % 256 ≡ c = omega (arith, h, i, j) in
    let n3 : n / 16777216 % 256 ≡ d = omega (arith, h, i, j, k) in rw (n0, n1, n2, n3) refl

udp6_error-same : (wildcard : Bool) (e6 e4 : Option Error) → udp6_error wildcard e6 e4 ≡ e6
udp6_error-same false e6 e4 = refl
udp6_error-same true none e4 = refl
udp6_error-same true (some e) none = refl
udp6_error-same true (some e) (some e') = refl

no_udp6 :
    (b c : Bool) (e6 e4 : Option Error)
    → (if b then e6 else (if c then e4 else none))
      ≡ (if b || false then e6 else (if c then e4 else none))
no_udp6 true c e6 e4 = refl
no_udp6 false c e6 e4 = refl

inner_error-family :
    (network : List ℕ) (wildcard : Bool) (e6 e4 : Option Error)
    → inner_error network wildcard e6 e4 ≡ family_error network e6 e4
inner_error-family network wildcard e6 e4 = elim (Bool-cases (bytes_eq network udp6)) [
  | inl e ↦ rw (bytes_eq→≡ network udp6 e) (udp6_error-same wildcard e6 e4)
  | inr e ↦ rw e (no_udp6 (bytes_eq network ip6 || bytes_eq network tcp6) _ e6 e4)
]

byte_lt : (n : ℕ) → n % 256 < 256
byte_lt n = omega arith

-- The value of `bind4` lies in memory as the big-endian bytes of the index.
network_order-in_order :
    (index : ℕ) → index < 256 ^ 4 → read_big_endian 0 (native_bytes (network_order index)) ≡ index
network_order-in_order index h =
    let small : index % 2 ^ 32 ≡ index = omega (arith, h) in
    ap (read_big_endian 0) (native_bytes-of _ _ _ _ (byte_lt _) (byte_lt _) (byte_lt _) (byte_lt _))
    ∙ ap (λ n. read_big_endian 0 (big_endian 4 n)) small
    ∙ read_big_endian-big_endian 4 index h

module _ {K : Type 0} (sys : Socket K) where
  bind_both-SetBoth :
      (k : K) (fd index : ℕ) (network : List ℕ) (parsed : Option Addr)
      → index < 256 ^ 4
      → SetBoth sys k fd index network (bind_both sys index network parsed k fd)
  unfolding bind_both bind4 bind6
  bind_both-SetBoth k fd index network parsed h = record {
    value = network_order index;
    in_order = network_order-in_order index h;
    error = inner_error-family network (is_wildcard parsed) _ _;
    state = refl;
  }

  -- On Windows, for an address that is not parsed or is of global unicast, a socket whose descriptor
  -- can be read, and an interface's index of 32 bits, the control function sets the option of IPv6 to
  -- the index and then, whether that fails or not, the option of IPv4 to the value that lies in memory
  -- as the index in network order. It returns the error of the option of the network's family: that
  -- of IPv6 for udp6 too, on a wildcard address as on any other.
  pub setup_control-SetBoth :
      (k : K) (fd index : ℕ) (network address : List ℕ)
      → index < 256 ^ 4
      → is_local (sys.parse_addr_port address) ≡ false
      → sys.fd k ≡ ok fd
      → SetBoth sys k fd index network (setup_control sys index k network address)
  unfolding setup_control
  setup_control-SetBoth k fd index network address h g f =
      let parsed = sys.parse_addr_port address in
      let e : setup_control sys index k network address
          ≡ on_descriptor k (sys.fd k) (bind_both sys index network parsed) =
        rw (setup_control, g) refl in
      let e' = e ∙ ap (λ r. on_descriptor k r (bind_both sys index network parsed)) f in
      subst (SetBoth sys k fd index network) (sym e')
        (bind_both-SetBoth k fd index network parsed h)
