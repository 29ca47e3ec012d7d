-- ===== src/Process/Windows/Search.antt =====
-- The search in a table of the documented layout: rows of words, behind the word that counts them.
use cropstun.Base.{
  ℕ, ◌+◌, ◌-◌, ◌*◌, ◌%◌, ◌^◌, ◌≤◌, ◌<◌, ◌≡◌, refl, sym, ap, subst, ◌∙◌, Bool, true, false, ◌&&◌,
  ◌||◌, List, [], ◌∷◌, ◌++◌, append_assoc, All, length, length-append, length-drop, drop-drop, drop,
  take, window, ◌==◌, if◌then◌else◌, arith,
}
use cropstun.Base.Go.{Error, returns, Result, ok, err}
use cropstun.Net.{Addr, addr_eq, is_unspecified}
use cropstun.Process.Common.{slice, read_native_uint32, read_big_endian}
use cropstun.Process.Windows.{new_searcher, row_matches, search_rows, search, ntohs, ip_to_addr}

-- Four bytes.
pub record Word : Type 0 where
  pub b0 : ℕ
  pub b1 : ℕ
  pub b2 : ℕ
  pub b3 : ℕ

abbrev pub value : Word → ℕ
value w = w.b0 + 256 * w.b1 + 256 * 256 * w.b2 + 256 * 256 * 256 * w.b3

abbrev pub bytes : List Word → List ℕ
bytes [] = []
bytes (w ∷ ws) = w.b0 ∷ w.b1 ∷ w.b2 ∷ w.b3 ∷ bytes ws

-- The rows of the four tables, of IPv4 (the first index) or not, and of TCP (the second) or not.
pub data Row : Bool → Bool → Type 0 where
  tcp4 : (state local port remote remote_port pid : Word) → Row true true
  udp4 : (local port pid : Word) → Row true false
  tcp6 :
      (l0 l1 l2 l3 scope port r0 r1 r2 r3 remote_scope remote_port state pid : Word)
      → Row false true
  udp6 : (l0 l1 l2 l3 scope port pid : Word) → Row false false

abbrev pub words : {v4 tcp : Bool} → Row v4 tcp → List Word
words (Row.tcp4 s l p r q i) = s ∷ l ∷ p ∷ r ∷ q ∷ i ∷ []
words (Row.udp4 l p i) = l ∷ p ∷ i ∷ []
words (Row.tcp6 l0 l1 l2 l3 c p r0 r1 r2 r3 d q s i) =
    l0 ∷ l1 ∷ l2 ∷ l3 ∷ c ∷ p ∷ r0 ∷ r1 ∷ r2 ∷ r3 ∷ d ∷ q ∷ s ∷ i ∷ []
words (Row.udp6 l0 l1 l2 l3 c p i) = l0 ∷ l1 ∷ l2 ∷ l3 ∷ c ∷ p ∷ i ∷ []

abbrev pub port_word : {v4 tcp : Bool} → Row v4 tcp → Word
port_word (Row.tcp4 s l p r q i) = p
port_word (Row.udp4 l p i) = p
port_word (Row.tcp6 l0 l1 l2 l3 c p r0 r1 r2 r3 d q s i) = p
port_word (Row.udp6 l0 l1 l2 l3 c p i) = p

abbrev pub pid_word : {v4 tcp : Bool} → Row v4 tcp → Word
pid_word (Row.tcp4 s l p r q i) = i
pid_word (Row.udp4 l p i) = i
pid_word (Row.tcp6 l0 l1 l2 l3 c p r0 r1 r2 r3 d q s i) = i
pid_word (Row.udp6 l0 l1 l2 l3 c p i) = i

-- The source looks at an IPv4 address in IPv6 form as an IPv4 address.
abbrev pub local_addr : {v4 tcp : Bool} → Row v4 tcp → Addr
local_addr (Row.tcp4 s l p r q i) = Addr.v4 (read_big_endian 0 (bytes (l ∷ [])))
local_addr (Row.udp4 l p i) = Addr.v4 (read_big_endian 0 (bytes (l ∷ [])))
local_addr (Row.tcp6 l0 l1 l2 l3 c p r0 r1 r2 r3 d q s i) =
    ip_to_addr (bytes (l0 ∷ l1 ∷ l2 ∷ l3 ∷ []))
local_addr (Row.udp6 l0 l1 l2 l3 c p i) = ip_to_addr (bytes (l0 ∷ l1 ∷ l2 ∷ l3 ∷ []))

-- Of TCP only established connections count; a socket of UDP may have no address yet.
abbrev pub accepts : {v4 tcp : Bool} → Row v4 tcp → Bool
accepts (Row.tcp4 s l p r q i) = value s == 5
accepts (Row.udp4 l p i) = true
accepts (Row.tcp6 l0 l1 l2 l3 c p r0 r1 r2 r3 d q s i) = value s == 5
accepts (Row.udp6 l0 l1 l2 l3 c p i) = true

abbrev pub is_udp : {v4 tcp : Bool} → Row v4 tcp → Bool
is_udp (Row.tcp4 s l p r q i) = false
is_udp (Row.udp4 l p i) = true
is_udp (Row.tcp6 l0 l1 l2 l3 c p r0 r1 r2 r3 d q s i) = false
is_udp (Row.udp6 l0 l1 l2 l3 c p i) = true

-- The port stands in the word's first bytes, the high one first.
abbrev pub owns : {v4 tcp : Bool} → Row v4 tcp → Addr → ℕ → Bool
owns r ip port =
    accepts r
    && (port_word r).b0 * 256 + (port_word r).b1 == port
    && (addr_eq ip (local_addr r) || (is_unspecified (local_addr r) && is_udp r))

abbrev pub HasBytes : Word → Type 0
HasBytes w = (w.b0 < 256) × (w.b1 < 256)

abbrev pub first_owner : {v4 tcp : Bool} → List (Row v4 tcp) → Addr → ℕ → Result ℕ
first_owner [] ip port = err Error.not_found
first_owner (r ∷ rs) ip port =
    if owns r ip port then ok (value (pid_word r)) else first_owner rs ip port

ntohs-value : (w : Word) → HasBytes w → ntohs (value w % 2 ^ 16) ≡ w.b0 * 256 + w.b1
ntohs-value w h = omega (arith, h.0, h.1)

row_matches-owns :
    {v4 tcp : Bool} (r : Row v4 tcp) (ip : Addr) (port : ℕ)
    → HasBytes (port_word r)
    → row_matches (new_searcher v4 tcp) ip port (bytes (words r)) ≡ owns r ip port
row_matches-owns (Row.tcp4 s l p r q i) ip port h = rw (ntohs-value p h) refl
row_matches-owns (Row.udp4 l p i) ip port h = rw (ntohs-value p h) refl
row_matches-owns (Row.tcp6 l0 l1 l2 l3 c p r0 r1 r2 r3 d q s i) ip port h =
    rw (ntohs-value p h) refl
row_matches-owns (Row.udp6 l0 l1 l2 l3 c p i) ip port h = rw (ntohs-value p h) refl

pub take-append {ℓ} : {A : Type ℓ} (xs ys : List A) → take (length xs) (xs ++ ys) ≡ xs
take-append [] ys = refl
take-append (x ∷ xs) ys = ap (◌∷◌ x) (take-append xs ys)

pub drop-append {ℓ} : {A : Type ℓ} (xs ys : List A) → drop (length xs) (xs ++ ys) ≡ ys
drop-append [] ys = refl
drop-append (x ∷ xs) ys = drop-append xs ys

-- A slice at the front of what is left of `b`.
slice-front :
    (from to : ℕ) (b row rest : List ℕ)
    → to ≡ from + length row
    → drop from b ≡ row ++ rest
    → 0 < length row
    → slice from to b ≡ returns row
slice-front from to b row rest e h z =
    let n : to - from ≡ length row = omega arith in
    let fits : to ≤ length b =
      omega (arith, length-drop from b, length-append row rest, ap length h) in
    let w : window from (to - from) b ≡ row = rw (n, h) (take-append row rest) in
    rw w (ground (arith, fits))

drop-front :
    (from to : ℕ) (b row rest : List ℕ)
    → to ≡ from + length row
    → drop from b ≡ row ++ rest
    → drop to b ≡ rest
drop-front from to b row rest e h =
    rw (e, sym (drop-drop from (length row) b), h) (drop-append row rest)

abbrev pub row_bytes : {v4 tcp : Bool} → Row v4 tcp → List ℕ
row_bytes r = bytes (words r)

length-row :
    {v4 tcp : Bool} (r : Row v4 tcp) → length (row_bytes r) ≡ (new_searcher v4 tcp).item_size
length-row (Row.tcp4 s l p r q i) = refl
length-row (Row.udp4 l p i) = refl
length-row (Row.tcp6 l0 l1 l2 l3 c p r0 r1 r2 r3 d q s i) = refl
length-row (Row.udp6 l0 l1 l2 l3 c p i) = refl

size_pos : (v4 tcp : Bool) → 0 < (new_searcher v4 tcp).item_size
size_pos true true = omega arith
size_pos true false = omega arith
size_pos false true = omega arith
size_pos false false = omega arith

read_pid :
    {v4 tcp : Bool} (r : Row v4 tcp)
    → read_native_uint32 (window (new_searcher v4 tcp).pid 4 (row_bytes r)) ≡ value (pid_word r)
read_pid (Row.tcp4 s l p r q i) = refl
read_pid (Row.udp4 l p i) = refl
read_pid (Row.tcp6 l0 l1 l2 l3 c p r0 r1 r2 r3 d q s i) = refl
read_pid (Row.udp6 l0 l1 l2 l3 c p i) = refl

abbrev pub table_bytes : {v4 tcp : Bool} → List (Row v4 tcp) → List ℕ
table_bytes [] = []
table_bytes (r ∷ rs) = row_bytes r ++ table_bytes rs

returns-if {ℓ} :
    {A : Type ℓ} (b : Bool) (x y : A)
    → (if b then returns x else returns y) ≡ returns (if b then x else y)
returns-if true x y = refl
returns-if false x y = refl

module _ {v4 tcp : Bool} (ip : Addr) (port : ℕ) where
  search_rows-first_owner :
      (b tail : List ℕ) (rows : List (Row v4 tcp)) (i : ℕ)
      → drop (4 + (new_searcher v4 tcp).item_size * i) b ≡ table_bytes rows ++ tail
      → All (λ r. HasBytes (port_word r)) rows
      → search_rows (new_searcher v4 tcp) ip port b (length rows) i
        ≡ returns (first_owner rows ip port)
  unfolding search_rows
  search_rows-first_owner b tail [] i h k = refl
  search_rows-first_owner b tail (r ∷ rows) i h k =
      let z = (new_searcher v4 tcp).item_size in
      let front : drop (4 + (new_searcher v4 tcp).item_size * i) b
          ≡ row_bytes r ++ (table_bytes rows ++ tail) =
        h ∙ append_assoc (row_bytes r) (table_bytes rows) tail in
      let next : 4 + z * (i + 1) ≡ 4 + z * i + length (row_bytes r) = grind (arith, length-row r) in
      let row =
        slice-front _ _ b (row_bytes r) _ next front
          (omega (arith, length-row r, size_pos v4 tcp)) in
      let rest =
        search_rows-first_owner b tail rows (i + 1) (drop-front _ _ b (row_bytes r) _ next front)
          k.1 in
      rw (search_rows, row, row_matches-owns r ip port k.0, read_pid r, rest)
        (returns-if (owns r ip port) _ _)

-- `Search` of a table in the layout of its kind: behind the word that counts them stand the rows, and
-- anything may follow. It returns the process of the first row that owns the address and the port,
-- and `ErrNotFound` if none does; it never reads out of bounds. A row owns them if its port is the
-- one, a row of TCP is an established connection, and its address is the one or, for UDP only,
-- unspecified. The bytes of the ports are bytes.
pub search-first_owner :
    {v4 tcp : Bool} (ip : Addr) (port : ℕ) (count : Word) (rows : List (Row v4 tcp)) (tail : List ℕ)
    → value count ≡ length rows
    → All (λ r. HasBytes (port_word r)) rows
    → search (new_searcher v4 tcp) (bytes (count ∷ []) ++ (table_bytes rows ++ tail)) ip port
      ≡ returns (first_owner rows ip port)
unfolding search
search-first_owner {v4 = v4} {tcp = tcp} ip port count rows tail n h =
    let b = bytes (count ∷ []) ++ (table_bytes rows ++ tail) in
    let zero_offset : 4 + (new_searcher v4 tcp).item_size * 0 ≡ 4 = omega arith in
    let start : drop (4 + (new_searcher v4 tcp).item_size * 0) b ≡ table_bytes rows ++ tail =
      ap (λ k. drop k b) zero_offset in
    let head =
      slice-front 0 4 b (bytes (count ∷ [])) (table_bytes rows ++ tail) refl refl (omega arith) in
    let loop = search_rows-first_owner ip port b tail rows 0 start h in
    rw (search, head)
      (subst
        (λ m. search_rows (new_searcher v4 tcp) ip port b m 0 ≡ returns (first_owner rows ip port))
        (sym n) loop)
