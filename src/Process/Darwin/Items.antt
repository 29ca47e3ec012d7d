-- ===== src/Process/Darwin/Items.antt =====
-- process/process_darwin.go: the search in a list of whole items.
use cropstun.Base.{
  ℕ, zero, suc, ◌+◌, ◌≤◌, ◌<◌, ◌≡◌, refl, sym, ◌∙◌, Bool, true, false, List, [], ◌∷◌, ◌++◌,
  append_assoc, concat, map, Option, none, some, All, length, length-append, drop, take, leb,
  if◌then◌else◌, arith, ◌%◌, ◌^◌,
}
use cropstun.Base.Go.{ok}
use cropstun.Net.{Addr}
use cropstun.Process.Common.{Found, named_by}
use cropstun.Process.Windows.Search.{take-append, drop-append}
use cropstun.Process.Darwin.{
  Kernel, struct_size, Verdict, classify, finish, name_or_empty, walk, act, find_in_list,
}

-- The first process that is hit.
abbrev pub first_hit : List Verdict → Option ℕ
first_hit [] = none
first_hit (Verdict.hit pid ∷ vs) = some pid
first_hit (_ ∷ vs) = first_hit vs

-- The last process to fall back on, or else `last`.
abbrev pub last_fallback : List Verdict → Option ℕ → Option ℕ
last_fallback [] last = last
last_fallback (Verdict.fallback pid ∷ vs) last = last_fallback vs (some pid)
last_fallback (_ ∷ vs) last = last_fallback vs last

length-concat-le :
    (size : ℕ) (items : List (List ℕ))
    → 0 < size
    → All (λ i. length i ≡ size) items
    → length items ≤ length (concat items)
length-concat-le size [] z h = omega arith
length-concat-le size (i ∷ items) z h =
    omega (arith, length-append i (concat items), length-concat-le size items z h.1, h.0)

module _ {K : Type 0} (sys : Kernel K) (k : K) where
  abbrev fallback_name : Option ℕ → List ℕ
  fallback_name none = []
  fallback_name (some pid) = name_or_empty (sys.exec_path k pid)

  -- What a list of items amounts to.
  abbrev pub decided : Bool → List Verdict → Option ℕ → Found
  decided is_udp vs last = elim (first_hit vs) [
    | some pid ↦ named_by 0 pid (sys.exec_path k pid)
    | none ↦ finish is_udp (fallback_name (last_fallback vs last))
  ]

  module _ (size : ℕ) (is_udp : Bool) (ip : Addr) (port : ℕ) where
    walk-item :
        (fuel : ℕ) (item rest name : List ℕ)
        → length item ≡ size
        → walk sys k (suc fuel) size is_udp ip port (item ++ rest) name
          ≡ act sys k (classify is_udp ip port item) (walk sys k fuel size is_udp ip port rest) name
    unfolding walk
    walk-item fuel item rest name h =
        let fits : leb size (length (item ++ rest)) ≡ true =
          ground (arith, length-append item rest, h) in
        let t : take size (item ++ rest) ≡ item = rw (sym h) (take-append item rest) in
        let d : drop size (item ++ rest) ≡ rest = rw (sym h) (drop-append item rest) in
        rw (walk, fits, t, d) refl

    walk-decided :
        (fuel : ℕ) (items : List (List ℕ)) (tail : List ℕ) (last : Option ℕ)
        → length items < fuel
        → length tail < size
        → All (λ i. length i ≡ size) items
        → walk sys k fuel size is_udp ip port (concat items ++ tail) (fallback_name last)
          ≡ decided is_udp (map (classify is_udp ip port) items) last
    unfolding walk act
    walk-decided zero items tail last f t h = absurd (omega arith)
    walk-decided (suc fuel) [] tail last f t h =
        let short : leb size (length tail) ≡ false = ground arith in rw short refl
    walk-decided (suc fuel) (i ∷ items) tail last f t h = rw (append_assoc i (concat items) tail) (
        walk-item fuel i (concat items ++ tail) (fallback_name last) h.0
        ∙ go (λ l. walk-decided fuel items tail l (omega arith) t h.1) (classify is_udp ip port i))
      where
        go :
            ((l : Option ℕ)
              → walk sys k fuel size is_udp ip port (concat items ++ tail) (fallback_name l)
                ≡ decided is_udp (map (classify is_udp ip port) items) l)
            → (v : Verdict)
            → act sys k v
                (walk sys k fuel size is_udp ip port (concat items ++ tail))
                (fallback_name last)
              ≡ decided is_udp (v ∷ map (classify is_udp ip port) items) last
        go next Verdict.skip = next last
        go next (Verdict.hit pid) = refl
        go next (Verdict.fallback pid) = next (some pid)

  -- The list holds a head of 24 bytes, whole items and a rest that is shorter than an item. Then the search of
  -- `findProcessName` yields the first process that is hit, whatever stands before it; if none is,
  -- for UDP, the name alone of the last one to fall back on, if that has a name; and otherwise
  -- `ErrNotFound`.
  pub find_in_list-classified :
      (is_udp : Bool) (ip : Addr) (port : ℕ) (header tail : List ℕ) (items : List (List ℕ))
      → length header ≡ 24
      → length tail < struct_size sys.major_release + (if is_udp then 0 else 208)
      → All (λ i. length i ≡ struct_size sys.major_release + (if is_udp then 0 else 208)) items
      → sys.pcb_list k is_udp ≡ ok (header ++ (concat items ++ tail))
      → find_in_list sys k is_udp ip port
        ≡ decided is_udp (map (classify is_udp ip (port % 2 ^ 16)) items) none
  unfolding find_in_list
  find_in_list-classified is_udp ip port header tail items n t h b =
      let size = struct_size sys.major_release + (if is_udp then 0 else 208) in
      let behind : drop 24 (header ++ (concat items ++ tail)) ≡ concat items ++ tail =
        rw (sym n) (drop-append header (concat items ++ tail)) in
      let enough : length items < suc (length (header ++ (concat items ++ tail))) = omega (
        arith,
        length-append header (concat items ++ tail),
        length-append (concat items) tail,
        length-concat-le size items (omega (arith, t)) h,
      ) in
      rw (find_in_list, b, behind)
        (walk-decided size is_udp ip (port % 2 ^ 16) _ items tail none enough t h)
