-- ===== src/Process/Windows/Table.antt =====
-- process/process_windows.go: fetching a table, and the whole of `findProcessName`.
use cropstun.Base.{
  ℕ, suc, ◌≤◌, ◌<◌, ◌≡◌, refl, sym, ap, subst, Bool, true, false, not, List, [], ◌∷◌, ◌++◌, Option,
  some, All, length, length-replicate, replicate, drop, overwrite, ◌==◌, dec_le, arith, ◌%◌, ◌^◌,
}
use cropstun.Base.Go.{Outcome, returns, Result, ok}
use cropstun.Net.{Addr, is6}
use cropstun.Process.Common.{tcp, udp}
use cropstun.Process.Windows.{
  Api, insufficient_buffer, table_rounds, get_transport_table, find_in_table, find_process_name,
  found_in, named,
}
use cropstun.Process.Windows.Search.{
  Word, Row, HasBytes, port_word, value, bytes, table_bytes, first_owner, search-first_owner,
}

-- The documented behaviour of the table functions, while the table does not change: a buffer that
-- can hold it is filled from its start, and for a shorter one the function stores the size needed.
pub record Steady {K : Type 0} (api : Api K) (is_tcp is_v4 : Bool) (content : List ℕ) : Type 0 where
  pub filled :
      (k : K) (b : List ℕ)
      → length content ≤ length b
      → (api.table_call k is_tcp is_v4 b).0 ≡ ((0, length content), overwrite b 0 content)
  pub refused :
      (k : K) (b : List ℕ)
      → length b < length content
      → (api.table_call k is_tcp is_v4 b).0 ≡ ((insufficient_buffer, length content), b)

overwrite-start :
    (b src : List ℕ) → length src ≤ length b → overwrite b 0 src ≡ src ++ drop (length src) b
overwrite-start [] [] h = refl
overwrite-start [] (v ∷ src) h = absurd (omega arith)
overwrite-start (x ∷ b) [] h = refl
overwrite-start (x ∷ b) (v ∷ src) h = ap (◌∷◌ v) (overwrite-start b src (omega arith))

module _ {K : Type 0} (api : Api K) (is_tcp is_v4 : Bool) (content : List ℕ)
    (steady : Steady api is_tcp is_v4 content) where
  -- What a fetch yields: the table at the start of a buffer.
  abbrev Fetched : Option (Outcome (Result (List ℕ))) → Type 0
  Fetched r = (tail : List ℕ) × (r ≡ some (returns (ok (content ++ tail))))

  rounds-filled :
      (fuel : ℕ) (k : K) (b : List ℕ)
      → length content ≤ length b
      → Fetched (table_rounds api (suc fuel) k is_tcp is_v4 b).0
  unfolding table_rounds
  rounds-filled fuel k b h = (
    drop (length content) b,
    rw (table_rounds, steady.filled k b h, overwrite-start b content h) refl,
  )

  rounds-refused :
      (fuel : ℕ) (k : K) (b : List ℕ)
      → length b < length content
      → table_rounds api (suc fuel) k is_tcp is_v4 b
        ≡ table_rounds api fuel
            (api.table_call k is_tcp is_v4 b).1
            is_tcp
            is_v4
            (replicate (length content) 0)
  unfolding table_rounds
  rounds-refused fuel k b h =
      let some_bytes : (length content == 0) ≡ false = ground arith in
      rw (table_rounds, steady.refused k b h, some_bytes) refl

  -- Two rounds are enough.
  pub get_transport_table-Fetched :
      (fuel : ℕ) (k : K) → Fetched (get_transport_table api (suc (suc fuel)) k is_tcp is_v4).0
  unfolding get_transport_table
  get_transport_table-Fetched fuel k = elim (dec_le (length content) 8) [
    | yes p ↦ rounds-filled (suc fuel) k (replicate 8 0) p
    | no p ↦
        let step = rounds-refused (suc fuel) k (replicate 8 0) (omega arith) in
        subst (λ r. Fetched r.0) (sym step)
          (rounds-filled fuel _ (replicate (length content) 0)
            (omega (arith, length-replicate {A = ℕ} (length content) 0)))
  ]

abbrev pub network_of : Bool → List ℕ
network_of true = tcp
network_of false = udp

find_process_name-network :
    {K : Type 0} (api : Api K) (fuel : ℕ) (k : K) (is_tcp : Bool) (ip : Addr) (port : ℕ)
    → find_process_name api fuel k (network_of is_tcp) ip port
      ≡ find_in_table api fuel k is_tcp (not (is6 ip)) ip port
unfolding find_process_name
find_process_name-network api fuel k true ip port = refl
find_process_name-network api fuel k false ip port = refl

-- While the table of the network and of the address's family does not change, `findProcessName`
-- returns after at most two calls of the table function. It yields the process of the first row that
-- owns the address and the port's lower 16 bits, with the name that its identifier gives, or that
-- name's error beside it, and `ErrNotFound` if no row does.
pub find_process_name-first_owner :
    {K : Type 0} (api : Api K) (is_tcp : Bool) (ip : Addr) (port : ℕ) (count : Word)
    (rows : List (Row (not (is6 ip)) is_tcp)) (fuel : ℕ) (k : K)
    → Steady api is_tcp (not (is6 ip)) (bytes (count ∷ []) ++ table_bytes rows)
    → value count ≡ length rows
    → All (λ r. HasBytes (port_word r)) rows
    → (find_process_name api (suc (suc fuel)) k (network_of is_tcp) ip port).0
      ≡ some (
          returns (
            named api
              (get_transport_table api (suc (suc fuel)) k is_tcp (not (is6 ip))).1
              (first_owner rows ip (port % 2 ^ 16))))
unfolding find_in_table found_in named
find_process_name-first_owner api is_tcp ip port count rows fuel k steady n h =
    let (tail, fetched) =
      get_transport_table-Fetched api is_tcp (not (is6 ip)) (bytes (count ∷ []) ++ table_bytes rows)
        steady fuel k in
    let searched = search-first_owner ip (port % 2 ^ 16) count rows tail n h in
    rw
      (
        find_process_name-network api (suc (suc fuel)) k is_tcp ip port,
        find_in_table,
        fetched,
        searched,
      )
      refl
