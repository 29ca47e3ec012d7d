-- ===== src/Process/Tests.antt =====
-- The searches at concrete tables, and the witnesses of their theorems.
mod Unix
use cropstun.Base.{
  ℕ, ◌+◌, ◌*◌, ◌^◌, ◌≤◌, ◌<◌, ◌≡◌, refl, true, false, List, [], ◌∷◌, ◌++◌, some, length, overwrite,
  leb, if◌then◌else◌, arith,
}
use cropstun.Base.Go.{ok, returns}
use cropstun.Net.{Addr}
use cropstun.Process.Common.{tcp}
use cropstun.Process.Windows.{
  Api, insufficient_buffer, new_searcher, search, find_process_name, get_transport_table, named,
}
use cropstun.Process.Windows.Search.{Word, Row, bytes, table_bytes, first_owner, search-first_owner}
use cropstun.Process.Windows.Table.{Steady, find_process_name-first_owner}

abbrev word : ℕ → ℕ → ℕ → ℕ → Word
word a b c d = record { b0 = a; b1 = b; b2 = c; b3 = d }

-- 127.0.0.1:1080 twice: a connection in the state LISTEN, and an established one. The port words
-- have junk in their upper halves.
abbrev rows : List (Row true true)
rows =
    Row.tcp4 (word 2 0 0 0) (word 127 0 0 1) (word 4 56 9 9) (word 0 0 0 0) (word 0 0 0 0)
      (word 3 1 0 0)
    ∷ Row.tcp4 (word 5 0 0 0) (word 127 0 0 1) (word 4 56 0 7) (word 1 2 3 4) (word 1 187 0 0)
        (word 4 0 0 0)
    ∷ []

abbrev two : Word
two = word 2 0 0 0

abbrev local : Addr
local = Addr.v4 (127 * 2 ^ 24 + 1)

search-first_owner_example :
    search (new_searcher true true) (bytes (two ∷ []) ++ (table_bytes rows ++ (0 ∷ []))) local 1080
    ≡ returns (first_owner rows local 1080)
search-first_owner_example =
    search-first_owner local 1080 two rows (0 ∷ []) refl
      ((omega arith, omega arith), ((omega arith, omega arith), tt))

search_established :
    search (new_searcher true true) (bytes (two ∷ []) ++ table_bytes rows) local 1080
    ≡ returns (ok 4)
unfolding search
search_established = refl

-- A system whose table is always the same.
serve : List ℕ → List ℕ → (ℕ × ℕ) × List ℕ
serve content b =
    if leb (length content) (length b)
    then ((0, length content), overwrite b 0 content)
    else ((insufficient_buffer, length content), b)

abbrev content : List ℕ
content = bytes (two ∷ []) ++ table_bytes rows

abbrev api : Api (Unit {0})
api = record {
  table_call = λ k t v b. (serve content b, k);
  open_process = λ k pid. ok pid;
  image_name = λ k handle. ok (b'x' ∷ []);
}

serve-filled : (c b : List ℕ) → length c ≤ length b → serve c b ≡ ((0, length c), overwrite b 0 c)
unfolding serve
serve-filled c b h = let t : leb (length c) (length b) ≡ true = ground arith in rw t refl

serve-refused :
    (c b : List ℕ) → length b < length c → serve c b ≡ ((insufficient_buffer, length c), b)
unfolding serve
serve-refused c b h = let t : leb (length c) (length b) ≡ false = ground arith in rw t refl

api-Steady : Steady api true true content
api-Steady = record {
  filled = λ k b h. serve-filled content b h;
  refused = λ k b h. serve-refused content b h;
}

find_process_name-first_owner_example :
    (find_process_name api 2 tt tcp local 1080).0
    ≡ some (
        returns
          (named api (get_transport_table api 2 tt true true).1 (first_owner rows local 1080)))
find_process_name-first_owner_example =
    find_process_name-first_owner api true local 1080 two rows 0 tt api-Steady refl
      ((omega arith, omega arith), ((omega arith, omega arith), tt))
