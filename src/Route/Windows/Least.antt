-- ===== src/Route/Windows/Least.antt =====
-- route/route_windows.go: which row of the table decides.
use cropstun.Base.{
  ℕ, suc, ◌-◌, ◌^◌, ◌≤◌, ◌<◌, ◌≡◌, refl, sym, subst, List, [], ◌∷◌, ◌++◌, Option, none, some, All,
  inl, inr, Option-cases, Bool-cases, ltb, ltb→lt, arith,
}
use cropstun.Base.Go.{Error, Result, ok, err}
use cropstun.Route.{Route}
use cropstun.Route.Windows.Qualifying.{Qualifies, Qualifies-candidate, candidate-Qualifies}
use cropstun.Route.Windows.{
  Row, IfRow, Api, Best, initial, candidate, choose, route_of, default_route_interface,
}

-- The row does not qualify, or its metric is `least` at least.
abbrev pub AtLeast : ℕ → Option (IfRow × ℕ) → Type 0
AtLeast least none = Unit
AtLeast least (some (ifrow, metric)) = least ≤ metric

abbrev pub best_of : IfRow → ℕ → Best
best_of ifrow metric = record {
  lowest_metric = metric;
  alias = ifrow.alias;
  index = ifrow.interface_index;
}

-- What the loop makes of a bound on the metric.
pub data Chosen (sys : Api) : Best → List Row → Best → Type 0 where
  kept :
      (best : Best) (rows : List Row)
      → All (λ r. AtLeast best.lowest_metric (candidate sys r)) rows
      → Chosen sys best rows best
  least :
      (best : Best) (before : List Row) (row : Row) (after : List Row) (ifrow : IfRow) (metric : ℕ)
      → candidate sys row ≡ some (ifrow, metric)
      → metric < best.lowest_metric
      → All (λ r. AtLeast (suc metric) (candidate sys r)) before
      → All (λ r. AtLeast metric (candidate sys r)) after
      → Chosen sys best (before ++ (row ∷ after)) (best_of ifrow metric)

module _ (sys : Api) where
  -- A row that does not improve the best one.
  Chosen-skip :
      {best last : Best} {rows : List Row} (row : Row)
      → ((m : ℕ) → m ≤ best.lowest_metric → AtLeast m (candidate sys row))
      → Chosen sys best rows last
      → Chosen sys best (row ∷ rows) last
  Chosen-skip row h (Chosen.kept best rows all) =
      Chosen.kept best (row ∷ rows) (h best.lowest_metric (omega arith), all)
  Chosen-skip row h (Chosen.least best before r after ifrow metric e lt b a) =
      Chosen.least best (row ∷ before) r after ifrow metric e lt
        (h (suc metric) (omega (arith, lt)), b) a

  -- A row that does.
  Chosen-take :
      {rows : List Row} {last : Best} (best : Best) (row : Row) (ifrow : IfRow) (metric : ℕ)
      → candidate sys row ≡ some (ifrow, metric)
      → metric < best.lowest_metric
      → Chosen sys (best_of ifrow metric) rows last
      → Chosen sys best (row ∷ rows) last
  Chosen-take best row ifrow metric e lt (Chosen.kept _ rows all) =
      Chosen.least best [] row rows ifrow metric e lt tt all
  Chosen-take best row ifrow metric e lt (Chosen.least _ before r after ifrow' metric' e' lt' b a) =
      Chosen.least best (row ∷ before) r after ifrow' metric' e' (omega (arith, lt, lt'))
        (rw e (omega (arith, lt')), b) a

  choose-Chosen : (rows : List Row) (best : Best) → Chosen sys best rows (choose sys rows best)
  unfolding choose
  choose-Chosen [] best = Chosen.kept best [] tt
  choose-Chosen (row ∷ rows) best = elim (Option-cases (candidate sys row)) [
    | inl n ↦ rw n (Chosen-skip row (λ m h. rw n tt) (choose-Chosen rows best))
    | inr ((ifrow, metric), e) ↦ elim (Bool-cases (ltb metric best.lowest_metric)) [
      | inl lt ↦
          rw (e, lt)
            (Chosen-take best row ifrow metric e (ltb→lt _ _ lt)
              (choose-Chosen rows (best_of ifrow metric)))
      | inr ge ↦
          rw (e, ge)
            (Chosen-skip row (λ m h. rw e (ground (arith, ge, h))) (choose-Chosen rows best))
    ]
  ]

-- What a row that qualifies is worth is `n` at least.
abbrev pub WorthAtLeast : Api → ℕ → Row → Type 0
WorthAtLeast sys n row = (ifrow : IfRow) (metric : ℕ) → Qualifies sys row ifrow metric → n ≤ metric

-- The interface's alias and index, if it has an alias.
abbrev pub route_by : IfRow → List ℕ → Result Route
route_by ifrow [] = err Error.no_route
route_by ifrow (c ∷ cs) =
    ok (record { interface_name = c ∷ cs; interface_index = ifrow.interface_index })

-- How the search ends for a table: no row qualifies with a metric below the greatest, or the
-- interface of the first of the rows with the least metric is taken.
pub data Decides (sys : Api) : List Row → Result Route → Type 0 where
  no_candidate :
      (rows : List Row)
      → All (WorthAtLeast sys (2 ^ 32 - 1)) rows
      → Decides sys rows (err Error.no_route)
  least :
      (before : List Row) (row : Row) (after : List Row) (ifrow : IfRow) (metric : ℕ)
      → Qualifies sys row ifrow metric
      → metric < 2 ^ 32 - 1
      → All (WorthAtLeast sys (suc metric)) before
      → All (WorthAtLeast sys metric) after
      → Decides sys (before ++ (row ∷ after)) (route_by ifrow ifrow.alias)

AtLeast-WorthAtLeast :
    (sys : Api) (n : ℕ) (row : Row) → AtLeast n (candidate sys row) → WorthAtLeast sys n row
AtLeast-WorthAtLeast sys n row h ifrow metric q =
    rw (Qualifies-candidate sys row ifrow metric q) at h

All-worth :
    (sys : Api) (n : ℕ) (rows : List Row)
    → All (λ r. AtLeast n (candidate sys r)) rows
    → All (WorthAtLeast sys n) rows
All-worth sys n [] h = tt
All-worth sys n (row ∷ rows) h = (AtLeast-WorthAtLeast sys n row h.0, All-worth sys n rows h.1)

route_by-best :
    (ifrow : IfRow) (metric : ℕ) → route_by ifrow ifrow.alias ≡ route_of (best_of ifrow metric)
route_by-best ifrow metric = by_alias ifrow.alias
  where
    by_alias :
        (alias : List ℕ)
        → route_by ifrow alias
          ≡ route_of
              (record { lowest_metric = metric; alias = alias; index = ifrow.interface_index })
    by_alias [] = refl
    by_alias (c ∷ cs) = refl

Chosen-Decides :
    {sys : Api} {rows : List Row} {last : Best}
    → Chosen sys initial rows last
    → Decides sys rows (route_of last)
Chosen-Decides {sys} (Chosen.kept _ rows all) = Decides.no_candidate rows (All-worth sys _ rows all)
Chosen-Decides {sys} (Chosen.least _ before row after ifrow metric e lt b a) =
    subst (Decides sys (before ++ (row ∷ after))) (route_by-best ifrow metric) (
      Decides.least before row after ifrow metric (candidate-Qualifies sys row ifrow metric e) lt
        (All-worth sys _ before b) (All-worth sys _ after a))

-- On Windows, when the forwarding table can be read, `DefaultRouteInterface` looks at the rows of
-- prefix length 0 whose gateway is not 25.255.255.254 and whose interface can be read, is up, and is
-- neither virtual nor the loopback. It takes among them one of least metric (the metrics of the route and of its
-- interface, added in 32 bits), the first of these in the table, and yields its interface's alias and
-- index, or `ErrNoRoute` if that alias is empty. If no such row has a metric below 2^32 - 1, it yields
-- `ErrNoRoute`.
pub default_route_interface-Decides :
    (sys : Api) (rows : List Row)
    → sys.ip_forward_table2 ≡ ok rows
    → Decides sys rows (default_route_interface sys)
unfolding default_route_interface
default_route_interface-Decides sys rows h =
    let e : default_route_interface sys ≡ route_of (choose sys rows initial) = rw h refl in
    subst (Decides sys rows) (sym e) (Chosen-Decides (choose-Chosen sys rows initial))
