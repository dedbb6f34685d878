-- ===== src/Solver/Maximal/Examples.antt =====
-- A book of two obligations, of which the cap from A to B defers the larger one.
use tradeguard_canton.Prelude.{
  zero, suc, ◌+◌, String, true, ◌≡◌, refl, List, [], ◌∷◌, map, All, if◌then◌else◌, ◌&&◌, ltb,
  length, arith,
}
use tradeguard_canton.Prelude.Int.{ℤ, pos, ◌+ℤ◌, ◌-ℤ◌, ◌*ℤ◌, ◌≤ℤ◌, neg}
use tradeguard_canton.Prelude.Keys.{str_dec}
use tradeguard_canton.Prelude.Sorting.{sort}
use tradeguard_canton.Netting.{Obligation, gross}
use tradeguard_canton.Netting.Greedy.{sent, received}
use tradeguard_canton.Netting.Positions.{position}
use tradeguard_canton.Solver.Model.{CreditLimit, AggLimit, as_transfer, same, member}
use tradeguard_canton.Solver.Lp.{Var, flow, pick, name_dec, Satisfies}
use tradeguard_canton.Solver.Lp.Checker.{checker, satisfied}
use tradeguard_canton.Solver.OneCurrency.{add_all, add_caps, pair_dec}
use tradeguard_canton.Solver.OneCurrency.Limits.{last_limit, Within}
use tradeguard_canton.Solver.Maximal.{
  Indexed, enumerate, owed_of, names_of, maximal_problem, solve_one_currency_maximal, solve_maximal,
  add_aggs, pairs_of,
}
use tradeguard_canton.Solver.Maximal.Partition.{times, once, solve_maximal-partition}
use tradeguard_canton.Solver.Maximal.Settles.{solve_one_currency_maximal-position}
use tradeguard_canton.Solver.Maximal.Limits.{last_agg, solve_one_currency_maximal-Within}
use tradeguard_canton.Solver.Maximal.Zero.{maximal_problem-nothing}

abbrev book : List Obligation
book =
    record { payer = "A"; payee = "B"; amount = pos 6000; instrument = "USD" }
    ∷ record { payer = "A"; payee = "C"; amount = pos 1000; instrument = "USD" }
    ∷ []

abbrev items : List Indexed
items = enumerate 0 book

abbrev limits : List CreditLimit
limits = record { frm = "A"; to = "B"; limit = pos 3000; currency = "USD" } ∷ []

abbrev agg_limits : List AggLimit
agg_limits = record { party = "A"; limit = pos 2000; currency = "USD" } ∷ []

-- The second obligation settles by one transfer.
abbrev partial_plan : Var → ℤ
partial_plan (flow p q) = if same p "A" && same q "C" then pos 1000 else pos 0
partial_plan (pick zero) = pos 0
partial_plan (pick (suc k)) = pos 1

is_optimal :
    ((checker partial_plan).run (maximal_problem "USD" items limits [] agg_limits)).optimal ≡ true
unfolding maximal_problem add_all add_caps add_aggs pairs_of satisfied name_dec sort str_dec
    pair_dec gross ◌+ℤ◌ ◌-ℤ◌ ◌*ℤ◌ neg
is_optimal = refl

solve_maximal-partition_example :
    times 1 (solve_maximal (checker partial_plan) book limits [] agg_limits).settled_obligations
      + times 1
          (solve_maximal (checker partial_plan) book limits [] agg_limits).deferred_obligations
    ≡ once (ltb 1 (length book))
solve_maximal-partition_example =
    solve_maximal-partition (checker partial_plan) book limits [] agg_limits 1

solve_one_currency_maximal-position_example :
    received "C" (
        map as_transfer
          (solve_one_currency_maximal
            (checker partial_plan)
            "USD"
            items
            limits
            []
            agg_limits).transfers)
      -ℤ sent "C" (
          map as_transfer
            (solve_one_currency_maximal
              (checker partial_plan)
              "USD"
              items
              limits
              []
              agg_limits).transfers)
    ≡ position "C" (
        owed_of
          (solve_one_currency_maximal
            (checker partial_plan)
            "USD"
            items
            limits
            []
            agg_limits).settled)
solve_one_currency_maximal-position_example =
    solve_one_currency_maximal-position (checker partial_plan) "USD" items limits [] agg_limits "C"
      is_optimal

solve_one_currency_maximal-Within_example :
    let moved =
      (solve_one_currency_maximal
        (checker partial_plan)
        "USD"
        items
        limits
        []
        agg_limits).transfers in
    All (λ t. Within (last_limit "USD" t.sender t.receiver limits) t.amount) moved
    × ((p : String)
        → member p (names_of (owed_of items)) ≡ true
        → Within (last_agg "USD" p agg_limits) (sent p (map as_transfer moved)))
solve_one_currency_maximal-Within_example =
    solve_one_currency_maximal-Within (checker partial_plan) "USD" items limits [] agg_limits
      is_optimal

limits-IsNonneg : All (λ (cl : CreditLimit). pos 0 ≤ℤ cl.limit) limits
limits-IsNonneg = (omega arith, tt)

agg_limits-IsNonneg : All (λ (al : AggLimit). pos 0 ≤ℤ al.limit) agg_limits
agg_limits-IsNonneg = (omega arith, tt)

maximal_problem-nothing_example :
    Satisfies (λ x. pos 0) (maximal_problem "USD" items limits [] agg_limits)
maximal_problem-nothing_example =
    maximal_problem-nothing "USD" items limits [] agg_limits limits-IsNonneg agg_limits-IsNonneg
