-- ===== src/Solver/Book/Examples.antt =====
-- A book in two currencies: the rerouted dollars of agent/solver.py's second demo, and euros.
use tradeguard_canton.Prelude.{String, true, ◌≡◌, refl, List, [], ◌∷◌, map, if◌then◌else◌}
use tradeguard_canton.Prelude.Int.{ℤ, pos, ◌+ℤ◌, ◌-ℤ◌, ◌*ℤ◌, neg}
use tradeguard_canton.Prelude.Keys.{str_dec}
use tradeguard_canton.Prelude.Sorting.{sort}
use tradeguard_canton.Netting.{Obligation, net_positions, post_all, post_obligation}
use tradeguard_canton.Netting.Settlement.{Settles}
use tradeguard_canton.Solver.Model.{CreditLimit, as_transfer, same}
use tradeguard_canton.Solver.Lp.{Var, flow, pick, name_dec}
use tradeguard_canton.Solver.Lp.Checker.{checker, satisfied}
use tradeguard_canton.Solver.OneCurrency.{
  solve_one_currency, netting_problem, arcs, add_all, add_caps, capped_of, pair_dec, flow_transfers,
}
use tradeguard_canton.Solver.Book.{group_all, by_currency, solve_each, solve}
use tradeguard_canton.Solver.Book.Groups.{in_currency}
use tradeguard_canton.Solver.Book.Settles.{transfers_in, solve-Settles}

abbrev owes : String → ℤ → String → String → Obligation
owes payer amount instrument payee = record {
  payer = payer;
  payee = payee;
  amount = amount;
  instrument = instrument;
}

abbrev book : List Obligation
book =
    owes "A" (pos 6000) "USD" "C"
    ∷ owes "B" (pos 700) "EUR" "A"
    ∷ owes "B" (pos 4000) "USD" "D"
    ∷ owes "A" (pos 1000) "USD" "D"
    ∷ owes "B" (pos 2000) "USD" "C"
    ∷ []

abbrev limits : List CreditLimit
limits = record { frm = "A"; to = "C"; limit = pos 3000; currency = "USD" } ∷ []

abbrev rerouted : Var → ℤ
rerouted (flow p q) =
    if same q "A"
    then pos 700
    else if same p "A"
    then (if same q "C" then pos 3000 else pos 4000)
    else (if same q "C" then pos 5000 else pos 1000)
rerouted (pick k) = pos 0

is_feasible : (solve (checker rerouted) book limits []).feasible ≡ true
unfolding solve solve_each by_currency group_all solve_one_currency netting_problem arcs add_all
    add_caps capped_of pair_dec flow_transfers satisfied name_dec net_positions post_all
    post_obligation sort str_dec ◌+ℤ◌ ◌-ℤ◌ ◌*ℤ◌ neg
is_feasible = refl

solve-Settles_example :
    Settles
      (in_currency "USD" book)
      (map as_transfer (transfers_in "USD" (solve (checker rerouted) book limits []).transfers))
solve-Settles_example = solve-Settles (checker rerouted) book limits [] "USD" is_feasible
