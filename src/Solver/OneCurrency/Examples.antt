-- ===== src/Solver/OneCurrency/Examples.antt =====
-- The rerouted book of agent/solver.py's second demo: two payers, two receivers, and a cap of 30
-- from A to C, which forces A to pay D.
use tradeguard_canton.Prelude.{
  String, true, false, ◌≡◌, refl, ◌≢◌, List, [], ◌∷◌, map, All, if◌then◌else◌,
}
use tradeguard_canton.Prelude.Int.{ℤ, pos, ◌+ℤ◌, ◌-ℤ◌, ◌*ℤ◌, neg}
use tradeguard_canton.Prelude.Keys.{str_dec}
use tradeguard_canton.Prelude.Sorting.{sort}
use tradeguard_canton.Netting.{
  Obligation, net_positions, post_all, post_obligation, minimal_settlement, transferred,
}
use tradeguard_canton.Netting.Settlement.{Settles}
use tradeguard_canton.Solver.Model.{CreditLimit, as_transfer, same, residual}
use tradeguard_canton.Solver.Lp.{Var, flow, pick, name_dec}
use tradeguard_canton.Solver.Lp.Checker.{checker, satisfied}
use tradeguard_canton.Solver.OneCurrency.{
  solve_one_currency, netting_problem, arcs, add_all, add_caps, capped_of, pair_dec, flow_transfers,
}
use tradeguard_canton.Solver.OneCurrency.Settles.{solve_one_currency-Settles}
use tradeguard_canton.Solver.OneCurrency.Limits.{last_limit, Within, solve_one_currency-Within}
use tradeguard_canton.Solver.OneCurrency.Diagnosis.{Refutes, solve_one_currency-Refutes}
use tradeguard_canton.Solver.OneCurrency.Residual.{residual-solve_one_currency}

abbrev owes : String → ℤ → String → Obligation
owes payer amount payee = record {
  payer = payer;
  payee = payee;
  amount = amount;
  instrument = "USD";
}

abbrev book : List Obligation
book =
    owes "A" (pos 6000) "C"
    ∷ owes "B" (pos 4000) "D"
    ∷ owes "A" (pos 1000) "D"
    ∷ owes "B" (pos 2000) "C"
    ∷ []

abbrev limits : List CreditLimit
limits = record { frm = "A"; to = "C"; limit = pos 3000; currency = "USD" } ∷ []

abbrev tight_limits : List CreditLimit
tight_limits =
    record { frm = "A"; to = "C"; limit = pos 1000; currency = "USD" }
    ∷ record { frm = "B"; to = "C"; limit = pos 1000; currency = "USD" }
    ∷ []

-- A pays C 30 and D 40, B pays C 50 and D 10.
abbrev rerouted : Var → ℤ
rerouted (flow p q) =
    if same p "A"
    then (if same q "C" then pos 3000 else pos 4000)
    else (if same q "C" then pos 5000 else pos 1000)
rerouted (pick k) = pos 0

is_feasible : (solve_one_currency (checker rerouted) "USD" book limits []).feasible ≡ true
unfolding solve_one_currency netting_problem arcs add_all add_caps capped_of pair_dec flow_transfers
    satisfied name_dec net_positions post_all post_obligation sort str_dec ◌+ℤ◌ ◌-ℤ◌ ◌*ℤ◌ neg
is_feasible = refl

solve_one_currency-Settles_example :
    Settles book
      (map as_transfer (solve_one_currency (checker rerouted) "USD" book limits []).transfers)
solve_one_currency-Settles_example =
    solve_one_currency-Settles (checker rerouted) "USD" book limits [] is_feasible

solve_one_currency-Within_example :
    All
      (λ t. Within (last_limit "USD" t.sender t.receiver limits) t.amount)
      (solve_one_currency (checker rerouted) "USD" book limits []).transfers
solve_one_currency-Within_example =
    solve_one_currency-Within (checker rerouted) "USD" book limits []

residual-solve_one_currency_example :
    residual (solve_one_currency (checker rerouted) "USD" book limits []).transfers
    ≡ transferred (minimal_settlement book "USD")
residual-solve_one_currency_example =
    residual-solve_one_currency (checker rerouted) "USD" book limits [] "USD" is_feasible

is_refused : (solve_one_currency (checker rerouted) "USD" book tight_limits []).feasible ≡ false
unfolding solve_one_currency netting_problem arcs add_all add_caps capped_of pair_dec flow_transfers
    satisfied name_dec net_positions post_all post_obligation sort str_dec ◌+ℤ◌ ◌-ℤ◌ ◌*ℤ◌ neg
is_refused = refl

solve_one_currency-Refutes_example :
    let named = (solve_one_currency (checker rerouted) "USD" book tight_limits []).binding in
    (named ≢ []) × All (Refutes "USD" (net_positions book) tight_limits []) named
solve_one_currency-Refutes_example =
    solve_one_currency-Refutes (checker rerouted) "USD" book tight_limits [] is_refused
