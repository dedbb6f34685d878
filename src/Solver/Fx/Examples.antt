-- ===== src/Solver/Fx/Examples.antt =====
-- A book in euros and dollars at 1.10, and one in which the rounding of each posting loses a cent.
use tradeguard_canton.Prelude.{
  String, true, false, ◌≡◌, refl, some, List, [], ◌∷◌, map, All, if◌then◌else◌, ◌||◌,
}
use tradeguard_canton.Prelude.Int.{
  ℤ, pos, negsuc, ◌+ℤ◌, ◌-ℤ◌, ◌*ℤ◌, neg, round_ratio, pos_part, neg_part,
}
use tradeguard_canton.Prelude.Keys.{str_dec}
use tradeguard_canton.Prelude.Sorting.{sort}
use tradeguard_canton.Netting.{Obligation, gross}
use tradeguard_canton.Netting.Greedy.{sent, received}
use tradeguard_canton.Solver.Model.{
  FxRate, FloorConstraint, SolveResult, as_transfer, same, residual,
}
use tradeguard_canton.Solver.Lp.{Var, flow, pick, name_dec}
use tradeguard_canton.Solver.Lp.Checker.{checker, satisfied}
use tradeguard_canton.Solver.OneCurrency.{
  at, arcs, add_all, add_caps, capped_of, pair_dec, flow_transfers, is_empty,
}
use tradeguard_canton.Solver.Fx.{
  fx_factor, direct_rate, inverse_rate, unrated, post_value, value_all, payers_in, receivers_in,
  add_floors, fx_problem, solve_valued, solve_fx,
}
use tradeguard_canton.Solver.Fx.Rated.{IsRatio, solve_fx-IsRatio}
use tradeguard_canton.Solver.Fx.Settles.{solve_fx-Settles}

abbrev owes : String → ℤ → String → String → Obligation
owes payer amount instrument payee = record {
  payer = payer;
  payee = payee;
  amount = amount;
  instrument = instrument;
}

abbrev book : List Obligation
book = owes "A" (pos 10000) "EUR" "B" ∷ owes "B" (pos 3000) "USD" "C" ∷ []

abbrev rates : List FxRate
rates = record { base = "EUR"; quote = "USD"; rate_num = pos 11; rate_den = pos 10 } ∷ []

abbrev floors : List FloorConstraint
floors = record { party = "A"; currency = "USD"; floor = pos 500 } ∷ []

abbrev plan : Var → ℤ
plan (flow p q) = if same p "A" then (if same q "B" then pos 8000 else pos 3000) else pos 0
plan (pick k) = pos 0

abbrev settled : SolveResult
settled = record {
  feasible = true;
  transfers =
      record { sender = "A"; receiver = "B"; amount = pos 8000; currency = "USD" }
      ∷ record { sender = "A"; receiver = "C"; amount = pos 3000; currency = "USD" }
      ∷ [];
  net_positions = ("USD", ("A", negsuc 10999) ∷ ("B", pos 8000) ∷ ("C", pos 3000) ∷ []) ∷ [];
  gross_obligations = pos 13000;
  gross_residual = pos 11000;
  objective_value = pos 11000;
  binding_constraints = [];
  settled_obligations = [];
  deferred_obligations = [];
  settled_value = pos 0;
  deferred_value = pos 0;
  deferral_reasons = [];
}

is_settled :
    solve_fx (checker plan) rates "USD" [] floors ((("A", "USD"), pos 12000) ∷ []) [] book
    ≡ some settled
unfolding solve_fx solve_valued unrated fx_factor direct_rate inverse_rate post_value value_all
    fx_problem add_floors add_all add_caps capped_of pair_dec flow_transfers arcs satisfied name_dec
    sort str_dec gross residual round_ratio ◌+ℤ◌ ◌-ℤ◌ ◌*ℤ◌ neg
is_settled = refl

has_parties :
    (is_empty (payers_in (value_all "USD" rates [] book))
      || is_empty (receivers_in (value_all "USD" rates [] book)))
    ≡ false
unfolding fx_factor direct_rate inverse_rate post_value value_all str_dec round_ratio ◌+ℤ◌ ◌-ℤ◌ ◌*ℤ◌
has_parties = refl

solve_fx-Settles_example :
    (sent "A" (map as_transfer settled.transfers)
      ≡ pos (neg_part (at "A" (value_all "USD" rates [] book))))
    × (received "A" (map as_transfer settled.transfers)
        ≡ pos (pos_part (at "A" (value_all "USD" rates [] book))))
solve_fx-Settles_example =
    solve_fx-Settles (checker plan) rates "USD" [] floors ((("A", "USD"), pos 12000) ∷ []) [] book
      settled is_settled refl has_parties "A"

solve_fx-IsRatio_example :
    All (λ (o : Obligation). IsRatio (fx_factor "USD" rates o.instrument)) book
solve_fx-IsRatio_example =
    solve_fx-IsRatio (checker plan) rates "USD" [] floors ((("A", "USD"), pos 12000) ∷ []) [] book
      settled is_settled refl

-- At one half, C owes A a dollar and a cent, and A owes B as much in euros. The payer owes 101
-- cents, and the receivers are due 100.
half_cents :
    value_all "USD"
      (record { base = "EUR"; quote = "USD"; rate_num = pos 1; rate_den = pos 2 } ∷ [])
      []
      (owes "C" (pos 101) "USD" "A" ∷ owes "A" (pos 101) "EUR" "B" ∷ [])
    ≡ ("C", negsuc 100) ∷ ("A", pos 50) ∷ ("B", pos 50) ∷ []
unfolding fx_factor direct_rate inverse_rate post_value value_all str_dec round_ratio ◌+ℤ◌ ◌-ℤ◌ ◌*ℤ◌
half_cents = refl
