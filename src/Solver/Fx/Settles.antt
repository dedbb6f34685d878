-- ===== src/Solver/Fx/Settles.antt =====
-- A feasible answer of `solve_fx` settles the valued positions, under the limits of the currency.
use tradeguard_canton.Prelude.{
  String, Bool, true, false, ◌||◌, ◌≡◌, refl, ◌≢◌, ap, ◌∙◌, some, List, [], ◌∷◌, map, keep, All,
  All-map, All-map₂, All-keep_test, inl, inr, Bool-cases,
}
use tradeguard_canton.Prelude.Int.{ℤ, pos, neg, pos_part, neg_part, int_laws}
use tradeguard_canton.Prelude.Keys.{str_dec}
use tradeguard_canton.Prelude.Dict.{
  Dict, lookup, insert, lookup-insert_ne, IsUnique, insert-IsUnique,
}
use tradeguard_canton.Prelude.Sorting.{sort}
use tradeguard_canton.Netting.{Obligation, gross}
use tradeguard_canton.Netting.Greedy.{sent, received}
use tradeguard_canton.Solver.Fx.Rated.{solve_fx-valued}
use tradeguard_canton.Solver.Model.{
  SolvedTransfer, CreditLimit, FxRate, FloorConstraint, Weights, SolveResult, as_transfer,
}
use tradeguard_canton.Solver.Lp.{
  Var, Name, conserve_payer, conserve_receiver, floor, name_dec, Constraint, evaluate, Satisfies,
  Solver, value_of,
}
use tradeguard_canton.Solver.OneCurrency.{
  at, keys, is_payer, is_receiver, arcs, outflow, inflow, payer_row, receiver_row, add_all,
  add_caps, applies, flow_transfers, transfer_order, is_empty,
}
use tradeguard_canton.Solver.OneCurrency.Problems.{add_all-rows, add_all-others, add_caps-others}
use tradeguard_canton.Solver.OneCurrency.Sums.{
  sum_at-keep, sum_at-keys, sum_at-congr, sent-plan, received-plan, sent-sort, received-sort,
  IsNonneg,
}
use tradeguard_canton.Solver.Fx.{
  fx_factor, Factor, missing, ratio, zero_division, post_value, value_all, payers_in, receivers_in,
  Balances, floor_row, add_floors, floors_in, fx_problem, solve_valued, solve_fx,
}

-- No party stands twice among the valued positions.
post_value-IsUnique :
    (s : String) (rates : List FxRate) (net : Dict String ℤ) (o : Obligation)
    → IsUnique str_dec net
    → IsUnique str_dec (post_value s rates net o)
unfolding post_value
post_value-IsUnique s rates net o h = by_factor (fx_factor s rates o.instrument) refl
  where
    by_factor :
        (f : Factor)
        → fx_factor s rates o.instrument ≡ f
        → IsUnique str_dec (post_value s rates net o)
    by_factor missing e = simp (post_value, e) h
    by_factor zero_division e = simp (post_value, e) h
    by_factor (ratio num den) e =
        simp (post_value, e) (insert-IsUnique str_dec _ _ _ (insert-IsUnique str_dec _ _ net h))

pub value_all-IsUnique :
    (s : String) (rates : List FxRate) (os : List Obligation) (net : Dict String ℤ)
    → IsUnique str_dec net
    → IsUnique str_dec (value_all s rates net os)
unfolding value_all
value_all-IsUnique s rates [] net h = h
value_all-IsUnique s rates (o ∷ os) net h =
    value_all-IsUnique s rates os (post_value s rates net o) (post_value-IsUnique s rates net o h)

add_floors-others :
    (n : Name) (payers receivers : List String) (balances : Balances) (fls : List FloorConstraint)
    (d : Dict Name Constraint)
    → ((p : String) → n ≢ floor p)
    → lookup name_dec n (add_floors payers receivers balances fls d) ≡ lookup name_dec n d
unfolding add_floors
add_floors-others n ps qs b [] d h = refl
add_floors-others n ps qs b (fl ∷ fls) d h =
    add_floors-others n ps qs b fls (insert name_dec (floor fl.party) (floor_row ps qs b fl) d) h
    ∙ lookup-insert_ne name_dec n (floor fl.party) (floor_row ps qs b fl) d (h fl.party)

module _ (settle_ccy : String) (net : Dict String ℤ) (limits : List CreditLimit)
    (floors : List FloorConstraint) (balances : Balances) (weights : Weights) where
  abbrev payers : List String
  payers = payers_in net

  abbrev receivers : List String
  receivers = receivers_in net

  abbrev rows : Dict Name Constraint
  rows = (fx_problem settle_ccy net limits floors balances weights).constraints

  abbrev applied : List CreditLimit
  applied = keep (applies settle_ccy payers receivers) limits

  abbrev paying : Dict Name Constraint
  paying = add_all conserve_payer (payer_row net receivers) payers []

  abbrev receiving : Dict Name Constraint
  receiving = add_all conserve_receiver (receiver_row net payers) receivers paying

  abbrev capping : Dict Name Constraint
  capping = add_caps applied receiving

  fx-payer_rows :
      All (λ p. lookup name_dec (conserve_payer p) rows ≡ some (payer_row net receivers p)) payers
  unfolding fx_problem
  fx-payer_rows =
      All-map (λ p. lookup name_dec (conserve_payer p) paying ≡ some (payer_row net receivers p))
        (λ p. lookup name_dec (conserve_payer p) rows ≡ some (payer_row net receivers p)) payers
        (λ p e.
          add_floors-others (conserve_payer p) payers receivers balances
            (floors_in settle_ccy floors) capping (λ a q. cc)
          ∙ add_caps-others (conserve_payer p) applied receiving (λ a b q. cc)
          ∙ add_all-others conserve_receiver (receiver_row net payers) (conserve_payer p) receivers
              paying (λ a q. cc)
          ∙ e)
        (add_all-rows conserve_payer (payer_row net receivers) (λ a b e. cc) payers [])

  fx-receiver_rows :
      All
        (λ q. lookup name_dec (conserve_receiver q) rows ≡ some (receiver_row net payers q))
        receivers
  unfolding fx_problem
  fx-receiver_rows =
      All-map
        (λ q. lookup name_dec (conserve_receiver q) receiving ≡ some (receiver_row net payers q))
        (λ q. lookup name_dec (conserve_receiver q) rows ≡ some (receiver_row net payers q))
        receivers
        (λ q e.
          add_floors-others (conserve_receiver q) payers receivers balances
            (floors_in settle_ccy floors) capping (λ a r. cc)
          ∙ add_caps-others (conserve_receiver q) applied receiving (λ a b r. cc)
          ∙ e)
        (add_all-rows conserve_receiver (receiver_row net payers) (λ a b e. cc) receivers paying)

  module _ (unique : IsUnique str_dec net) (v : Var → ℤ)
      (ok : Satisfies v (fx_problem settle_ccy net limits floors balances weights)) where
    nonneg : All (IsNonneg settle_ccy v) (arcs payers receivers)
    nonneg = unfold fx_problem in ok.flows_nonneg

    outflows : All (λ p. evaluate v (outflow p receivers) ≡ pos (neg_part (at p net))) payers
    outflows =
        All-map₂ (λ p. lookup name_dec (conserve_payer p) rows ≡ some (payer_row net receivers p))
          (λ p. is_payer net p ≡ true)
          (λ p. evaluate v (outflow p receivers) ≡ pos (neg_part (at p net))) payers
          (λ p row owes. ok.kept (conserve_payer p) _ row ∙ owed p owes) fx-payer_rows
          (All-keep_test (is_payer net) (keys net))
      where
        owed : (p : String) → is_payer net p ≡ true → neg (at p net) ≡ pos (neg_part (at p net))
        owed p h = grind int_laws

    inflows : All (λ q. evaluate v (inflow q payers) ≡ pos (pos_part (at q net))) receivers
    inflows =
        All-map₂
          (λ q. lookup name_dec (conserve_receiver q) rows ≡ some (receiver_row net payers q))
          (λ q. is_receiver net q ≡ true)
          (λ q. evaluate v (inflow q payers) ≡ pos (pos_part (at q net))) receivers
          (λ q row is_due. ok.kept (conserve_receiver q) _ row ∙ owed q is_due) fx-receiver_rows
          (All-keep_test (is_receiver net) (keys net))
      where
        owed : (q : String) → is_receiver net q ≡ true → at q net ≡ pos (pos_part (at q net))
        owed q h = grind int_laws

    fx-sent :
        (p : String)
        → sent p (map as_transfer (flow_transfers settle_ccy v (arcs payers receivers)))
          ≡ pos (neg_part (at p net))
    fx-sent p =
        sent-plan settle_ccy v p payers receivers nonneg
        ∙ sum_at-congr p (λ k. evaluate v (outflow k receivers)) (λ k. pos (neg_part (at k net)))
            payers outflows
        ∙ sum_at-keep p (λ k. pos (neg_part (at k net))) (is_payer net) (keys net)
            (λ k e. grind int_laws)
        ∙ sum_at-keys p (λ x. pos (neg_part x)) net unique refl

    fx-received :
        (p : String)
        → received p (map as_transfer (flow_transfers settle_ccy v (arcs payers receivers)))
          ≡ pos (pos_part (at p net))
    fx-received p =
        received-plan settle_ccy v p payers receivers nonneg
        ∙ sum_at-congr p (λ k. evaluate v (inflow k payers)) (λ k. pos (pos_part (at k net)))
            receivers inflows
        ∙ sum_at-keep p (λ k. pos (pos_part (at k net))) (is_receiver net) (keys net)
            (λ k e. grind int_laws)
        ∙ sum_at-keys p (λ x. pos (pos_part x)) net unique refl

module _ (solver : Solver) (rates : List FxRate) (settle_ccy : String) (limits : List CreditLimit)
    (floors : List FloorConstraint) (balances : Balances) (weights : Weights) where
  abbrev optimal_of : Dict String ℤ → Bool
  optimal_of net = (solver.run (fx_problem settle_ccy net limits floors balances weights)).optimal

  abbrev plan_of : Dict String ℤ → List SolvedTransfer
  plan_of net = sort transfer_order (
      flow_transfers settle_ccy
        (value_of (solver.run (fx_problem settle_ccy net limits floors balances weights)))
        (arcs (payers_in net) (receivers_in net)))

  solve_valued-optimal :
      (total : ℤ) (net : Dict String ℤ)
      → (is_empty (payers_in net) || is_empty (receivers_in net)) ≡ false
      → (solve_valued solver rates settle_ccy limits floors balances weights total net).feasible
        ≡ true
      → (optimal_of net ≡ true)
        × ((solve_valued solver rates settle_ccy limits floors balances weights total net).transfers
            ≡ plan_of net)
  unfolding solve_valued
  solve_valued-optimal total net some_parties h = elim (Bool-cases (optimal_of net)) [
    | inl o ↦ (o, rw (some_parties, o) refl)
    | inr o ↦ absurd (refused (rw (some_parties, o) at h))
  ]
    where
      refused : false ≡ true → ⊥
      refused e = cc

-- A feasible cross-currency answer settles the book by value: if some party owes and some party is
-- owed after the valuation, each sends its negative valued position and receives its positive one.
pub solve_fx-Settles :
    (solver : Solver) (rates : List FxRate) (settle_ccy : String) (limits : List CreditLimit)
    (floors : List FloorConstraint) (balances : Balances) (weights : Weights) (os : List Obligation)
    (r : SolveResult)
    → solve_fx solver rates settle_ccy limits floors balances weights os ≡ some r
    → r.feasible ≡ true
    → (is_empty (payers_in (value_all settle_ccy rates [] os))
        || is_empty (receivers_in (value_all settle_ccy rates [] os)))
      ≡ false
    → (p : String)
    → (sent p (map as_transfer r.transfers)
        ≡ pos (neg_part (at p (value_all settle_ccy rates [] os))))
      × (received p (map as_transfer r.transfers)
          ≡ pos (pos_part (at p (value_all settle_ccy rates [] os))))
solve_fx-Settles solver rates s limits floors balances weights os r h ok parties p =
    let net = value_all s rates [] os in
    let same = (solve_fx-valued solver rates s limits floors balances weights os r h ok).1 in
    let planned =
      solve_valued-optimal solver rates s limits floors balances weights (gross os) net parties
        (rw same at ok) in
    let problem = fx_problem s net limits floors balances weights in
    let v = value_of (solver.run problem) in
    let good = solver.sound problem planned.0 in
    let unique = value_all-IsUnique s rates os [] tt in
    let group = flow_transfers s v (arcs (payers_in net) (receivers_in net)) in
    let moved = ap (λ (x : SolveResult). x.transfers) same ∙ planned.1 in
    rw moved (
      sent-sort p group ∙ fx-sent s net limits floors balances weights unique v good p,
      received-sort p group ∙ fx-received s net limits floors balances weights unique v good p,
    )
