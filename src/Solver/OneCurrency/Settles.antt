-- ===== src/Solver/OneCurrency/Settles.antt =====
-- A feasible answer of `_solve_one_currency` settles the book, as the greedy plan does, and moves
-- as much.
use tradeguard_canton.Prelude.{
  ◌≤◌, String, Bool, true, false, ◌≡◌, refl, sym, ap, ◌∙◌, some, List, [], ◌∷◌, map, keep, arith,
  All, All-map, All-map₂, All-keep_test, inl, inr, Bool-cases, ◌⊎◌, ◌||◌,
}
use tradeguard_canton.Prelude.Int.{ℤ, pos, neg, pos_part, neg_part, int_laws}
use tradeguard_canton.Prelude.Keys.{str_dec}
use tradeguard_canton.Prelude.Dict.{Dict, lookup, IsUnique, items-get_or}
use tradeguard_canton.Prelude.Sorting.{sort}
use tradeguard_canton.Netting.{Obligation, net_positions}
use tradeguard_canton.Netting.Positions.{net_positions-position, net_positions-IsUnique}
use tradeguard_canton.Netting.Debts.{credit, debt, net_positions_level}
use tradeguard_canton.Netting.Greedy.{sent, received}
use tradeguard_canton.Netting.Settlement.{Settles}
use tradeguard_canton.Solver.Model.{CreditLimit, SolvedTransfer, Weights, as_transfer}
use tradeguard_canton.Solver.Lp.{
  Var, conserve_payer, conserve_receiver, name_dec, evaluate, Solver, Satisfies, value_of, Outcome,
}
use tradeguard_canton.Solver.OneCurrency.{
  at, keys, parties_of, is_payer, is_receiver, payers_of, receivers_of, arcs, outflow, inflow,
  payer_row, receiver_row, applies, netting_problem, flow_transfers, transfer_order, is_empty,
  solve_one_currency, OneCurrency, diagnose_infeasibility, capped_of,
}
use tradeguard_canton.Solver.OneCurrency.Sums.{
  sum_at, sum_at-sort, sum_at-keep, sum_at-keys, sum_at-congr, sent-plan, received-plan, sent-sort,
  received-sort, IsNonneg,
}
use tradeguard_canton.Solver.OneCurrency.Problems.{problem-payer_rows, problem-receiver_rows}

-- The two sides of a table, summed over its payers and its receivers.
module _ (net : Dict String ℤ) (unique : IsUnique str_dec net) (p : String) where
  sum_at-payers :
      sum_at p (λ k. pos (neg_part (at k net))) (payers_of net) ≡ pos (neg_part (at p net))
  sum_at-payers =
      sum_at-keep p (λ k. pos (neg_part (at k net))) (is_payer net) (parties_of net)
        (λ k e. grind int_laws)
      ∙ sum_at-sort p (λ k. pos (neg_part (at k net))) (keys net)
      ∙ sum_at-keys p (λ x. pos (neg_part x)) net unique refl

  sum_at-receivers :
      sum_at p (λ k. pos (pos_part (at k net))) (receivers_of net) ≡ pos (pos_part (at p net))
  sum_at-receivers =
      sum_at-keep p (λ k. pos (pos_part (at k net))) (is_receiver net) (parties_of net)
        (λ k e. grind int_laws)
      ∙ sum_at-sort p (λ k. pos (pos_part (at k net))) (keys net)
      ∙ sum_at-keys p (λ x. pos (pos_part x)) net unique refl

pos_part-at-le : (p : String) (d : Dict String ℤ) → pos_part (at p d) ≤ credit d
pos_part-at-le p [] = omega arith
pos_part-at-le p ((k, v) ∷ d) = ground (arith, pos_part-at-le p d)

neg_part-at-le : (p : String) (d : Dict String ℤ) → neg_part (at p d) ≤ debt d
neg_part-at-le p [] = omega arith
neg_part-at-le p ((k, v) ∷ d) = ground (arith, neg_part-at-le p d)

debt_of_none : (d : Dict String ℤ) → All (λ (e : String × ℤ). neg_part e.1 ≡ 0) d → debt d ≡ 0
debt_of_none [] h = refl
debt_of_none ((k, v) ∷ d) h = omega (arith, debt_of_none d h.1)

credit_of_none : (d : Dict String ℤ) → All (λ (e : String × ℤ). pos_part e.1 ≡ 0) d → credit d ≡ 0
credit_of_none [] h = refl
credit_of_none ((k, v) ∷ d) h = omega (arith, credit_of_none d h.1)

-- Without payers, or without receivers, every position is zero.
module _ (net : Dict String ℤ) (unique : IsUnique str_dec net) (level : credit net ≡ debt net) where
  debt_without_payers : payers_of net ≡ [] → debt net ≡ 0
  debt_without_payers e = debt_of_none net (
      All-map (λ (x : String × ℤ). at x.0 net ≡ x.1) (λ (x : String × ℤ). neg_part x.1 ≡ 0) net
        (λ x found. rw (← found) (
          ap pos_part (
            sym (sum_at-payers net unique x.0)
            ∙ ap (sum_at x.0 (λ k. pos (neg_part (at k net)))) e)))
        (items-get_or str_dec (pos 0) net unique))

  credit_without_receivers : receivers_of net ≡ [] → credit net ≡ 0
  credit_without_receivers e = credit_of_none net (
      All-map (λ (x : String × ℤ). at x.0 net ≡ x.1) (λ (x : String × ℤ). pos_part x.1 ≡ 0) net
        (λ x found. rw (← found) (
          ap pos_part (
            sym (sum_at-receivers net unique x.0)
            ∙ ap (sum_at x.0 (λ k. pos (pos_part (at k net)))) e)))
        (items-get_or str_dec (pos 0) net unique))

  pub debt_without_parties :
      (is_empty (payers_of net) || is_empty (receivers_of net)) ≡ true → debt net ≡ 0
  debt_without_parties e = elim (one_empty (payers_of net) (receivers_of net) e) [
    | inl q ↦ debt_without_payers q
    | inr q ↦ omega (arith, credit_without_receivers q)
  ]
    where
      one_empty :
          (ps qs : List String) → (is_empty ps || is_empty qs) ≡ true → (ps ≡ []) ⊎ (qs ≡ [])
      one_empty [] qs h = inl refl
      one_empty (x ∷ ps) [] h = inr refl
      one_empty (x ∷ ps) (y ∷ qs) h = cc

  level_when_empty :
      (is_empty (payers_of net) || is_empty (receivers_of net)) ≡ true
      → (p : String) → (neg_part (at p net) ≡ 0) × (pos_part (at p net) ≡ 0)
  level_when_empty e p =
      omega (arith, debt_without_parties e, neg_part-at-le p net, pos_part-at-le p net)

-- The transfers read off an assignment, in their order.
abbrev pub read_off : String → Dict String ℤ → (Var → ℤ) → List SolvedTransfer
read_off currency net v =
    sort transfer_order (flow_transfers currency v (arcs (payers_of net) (receivers_of net)))

-- An assignment that satisfies the problem meets every party's position.
module _ (currency : String) (net : Dict String ℤ) (limits : List CreditLimit) (weights : Weights)
    (v : Var → ℤ) (ok : Satisfies v (netting_problem currency net limits weights)) where
  pub payer_rows :
      All
        (λ p. evaluate v (outflow p (receivers_of net)) ≡ pos (neg_part (at p net)))
        (payers_of net)
  payer_rows =
      All-map₂
        (λ p.
          lookup name_dec (conserve_payer p)
            (netting_problem currency net limits weights).constraints
          ≡ some (payer_row net (receivers_of net) p))
        (λ p. is_payer net p ≡ true)
        (λ p. evaluate v (outflow p (receivers_of net)) ≡ pos (neg_part (at p net))) (payers_of net)
        (λ p row owes. ok.kept (conserve_payer p) _ row ∙ owed p owes)
        (problem-payer_rows currency net limits weights)
        (All-keep_test (is_payer net) (parties_of net))
    where
      owed : (p : String) → is_payer net p ≡ true → neg (at p net) ≡ pos (neg_part (at p net))
      owed p h = grind int_laws

  receiver_rows :
      All
        (λ q. evaluate v (inflow q (payers_of net)) ≡ pos (pos_part (at q net)))
        (receivers_of net)
  receiver_rows =
      All-map₂
        (λ q.
          lookup name_dec (conserve_receiver q)
            (netting_problem currency net limits weights).constraints
          ≡ some (receiver_row net (payers_of net) q))
        (λ q. is_receiver net q ≡ true)
        (λ q. evaluate v (inflow q (payers_of net)) ≡ pos (pos_part (at q net))) (receivers_of net)
        (λ q row is_due. ok.kept (conserve_receiver q) _ row ∙ owed q is_due)
        (problem-receiver_rows currency net limits weights)
        (All-keep_test (is_receiver net) (parties_of net))
    where
      owed : (q : String) → is_receiver net q ≡ true → at q net ≡ pos (pos_part (at q net))
      owed q h = grind int_laws

  pub nonneg : All (IsNonneg currency v) (arcs (payers_of net) (receivers_of net))
  nonneg = unfold netting_problem in ok.flows_nonneg

  pub sent-read_off :
      IsUnique str_dec net
      → (p : String)
      → sent p (map as_transfer (read_off currency net v)) ≡ pos (neg_part (at p net))
  sent-read_off unique p =
      sent-sort p (flow_transfers currency v (arcs (payers_of net) (receivers_of net)))
      ∙ sent-plan currency v p (payers_of net) (receivers_of net) nonneg
      ∙ sum_at-congr p (λ k. evaluate v (outflow k (receivers_of net)))
          (λ k. pos (neg_part (at k net))) (payers_of net) payer_rows
      ∙ sum_at-payers net unique p

  pub received-read_off :
      IsUnique str_dec net
      → (p : String)
      → received p (map as_transfer (read_off currency net v)) ≡ pos (pos_part (at p net))
  received-read_off unique p =
      received-sort p (flow_transfers currency v (arcs (payers_of net) (receivers_of net)))
      ∙ received-plan currency v p (payers_of net) (receivers_of net) nonneg
      ∙ sum_at-congr p (λ k. evaluate v (inflow k (payers_of net))) (λ k. pos (pos_part (at k net)))
          (receivers_of net) receiver_rows
      ∙ sum_at-receivers net unique p

module _ (solver : Solver) (currency : String) (os : List Obligation) (limits : List CreditLimit)
    (weights : Weights) where
  abbrev answer : OneCurrency
  answer = solve_one_currency solver currency os limits weights

  abbrev nets : Dict String ℤ
  nets = net_positions os

  abbrev outcome : Outcome
  outcome = solver.run (netting_problem currency nets limits weights)

  abbrev no_residuals : Bool
  no_residuals = is_empty (payers_of nets) || is_empty (receivers_of nets)

  -- The three ways in which the function returns.
  pub data Answer : Type 0 where
    level : no_residuals ≡ true → answer.feasible ≡ true → answer.transfers ≡ [] → Answer
    solved :
        outcome.optimal ≡ true
        → answer.feasible ≡ true
        → answer.transfers ≡ read_off currency nets (value_of outcome)
        → Answer
    refused :
        answer.feasible ≡ false
        → answer.transfers ≡ []
        → answer.binding
          ≡ diagnose_infeasibility currency nets
              (payers_of nets)
              (receivers_of nets)
              (capped_of (keep (applies currency (payers_of nets) (receivers_of nets)) limits) [])
        → Answer

  pub answer_cases : Answer
  unfolding solve_one_currency
  answer_cases = elim (Bool-cases no_residuals) [
    | inl e ↦ level e (rw e refl) (rw e refl)
    | inr e ↦ elim (Bool-cases outcome.optimal) [
      | inl o ↦ solved o (ground arith) (rw (e, o) refl)
      | inr o ↦ refused (ground arith) (ground arith) (rw (e, o) refl)
    ]
  ]

-- A feasible answer settles the book.
pub solve_one_currency-Settles :
    (solver : Solver) (currency : String) (obligations : List Obligation)
    (limits : List CreditLimit) (weights : Weights)
    → (solve_one_currency solver currency obligations limits weights).feasible ≡ true
    → Settles obligations
        (map as_transfer (solve_one_currency solver currency obligations limits weights).transfers)
solve_one_currency-Settles solver currency os limits weights h =
    let net = net_positions os in
    let unique = net_positions-IsUnique os in
    let there = net_positions-position os in
    elim (answer_cases solver currency os limits weights) [
      | level e _ nothing ↦
          let zero_at = level_when_empty net unique (net_positions_level os) e in
          rw nothing (record {
            pays = λ p. rw (← there p, (zero_at p).0);
            is_paid = λ p. rw (← there p, (zero_at p).1);
          })
      | solved o _ read ↦
          let v = value_of (solver.run (netting_problem currency net limits weights)) in
          let ok = solver.sound (netting_problem currency net limits weights) o in
          rw read (record {
            pays = λ p.
                sent-read_off currency net limits weights v ok unique p
                ∙ ap (λ x. pos (neg_part x)) (there p);
            is_paid = λ p.
                received-read_off currency net limits weights v ok unique p
                ∙ ap (λ x. pos (pos_part x)) (there p);
          })
      | refused no_plan _ _ ↦ cc
    ]
