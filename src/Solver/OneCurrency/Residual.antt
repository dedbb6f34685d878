-- ===== src/Solver/OneCurrency/Residual.antt =====
-- A feasible answer moves as much as the greedy plan does: both move the sum of the net debts.
use tradeguard_canton.Prelude.{
  String, Bool, true, false, ◌≡◌, refl, ap, ◌∙◌, List, [], ◌∷◌, keep, All, All-map, inl, inr,
  Bool-cases,
}
use tradeguard_canton.Prelude.Int.{ℤ, pos, ◌+ℤ◌, neg_part, int_laws}
use tradeguard_canton.Prelude.Keys.{str_dec, str_leb}
use tradeguard_canton.Prelude.Dict.{Dict, IsUnique, items-get_or}
use tradeguard_canton.Prelude.Sorting.{sort, insert_sorted}
use tradeguard_canton.Netting.{Obligation, net_positions, minimal_settlement, transferred}
use tradeguard_canton.Netting.Positions.{net_positions-IsUnique}
use tradeguard_canton.Netting.Debts.{debt, net_positions_level}
use tradeguard_canton.Netting.Settlement.{transferred-minimal_settlement}
use tradeguard_canton.Solver.Model.{CreditLimit, Weights, residual}
use tradeguard_canton.Solver.Lp.{evaluate, Solver, value_of}
use tradeguard_canton.Solver.OneCurrency.{
  at, keys, is_payer, parties_of, payers_of, receivers_of, arcs, outflow, flow_transfers,
  netting_problem, solve_one_currency,
}
use tradeguard_canton.Solver.OneCurrency.Sums.{sum_all, residual-plan, residual-sort}
use tradeguard_canton.Solver.OneCurrency.Settles.{
  level, solved, refused, answer_cases, payer_rows, nonneg, debt_without_parties,
}

sum_all-insert_sorted :
    (f : String → ℤ) (k : String) (ks : List String)
    → sum_all f (insert_sorted str_leb k ks) ≡ f k +ℤ sum_all f ks
sum_all-insert_sorted f k [] = refl
sum_all-insert_sorted f k (j ∷ ks) = elim (Bool-cases (str_leb k j)) [
  | inl e ↦ rw e refl
  | inr e ↦ rw e (rw (sum_all-insert_sorted f k ks) (omega int_laws))
]

sum_all-sort : (f : String → ℤ) (ks : List String) → sum_all f (sort str_leb ks) ≡ sum_all f ks
unfolding sort
sum_all-sort f [] = refl
sum_all-sort f (k ∷ ks) = rw (sum_all-insert_sorted f k _, sum_all-sort f ks)

sum_all-keep :
    (f : String → ℤ) (test : String → Bool) (ks : List String)
    → ((k : String) → test k ≡ false → f k ≡ pos 0)
    → sum_all f (keep test ks) ≡ sum_all f ks
sum_all-keep f test [] h = refl
sum_all-keep f test (k ∷ ks) h = elim (Bool-cases (test k)) [
  | inl e ↦ rw e (rw (sum_all-keep f test ks h) refl)
  | inr e ↦ rw e (rw (sum_all-keep f test ks h, h k e) (omega int_laws))
]

sum_all-debt :
    (f : String → ℤ) (d : Dict String ℤ)
    → All (λ (e : String × ℤ). f e.0 ≡ pos (neg_part e.1)) d
    → sum_all f (keys d) ≡ pos (debt d)
sum_all-debt f [] h = refl
sum_all-debt f ((k, v) ∷ d) h = rw (h.0, sum_all-debt f d h.1) (omega int_laws)

sum_all-congr :
    (f g : String → ℤ) (ks : List String) → All (λ k. f k ≡ g k) ks → sum_all f ks ≡ sum_all g ks
sum_all-congr f g [] h = refl
sum_all-congr f g (k ∷ ks) h = rw (h.0, sum_all-congr f g ks h.1) refl

sum_all-payers :
    (net : Dict String ℤ)
    → IsUnique str_dec net
    → sum_all (λ k. pos (neg_part (at k net))) (payers_of net) ≡ pos (debt net)
sum_all-payers net unique =
    sum_all-keep (λ k. pos (neg_part (at k net))) (is_payer net) (parties_of net)
      (λ k e. grind int_laws)
    ∙ sum_all-sort (λ k. pos (neg_part (at k net))) (keys net)
    ∙ sum_all-debt (λ k. pos (neg_part (at k net))) net
        (All-map (λ (e : String × ℤ). at e.0 net ≡ e.1)
          (λ (e : String × ℤ). pos (neg_part (at e.0 net)) ≡ pos (neg_part e.1)) net
          (λ e same. ap (λ x. pos (neg_part x)) same) (items-get_or str_dec (pos 0) net unique))

-- A feasible answer moves exactly what the greedy plan of agent/netting.py moves, under any limits
-- and weights.
pub residual-solve_one_currency :
    (solver : Solver) (currency : String) (obligations : List Obligation)
    (limits : List CreditLimit) (weights : Weights) (instrument : String)
    → (solve_one_currency solver currency obligations limits weights).feasible ≡ true
    → residual (solve_one_currency solver currency obligations limits weights).transfers
      ≡ transferred (minimal_settlement obligations instrument)
unfolding residual
residual-solve_one_currency solver currency os limits weights i h =
    let net = net_positions os in
    let unique = net_positions-IsUnique os in
    elim (answer_cases solver currency os limits weights) [
      | level e _ nothing ↦ rw (
        nothing,
        transferred-minimal_settlement os i,
        debt_without_parties net unique (net_positions_level os) e,
        residual,
      )
      | solved o _ read ↦
          let v = value_of (solver.run (netting_problem currency net limits weights)) in
          let ok = solver.sound (netting_problem currency net limits weights) o in
          rw (read, transferred-minimal_settlement os i)
            (residual-sort (flow_transfers currency v (arcs (payers_of net) (receivers_of net)))
              ∙ residual-plan currency v (payers_of net) (receivers_of net)
                  (nonneg currency net limits weights v ok)
              ∙ sum_all-congr (λ k. evaluate v (outflow k (receivers_of net)))
                  (λ k. pos (neg_part (at k net))) (payers_of net)
                  (payer_rows currency net limits weights v ok)
              ∙ sum_all-payers net unique)
      | refused no_plan _ _ ↦ cc
    ]
