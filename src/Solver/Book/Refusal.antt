-- ===== src/Solver/Book/Refusal.antt =====
-- What `solve` names when it refuses, and the limits that its transfers respect.
use tradeguard_canton.Prelude.{
  String, Bool, true, ◌≡◌, refl, List, [], ◌∷◌, ◌++◌, arith, inl, inr, Bool-cases, All, All-map₂,
  ◌&&◌, ◌||◌,
}
use tradeguard_canton.Prelude.Sorting.{sort}
use mathlib.Core.Logic.{◌↔◌}
use tradeguard_canton.Netting.{Obligation, net_positions}
use tradeguard_canton.Solver.Model.{CreditLimit, Weights, SolvedTransfer, Binding}
use tradeguard_canton.Solver.Lp.{Solver}
use tradeguard_canton.Solver.OneCurrency.{
  solve_one_currency, netting_problem, payers_of, receivers_of, is_empty,
}
use tradeguard_canton.Solver.OneCurrency.Limits.{last_limit, Within, solve_one_currency-Within}
use tradeguard_canton.Solver.OneCurrency.Diagnosis.{solve_one_currency-Refutes}
use tradeguard_canton.Solver.Book.{
  by_currency, by_name, transfers_of, bindings_of, all_feasible, solve_each, solve,
}
use tradeguard_canton.Solver.Book.Settles.{one_currency-IsIn}

abbrev pub IsWithin : List CreditLimit → SolvedTransfer → Type 0
IsWithin limits t = Within (last_limit t.currency t.sender t.receiver limits) t.amount

module _ (solver : Solver) (limits : List CreditLimit) (weights : Weights) where
  one_currency-IsWithin :
      (c : String) (os : List Obligation)
      → All (IsWithin limits) (solve_one_currency solver c os limits weights).transfers
  one_currency-IsWithin c os =
      All-map₂ (λ t. t.currency ≡ c)
        (λ t. Within (last_limit c t.sender t.receiver limits) t.amount) (IsWithin limits)
        (solve_one_currency solver c os limits weights).transfers
        (λ t same_currency h. rw same_currency h) (one_currency-IsIn solver limits weights c os)
        (solve_one_currency-Within solver c os limits weights)

  All-append :
      (xs ys : List SolvedTransfer)
      → All (IsWithin limits) xs
      → All (IsWithin limits) ys
      → All (IsWithin limits) (xs ++ ys)
  All-append [] ys h k = k
  All-append (x ∷ xs) ys h k = (h.0, All-append xs ys h.1 k)

  solve_each-IsWithin :
      (items : List (String × List Obligation))
      → All (IsWithin limits) (transfers_of (solve_each solver limits weights items))
  unfolding solve_each
  solve_each-IsWithin [] = tt
  solve_each-IsWithin ((c, os) ∷ items) =
      All-append (solve_one_currency solver c os limits weights).transfers
        (transfers_of (solve_each solver limits weights items)) (one_currency-IsWithin c os)
        (solve_each-IsWithin items)

  one_currency-silent :
      (c : String) (os : List Obligation)
      → (solve_one_currency solver c os limits weights).feasible ≡ true
      → (solve_one_currency solver c os limits weights).binding ≡ []
  unfolding solve_one_currency
  one_currency-silent c os h =
      let net = net_positions os in
      elim (Bool-cases (is_empty (payers_of net) || is_empty (receivers_of net))) [
        | inl e ↦ rw e refl
        | inr e ↦ elim (Bool-cases (solver.run (netting_problem c net limits weights)).optimal) [
          | inl o ↦ rw (e, o) refl
          | inr o ↦ ground arith
        ]
      ]

  -- One currency names a constraint exactly when it has no plan.
  one_currency-named :
      (c : String) (os : List Obligation)
      → ((solve_one_currency solver c os limits weights).feasible ≡ true)
        ↔ ((solve_one_currency solver c os limits weights).binding ≡ [])
  one_currency-named c os = (one_currency-silent c os, named)
    where
      named :
          (solve_one_currency solver c os limits weights).binding ≡ []
          → (solve_one_currency solver c os limits weights).feasible ≡ true
      named e = elim (Bool-cases (solve_one_currency solver c os limits weights).feasible) [
        | inl h ↦ h
        | inr h ↦ absurd ((solve_one_currency-Refutes solver c os limits weights h).0 e)
      ]

  append_empty : (xs ys : List Binding) → ((xs ≡ []) × (ys ≡ [])) ↔ (xs ++ ys ≡ [])
  append_empty [] ys = (λ h. h.1, λ h. (refl, h))
  append_empty (x ∷ xs) ys = (λ h. cc, λ h. cc)

  solve_each-named :
      (items : List (String × List Obligation))
      → (all_feasible (solve_each solver limits weights items) ≡ true)
        ↔ (bindings_of (solve_each solver limits weights items) ≡ [])
  unfolding solve_each
  solve_each-named [] = (λ h. refl, λ h. refl)
  solve_each-named ((c, os) ∷ items) =
      let one = one_currency-named c os in
      let more = solve_each-named items in
      let joined =
        append_empty (solve_one_currency solver c os limits weights).binding
          (bindings_of (solve_each solver limits weights items)) in
      (
        λ h. joined.0 (one.0 (ground arith), more.0 (ground arith)),
        λ h. let parts = joined.1 h in both (one.1 parts.0) (more.1 parts.1),
      )
    where
      both : {a b : Bool} → a ≡ true → b ≡ true → (a && b) ≡ true
      both h k = rw (h, k) refl

-- Every transfer that `solve` plans respects the limit, in its own currency, from its sender to its
-- receiver.
pub solve-Within :
    (solver : Solver) (obligations : List Obligation) (limits : List CreditLimit)
    (weights : Weights)
    → All
        (λ t. Within (last_limit t.currency t.sender t.receiver limits) t.amount)
        (solve solver obligations limits weights).transfers
unfolding solve
solve-Within solver os limits weights =
    solve_each-IsWithin solver limits weights (sort by_name (by_currency os))

-- `solve` names a binding constraint exactly when some currency has no plan: a refusal is never
-- without a reason, and a feasible answer names none.
pub solve-binding :
    (solver : Solver) (obligations : List Obligation) (limits : List CreditLimit)
    (weights : Weights)
    → ((solve solver obligations limits weights).feasible ≡ true)
      ↔ ((solve solver obligations limits weights).binding_constraints ≡ [])
unfolding solve
solve-binding solver os limits weights =
    solve_each-named solver limits weights (sort by_name (by_currency os))
