-- ===== src/Solver/Maximal/Reasons.antt =====
-- `solve_maximal` gives a reason exactly when it defers an obligation.
use tradeguard_canton.Prelude.{String, ◌≡◌, refl, ◌≢◌, ap, List, [], ◌∷◌, ◌++◌, length, leb, arith}
use mathlib.Core.Logic.{◌↔◌}
use tradeguard_canton.Prelude.Sorting.{sort, length-sort}
use tradeguard_canton.Netting.{Obligation}
use tradeguard_canton.Solver.Model.{CreditLimit, AggLimit, Weights, Binding, deferred_for_limits}
use tradeguard_canton.Solver.Lp.{Solver}
use tradeguard_canton.Solver.Book.{by_name}
use tradeguard_canton.Solver.Maximal.{
  Indexed, indices_of, by_index, deferred_of, reasons_of, maximal_each, reasons_for,
  solve_one_currency_maximal, solve_maximal,
}

reasons_for-deferred :
    (currency : String) (os : List Obligation) (parties : List String) (limits : List CreditLimit)
    (agg_limits : List AggLimit) (deferred : List Indexed)
    → (reasons_for currency os parties limits agg_limits deferred ≡ []) ↔ (deferred ≡ [])
unfolding reasons_for
reasons_for-deferred c os ps limits aggs [] = (λ h. refl, λ h. refl)
reasons_for-deferred c os ps limits aggs (x ∷ xs) = (λ h. absurd (always _ h), λ h. cc)
  where
    always :
        (bs : List Binding)
        → (elim bs [ [] ↦ deferred_for_limits (length (x ∷ xs)) c ∷ [] | b ∷ more ↦ b ∷ more ]) ≢ []
    always [] e = cc
    always (b ∷ bs) e = cc

append-nil_iff {ℓ} : {A : Type ℓ} (xs ys : List A) → ((xs ≡ []) × (ys ≡ [])) ↔ (xs ++ ys ≡ [])
append-nil_iff [] ys = (λ h. h.1, λ h. (refl, h))
append-nil_iff (x ∷ xs) ys = (λ h. cc, λ h. cc)

module _ (solver : Solver) (limits : List CreditLimit) (weights : Weights)
    (agg_limits : List AggLimit) where
  maximal_each-reasons :
      (groups : List (String × List Indexed))
      → (reasons_of (maximal_each solver limits weights agg_limits groups) ≡ [])
        ↔ (deferred_of (maximal_each solver limits weights agg_limits groups) ≡ [])
  unfolding maximal_each solve_one_currency_maximal
  maximal_each-reasons [] = (λ h. refl, λ h. refl)
  maximal_each-reasons ((c, items) ∷ groups) =
      let one = reasons_for-deferred c _ _ limits agg_limits _ in
      let more = maximal_each-reasons groups in
      (
        λ h.
            let parts = (append-nil_iff _ _).1 h in
            (append-nil_iff _ _).0 (one.0 parts.0, more.0 parts.1),
        λ h.
            let parts = (append-nil_iff _ _).1 h in
            (append-nil_iff _ _).0 (one.1 parts.0, more.1 parts.1),
      )

sort-nil : (xs : List Indexed) → (xs ≡ []) ↔ (sort leb (indices_of xs) ≡ [])
sort-nil [] = (λ h. unfold sort in refl, λ h. refl)
sort-nil (x ∷ xs) = (λ h. cc, λ h. absurd (long h))
  where
    long : sort leb (indices_of (x ∷ xs)) ≡ [] → ⊥
    long e = omega (arith, length-sort leb (indices_of (x ∷ xs)), ap length e)

-- `solve_maximal` gives a reason for a deferral exactly when it defers an obligation.
pub solve_maximal-reasons :
    (solver : Solver) (obligations : List Obligation) (limits : List CreditLimit)
    (weights : Weights) (agg_limits : List AggLimit)
    → ((solve_maximal solver obligations limits weights agg_limits).deferral_reasons ≡ [])
      ↔ ((solve_maximal solver obligations limits weights agg_limits).deferred_obligations ≡ [])
unfolding solve_maximal
solve_maximal-reasons solver os limits weights agg_limits =
    let groups = sort by_name (by_index os) in
    let same = maximal_each-reasons solver limits weights agg_limits groups in
    let sorted = sort-nil (deferred_of (maximal_each solver limits weights agg_limits groups)) in
    (λ h. sorted.0 (same.0 h), λ h. same.1 (sorted.1 h))
