-- ===== src/Solver/Maximal/Zero.antt =====
-- The problem of `_solve_one_currency_maximal` always has a plan: to settle nothing.
use tradeguard_canton.Prelude.{
  String, ◌≡◌, refl, some, inl, List, [], ◌∷◌, keep, arith, All, All-keep, ite,
}
use tradeguard_canton.Prelude.Int.{ℤ, pos, ◌≤ℤ◌, int_laws, *ℤ-zero}
use tradeguard_canton.Prelude.Dict.{Dict, lookup, insert}
use tradeguard_canton.Solver.Model.{CreditLimit, AggLimit, Weights}
use tradeguard_canton.Solver.Lp.{
  Var, Name, conserve, agg, limit, name_dec, Constraint, evaluate, Holds, Satisfies,
}
use tradeguard_canton.Solver.OneCurrency.{add_all, add_caps, cap_row}
use tradeguard_canton.Solver.Maximal.{
  Indexed, owed_of, indices_of, parties_in, conserve_row, between, agg_applies, agg_row, add_aggs,
  maximal_problem, pairs_of,
}

-- Nothing settles, and nothing moves.
abbrev pub nothing : Var → ℤ
nothing x = pos 0

evaluate-nothing : (terms : List (ℤ × Var)) → evaluate nothing terms ≡ pos 0
evaluate-nothing [] = refl
evaluate-nothing ((c, x) ∷ terms) = rw (*ℤ-zero c, evaluate-nothing terms) (omega int_laws)

abbrev AllHold : Dict Name Constraint → Type 0
AllHold d = All (λ (e : Name × Constraint). Holds nothing e.1) d

insert-AllHold :
    (n : Name) (c : Constraint) (d : Dict Name Constraint)
    → Holds nothing c
    → AllHold d
    → AllHold (insert name_dec n c d)
insert-AllHold n c [] h k = (h, tt)
insert-AllHold n c ((m, b) ∷ d) h k =
    elim (name_dec n m) as (λ z. AllHold (ite z ((m, c) ∷ d) ((m, b) ∷ insert name_dec n c d))) [
      | yes e ↦ (h, k.1)
      | no ne ↦ (k.0, insert-AllHold n c d h k.1)
    ]

lookup-Holds :
    (n : Name) (c : Constraint) (d : Dict Name Constraint)
    → AllHold d
    → lookup name_dec n d ≡ some c
    → Holds nothing c
lookup-Holds n c [] h e = cc
lookup-Holds n c ((m, b) ∷ d) h e = elim (name_dec n m) [
  | yes here ↦ found (ground arith)
  | no ne ↦ lookup-Holds n c d h.1 (ground arith)
]
  where
    found : b ≡ c → Holds nothing c
    found same = rw (← same) h.0

conserve_rows-AllHold :
    (items : List Indexed) (parties ps : List String) (d : Dict Name Constraint)
    → AllHold d
    → AllHold (add_all conserve (conserve_row items parties) ps d)
unfolding add_all
conserve_rows-AllHold items parties [] d h = h
conserve_rows-AllHold items parties (p ∷ ps) d h =
    conserve_rows-AllHold items parties ps
      (insert name_dec (conserve p) (conserve_row items parties p) d)
      (insert-AllHold (conserve p) (conserve_row items parties p) d
        (evaluate-nothing (conserve_row items parties p).terms) h)

add_caps-AllHold :
    (cls : List CreditLimit) (d : Dict Name Constraint)
    → All (λ cl. pos 0 ≤ℤ cl.limit) cls
    → AllHold d
    → AllHold (add_caps cls d)
unfolding add_caps
add_caps-AllHold [] d h k = k
add_caps-AllHold (cl ∷ cls) d h k =
    add_caps-AllHold cls (insert name_dec (limit cl.frm cl.to) (cap_row cl) d) h.1 (
      insert-AllHold (limit cl.frm cl.to) (cap_row cl) d
        (rw (evaluate-nothing (cap_row cl).terms) h.0) k)

add_aggs-AllHold :
    (parties : List String) (als : List AggLimit) (d : Dict Name Constraint)
    → All (λ al. pos 0 ≤ℤ al.limit) als
    → AllHold d
    → AllHold (add_aggs parties als d)
unfolding add_aggs
add_aggs-AllHold parties [] d h k = k
add_aggs-AllHold parties (al ∷ als) d h k =
    add_aggs-AllHold parties als (insert name_dec (agg al.party) (agg_row parties al) d) h.1 (
      insert-AllHold (agg al.party) (agg_row parties al) d
        (rw (evaluate-nothing (agg_row parties al).terms) h.0) k)

All-always {ℓ} : {A : Type ℓ} (P : A → Type 0) (xs : List A) → ((x : A) → P x) → All P xs
All-always P [] h = tt
All-always P (x ∷ xs) h = (h x, All-always P xs h)

-- With no negative limit, the assignment that settles nothing and moves nothing satisfies the
-- problem, for every list of obligations: the worst case is to defer everything, never to fail.
pub maximal_problem-nothing :
    (currency : String) (items : List Indexed) (limits : List CreditLimit) (weights : Weights)
    (agg_limits : List AggLimit)
    → All (λ cl. pos 0 ≤ℤ cl.limit) limits
    → All (λ al. pos 0 ≤ℤ al.limit) agg_limits
    → Satisfies (λ x. pos 0) (maximal_problem currency items limits weights agg_limits)
unfolding maximal_problem
maximal_problem-nothing currency items limits weights agg_limits caps aggs =
    let parties = parties_in (owed_of items) in
    record {
      flows_nonneg = All-always _ (pairs_of parties parties) (λ a. omega arith);
      picks_binary = All-always _ (indices_of items) (λ k. inl refl);
      kept = λ n c e.
          lookup-Holds n c _
            (add_aggs-AllHold parties (keep (agg_applies currency parties) agg_limits) _
              (All-keep (λ al. pos 0 ≤ℤ al.limit) (agg_applies currency parties) agg_limits aggs)
              (add_caps-AllHold (keep (between currency parties) limits) _
                (All-keep (λ cl. pos 0 ≤ℤ cl.limit) (between currency parties) limits caps)
                (conserve_rows-AllHold items parties parties [] tt)))
            e;
    }
