-- ===== src/Solver/Maximal/Rows.antt =====
-- The rows of the problem of `_solve_one_currency_maximal`: where they stand, and what they say of
-- an assignment.
use tradeguard_canton.Prelude.{
  ℕ, String, ◌≡◌, refl, ◌≢◌, ◌∙◌, ap, some, ◌⊎◌, List, [], ◌∷◌, ◌++◌, keep, ite, arith, inl, inr,
  All, All-map,
}
use tradeguard_canton.Prelude.Int.{
  ℤ, pos, ◌+ℤ◌, ◌-ℤ◌, ◌*ℤ◌, neg, int_laws, neg-*ℤ, *ℤ-one, *ℤ-zero, pos_part, neg_part,
}
use tradeguard_canton.Prelude.Keys.{str_dec}
use tradeguard_canton.Prelude.Dict.{Dict, lookup, insert, lookup-insert_ne}
use tradeguard_canton.Netting.Positions.{incoming, outgoing, position}
use tradeguard_canton.Solver.Model.{CreditLimit, AggLimit, Weights}
use tradeguard_canton.Solver.Lp.{Var, pick, Name, conserve, agg, name_dec, Constraint, evaluate}
use tradeguard_canton.Solver.OneCurrency.{outflow, inflow, add_all, add_caps}
use tradeguard_canton.Solver.OneCurrency.Problems.{add_all-rows, add_caps-others}
use tradeguard_canton.Solver.Maximal.{
  Indexed, owed_of, indices_of, parties_in, others, negated, picked_in, picked_out, conserve_row,
  between, agg_applies, agg_row, add_aggs, maximal_problem, is_settled,
}

pub add_aggs-others :
    (n : Name) (parties : List String) (als : List AggLimit) (d : Dict Name Constraint)
    → ((p : String) → n ≢ agg p)
    → lookup name_dec n (add_aggs parties als d) ≡ lookup name_dec n d
unfolding add_aggs
add_aggs-others n parties [] d h = refl
add_aggs-others n parties (al ∷ als) d h =
    add_aggs-others n parties als (insert name_dec (agg al.party) (agg_row parties al) d) h
    ∙ lookup-insert_ne name_dec n (agg al.party) (agg_row parties al) d (h al.party)

balanced : (a b c d : ℤ) → (a +ℤ neg b) +ℤ (neg c +ℤ d) ≡ pos 0 → a -ℤ b ≡ c -ℤ d
balanced a b c d e = omega (int_laws, ap pos_part e, ap neg_part e)

module _ (v : Var → ℤ) where
  evaluate-append : (s t : List (ℤ × Var)) → evaluate v (s ++ t) ≡ evaluate v s +ℤ evaluate v t
  evaluate-append [] t = omega int_laws
  evaluate-append ((c, x) ∷ s) t = rw (evaluate-append s t) (omega int_laws)

  evaluate-negated : (s : List (ℤ × Var)) → evaluate v (negated s) ≡ neg (evaluate v s)
  evaluate-negated [] = omega int_laws
  evaluate-negated ((c, x) ∷ s) = rw (evaluate-negated s, neg-*ℤ c (v x)) (omega int_laws)

  -- A binary choice.
  abbrev pub IsBinary : ℕ → Type 0
  IsBinary k = (v (pick k) ≡ pos 0) ⊎ (v (pick k) ≡ pos 1)

  -- The picked amounts of a party are those of the settled obligations.
  picked_in-cons :
      (p : String) (x : Indexed) (items : List Indexed)
      → evaluate v (picked_in p (x ∷ items))
        ≡ ite (str_dec p x.owed.payee) (x.owed.amount *ℤ v (pick x.index)) (pos 0)
          +ℤ evaluate v (picked_in p items)
  picked_in-cons p x items = grind int_laws

  picked_in-settled :
      (p : String) (items : List Indexed)
      → All IsBinary (indices_of items)
      → evaluate v (picked_in p items) ≡ incoming p (owed_of (keep (is_settled v) items))
  picked_in-settled p [] h = refl
  picked_in-settled p (x ∷ items) h =
      let rest = picked_in-settled p items h.1 in
      picked_in-cons p x items ∙ elim h.0 [
        | inl e ↦ rw e (rw (rest, *ℤ-zero x.owed.amount) (grind int_laws))
        | inr e ↦ rw e (rw (rest, *ℤ-one x.owed.amount) refl)
      ]

  picked_out-cons :
      (p : String) (x : Indexed) (items : List Indexed)
      → evaluate v (picked_out p (x ∷ items))
        ≡ ite (str_dec p x.owed.payer) (x.owed.amount *ℤ v (pick x.index)) (pos 0)
          +ℤ evaluate v (picked_out p items)
  picked_out-cons p x items = grind int_laws

  picked_out-settled :
      (p : String) (items : List Indexed)
      → All IsBinary (indices_of items)
      → evaluate v (picked_out p items) ≡ outgoing p (owed_of (keep (is_settled v) items))
  picked_out-settled p [] h = refl
  picked_out-settled p (x ∷ items) h =
      let rest = picked_out-settled p items h.1 in
      picked_out-cons p x items ∙ elim h.0 [
        | inl e ↦ rw e (rw (rest, *ℤ-zero x.owed.amount) (grind int_laws))
        | inr e ↦ rw e (rw (rest, *ℤ-one x.owed.amount) refl)
      ]

  -- What a row of conservation says.
  pub conserve_row-position :
      (items : List Indexed) (parties : List String) (p : String)
      → All IsBinary (indices_of items)
      → evaluate v (conserve_row items parties p).terms ≡ pos 0
      → evaluate v (inflow p (others p parties)) -ℤ evaluate v (outflow p (others p parties))
        ≡ position p (owed_of (keep (is_settled v) items))
  conserve_row-position items parties p binary h =
      let ins = inflow p (others p parties) in
      let outs = outflow p (others p parties) in
      balanced (evaluate v ins) (evaluate v outs) _ _ (
        rw
          (
            evaluate-append (ins ++ negated outs)
                (negated (picked_in p items) ++ picked_out p items),
            evaluate-append ins (negated outs),
            evaluate-append (negated (picked_in p items)) (picked_out p items),
            evaluate-negated outs,
            evaluate-negated (picked_in p items),
            picked_in-settled p items binary,
            picked_out-settled p items binary,
          )
          at h)

-- Each party has its row of conservation in the whole problem.
module _ (currency : String) (items : List Indexed) (limits : List CreditLimit) (weights : Weights)
    (agg_limits : List AggLimit) where
  abbrev pub parties : List String
  parties = parties_in (owed_of items)

  abbrev pub rows : Dict Name Constraint
  rows = (maximal_problem currency items limits weights agg_limits).constraints

  abbrev conserving : Dict Name Constraint
  conserving = add_all conserve (conserve_row items parties) parties []

  abbrev pub applied : List CreditLimit
  applied = keep (between currency parties) limits

  abbrev pub applied_aggs : List AggLimit
  applied_aggs = keep (agg_applies currency parties) agg_limits

  pub maximal_problem-rows :
      All (λ p. lookup name_dec (conserve p) rows ≡ some (conserve_row items parties p)) parties
  unfolding maximal_problem
  maximal_problem-rows =
      All-map (λ p. lookup name_dec (conserve p) conserving ≡ some (conserve_row items parties p))
        (λ p. lookup name_dec (conserve p) rows ≡ some (conserve_row items parties p)) parties
        (λ p e.
          add_aggs-others (conserve p) parties applied_aggs (add_caps applied conserving)
            (λ a q. cc)
          ∙ add_caps-others (conserve p) applied conserving (λ a b q. cc)
          ∙ e)
        (add_all-rows conserve (conserve_row items parties)
          (λ a b e. ap (conserve_row items parties) (name_of a b e)) parties [])
    where
      name_of : (a b : String) → conserve a ≡ conserve b → a ≡ b
      name_of a b e = ground arith
