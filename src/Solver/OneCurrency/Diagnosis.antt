-- ===== src/Solver/OneCurrency/Diagnosis.antt =====
-- `_diagnose_infeasibility` never stays silent, and a shortfall that it names is a proof that no
-- plan exists.
use tradeguard_canton.Prelude.{
  String, true, false, ◌≡◌, ap, ◌∙◌, ◌≢◌, none, some, List, [], ◌∷◌, ◌++◌, keep, arith, All, inl,
  inr, Bool-cases, Option-cases,
}
use tradeguard_canton.Prelude.Int.{
  ℤ, pos, neg, ◌≤ℤ◌, ◌<ℤ◌, ltb_ℤ, int_laws, one-*ℤ, +ℤ-zero, pos_part, neg_part,
}
use tradeguard_canton.Prelude.Dict.{Dict, lookup, get_or}
use mathlib.Core.Option
use tradeguard_canton.Netting.{Obligation, net_positions}
use tradeguard_canton.Solver.Model.{
  CreditLimit, Weights, Binding, receiver_short, payer_short, no_settlement,
}
use tradeguard_canton.Solver.Lp.{
  Var, flow, limit, conserve_payer, conserve_receiver, name_dec, evaluate, Satisfies, Solver,
}
use tradeguard_canton.Solver.OneCurrency.{
  at, pair_dec, payers_of, receivers_of, arcs_from, arcs_to, applies, capped_of, netting_problem,
  outflow, inflow, payer_row, receiver_row, is_capped, has_uncapped, capacity, short_receivers,
  short_payers, diagnose_infeasibility, solve_one_currency,
}
use tradeguard_canton.Solver.OneCurrency.Problems.{
  problem-caps, problem-payer_rows, problem-receiver_rows, capped_row,
}
use tradeguard_canton.Solver.OneCurrency.Settles.{level, solved, refused, answer_cases}

get_or_of_lookup :
    (a : String × String) (d : Dict (String × String) ℤ) (x : ℤ)
    → lookup pair_dec a d ≡ some x
    → get_or pair_dec a (pos 0) d ≡ x
get_or_of_lookup a [] x e = cc
get_or_of_lookup a ((b, y) ∷ d) x e = ground (arith, get_or_of_lookup a d x)

module _ (currency : String) (net : Dict String ℤ) (limits : List CreditLimit)
    (weights : Weights) where
  abbrev capped : Dict (String × String) ℤ
  capped = capped_of (keep (applies currency (payers_of net) (receivers_of net)) limits) []

  -- No assignment satisfies the problem.
  abbrev pub IsImpossible : Type 0
  IsImpossible = ¬ ((v : Var → ℤ) × Satisfies v (netting_problem currency net limits weights))

  module _ (v : Var → ℤ) (ok : Satisfies v (netting_problem currency net limits weights)) where
    capped_flow :
        (p q : String)
        → is_capped capped (p, q) ≡ true
        → v (flow p q) ≤ℤ get_or pair_dec (p, q) (pos 0) capped
    capped_flow p q h = elim (Option-cases (lookup pair_dec (p, q) capped)) [
      | inl e ↦ absurd (no_cap e h)
      | inr (bound, e) ↦
          let row =
            problem-caps currency net limits weights p q ∙ ap (Option.map (capped_row p q)) e in
          let holds = ok.kept (limit p q) (capped_row p q bound) row in
          rw (get_or_of_lookup (p, q) capped bound e) (rw (one-*ℤ, +ℤ-zero) at holds)
    ]
      where
        no_cap : lookup pair_dec (p, q) capped ≡ none → is_capped capped (p, q) ≡ true → ⊥
        no_cap e t = ground arith

    inflow-le-capacity :
        (q : String) (ps : List String)
        → has_uncapped capped (arcs_to q ps) ≡ false
        → evaluate v (inflow q ps) ≤ℤ capacity capped (arcs_to q ps)
    unfolding capacity
    inflow-le-capacity q [] h = omega arith
    inflow-le-capacity q (p ∷ ps) h = elim (Bool-cases (is_capped capped (p, q))) [
      | inl e ↦
          let rest = inflow-le-capacity q ps (rw e at h) in
          rw (e, one-*ℤ) (omega (int_laws, capped_flow p q e, rest))
      | inr e ↦ absurd (uncapped e)
    ]
      where
        uncapped : is_capped capped (p, q) ≡ false → ⊥
        uncapped e = ground arith

    outflow-le-capacity :
        (p : String) (qs : List String)
        → has_uncapped capped (arcs_from p qs) ≡ false
        → evaluate v (outflow p qs) ≤ℤ capacity capped (arcs_from p qs)
    unfolding capacity
    outflow-le-capacity p [] h = omega arith
    outflow-le-capacity p (q ∷ qs) h = elim (Bool-cases (is_capped capped (p, q))) [
      | inl e ↦
          let rest = outflow-le-capacity p qs (rw e at h) in
          rw (e, one-*ℤ) (omega (int_laws, capped_flow p q e, rest))
      | inr e ↦ absurd (uncapped e)
    ]
      where
        uncapped : is_capped capped (p, q) ≡ false → ⊥
        uncapped e = ground arith

  -- A named shortfall means that there is no plan.
  abbrev pub Refutes : Binding → Type 0
  Refutes (receiver_short q c due cap) = IsImpossible
  Refutes (payer_short p c owed cap) = IsImpossible
  Refutes _ = Unit

  abbrev HasReceiverRow : String → Type 0
  HasReceiverRow q =
      lookup name_dec (conserve_receiver q)
        (netting_problem currency net limits weights).constraints
      ≡ some (receiver_row net (payers_of net) q)

  abbrev HasPayerRow : String → Type 0
  HasPayerRow p =
      lookup name_dec (conserve_payer p) (netting_problem currency net limits weights).constraints
      ≡ some (payer_row net (receivers_of net) p)

  receiver_impossible :
      (q : String)
      → HasReceiverRow q
      → has_uncapped capped (arcs_to q (payers_of net)) ≡ false
      → capacity capped (arcs_to q (payers_of net)) <ℤ at q net
      → IsImpossible
  receiver_impossible q row full short = λ (v, ok).
      let met = ok.kept (conserve_receiver q) _ row in
      omega
        (int_laws, inflow-le-capacity v ok q (payers_of net) full, ap pos_part met, ap neg_part met)

  payer_impossible :
      (p : String)
      → HasPayerRow p
      → has_uncapped capped (arcs_from p (receivers_of net)) ≡ false
      → capacity capped (arcs_from p (receivers_of net)) <ℤ neg (at p net)
      → IsImpossible
  payer_impossible p row full short = λ (v, ok).
      let met = ok.kept (conserve_payer p) _ row in
      omega (
        int_laws,
        outflow-le-capacity v ok p (receivers_of net) full,
        ap pos_part met,
        ap neg_part met,
      )

  short_receivers-Refutes :
      (qs : List String)
      → All HasReceiverRow qs
      → All Refutes (short_receivers currency net (payers_of net) (receivers_of net) capped qs)
  unfolding short_receivers
  short_receivers-Refutes [] h = tt
  short_receivers-Refutes (q ∷ qs) h =
      let rest = short_receivers-Refutes qs h.1 in
      let into = arcs_to q (payers_of net) in
      elim (Bool-cases (has_uncapped capped into)) [
        | inl e ↦ rw e rest
        | inr e ↦ elim (Bool-cases (ltb_ℤ (capacity capped into) (at q net))) [
          | inl less ↦ rw (e, less) (receiver_impossible q h.0 e (ground arith), rest)
          | inr more ↦ rw (e, more) rest
        ]
      ]

  short_payers-Refutes :
      (ps : List String)
      → All HasPayerRow ps
      → All Refutes (short_payers currency net (payers_of net) (receivers_of net) capped ps)
  unfolding short_payers
  short_payers-Refutes [] h = tt
  short_payers-Refutes (p ∷ ps) h =
      let rest = short_payers-Refutes ps h.1 in
      let out = arcs_from p (receivers_of net) in
      elim (Bool-cases (has_uncapped capped out)) [
        | inl e ↦ rw e rest
        | inr e ↦ elim (Bool-cases (ltb_ℤ (capacity capped out) (neg (at p net)))) [
          | inl less ↦ rw (e, less) (payer_impossible p h.0 e (ground arith), rest)
          | inr more ↦ rw (e, more) rest
        ]
      ]

  All-append : (xs ys : List Binding) → All Refutes xs → All Refutes ys → All Refutes (xs ++ ys)
  All-append [] ys h k = k
  All-append (x ∷ xs) ys h k = (h.0, All-append xs ys h.1 k)

  abbrev shortfalls : List Binding
  shortfalls =
      short_receivers currency net (payers_of net) (receivers_of net) capped (receivers_of net)
      ++ short_payers currency net (payers_of net) (receivers_of net) capped (payers_of net)

  shortfalls-Refutes : All Refutes shortfalls
  shortfalls-Refutes =
      All-append
        (short_receivers currency net (payers_of net) (receivers_of net) capped (receivers_of net))
        (short_payers currency net (payers_of net) (receivers_of net) capped (payers_of net))
        (short_receivers-Refutes (receivers_of net)
          (problem-receiver_rows currency net limits weights))
        (short_payers-Refutes (payers_of net) (problem-payer_rows currency net limits weights))

  pub diagnose_infeasibility-Refutes :
      (diagnose_infeasibility currency net (payers_of net) (receivers_of net) capped ≢ [])
      × All Refutes (diagnose_infeasibility currency net (payers_of net) (receivers_of net) capped)
  unfolding diagnose_infeasibility
  diagnose_infeasibility-Refutes = go shortfalls shortfalls-Refutes
    where
      go :
          (bs : List Binding)
          → All Refutes bs
          → ((elim bs [ [] ↦ no_settlement currency ∷ [] | b ∷ more ↦ b ∷ more ]) ≢ [])
            × All Refutes (elim bs [ [] ↦ no_settlement currency ∷ [] | b ∷ more ↦ b ∷ more ])
      go [] h = (λ e. cc, (tt, tt))
      go (b ∷ bs) h = (λ e. cc, h)

-- When `_solve_one_currency` refuses, it says why: it names at least one binding constraint, and
-- if that is a receiver or a payer that falls short, no assignment satisfies the problem.
pub solve_one_currency-Refutes :
    (solver : Solver) (currency : String) (obligations : List Obligation)
    (limits : List CreditLimit) (weights : Weights)
    → (solve_one_currency solver currency obligations limits weights).feasible ≡ false
    → let named = (solve_one_currency solver currency obligations limits weights).binding in
      (named ≢ []) × All (Refutes currency (net_positions obligations) limits weights) named
solve_one_currency-Refutes solver currency os limits weights h =
    elim (answer_cases solver currency os limits weights) [
      | level _ yes_plan _ ↦ cc
      | solved _ yes_plan _ ↦ cc
      | refused _ _ named ↦
          rw named (diagnose_infeasibility-Refutes currency (net_positions os) limits weights)
    ]
