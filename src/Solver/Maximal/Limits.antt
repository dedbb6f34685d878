-- ===== src/Solver/Maximal/Limits.antt =====
-- The transfers of `_solve_one_currency_maximal` respect the bilateral and the aggregate limits.
use tradeguard_canton.Prelude.{
  String, Bool, true, false, not, ◌&&◌, ◌≡◌, refl, ◌∙◌, ap, Option, none, some, List, [], ◌∷◌, ◌++◌,
  map, keep, if◌then◌else◌, arith, inl, inr, Bool-cases, All, All-map,
}
use tradeguard_canton.Prelude.Int.{ℤ, one-*ℤ, +ℤ-zero}
use tradeguard_canton.Prelude.Keys.{str_dec}
use tradeguard_canton.Prelude.Dict.{Dict, lookup, insert, lookup-insert_self, lookup-insert_ne}
use tradeguard_canton.Prelude.Sorting.{All-sort, sort}
use mathlib.Core.Option
use tradeguard_canton.Netting.Greedy.{sent}
use tradeguard_canton.Solver.Model.{
  SolvedTransfer, CreditLimit, AggLimit, Weights, as_transfer, same, member,
}
use tradeguard_canton.Solver.Lp.{
  Var, flow, Name, conserve, agg, limit, name_dec, Constraint, le, Satisfies, Solver, value_of,
  evaluate,
}
use tradeguard_canton.Solver.OneCurrency.{
  outflow, add_all, add_caps, flow_transfers, transfer_order, arcs_from,
}
use tradeguard_canton.Solver.OneCurrency.Problems.{capped_row, add_caps-capped_of, add_all-others}
use tradeguard_canton.Solver.OneCurrency.Sums.{sent-sort}
use tradeguard_canton.Solver.OneCurrency.Limits.{
  last_limit, Within, or_else, capped-last_limit, plan-Within, same_refl, All-members,
}
use tradeguard_canton.Solver.Maximal.{
  Indexed, owed_of, names_of, parties_in, others, pairs_of, conserve_row, between, agg_applies,
  agg_row, add_aggs, maximal_problem, solve_one_currency_maximal,
}
use tradeguard_canton.Solver.Maximal.Flows.{sent-parties}
use tradeguard_canton.Solver.Maximal.Rows.{applied, applied_aggs, add_aggs-others}
use tradeguard_canton.Solver.Maximal.Settles.{nonneg, member-parties_in}

-- The aggregate limit of a party in a currency: the last one that the list holds.
abbrev pub last_agg : String → String → List AggLimit → Option ℤ
last_agg currency p [] = none
last_agg currency p (al ∷ als) = elim (last_agg currency p als) [
  | some cap ↦ some cap
  | none ↦ if same al.currency currency && same p al.party then some al.limit else none
]

-- Every arc joins two different parties.
abbrev Distinct : List String → String × String → Type 0
Distinct ps a = (member a.0 ps ≡ true) × (member a.1 ps ≡ true) × (same a.0 a.1 ≡ false)

arcs_from-Distinct :
    (ps : List String) (p : String) (qs : List String) (rest : List (String × String))
    → member p ps ≡ true
    → All (λ q. member q ps ≡ true) qs
    → All (Distinct ps) rest
    → All (Distinct ps) (arcs_from p (others p qs) ++ rest)
arcs_from-Distinct ps p [] rest m h r = r
arcs_from-Distinct ps p (q ∷ qs) rest m h r =
    let more = arcs_from-Distinct ps p qs rest m h.1 r in
    elim (Bool-cases (same p q)) [ inl e ↦ rw e more | inr e ↦ rw e ((m, h.0, e), more) ]

pairs_of-Distinct :
    (ps some_ps : List String)
    → All (λ p. member p ps ≡ true) ps
    → All (λ p. member p ps ≡ true) some_ps
    → All (Distinct ps) (pairs_of ps some_ps)
unfolding pairs_of
pairs_of-Distinct ps [] all h = tt
pairs_of-Distinct ps (p ∷ some_ps) all h =
    arcs_from-Distinct ps p ps (pairs_of ps some_ps) h.0 all (pairs_of-Distinct ps some_ps all h.1)

between-fits :
    (currency p q : String) (ps : List String)
    → Distinct ps (p, q)
    → (cl : CreditLimit) → p ≡ cl.frm
    → q ≡ cl.to
    → between currency ps cl ≡ same cl.currency currency
between-fits currency p q ps d cl a b =
    rw (← a, ← b, d.0, d.1, d.2) (with_true (same cl.currency currency))
  where
    with_true : (c : Bool) → ((c && (true && true)) && not false) ≡ c
    with_true c = ground arith

module _ (currency p : String) (ps : List String) (is_party : member p ps ≡ true) where
  abbrev pub agg_bound : ℤ → Constraint
  agg_bound cap = record { terms = outflow p (others p ps); relation = le; bound = cap }

  abbrev bound_or : Option ℤ → Option Constraint → Option Constraint
  bound_or (some cap) row = some (agg_bound cap)
  bound_or none row = row

  abbrev with_agg : AggLimit → Dict Name Constraint → Dict Name Constraint
  with_agg al d =
      if agg_applies currency ps al then insert name_dec (agg al.party) (agg_row ps al) d else d

  abbrev own : AggLimit → Option ℤ
  own al = if same al.currency currency && same p al.party then some al.limit else none

  step :
      (al : AggLimit) (d : Dict Name Constraint)
      → lookup name_dec (agg p) (with_agg al d) ≡ bound_or (own al) (lookup name_dec (agg p) d)
  step al d = elim (str_dec p al.party) [
    | yes e ↦ here e
    | no ne ↦ rw (not_own ne) (elim (Bool-cases (agg_applies currency ps al)) [
      | inl c ↦
          rw c (
            lookup-insert_ne name_dec (agg p) (agg al.party) (agg_row ps al) d
              (λ e. ne (name_of e)))
      | inr c ↦ rw c refl
    ])
  ]
    where
      here :
          p ≡ al.party
          → lookup name_dec (agg p) (with_agg al d) ≡ bound_or (own al) (lookup name_dec (agg p) d)
      here e =
          rw (← e, is_party, same_refl p)
            (elim (Bool-cases (same al.currency currency)) [
              | inl c ↦ rw c (lookup-insert_self name_dec (agg p) (agg_bound al.limit) d)
              | inr c ↦ rw c refl
            ])

      not_own : ¬ (p ≡ al.party) → own al ≡ none
      not_own ne = ground arith

      name_of : agg p ≡ agg al.party → p ≡ al.party
      name_of e = ground arith

  add_aggs-cons :
      (al : AggLimit) (als : List AggLimit) (d : Dict Name Constraint)
      → add_aggs ps (keep (agg_applies currency ps) (al ∷ als)) d
        ≡ add_aggs ps (keep (agg_applies currency ps) als) (with_agg al d)
  unfolding add_aggs
  add_aggs-cons al als d = elim (Bool-cases (agg_applies currency ps al)) [
    | inl e ↦ rw e refl
    | inr e ↦ rw e refl
  ]

  pub add_aggs-last_agg :
      (als : List AggLimit) (d : Dict Name Constraint)
      → lookup name_dec (agg p) (add_aggs ps (keep (agg_applies currency ps) als) d)
        ≡ bound_or (last_agg currency p als) (lookup name_dec (agg p) d)
  add_aggs-last_agg [] d = unfold add_aggs in refl
  add_aggs-last_agg (al ∷ als) d =
      ap (lookup name_dec (agg p)) (add_aggs-cons al als d)
      ∙ add_aggs-last_agg als (with_agg al d)
      ∙ ap (bound_or (last_agg currency p als)) (step al d)
      ∙ regroup (last_agg currency p als) (own al)
    where
      regroup :
          (later mine : Option ℤ)
          → bound_or later (bound_or mine (lookup name_dec (agg p) d))
            ≡ bound_or
                (elim later [ some cap ↦ some cap | none ↦ mine ])
                (lookup name_dec (agg p) d)
      regroup (some cap) mine = refl
      regroup none mine = refl

module _ (currency : String) (items : List Indexed) (limits : List CreditLimit) (weights : Weights)
    (agg_limits : List AggLimit) (v : Var → ℤ)
    (ok : Satisfies v (maximal_problem currency items limits weights agg_limits)) where
  abbrev ps : List String
  ps = parties_in (owed_of items)

  cap_holds :
      (p q : String)
      → Distinct ps (p, q)
      → (at_most : Option ℤ) → last_limit currency p q limits ≡ at_most
      → Within at_most (v (flow p q))
  unfolding maximal_problem
  cap_holds p q d none e = tt
  cap_holds p q d (some bound) e =
      let there =
        capped-last_limit currency p q (between currency ps) (between-fits currency p q ps d) limits
          [] in
      let row =
        add_aggs-others (limit p q) ps (applied_aggs currency items limits weights agg_limits) _
          (λ a r. cc)
        ∙ add_caps-capped_of p q (applied currency items limits weights agg_limits)
            (add_all conserve (conserve_row items ps) ps []) []
            (add_all-others conserve (conserve_row items ps) (limit p q) ps [] (λ a r. cc))
        ∙ ap (Option.map (capped_row p q)) (there ∙ ap (λ x. or_else x none) e) in
      let holds = ok.kept (limit p q) (capped_row p q bound) row in rw (one-*ℤ, +ℤ-zero) at holds

  abbrev bilateral : Dict Name Constraint
  bilateral =
      add_caps (applied currency items limits weights agg_limits)
        (add_all conserve (conserve_row items ps) ps [])

  agg_holds :
      (p : String)
      → member p (names_of (owed_of items)) ≡ true
      → (at_most : Option ℤ) → last_agg currency p agg_limits ≡ at_most
      → Within at_most (evaluate v (outflow p (others p ps)))
  unfolding maximal_problem
  agg_holds p m none e = tt
  agg_holds p m (some bound) e = ok.kept (agg p) (agg_bound currency p ps is_party bound) row
    where
      is_party : member p ps ≡ true
      is_party = member-parties_in p items ∙ m

      row :
          lookup name_dec
            (agg p)
            (maximal_problem currency items limits weights agg_limits).constraints
          ≡ some (agg_bound currency p ps is_party bound)
      row =
          add_aggs-last_agg currency p ps is_party agg_limits bilateral
          ∙ ap (λ o. bound_or currency p ps is_party o (lookup name_dec (agg p) bilateral)) e

  -- The transfers read off the assignment.
  abbrev moves : List SolvedTransfer
  moves = sort transfer_order (flow_transfers currency v (pairs_of ps ps))

  moves-Within : All (λ t. Within (last_limit currency t.sender t.receiver limits) t.amount) moves
  moves-Within =
      All-sort transfer_order
        (λ t. Within (last_limit currency t.sender t.receiver limits) t.amount) _
        (plan-Within currency v (λ p q. last_limit currency p q limits) (pairs_of ps ps)
          (All-map (Distinct ps)
            (λ (a : String × String).
              Within (last_limit currency a.0 a.1 limits) (v (flow a.0 a.1)))
            (pairs_of ps ps) (λ a d. cap_holds a.0 a.1 d (last_limit currency a.0 a.1 limits) refl)
            (pairs_of-Distinct ps ps (All-members ps) (All-members ps))))

  moves-total :
      (p : String)
      → member p (names_of (owed_of items)) ≡ true
      → Within (last_agg currency p agg_limits) (sent p (map as_transfer moves))
  moves-total p m =
      rw
        (
          sent-sort p (flow_transfers currency v (pairs_of ps ps)),
          sent-parties currency v p (names_of (owed_of items))
              (nonneg currency items limits weights agg_limits v ok),
          m,
        )
        (agg_holds p m (last_agg currency p agg_limits) refl)

-- If the solver reports an optimum, no transfer exceeds the limit of its pair, and no party that
-- the obligations name sends more in all than its aggregate limit.
pub solve_one_currency_maximal-Within :
    (solver : Solver) (currency : String) (items : List Indexed) (limits : List CreditLimit)
    (weights : Weights) (agg_limits : List AggLimit)
    → (solver.run (maximal_problem currency items limits weights agg_limits)).optimal ≡ true
    → let moved =
        (solve_one_currency_maximal solver currency items limits weights agg_limits).transfers in
      All (λ t. Within (last_limit currency t.sender t.receiver limits) t.amount) moved
      × ((p : String)
          → member p (names_of (owed_of items)) ≡ true
          → Within (last_agg currency p agg_limits) (sent p (map as_transfer moved)))
unfolding solve_one_currency_maximal
solve_one_currency_maximal-Within solver currency items limits weights agg_limits h =
    let problem = maximal_problem currency items limits weights agg_limits in
    let v = value_of (solver.run problem) in
    let ok = solver.sound problem h in
    (
      moves-Within currency items limits weights agg_limits v ok,
      moves-total currency items limits weights agg_limits v ok,
    )
