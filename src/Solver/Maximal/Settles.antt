-- ===== src/Solver/Maximal/Settles.antt =====
-- The transfers of `_solve_one_currency_maximal` move the net of the obligations that it settles.
use tradeguard_canton.Prelude.{
  String, Bool, true, false, ◌≡◌, refl, ◌∙◌, ap, List, [], ◌∷◌, map, keep, if◌then◌else◌, arith,
  inl, inr, Bool-cases, All, All-map,
}
use tradeguard_canton.Prelude.Int.{ℤ, pos, ◌-ℤ◌, int_laws}
use tradeguard_canton.Prelude.Keys.{str_dec, str_leb}
use tradeguard_canton.Prelude.Sorting.{sort, insert_sorted}
use tradeguard_canton.Netting.Greedy.{sent, received}
use tradeguard_canton.Netting.Positions.{incoming, outgoing, position}
use tradeguard_canton.Solver.Model.{CreditLimit, AggLimit, Weights, as_transfer, same, member}
use tradeguard_canton.Solver.Lp.{Var, conserve, Satisfies, Solver, value_of, evaluate}
use tradeguard_canton.Solver.OneCurrency.{outflow, inflow, flow_transfers}
use tradeguard_canton.Solver.OneCurrency.Sums.{sent-sort, received-sort, IsNonneg}
use tradeguard_canton.Solver.Maximal.{
  Indexed, owed_of, names_of, distinct, parties_in, others, pairs_of, conserve_row, maximal_problem,
  is_settled, solve_one_currency_maximal,
}
use tradeguard_canton.Solver.Maximal.Flows.{sent-parties, received-parties, member-distinct}
use tradeguard_canton.Solver.Maximal.Rows.{maximal_problem-rows, conserve_row-position}

member-insert_sorted :
    (p q : String) (ps : List String) → member p (insert_sorted str_leb q ps) ≡ member p (q ∷ ps)
member-insert_sorted p q [] = refl
member-insert_sorted p q (r ∷ ps) = elim (Bool-cases (str_leb q r)) [
  | inl e ↦ rw e refl
  | inr e ↦ rw e (rw (member-insert_sorted p q ps) (swap (same p r) (same p q)))
]
  where
    swap :
        (a b : Bool)
        → (if a then true else (if b then true else member p ps))
          ≡ (if b then true else (if a then true else member p ps))
    swap a b = ground arith

pub member-sort : (p : String) (ps : List String) → member p (sort str_leb ps) ≡ member p ps
unfolding sort
member-sort p [] = refl
member-sort p (q ∷ ps) =
    member-insert_sorted p q (sort str_leb ps)
    ∙ ap (λ b. if same p q then true else b) (member-sort p ps)

pub All-member :
    (P : String → Type 0) (p : String) (ps : List String) → All P ps → member p ps ≡ true → P p
All-member P p [] h m = cc
All-member P p (q ∷ ps) h m = elim (str_dec p q) [
  | yes e ↦ rw e h.0
  | no ne ↦ All-member P p ps h.1 (ground arith)
]

pub member-parties_in :
    (p : String) (items : List Indexed)
    → member p (parties_in (owed_of items)) ≡ member p (names_of (owed_of items))
member-parties_in p items =
    member-sort p (distinct (names_of (owed_of items)))
    ∙ member-distinct p (names_of (owed_of items))

-- A party that no obligation names has position zero.
incoming_unnamed :
    (p : String) (test : Indexed → Bool) (items : List Indexed)
    → member p (names_of (owed_of items)) ≡ false
    → (incoming p (owed_of (keep test items)) ≡ pos 0)
      × (outgoing p (owed_of (keep test items)) ≡ pos 0)
incoming_unnamed p test [] h = (refl, refl)
incoming_unnamed p test (x ∷ items) h =
    let rest = incoming_unnamed p test items (ground arith) in
    elim (Bool-cases (test x)) [
      | inl e ↦ rw e (rw (rest.0, rest.1) (grind int_laws, grind int_laws))
      | inr e ↦ rw e rest
    ]

module _ (currency : String) (items : List Indexed) (limits : List CreditLimit) (weights : Weights)
    (agg_limits : List AggLimit) (v : Var → ℤ)
    (ok : Satisfies v (maximal_problem currency items limits weights agg_limits)) where
  abbrev names : List String
  names = names_of (owed_of items)

  abbrev parties : List String
  parties = parties_in (owed_of items)

  pub nonneg : All (IsNonneg currency v) (pairs_of parties parties)
  nonneg = unfold maximal_problem in ok.flows_nonneg

  party-position :
      (p : String)
      → member p names ≡ true
      → evaluate v (inflow p (others p parties)) -ℤ evaluate v (outflow p (others p parties))
        ≡ position p (owed_of (keep (is_settled v) items))
  party-position p m =
      conserve_row-position v items parties p (unfold maximal_problem in ok.picks_binary) (
        All-member (λ q. evaluate v (conserve_row items parties q).terms ≡ pos 0) p parties
          (All-map _ (λ q. evaluate v (conserve_row items parties q).terms ≡ pos 0) parties
            (λ q row. ok.kept (conserve q) _ row)
            (maximal_problem-rows currency items limits weights agg_limits))
          (member-parties_in p items ∙ m))

  pub flow_transfers-position :
      (p : String)
      → received p (map as_transfer (flow_transfers currency v (pairs_of parties parties)))
          -ℤ sent p (map as_transfer (flow_transfers currency v (pairs_of parties parties)))
        ≡ position p (owed_of (keep (is_settled v) items))
  flow_transfers-position p = elim (Bool-cases (member p names)) [
    | inl m ↦
        rw (received-parties currency v p names nonneg, sent-parties currency v p names nonneg, m)
          (party-position p m)
    | inr m ↦
        let unnamed = incoming_unnamed p (is_settled v) items m in
        rw
          (
            received-parties currency v p names nonneg,
            sent-parties currency v p names nonneg,
            m,
            unnamed.0,
            unnamed.1,
          )
          refl
  ]

-- If the solver reports an optimum, every party receives, less what it sends, exactly its net
-- position over the obligations that are settled now: the deferred ones move nothing.
pub solve_one_currency_maximal-position :
    (solver : Solver) (currency : String) (items : List Indexed) (limits : List CreditLimit)
    (weights : Weights) (agg_limits : List AggLimit) (p : String)
    → (solver.run (maximal_problem currency items limits weights agg_limits)).optimal ≡ true
    → received p (
          map as_transfer
            (solve_one_currency_maximal solver currency items limits weights agg_limits).transfers)
        -ℤ sent p (
            map as_transfer
              (solve_one_currency_maximal solver currency items limits weights
                agg_limits).transfers)
      ≡ position p (
          owed_of
            (solve_one_currency_maximal solver currency items limits weights agg_limits).settled)
unfolding solve_one_currency_maximal
solve_one_currency_maximal-position solver currency items limits weights agg_limits p h =
    let problem = maximal_problem currency items limits weights agg_limits in
    let v = value_of (solver.run problem) in
    rw (received-sort p _, sent-sort p _)
      (flow_transfers-position currency items limits weights agg_limits v (solver.sound problem h)
        p)
