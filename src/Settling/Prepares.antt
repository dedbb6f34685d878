-- ===== src/Settling/Prepares.antt =====
-- `prepare` hands over only what passed every test: due rows that no excluded party touches, the
-- plan of the solver for them, and the approved book and plan.
use tradeguard_canton.Prelude.{
  ℕ, ◌+◌, String, Bool, true, false, not, ◌≡◌, refl, ap, ◌∙◌, Option, none, some, List, [], ◌++◌,
  length, All, All-keep, length-keep-le, arith, inl, inr, Bool-cases, if◌then◌else◌,
}
use tradeguard_canton.Prelude.Actions.{return, lift, bind, bind-some}
use tradeguard_canton.Solver.Lp.{Solver}
use tradeguard_canton.Solver.OneCurrency.{is_empty}
use tradeguard_canton.Limits.{
  LedgerLimit, LedgerAggLimit, load_limits, load_agg_limits, to_solver_limits, to_solver_agg_limits,
}
use tradeguard_canton.Settling.{
  Contract, Approval, Request, NetApi, Parties, Refusal, not_approved, pick, short_names,
}
use tradeguard_canton.Settling.Gates.{
  is_expected, is_approved, is_due, due_rows, touches_excluded, surviving, left_out, Choice, chosen,
  not_chosen, choose_plan, residuals_of,
}
use tradeguard_canton.Settling.Preparing.{
  Prepared, ready, held, is_as_approved, policy_weights, policy_limits, is_valid, check_approval,
  resolve_plan, plan_rows, check_rows, prepare,
}
use tradeguard_canton.Settling.Planned.{due_rows-IsDue, surviving-apart}

module _ (solver : Solver) (parties : Parties) (request : Request) where
  -- The plan is the choice that was made for the rows, and was not another than the approved one.
  pub record IsResolved (choice : Choice) (p : Prepared) : Type 0 where
    pub choice_is : choice ≡ chosen p.plan p.settle_set
    pub settled_are : pick p.rows p.settle_set ≡ some p.settled_rows
    pub residuals_are :
        residuals_of (short_names [] parties.firms) p.plan.transfers ≡ some p.residuals
    pub left : List Contract
    pub left_are : pick p.rows (left_out p.rows p.settle_set) ≡ some left
    pub as_approved :
        is_as_approved request.approved_plan p.settled_rows left p.residuals p.plan ≡ true

  -- What the reads ensure, for the rows that the ledger showed.
  pub record IsPlanned (all_rows : List Contract) (p : Prepared) : Type 0 where
    pub resolved :
        IsResolved
          (choose_plan solver request.maximal p.rows
            (to_solver_limits p.ledger_limits ++ policy_limits request.policy)
            (policy_weights request.policy)
            (to_solver_agg_limits p.ledger_aggs))
          p
    pub due : All (λ (c : Contract). is_due request.now c.due ≡ some true) p.rows
    pub apart : All (λ c. touches_excluded request.exclude_parties c ≡ false) p.rows
    pub counted : length p.rows + p.immature + p.excluded ≡ length all_rows

module _ {World : Type 0} (solver : Solver) (api : NetApi World) (parties : Parties)
    (request : Request) where
  ready_inj : {p q : Prepared} → some (ready p) ≡ some (ready q) → p ≡ q
  ready_inj e = cc

  held_ready : {why : Refusal} {p : Prepared} → some (held why) ≡ some (ready p) → ⊥
  held_ready e = cc

  -- The fields that come from the arguments.
  pub record Keeps (limits : List LedgerLimit) (aggs : List LedgerAggLimit) (rows : List Contract)
      (immature excluded : ℕ) (p : Prepared) : Type 0 where
    pub limits_are : limits ≡ p.ledger_limits
    pub aggs_are : aggs ≡ p.ledger_aggs
    pub rows_are : rows ≡ p.rows
    pub immature_is : immature ≡ p.immature
    pub excluded_is : excluded ≡ p.excluded

  resolve_plan-ready :
      (limits : List LedgerLimit) (aggs : List LedgerAggLimit) (rows : List Contract)
      (immature excluded : ℕ) (choice : Choice) (w : World) (p : Prepared)
      → (resolve_plan solver api parties request limits aggs rows immature excluded choice w).0
        ≡ some (ready p)
      → Keeps limits aggs rows immature excluded p × IsResolved solver parties request choice p
  unfolding resolve_plan
  resolve_plan-ready limits aggs rows immature excluded (not_chosen why) w p h =
      absurd (held_ready h)
  resolve_plan-ready limits aggs rows immature excluded (chosen plan settle_set) w p h =
      let (settled, e₁, h₁, _) = bind-some _ _ w (ready p) h in
      let (deferred, e₂, h₂, _) = bind-some _ _ _ (ready p) h₁ in
      let (residuals, e₃, h₃, _) = bind-some _ _ _ (ready p) h₂ in
      elim (Bool-cases (is_as_approved request.approved_plan settled deferred residuals plan)) [
        | inr f ↦ absurd (held_ready (rw f at h₃))
        | inl f ↦ rw (← ready_inj (rw f at h₃)) (
          record {
            limits_are = refl;
            aggs_are = refl;
            rows_are = refl;
            immature_is = refl;
            excluded_is = refl;
          },
          record {
            choice_is = refl;
            settled_are = e₁;
            residuals_are = e₃;
            left = deferred;
            left_are = e₂;
            as_approved = f;
          },
        )
      ]

  plan_rows-IsPlanned :
      (limits : List LedgerLimit) (aggs : List LedgerAggLimit) (all_rows due : List Contract)
      (w : World) (p : Prepared)
      → due_rows request.now all_rows ≡ some due
      → (plan_rows solver api parties request limits aggs all_rows due w).0 ≡ some (ready p)
      → (limits ≡ p.ledger_limits)
        × (aggs ≡ p.ledger_aggs)
        × IsPlanned solver parties request all_rows p
  unfolding plan_rows surviving
  plan_rows-IsPlanned limits aggs all_rows due w p d h =
      let rows = surviving request.exclude_parties due in
      elim (Bool-cases (is_empty rows)) [
        | inl e ↦ absurd (held_ready (simp e at h))
        | inr e ↦
            let (k, r) = resolve_plan-ready limits aggs rows _ _ _ w p (simp e at h) in
            let (are_due, le) = due_rows-IsDue request.now all_rows due d in
            let fewer =
              length-keep-le (λ c. not (touches_excluded request.exclude_parties c)) due in
            (
              k.limits_are,
              k.aggs_are,
              record {
                resolved = rw (k.limits_are, k.aggs_are, k.rows_are) at r;
                due = rw (← k.rows_are) (All-keep _ _ due are_due);
                apart = rw (← k.rows_are) (surviving-apart request.exclude_parties due);
                counted =
                    rw (← k.rows_are, ← k.immature_is, ← k.excluded_is) (omega (arith, le, fewer));
              },
            )
      ]

  -- The `ApprovedAction` that was named is active for this operator and trade.
  abbrev pub IsApproved : Option String → Type 0
  IsApproved none = Unit
  IsApproved (some cid) =
      (at : World) × (approvals : List Approval) × ((api.query_approvals at).0 ≡ some approvals)
      × (is_approved parties.operator cid request.approval_trade_id approvals ≡ true)

  some_inj : {b c : Bool} → some b ≡ some c → b ≡ c
  some_inj e = cc

  check_approval-IsApproved :
      (cid : Option String) (w : World)
      → (check_approval solver api parties request cid w).0 ≡ some true
      → IsApproved cid
  unfolding check_approval
  check_approval-IsApproved none w h = tt
  check_approval-IsApproved (some cid) w h =
      let (approvals, e, f, _) = bind-some _ _ w true h in (w, approvals, e, some_inj f)

  -- What is handed over, and where it was read.
  pub record IsPrepared (p : Prepared) : Type 0 where
    pub all_rows : List Contract
    pub rows_at : World
    pub rows_read : (api.query_obligations rows_at).0 ≡ some all_rows
    pub limits_at : World
    pub limits_read : (load_limits api.ledger limits_at).0 ≡ some p.ledger_limits
    pub aggs_at : World
    pub aggs_read : (load_agg_limits api.ledger aggs_at).0 ≡ some p.ledger_aggs
    pub valid : is_valid request.policy ≡ true
    pub expected : is_expected request.expected_book all_rows ≡ true
    pub approved : IsApproved request.approved_action_cid
    pub planned : IsPlanned solver parties request all_rows p

  -- What `check_rows` ensures, for what was read before.
  pub record IsChecked (limits : List LedgerLimit) (aggs : List LedgerAggLimit)
      (all_rows : List Contract) (p : Prepared) : Type 0 where
    pub limits_are : limits ≡ p.ledger_limits
    pub aggs_are : aggs ≡ p.ledger_aggs
    pub expected : is_expected request.expected_book all_rows ≡ true
    pub approved : IsApproved request.approved_action_cid
    pub planned : IsPlanned solver parties request all_rows p

  by_approval :
      (limits : List LedgerLimit) (aggs : List LedgerAggLimit) (all_rows : List Contract)
      (approved : Bool) (w : World) (p : Prepared)
      → ((if approved
            then bind
                (lift (due_rows request.now all_rows))
                (λ due. plan_rows solver api parties request limits aggs all_rows due)
            else return (held not_approved))
          w).0
        ≡ some (ready p)
      → (approved ≡ true)
        × (limits ≡ p.ledger_limits)
        × (aggs ≡ p.ledger_aggs)
        × IsPlanned solver parties request all_rows p
  by_approval limits aggs all_rows false w p h = absurd (held_ready h)
  by_approval limits aggs all_rows true w p h =
      let (due, d, h₁, _) = bind-some _ _ w (ready p) h in
      let (l, a, planned) = plan_rows-IsPlanned limits aggs all_rows due _ p d h₁ in
      (refl, l, a, planned)

  check_rows-IsChecked :
      (limits : List LedgerLimit) (aggs : List LedgerAggLimit) (all_rows : List Contract)
      (w : World) (p : Prepared)
      → (check_rows solver api parties request limits aggs all_rows w).0 ≡ some (ready p)
      → IsChecked limits aggs all_rows p
  unfolding check_rows
  check_rows-IsChecked limits aggs all_rows w p h = elim (Bool-cases (is_empty all_rows)) [
    | inl e ↦ absurd (held_ready (simp e at h))
    | inr e ↦ elim (Bool-cases (is_expected request.expected_book all_rows)) [
      | inr f ↦ absurd (held_ready (simp (e, f) at h))
      | inl f ↦
          let (approved, g, h₁, _) = bind-some _ _ w (ready p) (simp (e, f) at h) in
          let (passed, l, a, planned) = by_approval limits aggs all_rows approved _ p h₁ in
          record {
            limits_are = l;
            aggs_are = a;
            expected = f;
            approved = check_approval-IsApproved request.approved_action_cid w (g ∙ ap some passed);
            planned = planned;
          }
    ]
  ]

  pub prepare-IsPrepared :
      (w : World) (p : Prepared)
      → (prepare solver api parties request w).0 ≡ some (ready p)
      → IsPrepared p
  unfolding prepare
  prepare-IsPrepared w p h =
      let (limits, e₁, h₁, _) = bind-some _ _ w (ready p) h in
      let (aggs, e₂, h₂, _) = bind-some _ _ _ (ready p) h₁ in
      elim (Bool-cases (is_valid request.policy)) [
        | inr f ↦ absurd (held_ready (simp f at h₂))
        | inl f ↦
            let (all_rows, e₃, h₃, _) = bind-some _ _ _ (ready p) (simp f at h₂) in
            let checked = check_rows-IsChecked limits aggs all_rows _ p h₃ in
            record {
              all_rows = all_rows;
              rows_at = _;
              rows_read = e₃;
              limits_at = w;
              limits_read = e₁ ∙ ap some checked.limits_are;
              aggs_at = _;
              aggs_read = e₂ ∙ ap some checked.aggs_are;
              valid = f;
              expected = checked.expected;
              approved = checked.approved;
              planned = checked.planned;
            }
      ]
