-- ===== src/Settling/Preparing.antt =====
-- `settle_real` up to the first write: what it reads, and what it holds back.
use tradeguard_canton.Prelude.{
  ℕ, ◌-◌, String, Bool, true, Option, none, some, List, [], ◌++◌, length, if◌then◌else◌,
}
use tradeguard_canton.Prelude.Actions.{Run, return, lift, bind}
use tradeguard_canton.Solver.Model.{CreditLimit, Weights, SolveResult}
use tradeguard_canton.Solver.Lp.{Solver}
use tradeguard_canton.Solver.OneCurrency.{is_empty}
use tradeguard_canton.Limits.{
  LedgerLimit, LedgerAggLimit, load_limits, load_agg_limits, to_solver_limits, to_solver_agg_limits,
}
use tradeguard_canton.Settling.{
  Contract, ApprovedPlan, Residual, PolicyInputs, Request, NetApi, Parties, Refusal, invalid_policy,
  no_book, book_changed, not_approved, plan_changed, nothing_due, pick, short_names,
}
use tradeguard_canton.Settling.Gates.{
  is_expected, is_approved, due_rows, surviving, left_out, Choice, chosen, not_chosen, choose_plan,
  residuals_of, same_plan,
}

-- What the writes start from: the rows of the netting, the plan and the rows that it settles, the
-- transfers between parties, and the limits that were read.
pub record Prepared : Type 0 where
  pub rows : List Contract
  pub immature : ℕ
  pub excluded : ℕ
  pub plan : SolveResult
  pub settle_set : List ℕ
  pub settled_rows : List Contract
  pub residuals : List Residual
  pub ledger_limits : List LedgerLimit
  pub ledger_aggs : List LedgerAggLimit

pub data Ready : Type 0 where
  ready : Prepared → Ready
  held : Refusal → Ready

-- Whether the plan is the approved one, if there is one.
abbrev pub is_as_approved :
    Option ApprovedPlan → List Contract → List Contract → List Residual → SolveResult → Bool
is_as_approved none settled deferred residuals plan = true
is_as_approved (some approved) settled deferred residuals plan =
    same_plan approved settled deferred residuals plan

-- The weights and limits of the policy, if there is one.
abbrev pub policy_weights : Option PolicyInputs → Weights
policy_weights none = []
policy_weights (some p) = p.weights

abbrev pub policy_limits : Option PolicyInputs → List CreditLimit
policy_limits none = []
policy_limits (some p) = p.limits

abbrev pub is_valid : Option PolicyInputs → Bool
is_valid none = true
is_valid (some p) = p.valid

module _ {World : Type 0} (solver : Solver) (api : NetApi World) (parties : Parties)
    (request : Request) where
  -- The test of the `ApprovedAction`, if one is named.
  unfoldable pub check_approval : Option String → Run World Bool
  check_approval none = return true
  check_approval (some cid) =
      bind api.query_approvals
        λ approvals. return (is_approved parties.operator cid request.approval_trade_id approvals)

  -- The end of the reads: the plan that was chosen becomes rows and transfers between parties.
  unfoldable pub resolve_plan :
      List LedgerLimit → List LedgerAggLimit → List Contract → ℕ → ℕ → Choice → Run World Ready
  resolve_plan limits aggs rows immature excluded (not_chosen why) = return (held why)
  resolve_plan limits aggs rows immature excluded (chosen plan settle_set) =
      bind (lift (pick rows settle_set)) λ settled.
        bind (lift (pick rows (left_out rows settle_set))) λ deferred.
          bind (lift (residuals_of (short_names [] parties.firms) plan.transfers)) λ residuals.
            return (
              if is_as_approved request.approved_plan settled deferred residuals plan
              then ready (record {
                rows = rows;
                immature = immature;
                excluded = excluded;
                plan = plan;
                settle_set = settle_set;
                settled_rows = settled;
                residuals = residuals;
                ledger_limits = limits;
                ledger_aggs = aggs;
              })
              else held plan_changed)

  -- The maturity filter, the exclusion, and the plan for the rows that are left.
  unfoldable pub plan_rows :
      List LedgerLimit → List LedgerAggLimit → List Contract → List Contract → Run World Ready
  plan_rows limits aggs all_rows due =
      let rows = surviving request.exclude_parties due in
      let immature = length all_rows - length due in
      let excluded = length due - length rows in
      if is_empty rows
      then return (held (nothing_due immature excluded))
      else resolve_plan limits aggs rows immature excluded (
          choose_plan solver request.maximal rows
            (to_solver_limits limits ++ policy_limits request.policy)
            (policy_weights request.policy) (to_solver_agg_limits aggs))

  -- The gates on the rows that the ledger shows.
  unfoldable pub check_rows :
      List LedgerLimit → List LedgerAggLimit → List Contract → Run World Ready
  check_rows limits aggs all_rows =
      if is_empty all_rows
      then return (held no_book)
      else if is_expected request.expected_book all_rows
      then bind (check_approval request.approved_action_cid) (λ approved.
        if approved
        then bind (lift (due_rows request.now all_rows)) (λ due. plan_rows limits aggs all_rows due)
        else return (held not_approved))
      else return (held book_changed)

  unfoldable pub prepare : Run World Ready
  prepare = bind (load_limits api.ledger) λ limits. bind (load_agg_limits api.ledger) λ aggs.
      if is_valid request.policy
      then bind api.query_obligations (λ all_rows. check_rows limits aggs all_rows)
      else return (held invalid_policy)
