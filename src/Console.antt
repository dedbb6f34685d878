-- ===== src/Console.antt =====
-- ui/console_server.py: the plan that the console shows, and the settlement that it runs only after
-- the approval is on the ledger (`settle_with_approval`).
pub mod Approved
mod Examples
use tradeguard_canton.Prelude.{
  ℕ, String, Bool, true, false, not, ◌&&◌, Option, none, some, List, [], ◌∷◌, ◌++◌, map, length,
  if◌then◌else◌,
}
use tradeguard_canton.Prelude.Int.{ℤ}
use tradeguard_canton.Prelude.Keys.{str_leb}
use tradeguard_canton.Prelude.Sorting.{sort}
use tradeguard_canton.Prelude.Actions.{Run, return, lift, bind}
use tradeguard_canton.Netting.{Obligation}
use tradeguard_canton.Solver.Model.{
  CreditLimit, Weights, SolveResult, SolvedTransfer, netting_efficiency_pct, same,
}
use tradeguard_canton.Solver.Lp.{Solver}
use tradeguard_canton.Solver.OneCurrency.{is_empty}
use tradeguard_canton.Solver.Maximal.{solve_maximal}
use tradeguard_canton.Limits.{
  short, load_limits, load_agg_limits, to_solver_limits, to_solver_agg_limits,
}
use tradeguard_canton.Settling.{
  Due, Contract, BookRow, Residual, ApprovedPlan, PolicyInputs, Request, NetApi, Parties, pick,
}
use tradeguard_canton.Settling.Gates.{is_due}
use tradeguard_canton.Settling.Submitting.{Settlement}
use tradeguard_canton.Settling.Running.{settle_real}
use tradeguard_canton.Settling.Approving.{
  PlanSummary, ApprovalApi, Approval, recommendation_failed, recommendation_missing,
  approval_failed, approval_missing, recorded, Recorded, record_plan_approval,
}

-- A row of the book, shaped for the console.
pub record Row : Type 0 where
  pub payer : String
  pub payee : String
  pub amount : ℤ
  pub ref : String
  pub maturity : String
  pub due : Due

abbrev pub row_of : Contract → Row
row_of c = record {
  payer = short c.payer;
  payee = short c.payee;
  amount = c.amount;
  ref = c.reference;
  maturity = c.maturity;
  due = c.due;
}

abbrev pub by_ref : Row → Row → Bool
by_ref a b = str_leb a.ref b.ref

unfoldable pub obligations_of : List Contract → List Row
obligations_of cs = sort by_ref (map row_of cs)

-- The rows that are due; a time without a zone raises.
unfoldable pub due_book : ℕ → List Row → Option (List Row)
due_book now [] = some []
due_book now (r ∷ rs) = elim (is_due now r.due) [
  | none ↦ none
  | some due ↦ elim (due_book now rs) [
    | none ↦ none
    | some rows ↦ some (if due then r ∷ rows else rows)
  ]
]

abbrev pub solver_obligation : Row → Obligation
solver_obligation r = record {
  payer = r.payer;
  payee = r.payee;
  amount = r.amount;
  instrument = "USD";
}

-- What an invalid policy leaves of itself, and what no policy does: nothing.
abbrev pub usable_policy : Option PolicyInputs → Weights × List CreditLimit
usable_policy none = ([], [])
usable_policy (some p) = if p.valid then (p.weights, p.limits) else ([], [])

abbrev pub residual_of : SolvedTransfer → Residual
residual_of t = record { sender = t.sender; receiver = t.receiver; amount = t.amount }

-- The plan, as far as the approval and the settlement read it.
pub record Plan : Type 0 where
  pub feasible : Bool
  pub summary : PlanSummary

unfoldable pub plan_of : SolveResult → List String → List String → Plan
plan_of r settled deferred = record {
  feasible = r.feasible;
  summary = record {
    residual_transfers = map residual_of r.transfers;
    gross_obligations = r.gross_obligations;
    gross_residual = r.gross_residual;
    netting_efficiency_pct = netting_efficiency_pct r;
    settled_refs = settled;
    deferred_refs = deferred;
  };
}

abbrev pub refs_of : List Row → List String
refs_of rows = map (λ (r : Row). r.ref) rows

-- `expected_book=book`
abbrev pub book_row : Row → BookRow
book_row r = record {
  reference = r.ref;
  payer = r.payer;
  payee = r.payee;
  amount = r.amount;
  maturity = r.maturity;
}

-- `approved_plan=plan`
abbrev pub approved_plan : Plan → ApprovedPlan
approved_plan p = record {
  settled_refs = p.summary.settled_refs;
  deferred_refs = p.summary.deferred_refs;
  residual_transfers = p.summary.residual_transfers;
  gross_obligations = p.summary.gross_obligations;
  gross_residual = p.summary.gross_residual;
}

-- The call of `settle_real` for what was approved.
abbrev pub settle_request : ℕ → Option PolicyInputs → List Row → Plan → Recorded → Request
settle_request now policy book plan r = record {
  now = now;
  policy = policy;
  maximal = true;
  exclude_parties = [];
  fail_party = none;
  expected_book = some (map book_row book);
  approved_plan = some (approved_plan plan);
  approved_action_cid = some r.approved_action_cid;
  approval_trade_id = some r.trade_id;
}

pub data Outcome : Type 0 where
  -- "no seeded book to approve", "plan is infeasible; approval was not written"
  nothing_to_approve infeasible_plan : Outcome
  not_approved : Approval → Outcome
  -- the approval, and the answer of the settlement, or none where it raised
  approved : Recorded → Option Settlement → Outcome

module _ {World : Type 0} (solver : Solver) (api : NetApi World) (parties : Parties) where
  -- `_solver_plan`, for a book that is not empty
  unfoldable pub plan_due : Option PolicyInputs → List Row → Run World (Option Plan)
  plan_due policy rows = bind (load_limits api.ledger) λ limits.
      bind (load_agg_limits api.ledger) λ aggs.
        let extra = usable_policy policy in
        let r =
          solve_maximal solver (map solver_obligation rows) (to_solver_limits limits ++ extra.1)
            extra.0 (to_solver_agg_limits aggs) in
        bind (lift (pick (refs_of rows) r.settled_obligations)) λ settled.
          bind (lift (pick (refs_of rows) r.deferred_obligations))
            λ deferred. return (some (plan_of r settled deferred))

  unfoldable pub solver_plan : ℕ → Option PolicyInputs → List Row → Run World (Option Plan)
  solver_plan now policy book =
      if is_empty book
      then return none
      else bind (lift (due_book now book))
          (λ rows. if is_empty rows then return none else plan_due policy rows)

  module _ (approvals : ApprovalApi World) where
    -- What follows the approval: an exception of `settle_real` becomes an answer.
    unfoldable pub settle_recorded :
        ℕ → Option PolicyInputs → List Row → Plan → Approval → World → Outcome × World
    settle_recorded now policy book plan (recorded r) w =
        let answer = settle_real solver api parties (settle_request now policy book plan r) w in
        (approved r answer.0, answer.1)
    settle_recorded now policy book plan other w = (not_approved other, w)

    unfoldable pub approve_plan :
        ℕ → Option PolicyInputs → List Row → Option Plan → Run World Outcome
    approve_plan now policy book none w = (some nothing_to_approve, w)
    approve_plan now policy book (some plan) w =
        let answer = record_plan_approval approvals parties.operator plan.summary w in
        let result = settle_recorded now policy book plan answer.0 answer.1 in
        if plan.feasible then (some result.0, result.1) else (some infeasible_plan, w)

    -- `now` and `later` are the times of the plan and of the settlement, and the policies what
    -- `parse_policy` answers at each of them.
    unfoldable pub settle_with_approval :
        ℕ → ℕ → Option PolicyInputs → Option PolicyInputs → Run World Outcome
    settle_with_approval now later shown policy = bind api.query_obligations λ cs.
        let book = obligations_of cs in
        bind (solver_plan now shown book) λ plan. approve_plan later policy book plan
