-- ===== src/Settling/Approving.antt =====
-- `record_plan_approval`: the recommendation and its approval are written before a settlement.
use tradeguard_canton.Prelude.{
  String, Bool, ◌&&◌, Option, none, some, List, [], ◌∷◌, ◌++◌, if◌then◌else◌,
}
use tradeguard_canton.Prelude.Int.{ℤ}
use tradeguard_canton.Prelude.Keys.{str_leb}
use tradeguard_canton.Prelude.Sorting.{sort}
use tradeguard_canton.Prelude.Actions.{Run, return, bind}
use tradeguard_canton.Solver.Model.{same}
use tradeguard_canton.Settling.{Residual}

-- What `record_plan_approval` reads of a plan.
pub record PlanSummary : Type 0 where
  pub residual_transfers : List Residual
  pub gross_obligations : ℤ
  pub gross_residual : ℤ
  pub netting_efficiency_pct : ℤ
  pub settled_refs : List String
  pub deferred_refs : List String

-- The payload of a recommendation, with the figures of its rationale.
pub record Recommendation : Type 0 where
  pub agent : String
  pub approver : String
  pub trade_id : String
  pub decision : String
  pub gross : ℤ
  pub net : ℤ
  pub legs : List Residual
  pub references : List String
  pub efficiency : ℤ

-- A contract with a trade id, and the decision in its payload.
pub record Decided : Type 0 where
  pub contract_id : String
  pub trade_id : String
  pub decision : String

-- The answer to a transaction tree: an error, or the contract id found in it.
pub data Written : Type 0 where
  not_written : (error : String) (ambiguous : Bool) → Written
  written : Option String → Written

-- The commands are given what looks for their contract before a retry.
pub record ApprovalApi (World : Type 0) : Type 0 where
  -- the trade id is made from the ledger's offset and random bytes
  pub new_trade_id : World → String × World
  pub query_recommendations : World → Option (List Decided) × World
  pub query_approved : World → Option (List Decided) × World
  pub create_recommendation : Recommendation → Run World (Option String) → World → Written × World
  pub approve : String → Run World (Option String) → World → Written × World

pub record Recorded : Type 0 where
  pub trade_id : String
  pub recommendation_cid : String
  pub approved_action_cid : String

pub data Approval : Type 0 where
  recommendation_failed : (error : String) (ambiguous : Bool) → Approval
  recommendation_missing : Approval
  approval_failed : (recommendation_cid error : String) (ambiguous : Bool) → Approval
  approval_missing : (recommendation_cid : String) → Approval
  recorded : Recorded → Approval

-- `find_by_trade_id`
unfoldable pub find_by_trade_id : String → List Decided → Option String
find_by_trade_id trade_id [] = none
find_by_trade_id trade_id (c ∷ cs) =
    let later = find_by_trade_id trade_id cs in
    if same c.trade_id trade_id && same c.decision "SETTLE" then some c.contract_id else later

-- `plan` as a recommendation; the operator is the agent and the approver.
unfoldable pub recommendation_of : String → String → PlanSummary → Recommendation
recommendation_of operator trade_id plan = record {
  agent = operator;
  approver = operator;
  trade_id = trade_id;
  decision = "SETTLE";
  gross = plan.gross_obligations;
  net = plan.gross_residual;
  legs = plan.residual_transfers;
  references = sort str_leb (plan.settled_refs ++ plan.deferred_refs);
  efficiency = plan.netting_efficiency_pct;
}

module _ {World : Type 0} (api : ApprovalApi World) (operator : String) where
  -- What follows the answer to `Approve`.
  unfoldable pub conclude_approval : String → String → Written → Approval
  conclude_approval trade_id cid (not_written e ambiguous) = approval_failed cid e ambiguous
  conclude_approval trade_id cid (written none) = approval_missing cid
  conclude_approval trade_id cid (written (some approved)) =
      recorded
        (record { trade_id = trade_id; recommendation_cid = cid; approved_action_cid = approved })

  -- What follows the answer to the creation of the recommendation.
  unfoldable pub approve_recommendation : String → Written → World → Approval × World
  approve_recommendation trade_id (not_written e ambiguous) w =
      (recommendation_failed e ambiguous, w)
  approve_recommendation trade_id (written none) w = (recommendation_missing, w)
  approve_recommendation trade_id (written (some cid)) w =
      let answer =
        api.approve cid (bind api.query_approved λ cs. return (find_by_trade_id trade_id cs)) w in
      (conclude_approval trade_id cid answer.0, answer.1)

  unfoldable pub record_plan_approval : PlanSummary → World → Approval × World
  record_plan_approval plan w =
      let id = api.new_trade_id w in
      let answer =
        api.create_recommendation (recommendation_of operator id.0 plan)
          (bind api.query_recommendations λ cs. return (find_by_trade_id id.0 cs)) id.1 in
      approve_recommendation id.0 answer.0 answer.1
