-- ===== src/Console/Approved.antt =====
-- No settlement without its approval: what `settle_with_approval` has written when the book is settled.
use tradeguard_canton.Prelude.{ℕ, String, ◌≡◌, Option, some, List}
use tradeguard_canton.Prelude.Actions.{Run, return, bind}
use tradeguard_canton.Solver.Lp.{Solver}
use tradeguard_canton.Settling.{Contract, PolicyInputs, NetApi, Parties}
use tradeguard_canton.Settling.Submitting.{settled, Receipt}
use tradeguard_canton.Settling.Running.{settle_real}
use tradeguard_canton.Settling.Executes.{Executed}
use tradeguard_canton.Settling.Approving.{
  Decided, PlanSummary, ApprovalApi, written, Recorded, find_by_trade_id, recommendation_of,
}
use tradeguard_canton.Console.{Row, obligations_of, Plan, settle_request, approved, solver_plan}

module _ {World : Type 0} (approvals : ApprovalApi World) (operator : String)
    (plan : PlanSummary) where
  -- The search for a contract of the trade, which is made before a retry.
  abbrev pub look_up : (World → Option (List Decided) × World) → String → Run World (Option String)
  look_up query trade_id = bind query λ cs. return (find_by_trade_id trade_id cs)

  -- The ledger took the recommendation of the plan, and then its approval.
  pub record RecordedBy (r : Recorded) (after : World) : Type 0 where
    pub recommending : World
    pub recommendation :
        (approvals.create_recommendation
          (recommendation_of operator r.trade_id plan)
          (look_up approvals.query_recommendations r.trade_id)
          recommending).0
        ≡ written (some r.recommendation_cid)
    pub approving : World
    pub recommended_before :
        approving
        ≡ (approvals.create_recommendation
            (recommendation_of operator r.trade_id plan)
            (look_up approvals.query_recommendations r.trade_id)
            recommending).1
    pub approval :
        (approvals.approve r.recommendation_cid
          (look_up approvals.query_approved r.trade_id)
          approving).0
        ≡ written (some r.approved_action_cid)
    pub last :
        after
        ≡ (approvals.approve r.recommendation_cid
            (look_up approvals.query_approved r.trade_id)
            approving).1

-- What has been read and written when the book is settled.
pub record ApprovedFirst {World : Type 0} (solver : Solver) (api : NetApi World) (parties : Parties)
    (approvals : ApprovalApi World) (now later : ℕ) (shown policy : Option PolicyInputs)
    (r : Recorded) (receipt : Receipt) (after : World) : Type 0 where
  pub contracts : List Contract
  pub read_at : World
  pub book_read : (api.query_obligations read_at).0 ≡ some contracts
  pub plan : Plan
  pub planned_at : World
  pub planned :
      (solver_plan solver api parties now shown (obligations_of contracts) planned_at).0
      ≡ some (some plan)
  -- the approval was on the ledger when the settlement began
  pub settling : World
  pub approved : RecordedBy approvals parties.operator plan.summary r settling
  pub request_is :
      (settle_real solver api parties
        (settle_request later policy (obligations_of contracts) plan r)
        settling).0
      ≡ some (settled receipt)
  pub executed :
      Executed solver api parties
        (settle_request later policy (obligations_of contracts) plan r)
        receipt
        after

module _ {World : Type 0} (solver : Solver) (api : NetApi World) (parties : Parties)
    (approvals : ApprovalApi World) (later : ℕ) (policy : Option PolicyInputs)
    (book : List Row) where
  -- The end of it, for the plan that was made.
  record Settled (plan : Plan) (r : Recorded) (receipt : Receipt) (after : World) : Type 0 where
    settling : World
    approved : RecordedBy approvals parties.operator plan.summary r settling
    request_is :
        (settle_real solver api parties (settle_request later policy book plan r) settling).0
        ≡ some (settled receipt)
    executed : Executed solver api parties (settle_request later policy book plan r) receipt after
