-- ===== src/Console/Examples.antt =====
-- A plan that is approved on the ledger, and then settled.
use tradeguard_canton.Prelude.{
  ℕ, suc, String, true, ◌≡◌, refl, none, some, List, [], ◌∷◌, map, ◌&&◌, if◌then◌else◌,
}
use tradeguard_canton.Prelude.Int.{ℤ, pos, ◌+ℤ◌, ◌-ℤ◌, ◌*ℤ◌, neg}
use tradeguard_canton.Prelude.Keys.{str_dec}
use tradeguard_canton.Prelude.Actions.{bind}
use tradeguard_canton.Prelude.Sorting.{sort}
use tradeguard_canton.Netting.{gross}
use tradeguard_canton.Solver.Model.{same}
use tradeguard_canton.Solver.Lp as Lp
use tradeguard_canton.Solver.Lp.{Var, flow, name_dec}
use tradeguard_canton.Solver.Lp.Checker.{checker, satisfied}
use tradeguard_canton.Solver.OneCurrency.{add_all, add_caps, pair_dec, flow_transfers}
use tradeguard_canton.Solver.Book.{group_all}
use tradeguard_canton.Solver.Maximal.{
  maximal_problem, maximal_each, maximal_nets, solve_one_currency_maximal, solve_maximal, add_aggs,
  pairs_of, post_settled, reasons_for,
}
use tradeguard_canton.Limits.{
  short, load_limits, load_agg_limits, to_solver_limits, to_solver_agg_limits, limit_cids,
  agg_limit_cids,
}
use tradeguard_canton.Settling.{
  Due, undated, due_at, Contract, Approval, tree, accepted, NetApi, Parties, nothing_fits,
  short_names, lowered, same_lower, pick,
}
use tradeguard_canton.Settling.Gates.{
  is_expected, is_due, due_rows, touches_excluded, surviving, choose_plan, residuals_of,
}
use tradeguard_canton.Settling.Preparing.{
  check_approval, resolve_plan, plan_rows, prepare, check_rows,
}
use tradeguard_canton.Settling.Submitting.{
  refused, Receipt, keys_by_party, account_of, funding_of, involved, batch_of, receipt,
  ensure_account, instrument_cid, resolve_instrument, authority_cid, resolve_authority,
  issue_and_lock,
}
use tradeguard_canton.Settling.Running.{
  ensure_accounts, allocations, mark_approval, conclude, settle_batch, submit_batch, submit,
  settle_ready, settle_real,
}
use tradeguard_canton.Solver.Model.{netting_efficiency_pct, residual}
use tradeguard_canton.Settling.Gates.{
  solver_obligation, book_key, is_approval, is_approved, same_plan,
}
use tradeguard_canton.Settling.Approving.{
  ApprovalApi, written, not_written, Recorded, recommendation_failed, recommendation_of,
  find_by_trade_id, conclude_approval, approve_recommendation, record_plan_approval,
}
use tradeguard_canton.Console.{
  obligations_of, due_book, plan_of, plan_due, solver_plan, approved, not_approved, settle_recorded,
  approve_plan, settle_with_approval,
}

abbrev row : String → String → String → ℤ → Due → Contract
row cid payer payee amount due = record {
  contract_id = cid;
  reference = cid;
  payer = payer;
  payee = payee;
  amount = amount;
  currency = "USD";
  maturity = "";
  due = due;
}

abbrev book : List Contract
book =
    row "OB-1" "A::1" "B::1" (pos 3000) undated
    ∷ row "OB-2" "C::1" "D::1" (pos 2000) (due_at 5)
    ∷ []

abbrev active : Approval
active = record {
  contract_id = "APPROVED";
  decision = "SETTLE";
  agent = "Operator";
  approver = "Operator";
  trade_id = "NET-1";
}

-- The state counts the settlements.
abbrev rail : NetApi ℕ
rail = record {
  ledger = record {
    query = λ template w. (some [], w);
    exercise = λ template cid choice actors w. (none, w);
  };
  query_obligations = λ w. (some book, w);
  query_approvals = λ w. (some (active ∷ []), w);
  query_instruments = λ w. (some (("I", "USD") ∷ []), w);
  create_instrument = λ w. (some "I", w);
  query_authorities = λ w. (some (("AUTH", "Operator") ∷ []), w);
  create_authority = λ w. (some "AUTH", w);
  query_accounts = λ w. (some [], w);
  create_account = λ owner account w. w;
  issue = λ instrument owner account amount w. (some owner, w);
  lock = λ holding owner w. (some holding, w);
  create_batch = λ batch w. (tree (some "BATCH"), w);
  settle_netting = λ batch allocs actors w. (accepted, suc w);
  mark_executed = λ cid w. (none, w);
}

abbrev parties : Parties
parties = record {
  operator = "Operator";
  firms = ("firma", "A::1") ∷ ("firmb", "B::1") ∷ ("firmc", "C::1") ∷ ("firmd", "D::1") ∷ [];
}

-- Both obligations settle as they are.
abbrev plan : Var → ℤ
plan (flow p q) =
    if same p "A" && same q "B"
    then pos 3000
    else if same p "C" && same q "D"
    then pos 2000
    else pos 0
plan (Lp.pick k) = pos 1

abbrev whole : Receipt
whole = record {
  gross = pos 5000;
  net = pos 5000;
  discharged = 2;
  residuals = 2;
  credit_limits_enforced = 0;
  aggregate_limits_enforced = 0;
  immature_excluded = 0;
  failure_excluded = 0;
  settled_obligations = 2;
  deferred_obligations = 0;
  settled_gross = pos 5000;
  deferred_gross = pos 0;
  batch_cid = "BATCH";
  approval_mark_error = none;
}

abbrev approvals : ApprovalApi ℕ
approvals = record {
  new_trade_id = λ w. ("NET-1", w);
  query_recommendations = λ w. (some [], w);
  query_approved = λ w. (some [], w);
  create_recommendation = λ r look_up w. (written (some "RECOMMENDED"), w);
  approve = λ cid look_up w. (written (some "APPROVED"), w);
}

abbrev record_of : Recorded
record_of = record {
  trade_id = "NET-1";
  recommendation_cid = "RECOMMENDED";
  approved_action_cid = "APPROVED";
}

-- A recommendation that is refused: nothing is settled.
abbrev refusing : ApprovalApi ℕ
refusing = record approvals {
  create_recommendation = λ r look_up w. (not_written "timed out" true, w);
}

settle_with_approval_stops :
    settle_with_approval (checker plan) rail parties refusing 10 11 none none 0
    ≡ (some (not_approved (recommendation_failed "timed out" true)), 0)
unfolding settle_with_approval obligations_of solver_plan due_book plan_due plan_of
    netting_efficiency_pct approve_plan settle_recorded record_plan_approval recommendation_of
    approve_recommendation conclude_approval find_by_trade_id book_key is_approval is_approved
    same_plan residual settle_real bind prepare load_limits load_agg_limits to_solver_limits
    to_solver_agg_limits limit_cids agg_limit_cids short check_rows is_expected check_approval
    due_rows is_due plan_rows surviving touches_excluded lowered same_lower resolve_plan choose_plan
    solve_maximal maximal_each solve_one_currency_maximal maximal_problem maximal_nets group_all
    pairs_of satisfied name_dec add_all add_caps add_aggs flow_transfers post_settled reasons_for
    gross sort str_dec pair_dec pick residuals_of short_names settle_ready submit submit_batch
    settle_batch conclude mark_approval batch_of involved receipt ensure_account ensure_accounts
    account_of keys_by_party instrument_cid resolve_instrument authority_cid resolve_authority
    issue_and_lock allocations funding_of ◌+ℤ◌ ◌-ℤ◌ ◌*ℤ◌ neg
settle_with_approval_stops = refl

-- A plan that settles nothing counts as feasible, so its approval is written before `settle_real`
-- refuses it.
abbrev nothing : Var → ℤ
nothing v = pos 0

settle_with_approval_of_nothing :
    (settle_with_approval (checker nothing) rail parties approvals 10 11 none none 0).0
    ≡ some (
        approved record_of (
          some (
            refused (
              nothing_fits 2
                (solve_maximal (checker nothing) (map solver_obligation book) [] [] [])))))
unfolding settle_with_approval obligations_of solver_plan due_book plan_due plan_of
    netting_efficiency_pct approve_plan settle_recorded record_plan_approval recommendation_of
    approve_recommendation conclude_approval find_by_trade_id book_key is_approval is_approved
    same_plan residual settle_real bind prepare load_limits load_agg_limits to_solver_limits
    to_solver_agg_limits limit_cids agg_limit_cids short check_rows is_expected check_approval
    due_rows is_due plan_rows surviving touches_excluded lowered same_lower resolve_plan choose_plan
    solve_maximal maximal_each solve_one_currency_maximal maximal_problem maximal_nets group_all
    pairs_of satisfied name_dec add_all add_caps add_aggs flow_transfers post_settled reasons_for
    gross sort str_dec pair_dec pick residuals_of short_names settle_ready submit submit_batch
    settle_batch conclude mark_approval batch_of involved receipt ensure_account ensure_accounts
    account_of keys_by_party instrument_cid resolve_instrument authority_cid resolve_authority
    issue_and_lock allocations funding_of ◌+ℤ◌ ◌-ℤ◌ ◌*ℤ◌ neg
settle_with_approval_of_nothing = refl
