-- ===== src/Settling/Examples.antt =====
-- A ledger that rejects the first settlement, and a book of two obligations.
use tradeguard_canton.Prelude.{
  ℕ, zero, suc, String, Bool, true, false, ◌≡◌, refl, none, some, List, [], ◌∷◌, ◌&&◌,
  if◌then◌else◌,
}
use tradeguard_canton.Prelude.Int.{ℤ, pos, ◌+ℤ◌, ◌-ℤ◌, ◌*ℤ◌, neg}
use tradeguard_canton.Prelude.Keys.{str_dec}
use tradeguard_canton.Prelude.Actions.{bind}
use tradeguard_canton.Prelude.Sorting.{sort}
use tradeguard_canton.Netting.{gross}
use tradeguard_canton.Solver.Model.{same}
use tradeguard_canton.Solver.Lp.{Var, flow, pick, name_dec}
use tradeguard_canton.Solver.Lp.Checker.{checker, satisfied}
use tradeguard_canton.Solver.OneCurrency.{add_all, add_caps, pair_dec, flow_transfers}
use tradeguard_canton.Solver.Book.{group_all}
use tradeguard_canton.Solver.Maximal.{
  maximal_problem, maximal_each, maximal_nets, solve_one_currency_maximal, solve_maximal, add_aggs,
  pairs_of, post_settled, reasons_for,
}
use tradeguard_canton.Limits.{
  short, load_limits, load_agg_limits, to_solver_limits, to_solver_agg_limits, limit_cids,
  agg_limit_cids,
}
use tradeguard_canton.Settling as Settling
use tradeguard_canton.Settling.{
  Due, undated, due_at, Contract, Approval, Request, NetLeg, Allocation, Batch, tree, accepted,
  rejected, NetApi, Parties, Refusal, no_book, short_names, lowered, same_lower,
}
use tradeguard_canton.Settling.Gates.{
  is_expected, is_due, due_rows, touches_excluded, surviving, choose_plan, residuals_of,
}
use tradeguard_canton.Settling.Preparing.{
  check_approval, resolve_plan, plan_rows, prepare, check_rows,
}
use tradeguard_canton.Settling.Submitting.{
  refused, settled, Receipt, keys_by_party, account_of, funding_of, involved, batch_of, receipt,
  ensure_account, instrument_cid, resolve_instrument, authority_cid, resolve_authority,
  issue_and_lock,
}
use tradeguard_canton.Settling.Running.{
  ensure_accounts, allocations, mark_approval, conclude, settle_batch, submit_batch, submit,
  settle_ready, settle_real,
}
use tradeguard_canton.Settling.Untouched.{ReadOnly, settle_real-Untouched}
use tradeguard_canton.Settling.Failover.{
  renetted, attempt, failer_of, renet, recover, settle_with_failover,
}
use tradeguard_canton.Settling.Submitting.{Settlement}
use tradeguard_canton.Settling.Failover.Recovers.{Follows, settle_with_failover-Follows}

abbrev row : String → String → String → ℤ → Due → Contract
row cid payer payee amount due = record {
  contract_id = cid;
  reference = cid;
  payer = payer;
  payee = payee;
  amount = amount;
  currency = "USD";
  maturity = "";
  due = due;
}

-- The third obligation is not due yet.
abbrev book : List Contract
book =
    row "OB-1" "A::1" "B::1" (pos 3000) undated
    ∷ row "OB-2" "C::1" "D::1" (pos 2000) (due_at 5)
    ∷ row "OB-3" "A::1" "D::1" (pos 9000) (due_at 50)
    ∷ []

-- The state counts the settlements that were tried; the first one is rejected.
abbrev answer : ℕ → Bool
answer zero = false
answer (suc n) = true

abbrev rail : List Contract → NetApi ℕ
rail rows = record {
  ledger = record {
    query = λ template w. (some [], w);
    exercise = λ template cid choice actors w. (none, w);
  };
  query_obligations = λ w. (some rows, w);
  query_approvals = λ w. (some [], w);
  query_instruments = λ w. (some (("I", "USD") ∷ []), w);
  create_instrument = λ w. (some "I", w);
  query_authorities = λ w. (some (("AUTH", "Operator") ∷ []), w);
  create_authority = λ w. (some "AUTH", w);
  query_accounts = λ w. (some [], w);
  create_account = λ owner account w. w;
  issue = λ instrument owner account amount w. (some owner, w);
  lock = λ holding owner w. (some holding, w);
  create_batch = λ batch w. (tree (some "BATCH"), w);
  settle_netting =
      λ batch allocs actors w. (if answer w then accepted else rejected "underfunded" false, suc w);
  mark_executed = λ cid w. (none, w);
}

abbrev parties : Parties
parties = record {
  operator = "Operator";
  firms = ("firma", "A::1") ∷ ("firmb", "B::1") ∷ ("firmc", "C::1") ∷ ("firmd", "D::1") ∷ [];
}

-- Both obligations settle as they are.
abbrev plan : Var → ℤ
plan (flow p q) =
    if same p "A" && same q "B"
    then pos 3000
    else if same p "C" && same q "D"
    then pos 2000
    else pos 0
plan (pick k) = pos 1

abbrev whole : Receipt
whole = record {
  gross = pos 5000;
  net = pos 5000;
  discharged = 2;
  residuals = 2;
  credit_limits_enforced = 0;
  aggregate_limits_enforced = 0;
  immature_excluded = 1;
  failure_excluded = 0;
  settled_obligations = 2;
  deferred_obligations = 0;
  settled_gross = pos 5000;
  deferred_gross = pos 0;
  batch_cid = "BATCH";
  approval_mark_error = none;
}

abbrev reads : (rows : List Contract) → ReadOnly (rail rows)
reads rows = record { ledger = λ t w. refl; obligations = λ w. refl; approvals = λ w. refl }

-- Without a book there is nothing to settle.
settle_real_refuses :
    (settle_real (checker plan) (rail []) parties (attempt 10 none [] none) 1).0
    ≡ some (refused no_book)
unfolding settle_real bind prepare load_limits load_agg_limits check_rows settle_ready
settle_real_refuses = refl

settle_real-Untouched_example :
    (settle_real (checker plan) (rail []) parties (attempt 10 none [] none) 1).1 ≡ 1
settle_real-Untouched_example =
    settle_real-Untouched (checker plan) (rail []) parties (attempt 10 none [] none) 1 no_book
      (reads []) settle_real_refuses

-- Without A only the obligation of C is left.
abbrev survivors : Receipt
survivors = record {
  gross = pos 2000;
  net = pos 2000;
  discharged = 1;
  residuals = 1;
  credit_limits_enforced = 0;
  aggregate_limits_enforced = 0;
  immature_excluded = 1;
  failure_excluded = 1;
  settled_obligations = 1;
  deferred_obligations = 0;
  settled_gross = pos 2000;
  deferred_gross = pos 0;
  batch_cid = "BATCH";
  approval_mark_error = none;
}

settle_with_failover_runs :
    (settle_with_failover (checker plan) (rail book) parties none 10 11 none 0).0
    ≡ some (renetted "A" "underfunded" (settled survivors))
unfolding settle_with_failover recover renet failer_of settle_real bind prepare load_limits
    load_agg_limits to_solver_limits to_solver_agg_limits limit_cids agg_limit_cids short check_rows
    is_expected check_approval due_rows is_due plan_rows surviving touches_excluded lowered
    same_lower resolve_plan choose_plan solve_maximal maximal_each solve_one_currency_maximal
    maximal_problem maximal_nets group_all pairs_of satisfied name_dec add_all add_caps add_aggs
    flow_transfers post_settled reasons_for gross sort str_dec pair_dec Settling.pick residuals_of
    short_names settle_ready submit submit_batch settle_batch conclude mark_approval batch_of
    involved receipt ensure_account ensure_accounts account_of keys_by_party instrument_cid
    resolve_instrument authority_cid resolve_authority issue_and_lock allocations funding_of ◌+ℤ◌
    ◌-ℤ◌ ◌*ℤ◌ neg
settle_with_failover_runs = refl

settle_with_failover-Follows_example :
    (first : Settlement) × ((settle_real
        (checker plan)
        (rail book)
        parties
        (attempt 10 none [] none)
        0).0
      ≡ some first)
    × Follows
        (checker plan)
        (rail book)
        parties
        none
        11
        none
        first
        (settle_real (checker plan) (rail book) parties (attempt 10 none [] none) 0).1
        (settle_with_failover (checker plan) (rail book) parties none 10 11 none 0).1
        (renetted "A" "underfunded" (settled survivors))
settle_with_failover-Follows_example =
    settle_with_failover-Follows (checker plan) (rail book) parties none 10 11 none 0
      (renetted "A" "underfunded" (settled survivors)) settle_with_failover_runs
