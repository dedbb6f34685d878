-- ===== src/Settling/Attempts/Examples.antt =====
-- Two batches for a ledger that rejects what it is given, and the fraud of a book of one dollar.
use tradeguard_canton.Prelude.{ℕ, suc, String, false, ◌≡◌, refl, none, some, List, [], ◌∷◌}
use tradeguard_canton.Prelude.Int.{ℤ, pos, ◌+ℤ◌, ◌-ℤ◌, neg, min_ℤ, round_ratio, ◌<ℤ◌}
use tradeguard_canton.Prelude.Keys.{str_dec}
use tradeguard_canton.Prelude.Actions.{bind}
use tradeguard_canton.Prelude.Sorting.{sort}
use tradeguard_canton.Netting.{
  Obligation, Transfer, post_obligation, post_all, net_positions, owing, due, match_greedily,
  minimal_settlement,
}
use tradeguard_canton.Prelude.{arith}
use tradeguard_canton.Netting.Settlement.{Settles}
use tradeguard_canton.Netting.Positions.{position}
use tradeguard_canton.Solver.Model.{SolvedTransfer, as_transfer}
use tradeguard_canton.Limits.{short}
use tradeguard_canton.Settling.{undated, Contract, tree, rejected, NetApi, Parties, short_names}
use tradeguard_canton.Settling.Gates.{residuals_of}
use tradeguard_canton.Settling.Submitting.{
  keys_by_party, account_of, funding_of, involved, ensure_account, instrument_cid, authority_cid,
  issue_and_lock,
}
use tradeguard_canton.Settling.Running.{ensure_accounts, allocations}
use tradeguard_canton.Settling.Attempts.{
  AttemptApi, rejected_attempt, fraud_of, breach_of, attempted, settle_attempt, submit_attempt,
  fund_attempt, propose_fraud, prepare_attempt, attempt_fraud,
}
use tradeguard_canton.Settling.Attempts.Breaches.{fraud_of-UnderSettles}

abbrev row : String → String → String → ℤ → Contract
row cid payer payee owed = record {
  contract_id = cid;
  reference = cid;
  payer = payer;
  payee = payee;
  amount = owed;
  currency = "USD";
  maturity = "";
  due = undated;
}

abbrev book : List Contract
book = row "OB-1" "A::1" "B::1" (pos 3000) ∷ row "OB-2" "C::1" "A::1" (pos 1000) ∷ []

-- The state counts the limits that were created.
abbrev rail : NetApi ℕ
rail = record {
  ledger = record {
    query = λ template w. (some [], w);
    exercise = λ template cid choice actors w. (none, w);
  };
  query_obligations = λ w. (some book, w);
  query_approvals = λ w. (some [], w);
  query_instruments = λ w. (some (("I", "USD") ∷ []), w);
  create_instrument = λ w. (some "I", w);
  query_authorities = λ w. (some (("AUTH", "Operator") ∷ []), w);
  create_authority = λ w. (some "AUTH", w);
  query_accounts = λ w. (some [], w);
  create_account = λ owner account w. w;
  issue = λ instrument owner account owed w. (some owner, w);
  lock = λ holding owner w. (some holding, w);
  create_batch = λ batch w. (tree (some "BATCH"), w);
  settle_netting = λ batch allocs actors w. (rejected "refused" false, w);
  mark_executed = λ cid w. (none, w);
}

abbrev desk : AttemptApi ℕ
desk = record {
  net = rail;
  query_book = λ w. (some book, w);
  create_credit_limit = λ from to limit w. (tree (some "LIMIT"), suc w);
}

abbrev parties : Parties
parties = record {
  operator = "Operator";
  firms = ("firma", "A::1") ∷ ("firmb", "B::1") ∷ ("firmc", "C::1") ∷ [];
}

attempt_fraud_runs : attempt_fraud desk parties 0 ≡ (some (rejected_attempt "BATCH" "refused"), 0)
unfolding attempt_fraud prepare_attempt propose_fraud fraud_of fund_attempt submit_attempt
    settle_attempt attempted bind net_positions post_all post_obligation str_dec residuals_of
    short_names short instrument_cid authority_cid ensure_account ensure_accounts account_of
    keys_by_party allocations issue_and_lock funding_of involved sort round_ratio ◌+ℤ◌ ◌-ℤ◌ neg
attempt_fraud_runs = refl

abbrev obligations : List Obligation
obligations =
    record { payer = "A"; payee = "B"; amount = pos 3000; instrument = "USD" }
    ∷ record { payer = "C"; payee = "A"; amount = pos 1000; instrument = "USD" }
    ∷ []

abbrev largest_leg : Transfer
largest_leg = record { sender = "A"; receiver = "B"; amount = pos 2000; instrument = "USD" }

is_breach : breach_of (minimal_settlement obligations "USD") ≡ some (largest_leg, pos 1000)
unfolding breach_of minimal_settlement net_positions post_all post_obligation owing due
    match_greedily str_dec sort min_ℤ round_ratio ◌+ℤ◌ ◌-ℤ◌ neg
is_breach = refl

abbrev fraud : SolvedTransfer
fraud = record { sender = "A"; receiver = "B"; amount = pos 300; currency = "USD" }

is_fraud : fraud_of (net_positions obligations) ≡ some fraud
unfolding fraud_of net_positions post_all post_obligation str_dec round_ratio ◌+ℤ◌ ◌-ℤ◌ neg
is_fraud = refl

more_than_a_dollar : pos 100 <ℤ position "B" obligations
unfolding ◌-ℤ◌ ◌+ℤ◌ str_dec
more_than_a_dollar = omega arith

fraud_of-UnderSettles_example : ¬ Settles obligations (as_transfer fraud ∷ [])
fraud_of-UnderSettles_example = fraud_of-UnderSettles obligations fraud is_fraud more_than_a_dollar

-- The fraud of a book of one dollar is its settlement.
abbrev dollar : List Obligation
dollar = record { payer = "A"; payee = "B"; amount = pos 100; instrument = "USD" } ∷ []

fraud_of_a_dollar :
    elim (fraud_of (net_positions dollar)) [ none ↦ [] | some leg ↦ as_transfer leg ∷ [] ]
    ≡ minimal_settlement dollar "USD"
unfolding fraud_of minimal_settlement net_positions post_all post_obligation owing due
    match_greedily str_dec sort min_ℤ round_ratio ◌+ℤ◌ ◌-ℤ◌ neg
fraud_of_a_dollar = refl
