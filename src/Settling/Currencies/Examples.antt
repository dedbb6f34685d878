-- ===== src/Settling/Currencies/Examples.antt =====
-- A book in two currencies, on a ledger whose state is the authorities that the accepted
-- allocations named.
use tradeguard_canton.Prelude.{
  String, ◌≡◌, refl, none, some, List, [], ◌∷◌, map, ◌&&◌, if◌then◌else◌,
}
use tradeguard_canton.Prelude.Int.{ℤ, pos, ◌+ℤ◌, ◌-ℤ◌, ◌*ℤ◌, neg, round_ratio}
use tradeguard_canton.Prelude.Keys.{str_dec}
use tradeguard_canton.Prelude.Actions.{bind}
use tradeguard_canton.Prelude.Sorting.{sort}
use tradeguard_canton.Netting.{gross}
use tradeguard_canton.Solver.Model.{same, residual}
use tradeguard_canton.Solver.Lp.{Var, flow, name_dec}
use tradeguard_canton.Solver.Lp as Lp
use tradeguard_canton.Solver.Lp.Checker.{checker, satisfied}
use tradeguard_canton.Solver.OneCurrency.{
  add_all, add_caps, pair_dec, flow_transfers, arcs, capped_of,
}
use tradeguard_canton.Solver.Fx.{
  solve_fx, solve_valued, unrated, fx_factor, direct_rate, inverse_rate, post_value, value_all,
  fx_problem, add_floors,
}
use tradeguard_canton.Limits as Limits
use tradeguard_canton.Limits.{
  LedgerApi, short, text, amount, load_fx_rates, read_fx_rate, fx_rate_cids,
}
use tradeguard_canton.Settling.{
  undated, Contract, Allocation, tree, accepted, NetApi, Parties, short_names,
}
use tradeguard_canton.Settling.Gates.{residuals_of}
use tradeguard_canton.Settling.Submitting.{
  keys_by_party, account_of, funding_of, involved, ensure_account, authority_cid, issue_and_lock,
}
use tradeguard_canton.Settling.Running.{ensure_accounts, allocations}
use tradeguard_canton.Settling.Currencies.{
  FxApi, FxReceipt, unseeded, fx_settled, fx_batch_of, fx_receipt, instrument_cid_ccy, fx_conclude,
  settle_fx_batch, submit_fx_batch, submit_fx, settle_fx_plan, settle_at_rates,
  settle_cross_currency,
}

abbrev row : String → String → String → ℤ → String → Contract
row cid payer payee owed currency = record {
  contract_id = cid;
  reference = cid;
  payer = payer;
  payee = payee;
  amount = owed;
  currency = currency;
  maturity = "";
  due = undated;
}

abbrev book : List Contract
book = row "OB-1" "A::1" "B::1" (pos 3000) "USD" ∷ row "OB-2" "C::1" "A::1" (pos 1000) "EUR" ∷ []

-- 1 EUR = 1.1 USD
abbrev rate : Limits.Contract
rate = record {
  contract_id = "FX-1";
  payload = ("base", text "EUR") ∷ ("quote", text "USD") ∷ ("rate", amount (pos 11000000000)) ∷ [];
}

abbrev authorities_of : List Allocation → List String
authorities_of allocs = map (λ (a : Allocation). a.authority) allocs

abbrev rail : List (String × String) → NetApi (List String)
rail authorities = record {
  ledger = record {
    query = λ template w. (some (rate ∷ []), w);
    exercise = λ template cid choice actors w. (none, w);
  };
  query_obligations = λ w. (some book, w);
  query_approvals = λ w. (some [], w);
  query_instruments = λ w. (some (("I", "USD") ∷ []), w);
  create_instrument = λ w. (some "I", w);
  query_authorities = λ w. (some authorities, w);
  create_authority = λ w. (some "", w);
  query_accounts = λ w. (some [], w);
  create_account = λ owner account w. w;
  issue = λ instrument owner account owed w. (some owner, w);
  lock = λ holding owner w. (some holding, w);
  create_batch = λ batch w. (tree (some "BATCH"), w);
  settle_netting = λ batch allocs actors w. (accepted, authorities_of allocs);
  mark_executed = λ cid w. (none, w);
}

abbrev desk : List (String × String) → List Contract → FxApi (List String)
desk authorities rows = record {
  net = rail authorities;
  query_book = λ w. (some rows, w);
  create_instrument = λ currency w. (some currency, w);
  create_batch = λ batch w. (tree (some "BATCH"), w);
}

abbrev parties : Parties
parties = record {
  operator = "Operator";
  firms = ("firma", "A::1") ∷ ("firmb", "B::1") ∷ ("firmc", "C::1") ∷ [];
}

-- A owes 30 USD and is owed 11: both A and C pay B.
abbrev plan : Var → ℤ
plan (flow p q) =
    if same p "A" && same q "B"
    then pos 1900
    else if same p "C" && same q "B"
    then pos 1100
    else pos 0
plan (Lp.pick k) = pos 1

abbrev whole : FxReceipt
whole = record {
  gross_obligations_mixed_ccy = pos 4000;
  usd_residuals = 2;
  residual_total_usd = pos 3000;
  discharged = 2;
  batch_cid = "BATCH";
}

-- Where the authority has just been created, its contract id is not in the answer: the allocations
-- name none.
settle_cross_currency_without_authority :
    settle_cross_currency (checker plan) (desk [] book) parties []
    ≡ (some (fx_settled whole), "" ∷ "" ∷ [])
unfolding settle_cross_currency bind load_fx_rates read_fx_rate fx_rate_cids settle_at_rates
    solve_fx solve_valued unrated fx_factor direct_rate inverse_rate post_value value_all fx_problem
    add_floors add_all add_caps capped_of pair_dec flow_transfers arcs satisfied name_dec sort
    str_dec gross residual round_ratio settle_fx_plan residuals_of short_names short submit_fx
    submit_fx_batch settle_fx_batch fx_conclude fx_batch_of fx_receipt instrument_cid_ccy
    authority_cid ensure_account ensure_accounts account_of keys_by_party allocations issue_and_lock
    funding_of involved ◌+ℤ◌ ◌-ℤ◌ ◌*ℤ◌ neg
settle_cross_currency_without_authority = refl

settle_cross_currency_of_nothing :
    settle_cross_currency (checker plan) (desk [] []) parties [] ≡ (some unseeded, [])
unfolding settle_cross_currency bind
settle_cross_currency_of_nothing = refl
