-- ===== src/Settling/Currencies.antt =====
-- `settle_cross_currency`: a book in several currencies, valued at the rates on the ledger and
-- settled in dollars by one batch that carries those rates.
pub mod Valued
mod Examples
use tradeguard_canton.Prelude.{
  ℕ, String, Bool, true, false, Option, none, some, List, [], ◌∷◌, map, length, if◌then◌else◌,
}
use tradeguard_canton.Prelude.Int.{ℤ, pos}
use tradeguard_canton.Prelude.Actions.{Run, return, lift, bind}
use tradeguard_canton.Netting.{Obligation}
use tradeguard_canton.Solver.Model.{FxRate, SolveResult}
use tradeguard_canton.Solver.Lp.{Solver}
use tradeguard_canton.Solver.OneCurrency.{is_empty}
use tradeguard_canton.Solver.Fx.{solve_fx}
use tradeguard_canton.Limits.{LedgerFxRate, short, load_fx_rates, fx_rate_cids}
use tradeguard_canton.Settling.{
  Contract, Residual, NetLeg, Fact, Allocation, Tree, tree_refused, tree, Answer, accepted,
  rejected, NetApi, Parties, short_names,
}
use tradeguard_canton.Settling.Gates.{residuals_of}
use tradeguard_canton.Settling.Submitting.{
  first_cid, facts_of, cids_of, involved, owed, moved, authority_cid,
}
use tradeguard_canton.Settling.Running.{legs_of, ensure_accounts, allocations}

-- The payload of the batch, whose cash instrument and valuation currency are dollars.
pub record FxBatch : Type 0 where
  pub obligations : List String
  pub facts : List Fact
  pub residual_legs : List NetLeg
  pub parties : List String
  pub fx_rates : List String

-- `query_book` is the query that answers nothing where the ledger refuses it; the rest of the
-- client is the one of `settle_real`.
pub record FxApi (World : Type 0) : Type 0 where
  pub net : NetApi World
  pub query_book : Run World (List Contract)
  pub create_instrument : String → Run World String
  pub create_batch : FxBatch → World → Tree × World

pub record FxReceipt : Type 0 where
  pub gross_obligations_mixed_ccy : ℤ
  pub usd_residuals : ℕ
  pub residual_total_usd : ℤ
  pub discharged : ℕ
  pub batch_cid : String

pub data FxSettlement : Type 0 where
  unseeded no_agreed_rate : FxSettlement
  fx_infeasible : SolveResult → FxSettlement
  fx_batch_failed fx_settle_failed : String → FxSettlement
  fx_settled : FxReceipt → FxSettlement

-- A rate on the ledger is a decimal of ten places.
abbrev pub rate_unit : ℤ
rate_unit = pos 10000000000

-- `FXRate(r.base, r.quote, r.rate)`
abbrev pub solver_rates : List LedgerFxRate → List FxRate
solver_rates rates =
    map
      (λ (r : LedgerFxRate). record {
        base = r.base;
        quote = r.quote;
        rate_num = r.rate;
        rate_den = rate_unit;
      })
      rates

abbrev pub fx_obligations : List Contract → List Obligation
fx_obligations rows =
    map
      (λ (c : Contract). record {
        payer = short c.payer;
        payee = short c.payee;
        amount = c.amount;
        instrument = c.currency;
      })
      rows

unfoldable pub fx_batch_of : List Contract → List LedgerFxRate → List NetLeg → FxBatch
fx_batch_of rows rates legs = record {
  obligations = cids_of rows;
  facts = facts_of rows;
  residual_legs = legs;
  parties = involved rows;
  fx_rates = fx_rate_cids rates;
}

unfoldable pub fx_receipt : List Contract → List Residual → String → FxReceipt
fx_receipt rows residuals batch_cid = record {
  gross_obligations_mixed_ccy = owed rows;
  usd_residuals = length residuals;
  residual_total_usd = moved residuals;
  discharged = length rows;
  batch_cid = batch_cid;
}

module _ {World : Type 0} (api : FxApi World) (parties : Parties) where
  -- `_instrument_cid_ccy`
  unfoldable pub instrument_cid_ccy : String → Run World String
  instrument_cid_ccy currency = bind api.net.query_instruments λ found.
      elim (first_cid currency found) [
        | some cid ↦ return cid
        | none ↦ api.create_instrument currency
      ]

  module _ (rows : List Contract) (residuals : List Residual) where
    -- What follows the answer to `SettleNetting`.
    unfoldable pub fx_conclude : String → Answer → FxSettlement
    fx_conclude batch_cid (rejected e ambiguous) = fx_settle_failed e
    fx_conclude batch_cid accepted = fx_settled (fx_receipt rows residuals batch_cid)

    -- What follows the answer to the creation of the batch.
    unfoldable pub settle_fx_batch : List Allocation → Tree → Run World FxSettlement
    settle_fx_batch allocs (tree_refused e) w = (some (fx_batch_failed e), w)
    settle_fx_batch allocs (tree none) w = (none, w)
    settle_fx_batch allocs (tree (some batch_cid)) w =
        let answer = api.net.settle_netting batch_cid allocs (parties.operator ∷ involved rows) w in
        (some (fx_conclude batch_cid answer.0), answer.1)

    unfoldable pub submit_fx_batch : List LedgerFxRate → List Allocation → Run World FxSettlement
    submit_fx_batch rates allocs w =
        let made = api.create_batch (fx_batch_of rows rates (legs_of allocs)) w in
        settle_fx_batch allocs made.0 made.1

    -- The writes; the loop over `residuals` is that of `settle_real`, with nobody made to fail.
    unfoldable pub submit_fx : List LedgerFxRate → Run World FxSettlement
    submit_fx rates = bind (instrument_cid_ccy "USD") λ instrument.
        bind (authority_cid api.net parties.operator) λ authority.
          bind (ensure_accounts api.net parties (involved rows)) λ _.
            bind (allocations api.net parties none instrument authority residuals)
              λ allocs. submit_fx_batch rates allocs

  -- What follows the plan.
  unfoldable pub settle_fx_plan :
      List Contract → List LedgerFxRate → SolveResult → Run World FxSettlement
  settle_fx_plan rows rates plan =
      if plan.feasible
      then bind (lift (residuals_of (short_names [] parties.firms) plan.transfers))
          (λ residuals. submit_fx rows residuals rates)
      else return (fx_infeasible plan)

module _ {World : Type 0} (solver : Solver) (api : FxApi World) (parties : Parties) where
  -- What follows the rates.
  unfoldable pub settle_at_rates : List Contract → List LedgerFxRate → Run World FxSettlement
  settle_at_rates rows rates =
      if is_empty rates
      then return no_agreed_rate
      else bind
          (lift (solve_fx solver (solver_rates rates) "USD" [] [] [] [] (fx_obligations rows)))
          (settle_fx_plan api parties rows rates)

  unfoldable pub settle_cross_currency : Run World FxSettlement
  settle_cross_currency = bind api.query_book λ rows.
      if is_empty rows
      then return unseeded
      else bind (load_fx_rates api.net.ledger) (settle_at_rates rows)
