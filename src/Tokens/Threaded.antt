-- ===== src/Tokens/Threaded.antt =====
-- `settle_token`: the residual legs of one instrument.
pub mod Settles
use tradeguard_canton.Prelude.{
  ◌<>◌, ite, ℕ, String, Bool, true, false, ◌&&◌, Option, none, some, List, [], ◌∷◌, ◌++◌, map, keep,
  length, if◌then◌else◌,
}
use tradeguard_canton.Prelude.Int.{ℤ, pos, negsuc, ◌+ℤ◌, ltb_ℤ}
use tradeguard_canton.Prelude.Keys.{str_dec}
use tradeguard_canton.Prelude.Dict.{Dict, lookup, get_or, insert}
use tradeguard_canton.Prelude.Actions.{Run, return, lift, bind}
use tradeguard_canton.Netting.{
  Obligation, Transfer, NettingReport, minimal_settlement, netting_report,
}
use tradeguard_canton.Solver.Model.{same, member}
use tradeguard_canton.Solver.OneCurrency.{pair_dec, is_empty}
use tradeguard_canton.Limits.{last_of}
use tradeguard_canton.Tokens.{
  Holding, Leg, Funding, Created, refused, created, TokenApi, Payment, TokenError, no_holding,
  create_failed, execute_failed, unresolved, Opened, opened, not_opened, leg_of, party_id,
  holding_cid_for, firm_ids, open_settlement,
}

-- What the loop over the residual transfers collects.
pub data Gathered : Type 0 where
  gathered : List Leg → Dict String String → Gathered
  unfunded : TokenError → Gathered

abbrev pub add_leg : Leg → Gathered → Gathered
add_leg leg (gathered legs senders) = gathered (leg ∷ legs) senders
add_leg leg (unfunded e) = unfunded e

pub record TokenReport : Type 0 where
  pub gross_value : ℤ
  pub residual_count : ℕ
  pub net_value : ℤ
  pub netting_efficiency_pct : ℤ
  pub residual_legs : List Leg
  pub settlement_cid : String

pub data TokenResult : Type 0 where
  nets_to_zero : NettingReport → TokenResult
  failed : TokenError → TokenResult
  settled : TokenReport → TokenResult

unfoldable pub token_obligation : String → Payment → Obligation
token_obligation instrument r = record {
  payer = r.payer;
  payee = r.payee;
  amount = r.amount;
  instrument = instrument;
}

unfoldable pub token_obligations : String → List Payment → List Obligation
token_obligations instrument book = map (token_obligation instrument) book

abbrev pub token_report : NettingReport → List Leg → String → TokenReport
token_report report legs cid = record {
  gross_value = report.gross_value;
  residual_count = report.residual_count;
  net_value = report.net_value;
  netting_efficiency_pct = report.netting_efficiency_pct;
  residual_legs = legs;
  settlement_cid = cid;
}

module _ {World : Type 0} (api : TokenApi World) (parties : Dict String String) where
  -- The loop of `settle_token` over the residual transfers, with the senders seen so far.
  unfoldable pub gather : String → Dict String String → List Transfer → Run World Gathered
  gather instrument seen [] = return (gathered [] seen)
  gather instrument seen (t ∷ ts) = bind (party_id parties t.sender) λ sender.
      bind (party_id parties t.receiver) λ receiver.
        let leg = leg_of t instrument sender receiver in
        elim (lookup str_dec sender seen) [
          | some _ ↦ bind (gather instrument seen ts) λ g. return (add_leg leg g)
          | none ↦ bind (holding_cid_for api sender instrument) λ holding. elim holding [
            | none ↦ return (unfunded (no_holding t.sender instrument))
            | some cid ↦
                bind (gather instrument (insert str_dec sender cid seen) ts)
                  λ g. return (add_leg leg g)
          ]
        ]

  -- The execution of the settlement that was opened.
  unfoldable pub execute_opened :
      NettingReport → List Leg → Dict String String → Opened → Run World TokenResult
  execute_opened report legs senders (not_opened e) w = (some (failed e), w)
  execute_opened report legs senders (opened cid) w =
      let done = api.execute_threaded cid senders w in
      (
        some (elim done.0 [
          | none ↦ settled (token_report report legs cid)
          | some e ↦ failed (execute_failed e)
        ]),
        done.1,
      )

  -- `settle_token` once its legs are gathered.
  unfoldable pub submit_threaded :
      String → NettingReport → List Leg → Dict String String → Run World TokenResult
  submit_threaded instrument report legs senders = bind (firm_ids parties) λ ids.
      bind (open_settlement api ("token-" <> instrument) legs ids)
        (execute_opened report legs senders)

  unfoldable pub settle_gathered : String → NettingReport → Gathered → Run World TokenResult
  settle_gathered instrument report (unfunded e) = return (failed e)
  settle_gathered instrument report (gathered legs senders) =
      submit_threaded instrument report legs senders

  -- `book` is what `book or DEMO_BOOK` comes to.
  unfoldable pub settle_token : String → List Payment → Run World TokenResult
  settle_token instrument book =
      let obligations = token_obligations instrument book in
      let report = netting_report obligations instrument in
      let residuals = minimal_settlement obligations instrument in
      if is_empty residuals
      then return (nets_to_zero report)
      else bind (gather instrument [] residuals) (settle_gathered instrument report)
