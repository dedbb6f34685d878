-- ===== src/Settling/Attempts.antt =====
-- `attempt_fraud` and `attempt_credit_breach`: batches that the ledger is meant to refuse, one that
-- pays too little and one that pays more than a credit limit.
pub mod Breaches
pub mod Submits
mod Examples
use tradeguard_canton.Prelude.{
  ℕ, String, Bool, Option, none, some, List, [], ◌∷◌, map, if◌then◌else◌,
}
use tradeguard_canton.Prelude.Int.{ℤ, pos, neg, ltb_ℤ, round_ratio}
use tradeguard_canton.Prelude.Dict.{Dict}
use tradeguard_canton.Prelude.Actions.{Run, return, lift, bind}
use tradeguard_canton.Netting.{Obligation, Transfer, net_positions, minimal_settlement}
use tradeguard_canton.Solver.Model.{SolvedTransfer}
use tradeguard_canton.Solver.OneCurrency.{is_empty}
use tradeguard_canton.Limits.{short}
use tradeguard_canton.Settling.{
  Contract, Residual, NetLeg, Allocation, Batch, Tree, tree_refused, tree, Answer, accepted,
  rejected, NetApi, Parties, short_names,
}
use tradeguard_canton.Settling.Gates.{residuals_of}
use tradeguard_canton.Settling.Submitting.{
  cids_of, facts_of, involved, instrument_cid, authority_cid,
}
use tradeguard_canton.Settling.Running.{legs_of, ensure_accounts, allocations}

-- `query_book` is the query that answers nothing where the ledger refuses it.
pub record AttemptApi (World : Type 0) : Type 0 where
  pub net : NetApi World
  pub query_book : Run World (List Contract)
  -- from, to, limit
  pub create_credit_limit : String → String → ℤ → World → Tree × World

pub data Attempt : Type 0 where
  no_seeded_book nets_to_zero : Attempt
  limit_not_created batch_not_created : String → Attempt
  -- the batch, and the error of the ledger
  rejected_attempt : (batch_cid error : String) → Attempt
  accepted_attempt : Attempt

abbrev pub usd_obligations : List Contract → List Obligation
usd_obligations rows =
    map
      (λ (c : Contract). record {
        payer = short c.payer;
        payee = short c.payee;
        amount = c.amount;
        instrument = "USD";
      })
      rows

-- `min(net, key=…)` and `max(net, key=…)`, which keep the first of equals.
abbrev pub lowest : String × ℤ → Dict String ℤ → String × ℤ
lowest best [] = best
lowest best (x ∷ net) = lowest (if ltb_ℤ x.1 best.1 then x else best) net

abbrev pub highest : String × ℤ → Dict String ℤ → String × ℤ
highest best [] = best
highest best (x ∷ net) = highest (if ltb_ℤ best.1 x.1 then x else best) net

abbrev pub abs_ℤ : ℤ → ℤ
abs_ℤ v = if ltb_ℤ v (pos 0) then neg v else v

-- `round(max(1.0, full_owed * 0.1), 2)`
abbrev pub tenth : ℤ → ℤ
tenth owed = let part = round_ratio owed (pos 10) in if ltb_ℤ (pos 100) part then part else pos 100

abbrev pub fraud_between : String × ℤ → Dict String ℤ → SolvedTransfer
fraud_between first net =
    let receiver = highest first net in
    record {
      sender = (lowest first net).0;
      receiver = receiver.0;
      amount = tenth (abs_ℤ receiver.1);
      currency = "USD";
    }

-- The leg that is proposed, between short names; the positions of an empty book raise.
unfoldable pub fraud_of : Dict String ℤ → Option SolvedTransfer
fraud_of [] = none
fraud_of (first ∷ net) = some (fraud_between first net)

-- `max(residuals_short, key=lambda t: t.amount)`
abbrev pub biggest : Transfer → List Transfer → Transfer
biggest best [] = best
biggest best (t ∷ ts) = biggest (if ltb_ℤ best.amount t.amount then t else best) ts

-- `cap`
abbrev pub half_of : Transfer → ℤ
half_of t = round_ratio t.amount (pos 2)

-- The largest leg of a plan and the limit that it breaches, if the plan has a leg.
unfoldable pub breach_of : List Transfer → Option (Transfer × ℤ)
breach_of [] = none
breach_of (t ∷ ts) = let big = biggest t ts in some (big, half_of big)

abbrev pub in_usd : Transfer → SolvedTransfer
in_usd t = record {
  sender = t.sender;
  receiver = t.receiver;
  amount = t.amount;
  currency = t.instrument;
}

-- The parties are those of the first query of the book, the obligations those of the second.
abbrev pub attempt_batch : List Contract → List Contract → List NetLeg → List String → Batch
attempt_batch facts rows legs limits = record {
  obligations = cids_of rows;
  facts = facts_of rows;
  residual_legs = legs;
  parties = involved facts;
  credit_limits = some limits;
  aggregate_limits = none;
}

module _ {World : Type 0} (api : AttemptApi World) (parties : Parties) where
  module _ (facts rows : List Contract) where
    -- What follows the answer to `SettleNetting`.
    unfoldable pub attempted : String → Answer → Attempt
    attempted batch_cid (rejected e ambiguous) = rejected_attempt batch_cid e
    attempted batch_cid accepted = accepted_attempt

    -- What follows the answer to the creation of the batch.
    unfoldable pub settle_attempt : List Allocation → Tree → Run World Attempt
    settle_attempt allocs (tree_refused e) w = (some (batch_not_created e), w)
    settle_attempt allocs (tree none) w = (none, w)
    settle_attempt allocs (tree (some batch_cid)) w =
        let answer =
          api.net.settle_netting batch_cid allocs (parties.operator ∷ involved facts) w in
        (some (attempted batch_cid answer.0), answer.1)

    unfoldable pub submit_attempt : List String → List Allocation → Run World Attempt
    submit_attempt limits allocs w =
        let made = api.net.create_batch (attempt_batch facts rows (legs_of allocs) limits) w in
        settle_attempt allocs made.0 made.1

    -- The transfers, funded and submitted.
    unfoldable pub fund_attempt :
        String → String → List String → List SolvedTransfer → Run World Attempt
    fund_attempt instrument authority limits transfers =
        bind (lift (residuals_of (short_names [] parties.firms) transfers)) λ residuals.
          bind (allocations api.net parties none instrument authority residuals)
            λ allocs. submit_attempt limits allocs

    unfoldable pub propose_fraud : String → String → Run World Attempt
    propose_fraud instrument authority =
        bind (lift (fraud_of (net_positions (usd_obligations facts))))
          λ leg. fund_attempt instrument authority [] (leg ∷ [])

    -- What follows the answer to the creation of the limit.
    unfoldable pub breach_limit : String → String → List Transfer → Tree → Run World Attempt
    breach_limit instrument authority plan (tree_refused e) w = (some (limit_not_created e), w)
    breach_limit instrument authority plan (tree none) w = (none, w)
    breach_limit instrument authority plan (tree (some limit)) w =
        fund_attempt instrument authority (limit ∷ []) (map in_usd plan) w

    -- The limit for the parties of the largest leg, and the plan that breaches it.
    unfoldable pub seed_breach :
        String → String → List Transfer → Transfer × ℤ → List Residual → Run World Attempt
    seed_breach instrument authority plan breach [] w = (none, w)
    seed_breach instrument authority plan breach (r ∷ rs) w =
        let made = api.create_credit_limit r.sender r.receiver breach.1 w in
        breach_limit instrument authority plan made.0 made.1

    -- What follows the choice of the leg.
    unfoldable pub breach_leg :
        String → String → List Transfer → Option (Transfer × ℤ) → Run World Attempt
    breach_leg instrument authority plan none = return nets_to_zero
    breach_leg instrument authority plan (some breach) =
        bind (lift (residuals_of (short_names [] parties.firms) (in_usd breach.0 ∷ [])))
          (seed_breach instrument authority plan breach)

    unfoldable pub propose_breach : String → String → Run World Attempt
    propose_breach instrument authority =
        let plan = minimal_settlement (usd_obligations facts) "USD" in
        breach_leg instrument authority plan (breach_of plan)

  -- What both attempts do before they plan.
  unfoldable pub prepare_attempt :
      (List Contract → List Contract → String → String → Run World Attempt) → Run World Attempt
  prepare_attempt propose = bind api.query_book λ facts.
      if is_empty facts
      then return no_seeded_book
      else bind api.query_book λ rows. bind (instrument_cid api.net) λ instrument.
        bind (authority_cid api.net parties.operator) λ authority.
          bind (ensure_accounts api.net parties (involved facts))
            λ _. propose facts rows instrument authority

  unfoldable pub attempt_fraud : Run World Attempt
  attempt_fraud = prepare_attempt propose_fraud

  unfoldable pub attempt_credit_breach : Run World Attempt
  attempt_credit_breach = prepare_attempt propose_breach
