-- ===== src/Settling/Attempts/Submits.antt =====
-- What `attempt_credit_breach` has submitted when it reports that the ledger rejected it.
use tradeguard_canton.Prelude.{String, Bool, true, ◌≡◌, none, some, List, [], ◌∷◌, map, any}
use tradeguard_canton.Prelude.Int.{ℤ}
use tradeguard_canton.Prelude.Actions.{Run, bind}
use tradeguard_canton.Netting.{Transfer, minimal_settlement}
use tradeguard_canton.Netting.Settlement.{Settles}
use tradeguard_canton.Solver.Model.{SolvedTransfer}
use tradeguard_canton.Settling.{
  Contract, Residual, Allocation, tree, rejected, Parties, short_names,
}
use tradeguard_canton.Settling.Gates.{residuals_of}
use tradeguard_canton.Settling.Submitting.{involved, instrument_cid, authority_cid}
use tradeguard_canton.Settling.Running.{legs_of, ensure_accounts, allocations}
use tradeguard_canton.Settling.Currencies.Valued.{paid_by}
use tradeguard_canton.Settling.Attempts.{
  AttemptApi, Attempt, usd_obligations, in_usd, attempt_batch, propose_breach,
}
use tradeguard_canton.Settling.Attempts.Breaches.{exceeds}

module _ {World : Type 0} (api : AttemptApi World) (parties : Parties) (facts rows : List Contract)
    (batch_cid error : String) where
  -- From `start` on: the funding of each transfer, then a batch of them, and then its settlement,
  -- which the ledger answered with an error.
  pub record Tried (instrument authority : String) (limits : List String)
      (transfers : List SolvedTransfer) (start : World) : Type 0 where
    pub residuals : List Residual
    pub residuals_are : residuals_of (short_names [] parties.firms) transfers ≡ some residuals
    pub allocs : List Allocation
    pub funded :
        (allocations api.net parties none instrument authority residuals start).0 ≡ some allocs
    pub paid : map paid_by allocs ≡ residuals
    pub creating : World
    pub funded_before :
        creating ≡ (allocations api.net parties none instrument authority residuals start).1
    pub creation :
        (api.net.create_batch (attempt_batch facts rows (legs_of allocs) limits) creating).0
        ≡ tree (some batch_cid)
    pub settling : World
    pub created_before :
        settling
        ≡ (api.net.create_batch (attempt_batch facts rows (legs_of allocs) limits) creating).1
    pub ambiguous : Bool
    pub refusal :
        (api.net.settle_netting batch_cid allocs (parties.operator ∷ involved facts) settling).0
        ≡ rejected error ambiguous

-- A limit was created for two parties of the book, and then a plan was tried that settles the book
-- and exceeds it.
pub record Breached {World : Type 0} (api : AttemptApi World) (parties : Parties)
    (batch_cid error : String) : Type 0 where
  pub facts : List Contract
  pub rows : List Contract
  pub read_at : World
  pub book_read : (api.query_book read_at).0 ≡ some facts
  pub between : Residual
  pub others : List Residual
  pub cap : ℤ
  pub limit : String
  pub limiting : World
  pub limited :
      (api.create_credit_limit between.sender between.receiver cap limiting).0 ≡ tree (some limit)
  pub big : Transfer
  pub named :
      residuals_of (short_names [] parties.firms) (in_usd big ∷ []) ≡ some (between ∷ others)
  pub settles : Settles (usd_obligations facts) (minimal_settlement (usd_obligations facts) "USD")
  pub above :
      any (exceeds big.sender big.receiver cap) (minimal_settlement (usd_obligations facts) "USD")
      ≡ true
  pub instrument : String
  pub authority : String
  -- what was tried began where the limit had been created
  pub tried :
      Tried api parties facts rows batch_cid error instrument authority
        (limit ∷ [])
        (map in_usd (minimal_settlement (usd_obligations facts) "USD"))
        (api.create_credit_limit between.sender between.receiver cap limiting).1

module _ {World : Type 0} (api : AttemptApi World) (parties : Parties) (facts rows : List Contract)
    (batch_cid error instrument authority : String) where
  abbrev plan : List Transfer
  plan = minimal_settlement (usd_obligations facts) "USD"

module _ {World : Type 0} (api : AttemptApi World) (parties : Parties)
    (batch_cid error : String) where
  -- What follows the first query of the book.
  abbrev further : List Contract → Run World Attempt
  further facts = bind api.query_book λ rows. bind (instrument_cid api.net) λ instrument.
      bind (authority_cid api.net parties.operator) λ authority.
        bind (ensure_accounts api.net parties (involved facts))
          λ _. propose_breach api parties facts rows instrument authority
