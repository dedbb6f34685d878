-- ===== src/Tokens.antt =====
-- agent/token_settle.py: a book is netted, and its residual legs settle as token transfers, each
-- sender funding its legs by one holding. The ledger client is the interface `TokenApi`.
pub mod Holdings
pub mod Legs
pub mod Minting
pub mod Threaded
pub mod Cross
mod Examples
use tradeguard_canton.Prelude.{
  ℕ, String, Bool, true, false, ◌&&◌, Option, none, some, List, [], ◌∷◌, ◌++◌, map, keep, length,
  if◌then◌else◌,
}
use tradeguard_canton.Prelude.Int.{ℤ, pos, negsuc, ◌+ℤ◌, ltb_ℤ}
use tradeguard_canton.Prelude.Keys.{str_dec}
use tradeguard_canton.Prelude.Dict.{Dict, lookup, get_or, insert}
use tradeguard_canton.Prelude.Actions.{Run, return, lift, bind}
use tradeguard_canton.Netting.{
  Obligation, Transfer, NettingReport, minimal_settlement, netting_report,
}
use tradeguard_canton.Solver.Model.{same, member}
use tradeguard_canton.Solver.OneCurrency.{pair_dec, is_empty}
use tradeguard_canton.Limits.{last_of}

-- A `TGHolding` contract.
pub record Holding : Type 0 where
  pub contract_id : String
  pub owner : String
  pub instrument : String
  pub amount : ℤ

-- A leg of the settlement, between party ids.
pub record Leg : Type 0 where
  pub sender : String
  pub receiver : String
  pub amount : ℤ
  pub instrument : String

-- A holding that funds the legs of a sender in an instrument.
pub record Funding : Type 0 where
  pub sender : String
  pub instrument : String
  pub holding : String

-- The answer to a creation: refused, or with the contract id that `_created_cid` finds in it.
pub data Created : Type 0 where
  refused : String → Created
  created : Option String → Created

-- A query raises (`none`) when the network fails; an exercise answers with its error, if any.
pub record TokenApi (World : Type 0) : Type 0 where
  pub query_holdings : World → Option (List Holding) × World
  -- instrument, owner, amount
  pub create_holding : String → String → ℤ → World → Option String × World
  pub create_settlement : String → List Leg → List String → World → Created × World
  pub query_settlements : World → Option (List String) × World
  pub execute_threaded : String → Dict String String → World → Option String × World
  pub execute_multi : String → List Funding → World → Option String × World

-- A row of a book: `(payer, payee, amount)`, and with an instrument in a book of several.
pub record Payment : Type 0 where
  pub payer : String
  pub payee : String
  pub amount : ℤ
  pub instrument : String

-- The loop of `_holding_cid_for`, with the best holding so far and its amount, at first -1.0.
unfoldable pub largest : String → String → Option String → ℤ → List Holding → Option String
largest party instrument best best_amt [] = best
largest party instrument best best_amt (h ∷ hs) =
    let better = largest party instrument (some h.contract_id) h.amount hs in
    let rest = largest party instrument best best_amt hs in
    if (same h.owner party && same h.instrument instrument) && ltb_ℤ best_amt h.amount
    then better
    else rest

-- `-1.0`, in cents
abbrev pub minus_one : ℤ
minus_one = negsuc 99

pub data TokenError : Type 0 where
  no_holding : (sender instrument : String) → TokenError
  create_failed execute_failed : String → TokenError
  unresolved : TokenError

pub data Opened : Type 0 where
  opened : String → Opened
  not_opened : TokenError → Opened

abbrev pub leg_of : Transfer → String → String → String → Leg
leg_of t instrument sender receiver = record {
  sender = sender;
  receiver = receiver;
  amount = t.amount;
  instrument = instrument;
}

module _ {World : Type 0} (parties : Dict String String) where
  -- `p[key]`, which raises on an unknown key
  abbrev pub party_id : String → Run World String
  party_id key = lift (lookup str_dec key parties)

  -- `[p[k] for k in ("firma", "firmb", "firmc")]`
  unfoldable pub firm_ids : Run World (List String)
  firm_ids =
      bind (party_id "firma")
        λ a. bind (party_id "firmb") λ b. bind (party_id "firmc") λ c. return (a ∷ b ∷ c ∷ [])

module _ {World : Type 0} (api : TokenApi World) where
  unfoldable pub holding_cid_for : String → String → Run World (Option String)
  holding_cid_for party instrument =
      bind api.query_holdings λ hs. return (largest party instrument none minus_one hs)

  -- The settlement is created, and found by a query when the answer does not name it.
  unfoldable pub open_settlement : String → List Leg → List String → Run World Opened
  open_settlement reference legs ids w =
      let made = api.create_settlement reference legs ids w in
      elim made.0 [
        | refused e ↦ (some (not_opened (create_failed e)), made.1)
        | created (some cid) ↦ (some (opened cid), made.1)
        | created none ↦
            bind api.query_settlements
              (λ found.
                return
                  (elim (last_of found) [ none ↦ not_opened unresolved | some cid ↦ opened cid ]))
              made.1
      ]
