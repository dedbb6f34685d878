-- ===== src/Settling/Submitting.antt =====
-- `settle_real` from its first write on: accounts, funding, the batch, and its settlement.
use tradeguard_canton.Prelude.{
  ℕ, String, Bool, ◌&&◌, Option, none, some, List, [], ◌∷◌, map, any, length, if◌then◌else◌,
}
use tradeguard_canton.Prelude.Int.{ℤ, pos, ◌+ℤ◌, ◌-ℤ◌, round_ratio}
use tradeguard_canton.Prelude.Keys.{str_dec, str_leb}
use tradeguard_canton.Prelude.Dict.{Dict, lookup, insert}
use tradeguard_canton.Prelude.Sorting.{sort}
use tradeguard_canton.Prelude.Actions.{Run, return, lift, bind}
use tradeguard_canton.Solver.Model.{same}
use tradeguard_canton.Solver.OneCurrency.{is_empty}
use tradeguard_canton.Solver.Maximal.{distinct}
use tradeguard_canton.Limits.{short, limit_cids, agg_limit_cids}
use tradeguard_canton.Settling.{
  Contract, Residual, NetLeg, Fact, Batch, NetApi, Parties, Refusal, same_lower,
}
use tradeguard_canton.Settling.Gates.{left_out}
use tradeguard_canton.Settling.Preparing.{Prepared}

-- `ACC`
abbrev pub account_ids : Dict String String
account_ids =
    ("firma", "A-cash")
    ∷ ("firmb", "B-cash")
    ∷ ("firmc", "C-cash")
    ∷ ("firmd", "D-cash")
    ∷ ("firme", "E-cash")
    ∷ []

-- `short2key`: the key of a party
unfoldable pub keys_by_party : Dict String String → Dict String String → Dict String String
keys_by_party keys [] = keys
keys_by_party keys ((key, party) ∷ firms) = keys_by_party (insert str_dec party key keys) firms

-- `ACC[short2key[party]]`
unfoldable pub account_of : Parties → String → Option String
account_of parties party = elim (lookup str_dec party (keys_by_party [] parties.firms)) [
  | none ↦ none
  | some key ↦ lookup str_dec key account_ids
]

-- `next(i["contractId"] for i in found if …)`
abbrev pub first_cid : String → List (String × String) → Option String
first_cid wanted [] = none
first_cid wanted ((cid, name) ∷ rest) =
    let later = first_cid wanted rest in if same name wanted then some cid else later

-- `fund`: the amount, or half of it for the party that is made to fail
unfoldable pub funding_of : Option String → Residual → ℤ
funding_of none r = r.amount
funding_of (some party) r =
    if same_lower (short r.sender) party then round_ratio r.amount (pos 2) else r.amount

abbrev pub facts_of : List Contract → List Fact
facts_of rows =
    map
      (λ (c : Contract). record {
        sender = c.payer;
        receiver = c.payee;
        amount = c.amount;
        currency = c.currency;
      })
      rows

abbrev pub cids_of : List Contract → List String
cids_of rows = map (λ (c : Contract). c.contract_id) rows

abbrev pub sides_of : List Contract → List String
sides_of [] = []
sides_of (c ∷ cs) = c.payer ∷ c.payee ∷ sides_of cs

-- `sorted(involved)`
unfoldable pub involved : List Contract → List String
involved rows = sort str_leb (distinct (sides_of rows))

-- `xs if xs else None`
abbrev pub or_none : List String → Option (List String)
or_none xs = if is_empty xs then none else some xs

unfoldable pub batch_of : Prepared → List NetLeg → Batch
batch_of p legs = record {
  obligations = cids_of p.settled_rows;
  facts = facts_of p.settled_rows;
  residual_legs = legs;
  parties = involved p.settled_rows;
  credit_limits = or_none (limit_cids p.ledger_limits);
  aggregate_limits = or_none (agg_limit_cids p.ledger_aggs);
}

abbrev pub owed : List Contract → ℤ
owed [] = pos 0
owed (c ∷ cs) = c.amount +ℤ owed cs

abbrev pub moved : List Residual → ℤ
moved [] = pos 0
moved (r ∷ rs) = r.amount +ℤ moved rs

pub record Receipt : Type 0 where
  pub gross : ℤ
  pub net : ℤ
  pub discharged : ℕ
  pub residuals : ℕ
  pub credit_limits_enforced : ℕ
  pub aggregate_limits_enforced : ℕ
  pub immature_excluded : ℕ
  pub failure_excluded : ℕ
  pub settled_obligations : ℕ
  pub deferred_obligations : ℕ
  pub settled_gross : ℤ
  pub deferred_gross : ℤ
  pub batch_cid : String
  pub approval_mark_error : Option String

pub data Settlement : Type 0 where
  refused : Refusal → Settlement
  batch_failed : String → Settlement
  -- the error, whether it is ambiguous, and the transfers that were planned
  settle_failed : String → Bool → List Residual → Settlement
  settled : Receipt → Settlement

unfoldable pub receipt : Prepared → String → Option String → Receipt
receipt p batch_cid mark_error = record {
  gross = owed p.rows;
  net = moved p.residuals;
  discharged = length p.settled_rows;
  residuals = length p.residuals;
  credit_limits_enforced = length p.ledger_limits;
  aggregate_limits_enforced = length p.ledger_aggs;
  immature_excluded = p.immature;
  failure_excluded = p.excluded;
  settled_obligations = length p.settle_set;
  deferred_obligations = length (left_out p.rows p.settle_set);
  settled_gross = owed p.settled_rows;
  deferred_gross = owed p.rows -ℤ owed p.settled_rows;
  batch_cid = batch_cid;
  approval_mark_error = mark_error;
}

module _ {World : Type 0} (api : NetApi World) where
  -- `_ensure_account`
  unfoldable pub ensure_account : String → String → Run World Unit
  ensure_account owner account = bind api.query_accounts λ accounts w.
      if any (λ (a : String × String). same a.0 owner && same a.1 account) accounts
      then (some tt, w)
      else (some tt, api.create_account owner account w)

  -- `_instrument_cid`, and the query that `settle_real` makes when it answers an empty id
  unfoldable pub instrument_cid : Run World String
  instrument_cid =
      bind api.query_instruments λ found. elim (first_cid "USD" found) [
        | some cid ↦ return cid
        | none ↦ api.create_instrument
      ]

  unfoldable pub resolve_instrument : Run World String
  resolve_instrument = bind instrument_cid λ cid.
      if same cid ""
      then bind api.query_instruments (λ found. lift (first_cid "USD" found))
      else return cid

  -- `_authority_cid`, and the query after it
  unfoldable pub authority_cid : String → Run World String
  authority_cid operator = bind api.query_authorities λ found. elim (first_cid operator found) [
    | some cid ↦ return cid
    | none ↦ api.create_authority
  ]

  unfoldable pub resolve_authority : String → Run World String
  resolve_authority operator = bind (authority_cid operator) λ cid.
      if same cid ""
      then bind api.query_authorities (λ found. lift (first_cid operator found))
      else return cid

  -- `_issue_and_lock`
  unfoldable pub issue_and_lock : String → String → String → ℤ → Run World String
  issue_and_lock instrument owner account amount =
      bind (api.issue instrument owner account amount) λ holding. api.lock holding owner
