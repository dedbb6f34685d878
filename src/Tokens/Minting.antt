-- ===== src/Tokens/Minting.antt =====
-- `mint_book` and `mint_book_multi`: each party's outflow, minted as holdings.
pub mod Covers
pub mod Held
use tradeguard_canton.Prelude.{
  ◌<>◌, ite, ℕ, String, Bool, true, false, ◌&&◌, Option, none, some, List, [], ◌∷◌, ◌++◌, map, keep,
  length, if◌then◌else◌,
}
use tradeguard_canton.Prelude.Int.{ℤ, pos, negsuc, ◌+ℤ◌, ltb_ℤ}
use tradeguard_canton.Prelude.Keys.{str_dec}
use tradeguard_canton.Prelude.Dict.{Dict, lookup, get_or, insert}
use tradeguard_canton.Prelude.Actions.{Run, return, lift, bind}
use tradeguard_canton.Netting.{
  Obligation, Transfer, NettingReport, minimal_settlement, netting_report,
}
use tradeguard_canton.Solver.Model.{same, member}
use tradeguard_canton.Solver.OneCurrency.{pair_dec, is_empty}
use tradeguard_canton.Limits.{last_of}
use tradeguard_canton.Tokens.{
  Holding, Leg, Funding, Created, refused, created, TokenApi, Payment, TokenError, no_holding,
  create_failed, execute_failed, unresolved, Opened, opened, not_opened, party_id, holding_cid_for,
  firm_ids, open_settlement,
}

-- `out[payer] = out.get(payer, 0.0) + amt`
unfoldable pub outflow : Dict String ℤ → List Payment → Dict String ℤ
outflow out [] = out
outflow out (r ∷ rs) =
    outflow (insert str_dec r.payer (get_or str_dec r.payer (pos 0) out +ℤ r.amount) out) rs

-- `out[(payer, inst)] = …`
unfoldable pub outflow_multi : Dict (String × String) ℤ → List Payment → Dict (String × String) ℤ
outflow_multi out [] = out
outflow_multi out (r ∷ rs) =
    let key : String × String = (r.payer, r.instrument) in
    outflow_multi (insert pair_dec key (get_or pair_dec key (pos 0) out +ℤ r.amount) out) rs

-- The rows `{party or label: "ok" or the error}` of `minted`.
abbrev pub Minted : Type 0
Minted = Dict String (Option String)

-- What is minted: its label, the party, the instrument and the amount.
pub record Minting : Type 0 where
  pub label : String
  pub party : String
  pub instrument : String
  pub amount : ℤ

unfoldable pub mintings : String → Dict String ℤ → List Minting
mintings instrument [] = []
mintings instrument ((key, amount) ∷ out) =
    record { label = key; party = key; instrument = instrument; amount = amount }
    ∷ mintings instrument out

-- `f"{party_key}/{inst}"`
unfoldable pub mintings_multi : Dict (String × String) ℤ → List Minting
mintings_multi [] = []
mintings_multi (((key, instrument), amount) ∷ out) =
    record {
      label = key <> ("/" <> instrument);
      party = key;
      instrument = instrument;
      amount = amount;
    }
    ∷ mintings_multi out

module _ {World : Type 0} (api : TokenApi World) (parties : Dict String String) where
  -- The loop of `mint_book` over `out.items()`.
  unfoldable pub mint_each : Minted → List Minting → Run World Minted
  mint_each minted [] = return minted
  mint_each minted (m ∷ ms) = bind (party_id parties m.party) λ owner w.
      let made = api.create_holding m.instrument owner m.amount w in
      mint_each (insert str_dec m.label made.0 minted) ms made.1

  -- `book` is what `book or DEMO_BOOK` comes to.
  unfoldable pub mint_book : String → List Payment → Run World Minted
  mint_book instrument book = mint_each [] (mintings instrument (outflow [] book))

  -- `book` is what `book or DEMO_BOOK_MULTI` comes to.
  unfoldable pub mint_book_multi : List Payment → Run World Minted
  mint_book_multi book = mint_each [] (mintings_multi (outflow_multi [] book))
