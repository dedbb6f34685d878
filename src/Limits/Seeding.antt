-- ===== src/Limits/Seeding.antt =====
-- The constraints that agent/limits.py creates on the ledger: `seed_limit`, `seed_agg_limit`,
-- `seed_fx_rate` and `seed_liquidity_floor`.
pub mod Loading
mod Examples
use tradeguard_canton.Prelude.{String, Option, none, some, List, [], ◌∷◌}
use tradeguard_canton.Prelude.Int.{ℤ}
use tradeguard_canton.Prelude.Keys.{str_dec}
use tradeguard_canton.Prelude.Dict.{Dict, lookup}
use tradeguard_canton.Prelude.Actions.{Run, lift, bind}
use tradeguard_canton.Limits.{Field, text, amount, parties, LedgerApi}

-- The answer to a transaction tree: an error, or the contract id found in it, if any.
pub data Created : Type 0 where
  create_refused : String → Created
  created : Option String → Created

pub record SeedApi (World : Type 0) : Type 0 where
  pub ledger : LedgerApi World
  -- template, payload, actors
  pub create_tree : String → Dict String Field → List String → World → Created × World

pub data Seeded : Type 0 where
  not_seeded : (error : String) → Seeded
  seeded : (cid : String) → Seeded

-- `[parties[k] for k in party_keys]`
unfoldable pub all_parties : Dict String String → List String → Option (List String)
all_parties known [] = some []
all_parties known (key ∷ keys) = elim (lookup str_dec key known) [
  | none ↦ none
  | some party ↦ elim (all_parties known keys) [ none ↦ none | some ps ↦ some (party ∷ ps) ]
]

module _ (operator : String) where
  abbrev pub limit_payload : String → String → ℤ → String → Dict String Field
  limit_payload frm to limit currency =
      ("operator", text operator)
      ∷ ("from", text frm)
      ∷ ("to", text to)
      ∷ ("currency", text currency)
      ∷ ("limit", amount limit)
      ∷ []

  abbrev pub agg_payload : String → ℤ → String → Dict String Field
  agg_payload party limit currency =
      ("operator", text operator)
      ∷ ("party", text party)
      ∷ ("currency", text currency)
      ∷ ("limit", amount limit)
      ∷ []

  abbrev pub fx_payload : String → String → ℤ → List String → Dict String Field
  fx_payload base quote rate signers =
      ("operator", text operator)
      ∷ ("base", text base)
      ∷ ("quote", text quote)
      ∷ ("rate", amount rate)
      ∷ ("parties", parties signers)
      ∷ []

  abbrev pub floor_payload : String → ℤ → String → Dict String Field
  floor_payload party floor currency =
      ("operator", text operator)
      ∷ ("party", text party)
      ∷ ("currency", text currency)
      ∷ ("floor", amount floor)
      ∷ []

-- What follows the answer; without a contract id in it, `_tree_created_cid` raises.
unfoldable pub seed_answer : Created → Option Seeded
seed_answer (create_refused e) = some (not_seeded e)
seed_answer (created none) = none
seed_answer (created (some cid)) = some (seeded cid)

module _ {World : Type 0} (api : SeedApi World) (known : Dict String String)
    (operator : String) where
  unfoldable pub create_constraint : String → Dict String Field → List String → Run World Seeded
  create_constraint template payload actors w =
      let answer = api.create_tree template payload actors w in (seed_answer answer.0, answer.1)

  -- `parties[key]`
  abbrev pub party_of : String → Run World String
  party_of key = lift (lookup str_dec key known)

  unfoldable pub seed_limit : String → String → ℤ → String → Run World Seeded
  seed_limit frm_key to_key limit currency = bind (party_of frm_key) λ frm.
      bind (party_of to_key) λ to.
        create_constraint "TradeGuard.Netting:CreditLimit"
          (limit_payload operator frm to limit currency) (frm ∷ operator ∷ [])

  unfoldable pub seed_agg_limit : String → ℤ → String → Run World Seeded
  seed_agg_limit key limit currency = bind (party_of key) λ party.
      create_constraint "TradeGuard.Netting:AggregateLimit"
        (agg_payload operator party limit currency) (party ∷ operator ∷ [])

  unfoldable pub seed_fx_rate : String → String → ℤ → List String → Run World Seeded
  seed_fx_rate base quote rate keys = bind (lift (all_parties known keys)) λ signers.
      create_constraint "TradeGuard.Netting:FXRate" (fx_payload operator base quote rate signers)
        (operator ∷ signers)

  unfoldable pub seed_liquidity_floor : String → ℤ → String → Run World Seeded
  seed_liquidity_floor key floor currency = bind (party_of key) λ party.
      create_constraint "TradeGuard.Netting:LiquidityFloor"
        (floor_payload operator party floor currency) (operator ∷ party ∷ [])
