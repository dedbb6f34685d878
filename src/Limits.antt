-- ===== src/Limits.antt =====
-- agent/limits.py: the constraints on the ledger, read for the solver, named for a batch, and
-- cleared. The ledger client is the interface `LedgerApi`: `query` is the strict query, which
-- raises (`none`) when it is refused, and `exercise` answers with the error that `_err` finds.
pub mod Verdict
pub mod Clearing
pub mod Sharing
pub mod Rates
pub mod Seeding
mod Examples
use Prim.Native.String.{slice, find}
use tradeguard_canton.Prelude.{
  ℕ, String, Bool, true, false, not, Option, none, some, List, [], ◌∷◌, ◌++◌, map, keep, length,
  if◌then◌else◌,
}
use tradeguard_canton.Prelude.Int.{ℤ}
use tradeguard_canton.Prelude.Keys.{str_dec, str_leb}
use tradeguard_canton.Prelude.Dict.{Dict, lookup, get_or}
use tradeguard_canton.Prelude.Sorting.{sort}
use tradeguard_canton.Solver.Model.{CreditLimit, AggLimit, member}
use tradeguard_canton.Solver.OneCurrency.{is_empty}
use tradeguard_canton.Solver.Maximal.{distinct}

-- An entry of a contract's payload; an amount stands for the number that its text writes.
pub data Field : Type 0 where
  text : String → Field
  amount : ℤ → Field
  parties : List String → Field

pub record Contract : Type 0 where
  pub contract_id : String
  pub payload : Dict String Field

pub record LedgerApi (World : Type 0) : Type 0 where
  pub query : String → World → Option (List Contract) × World
  -- template, contract id, choice, actors
  pub exercise : String → String → String → List String → World → Option String × World

-- `party.split("::")[0]`
unfoldable pub short : String → String
short party = slice party 0 (find party "::")

pub data ClearError : Type 0 where
  initial_query_failed final_query_failed still_active : ClearError
  archive_failed : (cid error : String) → ClearError

-- The answer of `_clear_verified`.
pub record Cleared : Type 0 where
  pub ok : Bool
  pub cleared : ℕ
  pub failed_refs : List String
  pub last_error : Option ClearError
  pub errors : List ClearError

abbrev pub ids_of : List Contract → List String
ids_of cs = map (λ (c : Contract). c.contract_id) cs

-- `errors[-1] if errors else None`
abbrev pub last_of {ℓ} : {A : Type ℓ} → List A → Option A
last_of [] = none
last_of (x ∷ xs) = elim (last_of xs) [ none ↦ some x | some y ↦ some y ]

-- The answer when both queries came back.
unfoldable pub verdict : List Contract → List Contract → List ClearError → Cleared
verdict initial final errors =
    let final_ids = ids_of final in
    let named =
      if is_empty final then errors else if is_empty errors then still_active ∷ [] else errors in
    record {
      ok = is_empty final;
      cleared = length (keep (λ (c : Contract). not (member c.contract_id final_ids)) initial);
      failed_refs = sort str_leb (distinct final_ids);
      last_error = last_of named;
      errors = named;
    }

-- The answers when a query is refused.
abbrev pub unread : List ClearError → Cleared
unread errors = record {
  ok = false;
  cleared = 0;
  failed_refs = [];
  last_error = last_of errors;
  errors = errors;
}

module _ {World : Type 0} (api : LedgerApi World) (template : String)
    (actors_for : Contract → List String) where
  unfoldable pub archive_each : List Contract → World → List ClearError × World
  archive_each [] w = ([], w)
  archive_each (c ∷ cs) w =
      let result = api.exercise template c.contract_id "Archive" (actors_for c) w in
      let rest = archive_each cs result.1 in
      (elim result.0 [ none ↦ rest.0 | some e ↦ archive_failed c.contract_id e ∷ rest.0 ], rest.1)

  -- What follows the initial query.
  unfoldable pub clear_all_of : List Contract → World → Cleared × World
  clear_all_of initial w =
      let archived = archive_each initial w in
      let final = api.query template archived.1 in
      elim final.0 [
        | none ↦ (unread (archived.0 ++ final_query_failed ∷ []), final.1)
        | some left ↦ (verdict initial left archived.0, final.1)
      ]

  unfoldable pub clear_verified : World → Cleared × World
  clear_verified w =
      let initial = api.query template w in
      elim initial.0 [
        | none ↦ (unread (initial_query_failed ∷ []), initial.1)
        | some cs ↦ clear_all_of cs initial.1
      ]

pub record LedgerLimit : Type 0 where
  pub cid : String
  pub frm : String
  pub to : String
  pub currency : String
  pub limit : ℤ

pub record LedgerAggLimit : Type 0 where
  pub cid : String
  pub party : String
  pub currency : String
  pub limit : ℤ

-- `pl[key]` of a text and of a number, which raise (`none`) when it is not there
abbrev pub text_at : String → Dict String Field → Option String
text_at key pl = elim (lookup str_dec key pl) [ some (text s) ↦ some s | _ ↦ none ]

abbrev pub amount_at : String → Dict String Field → Option ℤ
amount_at key pl = elim (lookup str_dec key pl) [ some (amount x) ↦ some x | _ ↦ none ]

-- `pl.get("currency", "USD")`
abbrev pub currency_of : Dict String Field → String
currency_of pl = elim (text_at "currency" pl) [ some s ↦ s | none ↦ "USD" ]

unfoldable pub read_limit : Contract → Option LedgerLimit
read_limit c = elim (text_at "from" c.payload) [
  | none ↦ none
  | some frm ↦ elim (text_at "to" c.payload) [
    | none ↦ none
    | some to ↦ elim (amount_at "limit" c.payload) [
      | none ↦ none
      | some limit ↦ some (record {
        cid = c.contract_id;
        frm = frm;
        to = to;
        currency = currency_of c.payload;
        limit = limit;
      })
    ]
  ]
]

unfoldable pub read_agg_limit : Contract → Option LedgerAggLimit
read_agg_limit c = elim (text_at "party" c.payload) [
  | none ↦ none
  | some party ↦ elim (amount_at "limit" c.payload) [
    | none ↦ none
    | some limit ↦ some (record {
      cid = c.contract_id;
      party = party;
      currency = currency_of c.payload;
      limit = limit;
    })
  ]
]

-- A loop that appends what it reads of each row, and raises with the first that cannot be read.
abbrev pub read_all {ℓ} : {A B : Type ℓ} → (A → Option B) → List A → Option (List B)
read_all read [] = some []
read_all read (x ∷ xs) = elim (read x) [
  | none ↦ none
  | some y ↦ elim (read_all read xs) [ none ↦ none | some ys ↦ some (y ∷ ys) ]
]

module _ {World : Type 0} (api : LedgerApi World) where
  unfoldable pub load_limits : World → Option (List LedgerLimit) × World
  load_limits w =
      let rows = api.query "TradeGuard.Netting:CreditLimit" w in
      (elim rows.0 [ none ↦ none | some cs ↦ read_all read_limit cs ], rows.1)

  unfoldable pub load_agg_limits : World → Option (List LedgerAggLimit) × World
  load_agg_limits w =
      let rows = api.query "TradeGuard.Netting:AggregateLimit" w in
      (elim rows.0 [ none ↦ none | some cs ↦ read_all read_agg_limit cs ], rows.1)

unfoldable pub to_solver_limits : List LedgerLimit → List CreditLimit
to_solver_limits ls =
    map
      (λ (l : LedgerLimit). record {
        frm = short l.frm;
        to = short l.to;
        limit = l.limit;
        currency = l.currency;
      })
      ls

unfoldable pub limit_cids : List LedgerLimit → List String
limit_cids ls = map (λ (l : LedgerLimit). l.cid) ls

unfoldable pub to_solver_agg_limits : List LedgerAggLimit → List AggLimit
to_solver_agg_limits ls =
    map
      (λ (l : LedgerAggLimit). record {
        party = short l.party;
        limit = l.limit;
        currency = l.currency;
      })
      ls

unfoldable pub agg_limit_cids : List LedgerAggLimit → List String
agg_limit_cids ls = map (λ (l : LedgerAggLimit). l.cid) ls

pub record LedgerFxRate : Type 0 where
  pub cid : String
  pub base : String
  pub quote : String
  pub rate : ℤ
  pub signers : List String

pub record LedgerFloor : Type 0 where
  pub cid : String
  pub party : String
  pub currency : String
  pub floor : ℤ

-- `[kv[0] for kv in pmap.get("map", [])]`
abbrev pub signers_of : Contract → List String
signers_of c = elim (lookup str_dec "parties" c.payload) [ some (parties ps) ↦ ps | _ ↦ [] ]

-- A rate is carried as the number that its contract writes, whatever its unit.
unfoldable pub read_fx_rate : Contract → Option LedgerFxRate
read_fx_rate c = elim (text_at "base" c.payload) [
  | none ↦ none
  | some base ↦ elim (text_at "quote" c.payload) [
    | none ↦ none
    | some quote ↦ elim (amount_at "rate" c.payload) [
      | none ↦ none
      | some rate ↦ some (record {
        cid = c.contract_id;
        base = base;
        quote = quote;
        rate = rate;
        signers = signers_of c;
      })
    ]
  ]
]

unfoldable pub read_floor : Contract → Option LedgerFloor
read_floor c = elim (text_at "party" c.payload) [
  | none ↦ none
  | some party ↦ elim (amount_at "floor" c.payload) [
    | none ↦ none
    | some floor ↦ some (record {
      cid = c.contract_id;
      party = party;
      currency = currency_of c.payload;
      floor = floor;
    })
  ]
]

module _ {World : Type 0} (api : LedgerApi World) where
  unfoldable pub load_fx_rates : World → Option (List LedgerFxRate) × World
  load_fx_rates w =
      let rows = api.query "TradeGuard.Netting:FXRate" w in
      (elim rows.0 [ none ↦ none | some cs ↦ read_all read_fx_rate cs ], rows.1)

  unfoldable pub load_liquidity_floors : World → Option (List LedgerFloor) × World
  load_liquidity_floors w =
      let rows = api.query "TradeGuard.Netting:LiquidityFloor" w in
      (elim rows.0 [ none ↦ none | some cs ↦ read_all read_floor cs ], rows.1)

unfoldable pub fx_rate_cids : List LedgerFxRate → List String
fx_rate_cids rates = map (λ (r : LedgerFxRate). r.cid) rates

unfoldable pub fx_triples : List LedgerFxRate → List (String × String × ℤ)
fx_triples rates = map (λ (r : LedgerFxRate). (r.base, r.quote, r.rate)) rates

unfoldable pub floor_cids : List LedgerFloor → List String
floor_cids floors = map (λ (f : LedgerFloor). f.cid) floors

-- A party of a payload; every contract of the template has the entry.
abbrev party_at : String → Contract → String
party_at key c = elim (text_at key c.payload) [ some s ↦ s | none ↦ "" ]

module _ {World : Type 0} (api : LedgerApi World) (operator : String) where
  unfoldable pub clear_limits : World → Cleared × World
  clear_limits w =
      clear_verified api "TradeGuard.Netting:CreditLimit" (λ c. party_at "from" c ∷ operator ∷ []) w

  unfoldable pub clear_agg_limits : World → Cleared × World
  clear_agg_limits w =
      clear_verified api "TradeGuard.Netting:AggregateLimit"
        (λ c. party_at "party" c ∷ operator ∷ []) w

  unfoldable pub clear_fx_rates : World → Cleared × World
  clear_fx_rates w = clear_verified api "TradeGuard.Netting:FXRate" (λ c. operator ∷ signers_of c) w

  unfoldable pub clear_liquidity_floors : World → Cleared × World
  clear_liquidity_floors w =
      clear_verified api "TradeGuard.Netting:LiquidityFloor"
        (λ c. operator ∷ party_at "party" c ∷ []) w

  pub record AllCleared : Type 0 where
    pub credit_limits : Cleared
    pub aggregate_limits : Cleared
    pub fx_rates : Cleared
    pub liquidity_floors : Cleared

  unfoldable pub clear_all : World → AllCleared × World
  clear_all w =
      let a = clear_limits w in
      let b = clear_agg_limits a.1 in
      let c = clear_fx_rates b.1 in
      let d = clear_liquidity_floors c.1 in
      (
        record {
          credit_limits = a.0;
          aggregate_limits = b.0;
          fx_rates = c.0;
          liquidity_floors = d.0;
        },
        d.1,
      )
