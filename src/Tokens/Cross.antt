-- ===== src/Tokens/Cross.antt =====
-- `settle_cross_token`: a book of several instruments, netted one by one, in one settlement.
pub mod Instruments
pub mod Settles
use tradeguard_canton.Prelude.{
  ◌<>◌, ite, ℕ, String, Bool, true, false, ◌&&◌, Option, none, some, List, [], ◌∷◌, ◌++◌, map, keep,
  length, if◌then◌else◌,
}
use tradeguard_canton.Prelude.Int.{ℤ, pos, negsuc, ◌+ℤ◌, ltb_ℤ}
use tradeguard_canton.Prelude.Keys.{str_dec}
use tradeguard_canton.Prelude.Dict.{Dict, lookup, get_or, insert}
use tradeguard_canton.Prelude.Actions.{Run, return, lift, bind}
use tradeguard_canton.Netting.{
  Obligation, Transfer, NettingReport, minimal_settlement, netting_report,
}
use tradeguard_canton.Solver.Model.{same, member}
use tradeguard_canton.Solver.OneCurrency.{pair_dec, is_empty}
use tradeguard_canton.Limits.{last_of}
use tradeguard_canton.Tokens.{
  Holding, Leg, Funding, Created, refused, created, TokenApi, Payment, TokenError, no_holding,
  create_failed, execute_failed, unresolved, Opened, opened, not_opened, leg_of, party_id,
  holding_cid_for, firm_ids, open_settlement,
}

pub data Funded : Type 0 where
  funded : List Funding → Funded
  not_funded : TokenError → Funded

abbrev pub add_funding : Funding → Funded → Funded
add_funding f (funded fs) = funded (f ∷ fs)
add_funding f (not_funded e) = not_funded e

-- The rows of an instrument, and the instruments in the order of their first rows.
unfoldable pub rows_in : String → List Payment → List Payment
rows_in instrument book = keep (λ (r : Payment). same r.instrument instrument) book

unfoldable pub instruments_of : List String → List Payment → List String
instruments_of seen [] = seen
instruments_of seen (r ∷ rs) =
    let known = instruments_of seen rs in
    let new = instruments_of (seen ++ r.instrument ∷ []) rs in
    if member r.instrument seen then known else new

-- What a settlement of several instruments answers of each.
pub record InstrumentSummary : Type 0 where
  pub gross_value : ℤ
  pub net_value : ℤ
  pub residual_count : ℕ
  pub netting_efficiency_pct : ℤ

abbrev pub summary_of : NettingReport → InstrumentSummary
summary_of report = record {
  gross_value = report.gross_value;
  net_value = report.net_value;
  residual_count = report.residual_count;
  netting_efficiency_pct = report.netting_efficiency_pct;
}

pub record CrossReport : Type 0 where
  pub instruments : List String
  pub report_by_instrument : Dict String InstrumentSummary
  pub total_gross : ℤ
  pub total_net : ℤ
  pub leg_count : ℕ
  pub settlement_cid : String

pub data CrossResult : Type 0 where
  nets_to_zero : Dict String InstrumentSummary → CrossResult
  failed : TokenError → CrossResult
  settled : CrossReport → CrossResult

-- `Obligation(…, instrument=inst) for (s, r, a, i) in book if i == inst`
unfoldable pub obligations_in : List Payment → String → List Obligation
obligations_in book instrument =
    map
      (λ (r : Payment). record {
        payer = r.payer;
        payee = r.payee;
        amount = r.amount;
        instrument = instrument;
      })
      (rows_in instrument book)

unfoldable pub residuals_in : List Payment → String → List Transfer
residuals_in book instrument = minimal_settlement (obligations_in book instrument) instrument

unfoldable pub reports_by : List Payment → List String → Dict String InstrumentSummary
reports_by book instruments =
    map (λ i. (i, summary_of (netting_report (obligations_in book i) i))) instruments

abbrev pub gross_sum : Dict String InstrumentSummary → ℤ
gross_sum [] = pos 0
gross_sum ((_, s) ∷ d) = s.gross_value +ℤ gross_sum d

abbrev pub net_sum : Dict String InstrumentSummary → ℤ
net_sum [] = pos 0
net_sum ((_, s) ∷ d) = s.net_value +ℤ net_sum d

-- `a == b` on keys `(sender, instrument)`
abbrev pub same_key : String × String → String × String → Bool
same_key a b = ite (pair_dec a b) true false

-- `key in seen`
abbrev pub seen_key : String × String → List (String × String) → Bool
seen_key key [] = false
seen_key key (k ∷ ks) = if same_key key k then true else seen_key key ks

module _ {World : Type 0} (parties : Dict String String) where
  -- The legs of one instrument's residual transfers, and of all instruments.
  unfoldable pub legs_for : String → List Transfer → Run World (List Leg)
  legs_for instrument [] = return []
  legs_for instrument (t ∷ ts) = bind (party_id parties t.sender) λ sender.
      bind (party_id parties t.receiver) λ receiver.
        bind (legs_for instrument ts) λ legs. return (leg_of t instrument sender receiver ∷ legs)

  unfoldable pub all_legs : List Payment → List String → Run World (List Leg)
  all_legs book [] = return []
  all_legs book (i ∷ is) =
      bind (legs_for i (residuals_in book i))
        λ legs. bind (all_legs book is) λ rest. return (legs ++ rest)

module _ {World : Type 0} (api : TokenApi World) where
  -- One holding per distinct (sender, instrument), with the keys seen so far.
  unfoldable pub fund_each : List (String × String) → List Leg → Run World Funded
  fund_each seen [] = return (funded [])
  fund_each seen (leg ∷ legs) =
      let key : String × String = (leg.sender, leg.instrument) in
      elim (seen_key key seen) [
        | true ↦ fund_each seen legs
        | false ↦ bind (holding_cid_for api leg.sender leg.instrument) λ holding. elim holding [
          | none ↦ return (not_funded (no_holding leg.sender leg.instrument))
          | some cid ↦ bind (fund_each (key ∷ seen) legs) λ rest. return (
              add_funding
                (record { sender = leg.sender; instrument = leg.instrument; holding = cid }) rest)
        ]
      ]

unfoldable pub cross_report :
    List String → Dict String InstrumentSummary → List Leg → String → CrossReport
cross_report instruments reports legs cid = record {
  instruments = instruments;
  report_by_instrument = reports;
  total_gross = gross_sum reports;
  total_net = net_sum reports;
  leg_count = length legs;
  settlement_cid = cid;
}

module _ {World : Type 0} (api : TokenApi World) (parties : Dict String String) where
  -- The execution of the settlement that was opened.
  unfoldable pub execute_opened :
      List String
      → Dict String InstrumentSummary
      → List Leg
      → List Funding
      → Opened
      → Run World CrossResult
  execute_opened instruments reports legs funding (not_opened e) w = (some (failed e), w)
  execute_opened instruments reports legs funding (opened cid) w =
      let done = api.execute_multi cid funding w in
      (
        some (elim done.0 [
          | none ↦ settled (cross_report instruments reports legs cid)
          | some e ↦ failed (execute_failed e)
        ]),
        done.1,
      )

  -- `settle_cross_token` once its legs are funded.
  unfoldable pub settle_funded :
      List String → Dict String InstrumentSummary → List Leg → Funded → Run World CrossResult
  settle_funded instruments reports legs (not_funded e) = return (failed e)
  settle_funded instruments reports legs (funded funding) = bind (firm_ids parties) λ ids.
      bind (open_settlement api "cross-token" legs ids)
        (execute_opened instruments reports legs funding)

  unfoldable pub settle_legs :
      List String → Dict String InstrumentSummary → List Leg → Run World CrossResult
  settle_legs instruments reports legs =
      if is_empty legs
      then return (nets_to_zero reports)
      else bind (fund_each api [] legs) (settle_funded instruments reports legs)

  -- `book` is what `book or DEMO_BOOK_MULTI` comes to.
  unfoldable pub settle_cross_token : List Payment → Run World CrossResult
  settle_cross_token book =
      let instruments = instruments_of [] book in
      bind (all_legs parties book instruments)
        (settle_legs instruments (reports_by book instruments))
