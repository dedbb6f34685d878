-- ===== src/Netting.antt =====
-- agent/netting.py: multilateral netting. Amounts are whole cents (`ℤ`), so `round(x, 2)` returns
-- its argument, and the tests `v < -1e-9` and `v > 1e-9` are `v < 0` and `v > 0`.
pub mod Positions
pub mod Debts
pub mod Greedy
pub mod Settlement
pub mod Efficiency
pub mod Report
mod Examples
use tradeguard_canton.Prelude.{
  ℕ, zero, suc, ◌+◌, String, Bool, List, [], ◌∷◌, map, length, if◌then◌else◌,
}
use tradeguard_canton.Prelude.Int.{
  ℤ, pos, ◌+ℤ◌, ◌-ℤ◌, neg, ltb_ℤ, leb_ℤ, eqb_ℤ, min_ℤ, round_ratio, times_ℕ,
}
use tradeguard_canton.Prelude.Keys.{str_dec}
use tradeguard_canton.Prelude.Dict.{Dict, get_or, insert}
use tradeguard_canton.Prelude.Sorting.{sort}

pub record Obligation : Type 0 where
  pub payer : String
  pub payee : String
  pub amount : ℤ
  pub instrument : String

pub record Transfer : Type 0 where
  pub sender : String
  pub receiver : String
  pub amount : ℤ
  pub instrument : String

-- `sum(o.amount for o in obligations)`
unfoldable pub gross : List Obligation → ℤ
gross [] = pos 0
gross (o ∷ os) = o.amount +ℤ gross os

unfoldable pub transferred : List Transfer → ℤ
transferred [] = pos 0
transferred (t ∷ ts) = t.amount +ℤ transferred ts

-- The body of the loop of `net_positions`.
unfoldable pub post_obligation : Dict String ℤ → Obligation → Dict String ℤ
post_obligation net o =
    let debited = insert str_dec o.payer (get_or str_dec o.payer (pos 0) net -ℤ o.amount) net in
    insert str_dec o.payee (get_or str_dec o.payee (pos 0) debited +ℤ o.amount) debited

unfoldable pub post_all : Dict String ℤ → List Obligation → Dict String ℤ
post_all net [] = net
post_all net (o ∷ os) = post_all (post_obligation net o) os

unfoldable pub net_positions : List Obligation → Dict String ℤ
net_positions obligations = post_all [] obligations

-- The lists `[party, amount]` of `minimal_settlement`.
pub record Entry : Type 0 where
  pub party : String
  pub amount : ℤ

unfoldable pub owing : Dict String ℤ → List Entry
owing [] = []
owing ((p, v) ∷ d) =
    let rest = owing d in
    if ltb_ℤ v (pos 0) then record { party = p; amount = neg v } ∷ rest else rest

unfoldable pub due : Dict String ℤ → List Entry
due [] = []
due ((p, v) ∷ d) =
    let rest = due d in if ltb_ℤ (pos 0) v then record { party = p; amount = v } ∷ rest else rest

-- `sorted(…, key=lambda x: x[1], reverse=True)` keeps the order of equal amounts.
abbrev pub larger_first : Entry → Entry → Bool
larger_first x y = leb_ℤ y.amount x.amount

-- `pay[1] -= amt`, and `i += 1` when nothing is left.
abbrev pub advance : Entry → ℤ → List Entry → List Entry
advance e amt rest =
    let left = e.amount -ℤ amt in
    if leb_ℤ left (pos 0) then rest else record e { amount = left } ∷ rest

-- The `while` loop of `minimal_settlement`, on what is left of the two lists. Each round finishes
-- one list's head at least, so the number of entries is fuel enough (Greedy).
unfoldable pub match_greedily : ℕ → String → List Entry → List Entry → List Transfer
match_greedily zero instrument payers receivers = []
match_greedily (suc f) instrument [] receivers = []
match_greedily (suc f) instrument (pay ∷ payers) [] = []
match_greedily (suc f) instrument (pay ∷ payers) (rec ∷ receivers) =
    let amt = min_ℤ pay.amount rec.amount in
    let rest = match_greedily f instrument (advance pay amt payers) (advance rec amt receivers) in
    if ltb_ℤ (pos 0) amt
    then record { sender = pay.party; receiver = rec.party; amount = amt; instrument = instrument }
      ∷ rest
    else rest

unfoldable pub minimal_settlement : List Obligation → String → List Transfer
minimal_settlement obligations instrument =
    let net = net_positions obligations in
    let payers = sort larger_first (owing net) in
    let receivers = sort larger_first (due net) in
    match_greedily (length payers + length receivers) instrument payers receivers

-- `netting_report`, without the sentences of its rationale. The percentage is in tenths.
pub record NettingReport : Type 0 where
  pub instrument : String
  pub gross_obligations : ℕ
  pub gross_value : ℤ
  pub net_positions : Dict String ℤ
  pub residual_transfers : List Transfer
  pub residual_count : ℕ
  pub net_value : ℤ
  pub value_netted_out : ℤ
  pub netting_efficiency_pct : ℤ

unfoldable pub netting_report : List Obligation → String → NettingReport
netting_report obligations instrument =
    let gross_value = gross obligations in
    let residuals = minimal_settlement obligations instrument in
    let net_value = transferred residuals in
    let saved = gross_value -ℤ net_value in
    record {
      instrument = instrument;
      gross_obligations = length obligations;
      gross_value = gross_value;
      net_positions = net_positions obligations;
      residual_transfers = residuals;
      residual_count = length residuals;
      net_value = net_value;
      value_netted_out = saved;
      netting_efficiency_pct =
          if eqb_ℤ gross_value (pos 0) then pos 0 else round_ratio (times_ℕ 1000 saved) gross_value;
    }
