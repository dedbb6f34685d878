-- ===== src/Reasoner/Examples.antt =====
-- A delivery of a bond against cash, at each of the three decisions.
use tradeguard_canton.Prelude.{true, ◌≡◌, refl, some, List, [], ◌∷◌, ◌++◌}
use tradeguard_canton.Prelude.Int.{pos}
use tradeguard_canton.Prelude.Keys.{str_dec}
use mathlib.Core.Logic.{◌↔◌}
use tradeguard_canton.Reasoner.{
  settle, wait, cancel, decided, plain, wrapped, Leg, AcceptedTrade, Attestation, evaluate_trade,
  legs_of, norm_opt,
}
use tradeguard_canton.Reasoner.Decisions.{IsSwap, IsAttested, evaluate_trade-decision}
use tradeguard_canton.Reasoner.Rationale.{check_lines, evaluate_trade-rationale}

abbrev bond : Leg
bond = record { sender = "seller"; receiver = "buyer"; amount = some (pos 100) }

abbrev cash : Leg
cash = record { sender = "buyer"; receiver = "seller"; amount = some (pos 9900) }

abbrev trade : AcceptedTrade
trade = record { trade_id = wrapped (some "T1") "{'unpack': 'T1'}"; legs = some (bond ∷ cash ∷ []) }

abbrev seen : List Attestation
seen = record { trade_id = some (plain "T1") } ∷ []

settles : (evaluate_trade trade seen true).decision ≡ settle
unfolding evaluate_trade str_dec norm_opt
settles = refl

waits : (evaluate_trade trade [] true).decision ≡ wait
unfolding evaluate_trade str_dec norm_opt
waits = refl

cancels : (evaluate_trade (record trade { legs = some (bond ∷ []) }) seen true).decision ≡ cancel
unfolding evaluate_trade str_dec norm_opt
cancels = refl

evaluate_trade-decision_example :
    let decision = (evaluate_trade trade seen true).decision in
    ((decision ≡ settle) ↔ (IsSwap (legs_of trade.legs) × IsAttested trade seen true))
    × ((decision ≡ wait) ↔ (IsSwap (legs_of trade.legs) × ¬ IsAttested trade seen true))
    × ((decision ≡ cancel) ↔ (¬ IsSwap (legs_of trade.legs)))
evaluate_trade-decision_example = evaluate_trade-decision trade seen true

evaluate_trade-rationale_example :
    let r = evaluate_trade trade seen true in
    r.rationale ≡ check_lines r.checks ++ decided r.decision ∷ []
evaluate_trade-rationale_example = evaluate_trade-rationale trade seen true
