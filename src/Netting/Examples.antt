-- ===== src/Netting/Examples.antt =====
-- The book of agent/test_netting.py's first test, and the theorems of the netting modules at it.
use tradeguard_canton.Prelude.{String, ◌≡◌, refl, List, [], ◌∷◌, All, arith, ◌≤◌, ◌-◌, length}
use tradeguard_canton.Prelude.Int.{ℤ, pos, ◌+ℤ◌, ◌-ℤ◌, ◌≤ℤ◌, neg, min_ℤ}
use tradeguard_canton.Prelude.Keys.{str_dec}
use tradeguard_canton.Prelude.Sorting.{sort}
use tradeguard_canton.Prelude.Dict.{get_or}
use tradeguard_canton.Netting.{
  Obligation, Transfer, net_positions, post_all, post_obligation, minimal_settlement,
  match_greedily, owing, due, netting_report, gross, transferred,
}
use tradeguard_canton.Netting.Positions.{position, net_positions-position}
use tradeguard_canton.Netting.Greedy.{Joins}
use tradeguard_canton.Netting.Settlement.{
  IsNetPayer, IsNetReceiver, Settles, minimal_settlement-Settles, minimal_settlement-Joins,
  length-minimal_settlement-le,
}
use tradeguard_canton.Netting.Efficiency.{IsOwed, minimal_settlement_efficient}
use tradeguard_canton.Netting.Report.{IsConsistent, netting_report-IsConsistent}

abbrev owes : String → ℤ → String → Obligation
owes payer amount payee = record {
  payer = payer;
  payee = payee;
  amount = amount;
  instrument = "USD";
}

-- A owes B 100, B owes C 100, C owes A 80, A owes C 50 and C owes B 30, in cents.
abbrev book : List Obligation
book =
    owes "A" (pos 10000) "B"
    ∷ owes "B" (pos 10000) "C"
    ∷ owes "C" (pos 8000) "A"
    ∷ owes "A" (pos 5000) "C"
    ∷ owes "C" (pos 3000) "B"
    ∷ []

abbrev pays : String → ℤ → String → Transfer
pays sender amount receiver = record {
  sender = sender;
  receiver = receiver;
  amount = amount;
  instrument = "USD";
}

minimal_settlement-book :
    minimal_settlement book "USD" ≡ pays "A" (pos 4000) "C" ∷ pays "A" (pos 3000) "B" ∷ []
unfolding minimal_settlement match_greedily sort owing due net_positions post_all post_obligation
    str_dec ◌+ℤ◌ ◌-ℤ◌ neg min_ℤ
minimal_settlement-book = refl

net_positions-position_example : get_or str_dec "A" (pos 0) (net_positions book) ≡ position "A" book
net_positions-position_example = net_positions-position book "A"

minimal_settlement-Settles_example : Settles book (minimal_settlement book "USD")
minimal_settlement-Settles_example = minimal_settlement-Settles book "USD"

minimal_settlement-Joins_example :
    All (Joins (IsNetPayer book) (IsNetReceiver book) "USD") (minimal_settlement book "USD")
minimal_settlement-Joins_example = minimal_settlement-Joins book "USD"

length-minimal_settlement-le_example :
    length (minimal_settlement book "USD") ≤ length (net_positions book) - 1
length-minimal_settlement-le_example = length-minimal_settlement-le book "USD"

book-IsOwed : All IsOwed book
book-IsOwed = omega arith

minimal_settlement_efficient_example :
    (transferred (minimal_settlement book "USD") ≤ℤ gross book)
    × (pos 0 ≤ℤ transferred (minimal_settlement book "USD"))
minimal_settlement_efficient_example = minimal_settlement_efficient book "USD" book-IsOwed

netting_report-IsConsistent_example :
    IsConsistent (netting_report book "USD")
    × ((netting_report book "USD").gross_value ≡ gross book)
    × ((netting_report book "USD").net_value ≡ transferred (minimal_settlement book "USD"))
netting_report-IsConsistent_example = netting_report-IsConsistent book "USD" book-IsOwed
