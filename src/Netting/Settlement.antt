-- ===== src/Netting/Settlement.antt =====
-- `minimal_settlement` settles the book: every party's net position moves, and nothing else.
use tradeguard_canton.Prelude.{
  ℕ, ◌+◌, ◌-◌, ◌≤◌, All-map, String, ◌≡◌, sym, ◌∙◌, List, [], ◌∷◌, arith, All, length, ap,
}
use tradeguard_canton.Prelude.Int.{ℤ, pos, ◌<ℤ◌, pos_part, neg_part}
use tradeguard_canton.Prelude.Keys.{str_dec}
use tradeguard_canton.Prelude.Dict.{Dict, items-get_or}
use tradeguard_canton.Prelude.Sorting.{sort, All-sort, length-sort}
use tradeguard_canton.Netting.{
  Obligation, Transfer, Entry, larger_first, net_positions, owing, due, minimal_settlement,
  transferred,
}
use tradeguard_canton.Netting.Positions.{
  at, position, net_positions-position, net_positions-IsUnique,
}
use tradeguard_canton.Netting.Debts.{
  IsPositive, amount_of-owing, amount_of-due, amount_of-sort, total-sort, total-owing, total-due,
  owing-IsPositive, due-IsPositive, net_positions_level, length-owing-due-le, debt,
}
use tradeguard_canton.Netting.Greedy.{
  sent, received, IsBalanced, match_greedily_lem, transferred-match_greedily, Joins,
  match_greedily-Joins, length-match_greedily-le,
}

module _ (os : List Obligation) where
  abbrev payers : List Entry
  payers = sort larger_first (owing (net_positions os))

  abbrev receivers : List Entry
  receivers = sort larger_first (due (net_positions os))

  abbrev fuel : ℕ
  fuel = length payers + length receivers

  pub sides-IsBalanced : IsBalanced payers receivers
  sides-IsBalanced = record {
    payers_positive = All-sort larger_first IsPositive _ (owing-IsPositive (net_positions os));
    receivers_positive = All-sort larger_first IsPositive _ (due-IsPositive (net_positions os));
    level = rw (
      total-sort (owing (net_positions os)),
      total-sort (due (net_positions os)),
      total-owing (net_positions os),
      total-due (net_positions os),
      net_positions_level os,
    );
  }

-- What a plan for a book promises: each party sends what it owes on balance, and receives what it
-- is owed on balance.
pub record Settles (obligations : List Obligation) (transfers : List Transfer) : Type 0 where
  pub pays : (p : String) → sent p transfers ≡ pos (neg_part (position p obligations))
  pub is_paid : (p : String) → received p transfers ≡ pos (pos_part (position p obligations))

-- The greedy transfers settle the book, whatever obligations it holds.
pub minimal_settlement-Settles :
    (obligations : List Obligation) (instrument : String)
    → Settles obligations (minimal_settlement obligations instrument)
unfolding minimal_settlement
minimal_settlement-Settles os i =
    let net = net_positions os in
    let unique = net_positions-IsUnique os in
    let moved = λ (p : String).
      match_greedily_lem (fuel os) i (payers os) (receivers os) p (omega arith)
        (sides-IsBalanced os) in
    record {
      pays = λ p.
          (moved p).0
          ∙ amount_of-sort p (owing net)
          ∙ amount_of-owing p net unique
          ∙ ap (λ x. pos (neg_part x)) (net_positions-position os p);
      is_paid = λ p.
          (moved p).1
          ∙ amount_of-sort p (due net)
          ∙ amount_of-due p net unique
          ∙ ap (λ x. pos (pos_part x)) (net_positions-position os p);
    }

-- A table's entries stand on the side of their position.
owing_side :
    (R : String → Type 0) (d : Dict String ℤ)
    → All (λ (e : String × ℤ). e.1 <ℤ pos 0 → R e.0) d
    → All (λ e. R e.party) (owing d)
unfolding owing
owing_side R [] h = tt
owing_side R ((p, v) ∷ d) h = ground (arith, owing_side R d h.1)

due_side :
    (R : String → Type 0) (d : Dict String ℤ)
    → All (λ (e : String × ℤ). pos 0 <ℤ e.1 → R e.0) d
    → All (λ e. R e.party) (due d)
unfolding due
due_side R [] h = tt
due_side R ((p, v) ∷ d) h = ground (arith, due_side R d h.1)

module _ (os : List Obligation) where
  abbrev pub IsNetPayer : String → Type 0
  IsNetPayer p = position p os <ℤ pos 0

  abbrev pub IsNetReceiver : String → Type 0
  IsNetReceiver p = pos 0 <ℤ position p os

  pub items-position : All (λ (e : String × ℤ). position e.0 os ≡ e.1) (net_positions os)
  items-position =
      All-map (λ (e : String × ℤ). at e.0 (net_positions os) ≡ e.1)
        (λ (e : String × ℤ). position e.0 os ≡ e.1) (net_positions os)
        (λ e found. sym (net_positions-position os e.0) ∙ found)
        (items-get_or str_dec (pos 0) (net_positions os) (net_positions-IsUnique os))

  payers-IsNetPayer : All (λ e. IsNetPayer e.party) (payers os)
  payers-IsNetPayer =
      All-sort larger_first (λ e. IsNetPayer e.party) _
        (owing_side IsNetPayer (net_positions os) (
          All-map (λ (e : String × ℤ). position e.0 os ≡ e.1)
            (λ (e : String × ℤ). e.1 <ℤ pos 0 → IsNetPayer e.0) (net_positions os)
            (λ e same below. rw same below) items-position))

  receivers-IsNetReceiver : All (λ e. IsNetReceiver e.party) (receivers os)
  receivers-IsNetReceiver =
      All-sort larger_first (λ e. IsNetReceiver e.party) _
        (due_side IsNetReceiver (net_positions os) (
          All-map (λ (e : String × ℤ). position e.0 os ≡ e.1)
            (λ (e : String × ℤ). pos 0 <ℤ e.1 → IsNetReceiver e.0) (net_positions os)
            (λ e same above. rw same above) items-position))

-- Every transfer is positive, in the given instrument, and goes from a party that owes on balance
-- to one that is owed on balance.
pub minimal_settlement-Joins :
    (obligations : List Obligation) (instrument : String)
    → All
        (Joins (IsNetPayer obligations) (IsNetReceiver obligations) instrument)
        (minimal_settlement obligations instrument)
unfolding minimal_settlement
minimal_settlement-Joins os i =
    match_greedily-Joins (IsNetPayer os) (IsNetReceiver os) (fuel os) i (payers os) (receivers os)
      (payers-IsNetPayer os) (receivers-IsNetReceiver os)

-- N parties are settled by at most N - 1 transfers.
pub length-minimal_settlement-le :
    (obligations : List Obligation) (instrument : String)
    → length (minimal_settlement obligations instrument) ≤ length (net_positions obligations) - 1
unfolding minimal_settlement
length-minimal_settlement-le os i = omega (
  arith,
  length-match_greedily-le (fuel os) i (payers os) (receivers os) (omega arith)
      (sides-IsBalanced os),
  length-sort larger_first (owing (net_positions os)),
  length-sort larger_first (due (net_positions os)),
  length-owing-due-le (net_positions os),
)

-- What moves is the sum of the debts in the table of positions.
pub transferred-minimal_settlement :
    (obligations : List Obligation) (instrument : String)
    → transferred (minimal_settlement obligations instrument)
      ≡ pos (debt (net_positions obligations))
unfolding minimal_settlement
transferred-minimal_settlement os i =
    transferred-match_greedily (fuel os) i (payers os) (receivers os) (omega arith)
      (sides-IsBalanced os)
    ∙ total-sort (owing (net_positions os))
    ∙ total-owing (net_positions os)
