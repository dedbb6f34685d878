-- ===== src/Obligations/Examples.antt =====
-- A ledger in memory with a stale obligation, and a book of two rows that replaces it.
use tradeguard_canton.Prelude.{
  String, true, false, not, ◌≡◌, refl, none, some, List, [], ◌∷◌, ◌++◌, keep,
}
use tradeguard_canton.Prelude.Int.{ℤ, pos}
use tradeguard_canton.Prelude.Actions.{bind}
use tradeguard_canton.Prelude.Keys.{str_dec}
use tradeguard_canton.Prelude.Sorting.{sort}
use tradeguard_canton.Solver.Model.{same}
use tradeguard_canton.Obligations.{
  Contract, Row, BookApi, discharge_each, cancel_each, clear_book_rows, sweep_each,
  sweep_unexpected, create_each, rows_by_ref, obligation_matches, SeedReport, seed_report,
  replace_book, seed_obligation_book, clear_report,
}
use tradeguard_canton.Obligations.{clear_book, clear_report}
use tradeguard_canton.Obligations.Clearing.{Cleared, clear_book-Cleared}
use tradeguard_canton.Obligations.Seeding.{ShowsBook, after_queries, seed_obligation_book-ShowsBook}

abbrev contract_of : Row → Contract
contract_of row = record {
  contract_id = row.reference;
  payer = row.payer;
  payee = row.payee;
  operator = "Operator";
  instrument = "USD";
  reference = row.reference;
  has_maturity = false;
  amount = some row.amount;
}

abbrev memory : BookApi (List Contract)
memory = record {
  query_obligations = λ w. (some w, w);
  query_batches = λ w. (some [], w);
  discharge = λ cid w. (none, keep (λ (c : Contract). not (same c.contract_id cid)) w);
  cancel_netting = λ cid w. (none, w);
  create = λ row w. (none, w ++ contract_of row ∷ []);
}

abbrev row : String → String → ℤ → String → Row
row payer payee amount reference = record {
  payer = payer;
  payee = payee;
  amount = amount;
  reference = reference;
}

abbrev book : List Row
book = row "FirmA" "FirmB" (pos 10000) "OB-1" ∷ row "FirmB" "FirmC" (pos 10000) "OB-2" ∷ []

abbrev stale : List Contract
stale = contract_of (row "FirmC" "FirmA" (pos 8000) "OLD") ∷ []

abbrev seeded : SeedReport
seeded = record {
  ok = true;
  created = 2;
  total = 2;
  cleared_obligations = 1;
  cleared_batches = 0;
  book_refs = "OB-1" ∷ "OB-2" ∷ [];
  failed_refs = [];
  last_error = none;
  errors = [];
}

is_seeded : (seed_obligation_book memory "Operator" "USD" book stale).0 ≡ some seeded
unfolding bind discharge_each cancel_each clear_book_rows sweep_each sweep_unexpected create_each
    rows_by_ref obligation_matches seed_report replace_book seed_obligation_book str_dec sort
is_seeded = refl

seed_obligation_book-ShowsBook_example :
    (last : List Contract) × ShowsBook memory "Operator" "USD" book last
    × ((seed_obligation_book memory "Operator" "USD" book stale).1
        ≡ after_queries memory "Operator" "USD" book last)
seed_obligation_book-ShowsBook_example =
    seed_obligation_book-ShowsBook memory "Operator" "USD" book stale seeded is_seeded refl

is_cleared :
    (clear_book memory stale).0
    ≡ some (record {
      ok = true;
      cleared_obligations = 1;
      cleared_batches = 0;
      failed_refs = [];
      last_error = none;
      errors = [];
      book_refs = [];
    })
unfolding clear_book bind discharge_each cancel_each clear_book_rows clear_report str_dec sort
is_cleared = refl

clear_book-Cleared_example :
    Cleared memory stale
      (record {
        ok = true;
        cleared_obligations = 1;
        cleared_batches = 0;
        failed_refs = [];
        last_error = none;
        errors = [];
        book_refs = [];
      })
      (clear_book memory stale).1
clear_book-Cleared_example = clear_book-Cleared memory stale _ is_cleared
