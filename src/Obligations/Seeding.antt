-- ===== src/Obligations/Seeding.antt =====
-- `_seed_obligation_book` vouches for a book only on the word of the ledger's last queries.
use tradeguard_canton.Prelude.{String, true, ◌≡◌, ap, ◌∙◌, some, List, [], map, All, arith}
use tradeguard_canton.Prelude.Actions.{bind-some}
use tradeguard_canton.Prelude.Keys.{str_leb}
use tradeguard_canton.Prelude.Sorting.{sort}
use tradeguard_canton.Obligations.{
  Contract, Row, BookApi, references_of, rows_by_ref, SeedReport, replace_book,
  seed_obligation_book,
}
use tradeguard_canton.Obligations.Reports.{IsExact, seed_report-IsExact}

module _ {World : Type 0} (api : BookApi World) (operator instrument : String)
    (book : List Row) where
  -- What the ledger shows at the end is the intended book.
  pub record ShowsBook (w : World) : Type 0 where
    pub final : List Contract
    pub obligations : (api.query_obligations w).0 ≡ some final
    pub no_batches : (api.query_batches (api.query_obligations w).1).0 ≡ some []
    pub references :
        sort str_leb (references_of final) ≡ sort str_leb (map (λ (r : Row). r.reference) book)
    pub contracts : All (IsExact operator instrument (rows_by_ref [] book)) final

  -- The state after the last two queries.
  abbrev pub after_queries : World → World
  after_queries last = (api.query_batches (api.query_obligations last).1).1

  unwrap : {x r : SeedReport} → some x ≡ some r → x ≡ r
  unwrap e = ground arith

  replace_book-ShowsBook :
      (initial : List Contract) (batches : List String) (w : World) (r : SeedReport)
      → (replace_book api operator instrument book initial batches w).0 ≡ some r
      → r.ok ≡ true
      → (last : World) × ShowsBook last
        × ((replace_book api operator instrument book initial batches w).1 ≡ after_queries last)
  unfolding replace_book
  replace_book-ShowsBook initial batches w r h ok =
      let (swept, _, h₁, e₁) = bind-some _ _ _ r h in
      let (live, _, h₂, e₂) = bind-some _ _ _ r h₁ in
      let (again, _, h₃, e₃) = bind-some _ _ _ r h₂ in
      let (final, q, h₄, e₄) = bind-some _ _ _ r h₃ in
      let (final_batches, b, h₅, e₅) = bind-some _ _ _ r h₄ in
      let shown =
        seed_report-IsExact operator instrument book initial batches _ final final_batches
          (ap (λ (x : SeedReport). x.ok) (unwrap h₅) ∙ ok) in
      (
        _,
        record {
          final = final;
          obligations = q;
          no_batches = b ∙ ap some shown.0;
          references = shown.1;
          contracts = shown.2;
        },
        e₁ ∙ e₂ ∙ e₃ ∙ e₄ ∙ e₅,
      )

-- If `_seed_obligation_book` answers ok, then its last two queries, after which nothing happens,
-- showed exactly the intended book: no batch, the references of the book, and each contract as
-- its row.
pub seed_obligation_book-ShowsBook :
    {World : Type 0} (api : BookApi World) (operator instrument : String) (book : List Row)
    (w : World) (r : SeedReport)
    → (seed_obligation_book api operator instrument book w).0 ≡ some r
    → r.ok ≡ true
    → (last : World) × ShowsBook api operator instrument book last
      × ((seed_obligation_book api operator instrument book w).1
          ≡ after_queries api operator instrument book last)
unfolding seed_obligation_book
seed_obligation_book-ShowsBook api operator instrument book w r h ok =
    let (initial, _, h₁, e₁) = bind-some _ _ _ r h in
    let (batches, _, h₂, e₂) = bind-some _ _ _ r h₁ in
    let (last, shown, e₃) =
      replace_book-ShowsBook api operator instrument book initial batches _ r h₂ ok in
    (last, shown, e₁ ∙ e₂ ∙ e₃)
