-- ===== src/Obligations/Reports.antt =====
-- What the reports say of the final ledger, whatever the ledger answered on the way.
use tradeguard_canton.Prelude.{
  String, Bool, true, false, not, ◌&&◌, ◌≡◌, refl, ◌≢◌, sym, ap, ◌∙◌, none, some, List, [], ◌∷◌,
  map, keep, All, All-map, All-map₂, arith, inl, inr, Bool-cases, Option-cases, if◌then◌else◌,
}
use mathlib.Core.Logic.{◌↔◌}
use tradeguard_canton.Prelude.Keys.{str_dec, str_leb}
use tradeguard_canton.Prelude.Dict.{Dict, lookup}
use tradeguard_canton.Prelude.Sorting.{sort}
use tradeguard_canton.Solver.Model.{member}
use tradeguard_canton.Solver.OneCurrency.{is_empty}
use tradeguard_canton.Limits.{last_of}
use tradeguard_canton.Limits.Verdict.{last_of-some}
use tradeguard_canton.Prelude.Dict.{insert, lookup-insert_self, lookup-insert_ne}
use tradeguard_canton.Solver.Maximal.Settles.{member-sort}
use tradeguard_canton.Obligations.{
  Contract, Row, BookError, still_active, references_of, clear_report, seed_report, rows_by_ref,
  is_mismatch, same_refs, obligation_matches,
}

named :
    (errors : List BookError)
    → last_of (if is_empty errors then still_active ∷ [] else errors) ≢ none
named [] e = cc
named (x ∷ errors) e = last_of-some (x ∷ errors) (λ h. cc) e

-- A clear report is ok exactly when it lists no failed reference, that is when the final ledger
-- holds neither an obligation nor a batch; and if it is not ok, it gives a last error.
pub clear_report-ok :
    (initial : List Contract) (batches : List String) (errors : List BookError)
    (final : List Contract) (final_batches : List String)
    → let r = clear_report initial batches errors final final_batches in
      ((r.ok ≡ true) ↔ (r.failed_refs ≡ []))
      × ((r.ok ≡ true) ↔ ((final ≡ []) × (final_batches ≡ [])))
      × (r.ok ≡ false → r.last_error ≢ none)
unfolding clear_report
clear_report-ok initial batches errors [] [] =
    ((λ h. refl, λ h. refl), (λ h. (refl, refl), λ h. refl), λ h. cc)
clear_report-ok initial batches errors [] (b ∷ bs) =
    ((λ h. cc, λ h. cc), (λ h. cc, λ h. cc), λ h. named errors)
clear_report-ok initial batches errors (c ∷ cs) bs =
    ((λ h. cc, λ h. cc), (λ h. cc, λ h. cc), λ h. named errors)

same_refs-equal : (xs ys : List String) → same_refs xs ys ≡ true → xs ≡ ys
same_refs-equal [] [] h = refl
same_refs-equal [] (y ∷ ys) h = cc
same_refs-equal (x ∷ xs) [] h = cc
same_refs-equal (x ∷ xs) (y ∷ ys) h = elim (str_dec x y) [
  | yes e ↦ rw e (ap (λ zs. y ∷ zs) (same_refs-equal xs ys (ground arith)))
  | no ne ↦ absurd (differ ne)
]
  where
    differ : ¬ (x ≡ y) → ⊥
    differ ne = ground arith

-- The dict of rows knows every reference of the book.
abbrev HasRow : String → Dict String Row → Type 0
HasRow r d = lookup str_dec r d ≢ none

insert-HasRow :
    (r k : String) (row : Row) (d : Dict String Row)
    → HasRow r d
    → HasRow r (insert str_dec k row d)
insert-HasRow r k row d h = elim (str_dec r k) [
  | yes e ↦ rw (e, lookup-insert_self str_dec k row d) (λ f. cc)
  | no ne ↦ rw (lookup-insert_ne str_dec r k row d ne) h
]

rows_by_ref-keeps :
    (r : String) (d : Dict String Row) (rows : List Row)
    → HasRow r d
    → HasRow r (rows_by_ref d rows)
unfolding rows_by_ref
rows_by_ref-keeps r d [] h = h
rows_by_ref-keeps r d (row ∷ rows) h =
    rows_by_ref-keeps r (insert str_dec row.reference row d) rows
      (insert-HasRow r row.reference row d h)

rows_by_ref-HasRow :
    (r : String) (d : Dict String Row) (rows : List Row)
    → member r (map (λ (x : Row). x.reference) rows) ≡ true
    → HasRow r (rows_by_ref d rows)
unfolding rows_by_ref
rows_by_ref-HasRow r d [] m = cc
rows_by_ref-HasRow r d (row ∷ rows) m = elim (str_dec r row.reference) [
  | yes e ↦
      rows_by_ref-keeps r (insert str_dec row.reference row d) rows
        (rw (e, lookup-insert_self str_dec row.reference row d) (λ f. cc))
  | no ne ↦ rows_by_ref-HasRow r (insert str_dec row.reference row d) rows (ground arith)
]

module _ (operator instrument : String) (intended : Dict String Row) where
  abbrev pub IsExact : Contract → Type 0
  IsExact c =
      (row : Row) × (lookup str_dec c.reference intended ≡ some row)
      × (obligation_matches operator instrument c row ≡ true)

  exact :
      (c : Contract)
      → HasRow c.reference intended
      → is_mismatch operator instrument intended c ≡ false
      → IsExact c
  exact c known h = elim (Option-cases (lookup str_dec c.reference intended)) [
    | inl e ↦ absurd (known e)
    | inr (row, e) ↦ (row, e, matches row (simp (is_mismatch, e) at h))
  ]
    where
      matches :
          (row : Row)
          → not (obligation_matches operator instrument c row) ≡ false
          → obligation_matches operator instrument c row ≡ true
      matches row k = ground arith

  no_mismatch :
      (cs : List Contract)
      → is_empty (keep (is_mismatch operator instrument intended) cs) ≡ true
      → All (λ c. is_mismatch operator instrument intended c ≡ false) cs
  no_mismatch [] h = tt
  no_mismatch (c ∷ cs) h = elim (Bool-cases (is_mismatch operator instrument intended c)) [
    | inl e ↦ absurd (kept (rw e at h))
    | inr e ↦ (e, no_mismatch cs (rw e at h))
  ]
    where
      kept : false ≡ true → ⊥
      kept e = cc

references-members :
    (cs : List Contract) → All (λ (c : Contract). member c.reference (references_of cs) ≡ true) cs
references-members [] = tt
references-members (c ∷ cs) = (
  ground arith,
  All-map (λ (d : Contract). member d.reference (references_of cs) ≡ true)
      (λ (d : Contract). member d.reference (references_of (c ∷ cs)) ≡ true) cs
      (λ d m. ground arith) (references-members cs),
)

and_split : (a b : Bool) → (a && b) ≡ true → (a ≡ true) × (b ≡ true)
and_split a b h = ground arith

-- A report of an ok seed means that the final ledger is the intended book: no batch is left, the
-- references are those of the book, with their repetitions, and every contract agrees with the
-- row of its reference in all that is compared.
pub seed_report-IsExact :
    (operator instrument : String) (book : List Row) (initial : List Contract)
    (batches : List String) (errors : List BookError) (final : List Contract)
    (final_batches : List String)
    → (seed_report operator instrument book initial batches errors final final_batches).ok ≡ true
    → (final_batches ≡ [])
      × (sort str_leb (references_of final) ≡ sort str_leb (map (λ (r : Row). r.reference) book))
      × All (IsExact operator instrument (rows_by_ref [] book)) final
unfolding seed_report
seed_report-IsExact operator instrument book initial batches errors final final_batches h =
    let refs = map (λ (r : Row). r.reference) book in
    let intended = rows_by_ref [] book in
    let outer = and_split _ _ h in
    let inner = and_split _ _ outer.0 in
    let same = same_refs-equal (sort str_leb (references_of final)) (sort str_leb refs) inner.0 in
    (
      empty final_batches outer.1,
      same,
      All-map₂ (λ (c : Contract). member c.reference (references_of final) ≡ true)
          (λ c. is_mismatch operator instrument intended c ≡ false)
          (IsExact operator instrument intended) final
          (λ c m agrees.
            exact operator instrument intended c
              (rows_by_ref-HasRow c.reference [] book (
                sym (member-sort c.reference refs)
                ∙ ap (member c.reference) (sym same)
                ∙ member-sort c.reference (references_of final)
                ∙ m))
              agrees)
          (references-members final) (no_mismatch operator instrument intended final inner.1),
    )
  where
    empty : (xs : List String) → is_empty xs ≡ true → xs ≡ []
    empty [] e = refl
    empty (x ∷ xs) e = cc
