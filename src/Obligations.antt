-- ===== src/Obligations.antt =====
-- The obligation book on the ledger, from agent/net_settle.py: clearing it (`clear_book`), sweeping
-- what does not belong (`_sweep_unexpected_obligations`), and replacing it by an intended book
-- (`_seed_obligation_book`). The ledger client is the interface `BookApi`.
pub mod Reports
pub mod Clearing
pub mod Seeding
mod Examples
use tradeguard_canton.Prelude.{
  ℕ, String, Bool, true, false, not, ◌&&◌, ◌||◌, Option, none, some, List, [], ◌∷◌, ◌++◌, map, keep,
  length, all, if◌then◌else◌, ite,
}
use tradeguard_canton.Prelude.Int.{ℤ, eqb_ℤ}
use tradeguard_canton.Prelude.Keys.{str_dec, str_leb}
use tradeguard_canton.Prelude.Dict.{Dict, lookup, insert}
use tradeguard_canton.Prelude.Sorting.{sort}
use tradeguard_canton.Prelude.Actions.{Run, return, bind}
use tradeguard_canton.Solver.Model.{same, member}
use tradeguard_canton.Solver.OneCurrency.{is_empty}
use tradeguard_canton.Limits.{last_of}

-- An obligation contract: its id and the entries of its payload that are read. The instrument is
-- the text of its identifier; an amount that is no number is `none`.
pub record Contract : Type 0 where
  pub contract_id : String
  pub payer : String
  pub payee : String
  pub operator : String
  pub instrument : String
  pub reference : String
  pub has_maturity : Bool
  pub amount : Option ℤ

-- A row `(payer, payee, amount, reference)` of an intended book.
pub record Row : Type 0 where
  pub payer : String
  pub payee : String
  pub amount : ℤ
  pub reference : String

-- A strict query raises (`none`) when it is refused; the others answer with the error of `_err`.
pub record BookApi (World : Type 0) : Type 0 where
  pub query_obligations : World → Option (List Contract) × World
  pub query_batches : World → Option (List String) × World
  pub discharge : String → World → Option String × World
  pub cancel_netting : String → World → Option String × World
  pub create : Row → World → Option String × World

pub data BookError : Type 0 where
  discharge_failed cancel_failed create_failed : (name error : String) → BookError
  -- "ledger verification found contracts still active after clear"
  still_active : BookError
  -- "ledger book does not match the intended obligations"
  not_intended : BookError

pub data FailedRef : Type 0 where
  left missing unexpected mismatch batch : String → FailedRef

-- `_reference(contract) or contract["contractId"]`
abbrev pub name_of : Contract → String
name_of c = if same c.reference "" then c.contract_id else c.reference

abbrev pub references_of : List Contract → List String
references_of cs = map (λ (c : Contract). c.reference) cs

abbrev pub contract_ids : List Contract → List String
contract_ids cs = map (λ (c : Contract). c.contract_id) cs

-- `sum(c["contractId"] not in final_ids for c in initial)`
abbrev pub gone : List String → List String → ℕ
gone initial final = length (keep (λ i. not (member i final)) initial)

abbrev pub has_amount : Option ℤ → ℤ → Bool
has_amount none x = false
has_amount (some a) x = eqb_ℤ a x

-- `_obligation_matches`, for the operator and the instrument of `parties`
unfoldable pub obligation_matches : String → String → Contract → Row → Bool
obligation_matches operator instrument c row =
    same c.payer row.payer
    && (same c.payee row.payee
        && (same c.operator operator
            && (same c.instrument instrument
                && (same c.reference row.reference
                    && (not c.has_maturity && has_amount c.amount row.amount)))))

-- `{row[3]: row for row in book}`
unfoldable pub rows_by_ref : Dict String Row → List Row → Dict String Row
rows_by_ref d [] = d
rows_by_ref d (row ∷ rows) = rows_by_ref (insert str_dec row.reference row d) rows

-- Whether a contract is the intended one under its reference.
abbrev pub is_intended : String → String → Dict String Row → Contract → Bool
is_intended operator instrument intended c = elim (lookup str_dec c.reference intended) [
  | none ↦ false
  | some row ↦ obligation_matches operator instrument c row
]

-- `ref in intended_by_ref and not _obligation_matches(…)`
abbrev pub is_mismatch : String → String → Dict String Row → Contract → Bool
is_mismatch operator instrument intended c = elim (lookup str_dec c.reference intended) [
  | none ↦ false
  | some row ↦ not (obligation_matches operator instrument c row)
]

module _ {World : Type 0} (api : BookApi World) where
  unfoldable pub discharge_each : List Contract → World → List BookError × World
  discharge_each [] w = ([], w)
  discharge_each (c ∷ cs) w =
      let result = api.discharge c.contract_id w in
      let rest = discharge_each cs result.1 in
      (elim result.0 [ none ↦ rest.0 | some e ↦ discharge_failed (name_of c) e ∷ rest.0 ], rest.1)

  unfoldable pub cancel_each : List String → World → List BookError × World
  cancel_each [] w = ([], w)
  cancel_each (b ∷ bs) w =
      let result = api.cancel_netting b w in
      let rest = cancel_each bs result.1 in
      (elim result.0 [ none ↦ rest.0 | some e ↦ cancel_failed b e ∷ rest.0 ], rest.1)

  unfoldable pub clear_book_rows : List Contract → List String → World → List BookError × World
  clear_book_rows obligations batches w =
      let first = discharge_each obligations w in
      let second = cancel_each batches first.1 in (first.0 ++ second.0, second.1)

-- The answer of `clear_book`.
pub record ClearReport : Type 0 where
  pub ok : Bool
  pub cleared_obligations : ℕ
  pub cleared_batches : ℕ
  pub failed_refs : List FailedRef
  pub last_error : Option BookError
  pub errors : List BookError
  pub book_refs : List String

unfoldable pub clear_report :
    List Contract → List String → List BookError → List Contract → List String → ClearReport
clear_report initial batches errors final final_batches =
    let failed =
      map (λ (c : Contract). left (name_of c)) final ++ map (λ b. batch b) final_batches in
    let named = if not (is_empty failed) && is_empty errors then still_active ∷ [] else errors in
    record {
      ok = is_empty final && is_empty final_batches;
      cleared_obligations = gone (contract_ids initial) (contract_ids final);
      cleared_batches = gone batches final_batches;
      failed_refs = failed;
      last_error = last_of named;
      errors = named;
      book_refs = sort str_leb (references_of final);
    }

module _ {World : Type 0} (api : BookApi World) where
  unfoldable pub clear_book : Run World ClearReport
  clear_book = bind api.query_obligations λ initial. bind api.query_batches λ batches w.
      let errors = clear_book_rows api initial batches w in
      bind api.query_obligations
        (λ final.
          bind api.query_batches
            λ final_batches. return (clear_report initial batches errors.0 final final_batches))
        errors.1

module _ {World : Type 0} (api : BookApi World) (operator instrument : String) where
  -- The loop of `_sweep_unexpected_obligations`, with the references it has kept.
  unfoldable pub sweep_each :
      Dict String Row → List String → List Contract → World → List BookError × World
  sweep_each intended seen [] w = ([], w)
  sweep_each intended seen (c ∷ cs) w =
      let kept = sweep_each intended (c.reference ∷ seen) cs w in
      let result = api.discharge c.contract_id w in
      let rest = sweep_each intended seen cs result.1 in
      if is_intended operator instrument intended c && not (member c.reference seen)
      then kept
      else (
        elim result.0 [ none ↦ rest.0 | some e ↦ discharge_failed (name_of c) e ∷ rest.0 ],
        rest.1,
      )

  unfoldable pub sweep_unexpected : List Row → Run World (List BookError)
  sweep_unexpected book =
      bind api.query_obligations
        λ cs w. let swept = sweep_each (rows_by_ref [] book) [] cs w in (some swept.0, swept.1)

  -- The loop that creates the rows whose reference is not there yet.
  unfoldable pub create_each : List String → List Row → World → List BookError × World
  create_each existing [] w = ([], w)
  create_each existing (row ∷ rows) w =
      let skipped = create_each existing rows w in
      let made = api.create row w in
      let created = create_each (row.reference ∷ existing) rows made.1 in
      let refused = create_each existing rows made.1 in
      if member row.reference existing then skipped else elim made.0 [
        | none ↦ created
        | some e ↦ (create_failed row.reference e ∷ refused.0, refused.1)
      ]

-- `unexpected_refs.remove(ref)` for each intended reference that is there
abbrev pub remove_one : String → List String → List String
remove_one r [] = []
remove_one r (x ∷ xs) = let rest = remove_one r xs in if same x r then xs else x ∷ rest

abbrev pub remove_each : List String → List String → List String
remove_each [] xs = xs
remove_each (r ∷ rs) xs = remove_each rs (remove_one r xs)

-- `actual_refs == intended_refs`
abbrev pub same_refs : List String → List String → Bool
same_refs [] [] = true
same_refs (x ∷ xs) (y ∷ ys) = same x y && same_refs xs ys
same_refs _ _ = false

-- The answer of `_seed_obligation_book`; its `create_errors` repeat the errors of the creations.
pub record SeedReport : Type 0 where
  pub ok : Bool
  pub created : ℕ
  pub total : ℕ
  pub cleared_obligations : ℕ
  pub cleared_batches : ℕ
  pub book_refs : List String
  pub failed_refs : List FailedRef
  pub last_error : Option BookError
  pub errors : List BookError

unfoldable pub seed_report :
    String
    → String
    → List Row
    → List Contract
    → List String
    → List BookError
    → List Contract
    → List String
    → SeedReport
seed_report operator instrument book initial batches errors final final_batches =
    let intended = rows_by_ref [] book in
    let actual_refs = sort str_leb (references_of final) in
    let intended_refs = sort str_leb (map (λ (r : Row). r.reference) book) in
    let missing_refs = keep (λ r. not (member r actual_refs)) intended_refs in
    let unexpected_refs = remove_each intended_refs actual_refs in
    let mismatched = keep (is_mismatch operator instrument intended) final in
    let failed =
      map (λ r. missing r) missing_refs
      ++ (map (λ r. unexpected r) unexpected_refs
          ++ (map (λ (c : Contract). mismatch c.reference) mismatched
              ++ map (λ b. batch b) final_batches)) in
    let named = if not (is_empty failed) && is_empty errors then not_intended ∷ [] else errors in
    record {
      ok = (same_refs actual_refs intended_refs && is_empty mismatched) && is_empty final_batches;
      created = length (keep (is_intended operator instrument intended) final);
      total = length intended_refs;
      cleared_obligations = gone (contract_ids initial) (contract_ids final);
      cleared_batches = gone batches final_batches;
      book_refs = actual_refs;
      failed_refs = failed;
      last_error = last_of named;
      errors = named;
    }

module _ {World : Type 0} (api : BookApi World) (operator instrument : String) where
  -- The part of `_seed_obligation_book` after the first two queries.
  unfoldable pub replace_book : List Row → List Contract → List String → Run World SeedReport
  replace_book book initial batches w =
      let cleared = clear_book_rows api initial batches w in
      bind (sweep_unexpected api operator instrument book)
        (λ swept. bind api.query_obligations λ live w.
          let intended = rows_by_ref [] book in
          let existing = references_of (keep (is_intended operator instrument intended) live) in
          let made = create_each api operator instrument existing book w in
          bind (sweep_unexpected api operator instrument book)
            (λ again. bind api.query_obligations λ final. bind api.query_batches λ final_batches.
              return (
                seed_report operator instrument book initial batches
                  (cleared.0 ++ (swept ++ (made.0 ++ again))) final final_batches))
            made.1)
        cleared.1

  unfoldable pub seed_obligation_book : List Row → Run World SeedReport
  seed_obligation_book book =
      bind api.query_obligations
        λ initial. bind api.query_batches λ batches. replace_book book initial batches
