-- ===== src/Settling/Gates.antt =====
-- The tests that `settle_real` makes before anything is submitted.
use tradeguard_canton.Prelude.{
  ℕ, suc, String, Bool, true, false, not, ◌&&◌, ◌||◌, ◌==◌, leb, Option, none, some, List, [], ◌∷◌,
  map, any, keep, length, if◌then◌else◌,
}
use tradeguard_canton.Prelude.Int.{eqb_ℤ, leb_ℤ}
use tradeguard_canton.Prelude.Keys.{str_dec, str_leb}
use tradeguard_canton.Prelude.Dict.{Dict, lookup}
use tradeguard_canton.Prelude.Sorting.{sort}
use tradeguard_canton.Netting.{Obligation}
use tradeguard_canton.Solver.Model.{
  CreditLimit, AggLimit, Weights, SolveResult, SolvedTransfer, same,
}
use tradeguard_canton.Solver.Lp.{Solver}
use tradeguard_canton.Solver.OneCurrency.{is_empty}
use tradeguard_canton.Solver.Book.{solve}
use tradeguard_canton.Solver.Maximal.{solve_maximal}
use tradeguard_canton.Limits.{short}
use tradeguard_canton.Settling.{
  Due, undated, unreadable, unzoned, due_at, Contract, BookRow, Approval, Residual, ApprovedPlan,
  Refusal, nothing_fits, infeasible, all_same, same_lower,
}

-- The order of tuples: by a text, and then by what follows.
abbrev pub then_by : String → String → Bool → Bool
then_by x y later = if same x y then later else str_leb x y

-- `book_key`
unfoldable pub book_key : BookRow → BookRow
book_key row = record {
  reference = row.reference;
  payer = short row.payer;
  payee = short row.payee;
  amount = row.amount;
  maturity = row.maturity;
}

abbrev pub row_of : Contract → BookRow
row_of c = record {
  reference = c.reference;
  payer = c.payer;
  payee = c.payee;
  amount = c.amount;
  maturity = c.maturity;
}

abbrev pub key_leb : BookRow → BookRow → Bool
key_leb a b = then_by a.reference b.reference (
    then_by a.payer b.payer (
      then_by a.payee b.payee (
        if eqb_ℤ a.amount b.amount
        then str_leb a.maturity b.maturity
        else leb_ℤ a.amount b.amount)))

abbrev pub same_row : BookRow → BookRow → Bool
same_row a b =
    same a.reference b.reference
    && (same a.payer b.payer
        && (same a.payee b.payee && (eqb_ℤ a.amount b.amount && same a.maturity b.maturity)))

-- `sorted(book_key(row) for row in rows)`
abbrev pub book_keys : List BookRow → List BookRow
book_keys rows = sort key_leb (map book_key rows)

-- Whether the ledger's rows are those of the approved book, if there is one.
unfoldable pub is_expected : Option (List BookRow) → List Contract → Bool
is_expected none rows = true
is_expected (some book) rows = all_same same_row (book_keys (map row_of rows)) (book_keys book)

-- `next((c for c in approvals if c.get("contractId") == cid), None)`
abbrev pub approval_of : String → List Approval → Option Approval
approval_of cid [] = none
approval_of cid (c ∷ cs) =
    let rest = approval_of cid cs in if same c.contract_id cid then some c else rest

abbrev pub has_trade_id : Option String → Approval → Bool
has_trade_id none c = true
has_trade_id (some trade_id) c = same c.trade_id trade_id

unfoldable pub is_approval : String → Option String → Approval → Bool
is_approval operator trade_id c =
    same c.decision "SETTLE"
    && (same c.agent operator && (same c.approver operator && has_trade_id trade_id c))

unfoldable pub is_approved : String → String → Option String → List Approval → Bool
is_approved operator cid trade_id approvals = elim (approval_of cid approvals) [
  | none ↦ false
  | some c ↦ is_approval operator trade_id c
]

-- `_is_due`, which raises (`none`) on a time without a zone
unfoldable pub is_due : ℕ → Due → Option Bool
is_due now undated = some true
is_due now unreadable = some true
is_due now unzoned = none
is_due now (due_at t) = some (leb t now)

-- `[c for c in all_rows if _is_due(c)]`
unfoldable pub due_rows : ℕ → List Contract → Option (List Contract)
due_rows now [] = some []
due_rows now (c ∷ cs) = elim (is_due now c.due) [
  | none ↦ none
  | some due ↦ elim (due_rows now cs) [
    | none ↦ none
    | some rows ↦ some (if due then c ∷ rows else rows)
  ]
]

-- `_touches_excluded`
unfoldable pub touches_excluded : List String → Contract → Bool
touches_excluded excluded c =
    any (λ e. same_lower (short c.payer) e) excluded
    || any (λ e. same_lower (short c.payee) e) excluded

unfoldable pub surviving : List String → List Contract → List Contract
surviving excluded rows = keep (λ c. not (touches_excluded excluded c)) rows

abbrev pub solver_obligation : Contract → Obligation
solver_obligation c = record {
  payer = short c.payer;
  payee = short c.payee;
  amount = c.amount;
  instrument = "USD";
}

-- The indices from `i` on, one for each row.
abbrev pub indices_from : ℕ → List Contract → List ℕ
indices_from i [] = []
indices_from i (c ∷ cs) = i ∷ indices_from (suc i) cs

abbrev pub member_ℕ : ℕ → List ℕ → Bool
member_ℕ i is = any (λ j. i == j) is

-- `sorted(set(range(len(rows))) - settle_set)`
abbrev pub left_out : List Contract → List ℕ → List ℕ
left_out rows settle_set = keep (λ i. not (member_ℕ i settle_set)) (indices_from 0 rows)

pub data Choice : Type 0 where
  chosen : SolveResult → List ℕ → Choice
  not_chosen : Refusal → Choice

module _ (solver : Solver) where
  -- The plan, with the indices of the rows that it settles.
  unfoldable pub choose_plan :
      Bool → List Contract → List CreditLimit → Weights → List AggLimit → Choice
  choose_plan true rows limits weights aggs =
      let plan = solve_maximal solver (map solver_obligation rows) limits weights aggs in
      if is_empty plan.settled_obligations
      then not_chosen (nothing_fits (length rows) plan)
      else chosen plan plan.settled_obligations
  choose_plan false rows limits weights aggs =
      let plan = solve solver (map solver_obligation rows) limits weights in
      if plan.feasible then chosen plan (indices_from 0 rows) else not_chosen (infeasible plan)

abbrev pub references : List Contract → List String
references cs = sort str_leb (map (λ (c : Contract). c.reference) cs)

abbrev pub residual_leb : Residual → Residual → Bool
residual_leb a b =
    then_by a.sender b.sender (then_by a.receiver b.receiver (leb_ℤ a.amount b.amount))

abbrev pub same_residual : Residual → Residual → Bool
same_residual a b =
    same a.sender b.sender && (same a.receiver b.receiver && eqb_ℤ a.amount b.amount)

-- `(short2full[t.sender], short2full[t.receiver], t.amount) for t in plan.transfers`
unfoldable pub residuals_of : Dict String String → List SolvedTransfer → Option (List Residual)
residuals_of names [] = some []
residuals_of names (t ∷ ts) = elim (lookup str_dec t.sender names) [
  | none ↦ none
  | some s ↦ elim (lookup str_dec t.receiver names) [
    | none ↦ none
    | some r ↦ elim (residuals_of names ts) [
      | none ↦ none
      | some rs ↦ some (record { sender = s; receiver = r; amount = t.amount } ∷ rs)
    ]
  ]
]

abbrev pub shortened : Residual → Residual
shortened r = record { sender = short r.sender; receiver = short r.receiver; amount = r.amount }

-- `same_plan`, of the rows settled and left out and of the transfers
unfoldable pub same_plan :
    ApprovedPlan → List Contract → List Contract → List Residual → SolveResult → Bool
same_plan approved settled deferred residuals plan =
    all_same same (references settled) (sort str_leb approved.settled_refs)
    && (all_same same (references deferred) (sort str_leb approved.deferred_refs)
        && (all_same same_residual (sort residual_leb (map shortened residuals))
              (sort residual_leb approved.residual_transfers)
            && (eqb_ℤ plan.gross_obligations approved.gross_obligations
                && eqb_ℤ plan.gross_residual approved.gross_residual)))
