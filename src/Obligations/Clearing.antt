-- ===== src/Obligations/Clearing.antt =====
-- `clear_book` reports what the ledger shows after every discharge and cancellation.
use tradeguard_canton.Prelude.{
  String, true, false, ◌≡◌, refl, subst, ◌≢◌, ◌∙◌, Option, none, some, List, [], ◌∷◌, map,
}
use mathlib.Core.Logic.{◌↔◌}
use tradeguard_canton.Prelude.Actions.{bind-some}
use tradeguard_canton.Obligations.{
  Contract, BookApi, ClearReport, discharge_each, cancel_each, clear_book_rows, clear_book,
}
use tradeguard_canton.Obligations.Reports.{clear_report-ok}

-- The state after a command for each contract id, one after the other, whatever it answers.
abbrev pub in_turn :
    {World : Type 0} → (String → World → Option String × World) → List String → World → World
in_turn command [] w = w
in_turn command (cid ∷ cids) w = in_turn command cids (command cid w).1

module _ {World : Type 0} (api : BookApi World) where
  discharge_each-in_turn :
      (cs : List Contract) (w : World)
      → (discharge_each api cs w).1
        ≡ in_turn api.discharge (map (λ (c : Contract). c.contract_id) cs) w
  unfolding discharge_each
  discharge_each-in_turn [] w = refl
  discharge_each-in_turn (c ∷ cs) w = discharge_each-in_turn cs (api.discharge c.contract_id w).1

  cancel_each-in_turn :
      (bs : List String) (w : World) → (cancel_each api bs w).1 ≡ in_turn api.cancel_netting bs w
  unfolding cancel_each
  cancel_each-in_turn [] w = refl
  cancel_each-in_turn (b ∷ bs) w = cancel_each-in_turn bs (api.cancel_netting b w).1

  -- Every obligation is discharged, and then every batch cancelled.
  clear_book_rows-in_turn :
      (cs : List Contract) (bs : List String) (w : World)
      → (clear_book_rows api cs bs w).1
        ≡ in_turn api.cancel_netting bs
            (in_turn api.discharge (map (λ (c : Contract). c.contract_id) cs) w)
  unfolding clear_book_rows
  clear_book_rows-in_turn cs bs w =
      rw (cancel_each-in_turn bs (discharge_each api cs w).1, discharge_each-in_turn cs w) refl

-- The first queries, the state after all the archives, and the queries made there.
pub record Cleared {World : Type 0} (api : BookApi World) (w : World) (r : ClearReport)
    (after : World) : Type 0 where
  pub initial : List Contract
  pub obligations_read : (api.query_obligations w).0 ≡ some initial
  pub batches : List String
  pub batches_read : (api.query_batches (api.query_obligations w).1).0 ≡ some batches
  pub cleared : World
  pub archived :
      cleared
      ≡ in_turn api.cancel_netting batches (
          in_turn api.discharge
            (map (λ (c : Contract). c.contract_id) initial)
            (api.query_batches (api.query_obligations w).1).1)
  pub final : List Contract
  pub obligations_left : (api.query_obligations cleared).0 ≡ some final
  pub final_batches : List String
  pub batches_left : (api.query_batches (api.query_obligations cleared).1).0 ≡ some final_batches
  pub last : after ≡ (api.query_batches (api.query_obligations cleared).1).1
  pub ok_is : (r.ok ≡ true) ↔ ((final ≡ []) × (final_batches ≡ []))
  pub failed_is : (r.ok ≡ true) ↔ (r.failed_refs ≡ [])
  pub explains : r.ok ≡ false → r.last_error ≢ none

unwrap : {x r : ClearReport} → some x ≡ some r → x ≡ r
unwrap e = cc

-- When `clear_book` answers, it has asked the ledger to discharge each obligation and then to cancel
-- each batch of its first queries, whatever was refused, and then made its last two queries, after
-- which nothing happens. The answer is ok exactly
-- when these showed neither an obligation nor a batch, and exactly when it lists no failed
-- reference; an answer that is not ok gives a last error.
pub clear_book-Cleared :
    {World : Type 0} (api : BookApi World) (w : World) (r : ClearReport)
    → (clear_book api w).0 ≡ some r
    → Cleared api w r (clear_book api w).1
unfolding clear_book
clear_book-Cleared api w r h =
    let (initial, e, h₁, e₁) = bind-some _ _ _ r h in
    let (batches, f, h₂, e₂) = bind-some _ _ _ r h₁ in
    let (final, g, h₃, e₃) = bind-some _ _ _ r h₂ in
    let (final_batches, k, h₄, e₄) = bind-some _ _ _ r h₃ in
    let said =
      subst
        (λ (x : ClearReport).
          ((x.ok ≡ true) ↔ (x.failed_refs ≡ []))
          × ((x.ok ≡ true) ↔ ((final ≡ []) × (final_batches ≡ [])))
          × (x.ok ≡ false → x.last_error ≢ none))
        (unwrap h₄) (clear_report-ok initial batches _ final final_batches) in
    record {
      initial = initial;
      obligations_read = e;
      batches = batches;
      batches_read = f;
      cleared = _;
      archived = clear_book_rows-in_turn api initial batches _;
      final = final;
      obligations_left = g;
      final_batches = final_batches;
      batches_left = k;
      last = e₁ ∙ e₂ ∙ e₃ ∙ e₄;
      ok_is = said.1;
      failed_is = said.0;
      explains = said.2;
    }
