-- ===== src/Settling/Untouched.antt =====
-- A settlement that is refused before the first write leaves the ledger as it was.
use tradeguard_canton.Prelude.{ℕ, String, ◌≡◌, refl, ◌∙◌, Option, none, some, List}
use tradeguard_canton.Prelude.Actions.{bind-some, bind-same, if-same}
use tradeguard_canton.Solver.Lp.{Solver}
use tradeguard_canton.Solver.OneCurrency.{is_empty}
use tradeguard_canton.Limits.{LedgerLimit, LedgerAggLimit, load_limits, load_agg_limits}
use tradeguard_canton.Settling.{
  Contract, Residual, Request, Allocation, Tree, tree_refused, tree, Answer, accepted, rejected,
  NetApi, Parties, Refusal,
}
use tradeguard_canton.Settling.Gates.{is_expected, surviving, Choice, chosen, not_chosen}
use tradeguard_canton.Settling.Preparing.{
  Prepared, Ready, ready, held, is_valid, check_approval, resolve_plan, plan_rows, check_rows,
  prepare,
}
use tradeguard_canton.Settling.Submitting.{refused, batch_failed, settle_failed, settled, Receipt}
use tradeguard_canton.Settling.Running.{
  conclude, settle_batch, submit_batch, submit, settle_ready, settle_real,
}

-- The queries of a settlement change nothing.
pub record ReadOnly {World : Type 0} (api : NetApi World) : Type 0 where
  pub ledger : (template : String) (w : World) → (api.ledger.query template w).1 ≡ w
  pub obligations : (w : World) → (api.query_obligations w).1 ≡ w
  pub approvals : (w : World) → (api.query_approvals w).1 ≡ w

module _ {World : Type 0} (solver : Solver) (api : NetApi World) (parties : Parties)
    (request : Request) (reads : ReadOnly api) where
  check_approval-same :
      (cid : Option String) (w : World) → (check_approval solver api parties request cid w).1 ≡ w
  unfolding check_approval
  check_approval-same none w = refl
  check_approval-same (some cid) w = bind-same _ _ reads.approvals (λ x v. refl) w

  resolve_plan-same :
      (limits : List LedgerLimit) (aggs : List LedgerAggLimit) (rows : List Contract)
      (immature excluded : ℕ) (choice : Choice) (w : World)
      → (resolve_plan solver api parties request limits aggs rows immature excluded choice w).1 ≡ w
  unfolding resolve_plan
  resolve_plan-same limits aggs rows immature excluded (not_chosen why) w = refl
  resolve_plan-same limits aggs rows immature excluded (chosen plan settle_set) w =
      bind-same _ _ (λ v. refl)
        (λ settled.
          bind-same _ _ (λ v. refl) (λ deferred. bind-same _ _ (λ v. refl) (λ residuals v. refl)))
        w

  plan_rows-same :
      (limits : List LedgerLimit) (aggs : List LedgerAggLimit) (all_rows due : List Contract)
      (w : World)
      → (plan_rows solver api parties request limits aggs all_rows due w).1 ≡ w
  unfolding plan_rows
  plan_rows-same limits aggs all_rows due w =
      if-same {A = Ready} (is_empty (surviving request.exclude_parties due)) _ _ (λ v. refl)
        (resolve_plan-same limits aggs _ _ _ _) w

  check_rows-same :
      (limits : List LedgerLimit) (aggs : List LedgerAggLimit) (all_rows : List Contract)
      (w : World)
      → (check_rows solver api parties request limits aggs all_rows w).1 ≡ w
  unfolding check_rows
  check_rows-same limits aggs all_rows w =
      if-same {A = Ready} (is_empty all_rows) _ _ (λ v. refl)
        (if-same {A = Ready} (is_expected request.expected_book all_rows) _ _
          (bind-same _ _ (check_approval-same request.approved_action_cid) (λ approved.
            if-same {A = Ready} approved _ _
              (bind-same _ _ (λ v. refl) (plan_rows-same limits aggs all_rows)) (λ v. refl)))
          (λ v. refl))
        w

  -- Up to the first write nothing has changed.
  pub prepare-same : (w : World) → (prepare solver api parties request w).1 ≡ w
  unfolding prepare load_limits load_agg_limits
  prepare-same w =
      bind-same _ _ (reads.ledger "TradeGuard.Netting:CreditLimit")
        (λ limits. bind-same _ _ (reads.ledger "TradeGuard.Netting:AggregateLimit") (λ aggs.
          if-same {A = Ready} (is_valid request.policy) _ _
            (bind-same _ _ reads.obligations (check_rows-same limits aggs)) (λ v. refl)))
        w

module _ {World : Type 0} (api : NetApi World) (parties : Parties) (request : Request)
    (why : Refusal) where
  conclude-ne_refused :
      (p : Prepared) (cid : String) (answer : Answer) (w : World)
      → (conclude api parties request p cid answer w).0 ≡ some (refused why)
      → ⊥
  unfolding conclude
  conclude-ne_refused p cid accepted w h = differ h
    where
      differ : {r : Receipt} → some (settled r) ≡ some (refused why) → ⊥
      differ e = cc
  conclude-ne_refused p cid (rejected e b) w h = differ h
    where
      differ : {rs : List Residual} → some (settle_failed e b rs) ≡ some (refused why) → ⊥
      differ h = cc

  settle_batch-ne_refused :
      (p : Prepared) (allocs : List Allocation) (made : Tree) (w : World)
      → (settle_batch api parties request p allocs made w).0 ≡ some (refused why)
      → ⊥
  unfolding settle_batch
  settle_batch-ne_refused p allocs (tree_refused e) w h = differ h
    where
      differ : some (batch_failed e) ≡ some (refused why) → ⊥
      differ h = cc
  settle_batch-ne_refused p allocs (tree none) w h = differ h
    where
      differ : none ≡ some (refused why) → ⊥
      differ h = cc
  settle_batch-ne_refused p allocs (tree (some cid)) w h = conclude-ne_refused p cid _ _ h

  submit-ne_refused :
      (p : Prepared) (w : World) → (submit api parties request p w).0 ≡ some (refused why) → ⊥
  unfolding submit submit_batch
  submit-ne_refused p w h =
      let (_, _, h₁, _) = bind-some _ _ w (refused why) h in
      let (_, _, h₂, _) = bind-some _ _ _ (refused why) h₁ in
      let (_, _, h₃, _) = bind-some _ _ _ (refused why) h₂ in
      let (allocs, _, h₄, _) = bind-some _ _ _ (refused why) h₃ in
      settle_batch-ne_refused p allocs _ _ h₄

  settle_ready-same :
      (r : Ready) (w : World)
      → (settle_ready api parties request r w).0 ≡ some (refused why)
      → (settle_ready api parties request r w).1 ≡ w
  unfolding settle_ready
  settle_ready-same (held reason) w h = refl
  settle_ready-same (ready p) w h = absurd (submit-ne_refused p w h)

-- When `settle_real` refuses, be it for the policy, the book, the approval, the maturities, the
-- plan, or a plan that is not the approved one, nothing was submitted: on a ledger whose queries
-- change nothing, its state is what it was.
pub settle_real-Untouched :
    {World : Type 0} (solver : Solver) (api : NetApi World) (parties : Parties) (request : Request)
    (w : World) (why : Refusal)
    → ReadOnly api
    → (settle_real solver api parties request w).0 ≡ some (refused why)
    → (settle_real solver api parties request w).1 ≡ w
unfolding settle_real
settle_real-Untouched solver api parties request w why reads h =
    let (r, _, h₁, e₁) = bind-some _ _ w (refused why) h in
    e₁
    ∙ settle_ready-same api parties request why r _ h₁
    ∙ prepare-same solver api parties request reads w
