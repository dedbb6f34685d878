-- ===== src/Settling/Executes.antt =====
-- What `settle_real` has submitted when it answers that the book is settled.
use tradeguard_canton.Prelude.{
  ◌+◌, String, true, false, ◌≡◌, refl, ap, ◌∙◌, Option, none, some, List, ◌∷◌, length, All,
}
use tradeguard_canton.Prelude.Actions.{bind-some}
use tradeguard_canton.Solver.Lp.{Solver}
use tradeguard_canton.Settling.{
  Contract, Residual, Request, Allocation, Tree, tree_refused, tree, Answer, accepted, rejected,
  NetApi, Parties,
}
use tradeguard_canton.Settling.Gates.{is_due, touches_excluded}
use tradeguard_canton.Settling.Preparing.{Prepared, Ready, ready, held}
use tradeguard_canton.Settling.Submitting.{
  involved, batch_of, refused, batch_failed, settle_failed, settled, Receipt, receipt,
}
use tradeguard_canton.Settling.Running.{
  legs_of, mark_approval, conclude, settle_batch, submit_batch, submit, settle_ready, settle_real,
}
use tradeguard_canton.Settling.Planned.{All-pick}
use tradeguard_canton.Settling.Prepares.{IsPrepared, prepare-IsPrepared}

module _ {World : Type 0} (api : NetApi World) (parties : Parties) (request : Request) where
  -- One batch was created and settled, and then at most the approval was marked.
  pub record Submitted (p : Prepared) (r : Receipt) (after : World) : Type 0 where
    pub allocs : List Allocation
    pub creating : World
    pub creation :
        (api.create_batch (batch_of p (legs_of allocs)) creating).0 ≡ tree (some r.batch_cid)
    pub settling : World
    pub created_before : settling ≡ (api.create_batch (batch_of p (legs_of allocs)) creating).1
    pub settlement :
        (api.settle_netting r.batch_cid allocs
          (parties.operator ∷ involved p.settled_rows)
          settling).0
        ≡ accepted
    pub mark_error : Option String
    pub receipt_is : r ≡ receipt p r.batch_cid mark_error
    pub last :
        after
        ≡ (mark_approval api parties request.approved_action_cid
            (api.settle_netting r.batch_cid allocs
              (parties.operator ∷ involved p.settled_rows)
              settling).1).1

  settled_inj : {x y : Receipt} → some (settled x) ≡ some (settled y) → x ≡ y
  settled_inj e = cc

  module _ (p : Prepared) (allocs : List Allocation) (start w : World) where
    conclude-Submitted :
        (cid : String) (answer : Answer) (r : Receipt) (after : World)
        → (api.create_batch (batch_of p (legs_of allocs)) start).0 ≡ tree (some cid)
        → w ≡ (api.create_batch (batch_of p (legs_of allocs)) start).1
        → (api.settle_netting cid allocs (parties.operator ∷ involved p.settled_rows) w).0 ≡ answer
        → after ≡ (api.settle_netting cid allocs (parties.operator ∷ involved p.settled_rows) w).1
        → (conclude api parties request p cid answer after).0 ≡ some (settled r)
        → Submitted p r (conclude api parties request p cid answer after).1
    unfolding conclude receipt
    conclude-Submitted cid (rejected e b) r after made at answered then_at h = absurd (differ h)
      where
        differ : {rs : List Residual} → some (settle_failed e b rs) ≡ some (settled r) → ⊥
        differ h = cc
    conclude-Submitted cid accepted r after made at answered then_at h =
        rw (← settled_inj h) (record {
          allocs = allocs;
          creating = start;
          creation = made;
          settling = w;
          created_before = at;
          settlement = answered;
          mark_error = (mark_approval api parties request.approved_action_cid after).0;
          receipt_is = refl;
          last = ap (λ v. (mark_approval api parties request.approved_action_cid v).1) then_at;
        })

    settle_batch-Submitted :
        (made : Tree) (r : Receipt)
        → (api.create_batch (batch_of p (legs_of allocs)) start).0 ≡ made
        → w ≡ (api.create_batch (batch_of p (legs_of allocs)) start).1
        → (settle_batch api parties request p allocs made w).0 ≡ some (settled r)
        → Submitted p r (settle_batch api parties request p allocs made w).1
    unfolding settle_batch
    settle_batch-Submitted (tree_refused e) r made at h = absurd (differ h)
      where
        differ : some (batch_failed e) ≡ some (settled r) → ⊥
        differ h = cc
    settle_batch-Submitted (tree none) r made at h = absurd (differ h)
      where
        differ : none ≡ some (settled r) → ⊥
        differ h = cc
    settle_batch-Submitted (tree (some cid)) r made at h =
        conclude-Submitted cid _ r _ made at refl refl h

  submit-Submitted :
      (p : Prepared) (w : World) (r : Receipt)
      → (submit api parties request p w).0 ≡ some (settled r)
      → Submitted p r (submit api parties request p w).1
  unfolding submit submit_batch
  submit-Submitted p w r h =
      let (_, _, h₁, e₁) = bind-some _ _ w (settled r) h in
      let (_, _, h₂, e₂) = bind-some _ _ _ (settled r) h₁ in
      let (_, _, h₃, e₃) = bind-some _ _ _ (settled r) h₂ in
      let (allocs, _, h₄, e₄) = bind-some _ _ _ (settled r) h₃ in
      rw (e₁, e₂, e₃, e₄) (settle_batch-Submitted p allocs _ _ _ r refl refl h₄)

  settle_ready-Submitted :
      (ready_or : Ready) (w : World) (r : Receipt)
      → (settle_ready api parties request ready_or w).0 ≡ some (settled r)
      → (p : Prepared) × (ready_or ≡ ready p)
        × Submitted p r (settle_ready api parties request ready_or w).1
  unfolding settle_ready
  settle_ready-Submitted (held why) w r h = absurd (differ h)
    where
      differ : some (refused why) ≡ some (settled r) → ⊥
      differ h = cc
  settle_ready-Submitted (ready p) w r h = (p, refl, submit-Submitted p w r h)

-- What `settle_real` has read and submitted.
pub record Executed {World : Type 0} (solver : Solver) (api : NetApi World) (parties : Parties)
    (request : Request) (r : Receipt) (after : World) : Type 0 where
  pub prepared : Prepared
  pub read : IsPrepared solver api parties request prepared
  pub submitted : Submitted api parties request prepared r after
  -- every obligation of the batch is due, and no excluded party has a side of it
  pub due : All (λ (c : Contract). is_due request.now c.due ≡ some true) prepared.settled_rows
  pub apart : All (λ c. touches_excluded request.exclude_parties c ≡ false) prepared.settled_rows
  pub counted :
      length prepared.rows + r.immature_excluded + r.failure_excluded ≡ length read.all_rows

pub settle_real-Executed :
    {World : Type 0} (solver : Solver) (api : NetApi World) (parties : Parties) (request : Request)
    (w : World) (r : Receipt)
    → (settle_real solver api parties request w).0 ≡ some (settled r)
    → Executed solver api parties request r (settle_real solver api parties request w).1
unfolding settle_real receipt
settle_real-Executed solver api parties request w r h =
    let (x, e, h₁, e₁) = bind-some _ _ w (settled r) h in
    let (p, f, done) = settle_ready-Submitted api parties request x _ r h₁ in
    let read = prepare-IsPrepared solver api parties request w p (e ∙ ap some f) in
    let planned = read.planned in
    rw e₁ (record {
      prepared = p;
      read = read;
      submitted = done;
      due = All-pick _ p.rows p.settle_set p.settled_rows planned.due planned.resolved.settled_are;
      apart =
          All-pick _ p.rows p.settle_set p.settled_rows planned.apart planned.resolved.settled_are;
      counted = rw done.receipt_is planned.counted;
    })
