-- ===== src/Settling/Currencies/Valued.antt =====
-- What `settle_cross_currency` has read and submitted when it answers that the book is settled.
use tradeguard_canton.Prelude.{
  String, true, ◌≡◌, sym, ap, ◌∙◌, Option, some, List, [], ◌∷◌, map, All, if◌then◌else◌,
}
use tradeguard_canton.Prelude.Actions.{Run, return, lift, bind, bind-some}
use tradeguard_canton.Netting.{Obligation}
use tradeguard_canton.Solver.Model.{SolveResult}
use tradeguard_canton.Solver.Lp.{Solver}
use tradeguard_canton.Solver.OneCurrency.{is_empty}
use tradeguard_canton.Solver.Fx.{solve_fx, fx_factor}
use tradeguard_canton.Solver.Fx.Rated.{IsRatio}
use tradeguard_canton.Limits.{LedgerFxRate, load_fx_rates}
use tradeguard_canton.Settling.{
  Contract, Residual, Allocation, tree, accepted, Parties, short_names,
}
use tradeguard_canton.Settling.{NetApi}
use tradeguard_canton.Settling.Gates.{residuals_of}
use tradeguard_canton.Settling.Submitting.{involved}
use tradeguard_canton.Settling.Running.{legs_of, allocations}
use tradeguard_canton.Settling.Currencies.{
  FxApi, FxReceipt, FxSettlement, unseeded, solver_rates, fx_obligations, fx_batch_of, fx_receipt,
  submit_fx, settle_at_rates,
}

-- The transfer that an allocation pays for.
abbrev pub paid_by : Allocation → Residual
paid_by a = record { sender = a.leg.sender; receiver = a.leg.receiver; amount = a.leg.amount }

some_inj : {A : Type 0} {x y : A} → some x ≡ some y → x ≡ y
some_inj e = cc

-- The allocations pay for the transfers, each for its own.
pub paid_by-allocations :
    {World : Type 0} (api : NetApi World) (parties : Parties) (fail_party : Option String)
    (instrument authority : String) (rs : List Residual) (w : World) (allocs : List Allocation)
    → (allocations api parties fail_party instrument authority rs w).0 ≡ some allocs
    → map paid_by allocs ≡ rs
unfolding allocations
paid_by-allocations api parties fail_party instrument authority [] w allocs h =
    ap (map paid_by) (sym (some_inj h))
paid_by-allocations api parties fail_party instrument authority (r ∷ rs) w allocs h =
    let (s, _, h₁, _) = bind-some _ _ w allocs h in
    let (t, _, h₂, _) = bind-some _ _ _ allocs h₁ in
    let (locked, _, h₃, _) = bind-some _ _ _ allocs h₂ in
    let (rest, e, h₄, _) = bind-some _ _ _ allocs h₃ in
    ap (map paid_by) (sym (some_inj h₄))
    ∙ ap (λ xs. r ∷ xs)
        (paid_by-allocations api parties fail_party instrument authority rs _ rest e)

module _ {World : Type 0} (api : FxApi World) (parties : Parties) (rates : List LedgerFxRate)
    (rows : List Contract) (residuals : List Residual) where
  -- One batch was created with the rates, and settled; each allocation pays for a transfer.
  pub record FxSubmitted (r : FxReceipt) (after : World) : Type 0 where
    pub allocs : List Allocation
    pub paid : map paid_by allocs ≡ residuals
    pub creating : World
    pub creation :
        (api.create_batch (fx_batch_of rows rates (legs_of allocs)) creating).0
        ≡ tree (some r.batch_cid)
    pub settling : World
    pub created_before :
        settling ≡ (api.create_batch (fx_batch_of rows rates (legs_of allocs)) creating).1
    pub settlement :
        (api.net.settle_netting r.batch_cid allocs (parties.operator ∷ involved rows) settling).0
        ≡ accepted
    pub receipt_is : r ≡ fx_receipt rows residuals r.batch_cid
    pub last :
        after
        ≡ (api.net.settle_netting r.batch_cid allocs (parties.operator ∷ involved rows) settling).1

-- What was read, planned and submitted.
pub record FxExecuted {World : Type 0} (solver : Solver) (api : FxApi World) (parties : Parties)
    (r : FxReceipt) (after : World) : Type 0 where
  pub rows : List Contract
  pub read_at : World
  pub book_read : (api.query_book read_at).0 ≡ some rows
  pub rates : List LedgerFxRate
  pub rates_at : World
  pub rates_read : (load_fx_rates api.net.ledger rates_at).0 ≡ some rates
  pub plan : SolveResult
  pub planned :
      solve_fx solver (solver_rates rates) "USD" [] [] [] [] (fx_obligations rows) ≡ some plan
  pub feasible : plan.feasible ≡ true
  pub rated :
      All
        (λ (o : Obligation). IsRatio (fx_factor "USD" (solver_rates rates) o.instrument))
        (fx_obligations rows)
  pub residuals : List Residual
  pub residuals_are : residuals_of (short_names [] parties.firms) plan.transfers ≡ some residuals
  pub submitted : FxSubmitted api parties rates rows residuals r after

module _ {World : Type 0} (solver : Solver) (api : FxApi World) (parties : Parties) (r : FxReceipt)
    (rows : List Contract) where
  -- The plan was feasible, and its transfers were submitted.
  record Planned (rates : List LedgerFxRate) (plan : SolveResult) (after : World) : Type 0 where
    feasible : plan.feasible ≡ true
    residuals : List Residual
    residuals_are : residuals_of (short_names [] parties.firms) plan.transfers ≡ some residuals
    submitted : FxSubmitted api parties rates rows residuals r after

  -- The writes, for the transfers of the plan.
  abbrev submission : List LedgerFxRate → SolveResult → Run World FxSettlement
  submission rates plan =
      bind (lift (residuals_of (short_names [] parties.firms) plan.transfers))
        (λ residuals. submit_fx api parties rows residuals rates)

  -- What follows the book, if it is not empty.
  abbrev valued : Run World FxSettlement
  valued = bind (load_fx_rates api.net.ledger) (settle_at_rates solver api parties rows)

  abbrev unless_empty : Run World FxSettlement
  unless_empty = if is_empty rows then return unseeded else valued
