-- ===== src/Cycle/Opening.antt =====
-- `open_cycle` against the ledger's contract, and the order in which the contract's choices run.
use tradeguard_canton.Prelude.{ℕ, suc, ◌+◌, ◌*◌, ◌≡◌, refl, inr, ◌∷◌, arith, All, true}
use tradeguard_canton.Cycle.{
  Status, cycle_open, cycle_closed, cycle_settled, Cycle, Choice, close_cycle, record_settlement,
  roll_forward, Settlement, open_cycle, create_cycle, is_live, in_progress,
}
use tradeguard_canton.Cycle.Ledger.{
  after, Store, add, ledger, new_cycle, IsCurrent, IsBelow, IsBelow-mono, front-IsCurrent,
  current_cycle-IsCurrent,
}
use tradeguard_canton.Cycle.Running.{
  IsDue, first, current, successor, open_cycle-first, open_cycle-successor,
}

-- The place of a cycle in the rhythm: three phases a cycle.
abbrev pub phase : Status → ℕ
phase cycle_open = 0
phase cycle_closed = 1
phase cycle_settled = 2

abbrev pub rank : Cycle → ℕ
rank c = 3 * c.cycle_number + phase c.status

-- Every choice that the contract allows advances the rhythm by exactly one phase: no cycle is
-- settled before it is closed, and none is rolled forward before it is settled.
pub after-rank :
    (fresh : ℕ) (choice : Choice) (c d : Cycle) → after fresh choice c ≡ inr d → rank d ≡ rank c + 1
unfolding after
after-rank n close_cycle c d h = ground arith
after-rank n (record_settlement t) c d h = ground arith
after-rank n roll_forward c d h = ground arith

module _ (outcome : Settlement) where
  live-open_cycle :
      (s : Store) (c : Cycle)
      → IsCurrent s c
      → is_live c.status ≡ true
      → open_cycle (ledger outcome) s ≡ (in_progress c, s)
  unfolding open_cycle
  live-open_cycle s c cur live =
      simp (open_cycle, current_cycle-IsCurrent outcome s c cur, live) refl

  -- A created cycle is in progress.
  create_cycle-open_cycle :
      (s : Store) (number : ℕ)
      → All (IsBelow number) s.cycles
      → open_cycle (ledger outcome) (create_cycle (ledger outcome) number s).1
        ≡ (in_progress (new_cycle s.next number), (create_cycle (ledger outcome) number s).1)
  unfolding create_cycle
  create_cycle-open_cycle s number below =
      let d = new_cycle s.next number in
      let s' : Store = add d s.cycles s in
      let cur = front-IsCurrent d s.cycles (suc s.next) (d ∷ s.history) below in
      simp (create_cycle, current_cycle-IsCurrent outcome s' d cur) (live-open_cycle s' d cur refl)

-- Opening a cycle a second time answers with the cycle that is due, as one in progress, and leaves
-- the ledger as it is: nothing is created again.
pub open_cycle-twice :
    (outcome : Settlement) (s : Store) (number : ℕ)
    → IsDue outcome s number
    → (c : Cycle) × (open_cycle (ledger outcome) (open_cycle (ledger outcome) s).1
        ≡ (in_progress c, (open_cycle (ledger outcome) s).1))
      × (c.cycle_number ≡ number)
      × (is_live c.status ≡ true)
open_cycle-twice outcome s number (first e) = (
  new_cycle s.next 1,
  rw (open_cycle-first outcome s e) (create_cycle-open_cycle outcome s 1 (rw e tt)),
  refl,
  refl,
)
open_cycle-twice outcome s number (current c cur live) = (
  c,
  rw (live-open_cycle outcome s c cur live) (live-open_cycle outcome s c cur live),
  refl,
  live,
)
open_cycle-twice outcome s number (successor c cur e) = (
  new_cycle s.next (c.cycle_number + 1),
  rw (open_cycle-successor outcome s c cur e) (
      create_cycle-open_cycle outcome s (c.cycle_number + 1)
        (IsBelow-mono c.cycle_number (c.cycle_number + 1) s.cycles (omega arith) cur.highest)),
  refl,
  refl,
)
