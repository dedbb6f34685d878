-- ===== src/Cycle/Running.antt =====
-- `run_cycle` against the ledger's contract: it always completes, and the next cycle is open.
use tradeguard_canton.Prelude.{
  ℕ, suc, ◌+◌, true, false, ◌≡◌, refl, ap, ◌∙◌, none, some, List, [], ◌∷◌, arith, All,
}
use tradeguard_canton.Cycle.{
  Status, cycle_open, cycle_closed, cycle_settled, Cycle, Tally, close_cycle, record_settlement,
  roll_forward, Settlement, Result, ran, tally_of, current_cycle, roll, record_outcome,
  settle_closed, close, open_first, open_cycle, create_cycle, run_cycle, is_live, latest,
}
use tradeguard_canton.Cycle.Ledger.{
  after-close_cycle, after-record_settlement, after-roll_forward, closed_cycle, recorded_cycle,
  Store, add, ledger, new_cycle, exercise, IsCurrent, IsBelow, IsBelow-mono, front-IsCurrent,
  exercise-IsCurrent, current_cycle-IsCurrent,
}

-- A settled cycle with the counts and values of a tally.
pub record IsRecorded (number : ℕ) (tally : Tally) (c : Cycle) : Type 0 where
  pub cycle_number : c.cycle_number ≡ number
  pub status : c.status ≡ cycle_settled
  pub settled_count : c.settled_count ≡ tally.sc
  pub deferred_count : c.deferred_count ≡ tally.dc
  pub settled_value : c.settled_value ≡ tally.sv
  pub deferred_value : c.deferred_value ≡ tally.dv

-- The report of a cycle with this number; an open successor on the ledger, the last contract that
-- was created; and before it the cycle with its tally.
pub record Completes (number : ℕ) (tally : Tally) (answer : Result × Store) : Type 0 where
  pub reports :
      answer.0
      ≡ ran (record {
        cycle = number;
        tally = tally;
        next_cycle = number + 1;
        next_status = cycle_open;
      })
  pub successor :
      (d : Cycle) × IsCurrent answer.1 d × (d.cycle_number ≡ number + 1) × (d.status ≡ cycle_open)
  pub recorded :
      (d : Cycle) × (c : Cycle) × (old : List Cycle) × (answer.1.history ≡ d ∷ c ∷ old)
      × IsRecorded number tally c

module _ (outcome : Settlement) where
  roll-Completes :
      (s : Store) (c : Cycle) (tally : Tally) (old : List Cycle)
      → IsCurrent s c
      → s.history ≡ c ∷ old
      → IsRecorded c.cycle_number tally c
      → Completes c.cycle_number tally (roll (ledger outcome) c.cycle_number tally s)
  unfolding roll
  roll-Completes s c tally old cur made recorded =
      let d = new_cycle s.next (c.cycle_number + 1) in
      let step =
        exercise-IsCurrent s c roll_forward d cur (after-roll_forward s.next c recorded.status)
          (omega arith) in
      simp
        (
          roll,
          current_cycle-IsCurrent outcome s c cur,
          step.0,
          current_cycle-IsCurrent outcome (exercise c.cid roll_forward s).1 d step.1,
        )
        (record {
          reports = refl;
          successor = (d, step.1, refl, refl);
          recorded = (d, c, old, step.2 ∙ ap (λ cs. d ∷ cs) made, recorded);
        })

  record_outcome-Completes :
      (s : Store) (c : Cycle) (tally : Tally)
      → IsCurrent s c
      → c.status ≡ cycle_closed
      → Completes c.cycle_number tally (record_outcome (ledger outcome) c.cycle_number tally s)
  unfolding record_outcome
  record_outcome-Completes s c tally cur status =
      let d = recorded_cycle s.next tally c in
      let step =
        exercise-IsCurrent s c (record_settlement tally) d cur
          (after-record_settlement s.next tally c status) (omega arith) in
      simp (record_outcome, current_cycle-IsCurrent outcome s c cur, step.0)
        (roll-Completes (exercise c.cid (record_settlement tally) s).1 d tally s.history step.1
          step.2
          (record {
            cycle_number = refl;
            status = refl;
            settled_count = refl;
            deferred_count = refl;
            settled_value = refl;
            deferred_value = refl;
          }))

  close-Completes :
      (s : Store) (c : Cycle)
      → IsCurrent s c
      → is_live c.status ≡ true
      → Completes c.cycle_number (tally_of outcome) (close (ledger outcome) (some c) s)
  unfolding close settle_closed
  close-Completes s c cur live = by_status c.status refl
    where
      closed : Cycle
      closed = closed_cycle s.next c

      not_live : c.status ≡ cycle_settled → ⊥
      not_live e = ground arith

      by_status :
          (st : Status)
          → c.status ≡ st
          → Completes c.cycle_number (tally_of outcome) (close (ledger outcome) (some c) s)
      by_status cycle_open e =
          let step =
            exercise-IsCurrent s c close_cycle closed cur (after-close_cycle s.next c e)
              (omega arith) in
          simp
            (
              close,
              e,
              step.0,
              current_cycle-IsCurrent outcome (exercise c.cid close_cycle s).1 closed step.1,
            )
            (record_outcome-Completes (exercise c.cid close_cycle s).1 closed (tally_of outcome)
              step.1 refl)
      by_status cycle_closed e =
          simp (close, e, settle_closed, e) (record_outcome-Completes s c (tally_of outcome) cur e)
      by_status cycle_settled e = absurd (not_live e)

  -- A new cycle becomes the current one, and is run.
  create-Completes :
      (s : Store) (number : ℕ)
      → All (IsBelow number) s.cycles
      → open_cycle (ledger outcome) s ≡ create_cycle (ledger outcome) number s
      → Completes number (tally_of outcome) (open_first (ledger outcome) s)
  unfolding open_first create_cycle
  create-Completes s number below same =
      let d = new_cycle s.next number in
      let s' : Store = add d s.cycles s in
      let cur = front-IsCurrent d s.cycles (suc s.next) (d ∷ s.history) below in
      simp (open_first, same, create_cycle, current_cycle-IsCurrent outcome s' d cur)
        (close-Completes s' d cur refl)

  -- Which cycle is due: the first on an empty ledger, the current one if it is open or closed, and
  -- otherwise its successor.
  pub data IsDue (s : Store) : ℕ → Type 0 where
    first : s.cycles ≡ [] → IsDue s 1
    current : (c : Cycle) → IsCurrent s c → is_live c.status ≡ true → IsDue s c.cycle_number
    successor :
        (c : Cycle) → IsCurrent s c → c.status ≡ cycle_settled → IsDue s (c.cycle_number + 1)

  current_cycle-first : (s : Store) → s.cycles ≡ [] → current_cycle (ledger outcome) s ≡ (none, s)
  unfolding current_cycle latest
  current_cycle-first s e = rw e refl

  pub open_cycle-first :
      (s : Store)
      → s.cycles ≡ []
      → open_cycle (ledger outcome) s ≡ create_cycle (ledger outcome) 1 s
  unfolding open_cycle
  open_cycle-first s e = simp (open_cycle, current_cycle-first s e) refl

  live-Completes :
      (s : Store) (c : Cycle)
      → IsCurrent s c
      → is_live c.status ≡ true
      → Completes c.cycle_number (tally_of outcome) (run_cycle (ledger outcome) s)
  unfolding run_cycle
  live-Completes s c cur live = by_status c.status refl
    where
      not_live : c.status ≡ cycle_settled → ⊥
      not_live e = ground arith

      by_status :
          (st : Status)
          → c.status ≡ st
          → Completes c.cycle_number (tally_of outcome) (run_cycle (ledger outcome) s)
      by_status cycle_open e =
          simp (run_cycle, current_cycle-IsCurrent outcome s c cur, e)
            (close-Completes s c cur live)
      by_status cycle_closed e =
          simp (run_cycle, current_cycle-IsCurrent outcome s c cur, e)
            (close-Completes s c cur live)
      by_status cycle_settled e = absurd (not_live e)

  pub open_cycle-successor :
      (s : Store) (c : Cycle)
      → IsCurrent s c
      → c.status ≡ cycle_settled
      → open_cycle (ledger outcome) s ≡ create_cycle (ledger outcome) (c.cycle_number + 1) s
  unfolding open_cycle
  open_cycle-successor s c cur e =
      simp (open_cycle, current_cycle-IsCurrent outcome s c cur, e) refl

-- What a settlement settled and deferred: it is ok and says so with the values, or it is not, as it
-- settled nothing, and says how many were deferred.
pub data Counts (outcome : Settlement) (tally : Tally) : Type 0 where
  did_settle :
      outcome.ok ≡ true
      → outcome.settled_obligations ≡ some tally.sc
      → outcome.deferred_obligations ≡ some tally.dc
      → outcome.settled_gross ≡ some tally.sv
      → outcome.deferred_gross ≡ some tally.dv
      → Counts outcome tally
  deferred_all :
      outcome.ok ≡ false
      → tally.sc ≡ 0
      → outcome.settled ≡ some 0
      → outcome.deferred ≡ some tally.dc
      → Counts outcome tally

tally_of-Counts :
    (outcome : Settlement) (t : Tally) → Counts outcome t → Counts outcome (tally_of outcome)
unfolding tally_of
tally_of-Counts outcome t (did_settle ok a b c d) =
    did_settle ok (rw (ok, a) refl) (rw (ok, b) refl) (rw c refl) (rw d refl)
tally_of-Counts outcome t (deferred_all ok z a b) =
    deferred_all ok (rw (ok, a) refl) a (rw (ok, b) refl)

run_cycle-tally :
    (outcome : Settlement) (s : Store) (number : ℕ)
    → IsDue outcome s number
    → Completes number (tally_of outcome) (run_cycle (ledger outcome) s)
unfolding run_cycle
run_cycle-tally outcome s number (first e) =
    simp (run_cycle, current_cycle-first outcome s e)
      (create-Completes outcome s 1 (rw e tt) (open_cycle-first outcome s e))
run_cycle-tally outcome s number (current c cur live) = live-Completes outcome s c cur live
run_cycle-tally outcome s number (successor c cur e) =
    simp (run_cycle, current_cycle-IsCurrent outcome s c cur, e)
      (create-Completes outcome s (c.cycle_number + 1)
        (IsBelow-mono c.cycle_number (c.cycle_number + 1) s.cycles (omega arith) cur.highest)
        (open_cycle-successor outcome s c cur e))

-- Against the ledger's contract, if the settlement settles, or defers everything, `run_cycle`
-- completes the cycle that is due: it reports it with what was settled and deferred; the last two
-- contracts that were created are the cycle, settled and with these counts, and the next cycle, which
-- is open and current. The counts are those of the settlement, and so are the values of one that
-- settles.
pub run_cycle-Completes :
    (outcome : Settlement) (s : Store) (number : ℕ) (counted : Tally)
    → Counts outcome counted
    → IsDue outcome s number
    → (tally : Tally) × Counts outcome tally × Completes number tally (run_cycle (ledger outcome) s)
run_cycle-Completes outcome s number counted counts is_due = (
  tally_of outcome,
  tally_of-Counts outcome counted counts,
  run_cycle-tally outcome s number is_due,
)
