-- ===== src/Cycle/Examples.antt =====
-- A ledger whose first cycle is settled, and a settlement that settles two obligations and defers one.
use tradeguard_canton.Prelude.{true, ◌≡◌, refl, inr, none, some, [], ◌∷◌}
use tradeguard_canton.Prelude.Int.{pos}
use tradeguard_canton.Cycle.{
  Cycle, cycle_settled, close_cycle, Settlement, Tally, open_cycle, in_progress, is_live, run_cycle,
}
use tradeguard_canton.Cycle.Ledger.{
  Store, ledger, after, closed_cycle, new_cycle, IsCurrent, front-IsCurrent,
}
use tradeguard_canton.Cycle.Running.{
  IsDue, successor, Counts, did_settle, Completes, run_cycle-Completes,
}
use tradeguard_canton.Cycle.Opening.{open_cycle-twice}

abbrev settled_one : Cycle
settled_one = record {
  cid = 3;
  cycle_number = 1;
  status = cycle_settled;
  settled_count = 5;
  deferred_count = 0;
  settled_value = pos 36000;
  deferred_value = pos 0;
}

abbrev store : Store
store = record { cycles = settled_one ∷ []; next = 4; history = settled_one ∷ [] }

-- A settlement that settles two obligations and defers one.
abbrev settlement : Settlement
settlement = record {
  ok = true;
  settled_obligations = some 2;
  deferred_obligations = some 1;
  settled = none;
  deferred = none;
  settled_gross = some (pos 5000);
  deferred_gross = some (pos 900);
}

abbrev counted : Tally
counted = record { sc = 2; dc = 1; sv = pos 5000; dv = pos 900 }

is_current : IsCurrent store settled_one
is_current = front-IsCurrent settled_one [] 4 (settled_one ∷ []) tt

is_due : IsDue settlement store 2
is_due = successor settled_one is_current refl

run_cycle-Completes_example :
    (tally : Tally) × Counts settlement tally
    × Completes 2 tally (run_cycle (ledger settlement) store)
run_cycle-Completes_example =
    run_cycle-Completes settlement store 2 counted (did_settle refl refl refl refl refl) is_due

open_cycle-twice_example :
    (c : Cycle) × (open_cycle (ledger settlement) (open_cycle (ledger settlement) store).1
      ≡ (in_progress c, (open_cycle (ledger settlement) store).1))
    × (c.cycle_number ≡ 2)
    × (is_live c.status ≡ true)
open_cycle-twice_example = open_cycle-twice settlement store 2 is_due

closes : after 5 close_cycle (new_cycle 4 2) ≡ inr (closed_cycle 5 (new_cycle 4 2))
unfolding after
closes = refl
