-- ===== src/Cycle/Ledger.antt =====
-- The contract `NettingCycle` of tradeguard-v3/main/daml/TradeGuard/Netting.daml, as a ledger that
-- answers the calls of agent/cycle.py: each choice consumes its cycle and creates the next one.
use tradeguard_canton.Prelude.{
  ℕ, suc, ◌+◌, ◌≤◌, String, true, ◌≡◌, refl, ◌⊎◌, inl, inr, Option, none, some, List, [], ◌∷◌, ◌==◌,
  if◌then◌else◌, not, keep, All, All-map, All-keep, arith, ltb, Bool-cases, ap,
}
use tradeguard_canton.Prelude.Int.{pos}
use tradeguard_canton.Cycle.{
  cycle_open, cycle_closed, cycle_settled, Cycle, Tally, Choice, close_cycle, record_settlement,
  roll_forward, Settlement, CycleApi, latest, best_of, current_cycle,
}

-- The contract that a choice creates from a cycle, or the message of the assertion that fails.
-- `assertMsg "counts must be non-negative"` holds of natural numbers.
unfoldable pub after : ℕ → Choice → Cycle → String ⊎ Cycle
after fresh close_cycle c = elim c.status [
  | cycle_open ↦ inr (record c { cid = fresh; status = cycle_closed })
  | _ ↦ inl "can only close an Open cycle"
]
after fresh (record_settlement t) c = elim c.status [
  | cycle_closed ↦ inr (record {
    cid = fresh;
    cycle_number = c.cycle_number;
    status = cycle_settled;
    settled_count = t.sc;
    deferred_count = t.dc;
    settled_value = t.sv;
    deferred_value = t.dv;
  })
  | _ ↦ inl "can only record settlement on a Closed cycle"
]
after fresh roll_forward c = elim c.status [
  | cycle_settled ↦ inr (record {
    cid = fresh;
    cycle_number = c.cycle_number + 1;
    status = cycle_open;
    settled_count = 0;
    deferred_count = 0;
    settled_value = pos 0;
    deferred_value = pos 0;
  })
  | _ ↦ inl "can only roll forward from a Settled cycle"
]

-- The outcome of each choice where it is allowed.
abbrev pub closed_cycle : ℕ → Cycle → Cycle
closed_cycle fresh c = record {
  cid = fresh;
  cycle_number = c.cycle_number;
  status = cycle_closed;
  settled_count = c.settled_count;
  deferred_count = c.deferred_count;
  settled_value = c.settled_value;
  deferred_value = c.deferred_value;
}

abbrev pub recorded_cycle : ℕ → Tally → Cycle → Cycle
recorded_cycle fresh t c = record {
  cid = fresh;
  cycle_number = c.cycle_number;
  status = cycle_settled;
  settled_count = t.sc;
  deferred_count = t.dc;
  settled_value = t.sv;
  deferred_value = t.dv;
}

abbrev pub new_cycle : ℕ → ℕ → Cycle
new_cycle fresh number = record {
  cid = fresh;
  cycle_number = number;
  status = cycle_open;
  settled_count = 0;
  deferred_count = 0;
  settled_value = pos 0;
  deferred_value = pos 0;
}

pub after-close_cycle :
    (n : ℕ) (c : Cycle) → c.status ≡ cycle_open → after n close_cycle c ≡ inr (closed_cycle n c)
unfolding after
after-close_cycle n c e = rw e refl

pub after-record_settlement :
    (n : ℕ) (t : Tally) (c : Cycle)
    → c.status ≡ cycle_closed
    → after n (record_settlement t) c ≡ inr (recorded_cycle n t c)
unfolding after
after-record_settlement n t c e = rw e refl

pub after-roll_forward :
    (n : ℕ) (c : Cycle)
    → c.status ≡ cycle_settled
    → after n roll_forward c ≡ inr (new_cycle n (c.cycle_number + 1))
unfolding after
after-roll_forward n c e = rw e refl

-- The active cycles, the id that the next contract gets, and every contract that was ever created,
-- the last one first.
pub record Store : Type 0 where
  pub cycles : List Cycle
  pub next : ℕ
  pub history : List Cycle

-- The creation of a contract, beside the cycles that stay.
abbrev pub add : Cycle → List Cycle → Store → Store
add d kept s = record { cycles = d ∷ kept; next = suc s.next; history = d ∷ s.history }

abbrev pub find : ℕ → List Cycle → Option Cycle
find i [] = none
find i (c ∷ cs) = if i == c.cid then some c else find i cs

abbrev pub archive : ℕ → List Cycle → List Cycle
archive i cs = keep (λ (c : Cycle). not (i == c.cid)) cs

unfoldable pub exercise : ℕ → Choice → Store → Option String × Store
exercise i choice s = elim (find i s.cycles) [
  | none ↦ (some "contract not found", s)
  | some c ↦ elim (after s.next choice c) [
    | inl e ↦ (some e, s)
    | inr d ↦ (none, add d (archive i s.cycles) s)
  ]
]

-- The ledger beside a settlement that answers `outcome` and leaves the cycles alone.
abbrev pub ledger : Settlement → CycleApi Store
ledger outcome = record {
  query = λ s. (s.cycles, s);
  create = λ number s. (none, add (new_cycle s.next number) s.cycles s);
  exercise = exercise;
  settle_real = λ s. (outcome, s);
}

abbrev pub IsBelow : ℕ → Cycle → Type 0
IsBelow n c = c.cycle_number ≤ n

-- The cycle that drives the rhythm: none has a larger number, and its id finds it.
pub record IsCurrent (s : Store) (c : Cycle) : Type 0 where
  pub highest : All (IsBelow c.cycle_number) s.cycles
  pub found : find c.cid s.cycles ≡ some c
  pub is_latest : latest s.cycles ≡ some c

best_of-cycle : (c : Cycle) (cs : List Cycle) → All (IsBelow c.cycle_number) cs → best_of c cs ≡ c
best_of-cycle c [] h = refl
best_of-cycle c (d ∷ ds) h = elim (Bool-cases (ltb c.cycle_number d.cycle_number)) [
  | inl e ↦ absurd (above e)
  | inr e ↦ rw e (best_of-cycle c ds h.1)
]
  where
    above : ltb c.cycle_number d.cycle_number ≡ true → ⊥
    above e = let le : d.cycle_number ≤ c.cycle_number = h.0 in ground arith

-- A cycle that stands in front of smaller ones is the current one.
pub front-IsCurrent :
    (d : Cycle) (cs : List Cycle) (n : ℕ) (old : List Cycle)
    → All (IsBelow d.cycle_number) cs
    → IsCurrent (record { cycles = d ∷ cs; next = n; history = old }) d
unfolding latest
front-IsCurrent d cs n old h = record {
  highest = (omega arith, h);
  found = ground arith;
  is_latest = ap some (best_of-cycle d cs h);
}

pub IsBelow-mono : (m n : ℕ) (cs : List Cycle) → m ≤ n → All (IsBelow m) cs → All (IsBelow n) cs
IsBelow-mono m n cs le h = All-map (IsBelow m) (IsBelow n) cs (λ c k. omega arith) h

-- A choice that the contract allows makes its outcome the current cycle.
pub exercise-IsCurrent :
    (s : Store) (c : Cycle) (choice : Choice) (d : Cycle)
    → IsCurrent s c
    → after s.next choice c ≡ inr d
    → c.cycle_number ≤ d.cycle_number
    → ((exercise c.cid choice s).0 ≡ none)
      × IsCurrent (exercise c.cid choice s).1 d
      × ((exercise c.cid choice s).1.history ≡ d ∷ s.history)
unfolding exercise
exercise-IsCurrent s c choice d cur allowed le =
    rw (exercise, cur.found, allowed)
      (
        refl,
        front-IsCurrent d (archive c.cid s.cycles) (suc s.next) (d ∷ s.history) (
            All-keep (IsBelow d.cycle_number) (λ (x : Cycle). not (c.cid == x.cid)) s.cycles
              (IsBelow-mono c.cycle_number d.cycle_number s.cycles le cur.highest)),
        refl,
      )

pub current_cycle-IsCurrent :
    (outcome : Settlement) (s : Store) (c : Cycle)
    → IsCurrent s c
    → current_cycle (ledger outcome) s ≡ (some c, s)
unfolding current_cycle
current_cycle-IsCurrent outcome s c cur = rw cur.is_latest refl
