-- ===== src/Cycle.antt =====
-- agent/cycle.py: the netting cycle, driven over the ledger. What the module calls is the
-- interface `CycleApi`: the operator's query for cycles, the creation of one, the choices of the
-- ledger's contract, and the settlement of agent/net_settle.py.
pub mod Latest
pub mod Ledger
pub mod Opening
pub mod Running
mod Examples
use tradeguard_canton.Prelude.{
  ℕ, suc, ◌+◌, String, Bool, true, false, Option, none, some, List, [], ◌∷◌, ltb, if◌then◌else◌,
}
use tradeguard_canton.Prelude.Int.{ℤ, pos}

pub data Status : Type 0 where
  cycle_open cycle_closed cycle_settled : Status

-- A `NettingCycle` as the operator sees it. Contract ids are opaque; here they are numbers.
pub record Cycle : Type 0 where
  pub cid : ℕ
  pub cycle_number : ℕ
  pub status : Status
  pub settled_count : ℕ
  pub deferred_count : ℕ
  pub settled_value : ℤ
  pub deferred_value : ℤ

-- The arguments of `RecordSettlement`.
pub record Tally : Type 0 where
  pub sc : ℕ
  pub dc : ℕ
  pub sv : ℤ
  pub dv : ℤ

pub data Choice : Type 0 where
  close_cycle : Choice
  record_settlement : Tally → Choice
  roll_forward : Choice

-- The entries of `settle_real`'s answer that a cycle reads.
pub record Settlement : Type 0 where
  pub ok : Bool
  pub settled_obligations : Option ℕ
  pub deferred_obligations : Option ℕ
  pub settled : Option ℕ
  pub deferred : Option ℕ
  pub settled_gross : Option ℤ
  pub deferred_gross : Option ℤ

-- An operation answers with the error that `_err` finds, if any. None of the calls raises.
pub record CycleApi (World : Type 0) : Type 0 where
  pub query : World → List Cycle × World
  pub create : ℕ → World → Option String × World
  pub exercise : ℕ → Choice → World → Option String × World
  pub settle_real : World → Settlement × World

-- `max(rows, key=…)`: the first of the largest
abbrev pub best_of : Cycle → List Cycle → Cycle
best_of c [] = c
best_of c (d ∷ ds) = best_of (if ltb c.cycle_number d.cycle_number then d else c) ds

unfoldable pub latest : List Cycle → Option Cycle
latest [] = none
latest (c ∷ cs) = some (best_of c cs)

-- The answer of `open_cycle`.
pub data Opened : Type 0 where
  in_progress : Cycle → Opened
  opened : Option Cycle → Opened
  not_opened : String → Opened

pub data Failure : Type 0 where
  open_failed close_failed record_failed roll_failed : String → Failure
  expected_closed : Option Cycle → Failure
  vanished_before_record vanished_before_roll : Failure
  -- `cur["status"]` of a cycle that is not there
  no_cycle : Failure

pub record Report : Type 0 where
  pub cycle : ℕ
  pub tally : Tally
  pub next_cycle : ℕ
  pub next_status : Status

pub data Result : Type 0 where
  failed : Failure → Result
  ran : Report → Result

abbrev get {ℓ} : {A : Type ℓ} → A → Option A → A
get z none = z
get z (some x) = x

-- What `run_cycle` records of a settlement.
unfoldable pub tally_of : Settlement → Tally
tally_of s = record {
  sc = if s.ok then get 0 s.settled_obligations else get 0 s.settled;
  dc = if s.ok then get 0 s.deferred_obligations else get 0 s.deferred;
  sv = get (pos 0) s.settled_gross;
  dv = get (pos 0) s.deferred_gross;
}

-- `cur and cur["status"] in ("CycleOpen", "CycleClosed")`
abbrev pub is_live : Status → Bool
is_live cycle_open = true
is_live cycle_closed = true
is_live cycle_settled = false

module _ {World : Type 0} (api : CycleApi World) where
  unfoldable pub current_cycle : World → Option Cycle × World
  current_cycle w = let rows = api.query w in (latest rows.0, rows.1)

  -- The creation of `open_cycle`, with the next number.
  unfoldable pub create_cycle : ℕ → World → Opened × World
  create_cycle number w =
      let made = api.create number w in
      elim made.0 [
        | some e ↦ (not_opened e, made.1)
        | none ↦ let cur = current_cycle made.1 in (opened cur.0, cur.1)
      ]

  unfoldable pub open_cycle : World → Opened × World
  open_cycle w =
      let cur = current_cycle w in
      elim cur.0 [
        | none ↦ create_cycle 1 cur.1
        | some c ↦
            let fresh = create_cycle (c.cycle_number + 1) cur.1 in
            if is_live c.status then (in_progress c, cur.1) else fresh
      ]

  -- Steps 4 and 5 of `run_cycle`, the last first.
  unfoldable pub roll : ℕ → Tally → World → Result × World
  roll number tally w =
      let cur = current_cycle w in
      elim cur.0 [
        | none ↦ (failed vanished_before_roll, cur.1)
        | some settled ↦
            let rolled = api.exercise settled.cid roll_forward cur.1 in
            elim rolled.0 [
              | some e ↦ (failed (roll_failed e), rolled.1)
              | none ↦
                  let next = current_cycle rolled.1 in
                  (
                    ran (record {
                      cycle = number;
                      tally = tally;
                      next_cycle = elim next.0 [ some n ↦ n.cycle_number | none ↦ number + 1 ];
                      next_status = elim next.0 [ some n ↦ n.status | none ↦ cycle_open ];
                    }),
                    next.1,
                  )
            ]
      ]

  unfoldable pub record_outcome : ℕ → Tally → World → Result × World
  record_outcome number tally w =
      let cur = current_cycle w in
      elim cur.0 [
        | none ↦ (failed vanished_before_record, cur.1)
        | some closed ↦
            let done = api.exercise closed.cid (record_settlement tally) cur.1 in
            elim done.0 [
              | some e ↦ (failed (record_failed e), done.1)
              | none ↦ roll number tally done.1
            ]
      ]

  -- Step 3, for a cycle that is closed.
  unfoldable pub settle_closed : Option Cycle → World → Result × World
  settle_closed none w = (failed (expected_closed none), w)
  settle_closed (some c) w = elim c.status [
    | cycle_closed ↦ let s = api.settle_real w in record_outcome c.cycle_number (tally_of s.0) s.1
    | _ ↦ (failed (expected_closed (some c)), w)
  ]

  -- Step 2.
  unfoldable pub close : Option Cycle → World → Result × World
  close none w = (failed no_cycle, w)
  close (some c) w = elim c.status [
    | cycle_open ↦
        let closed = api.exercise c.cid close_cycle w in
        elim closed.0 [
          | some e ↦ (failed (close_failed e), closed.1)
          | none ↦ let cur = current_cycle closed.1 in settle_closed cur.0 cur.1
        ]
    | _ ↦ settle_closed (some c) w
  ]

  -- Step 1, when a cycle must be opened first.
  unfoldable pub open_first : World → Result × World
  open_first w =
      let answer = open_cycle w in
      elim answer.0 [
        | in_progress c ↦ close (some c) answer.1
        | opened c ↦ close c answer.1
        | not_opened e ↦ (failed (open_failed e), answer.1)
      ]

  unfoldable pub run_cycle : World → Result × World
  run_cycle w =
      let cur = current_cycle w in
      elim cur.0 [
        | none ↦ open_first cur.1
        | some c ↦ elim c.status [ cycle_settled ↦ open_first cur.1 | _ ↦ close (some c) cur.1 ]
      ]
