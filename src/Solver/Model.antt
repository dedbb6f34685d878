-- ===== src/Solver/Model.antt =====
-- The vocabulary of agent/solver.py. Amounts, limits, floors and balances are whole cents, the
-- weights of a policy are hundredths, so the source's `EPS` tests are tests against zero.
use tradeguard_canton.Prelude.{
  ℕ, String, Bool, true, false, List, [], ◌∷◌, length, if◌then◌else◌, ite, ltb,
}
use tradeguard_canton.Prelude.Int.{ℤ, pos, ◌+ℤ◌, ◌-ℤ◌, leb_ℤ, round_ratio, times_ℕ}
use tradeguard_canton.Prelude.Keys.{str_dec}
use tradeguard_canton.Prelude.Dict.{Dict}
use tradeguard_canton.Netting.{Transfer}

pub record CreditLimit : Type 0 where
  pub frm : String
  pub to : String
  pub limit : ℤ
  pub currency : String

pub record AggLimit : Type 0 where
  pub party : String
  pub limit : ℤ
  pub currency : String

-- A rate is the ratio of two integers.
pub record FxRate : Type 0 where
  pub base : String
  pub quote : String
  pub rate_num : ℤ
  pub rate_den : ℤ

pub record FloorConstraint : Type 0 where
  pub party : String
  pub currency : String
  pub floor : ℤ

pub record SolvedTransfer : Type 0 where
  pub sender : String
  pub receiver : String
  pub amount : ℤ
  pub currency : String

-- A solved transfer in the vocabulary of agent/netting.py.
abbrev pub as_transfer : SolvedTransfer → Transfer
as_transfer t = record {
  sender = t.sender;
  receiver = t.receiver;
  amount = t.amount;
  instrument = t.currency;
}

-- `objective_weights`, keyed by (payer, receiver)
abbrev pub Weights : Type 0
Weights = Dict (String × String) ℤ

-- A sentence of `binding_constraints` or of `deferral_reasons`, with the figures that it shows.
pub data Binding : Type 0 where
  receiver_short : (receiver currency : String) (due capacity : ℤ) → Binding
  payer_short : (payer currency : String) (owed capacity : ℤ) → Binding
  no_settlement : (currency : String) → Binding
  no_rate : (currency settle_ccy : String) → Binding
  below_floor : (party currency : String) (floor pre net : ℤ) → Binding
  aggregate_exceeded : (party currency : String) (cap owed : ℤ) → Binding
  inbound_exceeded : (receiver currency : String) (cap owed : ℤ) → Binding
  deferred_for_limits : (count : ℕ) (currency : String) → Binding

-- `SolveResult`, without its rationale.
pub record SolveResult : Type 0 where
  pub feasible : Bool
  pub transfers : List SolvedTransfer
  pub net_positions : Dict String (Dict String ℤ)
  pub gross_obligations : ℤ
  pub gross_residual : ℤ
  pub objective_value : ℤ
  pub binding_constraints : List Binding
  pub settled_obligations : List ℕ
  pub deferred_obligations : List ℕ
  pub settled_value : ℤ
  pub deferred_value : ℤ
  pub deferral_reasons : List Binding

-- `SolveResult.netting_efficiency_pct`, in tenths
unfoldable pub netting_efficiency_pct : SolveResult → ℤ
netting_efficiency_pct r =
    if leb_ℤ r.gross_obligations (pos 0)
    then pos 0
    else round_ratio (times_ℕ 1000 (r.gross_obligations -ℤ r.gross_residual)) r.gross_obligations

-- `SolveResult.settlement_rate_pct`, in tenths
unfoldable pub settlement_rate_pct : SolveResult → ℤ
settlement_rate_pct r =
    let total = r.settled_value +ℤ r.deferred_value in
    if leb_ℤ total (pos 0)
    then (if ltb 0 (length r.deferred_obligations) then pos 0 else pos 1000)
    else round_ratio (times_ℕ 1000 r.settled_value) total

-- `sum(t.amount for t in transfers)`
unfoldable pub residual : List SolvedTransfer → ℤ
residual [] = pos 0
residual (t ∷ ts) = t.amount +ℤ residual ts

abbrev pub same : String → String → Bool
same a b = ite (str_dec a b) true false

-- `p in parties`
abbrev pub member : String → List String → Bool
member p [] = false
member p (q ∷ qs) = if same p q then true else member p qs
