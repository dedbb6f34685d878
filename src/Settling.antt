-- ===== src/Settling.antt =====
-- The settlement of the obligation book, from agent/net_settle.py: `settle_real` reads the ledger,
-- plans by the solver, checks what was approved, and submits one batch; `settle_with_failover`
-- nets again without a party that failed. The ledger client is the interface `NetApi`.
pub mod Gates
pub mod Preparing
pub mod Submitting
pub mod Running
pub mod Untouched
pub mod Planned
pub mod Prepares
pub mod Executes
pub mod Failover
pub mod Approving
pub mod Currencies
pub mod Attempts
mod Examples
use Prim.Native.Char.{code}
use tradeguard_canton.Prelude.{
  ℕ, ◌+◌, String, Bool, true, false, not, ◌&&◌, ◌||◌, ◌==◌, leb, Option, none, some, List, [], ◌∷◌,
  map, any, if◌then◌else◌, get_elem?,
}
use tradeguard_canton.Prelude.Int.{ℤ}
use tradeguard_canton.Prelude.Keys.{str_dec}
use tradeguard_canton.Prelude.Dict.{Dict, insert}
use tradeguard_canton.Solver.Model.{CreditLimit, Weights, SolveResult, same}
use tradeguard_canton.Limits.{LedgerApi, short}

-- What `datetime.fromisoformat` makes of a maturity: a time without a zone cannot be compared.
pub data Due : Type 0 where
  undated unreadable unzoned : Due
  due_at : ℕ → Due

-- An obligation contract; `maturity` is the text that `due` is read from.
pub record Contract : Type 0 where
  pub contract_id : String
  pub reference : String
  pub payer : String
  pub payee : String
  pub amount : ℤ
  pub currency : String
  pub maturity : String
  pub due : Due

-- A row of the book that was approved.
pub record BookRow : Type 0 where
  pub reference : String
  pub payer : String
  pub payee : String
  pub amount : ℤ
  pub maturity : String

-- An `ApprovedAction` contract.
pub record Approval : Type 0 where
  pub contract_id : String
  pub decision : String
  pub agent : String
  pub approver : String
  pub trade_id : String

-- A residual transfer between short names, or between parties.
pub record Residual : Type 0 where
  pub sender : String
  pub receiver : String
  pub amount : ℤ

-- The plan that was approved.
pub record ApprovedPlan : Type 0 where
  pub settled_refs : List String
  pub deferred_refs : List String
  pub residual_transfers : List Residual
  pub gross_obligations : ℤ
  pub gross_residual : ℤ

-- What the parsed policy hands to the solver.
pub record PolicyInputs : Type 0 where
  pub valid : Bool
  pub weights : Weights
  pub limits : List CreditLimit

-- The arguments of `settle_real`, and the time of the call.
pub record Request : Type 0 where
  pub now : ℕ
  pub policy : Option PolicyInputs
  pub maximal : Bool
  pub exclude_parties : List String
  pub fail_party : Option String
  pub expected_book : Option (List BookRow)
  pub approved_plan : Option ApprovedPlan
  pub approved_action_cid : Option String
  pub approval_trade_id : Option String

pub record NetLeg : Type 0 where
  pub sender : String
  pub receiver : String
  pub amount : ℤ
  pub sender_account : String
  pub receiver_account : String

pub record Allocation : Type 0 where
  pub leg : NetLeg
  pub holding : String
  pub authority : String

pub record Fact : Type 0 where
  pub sender : String
  pub receiver : String
  pub amount : ℤ
  pub currency : String

-- The payload of a `NettingBatch`; an empty list of limits is `None`.
pub record Batch : Type 0 where
  pub obligations : List String
  pub facts : List Fact
  pub residual_legs : List NetLeg
  pub parties : List String
  pub credit_limits : Option (List String)
  pub aggregate_limits : Option (List String)

-- The answer to a transaction tree: refused, or the contract id found in it, if any.
pub data Tree : Type 0 where
  tree_refused : String → Tree
  tree : Option String → Tree

-- The answer to `SettleNetting`: a failure can leave open whether the ledger committed.
pub data Answer : Type 0 where
  accepted : Answer
  rejected : (error : String) (ambiguous : Bool) → Answer

-- The calls that raise answer `none` then. `create_instrument` and `create_authority` answer with
-- the contract id of `_created_cid`, which is empty when the response names none; `issue` and
-- `lock` with that of `_tree_created_cid`.
pub record NetApi (World : Type 0) : Type 0 where
  pub ledger : LedgerApi World
  pub query_obligations : World → Option (List Contract) × World
  pub query_approvals : World → Option (List Approval) × World
  -- contract id, and instrument id or coordinator
  pub query_instruments : World → Option (List (String × String)) × World
  pub create_instrument : World → Option String × World
  pub query_authorities : World → Option (List (String × String)) × World
  pub create_authority : World → Option String × World
  -- owner, and account id
  pub query_accounts : World → Option (List (String × String)) × World
  pub create_account : String → String → World → World
  -- instrument, owner, account, amount
  pub issue : String → String → String → ℤ → World → Option String × World
  -- holding, owner
  pub lock : String → String → World → Option String × World
  pub create_batch : Batch → World → Tree × World
  -- batch, allocations, actors
  pub settle_netting : String → List Allocation → List String → World → Answer × World
  pub mark_executed : String → World → Option String × World

-- `parties`: the keys and ids of the firms that are there, and the operator.
pub record Parties : Type 0 where
  pub operator : String
  pub firms : Dict String String

pub data Refusal : Type 0 where
  invalid_policy no_book book_changed not_approved plan_changed : Refusal
  nothing_due : (immature excluded : ℕ) → Refusal
  nothing_fits : (deferred : ℕ) → SolveResult → Refusal
  infeasible : SolveResult → Refusal

-- `[xs[i] for i in is]`, which raises out of range
unfoldable pub pick {ℓ} : {A : Type ℓ} → List A → List ℕ → Option (List A)
pick xs [] = some []
pick xs (i ∷ is) = elim (get_elem? xs i) [
  | none ↦ none
  | some x ↦ elim (pick xs is) [ none ↦ none | some ys ↦ some (x ∷ ys) ]
]

-- `xs == ys`, by the equality of the elements
abbrev pub all_same {ℓ} : {A : Type ℓ} → (A → A → Bool) → List A → List A → Bool
all_same eq [] [] = true
all_same eq (x ∷ xs) (y ∷ ys) = eq x y && all_same eq xs ys
all_same eq _ _ = false

-- `s.lower()` as code points, for the letters of ASCII
abbrev pub lower_code : ℕ → ℕ
lower_code c = if leb 65 c && leb c 90 then c + 32 else c

unfoldable pub lowered : String → List ℕ
lowered String.[] = []
lowered (String.◌∷◌ c s) = lower_code (code c) ∷ lowered s

-- `a.lower() == b.lower()`
unfoldable pub same_lower : String → String → Bool
same_lower a b = all_same (λ x y. x == y) (lowered a) (lowered b)

-- `short2full`: the party that a short name stands for
unfoldable pub short_names : Dict String String → Dict String String → Dict String String
short_names names [] = names
short_names names ((key, party) ∷ firms) =
    short_names (insert str_dec (short party) party names) firms
