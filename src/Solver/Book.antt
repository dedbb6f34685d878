-- ===== src/Solver/Book.antt =====
-- `_by_currency`, `solve` and `solve_report` of agent/solver.py: the book is solved currency by
-- currency, in the order of the currencies' names.
pub mod Groups
pub mod Settles
pub mod Refusal
mod Examples
use tradeguard_canton.Prelude.{ℕ, String, Bool, ◌&&◌, List, [], ◌∷◌, ◌++◌, length, all, map}
use tradeguard_canton.Prelude.Int.{ℤ, pos}
use tradeguard_canton.Prelude.Keys.{str_dec, str_leb}
use tradeguard_canton.Prelude.Dict.{Dict, get_or, insert}
use tradeguard_canton.Prelude.Sorting.{sort}
use tradeguard_canton.Netting.{Obligation, gross}
use tradeguard_canton.Solver.Model.{
  CreditLimit, SolvedTransfer, Weights, Binding, SolveResult, residual, netting_efficiency_pct,
}
use tradeguard_canton.Solver.Lp.{Solver}
use tradeguard_canton.Solver.OneCurrency.{OneCurrency, solve_one_currency}

-- `out.setdefault(key(x), []).append(x)`
module _ {A : Type 0} (key : A → String) where
  unfoldable pub group_all : Dict String (List A) → List A → Dict String (List A)
  group_all d [] = d
  group_all d (x ∷ xs) =
      group_all (insert str_dec (key x) (get_or str_dec (key x) [] d ++ x ∷ []) d) xs

unfoldable pub by_currency : List Obligation → Dict String (List Obligation)
by_currency os = group_all (λ o. o.instrument) [] os

-- `sorted(per_ccy.items())`, where no two items have the same key
abbrev pub by_name {ℓ} : {A : Type ℓ} → String × A → String × A → Bool
by_name a b = str_leb a.0 b.0

abbrev pub Answers : Type 0
Answers = List (String × OneCurrency)

-- What the loop of `solve` collects from the answers of the currencies.
abbrev pub transfers_of : Answers → List SolvedTransfer
transfers_of [] = []
transfers_of ((c, a) ∷ rest) = a.transfers ++ transfers_of rest

abbrev pub bindings_of : Answers → List Binding
bindings_of [] = []
bindings_of ((c, a) ∷ rest) = a.binding ++ bindings_of rest

unfoldable pub nets_of : Dict String (Dict String ℤ) → Answers → Dict String (Dict String ℤ)
nets_of d [] = d
nets_of d ((c, a) ∷ rest) = nets_of (insert str_dec c a.net d) rest

abbrev pub all_feasible : Answers → Bool
all_feasible answers = all (λ (a : String × OneCurrency). a.1.feasible) answers

module _ (solver : Solver) where
  unfoldable pub solve_each : List CreditLimit → Weights → List (String × List Obligation) → Answers
  solve_each limits weights [] = []
  solve_each limits weights ((c, os) ∷ rest) =
      (c, solve_one_currency solver c os limits weights) ∷ solve_each limits weights rest

  unfoldable pub solve : List Obligation → List CreditLimit → Weights → SolveResult
  solve obligations limits weights =
      let answers = solve_each limits weights (sort by_name (by_currency obligations)) in
      let transfers = transfers_of answers in
      record {
        feasible = all_feasible answers;
        transfers = transfers;
        net_positions = nets_of [] answers;
        gross_obligations = gross obligations;
        gross_residual = residual transfers;
        objective_value = residual transfers;
        binding_constraints = bindings_of answers;
        settled_obligations = [];
        deferred_obligations = [];
        settled_value = pos 0;
        deferred_value = pos 0;
        deferral_reasons = [];
      }

  -- `solve_report`, without the sentences of its rationale
  pub record SolveReport : Type 0 where
    pub feasible : Bool
    pub gross_obligations : ℤ
    pub gross_residual : ℤ
    pub efficiency : ℤ
    pub net_positions : Dict String (Dict String ℤ)
    pub residual_transfers : List SolvedTransfer
    pub residual_count : ℕ
    pub binding_constraints : List Binding

  unfoldable pub solve_report : List Obligation → List CreditLimit → Weights → SolveReport
  solve_report obligations limits weights =
      let r = solve obligations limits weights in
      record {
        feasible = r.feasible;
        gross_obligations = r.gross_obligations;
        gross_residual = r.gross_residual;
        efficiency = netting_efficiency_pct r;
        net_positions = r.net_positions;
        residual_transfers = r.transfers;
        residual_count = length r.transfers;
        binding_constraints = r.binding_constraints;
      }
