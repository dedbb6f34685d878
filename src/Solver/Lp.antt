-- ===== src/Solver/Lp.antt =====
-- What agent/solver.py uses of PuLP and CBC, which it does not implement: a linear problem with
-- named constraints, a solver, and what a solver promises when it reports "Optimal". A solver's
-- values are whole cents, as the source rounds them (`round(var.value() or 0.0, 2)`).
pub mod Checker
use tradeguard_canton.Prelude.{
  ℕ, ℕ_discrete, String, Bool, true, Option, none, some, ◌≡◌, ◌⊎◌, List, [], ◌∷◌, All,
}
use tradeguard_canton.Prelude.Int.{ℤ, pos, ◌+ℤ◌, ◌*ℤ◌, ◌≤ℤ◌}
use tradeguard_canton.Prelude.Keys.{str_dec}
use tradeguard_canton.Prelude.Dict.{Dict, lookup, insert}

-- The variables `x_p_q`, with `lowBound=0`, and `z_k`, with `cat="Binary"`.
pub data Var : Type 0 where
  flow : (payer receiver : String) → Var
  pick : ℕ → Var

-- The names `conserve_payer_p`, …, of the constraints.
pub data Name : Type 0 where
  conserve_payer conserve_receiver conserve agg floor : String → Name
  limit : String → String → Name

unfoldable pub name_dec : Discrete Name
name_dec = hlevel str_dec

pub data Relation : Type 0 where
  eq le ge : Relation

pub record Constraint : Type 0 where
  pub terms : List (ℤ × Var)
  pub relation : Relation
  pub bound : ℤ

-- `prob += (constraint, name)`: a problem keeps its constraints by name.
pub record Problem : Type 0 where
  pub maximise : Bool
  pub objective : List (ℤ × Var)
  pub flows : List (String × String)
  pub picks : List ℕ
  pub constraints : Dict Name Constraint

-- `pulp.LpStatus[status] == "Optimal"`, and `var.value()`.
pub record Outcome : Type 0 where
  pub optimal : Bool
  pub value : Var → Option ℤ

-- `var.value() or 0.0`
abbrev pub or_zero : Option ℤ → ℤ
or_zero none = pos 0
or_zero (some x) = x

abbrev pub value_of : Outcome → Var → ℤ
value_of o x = or_zero (o.value x)

abbrev pub evaluate : (Var → ℤ) → List (ℤ × Var) → ℤ
evaluate v [] = pos 0
evaluate v ((c, x) ∷ terms) = c *ℤ v x +ℤ evaluate v terms

abbrev Related : Relation → ℤ → ℤ → Type 0
Related eq a b = a ≡ b
Related le a b = a ≤ℤ b
Related ge a b = b ≤ℤ a

abbrev pub Holds : (Var → ℤ) → Constraint → Type 0
Holds v c = Related c.relation (evaluate v c.terms) c.bound

pub record Satisfies (v : Var → ℤ) (p : Problem) : Type 0 where
  pub flows_nonneg : All (λ (a : String × String). pos 0 ≤ℤ v (flow a.0 a.1)) p.flows
  pub picks_binary : All (λ k. (v (pick k) ≡ pos 0) ⊎ (v (pick k) ≡ pos 1)) p.picks
  pub kept : (n : Name) (c : Constraint) → lookup name_dec n p.constraints ≡ some c → Holds v c

-- An optimal outcome satisfies the problem.
pub record Solver : Type 0 where
  pub run : Problem → Outcome
  pub sound : (p : Problem) → (run p).optimal ≡ true → Satisfies (value_of (run p)) p
