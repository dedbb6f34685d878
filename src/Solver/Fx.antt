-- ===== src/Solver/Fx.antt =====
-- `fx_factor`, `solve_fx`, `_diagnose_fx_infeasibility` and `solve_constrained` of agent/solver.py:
-- a book in several currencies, valued in one.
pub mod Rated
pub mod Settles
mod Examples
use tradeguard_canton.Prelude.{
  String, Bool, true, false, ◌&&◌, ◌||◌, Option, none, some, List, [], ◌∷◌, ◌++◌, map, keep,
  if◌then◌else◌,
}
use tradeguard_canton.Prelude.Int.{ℤ, pos, ◌+ℤ◌, ◌-ℤ◌, ◌*ℤ◌, ltb_ℤ, eqb_ℤ, round_ratio}
use tradeguard_canton.Prelude.Keys.{str_dec, str_leb}
use tradeguard_canton.Prelude.Dict.{Dict, get_or, insert}
use tradeguard_canton.Prelude.Sorting.{sort}
use tradeguard_canton.Netting.{Obligation, gross}
use tradeguard_canton.Solver.Model.{
  CreditLimit, FxRate, FloorConstraint, SolvedTransfer, Weights, Binding, no_rate, below_floor,
  no_settlement, SolveResult, residual, same, member,
}
use tradeguard_canton.Solver.Lp.{
  Var, Name, conserve_payer, conserve_receiver, floor, name_dec, Constraint, ge, Problem, Solver,
  value_of,
}
use tradeguard_canton.Solver.OneCurrency.{
  pair_dec, keys, at, is_payer, is_receiver, arcs, arc_cost, outflow, inflow, payer_row,
  receiver_row, add_all, applies, capped_of, add_caps, flow_transfers, transfer_order,
  short_receivers, is_empty,
}
use tradeguard_canton.Solver.Book.{solve}
use tradeguard_canton.Solver.Maximal.{distinct, negated}

-- `None`, a rate, or the error of `1.0 / r.rate`
pub data Factor : Type 0 where
  missing : Factor
  ratio : (num den : ℤ) → Factor
  zero_division : Factor

-- The second loop of `fx_factor`, over the inverse rates.
unfoldable pub inverse_rate : String → List FxRate → String → Factor
inverse_rate val_ccy [] cur = missing
inverse_rate val_ccy (r ∷ rates) cur =
    let rest = inverse_rate val_ccy rates cur in
    if same r.base val_ccy && same r.quote cur
    then (if eqb_ℤ r.rate_num (pos 0) then zero_division else ratio r.rate_den r.rate_num)
    else rest

-- The first loop, which falls through to the second.
unfoldable pub direct_rate : String → List FxRate → String → Factor → Factor
direct_rate val_ccy [] cur otherwise = otherwise
direct_rate val_ccy (r ∷ rates) cur otherwise =
    let rest = direct_rate val_ccy rates cur otherwise in
    if same r.base cur && same r.quote val_ccy then ratio r.rate_num r.rate_den else rest

unfoldable pub fx_factor : String → List FxRate → String → Factor
fx_factor val_ccy rates cur =
    if same cur val_ccy
    then ratio (pos 1) (pos 1)
    else direct_rate val_ccy rates cur (inverse_rate val_ccy rates cur)

-- `sorted({o.instrument for o in obligations})`
abbrev pub instruments_of : List Obligation → List String
instruments_of os = map (λ (o : Obligation). o.instrument) os

abbrev pub currencies_of : List Obligation → List String
currencies_of os = sort str_leb (distinct (instruments_of os))

-- The constraints for the currencies without a rate; `none` when a rate raises.
unfoldable pub unrated : String → List FxRate → List String → Option (List Binding)
unrated settle_ccy rates [] = some []
unrated settle_ccy rates (cur ∷ currencies) =
    let rest = unrated settle_ccy rates currencies in
    elim (fx_factor settle_ccy rates cur) [
      | missing ↦ elim rest [ none ↦ none | some bs ↦ some (no_rate cur settle_ccy ∷ bs) ]
      | ratio num den ↦ rest
      | zero_division ↦ none
    ]

-- `round(value ± o.amount * f, 2)`, rounded as a whole
abbrev pub add_share : ℤ → ℤ → ℤ → ℤ → ℤ
add_share value amount num den = round_ratio (value *ℤ den +ℤ amount *ℤ num) den

abbrev pub sub_share : ℤ → ℤ → ℤ → ℤ → ℤ
sub_share value amount num den = round_ratio (value *ℤ den -ℤ amount *ℤ num) den

-- One obligation of `val_net`; that its currency has a rate was tested before.
unfoldable pub post_value : String → List FxRate → Dict String ℤ → Obligation → Dict String ℤ
post_value settle_ccy rates net o = elim (fx_factor settle_ccy rates o.instrument) [
  | ratio num den ↦
      let debited = insert str_dec o.payer (sub_share (at o.payer net) o.amount num den) net in
      insert str_dec o.payee (add_share (at o.payee debited) o.amount num den) debited
  | _ ↦ net
]

unfoldable pub value_all : String → List FxRate → Dict String ℤ → List Obligation → Dict String ℤ
value_all settle_ccy rates net [] = net
value_all settle_ccy rates net (o ∷ os) =
    value_all settle_ccy rates (post_value settle_ccy rates net o) os

abbrev pub payers_in : Dict String ℤ → List String
payers_in net = keep (is_payer net) (keys net)

abbrev pub receivers_in : Dict String ℤ → List String
receivers_in net = keep (is_receiver net) (keys net)

abbrev pub Balances : Type 0
Balances = Dict (String × String) ℤ

-- `pre + recv - sent >= fl.floor`, with the numbers on the right
abbrev pub floor_row : List String → List String → Balances → FloorConstraint → Constraint
floor_row payers receivers balances fl =
    let recv = if member fl.party receivers then inflow fl.party payers else [] in
    let sent = if member fl.party payers then outflow fl.party receivers else [] in
    record {
      terms = recv ++ negated sent;
      relation = ge;
      bound = fl.floor -ℤ get_or pair_dec (fl.party, fl.currency) (pos 0) balances;
    }

unfoldable pub add_floors :
    List String
    → List String
    → Balances
    → List FloorConstraint
    → Dict Name Constraint
    → Dict Name Constraint
add_floors payers receivers balances [] d = d
add_floors payers receivers balances (fl ∷ fls) d =
    add_floors payers receivers balances fls
      (insert name_dec (floor fl.party) (floor_row payers receivers balances fl) d)

abbrev pub floors_in : String → List FloorConstraint → List FloorConstraint
floors_in settle_ccy floors = keep (λ (fl : FloorConstraint). same fl.currency settle_ccy) floors

unfoldable pub fx_problem :
    String → Dict String ℤ → List CreditLimit → List FloorConstraint → Balances → Weights → Problem
fx_problem settle_ccy net limits floors balances weights =
    let payers = payers_in net in
    let receivers = receivers_in net in
    record {
      maximise = false;
      objective = map (arc_cost weights) (arcs payers receivers);
      flows = arcs payers receivers;
      picks = [];
      constraints = add_floors payers receivers balances (floors_in settle_ccy floors) (
          add_caps (keep (applies settle_ccy payers receivers) limits) (
            add_all conserve_receiver (receiver_row net payers) receivers
              (add_all conserve_payer (payer_row net receivers) payers [])));
    }

unfoldable pub low_floors : String → Dict String ℤ → Balances → List FloorConstraint → List Binding
low_floors settle_ccy net balances [] = []
low_floors settle_ccy net balances (fl ∷ fls) =
    let pre = get_or pair_dec (fl.party, settle_ccy) (pos 0) balances in
    let rest = low_floors settle_ccy net balances fls in
    if ltb_ℤ (pre +ℤ at fl.party net) fl.floor
    then below_floor fl.party settle_ccy fl.floor pre (at fl.party net) ∷ rest
    else rest

unfoldable pub diagnose_fx_infeasibility :
    String
    → Dict String ℤ
    → Dict (String × String) ℤ
    → List FloorConstraint
    → Balances
    → List Binding
diagnose_fx_infeasibility settle_ccy net capped floors balances =
    let payers = payers_in net in
    let receivers = receivers_in net in
    elim (short_receivers settle_ccy net payers receivers capped receivers
      ++ low_floors settle_ccy net balances (floors_in settle_ccy floors)) [
        | [] ↦ no_settlement settle_ccy ∷ []
        | b ∷ bs ↦ b ∷ bs
      ]

-- The result of `solve_fx`, with what its branches fill in.
abbrev pub fx_result :
    Bool → List SolvedTransfer → Dict String (Dict String ℤ) → ℤ → List Binding → SolveResult
fx_result feasible transfers nets gross_obligations binding = record {
  feasible = feasible;
  transfers = transfers;
  net_positions = nets;
  gross_obligations = gross_obligations;
  gross_residual = residual transfers;
  objective_value = residual transfers;
  binding_constraints = binding;
  settled_obligations = [];
  deferred_obligations = [];
  settled_value = pos 0;
  deferred_value = pos 0;
  deferral_reasons = [];
}

module _ (solver : Solver) (rates : List FxRate) (settle_ccy : String) (limits : List CreditLimit)
    (floors : List FloorConstraint) (balances : Balances) (weights : Weights) where
  -- What follows the valuation.
  unfoldable pub solve_valued : ℤ → Dict String ℤ → SolveResult
  solve_valued total net =
      let payers = payers_in net in
      let receivers = receivers_in net in
      let nets = (settle_ccy, net) ∷ [] in
      let outcome = solver.run (fx_problem settle_ccy net limits floors balances weights) in
      let capped = capped_of (keep (applies settle_ccy payers receivers) limits) [] in
      if is_empty payers || is_empty receivers
      then fx_result true [] nets total []
      else if outcome.optimal
      then fx_result true
          (sort transfer_order
            (flow_transfers settle_ccy (value_of outcome) (arcs payers receivers)))
          nets total []
      else fx_result false [] nets total
          (diagnose_fx_infeasibility settle_ccy net capped floors balances)

  -- `none` when a rate of zero is inverted
  unfoldable pub solve_fx : List Obligation → Option SolveResult
  solve_fx obligations = elim (unrated settle_ccy rates (currencies_of obligations)) [
    | none ↦ none
    | some [] ↦ some (solve_valued (gross obligations) (value_all settle_ccy rates [] obligations))
    | some (b ∷ bs) ↦ some (fx_result false [] [] (gross obligations) (b ∷ bs))
  ]

  -- `if rates:`
  unfoldable pub solve_constrained : List Obligation → Option SolveResult
  solve_constrained obligations =
      if is_empty rates
      then some (solve solver obligations limits weights)
      else solve_fx obligations
