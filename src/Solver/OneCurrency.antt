-- ===== src/Solver/OneCurrency.antt =====
-- `_solve_one_currency` and `_diagnose_infeasibility` of agent/solver.py.
pub mod Sums
pub mod Problems
pub mod Settles
pub mod Limits
pub mod Diagnosis
pub mod Residual
mod Examples
use tradeguard_canton.Prelude.{
  ℕ, String, Bool, true, false, not, ◌&&◌, ◌||◌, Option, none, some, List, [], ◌∷◌, ◌++◌, map, keep,
  any, if◌then◌else◌, ite,
}
use tradeguard_canton.Prelude.Int.{ℤ, pos, negsuc, ◌+ℤ◌, ◌-ℤ◌, neg, ltb_ℤ, leb_ℤ, eqb_ℤ}
use tradeguard_canton.Prelude.Keys.{str_dec, str_leb}
use tradeguard_canton.Prelude.Dict.{Dict, get_or, insert, lookup}
use tradeguard_canton.Prelude.Sorting.{sort}
use tradeguard_canton.Netting.{Obligation, net_positions}
use tradeguard_canton.Solver.Model.{
  CreditLimit, SolvedTransfer, Weights, Binding, receiver_short, payer_short, no_settlement, same,
  member,
}
use tradeguard_canton.Solver.Lp.{
  Var, flow, Name, conserve_payer, conserve_receiver, limit, name_dec, Constraint, eq, le, Problem,
  Outcome, Solver, value_of,
}

-- A pair of parties as a key.
unfoldable pub pair_dec : Discrete (String × String)
unfolding str_dec
pair_dec (a, b) (c, d) = elim (str_dec a c) [
  | yes p ↦ elim (str_dec b d) [ yes q ↦ yes λ i. (p i, q i) | no q ↦ no λ e. q λ i. (e i).1 ]
  | no p ↦ no λ e. p λ i. (e i).0
]

abbrev pub keys : Dict String ℤ → List String
keys [] = []
keys ((k, v) ∷ d) = k ∷ keys d

abbrev pub at : String → Dict String ℤ → ℤ
at p net = get_or str_dec p (pos 0) net

-- `sorted(net.keys())`
abbrev pub parties_of : Dict String ℤ → List String
parties_of net = sort str_leb (keys net)

abbrev pub is_payer : Dict String ℤ → String → Bool
is_payer net p = ltb_ℤ (at p net) (pos 0)

abbrev pub is_receiver : Dict String ℤ → String → Bool
is_receiver net p = ltb_ℤ (pos 0) (at p net)

abbrev pub payers_of : Dict String ℤ → List String
payers_of net = keep (is_payer net) (parties_of net)

abbrev pub receivers_of : Dict String ℤ → List String
receivers_of net = keep (is_receiver net) (parties_of net)

-- `for p in payers for q in receivers`
abbrev pub arcs_from : String → List String → List (String × String)
arcs_from p [] = []
arcs_from p (q ∷ qs) = (p, q) ∷ arcs_from p qs

unfoldable pub arcs : List String → List String → List (String × String)
arcs [] qs = []
arcs (p ∷ ps) qs = arcs_from p qs ++ arcs ps qs

-- `(1.0 + objective_weights.get((p, q), 0.0)) * x[(p, q)]`, in hundredths
abbrev pub arc_cost : Weights → String × String → ℤ × Var
arc_cost weights a = (pos 100 +ℤ get_or pair_dec a (pos 0) weights, flow a.0 a.1)

-- `lpSum(x[(p, q)] for q in receivers)`, and the same for a receiver
abbrev pub outflow : String → List String → List (ℤ × Var)
outflow p [] = []
outflow p (q ∷ qs) = (pos 1, flow p q) ∷ outflow p qs

abbrev pub inflow : String → List String → List (ℤ × Var)
inflow q [] = []
inflow q (p ∷ ps) = (pos 1, flow p q) ∷ inflow q ps

abbrev pub payer_row : Dict String ℤ → List String → String → Constraint
payer_row net receivers p = record {
  terms = outflow p receivers;
  relation = eq;
  bound = neg (at p net);
}

abbrev pub receiver_row : Dict String ℤ → List String → String → Constraint
receiver_row net payers q = record { terms = inflow q payers; relation = eq; bound = at q net }

-- The loops that add one constraint for each party.
module _ (name : String → Name) (constraint : String → Constraint) where
  unfoldable pub add_all : List String → Dict Name Constraint → Dict Name Constraint
  add_all [] d = d
  add_all (p ∷ ps) d = add_all ps (insert name_dec (name p) (constraint p) d)

-- The limits of this currency between a payer and a receiver.
abbrev pub applies : String → List String → List String → CreditLimit → Bool
applies currency payers receivers cl =
    same cl.currency currency && (member cl.frm payers && member cl.to receivers)

abbrev pub cap_row : CreditLimit → Constraint
cap_row cl = record { terms = (pos 1, flow cl.frm cl.to) ∷ []; relation = le; bound = cl.limit }

-- `capped[(cl.frm, cl.to)] = cl.limit` beside `prob += (x <= cl.limit, name)`
unfoldable pub capped_of : List CreditLimit → Dict (String × String) ℤ → Dict (String × String) ℤ
capped_of [] d = d
capped_of (cl ∷ cls) d = capped_of cls (insert pair_dec (cl.frm, cl.to) cl.limit d)

unfoldable pub add_caps : List CreditLimit → Dict Name Constraint → Dict Name Constraint
add_caps [] d = d
add_caps (cl ∷ cls) d = add_caps cls (insert name_dec (limit cl.frm cl.to) (cap_row cl) d)

unfoldable pub netting_problem : String → Dict String ℤ → List CreditLimit → Weights → Problem
netting_problem currency net limits weights =
    let payers = payers_of net in
    let receivers = receivers_of net in
    record {
      maximise = false;
      objective = map (arc_cost weights) (arcs payers receivers);
      flows = arcs payers receivers;
      picks = [];
      constraints = add_caps (keep (applies currency payers receivers) limits) (
          add_all conserve_receiver (receiver_row net payers) receivers
            (add_all conserve_payer (payer_row net receivers) payers []));
    }

-- `round(var.value() or 0.0, 2)` for each arc, those that are positive
unfoldable pub flow_transfers : String → (Var → ℤ) → List (String × String) → List SolvedTransfer
flow_transfers currency v [] = []
flow_transfers currency v ((p, q) ∷ rest) =
    let amt = v (flow p q) in
    let others = flow_transfers currency v rest in
    if ltb_ℤ (pos 0) amt
    then record { sender = p; receiver = q; amount = amt; currency = currency } ∷ others
    else others

-- `key=lambda t: (-t.amount, t.sender, t.receiver)`
abbrev pub transfer_order : SolvedTransfer → SolvedTransfer → Bool
transfer_order s t =
    if ltb_ℤ t.amount s.amount
    then true
    else if ltb_ℤ s.amount t.amount
    then false
    else if same s.sender t.sender
    then str_leb s.receiver t.receiver
    else str_leb s.sender t.sender

-- `sum(capped[(p, q)] for p in payers if (p, q) in capped)`, given the keys
abbrev pub is_capped : Dict (String × String) ℤ → String × String → Bool
is_capped capped a = elim (lookup pair_dec a capped) [ none ↦ false | some _ ↦ true ]

unfoldable pub capacity : Dict (String × String) ℤ → List (String × String) → ℤ
capacity capped [] = pos 0
capacity capped (a ∷ rest) =
    let others = capacity capped rest in
    if is_capped capped a then get_or pair_dec a (pos 0) capped +ℤ others else others

abbrev pub arcs_to : String → List String → List (String × String)
arcs_to q [] = []
arcs_to q (p ∷ ps) = (p, q) ∷ arcs_to q ps

-- `any((p, q) not in capped for …)`
abbrev pub has_uncapped : Dict (String × String) ℤ → List (String × String) → Bool
has_uncapped capped group = any (λ a. not (is_capped capped a)) group

module _ (currency : String) (net : Dict String ℤ) (payers receivers : List String)
    (capped : Dict (String × String) ℤ) where
  unfoldable pub short_receivers : List String → List Binding
  short_receivers [] = []
  short_receivers (q ∷ qs) =
      let into = arcs_to q payers in
      let others = short_receivers qs in
      if has_uncapped capped into
      then others
      else if ltb_ℤ (capacity capped into) (at q net)
      then receiver_short q currency (at q net) (capacity capped into) ∷ others
      else others

  unfoldable pub short_payers : List String → List Binding
  short_payers [] = []
  short_payers (p ∷ ps) =
      let out = arcs_from p receivers in
      let others = short_payers ps in
      if has_uncapped capped out
      then others
      else if ltb_ℤ (capacity capped out) (neg (at p net))
      then payer_short p currency (neg (at p net)) (capacity capped out) ∷ others
      else others

  unfoldable pub diagnose_infeasibility : List Binding
  diagnose_infeasibility = elim (short_receivers receivers ++ short_payers payers) [
    | [] ↦ no_settlement currency ∷ []
    | b ∷ bs ↦ b ∷ bs
  ]

pub record OneCurrency : Type 0 where
  pub feasible : Bool
  pub transfers : List SolvedTransfer
  pub net : Dict String ℤ
  pub binding : List Binding

abbrev pub is_empty {ℓ} : {A : Type ℓ} → List A → Bool
is_empty [] = true
is_empty (x ∷ xs) = false

module _ (solver : Solver) where
  unfoldable pub solve_one_currency :
      String → List Obligation → List CreditLimit → Weights → OneCurrency
  solve_one_currency currency obligations limits weights =
      let net = net_positions obligations in
      let payers = payers_of net in
      let receivers = receivers_of net in
      let outcome = solver.run (netting_problem currency net limits weights) in
      let capped = capped_of (keep (applies currency payers receivers) limits) [] in
      if is_empty payers || is_empty receivers
      then record { feasible = true; transfers = []; net = net; binding = [] }
      else if outcome.optimal
      then record {
        feasible = true;
        transfers =
            sort transfer_order
              (flow_transfers currency (value_of outcome) (arcs payers receivers));
        net = net;
        binding = [];
      }
      else record {
        feasible = false;
        transfers = [];
        net = net;
        binding = diagnose_infeasibility currency net payers receivers capped;
      }
