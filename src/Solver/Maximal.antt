-- ===== src/Solver/Maximal.antt =====
-- `solve_maximal` and `_solve_one_currency_maximal` of agent/solver.py: per currency, the solver
-- chooses which obligations settle now (`z_i`), and the rest is deferred.
pub mod Partition
pub mod Flows
pub mod Rows
pub mod Settles
pub mod Limits
pub mod Zero
pub mod Reasons
mod Examples
use tradeguard_canton.Prelude.{
  ℕ, suc, String, Bool, true, false, not, ◌&&◌, ◌||◌, none, some, List, [], ◌∷◌, ◌++◌, map, keep,
  length, if◌then◌else◌, leb, ltb, ite,
}
use tradeguard_canton.Prelude.Int.{ℤ, pos, ◌+ℤ◌, ◌-ℤ◌, ◌*ℤ◌, neg, ltb_ℤ}
use tradeguard_canton.Prelude.Keys.{str_dec, str_leb}
use tradeguard_canton.Prelude.Dict.{Dict, get_or, insert, lookup}
use tradeguard_canton.Prelude.Sorting.{sort}
use tradeguard_canton.Netting.{Obligation, gross, net_positions}
use tradeguard_canton.Solver.Model.{
  CreditLimit, AggLimit, SolvedTransfer, Weights, Binding, aggregate_exceeded, inbound_exceeded,
  deferred_for_limits, SolveResult, residual, same, member,
}
use tradeguard_canton.Solver.Lp.{
  Var, flow, pick, Name, conserve, agg, name_dec, Constraint, eq, le, Problem, Outcome, Solver,
  value_of,
}
use tradeguard_canton.Solver.OneCurrency.{
  pair_dec, arcs_from, arcs_to, outflow, inflow, add_all, applies, capped_of, add_caps,
  flow_transfers, transfer_order, has_uncapped, capacity,
}
use tradeguard_canton.Solver.Book.{group_all, by_name}

-- An obligation with its index in the input list.
pub record Indexed : Type 0 where
  pub index : ℕ
  pub owed : Obligation

abbrev pub enumerate : ℕ → List Obligation → List Indexed
enumerate i [] = []
enumerate i (o ∷ os) = record { index = i; owed = o } ∷ enumerate (suc i) os

abbrev pub owed_of : List Indexed → List Obligation
owed_of xs = map (λ (x : Indexed). x.owed) xs

abbrev pub indices_of : List Indexed → List ℕ
indices_of xs = map (λ (x : Indexed). x.index) xs

-- The set `{o.payer for o in obls} | {o.payee for o in obls}`
abbrev pub distinct : List String → List String
distinct [] = []
distinct (p ∷ ps) = let rest = distinct ps in if member p rest then rest else p ∷ rest

abbrev pub names_of : List Obligation → List String
names_of [] = []
names_of (o ∷ os) = o.payer ∷ o.payee ∷ names_of os

abbrev pub parties_in : List Obligation → List String
parties_in os = sort str_leb (distinct (names_of os))

-- `for q in parties if q != p`
abbrev pub others : String → List String → List String
others p ps = keep (λ q. not (same p q)) ps

-- `for p in ps for q in parties if p != q`
unfoldable pub pairs_of : List String → List String → List (String × String)
pairs_of parties [] = []
pairs_of parties (p ∷ ps) = arcs_from p (others p parties) ++ pairs_of parties ps

abbrev pub negated : List (ℤ × Var) → List (ℤ × Var)
negated [] = []
negated ((c, x) ∷ terms) = (neg c, x) ∷ negated terms

-- `z[k] * obls[k].amount` for the obligations to a party, and for those of a party
abbrev pub picked_in : String → List Indexed → List (ℤ × Var)
picked_in p [] = []
picked_in p (x ∷ xs) =
    let rest = picked_in p xs in
    if same p x.owed.payee then (x.owed.amount, pick x.index) ∷ rest else rest

abbrev pub picked_out : String → List Indexed → List (ℤ × Var)
picked_out p [] = []
picked_out p (x ∷ xs) =
    let rest = picked_out p xs in
    if same p x.owed.payer then (x.owed.amount, pick x.index) ∷ rest else rest

-- `residual_net == settled_net`, with all variables on the left
abbrev pub conserve_row : List Indexed → List String → String → Constraint
conserve_row items parties p = record {
  terms =
      (inflow p (others p parties) ++ negated (outflow p (others p parties)))
      ++ (negated (picked_in p items) ++ picked_out p items);
  relation = eq;
  bound = pos 0;
}

-- `(cl.frm, cl.to) in x`
abbrev pub between : String → List String → CreditLimit → Bool
between currency parties cl = applies currency parties parties cl && not (same cl.frm cl.to)

abbrev pub agg_applies : String → List String → AggLimit → Bool
agg_applies currency parties al = same al.currency currency && member al.party parties

abbrev pub agg_row : List String → AggLimit → Constraint
agg_row parties al = record {
  terms = outflow al.party (others al.party parties);
  relation = le;
  bound = al.limit;
}

-- `agg_capped[al.party] = al.limit` beside `prob += (…, f"agg_{al.party}")`
unfoldable pub agg_capped_of : List AggLimit → Dict String ℤ → Dict String ℤ
agg_capped_of [] d = d
agg_capped_of (al ∷ als) d = agg_capped_of als (insert str_dec al.party al.limit d)

unfoldable pub add_aggs : List String → List AggLimit → Dict Name Constraint → Dict Name Constraint
add_aggs parties [] d = d
add_aggs parties (al ∷ als) d =
    add_aggs parties als (insert name_dec (agg al.party) (agg_row parties al) d)

-- `BIG * settled value - weighted flow`, times 10 000 as a whole: `BIG` and the amounts are cents,
-- the weights are hundredths.
abbrev pub value_terms : ℤ → List Indexed → List (ℤ × Var)
value_terms big [] = []
value_terms big (x ∷ xs) = (big *ℤ x.owed.amount, pick x.index) ∷ value_terms big xs

abbrev pub flow_terms : Weights → List (String × String) → List (ℤ × Var)
flow_terms weights [] = []
flow_terms weights (a ∷ rest) =
    (neg (pos 100 +ℤ get_or pair_dec a (pos 0) weights), flow a.0 a.1) ∷ flow_terms weights rest

unfoldable pub maximal_problem :
    String → List Indexed → List CreditLimit → Weights → List AggLimit → Problem
maximal_problem currency items limits weights agg_limits =
    let obls = owed_of items in
    let parties = parties_in obls in
    let big = gross obls +ℤ pos 100 in
    record {
      maximise = true;
      objective = value_terms big items ++ flow_terms weights (pairs_of parties parties);
      flows = pairs_of parties parties;
      picks = indices_of items;
      constraints = add_aggs parties (keep (agg_applies currency parties) agg_limits) (
          add_caps (keep (between currency parties) limits)
            (add_all conserve (conserve_row items parties) parties []));
    }

-- `(z[k].value() or 0) > 0.5`
abbrev pub is_settled : (Var → ℤ) → Indexed → Bool
is_settled v x = ltb_ℤ (pos 0) (v (pick x.index))

-- `sum(o.amount for o in obls if o.payer == p)`, and the same for a payee
abbrev pub owed_by : String → List Obligation → ℤ
owed_by p os = gross (keep (λ o. same p o.payer) os)

abbrev pub owed_to : String → List Obligation → ℤ
owed_to q os = gross (keep (λ o. same q o.payee) os)

module _ (currency : String) (obls : List Obligation) where
  unfoldable pub aggregate_reasons : Dict String ℤ → List Binding
  aggregate_reasons [] = []
  aggregate_reasons ((p, cap) ∷ d) =
      let rest = aggregate_reasons d in
      if ltb_ℤ cap (owed_by p obls)
      then aggregate_exceeded p currency cap (owed_by p obls) ∷ rest
      else rest

  unfoldable pub inbound_reasons :
      List String → Dict (String × String) ℤ → List String → List Binding
  inbound_reasons parties capped [] = []
  inbound_reasons parties capped (q ∷ qs) =
      let into = arcs_to q (others q parties) in
      let rest = inbound_reasons parties capped qs in
      if has_uncapped capped into
      then rest
      else if ltb_ℤ (capacity capped into) (owed_to q obls)
      then inbound_exceeded q currency (capacity capped into) (owed_to q obls) ∷ rest
      else rest

pub record Maximal : Type 0 where
  pub settled : List Indexed
  pub deferred : List Indexed
  pub transfers : List SolvedTransfer
  pub net : Dict String ℤ
  pub reasons : List Binding

-- `net = {p: 0.0 for p in parties}`, before the settled obligations are posted
abbrev pub zeros : List String → Dict String ℤ
zeros [] = []
zeros (p ∷ ps) = (p, pos 0) ∷ zeros ps

unfoldable pub post_settled : Dict String ℤ → List Indexed → Dict String ℤ
post_settled net [] = net
post_settled net (x ∷ xs) =
    let o = x.owed in
    let credited = insert str_dec o.payee (get_or str_dec o.payee (pos 0) net +ℤ o.amount) net in
    post_settled
      (insert str_dec o.payer (get_or str_dec o.payer (pos 0) credited -ℤ o.amount) credited) xs

-- The sentences for a currency with deferred obligations; there is always one.
unfoldable pub reasons_for :
    String
    → List Obligation
    → List String
    → List CreditLimit
    → List AggLimit
    → List Indexed
    → List Binding
reasons_for currency obls parties limits agg_limits [] = []
reasons_for currency obls parties limits agg_limits (x ∷ xs) =
    let capped = capped_of (keep (between currency parties) limits) [] in
    let agg_capped = agg_capped_of (keep (agg_applies currency parties) agg_limits) [] in
    elim (aggregate_reasons currency obls agg_capped
      ++ inbound_reasons currency obls parties capped parties) [
        | [] ↦ deferred_for_limits (length (x ∷ xs)) currency ∷ []
        | b ∷ bs ↦ b ∷ bs
      ]

module _ (solver : Solver) where
  unfoldable pub solve_one_currency_maximal :
      String → List Indexed → List CreditLimit → Weights → List AggLimit → Maximal
  solve_one_currency_maximal currency items limits weights agg_limits =
      let obls = owed_of items in
      let parties = parties_in obls in
      let v = value_of (solver.run (maximal_problem currency items limits weights agg_limits)) in
      let settled = keep (is_settled v) items in
      let deferred = keep (λ x. not (is_settled v x)) items in
      record {
        settled = settled;
        deferred = deferred;
        transfers = sort transfer_order (flow_transfers currency v (pairs_of parties parties));
        net = post_settled (zeros parties) settled;
        reasons = reasons_for currency obls parties limits agg_limits deferred;
      }

  unfoldable pub maximal_each :
      List CreditLimit
      → Weights
      → List AggLimit
      → List (String × List Indexed)
      → List (String × Maximal)
  maximal_each limits weights agg_limits [] = []
  maximal_each limits weights agg_limits ((c, items) ∷ rest) =
      (c, solve_one_currency_maximal c items limits weights agg_limits)
      ∷ maximal_each limits weights agg_limits rest

-- What the loop of `solve_maximal` collects.
abbrev pub settled_of : List (String × Maximal) → List Indexed
settled_of [] = []
settled_of ((c, a) ∷ rest) = a.settled ++ settled_of rest

abbrev pub deferred_of : List (String × Maximal) → List Indexed
deferred_of [] = []
deferred_of ((c, a) ∷ rest) = a.deferred ++ deferred_of rest

abbrev pub moves_of : List (String × Maximal) → List SolvedTransfer
moves_of [] = []
moves_of ((c, a) ∷ rest) = a.transfers ++ moves_of rest

abbrev pub reasons_of : List (String × Maximal) → List Binding
reasons_of [] = []
reasons_of ((c, a) ∷ rest) = a.reasons ++ reasons_of rest

unfoldable pub maximal_nets :
    Dict String (Dict String ℤ) → List (String × Maximal) → Dict String (Dict String ℤ)
maximal_nets d [] = d
maximal_nets d ((c, a) ∷ rest) = maximal_nets (insert str_dec c a.net d) rest

abbrev pub by_index : List Obligation → Dict String (List Indexed)
by_index os = group_all (λ (x : Indexed). x.owed.instrument) [] (enumerate 0 os)

module _ (solver : Solver) where
  unfoldable pub solve_maximal :
      List Obligation → List CreditLimit → Weights → List AggLimit → SolveResult
  solve_maximal obligations limits weights agg_limits =
      let answers =
        maximal_each solver limits weights agg_limits (sort by_name (by_index obligations)) in
      let settled = settled_of answers in
      let deferred = deferred_of answers in
      let value = gross (owed_of settled) in
      record {
        feasible = true;
        transfers = moves_of answers;
        net_positions = maximal_nets [] answers;
        gross_obligations = gross obligations;
        gross_residual = residual (moves_of answers);
        objective_value = value;
        binding_constraints = [];
        settled_obligations = sort leb (indices_of settled);
        deferred_obligations = sort leb (indices_of deferred);
        settled_value = value;
        deferred_value = gross (owed_of deferred);
        deferral_reasons = reasons_of answers;
      }
