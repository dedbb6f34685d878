-- ===== src/Policy/Parsing.antt =====
-- `_validate`, `_parse_rules` and `parse_policy`.
use tradeguard_canton.Prelude.{
  ℕ, suc, ◌==◌, String, Bool, not, ◌&&◌, ◌||◌, Option, none, some, List, [], ◌∷◌, ◌++◌,
  if◌then◌else◌,
}
use tradeguard_canton.Prelude.Int.{ℤ, pos, negsuc, leb_ℤ}
use tradeguard_canton.Prelude.Dict.{insert}
use tradeguard_canton.Solver.Model.{CreditLimit, Weights, same}
use tradeguard_canton.Solver.OneCurrency.{pair_dec, is_empty}
use tradeguard_canton.Policy.{
  PolicyContext, llm, rules, invalid, RawWeight, RawLimit, RawPolicy, Note, dropped_weight,
  dropped_limit, no_clauses, not_interpreted, Policy, norm_party, norm_ccy,
}

-- `float(ow.get("weight", 0))`, zero when it fails
abbrev pub weight_of : Option ℤ → ℤ
weight_of none = pos 0
weight_of (some x) = x

-- `float(cl.get("limit"))`, -1.0 when it fails
abbrev pub limit_of : Option ℤ → ℤ
limit_of none = negsuc 99
limit_of (some x) = x

-- `a and b and a != b and x >= 0`, with the parties that were found
abbrev pub usable : Option String → Option String → ℤ → Option (String × String)
usable none b x = none
usable (some a) none x = none
usable (some a) (some b) x = if not (same a b) && leb_ℤ (pos 0) x then some (a, b) else none

module _ (ctx : PolicyContext) where
  -- The loop of `_validate` over the weights.
  unfoldable pub validate_weights : List RawWeight → Weights → Weights
  validate_weights [] weights = weights
  validate_weights (ow ∷ ows) weights =
      let weight = weight_of ow.weight in
      elim (usable (norm_party ctx ow.payer) (norm_party ctx ow.receiver) weight) [
        | none ↦ validate_weights ows weights
        | some arc ↦ validate_weights ows (insert pair_dec arc weight weights)
      ]

  abbrev pub weight_notes : List RawWeight → List Note
  weight_notes [] = []
  weight_notes (ow ∷ ows) =
      elim (usable (norm_party ctx ow.payer) (norm_party ctx ow.receiver) (weight_of ow.weight)) [
        | none ↦ dropped_weight ow ∷ weight_notes ows
        | some arc ↦ weight_notes ows
      ]

  -- The loop of `_validate` over the limits.
  unfoldable pub validate_limits : List RawLimit → List CreditLimit
  validate_limits [] = []
  validate_limits (cl ∷ cls) =
      let rest = validate_limits cls in
      elim (usable (norm_party ctx cl.frm) (norm_party ctx cl.to) (limit_of cl.limit)) [
        | none ↦ rest
        | some arc ↦
            record {
              frm = arc.0;
              to = arc.1;
              limit = limit_of cl.limit;
              currency = norm_ccy ctx cl.currency;
            }
            ∷ rest
      ]

  abbrev pub limit_notes : List RawLimit → List Note
  limit_notes [] = []
  limit_notes (cl ∷ cls) =
      elim (usable (norm_party ctx cl.frm) (norm_party ctx cl.to) (limit_of cl.limit)) [
        | none ↦ dropped_limit cl ∷ limit_notes cls
        | some arc ↦ limit_notes cls
      ]

  unfoldable pub validate : RawPolicy → Policy
  validate raw = record {
    objective_weights = validate_weights raw.objective_weights [];
    credit_limits = validate_limits raw.credit_limits;
    source = llm;
    errors = weight_notes raw.objective_weights ++ limit_notes raw.credit_limits;
  }

-- What the three regular expressions find in a clause: the two parties, the number that `_num`
-- reads (digits, so it has no sign) and the currency; whether the verb is strong; the two parties.
pub record Clause : Type 0 where
  pub cap : Option (String × String × Option ℕ × Option String)
  pub avoid : Option (Bool × String × String)
  pub prefer : Option (String × String)

-- What `_parse_rules` has encoded so far.
pub record Encoded : Type 0 where
  pub weights : Weights
  pub limits : List CreditLimit
  pub count : ℕ

-- `DEFAULT_PENALTY`, and the weight of a strong verb
abbrev pub penalty : Bool → ℤ
penalty strong = if strong then pos 1000 else pos 500

abbrev pub both : Option String → Option String → Option (String × String)
both (some a) (some b) = some (a, b)
both _ _ = none

module _ (ctx : PolicyContext) where
  -- The cap of a clause, if it has one that is usable.
  unfoldable pub cap_of : Option (String × String × Option ℕ × Option String) → Option CreditLimit
  cap_of none = none
  cap_of (some (a, b, none, ccy)) = none
  cap_of (some (a, b, some amt, ccy)) = elim (both (norm_party ctx a) (norm_party ctx b)) [
    | none ↦ none
    | some arc ↦
        some (record { frm = arc.0; to = arc.1; limit = pos amt; currency = norm_ccy ctx ccy })
  ]

  unfoldable pub avoided : Option (Bool × String × String) → Option ((String × String) × ℤ)
  avoided none = none
  avoided (some (strong, a, b)) = elim (both (norm_party ctx a) (norm_party ctx b)) [
    | none ↦ none
    | some arc ↦ some (arc, penalty strong)
  ]

  unfoldable pub preferred : Option (String × String) → Option (String × String)
  preferred none = none
  preferred (some (a, b)) = both (norm_party ctx a) (norm_party ctx b)

  -- `for other in ctx.parties: if other not in (payer, favored)`
  unfoldable pub penalize_others : String → String → List String → Weights → Weights
  penalize_others payer favored [] weights = weights
  penalize_others payer favored (other ∷ others) weights =
      let skipped = penalize_others payer favored others weights in
      let added =
        penalize_others payer favored others (insert pair_dec (payer, other) (pos 500) weights) in
      if same other payer || same other favored then skipped else added

  -- One clause: the first of the three that applies.
  unfoldable pub encode_clause : Clause → Encoded → Encoded
  encode_clause c e = elim (cap_of c.cap) [
    | some limit ↦ record {
      weights = e.weights;
      limits = e.limits ++ limit ∷ [];
      count = suc e.count;
    }
    | none ↦ elim (avoided c.avoid) [
      | some arc ↦ record {
        weights = insert pair_dec arc.0 arc.1 e.weights;
        limits = e.limits;
        count = suc e.count;
      }
      | none ↦ elim (preferred c.prefer) [
        | some arc ↦ record {
          weights = penalize_others arc.0 arc.1 ctx.parties e.weights;
          limits = e.limits;
          count = suc e.count;
        }
        | none ↦ e
      ]
    ]
  ]

  unfoldable pub encode_clauses : List Clause → Encoded → Encoded
  encode_clauses [] e = e
  encode_clauses (c ∷ cs) e = encode_clauses cs (encode_clause c e)

  unfoldable pub parse_rules : List Clause → Policy
  parse_rules clauses =
      let e = encode_clauses clauses (record { weights = []; limits = []; count = 0 }) in
      record {
        objective_weights = e.weights;
        credit_limits = e.limits;
        source = rules;
        errors = if e.count == 0 then no_clauses ∷ [] else [];
      }

  -- `not pol.objective_weights and not pol.credit_limits`
  abbrev pub has_nothing : Policy → Bool
  has_nothing p = is_empty p.objective_weights && is_empty p.credit_limits

  abbrev pub judged : Policy → Policy
  judged p =
      if has_nothing p
      then record {
        objective_weights = p.objective_weights;
        credit_limits = p.credit_limits;
        source = invalid;
        errors = p.errors ++ not_interpreted ∷ [];
      }
      else p

  -- The answer of the model, if there is one, or the rules when it constrains nothing.
  unfoldable pub chosen_policy : Option RawPolicy → List Clause → Policy
  chosen_policy none clauses = parse_rules clauses
  chosen_policy (some raw) clauses =
      let pol = validate ctx raw in
      let rules_pol = parse_rules clauses in
      if has_nothing pol then if is_empty rules_pol.errors then rules_pol else pol else pol

  -- `is_blank` is whether the stripped text is empty; `answer` is that of `_call_claude`, which is
  -- `none` when the model is not asked.
  unfoldable pub parse_policy : Bool → Option RawPolicy → List Clause → Policy
  parse_policy is_blank answer clauses =
      if is_blank
      then record { objective_weights = []; credit_limits = []; source = rules; errors = [] }
      else judged (chosen_policy answer clauses)
