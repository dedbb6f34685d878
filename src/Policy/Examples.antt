-- ===== src/Policy/Examples.antt =====
-- Policies for a book of three firms.
use tradeguard_canton.Prelude.{false, ◌≡◌, refl, none, some, [], ◌∷◌}
use tradeguard_canton.Prelude.Int.{pos}
use tradeguard_canton.Prelude.Keys.{str_dec}
use tradeguard_canton.Solver.OneCurrency.{pair_dec}
use tradeguard_canton.Settling.{lowered}
use tradeguard_canton.Policy.{
  PolicyContext, rules, invalid, RawPolicy, dropped_weight, not_interpreted, is_alnum, folded,
  codes_end_with, first_party, norm_party, norm_ccy, uppered, codes, stripped,
}
use tradeguard_canton.Policy.Parsing.{
  validate_weights, validate_limits, validate, Clause, cap_of, avoided, preferred, penalize_others,
  encode_clause, encode_clauses, parse_rules, chosen_policy, parse_policy,
}
use tradeguard_canton.Policy.Known.{IsSound, parse_policy-IsSound}

abbrev ctx : PolicyContext
ctx = record { parties = "FirmA" ∷ "FirmB" ∷ "FirmC" ∷ []; currencies = "USD" ∷ "EUR" ∷ [] }

exact_name : norm_party ctx "firm a" ≡ some "FirmA"
unfolding norm_party first_party folded is_alnum lowered codes_end_with str_dec
exact_name = refl

suffix_name : norm_party ctx "C" ≡ some "FirmC"
unfolding norm_party first_party folded is_alnum lowered codes_end_with str_dec
suffix_name = refl

unknown_name : norm_party ctx "FirmX" ≡ none
unfolding norm_party first_party folded is_alnum lowered codes_end_with str_dec
unknown_name = refl

currency_name : norm_ccy ctx (some " eur ") ≡ "EUR"
unfolding norm_ccy first_party stripped uppered codes str_dec
currency_name = refl

-- "cap what FirmA owes FirmB at 50 USD"
abbrev cap_clause : Clause
cap_clause = record {
  cap = some ("FirmA", "FirmB", some 5000, some "USD");
  avoid = none;
  prefer = none;
}

-- "cap what FirmA owes FirmA at 50"
abbrev self_clause : Clause
self_clause = record { cap = some ("FirmA", "FirmA", some 5000, none); avoid = none; prefer = none }

-- "prioritize FirmA paying FirmB"
abbrev prefer_clause : Clause
prefer_clause = record { cap = none; avoid = none; prefer = some ("FirmA", "FirmB") }

-- The model names an unknown party; what is left is nothing, so the rules are used.
abbrev unknown_party : RawPolicy
unknown_party = record {
  objective_weights = record { payer = "FirmX"; receiver = "FirmA"; weight = some (pos 500) } ∷ [];
  credit_limits = [];
}

rules_apply :
    parse_policy ctx false (some unknown_party) (cap_clause ∷ prefer_clause ∷ []) ≡ record {
      objective_weights = (("FirmA", "FirmC"), pos 500) ∷ [];
      credit_limits =
          record { frm = "FirmA"; to = "FirmB"; limit = pos 5000; currency = "USD" } ∷ [];
      source = rules;
      errors = [];
    }
unfolding parse_policy chosen_policy validate validate_weights validate_limits parse_rules
    encode_clauses encode_clause cap_of avoided preferred penalize_others norm_party norm_ccy
    first_party folded is_alnum lowered codes_end_with stripped uppered codes str_dec pair_dec
rules_apply = refl

nothing_applies : parse_policy ctx false (some unknown_party) [] ≡ record {
  objective_weights = [];
  credit_limits = [];
  source = invalid;
  errors =
      dropped_weight (record { payer = "FirmX"; receiver = "FirmA"; weight = some (pos 500) })
      ∷ not_interpreted
      ∷ [];
}
unfolding parse_policy chosen_policy validate validate_weights validate_limits parse_rules
    encode_clauses encode_clause norm_party norm_ccy first_party folded is_alnum lowered
    codes_end_with str_dec pair_dec
nothing_applies = refl

-- The rules accept a cap between a party and itself, which `_validate` drops.
self_cap :
    (parse_policy ctx false none (self_clause ∷ [])).credit_limits
    ≡ record { frm = "FirmA"; to = "FirmA"; limit = pos 5000; currency = "USD" } ∷ []
unfolding parse_policy chosen_policy parse_rules encode_clauses encode_clause cap_of norm_party
    norm_ccy first_party folded is_alnum lowered codes_end_with str_dec
self_cap = refl

parse_policy-IsSound_example :
    IsSound ctx (parse_policy ctx false (some unknown_party) (cap_clause ∷ []))
parse_policy-IsSound_example = parse_policy-IsSound ctx false (some unknown_party) (cap_clause ∷ [])
