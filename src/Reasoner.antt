-- ===== src/Reasoner.antt =====
-- agent/reasoner.py: whether an accepted trade is settled, cancelled or kept waiting.
-- Not modelled: the free text behind each mark of the rationale, and the exceptions of a leg that
-- has no sender or receiver or whose amount is no number.
pub mod Decisions
pub mod Rationale
mod Examples
use tradeguard_canton.Prelude.{
  ℕ, String, Bool, true, false, ◌&&◌, Option, none, some, List, [], ◌∷◌, ◌++◌, map, length, all,
  keep, ltb, ◌==◌, if◌then◌else◌, ite,
}
use tradeguard_canton.Prelude.Int.{ℤ, pos, ltb_ℤ}
use tradeguard_canton.Prelude.Keys.{str_dec}
use tradeguard_canton.Prelude.Dict.{Dict, insert, get_or}

pub data Decision : Type 0 where
  settle wait cancel : Decision

-- An identifier of the ledger's JSON: a text, or `{"unpack": …}`. A dict without that key is shown
-- by Python's `str`, and that text is `shown`.
pub data IdVal : Type 0 where
  plain : String → IdVal
  wrapped : (unpack : Option String) → (shown : String) → IdVal

abbrev pub text_or : Option String → String → String
text_or (some t) shown = t
text_or none shown = shown

-- `_norm`, which is also what `evaluate_trade` does to `payload["tradeId"]`
unfoldable pub norm : IdVal → String
norm (plain t) = t
norm (wrapped unpack shown) = text_or unpack shown

-- `_norm(att["payload"].get("tradeId"))`
unfoldable pub norm_opt : Option IdVal → String
unfolding norm
norm_opt none = "None"
norm_opt (some i) = norm i

pub record Leg : Type 0 where
  pub sender : String
  pub receiver : String
  pub amount : Option ℤ

pub record AcceptedTrade : Type 0 where
  pub trade_id : IdVal
  pub legs : Option (List Leg)

pub record Attestation : Type 0 where
  pub trade_id : Option IdVal

-- A line of the rationale: the mark of a check, or the decision.
pub data Line : Type 0 where
  check : Bool → String → Line
  decided : Decision → Line

pub record Reasoning : Type 0 where
  pub decision : Decision
  pub trade_id : String
  pub rationale : List Line
  pub checks : Dict String Bool

-- `Reasoning.add`
unfoldable pub add : Reasoning → String → Bool → Reasoning
add r name passed = record r {
  checks = insert str_dec name passed r.checks;
  rationale = r.rationale ++ check passed name ∷ [];
}

abbrev pub legs_of : Option (List Leg) → List Leg
legs_of none = []
legs_of (some legs) = legs

-- `float(leg.get("amount", 0)) > 0`
abbrev pub has_amount : Leg → Bool
has_amount leg = elim leg.amount [ none ↦ false | some x ↦ ltb_ℤ (pos 0) x ]

abbrev pub same : String → String → Bool
same a b = ite (str_dec a b) true false

-- `a, b = legs` and the test on them; false unless there are two.
unfoldable pub swaps : List Leg → Bool
swaps (a ∷ b ∷ []) = same a.sender b.receiver && same a.receiver b.sender
swaps _ = false

abbrev pub matched : String → List Attestation → List Attestation
matched trade_id = keep (λ att. same (norm_opt att.trade_id) trade_id)

-- `all(r.checks.values())`
unfoldable pub all_pass : Reasoning → Bool
all_pass r = all (λ (e : String × Bool). e.1) r.checks

-- `all(r.checks.get(c, False) for c in structural)`
unfoldable pub structural_pass : Reasoning → Bool
structural_pass r =
    all (λ c. get_or str_dec c false r.checks) ("two_legs" ∷ "positive_amounts" ∷ "is_swap" ∷ [])

abbrev decide : Decision → Reasoning → Reasoning
decide d r = record r { decision = d; rationale = r.rationale ++ decided d ∷ [] }

-- The last part of `evaluate_trade`.
unfoldable pub conclude : Reasoning → Reasoning
unfolding all_pass structural_pass
conclude r =
    if all_pass r
    then decide settle r
    else if structural_pass r
    then decide wait r
    else decide cancel r

unfoldable pub checked : AcceptedTrade → List Attestation → Bool → Reasoning
unfolding add norm swaps
checked accepted attestations requires_attestation =
    let trade_id = norm accepted.trade_id in
    let legs = legs_of accepted.legs in
    let r : Reasoning = record {
      decision = wait;
      trade_id = trade_id;
      rationale = [];
      checks = [];
    } in
    let r1 = add r "two_legs" (length legs == 2) in
    let r2 = add r1 "positive_amounts" (all has_amount legs) in
    let r3 = add r2 "is_swap" (if length legs == 2 then swaps legs else false) in
    add r3 "delivery_attested"
      (if requires_attestation then ltb 0 (length (matched trade_id attestations)) else true)

unfoldable pub evaluate_trade : AcceptedTrade → List Attestation → Bool → Reasoning
unfolding conclude checked
evaluate_trade accepted attestations requires_attestation =
    conclude (checked accepted attestations requires_attestation)
