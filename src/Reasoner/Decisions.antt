-- ===== src/Reasoner/Decisions.antt =====
-- The decision of `evaluate_trade` against what it should be for a delivery versus payment.
use tradeguard_canton.Prelude.{
  String, Bool, true, false, ◌≡◌, refl, ◌⊎◌, inl, inr, Option, none, some, List, [], ◌∷◌, all,
  arith, length, ltb, if◌then◌else◌, ◌==◌, ◌&&◌, Bool-cases,
}
use tradeguard_canton.Prelude.Int.{ℤ, pos, ◌<ℤ◌}
use tradeguard_canton.Prelude.Keys.{str_dec}
use mathlib.Core.Logic.{◌↔◌}
use tradeguard_canton.Reasoner.{
  Decision, settle, wait, cancel, Leg, AcceptedTrade, Attestation, norm, norm_opt, legs_of,
  has_amount, swaps, matched, evaluate_trade,
}

-- Two legs that swap between two parties, each of a positive amount.
pub record IsSwap (legs : List Leg) : Type 0 where
  pub first : Leg
  pub second : Leg
  pub two : legs ≡ first ∷ second ∷ []
  pub out : first.sender ≡ second.receiver
  pub back : first.receiver ≡ second.sender
  pub first_amount : ℤ
  pub first_given : first.amount ≡ some first_amount
  pub first_positive : pos 0 <ℤ first_amount
  pub second_amount : ℤ
  pub second_given : second.amount ≡ some second_amount
  pub second_positive : pos 0 <ℤ second_amount

-- One of the attestations names the trade.
abbrev pub Names : String → List Attestation → Type 0
Names trade_id [] = ⊥
Names trade_id (att ∷ atts) = (norm_opt att.trade_id ≡ trade_id) ⊎ Names trade_id atts

matched-Names :
    (t : String) (atts : List Attestation) → ltb 0 (length (matched t atts)) ≡ true → Names t atts
matched-Names t [] h = cc
matched-Names t (att ∷ atts) h = ground (arith, matched-Names t atts)

Names-matched :
    (t : String) (atts : List Attestation) → Names t atts → ltb 0 (length (matched t atts)) ≡ true
Names-matched t [] h = absurd h
Names-matched t (att ∷ atts) (inl e) = ground arith
Names-matched t (att ∷ atts) (inr n) = ground (arith, Names-matched t atts n)

abbrev structural : List Leg → Bool
structural legs =
    (length legs == 2) && all has_amount legs && (if length legs == 2 then swaps legs else false)

structural-IsSwap : (legs : List Leg) → structural legs ≡ true → IsSwap legs
unfolding swaps
structural-IsSwap [] h = cc
structural-IsSwap (a ∷ []) h = ground arith
structural-IsSwap (a ∷ b ∷ []) h = go a.amount b.amount refl refl
  where
    go : (x y : Option ℤ) → a.amount ≡ x → b.amount ≡ y → IsSwap (a ∷ b ∷ [])
    go none y ex ey = ground arith
    go (some x) none ex ey = ground arith
    go (some x) (some y) ex ey = record {
      first = a;
      second = b;
      two = refl;
      out = ground arith;
      back = ground arith;
      first_amount = x;
      first_given = ex;
      first_positive = ground arith;
      second_amount = y;
      second_given = ey;
      second_positive = ground arith;
    }
structural-IsSwap (a ∷ b ∷ c ∷ legs) h = ground arith

IsSwap-structural : (legs : List Leg) → IsSwap legs → structural legs ≡ true
unfolding swaps
IsSwap-structural legs s = rw s.two (ground arith)

module _ (accepted : AcceptedTrade) (attestations : List Attestation) (requires : Bool) where
  abbrev legs : List Leg
  legs = legs_of accepted.legs

  abbrev attested : Bool
  attested =
      if requires then ltb 0 (length (matched (norm accepted.trade_id) attestations)) else true

  decision_lem :
      (evaluate_trade accepted attestations requires).decision
      ≡ (if structural legs then (if attested then settle else wait) else cancel)
  unfolding evaluate_trade str_dec
  decision_lem = ground arith

  -- The attestation that the trade requires, if it requires one, is there.
  abbrev pub IsAttested : Type 0
  IsAttested = (requires ≡ false) ⊎ Names (norm accepted.trade_id) attestations

  attested-IsAttested : attested ≡ true → IsAttested
  attested-IsAttested h = elim (Bool-cases requires) [
    | inl needed ↦ inr (matched-Names (norm accepted.trade_id) attestations (rw needed at h))
    | inr free ↦ inl free
  ]

  IsAttested-attested : IsAttested → attested ≡ true
  IsAttested-attested (inl free) = rw free
  IsAttested-attested (inr named) =
      ground (arith, Names-matched (norm accepted.trade_id) attestations named)

-- Two tests decide between the three.
module _ (S A : Type 0) where
  abbrev Means : Decision → Type 0
  Means d = ((d ≡ settle) ↔ (S × A)) × ((d ≡ wait) ↔ (S × ¬ A)) × ((d ≡ cancel) ↔ (¬ S))

  two_tests-Means :
      (s a : Bool)
      → (s ≡ true → S)
      → (S → s ≡ true)
      → (a ≡ true → A)
      → (A → a ≡ true)
      → Means (if s then (if a then settle else wait) else cancel)
  two_tests-Means true true sound _ found _ =
      let swap = sound refl in
      let att = found refl in
      (
        (λ _. (swap, att), λ _. refl),
        (λ h. cc, λ (_, n). absurd (n att)),
        (λ h. cc, λ n. absurd (n swap)),
      )
  two_tests-Means true false sound _ _ complete =
      let swap = sound refl in
      let absent : ¬ A = λ att. let e = complete att in cc in
      (
        (λ h. cc, λ (_, att). absurd (absent att)),
        (λ _. (swap, absent), λ _. refl),
        (λ h. cc, λ n. absurd (n swap)),
      )
  two_tests-Means false a _ complete _ _ =
      let none_such : ¬ S = λ swap. let e = complete swap in cc in
      (
        (λ h. cc, λ (swap, _). absurd (none_such swap)),
        (λ h. cc, λ (swap, _). absurd (none_such swap)),
        (λ _. none_such, λ _. refl),
      )

-- What each of the three decisions means. The trade is settled exactly when its legs are a swap of
-- two positive legs and the attestation that it requires is there; it waits exactly when they are
-- and it is not; it is cancelled exactly when the legs are no such swap.
pub evaluate_trade-decision :
    (accepted : AcceptedTrade) (attestations : List Attestation) (requires : Bool)
    → let decision = (evaluate_trade accepted attestations requires).decision in
      ((decision ≡ settle)
        ↔ (IsSwap (legs_of accepted.legs) × IsAttested accepted attestations requires))
      × ((decision ≡ wait)
          ↔ (IsSwap (legs_of accepted.legs) × ¬ IsAttested accepted attestations requires))
      × ((decision ≡ cancel) ↔ (¬ IsSwap (legs_of accepted.legs)))
evaluate_trade-decision accepted atts requires = rw (decision_lem accepted atts requires) (
    two_tests-Means (IsSwap (legs_of accepted.legs)) (IsAttested accepted atts requires)
      (structural (legs_of accepted.legs)) (attested accepted atts requires)
      (structural-IsSwap (legs_of accepted.legs)) (IsSwap-structural (legs_of accepted.legs))
      (attested-IsAttested accepted atts requires) (IsAttested-attested accepted atts requires))
