-- ===== src/Settling/Attempts/Breaches.antt =====
-- What the two batches are wrong about: the fraud does not settle the book, and the breach settles
-- it above the limit that was created for it.
use tradeguard_canton.Prelude.{
  ◌-◌, String, Bool, true, ◌&&◌, ◌≡◌, refl, subst, sym, ◌∙◌, Option, some, none, List, [], ◌∷◌, All,
  All-map, arith, any, inl, inr, Bool-cases,
}
use tradeguard_canton.Prelude.Int.{ℤ, pos, negsuc, ◌<ℤ◌, ltb_ℤ, round_ratio, round_half_even-le}
use tradeguard_canton.Netting.{Obligation, Transfer, net_positions, minimal_settlement}
use tradeguard_canton.Netting.Greedy.{received, Joins}
use tradeguard_canton.Netting.Settlement.{
  Settles, minimal_settlement-Settles, minimal_settlement-Joins,
}
use tradeguard_canton.Solver.Model.{same}
use tradeguard_canton.Netting.Settlement.{items-position}
use tradeguard_canton.Netting.Positions.{position}
use tradeguard_canton.Prelude.Dict.{Dict}
use tradeguard_canton.Solver.Model.{SolvedTransfer, as_transfer}
use tradeguard_canton.Settling.Attempts.{highest, tenth, abs_ℤ, fraud_of}
use tradeguard_canton.Prelude.Int.{round_half_even-half, pos_part, int_laws}
use tradeguard_canton.Netting.Settlement.{IsNetPayer, IsNetReceiver}
use tradeguard_canton.Settling.Attempts.{biggest, half_of, breach_of}

-- What holds of each leg holds of the largest.
biggest-All :
    (P : Transfer → Type 0) (t : Transfer) (ts : List Transfer) → P t → All P ts → P (biggest t ts)
biggest-All P t [] h hs = h
biggest-All P t (u ∷ ts) h hs = elim (Bool-cases (ltb_ℤ t.amount u.amount)) [
  | inl e ↦ rw e (biggest-All P u ts hs.0 hs.1)
  | inr e ↦ rw e (biggest-All P t ts h hs.1)
]

-- The largest leg is a leg of the plan.
any-biggest :
    (f : Transfer → Bool) (t : Transfer) (ts : List Transfer)
    → f (biggest t ts) ≡ true
    → any f (t ∷ ts) ≡ true
any-biggest f t [] h = rw h refl
any-biggest f t (u ∷ ts) h = elim (Bool-cases (ltb_ℤ t.amount u.amount)) [
  | inl e ↦ later (any-biggest f u ts (rw e at h))
  | inr e ↦ here (any-biggest f t ts (rw e at h))
]
  where
    later : any f (u ∷ ts) ≡ true → any f (t ∷ u ∷ ts) ≡ true
    later k = elim (Bool-cases (f t)) [ inl e ↦ rw e refl | inr e ↦ rw e k ]

    here : any f (t ∷ ts) ≡ true → any f (t ∷ u ∷ ts) ≡ true
    here k = elim (Bool-cases (f t)) [
      | inl e ↦ rw e refl
      | inr e ↦ elim (Bool-cases (f u)) [ inl g ↦ rw (e, g) refl | inr g ↦ rw (e, g) (rw e at k) ]
    ]

half_of-lt : (a : ℤ) → pos 0 <ℤ a → round_ratio a (pos 2) <ℤ a
unfolding round_ratio
half_of-lt (pos n) h = omega (arith, round_half_even-half n (omega arith))
half_of-lt (negsuc n) h = absurd (omega arith)

-- A leg from one party to another above a limit.
abbrev pub exceeds : String → String → ℤ → Transfer → Bool
exceeds sender receiver limit t =
    same t.sender sender && (same t.receiver receiver && ltb_ℤ limit t.amount)

same_refl : (a : String) → same a a ≡ true
same_refl a = ground arith

exceeds-half_of :
    (t : Transfer) → pos 0 <ℤ t.amount → exceeds t.sender t.receiver (half_of t) t ≡ true
exceeds-half_of t h =
    let less = half_of-lt t.amount h in rw (same_refl t.sender, same_refl t.receiver) (ground arith)

breach_parts :
    {b c : Transfer} {x y : ℤ}
    → ◌≡◌ {A = Option (Transfer × ℤ)} (some (b, x)) (some (c, y))
    → (b ≡ c) × (x ≡ y)
breach_parts e = (cc, cc)

pair_path : {b c : Transfer} {x y : ℤ} → b ≡ c → x ≡ y → ◌≡◌ {A = Transfer × ℤ} (b, x) (c, y)
pair_path e f i = (e i, f i)

breach_of-exceeds :
    (plan : List Transfer) (big : Transfer) (limit : ℤ)
    → All (λ (t : Transfer). pos 0 <ℤ t.amount) plan
    → breach_of plan ≡ some (big, limit)
    → any (exceeds big.sender big.receiver limit) plan ≡ true
unfolding breach_of
breach_of-exceeds [] big limit positive e = absurd (differ e)
  where
    differ : ◌≡◌ {A = Option (Transfer × ℤ)} none (some (big, limit)) → ⊥
    differ e = cc
breach_of-exceeds (t ∷ ts) big limit positive e =
    let (same_leg, same_cap) = breach_parts e in
    subst (λ (x : Transfer × ℤ). any (exceeds x.0.sender x.0.receiver x.1) (t ∷ ts) ≡ true)
      (pair_path same_leg same_cap)
      (any-biggest (exceeds (biggest t ts).sender (biggest t ts).receiver (half_of (biggest t ts)))
        t ts
        (exceeds-half_of (biggest t ts)
          (biggest-All (λ u. pos 0 <ℤ u.amount) t ts positive.0 positive.1)))

-- `attempt_credit_breach` submits a plan that settles the book, and of which a leg between the two
-- parties of its limit exceeds that limit.
pub breach_of-Breaches :
    (os : List Obligation) (instrument : String) (big : Transfer) (limit : ℤ)
    → breach_of (minimal_settlement os instrument) ≡ some (big, limit)
    → Settles os (minimal_settlement os instrument)
      × (any (exceeds big.sender big.receiver limit) (minimal_settlement os instrument) ≡ true)
breach_of-Breaches os i big limit h = (
  minimal_settlement-Settles os i,
  breach_of-exceeds (minimal_settlement os i) big limit
      (All-map (Joins (IsNetPayer os) (IsNetReceiver os) i) (λ (t : Transfer). pos 0 <ℤ t.amount)
        (minimal_settlement os i) (λ t joins. joins.2) (minimal_settlement-Joins os i))
      h,
)

-- What holds of each position holds of the highest.
highest-All :
    (P : String × ℤ → Type 0) (x : String × ℤ) (net : Dict String ℤ)
    → P x
    → All P net
    → P (highest x net)
highest-All P x [] h hs = h
highest-All P x (y ∷ net) h hs = elim (Bool-cases (ltb_ℤ x.1 y.1)) [
  | inl e ↦ rw e (highest-All P y net hs.0 hs.1)
  | inr e ↦ rw e (highest-All P x net h hs.1)
]

-- More than a dollar is more than its tenth, or than a dollar.
tenth-lt : (v : ℤ) → pos 100 <ℤ v → tenth (abs_ℤ v) <ℤ v
unfolding round_ratio
tenth-lt (pos n) h =
    let few = round_half_even-le n 10 (n - 1) (omega arith) (omega arith) in ground arith
tenth-lt (negsuc n) h = absurd (omega arith)

fraud_inj : {t u : SolvedTransfer} → some t ≡ some u → t ≡ u
fraud_inj e = cc

fraud_of-lt :
    (net : Dict String ℤ) (f : String → ℤ) (t : SolvedTransfer)
    → All (λ (e : String × ℤ). f e.0 ≡ e.1) net
    → fraud_of net ≡ some t
    → pos 100 <ℤ f t.receiver
    → t.amount <ℤ f t.receiver
unfolding fraud_of
fraud_of-lt [] f t found e h = absurd (differ e)
  where
    differ : none ≡ some t → ⊥
    differ e = cc
fraud_of-lt (x ∷ net) f t found e h =
    let here = highest-All (λ y. f y.0 ≡ y.1) x net found.0 found.1 in
    subst (λ u. pos 100 <ℤ f u.receiver → u.amount <ℤ f u.receiver) (fraud_inj e)
      (subst (λ v. pos 100 <ℤ v → tenth (abs_ℤ (highest x net).1) <ℤ v) (sym here)
        (tenth-lt (highest x net).1))
      h

received-one : (t : SolvedTransfer) → received t.receiver (as_transfer t ∷ []) ≡ t.amount
received-one t = grind int_laws

below_whole : (a v : ℤ) → a <ℤ v → pos 100 <ℤ v → a ≡ pos (pos_part v) → ⊥
below_whole a (pos n) less h e = omega (arith, rw e at less)
below_whole a (negsuc n) less h e = omega arith

-- `attempt_fraud` proposes a leg that does not settle the book, if more than a dollar is due to its
-- receiver.
pub fraud_of-UnderSettles :
    (os : List Obligation) (t : SolvedTransfer)
    → fraud_of (net_positions os) ≡ some t
    → pos 100 <ℤ position t.receiver os
    → ¬ Settles os (as_transfer t ∷ [])
fraud_of-UnderSettles os t e h settles =
    below_whole t.amount (position t.receiver os)
      (fraud_of-lt (net_positions os) (λ p. position p os) t (items-position os) e h) h
      (sym (received-one t) ∙ settles.is_paid t.receiver)
