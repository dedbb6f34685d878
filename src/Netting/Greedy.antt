-- ===== src/Netting/Greedy.antt =====
-- The greedy loop: it moves exactly what every entry of its two lists asks for, whatever their
-- order, if they are positive and add up to the same.
use tradeguard_canton.Prelude.{
  ℕ, zero, suc, ◌+◌, ◌-◌, ◌≤◌, ◌<◌, String, ◌≡◌, refl, List, [], ◌∷◌, arith, ite, All, length, inl,
  inr, Bool-cases, ap,
}
use tradeguard_canton.Prelude.Int.{
  ℤ, pos, ◌+ℤ◌, ◌-ℤ◌, ◌<ℤ◌, ◌≤ℤ◌, int_laws, min_ℤ, min_ℤ_lem, ltb_ℤ, pos_part, neg_part, lt→ltb_ℤ,
}
use tradeguard_canton.Prelude.Keys.{str_dec}
use tradeguard_canton.Netting.{Transfer, Entry, advance, match_greedily, transferred}
use tradeguard_canton.Netting.Debts.{amount_of, total, IsPositive}

-- What a party sends and receives in a list of transfers.
abbrev pub sent : String → List Transfer → ℤ
sent p [] = pos 0
sent p (t ∷ ts) = ite (str_dec p t.sender) t.amount (pos 0) +ℤ sent p ts

abbrev pub received : String → List Transfer → ℤ
received p [] = pos 0
received p (t ∷ ts) = ite (str_dec p t.receiver) t.amount (pos 0) +ℤ received p ts

-- What is left of a list's head when a part of it is paid.
module _ (e : Entry) (amt : ℤ) (rest : List Entry) where
  advance-IsPositive : All IsPositive rest → All IsPositive (advance e amt rest)
  advance-IsPositive h = ground arith

  total-advance : amt ≤ℤ e.amount → total (advance e amt rest) ≡ e.amount -ℤ amt +ℤ total rest
  total-advance h = grind int_laws

  amount_of-advance :
      (p : String)
      → amt ≤ℤ e.amount
      → amount_of p (advance e amt rest)
        ≡ ite (str_dec p e.party) (e.amount -ℤ amt) (pos 0) +ℤ amount_of p rest
  amount_of-advance p h = grind int_laws

  length-advance-le : length (advance e amt rest) ≤ suc (length rest)
  length-advance-le = ground arith

  length-advance_done : amt ≡ e.amount → length (advance e amt rest) ≡ length rest
  length-advance_done h = grind int_laws

pub total_pos : (e : Entry) (es : List Entry) → All IsPositive (e ∷ es) → pos 0 <ℤ total (e ∷ es)
total_pos e [] h = omega int_laws
total_pos e (f ∷ es) h = omega (int_laws, total_pos f es h.1)

-- A round takes at least one entry off the two lists.
round_shrinks :
    (pay rec : Entry) (ps rs : List Entry)
    → length (advance pay (min_ℤ pay.amount rec.amount) ps)
        + length (advance rec (min_ℤ pay.amount rec.amount) rs)
      < suc (length ps) + suc (length rs)
round_shrinks pay rec ps rs =
    let amt = min_ℤ pay.amount rec.amount in
    elim (min_ℤ_lem pay.amount rec.amount).0 [
      | inl e ↦ omega (arith, length-advance_done pay amt ps e, length-advance-le rec amt rs)
      | inr e ↦ omega (arith, length-advance_done rec amt rs e, length-advance-le pay amt ps)
    ]

-- Both lists hold positive amounts, and add up to the same.
pub record IsBalanced (ps rs : List Entry) : Type 0 where
  pub payers_positive : All IsPositive ps
  pub receivers_positive : All IsPositive rs
  pub level : total ps ≡ total rs

module _ (pay rec : Entry) (ps rs : List Entry) (h : IsBalanced (pay ∷ ps) (rec ∷ rs)) where
  min_pos : pos 0 <ℤ min_ℤ pay.amount rec.amount
  min_pos =
      grind (int_laws, min_ℤ_lem pay.amount rec.amount, h.payers_positive.0, h.receivers_positive.0)

  round-IsBalanced :
      IsBalanced
        (advance pay (min_ℤ pay.amount rec.amount) ps)
        (advance rec (min_ℤ pay.amount rec.amount) rs)
  round-IsBalanced =
      let amt = min_ℤ pay.amount rec.amount in
      let below = min_ℤ_lem pay.amount rec.amount in
      record {
        payers_positive = advance-IsPositive pay amt ps h.payers_positive.1;
        receivers_positive = advance-IsPositive rec amt rs h.receivers_positive.1;
        level =
            rw (total-advance pay amt ps below.1, total-advance rec amt rs below.2)
              (omega (int_laws, ap pos_part h.level, ap neg_part h.level));
      }

-- If one list is used up, so is the other.
drained : (e : Entry) (es : List Entry) → ¬ IsBalanced [] (e ∷ es)
drained e es h =
    omega (int_laws, total_pos e es h.receivers_positive, ap pos_part h.level, ap neg_part h.level)

drained' : (e : Entry) (es : List Entry) → ¬ IsBalanced (e ∷ es) []
drained' e es h =
    omega (int_laws, total_pos e es h.payers_positive, ap pos_part h.level, ap neg_part h.level)

-- The loop with fuel enough moves what each entry asks for.
pub match_greedily_lem :
    (f : ℕ) (instrument : String) (ps rs : List Entry) (p : String)
    → length ps + length rs ≤ f
    → IsBalanced ps rs
    → (sent p (match_greedily f instrument ps rs) ≡ amount_of p ps)
      × (received p (match_greedily f instrument ps rs) ≡ amount_of p rs)
unfolding match_greedily
match_greedily_lem zero i [] [] p fuel h = (refl, refl)
match_greedily_lem zero i (pay ∷ ps) rs p fuel h = absurd (omega arith)
match_greedily_lem zero i [] (rec ∷ rs) p fuel h = absurd (omega arith)
match_greedily_lem (suc f) i [] [] p fuel h = (refl, refl)
match_greedily_lem (suc f) i [] (rec ∷ rs) p fuel h = absurd (drained rec rs h)
match_greedily_lem (suc f) i (pay ∷ ps) [] p fuel h = absurd (drained' pay ps h)
match_greedily_lem (suc f) i (pay ∷ ps) (rec ∷ rs) p fuel h =
    let amt = min_ℤ pay.amount rec.amount in
    let below = min_ℤ_lem pay.amount rec.amount in
    let rest =
      match_greedily_lem f i (advance pay amt ps) (advance rec amt rs) p
        (omega (arith, round_shrinks pay rec ps rs)) (round-IsBalanced pay rec ps rs h) in
    rw (lt→ltb_ℤ (pos 0) amt (min_pos pay rec ps rs h)) (
      rw
        (
          rest.0,
          rest.1,
          amount_of-advance pay amt ps p below.1,
          amount_of-advance rec amt rs p below.2,
        )
        (grind int_laws, grind int_laws))

-- The whole that moves.
pub transferred-match_greedily :
    (f : ℕ) (instrument : String) (ps rs : List Entry)
    → length ps + length rs ≤ f
    → IsBalanced ps rs
    → transferred (match_greedily f instrument ps rs) ≡ total ps
unfolding match_greedily transferred
transferred-match_greedily zero i [] [] fuel h = refl
transferred-match_greedily zero i (pay ∷ ps) rs fuel h = absurd (omega arith)
transferred-match_greedily zero i [] (rec ∷ rs) fuel h = absurd (omega arith)
transferred-match_greedily (suc f) i [] rs fuel h = refl
transferred-match_greedily (suc f) i (pay ∷ ps) [] fuel h = absurd (drained' pay ps h)
transferred-match_greedily (suc f) i (pay ∷ ps) (rec ∷ rs) fuel h =
    let amt = min_ℤ pay.amount rec.amount in
    rw (lt→ltb_ℤ (pos 0) amt (min_pos pay rec ps rs h)) (
      rw
        (
          transferred-match_greedily f i (advance pay amt ps) (advance rec amt rs)
              (omega (arith, round_shrinks pay rec ps rs)) (round-IsBalanced pay rec ps rs h),
          total-advance pay amt ps (min_ℤ_lem pay.amount rec.amount).1,
        )
        (omega int_laws))

All-advance :
    (R : String → Type 0) (e : Entry) (amt : ℤ) (rest : List Entry)
    → R e.party
    → All (λ x. R x.party) rest
    → All (λ x. R x.party) (advance e amt rest)
All-advance R e amt rest r h = ground arith

-- A transfer goes from a party of the first list to one of the second, and is positive.
module _ (P Q : String → Type 0) where
  abbrev pub Joins : String → Transfer → Type 0
  Joins i t = P t.sender × Q t.receiver × (pos 0 <ℤ t.amount) × (t.instrument ≡ i)

  pub match_greedily-Joins :
      (f : ℕ) (instrument : String) (ps rs : List Entry)
      → All (λ e. P e.party) ps
      → All (λ e. Q e.party) rs
      → All (Joins instrument) (match_greedily f instrument ps rs)
  unfolding match_greedily
  match_greedily-Joins zero i ps rs p q = tt
  match_greedily-Joins (suc f) i [] rs p q = tt
  match_greedily-Joins (suc f) i (pay ∷ ps) [] p q = tt
  match_greedily-Joins (suc f) i (pay ∷ ps) (rec ∷ rs) p q =
      let amt = min_ℤ pay.amount rec.amount in
      let rest =
        match_greedily-Joins f i (advance pay amt ps) (advance rec amt rs)
          (All-advance P pay amt ps p.0 p.1) (All-advance Q rec amt rs q.0 q.1) in
      elim (Bool-cases (ltb_ℤ (pos 0) amt)) [
        | inl positive ↦ rw positive ((p.0, q.0, ground arith, refl), rest)
        | inr none_left ↦ rw none_left rest
      ]

-- The last round finishes both lists: there is one transfer fewer than entries.
pub length-match_greedily-le :
    (f : ℕ) (instrument : String) (ps rs : List Entry)
    → length ps + length rs ≤ f
    → IsBalanced ps rs
    → length (match_greedily f instrument ps rs) ≤ length ps + length rs - 1
unfolding match_greedily
length-match_greedily-le zero i ps rs fuel h = omega arith
length-match_greedily-le (suc f) i [] rs fuel h = omega arith
length-match_greedily-le (suc f) i (pay ∷ ps) [] fuel h = omega arith
length-match_greedily-le (suc f) i (pay ∷ ps) (rec ∷ rs) fuel h =
    let amt = min_ℤ pay.amount rec.amount in
    rw (lt→ltb_ℤ (pos 0) amt (min_pos pay rec ps rs h)) (
      omega (
        arith,
        round_shrinks pay rec ps rs,
        length-match_greedily-le f i (advance pay amt ps) (advance rec amt rs)
            (omega (arith, round_shrinks pay rec ps rs)) (round-IsBalanced pay rec ps rs h),
      ))
