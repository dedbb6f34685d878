-- ===== src/Cycle/Latest.antt =====
-- The cycle that `current_cycle` picks from the rows of a query.
use tradeguard_canton.Prelude.{
  ℕ, ◌≤◌, true, false, ◌≡◌, refl, sym, ap, subst, ◌⊎◌, inl, inr, none, some, List, [], ◌∷◌, arith,
  All, ltb, Bool-cases, if◌then◌else◌,
}
use tradeguard_canton.Cycle.{Cycle, best_of, latest}

abbrev pub Elem : Cycle → List Cycle → Type 0
Elem c [] = ⊥
Elem c (d ∷ ds) = (c ≡ d) ⊎ Elem c ds

module _ (c d : Cycle) (ds : List Cycle) where
  best_of-larger : ltb c.cycle_number d.cycle_number ≡ true → best_of c (d ∷ ds) ≡ best_of d ds
  best_of-larger e = ap (λ b. best_of (if b then d else c) ds) e

  best_of-smaller : ltb c.cycle_number d.cycle_number ≡ false → best_of c (d ∷ ds) ≡ best_of c ds
  best_of-smaller e = ap (λ b. best_of (if b then d else c) ds) e

best_of-Elem : (c : Cycle) (cs : List Cycle) → Elem (best_of c cs) (c ∷ cs)
best_of-Elem c [] = inl refl
best_of-Elem c (d ∷ ds) = elim (Bool-cases (ltb c.cycle_number d.cycle_number)) [
  | inl e ↦
      subst (λ x. Elem x (c ∷ d ∷ ds)) (sym (best_of-larger c d ds e)) (inr (best_of-Elem d ds))
  | inr e ↦
      subst (λ x. Elem x (c ∷ d ∷ ds)) (sym (best_of-smaller c d ds e)) (skip (best_of-Elem c ds))
]
  where
    skip : {x : Cycle} → Elem x (c ∷ ds) → Elem x (c ∷ d ∷ ds)
    skip (inl h) = inl h
    skip (inr h) = inr (inr h)

abbrev IsHighest : Cycle → List Cycle → Type 0
IsHighest c cs = All (λ (d : Cycle). d.cycle_number ≤ c.cycle_number) cs

best_of-IsHighest : (c : Cycle) (cs : List Cycle) → IsHighest (best_of c cs) (c ∷ cs)
best_of-IsHighest c [] = (omega arith, tt)
best_of-IsHighest c (d ∷ ds) = elim (Bool-cases (ltb c.cycle_number d.cycle_number)) [
  | inl e ↦
      let rest = best_of-IsHighest d ds in
      subst (λ x. IsHighest x (c ∷ d ∷ ds)) (sym (best_of-larger c d ds e)) (below e rest.0, rest)
  | inr e ↦
      let rest = best_of-IsHighest c ds in
      subst (λ x. IsHighest x (c ∷ d ∷ ds)) (sym (best_of-smaller c d ds e))
        (rest.0, (above e rest.0, rest.1))
]
  where
    below :
        ltb c.cycle_number d.cycle_number ≡ true → {n : ℕ} → d.cycle_number ≤ n → c.cycle_number ≤ n
    below e h = ground arith

    above :
        ltb c.cycle_number d.cycle_number ≡ false
        → {n : ℕ} → c.cycle_number ≤ n
        → d.cycle_number ≤ n
    above e h = ground arith

-- The current cycle is one of the rows of the query, and none of them has a larger number; there
-- is one unless there are no rows.
pub latest-highest :
    (rows : List Cycle)
    → ((rows ≡ []) × (latest rows ≡ none))
      ⊎ ((c : Cycle) × (latest rows ≡ some c)
          × Elem c rows
          × All (λ (d : Cycle). d.cycle_number ≤ c.cycle_number) rows)
unfolding latest
latest-highest [] = inl (refl, refl)
latest-highest (c ∷ cs) = inr (best_of c cs, refl, best_of-Elem c cs, best_of-IsHighest c cs)
