-- ===== src/Settling/Planned.antt =====
-- What `settle_real` knows of the rows and the plan when it starts to write.
use tradeguard_canton.Prelude.{
  ℕ, zero, suc, subst, ◌≤◌, String, Bool, true, false, not, ◌≡◌, none, some, List, [], ◌∷◌, length,
  All, All-map, All-keep_test, arith, inl, inr, Option-cases, Bool-cases, if◌then◌else◌, get_elem?,
}
use tradeguard_canton.Settling.{Contract, pick}
use tradeguard_canton.Settling.Gates.{is_due, due_rows, touches_excluded, surviving}

pub due_rows-IsDue :
    (now : ℕ) (cs rows : List Contract)
    → due_rows now cs ≡ some rows
    → All (λ (c : Contract). is_due now c.due ≡ some true) rows × (length rows ≤ length cs)
unfolding due_rows
due_rows-IsDue now [] rows h = rw (← rows_are h) (tt, omega arith)
  where
    rows_are : some [] ≡ some rows → [] ≡ rows
    rows_are e = cc
due_rows-IsDue now (c ∷ cs) rows h = elim (Option-cases (is_due now c.due)) [
  | inl e ↦ absurd (raised (simp (due_rows, e) at h))
  | inr (due, e) ↦ elim (Option-cases (due_rows now cs)) [
    | inl f ↦ absurd (raised (simp (due_rows, e, f) at h))
    | inr (rest, f) ↦ by_due due e rest (due_rows-IsDue now cs rest f) (simp (due_rows, e, f) at h)
  ]
]
  where
    raised : none ≡ some rows → ⊥
    raised e = cc

    some_rows : {xs : List Contract} → some xs ≡ some rows → xs ≡ rows
    some_rows e = cc

    by_due :
        (due : Bool)
        → is_due now c.due ≡ some due
        → (rest : List Contract)
        → All (λ (d : Contract). is_due now d.due ≡ some true) rest × (length rest ≤ length cs)
        → some (if due then c ∷ rest else rest) ≡ some rows
        → All (λ (d : Contract). is_due now d.due ≡ some true) rows
          × (length rows ≤ length (c ∷ cs))
    by_due true e rest ih g = rw (← some_rows g) ((e, ih.0), omega (arith, ih.1))
    by_due false e rest ih g = rw (← some_rows g) (ih.0, omega (arith, ih.1))

pub surviving-apart :
    (excluded : List String) (rows : List Contract)
    → All (λ c. touches_excluded excluded c ≡ false) (surviving excluded rows)
unfolding surviving
surviving-apart excluded rows =
    All-map _ _ _ (λ c e. untouched c e)
      (All-keep_test (λ c. not (touches_excluded excluded c)) rows)
  where
    untouched :
        (c : Contract)
        → not (touches_excluded excluded c) ≡ true
        → touches_excluded excluded c ≡ false
    untouched c e = elim (Bool-cases (touches_excluded excluded c)) [
      | inl t ↦ absurd (clash t e)
      | inr f ↦ f
    ]
      where
        clash : touches_excluded excluded c ≡ true → not (touches_excluded excluded c) ≡ true → ⊥
        clash t e = let e' : false ≡ true = rw t at e in cc

All-get_elem? :
    (P : Contract → Type 0) (xs : List Contract) (i : ℕ) (x : Contract)
    → All P xs
    → get_elem? xs i ≡ some x
    → P x
All-get_elem? P [] i x h e = absurd (missing e)
  where
    missing : none ≡ some x → ⊥
    missing e = cc
All-get_elem? P (y ∷ ys) zero x h e = subst P (first e) h.0
  where
    first : some y ≡ some x → y ≡ x
    first e = cc
All-get_elem? P (y ∷ ys) (suc i) x h e = All-get_elem? P ys i x h.1 e

-- What holds of the rows holds of those picked from them.
pub All-pick :
    (P : Contract → Type 0) (xs : List Contract) (is : List ℕ) (ys : List Contract)
    → All P xs
    → pick xs is ≡ some ys
    → All P ys
unfolding pick
All-pick P xs [] ys h e = rw (← picked e) tt
  where
    picked : some [] ≡ some ys → [] ≡ ys
    picked e = cc
All-pick P xs (i ∷ is) ys h e = elim (Option-cases (get_elem? xs i)) [
  | inl f ↦ absurd (raised (simp (pick, f) at e))
  | inr (x, f) ↦ elim (Option-cases (pick xs is)) [
    | inl g ↦ absurd (raised (simp (pick, f, g) at e))
    | inr (rest, g) ↦
        rw (← picked (simp (pick, f, g) at e))
          (All-get_elem? P xs i x h f, All-pick P xs is rest h g)
  ]
]
  where
    raised : none ≡ some ys → ⊥
    raised e = cc

    picked : {zs : List Contract} → some zs ≡ some ys → zs ≡ ys
    picked e = cc
