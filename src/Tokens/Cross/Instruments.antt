-- ===== src/Tokens/Cross/Instruments.antt =====
-- The legs of each instrument are its residual transfers, and no instrument is left out.
use tradeguard_canton.Prelude.{
  String, Bool, true, false, ◌≡◌, refl, sym, ap, ◌∙◌, some, List, [], ◌∷◌, ◌++◌, inl, inr, arith,
  Bool-cases, keep, append-nil, if◌then◌else◌, subst,
}
use tradeguard_canton.Prelude.Dict.{Dict}
use tradeguard_canton.Prelude.Sorting.{sort}
use tradeguard_canton.Prelude.Actions.{bind-some}
use tradeguard_canton.Netting.{
  Transfer, net_positions, post_all, owing, due, match_greedily, minimal_settlement,
}
use tradeguard_canton.Solver.Model.{same, member}
use tradeguard_canton.Tokens.{Leg, Payment}
use tradeguard_canton.Tokens.Legs.{AreLegs}
use tradeguard_canton.Tokens.Cross.{
  rows_in, instruments_of, obligations_in, residuals_in, legs_for, all_legs,
}

-- the legs of an instrument
abbrev pub legs_in : String → List Leg → List Leg
legs_in i legs = keep (λ (leg : Leg). same leg.instrument i) legs

keep-append :
    {A : Type 0} (p : A → Bool) (xs ys : List A) → keep p (xs ++ ys) ≡ keep p xs ++ keep p ys
keep-append p [] ys = refl
keep-append p (x ∷ xs) ys = ground (arith, keep-append p xs ys)

some_inj : {A : Type 0} {x y : A} → some x ≡ some y → x ≡ y
some_inj e = cc

same_refl : (a : String) → same a a ≡ true
same_refl a = ground arith

same_eq : (a b : String) → same a b ≡ true → a ≡ b
same_eq a b e = ground arith

module _ (parties : Dict String String) where
  legs_in-AreLegs_self :
      (i : String) (ts : List Transfer) (legs : List Leg)
      → AreLegs parties i ts legs
      → legs_in i legs ≡ legs
  legs_in-AreLegs_self i [] [] h = refl
  legs_in-AreLegs_self i [] (leg ∷ legs) h = absurd h
  legs_in-AreLegs_self i (t ∷ ts) [] h = absurd h
  legs_in-AreLegs_self i (t ∷ ts) (leg ∷ legs) h =
      let rest = legs_in-AreLegs_self i ts legs h.1 in
      rw (h.0.same_instrument, same_refl i, rest) refl

  legs_in-AreLegs_other :
      (i j : String) (ts : List Transfer) (legs : List Leg)
      → same i j ≡ false
      → AreLegs parties i ts legs
      → legs_in j legs ≡ []
  legs_in-AreLegs_other i j [] [] ne h = refl
  legs_in-AreLegs_other i j [] (leg ∷ legs) ne h = absurd h
  legs_in-AreLegs_other i j (t ∷ ts) [] ne h = absurd h
  legs_in-AreLegs_other i j (t ∷ ts) (leg ∷ legs) ne h =
      rw (h.0.same_instrument, ne) (legs_in-AreLegs_other i j ts legs ne h.1)

  legs_for-AreLegs :
      {World : Type 0} (i : String) (ts : List Transfer) (w : World) (legs : List Leg)
      → (legs_for parties i ts w).0 ≡ some legs
      → AreLegs parties i ts legs
  unfolding legs_for
  legs_for-AreLegs i [] w legs h = rw (← some_inj h) tt
  legs_for-AreLegs i (t ∷ ts) w legs h =
      let (sender, e₁, h₁, _) = bind-some _ _ w legs h in
      let (receiver, e₂, h₂, _) = bind-some _ _ w legs h₁ in
      let (rest, e₃, h₃, _) = bind-some _ _ w legs h₂ in
      rw (← some_inj h₃) (
        record { from_sender = e₁; to_receiver = e₂; same_amount = refl; same_instrument = refl },
        legs_for-AreLegs i ts w rest e₃,
      )

-- no instrument stands twice
abbrev pub IsDistinct : List String → Type 0
IsDistinct [] = Unit
IsDistinct (i ∷ is) = (member i is ≡ false) × IsDistinct is

module _ (parties : Dict String String) (book : List Payment) where
  -- A listed instrument has its residual transfers as legs, another one has none.
  pub record Serves (is : List String) (legs : List Leg) (j : String) : Type 0 where
    pub listed : member j is ≡ true → AreLegs parties j (residuals_in book j) (legs_in j legs)
    pub others : member j is ≡ false → legs_in j legs ≡ []

  Serves-first :
      (i : String) (is : List String) (legs rest : List Leg) (j : String)
      → AreLegs parties i (residuals_in book i) legs
      → member i is ≡ false
      → Serves is rest j
      → same j i ≡ true
      → Serves (i ∷ is) (legs ++ rest) j
  Serves-first i is legs rest j h fresh s e = record {
    listed = λ _.
        rw (all_of)
          (subst (λ k. AreLegs parties k (residuals_in book k) legs) (sym (same_eq j i e)) h);
    others = λ m. absurd (clash m);
  }
    where
      clash : member j (i ∷ is) ≡ false → ⊥
      clash m = let m' : true ≡ false = rw e at m in cc

      none_of_rest : legs_in j rest ≡ []
      none_of_rest = s.others (ap (λ k. member k is) (same_eq j i e) ∙ fresh)

      own : legs_in j legs ≡ legs
      own =
          ap (λ k. legs_in k legs) (same_eq j i e)
          ∙ legs_in-AreLegs_self parties i (residuals_in book i) legs h

      all_of : legs_in j (legs ++ rest) ≡ legs
      all_of = keep-append _ legs rest ∙ rw (own, none_of_rest) (append-nil legs)

  Serves-later :
      (i : String) (is : List String) (legs rest : List Leg) (j : String)
      → AreLegs parties i (residuals_in book i) legs
      → Serves is rest j
      → same j i ≡ false
      → Serves (i ∷ is) (legs ++ rest) j
  Serves-later i is legs rest j h s e = record {
    listed = λ m. rw only_rest (s.listed (rw e at m));
    others = λ m. only_rest ∙ s.others (rw e at m);
  }
    where
      ne : same i j ≡ false
      ne = ground arith

      only_rest : legs_in j (legs ++ rest) ≡ legs_in j rest
      only_rest =
          keep-append _ legs rest
          ∙ ap (λ xs. xs ++ legs_in j rest)
              (legs_in-AreLegs_other parties i j (residuals_in book i) legs ne h)

  all_legs-Serves :
      {World : Type 0} (is : List String) (w : World) (legs : List Leg) (j : String)
      → IsDistinct is
      → (all_legs parties book is w).0 ≡ some legs
      → Serves is legs j
  unfolding all_legs
  all_legs-Serves [] w legs j d h =
      rw (← some_inj h) (record { listed = λ m. absurd (no m); others = λ _. refl })
    where
      no : member j [] ≡ true → ⊥
      no m = cc
  all_legs-Serves (i ∷ is) w legs j d h =
      let (first, e₁, h₁, _) = bind-some _ _ w legs h in
      let (rest, e₂, h₂, _) = bind-some _ _ _ legs h₁ in
      let are = legs_for-AreLegs parties i (residuals_in book i) w first e₁ in
      let later = all_legs-Serves is _ rest j d.1 e₂ in
      rw (← some_inj h₂) (elim (Bool-cases (same j i)) [
        | inl e ↦ Serves-first i is first rest j are d.0 later e
        | inr e ↦ Serves-later i is first rest j are later e
      ])

member-snoc :
    (is : List String) (k i : String)
    → member k (is ++ i ∷ []) ≡ (if member k is then true else same k i)
member-snoc [] k i = ground arith
member-snoc (j ∷ is) k i = ground (arith, member-snoc is k i)

IsDistinct-snoc :
    (is : List String) (i : String)
    → member i is ≡ false
    → IsDistinct is
    → IsDistinct (is ++ i ∷ [])
IsDistinct-snoc [] i m d = (refl, tt)
IsDistinct-snoc (k ∷ is) i m d =
    (ground (arith, member-snoc is k i), IsDistinct-snoc is i (ground arith) d.1)

instruments_of-IsDistinct :
    (rows : List Payment) (seen : List String)
    → IsDistinct seen
    → IsDistinct (instruments_of seen rows)
unfolding instruments_of
instruments_of-IsDistinct [] seen d = d
instruments_of-IsDistinct (r ∷ rows) seen d = elim (Bool-cases (member r.instrument seen)) [
  | inl e ↦ rw e (instruments_of-IsDistinct rows seen d)
  | inr e ↦ rw e (instruments_of-IsDistinct rows _ (IsDistinct-snoc seen r.instrument e d))
]

-- An instrument that is not listed was not seen, and has no rows.
instruments_of-others :
    (rows : List Payment) (seen : List String) (j : String)
    → member j (instruments_of seen rows) ≡ false
    → (member j seen ≡ false) × (rows_in j rows ≡ [])
unfolding instruments_of rows_in
instruments_of-others [] seen j m = (m, refl)
instruments_of-others (r ∷ rows) seen j m = elim (Bool-cases (member r.instrument seen)) [
  | inl e ↦ let (a, b) = instruments_of-others rows seen j (rw e at m) in (a, rw (other_seen e a) b)
  | inr e ↦
      let (a, b) = instruments_of-others rows (seen ++ r.instrument ∷ []) j (rw e at m) in
      let (c, d) = split a in (c, rw d b)
]
  where
    other_seen :
        member r.instrument seen ≡ true → member j seen ≡ false → same r.instrument j ≡ false
    other_seen e a = elim (Bool-cases (same r.instrument j)) [
      | inr s ↦ s
      | inl s ↦ absurd (clash (sym (ap (λ k. member k seen) (same_eq r.instrument j s)) ∙ e) a)
    ]
      where
        clash : member j seen ≡ true → member j seen ≡ false → ⊥
        clash p q = cc

    split :
        member j (seen ++ r.instrument ∷ []) ≡ false
        → (member j seen ≡ false) × (same r.instrument j ≡ false)
    split a = ground (arith, member-snoc seen j r.instrument)

-- The legs of every instrument are the residual transfers of its rows; one without rows has none.
pub all_legs-AreLegs :
    {World : Type 0} (parties : Dict String String) (book : List Payment) (w : World)
    (legs : List Leg) (j : String)
    → (all_legs parties book (instruments_of [] book) w).0 ≡ some legs
    → AreLegs parties j (residuals_in book j) (legs_in j legs)
unfolding residuals_in obligations_in rows_in minimal_settlement net_positions post_all owing due
    match_greedily sort
all_legs-AreLegs parties book w legs j h =
    let is = instruments_of [] book in
    let serves =
      all_legs-Serves parties book is w legs j (instruments_of-IsDistinct book [] tt) h in
    elim (Bool-cases (member j is)) [
      | inl m ↦ serves.listed m
      | inr m ↦ rw (serves.others m, (instruments_of-others book [] j m).1) no_rows
    ]
  where
    no_rows : AreLegs parties j (minimal_settlement [] j) []
    no_rows = tt
