-- ===== src/Solver/Fx/Rated.antt =====
-- A book is valued only if every one of its obligations has a rate.
use tradeguard_canton.Prelude.{
  String, true, false, ◌≡◌, refl, ap, ◌∙◌, Option, none, some, List, [], ◌∷◌, All, All-map, arith,
}
use tradeguard_canton.Netting.{Obligation, gross}
use tradeguard_canton.Solver.Model.{
  CreditLimit, FxRate, FloorConstraint, Weights, Binding, no_rate, SolveResult, member,
}
use tradeguard_canton.Solver.Lp.{Solver}
use tradeguard_canton.Solver.Maximal.{distinct}
use tradeguard_canton.Solver.Maximal.Flows.{member-distinct}
use tradeguard_canton.Solver.Maximal.Settles.{member-sort, All-member}
use tradeguard_canton.Solver.Fx.{
  Factor, missing, ratio, zero_division, fx_factor, instruments_of, currencies_of, unrated,
  Balances, solve_valued, value_all, fx_result, solve_fx,
}

abbrev pub IsRatio : Factor → Type 0
IsRatio (ratio num den) = Unit
IsRatio missing = ⊥
IsRatio zero_division = ⊥

module _ (settle_ccy : String) (rates : List FxRate) where
  abbrev IsRated : String → Type 0
  IsRated c = IsRatio (fx_factor settle_ccy rates c)

  rest_named :
      (c : String) (rest : Option (List Binding))
      → elim rest [ none ↦ none | some bs ↦ some (no_rate c settle_ccy ∷ bs) ] ≡ some []
      → ⊥
  rest_named c none e = cc
  rest_named c (some bs) e = ground arith

  unrated-cons :
      (c : String) (cs : List String)
      → unrated settle_ccy rates (c ∷ cs) ≡ some []
      → IsRated c × (unrated settle_ccy rates cs ≡ some [])
  unfolding unrated
  unrated-cons c cs h = by_factor (fx_factor settle_ccy rates c) refl
    where
      raised : ◌≡◌ {A = Option (List Binding)} none (some []) → ⊥
      raised e = cc

      by_factor :
          (f : Factor)
          → fx_factor settle_ccy rates c ≡ f
          → IsRated c × (unrated settle_ccy rates cs ≡ some [])
      by_factor missing e =
          absurd (rest_named c (unrated settle_ccy rates cs) (simp (unrated, e) at h))
      by_factor (ratio num den) e = (rw e tt, simp (unrated, e) at h)
      by_factor zero_division e = absurd (raised (simp (unrated, e) at h))

  unrated-IsRated : (cs : List String) → unrated settle_ccy rates cs ≡ some [] → All IsRated cs
  unrated-IsRated [] h = tt
  unrated-IsRated (c ∷ cs) h = let both = unrated-cons c cs h in (both.0, unrated-IsRated cs both.1)

  instruments-members :
      (os : List Obligation)
      → All (λ (o : Obligation). member o.instrument (instruments_of os) ≡ true) os
  instruments-members [] = tt
  instruments-members (o ∷ os) = (
    ground arith,
    All-map (λ (p : Obligation). member p.instrument (instruments_of os) ≡ true)
        (λ (p : Obligation). member p.instrument (instruments_of (o ∷ os)) ≡ true) os
        (λ p m. ground arith) (instruments-members os),
  )

  book-IsRated :
      (os : List Obligation)
      → unrated settle_ccy rates (currencies_of os) ≡ some []
      → All (λ (o : Obligation). IsRated o.instrument) os
  book-IsRated os h =
      All-map (λ (o : Obligation). member o.instrument (instruments_of os) ≡ true)
        (λ (o : Obligation). IsRated o.instrument) os
        (λ o m.
          All-member IsRated o.instrument (currencies_of os) (unrated-IsRated (currencies_of os) h)
            (member-sort o.instrument (distinct (instruments_of os))
              ∙ member-distinct o.instrument (instruments_of os)
              ∙ m))
        (instruments-members os)

-- A feasible answer comes from a book in which no rate is missing.
pub solve_fx-valued :
    (solver : Solver) (rates : List FxRate) (settle_ccy : String) (limits : List CreditLimit)
    (floors : List FloorConstraint) (balances : Balances) (weights : Weights) (os : List Obligation)
    (r : SolveResult)
    → solve_fx solver rates settle_ccy limits floors balances weights os ≡ some r
    → r.feasible ≡ true
    → (unrated settle_ccy rates (currencies_of os) ≡ some [])
      × (r
          ≡ solve_valued solver rates settle_ccy limits floors balances weights
              (gross os)
              (value_all settle_ccy rates [] os))
unfolding solve_fx
solve_fx-valued solver rates s limits floors balances weights os r h ok =
    by_rates (unrated s rates (currencies_of os)) refl
  where
    valued : SolveResult
    valued =
        solve_valued solver rates s limits floors balances weights (gross os)
          (value_all s rates [] os)

    raised : none ≡ some r → ⊥
    raised e = cc

    unwrap : {x : SolveResult} → some x ≡ some r → r ≡ x
    unwrap e = ground arith

    refused :
        (b : Binding) (bs : List Binding)
        → some (fx_result false [] [] (gross os) (b ∷ bs)) ≡ some r
        → ⊥
    refused b bs e = let same = ap (λ (x : SolveResult). x.feasible) (unwrap e) in cc

    by_rates :
        (x : Option (List Binding))
        → unrated s rates (currencies_of os) ≡ x
        → (unrated s rates (currencies_of os) ≡ some []) × (r ≡ valued)
    by_rates none e = absurd (raised (simp (solve_fx, e) at h))
    by_rates (some []) e = (e, unwrap (simp (solve_fx, e) at h))
    by_rates (some (b ∷ bs)) e = absurd (refused b bs (simp (solve_fx, e) at h))

-- If a cross-currency book is feasible, every obligation in it has an agreed rate to the currency
-- of settlement: nothing is valued at a guess.
pub solve_fx-IsRatio :
    (solver : Solver) (rates : List FxRate) (settle_ccy : String) (limits : List CreditLimit)
    (floors : List FloorConstraint) (balances : Balances) (weights : Weights) (os : List Obligation)
    (r : SolveResult)
    → solve_fx solver rates settle_ccy limits floors balances weights os ≡ some r
    → r.feasible ≡ true
    → All (λ (o : Obligation). IsRatio (fx_factor settle_ccy rates o.instrument)) os
solve_fx-IsRatio solver rates s limits floors balances weights os r h ok =
    book-IsRated s rates os
      (solve_fx-valued solver rates s limits floors balances weights os r h ok).0
