-- ===== src/Solver/Maximal/Partition.antt =====
-- `solve_maximal` settles or defers every obligation, and no value is lost, whatever the solver
-- answers.
use tradeguard_canton.Prelude.{
  ℕ, suc, ◌+◌, String, Bool, true, false, not, ◌≡◌, refl, ◌∙◌, ap, List, [], ◌∷◌, ◌++◌, keep,
  length, if◌then◌else◌, leb, ltb, arith, inl, inr, Bool-cases, ◌==◌,
}
use tradeguard_canton.Prelude.Int.{ℤ, pos, ◌+ℤ◌, int_laws, pos_part}
use tradeguard_canton.Prelude.Keys.{str_dec}
use tradeguard_canton.Prelude.Dict.{Dict, get_or, insert}
use tradeguard_canton.Prelude.Sorting.{sort, insert_sorted}
use tradeguard_canton.Netting.{Obligation, gross}
use tradeguard_canton.Solver.Model.{CreditLimit, AggLimit, Weights}
use tradeguard_canton.Solver.Lp.{Solver, value_of}
use tradeguard_canton.Solver.Book.{group_all, by_name}
use tradeguard_canton.Solver.Maximal.{
  Indexed, enumerate, owed_of, indices_of, is_settled, by_index, settled_of, deferred_of,
  maximal_each, solve_one_currency_maximal, maximal_problem, solve_maximal,
}

-- How often an index stands in a list.
abbrev pub times : ℕ → List ℕ → ℕ
times i [] = 0
times i (j ∷ js) = (if i == j then 1 else 0) + times i js

-- A measure of lists of obligations that adds up over their elements.
module _ (f : Indexed → ℤ) where
  abbrev pub sum_of : List Indexed → ℤ
  sum_of [] = pos 0
  sum_of (x ∷ xs) = f x +ℤ sum_of xs

  abbrev sum_groups : List (String × List Indexed) → ℤ
  sum_groups [] = pos 0
  sum_groups ((c, items) ∷ rest) = sum_of items +ℤ sum_groups rest

  sum_of-append : (xs ys : List Indexed) → sum_of (xs ++ ys) ≡ sum_of xs +ℤ sum_of ys
  sum_of-append [] ys = omega int_laws
  sum_of-append (x ∷ xs) ys = rw (sum_of-append xs ys) (omega int_laws)

  sum_groups-insert :
      (c : String) (x : Indexed) (d : Dict String (List Indexed))
      → sum_groups (insert str_dec c (get_or str_dec c [] d ++ x ∷ []) d) ≡ sum_groups d +ℤ f x
  sum_groups-insert c x [] = omega int_laws
  sum_groups-insert c x ((k, items) ∷ d) =
      grind (int_laws, sum_of-append items (x ∷ []), sum_groups-insert c x d)

  sum_groups-group_all :
      (d : Dict String (List Indexed)) (xs : List Indexed)
      → sum_groups (group_all (λ (x : Indexed). x.owed.instrument) d xs) ≡ sum_groups d +ℤ sum_of xs
  unfolding group_all
  sum_groups-group_all d [] = omega int_laws
  sum_groups-group_all d (x ∷ xs) =
      let c = x.owed.instrument in
      rw
        (
          sum_groups-group_all (insert str_dec c (get_or str_dec c [] d ++ x ∷ []) d) xs,
          sum_groups-insert c x d,
        )
        (omega int_laws)

  sum_groups-insert_sorted :
      (g : String × List Indexed) (d : Dict String (List Indexed))
      → sum_groups (insert_sorted by_name g d) ≡ sum_groups (g ∷ d)
  sum_groups-insert_sorted g [] = refl
  sum_groups-insert_sorted g (h ∷ d) = elim (Bool-cases (by_name g h)) [
    | inl e ↦ rw e refl
    | inr e ↦ rw e (rw (sum_groups-insert_sorted g d) (omega int_laws))
  ]

  sum_groups-sort : (d : Dict String (List Indexed)) → sum_groups (sort by_name d) ≡ sum_groups d
  unfolding sort
  sum_groups-sort [] = refl
  sum_groups-sort (g ∷ d) = rw (sum_groups-insert_sorted g (sort by_name d), sum_groups-sort d) refl

  sum_of-split :
      (test : Indexed → Bool) (xs : List Indexed)
      → sum_of (keep test xs) +ℤ sum_of (keep (λ x. not (test x)) xs) ≡ sum_of xs
  sum_of-split test [] = omega int_laws
  sum_of-split test (x ∷ xs) = elim (Bool-cases (test x)) [
    | inl e ↦ rw e (rw (← sum_of-split test xs) (omega int_laws))
    | inr e ↦ rw e (rw (← sum_of-split test xs) (omega int_laws))
  ]

  module _ (solver : Solver) (limits : List CreditLimit) (weights : Weights)
      (agg_limits : List AggLimit) where
    sum_of-maximal_each :
        (groups : List (String × List Indexed))
        → sum_of (settled_of (maximal_each solver limits weights agg_limits groups))
            +ℤ sum_of (deferred_of (maximal_each solver limits weights agg_limits groups))
          ≡ sum_groups groups
    unfolding maximal_each solve_one_currency_maximal
    sum_of-maximal_each [] = omega int_laws
    sum_of-maximal_each ((c, items) ∷ groups) =
        let v = value_of (solver.run (maximal_problem c items limits weights agg_limits)) in
        let answers = maximal_each solver limits weights agg_limits groups in
        rw
          (
            sum_of-append (keep (is_settled v) items) (settled_of answers),
            sum_of-append (keep (λ x. not (is_settled v x)) items) (deferred_of answers),
            ← sum_of-split (is_settled v) items,
            ← sum_of-maximal_each groups,
          )
          (omega int_laws)

    -- Whatever adds up over the obligations, adds up over the settled and the deferred ones.
    pub sum_of-book :
        (os : List Obligation)
        → sum_of (
              settled_of
                (maximal_each solver limits weights agg_limits (sort by_name (by_index os))))
            +ℤ sum_of (
                deferred_of
                  (maximal_each solver limits weights agg_limits (sort by_name (by_index os))))
          ≡ sum_of (enumerate 0 os)
    sum_of-book os =
        sum_of-maximal_each (sort by_name (by_index os))
        ∙ sum_groups-sort (by_index os)
        ∙ sum_groups-group_all [] (enumerate 0 os)
        ∙ zero_first (sum_of (enumerate 0 os))
      where
        zero_first : (x : ℤ) → pos 0 +ℤ x ≡ x
        zero_first x = omega int_laws

times-insert_sorted : (i j : ℕ) (js : List ℕ) → times i (insert_sorted leb j js) ≡ times i (j ∷ js)
times-insert_sorted i j [] = refl
times-insert_sorted i j (k ∷ js) = elim (Bool-cases (leb j k)) [
  | inl e ↦ rw e refl
  | inr e ↦ rw e (rw (times-insert_sorted i j js) (omega arith))
]

times-sort : (i : ℕ) (js : List ℕ) → times i (sort leb js) ≡ times i js
unfolding sort
times-sort i [] = refl
times-sort i (j ∷ js) = rw (times-insert_sorted i j (sort leb js), times-sort i js) refl

abbrev pub once : Bool → ℕ
once true = 1
once false = 0

abbrev is_at : ℕ → Indexed → ℤ
is_at i x = pos (if i == x.index then 1 else 0)

sum_of-is_at : (i : ℕ) (xs : List Indexed) → sum_of (is_at i) xs ≡ pos (times i (indices_of xs))
sum_of-is_at i [] = refl
sum_of-is_at i (x ∷ xs) = rw (sum_of-is_at i xs) (omega int_laws)

times-enumerate :
    (i k : ℕ) (os : List Obligation)
    → times i (indices_of (enumerate k os))
      ≡ (if leb k i then (if ltb i (k + length os) then 1 else 0) else 0)
times-enumerate i k [] = ground arith
times-enumerate i k (o ∷ os) = ground (arith, times-enumerate i (suc k) os)

sum_of-amount : (xs : List Indexed) → sum_of (λ x. x.owed.amount) xs ≡ gross (owed_of xs)
unfolding gross
sum_of-amount [] = refl
sum_of-amount (x ∷ xs) = rw (sum_of-amount xs) refl

gross-enumerate : (k : ℕ) (os : List Obligation) → gross (owed_of (enumerate k os)) ≡ gross os
unfolding gross
gross-enumerate k [] = refl
gross-enumerate k (o ∷ os) = rw (gross-enumerate (suc k) os) refl

-- Every obligation of the book stands exactly once in the lists of settled and of deferred
-- indices, and these hold no other index, whatever the solver answers.
pub solve_maximal-partition :
    (solver : Solver) (obligations : List Obligation) (limits : List CreditLimit)
    (weights : Weights) (agg_limits : List AggLimit) (i : ℕ)
    → times i (solve_maximal solver obligations limits weights agg_limits).settled_obligations
        + times i (solve_maximal solver obligations limits weights agg_limits).deferred_obligations
      ≡ once (ltb i (length obligations))
unfolding solve_maximal
solve_maximal-partition solver os limits weights agg_limits i =
    let answers = maximal_each solver limits weights agg_limits (sort by_name (by_index os)) in
    let whole = sum_of-book (is_at i) solver limits weights agg_limits os in
    rw
      (
        times-sort i (indices_of (settled_of answers)),
        times-sort i (indices_of (deferred_of answers)),
      )
      (ap pos_part (
          added (times i (indices_of (settled_of answers)))
            (times i (indices_of (deferred_of answers)))
          ∙ rw
              (
                sum_of-is_at i (settled_of answers),
                sum_of-is_at i (deferred_of answers),
                sum_of-is_at i (enumerate 0 os),
              )
              at whole)
        ∙ times-enumerate i 0 os
        ∙ from_zero)
  where
    added : (a b : ℕ) → pos (a + b) ≡ pos a +ℤ pos b
    added a b = omega int_laws

    from_zero :
        (if leb 0 i then (if ltb i (0 + length os) then 1 else 0) else 0) ≡ once (ltb i (length os))
    from_zero = ground arith

-- The value that is settled and the value that is deferred add up to the gross of the book: no
-- value is lost, whatever the solver answers.
pub solve_maximal-value :
    (solver : Solver) (obligations : List Obligation) (limits : List CreditLimit)
    (weights : Weights) (agg_limits : List AggLimit)
    → (solve_maximal solver obligations limits weights agg_limits).settled_value
        +ℤ (solve_maximal solver obligations limits weights agg_limits).deferred_value
      ≡ (solve_maximal solver obligations limits weights agg_limits).gross_obligations
unfolding solve_maximal
solve_maximal-value solver os limits weights agg_limits =
    let answers = maximal_each solver limits weights agg_limits (sort by_name (by_index os)) in
    let whole = sum_of-book (λ x. x.owed.amount) solver limits weights agg_limits os in
    rw
      (
        sum_of-amount (settled_of answers),
        sum_of-amount (deferred_of answers),
        sum_of-amount (enumerate 0 os),
      )
      at whole
    ∙ gross-enumerate 0 os
