-- ===== src/Solver/Book/Settles.antt =====
-- A feasible answer of `solve` settles every currency of the book on its own.
use tradeguard_canton.Prelude.{
  String, true, ◌≡◌, refl, ◌≢◌, ◌∙◌, ap, sym, none, some, Option, List, [], ◌∷◌, ◌++◌, map, keep,
  arith, inl, inr, Bool-cases, Option-cases, All, append-nil,
}
use tradeguard_canton.Prelude.Int.{ltb_ℤ, pos, ℤ, ◌-ℤ◌}
use tradeguard_canton.Prelude.Keys.{str_dec}
use tradeguard_canton.Prelude.Dict.{Dict, lookup, get_or, IsUnique}
use tradeguard_canton.Prelude.Sorting.{sort, All-sort}
use tradeguard_canton.Netting.{Obligation, net_positions}
use tradeguard_canton.Netting.Settlement.{Settles}
use tradeguard_canton.Solver.Model.{CreditLimit, Weights, SolvedTransfer, as_transfer, same}
use tradeguard_canton.Solver.Lp.{Var, flow, Solver}
use tradeguard_canton.Solver.OneCurrency.{
  solve_one_currency, flow_transfers, transfer_order, arcs, payers_of, receivers_of,
}
use tradeguard_canton.Solver.OneCurrency.Settles.{
  level, solved, refused, answer_cases, solve_one_currency-Settles,
}
use tradeguard_canton.Solver.Book.{
  by_currency, by_name, transfers_of, all_feasible, solve_each, solve,
}
use tradeguard_canton.Solver.Book.Groups.{
  in_currency, by_currency-in_currency, by_currency-IsUnique, sort-lookup, sort-IsUnique,
}

-- The transfers of one currency, in their order.
abbrev pub transfers_in : String → List SolvedTransfer → List SolvedTransfer
transfers_in c ts = keep (λ t. same c t.currency) ts

abbrev IsIn : String → SolvedTransfer → Type 0
IsIn c t = t.currency ≡ c

flow_transfers-IsIn :
    (c : String) (v : Var → ℤ) (group : List (String × String))
    → All (IsIn c) (flow_transfers c v group)
unfolding flow_transfers
flow_transfers-IsIn c v [] = tt
flow_transfers-IsIn c v (a ∷ group) =
    let rest = flow_transfers-IsIn c v group in
    elim (Bool-cases (ltb_ℤ (pos 0) (v (flow a.0 a.1)))) [
      | inl e ↦ rw e (refl, rest)
      | inr e ↦ rw e rest
    ]

transfers_in-same :
    (c : String) (ts : List SolvedTransfer) → All (IsIn c) ts → transfers_in c ts ≡ ts
transfers_in-same c [] h = refl
transfers_in-same c (t ∷ ts) h = elim (str_dec c t.currency) [
  | yes e ↦ ground (arith, transfers_in-same c ts h.1)
  | no ne ↦ absurd (ne (sym h.0))
]

transfers_in-other :
    (c k : String) (ts : List SolvedTransfer) → c ≢ k → All (IsIn k) ts → transfers_in c ts ≡ []
transfers_in-other c k [] ne h = refl
transfers_in-other c k (t ∷ ts) ne h = elim (str_dec c t.currency) [
  | yes e ↦ absurd (ne (e ∙ h.0))
  | no other ↦ ground (arith, transfers_in-other c k ts ne h.1)
]

transfers_in-append :
    (c : String) (ts us : List SolvedTransfer)
    → transfers_in c (ts ++ us) ≡ transfers_in c ts ++ transfers_in c us
transfers_in-append c [] us = refl
transfers_in-append c (t ∷ ts) us = ground (arith, transfers_in-append c ts us)

module _ (solver : Solver) (limits : List CreditLimit) (weights : Weights) where
  pub one_currency-IsIn :
      (c : String) (os : List Obligation)
      → All (IsIn c) (solve_one_currency solver c os limits weights).transfers
  one_currency-IsIn c os = elim (answer_cases solver c os limits weights) [
    | level _ _ nothing ↦ rw nothing tt
    | solved _ _ read ↦ rw read (
        All-sort transfer_order (IsIn c) _ (
          flow_transfers-IsIn c _
            (arcs (payers_of (net_positions os)) (receivers_of (net_positions os)))))
    | refused _ nothing _ ↦ rw nothing tt
  ]

  -- The transfers that a group of obligations, if there is one, leads to.
  abbrev chosen : String → Option (List Obligation) → List SolvedTransfer
  chosen c none = []
  chosen c (some os) = (solve_one_currency solver c os limits weights).transfers

  solve_each-transfers_in :
      (c : String) (items : List (String × List Obligation))
      → IsUnique str_dec items
      → transfers_in c (transfers_of (solve_each solver limits weights items))
        ≡ chosen c (lookup str_dec c items)
  unfolding solve_each
  solve_each-transfers_in c [] h = refl
  solve_each-transfers_in c ((k, os) ∷ items) h =
      let mine = (solve_one_currency solver k os limits weights).transfers in
      let others = transfers_of (solve_each solver limits weights items) in
      let rest = solve_each-transfers_in c items h.1 in
      elim (str_dec c k) [
        | yes e ↦ here e rest
        | no ne ↦
            transfers_in-append c mine others
            ∙ ap (λ xs. xs ++ transfers_in c others)
                (transfers_in-other c k mine ne (one_currency-IsIn k os))
            ∙ rest
            ∙ ap (chosen c) (not_here ne)
      ]
    where
      not_here : c ≢ k → lookup str_dec c items ≡ lookup str_dec c ((k, os) ∷ items)
      not_here ne = ground arith

      at_head : c ≡ k → lookup str_dec c ((k, os) ∷ items) ≡ some os
      at_head e = ground arith

      here :
          c ≡ k
          → transfers_in c (transfers_of (solve_each solver limits weights items))
            ≡ chosen c (lookup str_dec c items)
          → transfers_in c (
              (solve_one_currency solver k os limits weights).transfers
              ++ transfers_of (solve_each solver limits weights items))
            ≡ chosen c (lookup str_dec c ((k, os) ∷ items))
      here e rest =
          transfers_in-append c _ _
          ∙ ap
              (λ xs. transfers_in c (solve_one_currency solver k os limits weights).transfers ++ xs)
              (rest ∙ ap (chosen c) (ap (λ x. lookup str_dec x items) e ∙ h.0))
          ∙ append-nil _
          ∙ ap (λ x. transfers_in x (solve_one_currency solver k os limits weights).transfers) e
          ∙ transfers_in-same k _ (one_currency-IsIn k os)
          ∙ ap (λ x. (solve_one_currency solver x os limits weights).transfers) (sym e)
          ∙ ap (chosen c) (sym (at_head e))

  solve_each-feasible :
      (c : String) (items : List (String × List Obligation)) (os : List Obligation)
      → all_feasible (solve_each solver limits weights items) ≡ true
      → lookup str_dec c items ≡ some os
      → (solve_one_currency solver c os limits weights).feasible ≡ true
  unfolding solve_each
  solve_each-feasible c [] os h e = cc
  solve_each-feasible c ((k, mine) ∷ items) os h e = elim (str_dec c k) [
    | yes here ↦ rw here (head (ground arith))
    | no ne ↦ solve_each-feasible c items os (ground arith) (ground arith)
  ]
    where
      head : mine ≡ os → (solve_one_currency solver k os limits weights).feasible ≡ true
      head same_group = rw (← same_group) (ground arith)

-- A feasible answer settles the obligations of every currency by the transfers of that currency,
-- and by no others: value never crosses from one currency to another.
pub solve-Settles :
    (solver : Solver) (obligations : List Obligation) (limits : List CreditLimit)
    (weights : Weights) (currency : String)
    → (solve solver obligations limits weights).feasible ≡ true
    → Settles (in_currency currency obligations) (
        map as_transfer (transfers_in currency (solve solver obligations limits weights).transfers))
unfolding solve ◌-ℤ◌
solve-Settles solver os limits weights c h =
    let unique = by_currency-IsUnique os in
    let items = sort by_name (by_currency os) in
    let found =
      solve_each-transfers_in solver limits weights c items
        (sort-IsUnique (by_currency os) unique) in
    elim (Option-cases (lookup str_dec c items)) [
      | inl e ↦
          rw
            (
              found,
              e,
              ← by_currency-in_currency c os,
              get_none (by_currency os) (sym (sort-lookup c (by_currency os) unique) ∙ e),
            )
            (record { pays = λ p. refl; is_paid = λ p. refl })
      | inr (group, e) ↦
          rw
            (
              found,
              e,
              ← by_currency-in_currency c os,
              get_some (by_currency os) group (sym (sort-lookup c (by_currency os) unique) ∙ e),
            )
            (solve_one_currency-Settles solver c group limits weights
              (solve_each-feasible solver limits weights c items group h e))
    ]
  where
    get_none :
        (d : Dict String (List Obligation)) → lookup str_dec c d ≡ none → get_or str_dec c [] d ≡ []
    get_none [] e = refl
    get_none ((k, x) ∷ d) e = ground (arith, get_none d)

    get_some :
        (d : Dict String (List Obligation)) (g : List Obligation)
        → lookup str_dec c d ≡ some g
        → get_or str_dec c [] d ≡ g
    get_some [] g e = cc
    get_some ((k, x) ∷ d) g e = ground (arith, get_some d g)
