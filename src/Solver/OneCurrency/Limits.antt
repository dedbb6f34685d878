-- ===== src/Solver/OneCurrency/Limits.antt =====
-- A feasible answer of `_solve_one_currency` respects the credit limits.
use tradeguard_canton.Prelude.{
  String, Bool, true, false, ◌≡◌, refl, ap, ◌∙◌, ◌≢◌, Option, none, some, List, [], ◌∷◌, ◌++◌, keep,
  arith, All, All-map, inl, inr, Bool-cases, if◌then◌else◌, ◌&&◌,
}
use tradeguard_canton.Prelude.Int.{ℤ, pos, ◌≤ℤ◌, ltb_ℤ, one-*ℤ, +ℤ-zero}
use tradeguard_canton.Prelude.Keys.{str_dec}
use tradeguard_canton.Prelude.Dict.{Dict, lookup, insert, lookup-insert_self, lookup-insert_ne}
use tradeguard_canton.Prelude.Sorting.{All-sort}
use mathlib.Core.Option
use tradeguard_canton.Netting.{Obligation, net_positions}
use tradeguard_canton.Solver.Model.{CreditLimit, Weights, same, member}
use tradeguard_canton.Solver.Lp.{Var, flow, limit, Satisfies, Solver}
use tradeguard_canton.Solver.OneCurrency.{
  pair_dec, payers_of, receivers_of, arcs_from, arcs, applies, capped_of, netting_problem,
  flow_transfers, transfer_order, solve_one_currency,
}
use tradeguard_canton.Solver.OneCurrency.Problems.{problem-caps, capped_row}
use tradeguard_canton.Solver.OneCurrency.Settles.{level, solved, refused, answer_cases, read_off}

-- The limit from `p` to `q` in a currency: the last one that the list holds.
abbrev pub last_limit : String → String → String → List CreditLimit → Option ℤ
last_limit currency p q [] = none
last_limit currency p q (cl ∷ cls) = elim (last_limit currency p q cls) [
  | some cap ↦ some cap
  | none ↦
      if same cl.currency currency && (same p cl.frm && same q cl.to) then some cl.limit else none
]

abbrev pub Within : Option ℤ → ℤ → Type 0
Within none amount = Unit
Within (some cap) amount = amount ≤ℤ cap

abbrev pub or_else : Option ℤ → Option ℤ → Option ℤ
or_else (some x) y = some x
or_else none y = y

pub same_refl : (p : String) → same p p ≡ true
same_refl p = ground arith

-- A filter of the limits that keeps those of the pair in the currency.
module _ (currency p q : String) (test : CreditLimit → Bool)
    (fits : (cl : CreditLimit) → p ≡ cl.frm → q ≡ cl.to → test cl ≡ same cl.currency currency) where
  abbrev capped_from : List CreditLimit → Dict (String × String) ℤ → Dict (String × String) ℤ
  capped_from cls d = capped_of (keep test cls) d

  -- What one limit of the list does to the cap of the pair.
  step :
      (cl : CreditLimit) (d : Dict (String × String) ℤ)
      → lookup pair_dec (p, q) (if test cl then insert pair_dec (cl.frm, cl.to) cl.limit d else d)
        ≡ (if same cl.currency currency && (same p cl.frm && same q cl.to)
            then some cl.limit
            else lookup pair_dec (p, q) d)
  step cl d = elim (pair_dec (p, q) (cl.frm, cl.to)) [
    | yes e ↦ here (λ i. (e i).0) (λ i. (e i).1)
    | no ne ↦ elsewhere ne
  ]
    where
      here :
          p ≡ cl.frm
          → q ≡ cl.to
          → lookup pair_dec
              (p, q)
              (if test cl then insert pair_dec (cl.frm, cl.to) cl.limit d else d)
            ≡ (if same cl.currency currency && (same p cl.frm && same q cl.to)
                then some cl.limit
                else lookup pair_dec (p, q) d)
      here a b =
          rw (fits cl a b, ← a, ← b, same_refl p, same_refl q)
            (elim (Bool-cases (same cl.currency currency)) [
              | inl c ↦ rw c (lookup-insert_self pair_dec (p, q) cl.limit d)
              | inr c ↦ rw c refl
            ])

      elsewhere :
          ◌≢◌ {A = String × String} (p, q) (cl.frm, cl.to)
          → lookup pair_dec
              (p, q)
              (if test cl then insert pair_dec (cl.frm, cl.to) cl.limit d else d)
            ≡ (if same cl.currency currency && (same p cl.frm && same q cl.to)
                then some cl.limit
                else lookup pair_dec (p, q) d)
      elsewhere ne = rw (not_this ne) (elim (Bool-cases (test cl)) [
        | inl c ↦ rw c (lookup-insert_ne pair_dec (p, q) (cl.frm, cl.to) cl.limit d ne)
        | inr c ↦ rw c refl
      ])
        where
          not_this :
              ◌≢◌ {A = String × String} (p, q) (cl.frm, cl.to)
              → (same cl.currency currency && (same p cl.frm && same q cl.to)) ≡ false
          not_this other = elim (str_dec p cl.frm) [
            | yes a ↦ elim (str_dec q cl.to) [
              | yes b ↦ absurd (other λ i. (a i, b i))
              | no b ↦ ground arith
            ]
            | no a ↦ ground arith
          ]

  capped_from-cons :
      (cl : CreditLimit) (cls : List CreditLimit) (d : Dict (String × String) ℤ)
      → capped_from (cl ∷ cls) d
        ≡ capped_from cls (if test cl then insert pair_dec (cl.frm, cl.to) cl.limit d else d)
  unfolding capped_of
  capped_from-cons cl cls d = elim (Bool-cases (test cl)) [ inl e ↦ rw e refl | inr e ↦ rw e refl ]

  -- `capped` holds the last limit of the pair.
  pub capped-last_limit :
      (cls : List CreditLimit) (d : Dict (String × String) ℤ)
      → lookup pair_dec (p, q) (capped_from cls d)
        ≡ or_else (last_limit currency p q cls) (lookup pair_dec (p, q) d)
  capped-last_limit [] d = unfold capped_of in refl
  capped-last_limit (cl ∷ cls) d = rw (capped_from-cons cl cls d) (
      capped-last_limit cls (if test cl then insert pair_dec (cl.frm, cl.to) cl.limit d else d)
      ∙ ap (or_else (last_limit currency p q cls)) (step cl d)
      ∙ regroup (last_limit currency p q cls)
          (same cl.currency currency && (same p cl.frm && same q cl.to)))
    where
      regroup :
          (later : Option ℤ) (b : Bool)
          → or_else later (if b then some cl.limit else lookup pair_dec (p, q) d)
            ≡ or_else
                (elim later [ some cap ↦ some cap | none ↦ if b then some cl.limit else none ])
                (lookup pair_dec (p, q) d)
      regroup (some cap) b = refl
      regroup none true = refl
      regroup none false = refl

applies-fits :
    (currency p q : String) (payers receivers : List String)
    → member p payers ≡ true
    → member q receivers ≡ true
    → (cl : CreditLimit) → p ≡ cl.frm
    → q ≡ cl.to
    → applies currency payers receivers cl ≡ same cl.currency currency
applies-fits currency p q payers receivers m k cl a b =
    rw (← a, ← b, m, k) (with_true (same cl.currency currency))
  where
    with_true : (c : Bool) → (c && (true && true)) ≡ c
    with_true c = ground arith

-- Every arc joins a payer to a receiver.
abbrev Joined : List String → List String → String × String → Type 0
Joined ps qs a = (member a.0 ps ≡ true) × (member a.1 qs ≡ true)

arcs_from-Joined :
    (ps qs : List String) (p : String) (some_qs : List String) (rest : List (String × String))
    → member p ps ≡ true
    → All (λ q. member q qs ≡ true) some_qs
    → All (Joined ps qs) rest
    → All (Joined ps qs) (arcs_from p some_qs ++ rest)
arcs_from-Joined ps qs p [] rest m h r = r
arcs_from-Joined ps qs p (q ∷ some_qs) rest m h r =
    ((m, h.0), arcs_from-Joined ps qs p some_qs rest m h.1 r)

arcs-Joined :
    (ps qs some_ps : List String)
    → All (λ p. member p ps ≡ true) some_ps
    → All (λ q. member q qs ≡ true) qs
    → All (Joined ps qs) (arcs some_ps qs)
unfolding arcs
arcs-Joined ps qs [] h k = tt
arcs-Joined ps qs (p ∷ some_ps) h k =
    arcs_from-Joined ps qs p qs (arcs some_ps qs) h.0 k (arcs-Joined ps qs some_ps h.1 k)

pub All-members : (ps : List String) → All (λ p. member p ps ≡ true) ps
All-members [] = tt
All-members (p ∷ ps) = (
  rw (same_refl p) refl,
  All-map (λ x. member x ps ≡ true) (λ x. member x (p ∷ ps) ≡ true) ps (λ x m. ground arith)
      (All-members ps),
)

-- A limit on the value of each arc is a limit on each transfer.
pub plan-Within :
    (currency : String) (v : Var → ℤ) (cap : String → String → Option ℤ)
    (group : List (String × String))
    → All (λ (a : String × String). Within (cap a.0 a.1) (v (flow a.0 a.1))) group
    → All (λ t. Within (cap t.sender t.receiver) t.amount) (flow_transfers currency v group)
unfolding flow_transfers
plan-Within currency v cap [] h = tt
plan-Within currency v cap (a ∷ group) h =
    let rest = plan-Within currency v cap group h.1 in
    elim (Bool-cases (ltb_ℤ (pos 0) (v (flow a.0 a.1)))) [
      | inl e ↦ rw e (h.0, rest)
      | inr e ↦ rw e rest
    ]

module _ (currency : String) (net : Dict String ℤ) (limits : List CreditLimit) (weights : Weights)
    (v : Var → ℤ) (ok : Satisfies v (netting_problem currency net limits weights)) where
  cap_holds :
      (p q : String)
      → member p (payers_of net) ≡ true
      → member q (receivers_of net) ≡ true
      → (at_most : Option ℤ) → last_limit currency p q limits ≡ at_most
      → Within at_most (v (flow p q))
  cap_holds p q m k none e = tt
  cap_holds p q m k (some bound) e =
      let there =
        capped-last_limit currency p q (applies currency (payers_of net) (receivers_of net))
          (applies-fits currency p q (payers_of net) (receivers_of net) m k) limits [] in
      let row =
        problem-caps currency net limits weights p q
        ∙ ap (Option.map (capped_row p q)) (there ∙ ap (λ x. or_else x none) e) in
      let holds = ok.kept (limit p q) (capped_row p q bound) row in rw (one-*ℤ, +ℤ-zero) at holds

  pub read_off-Within :
      All
        (λ t. Within (last_limit currency t.sender t.receiver limits) t.amount)
        (read_off currency net v)
  read_off-Within =
      All-sort transfer_order
        (λ t. Within (last_limit currency t.sender t.receiver limits) t.amount) _
        (plan-Within currency v (λ p q. last_limit currency p q limits)
          (arcs (payers_of net) (receivers_of net))
          (All-map (Joined (payers_of net) (receivers_of net))
            (λ (a : String × String).
              Within (last_limit currency a.0 a.1 limits) (v (flow a.0 a.1)))
            (arcs (payers_of net) (receivers_of net))
            (λ a joined.
              cap_holds a.0 a.1 joined.0 joined.1 (last_limit currency a.0 a.1 limits) refl)
            (arcs-Joined (payers_of net) (receivers_of net) (payers_of net)
              (All-members (payers_of net)) (All-members (receivers_of net)))))

-- No transfer of an answer, feasible or not, exceeds the limit from its sender to its receiver in
-- this currency.
pub solve_one_currency-Within :
    (solver : Solver) (currency : String) (obligations : List Obligation)
    (limits : List CreditLimit) (weights : Weights)
    → All
        (λ t. Within (last_limit currency t.sender t.receiver limits) t.amount)
        (solve_one_currency solver currency obligations limits weights).transfers
solve_one_currency-Within solver currency os limits weights =
    elim (answer_cases solver currency os limits weights) [
      | level _ _ nothing ↦ rw nothing tt
      | solved o _ read ↦ rw read (
          read_off-Within currency (net_positions os) limits weights _
            (solver.sound (netting_problem currency (net_positions os) limits weights) o))
      | refused _ nothing _ ↦ rw nothing tt
    ]
