-- ===== src/Solver/OneCurrency/Sums.antt =====
-- Sums over the parties of a table and over the arcs between them.
use tradeguard_canton.Prelude.{
  String, Bool, false, ◌≡◌, refl, none, some, List, [], ◌∷◌, ◌++◌, map, keep, ite, All, inl, inr,
  Bool-cases, Option-cases, ap, ◌∙◌, sym,
}
use tradeguard_canton.Prelude.Int.{ℤ, pos, ◌+ℤ◌, ◌≤ℤ◌, int_laws, ltb_ℤ, ◌*ℤ◌, one-*ℤ}
use tradeguard_canton.Prelude.Keys.{str_dec, str_leb}
use tradeguard_canton.Prelude.Dict.{Dict, lookup, IsUnique, get_or_of_lookup-none}
use tradeguard_canton.Prelude.Sorting.{sort, insert_sorted}
use tradeguard_canton.Netting.Greedy.{sent, received}
use tradeguard_canton.Solver.Model.{SolvedTransfer, as_transfer, residual}
use tradeguard_canton.Solver.Lp.{Var, flow, evaluate}
use tradeguard_canton.Solver.OneCurrency.{
  keys, at, arcs_from, arcs, outflow, inflow, flow_transfers, transfer_order,
}

-- The sum of `f` over the parties of a list that are `p`.
abbrev pub sum_at : String → (String → ℤ) → List String → ℤ
sum_at p f [] = pos 0
sum_at p f (k ∷ ks) = ite (str_dec p k) (f k) (pos 0) +ℤ sum_at p f ks

abbrev pub sum_all : (String → ℤ) → List String → ℤ
sum_all f [] = pos 0
sum_all f (k ∷ ks) = f k +ℤ sum_all f ks

sum_at-insert_sorted :
    (p : String) (f : String → ℤ) (k : String) (ks : List String)
    → sum_at p f (insert_sorted str_leb k ks) ≡ sum_at p f (k ∷ ks)
sum_at-insert_sorted p f k [] = refl
sum_at-insert_sorted p f k (j ∷ ks) = elim (Bool-cases (str_leb k j)) [
  | inl e ↦ rw e refl
  | inr e ↦ rw e (rw (sum_at-insert_sorted p f k ks) (omega int_laws))
]

pub sum_at-sort :
    (p : String) (f : String → ℤ) (ks : List String) → sum_at p f (sort str_leb ks) ≡ sum_at p f ks
unfolding sort
sum_at-sort p f [] = refl
sum_at-sort p f (k ∷ ks) = rw (sum_at-insert_sorted p f k _, sum_at-sort p f ks)

-- A filter that drops only parties at which `f` is zero.
pub sum_at-keep :
    (p : String) (f : String → ℤ) (test : String → Bool) (ks : List String)
    → ((k : String) → test k ≡ false → f k ≡ pos 0)
    → sum_at p f (keep test ks) ≡ sum_at p f ks
sum_at-keep p f test [] h = refl
sum_at-keep p f test (k ∷ ks) h = elim (Bool-cases (test k)) [
  | inl e ↦ rw e (rw (sum_at-keep p f test ks h) refl)
  | inr e ↦ rw e (rw (sum_at-keep p f test ks h, h k e) (grind int_laws))
]

-- Over the keys of a dict, where `f` is zero at a party that is not there.
sum_at-keys_absent :
    (p : String) (f : String → ℤ) (d : Dict String ℤ)
    → lookup str_dec p d ≡ none
    → sum_at p f (keys d) ≡ pos 0
sum_at-keys_absent p f [] h = refl
sum_at-keys_absent p f ((k, v) ∷ d) h = grind (int_laws, sum_at-keys_absent p f d)

sum_at-keys_found :
    (p : String) (f : String → ℤ) (d : Dict String ℤ) {v : ℤ}
    → IsUnique str_dec d
    → lookup str_dec p d ≡ some v
    → sum_at p f (keys d) ≡ f p
sum_at-keys_found p f [] h e = cc
sum_at-keys_found p f ((k, w) ∷ d) h e = elim (str_dec p k) [
  | yes here ↦ rw (sum_at-keys_absent p f d (rw (← here) at h.0)) (rw (← here) (grind int_laws))
  | no other ↦ grind (int_laws, sum_at-keys_found p f d h.1)
]

pub sum_at-keys :
    (p : String) (g : ℤ → ℤ) (d : Dict String ℤ)
    → IsUnique str_dec d
    → g (pos 0) ≡ pos 0
    → sum_at p (λ k. g (at k d)) (keys d) ≡ g (at p d)
sum_at-keys p g d h z = elim (Option-cases (lookup str_dec p d)) [
  | inl absent ↦
      sum_at-keys_absent p (λ k. g (at k d)) d absent
      ∙ sym z
      ∙ ap g (sym (get_or_of_lookup-none str_dec p (pos 0) d absent))
  | inr (v, found) ↦ sum_at-keys_found p (λ k. g (at k d)) d h found
]

pub sum_at-congr :
    (p : String) (f g : String → ℤ) (ks : List String)
    → All (λ k. f k ≡ g k) ks
    → sum_at p f ks ≡ sum_at p g ks
sum_at-congr p f g [] h = refl
sum_at-congr p f g (k ∷ ks) h = rw (h.0, sum_at-congr p f g ks h.1) refl

sum_at-add :
    (p : String) (f g : String → ℤ) (ks : List String)
    → sum_at p (λ k. f k +ℤ g k) ks ≡ sum_at p f ks +ℤ sum_at p g ks
sum_at-add p f g [] = omega int_laws
sum_at-add p f g (k ∷ ks) = rw (sum_at-add p f g ks) (grind int_laws)

sum_at-zero : (p : String) (ks : List String) → sum_at p (λ k. pos 0) ks ≡ pos 0
sum_at-zero p [] = refl
sum_at-zero p (k ∷ ks) = rw (sum_at-zero p ks) (grind int_laws)

module _ (currency : String) (v : Var → ℤ) where
  abbrev pub IsNonneg : String × String → Type 0
  IsNonneg a = pos 0 ≤ℤ v (flow a.0 a.1)

  abbrev plan : List (String × String) → List SolvedTransfer
  plan group = flow_transfers currency v group

  -- One arc of the plan: its value moves, also when it is zero and stands in no transfer.
  sent-plan-cons :
      (p : String) (a : String × String) (group : List (String × String))
      → IsNonneg a
      → sent p (map as_transfer (plan (a ∷ group)))
        ≡ ite (str_dec p a.0) (v (flow a.0 a.1)) (pos 0) +ℤ sent p (map as_transfer (plan group))
  unfolding flow_transfers
  sent-plan-cons p a group h = elim (Bool-cases (ltb_ℤ (pos 0) (v (flow a.0 a.1)))) [
    | inl e ↦ rw e refl
    | inr e ↦ rw e (grind int_laws)
  ]

  received-plan-cons :
      (q : String) (a : String × String) (group : List (String × String))
      → IsNonneg a
      → received q (map as_transfer (plan (a ∷ group)))
        ≡ ite (str_dec q a.1) (v (flow a.0 a.1)) (pos 0)
          +ℤ received q (map as_transfer (plan group))
  unfolding flow_transfers
  received-plan-cons q a group h = elim (Bool-cases (ltb_ℤ (pos 0) (v (flow a.0 a.1)))) [
    | inl e ↦ rw e refl
    | inr e ↦ rw e (grind int_laws)
  ]

  residual-plan-cons :
      (a : String × String) (group : List (String × String))
      → IsNonneg a
      → residual (plan (a ∷ group)) ≡ v (flow a.0 a.1) +ℤ residual (plan group)
  unfolding flow_transfers residual
  residual-plan-cons a group h = elim (Bool-cases (ltb_ℤ (pos 0) (v (flow a.0 a.1)))) [
    | inl e ↦ rw e refl
    | inr e ↦ rw e (grind int_laws)
  ]

  pub sent-plan-append :
      (p k : String) (qs : List String) (group : List (String × String))
      → All IsNonneg (arcs_from k qs ++ group)
      → sent p (map as_transfer (plan (arcs_from k qs ++ group)))
        ≡ ite (str_dec p k) (evaluate v (outflow k qs)) (pos 0)
          +ℤ sent p (map as_transfer (plan group))
  sent-plan-append p k [] group h = grind int_laws
  sent-plan-append p k (q ∷ qs) group h =
      rw
        (
          sent-plan-cons p (k, q) (arcs_from k qs ++ group) h.0,
          sent-plan-append p k qs group h.1,
          one-*ℤ (v (flow k q)),
        )
        (grind int_laws)

  pub received-plan-append :
      (p k : String) (qs : List String) (group : List (String × String))
      → All IsNonneg (arcs_from k qs ++ group)
      → received p (map as_transfer (plan (arcs_from k qs ++ group)))
        ≡ sum_at p (λ q. v (flow k q)) qs +ℤ received p (map as_transfer (plan group))
  received-plan-append p k [] group h = grind int_laws
  received-plan-append p k (q ∷ qs) group h =
      rw
        (
          received-plan-cons p (k, q) (arcs_from k qs ++ group) h.0,
          received-plan-append p k qs group h.1,
        )
        (omega int_laws)

  residual-plan-append :
      (k : String) (qs : List String) (group : List (String × String))
      → All IsNonneg (arcs_from k qs ++ group)
      → residual (plan (arcs_from k qs ++ group))
        ≡ evaluate v (outflow k qs) +ℤ residual (plan group)
  residual-plan-append k [] group h = grind int_laws
  residual-plan-append k (q ∷ qs) group h =
      rw
        (
          residual-plan-cons (k, q) (arcs_from k qs ++ group) h.0,
          residual-plan-append k qs group h.1,
          one-*ℤ (v (flow k q)),
        )
        (omega int_laws)

  pub All-append_right :
      (xs ys : List (String × String)) → All IsNonneg (xs ++ ys) → All IsNonneg ys
  All-append_right [] ys h = h
  All-append_right (x ∷ xs) ys h = All-append_right xs ys h.1

  -- The plan over all arcs between two lists, by payer and by receiver, and as a whole.
  pub sent-plan :
      (p : String) (ps qs : List String)
      → All IsNonneg (arcs ps qs)
      → sent p (map as_transfer (plan (arcs ps qs))) ≡ sum_at p (λ k. evaluate v (outflow k qs)) ps
  unfolding arcs
  sent-plan p [] qs h = unfold flow_transfers in refl
  sent-plan p (k ∷ ps) qs h = rw (
    sent-plan-append p k qs (arcs ps qs) h,
    sent-plan p ps qs (All-append_right (arcs_from k qs) (arcs ps qs) h),
  )

  pub residual-plan :
      (ps qs : List String)
      → All IsNonneg (arcs ps qs)
      → residual (plan (arcs ps qs)) ≡ sum_all (λ k. evaluate v (outflow k qs)) ps
  unfolding arcs
  residual-plan [] qs h = unfold flow_transfers residual in refl
  residual-plan (k ∷ ps) qs h = rw (
    residual-plan-append k qs (arcs ps qs) h,
    residual-plan ps qs (All-append_right (arcs_from k qs) (arcs ps qs) h),
  )

  pub received-plan :
      (q : String) (ps qs : List String)
      → All IsNonneg (arcs ps qs)
      → received q (map as_transfer (plan (arcs ps qs)))
        ≡ sum_at q (λ k. evaluate v (inflow k ps)) qs
  unfolding arcs
  received-plan q [] qs h = rw (sum_at-zero q qs) (unfold flow_transfers in refl)
  received-plan q (p ∷ ps) qs h =
      rw
        (
          received-plan-append q p qs (arcs ps qs) h,
          received-plan q ps qs (All-append_right (arcs_from p qs) (arcs ps qs) h),
          ← sum_at-add q (λ k. v (flow p k)) (λ k. evaluate v (inflow k ps)) qs,
        )
        (sum_at-congr q (λ k. v (flow p k) +ℤ evaluate v (inflow k ps))
          (λ k. pos 1 *ℤ v (flow p k) +ℤ evaluate v (inflow k ps)) qs (everywhere qs))
    where
      everywhere :
          (ks : List String)
          → All
              (λ k.
                v (flow p k) +ℤ evaluate v (inflow k ps)
                ≡ pos 1 *ℤ v (flow p k) +ℤ evaluate v (inflow k ps))
              ks
      everywhere [] = tt
      everywhere (k ∷ ks) = (rw (one-*ℤ (v (flow p k))), everywhere ks)

-- The order of the transfers does not matter.
module _ (p : String) where
  sent-insert_sorted :
      (t : SolvedTransfer) (ts : List SolvedTransfer)
      → sent p (map as_transfer (insert_sorted transfer_order t ts))
        ≡ sent p (map as_transfer (t ∷ ts))
  sent-insert_sorted t [] = refl
  sent-insert_sorted t (u ∷ ts) = elim (Bool-cases (transfer_order t u)) [
    | inl e ↦ rw e refl
    | inr e ↦ rw e (rw (sent-insert_sorted t ts) (omega int_laws))
  ]

  pub sent-sort :
      (ts : List SolvedTransfer)
      → sent p (map as_transfer (sort transfer_order ts)) ≡ sent p (map as_transfer ts)
  unfolding sort
  sent-sort [] = refl
  sent-sort (t ∷ ts) = rw (sent-insert_sorted t _, sent-sort ts)

  received-insert_sorted :
      (t : SolvedTransfer) (ts : List SolvedTransfer)
      → received p (map as_transfer (insert_sorted transfer_order t ts))
        ≡ received p (map as_transfer (t ∷ ts))
  received-insert_sorted t [] = refl
  received-insert_sorted t (u ∷ ts) = elim (Bool-cases (transfer_order t u)) [
    | inl e ↦ rw e refl
    | inr e ↦ rw e (rw (received-insert_sorted t ts) (omega int_laws))
  ]

  pub received-sort :
      (ts : List SolvedTransfer)
      → received p (map as_transfer (sort transfer_order ts)) ≡ received p (map as_transfer ts)
  unfolding sort
  received-sort [] = refl
  received-sort (t ∷ ts) = rw (received-insert_sorted t _, received-sort ts)

residual-insert_sorted :
    (t : SolvedTransfer) (ts : List SolvedTransfer)
    → residual (insert_sorted transfer_order t ts) ≡ t.amount +ℤ residual ts
unfolding residual
residual-insert_sorted t [] = refl
residual-insert_sorted t (u ∷ ts) = elim (Bool-cases (transfer_order t u)) [
  | inl e ↦ rw e refl
  | inr e ↦ rw e (rw (residual-insert_sorted t ts) (omega int_laws))
]

pub residual-sort : (ts : List SolvedTransfer) → residual (sort transfer_order ts) ≡ residual ts
unfolding sort residual
residual-sort [] = refl
residual-sort (t ∷ ts) = rw (residual-insert_sorted t _, residual-sort ts)
