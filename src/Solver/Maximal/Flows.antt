-- ===== src/Solver/Maximal/Flows.antt =====
-- Sums over the arcs between all parties of a currency, read by payer and by receiver.
use tradeguard_canton.Prelude.{
  String, Bool, true, false, ◌≡◌, refl, ◌∙◌, ap, List, [], ◌∷◌, map, if◌then◌else◌, arith, inl, inr,
  Bool-cases, All,
}
use tradeguard_canton.Prelude.Int.{ℤ, pos, int_laws, one-*ℤ}
use tradeguard_canton.Prelude.Keys.{str_leb}
use tradeguard_canton.Prelude.Sorting.{sort}
use tradeguard_canton.Netting.Greedy.{sent, received}
use tradeguard_canton.Solver.Model.{SolvedTransfer, as_transfer, same, member}
use tradeguard_canton.Solver.Lp.{Var, flow, evaluate}
use tradeguard_canton.Solver.OneCurrency.{arcs_from, outflow, inflow, flow_transfers}
use tradeguard_canton.Solver.OneCurrency.Sums.{
  sum_at, sum_all, sum_at-sort, sent-plan-append, received-plan-append, All-append_right, IsNonneg,
}
use tradeguard_canton.Solver.Maximal.{distinct, others, pairs_of}

pub member-distinct : (p : String) (ps : List String) → member p (distinct ps) ≡ member p ps
member-distinct p [] = refl
member-distinct p (q ∷ ps) = ground (arith, member-distinct p ps, member-distinct q ps)

-- A party's share of a sum over distinct parties.
sum_at-distinct :
    (p : String) (f : String → ℤ) (ps : List String)
    → sum_at p f (distinct ps) ≡ (if member p ps then f p else pos 0)
sum_at-distinct p f [] = refl
sum_at-distinct p f (q ∷ ps) = grind (int_laws, sum_at-distinct p f ps, member-distinct p ps)

sum_at-others :
    (p k : String) (f : String → ℤ) (ps : List String)
    → sum_at p f (others k ps) ≡ (if same p k then pos 0 else sum_at p f ps)
sum_at-others p k f [] = ground arith
sum_at-others p k f (q ∷ ps) = grind (int_laws, sum_at-others p k f ps)

module _ (currency : String) (v : Var → ℤ) where
  abbrev plan : List (String × String) → List SolvedTransfer
  plan group = flow_transfers currency v group

  pub sent-pairs_of :
      (p : String) (parties ps : List String)
      → All (IsNonneg currency v) (pairs_of parties ps)
      → sent p (map as_transfer (plan (pairs_of parties ps)))
        ≡ sum_at p (λ k. evaluate v (outflow k (others k parties))) ps
  unfolding pairs_of
  sent-pairs_of p parties [] h = unfold flow_transfers in refl
  sent-pairs_of p parties (k ∷ ps) h = rw (
    sent-plan-append currency v p k (others k parties) (pairs_of parties ps) h,
    sent-pairs_of p parties ps
        (All-append_right currency v (arcs_from k (others k parties)) (pairs_of parties ps) h),
  )

  received-pairs_of_sums :
      (p : String) (parties ps : List String)
      → All (IsNonneg currency v) (pairs_of parties ps)
      → received p (map as_transfer (plan (pairs_of parties ps)))
        ≡ sum_all (λ k. sum_at p (λ q. v (flow k q)) (others k parties)) ps
  unfolding pairs_of
  received-pairs_of_sums p parties [] h = unfold flow_transfers in refl
  received-pairs_of_sums p parties (k ∷ ps) h = rw (
    received-plan-append currency v p k (others k parties) (pairs_of parties ps) h,
    received-pairs_of_sums p parties ps
        (All-append_right currency v (arcs_from k (others k parties)) (pairs_of parties ps) h),
  )

  -- What a party sends is its outflow, and what it receives its inflow, if it is one of the
  -- parties; otherwise nothing.
  module _ (p : String) (names : List String) where
    abbrev parties : List String
    parties = sort str_leb (distinct names)

    sum_at-parties : (f : String → ℤ) → sum_at p f parties ≡ (if member p names then f p else pos 0)
    sum_at-parties f = sum_at-sort p f (distinct names) ∙ sum_at-distinct p f names

    inflow-others :
        (ps : List String)
        → sum_all (λ k. if same p k then pos 0 else v (flow k p)) ps
          ≡ evaluate v (inflow p (others p ps))
    inflow-others [] = refl
    inflow-others (k ∷ ps) = elim (Bool-cases (same p k)) [
      | inl e ↦ rw e (rw (inflow-others ps) (omega int_laws))
      | inr e ↦ rw e (rw (inflow-others ps, one-*ℤ (v (flow k p))) refl)
    ]

    sum_all-same :
        (f g : String → ℤ) (ks : List String)
        → ((k : String) → f k ≡ g k)
        → sum_all f ks ≡ sum_all g ks
    sum_all-same f g [] h = refl
    sum_all-same f g (k ∷ ks) h = rw (h k, sum_all-same f g ks h) refl

    sum_all-zero :
        (f : String → ℤ) (ks : List String) → ((k : String) → f k ≡ pos 0) → sum_all f ks ≡ pos 0
    sum_all-zero f [] h = refl
    sum_all-zero f (k ∷ ks) h = rw (h k, sum_all-zero f ks h) (omega int_laws)

    pub sent-parties :
        All (IsNonneg currency v) (pairs_of parties parties)
        → sent p (map as_transfer (plan (pairs_of parties parties)))
          ≡ (if member p names then evaluate v (outflow p (others p parties)) else pos 0)
    sent-parties h =
        sent-pairs_of p parties parties h
        ∙ sum_at-parties (λ k. evaluate v (outflow k (others k parties)))

    pub received-parties :
        All (IsNonneg currency v) (pairs_of parties parties)
        → received p (map as_transfer (plan (pairs_of parties parties)))
          ≡ (if member p names then evaluate v (inflow p (others p parties)) else pos 0)
    received-parties h =
        received-pairs_of_sums p parties parties h ∙ by_member (member p names) refl
      where
        shares :
            (k : String)
            → sum_at p (λ q. v (flow k q)) (others k parties)
              ≡ (if same p k then pos 0 else (if member p names then v (flow k p) else pos 0))
        shares k =
            sum_at-others p k (λ q. v (flow k q)) parties
            ∙ ap (λ x. if same p k then pos 0 else x) (sum_at-parties (λ q. v (flow k q)))

        either_way : (b : Bool) → (if b then pos 0 else pos 0) ≡ pos 0
        either_way b = ground arith

        by_member :
            (b : Bool)
            → member p names ≡ b
            → sum_all (λ k. sum_at p (λ q. v (flow k q)) (others k parties)) parties
              ≡ (if b then evaluate v (inflow p (others p parties)) else pos 0)
        by_member true e =
            sum_all-same (λ k. sum_at p (λ q. v (flow k q)) (others k parties))
              (λ k. if same p k then pos 0 else v (flow k p)) parties
              (λ k.
                shares k
                ∙ ap (λ b. if same p k then pos 0 else (if b then v (flow k p) else pos 0)) e)
            ∙ inflow-others parties
        by_member false e =
            sum_all-zero (λ k. sum_at p (λ q. v (flow k q)) (others k parties)) parties
              (λ k.
                shares k
                ∙ ap (λ b. if same p k then pos 0 else (if b then v (flow k p) else pos 0)) e
                ∙ either_way (same p k))
