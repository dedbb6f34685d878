-- ===== src/Solver/Lp/Checker.antt =====
-- A solver that meets the promise: it tries one assignment, and reports it as optimal if it
-- satisfies the problem.
use tradeguard_canton.Prelude.{
  ℕ, String, Bool, true, ◌&&◌, ◌||◌, ◌≡◌, ◌⊎◌, some, List, [], ◌∷◌, All, all, arith,
}
use tradeguard_canton.Prelude.Int.{ℤ, pos, ◌≤ℤ◌, leb_ℤ, eqb_ℤ}
use tradeguard_canton.Prelude.Dict.{Dict, lookup}
use tradeguard_canton.Solver.Lp.{
  Var, flow, pick, Name, name_dec, Constraint, Relation, eq, le, ge, Problem, Satisfies, Holds,
  Solver, evaluate, Related,
}

abbrev related_by : Relation → ℤ → ℤ → Bool
related_by eq a b = eqb_ℤ a b
related_by le a b = leb_ℤ a b
related_by ge a b = leb_ℤ b a

related_by-Related : (r : Relation) (a b : ℤ) → related_by r a b ≡ true → Related r a b
related_by-Related eq a b h = ground arith
related_by-Related le a b h = ground arith
related_by-Related ge a b h = ground arith

module _ (v : Var → ℤ) where
  abbrev row_holds : Name × Constraint → Bool
  row_holds (n, c) = related_by c.relation (evaluate v c.terms) c.bound

  abbrev flow_ok : String × String → Bool
  flow_ok a = leb_ℤ (pos 0) (v (flow a.0 a.1))

  unfoldable pub satisfied : Problem → Bool
  satisfied p =
      all flow_ok p.flows
      && (all (λ k. eqb_ℤ (v (pick k)) (pos 0) || eqb_ℤ (v (pick k)) (pos 1)) p.picks
          && all row_holds p.constraints)

  flows-ok :
      (fs : List (String × String))
      → all flow_ok fs ≡ true
      → All (λ (a : String × String). pos 0 ≤ℤ v (flow a.0 a.1)) fs
  flows-ok [] h = tt
  flows-ok (a ∷ fs) h = ground (arith, flows-ok fs)

  and_split : (a b : Bool) → (a && b) ≡ true → (a ≡ true) × (b ≡ true)
  and_split a b h = ground arith

  rows-hold :
      (n : Name) (c : Constraint) (d : Dict Name Constraint)
      → all row_holds d ≡ true
      → lookup name_dec n d ≡ some c
      → Holds v c
  rows-hold n c [] h e = cc
  rows-hold n c ((m, b) ∷ d) h e =
      let both = and_split (row_holds (m, b)) (all row_holds d) h in
      elim (name_dec n m) [
        | yes here ↦ found (ground arith) both.0
        | no other ↦ rows-hold n c d both.1 (ground arith)
      ]
    where
      found : b ≡ c → row_holds (m, b) ≡ true → Holds v c
      found same ok = rw same at (related_by-Related b.relation (evaluate v b.terms) b.bound ok)

  picks-ok :
      (ks : List ℕ)
      → all (λ k. eqb_ℤ (v (pick k)) (pos 0) || eqb_ℤ (v (pick k)) (pos 1)) ks ≡ true
      → All (λ k. (v (pick k) ≡ pos 0) ⊎ (v (pick k) ≡ pos 1)) ks
  picks-ok [] h = tt
  picks-ok (k ∷ ks) h = (pick-ok (v (pick k)) (and_split _ _ h).0, picks-ok ks (and_split _ _ h).1)
    where
      pick-ok : (x : ℤ) → (eqb_ℤ x (pos 0) || eqb_ℤ x (pos 1)) ≡ true → (x ≡ pos 0) ⊎ (x ≡ pos 1)
      pick-ok x e = ground arith

  pub satisfied-Satisfies : (p : Problem) → satisfied p ≡ true → Satisfies v p
  unfolding satisfied
  satisfied-Satisfies p h =
      let outer = and_split _ _ h in
      let inner = and_split _ _ outer.1 in
      record {
        flows_nonneg = flows-ok p.flows outer.0;
        picks_binary = picks-ok p.picks inner.0;
        kept = λ n c e. rows-hold n c p.constraints inner.1 e;
      }

  -- Reports this assignment, as optimal if it satisfies the problem.
  abbrev pub checker : Solver
  checker = record {
    run = λ p. record { optimal = satisfied p; value = λ x. some (v x) };
    sound = satisfied-Satisfies;
  }
