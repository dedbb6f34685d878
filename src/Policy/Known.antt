-- ===== src/Policy/Known.antt =====
-- A policy constrains only parties of the book, and by no negative number.
use tradeguard_canton.Prelude.{
  ℕ, subst, String, Bool, true, false, not, ◌&&◌, ◌||◌, ◌≡◌, refl, Option, none, some, List, [],
  ◌∷◌, ◌++◌, All, arith, inl, inr, Bool-cases, Option-cases,
}
use tradeguard_canton.Prelude.Int.{ℤ, pos, ◌≤ℤ◌, leb_ℤ}
use tradeguard_canton.Prelude.Dict.{All-insert}
use tradeguard_canton.Solver.Model.{CreditLimit, Weights, same, member}
use tradeguard_canton.Solver.OneCurrency.{pair_dec, is_empty}
use tradeguard_canton.Policy.{
  PolicyContext, RawWeight, RawLimit, RawPolicy, Policy, folded, same_codes, first_party,
  norm_party,
}
use tradeguard_canton.Policy.Parsing.{
  weight_of, limit_of, usable, validate_weights, validate_limits, validate, Clause, Encoded,
  penalty, both, cap_of, avoided, preferred, penalize_others, encode_clause, encode_clauses,
  parse_rules, has_nothing, judged, chosen_policy, parse_policy,
}

module _ (ctx : PolicyContext) where
  abbrev pub IsKnown : String → Type 0
  IsKnown p = member p ctx.parties ≡ true

  abbrev pub KnownWeight : (String × String) × ℤ → Type 0
  KnownWeight e = IsKnown e.0.0 × IsKnown e.0.1 × (pos 0 ≤ℤ e.1)

  abbrev pub KnownLimit : CreditLimit → Type 0
  KnownLimit cl = IsKnown cl.frm × IsKnown cl.to × (pos 0 ≤ℤ cl.limit)

  -- Every constraint is between parties of the book, and is not negative.
  pub record IsSound (p : Policy) : Type 0 where
    pub weights : All KnownWeight p.objective_weights
    pub limits : All KnownLimit p.credit_limits

  member_first : (p : String) (ps : List String) → member p (p ∷ ps) ≡ true
  member_first p ps = ground arith

  member_later : (q p : String) (ps : List String) → member p ps ≡ true → member p (q ∷ ps) ≡ true
  member_later q p ps h = ground arith

  some_inj : {A : Type 0} {x y : A} → some x ≡ some y → x ≡ y
  some_inj e = cc

  none-ne_some : {A : Type 0} {x : A} → none ≡ some x → ⊥
  none-ne_some e = cc

  first_party-member :
      (test : String → Bool) (ps : List String) (p : String)
      → first_party test ps ≡ some p
      → member p ps ≡ true
  unfolding first_party
  first_party-member test [] p e = absurd (none-ne_some e)
  first_party-member test (q ∷ qs) p e = elim (Bool-cases (test q)) [
    | inl t ↦ subst (λ x. member x (q ∷ qs) ≡ true) (some_inj (rw t at e)) (member_first q qs)
    | inr t ↦ member_later q p qs (first_party-member test qs p (rw t at e))
  ]

  norm_party-IsKnown : (name p : String) → norm_party ctx name ≡ some p → IsKnown p
  unfolding norm_party
  norm_party-IsKnown name p e = elim (Bool-cases (same name "")) [
    | inl t ↦ absurd (none-ne_some (simp (norm_party, t) at e))
    | inr t ↦
        let exact = first_party (λ q. same_codes (folded q) (folded name)) ctx.parties in
        elim (Option-cases exact) [
          | inr (q, f) ↦
              rw (← some_inj (simp (norm_party, t, f) at e)) (first_party-member _ ctx.parties q f)
          | inl f ↦ first_party-member _ ctx.parties p (simp (norm_party, t, f) at e)
        ]
  ]

  usable_sound :
      (a b : Option String) (x : ℤ) (arc : String × String)
      → ((p : String) → a ≡ some p → IsKnown p)
      → ((p : String) → b ≡ some p → IsKnown p)
      → usable a b x ≡ some arc
      → KnownWeight (arc, x)
  usable_sound none b x arc h k e = absurd (none-ne_some e)
  usable_sound (some p) none x arc h k e = absurd (none-ne_some e)
  usable_sound (some p) (some q) x arc h k e =
      elim (Bool-cases (not (same p q) && leb_ℤ (pos 0) x)) [
        | inr t ↦ absurd (none-ne_some (rw t at e))
        | inl t ↦ rw (← some_inj (rw t at e)) (h p refl, k q refl, ground arith)
      ]

  both-IsKnown :
      (a b : Option String) (arc : String × String)
      → ((p : String) → a ≡ some p → IsKnown p)
      → ((p : String) → b ≡ some p → IsKnown p)
      → both a b ≡ some arc
      → IsKnown arc.0 × IsKnown arc.1
  both-IsKnown none b arc h k e = absurd (none-ne_some e)
  both-IsKnown (some p) none arc h k e = absurd (none-ne_some e)
  both-IsKnown (some p) (some q) arc h k e = rw (← some_inj e) (h p refl, k q refl)

  validate_weights_sound :
      (ows : List RawWeight) (weights : Weights)
      → All KnownWeight weights
      → All KnownWeight (validate_weights ctx ows weights)
  unfolding validate_weights
  validate_weights_sound [] weights h = h
  validate_weights_sound (ow ∷ ows) weights h =
      let answer =
        usable (norm_party ctx ow.payer) (norm_party ctx ow.receiver) (weight_of ow.weight) in
      elim (Option-cases answer) [
        | inl e ↦ simp (validate_weights, e) (validate_weights_sound ows weights h)
        | inr (arc, e) ↦
            simp (validate_weights, e)
              (validate_weights_sound ows _ (
                All-insert pair_dec KnownWeight arc (weight_of ow.weight) weights
                  (usable_sound _ _ _ arc (norm_party-IsKnown ow.payer)
                    (norm_party-IsKnown ow.receiver) e)
                  h))
      ]

  validate_limits_sound : (cls : List RawLimit) → All KnownLimit (validate_limits ctx cls)
  unfolding validate_limits
  validate_limits_sound [] = tt
  validate_limits_sound (cl ∷ cls) =
      let answer = usable (norm_party ctx cl.frm) (norm_party ctx cl.to) (limit_of cl.limit) in
      elim (Option-cases answer) [
        | inl e ↦ simp (validate_limits, e) (validate_limits_sound cls)
        | inr (arc, e) ↦
            simp (validate_limits, e)
              (
                usable_sound _ _ _ arc (norm_party-IsKnown cl.frm) (norm_party-IsKnown cl.to) e,
                validate_limits_sound cls,
              )
      ]

  cap_of_sound :
      (cap : Option (String × String × Option ℕ × Option String)) (cl : CreditLimit)
      → cap_of ctx cap ≡ some cl
      → KnownLimit cl
  unfolding cap_of
  cap_of_sound none cl e = absurd (none-ne_some e)
  cap_of_sound (some (a, b, none, ccy)) cl e = absurd (none-ne_some e)
  cap_of_sound (some (a, b, some amt, ccy)) cl e =
      elim (Option-cases (both (norm_party ctx a) (norm_party ctx b))) [
        | inl f ↦ absurd (none-ne_some (simp (cap_of, f) at e))
        | inr (arc, f) ↦
            let known = both-IsKnown _ _ arc (norm_party-IsKnown a) (norm_party-IsKnown b) f in
            subst KnownLimit (some_inj (simp (cap_of, f) at e)) (known.0, known.1, omega arith)
      ]

  penalty-pos : (strong : Bool) → pos 0 ≤ℤ penalty strong
  penalty-pos true = omega arith
  penalty-pos false = omega arith

  avoided_sound :
      (avoid : Option (Bool × String × String)) (w : (String × String) × ℤ)
      → avoided ctx avoid ≡ some w
      → KnownWeight w
  unfolding avoided
  avoided_sound none w e = absurd (none-ne_some e)
  avoided_sound (some (strong, a, b)) w e =
      elim (Option-cases (both (norm_party ctx a) (norm_party ctx b))) [
        | inl f ↦ absurd (none-ne_some (simp (avoided, f) at e))
        | inr (arc, f) ↦
            let known = both-IsKnown _ _ arc (norm_party-IsKnown a) (norm_party-IsKnown b) f in
            subst KnownWeight (some_inj (simp (avoided, f) at e))
              (known.0, known.1, penalty-pos strong)
      ]

  preferred_sound :
      (prefer : Option (String × String)) (arc : String × String)
      → preferred ctx prefer ≡ some arc
      → IsKnown arc.0 × IsKnown arc.1
  unfolding preferred
  preferred_sound none arc e = absurd (none-ne_some e)
  preferred_sound (some (a, b)) arc e =
      both-IsKnown _ _ arc (norm_party-IsKnown a) (norm_party-IsKnown b) e

  penalize_others_sound :
      (payer favored : String) (others : List String) (weights : Weights)
      → IsKnown payer
      → All IsKnown others
      → All KnownWeight weights
      → All KnownWeight (penalize_others ctx payer favored others weights)
  unfolding penalize_others
  penalize_others_sound payer favored [] weights k o h = h
  penalize_others_sound payer favored (other ∷ others) weights k o h =
      elim (Bool-cases (same other payer || same other favored)) [
        | inl t ↦ rw t (penalize_others_sound payer favored others weights k o.1 h)
        | inr t ↦ rw t (
            penalize_others_sound payer favored others _ k o.1 (
              All-insert pair_dec KnownWeight (payer, other) (pos 500) weights (k, o.0, omega arith)
                h))
      ]

  all_known_from :
      (ps qs : List String)
      → ((p : String) → member p ps ≡ true → member p qs ≡ true)
      → All (λ p. member p qs ≡ true) ps
  all_known_from [] qs h = tt
  all_known_from (p ∷ ps) qs h =
      (h p (member_first p ps), all_known_from ps qs (λ q m. h q (member_later p q ps m)))

  All-snoc :
      {A : Type 0} (P : A → Type 0) (xs : List A) (x : A) → All P xs → P x → All P (xs ++ x ∷ [])
  All-snoc P [] x h p = (p, tt)
  All-snoc P (y ∷ ys) x h p = (h.0, All-snoc P ys x h.1 p)

  abbrev pub SoundSoFar : Encoded → Type 0
  SoundSoFar e = All KnownWeight e.weights × All KnownLimit e.limits

  encode_clause_sound :
      (c : Clause) (e : Encoded) → SoundSoFar e → SoundSoFar (encode_clause ctx c e)
  unfolding encode_clause
  encode_clause_sound c e h = elim (Option-cases (cap_of ctx c.cap)) [
    | inr (cl, f) ↦
        simp (encode_clause, f) (h.0, All-snoc KnownLimit e.limits cl h.1 (cap_of_sound c.cap cl f))
    | inl f ↦ elim (Option-cases (avoided ctx c.avoid)) [
      | inr (w, g) ↦
          simp (encode_clause, f, g)
            (All-insert pair_dec KnownWeight w.0 w.1 e.weights (avoided_sound c.avoid w g) h.0, h.1)
      | inl g ↦ elim (Option-cases (preferred ctx c.prefer)) [
        | inl k ↦ simp (encode_clause, f, g, k) h
        | inr (arc, k) ↦
            let known = preferred_sound c.prefer arc k in
            simp (encode_clause, f, g, k)
              (
                penalize_others_sound arc.0 arc.1 ctx.parties e.weights known.0
                    (all_known_from ctx.parties ctx.parties (λ q m. m)) h.0,
                h.1,
              )
      ]
    ]
  ]

  encode_clauses_sound :
      (cs : List Clause) (e : Encoded) → SoundSoFar e → SoundSoFar (encode_clauses ctx cs e)
  unfolding encode_clauses
  encode_clauses_sound [] e h = h
  encode_clauses_sound (c ∷ cs) e h =
      encode_clauses_sound cs (encode_clause ctx c e) (encode_clause_sound c e h)

  parse_rules-IsSound : (clauses : List Clause) → IsSound (parse_rules ctx clauses)
  unfolding parse_rules
  parse_rules-IsSound clauses =
      let sound = encode_clauses_sound clauses _ (tt, tt) in
      record { weights = sound.0; limits = sound.1 }

  validate-IsSound : (raw : RawPolicy) → IsSound (validate ctx raw)
  unfolding validate
  validate-IsSound raw = record {
    weights = validate_weights_sound raw.objective_weights [] tt;
    limits = validate_limits_sound raw.credit_limits;
  }

  chosen_policy-IsSound :
      (answer : Option RawPolicy) (clauses : List Clause)
      → IsSound (chosen_policy ctx answer clauses)
  unfolding chosen_policy
  chosen_policy-IsSound none clauses = parse_rules-IsSound clauses
  chosen_policy-IsSound (some raw) clauses =
      elim (Bool-cases (has_nothing ctx (validate ctx raw))) [
        | inr t ↦ simp t (validate-IsSound raw)
        | inl t ↦ elim (Bool-cases (is_empty (parse_rules ctx clauses).errors)) [
          | inl u ↦ simp (t, u) (parse_rules-IsSound clauses)
          | inr u ↦ simp (t, u) (validate-IsSound raw)
        ]
      ]

  judged-IsSound : (p : Policy) → IsSound p → IsSound (judged ctx p)
  judged-IsSound p h = elim (Bool-cases (has_nothing ctx p)) [
    | inl t ↦ rw t (record { weights = h.weights; limits = h.limits })
    | inr t ↦ rw t h
  ]

-- Whatever the language model answers and the rules find, a policy constrains only parties of the
-- book, and by no negative number.
pub parse_policy-IsSound :
    (ctx : PolicyContext) (is_blank : Bool) (answer : Option RawPolicy) (clauses : List Clause)
    → IsSound ctx (parse_policy ctx is_blank answer clauses)
unfolding parse_policy
parse_policy-IsSound ctx true answer clauses = record { weights = tt; limits = tt }
parse_policy-IsSound ctx false answer clauses =
    judged-IsSound ctx (chosen_policy ctx answer clauses) (chosen_policy-IsSound ctx answer clauses)
