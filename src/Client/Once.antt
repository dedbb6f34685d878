-- ===== src/Client/Once.antt =====
-- A command is committed once at most, though `_post` sends it again when it does not know.
use tradeguard_canton.Prelude.{
  ℕ, zero, suc, ◌≤◌, String, true, false, ◌≡◌, refl, ap, ◌∙◌, Option, none, some, arith, inl, inr,
  Bool-cases, Option-cases,
}
use tradeguard_canton.Prelude.Actions.{Run}
use tradeguard_canton.Client.{
  Failure, Response, value, failure, Outcome, answered, http_error, timed_out, url_timed_out,
  url_error, broken, is_retryable, http_failure, timeout_failure, reconciliation_failure, reconcile,
  or_committed, retry_or, handle, attempts, post_write,
}

-- The ledger, as far as one command goes: `commits` counts how often it was committed.
pub record Lawful {World V : Type 0} (send : World → Outcome V × World)
    (before_retry : Run World (Option (Response V))) : Type 1 where
  pub commits : World → ℕ
  -- what the attempts keep true of the ledger
  pub IsKept : World → Type 0
  pub kept_by_send : (w : World) → IsKept w → IsKept (send w).1
  pub kept_by_look_up : (w : World) → IsKept w → IsKept (before_retry w).1
  -- an attempt commits the command once at most, exactly once when it is answered, and not at all
  -- when it is rejected
  pub at_most : (w : World) → commits (send w).1 ≤ suc (commits w)
  pub answers : (w : World) (v : V) → (send w).0 ≡ answered v → commits (send w).1 ≡ suc (commits w)
  pub rejects :
      (w : World) (code : ℕ) (body : String)
      → (send w).0 ≡ http_error code body
      → is_retryable code ≡ false
      → commits (send w).1 ≡ commits w
  -- `before_retry` commits nothing; it finds nothing, or finds a conflict, only when the command is
  -- not committed, and answers a value only when it is
  pub reads : (w : World) → commits (before_retry w).1 ≡ commits w
  pub nothing : (w : World) → IsKept w → (before_retry w).0 ≡ some none → commits w ≡ 0
  pub conflict :
      (w : World) (f : Failure)
      → IsKept w
      → (before_retry w).0 ≡ some (some (failure f))
      → f.ambiguous ≡ false
      → commits w ≡ 0
  pub found :
      (w : World) (v : V) → IsKept w → (before_retry w).0 ≡ some (some (value v)) → 1 ≤ commits w

-- What an answer says of the number of commits.
abbrev pub Agrees : {V : Type 0} → ℕ → Response V → Type 0
Agrees n (value v) = n ≡ 1
Agrees n (failure f) = (n ≤ 1) × (f.ambiguous ≡ false → n ≡ 0)

module _ {World V : Type 0} (send : World → Outcome V × World)
    (before_retry : Run World (Option (Response V))) (lawful : Lawful send before_retry) where
  abbrev Fine : Response V × World → Type 0
  Fine r = Agrees (lawful.commits r.1) r.0

  some_inj : {x y : Response V} → some x ≡ some y → x ≡ y
  some_inj e = cc

  reconcile_answer :
      (w : World) (o : Option (Option (Response V))) (r : Response V)
      → lawful.IsKept w
      → (before_retry w).0 ≡ o
      → lawful.commits w ≤ 1
      → elim o [ none ↦ some (failure reconciliation_failure) | some answer ↦ answer ] ≡ some r
      → Agrees (lawful.commits w) r
  reconcile_answer w none r kept e h f = rw (← some_inj f) (h, λ k. absurd (sure k))
    where
      sure : true ≡ false → ⊥
      sure k = cc
  reconcile_answer w (some none) r kept e h f = absurd (empty f)
    where
      empty : none ≡ some r → ⊥
      empty f = cc
  reconcile_answer w (some (some (value v))) r kept e h f =
      rw (← some_inj f) (omega (arith, h, lawful.found w v kept e))
  reconcile_answer w (some (some (failure x))) r kept e h f =
      rw (← some_inj f) (h, λ k. lawful.conflict w x kept e k)

  reconcile_nothing :
      (w : World) (o : Option (Option (Response V)))
      → lawful.IsKept w
      → (before_retry w).0 ≡ o
      → elim o [ none ↦ some (failure reconciliation_failure) | some answer ↦ answer ] ≡ none
      → lawful.commits w ≡ 0
  reconcile_nothing w none kept e f = absurd (found f)
    where
      found : ◌≡◌ {A = Option (Response V)} (some (failure reconciliation_failure)) none → ⊥
      found f = cc
  reconcile_nothing w (some none) kept e f = lawful.nothing w kept e
  reconcile_nothing w (some (some x)) kept e f = absurd (found f)
    where
      found : some x ≡ none → ⊥
      found f = cc

  or_committed-Fine :
      (next : World → Response V × World) (w : World)
      → lawful.IsKept w
      → lawful.commits w ≤ 1
      → ((v : World) → lawful.IsKept v → lawful.commits v ≡ 0 → Fine (next v))
      → Fine (or_committed send (some before_retry) next w)
  unfolding or_committed reconcile
  or_committed-Fine next w kept h k = elim (Option-cases (reconcile send (some before_retry) w).0) [
    | inl e ↦
        simp (or_committed, reconcile, e)
          (k _ (lawful.kept_by_look_up w kept)
            (lawful.reads w ∙ reconcile_nothing w (before_retry w).0 kept refl e))
    | inr (r, e) ↦
        simp (or_committed, reconcile, e, lawful.reads w)
          (reconcile_answer w (before_retry w).0 r kept refl h e)
  ]

  retry_or-Fine :
      (k : ℕ) (error : Failure) (again : World → Response V × World) (v : World)
      → ((u : World) → lawful.IsKept u → lawful.commits u ≡ 0 → Fine (again u))
      → lawful.IsKept v
      → lawful.commits v ≡ 0
      → Fine (retry_or send (some before_retry) k error again v)
  retry_or-Fine zero error again v h kept e = h v kept e
  retry_or-Fine (suc k) error again v h kept e = (omega arith, λ _. e)

  handle-Fine :
      (k : ℕ) (o : Outcome V) (again : World → Response V × World) (u : World)
      → (send u).0 ≡ o
      → lawful.IsKept u
      → lawful.commits u ≡ 0
      → ((v : World) → lawful.IsKept v → lawful.commits v ≡ 0 → Fine (again v))
      → Fine (handle send (some before_retry) k o again (send u).1)
  unfolding handle
  handle-Fine k (answered v) again u e kept z h = lawful.answers u v e ∙ ap suc z
  handle-Fine k (http_error code body) again u e kept z h = elim (Bool-cases (is_retryable code)) [
    | inl f ↦ simp f (
        or_committed-Fine _ _ (lawful.kept_by_send u kept) (omega (arith, lawful.at_most u))
          (λ v. retry_or-Fine k (http_failure code body true) again v h))
    | inr f ↦
        let none_made = lawful.rejects u code body e f ∙ z in
        simp f (omega (arith, none_made), λ _. none_made)
  ]
  handle-Fine k (timed_out reason) again u e kept z h =
      or_committed-Fine _ _ (lawful.kept_by_send u kept) (omega (arith, lawful.at_most u))
        (λ v. retry_or-Fine k (timeout_failure reason true) again v h)
  handle-Fine k (url_timed_out reason) again u e kept z h =
      or_committed-Fine _ _ (lawful.kept_by_send u kept) (omega (arith, lawful.at_most u))
        (λ v. retry_or-Fine k (timeout_failure reason false) again v h)
  handle-Fine k (url_error reason) again u e kept z h =
      or_committed-Fine _ _ (lawful.kept_by_send u kept) (omega (arith, lawful.at_most u))
        (λ v _ none_made. (omega (arith, none_made), λ _. none_made))
  handle-Fine k (broken reason) again u e kept z h =
      or_committed-Fine _ _ (lawful.kept_by_send u kept) (omega (arith, lawful.at_most u))
        (λ v _ none_made. (omega (arith, none_made), λ _. none_made))

  attempts-Fine :
      (n k : ℕ) (w : World)
      → lawful.IsKept w
      → lawful.commits w ≡ 0
      → Fine (attempts send (some before_retry) n k w)
  unfolding attempts
  attempts-Fine zero k w kept z = (omega (arith, z), λ _. z)
  attempts-Fine (suc n) k w kept z =
      handle-Fine k (send w).0 _ w refl kept z (λ v. attempts-Fine n (suc k) v)

-- A write that starts uncommitted ends with an answer and never raises, and the answer agrees with
-- the ledger, as long as the look-up finds what is committed.
pub post_write-Agrees :
    {World V : Type 0} (send : World → Outcome V × World)
    (before_retry : Run World (Option (Response V))) (lawful : Lawful send before_retry) (w : World)
    → lawful.IsKept w
    → lawful.commits w ≡ 0
    → Agrees
        (lawful.commits (post_write send (some before_retry) w).1)
        (post_write send (some before_retry) w).0
unfolding post_write
post_write-Agrees send before_retry lawful w kept z =
    attempts-Fine send before_retry lawful 2 0 w kept z
