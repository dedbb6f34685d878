-- ===== src/Client/Explained.antt =====
-- What the last attempt of a write came to, for each of its answers: an error that is not marked
-- ambiguous is one of which the code knows the reason.
use tradeguard_canton.Prelude.{
  ℕ, zero, suc, String, true, false, ◌≡◌, refl, Option, some, inl, inr, Bool-cases, Option-cases,
}
use tradeguard_canton.Prelude.Actions.{Run}
use tradeguard_canton.Client.{
  Failure, Response, value, failure, Outcome, answered, http_error, timed_out, url_timed_out,
  url_error, broken, is_retryable, http_failure, timeout_failure, transport_failure, reconcile,
  or_committed, retry_or, handle, attempts, post_write,
}

-- An outcome after which the ledger may have committed, and which `_post` marks.
abbrev pub IsOpen : {V : Type 0} → Outcome V → Type 0
IsOpen (answered v) = ⊥
IsOpen (http_error code body) = is_retryable code ≡ true
IsOpen (timed_out reason) = Unit
IsOpen (url_timed_out reason) = ⊥
IsOpen (url_error reason) = Unit
IsOpen (broken reason) = Unit

module _ {World V : Type 0} (send : World → Outcome V × World)
    (before_retry : Option (Run World (Option (Response V)))) where
  -- An answer to a write, by its last attempt, which was made in the state `u`.
  pub data Explained (u : World) (r : Response V) : Type 0 where
    was_answered : (v : V) → (send u).0 ≡ answered v → r ≡ value v → Explained u r
    was_rejected :
        (code : ℕ) (body : String)
        → (send u).0 ≡ http_error code body
        → is_retryable code ≡ false
        → r ≡ failure (http_failure code body false)
        → Explained u r
    -- `before_retry` answered after the attempt
    was_found : (reconcile send before_retry (send u).1).0 ≡ some r → Explained u r
    was_open :
        (f : Failure) → IsOpen (send u).0 → f.ambiguous ≡ true → r ≡ failure f → Explained u r
    -- the timeout that `_post` does not mark
    was_url_timeout :
        (reason : String)
        → (send u).0 ≡ url_timed_out reason
        → r ≡ failure (timeout_failure reason false)
        → Explained u r

  abbrev Known : Response V → Type 0
  Known r = (u : World) × Explained u r

  or_committed-Known :
      (next : World → Response V × World) (u : World)
      → ((v : World) → Known (next v).0)
      → Known (or_committed send before_retry next (send u).1).0
  unfolding or_committed
  or_committed-Known next u h = elim (Option-cases (reconcile send before_retry (send u).1).0) [
    | inl e ↦ simp (or_committed, e) (h (reconcile send before_retry (send u).1).1)
    | inr (r, e) ↦ simp (or_committed, e) (u, was_found e)
  ]

  retry_or-Known :
      (k : ℕ) (error : Failure) (again : World → Response V × World) (v : World)
      → (k ≡ 0 → (x : World) → Known (again x).0)
      → Known (failure error)
      → Known (retry_or send before_retry k error again v).0
  retry_or-Known zero error again v h known = h refl v
  retry_or-Known (suc k) error again v h known = known

  handle-Known :
      (k : ℕ) (o : Outcome V) (again : World → Response V × World) (u : World)
      → (send u).0 ≡ o
      → (k ≡ 0 → (v : World) → Known (again v).0)
      → Known (handle send before_retry k o again (send u).1).0
  unfolding handle
  handle-Known k (answered v) again u e h = (u, was_answered v e refl)
  handle-Known k (http_error code body) again u e h = elim (Bool-cases (is_retryable code)) [
    | inl f ↦ simp f (
        or_committed-Known _ u (λ v.
          retry_or-Known k (http_failure code body true) again v h
            (u, was_open (http_failure code body true) (rw e f) refl refl)))
    | inr f ↦ simp f (u, was_rejected code body e f refl)
  ]
  handle-Known k (timed_out reason) again u e h = or_committed-Known _ u (λ v.
      retry_or-Known k (timeout_failure reason true) again v h
        (u, was_open (timeout_failure reason true) (rw e tt) refl refl))
  handle-Known k (url_timed_out reason) again u e h = or_committed-Known _ u (λ v.
      retry_or-Known k (timeout_failure reason false) again v h (u, was_url_timeout reason e refl))
  handle-Known k (url_error reason) again u e h =
      or_committed-Known _ u (λ v. (u, was_open (transport_failure reason) (rw e tt) refl refl))
  handle-Known k (broken reason) again u e h =
      or_committed-Known _ u (λ v. (u, was_open (transport_failure reason) (rw e tt) refl refl))

  pub post_write-Known : (w : World) → Known (post_write send before_retry w).0
  unfolding post_write attempts
  post_write-Known w =
      handle-Known 0 (send w).0 _ w refl
        (λ _ v. handle-Known 1 (send v).0 _ v refl (λ one. absurd (differ one)))
    where
      differ : ◌≡◌ {A = ℕ} 1 0 → ⊥
      differ e = cc
