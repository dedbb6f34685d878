-- ===== src/Client.antt =====
-- agent/real_client.py: the client of the ledger's JSON API. A call of the network is an action of
-- the outside world, and what can come back from it is an `Outcome`.
pub mod Once
pub mod Explained
pub mod Obligations
pub mod Json
pub mod Commands
mod Examples
use tradeguard_canton.Prelude.{
  ℕ, zero, suc, ◌+◌, String, Bool, true, false, ◌&&◌, ◌||◌, ◌==◌, leb, Option, none, some, List, [],
  ◌∷◌, if◌then◌else◌,
}
use tradeguard_canton.Prelude.Actions.{Run}

-- The keys that `_post` puts in an error, beside its body.
pub record Failure : Type 0 where
  pub http_error : ℕ
  pub timeout : Bool
  pub transport_error : Bool
  pub reconciliation_error : Bool
  pub ambiguous : Bool
  pub body : String

pub data Response (V : Type 0) : Type 0 where
  value : V → Response V
  failure : Failure → Response V

-- What one attempt comes to: the parsed answer, an `HTTPError`, a timeout, a `URLError` that is a
-- timeout or another, or an answer that cannot be read or a broken connection.
pub data Outcome (V : Type 0) : Type 0 where
  answered : V → Outcome V
  http_error : (code : ℕ) (body : String) → Outcome V
  timed_out url_timed_out url_error broken : (reason : String) → Outcome V

-- `e.code == 429 or 500 <= e.code <= 599`
unfoldable pub is_retryable : ℕ → Bool
is_retryable code = code == 429 || (leb 500 code && leb code 599)

abbrev pub http_failure : ℕ → String → Bool → Failure
http_failure code body ambiguous = record {
  http_error = code;
  timeout = false;
  transport_error = false;
  reconciliation_error = false;
  ambiguous = ambiguous;
  body = body;
}

abbrev pub timeout_failure : String → Bool → Failure
timeout_failure reason ambiguous = record {
  http_error = 598;
  timeout = true;
  transport_error = false;
  reconciliation_error = false;
  ambiguous = ambiguous;
  body = reason;
}

abbrev pub transport_failure : String → Failure
transport_failure reason = record {
  http_error = 599;
  timeout = false;
  transport_error = true;
  reconciliation_error = false;
  ambiguous = true;
  body = reason;
}

abbrev pub reconciliation_failure : Failure
reconciliation_failure = record {
  http_error = 598;
  timeout = false;
  transport_error = false;
  reconciliation_error = true;
  ambiguous = true;
  body = "could not reconcile ambiguous command";
}

module _ {World V : Type 0} (send : World → Outcome V × World) where
  -- A read is tried once, and raises (`none`) on everything but an `HTTPError`.
  unfoldable pub post_read : Run World (Response V)
  post_read w =
      let o = send w in
      (
        elim o.0 [
          | answered v ↦ some (value v)
          | http_error code body ↦ some (failure (http_failure code body false))
          | _ ↦ none
        ],
        o.1,
      )

  -- `reconcile`, with the `before_retry` that was given: it can answer nothing, or raise.
  unfoldable pub reconcile :
      Option (Run World (Option (Response V))) → World → Option (Response V) × World
  reconcile none w = (none, w)
  reconcile (some before_retry) w =
      let found = before_retry w in
      (
        elim found.0 [ none ↦ some (failure reconciliation_failure) | some answer ↦ answer ],
        found.1,
      )

  module _ (before_retry : Option (Run World (Option (Response V)))) where
    -- `committed = reconcile()`, then the answer that was found, or what follows
    unfoldable pub or_committed : (World → Response V × World) → World → Response V × World
    or_committed next w =
        let found = reconcile before_retry w in
        elim found.0 [ none ↦ next found.1 | some r ↦ (r, found.1) ]

    -- Another attempt on the first one, the error on the second.
    abbrev pub retry_or : ℕ → Failure → (World → Response V × World) → World → Response V × World
    retry_or zero error again = again
    retry_or (suc k) error again = λ w. (failure error, w)

    -- What is made of an outcome in attempt `k`; `again` is the rest of the loop.
    unfoldable pub handle :
        ℕ → Outcome V → (World → Response V × World) → World → Response V × World
    handle k (answered v) again w = (value v, w)
    handle k (http_error code body) again w =
        if is_retryable code
        then or_committed (retry_or k (http_failure code body true) again) w
        else (failure (http_failure code body false), w)
    handle k (timed_out reason) again w =
        or_committed (retry_or k (timeout_failure reason true) again) w
    handle k (url_timed_out reason) again w =
        or_committed (retry_or k (timeout_failure reason false) again) w
    handle k (url_error reason) again w =
        or_committed (λ v. (failure (transport_failure reason), v)) w
    handle k (broken reason) again w = or_committed (λ v. (failure (transport_failure reason), v)) w

    -- The loop over the attempts from `k` on; `n` of them are left.
    unfoldable pub attempts : ℕ → ℕ → World → Response V × World
    attempts zero k w = (failure (timeout_failure "command timed out" true), w)
    attempts (suc n) k w = let o = send w in handle k o.0 (attempts n (suc k)) o.1

    -- A write is tried twice at most, and never raises.
    unfoldable pub post_write : World → Response V × World
    post_write = attempts 2 0
