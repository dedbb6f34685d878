-- ===== src/Client/Examples.antt =====
-- A network that loses the answer of a command which the ledger committed.
use tradeguard_canton.Prelude.{
  ℕ, suc, ◌==◌, String, true, false, ◌≡◌, refl, Option, none, some, [], ◌∷◌, arith, if◌then◌else◌,
}
use tradeguard_canton.Prelude.Int.{negsuc}
use tradeguard_canton.Client.{
  Response, value, failure, Outcome, answered, http_error, timed_out, url_timed_out,
  timeout_failure, http_failure, is_retryable, reconcile, or_committed, handle, attempts,
  post_write,
}
use tradeguard_canton.Client.Explained.{Explained}
use tradeguard_canton.Client.Commands.{
  Obligation, Intended, Submission, obligation_matches, existing_reference, create,
}
use tradeguard_canton.Client.Obligations.{Rows, Shows}
use tradeguard_canton.Prelude.Actions.{Run}
use tradeguard_canton.Prelude.Int.{pos}
use tradeguard_canton.Prelude.Keys.{str_dec}
use tradeguard_canton.Client.Json.{
  Json, integer, text, boolean, object, done, field, stringify_ints, digits, str_int,
}
use tradeguard_canton.Client.Json.Encodes.{Encodes, stringify_ints-Encodes}

-- The state is the number of commits. Each attempt commits, and its answer is lost.
abbrev losing : ℕ → Outcome String × ℕ
losing w = (timed_out "read timed out", suc w)

abbrev look_up : ℕ → Option (Option (Response String)) × ℕ
look_up w = (some (if w == 0 then none else some (value "CID")), w)

post_write_finds_it : post_write losing (some look_up) 0 ≡ (value "CID", 1)
unfolding post_write attempts handle or_committed reconcile
post_write_finds_it = refl

-- Without a look-up the command is sent twice, and the error is ambiguous.
post_write_is_open : post_write losing none 0 ≡ (failure (timeout_failure "read timed out" true), 2)
unfolding post_write attempts handle or_committed reconcile
post_write_is_open = refl

-- A timeout that comes as a `URLError` ends in an error that is not marked ambiguous.
post_write_is_not_open :
    post_write {V = String} (λ (w : ℕ). (url_timed_out "timed out", suc w)) none 0
    ≡ (failure (timeout_failure "timed out" false), 2)
unfolding post_write attempts handle or_committed reconcile
post_write_is_not_open = refl

abbrev payload : Json
payload = object (field (97 ∷ []) (integer (negsuc 119)) (field (98 ∷ []) (boolean true) done))

stringify_ints_runs :
    stringify_ints payload
    ≡ object (field (97 ∷ []) (text (45 ∷ 49 ∷ 50 ∷ 48 ∷ [])) (field (98 ∷ []) (boolean true) done))
unfolding stringify_ints str_int digits
stringify_ints_runs = refl

stringify_ints-Encodes_example : Encodes payload (stringify_ints payload)
stringify_ints-Encodes_example = stringify_ints-Encodes payload

-- The obligation that is created, by a network that loses each answer.
abbrev owed : Obligation
owed = record {
  payer = some "A";
  payee = some "B";
  operator = some "Operator";
  reference = some "OB-1";
  maturity = none;
  amount = some (pos 100);
  instrument = some "USD";
}

abbrev meant : Intended
meant = record {
  payer = some (some "A");
  payee = some (some "B");
  operator = some (some "Operator");
  reference = some (some "OB-1");
  maturity = none;
  amount = some (some (pos 100));
  instrument = some (some "USD");
}

abbrev network : Submission → Rows → Outcome String × Rows
network submission rows = (timed_out "read timed out", ("CID", owed) ∷ rows)

abbrev shown : Run Rows Rows
shown rows = (some rows, rows)

network-Shows : (submission : Submission) → Shows (network submission) shown "OB-1" meant
unfolding obligation_matches str_dec
network-Shows submission = record {
  rows = λ w. w;
  queried = λ w rs e. some_inj e;
  unchanged = λ w. refl;
  mine = λ w h. (refl, h);
  at_most = λ w. omega arith;
  answers = λ w v e. absurd (no_answer e);
  rejects = λ w code body e _. absurd (no_rejection e);
}
  where
    some_inj : {xs ys : Rows} → some xs ≡ some ys → ys ≡ xs
    some_inj e = cc

    no_answer :
        {v : String} → ◌≡◌ {A = Outcome String} (timed_out "read timed out") (answered v) → ⊥
    no_answer e = cc

    no_rejection :
        {code : ℕ} {body : String}
        → ◌≡◌ {A = Outcome String} (timed_out "read timed out") (http_error code body)
        → ⊥
    no_rejection e = cc

abbrev template : String
template = "TradeGuard.Netting:Obligation"

abbrev submitted : Response String × Rows
submitted =
    create network "Operator" template payload [] (existing_reference shown template meant) []

-- The first attempt commits and its answer is lost; the second is rejected, as the contract is gone.
-- Without a look-up the error is not marked, though the command was committed once.
abbrev consuming : ℕ → Outcome String × ℕ
consuming w = (if w == 0 then timed_out "read timed out" else http_error 404 "not found", 1)

post_write_rejects_what_is_committed :
    post_write consuming none 0 ≡ (failure (http_failure 404 "not found" false), 1)
unfolding post_write attempts handle or_committed reconcile is_retryable
post_write_rejects_what_is_committed = refl
