-- ===== src/Client/Obligations.antt =====
-- The creation of an obligation, whose reference is looked up before it is sent again.
use tradeguard_canton.Prelude.{
  ℕ, suc, ◌≤◌, String, Bool, true, false, not, ◌||◌, ◌≡◌, refl, sym, ap, ◌∙◌, Option, none, some,
  List, [], ◌∷◌, length, keep, All, arith, inl, inr, Bool-cases, Option-cases,
}
use tradeguard_canton.Prelude.Actions.{Run, bind, return, bind-some}
use tradeguard_canton.Client.{
  Failure, Response, value, failure, Outcome, answered, http_error, is_retryable,
}
use tradeguard_canton.Client.Json.{Json, stringify_ints}
use tradeguard_canton.Client.Once.{Lawful}
use tradeguard_canton.Client.Explained.{Explained}
use tradeguard_canton.Client.Commands.{
  Obligation, Intended, Submission, create_command, same_option, obligation_matches, find_reference,
  tid, actors_of,
}

-- What `create` submits.
abbrev pub creation : String → String → Json → List String → Submission
creation party module_entity payload act_as = record {
  command = create_command (tid module_entity) (stringify_ints payload);
  act_as = actors_of party act_as;
}

abbrev pub Rows : Type 0
Rows = List (String × Obligation)

abbrev pub has_reference : String → String × Obligation → Bool
has_reference reference row = same_option row.1.reference (some reference)

-- How many of the rows have the reference.
abbrev pub count : String → Rows → ℕ
count reference rows = length (keep (has_reference reference) rows)

-- A row with the reference is the obligation that is meant.
abbrev pub IsMine : String → Intended → String × Obligation → Type 0
IsMine reference intended row =
    (not (has_reference reference row) || obligation_matches row.1 intended) ≡ true

-- The rows decide what the look-up finds.
find_reference-none :
    (reference : String) (intended : Intended) (rows : Rows)
    → find_reference reference intended rows ≡ none
    → count reference rows ≡ 0
unfolding find_reference
find_reference-none reference intended [] e = refl
find_reference-none reference intended ((cid, actual) ∷ rows) e =
    elim (Bool-cases (has_reference reference (cid, actual))) [
      | inl f ↦ absurd (differ (simp (find_reference, f) at e))
      | inr f ↦ simp f (find_reference-none reference intended rows (simp (find_reference, f) at e))
    ]
  where
    differ : {r : Response String} → some r ≡ none → ⊥
    differ e = cc

find_reference-some :
    (reference : String) (intended : Intended) (rows : Rows) (r : Response String)
    → All (IsMine reference intended) rows
    → find_reference reference intended rows ≡ some r
    → (1 ≤ count reference rows) × (cid : String) × (r ≡ value cid)
unfolding find_reference
find_reference-some reference intended [] r mine e = cc
find_reference-some reference intended ((cid, actual) ∷ rows) r mine e =
    elim (Bool-cases (has_reference reference (cid, actual))) [
      | inl f ↦
          let matches : obligation_matches actual intended ≡ true = simp f at mine.0 in
          simp f (omega arith, cid, sym (some_inj (simp (find_reference, f, matches) at e)))
      | inr f ↦
          simp f
            (find_reference-some reference intended rows r mine.1 (simp (find_reference, f) at e))
    ]
  where
    some_inj : {x y : Response String} → some x ≡ some y → x ≡ y
    some_inj e = cc

-- The ledger, as far as the obligations with one reference go. The strict query shows its rows, and
-- changes nothing. An attempt adds one row with the reference at most, and only the obligation that
-- is meant; exactly one when it is answered, and none when it is rejected.
pub record Shows {World : Type 0} (send : World → Outcome String × World)
    (query_obligations : Run World Rows) (reference : String) (intended : Intended) : Type 0 where
  pub rows : World → Rows
  pub queried : (w : World) (rs : Rows) → (query_obligations w).0 ≡ some rs → rs ≡ rows w
  pub unchanged : (w : World) → rows (query_obligations w).1 ≡ rows w
  pub mine :
      (w : World)
      → All (IsMine reference intended) (rows w)
      → All (IsMine reference intended) (rows (send w).1)
  pub at_most : (w : World) → count reference (rows (send w).1) ≤ suc (count reference (rows w))
  pub answers :
      (w : World) (v : String)
      → (send w).0 ≡ answered v
      → count reference (rows (send w).1) ≡ suc (count reference (rows w))
  pub rejects :
      (w : World) (code : ℕ) (body : String)
      → (send w).0 ≡ http_error code body
      → is_retryable code ≡ false
      → count reference (rows (send w).1) ≡ count reference (rows w)

module _ {World : Type 0} (send : World → Outcome String × World)
    (query_obligations : Run World Rows) (reference : String) (intended : Intended)
    (ledger : Shows send query_obligations reference intended) where
  abbrev look_up : Run World (Option (Response String))
  look_up = bind query_obligations λ rows. return (find_reference reference intended rows)

  -- What the look-up answers is what the rows decide.
  look_up-rows :
      (w : World) (answer : Option (Response String))
      → (look_up w).0 ≡ some answer
      → find_reference reference intended (ledger.rows w) ≡ answer
  look_up-rows w answer e =
      let (rows, f, g, _) = bind-some _ _ w answer e in
      ap (find_reference reference intended) (sym (ledger.queried w rows f)) ∙ some_inj g
    where
      some_inj : {x y : Option (Response String)} → some x ≡ some y → x ≡ y
      some_inj e = cc

  look_up-same : (w : World) → ledger.rows (look_up w).1 ≡ ledger.rows w
  unfolding bind
  look_up-same w = elim (Option-cases (query_obligations w).0) [
    | inl e ↦ simp (bind, e) (ledger.unchanged w)
    | inr (rows, e) ↦ simp (bind, e) (ledger.unchanged w)
  ]

  lawful : Lawful send look_up
  lawful = record {
    commits = λ w. count reference (ledger.rows w);
    IsKept = λ w. All (IsMine reference intended) (ledger.rows w);
    kept_by_send = ledger.mine;
    kept_by_look_up = λ w kept. rw (look_up-same w) kept;
    at_most = ledger.at_most;
    answers = ledger.answers;
    rejects = ledger.rejects;
    reads = λ w. ap (count reference) (look_up-same w);
    nothing =
        λ w kept e. find_reference-none reference intended (ledger.rows w) (look_up-rows w none e);
    conflict = λ w f kept e _. absurd (
        no_conflict f
          (find_reference-some reference intended (ledger.rows w) (failure f) kept
            (look_up-rows w (some (failure f)) e)).2);
    found = λ w v kept e.
        (find_reference-some reference intended (ledger.rows w) (value v) kept
          (look_up-rows w (some (value v)) e)).0;
  }
    where
      no_conflict : (f : Failure) → {cid : String} → failure f ≡ value cid → ⊥
      no_conflict f e = cc
