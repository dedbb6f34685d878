-- ===== src/Client/Commands.antt =====
-- The queries and commands of `RealLedgerClient`, over `_post`.
use tradeguard_canton.Prelude.{
  ℕ, suc, String, Bool, true, false, not, ◌&&◌, ◌||◌, ◌<>◌, ◌==◌, Option, none, some, List, [], ◌∷◌,
  if◌then◌else◌,
}
use tradeguard_canton.Prelude.Int.{ℤ, eqb_ℤ}
use tradeguard_canton.Prelude.Actions.{Run, return, bind}
use Prim.Native.Char.{code}
use Prim.Native.String.{slice, find, len}
use tradeguard_canton.Solver.Model.{same}
use tradeguard_canton.Client.{Failure, Response, value, failure, Outcome, post_read, post_write}
use tradeguard_canton.Client.Json.{Json, stringify_ints}

-- `a.endswith(b)`
unfoldable pub ends_with : String → String → Bool
ends_with a String.[] = true
ends_with String.[] (String.◌∷◌ c b) = false
ends_with (String.◌∷◌ d a) (String.◌∷◌ c b) =
    same (String.◌∷◌ d a) (String.◌∷◌ c b) || ends_with a (String.◌∷◌ c b)

-- `s.startswith("#")`
unfoldable pub is_qualified : String → Bool
is_qualified String.[] = false
is_qualified (String.◌∷◌ c s) = code c == 35

-- `tid`, for the package `#tradeguard`
unfoldable pub tid : String → String
tid module_entity =
    if is_qualified module_entity then module_entity else "#tradeguard:" <> module_entity

-- `module_entity.split(":", 1)[1]` for a qualified name, which has a colon
unfoldable pub want_suffix : String → String
want_suffix module_entity =
    if is_qualified module_entity
    then slice module_entity (suc (find module_entity ":")) (len module_entity)
    else module_entity

-- An active contract: the `createdEvent` of an item of the answer.
pub record Created : Type 0 where
  pub template_id : String
  pub contract_id : String
  pub argument : Json

unfoldable pub is_wanted : String → Created → Bool
is_wanted module_entity c =
    ends_with c.template_id (want_suffix module_entity) || same c.template_id (tid module_entity)

-- The loop of `query`: an item without a `createdEvent` is passed over.
unfoldable pub wanted : String → List (Option Created) → List Created
wanted module_entity [] = []
wanted module_entity (none ∷ items) = wanted module_entity items
wanted module_entity (some c ∷ items) =
    let rest = wanted module_entity items in if is_wanted module_entity c then c ∷ rest else rest

-- The part of `query` after the answer: an error raises (`none`) when the query is strict.
unfoldable pub query_answer :
    String → Bool → Response (List (Option Created)) → Option (List Created)
query_answer module_entity strict (value items) = some (wanted module_entity items)
query_answer module_entity true (failure f) = none
query_answer module_entity false (failure f) = some []

-- The calls of the network: `ledger_end` is `none` when it fails.
pub record Network (World : Type 0) : Type 0 where
  pub ledger_end : World → Option ℕ × World
  -- the party and the offset
  pub active_contracts : String → ℕ → World → Outcome (List (Option Created)) × World

module _ {World : Type 0} (network : Network World) (party : String) where
  -- `_ledger_end`
  unfoldable pub ledger_end : Bool → Run World ℕ
  ledger_end strict w =
      let o = network.ledger_end w in
      (elim o.0 [ none ↦ (if strict then none else some 0) | some n ↦ some n ], o.1)

  unfoldable pub query : String → Bool → Run World (List Created)
  query module_entity strict = bind (ledger_end strict) λ offset.
      bind (post_read (network.active_contracts party offset))
        λ resp w. (query_answer module_entity strict resp, w)

-- What `_obligation_matches` reads of an obligation: a text that is missing is `none`, as is an
-- amount that is no number.
pub record Obligation : Type 0 where
  pub payer : Option String
  pub payee : Option String
  pub operator : Option String
  pub reference : Option String
  pub maturity : Option String
  pub amount : Option ℤ
  pub instrument : Option String

-- The payload that is to be created: `none` for a key that it does not have.
pub record Intended : Type 0 where
  pub payer : Option (Option String)
  pub payee : Option (Option String)
  pub operator : Option (Option String)
  pub reference : Option (Option String)
  pub maturity : Option (Option String)
  pub amount : Option (Option ℤ)
  pub instrument : Option (Option String)

abbrev pub same_option : Option String → Option String → Bool
same_option none none = true
same_option (some a) (some b) = same a b
same_option _ _ = false

-- `not (key in intended and actual.get(key) != intended.get(key))`
abbrev pub agrees : Option (Option String) → Option String → Bool
agrees none actual = true
agrees (some wanted) actual = same_option actual wanted

-- `float(actual.get("amount")) == float(intended["amount"])`, false when either is no number
abbrev pub amount_agrees : Option (Option ℤ) → Option ℤ → Bool
amount_agrees none actual = true
amount_agrees (some (some a)) (some b) = eqb_ℤ b a
amount_agrees (some _) _ = false

unfoldable pub obligation_matches : Obligation → Intended → Bool
obligation_matches actual intended =
    agrees intended.payer actual.payer
    && (agrees intended.payee actual.payee
        && (agrees intended.operator actual.operator
            && (agrees intended.reference actual.reference
                && (agrees intended.maturity actual.maturity
                    && (amount_agrees intended.amount actual.amount
                        && agrees intended.instrument actual.instrument)))))

-- `payload.get("reference")`
abbrev pub reference_of : Intended → Option String
reference_of intended = elim intended.reference [ none ↦ none | some r ↦ r ]

-- "reference … exists with different obligation fields"
abbrev pub conflict : Failure
conflict = record {
  http_error = 409;
  timeout = false;
  transport_error = false;
  reconciliation_error = false;
  ambiguous = false;
  body = "reference exists with different obligation fields";
}

-- The loop of `_existing_reference`; the answer is the contract that has the reference.
unfoldable pub find_reference :
    String → Intended → List (String × Obligation) → Option (Response String)
find_reference reference intended [] = none
find_reference reference intended ((cid, actual) ∷ contracts) =
    let later = find_reference reference intended contracts in
    if not (same_option actual.reference (some reference))
    then later
    else some (if obligation_matches actual intended then value cid else failure conflict)

module _ {World : Type 0} (query_obligations : Run World (List (String × Obligation))) where
  -- `_existing_reference`: an empty reference is none, and only obligations are looked up.
  unfoldable pub existing_reference : String → Intended → Run World (Option (Response String))
  existing_reference module_entity intended = elim (reference_of intended) [
    | none ↦ return none
    | some reference ↦
        if same reference "" || not (ends_with module_entity "TradeGuard.Netting:Obligation")
        then return none
        else bind query_obligations
            (λ contracts. return (find_reference reference intended contracts))
  ]

-- The body of a command, without its random id.
pub data Command : Type 0 where
  create_command : (template : String) (arguments : Json) → Command
  exercise_command : (template contract choice : String) (argument : Json) → Command

pub record Submission : Type 0 where
  pub command : Command
  pub act_as : List String

-- `act_as or [self.party]`
abbrev pub actors_of : String → List String → List String
actors_of party [] = party ∷ []
actors_of party (a ∷ rest) = a ∷ rest

module _ {World V : Type 0} (submit : Submission → World → Outcome V × World) (party : String) where
  -- `create` and `create_tree`, which differ in the path; the default of `before_retry` is
  -- `_existing_reference`.
  unfoldable pub create :
      String → Json → List String → Run World (Option (Response V)) → World → Response V × World
  create module_entity payload act_as before_retry =
      post_write
        (submit (record {
          command = create_command (tid module_entity) (stringify_ints payload);
          act_as = actors_of party act_as;
        }))
        (some before_retry)

  -- `exercise` and `exercise_tree`
  unfoldable pub exercise :
      String
      → String
      → String
      → Json
      → List String
      → Option (Run World (Option (Response V)))
      → World
      → Response V × World
  exercise module_entity contract_id choice argument act_as before_retry =
      post_write
        (submit (record {
          command =
              exercise_command (tid module_entity) contract_id choice (stringify_ints argument);
          act_as = actors_of party act_as;
        }))
        before_retry
