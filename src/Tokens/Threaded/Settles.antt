-- ===== src/Tokens/Threaded/Settles.antt =====
-- What `settle_token` submits when it answers that the book is settled.
use tradeguard_canton.Prelude.{◌<>◌, String, ◌≡◌, ◌≢◌, none, some, List, [], All}
use tradeguard_canton.Prelude.Keys.{str_dec}
use tradeguard_canton.Prelude.Dict.{Dict, lookup, IsUnique}
use tradeguard_canton.Netting.{Transfer, minimal_settlement}
use tradeguard_canton.Tokens.{Leg, TokenApi, Payment, opened, open_settlement}
use tradeguard_canton.Tokens.Holdings.{IsFunding}
use tradeguard_canton.Tokens.Legs.{AreLegs}
use tradeguard_canton.Tokens.Threaded.{TokenReport, token_obligations}

module _ {World : Type 0} (api : TokenApi World) (parties : Dict String String)
    (instrument : String) where
  -- Each sender stands once, with a holding of its own.
  pub record IsFundedBy (senders : Dict String String) : Type 0 where
    pub once : IsUnique str_dec senders
    pub holdings : All (λ (e : String × String). IsFunding api instrument e.0 e.1) senders

  -- The funding grows, and pays the legs of the transfers.
  pub record Pays (seen : Dict String String) (ts : List Transfer) (legs : List Leg)
      (senders : Dict String String) : Type 0 where
    pub are_legs : AreLegs parties instrument ts legs
    pub funded : IsFundedBy senders
    pub covered : All (λ (leg : Leg). lookup str_dec leg.sender senders ≢ none) legs
    pub kept :
        (j cid : String) → lookup str_dec j seen ≡ some cid → lookup str_dec j senders ≡ some cid

-- What `settle_token` has done when it answers that the book is settled.
pub record Executed {World : Type 0} (api : TokenApi World) (parties : Dict String String)
    (instrument : String) (book : List Payment) (report : TokenReport) (after : World)
    : Type 0 where
  pub senders : Dict String String
  pub paid :
      Pays api parties instrument []
        (minimal_settlement (token_obligations instrument book) instrument)
        report.residual_legs
        senders
  -- the settlement was created with these legs
  pub ids : List String
  pub creating : World
  pub creation :
      (open_settlement api ("token-" <> instrument) report.residual_legs ids creating).0
      ≡ some (opened report.settlement_cid)
  -- and then executed with these holdings, after which nothing else happened
  pub before : World
  pub created_before :
      before ≡ (open_settlement api ("token-" <> instrument) report.residual_legs ids creating).1
  pub accepted : (api.execute_threaded report.settlement_cid senders before).0 ≡ none
  pub last : after ≡ (api.execute_threaded report.settlement_cid senders before).1

module _ {World : Type 0} (api : TokenApi World) (parties : Dict String String)
    (instrument : String) (book : List Payment) where
  abbrev PaidBy : List Leg → Dict String String → Type 0
  PaidBy legs senders =
      Pays api parties instrument []
        (minimal_settlement (token_obligations instrument book) instrument) legs senders
