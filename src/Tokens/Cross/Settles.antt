-- ===== src/Tokens/Cross/Settles.antt =====
-- What `settle_cross_token` submits when it answers that the book is settled.
use tradeguard_canton.Prelude.{
  String, Bool, true, false, ◌≡◌, none, some, List, [], ◌∷◌, ◌⊎◌, All, length, any,
}
use tradeguard_canton.Prelude.Dict.{Dict}
use tradeguard_canton.Tokens.{Leg, Funding, TokenApi, Payment, opened, open_settlement}
use tradeguard_canton.Tokens.Holdings.{IsFunding}
use tradeguard_canton.Tokens.Legs.{AreLegs}
use tradeguard_canton.Tokens.Cross.Instruments.{legs_in}
use tradeguard_canton.Tokens.Cross.{funded, CrossReport, same_key, residuals_in, seen_key}

abbrev pub key_of_leg : Leg → String × String
key_of_leg leg = (leg.sender, leg.instrument)

abbrev pub key_of : Funding → String × String
key_of f = (f.sender, f.instrument)

-- No key stands twice, nor among those seen before.
abbrev pub OneEach : List (String × String) → List Funding → Type 0
OneEach seen [] = Unit
OneEach seen (f ∷ fs) = (seen_key (key_of f) seen ≡ false) × OneEach (key_of f ∷ seen) fs

-- A funding has the key of the leg.
abbrev pub has_funding : List Funding → Leg → Bool
has_funding fs leg = any (λ (f : Funding). same_key (key_of_leg leg) (key_of f)) fs

module _ {World : Type 0} (api : TokenApi World) where
  -- Each sender of a leg stands once for each of its instruments, with a holding of its own.
  pub record IsFundedBy (seen : List (String × String)) (legs : List Leg) (fs : List Funding)
      : Type 0 where
    pub once : OneEach seen fs
    pub holdings : All (λ (f : Funding). IsFunding api f.instrument f.sender f.holding) fs
    pub covered :
        All (λ leg. (seen_key (key_of_leg leg) seen ≡ true) ⊎ (has_funding fs leg ≡ true)) legs

-- What `settle_cross_token` has done when it answers that the book is settled.
pub record Executed {World : Type 0} (api : TokenApi World) (parties : Dict String String)
    (book : List Payment) (report : CrossReport) (after : World) : Type 0 where
  pub legs : List Leg
  pub per_instrument : (i : String) → AreLegs parties i (residuals_in book i) (legs_in i legs)
  pub leg_count : report.leg_count ≡ length legs
  pub funding : List Funding
  pub funded : IsFundedBy api [] legs funding
  -- the settlement was created with these legs
  pub ids : List String
  pub creating : World
  pub creation :
      (open_settlement api "cross-token" legs ids creating).0 ≡ some (opened report.settlement_cid)
  -- and then executed with these holdings, after which nothing else happened
  pub before : World
  pub created_before : before ≡ (open_settlement api "cross-token" legs ids creating).1
  pub accepted : (api.execute_multi report.settlement_cid funding before).0 ≡ none
  pub last : after ≡ (api.execute_multi report.settlement_cid funding before).1
