-- ===== src/Tokens/Legs.antt =====
-- The legs that carry out a list of transfers.
use tradeguard_canton.Prelude.{String, ◌≡◌, some, List, [], ◌∷◌}
use tradeguard_canton.Prelude.Keys.{str_dec}
use tradeguard_canton.Prelude.Dict.{Dict, lookup}
use tradeguard_canton.Netting.{Transfer}
use tradeguard_canton.Tokens.{Leg}

-- A leg carries out a transfer, between the ids of its parties.
pub record IsLegOf (parties : Dict String String) (instrument : String) (t : Transfer) (leg : Leg)
    : Type 0 where
  pub from_sender : lookup str_dec t.sender parties ≡ some leg.sender
  pub to_receiver : lookup str_dec t.receiver parties ≡ some leg.receiver
  pub same_amount : leg.amount ≡ t.amount
  pub same_instrument : leg.instrument ≡ instrument

-- One leg for each transfer, in order.
abbrev pub AreLegs : Dict String String → String → List Transfer → List Leg → Type 0
AreLegs parties instrument [] [] = Unit
AreLegs parties instrument (t ∷ ts) (leg ∷ legs) =
    IsLegOf parties instrument t leg × AreLegs parties instrument ts legs
AreLegs parties instrument _ _ = ⊥
