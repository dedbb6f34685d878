-- ===== src/Tokens/Minting/Covers.antt =====
-- What is minted for a party covers what it sends when the book is settled.
use tradeguard_canton.Prelude.{String, ◌≡◌, ◌∙◌, List, [], ◌∷◌, arith, All, ite}
use tradeguard_canton.Prelude.Int.{ℤ, pos, ◌+ℤ◌, ◌≤ℤ◌, ◌-ℤ◌, neg_part, neg_part--ℤ_le, int_laws}
use tradeguard_canton.Prelude.Keys.{str_dec}
use tradeguard_canton.Prelude.Dict.{Dict, get_or, insert, get_or-insert_self, get_or-insert_ne}
use tradeguard_canton.Netting.{minimal_settlement}
use tradeguard_canton.Netting.Positions.{incoming, outgoing}
use tradeguard_canton.Netting.Greedy.{sent}
use tradeguard_canton.Netting.Settlement.{minimal_settlement-Settles}
use tradeguard_canton.Tokens.{Payment}
use tradeguard_canton.Tokens.Minting.{outflow}
use tradeguard_canton.Tokens.Threaded.{token_obligation, token_obligations}

get_or-insert :
    (p k : String) (v : ℤ) (d : Dict String ℤ)
    → get_or str_dec p (pos 0) (insert str_dec k v d)
      ≡ ite (str_dec p k) v (get_or str_dec p (pos 0) d)
get_or-insert p k v d =
    ground
      (arith, get_or-insert_self str_dec k v (pos 0) d, get_or-insert_ne str_dec p k v (pos 0) d)

-- What a party has on the book, on top of what it had.
outflow-outgoing :
    (instrument p : String) (book : List Payment) (out : Dict String ℤ)
    → get_or str_dec p (pos 0) (outflow out book)
      ≡ get_or str_dec p (pos 0) out +ℤ outgoing p (token_obligations instrument book)
unfolding outflow token_obligations token_obligation
outflow-outgoing instrument p [] out = omega int_laws
outflow-outgoing instrument p (r ∷ rows) out =
    rw (outflow-outgoing instrument p rows _, get_or-insert p r.payer) (grind int_laws)

incoming_is_positive :
    (instrument p : String) (book : List Payment)
    → All (λ (r : Payment). pos 0 ≤ℤ r.amount) book
    → pos 0 ≤ℤ incoming p (token_obligations instrument book)
unfolding token_obligations token_obligation
incoming_is_positive instrument p [] h = omega arith
incoming_is_positive instrument p (r ∷ rows) h =
    grind (int_laws, incoming_is_positive instrument p rows h.1)

outgoing_is_positive :
    (instrument p : String) (book : List Payment)
    → All (λ (r : Payment). pos 0 ≤ℤ r.amount) book
    → pos 0 ≤ℤ outgoing p (token_obligations instrument book)
unfolding token_obligations token_obligation
outgoing_is_positive instrument p [] h = omega arith
outgoing_is_positive instrument p (r ∷ rows) h =
    grind (int_laws, outgoing_is_positive instrument p rows h.1)

shortfall-le : (a b : ℤ) → pos 0 ≤ℤ a → pos 0 ≤ℤ b → pos (neg_part (a -ℤ b)) ≤ℤ b
shortfall-le a b h k = grind (arith, neg_part--ℤ_le a b)

-- `mint_book` mints for each party what it pays out in the book; when no amount is negative, that
-- covers all that the residual transfers let the party send.
pub outflow-Covers :
    (instrument : String) (book : List Payment) (p : String)
    → All (λ (r : Payment). pos 0 ≤ℤ r.amount) book
    → (get_or str_dec p (pos 0) (outflow [] book) ≡ outgoing p (token_obligations instrument book))
      × (sent p (minimal_settlement (token_obligations instrument book) instrument)
          ≤ℤ get_or str_dec p (pos 0) (outflow [] book))
outflow-Covers instrument book p h =
    let os = token_obligations instrument book in
    let minted = outflow-outgoing instrument p book [] ∙ zero_left in
    let pays = (minimal_settlement-Settles os instrument).pays p in
    (
      minted,
      rw (minted, pays)
          (shortfall-le _ _ (incoming_is_positive instrument p book h)
            (outgoing_is_positive instrument p book h)),
    )
  where
    zero_left :
        pos 0 +ℤ outgoing p (token_obligations instrument book)
        ≡ outgoing p (token_obligations instrument book)
    zero_left = omega int_laws
