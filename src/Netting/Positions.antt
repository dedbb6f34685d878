-- ===== src/Netting/Positions.antt =====
-- What `net_positions` computes: for each party, what it is owed less what it owes.
use tradeguard_canton.Prelude.{String, ◌≡◌, List, [], ◌∷◌, arith, ite}
use tradeguard_canton.Prelude.Int.{ℤ, pos, ◌+ℤ◌, ◌-ℤ◌, int_laws}
use tradeguard_canton.Prelude.Keys.{str_dec}
use tradeguard_canton.Prelude.Dict.{
  Dict, get_or, insert, IsUnique, insert-IsUnique, get_or-insert_self, get_or-insert_ne,
}
use tradeguard_canton.Netting.{Obligation, post_obligation, post_all, net_positions}

-- The specification: the sum owed to a party, and the sum that it owes.
abbrev pub incoming : String → List Obligation → ℤ
incoming p [] = pos 0
incoming p (o ∷ os) = ite (str_dec p o.payee) o.amount (pos 0) +ℤ incoming p os

abbrev pub outgoing : String → List Obligation → ℤ
outgoing p [] = pos 0
outgoing p (o ∷ os) = ite (str_dec p o.payer) o.amount (pos 0) +ℤ outgoing p os

abbrev pub position : String → List Obligation → ℤ
position p os = incoming p os -ℤ outgoing p os

-- `net.get(p, 0.0)`
abbrev pub at : String → Dict String ℤ → ℤ
at p net = get_or str_dec p (pos 0) net

at-insert :
    (p k : String) (v : ℤ) (d : Dict String ℤ)
    → at p (insert str_dec k v d) ≡ ite (str_dec p k) v (at p d)
at-insert p k v d =
    ground
      (arith, get_or-insert_self str_dec k v (pos 0) d, get_or-insert_ne str_dec p k v (pos 0) d)

pub at-post_obligation :
    (p : String) (net : Dict String ℤ) (o : Obligation)
    → at p (post_obligation net o)
      ≡ at p net
        +ℤ (ite (str_dec p o.payee) o.amount (pos 0) -ℤ ite (str_dec p o.payer) o.amount (pos 0))
unfolding post_obligation
at-post_obligation p net o = simp at-insert (grind int_laws)

pub at-post_all :
    (p : String) (net : Dict String ℤ) (os : List Obligation)
    → at p (post_all net os) ≡ at p net +ℤ position p os
unfolding post_all
at-post_all p net [] = omega int_laws
at-post_all p net (o ∷ os) =
    rw (at-post_all p (post_obligation net o) os, at-post_obligation p net o) (omega int_laws)

-- `net_positions` gives each party what it is owed less what it owes, zero for a party that the
-- book does not name.
pub net_positions-position :
    (obligations : List Obligation) (p : String)
    → get_or str_dec p (pos 0) (net_positions obligations) ≡ position p obligations
unfolding net_positions
net_positions-position obligations p = rw at-post_all (omega int_laws)

post_all-IsUnique :
    (net : Dict String ℤ) (os : List Obligation)
    → IsUnique str_dec net
    → IsUnique str_dec (post_all net os)
unfolding post_all post_obligation
post_all-IsUnique net [] h = h
post_all-IsUnique net (o ∷ os) h =
    post_all-IsUnique (post_obligation net o) os
      (insert-IsUnique str_dec _ _ _ (insert-IsUnique str_dec _ _ net h))

pub net_positions-IsUnique : (os : List Obligation) → IsUnique str_dec (net_positions os)
unfolding net_positions
net_positions-IsUnique os = post_all-IsUnique [] os tt
