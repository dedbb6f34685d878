-- ===== src/Netting/Efficiency.antt =====
-- Netting never moves more than the book: the residual transfers add up to at most the gross.
use tradeguard_canton.Prelude.{◌+◌, ◌≤◌, List, [], ◌∷◌, arith, All}
use tradeguard_canton.Prelude.Int.{
  ℤ, pos, ◌+ℤ◌, ◌-ℤ◌, ◌<ℤ◌, ◌≤ℤ◌, pos_part, int_laws, neg_part--ℤ_le, neg_part-+ℤ_le,
  neg_part_of_pos,
}
use tradeguard_canton.Prelude.Keys.{str_dec}
use tradeguard_canton.Prelude.Dict.{Dict, insert}
use tradeguard_canton.Netting.{
  Obligation, post_obligation, post_all, net_positions, minimal_settlement, transferred, gross,
}
use tradeguard_canton.Netting.Positions.{at}
use tradeguard_canton.Netting.Debts.{debt, debt-insert}
use tradeguard_canton.Netting.Settlement.{transferred-minimal_settlement}
use Prim.Native.String.{String}

abbrev pub IsOwed : Obligation → Type 0
IsOwed o = pos 0 <ℤ o.amount

-- An obligation raises the debts by at most its amount.
post_obligation-debt-le :
    (net : Dict String ℤ) (o : Obligation)
    → IsOwed o
    → debt (post_obligation net o) ≤ debt net + pos_part o.amount
unfolding post_obligation
post_obligation-debt-le net o h =
    let debited = insert str_dec o.payer (at o.payer net -ℤ o.amount) net in
    omega (
      arith,
      neg_part--ℤ_le (at o.payer net) o.amount,
      neg_part-+ℤ_le (at o.payee debited) o.amount (omega arith),
      debt-insert o.payer (at o.payer net -ℤ o.amount) net,
      debt-insert o.payee (at o.payee debited +ℤ o.amount) debited,
    )

pub gross_nonneg : (os : List Obligation) → All IsOwed os → pos 0 ≤ℤ gross os
unfolding gross
gross_nonneg [] h = omega arith
gross_nonneg (o ∷ os) h = omega (int_laws, gross_nonneg os h.1)

post_all-debt-le :
    (net : Dict String ℤ) (os : List Obligation)
    → All IsOwed os
    → pos (debt (post_all net os)) ≤ℤ pos (debt net) +ℤ gross os
unfolding post_all gross
post_all-debt-le net [] h = omega int_laws
post_all-debt-le net (o ∷ os) h = omega (
  int_laws,
  neg_part_of_pos o.amount h.0,
  post_obligation-debt-le net o h.0,
  post_all-debt-le (post_obligation net o) os h.1,
)

-- If every obligation is for a positive amount, the residual transfers add up to at most the gross
-- of the book, and to zero or more.
pub minimal_settlement_efficient :
    (obligations : List Obligation) (instrument : String)
    → All IsOwed obligations
    → (transferred (minimal_settlement obligations instrument) ≤ℤ gross obligations)
      × (pos 0 ≤ℤ transferred (minimal_settlement obligations instrument))
minimal_settlement_efficient os i h =
    rw (transferred-minimal_settlement os i)
      (unfold net_positions in omega (int_laws, post_all-debt-le [] os h), omega arith)
