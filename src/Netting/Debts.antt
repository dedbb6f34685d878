-- ===== src/Netting/Debts.antt =====
-- The two sides of a table of net positions: what is due to its receivers, and what its payers owe.
use tradeguard_canton.Prelude.{
  ℕ, ◌+◌, ◌≤◌, String, ◌≡◌, refl, List, [], ◌∷◌, arith, ite, All, length, none, inl, inr,
  Bool-cases,
}
use tradeguard_canton.Prelude.Int.{
  ℤ, pos, ◌+ℤ◌, ◌-ℤ◌, ◌<ℤ◌, pos_part, neg_part, int_laws, neg_parts, ltb_ℤ,
}
use tradeguard_canton.Prelude.Keys.{str_dec}
use tradeguard_canton.Prelude.Dict.{Dict, insert, lookup, IsUnique}
use tradeguard_canton.Prelude.Sorting.{sort, insert_sorted}
use tradeguard_canton.Netting.{
  larger_first, Entry, Obligation, post_obligation, post_all, net_positions, owing, due,
}
use tradeguard_canton.Netting.Positions.{at}

-- The cents that a table has on each side.
abbrev pub credit : Dict String ℤ → ℕ
credit [] = 0
credit ((_, v) ∷ d) = pos_part v + credit d

abbrev pub debt : Dict String ℤ → ℕ
debt [] = 0
debt ((_, v) ∷ d) = neg_part v + debt d

credit-insert :
    (k : String) (v : ℤ) (d : Dict String ℤ)
    → credit (insert str_dec k v d) + pos_part (at k d) ≡ credit d + pos_part v
credit-insert k v [] = omega arith
credit-insert k v ((j, w) ∷ d) = ground (arith, credit-insert k v d)

pub debt-insert :
    (k : String) (v : ℤ) (d : Dict String ℤ)
    → debt (insert str_dec k v d) + neg_part (at k d) ≡ debt d + neg_part v
debt-insert k v [] = omega arith
debt-insert k v ((j, w) ∷ d) = ground (arith, debt-insert k v d)

-- Posting an obligation keeps the two sides level.
post_obligation-level :
    (net : Dict String ℤ) (o : Obligation)
    → credit net ≡ debt net
    → credit (post_obligation net o) ≡ debt (post_obligation net o)
unfolding post_obligation
post_obligation-level net o h =
    let debited = insert str_dec o.payer (at o.payer net -ℤ o.amount) net in
    omega (
      int_laws,
      credit-insert o.payer (at o.payer net -ℤ o.amount) net,
      debt-insert o.payer (at o.payer net -ℤ o.amount) net,
      credit-insert o.payee (at o.payee debited +ℤ o.amount) debited,
      debt-insert o.payee (at o.payee debited +ℤ o.amount) debited,
    )

post_all-level :
    (net : Dict String ℤ) (os : List Obligation)
    → credit net ≡ debt net
    → credit (post_all net os) ≡ debt (post_all net os)
unfolding post_all
post_all-level net [] h = h
post_all-level net (o ∷ os) h =
    post_all-level (post_obligation net o) os (post_obligation-level net o h)

-- What all receivers are due is what all payers owe: netting creates and loses no money.
pub net_positions_level :
    (os : List Obligation) → credit (net_positions os) ≡ debt (net_positions os)
unfolding net_positions
net_positions_level os = post_all-level [] os refl

-- The entries of a party in a list, added up.
abbrev pub amount_of : String → List Entry → ℤ
amount_of p [] = pos 0
amount_of p (e ∷ es) = ite (str_dec p e.party) e.amount (pos 0) +ℤ amount_of p es

abbrev pub total : List Entry → ℤ
total [] = pos 0
total (e ∷ es) = e.amount +ℤ total es

abbrev pub IsPositive : Entry → Type 0
IsPositive e = pos 0 <ℤ e.amount

pub owing-IsPositive : (d : Dict String ℤ) → All IsPositive (owing d)
unfolding owing
owing-IsPositive [] = tt
owing-IsPositive ((p, v) ∷ d) = ground (arith, owing-IsPositive d, neg_parts v)

pub due-IsPositive : (d : Dict String ℤ) → All IsPositive (due d)
unfolding due
due-IsPositive [] = tt
due-IsPositive ((p, v) ∷ d) = ground (arith, due-IsPositive d)

-- One item of a table on each side.
total-owing-cons :
    (j : String) (v : ℤ) (d : Dict String ℤ)
    → total (owing ((j, v) ∷ d)) ≡ pos (neg_part v) +ℤ total (owing d)
unfolding owing
total-owing-cons j v d = elim (Bool-cases (ltb_ℤ v (pos 0))) [
  | inl h ↦ rw h (grind int_laws)
  | inr h ↦ rw h (grind int_laws)
]

total-due-cons :
    (j : String) (v : ℤ) (d : Dict String ℤ)
    → total (due ((j, v) ∷ d)) ≡ pos (pos_part v) +ℤ total (due d)
unfolding due
total-due-cons j v d = elim (Bool-cases (ltb_ℤ (pos 0) v)) [
  | inl h ↦ rw h (grind int_laws)
  | inr h ↦ rw h (grind int_laws)
]

amount_of-owing-cons :
    (p j : String) (v : ℤ) (d : Dict String ℤ)
    → amount_of p (owing ((j, v) ∷ d))
      ≡ ite (str_dec p j) (pos (neg_part v)) (pos 0) +ℤ amount_of p (owing d)
unfolding owing
amount_of-owing-cons p j v d = elim (Bool-cases (ltb_ℤ v (pos 0))) [
  | inl h ↦ rw h (grind int_laws)
  | inr h ↦ rw h (grind int_laws)
]

amount_of-due-cons :
    (p j : String) (v : ℤ) (d : Dict String ℤ)
    → amount_of p (due ((j, v) ∷ d))
      ≡ ite (str_dec p j) (pos (pos_part v)) (pos 0) +ℤ amount_of p (due d)
unfolding due
amount_of-due-cons p j v d = elim (Bool-cases (ltb_ℤ (pos 0) v)) [
  | inl h ↦ rw h (grind int_laws)
  | inr h ↦ rw h (grind int_laws)
]

pub total-owing : (d : Dict String ℤ) → total (owing d) ≡ pos (debt d)
total-owing [] = unfold owing in refl
total-owing ((p, v) ∷ d) = rw (total-owing-cons p v d, total-owing d) (omega int_laws)

pub total-due : (d : Dict String ℤ) → total (due d) ≡ pos (credit d)
total-due [] = unfold due in refl
total-due ((p, v) ∷ d) = rw (total-due-cons p v d, total-due d) (omega int_laws)

-- A party of a table stands on one side only, with the size of its position.
amount_of_absent :
    (p : String) (d : Dict String ℤ)
    → lookup str_dec p d ≡ none
    → (amount_of p (owing d) ≡ pos 0) × (amount_of p (due d) ≡ pos 0)
amount_of_absent p [] h = (unfold owing in refl, unfold due in refl)
amount_of_absent p ((j, v) ∷ d) h =
    rw (amount_of-owing-cons p j v d, amount_of-due-cons p j v d)
      (grind (int_laws, amount_of_absent p d))

pub amount_of-owing :
    (p : String) (d : Dict String ℤ)
    → IsUnique str_dec d
    → amount_of p (owing d) ≡ pos (neg_part (at p d))
amount_of-owing p [] h = unfold owing in refl
amount_of-owing p ((j, v) ∷ d) h =
    rw (amount_of-owing-cons p j v d)
      (grind (int_laws, amount_of-owing p d h.1, amount_of_absent p d))

pub amount_of-due :
    (p : String) (d : Dict String ℤ)
    → IsUnique str_dec d
    → amount_of p (due d) ≡ pos (pos_part (at p d))
amount_of-due p [] h = unfold due in refl
amount_of-due p ((j, v) ∷ d) h =
    rw (amount_of-due-cons p j v d) (grind (int_laws, amount_of-due p d h.1, amount_of_absent p d))

-- Sorting moves entries only.
amount_of-insert_sorted :
    (p : String) (e : Entry) (es : List Entry)
    → amount_of p (insert_sorted larger_first e es) ≡ amount_of p (e ∷ es)
amount_of-insert_sorted p e [] = refl
amount_of-insert_sorted p e (f ∷ es) = grind (int_laws, amount_of-insert_sorted p e es)

pub amount_of-sort :
    (p : String) (es : List Entry) → amount_of p (sort larger_first es) ≡ amount_of p es
unfolding sort
amount_of-sort p [] = refl
amount_of-sort p (e ∷ es) = rw (amount_of-insert_sorted p e _, amount_of-sort p es)

total-insert_sorted :
    (e : Entry) (es : List Entry) → total (insert_sorted larger_first e es) ≡ e.amount +ℤ total es
total-insert_sorted e [] = refl
total-insert_sorted e (f ∷ es) = grind (int_laws, total-insert_sorted e es)

pub total-sort : (es : List Entry) → total (sort larger_first es) ≡ total es
unfolding sort
total-sort [] = refl
total-sort (e ∷ es) = rw (total-insert_sorted e _, total-sort es)

-- No more payers and receivers together than parties.
pub length-owing-due-le : (d : Dict String ℤ) → length (owing d) + length (due d) ≤ length d
unfolding owing due
length-owing-due-le [] = omega arith
length-owing-due-le ((p, v) ∷ d) = ground (arith, length-owing-due-le d)
