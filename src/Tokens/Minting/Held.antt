-- ===== src/Tokens/Minting/Held.antt =====
-- What `mint_book` leaves in a party's holdings.
use tradeguard_canton.Prelude.{
  String, ◌≡◌, refl, subst, ◌≢◌, sym, ap, ◌∙◌, Option, none, some, List, [], ◌∷◌, arith, All, inl,
  inr, Option-cases,
}
use tradeguard_canton.Prelude.Int.{ℤ, pos, ◌+ℤ◌, ◌≤ℤ◌, int_laws}
use tradeguard_canton.Prelude.Keys.{str_dec}
use tradeguard_canton.Prelude.Dict.{
  Dict, lookup, get_or, insert, IsUnique, insert-IsUnique, lookup-insert_self, lookup-insert_ne,
  get_or_of_lookup-none,
}
use tradeguard_canton.Prelude.Actions.{bind-some}
use tradeguard_canton.Netting.{minimal_settlement}
use tradeguard_canton.Netting.Positions.{outgoing}
use tradeguard_canton.Netting.Greedy.{sent}
use tradeguard_canton.Tokens.{TokenApi, Payment}
use tradeguard_canton.Tokens.Minting.{outflow, Minted, mintings, mint_each, mint_book}
use tradeguard_canton.Tokens.Minting.Covers.{outflow-Covers}
use tradeguard_canton.Tokens.Threaded.{token_obligations}

-- A ledger that counts an owner's holdings of an instrument: a creation that is not refused adds its
-- amount, one that is refused adds nothing, and one for another owner is another's.
pub record Holds {World : Type 0} (api : TokenApi World) (instrument owner : String) : Type 0 where
  pub held : World → ℤ
  pub added :
      (amount : ℤ) (w : World)
      → (api.create_holding instrument owner amount w).0 ≡ none
      → held (api.create_holding instrument owner amount w).1 ≡ held w +ℤ amount
  pub refused :
      (amount : ℤ) (w : World) (e : String)
      → (api.create_holding instrument owner amount w).0 ≡ some e
      → held (api.create_holding instrument owner amount w).1 ≡ held w
  pub elsewhere :
      (other : String) (amount : ℤ) (w : World)
      → other ≢ owner
      → held (api.create_holding instrument other amount w).1 ≡ held w

outflow-IsUnique :
    (book : List Payment) (out : Dict String ℤ)
    → IsUnique str_dec out
    → IsUnique str_dec (outflow out book)
unfolding outflow
outflow-IsUnique [] out h = h
outflow-IsUnique (r ∷ rs) out h = outflow-IsUnique rs _ (insert-IsUnique str_dec r.payer _ out h)

some_inj : {A : Type 0} {x y : A} → some x ≡ some y → x ≡ y
some_inj e = cc

at_key :
    (p k : String) (x : Option String) (minted : Minted)
    → p ≡ k
    → lookup str_dec p (insert str_dec k x minted) ≡ some x
at_key p k x minted e =
    subst (λ j. lookup str_dec j (insert str_dec k x minted) ≡ some x) (sym e)
      (lookup-insert_self str_dec k x minted)

module _ {World : Type 0} (api : TokenApi World) (parties : Dict String String)
    (instrument p owner : String) (ledger : Holds api instrument owner)
    (is_p : lookup str_dec p parties ≡ some owner)
    (own_id : (k : String) → lookup str_dec k parties ≡ some owner → k ≡ p) where
  another : (k other : String) → p ≢ k → lookup str_dec k parties ≡ some other → other ≢ owner
  another k other ne found same = ne (sym (own_id k (found ∙ ap some same)))

  -- The loop leaves alone a party that is not in the rest.
  mint_each-elsewhere :
      (out : Dict String ℤ) (minted m : Minted) (w : World)
      → lookup str_dec p out ≡ none
      → (mint_each api parties minted (mintings instrument out) w).0 ≡ some m
      → (lookup str_dec p m ≡ lookup str_dec p minted)
        × (ledger.held (mint_each api parties minted (mintings instrument out) w).1 ≡ ledger.held w)
  unfolding mint_each mintings
  mint_each-elsewhere [] minted m w absent h = (ap (lookup str_dec p) (sym (some_inj h)), refl)
  mint_each-elsewhere ((k, amount) ∷ out) minted m w absent h =
      let (other, found, h₁, e₁) = bind-some _ _ w m h in
      let ne : p ≢ k = ground (arith, absent) in
      let later = mint_each-elsewhere out _ m _ (rest ne) h₁ in
      (
        later.0 ∙ lookup-insert_ne str_dec p k _ minted ne,
        ap ledger.held e₁ ∙ later.1 ∙ ledger.elsewhere other amount w (another k other ne found),
      )
    where
      rest : p ≢ k → lookup str_dec p out ≡ none
      rest ne = ground (arith, absent)

  its_own : (k other : String) → p ≡ k → lookup str_dec k parties ≡ some other → other ≡ owner
  its_own k other e found = some_inj (sym found ∙ ap (λ j. lookup str_dec j parties) (sym e) ∙ is_p)

  added_to :
      (other : String) (amount : ℤ) (w : World)
      → other ≡ owner
      → (api.create_holding instrument other amount w).0 ≡ none
      → ledger.held (api.create_holding instrument other amount w).1 ≡ ledger.held w +ℤ amount
  added_to other amount w same =
      subst
        (λ o.
          (api.create_holding instrument o amount w).0 ≡ none
          → ledger.held (api.create_holding instrument o amount w).1 ≡ ledger.held w +ℤ amount)
        (sym same) (ledger.added amount w)

  accepted :
      (m : Minted) (answer : Option String)
      → lookup str_dec p m ≡ some answer
      → ((error : String) → lookup str_dec p m ≢ some (some error))
      → answer ≡ none
  accepted m none said ok = refl
  accepted m (some error) said ok = absurd (ok error said)

  -- It mints the amount of a party that is, if the row of the party reports no error.
  mint_each-held :
      (out : Dict String ℤ) (minted m : Minted) (w : World) (a : ℤ)
      → IsUnique str_dec out
      → lookup str_dec p out ≡ some a
      → ((error : String) → lookup str_dec p m ≢ some (some error))
      → (mint_each api parties minted (mintings instrument out) w).0 ≡ some m
      → ledger.held (mint_each api parties minted (mintings instrument out) w).1
        ≡ ledger.held w +ℤ a
  unfolding mint_each mintings
  mint_each-held [] minted m w a unique there ok h = absurd (differ there)
    where
      differ : none ≡ some a → ⊥
      differ e = cc
  mint_each-held ((k, amount) ∷ out) minted m w a unique there ok h =
      let (other, found, h₁, e₁) = bind-some _ _ w m h in
      elim (str_dec p k) [
        | yes e ↦
            let later = mint_each-elsewhere out _ m _ (rw e unique.0) h₁ in
            let said = later.0 ∙ at_key p k _ minted e in
            ap ledger.held e₁
            ∙ later.1
            ∙ added_to other amount w (its_own k other e found) (accepted m _ said ok)
            ∙ ap (λ v. ledger.held w +ℤ v) (amount_is e)
        | no ne ↦
            ap ledger.held e₁
            ∙ mint_each-held out _ m _ a unique.1 (rest ne) ok h₁
            ∙ ap (λ v. v +ℤ a) (ledger.elsewhere other amount w (another k other ne found))
      ]
    where
      rest : p ≢ k → lookup str_dec p out ≡ some a
      rest ne = ground (arith, there)

      amount_is : p ≡ k → amount ≡ a
      amount_is e = ground (arith, there)

get_or-lookup :
    (p : String) (d : Dict String ℤ) (a : ℤ)
    → lookup str_dec p d ≡ some a
    → get_or str_dec p (pos 0) d ≡ a
get_or-lookup p [] a e = cc
get_or-lookup p ((k, v) ∷ d) a e = ground (arith, get_or-lookup p d a)

enough :
    (before after sends pays : ℤ)
    → after ≡ before +ℤ pays
    → sends ≤ℤ pays
    → before +ℤ sends ≤ℤ after
enough before after sends pays e h = rw e (grind int_laws)

-- What is added is the party's entry in the table of what is paid out, and nothing if it has none.
mint_book-outflow :
    {World : Type 0} (api : TokenApi World) (parties : Dict String String)
    (instrument p owner : String) (ledger : Holds api instrument owner)
    → lookup str_dec p parties ≡ some owner
    → ((k : String) → lookup str_dec k parties ≡ some owner → k ≡ p)
    → (book : List Payment) (w : World) (minted : Minted)
    → ((error : String) → lookup str_dec p minted ≢ some (some error))
    → (mint_book api parties instrument book w).0 ≡ some minted
    → ledger.held (mint_book api parties instrument book w).1
      ≡ ledger.held w +ℤ get_or str_dec p (pos 0) (outflow [] book)
unfolding mint_book
mint_book-outflow api parties instrument p owner ledger is_p own_id book w minted ok h =
    let out = outflow [] book in
    elim (Option-cases (lookup str_dec p out)) [
      | inl e ↦
          let same =
            mint_each-elsewhere api parties instrument p owner ledger is_p own_id out [] minted w e
              h in
          same.1 ∙ nothing (ledger.held w) _ (get_or_of_lookup-none str_dec p (pos 0) out e)
      | inr (a, e) ↦
          mint_each-held api parties instrument p owner ledger is_p own_id out [] minted w a
            (outflow-IsUnique book [] tt) e ok h
          ∙ ap (λ v. ledger.held w +ℤ v) (sym (get_or-lookup p out a e))
    ]
  where
    nothing : (x y : ℤ) → y ≡ pos 0 → x ≡ x +ℤ y
    nothing x y e = zero_right x ∙ ap (λ v. x +ℤ v) (sym e)
      where
        zero_right : (z : ℤ) → z ≡ z +ℤ pos 0
        zero_right z = omega int_laws

-- Unless `mint_book` reports an error for a party, it has added to the party's holdings exactly what
-- the party pays out in the book, nothing if it pays nothing; when no amount is negative, that is enough for all that the residual
-- transfers let it send. The party's id is that of no other key, and the ledger counts the
-- holdings of an owner as they are created.
pub mint_book-Covers :
    {World : Type 0} (api : TokenApi World) (parties : Dict String String)
    (instrument p owner : String) (ledger : Holds api instrument owner) (book : List Payment)
    (w : World) (minted : Minted)
    → lookup str_dec p parties ≡ some owner
    → ((k : String) → lookup str_dec k parties ≡ some owner → k ≡ p)
    → All (λ (r : Payment). pos 0 ≤ℤ r.amount) book
    → (mint_book api parties instrument book w).0 ≡ some minted
    → ((error : String) → lookup str_dec p minted ≢ some (some error))
    → (ledger.held (mint_book api parties instrument book w).1
        ≡ ledger.held w +ℤ outgoing p (token_obligations instrument book))
      × (ledger.held w +ℤ sent p (minimal_settlement (token_obligations instrument book) instrument)
          ≤ℤ ledger.held (mint_book api parties instrument book w).1)
unfolding mint_book
mint_book-Covers api parties instrument p owner ledger book w minted is_p own_id positive h ok =
    let os = token_obligations instrument book in
    let covers = outflow-Covers instrument book p positive in
    let minted_is =
      mint_book-outflow api parties instrument p owner ledger is_p own_id book w minted ok h in
    let total = minted_is ∙ ap (λ v. ledger.held w +ℤ v) covers.0 in
    (
      total,
      enough _ _ _ _ total
          (subst (λ v. sent p (minimal_settlement os instrument) ≤ℤ v) covers.0 covers.1),
    )
