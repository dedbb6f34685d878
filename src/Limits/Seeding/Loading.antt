-- ===== src/Limits/Seeding/Loading.antt =====
-- A constraint that was created is read back as it was given.
use tradeguard_canton.Prelude.{String, ◌≡◌, refl, ap, Option, none, some, List, [], ◌∷◌, ◌++◌}
use tradeguard_canton.Prelude.{inl, inr, Option-cases}
use tradeguard_canton.Prelude.Int.{ℤ}
use tradeguard_canton.Prelude.Keys.{str_dec}
use tradeguard_canton.Prelude.Dict.{Dict, lookup}
use tradeguard_canton.Prelude.Actions.{bind-some}
use tradeguard_canton.Limits.{Field, Contract, LedgerLimit, read_limit, read_all, load_limits}
use tradeguard_canton.Limits.Seeding.{
  Created, create_refused, created, SeedApi, not_seeded, seeded, limit_payload, seed_answer,
  create_constraint, seed_limit,
}

-- A ledger that keeps what it created: the next query of the template shows the rows from before,
-- and then the new contract.
pub record Keeps {World : Type 0} (api : SeedApi World) : Type 0 where
  pub created_last :
      (template cid : String) (payload : Dict String Field) (actors : List String) (w : World)
      (rows : List Contract)
      → (api.create_tree template payload actors w).0 ≡ created (some cid)
      → (api.ledger.query template w).0 ≡ some rows
      → (api.ledger.query template (api.create_tree template payload actors w).1).0
        ≡ some (rows ++ record { contract_id = cid; payload = payload } ∷ [])

module _ {A B : Type 0} (read : A → Option B) (c : A) (l : B) where
  read_all-append :
      (rows : List A) (ls : List B)
      → read_all read rows ≡ some ls
      → read c ≡ some l
      → read_all read (rows ++ c ∷ []) ≡ some (ls ++ l ∷ [])
  read_all-append [] ls h k = rw (k, ← some_inj h) refl
    where
      some_inj : {x y : List B} → some x ≡ some y → x ≡ y
      some_inj e = cc
  read_all-append (x ∷ rows) ls h k = elim (Option-cases (read x)) [
    | inl e ↦ absurd (differ (simp (read_all, e) at h))
    | inr (y, e) ↦ elim (Option-cases (read_all read rows)) [
      | inl f ↦ absurd (differ (simp (read_all, e, f) at h))
      | inr (ys, f) ↦
          rw (e, read_all-append rows ys f k, ← some_inj (simp (read_all, e, f) at h)) refl
    ]
  ]
    where
      some_inj : {x y : List B} → some x ≡ some y → x ≡ y
      some_inj e = cc

      differ : none ≡ some ls → ⊥
      differ e = cc

created_is :
    (answer : Created) (cid : String)
    → seed_answer answer ≡ some (seeded cid)
    → answer ≡ created (some cid)
unfolding seed_answer
created_is (create_refused e) cid h = absurd (differ h)
  where
    differ : some (not_seeded e) ≡ some (seeded cid) → ⊥
    differ h = cc
created_is (created none) cid h = absurd (differ h)
  where
    differ : none ≡ some (seeded cid) → ⊥
    differ h = cc
created_is (created (some other)) cid h = ap (λ c. created (some c)) (same_cid h)
  where
    same_cid : some (seeded other) ≡ some (seeded cid) → other ≡ cid
    same_cid h = cc

read_limit_payload :
    (cid operator frm to currency : String) (limit : ℤ)
    → read_limit
        (record { contract_id = cid; payload = limit_payload operator frm to limit currency })
      ≡ some (record { cid = cid; frm = frm; to = to; currency = currency; limit = limit })
unfolding read_limit str_dec
read_limit_payload cid operator frm to currency limit = refl

-- A credit limit that `seed_limit` reports as created is loaded from then on: on a ledger that keeps
-- what it created, the next load shows the limits from before, and then this one, with the parties
-- of the two keys, its currency and its amount.
pub seed_limit-load :
    {World : Type 0} (api : SeedApi World) (known : Dict String String) (operator : String)
    (frm_key to_key currency : String) (limit : ℤ) (w : World) (cid : String) (rows : List Contract)
    (before : List LedgerLimit)
    → Keeps api
    → (api.ledger.query "TradeGuard.Netting:CreditLimit" w).0 ≡ some rows
    → read_all read_limit rows ≡ some before
    → (seed_limit api known operator frm_key to_key limit currency w).0 ≡ some (seeded cid)
    → (frm : String) × (to : String) × (lookup str_dec frm_key known ≡ some frm)
      × (lookup str_dec to_key known ≡ some to)
      × ((load_limits api.ledger
            (seed_limit api known operator frm_key to_key limit currency w).1).0
          ≡ some (
              before
              ++ record { cid = cid; frm = frm; to = to; currency = currency; limit = limit } ∷ []))
unfolding seed_limit create_constraint load_limits seed_answer
seed_limit-load api known operator frm_key to_key currency limit w cid rows before keeps shown read
      h =
    let (frm, e, h₁, e₁) = bind-some _ _ w (seeded cid) h in
    let (to, f, h₂, e₂) = bind-some _ _ w (seeded cid) h₁ in
    (
      frm,
      to,
      e,
      f,
      rw
          (
            e₁,
            e₂,
            keeps.created_last "TradeGuard.Netting:CreditLimit" cid
                (limit_payload operator frm to limit currency) (frm ∷ operator ∷ []) w rows
                (created_is _ cid h₂) shown,
          )
          (read_all-append read_limit _ _ rows before read
            (read_limit_payload cid operator frm to currency limit)),
    )
