-- ===== src/Limits/Verdict.antt =====
-- What `_clear_verified` says of the ledger, whatever the ledger answers.
use tradeguard_canton.Prelude.{
  String, true, false, ◌≡◌, refl, ◌≢◌, sym, ap, ◌∙◌, none, some, List, [], ◌∷◌, ◌++◌, arith, inl,
  inr, Option-cases,
}
use mathlib.Core.Logic.{◌↔◌}
use tradeguard_canton.Limits.{
  Contract, LedgerApi, ClearError, initial_query_failed, final_query_failed, last_of, verdict,
  unread, archive_each, clear_all_of, clear_verified,
}

pub last_of-some : {A : Type 0} (xs : List A) → xs ≢ [] → last_of xs ≢ none
last_of-some [] ne e = ne refl
last_of-some (x ∷ []) ne e = cc
last_of-some {A} (x ∷ y ∷ xs) ne e = elim (Option-cases (last_of (y ∷ xs))) [
  | inl f ↦ last_of-some (y ∷ xs) (λ h. cc) f
  | inr (z, f) ↦ found z f
]
  where
    found : (z : A) → last_of (y ∷ xs) ≡ some z → ⊥
    found z f = ground arith

append-cons : (xs : List ClearError) (y : ClearError) → xs ++ y ∷ [] ≢ []
append-cons [] y e = cc
append-cons (x ∷ xs) y e = cc

verdict-explains :
    (initial final : List Contract) (errors : List ClearError)
    → (verdict initial final errors).ok ≡ false
    → (verdict initial final errors).last_error ≢ none
unfolding verdict
verdict-explains initial [] errors h = cc
verdict-explains initial (c ∷ final) [] h = λ e. cc
verdict-explains initial (c ∷ final) (x ∷ errors) h = last_of-some (x ∷ errors) (λ e. cc)

verdict-ok :
    (initial final : List Contract) (errors : List ClearError)
    → ((verdict initial final errors).ok ≡ true) ↔ (final ≡ [])
unfolding verdict
verdict-ok initial [] errors = (λ h. refl, λ h. refl)
verdict-ok initial (c ∷ final) errors = (λ h. cc, λ h. cc)

module _ {World : Type 0} (api : LedgerApi World) (template : String)
    (actors_for : Contract → List String) where
  -- The ledger after the archives, and what they answer.
  abbrev archived : List Contract → World → List ClearError × World
  archived cs w = archive_each api template actors_for cs w

  pub clear_all_of-read :
      (cs left : List Contract) (w : World)
      → (api.query template (archived cs w).1).0 ≡ some left
      → (clear_all_of api template actors_for cs w).0 ≡ verdict cs left (archived cs w).0
  unfolding clear_all_of
  clear_all_of-read cs left w e = simp (clear_all_of, e) refl

  clear_all_of-unread :
      (cs : List Contract) (w : World)
      → (api.query template (archived cs w).1).0 ≡ none
      → (clear_all_of api template actors_for cs w).0
        ≡ unread ((archived cs w).0 ++ final_query_failed ∷ [])
  unfolding clear_all_of
  clear_all_of-unread cs w e = simp (clear_all_of, e) refl

  pub clear_verified-read :
      (cs : List Contract) (w : World)
      → (api.query template w).0 ≡ some cs
      → (clear_verified api template actors_for w).0
        ≡ (clear_all_of api template actors_for cs (api.query template w).1).0
  unfolding clear_verified
  clear_verified-read cs w e = simp (clear_verified, e) refl

  clear_verified-unread :
      (w : World)
      → (api.query template w).0 ≡ none
      → (clear_verified api template actors_for w).0 ≡ unread (initial_query_failed ∷ [])
  unfolding clear_verified
  clear_verified-unread w e = simp (clear_verified, e) refl

  clear_all_of-explains :
      (cs : List Contract) (w : World)
      → (clear_all_of api template actors_for cs w).0.ok ≡ false
      → (clear_all_of api template actors_for cs w).0.last_error ≢ none
  clear_all_of-explains cs w = elim (Option-cases (api.query template (archived cs w).1).0) [
    | inl e ↦ rw (clear_all_of-unread cs w e) (λ h.
        last_of-some ((archived cs w).0 ++ final_query_failed ∷ [])
          (append-cons (archived cs w).0 final_query_failed))
    | inr (left, e) ↦
        rw (clear_all_of-read cs left w e) (verdict-explains cs left (archived cs w).0)
  ]

  clear_all_of-ok :
      (cs : List Contract) (w : World)
      → ((clear_all_of api template actors_for cs w).0.ok ≡ true)
        ↔ ((api.query template (archived cs w).1).0 ≡ some [])
  clear_all_of-ok cs w = elim (Option-cases (api.query template (archived cs w).1).0) [
    | inl e ↦ rw (clear_all_of-unread cs w e, e) (λ h. cc, λ h. cc)
    | inr (left, e) ↦
        rw (clear_all_of-read cs left w e, e)
          (
            λ h. ap some ((verdict-ok cs left (archived cs w).0).0 h),
            λ h. (verdict-ok cs left (archived cs w).0).1 (unwrap left h),
          )
  ]
    where
      unwrap : (left : List Contract) → some left ≡ some [] → left ≡ []
      unwrap left h = ground arith

-- A clear that is not ok always says why, whatever the ledger answers.
pub clear_verified-explains :
    {World : Type 0} (api : LedgerApi World) (template : String)
    (actors_for : Contract → List String) (w : World)
    → (clear_verified api template actors_for w).0.ok ≡ false
    → (clear_verified api template actors_for w).0.last_error ≢ none
clear_verified-explains api template actors_for w = elim (Option-cases (api.query template w).0) [
  | inl e ↦ rw (clear_verified-unread api template actors_for w e) (λ h f. cc)
  | inr (cs, e) ↦
      rw (clear_verified-read api template actors_for cs w e)
        (clear_all_of-explains api template actors_for cs (api.query template w).1)
]

-- A clear is ok exactly when both queries are answered and the second, on the ledger after all
-- archives, finds nothing: the answers of the single archives count for nothing.
pub clear_verified-ok :
    {World : Type 0} (api : LedgerApi World) (template : String)
    (actors_for : Contract → List String) (w : World)
    → ((clear_verified api template actors_for w).0.ok ≡ true) ↔ (
        (cs : List Contract) × ((api.query template w).0 ≡ some cs)
        × ((api.query template
              (archive_each api template actors_for cs (api.query template w).1).1).0
            ≡ some []))
clear_verified-ok api template actors_for w = elim (Option-cases (api.query template w).0) [
  | inl e ↦
      rw (clear_verified-unread api template actors_for w e)
        (λ h. cc, λ h. absurd (none_some (sym e ∙ h.1)))
  | inr (cs, e) ↦
      let after = clear_all_of-ok api template actors_for cs (api.query template w).1 in
      rw (clear_verified-read api template actors_for cs w e) (
        λ h. (cs, e, after.0 h),
        λ h. after.1 (
            ap
              (λ x.
                (api.query template
                  (archive_each api template actors_for x (api.query template w).1).1).0)
              (unwrap (sym e ∙ h.1))
            ∙ h.2),
      )
]
  where
    none_some : {x : List Contract} → none ≡ some x → ⊥
    none_some e = cc

    unwrap : {x y : List Contract} → some x ≡ some y → x ≡ y
    unwrap h = ground arith
