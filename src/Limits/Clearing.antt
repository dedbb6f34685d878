-- ===== src/Limits/Clearing.antt =====
-- `_clear_verified` on a ledger that does what it says.
use tradeguard_canton.Prelude.{
  String, true, false, not, ◌≡◌, refl, ap, ◌∙◌, none, some, List, [], ◌∷◌, keep, length, All,
  All-map, arith, inl, inr, Bool-cases, Option-cases,
}
use tradeguard_canton.Solver.Model.{same, member}
use tradeguard_canton.Limits.{
  Contract, LedgerApi, ClearError, archive_failed, ids_of, verdict, archive_each, clear_verified,
}
use tradeguard_canton.Limits.Verdict.{clear_verified-read, clear_all_of-read}

-- A ledger whose strict query shows the active contracts of the template, and where an archive that
-- is not refused removes its contract and no other.
pub record Lawful {World : Type 0} (api : LedgerApi World) (template : String) : Type 0 where
  pub contents : World → List Contract
  pub shows : (w : World) → api.query template w ≡ (some (contents w), w)
  pub removes :
      (cid : String) (actors : List String) (w : World)
      → (api.exercise template cid "Archive" actors w).0 ≡ none
      → contents (api.exercise template cid "Archive" actors w).1
        ≡ keep (λ (d : Contract). not (same d.contract_id cid)) (contents w)

abbrev remaining : List Contract → List Contract → List Contract
remaining [] ds = ds
remaining (c ∷ cs) ds =
    remaining cs (keep (λ (d : Contract). not (same d.contract_id c.contract_id)) ds)

abbrev IsListed : List Contract → Contract → Type 0
IsListed cs d = member d.contract_id (ids_of cs) ≡ true

keep-IsListed :
    (c : Contract) (cs ds : List Contract)
    → All (IsListed (c ∷ cs)) ds
    → All (IsListed cs) (keep (λ (d : Contract). not (same d.contract_id c.contract_id)) ds)
keep-IsListed c cs [] h = tt
keep-IsListed c cs (d ∷ ds) h =
    let rest = keep-IsListed c cs ds h.1 in
    elim (Bool-cases (same d.contract_id c.contract_id)) [
      | inl e ↦ rw e rest
      | inr e ↦ rw e (listed e h.0, rest)
    ]
  where
    listed :
        same d.contract_id c.contract_id ≡ false
        → member d.contract_id (ids_of (c ∷ cs)) ≡ true
        → member d.contract_id (ids_of cs) ≡ true
    listed e m = rw e at m

remaining-listed : (cs ds : List Contract) → All (IsListed cs) ds → remaining cs ds ≡ []
remaining-listed [] [] h = refl
remaining-listed [] (d ∷ ds) h = cc
remaining-listed (c ∷ cs) ds h = remaining-listed cs _ (keep-IsListed c cs ds h)

All-IsListed : (cs : List Contract) → All (IsListed cs) cs
All-IsListed [] = tt
All-IsListed (c ∷ cs) = (
  ground arith,
  All-map (IsListed cs) (IsListed (c ∷ cs)) cs (λ d m. ground arith) (All-IsListed cs),
)

keep_none :
    (cs : List Contract)
    → length (keep (λ (c : Contract). not (member c.contract_id [])) cs) ≡ length cs
keep_none [] = refl
keep_none (c ∷ cs) = omega (arith, keep_none cs)

verdict-empty :
    (cs : List Contract) (errors : List ClearError)
    → ((verdict cs [] errors).ok ≡ true) × ((verdict cs [] errors).cleared ≡ length cs)
unfolding verdict
verdict-empty cs errors = (refl, keep_none cs)

module _ {World : Type 0} (api : LedgerApi World) (template : String)
    (actors_for : Contract → List String) (lawful : Lawful api template) where
  archive_each-remaining :
      (cs : List Contract) (w : World)
      → (archive_each api template actors_for cs w).0 ≡ []
      → lawful.contents (archive_each api template actors_for cs w).1
        ≡ remaining cs (lawful.contents w)
  unfolding archive_each
  archive_each-remaining [] w h = refl
  archive_each-remaining (c ∷ cs) w h =
      let call = api.exercise template c.contract_id "Archive" (actors_for c) w in
      elim (Option-cases call.0) [
        | inl e ↦
            archive_each-remaining cs call.1 (rw e at h)
            ∙ ap (remaining cs) (lawful.removes c.contract_id (actors_for c) w e)
        | inr (error, e) ↦ absurd (named error (rw e at h))
      ]
    where
      named :
          (error : String) {errors : List ClearError}
          → archive_failed c.contract_id error ∷ errors ≡ []
          → ⊥
      named error e = cc

-- On a lawful ledger, if no archive is refused, the clear is ok and counts every contract that
-- was active.
pub clear_verified-clears :
    {World : Type 0} (api : LedgerApi World) (template : String)
    (actors_for : Contract → List String) (lawful : Lawful api template) (w : World)
    → (archive_each api template actors_for (lawful.contents w) w).0 ≡ []
    → ((clear_verified api template actors_for w).0.ok ≡ true)
      × ((clear_verified api template actors_for w).0.cleared ≡ length (lawful.contents w))
clear_verified-clears api template actors_for lawful w h =
    let cs = lawful.contents w in
    let swept = (archive_each api template actors_for cs w).1 in
    let none_left : lawful.contents swept ≡ [] =
      archive_each-remaining api template actors_for lawful cs w h
      ∙ remaining-listed cs cs (All-IsListed cs) in
    let final : (api.query template swept).0 ≡ some [] =
      ap (λ a. a.0) (lawful.shows swept) ∙ ap some none_left in
    rw
      (
        clear_verified-read api template actors_for cs w (ap (λ a. a.0) (lawful.shows w)),
        ap (λ a. a.1) (lawful.shows w),
        clear_all_of-read api template actors_for cs [] w final,
      )
      (verdict-empty cs (archive_each api template actors_for cs w).0)
