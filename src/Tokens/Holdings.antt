-- ===== src/Tokens/Holdings.antt =====
-- `_holding_cid_for` finds the largest holding of a party in an instrument.
use tradeguard_canton.Prelude.{
  String, true, false, ◌&&◌, ◌≡◌, refl, Option, none, some, List, [], ◌∷◌, ◌⊎◌, inl, inr, arith,
  All, Bool-cases,
}
use tradeguard_canton.Prelude.Int.{ℤ, ◌<ℤ◌, ◌≤ℤ◌, ltb_ℤ}
use tradeguard_canton.Prelude.Actions.{bind-some}
use tradeguard_canton.Solver.Model.{same}
use tradeguard_canton.Tokens.{Holding, TokenApi, largest, minus_one, holding_cid_for}

module _ (party instrument : String) where
  abbrev pub IsOwned : Holding → Type 0
  IsOwned h = (same h.owner party && same h.instrument instrument) ≡ true

  -- every holding of the party in the instrument is of at most that amount
  abbrev pub AtMost : ℤ → List Holding → Type 0
  AtMost top hs = All (λ (h : Holding). IsOwned h → h.amount ≤ℤ top) hs

  -- one of the holdings
  abbrev pub IsIn : Holding → List Holding → Type 0
  IsIn h [] = ⊥
  IsIn h (g ∷ gs) = (h ≡ g) ⊎ IsIn h gs

  -- A holding in the list that is the party's, and no smaller than any other of the party's.
  pub record IsLargest (hs : List Holding) (cid : String) : Type 0 where
    pub holding : Holding
    pub listed : IsIn holding hs
    pub named : holding.contract_id ≡ cid
    pub owned : IsOwned holding
    pub top : AtMost holding.amount hs

  AtMost-le : (a b : ℤ) (hs : List Holding) → a ≤ℤ b → AtMost a hs → AtMost b hs
  AtMost-le a b [] le h = tt
  AtMost-le a b (g ∷ gs) le h = (λ o. below (h.0 o), AtMost-le a b gs le h.1)
    where
      below : g.amount ≤ℤ a → g.amount ≤ℤ b
      below k = omega arith

  -- The best so far, or a larger one in the list.
  abbrev Best : List Holding → Option String → ℤ → String → Type 0
  Best hs best amt cid =
      ((best ≡ some cid) × AtMost amt hs)
      ⊎ ((h : Holding) × IsIn h hs
          × (h.contract_id ≡ cid)
          × IsOwned h
          × (amt <ℤ h.amount)
          × AtMost h.amount hs)

  Best-step :
      (g : Holding) (gs : List Holding) (best : Option String) (amt : ℤ) (cid : String)
      → IsOwned g
      → amt <ℤ g.amount
      → Best gs (some g.contract_id) g.amount cid
      → Best (g ∷ gs) best amt cid
  Best-step g gs best amt cid o lt (inl (e, top)) =
      inr (g, inl refl, ground arith, o, lt, (λ _. omega arith, top))
  Best-step g gs best amt cid o lt (inr (h, i, n, oh, l, top)) =
      inr (h, inr i, n, oh, omega arith, (λ _. omega arith, top))

  Best-skip :
      (g : Holding) (gs : List Holding) (best : Option String) (amt : ℤ) (cid : String)
      → (IsOwned g → g.amount ≤ℤ amt)
      → Best gs best amt cid
      → Best (g ∷ gs) best amt cid
  Best-skip g gs best amt cid small (inl (e, top)) = inl (e, (small, top))
  Best-skip g gs best amt cid small (inr (h, i, n, oh, l, top)) =
      inr (h, inr i, n, oh, l, (λ o. below (small o), top))
    where
      below : g.amount ≤ℤ amt → g.amount ≤ℤ h.amount
      below k = omega arith

  largest-Best :
      (hs : List Holding) (best : Option String) (amt : ℤ) (cid : String)
      → largest party instrument best amt hs ≡ some cid
      → Best hs best amt cid
  unfolding largest
  largest-Best [] best amt cid e = inl (e, tt)
  largest-Best (g ∷ gs) best amt cid e =
      elim (Bool-cases (same g.owner party && same g.instrument instrument)) [
        | inl o ↦ elim (Bool-cases (ltb_ℤ amt g.amount)) [
          | inl l ↦
              Best-step g gs best amt cid o (ground arith)
                (largest-Best gs (some g.contract_id) g.amount cid (rw (o, l) at e))
          | inr l ↦
              Best-skip g gs best amt cid (λ _. ground arith)
                (largest-Best gs best amt cid (rw (o, l) at e))
        ]
        | inr o ↦
            Best-skip g gs best amt cid (λ k. absurd (clash o k))
              (largest-Best gs best amt cid (rw o at e))
      ]
    where
      clash : (same g.owner party && same g.instrument instrument) ≡ false → IsOwned g → ⊥
      clash o k = cc

  pub largest-IsLargest :
      (hs : List Holding) (cid : String)
      → largest party instrument none minus_one hs ≡ some cid
      → IsLargest hs cid
  largest-IsLargest hs cid e = elim (largest-Best hs none minus_one cid e) [
    | inl (n, _) ↦ absurd (none_some n)
    | inr (h, i, n, o, _, top) ↦ record { holding = h; listed = i; named = n; owned = o; top = top }
  ]
    where
      none_some : none ≡ some cid → ⊥
      none_some n = cc

-- The largest holding of a party at the time of some query.
pub record IsFunding {World : Type 0} (api : TokenApi World) (instrument party cid : String)
    : Type 0 where
  pub queried : World
  pub shown : List Holding
  pub answer : (api.query_holdings queried).0 ≡ some shown
  pub largest : IsLargest party instrument shown cid

-- What `_holding_cid_for` finds is the largest holding of the party in the instrument, among those
-- that its query shows.
pub holding_cid_for-IsFunding :
    {World : Type 0} (api : TokenApi World) (party instrument : String) (w : World) (cid : String)
    → (holding_cid_for api party instrument w).0 ≡ some (some cid)
    → IsFunding api instrument party cid
unfolding holding_cid_for
holding_cid_for-IsFunding api party instrument w cid h =
    let (hs, q, e, _) = bind-some _ _ _ _ h in
    record {
      queried = w;
      shown = hs;
      answer = q;
      largest = largest-IsLargest party instrument hs cid (unwrap e);
    }
  where
    unwrap : {x y : Option String} → some x ≡ some y → x ≡ y
    unwrap e = ground arith
