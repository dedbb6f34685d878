-- ===== src/Prelude/Dict.antt =====
-- Python's `dict`, as the list of its items in insertion order.
use Prim.Native.Nat.{◌+◌, ◌≤◌}
use mathlib.Core.Path.{◌≡◌, refl, ◌∙◌, subst}
use mathlib.Core.Logic.{◌≢◌, ite}
use mathlib.Core.Option.{Option, none, some}
use mathlib.Core.List.{List, [], ◌∷◌}
use native.Mathlib.Omega.{arith}
use tradeguard_canton.Prelude.Lists.{length, All, All-map₂}

abbrev pub Dict {ℓ} : Type ℓ → Type ℓ → Type ℓ
Dict K V = List (K × V)

module _ {ℓ} {K V : Type ℓ} (dec : Discrete K) where
  -- `d.get(k)`
  abbrev pub lookup : K → Dict K V → Option V
  lookup k [] = none
  lookup k ((j, v) ∷ d) = ite (dec k j) (some v) (lookup k d)

  -- `d.get(k, v)`
  abbrev pub get_or : K → V → Dict K V → V
  get_or k v [] = v
  get_or k v ((j, w) ∷ d) = ite (dec k j) w (get_or k v d)

  -- `d[k] = v`: a known key keeps its place, a new one comes last.
  abbrev pub insert : K → V → Dict K V → Dict K V
  insert k v [] = (k, v) ∷ []
  insert k v ((j, w) ∷ d) = ite (dec k j) ((j, v) ∷ d) ((j, w) ∷ insert k v d)

  -- no key stands twice
  abbrev pub IsUnique : Dict K V → Type ℓ
  IsUnique [] = Unit
  IsUnique ((k, v) ∷ d) = (lookup k d ≡ none) × IsUnique d

  pub lookup-insert_self : (k : K) (v : V) (d : Dict K V) → lookup k (insert k v d) ≡ some v
  lookup-insert_self k v [] = ground arith
  lookup-insert_self k v ((j, w) ∷ d) = ground (arith, lookup-insert_self k v d)

  pub lookup-insert_ne :
      (j k : K) (v : V) (d : Dict K V) → j ≢ k → lookup j (insert k v d) ≡ lookup j d
  lookup-insert_ne j k v [] h = ground arith
  lookup-insert_ne j k v ((i, w) ∷ d) h = ground (arith, lookup-insert_ne j k v d h)

  pub get_or-insert_self : (k : K) (v z : V) (d : Dict K V) → get_or k z (insert k v d) ≡ v
  get_or-insert_self k v z [] = ground arith
  get_or-insert_self k v z ((j, w) ∷ d) = ground (arith, get_or-insert_self k v z d)

  pub get_or-insert_ne :
      (j k : K) (v z : V) (d : Dict K V) → j ≢ k → get_or j z (insert k v d) ≡ get_or j z d
  get_or-insert_ne j k v z [] h = ground arith
  get_or-insert_ne j k v z ((i, w) ∷ d) h = ground (arith, get_or-insert_ne j k v z d h)

  pub get_or_of_lookup-none : (k : K) (z : V) (d : Dict K V) → lookup k d ≡ none → get_or k z d ≡ z
  get_or_of_lookup-none k z [] h = refl
  get_or_of_lookup-none k z ((j, w) ∷ d) h = ground (arith, get_or_of_lookup-none k z d)

  pub insert-IsUnique : (k : K) (v : V) (d : Dict K V) → IsUnique d → IsUnique (insert k v d)
  insert-IsUnique k v [] h = (refl, tt)
  insert-IsUnique k v ((j, w) ∷ d) h =
      ground (arith, insert-IsUnique k v d h.1, lookup-insert_ne j k v d)

  pub length-insert-le : (k : K) (v : V) (d : Dict K V) → length (insert k v d) ≤ length d + 1
  length-insert-le k v [] = ground arith
  length-insert-le k v ((j, w) ∷ d) = ground (arith, length-insert-le k v d)

  pub keys-ne : (k : K) (d : Dict K V) → lookup k d ≡ none → All (λ (e : K × V). e.0 ≢ k) d
  keys-ne k [] h = tt
  keys-ne k ((j, w) ∷ d) h = ground (arith, keys-ne k d)

  -- each item is what its key finds
  pub items-get_or :
      (z : V) (d : Dict K V) → IsUnique d → All (λ (e : K × V). get_or e.0 z d ≡ e.1) d
  items-get_or z [] h = tt
  items-get_or z ((j, w) ∷ d) h = (
    ground arith,
    All-map₂ (λ (e : K × V). e.0 ≢ j) (λ (e : K × V). get_or e.0 z d ≡ e.1)
        (λ (e : K × V). get_or e.0 z ((j, w) ∷ d) ≡ e.1) d (λ e ne found. ground arith)
        (keys-ne j d h.0) (items-get_or z d h.1),
  )

  -- what holds of the items and of the new one
  pub All-insert {κ} :
      (P : K × V → Type κ) (k : K) (v : V) (d : Dict K V)
      → P (k, v)
      → All P d
      → All P (insert k v d)
  All-insert P k v [] p h = (p, tt)
  All-insert P k v ((j, w) ∷ d) p h =
      elim (dec k j) as (λ x. All P (ite x ((j, v) ∷ d) ((j, w) ∷ insert k v d))) [
        | yes e ↦ (subst (λ i. P (i, v)) e p, h.1)
        | no ne ↦ (h.0, All-insert P k v d p h.1)
      ]

  -- a key that is new leaves the others as they are
  pub lookup-insert_keep :
      (j k : K) (v w : V) (d : Dict K V)
      → lookup k d ≡ none
      → lookup j d ≡ some w
      → lookup j (insert k v d) ≡ some w
  lookup-insert_keep j k v w d fresh found = lookup-insert_ne j k v d (other fresh found) ∙ found
    where
      other : lookup k d ≡ none → lookup j d ≡ some w → j ≢ k
      other n s e = cc
