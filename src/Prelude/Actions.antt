-- ===== src/Prelude/Actions.antt =====
-- Actions over the state of an outside world that can raise: a raise is `none`, and the state keeps
-- what was done before it.
use mathlib.Core.Path.{◌≡◌, refl, ◌∙◌}
use mathlib.Core.Bool.{Bool, true, false}
use mathlib.Core.Logic.{inl, inr}
use mathlib.Core.Option.{Option, none, some}
use tradeguard_canton.Prelude.Tests.{Option-cases, if◌then◌else◌}

abbrev pub Run : Type 0 → Type 0 → Type 0
Run World A = World → Option A × World

module _ {World : Type 0} where
  abbrev pub return : {A : Type 0} → A → Run World A
  return x w = (some x, w)

  -- what needs no world, and can raise
  abbrev pub lift : {A : Type 0} → Option A → Run World A
  lift o w = (o, w)

  unfoldable pub bind : {A B : Type 0} → Run World A → (A → Run World B) → Run World B
  bind act next w = let r = act w in elim r.0 [ none ↦ (none, r.1) | some x ↦ next x r.1 ]

-- An action that did not raise ran its first part, and then the rest, which ends in the same state.
pub bind-some :
    {World A B : Type 0} (act : Run World A) (next : A → Run World B) (w : World) (y : B)
    → (bind act next w).0 ≡ some y
    → (x : A) × ((act w).0 ≡ some x)
      × ((next x (act w).1).0 ≡ some y)
      × ((bind act next w).1 ≡ (next x (act w).1).1)
unfolding bind
bind-some act next w y h = elim (Option-cases (act w).0) [
  | inl e ↦ absurd (raised (simp (bind, e) at h))
  | inr (x, e) ↦ (x, e, simp (bind, e) at h, simp (bind, e) refl)
]
  where
    raised : none ≡ some y → ⊥
    raised e = cc

-- Actions that leave the world as it is: a sequence, and a choice.
pub bind-same :
    {World A B : Type 0} (act : Run World A) (next : A → Run World B)
    → ((w : World) → (act w).1 ≡ w)
    → ((x : A) (w : World) → (next x w).1 ≡ w)
    → (w : World) → (bind act next w).1 ≡ w
unfolding bind
bind-same act next h k w = elim (Option-cases (act w).0) [
  | inl e ↦ simp (bind, e) (h w)
  | inr (x, e) ↦ simp (bind, e) (k x (act w).1 ∙ h w)
]

pub if-same :
    {World A : Type 0} (b : Bool) (x y : Run World A)
    → ((w : World) → (x w).1 ≡ w)
    → ((w : World) → (y w).1 ≡ w)
    → (w : World) → ((if b then x else y) w).1 ≡ w
if-same true x y h k w = h w
if-same false x y h k w = k w
