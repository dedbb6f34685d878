-- ===== src/Prelude/Keys.antt =====
-- Texts as keys: equality as a decision, and Python's order of `str`.
use Prim.Native.Nat.{Ordering}
use Prim.Native.String.{String, compare}
use mathlib.Core.Path.{◌≡◌, refl}
use mathlib.Core.Logic.{◌↔◌}
use mathlib.Core.Bool.{Bool, true, false, false≢true}
use text.Mathlib.Text.{◌==◌}
use text.Mathlib.TextEquality.{eq_iff}

abbrev decide_by {ℓ} : {A : Type ℓ} (b : Bool) → (b ≡ true) ↔ A → Dec A
decide_by true iff = yes (iff.0 refl)
decide_by false iff = no (λ a. false≢true (iff.1 a))

-- `a == b` on texts
unfoldable pub str_dec : Discrete String
str_dec a b = decide_by (a == b) (eq_iff a b)

-- `a <= b` on texts: code point by code point
abbrev pub str_leb : String → String → Bool
str_leb a b = elim (compare a b) [ Ordering.gt ↦ false | _ ↦ true ]
