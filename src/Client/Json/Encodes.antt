-- ===== src/Client/Json/Encodes.antt =====
-- A payload after `_stringify_ints`: the same values, with each integer as a text that reads as it.
use tradeguard_canton.Prelude.{◌≡◌, refl, some}
use tradeguard_canton.Client.Json.{
  Json, null, boolean, integer, decimal, text, array, object, Items, end, item, Fields, done, field,
  stringify_ints, stringify_items, stringify_fields,
}
use tradeguard_canton.Client.Json.Digits.{read_int, read_int-str_int}

mutual
  -- No integer is encoded as an integer: what has no clause of its own is impossible.
  pub Encodes : Json → Json → Type 0
  Encodes null null = Unit
  Encodes (boolean b) (boolean c) = b ≡ c
  Encodes (integer n) (text s) = read_int s ≡ some n
  Encodes (decimal s) (decimal t) = s ≡ t
  Encodes (text s) (text t) = s ≡ t
  Encodes (array xs) (array ys) = EncodesItems xs ys
  Encodes (object fs) (object gs) = EncodesFields fs gs
  Encodes _ _ = ⊥

  pub EncodesItems : Items → Items → Type 0
  EncodesItems end end = Unit
  EncodesItems (item x xs) (item y ys) = Encodes x y × EncodesItems xs ys
  EncodesItems _ _ = ⊥

  pub EncodesFields : Fields → Fields → Type 0
  EncodesFields done done = Unit
  EncodesFields (field k x fs) (field j y gs) = (k ≡ j) × Encodes x y × EncodesFields fs gs
  EncodesFields _ _ = ⊥

mutual
  unfolding Encodes stringify_ints

  stringify_ints_lem : (j : Json) → Encodes j (stringify_ints j)
  stringify_ints_lem null = tt
  stringify_ints_lem (boolean b) = refl
  stringify_ints_lem (integer n) = read_int-str_int n
  stringify_ints_lem (decimal s) = refl
  stringify_ints_lem (text s) = refl
  stringify_ints_lem (array xs) = stringify_items_lem xs
  stringify_ints_lem (object fs) = stringify_fields_lem fs

  stringify_items_lem : (xs : Items) → EncodesItems xs (stringify_items xs)
  stringify_items_lem end = tt
  stringify_items_lem (item x xs) = (stringify_ints_lem x, stringify_items_lem xs)

  stringify_fields_lem : (fs : Fields) → EncodesFields fs (stringify_fields fs)
  stringify_fields_lem done = tt
  stringify_fields_lem (field k x fs) = (refl, stringify_ints_lem x, stringify_fields_lem fs)

-- `_stringify_ints` keeps the shape of a payload and every value that is no integer; each integer
-- becomes a text that reads as that integer, and no integer is left.
pub stringify_ints-Encodes : (j : Json) → Encodes j (stringify_ints j)
stringify_ints-Encodes j = stringify_ints_lem j
