-- ===== src/Client/Json.antt =====
-- JSON values, and `_stringify_ints`, which writes the integers of a payload as texts. A text is the
-- list of its code points.
pub mod Digits
pub mod Encodes
use tradeguard_canton.Prelude.{
  ℕ, zero, suc, ◌+◌, ◌/◌, ◌%◌, Bool, ltb, List, [], ◌∷◌, ◌++◌, if◌then◌else◌,
}
use tradeguard_canton.Prelude.Int.{ℤ, pos, negsuc}

mutual
  pub data Json : Type 0 where
    null : Json
    boolean : Bool → Json
    integer : ℤ → Json
    -- a number with a point or an exponent, as it is written
    decimal : List ℕ → Json
    text : List ℕ → Json
    array : Items → Json
    object : Fields → Json

  pub data Items : Type 0 where
    end : Items
    item : Json → Items → Items

  pub data Fields : Type 0 where
    done : Fields
    field : List ℕ → Json → Fields → Fields

-- The digits of a number: `n` rounds are enough, since each leaves a tenth.
unfoldable pub digits : ℕ → ℕ → List ℕ
digits zero n = []
digits (suc fuel) n =
    let more = digits fuel (n / 10) in
    if ltb n 10 then (48 + n) ∷ [] else more ++ (48 + n % 10) ∷ []

-- `str(n)`
unfoldable pub str_int : ℤ → List ℕ
str_int (pos n) = digits (suc n) n
str_int (negsuc n) = 45 ∷ digits (suc (suc n)) (suc n)

unfoldable mutual
  pub stringify_ints : Json → Json
  stringify_ints null = null
  stringify_ints (boolean b) = boolean b
  stringify_ints (integer n) = text (str_int n)
  stringify_ints (decimal s) = decimal s
  stringify_ints (text s) = text s
  stringify_ints (array xs) = array (stringify_items xs)
  stringify_ints (object fs) = object (stringify_fields fs)

  pub stringify_items : Items → Items
  stringify_items end = end
  stringify_items (item x xs) = item (stringify_ints x) (stringify_items xs)

  pub stringify_fields : Fields → Fields
  stringify_fields done = done
  stringify_fields (field k x fs) = field k (stringify_ints x) (stringify_fields fs)
