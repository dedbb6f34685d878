-- ===== src/Client/Json/Digits.antt =====
-- The digits of an integer read back as the integer.
use tradeguard_canton.Prelude.{
  ℕ, zero, suc, ◌==◌, ◌+◌, ◌-◌, ◌*◌, ◌/◌, ◌%◌, ◌≤◌, ◌<◌, false, ◌&&◌, leb, ltb, ◌≡◌, refl, ap, ◌∙◌,
  Option, none, some, List, [], ◌∷◌, ◌++◌, if◌then◌else◌, arith, Bool-cases, inl, inr,
}
use tradeguard_canton.Prelude.Int.{ℤ, pos, negsuc, sub_ℕ}
use tradeguard_canton.Client.Json.{digits, str_int}

-- A digit after a number: `none` when it is no digit.
abbrev pub push_digit : Option ℕ → ℕ → Option ℕ
push_digit none c = none
push_digit (some n) c = if leb 48 c && leb c 57 then some (10 * n + (c - 48)) else none

abbrev pub read_from : Option ℕ → List ℕ → Option ℕ
read_from acc [] = acc
read_from acc (c ∷ cs) = read_from (push_digit acc c) cs

abbrev pub signed : (ℕ → ℤ) → Option ℕ → Option ℤ
signed f none = none
signed f (some n) = some (f n)

abbrev pub read_digits : List ℕ → Option ℕ
read_digits [] = none
read_digits (c ∷ cs) = read_from (some 0) (c ∷ cs)

-- `int(s)`: at least one digit, after a minus or nothing.
abbrev pub read_int : List ℕ → Option ℤ
read_int [] = none
read_int (c ∷ cs) =
    if c == 45
    then signed (λ n. sub_ℕ 0 n) (read_digits cs)
    else signed (λ n. pos n) (read_digits (c ∷ cs))

read_from-append :
    (acc : Option ℕ) (cs : List ℕ) (c : ℕ)
    → read_from acc (cs ++ c ∷ []) ≡ push_digit (read_from acc cs) c
read_from-append acc [] c = refl
read_from-append acc (d ∷ ds) c = read_from-append (push_digit acc d) ds c

push_digit-digit : (n d : ℕ) → d < 10 → push_digit (some n) (48 + d) ≡ some (10 * n + d)
push_digit-digit n d h = ground arith

read_from-digits : (fuel n : ℕ) → n < fuel → read_from (some 0) (digits fuel n) ≡ some n
unfolding digits
read_from-digits zero n h = absurd (omega arith)
read_from-digits (suc fuel) n h = elim (Bool-cases (ltb n 10)) [
  | inl e ↦ rw e (push_digit-digit 0 n (ground arith) ∙ ap some (omega arith))
  | inr e ↦
      let high : 10 ≤ n = ground arith in
      rw
        (
          e,
          read_from-append (some 0) (digits fuel (n / 10)) (48 + n % 10),
          read_from-digits fuel (n / 10) (omega arith),
        )
        (push_digit-digit (n / 10) (n % 10) (omega arith) ∙ ap some (omega arith))
]

-- A number has a first digit, and it is no minus.
record Leading (cs : List ℕ) : Type 0 where
  first : ℕ
  rest : List ℕ
  splits : cs ≡ first ∷ rest
  is_digit : 48 ≤ first

digits-Leading : (fuel n : ℕ) → n < fuel → Leading (digits fuel n)
unfolding digits
digits-Leading zero n h = absurd (omega arith)
digits-Leading (suc fuel) n h = elim (Bool-cases (ltb n 10)) [
  | inl e ↦ rw e (record { first = 48 + n; rest = []; splits = refl; is_digit = omega arith })
  | inr e ↦
      let high : 10 ≤ n = ground arith in
      let more = digits-Leading fuel (n / 10) (omega arith) in
      rw (e, more.splits)
        (record {
          first = more.first;
          rest = more.rest ++ (48 + n % 10) ∷ [];
          splits = refl;
          is_digit = more.is_digit;
        })
]

read_digits-digits :
    (cs : List ℕ) (n : ℕ)
    → Leading cs
    → read_from (some 0) cs ≡ some n
    → (read_digits cs ≡ some n) × (read_int cs ≡ some (pos n))
read_digits-digits [] n h e = absurd (missing h.splits)
  where
    missing : [] ≡ h.first ∷ h.rest → ⊥
    missing e = cc
read_digits-digits (c ∷ cs) n h e = (e, rw (not_minus, e) refl)
  where
    head : (c ∷ cs ≡ h.first ∷ h.rest) → c ≡ h.first
    head e = cc

    not_minus : (c == 45) ≡ false
    not_minus = let digit : 48 ≤ c = rw (head h.splits) h.is_digit in ground arith

-- `int(str(n))` is `n`.
pub read_int-str_int : (n : ℤ) → read_int (str_int n) ≡ some n
unfolding str_int
read_int-str_int (pos n) =
    (read_digits-digits (digits (suc n) n) n (digits-Leading (suc n) n (omega arith))
      (read_from-digits (suc n) n (omega arith))).1
read_int-str_int (negsuc n) =
    rw
      (read_digits-digits (digits (suc (suc n)) (suc n)) (suc n)
        (digits-Leading (suc (suc n)) (suc n) (omega arith))
        (read_from-digits (suc (suc n)) (suc n) (omega arith))).0
      (ground arith)
