-- ===== src/Policy.antt =====
-- agent/policy.py: a risk policy in words becomes weights and limits for the solver. What the
-- language model answers (`_call_claude`), and what the regular expressions of `_parse_rules` find
-- in a clause, are arguments; the sentence `interpretation` is left out. Weights are in hundredths.
pub mod Parsing
pub mod Known
mod Examples
use Prim.Native.Char.{code}
use tradeguard_canton.Prelude.{
  ℕ, suc, ◌-◌, String, Bool, true, false, not, ◌&&◌, ◌||◌, ◌==◌, leb, Option, none, some, List, [],
  ◌∷◌, ◌++◌, keep, length, if◌then◌else◌,
}
use tradeguard_canton.Prelude.Int.{ℤ, pos, negsuc, leb_ℤ}
use tradeguard_canton.Prelude.Dict.{Dict, insert}
use tradeguard_canton.Solver.Model.{CreditLimit, Weights, same, member}
use tradeguard_canton.Solver.OneCurrency.{pair_dec, is_empty}
use tradeguard_canton.Settling.{all_same, lowered}

pub record PolicyContext : Type 0 where
  pub parties : List String
  pub currencies : List String

pub data Source : Type 0 where
  llm rules invalid : Source

-- An entry of the answer of the language model; a number that `float` refuses is `none`.
pub record RawWeight : Type 0 where
  pub payer : String
  pub receiver : String
  pub weight : Option ℤ

pub record RawLimit : Type 0 where
  pub frm : String
  pub to : String
  pub currency : Option String
  pub limit : Option ℤ

pub record RawPolicy : Type 0 where
  pub objective_weights : List RawWeight
  pub credit_limits : List RawLimit

pub data Note : Type 0 where
  dropped_weight : RawWeight → Note
  dropped_limit : RawLimit → Note
  -- "rules backend recognized no clauses", "could not interpret the policy into any constraint"
  no_clauses not_interpreted : Note

pub record Policy : Type 0 where
  pub objective_weights : Weights
  pub credit_limits : List CreditLimit
  pub source : Source
  pub errors : List Note

-- `valid`
unfoldable pub is_valid : Policy → Bool
is_valid p = elim p.source [ invalid ↦ false | _ ↦ true ]

unfoldable pub is_alnum : ℕ → Bool
is_alnum c = (leb 97 c && leb c 122) || (leb 48 c && leb c 57)

-- `re.sub(r"[^a-z0-9]", "", name.lower())`
unfoldable pub folded : String → List ℕ
folded name = keep is_alnum (lowered name)

abbrev pub same_codes : List ℕ → List ℕ → Bool
same_codes a b = all_same (λ x y. x == y) a b

-- `a.endswith(b)`
unfoldable pub codes_end_with : List ℕ → List ℕ → Bool
codes_end_with [] b = is_empty b
codes_end_with (c ∷ a) b = let rest = codes_end_with a b in same_codes (c ∷ a) b || rest

-- The first party that passes a test.
unfoldable pub first_party : (String → Bool) → List String → Option String
first_party test [] = none
first_party test (p ∷ ps) = let later = first_party test ps in if test p then some p else later

-- The two loops of `norm_party`: the same name, and then a name that ends so.
unfoldable pub norm_party : PolicyContext → String → Option String
norm_party ctx name =
    let target = folded name in
    let by_suffix =
      first_party (λ p. codes_end_with (folded p) target && not (is_empty target)) ctx.parties in
    if same name ""
    then none
    else elim (first_party (λ p. same_codes (folded p) target) ctx.parties) [
      | some p ↦ some p
      | none ↦ by_suffix
    ]

abbrev pub default_ccy : List String → String
default_ccy [] = "USD"
default_ccy (c ∷ cs) = c

abbrev pub upper_code : ℕ → ℕ
upper_code c = if leb 97 c && leb c 122 then c - 32 else c

abbrev pub is_space : ℕ → Bool
is_space c = c == 32 || (leb 9 c && leb c 13)

abbrev pub drop_spaces : List ℕ → List ℕ
drop_spaces [] = []
drop_spaces (c ∷ cs) = let rest = drop_spaces cs in if is_space c then rest else c ∷ cs

abbrev pub reverse_onto : List ℕ → List ℕ → List ℕ
reverse_onto [] ys = ys
reverse_onto (x ∷ xs) ys = reverse_onto xs (x ∷ ys)

unfoldable pub uppered : String → List ℕ
uppered String.[] = []
uppered (String.◌∷◌ c s) = upper_code (code c) ∷ uppered s

unfoldable pub codes : String → List ℕ
codes String.[] = []
codes (String.◌∷◌ c s) = code c ∷ codes s

-- `name.strip().upper()` as code points, for the letters and spaces of ASCII
unfoldable pub stripped : String → List ℕ
stripped name = reverse_onto (drop_spaces (reverse_onto (drop_spaces (uppered name)) [])) []

-- `norm_ccy`
unfoldable pub norm_ccy : PolicyContext → Option String → String
norm_ccy ctx none = default_ccy ctx.currencies
norm_ccy ctx (some name) =
    if same name ""
    then default_ccy ctx.currencies
    else elim (first_party (λ c. same_codes (codes c) (stripped name)) ctx.currencies) [
      | some c ↦ c
      | none ↦ default_ccy ctx.currencies
    ]
