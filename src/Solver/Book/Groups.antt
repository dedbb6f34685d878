-- ===== src/Solver/Book/Groups.antt =====
-- `_by_currency` puts each obligation into its currency's group, and sorting keeps the groups.
use tradeguard_canton.Prelude.{
  String, ◌≡◌, refl, ◌≢◌, ◌∙◌, ap, sym, none, some, Option, List, [], ◌∷◌, ◌++◌, keep, arith,
  append_assoc, append-nil, ite,
}
use tradeguard_canton.Prelude.Keys.{str_dec}
use tradeguard_canton.Prelude.Dict.{
  Dict, lookup, get_or, insert, IsUnique, insert-IsUnique, get_or-insert_self, get_or-insert_ne,
}
use tradeguard_canton.Prelude.Sorting.{sort, insert_sorted}
use tradeguard_canton.Netting.{Obligation}
use tradeguard_canton.Solver.Model.{same}
use tradeguard_canton.Solver.Book.{group_all, by_currency, by_name}

module _ {A : Type 0} (key : A → String) where
  -- The elements with one key, in their order.
  abbrev pub with_key : String → List A → List A
  with_key c xs = keep (λ x. same c (key x)) xs

  pub group_all-get :
      (c : String) (d : Dict String (List A)) (xs : List A)
      → get_or str_dec c [] (group_all key d xs) ≡ get_or str_dec c [] d ++ with_key c xs
  unfolding group_all
  group_all-get c d [] = sym (append-nil _)
  group_all-get c d (x ∷ xs) =
      group_all-get c (insert str_dec (key x) (get_or str_dec (key x) [] d ++ x ∷ []) d) xs ∙ step
    where
      here : c ≡ key x → with_key c (x ∷ xs) ≡ x ∷ with_key c xs
      here e = ground arith

      elsewhere : c ≢ key x → with_key c (x ∷ xs) ≡ with_key c xs
      elsewhere e = ground arith

      at_key :
          c ≡ key x
          → get_or str_dec c [] (insert str_dec (key x) (get_or str_dec (key x) [] d ++ x ∷ []) d)
            ≡ get_or str_dec c [] d ++ x ∷ []
      at_key e =
          rw e (get_or-insert_self str_dec (key x) (get_or str_dec (key x) [] d ++ x ∷ []) [] d)

      step :
          get_or str_dec c [] (insert str_dec (key x) (get_or str_dec (key x) [] d ++ x ∷ []) d)
            ++ with_key c xs
          ≡ get_or str_dec c [] d ++ with_key c (x ∷ xs)
      step = elim (str_dec c (key x)) [
        | yes e ↦ rw (here e, at_key e) (append_assoc (get_or str_dec c [] d) (x ∷ []) _)
        | no ne ↦
            rw
              (
                elsewhere ne,
                get_or-insert_ne str_dec c (key x) (get_or str_dec (key x) [] d ++ x ∷ []) [] d ne,
              )
              refl
      ]

  pub group_all-IsUnique :
      (d : Dict String (List A)) (xs : List A)
      → IsUnique str_dec d
      → IsUnique str_dec (group_all key d xs)
  unfolding group_all
  group_all-IsUnique d [] h = h
  group_all-IsUnique d (x ∷ xs) h =
      group_all-IsUnique (insert str_dec (key x) (get_or str_dec (key x) [] d ++ x ∷ []) d) xs
        (insert-IsUnique str_dec (key x) (get_or str_dec (key x) [] d ++ x ∷ []) d h)

-- The obligations of one currency, in their order.
abbrev pub in_currency : String → List Obligation → List Obligation
in_currency c os = with_key (λ o. o.instrument) c os

pub by_currency-in_currency :
    (c : String) (os : List Obligation) → get_or str_dec c [] (by_currency os) ≡ in_currency c os
unfolding by_currency
by_currency-in_currency c os = group_all-get (λ o. o.instrument) c [] os

pub by_currency-IsUnique : (os : List Obligation) → IsUnique str_dec (by_currency os)
unfolding by_currency
by_currency-IsUnique os = group_all-IsUnique (λ o. o.instrument) [] os tt

-- Sorting a dict's items by their keys finds the same under each key.
module _ {A : Type 0} where
  lookup-insert_sorted :
      (c k : String) (x : A) (d : Dict String A)
      → lookup str_dec k d ≡ none
      → lookup str_dec c (insert_sorted by_name (k, x) d) ≡ lookup str_dec c ((k, x) ∷ d)
  lookup-insert_sorted c k x [] h = refl
  lookup-insert_sorted c k x ((j, y) ∷ d) h = ground (arith, lookup-insert_sorted c k x d)

  pub sort-lookup :
      (c : String) (d : Dict String A)
      → IsUnique str_dec d
      → lookup str_dec c (sort by_name d) ≡ lookup str_dec c d
  unfolding sort
  sort-lookup c [] h = refl
  sort-lookup c ((k, x) ∷ d) h =
      lookup-insert_sorted c k x (sort by_name d) (sort-lookup k d h.1 ∙ h.0)
      ∙ ap (λ o. ite (str_dec c k) (some x) o) (sort-lookup c d h.1)

  insert_sorted-IsUnique :
      (k : String) (x : A) (d : Dict String A)
      → IsUnique str_dec ((k, x) ∷ d)
      → IsUnique str_dec (insert_sorted by_name (k, x) d)
  insert_sorted-IsUnique k x [] h = h
  insert_sorted-IsUnique k x ((j, y) ∷ d) h =
      ground (arith, insert_sorted-IsUnique k x d, lookup-insert_sorted j k x d)

  pub sort-IsUnique : (d : Dict String A) → IsUnique str_dec d → IsUnique str_dec (sort by_name d)
  unfolding sort
  sort-IsUnique [] h = h
  sort-IsUnique ((k, x) ∷ d) h =
      insert_sorted-IsUnique k x (sort by_name d) (sort-lookup k d h.1 ∙ h.0, sort-IsUnique d h.1)

  pub get_or_of_lookup :
      (z : A) (c : String) (d e : Dict String A)
      → lookup str_dec c d ≡ lookup str_dec c e
      → get_or str_dec c z d ≡ get_or str_dec c z e
  get_or_of_lookup z c d e h = by_lookup d ∙ ap or_z h ∙ sym (by_lookup e)
    where
      or_z : Option A → A
      or_z none = z
      or_z (some x) = x

      by_lookup : (d : Dict String A) → get_or str_dec c z d ≡ or_z (lookup str_dec c d)
      by_lookup [] = ground arith
      by_lookup ((k, x) ∷ d) = ground (arith, by_lookup d)
