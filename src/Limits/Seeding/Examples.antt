-- ===== src/Limits/Seeding/Examples.antt =====
-- A ledger that keeps its contracts, and gives all of them one id.
use tradeguard_canton.Prelude.{String, ◌≡◌, refl, none, some, List, [], ◌∷◌, ◌++◌}
use tradeguard_canton.Prelude.Int.{pos}
use tradeguard_canton.Prelude.Keys.{str_dec}
use tradeguard_canton.Prelude.Dict.{Dict, lookup}
use tradeguard_canton.Prelude.Actions.{bind}
use tradeguard_canton.Limits.{
  Contract, LedgerLimit, Field, text, amount, load_limits, read_limit, read_all,
}
use tradeguard_canton.Limits.Seeding.{
  SeedApi, created, seeded, seed_answer, create_constraint, all_parties, seed_limit, seed_fx_rate,
}
use tradeguard_canton.Limits.Seeding.Loading.{Keeps, seed_limit-load}

abbrev memory : SeedApi (List Contract)
memory = record {
  ledger = record {
    query = λ template w. (some w, w);
    exercise = λ template cid choice actors w. (none, w);
  };
  create_tree = λ template payload actors w.
      (created (some "NEW"), w ++ record { contract_id = "NEW"; payload = payload } ∷ []);
}

abbrev known : Dict String String
known = ("firma", "A::1") ∷ ("firmb", "B::1") ∷ []

-- One limit is there already.
abbrev old : List Contract
old =
    record {
      contract_id = "OLD";
      payload = ("from", text "B::1") ∷ ("to", text "A::1") ∷ ("limit", amount (pos 500)) ∷ [];
    }
    ∷ []

abbrev loaded : LedgerLimit
loaded = record { cid = "OLD"; frm = "B::1"; to = "A::1"; currency = "USD"; limit = pos 500 }

memory-Keeps : Keeps memory
memory-Keeps = record {
  created_last = λ template cid payload actors w rows made shown.
      kept payload w rows cid (same_cid made) (same_rows shown);
}
  where
    same_cid : {c d : String} → created (some c) ≡ created (some d) → c ≡ d
    same_cid e = cc

    same_rows : {xs ys : List Contract} → some xs ≡ some ys → xs ≡ ys
    same_rows e = cc

    kept :
        (payload : Dict String Field) (w rows : List Contract) (cid : String)
        → "NEW" ≡ cid
        → w ≡ rows
        → some (w ++ record { contract_id = "NEW"; payload = payload } ∷ [])
          ≡ some (rows ++ record { contract_id = cid; payload = payload } ∷ [])
    kept payload w rows cid e f i =
        some (f i ++ record { contract_id = e i; payload = payload } ∷ [])

is_seeded :
    (seed_limit memory known "Operator" "firma" "firmb" (pos 1000) "USD" old).0
    ≡ some (seeded "NEW")
unfolding seed_limit create_constraint seed_answer bind str_dec
is_seeded = refl

unknown_party :
    (seed_limit memory known "Operator" "firma" "firmz" (pos 1000) "USD" old) ≡ (none, old)
unfolding seed_limit bind str_dec
unknown_party = refl

rate_is_seeded :
    (seed_fx_rate memory known "Operator" "EUR" "USD" (pos 11) ("firma" ∷ "firmb" ∷ []) old).0
    ≡ some (seeded "NEW")
unfolding seed_fx_rate all_parties create_constraint seed_answer bind str_dec
rate_is_seeded = refl

is_read : read_all read_limit old ≡ some (loaded ∷ [])
unfolding read_limit str_dec
is_read = refl

seed_limit-load_example :
    (frm : String) × (to : String) × (lookup str_dec "firma" known ≡ some frm)
    × (lookup str_dec "firmb" known ≡ some to)
    × ((load_limits memory.ledger
          (seed_limit memory known "Operator" "firma" "firmb" (pos 1000) "USD" old).1).0
        ≡ some (
            loaded
            ∷ record { cid = "NEW"; frm = frm; to = to; currency = "USD"; limit = pos 1000 }
            ∷ []))
seed_limit-load_example =
    seed_limit-load memory known "Operator" "firma" "firmb" "USD" (pos 1000) old "NEW" old
      (loaded ∷ []) memory-Keeps refl is_read is_seeded
