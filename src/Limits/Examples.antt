-- ===== src/Limits/Examples.antt =====
-- A ledger of two credit limits in memory.
use tradeguard_canton.Prelude.{String, true, false, not, ◌≡◌, refl, none, some, List, [], ◌∷◌, keep}
use tradeguard_canton.Prelude.Int.{ℤ, pos}
use mathlib.Core.Logic.{◌↔◌}
use tradeguard_canton.Prelude.Keys.{str_dec}
use tradeguard_canton.Solver.Model.{same}
use tradeguard_canton.Limits.{
  Contract, text, amount, LedgerApi, LedgerLimit, ids_of, archive_each, clear_verified, load_limits,
  to_solver_limits, limit_cids, read_limit, verdict, clear_all_of,
}
use tradeguard_canton.Limits.Verdict.{clear_verified-ok}
use tradeguard_canton.Limits.{LedgerFxRate, load_fx_rates, read_fx_rate}
use tradeguard_canton.Limits.Clearing.{Lawful, clear_verified-clears}
use tradeguard_canton.Limits.Sharing.{SameLimits, load_limits-SameLimits}

abbrev credit_limit : String → String → ℤ → Contract
credit_limit cid to limit = record {
  contract_id = cid;
  payload = ("from", text "FirmA::12") ∷ ("to", text to) ∷ ("limit", amount limit) ∷ [];
}

abbrev book : List Contract
book = credit_limit "c1" "FirmB::34" (pos 3000) ∷ credit_limit "c2" "FirmC::56" (pos 2000) ∷ []

-- Archives remove their contract.
abbrev memory : LedgerApi (List Contract)
memory = record {
  query = λ template w. (some w, w);
  exercise = λ template cid choice actors w.
      (none, keep (λ (d : Contract). not (same d.contract_id cid)) w);
}

-- Archives are refused.
abbrev frozen : LedgerApi (List Contract)
frozen = record {
  query = λ template w. (some w, w);
  exercise = λ template cid choice actors w. (some "refused", w);
}

abbrev nobody : Contract → List String
nobody c = []

abbrev memory_lawful : Lawful memory "CreditLimit"
memory_lawful = record { contents = λ w. w; shows = λ w. refl; removes = λ cid actors w h. refl }

no_errors : (archive_each memory "CreditLimit" nobody book book).0 ≡ []
unfolding archive_each
no_errors = refl

clear_verified-clears_example :
    ((clear_verified memory "CreditLimit" nobody book).0.ok ≡ true)
    × ((clear_verified memory "CreditLimit" nobody book).0.cleared ≡ 2)
clear_verified-clears_example =
    clear_verified-clears memory "CreditLimit" nobody memory_lawful book no_errors

clear_verified-ok_example : ((clear_verified memory "CreditLimit" nobody book).0.ok ≡ true) ↔ (
    (cs : List Contract) × ((memory.query "CreditLimit" book).0 ≡ some cs)
    × ((memory.query "CreditLimit"
          (archive_each memory "CreditLimit" nobody cs (memory.query "CreditLimit" book).1).1).0
        ≡ some []))
clear_verified-ok_example = clear_verified-ok memory "CreditLimit" nobody book

not_cleared : (clear_verified frozen "CreditLimit" nobody book).0.ok ≡ false
unfolding clear_verified clear_all_of archive_each verdict
not_cleared = refl

abbrev loaded : List LedgerLimit
loaded =
    record { cid = "c1"; frm = "FirmA::12"; to = "FirmB::34"; currency = "USD"; limit = pos 3000 }
    ∷ record { cid = "c2"; frm = "FirmA::12"; to = "FirmC::56"; currency = "USD"; limit = pos 2000 }
    ∷ []

is_loaded : (load_limits memory book).0 ≡ some loaded
unfolding load_limits read_limit str_dec
is_loaded = refl

load_limits-SameLimits_example :
    (limit_cids loaded ≡ ids_of book) × SameLimits book (to_solver_limits loaded)
load_limits-SameLimits_example = load_limits-SameLimits memory book book loaded refl is_loaded

abbrev rates : List Contract
rates =
    record {
      contract_id = "r1";
      payload = ("base", text "EUR") ∷ ("quote", text "USD") ∷ ("rate", amount (pos 110)) ∷ [];
    }
    ∷ []

abbrev loaded_rates : List LedgerFxRate
loaded_rates = record { cid = "r1"; base = "EUR"; quote = "USD"; rate = pos 110; signers = [] } ∷ []

are_loaded : (load_fx_rates memory rates).0 ≡ some loaded_rates
unfolding load_fx_rates read_fx_rate str_dec
are_loaded = refl
