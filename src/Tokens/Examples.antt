-- ===== src/Tokens/Examples.antt =====
-- A ledger in memory: the demonstration book is minted and settled.
use tradeguard_canton.Prelude.{String, ◌≡◌, refl, subst, none, some, List, [], ◌∷◌, ◌++◌, arith}
use tradeguard_canton.Prelude.Int.{ℤ, pos, ◌≤ℤ◌, ◌+ℤ◌, ◌-ℤ◌, neg, min_ℤ}
use tradeguard_canton.Prelude.Keys.{str_dec}
use tradeguard_canton.Prelude.Dict.{Dict}
use tradeguard_canton.Prelude.Actions.{bind}
use tradeguard_canton.Prelude.Sorting.{sort}
use tradeguard_canton.Netting.{
  gross, transferred, post_obligation, post_all, net_positions, owing, due, match_greedily,
  minimal_settlement, netting_report,
}
use tradeguard_canton.Netting.Positions.{outgoing}
use tradeguard_canton.Netting.Greedy.{sent}
use tradeguard_canton.Tokens.{
  Holding, TokenApi, Payment, created, largest, holding_cid_for, no_holding,
}
use tradeguard_canton.Tokens.Minting.{outflow, mintings, mint_each, mint_book}
use tradeguard_canton.Tokens.Minting.Held.{Holds, mint_book-Covers}
use tradeguard_canton.Prelude.{Option, ite, ◌≢◌, Bool, true, false, ap}
use tradeguard_canton.Solver.Model.{same}
use tradeguard_canton.Prelude.Dict.{lookup}
use tradeguard_canton.Prelude.Int.{int_laws}
use tradeguard_canton.Tokens.Threaded.{
  TokenReport, failed, token_obligation, token_obligations, gather, settle_gathered, settle_token,
}
use tradeguard_canton.Tokens.Cross.Settles as CrossSettles
use tradeguard_canton.Tokens.Cross.{CrossReport, InstrumentSummary}
use tradeguard_canton.Tokens.Cross as Cross

abbrev memory : TokenApi (List Holding)
memory = record {
  query_holdings = λ w. (some w, w);
  create_holding = λ instrument owner amount w. (
    none,
    record { contract_id = owner; owner = owner; instrument = instrument; amount = amount } ∷ w,
  );
  create_settlement = λ reference legs ids w. (created (some reference), w);
  query_settlements = λ w. (some [], w);
  execute_threaded = λ cid senders w. (none, w);
  execute_multi = λ cid funding w. (none, w);
}

abbrev parties : Dict String String
parties = ("firma", "FirmA::1") ∷ ("firmb", "FirmB::1") ∷ ("firmc", "FirmC::1") ∷ []

abbrev pay : String → String → ℤ → String → Payment
pay payer payee amount instrument = record {
  payer = payer;
  payee = payee;
  amount = amount;
  instrument = instrument;
}

abbrev demo_book : List Payment
demo_book =
    pay "firma" "firmb" (pos 10000) "USDCx"
    ∷ pay "firmb" "firmc" (pos 6000) "USDCx"
    ∷ pay "firmc" "firma" (pos 4000) "USDCx"
    ∷ pay "firma" "firmc" (pos 5000) "USDCx"
    ∷ pay "firmb" "firma" (pos 3000) "USDCx"
    ∷ []

abbrev demo_book_multi : List Payment
demo_book_multi =
    demo_book
    ++ pay "firma" "firmb" (pos 4500) "WrappedAmulet"
      ∷ pay "firmb" "firmc" (pos 2500) "WrappedAmulet"
      ∷ pay "firmc" "firma" (pos 2000) "WrappedAmulet"
      ∷ []

abbrev holding : String → ℤ → String → Holding
holding owner amount instrument = record {
  contract_id = owner;
  owner = owner;
  instrument = instrument;
  amount = amount;
}

abbrev minted : List Holding
minted =
    holding "FirmC::1" (pos 4000) "USDCx"
    ∷ holding "FirmB::1" (pos 9000) "USDCx"
    ∷ holding "FirmA::1" (pos 15000) "USDCx"
    ∷ []

mint_book_runs : (mint_book memory parties "USDCx" demo_book []).1 ≡ minted
unfolding mint_book mint_each mintings outflow bind str_dec ◌+ℤ◌
mint_book_runs = refl

abbrev token_report : TokenReport
token_report = record {
  gross_value = pos 28000;
  residual_count = 2;
  net_value = pos 8000;
  netting_efficiency_pct = pos 714;
  residual_legs =
      record { sender = "FirmA::1"; receiver = "FirmC::1"; amount = pos 7000; instrument = "USDCx" }
      ∷ record {
        sender = "FirmA::1";
        receiver = "FirmB::1";
        amount = pos 1000;
        instrument = "USDCx";
      }
      ∷ [];
  settlement_cid = "token-USDCx";
}

-- Without minting there is nothing to fund the first leg.
settle_token_unfunded :
    (settle_token memory parties "USDCx" demo_book []).0
    ≡ some (failed (no_holding "firma" "USDCx"))
unfolding settle_token token_obligations token_obligation netting_report minimal_settlement
    net_positions post_all post_obligation owing due match_greedily gross transferred sort bind
    gather holding_cid_for largest settle_gathered str_dec ◌+ℤ◌ ◌-ℤ◌ neg min_ℤ
settle_token_unfunded = refl

-- The amounts of the holdings of the first firm.
abbrev total : List Holding → ℤ
total [] = pos 0
total (h ∷ hs) =
    ite (str_dec h.owner "FirmA::1") (ite (str_dec h.instrument "USDCx") h.amount (pos 0)) (pos 0)
    +ℤ total hs

is_firma : lookup str_dec "firma" parties ≡ some "FirmA::1"
unfolding str_dec
is_firma = refl

no_error :
    (error : String)
    → lookup {V = Option String} str_dec "firma"
        (("firma", none) ∷ ("firmb", none) ∷ ("firmc", none) ∷ [])
      ≢ some (some error)
unfolding str_dec
no_error error e = absurd (differ e)
  where
    differ : ◌≡◌ {A = Option (Option String)} (some none) (some (some error)) → ⊥
    differ e = cc

memory-Holds : Holds memory "USDCx" "FirmA::1"
unfolding str_dec
memory-Holds = record {
  held = total;
  added = λ amount w e. ints amount (total w);
  refused = λ amount w s e. absurd (kept s e);
  elsewhere = λ other amount w ne. not_mine other amount (total w) ne;
}
  where
    ints : (a b : ℤ) → a +ℤ b ≡ b +ℤ a
    ints a b = omega int_laws

    kept : (s : String) → none ≡ some s → ⊥
    kept s e = cc

    not_mine :
        (other : String) (amount b : ℤ)
        → other ≢ "FirmA::1"
        → ite (str_dec other "FirmA::1") amount (pos 0) +ℤ b ≡ b
    not_mine other amount b ne = grind int_laws

own_key : (k : String) → lookup str_dec k parties ≡ some "FirmA::1" → k ≡ "firma"
unfolding str_dec
own_key k e = elim (str_dec k "firma") [
  | yes f ↦ f
  | no n ↦ elim (str_dec k "firmb") [
    | yes f ↦ absurd (b_is_other (subst (λ j. lookup str_dec j parties ≡ some "FirmA::1") f e))
    | no m ↦ elim (str_dec k "firmc") [
      | yes f ↦ absurd (c_is_other (subst (λ j. lookup str_dec j parties ≡ some "FirmA::1") f e))
      | no l ↦ ground arith
    ]
  ]
]
  where
    clash : false ≡ true → ⊥
    clash e = cc

    is_a : Option String → Bool
    is_a none = false
    is_a (some s) = same s "FirmA::1"

    b_is_other : ◌≡◌ {A = Option String} (some "FirmB::1") (some "FirmA::1") → ⊥
    b_is_other e = clash (ap is_a e)

    c_is_other : ◌≡◌ {A = Option String} (some "FirmC::1") (some "FirmA::1") → ⊥
    c_is_other e = clash (ap is_a e)

firma_is_minted :
    (mint_book memory parties "USDCx" demo_book []).0
    ≡ some (("firma", none) ∷ ("firmb", none) ∷ ("firmc", none) ∷ [])
unfolding mint_book mint_each mintings outflow bind str_dec ◌+ℤ◌
firma_is_minted = refl

mint_book-Covers_example :
    (memory-Holds.held (mint_book memory parties "USDCx" demo_book []).1
      ≡ memory-Holds.held [] +ℤ outgoing "firma" (token_obligations "USDCx" demo_book))
    × (memory-Holds.held []
          +ℤ sent "firma" (minimal_settlement (token_obligations "USDCx" demo_book) "USDCx")
        ≤ℤ memory-Holds.held (mint_book memory parties "USDCx" demo_book []).1)
mint_book-Covers_example =
    mint_book-Covers memory parties "USDCx" "firma" "FirmA::1" memory-Holds demo_book []
      (("firma", none) ∷ ("firmb", none) ∷ ("firmc", none) ∷ []) is_firma own_key
      (omega arith, (omega arith, (omega arith, (omega arith, (omega arith, tt))))) firma_is_minted
      no_error

abbrev usdc : InstrumentSummary
usdc = record {
  gross_value = pos 28000;
  net_value = pos 8000;
  residual_count = 2;
  netting_efficiency_pct = pos 714;
}

abbrev amulet : InstrumentSummary
amulet = record {
  gross_value = pos 9000;
  net_value = pos 2500;
  residual_count = 2;
  netting_efficiency_pct = pos 722;
}

abbrev multi_report : CrossReport
multi_report = record {
  instruments = "USDCx" ∷ "WrappedAmulet" ∷ [];
  report_by_instrument = ("USDCx", usdc) ∷ ("WrappedAmulet", amulet) ∷ [];
  total_gross = pos 37000;
  total_net = pos 10500;
  leg_count = 4;
  settlement_cid = "cross-token";
}

abbrev minted_multi : List Holding
minted_multi = holding "FirmA::1" (pos 4500) "WrappedAmulet" ∷ minted
