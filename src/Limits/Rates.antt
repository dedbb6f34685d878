-- ===== src/Limits/Rates.antt =====
-- The rates that the solver values with and the contracts that a batch carries.
use tradeguard_canton.Prelude.{
  String, ◌≡◌, refl, none, some, List, [], ◌∷◌, arith, inl, inr, Option-cases,
}
use tradeguard_canton.Prelude.Int.{ℤ}
use tradeguard_canton.Limits.{
  Contract, LedgerApi, LedgerFxRate, text_at, amount_at, read_fx_rate, read_all, load_fx_rates,
  fx_rate_cids, fx_triples, ids_of,
}

-- A contract that writes the triple of a rate.
pub record SameRate (c : Contract) (t : String × String × ℤ) : Type 0 where
  pub base : text_at "base" c.payload ≡ some t.0
  pub quote : text_at "quote" c.payload ≡ some t.1
  pub rate : amount_at "rate" c.payload ≡ some t.2

abbrev pub SameRates : List Contract → List (String × String × ℤ) → Type 0
SameRates [] [] = Unit
SameRates (c ∷ cs) (t ∷ ts) = SameRate c t × SameRates cs ts
SameRates _ _ = ⊥

read_fx_rate-SameRate :
    (c : Contract) (r : LedgerFxRate)
    → read_fx_rate c ≡ some r
    → (r.cid ≡ c.contract_id) × SameRate c (r.base, r.quote, r.rate)
unfolding read_fx_rate
read_fx_rate-SameRate c r h = elim (Option-cases (text_at "base" c.payload)) [
  | inl e ↦ absurd (nothing (simp (read_fx_rate, e) at h))
  | inr (base, e) ↦ elim (Option-cases (text_at "quote" c.payload)) [
    | inl f ↦ absurd (nothing (simp (read_fx_rate, e, f) at h))
    | inr (quote, f) ↦ elim (Option-cases (amount_at "rate" c.payload)) [
      | inl g ↦ absurd (nothing (simp (read_fx_rate, e, f, g) at h))
      | inr (rate, g) ↦
          let same = unwrap (simp (read_fx_rate, e, f, g) at h) in
          rw same (refl, record { base = e; quote = f; rate = g })
    ]
  ]
]
  where
    nothing : none ≡ some r → ⊥
    nothing e = cc

    unwrap : {x : LedgerFxRate} → some x ≡ some r → r ≡ x
    unwrap e = ground arith

read_all-SameRates :
    (cs : List Contract) (rs : List LedgerFxRate)
    → read_all read_fx_rate cs ≡ some rs
    → (fx_rate_cids rs ≡ ids_of cs) × SameRates cs (fx_triples rs)
unfolding fx_rate_cids fx_triples
read_all-SameRates [] rs h = rw (← unwrap h) (refl, tt)
  where
    unwrap : {x : List LedgerFxRate} → some x ≡ some rs → x ≡ rs
    unwrap e = ground arith
read_all-SameRates (c ∷ cs) rs h = elim (Option-cases (read_fx_rate c)) [
  | inl e ↦ absurd (nothing (simp (read_all, e) at h))
  | inr (r, e) ↦ elim (Option-cases (read_all read_fx_rate cs)) [
    | inl f ↦ absurd (nothing (simp (read_all, e, f) at h))
    | inr (rest, f) ↦
        let first = read_fx_rate-SameRate c r e in
        let others = read_all-SameRates cs rest f in
        rw (← unwrap (simp (read_all, e, f) at h)) (cons_same first.0 others.0, (first.1, others.1))
  ]
]
  where
    nothing : none ≡ some rs → ⊥
    nothing e = cc

    unwrap : {x : List LedgerFxRate} → some x ≡ some rs → x ≡ rs
    unwrap e = ground arith

    cons_same : {x y : String} {xs ys : List String} → x ≡ y → xs ≡ ys → x ∷ xs ≡ y ∷ ys
    cons_same e f = cc

-- The rates that the solver values with and the rate contracts that a batch carries are the same:
-- if the rates can be loaded, the batch names every contract of the query, in its order, and the
-- solver has for each the base, the quote and the number that it writes.
pub load_fx_rates-SameRates :
    {World : Type 0} (api : LedgerApi World) (w : World) (cs : List Contract)
    (rs : List LedgerFxRate)
    → (api.query "TradeGuard.Netting:FXRate" w).0 ≡ some cs
    → (load_fx_rates api w).0 ≡ some rs
    → (fx_rate_cids rs ≡ ids_of cs) × SameRates cs (fx_triples rs)
unfolding load_fx_rates
load_fx_rates-SameRates api w cs rs e h = read_all-SameRates cs rs (rw e at h)
