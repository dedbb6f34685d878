-- ===== src/Limits/Sharing.antt =====
-- One set of limits for the solver and for the batch.
use tradeguard_canton.Prelude.{
  String, ◌≡◌, refl, ap, none, some, List, [], ◌∷◌, arith, inl, inr, Option-cases,
}
use mathlib.Core.Option
use tradeguard_canton.Prelude.Int.{ℤ}
use tradeguard_canton.Solver.Model.{CreditLimit}
use tradeguard_canton.Limits.{
  Contract, LedgerApi, LedgerLimit, short, text_at, amount_at, currency_of, read_limit, read_all,
  load_limits, to_solver_limits, limit_cids, ids_of,
}

-- A contract and a limit of the solver that say the same.
pub record SameLimit (c : Contract) (l : CreditLimit) : Type 0 where
  pub payer : Option.map short (text_at "from" c.payload) ≡ some l.frm
  pub receiver : Option.map short (text_at "to" c.payload) ≡ some l.to
  pub cap : amount_at "limit" c.payload ≡ some l.limit
  pub same_currency : currency_of c.payload ≡ l.currency

-- Two lists that agree entry by entry.
abbrev pub SameLimits : List Contract → List CreditLimit → Type 0
SameLimits [] [] = Unit
SameLimits (c ∷ cs) (l ∷ ls) = SameLimit c l × SameLimits cs ls
SameLimits _ _ = ⊥

abbrev as_solver : LedgerLimit → CreditLimit
as_solver l = record { frm = short l.frm; to = short l.to; limit = l.limit; currency = l.currency }

abbrev built : Contract → String → String → ℤ → LedgerLimit
built c frm to limit = record {
  cid = c.contract_id;
  frm = frm;
  to = to;
  currency = currency_of c.payload;
  limit = limit;
}

-- What a row holds, when it can be read.
read_limit-built :
    (c : Contract) (l : LedgerLimit)
    → read_limit c ≡ some l
    → (frm : String) × (to : String) × (cap : ℤ) × (text_at "from" c.payload ≡ some frm)
      × (text_at "to" c.payload ≡ some to)
      × (amount_at "limit" c.payload ≡ some cap)
      × (l ≡ built c frm to cap)
unfolding read_limit
read_limit-built c l h = elim (Option-cases (text_at "from" c.payload)) [
  | inl e ↦ absurd (nothing (simp (read_limit, e) at h))
  | inr (frm, e) ↦ elim (Option-cases (text_at "to" c.payload)) [
    | inl f ↦ absurd (nothing (simp (read_limit, e, f) at h))
    | inr (to, f) ↦ elim (Option-cases (amount_at "limit" c.payload)) [
      | inl g ↦ absurd (nothing (simp (read_limit, e, f, g) at h))
      | inr (cap, g) ↦ (frm, to, cap, e, f, g, unwrap (simp (read_limit, e, f, g) at h))
    ]
  ]
]
  where
    nothing : none ≡ some l → ⊥
    nothing e = cc

    unwrap : {x : LedgerLimit} → some x ≡ some l → l ≡ x
    unwrap e = ground arith

read_limit-SameLimit :
    (c : Contract) (l : LedgerLimit)
    → read_limit c ≡ some l
    → (l.cid ≡ c.contract_id) × SameLimit c (as_solver l)
read_limit-SameLimit c l h =
    let (frm, to, cap, e, f, g, same) = read_limit-built c l h in
    rw same (
      refl,
      record {
        payer = ap (Option.map short) e;
        receiver = ap (Option.map short) f;
        cap = g;
        same_currency = refl;
      },
    )

read_all-SameLimits :
    (cs : List Contract) (ls : List LedgerLimit)
    → read_all read_limit cs ≡ some ls
    → (limit_cids ls ≡ ids_of cs) × SameLimits cs (to_solver_limits ls)
unfolding limit_cids to_solver_limits
read_all-SameLimits [] ls h = rw (← unwrap h) (refl, tt)
  where
    unwrap : {x : List LedgerLimit} → some x ≡ some ls → x ≡ ls
    unwrap e = ground arith
read_all-SameLimits (c ∷ cs) ls h = elim (Option-cases (read_limit c)) [
  | inl e ↦ absurd (nothing (simp (read_all, e) at h))
  | inr (l, e) ↦ elim (Option-cases (read_all read_limit cs)) [
    | inl f ↦ absurd (nothing (simp (read_all, e, f) at h))
    | inr (rest, f) ↦
        let first = read_limit-SameLimit c l e in
        let others = read_all-SameLimits cs rest f in
        rw (← unwrap (simp (read_all, e, f) at h)) (ap₂_cons first.0 others.0, (first.1, others.1))
  ]
]
  where
    nothing : none ≡ some ls → ⊥
    nothing e = cc

    unwrap : {x : List LedgerLimit} → some x ≡ some ls → x ≡ ls
    unwrap e = ground arith

    ap₂_cons : {x y : String} {xs ys : List String} → x ≡ y → xs ≡ ys → x ∷ xs ≡ y ∷ ys
    ap₂_cons e f = cc

-- The limits that the solver plans under and the contracts that a batch carries are the same: if
-- the limits can be loaded, then the batch names every contract of the query, in its order, and
-- the solver has for each a limit with its parties' short names, its amount and its currency.
pub load_limits-SameLimits :
    {World : Type 0} (api : LedgerApi World) (w : World) (cs : List Contract)
    (ls : List LedgerLimit)
    → (api.query "TradeGuard.Netting:CreditLimit" w).0 ≡ some cs
    → (load_limits api w).0 ≡ some ls
    → (limit_cids ls ≡ ids_of cs) × SameLimits cs (to_solver_limits ls)
unfolding load_limits
load_limits-SameLimits api w cs ls e h = read_all-SameLimits cs ls (rw e at h)
