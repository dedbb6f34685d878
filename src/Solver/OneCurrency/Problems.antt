-- ===== src/Solver/OneCurrency/Problems.antt =====
-- Which constraints stand in the problem of `_solve_one_currency`: a row for each payer and each
-- receiver, and under each limit's name the last one, which is the one in `capped` too.
use tradeguard_canton.Prelude.{
  String, ◌≡◌, refl, ◌≢◌, some, List, [], ◌∷◌, arith, All, All-map, ap, sym, ◌∙◌, keep,
}
use tradeguard_canton.Prelude.Int.{ℤ, pos}
use tradeguard_canton.Prelude.Dict.{Dict, lookup, insert, lookup-insert_self, lookup-insert_ne}
use mathlib.Core.Option
use tradeguard_canton.Solver.Model.{CreditLimit, Weights}
use tradeguard_canton.Solver.Lp.{
  flow, Name, conserve_payer, conserve_receiver, limit, name_dec, Constraint, le,
}
use tradeguard_canton.Solver.OneCurrency.{
  add_all, capped_of, add_caps, cap_row, pair_dec, payers_of, receivers_of, payer_row, receiver_row,
  applies, netting_problem,
}

module _ (name : String → Name) (constraint : String → Constraint)
    (same_row : (a b : String) → name a ≡ name b → constraint a ≡ constraint b) where
  -- A row that stands there stays, since another of its name is the same.
  add_all-keeps :
      (a : String) (ps : List String) (d : Dict Name Constraint)
      → lookup name_dec (name a) d ≡ some (constraint a)
      → lookup name_dec (name a) (add_all name constraint ps d) ≡ some (constraint a)
  unfolding add_all
  add_all-keeps a [] d h = h
  add_all-keeps a (p ∷ ps) d h =
      add_all-keeps a ps (insert name_dec (name p) (constraint p) d)
        (elim (name_dec (name a) (name p)) [
          | yes e ↦ rw e (
              lookup-insert_self name_dec (name p) (constraint p) d
              ∙ ap some (sym (same_row a p e)))
          | no e ↦ lookup-insert_ne name_dec (name a) (name p) (constraint p) d e ∙ h
        ])

  -- Every party of the loop has its row.
  pub add_all-rows :
      (ps : List String) (d : Dict Name Constraint)
      → All (λ p. lookup name_dec (name p) (add_all name constraint ps d) ≡ some (constraint p)) ps
  unfolding add_all
  add_all-rows [] d = tt
  add_all-rows (p ∷ ps) d = (
    add_all-keeps p ps (insert name_dec (name p) (constraint p) d)
        (lookup-insert_self name_dec (name p) (constraint p) d),
    add_all-rows ps (insert name_dec (name p) (constraint p) d),
  )

-- A loop leaves the rows of other names.
pub add_all-others :
    (name : String → Name) (constraint : String → Constraint) (n : Name) (ps : List String)
    (d : Dict Name Constraint)
    → ((p : String) → n ≢ name p)
    → lookup name_dec n (add_all name constraint ps d) ≡ lookup name_dec n d
unfolding add_all
add_all-others name con n [] d h = refl
add_all-others name con n (p ∷ ps) d h =
    add_all-others name con n ps (insert name_dec (name p) (con p) d) h
    ∙ lookup-insert_ne name_dec n (name p) (con p) d (h p)

pub add_caps-others :
    (n : Name) (cls : List CreditLimit) (d : Dict Name Constraint)
    → ((p q : String) → n ≢ limit p q)
    → lookup name_dec n (add_caps cls d) ≡ lookup name_dec n d
unfolding add_caps
add_caps-others n [] d h = refl
add_caps-others n (cl ∷ cls) d h =
    add_caps-others n cls (insert name_dec (limit cl.frm cl.to) (cap_row cl) d) h
    ∙ lookup-insert_ne name_dec n (limit cl.frm cl.to) (cap_row cl) d (h cl.frm cl.to)

-- The row of a cap.
abbrev pub capped_row : String → String → ℤ → Constraint
capped_row p q cap = record { terms = (pos 1, flow p q) ∷ []; relation = le; bound = cap }

module _ (p q : String) (cl : CreditLimit) (d : Dict Name Constraint)
    (c : Dict (String × String) ℤ) where
  other_cap :
      ◌≢◌ {A = String × String} (p, q) (cl.frm, cl.to)
      → lookup name_dec (limit p q) d ≡ Option.map (capped_row p q) (lookup pair_dec (p, q) c)
      → lookup name_dec (limit p q) (insert name_dec (limit cl.frm cl.to) (cap_row cl) d)
        ≡ Option.map
            (capped_row p q)
            (lookup pair_dec (p, q) (insert pair_dec (cl.frm, cl.to) cl.limit c))
  other_cap ne h =
      rw
        (
          lookup-insert_ne name_dec (limit p q) (limit cl.frm cl.to) (cap_row cl) d
              (λ e. ne (pair_of e)),
          lookup-insert_ne pair_dec (p, q) (cl.frm, cl.to) cl.limit c ne,
        )
        h
    where
      pair_of : limit p q ≡ limit cl.frm cl.to → ◌≡◌ {A = String × String} (p, q) (cl.frm, cl.to)
      pair_of e = ground arith

-- `capped` and the constraints name the same caps.
pub add_caps-capped_of :
    (p q : String) (cls : List CreditLimit) (d : Dict Name Constraint)
    (c : Dict (String × String) ℤ)
    → lookup name_dec (limit p q) d ≡ Option.map (capped_row p q) (lookup pair_dec (p, q) c)
    → lookup name_dec (limit p q) (add_caps cls d)
      ≡ Option.map (capped_row p q) (lookup pair_dec (p, q) (capped_of cls c))
unfolding add_caps capped_of
add_caps-capped_of p q [] d c h = h
add_caps-capped_of p q (cl ∷ cls) d c h =
    add_caps-capped_of p q cls (insert name_dec (limit cl.frm cl.to) (cap_row cl) d)
      (insert pair_dec (cl.frm, cl.to) cl.limit c)
      (elim (pair_dec (p, q) (cl.frm, cl.to)) [
        | yes e ↦ same_cap (λ i. (e i).0) (λ i. (e i).1)
        | no ne ↦ other_cap p q cl d c ne h
      ])
  where
    same_cap :
        p ≡ cl.frm
        → q ≡ cl.to
        → lookup name_dec (limit p q) (insert name_dec (limit cl.frm cl.to) (cap_row cl) d)
          ≡ Option.map
              (capped_row p q)
              (lookup pair_dec (p, q) (insert pair_dec (cl.frm, cl.to) cl.limit c))
    same_cap a b = rw (
      a,
      b,
      lookup-insert_self name_dec (limit cl.frm cl.to) (cap_row cl) d,
      lookup-insert_self pair_dec (cl.frm, cl.to) cl.limit c,
    )

-- The rows of the whole problem.
module _ (currency : String) (net : Dict String ℤ) (limits : List CreditLimit)
    (weights : Weights) where
  abbrev rows : Dict Name Constraint
  rows = (netting_problem currency net limits weights).constraints

  abbrev applied : List CreditLimit
  applied = keep (applies currency (payers_of net) (receivers_of net)) limits

  abbrev paying : Dict Name Constraint
  paying = add_all conserve_payer (payer_row net (receivers_of net)) (payers_of net) []

  abbrev receiving : Dict Name Constraint
  receiving = add_all conserve_receiver (receiver_row net (payers_of net)) (receivers_of net) paying

  pub problem-payer_rows :
      All
        (λ p. lookup name_dec (conserve_payer p) rows ≡ some (payer_row net (receivers_of net) p))
        (payers_of net)
  unfolding netting_problem
  problem-payer_rows =
      All-map
        (λ p. lookup name_dec (conserve_payer p) paying ≡ some (payer_row net (receivers_of net) p))
        (λ p. lookup name_dec (conserve_payer p) rows ≡ some (payer_row net (receivers_of net) p))
        (payers_of net)
        (λ p e.
          add_caps-others (conserve_payer p) applied receiving (λ a b q. cc)
          ∙ add_all-others conserve_receiver (receiver_row net (payers_of net)) (conserve_payer p)
              (receivers_of net) paying (λ a q. cc)
          ∙ e)
        (add_all-rows conserve_payer (payer_row net (receivers_of net)) (λ a b e. cc)
          (payers_of net) [])

  pub problem-receiver_rows :
      All
        (λ q.
          lookup name_dec (conserve_receiver q) rows ≡ some (receiver_row net (payers_of net) q))
        (receivers_of net)
  unfolding netting_problem
  problem-receiver_rows =
      All-map
        (λ q.
          lookup name_dec (conserve_receiver q) receiving
          ≡ some (receiver_row net (payers_of net) q))
        (λ q.
          lookup name_dec (conserve_receiver q) rows ≡ some (receiver_row net (payers_of net) q))
        (receivers_of net)
        (λ q e. add_caps-others (conserve_receiver q) applied receiving (λ a b r. cc) ∙ e)
        (add_all-rows conserve_receiver (receiver_row net (payers_of net)) (λ a b e. cc)
          (receivers_of net) paying)

  pub problem-caps :
      (p q : String)
      → lookup name_dec (limit p q) rows
        ≡ Option.map (capped_row p q) (lookup pair_dec (p, q) (capped_of applied []))
  unfolding netting_problem
  problem-caps p q = add_caps-capped_of p q applied receiving [] (
      add_all-others conserve_receiver (receiver_row net (payers_of net)) (limit p q)
        (receivers_of net) paying (λ a e. cc)
      ∙ add_all-others conserve_payer (payer_row net (receivers_of net)) (limit p q) (payers_of net)
          [] (λ a e. cc))
