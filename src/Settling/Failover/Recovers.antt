-- ===== src/Settling/Failover/Recovers.antt =====
-- What `settle_with_failover` has done, for each of its answers.
use tradeguard_canton.Prelude.{
  ℕ, String, true, false, ◌≡◌, refl, subst, Option, none, some, List, [], ◌∷◌, All,
}
use tradeguard_canton.Prelude.Actions.{bind-some}
use tradeguard_canton.Solver.Lp.{Solver}
use tradeguard_canton.Settling.{Contract, Residual, PolicyInputs, NetApi, Parties}
use tradeguard_canton.Settling.Gates.{touches_excluded}
use tradeguard_canton.Settling.Submitting.{
  Settlement, refused, batch_failed, settle_failed, settled, Receipt,
}
use tradeguard_canton.Settling.Running.{settle_real}
use tradeguard_canton.Settling.Executes.{Executed, settle_real-Executed}
use tradeguard_canton.Settling.Failover.{
  Failover, at_once, failed, no_failer, renetted, attempt, failer_of, renet, recover,
  settle_with_failover,
}

-- The answers after which nothing is tried again: all but a settled one, and an error of the
-- settlement that is not marked ambiguous.
abbrev pub IsFinal : Settlement → Type 0
IsFinal (settled r) = ⊥
IsFinal (refused why) = Unit
IsFinal (batch_failed e) = Unit
IsFinal (settle_failed e true plan) = Unit
IsFinal (settle_failed e false plan) = ⊥

module _ {World : Type 0} (solver : Solver) (api : NetApi World) (parties : Parties)
    (policy : Option PolicyInputs) (later : ℕ) where
  -- A second attempt that settles has an accepted batch, of which no obligation touches the party.
  pub record Without (party : String) (r : Receipt) (after : World) : Type 0 where
    pub executed : Executed solver api parties (attempt later policy (party ∷ []) none) r after
    pub apart :
        All
          (λ (c : Contract). touches_excluded (party ∷ []) c ≡ false)
          executed.prepared.settled_rows

  abbrev pub Second : String → World → Settlement → Type 0
  Second party after (settled r) = Without party r after
  Second party after _ = Unit

  abbrev pub again : String → World → Option Settlement × World
  again party w = settle_real solver api parties (attempt later policy (party ∷ []) none) w

  -- What an answer says of the first attempt, which ended in the state `w`, and of the last state.
  abbrev pub Follows : Option String → Settlement → World → World → Failover → Type 0
  Follows fail_party first w after (at_once r) = (first ≡ settled r) × (after ≡ w)
  Follows fail_party first w after (failed s) = (first ≡ s) × IsFinal s × (after ≡ w)
  Follows fail_party first w after (no_failer s) =
      (first ≡ s)
      × (e : String) × (plan : List Residual) × (s ≡ settle_failed e false plan)
      × (failer_of fail_party plan ≡ none)
      × (after ≡ w)
  Follows fail_party first w after (renetted party e second) =
      (plan : List Residual) × (first ≡ settle_failed e false plan)
      × (failer_of fail_party plan ≡ some party)
      × ((again party w).0 ≡ some second)
      × (after ≡ (again party w).1)
      × Second party after second

  again-Second :
      (party : String) (w : World) (second : Settlement)
      → (again party w).0 ≡ some second
      → Second party (again party w).1 second
  again-Second party w (settled r) e =
      let done =
        settle_real-Executed solver api parties (attempt later policy (party ∷ []) none) w r e in
      record { executed = done; apart = done.apart }
  again-Second party w (refused why) e = tt
  again-Second party w (batch_failed x) e = tt
  again-Second party w (settle_failed x b plan) e = tt

  some_inj : {x y : Failover} → some x ≡ some y → x ≡ y
  some_inj e = cc

  renet-Follows :
      (fail_party : Option String) (error : String) (plan : List Residual) (who : Option String)
      (w : World) (answer : Failover)
      → failer_of fail_party plan ≡ who
      → (renet solver api parties policy later error plan who w).0 ≡ some answer
      → Follows fail_party
          (settle_failed error false plan)
          w
          (renet solver api parties policy later error plan who w).1
          answer
  unfolding renet
  renet-Follows fail_party error plan none w answer f h =
      subst (λ a. Follows fail_party (settle_failed error false plan) w w a) (some_inj h)
        (refl, error, plan, refl, f, refl)
  renet-Follows fail_party error plan (some party) w answer f h =
      let (second, e, h₁, e₁) = bind-some _ _ w answer h in
      subst
        (λ a.
          Follows fail_party (settle_failed error false plan) w
            (renet solver api parties policy later error plan (some party) w).1 a)
        (some_inj h₁) (rw e₁ (plan, refl, f, e, refl, again-Second party w second e))

  recover-Follows :
      (fail_party : Option String) (first : Settlement) (w : World) (answer : Failover)
      → (recover solver api parties policy later fail_party first w).0 ≡ some answer
      → Follows fail_party first w
          (recover solver api parties policy later fail_party first w).1
          answer
  unfolding recover
  recover-Follows fail_party (settled r) w answer h =
      subst (λ a. Follows fail_party (settled r) w w a) (some_inj h) (refl, refl)
  recover-Follows fail_party (refused why) w answer h =
      subst (λ a. Follows fail_party (refused why) w w a) (some_inj h) (refl, tt, refl)
  recover-Follows fail_party (batch_failed x) w answer h =
      subst (λ a. Follows fail_party (batch_failed x) w w a) (some_inj h) (refl, tt, refl)
  recover-Follows fail_party (settle_failed x true plan) w answer h =
      subst (λ a. Follows fail_party (settle_failed x true plan) w w a) (some_inj h)
        (refl, tt, refl)
  recover-Follows fail_party (settle_failed x false plan) w answer h =
      renet-Follows fail_party x plan (failer_of fail_party plan) w answer refl h

-- Each answer of `settle_with_failover` says what the first attempt was and what followed it. A
-- second attempt follows only an error of the settlement that is not marked ambiguous, and starts
-- where the first ended: its excluded party is the one that was made to fail, or the sender of the
-- first leg that was planned, and if it settles, no obligation of its accepted batch touches that
-- party. After any other first answer, a settled, refused or ambiguous one or a batch that was not
-- created, and where there is no such party, nothing is submitted again.
pub settle_with_failover-Follows :
    {World : Type 0} (solver : Solver) (api : NetApi World) (parties : Parties)
    (policy : Option PolicyInputs) (now later : ℕ) (fail_party : Option String) (w : World)
    (answer : Failover)
    → (settle_with_failover solver api parties policy now later fail_party w).0 ≡ some answer
    → (first : Settlement) × ((settle_real solver api parties
          (attempt now policy [] fail_party)
          w).0
        ≡ some first)
      × Follows solver api parties policy later fail_party first
          (settle_real solver api parties (attempt now policy [] fail_party) w).1
          (settle_with_failover solver api parties policy now later fail_party w).1
          answer
unfolding settle_with_failover
settle_with_failover-Follows solver api parties policy now later fail_party w answer h =
    let (first, e, h₁, e₁) = bind-some _ _ w answer h in
    (first, e, rw e₁ (recover-Follows solver api parties policy later fail_party first _ answer h₁))
