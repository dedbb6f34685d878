-- ===== src/Settling/Failover.antt =====
-- `settle_with_failover`: a rejected settlement is netted again without the party that failed.
pub mod Recovers
use tradeguard_canton.Prelude.{ℕ, String, Bool, true, false, Option, none, some, List, [], ◌∷◌}
use tradeguard_canton.Prelude.Actions.{Run, return, bind}
use tradeguard_canton.Solver.Lp.{Solver}
use tradeguard_canton.Settling.{Residual, PolicyInputs, Request, NetApi, Parties}
use tradeguard_canton.Settling.Submitting.{
  Settlement, refused, batch_failed, settle_failed, settled, Receipt,
}
use tradeguard_canton.Settling.Running.{settle_real}

pub data Failover : Type 0 where
  -- "full book settled — no failover needed"
  at_once : Receipt → Failover
  -- the first attempt failed in another way than by a definite rejection
  failed : Settlement → Failover
  -- "settle failed and no failer identifiable"
  no_failer : Settlement → Failover
  -- the failed party, the error of the first attempt, and the second attempt
  renetted : String → String → Settlement → Failover

-- `settle_real(policy_text, …)` with its other defaults
abbrev pub attempt : ℕ → Option PolicyInputs → List String → Option String → Request
attempt now policy exclude_parties fail_party = record {
  now = now;
  policy = policy;
  maximal = true;
  exclude_parties = exclude_parties;
  fail_party = fail_party;
  expected_book = none;
  approved_plan = none;
  approved_action_cid = none;
  approval_trade_id = none;
}

-- `failer`: the party that was made to fail, or the sender of the first leg that was planned
unfoldable pub failer_of : Option String → List Residual → Option String
failer_of (some party) residuals = some party
failer_of none [] = none
failer_of none (r ∷ rs) = some r.sender

module _ {World : Type 0} (solver : Solver) (api : NetApi World) (parties : Parties)
    (policy : Option PolicyInputs) where
  -- The second attempt, without the party that failed, if one is known.
  unfoldable pub renet : ℕ → String → List Residual → Option String → Run World Failover
  renet now error plan none w = (some (no_failer (settle_failed error false plan)), w)
  renet now error plan (some party) w =
      bind (settle_real solver api parties (attempt now policy (party ∷ []) none))
        (λ second. return (renetted party error second)) w

  -- What follows the first attempt.
  unfoldable pub recover : ℕ → Option String → Settlement → Run World Failover
  recover now fail_party (settled r) w = (some (at_once r), w)
  recover now fail_party (refused why) w = (some (failed (refused why)), w)
  recover now fail_party (batch_failed e) w = (some (failed (batch_failed e)), w)
  recover now fail_party (settle_failed e true plan) w =
      (some (failed (settle_failed e true plan)), w)
  recover now fail_party (settle_failed e false plan) w =
      renet now e plan (failer_of fail_party plan) w

  -- `now` and `later` are the times of the two attempts.
  unfoldable pub settle_with_failover : ℕ → ℕ → Option String → Run World Failover
  settle_with_failover now later fail_party =
      bind (settle_real solver api parties (attempt now policy [] fail_party))
        (recover later fail_party)
