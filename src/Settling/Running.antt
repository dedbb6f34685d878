-- ===== src/Settling/Running.antt =====
-- `settle_real` itself, from what `Preparing` read and with the writes of `Submitting`.
use tradeguard_canton.Prelude.{String, Option, none, some, List, [], ◌∷◌, map}
use tradeguard_canton.Prelude.Actions.{Run, return, lift, bind}
use tradeguard_canton.Solver.Lp.{Solver}
use tradeguard_canton.Settling.{
  Residual, Request, NetLeg, Allocation, Tree, tree_refused, tree, Answer, accepted, rejected,
  NetApi, Parties,
}
use tradeguard_canton.Settling.Gates.{shortened}
use tradeguard_canton.Settling.Preparing.{Prepared, Ready, ready, held, prepare}
use tradeguard_canton.Settling.Submitting.{
  account_of, funding_of, involved, batch_of, Settlement, refused, batch_failed, settle_failed,
  settled, receipt, ensure_account, resolve_instrument, resolve_authority, issue_and_lock,
}

abbrev pub leg_between : Residual → String → String → NetLeg
leg_between r sender_account receiver_account = record {
  sender = r.sender;
  receiver = r.receiver;
  amount = r.amount;
  sender_account = sender_account;
  receiver_account = receiver_account;
}

abbrev pub legs_of : List Allocation → List NetLeg
legs_of allocs = map (λ (a : Allocation). a.leg) allocs

module _ {World : Type 0} (api : NetApi World) (parties : Parties) where
  -- The loop over `involved`; the order of that set is left open, and is taken to be sorted.
  unfoldable pub ensure_accounts : List String → Run World Unit
  ensure_accounts [] = return tt
  ensure_accounts (party ∷ ps) =
      bind (lift (account_of parties party))
        λ account. bind (ensure_account api party account) λ _. ensure_accounts ps

  -- `_residual_legs_and_allocs`; each leg stands in its allocation.
  unfoldable pub allocations :
      Option String → String → String → List Residual → Run World (List Allocation)
  allocations fail_party instrument authority [] = return []
  allocations fail_party instrument authority (r ∷ rs) =
      bind (lift (account_of parties r.sender)) λ sender_account.
        bind (lift (account_of parties r.receiver)) λ receiver_account.
          bind (issue_and_lock api instrument r.sender sender_account (funding_of fail_party r))
            λ locked. bind (allocations fail_party instrument authority rs) λ rest. return (
              record {
                leg = leg_between r sender_account receiver_account;
                holding = locked;
                authority = authority;
              }
              ∷ rest)

  -- `MarkExecuted` of the approval, if one is named
  unfoldable pub mark_approval : Option String → World → Option String × World
  mark_approval none w = (none, w)
  mark_approval (some cid) w = api.mark_executed cid w

  -- What follows the answer to `SettleNetting`.
  unfoldable pub conclude : Request → Prepared → String → Answer → Run World Settlement
  conclude request p batch_cid (rejected e ambiguous) w =
      (some (settle_failed e ambiguous (map shortened p.residuals)), w)
  conclude request p batch_cid accepted w =
      let marked = mark_approval request.approved_action_cid w in
      (some (settled (receipt p batch_cid marked.0)), marked.1)

  -- What follows the answer to the creation of the batch.
  unfoldable pub settle_batch : Request → Prepared → List Allocation → Tree → Run World Settlement
  settle_batch request p allocs (tree_refused e) w = (some (batch_failed e), w)
  settle_batch request p allocs (tree none) w = (none, w)
  settle_batch request p allocs (tree (some batch_cid)) w =
      let answer =
        api.settle_netting batch_cid allocs (parties.operator ∷ involved p.settled_rows) w in
      conclude request p batch_cid answer.0 answer.1

  unfoldable pub submit_batch : Request → Prepared → List Allocation → Run World Settlement
  submit_batch request p allocs w =
      let made = api.create_batch (batch_of p (legs_of allocs)) w in
      settle_batch request p allocs made.0 made.1

  unfoldable pub submit : Request → Prepared → Run World Settlement
  submit request p = bind (resolve_instrument api) λ instrument.
      bind (resolve_authority api parties.operator) λ authority.
        bind (ensure_accounts (involved p.settled_rows)) λ _.
          bind (allocations request.fail_party instrument authority p.residuals)
            λ allocs. submit_batch request p allocs

  -- What follows the reads.
  unfoldable pub settle_ready : Request → Ready → Run World Settlement
  settle_ready request (held why) = return (refused why)
  settle_ready request (ready p) = submit request p

module _ {World : Type 0} (solver : Solver) (api : NetApi World) (parties : Parties) where
  unfoldable pub settle_real : Request → Run World Settlement
  settle_real request = bind (prepare solver api parties request) (settle_ready api parties request)
