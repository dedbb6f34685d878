-- ===== src/Reasoner/Rationale.antt =====
-- The rationale of `evaluate_trade` is an audit of its decision.
use tradeguard_canton.Prelude.{String, Bool, ◌≡◌, List, [], ◌∷◌, ◌++◌, arith}
use tradeguard_canton.Prelude.Keys.{str_dec}
use tradeguard_canton.Reasoner.{Line, check, decided, AcceptedTrade, Attestation, evaluate_trade}

abbrev pub check_lines : List (String × Bool) → List Line
check_lines [] = []
check_lines ((name, passed) ∷ d) = check passed name ∷ check_lines d

-- The rationale holds one line for each check, in order and marked as the check came out, and ends
-- with the decision that was taken.
pub evaluate_trade-rationale :
    (accepted : AcceptedTrade) (attestations : List Attestation) (requires : Bool)
    → let r = evaluate_trade accepted attestations requires in
      r.rationale ≡ check_lines r.checks ++ decided r.decision ∷ []
unfolding evaluate_trade str_dec
evaluate_trade-rationale accepted atts requires = ground arith
