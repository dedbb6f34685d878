-- ===== src/Lib.antt =====
-- TradeGuard nets the obligations of several parties and settles what remains on a Canton ledger.
-- A book of obligations is netted to one position per party and currency. agent/netting.py pays
-- the positions greedily; agent/solver.py plans them as a linear problem under credit limits, and
-- either refuses with reasons (`solve`) or settles what fits and defers the rest
-- (`solve_maximal`). agent/reasoner.py decides whether a single trade may settle, and
-- agent/cycle.py runs the sessions on the ledger in which books are settled. agent/limits.py keeps
-- the limits on the ledger, from which both the solver and the settlement take them, and
-- agent/net_settle.py keeps the book of obligations there, and settles it by one batch; the
-- contract of that batch checks it again. agent/token_settle.py settles a book in tokens of the
-- ledger. All of them reach the ledger through agent/real_client.py. agent/policy.py reads a policy
-- of the operator as weights and limits for the solver, and ui/console_server.py settles what the
-- operator has approved.
--
-- Files:
--   Prelude: Boolean tests, lists, integers over native numbers, dicts in insertion order, and
--     stable sorting, as Python's built-ins work.
--   Netting: agent/netting.py. `net_positions`, `minimal_settlement` and `netting_report` by their
--     names; `match_greedily` is the loop of `minimal_settlement`. Netting/Settlement states
--     what it means to settle a book (`Settles`), which the solver is held to as well.
--   Reasoner: agent/reasoner.py, `evaluate_trade`; `checked` lists its checks, `conclude` decides.
--   Solver: agent/solver.py. Solver/Model has its classes, Solver/Lp what it uses of PuLP,
--     Solver/OneCurrency `_solve_one_currency` (`solve_one_currency`) with its diagnosis,
--     Solver/Book `_by_currency`, `solve` and `solve_report`, Solver/Maximal `solve_maximal` and
--     `_solve_one_currency_maximal`, Solver/Fx `solve_fx` and `solve_constrained`.
--   Cycle: agent/cycle.py, over the interface `CycleApi`; Cycle/Ledger is the contract
--     `NettingCycle` of tradeguard-v3/main/daml/TradeGuard/Netting.daml as an instance of it, which
--     also keeps the history of the contracts that were created.
--   Limits: agent/limits.py, over the interface `LedgerApi` of the ledger client; Limits/Seeding
--     has its seed functions, over `SeedApi`.
--   Obligations: `clear_book`, `_sweep_unexpected_obligations` and `_seed_obligation_book` of
--     agent/net_settle.py, over the interface `BookApi`; `clear_report` and `seed_report` are
--     their answers, as functions of what the last queries showed.
--   Settling: `settle_real` and `settle_with_failover` of agent/net_settle.py, over the interface
--     `NetApi`. Settling/Gates has the tests, Settling/Preparing (`prepare`) all that is read
--     before the first write, Settling/Submitting and Settling/Running the writes in their order.
--     Settling/Approving has `record_plan_approval`, over `ApprovalApi`, Settling/Currencies
--     `settle_cross_currency`, over `FxApi`, and Settling/Attempts `attempt_fraud` and
--     `attempt_credit_breach`, over `AttemptApi`.
--   Console: ui/console_server.py: `_obligations_for` (`obligations_of`), `_solver_plan` and
--     `settle_with_approval`, which plans, records the approval and settles.
--   Tokens: agent/token_settle.py, over the interface `TokenApi`: Tokens/Minting `mint_book` and
--     `mint_book_multi`, Tokens/Threaded `settle_token`, Tokens/Cross `settle_cross_token`.
--   Client: agent/real_client.py: `_post` as `post_read` and `post_write`, Client/Json
--     `_stringify_ints`, Client/Commands the queries and commands of `RealLedgerClient`. Client/Once
--     is a command that is sent again, Client/Obligations the creation of an obligation, whose
--     `_existing_reference` looks the reference up before that.
--   Policy: agent/policy.py; Policy/Parsing has `_validate` (`validate`), `_parse_rules`
--     (`parse_rules`) and `parse_policy`.
--
-- Numbers: amounts are whole cents in ℤ, where the source has floats and rounds to two places, so
-- `round(x, 2)` returns its argument and a test against the tolerance EPS is a test against 0.
-- A rate is a ratio of integers, and a valued posting is rounded to the nearest cent.
-- Weights of a policy are hundredths, percentages tenths, rounded to the even neighbour on a tie.
-- What binary floats add to this is not modelled.
--
-- The linear solver is not part of the repository: it is the record `Solver`, whose one law is
-- that the values of an outcome reported as optimal satisfy the constraints. Its values are whole
-- cents, and 0 or 1 for a binary variable. Solver/Lp/Checker is a solver with that law, on which
-- the theorems are tried. PuLP refuses a second constraint of one name with an error, so the
-- model stands for lists of limits that name a pair, or a party, once in a currency. Names of
-- parties are kept apart as PuLP's own renaming of characters does not.
--
-- Texts: `lower`, `upper` and `strip` are modelled for the characters of ASCII. What a regular
-- expression, a JSON text or an ISO time reads as is an argument.
--
-- Fuel: `match_greedily` gets one unit for each entry of the two lists; each round finishes one
-- entry at least, so the fuel is never used up (Netting/Greedy). `digits` gets a unit more than the
-- number, which each round divides by ten. `attempts` counts the attempts of a command, two for a
-- write. All other functions recurse on their lists.
--
-- Arguments: the `book` of Tokens is what `book or DEMO_BOOK` comes to, so an empty one stands for
-- no call of the source. An optional text (`approved_action_cid`, `approval_trade_id`, `fail_party`)
-- is missing or not empty.
--
-- A ledger answers each call with a value and its next state, so another party may act between
-- two calls; a call that raises is `none` (Prelude/Actions). The calls of `CycleApi` do not raise;
-- in the source an exception of `settle_real` leaves `run_cycle` before the cycle is recorded. The
-- ids of cycles are numbers, fresh for each contract; others are texts. Texts of errors and the
-- random ids of commands are left out.
--
-- Not modelled: sentences shown to a reader, except for the figures of a constraint or a reason;
-- the books that are seeded by agent/net_settle.py for demonstrations; the search of a contract id
-- in a response; tokens, timeouts and waits of agent/real_client.py; the call of the language model
-- in agent/policy.py; the command line, the rest of the servers of ui/ and the set-up scripts, which are input and
-- output; the other Daml contracts.
pub mod Prelude
pub mod Netting
pub mod Reasoner
pub mod Solver
pub mod Tokens
pub mod Settling
pub mod Client
pub mod Policy
pub mod Console
pub mod Cycle
pub mod Limits
pub mod Obligations
