-- ===== src/Lib.antt =====
-- A model of the compact-continuation state machine of the LHC library
-- (packages/lhc/src/shared-tech/compact-continuation).
--
-- At a seam between two model turns a host asks an oracle, `decideCompactContinuation`, whether to
-- compact the thread's history and how the open work goes on. The oracle reads one input record and
-- returns a decision: an outcome, a path through named states, a list of effects that the host runs,
-- and a receipt. A validator, `validateCompactContinuationDecision`, checks a decision against the
-- rules of the contract. Both are pure; the oracle is total but for one `throw`.
--
-- The files, and the source that each is about:
--   Base         Boolean tests on numbers and texts, list helpers, the conditional.
--   Contract     contract.ts: the codes (Codes) and their texts (Texts), the input (Input), the
--                effects (Effects), receipts and decisions (Receipt), and the two functions on ids
--                (ToolIds).
--   Decision     decide.ts: what the oracle reads off the input (Readings), the builders of residual
--                states, receipts and decisions (Parts), the effects (Effects), the exits without a
--                compact (Exits), the two branches with one (Tail, `postCompactTail`, and its ends in
--                Tail/Ends), and the oracle in stages (Oracle).
--   Validation   validate.ts: issues (Issues), `validateEffect` (EffectChecks), `validateResidual`
--                (ResidualChecks), `validateCompactContinuationReceipt` (ReceiptChecks and, for the
--                order of effects, SequenceChecks), and the validator of decisions (DecisionChecks).
--   Validity     proofs about the oracle against the validator, a file for each exit or stage.
--   Promises     proofs about the oracle and the validator one by one: a case for each way in which
--                the oracle returns (Cases), the claim of the writer (Writer, Claims), the next
--                request (Requests), the fields of a decision (Accounts), when a compact is due (Compacts,
--                Due, Decides), a discarded boundary (Discards, Fresh), retries (Retries, Retried),
--                the order of effects (Orders), and ids (ToolIds).
--   Steps        packages/lhc/src/turns/internal/steps.ts: `stepEdges`, which reads the steps of a turn
--                off its messages; Counts, Order, Cover and Edges are about its result.
--   View         packages/lhc/src/thread-view/internal: the data of a selection (select.ts), the source
--                that it reads (Source), the turns and chunks it chooses from (Structure,
--                selection-structure.ts), and of walk.ts the compact point (Point), the turn
--                parts that it is moved to (Parts, over the edges of Steps), and the filling of
--                the bands and their budgets (Bands); and the preview of the protected boundary
--                (Preview, protected-boundary.ts); each with its proofs below it.
--   Governor     packages/cc-lhc/src/governor: the data (types.ts), the pressure of the next request
--                (Pressure, provider-context.ts), the decision (Decide, decide.ts), the presets
--                (Allocation, band-allocation.ts) and the state between signals with its records
--                (Observe, observe-state.ts), each with its proofs below it.
--   Tests        concrete seams, turns, views and sessions.
--
-- How the code is read. A `throw` is `none`, and a returned value is `some`. Numbers of tokens and
-- boundaries are natural numbers; the raw attempt index and retry budget are a signed whole part or
-- not finite, as `Math.trunc` reads them, and sums do not round. An optional field is an Option, and
-- a field that may also be null is a Field. Texts are compared by UTF-16 code units, as JavaScript
-- does. An array that the code pushes to is the list of what was pushed, in order. The validator is
-- modelled on values that have the static types, so that its tests for the type of an unknown value
-- are left out, and JSON texts are compared as the values that they stand for. All recursion is
-- structural: there is no fuel, but for the printing of decimals, where a number has fewer digits
-- than itself plus one. Budgets of a view, percentages of a lower bound, are held in hundredths of a
-- token, and percentages are whole numbers, so that no division rounds. An array whose last entry the
-- code edits is the entries before it and that entry. A Set or a Map of keys is a list. The governor
-- hands its decision to the view only by the compact that a host then asks for.
--
-- Not modelled: `validateCompactContinuationInput` and `assertDecisionParity` of validate.ts; the
-- runner of the effects (packages/lhc/src/compact-continuation); of walk.ts, the protection of the
-- newest closed turn, the choice of chunks, coverage gaps and gap markers, and the rendering of
-- entries; of the governor, its configuration files, its receipts and `composeEstimateSources`, which orders labels by locale
-- and is a parameter; the stores, queries and queues; and the hosts in the other packages. These are
-- I/O over the modelled core or parts of their own.
pub mod Base
pub mod Contract
pub mod Decision
pub mod Validation
pub mod Validity
pub mod Promises
pub mod Steps
pub mod View
pub mod Governor
pub mod Tests
