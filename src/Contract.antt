-- ===== src/Contract.antt =====
-- The compact-continuation contract of
-- packages/lhc/src/shared-tech/compact-continuation/contract.ts: vocabularies, input, effects and
-- receipts. A nullable or optional field is an `Option`; where the code tells an absent field from
-- a null one the field is a `Field`. Token counts and boundaries are non-negative safe integers
-- (what `validateCompactContinuationInput` admits), so they are natural numbers.
pub mod Codes
pub mod Texts
pub mod ToolIds
pub mod Input
pub mod Effects
pub mod Receipt
use long_horizon_context.Base.{ℕ, String}

abbrev pub contract_version : String
contract_version = "2.0.0"

abbrev pub continue_reason : String
continue_reason = "context_compact_continue"

abbrev pub marker_kind : String
marker_kind = "lhc.compact_continuation"

abbrev pub marker_cause : String
marker_cause = "context_compacted_task_in_progress"

abbrev pub marker_action : String
marker_action = "continue_existing_task"

abbrev pub default_compact_retry_budget : ℕ
default_compact_retry_budget = 2
