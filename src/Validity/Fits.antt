-- ===== src/Validity/Fits.antt =====
-- The numbers of an input, and what the retry and residual checks make of them.
use long_horizon_context.Base.{◌≤◌, ◌≡◌, ◌≢◌, refl, true, [], arith, le→leb}
use long_horizon_context.Contract.Codes.{OutcomeKind}
use long_horizon_context.Contract.Input.{Input}
use long_horizon_context.Decision.Readings.{attempt_index_of, retry_budget_of, no_retry}
use long_horizon_context.Decision.Effects.{retry_classification}
use long_horizon_context.Validation.Issues.{max_safe_integer, is_null_or_safe}
use long_horizon_context.Validation.ReceiptChecks.{retry_checks}

-- The numbers that the receipt repeats are safe integers.
pub record Fits (input : Input) : Type 0 where
  pub attempt : attempt_index_of input ≤ max_safe_integer
  pub budget : retry_budget_of input ≤ max_safe_integer
  pub before : is_null_or_safe input.compact_material.visibility_boundary_before ≡ true
  pub after : is_null_or_safe input.compact_material.visibility_boundary_after ≡ true
  pub point : is_null_or_safe input.compact_material.compact_point_at_install ≡ true

pub attempt_index_pos : (input : Input) → 1 ≤ attempt_index_of input
unfolding attempt_index_of
attempt_index_pos input = ground arith

pub retry_budget_pos : (input : Input) → 1 ≤ retry_budget_of input
unfolding retry_budget_of
retry_budget_pos input = ground arith

pub no_retry-passes :
    (input : Input) (o : OutcomeKind)
    → Fits input
    → o ≢ OutcomeKind.retry_compact
    → retry_checks o (no_retry input) ≡ []
unfolding retry_checks no_retry
no_retry-passes input OutcomeKind.retry_compact f h = absurd (h refl)
no_retry-passes input _ f h = rw (
  le→leb (attempt_index_of input) max_safe_integer f.attempt,
  le→leb 1 (attempt_index_of input) (attempt_index_pos input),
  le→leb (retry_budget_of input) max_safe_integer f.budget,
  le→leb 1 (retry_budget_of input) (retry_budget_pos input),
)

pub retry_classification-passes :
    (input : Input)
    → Fits input
    → retry_checks (retry_classification input).outcome (retry_classification input).retry ≡ []
unfolding retry_checks retry_classification
retry_classification-passes input f =
    ground (arith, attempt_index_pos input, retry_budget_pos input, f.attempt, f.budget)
