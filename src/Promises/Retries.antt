-- ===== src/Promises/Retries.antt =====
-- The bounded retries of a failed compact attempt (`retryClassification` of decide.ts).
use long_horizon_context.Base.{
  ℕ, ◌≤◌, ◌<◌, ◌≡◌, ◌⊎◌, inl, inr, refl, true, false, Option, none, some, Bool-cases, ltb, arith,
}
use long_horizon_context.Base.Int.{pos, negsuc}
use long_horizon_context.Contract.Codes.{OutcomeKind, State}
use long_horizon_context.Contract.Input.{Input, Number, finite, not_finite}
use long_horizon_context.Decision.Readings.{attempt_index_of, retry_budget_of}
use long_horizon_context.Decision.Effects.{Classification, retry_classification}

-- The count that is read: the number where it is 1 or more, 1 where it is less, and the default where
-- there is no finite number.
abbrev pub IsCount : ℕ → Option Number → ℕ → Type 0
IsCount default none n = n ≡ default
IsCount default (some not_finite) n = n ≡ default
IsCount default (some (finite (pos m))) n = (1 ≤ n) × ((n ≡ m) ⊎ ((m ≡ 0) × (n ≡ 1)))
IsCount default (some (finite (negsuc m))) n = n ≡ 1

abbrev pub IsRetried : Classification → Type 0
IsRetried c =
    (c.retry.attempt_index < c.retry.budget)
    × (c.retry.retry_authorized ≡ true)
    × (c.outcome ≡ OutcomeKind.retry_compact)
    × (c.terminal_state ≡ State.terminal_retry)

abbrev pub IsEnded : Classification → Type 0
IsEnded c =
    (c.retry.budget ≤ c.retry.attempt_index)
    × (c.retry.retry_authorized ≡ false)
    × (c.outcome ≡ OutcomeKind.continue_current_body)
    × (c.terminal_state ≡ State.terminal_continue_current_body)

pub record IsBounded (input : Input) (c : Classification) : Type 0 where
  pub attempt : IsCount 1 input.compact_material.compact_attempt_index c.retry.attempt_index
  pub budget : IsCount 2 input.policy.compact_retry_budget c.retry.budget
  pub choice : IsRetried c ⊎ IsEnded c

attempt-IsCount :
    (input : Input)
    → IsCount 1 input.compact_material.compact_attempt_index (attempt_index_of input)
unfolding attempt_index_of
attempt-IsCount input = ground arith

budget-IsCount :
    (input : Input) → IsCount 2 input.policy.compact_retry_budget (retry_budget_of input)
unfolding retry_budget_of
budget-IsCount input = ground arith

pub choice_of :
    (input : Input) → IsRetried (retry_classification input) ⊎ IsEnded (retry_classification input)
unfolding retry_classification
choice_of input = elim (Bool-cases (ltb (attempt_index_of input) (retry_budget_of input))) [
  | inl e ↦ inl (ground (arith, e), e, rw e refl, rw e refl)
  | inr e ↦ inr (ground (arith, e), e, rw e refl, rw e refl)
]

-- A failed attempt is retried where its number is below the budget, and ends on the current body
-- where it is not; the number counts from 1 and is 1 where none is given, and the budget is at least
-- 1, and 2 where none is given.
pub retry_classification-IsBounded : (input : Input) → IsBounded input (retry_classification input)
unfolding retry_classification
retry_classification-IsBounded input = record {
  attempt = attempt-IsCount input;
  budget = budget-IsCount input;
  choice = choice_of input;
}
