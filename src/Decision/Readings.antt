-- ===== src/Decision/Readings.antt =====
-- The readings of decide.ts: what the oracle takes from its input.
use long_horizon_context.Base.{
  ℕ, ◌+◌, ◌-◌, String, Bool, true, false, not, Option, none, some, List, [], ◌∷◌, ltb, leb,
  if◌then◌else◌,
}
use long_horizon_context.Base.Int.{max_with}
use long_horizon_context.Contract.{default_compact_retry_budget}
use long_horizon_context.Contract.ToolIds.{normalize_protected_tool_call_ids}
use long_horizon_context.Contract.Input.{
  Domain, Field, absent, null, given, Number, not_finite, finite, WorkContinuation,
  pending_correlated_tool_result, ForcedBoundary, applied, not_applied, ProviderUsage, available,
  unavailable, Input,
}
use long_horizon_context.Contract.Effects.{Effect}
use long_horizon_context.Contract.Receipt.{Warning, Pressure, LowerTarget, Retry}

abbrev pub is_applied_boundary : ForcedBoundary → Bool
is_applied_boundary (applied _) = true
is_applied_boundary not_applied = false

unfoldable pub warnings_of : List Effect → List Warning
warnings_of [] = []
warnings_of (Effect.warn code reason ∷ effects) =
    record { code = code; reason = reason } ∷ warnings_of effects
warnings_of (_ ∷ effects) = warnings_of effects

-- `Math.max(1, Math.trunc(raw))`, with a default for what is no finite number
abbrev whole_or : ℕ → Option Number → ℕ
whole_or default none = default
whole_or default (some not_finite) = default
whole_or default (some (finite z)) = max_with 1 z

unfoldable pub retry_budget_of : Input → ℕ
retry_budget_of input = whole_or default_compact_retry_budget input.policy.compact_retry_budget

unfoldable pub attempt_index_of : Input → ℕ
attempt_index_of input = whole_or 1 input.compact_material.compact_attempt_index

unfoldable pub no_retry : Input → Retry
no_retry input = record {
  attempt_index = attempt_index_of input;
  budget = retry_budget_of input;
  retry_authorized = false;
}

-- `m !== undefined ? m : (p ?? null)`
abbrev given_or : {A : Type 0} → Field A → Option A → Option A
given_or absent p = p
given_or null p = none
given_or (given a) p = some a

abbrev savings_domain : Option ℕ → Option Domain
savings_domain none = none
savings_domain (some _) = some Domain.source_labelled_estimate

-- Subtraction stops at 0, as `Math.max(0, …)` does.
abbrev projected_resolved : Option ℕ → Option ℕ → ℕ → ℕ
projected_resolved (some projected) savings next = projected
projected_resolved none none next = next
projected_resolved none (some savings) next = next - savings

abbrev safe_resolved : Option Bool → Option ℕ → ℕ → Option Bool
safe_resolved (some safe) threshold projected = some safe
safe_resolved none none projected = none
safe_resolved none (some threshold) projected = some (ltb projected threshold)

abbrev pub pressure_from : ProviderUsage → Input → Pressure
pressure_from (unavailable _) input = record {
  provider_base_tokens = none;
  provider_base_domain = Domain.provider_reported_input;
  estimate_tokens = input.post_measurement_estimate.tokens;
  estimate_source = input.post_measurement_estimate.source;
  estimate_domain = Domain.source_labelled_estimate;
  next_request_pressure_tokens = none;
  upper_trigger_tokens = input.policy.upper_trigger_tokens;
  at_or_above_trigger = none;
  projected_pressure_tokens = none;
  rendered_savings_tokens = input.compact_material.rendered_savings_tokens;
  rendered_savings_source = input.compact_material.rendered_savings_source;
  rendered_savings_domain = savings_domain input.compact_material.rendered_savings_tokens;
  safe_runway_threshold_tokens =
      given_or input.compact_material.safe_runway_threshold_tokens
        input.policy.safe_runway_threshold_tokens;
  safe_runway_threshold_source =
      given_or input.compact_material.safe_runway_threshold_source
        input.policy.safe_runway_threshold_source;
  projected_pressure_safe = none;
}
pressure_from (available usage) input =
    let next = usage.total + input.post_measurement_estimate.tokens in
    let threshold =
      given_or input.compact_material.safe_runway_threshold_tokens
        input.policy.safe_runway_threshold_tokens in
    let projected =
      projected_resolved input.compact_material.projected_pressure_tokens
        input.compact_material.rendered_savings_tokens next in
    record {
      provider_base_tokens = some usage.total;
      provider_base_domain = Domain.provider_reported_input;
      estimate_tokens = input.post_measurement_estimate.tokens;
      estimate_source = input.post_measurement_estimate.source;
      estimate_domain = Domain.source_labelled_estimate;
      next_request_pressure_tokens = some next;
      upper_trigger_tokens = input.policy.upper_trigger_tokens;
      at_or_above_trigger = some (leb input.policy.upper_trigger_tokens next);
      projected_pressure_tokens = some projected;
      rendered_savings_tokens = input.compact_material.rendered_savings_tokens;
      rendered_savings_source = input.compact_material.rendered_savings_source;
      rendered_savings_domain = savings_domain input.compact_material.rendered_savings_tokens;
      safe_runway_threshold_tokens = threshold;
      safe_runway_threshold_source =
          given_or input.compact_material.safe_runway_threshold_source
            input.policy.safe_runway_threshold_source;
      projected_pressure_safe =
          safe_resolved input.compact_material.projected_pressure_safe threshold projected;
    }

unfoldable pub pressure_receipt : Input → Pressure
pressure_receipt input = pressure_from input.provider_usage input

abbrev pub protected_ids : WorkContinuation → List String
protected_ids (pending_correlated_tool_result ids _) = normalize_protected_tool_call_ids ids
protected_ids WorkContinuation.none = []
protected_ids WorkContinuation.active_non_tool = []

unfoldable pub protected_ids_of : Input → List String
protected_ids_of input = protected_ids input.continuation

unfoldable pub lower_target_receipt : Input → Bool → LowerTarget
lower_target_receipt input compact_ran = record {
  domain = Domain.lhc_rendered_history;
  tokens = input.policy.lower_target_tokens;
  met = if compact_ran then some input.compact_material.lower_target_met else none;
  is_success_gate = false;
}

unfoldable pub degradation_reasons_of : Input → List String
degradation_reasons_of input =
    let missed =
      if not input.compact_material.lower_target_met then "lower_target_missed" ∷ [] else [] in
    if input.compact_material.derivations_missing_or_failed
    then "derivations_missing_or_failed" ∷ missed
    else missed
