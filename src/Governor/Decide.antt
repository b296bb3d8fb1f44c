-- ===== src/Governor/Decide.antt =====
-- packages/cc-lhc/src/governor/decide.ts: what the governor decides at a seam or in an open turn.
pub mod Mutation
use long_horizon_context.Base.{
  ℕ, String, Bool, true, false, not, ◌&&◌, Option, none, some, if◌then◌else◌, ◌<>◌, decimal,
}
use long_horizon_context.Governor.{
  ContextPolicy, PostMeasurementEstimate, RawEstimate, ProviderBaseFreshness, current_sampling,
  last_known, none_read, GovernorPressureReceipt, GovernorDecisionKind, would_compact,
  below_threshold, turn_open, operation_in_flight, GovernorInput, GovernorDecision,
}
use long_horizon_context.Governor.Pressure.{
  normalize_post_measurement_estimate, build_pressure_receipt, raw_of, total_of,
}

abbrev is_would_compact : GovernorDecisionKind → Bool
is_would_compact would_compact = true
is_would_compact _ = false

-- `buildPressureReceipt` at the fields of the input
unfoldable pub pressure_of : GovernorInput → GovernorPressureReceipt
unfolding build_pressure_receipt
pressure_of input =
    build_pressure_receipt input.provider_context (some input.post_measurement_estimate)
      input.policy.upper_bound_tokens input.provider_context_freshness

-- `decide`; the last argument is `forceNoMutate`.
unfoldable pub decide_as : GovernorDecisionKind → String → GovernorInput → Bool → GovernorDecision
unfolding pressure_of
decide_as kind reason input force_no_mutate = record {
  kind = kind;
  reason = reason;
  provider_context_total = total_of input.provider_context;
  pressure = pressure_of input;
  upper_bound_tokens = input.policy.upper_bound_tokens;
  lower_bound_tokens = input.policy.lower_bound_tokens;
  would_mutate = if force_no_mutate then false else is_would_compact kind && not input.turn_open;
}

abbrev freshness_label : ProviderBaseFreshness → String
freshness_label last_known = "last known provider"
freshness_label _ = "provider"

-- `pressurePhrase`
unfoldable pub pressure_phrase : GovernorInput → ℕ → String
unfolding ◌<>◌ decimal normalize_post_measurement_estimate
pressure_phrase input pressure =
    let estimate =
      decimal (normalize_post_measurement_estimate (some input.post_measurement_estimate)).tokens in
    elim (total_of input.provider_context) [
      | none ↦
          "next-request pressure "
          <> decimal pressure
          <> " (no provider reading yet + estimate "
          <> estimate
          <> ")"
      | some base ↦
          "next-request pressure "
          <> decimal pressure
          <> " ("
          <> freshness_label input.provider_context_freshness
          <> " "
          <> decimal base
          <> " + estimate "
          <> estimate
          <> ")"
    ]

abbrev pub busy_reason : String
busy_reason = "Smart Compact, Tool Prune, or handoff already in flight"

unfoldable pub decide_open_turn : GovernorInput → GovernorDecision
unfolding decide_as pressure_of pressure_phrase ◌<>◌ decimal
decide_open_turn input =
    let pressure = pressure_of input in
    let phrase = pressure_phrase input pressure.next_request_pressure_tokens in
    let upper = decimal input.policy.upper_bound_tokens in
    if input.operation_in_flight
    then decide_as operation_in_flight (busy_reason <> "; no concurrent open-turn action") input
        true
    else if not pressure.at_or_above_trigger
    then decide_as turn_open
        ("turn is still open; " <> phrase <> " below upperBoundTokens " <> upper
          <> "; Smart Compact only at settled boundary")
        input true
    else decide_as would_compact
        (phrase <> " >= upperBoundTokens " <> upper
          <> " during open turn; classified only — Claude Code cannot replace the in-flight request mid-agentic-turn")
        input true

unfoldable pub decide_settled : GovernorInput → GovernorDecision
unfolding decide_as pressure_of pressure_phrase ◌<>◌ decimal
decide_settled input =
    let pressure = pressure_of input in
    let phrase = pressure_phrase input pressure.next_request_pressure_tokens in
    let upper = decimal input.policy.upper_bound_tokens in
    if input.operation_in_flight
    then decide_as operation_in_flight busy_reason input false
    else if pressure.at_or_above_trigger
    then decide_as would_compact
        (phrase <> " >= upperBoundTokens " <> upper
          <> "; capability-limited Smart Compact eligible at settled seam")
        input false
    else if input.context_limit_rejected
    then decide_as would_compact
        ("Claude rejected the request (Prompt is too long); capability-limited Smart Compact eligible at settled seam while "
          <> phrase <> " is below upperBoundTokens " <> upper)
        input false
    else decide_as below_threshold (phrase <> " is below upperBoundTokens " <> upper) input false

-- The input with its estimate normalized.
abbrev pub with_estimate : GovernorInput → GovernorInput
with_estimate input = record input {
  post_measurement_estimate =
      raw_of (normalize_post_measurement_estimate (some input.post_measurement_estimate));
}

-- `decideGovernor`
unfoldable pub decide_governor : GovernorInput → GovernorDecision
unfolding decide_open_turn decide_settled
decide_governor input =
    if input.turn_open
    then decide_open_turn (with_estimate input)
    else decide_settled (with_estimate input)
