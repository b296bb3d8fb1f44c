-- ===== src/Decision/Exits.antt =====
-- The ways out of decide.ts that run no compact.
use long_horizon_context.Base.{
  String, Bool, true, false, not, Option, none, some, List, [], ◌∷◌, ◌++◌, if◌then◌else◌, ◌<>◌,
}
use long_horizon_context.Contract.{continue_reason, contract_version, default_compact_retry_budget}
use long_horizon_context.Contract.Codes.{State, OutcomeKind, ReliefPath, SkipCode, WarningCode}
use long_horizon_context.Contract.Texts.{warning_text, skip_text}
use long_horizon_context.Contract.Input.{Domain, HostStatus, Input}
use long_horizon_context.Contract.Effects.{Effect}
use long_horizon_context.Contract.Receipt.{Pressure, Residual, Fidelity, Opened, Decision}
use long_horizon_context.Decision.Readings.{is_applied_boundary, warnings_of}
use long_horizon_context.Decision.Parts.{
  Prelude, no_overrides, empty_residual_extras, ResidualParts, residual,
  applied_boundary_residual_overlay, DecisionParts, decide,
}
use long_horizon_context.Decision.Effects.{record_receipt, decline_effects}

abbrev is_applied : Input → Bool
is_applied input = is_applied_boundary input.forced_continuation_boundary

-- The parts that the exits of a seam without a compact share.
abbrev idle_residual : Input → Option Bool → Bool → Bool → ResidualParts
idle_residual input discarded turn_open next_allowed = record {
  writer_released = true;
  prior_serving_view_intact = true;
  forced_continuation_boundary_applied = false;
  continuation_turn_opened = false;
  continuation_turn_id = none;
  marker_persisted = false;
  marker_served = false;
  original_agentic_turn_still_open = turn_open;
  pending_boundary_discarded = discarded;
  next_provider_request_allowed = next_allowed;
  extras = empty_residual_extras input no_overrides;
}

abbrev reason_if : Bool → Option String
reason_if applied = if applied then some continue_reason else none

abbrev opened_if : Bool → Opened
opened_if applied = record {
  opened = applied;
  marker_served = false;
  same_agentic_turn_preserved = not applied;
}

unfoldable pub decline_to_ordinary_parts :
    Input → List State → Prelude → WarningCode → String → DecisionParts
decline_to_ordinary_parts input path prelude code reason = record {
  outcome = OutcomeKind.decline_to_ordinary_compact;
  terminal_state = State.terminal_decline_ordinary;
  transition_path = path ++ State.terminal_decline_ordinary ∷ [];
  effects = decline_effects input prelude code reason;
  reason_code = warning_text code;
  turn_end_reason = reason_if (is_applied input);
  fidelity = Fidelity.full;
  degradation_reasons = [];
  continuation = opened_if (is_applied input);
  residual = residual (
      applied_boundary_residual_overlay input
        (idle_residual input (some prelude.boundary_discarded) true true));
  retry = none;
  skipped = false;
  skip_code = none;
  compact_ran = false;
}

unfoldable pub decline_to_ordinary : Input → List State → Prelude → WarningCode → String → Decision
decline_to_ordinary input path prelude code reason =
    decide input (decline_to_ordinary_parts input path prelude code reason)

abbrev pub unsupported_reason : String → String
unsupported_reason rejected =
    "unsupported compact-continuation contract version " <> rejected <> "; oracle is "
    <> contract_version
    <> " — continuation state omitted in its entirety, ordinary compact runs on canonical turns"

abbrev pub unsupported_effects : String → List Effect
unsupported_effects rejected =
    Effect.discard_pending_boundary none (unsupported_reason rejected)
    ∷ Effect.warn WarningCode.unsupported_contract_version_omitted (unsupported_reason rejected)
    ∷ record_receipt
    ∷ []

abbrev unsupported_pressure : Pressure
unsupported_pressure = record {
  provider_base_tokens = none;
  provider_base_domain = Domain.provider_reported_input;
  estimate_tokens = 0;
  estimate_source = "none";
  estimate_domain = Domain.source_labelled_estimate;
  next_request_pressure_tokens = none;
  upper_trigger_tokens = 0;
  at_or_above_trigger = none;
  projected_pressure_tokens = none;
  rendered_savings_tokens = none;
  rendered_savings_source = none;
  rendered_savings_domain = none;
  safe_runway_threshold_tokens = none;
  safe_runway_threshold_source = none;
  projected_pressure_safe = none;
}

abbrev unsupported_residual : Residual
unsupported_residual = record {
  writer_released = true;
  prior_serving_view_intact = true;
  forced_continuation_boundary_applied = false;
  continuation_turn_opened = false;
  continuation_turn_id = none;
  marker_persisted = false;
  marker_served = false;
  original_agentic_turn_still_open = true;
  pending_boundary_discarded = true;
  next_provider_request_allowed = true;
  relief_path = ReliefPath.none;
  protected_tool_call_ids = [];
  visibility_boundary_before = none;
  visibility_boundary_after = none;
  host_validation_status = HostStatus.not_required;
  core_install_retained_pending_host_validation = false;
}

abbrev unsupported_path : List State
unsupported_path = State.idle ∷ State.terminal_decline_ordinary ∷ []

unfoldable pub decline_unsupported_version : Input → Decision
decline_unsupported_version input =
    let effects = unsupported_effects input.contract_version in
    record {
      outcome = OutcomeKind.decline_to_ordinary_compact;
      terminal_state = State.terminal_decline_ordinary;
      transition_path = unsupported_path;
      effects = effects;
      receipt = record {
        contract_version = contract_version;
        outcome = OutcomeKind.decline_to_ordinary_compact;
        reason_code = "unsupported_contract_version_omitted:" <> input.contract_version;
        turn_end_reason = none;
        pressure = unsupported_pressure;
        lower_target = record {
          domain = Domain.lhc_rendered_history;
          tokens = 0;
          met = none;
          is_success_gate = false;
        };
        fidelity = Fidelity.full;
        degradation_reasons = [];
        warnings = warnings_of effects;
        retry = record {
          attempt_index = 1;
          budget = default_compact_retry_budget;
          retry_authorized = false;
        };
        continuation = opened_if false;
        relief_path = ReliefPath.none;
        protected_tool_call_ids = [];
        effects = effects;
        residual = unsupported_residual;
        refused = false;
        refuse_code = none;
        skipped = false;
        skip_code = none;
        transition_path = unsupported_path;
      };
    }

unfoldable pub writer_owned_elsewhere_parts : Input → List State → Prelude → String → DecisionParts
writer_owned_elsewhere_parts input path prelude reason = record {
  outcome = OutcomeKind.continue_current_body;
  terminal_state = State.terminal_continue_current_body;
  transition_path = path ++ State.terminal_continue_current_body ∷ [];
  effects =
      prelude.effects
      ++ (Effect.warn WarningCode.writer_owned_elsewhere reason ∷ record_receipt ∷ []);
  reason_code = "writer_owned_elsewhere";
  turn_end_reason = reason_if (is_applied input);
  fidelity = Fidelity.full;
  degradation_reasons = [];
  continuation = opened_if (is_applied input);
  residual = residual (
      applied_boundary_residual_overlay input
        (idle_residual input (some prelude.boundary_discarded) true true));
  retry = none;
  skipped = false;
  skip_code = none;
  compact_ran = false;
}

unfoldable pub writer_owned_elsewhere : Input → List State → Prelude → String → Decision
writer_owned_elsewhere input path prelude reason =
    decide input (writer_owned_elsewhere_parts input path prelude reason)

unfoldable pub skip_parts : Input → List State → SkipCode → String → DecisionParts
skip_parts input path code reason = record {
  outcome = OutcomeKind.skip_seam;
  terminal_state = State.terminal_skip;
  transition_path = path ++ State.terminal_skip ∷ [];
  effects = Effect.skip_seam code reason ∷ record_receipt ∷ [];
  reason_code = skip_text code;
  turn_end_reason = reason_if (is_applied input);
  fidelity = Fidelity.full;
  degradation_reasons = [];
  continuation = opened_if (is_applied input);
  residual =
      residual (applied_boundary_residual_overlay input (idle_residual input none true false));
  retry = none;
  skipped = true;
  skip_code = some code;
  compact_ran = false;
}

unfoldable pub skip : Input → List State → SkipCode → String → Decision
skip input path code reason = decide input (skip_parts input path code reason)

unfoldable pub continue_normal_parts : Input → List State → Prelude → String → Bool → DecisionParts
continue_normal_parts input path prelude reason_code via_below_trigger = record {
  outcome = OutcomeKind.continue_normal;
  terminal_state = State.terminal_continue_normal;
  transition_path =
      if via_below_trigger
      then path ++ State.below_trigger ∷ State.terminal_continue_normal ∷ []
      else path ++ State.terminal_continue_normal ∷ [];
  effects = prelude.effects ++ record_receipt ∷ [];
  reason_code = reason_code;
  turn_end_reason = none;
  fidelity = Fidelity.full;
  degradation_reasons = [];
  continuation = opened_if false;
  residual = residual (idle_residual input (some prelude.boundary_discarded) true true);
  retry = none;
  skipped = false;
  skip_code = none;
  compact_ran = false;
}

unfoldable pub continue_normal : Input → List State → Prelude → String → Bool → Decision
continue_normal input path prelude reason_code via_below_trigger =
    decide input (continue_normal_parts input path prelude reason_code via_below_trigger)

unfoldable pub normal_complete_parts : Input → List State → Prelude → String → DecisionParts
normal_complete_parts input path prelude reason_code = record {
  outcome = OutcomeKind.normal_complete;
  terminal_state = State.terminal_normal_complete;
  transition_path = path ++ State.path_normal_complete ∷ State.terminal_normal_complete ∷ [];
  effects = prelude.effects ++ record_receipt ∷ [];
  reason_code = reason_code;
  turn_end_reason = none;
  fidelity = Fidelity.full;
  degradation_reasons = [];
  continuation = record {
    opened = false;
    marker_served = false;
    same_agentic_turn_preserved = false;
  };
  residual = residual (idle_residual input (some prelude.boundary_discarded) false true);
  retry = none;
  skipped = false;
  skip_code = none;
  compact_ran = false;
}

unfoldable pub normal_complete : Input → List State → Prelude → String → Decision
normal_complete input path prelude reason_code =
    decide input (normal_complete_parts input path prelude reason_code)
