-- ===== src/Decision/Tail/Ends.antt =====
-- `attemptFailedAfterPreserve` and `attemptFailedAfterContinue` of decide.ts, and the decisions with
-- which `postCompactTail` ends an installed compact.
use long_horizon_context.Base.{
  String, Bool, true, false, Option, none, some, List, [], ◌∷◌, ◌++◌, if◌then◌else◌,
}
use long_horizon_context.Contract.{continue_reason}
use long_horizon_context.Contract.Codes.{State, OutcomeKind, ReliefPath, WarningCode}
use long_horizon_context.Contract.Input.{HostStatus, Input}
use long_horizon_context.Contract.Effects.{Effect}
use long_horizon_context.Contract.Receipt.{Residual, Fidelity, Opened, Decision}
use long_horizon_context.Decision.Readings.{degradation_reasons_of}
use long_horizon_context.Decision.Parts.{
  Overrides, no_overrides, empty_residual_extras, residual, residual_marker_persisted,
  DecisionParts, decide,
}
use long_horizon_context.Decision.Effects.{
  record_receipt, retry_classification, attempt_failure_warnings,
}

abbrev pub closing : List Effect
closing = record_receipt ∷ Effect.release_writer ∷ []

abbrev pub is_awaiting : HostStatus → Bool
is_awaiting HostStatus.awaiting = true
is_awaiting _ = false

abbrev pub same_turn : Opened
same_turn = record { opened = false; marker_served = false; same_agentic_turn_preserved = true }

abbrev pub served_turn : Opened
served_turn = record { opened = true; marker_served = true; same_agentic_turn_preserved = false }

abbrev pub fidelity_of : List String → Fidelity
fidelity_of [] = Fidelity.full
fidelity_of (_ ∷ _) = Fidelity.degraded

-- The residual state of a seam whose agentic turn stays open.
abbrev pub preserved : Bool → Option Bool → Bool → Input → Overrides → Residual
preserved prior_intact discarded next_allowed input over = residual (record {
  writer_released = true;
  prior_serving_view_intact = prior_intact;
  forced_continuation_boundary_applied = false;
  continuation_turn_opened = false;
  continuation_turn_id = none;
  marker_persisted = false;
  marker_served = false;
  original_agentic_turn_still_open = true;
  pending_boundary_discarded = discarded;
  next_provider_request_allowed = next_allowed;
  extras = empty_residual_extras input over;
})

-- The residual state of a seam that opened the continuation turn `turn_id`.
abbrev pub continued :
    Bool → String → Bool → Bool → Option Bool → Bool → Input → Overrides → Residual
continued prior_intact turn_id persisted served discarded next_allowed input over =
    residual (record {
      writer_released = true;
      prior_serving_view_intact = prior_intact;
      forced_continuation_boundary_applied = true;
      continuation_turn_opened = true;
      continuation_turn_id = some turn_id;
      marker_persisted = persisted;
      marker_served = served;
      original_agentic_turn_still_open = false;
      pending_boundary_discarded = discarded;
      next_provider_request_allowed = next_allowed;
      extras = empty_residual_extras input over;
    })

abbrev failure_overrides : ReliefPath → Overrides
failure_overrides relief = record no_overrides {
  relief_path = some relief;
  host_validation_status = some HostStatus.not_required;
}

unfoldable pub attempt_failed_after_preserve_parts :
    Input → List State → WarningCode → String → List Effect → Bool → DecisionParts
attempt_failed_after_preserve_parts input path code reason effects_so_far compact_ran =
    let cls = retry_classification input in
    record {
      outcome = cls.outcome;
      terminal_state = cls.terminal_state;
      transition_path = path ++ cls.terminal_state ∷ [];
      effects = effects_so_far ++ (attempt_failure_warnings code reason cls.retry ++ closing);
      reason_code = cls.reason_code;
      turn_end_reason = none;
      fidelity = Fidelity.full;
      degradation_reasons = [];
      continuation = same_turn;
      residual = preserved true none true input (failure_overrides ReliefPath.core_install_failed);
      retry = some cls.retry;
      skipped = false;
      skip_code = none;
      compact_ran = compact_ran;
    }

unfoldable pub attempt_failed_after_preserve :
    Input → List State → WarningCode → String → List Effect → Bool → Decision
attempt_failed_after_preserve input path code reason effects_so_far compact_ran =
    decide input
      (attempt_failed_after_preserve_parts input path code reason effects_so_far compact_ran)

unfoldable pub attempt_failed_after_continue_parts :
    Input → List State → WarningCode → String → List Effect → Bool → String → Bool → DecisionParts
attempt_failed_after_continue_parts input path code reason effects_so_far compact_ran turn_id
      persisted =
    let cls = retry_classification input in
    record {
      outcome = cls.outcome;
      terminal_state = cls.terminal_state;
      transition_path = path ++ cls.terminal_state ∷ [];
      effects = effects_so_far ++ (attempt_failure_warnings code reason cls.retry ++ closing);
      reason_code = cls.reason_code;
      turn_end_reason = some continue_reason;
      fidelity = Fidelity.full;
      degradation_reasons = [];
      continuation = record {
        opened = true;
        marker_served = false;
        same_agentic_turn_preserved = false;
      };
      residual =
          continued true turn_id (residual_marker_persisted input persisted) false none true input (
            failure_overrides (
              if input.compact_material.protected_escalation_applied
              then ReliefPath.protected_escalation
              else ReliefPath.core_install_failed));
      retry = some cls.retry;
      skipped = false;
      skip_code = none;
      compact_ran = compact_ran;
    }

unfoldable pub attempt_failed_after_continue :
    Input → List State → WarningCode → String → List Effect → Bool → String → Bool → Decision
attempt_failed_after_continue input path code reason effects_so_far compact_ran turn_id persisted =
    decide input (
      attempt_failed_after_continue_parts input path code reason effects_so_far compact_ran turn_id
        persisted)

abbrev pub escalated_relief : Bool → HostStatus → ReliefPath
escalated_relief false status = ReliefPath.none
escalated_relief true HostStatus.failed = ReliefPath.host_validation_failed
escalated_relief true HostStatus.awaiting = ReliefPath.host_validation_awaiting
escalated_relief true _ = ReliefPath.protected_escalation

-- What both ends of an installed compact say; they differ in the four fields given.
unfoldable pub installed_parts :
    Input
    → OutcomeKind
    → State
    → List State
    → String
    → List Effect
    → Option String
    → Opened
    → Residual
    → DecisionParts
installed_parts input outcome terminal path reason_code effects turn_end_reason opened
      residual_state =
    let reasons = degradation_reasons_of input in
    record {
      outcome = outcome;
      terminal_state = terminal;
      transition_path = path ++ State.installing ∷ terminal ∷ [];
      effects = effects ++ closing;
      reason_code = reason_code;
      turn_end_reason = turn_end_reason;
      fidelity = fidelity_of reasons;
      degradation_reasons = reasons;
      continuation = opened;
      residual = residual_state;
      retry = none;
      skipped = false;
      skip_code = none;
      compact_ran = true;
    }

unfoldable pub installed :
    Input
    → OutcomeKind
    → State
    → List State
    → String
    → List Effect
    → Option String
    → Opened
    → Residual
    → Decision
installed input outcome terminal path reason_code effects turn_end_reason opened residual_state =
    decide input (
      installed_parts input outcome terminal path reason_code effects turn_end_reason opened
        residual_state)
