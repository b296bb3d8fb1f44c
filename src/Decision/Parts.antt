-- ===== src/Decision/Parts.antt =====
-- Residual state, receipt and decision of decide.ts, from their parts.
use long_horizon_context.Base.{
  String, Bool, true, false, ◌&&◌, ◌||◌, not, Option, none, some, List, ℕ, or_else,
}
use long_horizon_context.Contract.{contract_version}
use long_horizon_context.Contract.Codes.{State, OutcomeKind, ReliefPath, SkipCode, RefuseCode}
use long_horizon_context.Contract.Input.{
  ForcedBoundary, applied, not_applied, AppliedBoundary, HostStatus, Input,
}
use long_horizon_context.Contract.Effects.{Effect}
use long_horizon_context.Contract.Receipt.{Residual, Retry, Fidelity, Opened, Receipt, Decision}
use long_horizon_context.Decision.Readings.{
  warnings_of, no_retry, pressure_receipt, protected_ids_of, lower_target_receipt,
}

-- What the steps before the branch left behind: `SeamPrelude`.
pub record Prelude : Type 0 where
  pub effects : List Effect
  pub boundary_discarded : Bool

-- The fields that `emptyResidualExtras` fills.
pub record Extras : Type 0 where
  pub relief_path : ReliefPath
  pub protected_tool_call_ids : List String
  pub visibility_boundary_before : Option ℕ
  pub visibility_boundary_after : Option ℕ
  pub host_validation_status : HostStatus
  pub core_install_retained_pending_host_validation : Bool

-- Its argument `over`.
pub record Overrides : Type 0 where
  pub relief_path : Option ReliefPath
  pub protected_tool_call_ids : Option (List String)
  pub visibility_boundary_before : Option (Option ℕ)
  pub visibility_boundary_after : Option (Option ℕ)
  pub host_validation_status : Option HostStatus
  pub core_install_retained_pending_host_validation : Option Bool

abbrev pub no_overrides : Overrides
no_overrides = record {
  relief_path = none;
  protected_tool_call_ids = none;
  visibility_boundary_before = none;
  visibility_boundary_after = none;
  host_validation_status = none;
  core_install_retained_pending_host_validation = none;
}

unfoldable pub empty_residual_extras : Input → Overrides → Extras
empty_residual_extras input over = record {
  relief_path = or_else over.relief_path ReliefPath.none;
  protected_tool_call_ids = or_else over.protected_tool_call_ids (protected_ids_of input);
  visibility_boundary_before =
      or_else over.visibility_boundary_before input.compact_material.visibility_boundary_before;
  visibility_boundary_after =
      or_else over.visibility_boundary_after input.compact_material.visibility_boundary_after;
  host_validation_status =
      or_else over.host_validation_status
        (or_else input.compact_material.host_validation_status HostStatus.not_required);
  core_install_retained_pending_host_validation =
      or_else over.core_install_retained_pending_host_validation false;
}

pub record ResidualParts : Type 0 where
  pub writer_released : Bool
  pub prior_serving_view_intact : Bool
  pub forced_continuation_boundary_applied : Bool
  pub continuation_turn_opened : Bool
  pub continuation_turn_id : Option String
  pub marker_persisted : Bool
  pub marker_served : Bool
  pub original_agentic_turn_still_open : Bool
  pub pending_boundary_discarded : Option Bool
  pub next_provider_request_allowed : Bool
  pub extras : Extras

unfoldable pub residual : ResidualParts → Residual
residual parts = record {
  writer_released = parts.writer_released;
  prior_serving_view_intact = parts.prior_serving_view_intact;
  forced_continuation_boundary_applied = parts.forced_continuation_boundary_applied;
  continuation_turn_opened = parts.continuation_turn_opened;
  continuation_turn_id = parts.continuation_turn_id;
  marker_persisted = parts.marker_persisted;
  marker_served = parts.marker_served;
  original_agentic_turn_still_open = parts.original_agentic_turn_still_open;
  pending_boundary_discarded = or_else parts.pending_boundary_discarded false;
  next_provider_request_allowed = parts.next_provider_request_allowed;
  relief_path = parts.extras.relief_path;
  protected_tool_call_ids = parts.extras.protected_tool_call_ids;
  visibility_boundary_before = parts.extras.visibility_boundary_before;
  visibility_boundary_after = parts.extras.visibility_boundary_after;
  host_validation_status = parts.extras.host_validation_status;
  core_install_retained_pending_host_validation =
      parts.extras.core_install_retained_pending_host_validation;
}

-- A marker that an earlier attempt persisted, if the input's claim of it can be trusted.
abbrev pub trust_prior_marker : AppliedBoundary → Bool
trust_prior_marker b = not b.forced_this_seam && b.marker_already_persisted

abbrev pub overlay : ForcedBoundary → ResidualParts → ResidualParts
overlay not_applied base = base
overlay (applied b) base = record base {
  forced_continuation_boundary_applied = true;
  continuation_turn_opened = true;
  continuation_turn_id = some b.continuation_turn_id;
  marker_persisted = base.marker_persisted || trust_prior_marker b;
  original_agentic_turn_still_open = false;
}

unfoldable pub applied_boundary_residual_overlay : Input → ResidualParts → ResidualParts
applied_boundary_residual_overlay input base = overlay input.forced_continuation_boundary base

abbrev marker_persisted_after : ForcedBoundary → Bool → Bool
marker_persisted_after not_applied attempt = attempt
marker_persisted_after (applied b) attempt = attempt || trust_prior_marker b

unfoldable pub residual_marker_persisted : Input → Bool → Bool
residual_marker_persisted input attempt_persisted =
    marker_persisted_after input.forced_continuation_boundary attempt_persisted

-- The second argument of `baseReceipt`.
pub record ReceiptParts : Type 0 where
  pub outcome : OutcomeKind
  pub reason_code : String
  pub turn_end_reason : Option String
  pub fidelity : Fidelity
  pub degradation_reasons : List String
  pub continuation : Opened
  pub effects : List Effect
  pub residual : Residual
  pub retry : Retry
  pub refused : Bool
  pub refuse_code : Option RefuseCode
  pub skipped : Bool
  pub skip_code : Option SkipCode
  pub transition_path : List State
  pub compact_ran : Bool

unfoldable pub base_receipt : Input → ReceiptParts → Receipt
base_receipt input parts = record {
  contract_version = contract_version;
  outcome = parts.outcome;
  reason_code = parts.reason_code;
  turn_end_reason = parts.turn_end_reason;
  pressure = pressure_receipt input;
  lower_target = lower_target_receipt input parts.compact_ran;
  fidelity = parts.fidelity;
  degradation_reasons = parts.degradation_reasons;
  warnings = warnings_of parts.effects;
  retry = parts.retry;
  continuation = parts.continuation;
  relief_path = parts.residual.relief_path;
  protected_tool_call_ids = parts.residual.protected_tool_call_ids;
  effects = parts.effects;
  residual = parts.residual;
  refused = parts.refused;
  refuse_code = parts.refuse_code;
  skipped = parts.skipped;
  skip_code = parts.skip_code;
  transition_path = parts.transition_path;
}

-- The second argument of `decide`.
pub record DecisionParts : Type 0 where
  pub outcome : OutcomeKind
  pub terminal_state : State
  pub transition_path : List State
  pub effects : List Effect
  pub reason_code : String
  pub turn_end_reason : Option String
  pub fidelity : Fidelity
  pub degradation_reasons : List String
  pub continuation : Opened
  pub residual : Residual
  pub retry : Option Retry
  pub skipped : Bool
  pub skip_code : Option SkipCode
  pub compact_ran : Bool

unfoldable pub decide : Input → DecisionParts → Decision
unfolding base_receipt
decide input parts = record {
  outcome = parts.outcome;
  terminal_state = parts.terminal_state;
  transition_path = parts.transition_path;
  effects = parts.effects;
  receipt = base_receipt input (record {
    outcome = parts.outcome;
    reason_code = parts.reason_code;
    turn_end_reason = parts.turn_end_reason;
    fidelity = parts.fidelity;
    degradation_reasons = parts.degradation_reasons;
    continuation = parts.continuation;
    effects = parts.effects;
    residual = parts.residual;
    retry = or_else parts.retry (no_retry input);
    refused = false;
    refuse_code = none;
    skipped = parts.skipped;
    skip_code = parts.skip_code;
    transition_path = parts.transition_path;
    compact_ran = parts.compact_ran;
  });
}
