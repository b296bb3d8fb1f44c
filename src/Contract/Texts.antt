-- ===== src/Contract/Texts.antt =====
-- The texts of the codes of contract.ts, for messages and reason codes.
use Prim.Native.String.{String}
use long_horizon_context.Contract.Codes.{
  OutcomeKind, State, RefuseCode, WarningCode, SkipCode, WriterClaim,
}

abbrev pub warning_text : WarningCode → String
warning_text WarningCode.capture_incomplete = "capture_incomplete"
warning_text WarningCode.provider_identity_unproven = "provider_identity_unproven"
warning_text WarningCode.open_turn_invariant_unverified = "open_turn_invariant_unverified"
warning_text WarningCode.stale_writer_row_reclaimed = "stale_writer_row_reclaimed"
warning_text WarningCode.writer_owned_elsewhere = "writer_owned_elsewhere"
warning_text WarningCode.tool_correlation_unproven = "tool_correlation_unproven"
warning_text WarningCode.protected_tool_pairs_invalid = "protected_tool_pairs_invalid"
warning_text WarningCode.pending_boundary_discarded = "pending_boundary_discarded"
warning_text WarningCode.boundary_marker_claim_untrusted = "boundary_marker_claim_untrusted"
warning_text WarningCode.continuation_boundary_unavailable = "continuation_boundary_unavailable"
warning_text WarningCode.unsupported_contract_version_omitted =
    "unsupported_contract_version_omitted"
warning_text WarningCode.compact_attempt_failed = "compact_attempt_failed"
warning_text WarningCode.install_attempt_failed = "install_attempt_failed"
warning_text WarningCode.compact_retry_budget_exhausted = "compact_retry_budget_exhausted"
warning_text WarningCode.provider_request_unvalidated = "provider_request_unvalidated"
warning_text WarningCode.unsafe_runway_projection = "unsafe_runway_projection"
warning_text WarningCode.host_validation_failed = "host_validation_failed"

abbrev pub skip_text : SkipCode → String
skip_text SkipCode.not_at_settled_seam = "not_at_settled_seam"
skip_text SkipCode.transport_retry = "transport_retry"

abbrev pub outcome_text : OutcomeKind → String
outcome_text OutcomeKind.continue_normal = "continue_normal"
outcome_text OutcomeKind.compact_preserve_tool = "compact_preserve_tool"
outcome_text OutcomeKind.compact_continue_turn = "compact_continue_turn"
outcome_text OutcomeKind.compact_preserve_tool_escalated = "compact_preserve_tool_escalated"
outcome_text OutcomeKind.normal_complete = "normal_complete"
outcome_text OutcomeKind.degraded_compact = "degraded_compact"
outcome_text OutcomeKind.no_reduction = "no_reduction"
outcome_text OutcomeKind.decline_to_ordinary_compact = "decline_to_ordinary_compact"
outcome_text OutcomeKind.retry_compact = "retry_compact"
outcome_text OutcomeKind.continue_current_body = "continue_current_body"
outcome_text OutcomeKind.skip_seam = "skip_seam"
outcome_text OutcomeKind.refuse = "refuse"

abbrev pub state_text : State → String
state_text State.idle = "idle"
state_text State.at_seam = "at_seam"
state_text State.checking_invariants = "checking_invariants"
state_text State.evaluating_pressure = "evaluating_pressure"
state_text State.below_trigger = "below_trigger"
state_text State.path_preserve_tool = "path_preserve_tool"
state_text State.path_continue_turn = "path_continue_turn"
state_text State.path_normal_complete = "path_normal_complete"
state_text State.compacting = "compacting"
state_text State.installing = "installing"
state_text State.terminal_continue_normal = "terminal_continue_normal"
state_text State.terminal_preserve_tool = "terminal_preserve_tool"
state_text State.terminal_continue_turn = "terminal_continue_turn"
state_text State.terminal_normal_complete = "terminal_normal_complete"
state_text State.terminal_degraded = "terminal_degraded"
state_text State.terminal_no_reduction = "terminal_no_reduction"
state_text State.terminal_decline_ordinary = "terminal_decline_ordinary"
state_text State.terminal_retry = "terminal_retry"
state_text State.terminal_continue_current_body = "terminal_continue_current_body"
state_text State.terminal_skip = "terminal_skip"
state_text State.terminal_refuse = "terminal_refuse"

abbrev pub refuse_text : RefuseCode → String
refuse_text RefuseCode.incomplete_capture = "incomplete_capture"
refuse_text RefuseCode.invalid_tool_correlation = "invalid_tool_correlation"
refuse_text RefuseCode.invalid_provider_identity = "invalid_provider_identity"
refuse_text RefuseCode.open_turn_invariant_broken = "open_turn_invariant_broken"
refuse_text RefuseCode.native_writer_conflict = "native_writer_conflict"
refuse_text RefuseCode.compact_failed = "compact_failed"
refuse_text RefuseCode.install_failed = "install_failed"
refuse_text RefuseCode.no_valid_provider_request = "no_valid_provider_request"
refuse_text RefuseCode.invalid_pending_boundary_continuation =
    "invalid_pending_boundary_continuation"
refuse_text RefuseCode.unsupported_contract_version = "unsupported_contract_version"
refuse_text RefuseCode.invalid_protected_tool_pairs = "invalid_protected_tool_pairs"
refuse_text RefuseCode.unsafe_runway = "unsafe_runway"
refuse_text RefuseCode.host_validation_failed = "host_validation_failed"

abbrev pub claim_text : WriterClaim → String
claim_text WriterClaim.none = "none"
claim_text WriterClaim.lhc = "lhc"
claim_text WriterClaim.native = "native"
claim_text WriterClaim.conflict = "conflict"
