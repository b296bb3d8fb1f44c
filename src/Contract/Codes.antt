-- ===== src/Contract/Codes.antt =====
-- The closed vocabularies of packages/lhc/src/shared-tech/compact-continuation/contract.ts, with the
-- arrays that list them. A string of the source is a constructor of the same spelling.
use mathlib.Core.List.{List, [], ◌∷◌}

pub data HostCapability : Type 0 where
  full_state_machine : HostCapability
  capability_limited : HostCapability

abbrev pub host_capabilities : List HostCapability
host_capabilities = HostCapability.full_state_machine ∷ HostCapability.capability_limited ∷ []

unfoldable pub HostCapability-discrete : Discrete HostCapability
HostCapability-discrete = hlevel

pub data State : Type 0 where
  idle : State
  at_seam : State
  checking_invariants : State
  evaluating_pressure : State
  below_trigger : State
  path_preserve_tool : State
  path_continue_turn : State
  path_normal_complete : State
  compacting : State
  installing : State
  terminal_continue_normal : State
  terminal_preserve_tool : State
  terminal_continue_turn : State
  terminal_normal_complete : State
  terminal_degraded : State
  terminal_no_reduction : State
  terminal_decline_ordinary : State
  terminal_retry : State
  terminal_continue_current_body : State
  terminal_skip : State
  terminal_refuse : State

abbrev pub states : List State
states =
    State.idle ∷ State.at_seam ∷ State.checking_invariants ∷ State.evaluating_pressure
    ∷ State.below_trigger ∷ State.path_preserve_tool ∷ State.path_continue_turn
    ∷ State.path_normal_complete ∷ State.compacting ∷ State.installing
    ∷ State.terminal_continue_normal ∷ State.terminal_preserve_tool ∷ State.terminal_continue_turn
    ∷ State.terminal_normal_complete ∷ State.terminal_degraded ∷ State.terminal_no_reduction
    ∷ State.terminal_decline_ordinary ∷ State.terminal_retry ∷ State.terminal_continue_current_body
    ∷ State.terminal_skip ∷ State.terminal_refuse ∷ []

unfoldable pub State-discrete : Discrete State
State-discrete = hlevel

pub data OutcomeKind : Type 0 where
  continue_normal : OutcomeKind
  compact_preserve_tool : OutcomeKind
  compact_continue_turn : OutcomeKind
  compact_preserve_tool_escalated : OutcomeKind
  normal_complete : OutcomeKind
  degraded_compact : OutcomeKind
  no_reduction : OutcomeKind
  decline_to_ordinary_compact : OutcomeKind
  retry_compact : OutcomeKind
  continue_current_body : OutcomeKind
  skip_seam : OutcomeKind
  refuse : OutcomeKind

abbrev pub outcome_kinds : List OutcomeKind
outcome_kinds =
    OutcomeKind.continue_normal ∷ OutcomeKind.compact_preserve_tool
    ∷ OutcomeKind.compact_continue_turn ∷ OutcomeKind.compact_preserve_tool_escalated
    ∷ OutcomeKind.normal_complete ∷ OutcomeKind.degraded_compact ∷ OutcomeKind.no_reduction
    ∷ OutcomeKind.decline_to_ordinary_compact ∷ OutcomeKind.retry_compact
    ∷ OutcomeKind.continue_current_body ∷ OutcomeKind.skip_seam ∷ OutcomeKind.refuse ∷ []

unfoldable pub OutcomeKind-discrete : Discrete OutcomeKind
OutcomeKind-discrete = hlevel

pub data ReliefPath : Type 0 where
  none : ReliefPath
  normal_preserve : ReliefPath
  protected_escalation : ReliefPath
  core_install_failed : ReliefPath
  host_validation_awaiting : ReliefPath
  host_validation_failed : ReliefPath
  host_validation_ok : ReliefPath

abbrev pub relief_paths : List ReliefPath
relief_paths =
    ReliefPath.none ∷ ReliefPath.normal_preserve ∷ ReliefPath.protected_escalation
    ∷ ReliefPath.core_install_failed ∷ ReliefPath.host_validation_awaiting
    ∷ ReliefPath.host_validation_failed ∷ ReliefPath.host_validation_ok ∷ []

unfoldable pub ReliefPath-discrete : Discrete ReliefPath
ReliefPath-discrete = hlevel

pub data SkipCode : Type 0 where
  not_at_settled_seam : SkipCode
  transport_retry : SkipCode

abbrev pub skip_codes : List SkipCode
skip_codes = SkipCode.not_at_settled_seam ∷ SkipCode.transport_retry ∷ []

unfoldable pub SkipCode-discrete : Discrete SkipCode
SkipCode-discrete = hlevel

pub data RefuseCode : Type 0 where
  incomplete_capture : RefuseCode
  invalid_tool_correlation : RefuseCode
  invalid_provider_identity : RefuseCode
  open_turn_invariant_broken : RefuseCode
  native_writer_conflict : RefuseCode
  compact_failed : RefuseCode
  install_failed : RefuseCode
  no_valid_provider_request : RefuseCode
  invalid_pending_boundary_continuation : RefuseCode
  unsupported_contract_version : RefuseCode
  invalid_protected_tool_pairs : RefuseCode
  unsafe_runway : RefuseCode
  host_validation_failed : RefuseCode

abbrev pub refuse_codes : List RefuseCode
refuse_codes =
    RefuseCode.incomplete_capture ∷ RefuseCode.invalid_tool_correlation
    ∷ RefuseCode.invalid_provider_identity ∷ RefuseCode.open_turn_invariant_broken
    ∷ RefuseCode.native_writer_conflict ∷ RefuseCode.compact_failed ∷ RefuseCode.install_failed
    ∷ RefuseCode.no_valid_provider_request ∷ RefuseCode.invalid_pending_boundary_continuation
    ∷ RefuseCode.unsupported_contract_version ∷ RefuseCode.invalid_protected_tool_pairs
    ∷ RefuseCode.unsafe_runway ∷ RefuseCode.host_validation_failed ∷ []

unfoldable pub RefuseCode-discrete : Discrete RefuseCode
RefuseCode-discrete = hlevel

pub data WarningCode : Type 0 where
  capture_incomplete : WarningCode
  provider_identity_unproven : WarningCode
  open_turn_invariant_unverified : WarningCode
  stale_writer_row_reclaimed : WarningCode
  writer_owned_elsewhere : WarningCode
  tool_correlation_unproven : WarningCode
  protected_tool_pairs_invalid : WarningCode
  pending_boundary_discarded : WarningCode
  boundary_marker_claim_untrusted : WarningCode
  continuation_boundary_unavailable : WarningCode
  unsupported_contract_version_omitted : WarningCode
  compact_attempt_failed : WarningCode
  install_attempt_failed : WarningCode
  compact_retry_budget_exhausted : WarningCode
  provider_request_unvalidated : WarningCode
  unsafe_runway_projection : WarningCode
  host_validation_failed : WarningCode

abbrev pub warning_codes : List WarningCode
warning_codes =
    WarningCode.capture_incomplete ∷ WarningCode.provider_identity_unproven
    ∷ WarningCode.open_turn_invariant_unverified ∷ WarningCode.stale_writer_row_reclaimed
    ∷ WarningCode.writer_owned_elsewhere ∷ WarningCode.tool_correlation_unproven
    ∷ WarningCode.protected_tool_pairs_invalid ∷ WarningCode.pending_boundary_discarded
    ∷ WarningCode.boundary_marker_claim_untrusted ∷ WarningCode.continuation_boundary_unavailable
    ∷ WarningCode.unsupported_contract_version_omitted ∷ WarningCode.compact_attempt_failed
    ∷ WarningCode.install_attempt_failed ∷ WarningCode.compact_retry_budget_exhausted
    ∷ WarningCode.provider_request_unvalidated ∷ WarningCode.unsafe_runway_projection
    ∷ WarningCode.host_validation_failed ∷ []

unfoldable pub WarningCode-discrete : Discrete WarningCode
WarningCode-discrete = hlevel

pub data WriterClaim : Type 0 where
  none : WriterClaim
  lhc : WriterClaim
  native : WriterClaim
  conflict : WriterClaim

abbrev pub writer_claims : List WriterClaim
writer_claims = WriterClaim.none ∷ WriterClaim.lhc ∷ WriterClaim.native ∷ WriterClaim.conflict ∷ []

unfoldable pub WriterClaim-discrete : Discrete WriterClaim
WriterClaim-discrete = hlevel
