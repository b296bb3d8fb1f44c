-- ===== src/Decision/Tail.antt =====
-- `postCompactTail` of decide.ts, a function for each of its two branches: the classification of a
-- seam at which a compact ran. `none` is the exception that the preserve branch throws.
mod Ends
pub use Ends.{escalated_relief, closing, is_awaiting, same_turn, served_turn, preserved, continued}
unfoldable pub use Ends.{
  attempt_failed_after_preserve_parts, attempt_failed_after_preserve,
  attempt_failed_after_continue_parts, attempt_failed_after_continue, installed_parts, installed,
}
use long_horizon_context.Base.{
  is_nil, String, Bool, true, false, not, ◌&&◌, Option, none, some, List, [], ◌∷◌, ◌++◌,
  if◌then◌else◌, or_else, is_empty,
}
use long_horizon_context.Contract.{continue_reason}
use long_horizon_context.Contract.Codes.{State, OutcomeKind, ReliefPath, WarningCode}
use long_horizon_context.Contract.Input.{
  HostStatus, ForcedBoundary, applied, not_applied, AppliedBoundary, WorkContinuation,
  pending_correlated_tool_result, active_non_tool, Input,
}
use long_horizon_context.Contract.Effects.{Effect}
use long_horizon_context.Contract.Receipt.{Residual, Fidelity, Opened, Decision}
use long_horizon_context.Decision.Readings.{protected_ids_of, degradation_reasons_of}
use long_horizon_context.Decision.Parts.{
  Prelude, Overrides, no_overrides, empty_residual_extras, residual, residual_marker_persisted,
  DecisionParts, decide,
}
use long_horizon_context.Decision.Effects.{
  record_receipt, force_turn_end_effect, compact_effect, marker_effect, retry_classification,
  attempt_failure_warnings, insert_degrade_after_compact, body_quality_warnings,
  boundary_advance_effects, host_validation_effects,
}
use long_horizon_context.Decision.Exits.{decline_to_ordinary}

abbrev pub pairs_if : List String → List Effect
pairs_if [] = []
pairs_if (id ∷ ids) = Effect.preserve_tool_pairs_verbatim (id ∷ ids) "open_turn_tail" ∷ []

-- The effects of the continue-turn branch up to the compact.
unfoldable pub continue_claimed : Input → Prelude → AppliedBoundary → List Effect
continue_claimed input prelude boundary =
    prelude.effects
    ++ (Effect.claim_writer "lhc" ∷ [])
    ++ (if boundary.forced_this_seam
        then force_turn_end_effect boundary.continuation_turn_id ∷ []
        else [])
    ++ (compact_effect input ∷ [])

-- The same up to the marker.
unfoldable pub continue_assembled : Input → Prelude → AppliedBoundary → List Effect
continue_assembled input prelude boundary =
    insert_degrade_after_compact
      (continue_claimed input prelude boundary ++ body_quality_warnings input)
      (degradation_reasons_of input)
    ++ marker_effect boundary.continuation_turn_id ∷ []

-- `installTail`
unfoldable pub continue_install : Input → List String → HostStatus → List Effect
continue_install input ids status =
    pairs_if ids
    ++ (boundary_advance_effects input
        ++ (Effect.install_serving_view ∷ host_validation_effects status))

-- The continue-turn branch behind its guard.
unfoldable pub continue_turn_tail : Input → List State → Prelude → AppliedBoundary → Decision
continue_turn_tail input branch_path prelude boundary =
    let material = input.compact_material in
    let reasons = degradation_reasons_of input in
    let turn_id = boundary.continuation_turn_id in
    let claimed = continue_claimed input prelude boundary in
    let path = branch_path ++ State.compacting ∷ [] in
    let effects_so_far = continue_assembled input prelude boundary in
    let ids = protected_ids_of input in
    let escalated = not (is_nil ids) && material.protected_escalation_applied in
    let status =
      or_else material.host_validation_status
        (if escalated then HostStatus.awaiting else HostStatus.not_required) in
    let effects = effects_so_far ++ continue_install input ids status in
    let residual_state =
      continued false turn_id true true (some prelude.boundary_discarded) (not (is_awaiting status))
        input
        (record no_overrides {
          relief_path = some (escalated_relief escalated status);
          protected_tool_call_ids = some ids;
          host_validation_status = some status;
          core_install_retained_pending_host_validation = some (is_awaiting status);
        }) in
    let degraded = not (is_nil reasons) in
    if not material.compact_structurally_valid
    then attempt_failed_after_continue input path WarningCode.compact_attempt_failed
        "compact assembly could not produce a structurally valid view" claimed true turn_id false
    else if not material.install_succeeds
    then attempt_failed_after_continue input (path ++ State.installing ∷ [])
        WarningCode.install_attempt_failed "post-compact serving view could not be installed"
        effects_so_far true turn_id true
    else if not material.useful_reduction
    then installed input OutcomeKind.no_reduction State.terminal_no_reduction path
        "no_useful_reduction" effects (some continue_reason) served_turn residual_state
    else installed input
        (if degraded
          then OutcomeKind.degraded_compact
          else if escalated
          then OutcomeKind.compact_preserve_tool_escalated
          else OutcomeKind.compact_continue_turn)
        (if degraded then State.terminal_degraded else State.terminal_continue_turn) path
        (if degraded
          then "degraded_continue_turn"
          else if escalated
          then "protected_escalation"
          else continue_reason)
        effects (some continue_reason) served_turn residual_state

abbrev pub continue_guarded : ForcedBoundary → Input → List State → Prelude → Decision
continue_guarded not_applied input path prelude =
    decline_to_ordinary input path prelude WarningCode.continuation_boundary_unavailable
      "continue-turn compact requires an applied forcedContinuationBoundary with a continuationTurnId; declining into ordinary settled-seam compact"
continue_guarded (applied boundary) input path prelude =
    if is_empty boundary.continuation_turn_id
    then decline_to_ordinary input path prelude WarningCode.continuation_boundary_unavailable
        "continue-turn compact requires an applied forcedContinuationBoundary with a continuationTurnId; declining into ordinary settled-seam compact"
    else continue_turn_tail input path prelude boundary

unfoldable pub preserve_claimed : Input → Prelude → List Effect
preserve_claimed input prelude =
    prelude.effects ++ (Effect.claim_writer "lhc" ∷ []) ++ (compact_effect input ∷ [])

unfoldable pub preserve_assembled : Input → Prelude → List Effect
preserve_assembled input prelude =
    insert_degrade_after_compact (preserve_claimed input prelude ++ body_quality_warnings input)
      (degradation_reasons_of input)

-- The preserve-tool branch behind its guard.
unfoldable pub preserve_tool_tail : Input → List State → Prelude → Decision
preserve_tool_tail input branch_path prelude =
    let material = input.compact_material in
    let reasons = degradation_reasons_of input in
    let ids = protected_ids_of input in
    let claimed = preserve_claimed input prelude in
    let path = branch_path ++ State.compacting ∷ [] in
    let effects_so_far = preserve_assembled input prelude in
    let preserve = Effect.preserve_tool_pairs_verbatim ids "open_turn_tail" in
    let status = or_else material.host_validation_status HostStatus.not_required in
    let effects =
      effects_so_far ++ (preserve ∷ Effect.install_serving_view ∷ host_validation_effects status) in
    let residual_state =
      preserved false (some prelude.boundary_discarded) (not (is_awaiting status)) input
        (record no_overrides {
          relief_path = some ReliefPath.normal_preserve;
          host_validation_status = some status;
          core_install_retained_pending_host_validation = some (is_awaiting status);
        }) in
    let degraded = not (is_nil reasons) in
    if not material.compact_structurally_valid
    then attempt_failed_after_preserve input path WarningCode.compact_attempt_failed
        "compact assembly could not produce a structurally valid view" claimed true
    else if not material.install_succeeds
    then attempt_failed_after_preserve input (path ++ State.installing ∷ [])
        WarningCode.install_attempt_failed "post-compact serving view could not be installed"
        (effects_so_far ++ preserve ∷ []) true
    else if not material.useful_reduction
    then installed input OutcomeKind.no_reduction State.terminal_no_reduction path
        "no_useful_reduction" effects none same_turn residual_state
    else installed input
        (if degraded then OutcomeKind.degraded_compact else OutcomeKind.compact_preserve_tool)
        (if degraded then State.terminal_degraded else State.terminal_preserve_tool) path
        (if degraded then "degraded_preserve_tool" else "compact_preserve_tool") effects none
        same_turn residual_state

abbrev pub preserve_guarded : WorkContinuation → Input → List State → Prelude → Option Decision
preserve_guarded (pending_correlated_tool_result _ _) input path prelude =
    some (preserve_tool_tail input path prelude)
preserve_guarded WorkContinuation.none input path prelude = none
preserve_guarded active_non_tool input path prelude = none

pub data Branch : Type 0 where
  preserve_tool continue_turn : Branch

unfoldable pub post_compact_tail : Input → List State → Prelude → Branch → Option Decision
post_compact_tail input path prelude Branch.continue_turn = some (
    continue_guarded input.forced_continuation_boundary input
      (path ++ State.path_continue_turn ∷ []) prelude)
post_compact_tail input path prelude Branch.preserve_tool =
    preserve_guarded input.continuation input (path ++ State.path_preserve_tool ∷ []) prelude
