-- ===== src/Validation/SequenceChecks.antt =====
-- The checks of `validateCompactContinuationReceipt` (validate.ts) on the order of the effects, and
-- on what the effects and the residual state say of one another. `open_continuation_turn` is no
-- effect of the type, so the test for it is left out.
use long_horizon_context.Base.{
  ℕ, suc, String, Bool, true, false, not, ◌&&◌, ◌||◌, Option, none, some, List, [], ◌∷◌, ◌++◌, map,
  ltb, if◌then◌else◌, str_eq, any, find, decide,
}
use long_horizon_context.Contract.{continue_reason}
use long_horizon_context.Contract.Codes.{OutcomeKind, RefuseCode, WarningCode}
use long_horizon_context.Contract.Effects.{Effect, EffectType, EffectType-discrete, type_of}
use long_horizon_context.Contract.Receipt.{Receipt, Warning}
use long_horizon_context.Validation.Issues.{Issue, issue_if}

abbrev pub same_type : EffectType → EffectType → Bool
same_type t u = decide (EffectType-discrete t u)

-- `types.includes(t)`
unfoldable pub includes : EffectType → List EffectType → Bool
includes t types = any (λ u. same_type t u) types

-- `types.indexOf(t)`; `none` is -1
unfoldable pub index_of : EffectType → List EffectType → Option ℕ
index_of t [] = none
index_of t (u ∷ types) =
    let rest : Option ℕ = elim (index_of t types) [ none ↦ none | some i ↦ some (suc i) ] in
    if same_type t u then some 0 else rest

-- `i > j`
abbrev pub gt_index : Option ℕ → Option ℕ → Bool
gt_index none j = false
gt_index (some i) none = true
gt_index (some i) (some j) = ltb j i

abbrev pub later : EffectType → EffectType → List EffectType → Bool
later t u types = gt_index (index_of t types) (index_of u types)

abbrev pub is_continue : Option String → Bool
is_continue none = false
is_continue (some reason) = str_eq reason continue_reason

abbrev pub is_force : Effect → Bool
is_force (Effect.force_turn_end _) = true
is_force _ = false

abbrev pub is_marker : Effect → Bool
is_marker (Effect.insert_continuation_marker _) = true
is_marker _ = false

abbrev pub turn_ids_differ : Option Effect → Option Effect → Bool
turn_ids_differ (some (Effect.force_turn_end e)) (some (Effect.insert_continuation_marker m)) =
    not (str_eq e.continuation_turn_id m.continuation_turn_id)
turn_ids_differ _ _ = false

unfoldable pub turn_id_checks : List Effect → List Issue
turn_id_checks effects =
    issue_if (turn_ids_differ (find is_force effects) (find is_marker effects)) "effects"
      "force_turn_end and marker continuationTurnId must match"

unfoldable pub force_checks : List EffectType → Receipt → List Issue
force_checks types r =
    issue_if (includes EffectType.force_turn_end types && not (is_continue r.turn_end_reason))
      "turnEndReason" "force_turn_end requires turnEndReason context_compact_continue"

unfoldable pub boundary_checks : Receipt → List Issue
boundary_checks r =
    issue_if
      (r.residual.forced_continuation_boundary_applied && not (is_continue r.turn_end_reason))
      "turnEndReason"
      "forcedContinuationBoundaryApplied requires turnEndReason context_compact_continue"
    ++ issue_if (r.residual.forced_continuation_boundary_applied && not r.continuation.opened)
        "continuation.opened" "forced boundary must open exactly one continuation turn"

-- `protectedEscalationEffects` and the two checks that it excuses
unfoldable pub exclusion_checks : List EffectType → List Issue
exclusion_checks types =
    let has_force = includes EffectType.force_turn_end types in
    let has_marker = includes EffectType.insert_continuation_marker types in
    let has_preserve = includes EffectType.preserve_tool_pairs_verbatim types in
    let has_advance = includes EffectType.advance_visibility_boundary types in
    let escalation = has_preserve && (has_force || has_marker || has_advance) in
    issue_if (has_preserve && has_marker && not escalation) "effects"
      "preserve_tool and continuation marker are mutually exclusive"
    ++ issue_if (has_preserve && has_force && not escalation) "effects"
        "preserve_tool path must not force turn_end"

unfoldable pub order_checks : List EffectType → Receipt → List Issue
order_checks types r =
    let has_force = includes EffectType.force_turn_end types in
    let has_install = includes EffectType.install_serving_view types in
    let has_claim = includes EffectType.claim_writer types in
    let has_release = includes EffectType.release_writer types in
    let has_compact = includes EffectType.compact types in
    let has_degrade = includes EffectType.degrade_fidelity types in
    issue_if (has_claim && r.residual.writer_released && not has_release) "effects"
      "claim_writer with residual.writerReleased requires release_writer"
    ++ issue_if
        (has_claim && has_release && later EffectType.claim_writer EffectType.release_writer types)
        "effects" "claim_writer must precede release_writer"
    ++ issue_if
        (has_force && has_compact && later EffectType.force_turn_end EffectType.compact types)
        "effects" "force_turn_end must precede compact so the closed turn is eligible"
    ++ issue_if
        (has_compact
          && has_install
          && later EffectType.compact EffectType.install_serving_view types)
        "effects" "compact must precede install_serving_view"
    ++ issue_if
        (has_degrade && has_compact && later EffectType.compact EffectType.degrade_fidelity types)
        "effects" "degrade_fidelity must be classified at/after compact assembly"
    ++ issue_if
        (has_degrade
          && has_install
          && later EffectType.degrade_fidelity EffectType.install_serving_view types)
        "effects" "degrade_fidelity must precede install (classified at assembly)"

abbrev is_attempt_failed : OutcomeKind → Bool
is_attempt_failed OutcomeKind.refuse = true
is_attempt_failed OutcomeKind.retry_compact = true
is_attempt_failed OutcomeKind.continue_current_body = true
is_attempt_failed _ = false

abbrev is_install_refusal : Option RefuseCode → Bool
is_install_refusal (some RefuseCode.install_failed) = true
is_install_refusal _ = false

abbrev pub is_install_warning : WarningCode → Bool
is_install_warning WarningCode.install_attempt_failed = true
is_install_warning _ = false

abbrev pub warns_install : Warning → Bool
warns_install w = is_install_warning w.code

unfoldable pub install_checks : List EffectType → Receipt → List Issue
install_checks types r =
    let has_install = includes EffectType.install_serving_view types in
    let has_marker = includes EffectType.insert_continuation_marker types in
    let install_failed = is_install_refusal r.refuse_code || any warns_install r.warnings in
    issue_if (has_install && r.residual.prior_serving_view_intact) "residual.priorServingViewIntact"
      "successful install_serving_view means prior serving view is not intact"
    ++ issue_if
        (not has_install && not r.residual.prior_serving_view_intact && is_attempt_failed r.outcome)
        "residual.priorServingViewIntact"
        "install failure must not imply a partially installed view"
    ++ issue_if (install_failed && has_install) "effects"
        "a failed install must not include successful install_serving_view"
    ++ issue_if (install_failed && r.residual.marker_served) "residual.markerServed"
        "a failed install means the marker was not served"
    ++ issue_if (has_marker && not r.residual.marker_persisted) "residual.markerPersisted"
        "insert_continuation_marker requires markerPersisted"

abbrev pub is_continue_turn : OutcomeKind → Bool
is_continue_turn OutcomeKind.compact_continue_turn = true
is_continue_turn _ = false

unfoldable pub continuation_checks : List EffectType → Receipt → List Issue
continuation_checks types r =
    let has_marker = includes EffectType.insert_continuation_marker types in
    issue_if (r.continuation.marker_served && not has_marker) "continuation.markerServed"
      "true requires insert_continuation_marker"
    ++ issue_if (r.continuation.marker_served && not r.residual.marker_served)
        "continuation.markerServed" "must match residual.markerServed"
    ++ issue_if (r.continuation.opened && r.continuation.same_agentic_turn_preserved)
        "continuation.sameAgenticTurnPreserved"
        "opened continuation must close the prior agentic turn"
    ++ issue_if (is_continue_turn r.outcome && not (is_continue r.turn_end_reason)) "turnEndReason"
        "compact_continue_turn requires context_compact_continue"
    ++ issue_if (is_continue_turn r.outcome && not has_marker) "effects"
        "compact_continue_turn requires continuation marker"

unfoldable pub sequence_checks : Receipt → List Issue
sequence_checks r =
    let types = map type_of r.effects in
    force_checks types r
    ++ turn_id_checks r.effects
    ++ boundary_checks r
    ++ exclusion_checks types
    ++ order_checks types r
    ++ install_checks types r
    ++ continuation_checks types r
