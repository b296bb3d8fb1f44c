-- ===== src/Validity/ContinueTail.antt =====
-- The continue-turn branch of `postCompactTail` (decide.ts), against the checks.
use long_horizon_context.Base.{
  is_nil, ◌≡◌, refl, String, Bool, true, false, not, some, List, [], ◌∷◌, ◌++◌, arith, All,
  All-append, if◌then◌else◌, decide,
}
use long_horizon_context.Contract.{continue_reason}
use long_horizon_context.Contract.Codes.{
  State, State-discrete, OutcomeKind, WarningCode, ReliefPath,
}
use long_horizon_context.Contract.Input.{Input, HostStatus, AppliedBoundary}
use long_horizon_context.Contract.Effects.{Effect, EffectType}
use long_horizon_context.Decision.Readings.{degradation_reasons_of}
use long_horizon_context.Decision.Parts.{Prelude}
use long_horizon_context.Decision.Effects.{compact_effect, force_turn_end_effect, marker_effect}
use long_horizon_context.Decision.Tail.{
  attempt_failed_after_continue, installed, continue_claimed, continue_assembled, continue_install,
  continue_turn_tail, served_turn, continued, is_awaiting,
}
use long_horizon_context.Decision.Oracle.{evaluating_path}
use long_horizon_context.Validation.EffectChecks.{validate_effect}
use long_horizon_context.Validation.DecisionChecks.{validate_decision}
use long_horizon_context.Validity.EffectLists.{IsSound}
use long_horizon_context.Validity.Sequences.{skeleton}
use long_horizon_context.Validity.Soft.{IsSoft, AtTurn, IsSound-soft, AtTurn-soft, skeleton-append}
use long_horizon_context.Validity.Shapes.{shape, IsQuiet, IsQuiet-soft}
use long_horizon_context.Validity.Assembly.{
  body_quality-IsSoft, continue_claimed-All, continue_assembled-All, skeleton-continue_claimed,
  skeleton-continue_assembled,
}
use long_horizon_context.Validity.Decisions.{validate_decision-nil, valid-if}
use long_horizon_context.Validity.Fits.{Fits}
use long_horizon_context.Validity.Installs.{
  IsFilled, force-IsSound, marker-IsSound, install-IsSound, install-AtTurn, install-IsQuiet,
  skeleton-continue_install, protected-IsFilled,
}
use long_horizon_context.Validity.Failures.{IsAttempt, failed_continue-Passes}
use long_horizon_context.Validity.Installed.{
  install_overrides, IsEnd, IsInstall, installed_continue-Passes,
}

pub claim-IsSound : IsSound (Effect.claim_writer "lhc")
unfolding validate_effect
claim-IsSound = λ q. refl

pub compact-IsSound : (input : Input) → IsSound (compact_effect input)
unfolding validate_effect compact_effect
compact-IsSound input = λ q. refl

pub degrade-IsSound : (causes : List String) → IsSound (Effect.degrade_fidelity causes)
unfolding validate_effect
degrade-IsSound causes = λ q. refl

continue_claimed-shape :
    (input : Input) (prelude : Prelude) (boundary : AppliedBoundary)
    → All IsSoft prelude.effects
    → skeleton (continue_claimed input prelude boundary) ++ EffectType.release_writer ∷ []
      ≡ shape boundary.forced_this_seam false false false
continue_claimed-shape input prelude boundary h =
    rw (skeleton-continue_claimed input prelude boundary h) (ground arith)

continue_assembled-shape :
    (input : Input) (prelude : Prelude) (boundary : AppliedBoundary)
    → All IsSoft prelude.effects
    → skeleton (continue_assembled input prelude boundary) ++ EffectType.release_writer ∷ []
      ≡ shape boundary.forced_this_seam (not (is_nil (degradation_reasons_of input))) true false
continue_assembled-shape input prelude boundary h =
    rw (skeleton-continue_assembled input prelude boundary h) (ground arith)

continue_effects-shape :
    (input : Input) (prelude : Prelude) (boundary : AppliedBoundary) (ids : List String)
    (status : HostStatus)
    → All IsSoft prelude.effects
    → skeleton (continue_assembled input prelude boundary ++ continue_install input ids status)
        ++ EffectType.release_writer ∷ []
      ≡ shape boundary.forced_this_seam (not (is_nil (degradation_reasons_of input))) true true
continue_effects-shape input prelude boundary ids status h =
    rw
      (
        skeleton-append,
        skeleton-continue_assembled input prelude boundary h,
        skeleton-continue_install input ids status,
      )
      (ground arith)

IsAttempt-compacting :
    IsAttempt (evaluating_path ++ State.path_continue_turn ∷ State.compacting ∷ [])
unfolding State-discrete decide
IsAttempt-compacting = record { branched = refl; no_below = refl }

IsAttempt-installing :
    IsAttempt
      (evaluating_path ++ State.path_continue_turn ∷ State.compacting ∷ State.installing ∷ [])
unfolding State-discrete decide
IsAttempt-installing = record { branched = refl; no_below = refl }

no_reduction-IsEnd : IsEnd OutcomeKind.no_reduction State.terminal_no_reduction
unfolding State-discrete decide
no_reduction-IsEnd = record { no_retry = λ e. cc; no_below = refl }

compact-IsEnd :
    (degraded escalated : Bool)
    → IsEnd
        (if degraded
          then OutcomeKind.degraded_compact
          else if escalated
          then OutcomeKind.compact_preserve_tool_escalated
          else OutcomeKind.compact_continue_turn)
        (if degraded then State.terminal_degraded else State.terminal_continue_turn)
unfolding State-discrete decide
compact-IsEnd true escalated = record { no_retry = λ e. cc; no_below = refl }
compact-IsEnd false true = record { no_retry = λ e. cc; no_below = refl }
compact-IsEnd false false = record { no_retry = λ e. cc; no_below = refl }

compact_code :
    (degraded escalated : Bool)
    → IsFilled (
        if degraded
        then "degraded_continue_turn"
        else if escalated
        then "protected_escalation"
        else continue_reason)
compact_code true escalated = refl
compact_code false true = refl
compact_code false false = refl

module _ (input : Input) (prelude : Prelude) (boundary : AppliedBoundary) (f : Fits input)
    (soft : All IsSoft prelude.effects) (turn : IsFilled boundary.continuation_turn_id) where
  assembled-IsSound : All IsSound (continue_assembled input prelude boundary)
  assembled-IsSound =
      continue_assembled-All IsSound input prelude boundary soft (IsSound-soft _ soft)
        (IsSound-soft _ (body_quality-IsSoft input)) claim-IsSound
        (force-IsSound boundary.continuation_turn_id turn) (compact-IsSound input) degrade-IsSound
        (marker-IsSound boundary.continuation_turn_id turn)

  assembled-AtTurn :
      All (AtTurn boundary.continuation_turn_id) (continue_assembled input prelude boundary)
  unfolding force_turn_end_effect compact_effect marker_effect
  assembled-AtTurn =
      continue_assembled-All (AtTurn boundary.continuation_turn_id) input prelude boundary soft
        (AtTurn-soft _ _ soft) (AtTurn-soft _ _ (body_quality-IsSoft input)) tt refl tt (λ c. tt)
        refl

  assembled-IsQuiet : All IsQuiet (continue_assembled input prelude boundary)
  unfolding force_turn_end_effect compact_effect marker_effect
  assembled-IsQuiet =
      continue_assembled-All IsQuiet input prelude boundary soft (IsQuiet-soft _ soft)
        (IsQuiet-soft _ (body_quality-IsSoft input)) tt tt tt (λ c. tt) tt

  claimed-IsSound : All IsSound (continue_claimed input prelude boundary)
  claimed-IsSound =
      continue_claimed-All IsSound input prelude boundary (IsSound-soft _ soft) claim-IsSound
        (force-IsSound boundary.continuation_turn_id turn) (compact-IsSound input)

  claimed-AtTurn :
      All (AtTurn boundary.continuation_turn_id) (continue_claimed input prelude boundary)
  unfolding force_turn_end_effect compact_effect
  claimed-AtTurn =
      continue_claimed-All (AtTurn boundary.continuation_turn_id) input prelude boundary
        (AtTurn-soft _ _ soft) tt refl tt

  continue_effects-IsInstall :
      (ids : List String) (status : HostStatus)
      → All IsFilled ids
      → IsInstall boundary.continuation_turn_id
          (continue_assembled input prelude boundary ++ continue_install input ids status)
  continue_effects-IsInstall ids status h = record {
    sound = All-append IsSound _ _ assembled-IsSound (install-IsSound input ids status f h);
    at_turn =
        All-append (AtTurn boundary.continuation_turn_id) _ _ assembled-AtTurn
          (install-AtTurn boundary.continuation_turn_id input ids status);
    quiet = All-append IsQuiet _ _ assembled-IsQuiet (install-IsQuiet input ids status);
  }

  continue_failed-claimed :
      (path : List State)
      → IsAttempt path
      → validate_decision (
          attempt_failed_after_continue input path WarningCode.compact_attempt_failed
            "compact assembly could not produce a structurally valid view"
            (continue_claimed input prelude boundary)
            true
            boundary.continuation_turn_id
            false)
        ≡ []
  unfolding attempt_failed_after_continue
  continue_failed-claimed path p = validate_decision-nil input _ (
      failed_continue-Passes input path _ _ _ boundary.continuation_turn_id
        boundary.forced_this_seam false true false f p refl claimed-IsSound claimed-AtTurn
        (continue_claimed-shape input prelude boundary soft))

  continue_failed-assembled :
      (path : List State)
      → IsAttempt path
      → validate_decision (
          attempt_failed_after_continue input path WarningCode.install_attempt_failed
            "post-compact serving view could not be installed"
            (continue_assembled input prelude boundary)
            true
            boundary.continuation_turn_id
            true)
        ≡ []
  unfolding attempt_failed_after_continue
  continue_failed-assembled path p = validate_decision-nil input _ (
      failed_continue-Passes input path _ _ _ boundary.continuation_turn_id
        boundary.forced_this_seam _ true true f p refl assembled-IsSound assembled-AtTurn
        (continue_assembled-shape input prelude boundary soft))

  continue_installed :
      (outcome : OutcomeKind) (terminal : State) (path : List State) (code : String)
      (ids : List String) (relief : ReliefPath) (status : HostStatus)
      → All IsFilled ids
      → IsEnd outcome terminal
      → IsAttempt path
      → IsFilled code
      → validate_decision (
          installed input outcome terminal path code
            (continue_assembled input prelude boundary ++ continue_install input ids status)
            (some continue_reason)
            served_turn
            (continued false boundary.continuation_turn_id true true
              (some prelude.boundary_discarded)
              (not (is_awaiting status))
              input
              (install_overrides (some ids) relief status)))
        ≡ []
  unfolding installed
  continue_installed outcome terminal path code ids relief status h e p n =
      validate_decision-nil input _ (
        installed_continue-Passes input outcome terminal path code _ boundary.continuation_turn_id
          boundary.forced_this_seam _ prelude.boundary_discarded ids relief status f e p n
          (continue_effects-IsInstall ids status h)
          (continue_effects-shape input prelude boundary ids status soft))

  -- The continue-turn branch yields a valid decision, whatever the material says.
  pub continue_turn_tail-valid :
      validate_decision (
        continue_turn_tail input
          (evaluating_path ++ State.path_continue_turn ∷ [])
          prelude
          boundary)
      ≡ []
  unfolding continue_turn_tail
  continue_turn_tail-valid =
      valid-if (not input.compact_material.compact_structurally_valid) _ _
        (continue_failed-claimed _ IsAttempt-compacting)
        (valid-if (not input.compact_material.install_succeeds) _ _
          (continue_failed-assembled _ IsAttempt-installing)
          (valid-if (not input.compact_material.useful_reduction) _ _
            (continue_installed _ _ _ _ _ _ _ (protected-IsFilled input) no_reduction-IsEnd
              IsAttempt-compacting refl)
            (continue_installed _ _ _ _ _ _ _ (protected-IsFilled input) (compact-IsEnd _ _)
              IsAttempt-compacting (compact_code _ _))))
