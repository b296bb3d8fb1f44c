-- ===== src/Validity/PreserveTail.antt =====
-- The preserve-tool branch of `postCompactTail` (decide.ts) against the checks.
use long_horizon_context.Base.{
  ◌≡◌, ◌≢◌, refl, String, Bool, true, false, not, none, some, List, [], ◌∷◌, ◌++◌, All, All-append,
  if◌then◌else◌, decide,
}
use long_horizon_context.Contract.Codes.{
  State, State-discrete, OutcomeKind, WarningCode, ReliefPath,
}
use long_horizon_context.Contract.Input.{Input, HostStatus}
use long_horizon_context.Contract.Effects.{Effect}
use long_horizon_context.Decision.Readings.{protected_ids_of}
use long_horizon_context.Decision.Parts.{Prelude}
use long_horizon_context.Decision.Effects.{compact_effect}
use long_horizon_context.Decision.Tail.{
  attempt_failed_after_preserve, installed, preserve_claimed, preserve_assembled,
  preserve_tool_tail, same_turn, preserved, is_awaiting,
}
use long_horizon_context.Decision.Oracle.{evaluating_path}
use long_horizon_context.Validation.DecisionChecks.{validate_decision}
use long_horizon_context.Validation.EffectChecks.{validate_effect}
use long_horizon_context.Validation.SequenceChecks.{is_continue_turn}
use long_horizon_context.Validity.EffectLists.{IsSound}
use long_horizon_context.Validity.Soft.{IsSoft, AtTurn, IsSound-soft, AtTurn-soft}
use long_horizon_context.Validity.Shapes.{IsQuiet, IsQuiet-soft}
use long_horizon_context.Validity.Assembly.{body_quality-IsSoft, host_validation-IsSoft}
use long_horizon_context.Validity.Decisions.{validate_decision-nil, valid-if}
use long_horizon_context.Validity.Fits.{Fits}
use long_horizon_context.Validity.Installs.{IsFilled, pairs-IsSound, protected-IsFilled}
use long_horizon_context.Validity.Failures.{IsAttempt, failed_preserve-Passes}
use long_horizon_context.Validity.Installed.{
  install_overrides, IsEnd, IsInstall, installed_preserve-Passes,
}
use long_horizon_context.Validity.ContinueTail.{claim-IsSound, compact-IsSound, degrade-IsSound}
use long_horizon_context.Validity.PreserveParts.{
  preserve_assembled-All, preserve_claimed-All, preserve_claimed-shape, preserve_pairs-shape,
  preserve_effects-shape, preserve_install,
}

IsAttempt-compacting :
    IsAttempt (evaluating_path ++ State.path_preserve_tool ∷ State.compacting ∷ [])
unfolding State-discrete decide
IsAttempt-compacting = record { branched = refl; no_below = refl }

IsAttempt-installing :
    IsAttempt
      (evaluating_path ++ State.path_preserve_tool ∷ State.compacting ∷ State.installing ∷ [])
unfolding State-discrete decide
IsAttempt-installing = record { branched = refl; no_below = refl }

no_reduction-IsEnd : IsEnd OutcomeKind.no_reduction State.terminal_no_reduction
unfolding State-discrete decide
no_reduction-IsEnd = record { no_retry = λ e. cc; no_below = refl }

compact-IsEnd :
    (degraded : Bool)
    → IsEnd
        (if degraded then OutcomeKind.degraded_compact else OutcomeKind.compact_preserve_tool)
        (if degraded then State.terminal_degraded else State.terminal_preserve_tool)
unfolding State-discrete decide
compact-IsEnd true = record { no_retry = λ e. cc; no_below = refl }
compact-IsEnd false = record { no_retry = λ e. cc; no_below = refl }

compact_code :
    (degraded : Bool)
    → IsFilled (if degraded then "degraded_preserve_tool" else "compact_preserve_tool")
compact_code true = refl
compact_code false = refl

compact_turn :
    (degraded : Bool)
    → is_continue_turn
        (if degraded then OutcomeKind.degraded_compact else OutcomeKind.compact_preserve_tool)
      ≡ false
compact_turn true = refl
compact_turn false = refl

module _ (input : Input) (prelude : Prelude) (f : Fits input) (soft : All IsSoft prelude.effects)
    (protects : protected_ids_of input ≢ []) where
  pairs_effect-IsSound :
      IsSound (Effect.preserve_tool_pairs_verbatim (protected_ids_of input) "open_turn_tail")
  pairs_effect-IsSound = pairs-IsSound (protected_ids_of input) protects (protected-IsFilled input)

  assembled-IsSound : All IsSound (preserve_assembled input prelude)
  assembled-IsSound =
      preserve_assembled-All IsSound input prelude soft (IsSound-soft _ soft)
        (IsSound-soft _ (body_quality-IsSoft input)) claim-IsSound (compact-IsSound input)
        degrade-IsSound

  assembled-AtTurn : All (AtTurn "") (preserve_assembled input prelude)
  unfolding compact_effect
  assembled-AtTurn =
      preserve_assembled-All (AtTurn "") input prelude soft (AtTurn-soft _ _ soft)
        (AtTurn-soft _ _ (body_quality-IsSoft input)) tt tt (λ c. tt)

  assembled-IsQuiet : All IsQuiet (preserve_assembled input prelude)
  unfolding compact_effect
  assembled-IsQuiet =
      preserve_assembled-All IsQuiet input prelude soft (IsQuiet-soft _ soft)
        (IsQuiet-soft _ (body_quality-IsSoft input)) tt tt (λ c. tt)

  claimed-IsSound : All IsSound (preserve_claimed input prelude)
  claimed-IsSound =
      preserve_claimed-All IsSound input prelude (IsSound-soft _ soft) claim-IsSound
        (compact-IsSound input)

  claimed-AtTurn : All (AtTurn "") (preserve_claimed input prelude)
  unfolding compact_effect
  claimed-AtTurn = preserve_claimed-All (AtTurn "") input prelude (AtTurn-soft _ _ soft) tt tt

  preserve_effects-IsInstall :
      (status : HostStatus)
      → IsInstall ""
          (preserve_assembled input prelude ++ preserve_install (protected_ids_of input) status)
  preserve_effects-IsInstall status = record {
    sound =
        All-append IsSound _ (preserve_install (protected_ids_of input) status) assembled-IsSound (
          pairs_effect-IsSound,
          (unfold validate_effect in (λ q. refl), IsSound-soft _ (host_validation-IsSoft status)),
        );
    at_turn =
        All-append (AtTurn "") _ (preserve_install (protected_ids_of input) status) assembled-AtTurn
          (tt, (tt, AtTurn-soft _ _ (host_validation-IsSoft status)));
    quiet =
        All-append IsQuiet _ (preserve_install (protected_ids_of input) status) assembled-IsQuiet
          (tt, (tt, IsQuiet-soft _ (host_validation-IsSoft status)));
  }

  preserve_failed-claimed :
      (path : List State)
      → IsAttempt path
      → validate_decision (
          attempt_failed_after_preserve input path WarningCode.compact_attempt_failed
            "compact assembly could not produce a structurally valid view"
            (preserve_claimed input prelude)
            true)
        ≡ []
  unfolding attempt_failed_after_preserve
  preserve_failed-claimed path p = validate_decision-nil input _ (
      failed_preserve-Passes input path _ _ _ false true f p refl claimed-IsSound claimed-AtTurn
        (preserve_claimed-shape input prelude soft))

  preserve_failed-assembled :
      (path : List State)
      → IsAttempt path
      → validate_decision (
          attempt_failed_after_preserve input path WarningCode.install_attempt_failed
            "post-compact serving view could not be installed"
            (preserve_assembled input prelude
              ++ Effect.preserve_tool_pairs_verbatim (protected_ids_of input) "open_turn_tail" ∷ [])
            true)
        ≡ []
  unfolding attempt_failed_after_preserve
  preserve_failed-assembled path p = validate_decision-nil input _ (
      failed_preserve-Passes input path _ _ _ _ true f p refl
        (All-append IsSound _ (Effect.preserve_tool_pairs_verbatim _ "open_turn_tail" ∷ [])
          assembled-IsSound (pairs_effect-IsSound, tt))
        (All-append (AtTurn "") _ (Effect.preserve_tool_pairs_verbatim _ "open_turn_tail" ∷ [])
          assembled-AtTurn (tt, tt))
        (preserve_pairs-shape input prelude (protected_ids_of input) soft))

  preserve_installed :
      (outcome : OutcomeKind) (terminal : State) (path : List State) (code : String)
      (status : HostStatus)
      → IsEnd outcome terminal
      → is_continue_turn outcome ≡ false
      → IsAttempt path
      → IsFilled code
      → validate_decision (
          installed input outcome terminal path code
            (preserve_assembled input prelude ++ preserve_install (protected_ids_of input) status)
            none
            same_turn
            (preserved false
              (some prelude.boundary_discarded)
              (not (is_awaiting status))
              input
              (install_overrides none ReliefPath.normal_preserve status)))
        ≡ []
  unfolding installed
  preserve_installed outcome terminal path code status e o p n = validate_decision-nil input _ (
      installed_preserve-Passes input outcome terminal path code _ _ prelude.boundary_discarded
        status f e o p n (preserve_effects-IsInstall status)
        (preserve_effects-shape input prelude (protected_ids_of input) status soft))

  pub preserve_tool_tail-valid :
      validate_decision
        (preserve_tool_tail input (evaluating_path ++ State.path_preserve_tool ∷ []) prelude)
      ≡ []
  unfolding preserve_tool_tail
  preserve_tool_tail-valid =
      valid-if (not input.compact_material.compact_structurally_valid) _ _
        (preserve_failed-claimed _ IsAttempt-compacting)
        (valid-if (not input.compact_material.install_succeeds) _ _
          (preserve_failed-assembled _ IsAttempt-installing)
          (valid-if (not input.compact_material.useful_reduction) _ _
            (preserve_installed _ _ _ _ _ no_reduction-IsEnd refl IsAttempt-compacting refl)
            (preserve_installed _ _ _ _ _ (compact-IsEnd _) (compact_turn _) IsAttempt-compacting
              (compact_code _))))
