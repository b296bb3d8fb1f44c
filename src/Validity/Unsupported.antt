-- ===== src/Validity/Unsupported.antt =====
-- `declineUnsupportedVersion` of decide.ts, against the checks.
use long_horizon_context.Base.{
  ◌≡◌, refl, String, false, [], ◌∷◌, is_empty, is_empty-<>, All, decide, decide_self,
}
use long_horizon_context.Contract.Codes.{State, State-discrete, OutcomeKind-discrete}
use long_horizon_context.Contract.Input.{Input, Domain-discrete}
use long_horizon_context.Decision.Readings.{warnings_of}
use long_horizon_context.Decision.Exits.{
  decline_unsupported_version, unsupported_reason, unsupported_effects,
}
use long_horizon_context.Validation.EffectChecks.{validate_effect}
use long_horizon_context.Validation.ResidualChecks.{validate_residual}
use long_horizon_context.Validation.ReceiptChecks.{
  header_checks, path_checks, pressure_checks, lower_target_checks, retry_checks, standing_checks,
  validate_receipt,
}
use long_horizon_context.Validation.SequenceChecks.{turn_id_checks}
use long_horizon_context.Validation.DecisionChecks.{
  Effects-discrete, States-discrete, agreement_checks, route_checks, validate_decision,
}
use long_horizon_context.Validity.EffectLists.{
  IsSound, validate_effects-nil, warning_checks-nil, mirror_checks-nil,
}
use long_horizon_context.Validity.Sequences.{skeleton, SkeletonPasses, sequence_checks-nil}
use long_horizon_context.Validity.Facts.{residual_facts, sequence_facts}

unsupported_reason-IsFilled : (version : String) → is_empty (unsupported_reason version) ≡ false
unsupported_reason-IsFilled version = rw is_empty-<> refl

unsupported_effects-IsSound : (version : String) → All IsSound (unsupported_effects version)
unfolding validate_effect
unsupported_effects-IsSound version = (
  λ q. rw (unsupported_reason-IsFilled version) refl,
  (unsupported_reason-IsFilled version, (λ q. refl, tt)),
)

unsupported-SkeletonPasses :
    (input : Input)
    → SkeletonPasses
        (skeleton (unsupported_effects input.contract_version))
        (decline_unsupported_version input).receipt
unfolding decline_unsupported_version sequence_facts warnings_of
unsupported-SkeletonPasses input = record {
  force = refl;
  boundary = refl;
  order = refl;
  install = refl;
  continuation = refl;
}

pub unsupported-valid : (input : Input) → validate_decision (decline_unsupported_version input) ≡ []
unfolding decline_unsupported_version validate_decision validate_receipt header_checks path_checks
    pressure_checks lower_target_checks validate_residual retry_checks standing_checks
    residual_facts agreement_checks route_checks State-discrete OutcomeKind-discrete Domain-discrete
    turn_id_checks decide
unsupported-valid input =
    let effects = unsupported_effects input.contract_version in
    rw (
      is_empty-<>,
      validate_effects-nil 0 effects (unsupported_effects-IsSound input.contract_version),
      warning_checks-nil 0 effects (unsupported_effects-IsSound input.contract_version),
      mirror_checks-nil effects,
      sequence_checks-nil (decline_unsupported_version input).receipt refl
          (unsupported-SkeletonPasses input),
      decide_self Effects-discrete effects,
      decide_self States-discrete (State.idle ∷ State.terminal_decline_ordinary ∷ []),
    )
