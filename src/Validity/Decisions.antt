-- ===== src/Validity/Decisions.antt =====
-- When the checks find nothing in what `decide` of decide.ts builds from its parts.
use long_horizon_context.Base.{
  ℕ, ◌+◌, ◌≡◌, refl, Bool, true, false, not, ◌&&◌, List, [], ◌∷◌, is_empty, is_some, All, decide,
  decide_self, if◌then◌else◌,
}
use long_horizon_context.Contract.Codes.{State, OutcomeKind-discrete}
use long_horizon_context.Contract.Input.{
  Domain-discrete, Input, ProviderUsage, available, unavailable,
}
use long_horizon_context.Contract.Receipt.{Decision}
use long_horizon_context.Decision.Readings.{pressure_receipt, lower_target_receipt}
use long_horizon_context.Decision.Parts.{DecisionParts, decide as build}
use long_horizon_context.Validation.ResidualChecks.{validate_residual}
use long_horizon_context.Validation.ReceiptChecks.{
  header_checks, path_checks, pressure_checks, lower_target_checks, retry_checks, standing_checks,
  validate_receipt,
}
use long_horizon_context.Validation.SequenceChecks.{is_continue, turn_id_checks}
use long_horizon_context.Validation.DecisionChecks.{
  Effects-discrete, States-discrete, agreement_checks, route_checks, validate_decision,
}
use long_horizon_context.Validity.Vocabulary.{states-listed, outcome_kinds-listed}
use long_horizon_context.Validity.EffectLists.{
  IsSound, validate_effects-nil, warning_checks-nil, mirror_checks-nil,
}
use long_horizon_context.Validity.Sequences.{skeleton, SkeletonPasses, sequence_checks-nil}

path_checks-nil : (i : ℕ) (path : List State) → path_checks i path ≡ []
unfolding path_checks
path_checks-nil i [] = refl
path_checks-nil i (s ∷ path) = rw (states-listed s) (path_checks-nil (i + 1) path)

pressure_checks-nil : (input : Input) → pressure_checks (pressure_receipt input) ≡ []
unfolding pressure_checks pressure_receipt Domain-discrete decide
pressure_checks-nil input = pressures input.provider_usage refl
  where
    pressures :
        (u : ProviderUsage)
        → input.provider_usage ≡ u
        → pressure_checks (pressure_receipt input) ≡ []
    pressures (available usage) h = rw h
    pressures (unavailable gap) h = rw h

lower_target_checks-nil :
    (input : Input) (ran : Bool) → lower_target_checks (lower_target_receipt input ran) ≡ []
unfolding lower_target_checks lower_target_receipt Domain-discrete decide
lower_target_checks-nil input ran = refl

-- What the checks ask of the parts of a decision.
pub record Passes (input : Input) (p : DecisionParts) : Type 0 where
  pub reason : is_empty p.reason_code ≡ false
  pub ended : (is_some p.turn_end_reason && not (is_continue p.turn_end_reason)) ≡ false
  pub sound : All IsSound p.effects
  pub residual : validate_residual p.residual ≡ []
  pub retry : retry_checks p.outcome (build input p).receipt.retry ≡ []
  pub standing : standing_checks (build input p).receipt ≡ []
  pub turn_ids : turn_id_checks p.effects ≡ []
  pub sequence : SkeletonPasses (skeleton p.effects) (build input p).receipt
  pub route : route_checks (build input p) ≡ []

header_checks-nil :
    (input : Input) (p : DecisionParts)
    → Passes input p
    → header_checks (build input p).receipt ≡ []
unfolding header_checks build
header_checks-nil input p h = rw (outcome_kinds-listed p.outcome, h.reason, h.ended)

agreement_checks-nil : (input : Input) (p : DecisionParts) → agreement_checks (build input p) ≡ []
unfolding agreement_checks build
agreement_checks-nil input p = rw (
  decide_self OutcomeKind-discrete p.outcome,
  decide_self Effects-discrete p.effects,
  decide_self States-discrete p.transition_path,
)

pub validate_decision-nil :
    (input : Input) (p : DecisionParts) → Passes input p → validate_decision (build input p) ≡ []
unfolding validate_decision validate_receipt build
validate_decision-nil input p h = rw (
  header_checks-nil input p h,
  validate_effects-nil 0 p.effects h.sound,
  path_checks-nil 0 p.transition_path,
  pressure_checks-nil input,
  lower_target_checks-nil input p.compact_ran,
  h.residual,
  warning_checks-nil 0 p.effects h.sound,
  mirror_checks-nil p.effects,
  h.retry,
  h.standing,
  sequence_checks-nil (build input p).receipt h.turn_ids h.sequence,
  agreement_checks-nil input p,
  h.route,
)

pub valid-if :
    (b : Bool) (x y : Decision)
    → validate_decision x ≡ []
    → validate_decision y ≡ []
    → validate_decision (if b then x else y) ≡ []
valid-if true x y h k = h
valid-if false x y h k = k
