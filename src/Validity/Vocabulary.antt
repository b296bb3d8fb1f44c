-- ===== src/Validity/Vocabulary.antt =====
-- The listed vocabularies of contract.ts leave out no code, so no membership test can fail.
use long_horizon_context.Base.{◌≡◌, refl, true, decide}
use long_horizon_context.Contract.Codes.{
  State, states, State-discrete, OutcomeKind, outcome_kinds, OutcomeKind-discrete, ReliefPath,
  relief_paths, ReliefPath-discrete, SkipCode, skip_codes, SkipCode-discrete, WarningCode,
  warning_codes, WarningCode-discrete,
}
use long_horizon_context.Validation.Issues.{has}

pub states-listed : (s : State) → has State-discrete states s ≡ true
unfolding State-discrete decide
states-listed State.idle = refl
states-listed _ = refl

pub outcome_kinds-listed : (o : OutcomeKind) → has OutcomeKind-discrete outcome_kinds o ≡ true
unfolding OutcomeKind-discrete decide
outcome_kinds-listed OutcomeKind.continue_normal = refl
outcome_kinds-listed _ = refl

pub relief_paths-listed : (r : ReliefPath) → has ReliefPath-discrete relief_paths r ≡ true
unfolding ReliefPath-discrete decide
relief_paths-listed ReliefPath.none = refl
relief_paths-listed _ = refl

pub skip_codes-listed : (c : SkipCode) → has SkipCode-discrete skip_codes c ≡ true
unfolding SkipCode-discrete decide
skip_codes-listed SkipCode.transport_retry = refl
skip_codes-listed _ = refl

pub warning_codes-listed : (c : WarningCode) → has WarningCode-discrete warning_codes c ≡ true
unfolding WarningCode-discrete decide
warning_codes-listed WarningCode.capture_incomplete = refl
warning_codes-listed _ = refl
