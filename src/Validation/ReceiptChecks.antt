-- ===== src/Validation/ReceiptChecks.antt =====
-- `validateCompactContinuationReceipt` of validate.ts, check by check.
use long_horizon_context.Base.{
  ℕ, ◌+◌, Bool, true, false, not, ◌&&◌, Option, none, some, List, [], ◌∷◌, ◌++◌, leb, ◌==◌,
  if◌then◌else◌, str_eq, is_empty, is_some, filter, length, ◌<>◌, decimal, decide,
}
use long_horizon_context.Contract.{contract_version}
use long_horizon_context.Contract.Codes.{
  State, OutcomeKind, OutcomeKind-discrete, outcome_kinds, State-discrete, states,
  WarningCode-discrete, warning_codes, RefuseCode, RefuseCode-discrete, refuse_codes, SkipCode,
  SkipCode-discrete, skip_codes,
}
use long_horizon_context.Contract.Texts.{outcome_text, state_text, warning_text}
use long_horizon_context.Contract.Input.{Domain, Domain-discrete, HostStatus}
use long_horizon_context.Contract.Effects.{Effect}
use long_horizon_context.Contract.Receipt.{Warning, Pressure, LowerTarget, Retry, Receipt}
use long_horizon_context.Validation.Issues.{Issue, issue_if, is_safe, has}
use long_horizon_context.Validation.EffectChecks.{validate_effects}
use long_horizon_context.Validation.ResidualChecks.{validate_residual}
use long_horizon_context.Validation.SequenceChecks.{is_continue, sequence_checks}

unfoldable pub header_checks : Receipt → List Issue
header_checks r =
    issue_if (not (str_eq r.contract_version contract_version)) "contractVersion"
      "oracle version mismatch"
    ++ issue_if (not (has OutcomeKind-discrete outcome_kinds r.outcome)) "outcome"
        ("unknown outcome " <> outcome_text r.outcome)
    ++ issue_if (is_empty r.reason_code) "reasonCode" "required non-empty string"
    ++ issue_if (is_some r.turn_end_reason && not (is_continue r.turn_end_reason)) "turnEndReason"
        "must be null or context_compact_continue"

unfoldable pub path_checks : ℕ → List State → List Issue
path_checks i [] = []
path_checks i (s ∷ path) =
    issue_if (not (has State-discrete states s)) ("transitionPath[" <> decimal i <> "]")
      ("unknown state " <> state_text s)
    ++ path_checks (i + 1) path

unfoldable pub pressure_checks : Pressure → List Issue
pressure_checks p =
    issue_if (not (decide (Domain-discrete p.provider_base_domain Domain.provider_reported_input)))
      "pressure.providerBaseDomain" "must be \"provider_reported_input\""
    ++ issue_if (not (decide (Domain-discrete p.estimate_domain Domain.source_labelled_estimate)))
        "pressure.estimateDomain" "must be \"source_labelled_estimate\""
    ++ issue_if (not (is_some p.provider_base_tokens) && is_some p.next_request_pressure_tokens)
        "pressure.nextRequestPressureTokens" "must be null when provider base is unavailable"
    ++ issue_if (not (is_some p.provider_base_tokens) && is_some p.at_or_above_trigger)
        "pressure.atOrAboveTrigger" "must be null when provider base is unavailable"

unfoldable pub lower_target_checks : LowerTarget → List Issue
lower_target_checks t =
    issue_if (not (decide (Domain-discrete t.domain Domain.lhc_rendered_history)))
      "lowerTarget.domain" "must be \"lhc_rendered_history\""
    ++ issue_if t.is_success_gate "lowerTarget.isSuccessGate" "must be false"

unfoldable pub warning_checks : ℕ → List Warning → List Issue
warning_checks i [] = []
warning_checks i (w ∷ warnings) =
    issue_if (not (has WarningCode-discrete warning_codes w.code))
      ("warnings[" <> decimal i <> "].code") ("unknown warning code " <> warning_text w.code)
    ++ issue_if (is_empty w.reason) ("warnings[" <> decimal i <> "].reason")
        "required non-empty string"
    ++ warning_checks (i + 1) warnings

abbrev pub is_warn : Effect → Bool
is_warn (Effect.warn _ _) = true
is_warn _ = false

abbrev differs : Effect → Warning → Bool
differs (Effect.warn code reason) w =
    not (decide (WarningCode-discrete code w.code) && str_eq reason w.reason)
differs _ w = true

-- The loop over the warn effects, beside the warnings.
unfoldable pub match_checks : ℕ → List Effect → List Warning → List Issue
match_checks i [] warnings = []
match_checks i (e ∷ effects) [] = []
match_checks i (e ∷ effects) (w ∷ warnings) =
    issue_if (differs e w) ("warnings[" <> decimal i <> "]")
      "must match the corresponding warn effect"
    ++ match_checks (i + 1) effects warnings

unfoldable pub mirror_checks : List Effect → List Warning → List Issue
mirror_checks effects warnings =
    let warn_effects = filter is_warn effects in
    if not (length warn_effects == length warnings)
    then issue_if true "warnings" "must mirror the warn effects one-for-one"
    else match_checks 0 warn_effects warnings

abbrev is_retry : OutcomeKind → Bool
is_retry OutcomeKind.retry_compact = true
is_retry _ = false

abbrev is_safe_positive : ℕ → Bool
is_safe_positive n = is_safe n && leb 1 n

unfoldable pub retry_checks : OutcomeKind → Retry → List Issue
retry_checks outcome r =
    issue_if (not (is_safe_positive r.attempt_index)) "retry.attemptIndex"
      "must be a safe integer >= 1"
    ++ issue_if (not (is_safe_positive r.budget)) "retry.budget" "must be a safe integer >= 1"
    ++ issue_if (r.retry_authorized && leb r.budget r.attempt_index) "retry.retryAuthorized"
        "cannot authorize retry beyond the bounded budget"
    ++ issue_if (r.retry_authorized && not (is_retry outcome)) "retry.retryAuthorized"
        "authorized retry requires outcome retry_compact"
    ++ issue_if (is_retry outcome && not r.retry_authorized) "retry.retryAuthorized"
        "retry_compact requires an authorized retry"

abbrev is_awaiting : HostStatus → Bool
is_awaiting HostStatus.awaiting = true
is_awaiting _ = false

abbrev is_refuse : OutcomeKind → Bool
is_refuse OutcomeKind.refuse = true
is_refuse _ = false

abbrev is_skip : OutcomeKind → Bool
is_skip OutcomeKind.skip_seam = true
is_skip _ = false

abbrev has_refuse_code : Option RefuseCode → Bool
has_refuse_code none = false
has_refuse_code (some code) = has RefuseCode-discrete refuse_codes code

abbrev has_skip_code : Option SkipCode → Bool
has_skip_code none = false
has_skip_code (some code) = has SkipCode-discrete skip_codes code

unfoldable pub standing_checks : Receipt → List Issue
standing_checks r =
    issue_if
      (not r.skipped
        && not r.residual.next_provider_request_allowed
        && not (is_awaiting r.residual.host_validation_status))
      "residual.nextProviderRequestAllowed"
      "the compact path never strands: only an awaited host validation may withhold the next provider request"
    ++ issue_if (r.refused && not (is_refuse r.outcome)) "outcome"
        "refused receipts must have outcome refuse"
    ++ issue_if (r.refused && not (has_refuse_code r.refuse_code)) "refuseCode"
        "required refuse code when refused"
    ++ issue_if (r.refused && r.skipped) "skipped" "refused and skipped are mutually exclusive"
    ++ issue_if (not r.refused && is_some r.refuse_code) "refuseCode"
        "must be null when not refused"
    ++ issue_if (r.skipped && not (is_skip r.outcome)) "outcome"
        "skipped receipts must have outcome skip_seam"
    ++ issue_if (r.skipped && not (has_skip_code r.skip_code)) "skipCode"
        "required skip code when skipped"
    ++ issue_if (r.skipped && r.refused) "refused" "refused and skipped are mutually exclusive"
    ++ issue_if (r.skipped && r.residual.next_provider_request_allowed)
        "residual.nextProviderRequestAllowed"
        "skip means wait/re-evaluate; must not authorize next provider request"
    ++ issue_if (not r.skipped && is_some r.skip_code) "skipCode" "must be null when not skipped"

unfoldable pub validate_receipt : Receipt → List Issue
validate_receipt r =
    header_checks r
    ++ validate_effects 0 r.effects
    ++ path_checks 0 r.transition_path
    ++ pressure_checks r.pressure
    ++ lower_target_checks r.lower_target
    ++ validate_residual r.residual
    ++ warning_checks 0 r.warnings
    ++ mirror_checks r.effects r.warnings
    ++ retry_checks r.outcome r.retry
    ++ standing_checks r
    ++ sequence_checks r
