-- ===== src/Validation/EffectChecks.antt =====
-- `validateEffect` of validate.ts.
use long_horizon_context.Base.{
  ℕ, ◌+◌, String, Bool, true, false, not, ◌&&◌, List, [], ◌∷◌, ◌++◌, ltb, ◌==◌, if◌then◌else◌,
  str_eq, is_empty, ◌<>◌, decimal,
}
use long_horizon_context.Contract.{continue_reason, marker_kind, marker_cause, marker_action}
use long_horizon_context.Contract.Codes.{
  WriterClaim, skip_codes, SkipCode-discrete, warning_codes, WarningCode-discrete, refuse_codes,
  RefuseCode-discrete,
}
use long_horizon_context.Contract.Texts.{skip_text, warning_text, refuse_text}
use long_horizon_context.Contract.ToolIds.{marker_idempotency_key}
use long_horizon_context.Contract.Input.{OwnershipAuthority, no_live_owner, live_owner}
use long_horizon_context.Contract.Effects.{
  Effect, TurnEnd, Marker, Semantics, Advance, claim_writer, release_writer, force_turn_end,
  compact, preserve_tool_pairs_verbatim, advance_visibility_boundary, await_host_validation,
  record_host_validation, insert_continuation_marker, install_serving_view, record_receipt,
  degrade_fidelity, skip_seam, warn, omit_signed_reasoning, reclaim_writer,
  discard_pending_boundary, refuse,
}
use long_horizon_context.Validation.Issues.{Issue, issue_if, is_safe, has}

abbrev turn_end_checks : String → TurnEnd → List Issue
turn_end_checks path e =
    issue_if (not (str_eq e.reason continue_reason)) (path <> ".reason")
      "must be context_compact_continue"
    ++ issue_if (not (str_eq e.outcome "completed")) (path <> ".outcome") "must be \"completed\""
    ++ issue_if (not e.opens_continuation_turn) (path <> ".opensContinuationTurn") "must be true"
    ++ issue_if (not (e.continuation_turn_count == 1)) (path <> ".continuationTurnCount")
        "must be 1"
    ++ issue_if (is_empty e.continuation_turn_id) (path <> ".continuationTurnId")
        "required non-empty turn id"

abbrev key_checks : String → Marker → List Issue
key_checks path m =
    if is_empty m.continuation_turn_id
    then issue_if true (path <> ".continuationTurnId") "required non-empty turn id"
    else issue_if (not (str_eq m.idempotency_key (marker_idempotency_key m.continuation_turn_id)))
        (path <> ".idempotencyKey")
        ("must equal lhc.compact_continuation:<continuationTurnId> (expected "
          <> marker_idempotency_key m.continuation_turn_id
          <> ")")

abbrev semantics_checks : String → Semantics → List Issue
semantics_checks path s =
    issue_if (not (str_eq s.cause marker_cause)) (path <> ".semantics.cause")
      "must be context_compacted_task_in_progress"
    ++ issue_if (not (str_eq s.action marker_action)) (path <> ".semantics.action")
        "must be continue_existing_task"
    ++ issue_if s.new_user_request (path <> ".semantics.newUserRequest") "must be false"
    ++ issue_if s.wait_for_user (path <> ".semantics.waitForUser") "must be false"

abbrev marker_checks : String → Marker → List Issue
marker_checks path m =
    issue_if (not (str_eq m.kind marker_kind)) (path <> ".kind") "must be lhc.compact_continuation"
    ++ key_checks path m
    ++ semantics_checks path m.semantics
    ++ issue_if m.user_chat_visible (path <> ".userChatVisible") "must be false"
    ++ issue_if (not m.model_visible) (path <> ".modelVisible") "must be true"

unfoldable pub id_checks : String → ℕ → List String → List Issue
id_checks path i [] = []
id_checks path i (id ∷ ids) =
    issue_if (is_empty id) (path <> ".protectedToolCallIds[" <> decimal i <> "]")
      "must be non-empty string"
    ++ id_checks path (i + 1) ids

abbrev pairs_checks : String → List String → List Issue
pairs_checks path [] =
    issue_if true (path <> ".protectedToolCallIds") "required non-empty string array"
pairs_checks path (id ∷ ids) = id_checks path 0 (id ∷ ids)

abbrev advance_checks : String → Advance → List Issue
advance_checks path a =
    issue_if (not (is_safe a.previous_boundary)) (path <> ".previousBoundary")
      "must be a non-negative safe integer"
    ++ issue_if (not (is_safe a.new_boundary)) (path <> ".newBoundary")
        "must be a non-negative safe integer"
    ++ issue_if (not (is_safe a.compact_point)) (path <> ".compactPoint")
        "must be a non-negative safe integer"
    ++ issue_if
        (is_safe a.previous_boundary
          && is_safe a.new_boundary
          && ltb a.new_boundary a.previous_boundary)
        (path <> ".newBoundary") "must be >= previousBoundary (monotonic)"

abbrev is_contested : WriterClaim → Bool
is_contested WriterClaim.native = true
is_contested WriterClaim.conflict = true
is_contested _ = false

abbrev confirms_no_owner : OwnershipAuthority → Bool
confirms_no_owner no_live_owner = true
confirms_no_owner live_owner = false

unfoldable pub validate_effect : String → Effect → List Issue
validate_effect path (force_turn_end e) = turn_end_checks path e
validate_effect path (insert_continuation_marker m) = marker_checks path m
validate_effect path (record_receipt durable user_chat_visible) =
    issue_if user_chat_visible (path <> ".userChatVisible") "receipts must not be user chat"
    ++ issue_if (not durable) (path <> ".durable") "must be true"
validate_effect path (preserve_tool_pairs_verbatim ids location) =
    pairs_checks path ids
    ++ issue_if (not (str_eq location "open_turn_tail")) (path <> ".location")
        "must be \"open_turn_tail\""
validate_effect path (advance_visibility_boundary a) = advance_checks path a
validate_effect path (await_host_validation scope) =
    issue_if (not (str_eq scope "current_attempt")) (path <> ".attemptIdScope")
      "must be \"current_attempt\""
validate_effect path (skip_seam code reason) =
    issue_if (not (has SkipCode-discrete skip_codes code)) (path <> ".code")
      ("unknown skip code " <> skip_text code)
validate_effect path (warn code reason) =
    issue_if (not (has WarningCode-discrete warning_codes code)) (path <> ".code")
      ("unknown warning code " <> warning_text code)
    ++ issue_if (is_empty reason) (path <> ".reason") "warn requires a non-empty reason"
validate_effect path (omit_signed_reasoning reason) =
    issue_if (is_empty reason) (path <> ".reason")
      "omit_signed_reasoning requires a non-empty reason"
validate_effect path (reclaim_writer prior_claim host_authority) =
    issue_if (not (is_contested prior_claim)) (path <> ".priorClaim")
      "must be \"native\" or \"conflict\""
    ++ issue_if (not (confirms_no_owner host_authority)) (path <> ".hostAuthority")
        "reclaim is legal only when host authority confirmed no_live_owner"
validate_effect path (discard_pending_boundary turn_id reason) =
    issue_if (is_empty reason) (path <> ".reason")
      "discard_pending_boundary requires a non-empty reason"
validate_effect path (refuse code reason) =
    issue_if (not (has RefuseCode-discrete refuse_codes code)) (path <> ".code")
      ("unknown refuse code " <> refuse_text code)
validate_effect path (claim_writer _) = []
validate_effect path release_writer = []
validate_effect path (compact _) = []
validate_effect path (record_host_validation _ _) = []
validate_effect path install_serving_view = []
validate_effect path (degrade_fidelity _) = []

-- The loop over `effects`, from index `i`.
unfoldable pub validate_effects : ℕ → List Effect → List Issue
validate_effects i [] = []
validate_effects i (e ∷ effects) =
    validate_effect ("effects[" <> decimal i <> "]") e ++ validate_effects (i + 1) effects
