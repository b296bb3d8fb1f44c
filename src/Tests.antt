-- ===== src/Tests.antt =====
-- Concrete seams, and the theorems at them.
mod Governor
mod Steps
mod View
use long_horizon_context.Base.{
  subst, sym, List, Option, ◌≡◌, refl, String, true, false, none, some, [], ◌∷◌, ◌++◌, arith,
}
use long_horizon_context.Contract.Codes.{HostCapability, State, SkipCode, WriterClaim}
use long_horizon_context.Contract.Input.{
  Domain, Input, Seam, available, Field, applied, active_non_tool, AppliedBoundary,
  WorkContinuation,
}
use long_horizon_context.Contract.ToolIds.{normalize_protected_tool_call_ids}
use long_horizon_context.Contract.Effects.{Effect, EffectType, CompactOrder}
use long_horizon_context.Contract.Receipt.{Decision}
use long_horizon_context.Decision.Readings.{attempt_index_of, retry_budget_of}
use long_horizon_context.Decision.Effects.{insert_degrade_after_compact}
use long_horizon_context.Decision.Exits.{skip, decline_unsupported_version}
use long_horizon_context.Decision.Oracle.{
  at_seam, after_writer, check_writer, check_boundary, guarded_tail, protected_path_unavailable,
  health_effects, decide_compact_continuation,
}
use long_horizon_context.Validation.SequenceChecks.{exclusion_checks}
use long_horizon_context.Validation.DecisionChecks.{validate_decision}
use long_horizon_context.Validity.Fits.{Fits}
use long_horizon_context.Validity.Sequences.{exclusion_checks-nil}
use long_horizon_context.Validity.Shapes.{degrade_part}
use long_horizon_context.Validity.Assembly.{insert_degrade-append}
use long_horizon_context.Validity.Oracle.{decide_compact_continuation-valid}
use long_horizon_context.Validity.Unsupported.{unsupported-valid}
use long_horizon_context.Promises.Due.{orders_compact}
use long_horizon_context.Promises.Decides.{
  is_compact_due, decide_compact_continuation-orders_compact,
}
use long_horizon_context.Promises.Accounts.{IsAccounted, decide_compact_continuation-IsAccounted}
use long_horizon_context.Promises.Discards.{outline_of}
use long_horizon_context.Promises.Fresh.{without_boundary, outline_of-discarded}
use long_horizon_context.Promises.Orders.{IsCoherent, validate_decision-IsCoherent}
use long_horizon_context.Promises.Retries.{IsBounded, retry_classification-IsBounded}
use long_horizon_context.Promises.Retried.{IsRetrying, decide_compact_continuation-IsRetrying}
use long_horizon_context.Decision.Tail.{continue_turn_tail, post_compact_tail}
use long_horizon_context.Decision.Effects.{retry_classification}
use long_horizon_context.Contract.Codes.{OutcomeKind}
use long_horizon_context.Promises.ToolIds.{
  IsNormalized, normalize_protected_tool_call_ids-IsNormalized,
}

abbrev settled : Seam
settled = record {
  model_response_complete = true;
  requested_tools_settled = true;
  capture_flushed = true;
  before_next_provider_request = true;
  inside_transport_retry = false;
  input_epoch_at_decision = 4;
  input_epoch_at_apply = 4;
}

-- A seam behind a forced turn end, whose compact installs.
abbrev seam_input : Input
seam_input = record {
  contract_version = "2.0.0";
  seam = settled;
  provider_usage = available (record {
    input_tokens = 900;
    cache_creation_tokens = 50;
    cache_read_tokens = 50;
    total = 1000;
  });
  post_measurement_estimate = record { tokens = 20; source = "chars_div_4" };
  policy = record {
    upper_trigger_tokens = 1000;
    lower_target_tokens = 400;
    host_capability = HostCapability.full_state_machine;
    safe_runway_threshold_tokens = none;
    safe_runway_threshold_source = none;
    compact_retry_budget = none;
  };
  continuation = active_non_tool;
  invariants = record {
    capture_complete = true;
    provider_identity_valid = true;
    single_open_turn = true;
    writer_claim = WriterClaim.none;
    writer_ownership_authority = none;
  };
  forced_continuation_boundary = applied (record {
    continuation_turn_id = "turn-8";
    forced_this_seam = true;
    marker_already_persisted = false;
  });
  compact_material = record {
    derivations_missing_or_failed = true;
    lower_target_met = true;
    compact_structurally_valid = true;
    install_succeeds = true;
    useful_reduction = true;
    can_produce_valid_provider_request = true;
    projected_pressure_tokens = none;
    rendered_savings_tokens = some 600;
    rendered_savings_source = some "rendered";
    safe_runway_threshold_tokens = Field.absent;
    safe_runway_threshold_source = Field.absent;
    projected_pressure_safe = none;
    protected_escalation_applied = false;
    visibility_boundary_before = some 3;
    visibility_boundary_after = some 7;
    compact_point_at_install = some 7;
    maximal_prune_insufficient = false;
    compact_attempt_index = none;
    host_validation_status = none;
  };
}

seam_input-Fits : Fits seam_input
unfolding attempt_index_of retry_budget_of
seam_input-Fits = record {
  attempt = omega arith;
  budget = omega arith;
  before = refl;
  after = refl;
  point = refl;
}

decide_compact_continuation-valid_example :
    (d : Decision) × ((decide_compact_continuation seam_input ≡ some d)
      × (validate_decision d ≡ []))
decide_compact_continuation-valid_example =
    decide_compact_continuation-valid seam_input seam_input-Fits

decide_compact_continuation-orders_compact_example :
    orders_compact (decide_compact_continuation seam_input) ≡ is_compact_due seam_input
decide_compact_continuation-orders_compact_example =
    decide_compact_continuation-orders_compact seam_input

-- What the oracle decides at a seam with this boundary.
abbrev decided : Input → Decision
decided input =
    continue_turn_tail input
      (State.at_seam ∷ State.checking_invariants ∷ State.evaluating_pressure
        ∷ State.path_continue_turn ∷ [])
      (record { effects = []; boundary_discarded = false })
      (record {
        continuation_turn_id = "turn-8";
        forced_this_seam = true;
        marker_already_persisted = false;
      })

seam_decided : decide_compact_continuation seam_input ≡ some (decided seam_input)
unfolding decide_compact_continuation at_seam after_writer check_writer check_boundary guarded_tail
    protected_path_unavailable post_compact_tail health_effects
seam_decided = refl

seam_valid : validate_decision (decided seam_input) ≡ []
seam_valid =
    let (d, (returned, valid)) = decide_compact_continuation-valid_example in
    subst (λ o. (elim o [ none ↦ [] | some e ↦ validate_decision e ]) ≡ []) seam_decided
      (subst (λ o. (elim o [ none ↦ [] | some e ↦ validate_decision e ]) ≡ []) (sym returned) valid)

-- The effects of this decision have all types that stand in an order.
validate_decision-IsCoherent_example : IsCoherent (decided seam_input)
validate_decision-IsCoherent_example = validate_decision-IsCoherent (decided seam_input) seam_valid

-- The same seam, where the install fails.
abbrev failing_input : Input
failing_input = record seam_input {
  compact_material = record (seam_input.compact_material) { install_succeeds = false };
}

failing_decided : decide_compact_continuation failing_input ≡ some (decided failing_input)
unfolding decide_compact_continuation at_seam after_writer check_writer check_boundary guarded_tail
    protected_path_unavailable post_compact_tail health_effects
failing_decided = refl

decide_compact_continuation-IsRetrying_example : IsRetrying (decided failing_input)
decide_compact_continuation-IsRetrying_example =
    decide_compact_continuation-IsRetrying failing_input (decided failing_input) failing_decided

-- The same seam inside a transport retry.
abbrev retrying_input : Input
retrying_input = record seam_input { seam = record settled { inside_transport_retry = true } }

abbrev retrying_decision : Decision
retrying_decision =
    skip retrying_input (State.idle ∷ []) SkipCode.transport_retry
      "mutation forbidden inside transport retry"

retrying : decide_compact_continuation retrying_input ≡ some retrying_decision
unfolding decide_compact_continuation
retrying = refl

decide_compact_continuation-IsAccounted_example : IsAccounted retrying_decision
decide_compact_continuation-IsAccounted_example =
    decide_compact_continuation-IsAccounted retrying_input retrying_decision retrying

-- The same seam with no work open.
abbrev idle_input : Input
idle_input = record seam_input { continuation = WorkContinuation.none }

abbrev idle_boundary : AppliedBoundary
idle_boundary = record {
  continuation_turn_id = "turn-8";
  forced_this_seam = true;
  marker_already_persisted = false;
}

outline_of-discarded_example :
    outline_of (decide_compact_continuation idle_input)
    ≡ outline_of (decide_compact_continuation (without_boundary idle_input))
outline_of-discarded_example = outline_of-discarded idle_input idle_boundary refl refl

retry_classification-IsBounded_example :
    IsBounded failing_input (retry_classification failing_input)
retry_classification-IsBounded_example = retry_classification-IsBounded failing_input

normalize_protected_tool_call_ids-IsNormalized_example :
    IsNormalized
      ("call-b" ∷ "" ∷ "call-a" ∷ "call-b" ∷ [])
      (normalize_protected_tool_call_ids ("call-b" ∷ "" ∷ "call-a" ∷ "call-b" ∷ []))
normalize_protected_tool_call_ids-IsNormalized_example =
    normalize_protected_tool_call_ids-IsNormalized ("call-b" ∷ "" ∷ "call-a" ∷ "call-b" ∷ [])

abbrev order : CompactOrder
order = record {
  lower_target_domain = Domain.lhc_rendered_history;
  lower_target_tokens = 400;
  allow_degraded_derivations = true;
}

insert_degrade-append_example :
    insert_degrade_after_compact
      (Effect.claim_writer "lhc" ∷ [] ++ Effect.compact order ∷ [] ++ Effect.release_writer ∷ [])
      ("lower_target_missed" ∷ [])
    ≡ Effect.claim_writer "lhc" ∷ []
      ++ Effect.compact order
        ∷ (degrade_part ("lower_target_missed" ∷ []) ++ Effect.release_writer ∷ [])
insert_degrade-append_example =
    insert_degrade-append (Effect.claim_writer "lhc" ∷ []) (Effect.release_writer ∷ []) order
      ("lower_target_missed" ∷ []) refl

exclusion_checks-nil_example :
    exclusion_checks
      (EffectType.preserve_tool_pairs_verbatim ∷ EffectType.insert_continuation_marker ∷ [])
    ≡ []
exclusion_checks-nil_example =
    exclusion_checks-nil
      (EffectType.preserve_tool_pairs_verbatim ∷ EffectType.insert_continuation_marker ∷ [])
