-- ===== src/Decision/Effects.antt =====
-- The effects that decide.ts emits, and the classification of a failed attempt.
use long_horizon_context.Base.{
  ℕ, zero, suc, String, Bool, true, false, ◌||◌, not, Option, none, some, List, [], ◌∷◌, ◌++◌, ltb,
  leb, if◌then◌else◌, or_else, length, ◌<>◌, decimal,
}
use long_horizon_context.Contract.{continue_reason, marker_kind, marker_cause, marker_action}
use long_horizon_context.Contract.Codes.{State, OutcomeKind, WarningCode, WriterClaim}
use long_horizon_context.Contract.ToolIds.{marker_idempotency_key}
use long_horizon_context.Contract.Input.{Domain, HostStatus, Input}
use long_horizon_context.Contract.Effects.{Effect, HostResult}
use long_horizon_context.Contract.Receipt.{Retry}
use long_horizon_context.Decision.Readings.{attempt_index_of, retry_budget_of}
use long_horizon_context.Decision.Parts.{Prelude}

abbrev pub record_receipt : Effect
record_receipt = Effect.record_receipt true false

abbrev pub is_lhc : WriterClaim → Bool
is_lhc WriterClaim.lhc = true
is_lhc _ = false

unfoldable pub decline_effects : Input → Prelude → WarningCode → String → List Effect
decline_effects input prelude code reason =
    let held = is_lhc input.invariants.writer_claim in
    prelude.effects
    ++ (Effect.warn code reason ∷ [])
    ++ (if held then Effect.claim_writer "lhc" ∷ [] else [])
    ++ (record_receipt ∷ [])
    ++ (if held then Effect.release_writer ∷ [] else [])

unfoldable pub force_turn_end_effect : String → Effect
force_turn_end_effect continuation_turn_id = Effect.force_turn_end (record {
  reason = continue_reason;
  outcome = "completed";
  opens_continuation_turn = true;
  continuation_turn_count = 1;
  continuation_turn_id = continuation_turn_id;
})

unfoldable pub compact_effect : Input → Effect
compact_effect input = Effect.compact (record {
  lower_target_domain = Domain.lhc_rendered_history;
  lower_target_tokens = input.policy.lower_target_tokens;
  allow_degraded_derivations = true;
})

unfoldable pub marker_effect : String → Effect
marker_effect continuation_turn_id = Effect.insert_continuation_marker (record {
  kind = marker_kind;
  continuation_turn_id = continuation_turn_id;
  idempotency_key = marker_idempotency_key continuation_turn_id;
  semantics = record {
    cause = marker_cause;
    action = marker_action;
    new_user_request = false;
    wait_for_user = false;
  };
  model_visible = true;
  lhc_inspect_visible = true;
  user_chat_visible = false;
  host_may_inject_transiently = true;
})

pub record Classification : Type 0 where
  pub retry : Retry
  pub outcome : OutcomeKind
  pub terminal_state : State
  pub reason_code : String

unfoldable pub retry_classification : Input → Classification
retry_classification input =
    let attempt_index = attempt_index_of input in
    let budget = retry_budget_of input in
    let retry_authorized = ltb attempt_index budget in
    record {
      retry = record {
        attempt_index = attempt_index;
        budget = budget;
        retry_authorized = retry_authorized;
      };
      outcome =
          if retry_authorized then OutcomeKind.retry_compact else OutcomeKind.continue_current_body;
      terminal_state =
          if retry_authorized then State.terminal_retry else State.terminal_continue_current_body;
      reason_code =
          if retry_authorized then "compact_retry_authorized" else "compact_retry_budget_exhausted";
    }

unfoldable pub exhausted_reason : Retry → String
unfolding decimal
exhausted_reason retry =
    "bounded compact retry budget spent (attempt "
    <> decimal retry.attempt_index
    <> " of "
    <> decimal retry.budget
    <> "); continuing on the current body"

unfoldable pub attempt_failure_warnings : WarningCode → String → Retry → List Effect
unfolding exhausted_reason
attempt_failure_warnings code reason retry =
    Effect.warn code reason
    ∷ (if not retry.retry_authorized
        then Effect.warn WarningCode.compact_retry_budget_exhausted (exhausted_reason retry) ∷ []
        else [])

abbrev pub is_compact : Effect → Bool
is_compact (Effect.compact _) = true
is_compact _ = false

-- `effects.findIndex(…)`, and `effects.splice(i, 0, x)`
unfoldable pub find_index : (Effect → Bool) → List Effect → Option ℕ
find_index p [] = none
find_index p (e ∷ effects) =
    let rest : Option ℕ = elim (find_index p effects) [ none ↦ none | some i ↦ some (suc i) ] in
    if p e then some 0 else rest

unfoldable pub insert_at : ℕ → Effect → List Effect → List Effect
insert_at zero x effects = x ∷ effects
insert_at (suc i) x [] = x ∷ []
insert_at (suc i) x (e ∷ effects) = e ∷ insert_at i x effects

abbrev after_compact : Option ℕ → List Effect → ℕ
after_compact none effects = length effects
after_compact (some i) effects = suc i

unfoldable pub insert_degrade_after_compact : List Effect → List String → List Effect
unfolding find_index insert_at
insert_degrade_after_compact effects [] = effects
insert_degrade_after_compact effects (cause ∷ causes) =
    insert_at (after_compact (find_index is_compact effects) effects)
      (Effect.degrade_fidelity (cause ∷ causes)) effects

abbrev pub is_false : Option Bool → Bool
is_false (some false) = true
is_false _ = false

abbrev unvalidated_reason : String
unvalidated_reason =
    "no structurally valid provider request could be proven after the full reduction ladder; sending the best available body"

abbrev pub unvalidated_warning : Effect
unvalidated_warning = Effect.warn WarningCode.provider_request_unvalidated unvalidated_reason

abbrev pub runway_warning : Bool → Effect
runway_warning true =
    Effect.warn WarningCode.unsafe_runway_projection
      "maximal eligible unprotected pruning cannot produce safe projected runway; installing best available relief"
runway_warning false =
    Effect.warn WarningCode.unsafe_runway_projection
      "projected pressure remains at or above host safe-runway threshold; installing best available relief"

unfoldable pub body_quality_warnings : Input → List Effect
body_quality_warnings input =
    let material = input.compact_material in
    (if not material.can_produce_valid_provider_request then unvalidated_warning ∷ [] else [])
    ++ (if material.maximal_prune_insufficient || is_false material.projected_pressure_safe
        then runway_warning material.maximal_prune_insufficient ∷ []
        else [])

-- `after === null || before === null || after <= before`
abbrev pub advance : Option ℕ → Option ℕ → Option ℕ → List Effect
advance none after point = []
advance (some before) none point = []
advance (some before) (some after) point =
    if leb after before
    then []
    else Effect.advance_visibility_boundary (record {
      previous_boundary = before;
      new_boundary = after;
      compact_point = or_else point 0;
    })
      ∷ []

unfoldable pub boundary_advance_effects : Input → List Effect
boundary_advance_effects input =
    advance input.compact_material.visibility_boundary_before
      input.compact_material.visibility_boundary_after
      input.compact_material.compact_point_at_install

unfoldable pub host_validation_effects : HostStatus → List Effect
host_validation_effects HostStatus.not_required = []
host_validation_effects HostStatus.awaiting = Effect.await_host_validation "current_attempt" ∷ []
host_validation_effects HostStatus.ok = Effect.await_host_validation "current_attempt" ∷ []
host_validation_effects HostStatus.failed =
    Effect.await_host_validation "current_attempt"
    ∷ Effect.record_host_validation HostResult.failed (some "host_reported_provider_body_unsafe")
    ∷ Effect.warn WarningCode.host_validation_failed
        "host full-body validation failed after core install; degraded body stands and the next provider request proceeds"
    ∷ []
