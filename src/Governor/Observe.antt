-- ===== src/Governor/Observe.antt =====
-- packages/cc-lhc/src/governor/observe-state.ts: the governor's state between two signals of a
-- session, and the records that it writes.
--
-- `compose` joins the labels of two estimates (`composeEstimateSources`, which orders them by
-- `localeCompare`).
pub mod Signals
pub mod Freshness
pub mod Settles
use long_horizon_context.Base.{
  ℕ, ◌+◌, suc, String, Bool, true, false, not, ◌&&◌, ◌||◌, Option, none, some, List, [], ◌∷◌, ◌++◌,
  ltb, ◌==◌, if◌then◌else◌, str_eq, is_some, or_else, length, ◌<>◌, decimal,
}
use long_horizon_context.Governor.{
  Raw, PostMeasurementEstimate, RawEstimate, PolicyFieldSource, builtin, user, project, session,
  PolicyFieldSources, ResolvedContextPolicy, ProviderContextTokens, ProviderBaseFreshness,
  current_sampling, last_known, none_read, GovernorPressureReceipt, GovernorDecisionKind,
  would_compact, below_threshold, turn_open, operation_in_flight, GovernorInput, GovernorDecision,
}
use long_horizon_context.Governor.Pressure.{
  UsageValue, provider_context_from_usage, is_blank, default_source, is_safe_integer,
  normalize_post_measurement_estimate, raw_of,
}
use long_horizon_context.Governor.Decide.{decide_governor}

pub data TokenFamilySource : Type 0 where
  model provider_fallback unmapped : TokenFamilySource

pub record GovernorRuntimeState : Type 0 where
  pub turn_is_open : Bool
  pub input_epoch_at_turn_open : ℕ
  pub current_input_epoch : ℕ
  pub latest_provider_context : Option ProviderContextTokens
  pub provider_context_freshness : ProviderBaseFreshness
  pub latest_sampling_id : Option String
  pub post_measurement_estimate : PostMeasurementEstimate
  pub capture_generation : ℕ
  pub operation_is_in_flight : Bool
  pub settle_sequence : ℕ
  pub observe_sequence : ℕ
  pub last_open_turn_observe_fingerprint : Option String
  pub saw_sampling_this_turn : Bool
  pub context_limit_rejected : Bool
  pub token_family : String
  pub token_family_source : TokenFamilySource

abbrev pub empty_estimate : PostMeasurementEstimate
empty_estimate = record { tokens = 0; source = default_source }

-- `createGovernorRuntimeState` without a seed; the family is the session's default.
abbrev pub create_governor_runtime_state : String → TokenFamilySource → GovernorRuntimeState
create_governor_runtime_state family source = record {
  turn_is_open = false;
  input_epoch_at_turn_open = 0;
  current_input_epoch = 0;
  latest_provider_context = none;
  provider_context_freshness = none_read;
  latest_sampling_id = none;
  post_measurement_estimate = empty_estimate;
  capture_generation = 0;
  operation_is_in_flight = false;
  settle_sequence = 0;
  observe_sequence = 0;
  last_open_turn_observe_fingerprint = none;
  saw_sampling_this_turn = false;
  context_limit_rejected = false;
  token_family = family;
  token_family_source = source;
}

-- The fields of a signal that the governor does not read are left out.
pub data LifecycleSignal : Type 0 where
  session_bound turn_opened turn_settled native_compact_observed : LifecycleSignal
  session_mismatch_observed : LifecycleSignal
  sampling_observed :
      (sampling_id : String) (usage : Option UsageValue) (rejected : Bool) → LifecycleSignal
  estimate_signal : (tokens : Raw) (source : String) (add : Bool) → LifecycleSignal
  capture_degraded : (generation : ℕ) → LifecycleSignal

pub data GovernorObservePhase : Type 0 where
  open_turn settled_seam : GovernorObservePhase

-- The fields with one possible value, the event and the host capability, are left out.
pub record GovernorObserveRecord : Type 0 where
  pub observe_phase : GovernorObservePhase
  pub decision : GovernorDecisionKind
  pub reason : String
  pub provider_context_total : Option ℕ
  pub provider_context : Option ProviderContextTokens
  pub estimate : PostMeasurementEstimate
  pub pressure : GovernorPressureReceipt
  pub upper_bound_tokens : ℕ
  pub lower_bound_tokens : ℕ
  pub profile : String
  pub token_family : String
  pub token_family_source : TokenFamilySource
  pub would_mutate : Bool
  pub config_fallback_count : ℕ
  pub policy_sources_summary : String
  pub capture_generation : ℕ
  pub input_epoch : ℕ
  pub input_epoch_at_turn_open : ℕ
  pub observe_sequence : ℕ
  pub settle_sequence : Option ℕ
  pub sampling_id : Option String

pub record GovernorLifecycleResult : Type 0 where
  pub state : GovernorRuntimeState
  pub observe : Option GovernorObserveRecord

abbrev pub note_governor_input : GovernorRuntimeState → GovernorRuntimeState
note_governor_input state = record state { current_input_epoch = suc state.current_input_epoch }

abbrev pub set_governor_capture_generation : GovernorRuntimeState → ℕ → GovernorRuntimeState
set_governor_capture_generation state generation = record state { capture_generation = generation }

abbrev pub set_governor_operation_in_flight : GovernorRuntimeState → Bool → GovernorRuntimeState
set_governor_operation_in_flight state in_flight = record state {
  operation_is_in_flight = in_flight;
}

abbrev pub set_governor_post_measurement_estimate :
    GovernorRuntimeState → RawEstimate → GovernorRuntimeState
set_governor_post_measurement_estimate state estimate = record state {
  post_measurement_estimate = normalize_post_measurement_estimate (some estimate);
}

-- `setGovernorTokenFamily`; where both parts agree, the state is returned as it is, which holds the
-- same values.
abbrev pub set_governor_token_family :
    GovernorRuntimeState → String → TokenFamilySource → GovernorRuntimeState
set_governor_token_family state family source = record state {
  token_family = family;
  token_family_source = source;
}

abbrev source_text : PolicyFieldSource → String
source_text builtin = "builtin"
source_text user = "user"
source_text project = "project"
source_text session = "session"

-- `policySourcesSummary` of config.ts
unfoldable pub policy_sources_summary : PolicyFieldSources → String
unfolding ◌<>◌
policy_sources_summary sources =
    "lowerBoundTokens="
    <> source_text sources.lower_bound_source
    <> ",upperBoundTokens="
    <> source_text sources.upper_bound_source
    <> ",profile="
    <> source_text sources.profile_source

abbrev decision_text : GovernorDecisionKind → String
decision_text would_compact = "would_compact"
decision_text below_threshold = "below_threshold"
decision_text turn_open = "turn_open"
decision_text operation_in_flight = "operation_in_flight"

-- `openTurnFingerprint`
unfoldable pub open_turn_fingerprint : GovernorDecisionKind → ℕ → Option String → ℕ → String
unfolding ◌<>◌ decimal
open_turn_fingerprint decision pressure sampling_id estimate =
    decision_text decision
    <> "|"
    <> decimal pressure
    <> "|"
    <> or_else sampling_id ""
    <> "|"
    <> decimal estimate

-- `decisionInputFrom`
abbrev pub decision_input_from : GovernorRuntimeState → ResolvedContextPolicy → Bool → GovernorInput
decision_input_from state resolved is_open = record {
  policy = resolved.policy;
  turn_open = is_open;
  provider_context = state.latest_provider_context;
  provider_context_freshness = state.provider_context_freshness;
  post_measurement_estimate = raw_of state.post_measurement_estimate;
  operation_in_flight = state.operation_is_in_flight;
  context_limit_rejected = state.context_limit_rejected;
}

-- `buildObserveRecord`
unfoldable build_observe_record :
    GovernorRuntimeState
    → ResolvedContextPolicy
    → GovernorDecision
    → GovernorObservePhase
    → Option ℕ
    → ℕ
    → GovernorObserveRecord
unfolding policy_sources_summary
build_observe_record state resolved decision phase settle_sequence observe_sequence = record {
  observe_phase = phase;
  decision = decision.kind;
  reason = decision.reason;
  provider_context_total = decision.provider_context_total;
  provider_context = state.latest_provider_context;
  estimate = normalize_post_measurement_estimate (some (raw_of state.post_measurement_estimate));
  pressure = decision.pressure;
  upper_bound_tokens = resolved.policy.upper_bound_tokens;
  lower_bound_tokens = resolved.policy.lower_bound_tokens;
  profile = resolved.policy.profile;
  token_family = state.token_family;
  token_family_source = state.token_family_source;
  would_mutate = decision.would_mutate;
  config_fallback_count = length resolved.fallbacks;
  policy_sources_summary = policy_sources_summary resolved.sources;
  capture_generation = state.capture_generation;
  input_epoch = state.current_input_epoch;
  input_epoch_at_turn_open = state.input_epoch_at_turn_open;
  observe_sequence = observe_sequence;
  settle_sequence = settle_sequence;
  sampling_id = state.latest_sampling_id;
}

abbrev pub is_turn_open_kind : GovernorDecisionKind → Bool
is_turn_open_kind turn_open = true
is_turn_open_kind _ = false

abbrev pub is_fingerprint : String → Option String → Bool
is_fingerprint fp none = false
is_fingerprint fp (some last) = str_eq fp last

abbrev pub fingerprint_of : GovernorRuntimeState → GovernorDecision → String
fingerprint_of state decision =
    open_turn_fingerprint decision.kind decision.pressure.next_request_pressure_tokens
      state.latest_sampling_id state.post_measurement_estimate.tokens

-- `observeOpenTurn`
unfoldable pub observe_open_turn :
    GovernorRuntimeState → ResolvedContextPolicy → GovernorLifecycleResult
unfolding build_observe_record
observe_open_turn state resolved =
    let decision = decide_governor (decision_input_from state resolved true) in
    let fp = fingerprint_of state decision in
    let sequence = suc state.observe_sequence in
    let next = record state {
      observe_sequence = sequence;
      last_open_turn_observe_fingerprint = some fp;
    } in
    if is_fingerprint fp state.last_open_turn_observe_fingerprint
    then record { state = state; observe = none }
    else if is_turn_open_kind decision.kind && not decision.pressure.at_or_above_trigger
    then record {
      state = record state { last_open_turn_observe_fingerprint = some fp };
      observe = none;
    }
    else record {
      state = next;
      observe = some (build_observe_record next resolved decision open_turn none sequence);
    }

-- `observeOnSettle`
unfoldable pub observe_on_settle :
    GovernorRuntimeState → ResolvedContextPolicy → GovernorLifecycleResult
unfolding build_observe_record
observe_on_settle state resolved =
    let settle = suc state.settle_sequence in
    let sequence = suc state.observe_sequence in
    let decision = decide_governor (decision_input_from state resolved false) in
    let next = record state {
      turn_is_open = false;
      settle_sequence = settle;
      observe_sequence = sequence;
      last_open_turn_observe_fingerprint = none;
    } in
    record {
      state = next;
      observe =
          some (build_observe_record next resolved decision settled_seam (some settle) sequence);
    }

-- `reobserveSettled`
unfoldable pub reobserve_settled :
    GovernorRuntimeState → ResolvedContextPolicy → GovernorLifecycleResult
unfolding observe_on_settle
reobserve_settled state resolved =
    if state.turn_is_open
    then record { state = state; observe = none }
    else observe_on_settle state resolved

-- What a handler does with its next state: observe it where the turn is open.
unfoldable observe_if_open : GovernorRuntimeState → ResolvedContextPolicy → GovernorLifecycleResult
unfolding observe_open_turn
observe_if_open next resolved =
    if next.turn_is_open
    then observe_open_turn next resolved
    else record { state = next; observe = none }

abbrev known_freshness : Option ProviderContextTokens → ProviderBaseFreshness
known_freshness none = none_read
known_freshness (some _) = last_known

abbrev usage_of : Option UsageValue → Option ProviderContextTokens
usage_of none = none
usage_of (some usage) = provider_context_from_usage usage

abbrev open_turn_state : GovernorRuntimeState → GovernorRuntimeState
open_turn_state state = record state {
  turn_is_open = true;
  input_epoch_at_turn_open = state.current_input_epoch;
  provider_context_freshness = known_freshness state.latest_provider_context;
  latest_sampling_id = none;
  saw_sampling_this_turn = false;
  last_open_turn_observe_fingerprint = none;
  context_limit_rejected = false;
}

abbrev sampled_state :
    GovernorRuntimeState → String → Bool → Option ProviderContextTokens → GovernorRuntimeState
sampled_state state sampling_id rejected none = record state {
  provider_context_freshness = known_freshness state.latest_provider_context;
  latest_sampling_id = some sampling_id;
  saw_sampling_this_turn = true;
  context_limit_rejected = rejected || state.context_limit_rejected;
}
sampled_state state sampling_id rejected (some usage) = record state {
  latest_provider_context = some usage;
  provider_context_freshness = current_sampling;
  latest_sampling_id = some sampling_id;
  saw_sampling_this_turn = true;
  post_measurement_estimate = empty_estimate;
  context_limit_rejected = false;
}

abbrev is_current : ProviderBaseFreshness → Bool
is_current current_sampling = true
is_current _ = false

module _ (compose : String → String → String) where
  -- `mergeEstimateSource` of observation/estimate.ts
  unfoldable pub merge_estimate_source : String → String → ℕ → String
  unfolding is_blank
  merge_estimate_source previous next tokens =
      if (tokens == 0) || is_blank previous
      then next
      else if str_eq previous next
      then previous
      else compose previous next

  -- The estimate after a `post_measurement_estimate` signal.
  unfoldable pub next_estimate :
      GovernorRuntimeState → PostMeasurementEstimate → Bool → PostMeasurementEstimate
  unfolding merge_estimate_source
  next_estimate state delta add =
      let previous =
        normalize_post_measurement_estimate (some (raw_of state.post_measurement_estimate)) in
      if add
      then record {
        tokens =
            if is_safe_integer (previous.tokens + delta.tokens)
            then previous.tokens + delta.tokens
            else previous.tokens;
        source = merge_estimate_source previous.source delta.source previous.tokens;
      }
      else if (delta.tokens == 0)
          && not (is_current state.provider_context_freshness)
          && ltb 0 previous.tokens
      then previous
      else delta

  abbrev pub estimated_state : GovernorRuntimeState → Raw → String → Bool → GovernorRuntimeState
  estimated_state state tokens source add = record state {
    post_measurement_estimate =
        next_estimate state
          (normalize_post_measurement_estimate
            (some (record { tokens = tokens; source = some source })))
          add;
  }

  -- `applyGovernorLifecycleSignal`
  unfoldable pub apply_governor_lifecycle_signal :
      GovernorRuntimeState → LifecycleSignal → ResolvedContextPolicy → GovernorLifecycleResult
  unfolding observe_if_open observe_on_settle next_estimate
  apply_governor_lifecycle_signal state LifecycleSignal.turn_opened resolved = record {
    state = open_turn_state state;
    observe = none;
  }
  apply_governor_lifecycle_signal state (sampling_observed sampling_id usage rejected) resolved =
      observe_if_open (sampled_state state sampling_id rejected (usage_of usage)) resolved
  apply_governor_lifecycle_signal state (estimate_signal tokens source add) resolved =
      observe_if_open (estimated_state state tokens source add) resolved
  apply_governor_lifecycle_signal state turn_settled resolved = observe_on_settle state resolved
  apply_governor_lifecycle_signal state (capture_degraded generation) resolved = record {
    state = record state { capture_generation = generation };
    observe = none;
  }
  apply_governor_lifecycle_signal state native_compact_observed resolved = record {
    state = state;
    observe = none;
  }
  apply_governor_lifecycle_signal state session_bound resolved = record {
    state = state;
    observe = none;
  }
  apply_governor_lifecycle_signal state session_mismatch_observed resolved = record {
    state = state;
    observe = none;
  }

  abbrev with_observe :
      Option GovernorObserveRecord → List GovernorObserveRecord → List GovernorObserveRecord
  with_observe none observes = observes
  with_observe (some o) observes = o ∷ observes

  -- `applyGovernorLifecycleBatch`: the state after the signals, and the records written.
  unfoldable pub apply_governor_lifecycle_batch :
      GovernorRuntimeState
      → List LifecycleSignal
      → ResolvedContextPolicy
      → GovernorRuntimeState × List GovernorObserveRecord
  unfolding apply_governor_lifecycle_signal
  apply_governor_lifecycle_batch state [] resolved = (state, [])
  apply_governor_lifecycle_batch state (signal ∷ signals) resolved =
      let result = apply_governor_lifecycle_signal state signal resolved in
      let rest = apply_governor_lifecycle_batch result.state signals resolved in
      (rest.0, with_observe result.observe rest.1)
