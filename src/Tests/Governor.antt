-- ===== src/Tests/Governor.antt =====
-- A concrete session of the governor.
use long_horizon_context.Base.{
  ◌*◌, ◌+◌, ◌≤◌, ◌<◌, ◌≡◌, refl, ◌<>◌, ◌↔◌, String, true, false, none, some, List, [], ◌∷◌, All,
}
use long_horizon_context.Base.Int.{pos}
use long_horizon_context.Governor.{
  Raw, ContextPolicy, PolicyFieldSource, ResolvedContextPolicy, GovernorInput,
  ProviderContextTokens, ProviderBaseFreshness, RawEstimate,
}
use long_horizon_context.Governor.Pressure.{
  UsageMember, UsageValue, provider_context_from_usage, pick_field, optional_field, has_any_key,
  input_keys, cache_creation_keys, cache_read_keys, normalize_post_measurement_estimate,
  estimate_tokens_from_captured_bytes,
}
use long_horizon_context.Governor.Pressure.Readings.{
  IsMeasured, provider_context_from_usage_iff, IsNormal,
  normalize_post_measurement_estimate-IsNormal, estimate_tokens_from_captured_bytes_lem,
}
use long_horizon_context.Governor.Decide.{decide_governor}
use long_horizon_context.Governor.Decide.Mutation.{IsGoverned, decide_governor-IsGoverned}
use long_horizon_context.Governor.Allocation.{
  band_allocations, compact_construction, apply_session_allocation,
}
use long_horizon_context.Governor.Allocation.Presets.{
  IsConstruction, compact_construction-IsConstruction, IsChosen, apply_session_allocation-IsChosen,
}
use long_horizon_context.Governor.Observe.{
  LifecycleSignal, TokenFamilySource, GovernorRuntimeState, create_governor_runtime_state,
  apply_governor_lifecycle_batch, observe_open_turn,
}
use long_horizon_context.Governor.Observe.Signals.{
  counters_of, accept_all, apply_governor_lifecycle_batch-accepted,
}
use long_horizon_context.Governor.Observe.Freshness.{
  IsSound, apply_governor_lifecycle_batch-IsSound,
}
use long_horizon_context.Governor.Observe.Settles.{
  settles, settled_records, apply_governor_lifecycle_batch-settles, observe_open_turn_again,
}

abbrev policy : ContextPolicy
policy = record {
  lower_bound_tokens = 120000;
  upper_bound_tokens = 1000;
  profile = "balanced";
  prune_enabled = false;
  prune_threshold_tokens = none;
  prune_target_tokens = none;
  min_runway_tokens = 100;
}

abbrev resolved : ResolvedContextPolicy
resolved = record {
  policy = policy;
  sources = record {
    lower_bound_source = PolicyFieldSource.builtin;
    upper_bound_source = PolicyFieldSource.user;
    profile_source = PolicyFieldSource.project;
    prune_enabled_source = PolicyFieldSource.builtin;
    prune_threshold_source = PolicyFieldSource.builtin;
    prune_target_source = PolicyFieldSource.builtin;
    min_runway_source = PolicyFieldSource.builtin;
  };
  fallbacks = [];
}

abbrev usage : List UsageMember
usage =
    record { key = "input_tokens"; value = Raw.whole (pos 900) }
    ∷ record { key = "cacheReadInputTokens"; value = Raw.whole (pos 200) }
    ∷ []

abbrev measured : ProviderContextTokens
measured = record {
  input_tokens = 900;
  cache_creation_input_tokens = 0;
  cache_read_input_tokens = 200;
  total = 1100;
}

usage_read : provider_context_from_usage (UsageValue.object usage) ≡ some measured
unfolding provider_context_from_usage
usage_read = refl

provider_context_from_usage_iff_example :
    (provider_context_from_usage (UsageValue.object usage) ≡ some measured)
    ↔ IsMeasured
        (has_any_key usage input_keys)
        (pick_field usage input_keys)
        (optional_field usage cache_creation_keys)
        (optional_field usage cache_read_keys)
        measured
provider_context_from_usage_iff_example = provider_context_from_usage_iff usage measured

abbrev estimate : RawEstimate
estimate = record { tokens = Raw.whole (pos 40); source = some " " }

normalize_post_measurement_estimate-IsNormal_example :
    IsNormal (some estimate) (normalize_post_measurement_estimate (some estimate))
normalize_post_measurement_estimate-IsNormal_example =
    normalize_post_measurement_estimate-IsNormal (some estimate)

estimate_tokens_from_captured_bytes_example :
    let e = estimate_tokens_from_captured_bytes (Raw.whole (pos 103)) "bytes" in
    (4 * e.tokens ≤ 103) × (103 < 4 * e.tokens + 4)
estimate_tokens_from_captured_bytes_example =
    estimate_tokens_from_captured_bytes_lem 103 "bytes" refl

abbrev seam : GovernorInput
seam = record {
  policy = policy;
  turn_open = false;
  provider_context = some measured;
  provider_context_freshness = ProviderBaseFreshness.current_sampling;
  post_measurement_estimate = estimate;
  operation_in_flight = false;
  context_limit_rejected = false;
}

seam_mutates : (decide_governor seam).would_mutate ≡ true
unfolding decide_governor
seam_mutates = refl

decide_governor-IsGoverned_example : IsGoverned seam (decide_governor seam)
decide_governor-IsGoverned_example = decide_governor-IsGoverned seam

compact_construction-IsConstruction_example : IsConstruction policy (compact_construction policy)
compact_construction-IsConstruction_example = compact_construction-IsConstruction policy

apply_session_allocation-IsChosen_example :
    All (λ a. IsChosen resolved a (apply_session_allocation resolved a.id)) band_allocations
apply_session_allocation-IsChosen_example = apply_session_allocation-IsChosen resolved

abbrev join : String → String → String
join a b = a <> "+" <> b

abbrev fresh : GovernorRuntimeState
fresh = create_governor_runtime_state "claude" TokenFamilySource.model

abbrev signals : List LifecycleSignal
signals =
    LifecycleSignal.turn_opened
    ∷ LifecycleSignal.sampling_observed "s1" (some (UsageValue.object usage)) false
    ∷ LifecycleSignal.estimate_signal (Raw.whole (pos 7)) "host" true
    ∷ LifecycleSignal.turn_settled
    ∷ []

settled_once :
    (apply_governor_lifecycle_batch join fresh
      (LifecycleSignal.turn_settled ∷ [])
      resolved).0.settle_sequence
    ≡ 1
unfolding apply_governor_lifecycle_batch
settled_once = refl

apply_governor_lifecycle_batch-accepted_example :
    accept_all
      (some (counters_of fresh))
      (apply_governor_lifecycle_batch join fresh signals resolved).1
    ≡ some (counters_of (apply_governor_lifecycle_batch join fresh signals resolved).0)
apply_governor_lifecycle_batch-accepted_example =
    apply_governor_lifecycle_batch-accepted join fresh signals resolved

apply_governor_lifecycle_batch-IsSound_example :
    IsSound (apply_governor_lifecycle_batch join fresh signals resolved).0
apply_governor_lifecycle_batch-IsSound_example =
    apply_governor_lifecycle_batch-IsSound join "claude" TokenFamilySource.model signals resolved

apply_governor_lifecycle_batch-settles_example :
    settled_records (apply_governor_lifecycle_batch join fresh signals resolved).1 ≡ settles signals
apply_governor_lifecycle_batch-settles_example =
    apply_governor_lifecycle_batch-settles join fresh signals resolved

abbrev pressed : GovernorRuntimeState
pressed = record fresh { turn_is_open = true; latest_provider_context = some measured }

observe_open_turn_again_example :
    observe_open_turn (observe_open_turn pressed resolved).state resolved
    ≡ record { state = (observe_open_turn pressed resolved).state; observe = none }
observe_open_turn_again_example = observe_open_turn_again pressed resolved
