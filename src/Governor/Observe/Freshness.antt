-- ===== src/Governor/Observe/Freshness.antt =====
-- What holds of the governor's state between two signals.
use long_horizon_context.Base.{
  ◌≡◌, refl, String, Bool, true, false, not, Option, none, some, List, [], ◌∷◌, if-cases, arith,
  is_some,
}
use long_horizon_context.Governor.{
  PostMeasurementEstimate, ProviderContextTokens, ProviderBaseFreshness, none_read,
  ResolvedContextPolicy,
}
use long_horizon_context.Governor.Pressure.{raw_of, is_safe_integer}
use long_horizon_context.Governor.Pressure.Readings.{normalize-safe}
use long_horizon_context.Governor.Observe.{
  GovernorRuntimeState, LifecycleSignal, TokenFamilySource, create_governor_runtime_state,
  observe_open_turn, observe_on_settle, observe_if_open, apply_governor_lifecycle_signal,
  apply_governor_lifecycle_batch, sampled_state, estimated_state, usage_of, next_estimate,
}

abbrev is_unread : ProviderBaseFreshness → Bool
is_unread none_read = true
is_unread _ = false

-- The context is fresh or last known exactly when there is one, and the estimate is a safe count.
pub record IsSound (state : GovernorRuntimeState) : Type 0 where
  pub fresh :
      is_unread state.provider_context_freshness ≡ not (is_some state.latest_provider_context)
  pub safe : is_safe_integer state.post_measurement_estimate.tokens ≡ true

observe_open_turn-IsSound :
    (state : GovernorRuntimeState) (resolved : ResolvedContextPolicy)
    → IsSound state
    → IsSound (observe_open_turn state resolved).state
unfolding observe_open_turn
observe_open_turn-IsSound state resolved h = ground (arith, h.fresh, h.safe)

observe_if_open-IsSound :
    (next : GovernorRuntimeState) (resolved : ResolvedContextPolicy)
    → IsSound next
    → IsSound (observe_if_open next resolved).state
unfolding observe_if_open
observe_if_open-IsSound next resolved h =
    if-cases (λ r. IsSound r.state) next.turn_is_open (observe_open_turn next resolved)
      (record { state = next; observe = none }) (λ _. observe_open_turn-IsSound next resolved h)
      (λ _. h)

sampled_state-IsSound :
    (state : GovernorRuntimeState) (sampling_id : String) (rejected : Bool)
    (usage : Option ProviderContextTokens)
    → IsSound state
    → IsSound (sampled_state state sampling_id rejected usage)
sampled_state-IsSound state sampling_id rejected none h = ground (arith, h.fresh, h.safe)
sampled_state-IsSound state sampling_id rejected (some usage) h = record {
  fresh = refl;
  safe = refl;
}

module _ (compose : String → String → String) where
  next_estimate-safe :
      (state : GovernorRuntimeState) (delta : PostMeasurementEstimate) (add : Bool)
      → is_safe_integer delta.tokens ≡ true
      → is_safe_integer (next_estimate compose state delta add).tokens ≡ true
  unfolding next_estimate
  next_estimate-safe state delta add h =
      ground (arith, h, normalize-safe (some (raw_of state.post_measurement_estimate)))

  signal-IsSound :
      (state : GovernorRuntimeState) (signal : LifecycleSignal) (resolved : ResolvedContextPolicy)
      → IsSound state
      → IsSound (apply_governor_lifecycle_signal compose state signal resolved).state
  unfolding apply_governor_lifecycle_signal observe_on_settle
  signal-IsSound state LifecycleSignal.turn_opened resolved h = ground (arith, h.fresh, h.safe)
  signal-IsSound state (LifecycleSignal.sampling_observed sampling_id usage rejected) resolved h =
      observe_if_open-IsSound (sampled_state state sampling_id rejected (usage_of usage)) resolved
        (sampled_state-IsSound state sampling_id rejected (usage_of usage) h)
  signal-IsSound state (LifecycleSignal.estimate_signal tokens source add) resolved h =
      observe_if_open-IsSound (estimated_state compose state tokens source add) resolved (record {
        fresh = h.fresh;
        safe =
            next_estimate-safe state _ add
              (normalize-safe (some (record { tokens = tokens; source = some source })));
      })
  signal-IsSound state LifecycleSignal.turn_settled resolved h = record {
    fresh = h.fresh;
    safe = h.safe;
  }
  signal-IsSound state (LifecycleSignal.capture_degraded generation) resolved h = record {
    fresh = h.fresh;
    safe = h.safe;
  }
  signal-IsSound state LifecycleSignal.native_compact_observed resolved h = h
  signal-IsSound state LifecycleSignal.session_bound resolved h = h
  signal-IsSound state LifecycleSignal.session_mismatch_observed resolved h = h

  batch-IsSound :
      (state : GovernorRuntimeState) (signals : List LifecycleSignal)
      (resolved : ResolvedContextPolicy)
      → IsSound state
      → IsSound (apply_governor_lifecycle_batch compose state signals resolved).0
  unfolding apply_governor_lifecycle_batch
  batch-IsSound state [] resolved h = h
  batch-IsSound state (signal ∷ signals) resolved h =
      batch-IsSound (apply_governor_lifecycle_signal compose state signal resolved).state signals
        resolved (signal-IsSound state signal resolved h)

  -- From the first state of a session on, after any signals, the provider context is marked as never
  -- read exactly when there is none, and the estimate is a safe count.
  pub apply_governor_lifecycle_batch-IsSound :
      (family : String) (source : TokenFamilySource) (signals : List LifecycleSignal)
      (resolved : ResolvedContextPolicy)
      → IsSound
          (apply_governor_lifecycle_batch compose
            (create_governor_runtime_state family source)
            signals
            resolved).0
  apply_governor_lifecycle_batch-IsSound family source signals resolved =
      batch-IsSound (create_governor_runtime_state family source) signals resolved
        (record { fresh = refl; safe = refl })
