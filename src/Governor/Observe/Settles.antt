-- ===== src/Governor/Observe/Settles.antt =====
-- What the governor writes for a settled turn, and for an open turn that did not change.
use long_horizon_context.Base.{
  ℕ, suc, ◌+◌, ◌≡◌, refl, String, true, not, ◌&&◌, Option, none, some, List, [], ◌∷◌, if◌then◌else◌,
  if-cases, if-true, arith, eq_iff,
}
use long_horizon_context.Governor.{ResolvedContextPolicy}
use long_horizon_context.Governor.Decide.{decide_governor}
use long_horizon_context.Governor.Observe.{
  GovernorRuntimeState, LifecycleSignal, open_turn, settled_seam, GovernorObserveRecord,
  GovernorLifecycleResult, observe_open_turn, observe_on_settle, observe_if_open,
  apply_governor_lifecycle_signal, apply_governor_lifecycle_batch, build_observe_record,
  with_observe, sampled_state, estimated_state, usage_of, is_fingerprint, fingerprint_of,
  decision_input_from, is_turn_open_kind,
}

-- The settled turns among the signals, and the records of settled seams.
abbrev pub settles : List LifecycleSignal → ℕ
settles [] = 0
settles (LifecycleSignal.turn_settled ∷ signals) = suc (settles signals)
settles (_ ∷ signals) = settles signals

abbrev settled_one : Option GovernorObserveRecord → ℕ
settled_one none = 0
settled_one (some o) = elim o.observe_phase [ open_turn ↦ 0 | settled_seam ↦ 1 ]

abbrev pub settled_records : List GovernorObserveRecord → ℕ
settled_records [] = 0
settled_records (o ∷ observes) = settled_one (some o) + settled_records observes

observe_if_open-quiet :
    (next : GovernorRuntimeState) (resolved : ResolvedContextPolicy)
    → settled_one (observe_if_open next resolved).observe ≡ 0
unfolding observe_if_open observe_open_turn build_observe_record
observe_if_open-quiet next resolved = ground arith

module _ (compose : String → String → String) where
  signal-settled :
      (state : GovernorRuntimeState) (signal : LifecycleSignal) (signals : List LifecycleSignal)
      (resolved : ResolvedContextPolicy)
      → settled_one (apply_governor_lifecycle_signal compose state signal resolved).observe
          + settles signals
        ≡ settles (signal ∷ signals)
  unfolding apply_governor_lifecycle_signal observe_on_settle build_observe_record
  signal-settled state LifecycleSignal.turn_opened signals resolved = omega arith
  signal-settled state (LifecycleSignal.sampling_observed sampling_id usage rejected) signals
        resolved =
      omega (
        arith,
        observe_if_open-quiet (sampled_state state sampling_id rejected (usage_of usage)) resolved,
      )
  signal-settled state (LifecycleSignal.estimate_signal tokens source add) signals resolved =
      omega
        (arith, observe_if_open-quiet (estimated_state compose state tokens source add) resolved)
  signal-settled state LifecycleSignal.turn_settled signals resolved = omega arith
  signal-settled state (LifecycleSignal.capture_degraded generation) signals resolved = omega arith
  signal-settled state LifecycleSignal.native_compact_observed signals resolved = omega arith
  signal-settled state LifecycleSignal.session_bound signals resolved = omega arith
  signal-settled state LifecycleSignal.session_mismatch_observed signals resolved = omega arith

  settled_records-with_observe :
      (seen : Option GovernorObserveRecord) (observes : List GovernorObserveRecord)
      → settled_records (with_observe compose seen observes)
        ≡ settled_one seen + settled_records observes
  settled_records-with_observe none observes = omega arith
  settled_records-with_observe (some o) observes = refl

  -- Each settled turn among the signals is answered by one record of a settled seam, and no other
  -- signal is.
  pub apply_governor_lifecycle_batch-settles :
      (state : GovernorRuntimeState) (signals : List LifecycleSignal)
      (resolved : ResolvedContextPolicy)
      → settled_records (apply_governor_lifecycle_batch compose state signals resolved).1
        ≡ settles signals
  unfolding apply_governor_lifecycle_batch
  apply_governor_lifecycle_batch-settles state [] resolved = refl
  apply_governor_lifecycle_batch-settles state (signal ∷ signals) resolved =
      let result = apply_governor_lifecycle_signal compose state signal resolved in
      omega (
        arith,
        settled_records-with_observe result.observe
            (apply_governor_lifecycle_batch compose result.state signals resolved).1,
        apply_governor_lifecycle_batch-settles result.state signals resolved,
        signal-settled state signal signals resolved,
      )

fingerprint_self : (s : String) → is_fingerprint s (some s) ≡ true
fingerprint_self s = (eq_iff s s).1 refl

abbrev IsNoted : ResolvedContextPolicy → GovernorRuntimeState → Type 0
IsNoted resolved state =
    is_fingerprint
      (fingerprint_of state (decide_governor (decision_input_from state resolved true)))
      state.last_open_turn_observe_fingerprint
    ≡ true

observe_open_turn-IsNoted :
    (state : GovernorRuntimeState) (resolved : ResolvedContextPolicy)
    → IsNoted resolved (observe_open_turn state resolved).state
unfolding observe_open_turn
observe_open_turn-IsNoted state resolved =
    let decision = decide_governor (decision_input_from state resolved true) in
    let fp = fingerprint_of state decision in
    let noted : GovernorRuntimeState = record state {
      last_open_turn_observe_fingerprint = some fp;
    } in
    let next : GovernorRuntimeState = record noted {
      observe_sequence = suc state.observe_sequence;
    } in
    let quiet : GovernorLifecycleResult = record { state = noted; observe = none } in
    let seen : GovernorLifecycleResult = record {
      state = next;
      observe =
          some (
            build_observe_record next resolved decision open_turn none
              (suc state.observe_sequence));
    } in
    let quiet_test = is_turn_open_kind decision.kind && not decision.pressure.at_or_above_trigger in
    if-cases (λ r. IsNoted resolved r.state)
      (is_fingerprint fp state.last_open_turn_observe_fingerprint)
      (record { state = state; observe = none }) (if quiet_test then quiet else seen) (λ e. e)
      (λ _.
        if-cases (λ r. IsNoted resolved r.state) quiet_test quiet seen (λ _. fingerprint_self fp)
          (λ _. fingerprint_self fp))

observe_open_turn-quiet :
    (state : GovernorRuntimeState) (resolved : ResolvedContextPolicy)
    → IsNoted resolved state
    → observe_open_turn state resolved ≡ record { state = state; observe = none }
unfolding observe_open_turn
observe_open_turn-quiet state resolved e = if-true _ (record { state = state; observe = none }) _ e

-- Observing an open turn a second time, with nothing changed in between, writes no record and leaves
-- the state as it is.
pub observe_open_turn_again :
    (state : GovernorRuntimeState) (resolved : ResolvedContextPolicy)
    → let after = (observe_open_turn state resolved).state in
      observe_open_turn after resolved ≡ record { state = after; observe = none }
observe_open_turn_again state resolved =
    observe_open_turn-quiet (observe_open_turn state resolved).state resolved
      (observe_open_turn-IsNoted state resolved)
