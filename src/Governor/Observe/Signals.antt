-- ===== src/Governor/Observe/Signals.antt =====
-- The numbering of the governor's records.
use long_horizon_context.Base.{
  ℕ, suc, ◌≡◌, refl, ap, ◌∙◌, String, Bool, true, false, not, ◌&&◌, Option, none, some, List, [],
  ◌∷◌, ◌==◌, if◌then◌else◌, if-cases, arith,
}
use long_horizon_context.Governor.{ProviderContextTokens, ResolvedContextPolicy}
use long_horizon_context.Governor.Decide.{decide_governor}
use long_horizon_context.Governor.Decide.Mutation.{decide_governor-IsGoverned}
use long_horizon_context.Governor.Observe.{
  GovernorRuntimeState, LifecycleSignal, open_turn, settled_seam, GovernorObserveRecord,
  GovernorLifecycleResult, observe_open_turn, observe_on_settle, observe_if_open,
  apply_governor_lifecycle_signal, apply_governor_lifecycle_batch, build_observe_record,
  decision_input_from, with_observe, sampled_state, estimated_state, usage_of,
}

-- The numbers of the records written and of the turns settled.
pub record Counters : Type 0 where
  pub observed : ℕ
  pub settled : ℕ

abbrev pub counters_of : GovernorRuntimeState → Counters
counters_of state = record { observed = state.observe_sequence; settled = state.settle_sequence }

abbrev is_number : ℕ → Option ℕ → Bool
is_number n none = false
is_number n (some m) = m == n

abbrev is_none : Option ℕ → Bool
is_none none = true
is_none (some _) = false

-- A reader of the records: a record of an open turn has the next number, no settle number and no
-- mutation; one of a settled seam has the next number and the next settle number.
abbrev pub accept : Counters → GovernorObserveRecord → Option Counters
accept c o = elim o.observe_phase [
  | open_turn ↦
      if (o.observe_sequence == suc c.observed) && is_none o.settle_sequence && not o.would_mutate
      then some (record c { observed = suc c.observed })
      else none
  | settled_seam ↦
      if (o.observe_sequence == suc c.observed) && is_number (suc c.settled) o.settle_sequence
      then some (record { observed = suc c.observed; settled = suc c.settled })
      else none
]

abbrev pub accept_all : Option Counters → List GovernorObserveRecord → Option Counters
accept_all none observes = none
accept_all (some c) [] = some c
accept_all (some c) (o ∷ observes) = accept_all (accept c o) observes

abbrev accept_one : Counters → Option GovernorObserveRecord → Option Counters
accept_one c none = some c
accept_one c (some o) = accept c o

record IsAccepted (state : GovernorRuntimeState) (result : GovernorLifecycleResult) : Type 0 where
  accepted : accept_one (counters_of state) result.observe ≡ some (counters_of result.state)

open_no_mutation :
    (state : GovernorRuntimeState) (resolved : ResolvedContextPolicy)
    → (decide_governor (decision_input_from state resolved true)).would_mutate ≡ false
open_no_mutation state resolved =
    (decide_governor-IsGoverned (decision_input_from state resolved true)).mutates

accept_open :
    (n : ℕ) (mutates : Bool) (c : Counters)
    → mutates ≡ false
    → (if (n == n) && true && not mutates then some c else none) ≡ some c
accept_open n mutates c e = ground (arith, e)

observe_open_turn-IsAccepted :
    (state : GovernorRuntimeState) (resolved : ResolvedContextPolicy)
    → IsAccepted state (observe_open_turn state resolved)
unfolding observe_open_turn build_observe_record
observe_open_turn-IsAccepted state resolved = record {
  accepted = ground (arith, open_no_mutation state resolved);
}

observe_on_settle-IsAccepted :
    (state : GovernorRuntimeState) (resolved : ResolvedContextPolicy)
    → IsAccepted state (observe_on_settle state resolved)
unfolding observe_on_settle build_observe_record
observe_on_settle-IsAccepted state resolved = record { accepted = ground arith }

observe_if_open-IsAccepted :
    (state next : GovernorRuntimeState) (resolved : ResolvedContextPolicy)
    → counters_of state ≡ counters_of next
    → IsAccepted state (observe_if_open next resolved)
unfolding observe_if_open
observe_if_open-IsAccepted state next resolved e =
    if-cases (IsAccepted state) next.turn_is_open _ _
      (λ _. record {
        accepted =
            ap (λ c. accept_one c (observe_open_turn next resolved).observe) e
            ∙ (observe_open_turn-IsAccepted next resolved).accepted;
      })
      (λ _. record { accepted = ap some e })

sampled_counters :
    (state : GovernorRuntimeState) (sampling_id : String) (rejected : Bool)
    (usage : Option ProviderContextTokens)
    → counters_of state ≡ counters_of (sampled_state state sampling_id rejected usage)
sampled_counters state sampling_id rejected none = refl
sampled_counters state sampling_id rejected (some usage) = refl

module _ (compose : String → String → String) where
  signal-IsAccepted :
      (state : GovernorRuntimeState) (signal : LifecycleSignal) (resolved : ResolvedContextPolicy)
      → IsAccepted state (apply_governor_lifecycle_signal compose state signal resolved)
  unfolding apply_governor_lifecycle_signal
  signal-IsAccepted state LifecycleSignal.turn_opened resolved = record { accepted = refl }
  signal-IsAccepted state (LifecycleSignal.sampling_observed sampling_id usage rejected) resolved =
      observe_if_open-IsAccepted state (sampled_state state sampling_id rejected (usage_of usage))
        resolved (sampled_counters state sampling_id rejected (usage_of usage))
  signal-IsAccepted state (LifecycleSignal.estimate_signal tokens source add) resolved =
      observe_if_open-IsAccepted state (estimated_state compose state tokens source add) resolved
        refl
  signal-IsAccepted state LifecycleSignal.turn_settled resolved =
      observe_on_settle-IsAccepted state resolved
  signal-IsAccepted state (LifecycleSignal.capture_degraded generation) resolved = record {
    accepted = refl;
  }
  signal-IsAccepted state LifecycleSignal.native_compact_observed resolved = record {
    accepted = refl;
  }
  signal-IsAccepted state LifecycleSignal.session_bound resolved = record { accepted = refl }
  signal-IsAccepted state LifecycleSignal.session_mismatch_observed resolved = record {
    accepted = refl;
  }

  accept_all-with_observe :
      (c d : Counters) (seen : Option GovernorObserveRecord) (observes : List GovernorObserveRecord)
      → accept_one c seen ≡ some d
      → accept_all (some c) (with_observe compose seen observes) ≡ accept_all (some d) observes
  accept_all-with_observe c d none observes e = ap (λ x. accept_all x observes) e
  accept_all-with_observe c d (some o) observes e = ap (λ x. accept_all x observes) e

  -- Whatever the signals, the records that they give are numbered without a gap from where the state
  -- stood, one of a settled seam carries the next settle number, one of an open turn carries none
  -- and mutates nothing, and the state after them stands where the records end.
  pub apply_governor_lifecycle_batch-accepted :
      (state : GovernorRuntimeState) (signals : List LifecycleSignal)
      (resolved : ResolvedContextPolicy)
      → let result = apply_governor_lifecycle_batch compose state signals resolved in
        accept_all (some (counters_of state)) result.1 ≡ some (counters_of result.0)
  unfolding apply_governor_lifecycle_batch
  apply_governor_lifecycle_batch-accepted state [] resolved = refl
  apply_governor_lifecycle_batch-accepted state (signal ∷ signals) resolved =
      let result = apply_governor_lifecycle_signal compose state signal resolved in
      accept_all-with_observe (counters_of state) (counters_of result.state) result.observe _
        (signal-IsAccepted state signal resolved).accepted
      ∙ apply_governor_lifecycle_batch-accepted result.state signals resolved
