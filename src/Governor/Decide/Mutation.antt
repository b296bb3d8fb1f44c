-- ===== src/Governor/Decide/Mutation.antt =====
-- When the governor compacts.
use long_horizon_context.Base.{
  ◌≡◌, ap, Bool, true, false, not, ◌&&◌, ◌||◌, some, leb, arith, if-cases,
}
use long_horizon_context.Governor.{
  GovernorInput, GovernorDecision, GovernorDecisionKind, would_compact, below_threshold, turn_open,
  operation_in_flight,
}
use long_horizon_context.Governor.Pressure.{
  normalize_post_measurement_estimate, receipt_of, build_pressure_receipt, next_pressure, base_of,
}
use long_horizon_context.Governor.Pressure.Readings.{normalize_post_measurement_estimate_again}
use long_horizon_context.Governor.Decide.{
  decide_as, pressure_of, decide_open_turn, decide_settled, with_estimate, decide_governor,
}

-- The pressure that the input puts on the next request.
abbrev pub is_due : GovernorInput → Bool
is_due input = leb input.policy.upper_bound_tokens (
    next_pressure (base_of input.provider_context)
      (normalize_post_measurement_estimate (some input.post_measurement_estimate)).tokens)

-- The kind of a decision, from the four facts it depends on.
abbrev pub kind_of : (turn_is_open in_flight due rejected : Bool) → GovernorDecisionKind
kind_of turn_is_open true due rejected = operation_in_flight
kind_of turn_is_open false true rejected = would_compact
kind_of true false false rejected = turn_open
kind_of false false false true = would_compact
kind_of false false false false = below_threshold

pub record IsGoverned (input : GovernorInput) (decision : GovernorDecision) : Type 0 where
  pub kind :
      decision.kind
      ≡ kind_of input.turn_open input.operation_in_flight
          (is_due input)
          input.context_limit_rejected
  pub mutates : decision.would_mutate ≡ (
      not input.turn_open
      && not input.operation_in_flight
      && (is_due input || input.context_limit_rejected))
  pub pressure : decision.pressure ≡ pressure_of input

pressure_of-with_estimate :
    (input : GovernorInput) → pressure_of (with_estimate input) ≡ pressure_of input
unfolding pressure_of build_pressure_receipt
pressure_of-with_estimate input =
    ap
      (λ est.
        receipt_of input.provider_context est input.policy.upper_bound_tokens
          input.provider_context_freshness)
      (normalize_post_measurement_estimate_again (some input.post_measurement_estimate))

at_or_above :
    (input : GovernorInput) → (pressure_of (with_estimate input)).at_or_above_trigger ≡ is_due input
unfolding pressure_of build_pressure_receipt
at_or_above input = ap (λ r. r.at_or_above_trigger) (pressure_of-with_estimate input)

decide_open_turn-IsGoverned :
    (input : GovernorInput)
    → input.turn_open ≡ true
    → IsGoverned input (decide_open_turn (with_estimate input))
unfolding decide_open_turn decide_as
decide_open_turn-IsGoverned input o =
    ground (arith, o, at_or_above input, pressure_of-with_estimate input)

decide_settled-IsGoverned :
    (input : GovernorInput)
    → input.turn_open ≡ false
    → IsGoverned input (decide_settled (with_estimate input))
unfolding decide_settled decide_as
decide_settled-IsGoverned input o =
    ground (arith, o, at_or_above input, pressure_of-with_estimate input)

-- The governor's decision is of the kind that the four facts it depends on give: the turn is open,
-- an operation is in flight, the pressure is at or above the upper bound, the host rejected the
-- request. It would mutate exactly at a settled seam with nothing in flight and the pressure due or
-- the request rejected, and carries the pressure of the input as given.
pub decide_governor-IsGoverned : (input : GovernorInput) → IsGoverned input (decide_governor input)
unfolding decide_governor
decide_governor-IsGoverned input =
    if-cases (IsGoverned input) input.turn_open _ _ (decide_open_turn-IsGoverned input)
      (decide_settled-IsGoverned input)
