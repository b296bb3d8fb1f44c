-- ===== src/Promises/Due.antt =====
-- When a branch of the oracle of decide.ts orders a compact.
use long_horizon_context.Base.{
  is_nil, ◌+◌, ◌≡◌, refl, ap, ◌∙◌, String, Bool, true, false, not, ◌&&◌, inl, inr, Option, none,
  some, List, [], ◌∷◌, arith, leb, is_empty, any, any-append, Bool-cases,
}
use long_horizon_context.Contract.Codes.{State, WarningCode}
use long_horizon_context.Contract.Input.{
  Input, Policy, Estimate, ProviderUsage, available, unavailable, ForcedBoundary, applied,
  not_applied, WorkContinuation, pending_correlated_tool_result, active_non_tool,
}
use long_horizon_context.Contract.ToolIds.{normalize_protected_tool_call_ids}
use long_horizon_context.Contract.Receipt.{Decision}
use long_horizon_context.Decision.Parts.{Prelude, decide as build}
use long_horizon_context.Decision.Readings.{pressure_receipt, pressure_from}
use long_horizon_context.Decision.Effects.{is_compact, decline_effects}
use long_horizon_context.Decision.Exits.{
  decline_to_ordinary, decline_to_ordinary_parts, continue_normal, continue_normal_parts,
  normal_complete, normal_complete_parts,
}
use long_horizon_context.Decision.Tail.{
  preserve_tool, continue_turn, continue_guarded, preserve_guarded, post_compact_tail,
}
use long_horizon_context.Decision.Oracle.{
  empty_set, protected_path_unavailable, guarded_tail, above_trigger, below_trigger, unmeasured,
  by_pressure, by_usage, by_boundary, choose_branch, evaluating_path,
}
use long_horizon_context.Promises.Compacts.{continue_turn_tail-compact, preserve_tool_tail-compact}

abbrev pub orders_compact : Option Decision → Bool
orders_compact none = false
orders_compact (some d) = any is_compact d.effects

-- The open work can be compacted: no tool result is pending, or its calls are correlated and named.
abbrev pub is_open : WorkContinuation → Bool
is_open (pending_correlated_tool_result ids valid) =
    valid && not (is_nil (normalize_protected_tool_call_ids ids))
is_open WorkContinuation.none = true
is_open active_non_tool = true

-- A pending tool result can be compacted.
abbrev pub is_pending_open : WorkContinuation → Bool
is_pending_open (pending_correlated_tool_result ids valid) =
    valid && not (is_nil (normalize_protected_tool_call_ids ids))
is_pending_open WorkContinuation.none = false
is_pending_open active_non_tool = false

-- The measured pressure is at or above the trigger.
abbrev pub is_due : ProviderUsage → Policy → Estimate → Bool
is_due (available usage) policy estimate =
    leb policy.upper_trigger_tokens (usage.total + estimate.tokens)
is_due (unavailable _) policy estimate = false

-- A pending tool result, with calls that are correlated and named, at or above the trigger.
abbrev pub is_measured_due : Input → Bool
is_measured_due input =
    is_due input.provider_usage input.policy input.post_measurement_estimate
    && is_pending_open input.continuation

-- A forced boundary names the turn that it opened.
abbrev pub is_filled : ForcedBoundary → Bool
is_filled not_applied = false
is_filled (applied b) = not (is_empty b.continuation_turn_id)

-- Whether a branch behind the gates compacts, from whether the pressure calls for it, and whether
-- the open work can be compacted.
abbrev pub is_branch_due : ForcedBoundary → Bool → Bool → Bool
is_branch_due (applied b) measured can = can && is_filled (applied b)
is_branch_due not_applied measured can = measured

module _ (input : Input) (prelude : Prelude) (h : any is_compact prelude.effects ≡ false) where
  declined :
      (path : List State) (code : WarningCode) (reason : String)
      → any is_compact (decline_to_ordinary input path prelude code reason).effects ≡ false
  unfolding decline_to_ordinary decline_to_ordinary_parts build decline_effects
  declined path code reason = rw (any-append, any-append, any-append, any-append, h) (ground arith)

  continued :
      (path : List State) (code : String) (below : Bool)
      → any is_compact (continue_normal input path prelude code below).effects ≡ false
  unfolding continue_normal continue_normal_parts build
  continued path code below = rw (any-append, h) refl

  completed :
      (path : List State) (code : String)
      → any is_compact (normal_complete input path prelude code).effects ≡ false
  unfolding normal_complete normal_complete_parts build
  completed path code = rw (any-append, h) refl

  orders_compact-continue_guarded :
      (b : ForcedBoundary) (path : List State)
      → any is_compact (continue_guarded b input path prelude).effects ≡ is_filled b
  orders_compact-continue_guarded not_applied path = declined path _ _
  orders_compact-continue_guarded (applied b) path =
      elim (Bool-cases (is_empty b.continuation_turn_id)) [
        | inl e ↦ rw e (declined path _ _)
        | inr e ↦ rw e (continue_turn_tail-compact input path prelude b)
      ]

  orders_compact-open :
      (xs : List String) (path : List State)
      → orders_compact (guarded_tail (empty_set xs) input path prelude continue_turn)
        ≡ (not (is_nil xs) && is_filled input.forced_continuation_boundary)
  unfolding guarded_tail post_compact_tail
  orders_compact-open [] path = declined path _ _
  orders_compact-open (x ∷ xs) path =
      orders_compact-continue_guarded input.forced_continuation_boundary _

  orders_compact-continue_turn :
      (c : WorkContinuation) (path : List State)
      → orders_compact
          (guarded_tail (protected_path_unavailable c) input path prelude continue_turn)
        ≡ (is_open c && is_filled input.forced_continuation_boundary)
  unfolding guarded_tail post_compact_tail protected_path_unavailable
  orders_compact-continue_turn (pending_correlated_tool_result ids false) path = declined path _ _
  orders_compact-continue_turn (pending_correlated_tool_result ids true) path =
      orders_compact-open (normalize_protected_tool_call_ids ids) path
  orders_compact-continue_turn WorkContinuation.none path =
      orders_compact-continue_guarded input.forced_continuation_boundary _
  orders_compact-continue_turn active_non_tool path =
      orders_compact-continue_guarded input.forced_continuation_boundary _

  orders_compact-preserve_guarded :
      (c : WorkContinuation) (ids : List String) (path : List State)
      → c ≡ pending_correlated_tool_result ids true
      → orders_compact (preserve_guarded c input path prelude) ≡ true
  orders_compact-preserve_guarded (pending_correlated_tool_result _ _) ids path q =
      preserve_tool_tail-compact input path prelude
  orders_compact-preserve_guarded WorkContinuation.none ids path q = cc
  orders_compact-preserve_guarded active_non_tool ids path q = cc

  orders_compact-pending :
      (ids xs : List String) (path : List State)
      → input.continuation ≡ pending_correlated_tool_result ids true
      → orders_compact (guarded_tail (empty_set xs) input path prelude preserve_tool)
        ≡ not (is_nil xs)
  unfolding guarded_tail post_compact_tail
  orders_compact-pending ids [] path q = declined path _ _
  orders_compact-pending ids (x ∷ xs) path q =
      orders_compact-preserve_guarded input.continuation ids _ q

  orders_compact-above_trigger :
      (c : WorkContinuation) (path : List State)
      → input.continuation ≡ c
      → orders_compact (above_trigger c input path prelude) ≡ is_pending_open c
  unfolding protected_path_unavailable guarded_tail
  orders_compact-above_trigger WorkContinuation.none path q = completed path _
  orders_compact-above_trigger active_non_tool path q = declined path _ _
  orders_compact-above_trigger (pending_correlated_tool_result ids false) path q = declined path _ _
  orders_compact-above_trigger (pending_correlated_tool_result ids true) path q =
      orders_compact-pending ids (normalize_protected_tool_call_ids ids) path q

  orders_compact-below_trigger :
      (c : WorkContinuation) (path : List State)
      → any is_compact (below_trigger c input path prelude).effects ≡ false
  orders_compact-below_trigger WorkContinuation.none path = completed path _
  orders_compact-below_trigger (pending_correlated_tool_result _ _) path = continued path _ _
  orders_compact-below_trigger active_non_tool path = continued path _ _

  orders_compact-unmeasured :
      (c : WorkContinuation) (path : List State)
      → any is_compact (unmeasured c input path prelude).effects ≡ false
  orders_compact-unmeasured WorkContinuation.none path = completed path _
  orders_compact-unmeasured (pending_correlated_tool_result _ _) path = continued path _ _
  orders_compact-unmeasured active_non_tool path = continued path _ _

  orders_compact-by_pressure :
      (due : Bool) (path : List State)
      → orders_compact (by_pressure (some due) input path prelude)
        ≡ (due && is_pending_open input.continuation)
  orders_compact-by_pressure true path = orders_compact-above_trigger input.continuation path refl
  orders_compact-by_pressure false path = orders_compact-below_trigger input.continuation path

  orders_compact-by_usage :
      (u : ProviderUsage) (path : List State)
      → input.provider_usage ≡ u
      → orders_compact (by_usage u input path prelude) ≡ (
          is_due u input.policy input.post_measurement_estimate
          && is_pending_open input.continuation)
  unfolding pressure_receipt
  orders_compact-by_usage (unavailable _) path q = orders_compact-unmeasured input.continuation path
  orders_compact-by_usage (available usage) path q =
      ap
        (λ u.
          orders_compact
            (by_pressure (pressure_from u input).at_or_above_trigger input path prelude))
        q
      ∙ orders_compact-by_pressure
          (is_due (available usage) input.policy input.post_measurement_estimate) path

  orders_compact-by_boundary :
      (b : ForcedBoundary) (path : List State)
      → input.forced_continuation_boundary ≡ b
      → orders_compact (by_boundary b input path prelude)
        ≡ is_branch_due b (is_measured_due input) (is_open input.continuation)
  orders_compact-by_boundary (applied b) path q =
      orders_compact-continue_turn input.continuation path
      ∙ ap (λ c. is_open input.continuation && is_filled c) q
  orders_compact-by_boundary not_applied path q =
      orders_compact-by_usage input.provider_usage path refl

  pub orders_compact-choose_branch :
      orders_compact (choose_branch input prelude)
      ≡ is_branch_due input.forced_continuation_boundary
          (is_measured_due input)
          (is_open input.continuation)
  unfolding choose_branch
  orders_compact-choose_branch =
      orders_compact-by_boundary input.forced_continuation_boundary evaluating_path refl
