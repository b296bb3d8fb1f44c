-- ===== src/Validity/Branches.antt =====
-- The branches that decide.ts chooses between, against the checks.
use long_horizon_context.Base.{
  ◌≡◌, ◌≢◌, refl, sym, ap, ◌∙◌, String, Bool, true, false, inl, inr, Option, none, some, List, [],
  ◌∷◌, ◌++◌, arith, is_empty, is_some, All, decide, Bool-cases,
}
use long_horizon_context.Contract.Codes.{State, State-discrete, WarningCode}
use long_horizon_context.Contract.Input.{
  Input, ProviderUsage, available, unavailable, ForcedBoundary, applied, not_applied,
  WorkContinuation, pending_correlated_tool_result, active_non_tool,
}
use long_horizon_context.Contract.ToolIds.{normalize_protected_tool_call_ids}
use long_horizon_context.Contract.Receipt.{Decision}
use long_horizon_context.Decision.Readings.{
  protected_ids, protected_ids_of, pressure_from, pressure_receipt,
}
use long_horizon_context.Decision.Parts.{Prelude, decide as build}
use long_horizon_context.Decision.Exits.{
  decline_to_ordinary, continue_normal, continue_normal_parts, normal_complete,
  normal_complete_parts,
}
use long_horizon_context.Decision.Tail.{
  preserve_tool, continue_turn, continue_guarded, preserve_guarded, post_compact_tail,
}
use long_horizon_context.Decision.Oracle.{
  Unavailable, empty_set, protected_path_unavailable, guarded_tail, above_trigger, below_trigger,
  unmeasured, by_pressure, by_usage, by_boundary, choose_branch, evaluating_path,
}
use long_horizon_context.Validation.DecisionChecks.{route_checks, validate_decision}
use long_horizon_context.Validity.Soft.{IsSoft}
use long_horizon_context.Validity.Decisions.{validate_decision-nil}
use long_horizon_context.Validity.Fits.{Fits}
use long_horizon_context.Validity.Routes.{IsPlain}
use long_horizon_context.Validity.Exits.{decline-Passes}
use long_horizon_context.Validity.Quiet.{continue_normal-Passes, normal_complete-Passes}
use long_horizon_context.Validity.Installs.{IsFilled}
use long_horizon_context.Validity.ContinueTail.{continue_turn_tail-valid}
use long_horizon_context.Validity.PreserveTail.{preserve_tool_tail-valid}

-- A decision was returned, and the checks find nothing in it.
abbrev pub IsValid : Option Decision → Type 0
IsValid none = ⊥
IsValid (some d) = validate_decision d ≡ []

IsPlain-decline : IsPlain (evaluating_path ++ State.terminal_decline_ordinary ∷ [])
unfolding State-discrete decide
IsPlain-decline = record { no_compact = refl; no_below = refl }

IsPlain-continue_decline :
    IsPlain (evaluating_path ++ State.path_continue_turn ∷ State.terminal_decline_ordinary ∷ [])
unfolding State-discrete decide
IsPlain-continue_decline = record { no_compact = refl; no_below = refl }

completed_route :
    (input : Input) (prelude : Prelude) (code : String)
    → route_checks (build input (normal_complete_parts input evaluating_path prelude code)) ≡ []
unfolding normal_complete_parts build route_checks State-discrete decide
completed_route input prelude code = ground arith

not_below_route :
    (input : Input) (prelude : Prelude)
    → route_checks (
        build input (continue_normal_parts input evaluating_path prelude "no_provider_usage" false))
      ≡ []
unfolding continue_normal_parts build route_checks State-discrete decide
not_below_route input prelude = ground arith

below_route :
    (input : Input) (prelude : Prelude)
    → is_some (pressure_receipt input).provider_base_tokens ≡ true
    → route_checks
        (build input (continue_normal_parts input evaluating_path prelude "below_trigger" true))
      ≡ []
unfolding continue_normal_parts build route_checks State-discrete decide
below_route input prelude m = ground (arith, m)

absurd_cons : {x : String} {xs : List String} → x ∷ xs ≡ [] → ⊥
absurd_cons e = cc

abbrev is_available : ProviderUsage → Bool
is_available (available _) = true
is_available (unavailable _) = false

measured :
    (input : Input)
    → is_some (pressure_receipt input).provider_base_tokens ≡ is_available input.provider_usage
unfolding pressure_receipt
measured input = cases input.provider_usage
  where
    cases :
        (u : ProviderUsage) → is_some (pressure_from u input).provider_base_tokens ≡ is_available u
    cases (available _) = refl
    cases (unavailable _) = refl

-- Every refusal of the protected path names its reason.
unavailable-IsFilled :
    (c : WorkContinuation) (u : Unavailable)
    → protected_path_unavailable c ≡ some u
    → IsFilled u.reason
unfolding protected_path_unavailable
unavailable-IsFilled (pending_correlated_tool_result ids false) u q = cc
unavailable-IsFilled (pending_correlated_tool_result ids true) u q =
    of_set (normalize_protected_tool_call_ids ids) q
  where
    of_set : (xs : List String) → empty_set xs ≡ some u → IsFilled u.reason
    of_set [] e = cc
    of_set (x ∷ xs) e = cc
unavailable-IsFilled WorkContinuation.none u q = cc
unavailable-IsFilled active_non_tool u q = cc

module _ (input : Input) (prelude : Prelude) (f : Fits input)
    (soft : All IsSoft prelude.effects) where
  declined :
      (path : List State) (code : WarningCode) (reason : String)
      → IsPlain (path ++ State.terminal_decline_ordinary ∷ [])
      → IsFilled reason
      → validate_decision (decline_to_ordinary input path prelude code reason) ≡ []
  unfolding decline_to_ordinary
  declined path code reason p n =
      validate_decision-nil input _ (decline-Passes input path prelude code reason f p soft n)

  completed :
      (code : String)
      → IsFilled code
      → validate_decision (normal_complete input evaluating_path prelude code) ≡ []
  unfolding normal_complete
  completed code n = validate_decision-nil input _ (
      normal_complete-Passes input evaluating_path prelude code f
        (completed_route input prelude code) soft n)

  not_below :
      validate_decision (continue_normal input evaluating_path prelude "no_provider_usage" false)
      ≡ []
  unfolding continue_normal
  not_below = validate_decision-nil input _ (
      continue_normal-Passes input evaluating_path prelude "no_provider_usage" false f
        (not_below_route input prelude) soft refl)

  below :
      is_some (pressure_receipt input).provider_base_tokens ≡ true
      → validate_decision (continue_normal input evaluating_path prelude "below_trigger" true) ≡ []
  unfolding continue_normal
  below m = validate_decision-nil input _ (
      continue_normal-Passes input evaluating_path prelude "below_trigger" true f
        (below_route input prelude m) soft refl)

  continue_guarded-valid :
      (boundary : ForcedBoundary)
      → validate_decision (
          continue_guarded boundary input
            (evaluating_path ++ State.path_continue_turn ∷ [])
            prelude)
        ≡ []
  continue_guarded-valid not_applied = declined _ _ _ IsPlain-continue_decline refl
  continue_guarded-valid (applied b) = elim (Bool-cases (is_empty b.continuation_turn_id)) [
    | inl e ↦ rw e (declined _ _ _ IsPlain-continue_decline refl)
    | inr e ↦ rw e (continue_turn_tail-valid input prelude b f soft e)
  ]

  preserve_guarded-IsValid :
      (c : WorkContinuation) (ids : List String)
      → c ≡ pending_correlated_tool_result ids true
      → protected_ids_of input ≢ []
      → IsValid
          (preserve_guarded c input (evaluating_path ++ State.path_preserve_tool ∷ []) prelude)
  preserve_guarded-IsValid (pending_correlated_tool_result _ _) ids q n =
      preserve_tool_tail-valid input prelude f soft n
  preserve_guarded-IsValid WorkContinuation.none ids q n = cc
  preserve_guarded-IsValid active_non_tool ids q n = cc

  -- A pending tool result that passes the guard has calls to preserve.
  guarded_preserve-IsValid :
      (ids xs : List String)
      → input.continuation ≡ pending_correlated_tool_result ids true
      → normalize_protected_tool_call_ids ids ≡ xs
      → IsValid (guarded_tail (empty_set xs) input evaluating_path prelude preserve_tool)
  unfolding guarded_tail post_compact_tail protected_ids_of
  guarded_preserve-IsValid ids [] q e = declined _ _ _ IsPlain-decline refl
  guarded_preserve-IsValid ids (x ∷ xs) q e =
      preserve_guarded-IsValid input.continuation ids q
        (λ z. absurd_cons (sym e ∙ sym (ap protected_ids q) ∙ z))

  above_trigger-IsValid :
      (c : WorkContinuation)
      → input.continuation ≡ c
      → IsValid (above_trigger c input evaluating_path prelude)
  unfolding protected_path_unavailable guarded_tail
  above_trigger-IsValid WorkContinuation.none q = completed _ refl
  above_trigger-IsValid (pending_correlated_tool_result ids false) q =
      declined _ _ _ IsPlain-decline refl
  above_trigger-IsValid (pending_correlated_tool_result ids true) q =
      guarded_preserve-IsValid ids _ q refl
  above_trigger-IsValid active_non_tool q = declined _ _ _ IsPlain-decline refl

  below_trigger-valid :
      (c : WorkContinuation)
      → is_some (pressure_receipt input).provider_base_tokens ≡ true
      → validate_decision (below_trigger c input evaluating_path prelude) ≡ []
  below_trigger-valid WorkContinuation.none m = completed _ refl
  below_trigger-valid (pending_correlated_tool_result _ _) m = below m
  below_trigger-valid active_non_tool m = below m

  unmeasured-valid :
      (c : WorkContinuation) → validate_decision (unmeasured c input evaluating_path prelude) ≡ []
  unmeasured-valid WorkContinuation.none = completed _ refl
  unmeasured-valid (pending_correlated_tool_result _ _) = not_below
  unmeasured-valid active_non_tool = not_below

  by_pressure-IsValid :
      (at : Option Bool)
      → is_some (pressure_receipt input).provider_base_tokens ≡ true
      → IsValid (by_pressure at input evaluating_path prelude)
  by_pressure-IsValid (some true) m = above_trigger-IsValid input.continuation refl
  by_pressure-IsValid (some false) m = below_trigger-valid input.continuation m
  by_pressure-IsValid none m = below_trigger-valid input.continuation m

  by_usage-IsValid :
      (u : ProviderUsage)
      → input.provider_usage ≡ u
      → IsValid (by_usage u input evaluating_path prelude)
  by_usage-IsValid (unavailable gap) q = unmeasured-valid input.continuation
  by_usage-IsValid (available usage) q =
      by_pressure-IsValid _ (rw (measured input) (ap is_available q))

  guarded_continue-IsValid :
      (u : Option Unavailable)
      → (c : WorkContinuation) → u ≡ protected_path_unavailable c
      → IsValid (guarded_tail u input evaluating_path prelude continue_turn)
  unfolding guarded_tail post_compact_tail
  guarded_continue-IsValid none c q = continue_guarded-valid input.forced_continuation_boundary
  guarded_continue-IsValid (some u) c q =
      declined _ u.code u.reason IsPlain-decline (unavailable-IsFilled c u (sym q))

  pub choose_branch-IsValid : IsValid (choose_branch input prelude)
  unfolding choose_branch
  choose_branch-IsValid = by_boundary-IsValid input.forced_continuation_boundary
    where
      by_boundary-IsValid :
          (b : ForcedBoundary) → IsValid (by_boundary b input evaluating_path prelude)
      by_boundary-IsValid (applied _) = guarded_continue-IsValid _ input.continuation refl
      by_boundary-IsValid not_applied = by_usage-IsValid input.provider_usage refl
