-- ===== src/Validity/Failures.antt =====
-- The exits of decide.ts whose compact attempt failed, against the checks.
use long_horizon_context.Base.{
  ◌≡◌, refl, ◌∙◌, String, Bool, true, false, not, ◌||◌, inl, inr, List, [], ◌∷◌, ◌++◌, arith,
  is_empty, any-append, ap, All, All-if, All-append, ltb, Bool-cases, decide,
}
use long_horizon_context.Contract.Codes.{State, State-discrete, WarningCode}
use long_horizon_context.Contract.Input.{Input}
use long_horizon_context.Contract.Effects.{Effect, EffectType}
use long_horizon_context.Decision.Readings.{attempt_index_of, retry_budget_of}
use long_horizon_context.Decision.Parts.{decide as build}
use long_horizon_context.Decision.Effects.{retry_classification, attempt_failure_warnings}
use long_horizon_context.Decision.Tail.{
  attempt_failed_after_preserve_parts, attempt_failed_after_continue_parts, closing,
}
use long_horizon_context.Validation.ResidualChecks.{validate_residual}
use long_horizon_context.Validation.ReceiptChecks.{standing_checks}
use long_horizon_context.Validation.DecisionChecks.{passes}
use long_horizon_context.Validity.EffectLists.{IsSound}
use long_horizon_context.Validity.Sequences.{skeleton}
use long_horizon_context.Validity.Soft.{AtTurn, skeleton-append, turn_id_checks-nil}
use long_horizon_context.Validity.Facts.{residual_facts, sequence_facts}
use long_horizon_context.Validity.Decisions.{Passes}
use long_horizon_context.Validity.Fits.{Fits, retry_classification-passes}
use long_horizon_context.Validity.Routes.{is_last-append, compact_route}
use long_horizon_context.Validity.Installs.{failure-IsSound, closing-IsSound, IsFilled}
use long_horizon_context.Validity.Shapes.{shape}

-- The path of an attempt: it has taken a branch and compacted, and was not below the trigger.
pub record IsAttempt (path : List State) : Type 0 where
  pub branched :
      (passes State.path_preserve_tool path || passes State.path_continue_turn path) ≡ true
  pub no_below : passes State.below_trigger path ≡ false

-- An attempt stays one when a state behind it is another than these.
pub IsAttempt-append :
    (path last : List State)
    → IsAttempt path
    → passes State.below_trigger last ≡ false
    → IsAttempt (path ++ last)
IsAttempt-append path last h k = record {
  branched =
      rw
        (
          any-append (λ x. decide (State-discrete State.path_preserve_tool x)) path last,
          any-append (λ x. decide (State-discrete State.path_continue_turn x)) path last,
        )
        (ground (arith, h.branched));
  no_below =
      rw (any-append (λ x. decide (State-discrete State.below_trigger x)) path last, h.no_below) k;
}

failed_state :
    (input : Input)
    → passes State.below_trigger ((retry_classification input).terminal_state ∷ []) ≡ false
unfolding retry_classification State-discrete decide
failed_state input = ground arith

failed_reason : (input : Input) → is_empty (retry_classification input).reason_code ≡ false
unfolding retry_classification
failed_reason input = elim (Bool-cases (ltb (attempt_index_of input) (retry_budget_of input))) [
  | inl e ↦ rw e refl
  | inr e ↦ rw e refl
]

skeleton-failure :
    (input : Input) (code : WarningCode) (reason : String) (effects : List Effect)
    → skeleton (
        effects
        ++ (attempt_failure_warnings code reason (retry_classification input).retry ++ closing))
      ≡ skeleton effects ++ EffectType.release_writer ∷ []
unfolding attempt_failure_warnings
skeleton-failure input code reason effects =
    rw (skeleton-append) (ap (λ l. skeleton effects ++ l) (unfold skeleton in ground arith))

failure-All :
    (P : Effect → Type 0) (input : Input) (code : WarningCode) (reason : String)
    (effects : List Effect)
    → All P effects
    → All P (attempt_failure_warnings code reason (retry_classification input).retry)
    → All P closing
    → All P (
        effects
        ++ (attempt_failure_warnings code reason (retry_classification input).retry ++ closing))
failure-All P input code reason effects h w c =
    All-append P effects _ h (All-append P _ closing w c)

failure-AtTurn :
    (turn_id : String) (input : Input) (code : WarningCode) (reason : String)
    → All (AtTurn turn_id) (attempt_failure_warnings code reason (retry_classification input).retry)
unfolding attempt_failure_warnings
failure-AtTurn turn_id input code reason = (
  tt,
  All-if (AtTurn turn_id) (not (retry_classification input).retry.retry_authorized) (_ ∷ []) []
      (tt, tt) tt,
)

pub failed_preserve-Passes :
    (input : Input) (path : List State) (code : WarningCode) (reason : String)
    (effects : List Effect) (degraded ran : Bool)
    → Fits input
    → IsAttempt path
    → IsFilled reason
    → All IsSound effects
    → All (AtTurn "") effects
    → skeleton effects ++ EffectType.release_writer ∷ [] ≡ shape false degraded false false
    → Passes input (attempt_failed_after_preserve_parts input path code reason effects ran)
unfolding attempt_failed_after_preserve_parts build
failed_preserve-Passes input path code reason effects degraded ran f p n s t k = record {
  reason = failed_reason input;
  ended = refl;
  sound =
      failure-All IsSound input code reason effects s
        (failure-IsSound code reason (retry_classification input).retry n) closing-IsSound;
  residual = unfold validate_residual residual_facts in ground (arith, f.before, f.after);
  retry = retry_classification-passes input f;
  standing = unfold standing_checks residual_facts in unfold retry_classification in ground arith;
  turn_ids = turn_id_checks-nil "" _ (
      failure-All (AtTurn "") input code reason effects t (failure-AtTurn "" input code reason)
        (tt, (tt, tt)));
  sequence = rw (skeleton-failure input code reason effects ∙ k) (record {
    force = unfold sequence_facts in ground arith;
    boundary = unfold sequence_facts in ground arith;
    order = unfold sequence_facts in ground arith;
    install = unfold sequence_facts in ground arith;
    continuation = unfold sequence_facts retry_classification in ground arith;
  });
  route =
      let q = IsAttempt-append path _ p (failed_state input) in
      compact_route _ (is_last-append path _) q.branched q.no_below;
}

pub failed_continue-Passes :
    (input : Input) (path : List State) (code : WarningCode) (reason : String)
    (effects : List Effect) (turn_id : String) (forced degraded ran persisted : Bool)
    → Fits input
    → IsAttempt path
    → IsFilled reason
    → All IsSound effects
    → All (AtTurn turn_id) effects
    → skeleton effects ++ EffectType.release_writer ∷ [] ≡ shape forced degraded persisted false
    → Passes input
        (attempt_failed_after_continue_parts input path code reason effects ran turn_id persisted)
unfolding attempt_failed_after_continue_parts build
failed_continue-Passes input path code reason effects turn_id forced degraded ran persisted f p n s
      t k =
    record {
      reason = failed_reason input;
      ended = refl;
      sound =
          failure-All IsSound input code reason effects s
            (failure-IsSound code reason (retry_classification input).retry n) closing-IsSound;
      residual = unfold validate_residual residual_facts in ground (arith, f.before, f.after);
      retry = retry_classification-passes input f;
      standing =
          unfold standing_checks residual_facts in unfold retry_classification in ground arith;
      turn_ids = turn_id_checks-nil turn_id _ (
          failure-All (AtTurn turn_id) input code reason effects t
            (failure-AtTurn turn_id input code reason) (tt, (tt, tt)));
      sequence = rw (skeleton-failure input code reason effects ∙ k) (record {
        force = unfold sequence_facts in ground arith;
        boundary = unfold sequence_facts in ground arith;
        order = unfold sequence_facts in ground arith;
        install = unfold sequence_facts in ground arith;
        continuation = unfold sequence_facts retry_classification in ground arith;
      });
      route =
          let q = IsAttempt-append path _ p (failed_state input) in
          compact_route _ (is_last-append path _) q.branched q.no_below;
    }
