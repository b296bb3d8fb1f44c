-- ===== src/Promises/Retried.antt =====
-- The retry that the receipt of a decision authorizes (decide.ts).
use long_horizon_context.Base.{
  ◌<◌, ◌≡◌, ◌≢◌, ◌⊎◌, inl, inr, refl, subst, not, true, false, some, Option, if◌then◌else◌, List,
  Bool, String,
}
use long_horizon_context.Contract.Codes.{OutcomeKind, State, WarningCode}
use long_horizon_context.Contract.Input.{Input, AppliedBoundary}
use long_horizon_context.Contract.Effects.{Effect}
use long_horizon_context.Contract.Receipt.{Decision, Residual, Opened}
use long_horizon_context.Decision.Readings.{no_retry}
use long_horizon_context.Decision.Parts.{Prelude}
use long_horizon_context.Decision.Tail.{
  continue_turn_tail, preserve_tool_tail, attempt_failed_after_preserve,
  attempt_failed_after_continue, installed,
}
use long_horizon_context.Decision.Oracle.{decide_compact_continuation}
use long_horizon_context.Promises.Cases.{IsKept, OfSome, of_if, of_decision}
use long_horizon_context.Promises.Requests.{exit_facts}
use long_horizon_context.Promises.Retries.{choice_of}

-- A retry is authorized below the budget, by a decision to retry, or none is, by any other decision.
abbrev pub IsRetrying : Decision → Type 0
IsRetrying d =
    ((d.receipt.retry.retry_authorized ≡ true)
      × (d.outcome ≡ OutcomeKind.retry_compact)
      × (d.terminal_state ≡ State.terminal_retry)
      × (d.receipt.retry.attempt_index < d.receipt.retry.budget))
    ⊎ ((d.receipt.retry.retry_authorized ≡ false)
        × (d.outcome ≢ OutcomeKind.retry_compact)
        × (d.terminal_state ≢ State.terminal_retry))

decides_otherwise :
    (o : OutcomeKind) → o ≡ OutcomeKind.continue_current_body → o ≢ OutcomeKind.retry_compact
decides_otherwise o e f = cc

ends_otherwise : (s : State) → s ≡ State.terminal_continue_current_body → s ≢ State.terminal_retry
ends_otherwise s e f = cc

continue_failed :
    (i : Input) (path : List State) (code : WarningCode) (reason : String) (effects : List Effect)
    (ran : Bool) (turn_id : String) (persisted : Bool)
    → IsRetrying (attempt_failed_after_continue i path code reason effects ran turn_id persisted)
continue_failed i path code reason effects ran turn_id persisted =
    unfold exit_facts in
    elim (choice_of i) [
      | inl (below, allowed, outcome, terminal) ↦ inl (allowed, outcome, terminal, below)
      | inr (above, refused, outcome, terminal) ↦
          inr (refused, decides_otherwise _ outcome, ends_otherwise _ terminal)
    ]

preserve_failed :
    (i : Input) (path : List State) (code : WarningCode) (reason : String) (effects : List Effect)
    (ran : Bool)
    → IsRetrying (attempt_failed_after_preserve i path code reason effects ran)
preserve_failed i path code reason effects ran =
    unfold exit_facts in
    elim (choice_of i) [
      | inl (below, allowed, outcome, terminal) ↦ inl (allowed, outcome, terminal, below)
      | inr (above, refused, outcome, terminal) ↦
          inr (refused, decides_otherwise _ outcome, ends_otherwise _ terminal)
    ]

otherwise_if : {A : Type 0} (x : A) (b : Bool) (y z : A) → y ≢ x → z ≢ x → (if b then y else z) ≢ x
otherwise_if x true y z h k = h
otherwise_if x false y z h k = k

installed-IsRetrying :
    (i : Input) (o : OutcomeKind) (terminal : State) (path : List State) (code : String)
    (effects : List Effect) (reason : Option String) (opened : Opened) (r : Residual)
    → o ≢ OutcomeKind.retry_compact
    → terminal ≢ State.terminal_retry
    → IsRetrying (installed i o terminal path code effects reason opened r)
unfolding no_retry
installed-IsRetrying i o terminal path code effects reason opened r h k =
    unfold exit_facts in inr (refl, h, k)

turned_IsRetrying :
    (i : Input) (path : List State) (prelude : Prelude) (b : AppliedBoundary)
    → IsRetrying (continue_turn_tail i path prelude b)
unfolding continue_turn_tail
turned_IsRetrying i path prelude b =
    of_if IsRetrying (not i.compact_material.compact_structurally_valid) _ _
      (continue_failed i _ _ _ _ _ _ _)
      (of_if IsRetrying (not i.compact_material.install_succeeds) _ _
        (continue_failed i _ _ _ _ _ _ _)
        (of_if IsRetrying (not i.compact_material.useful_reduction) _ _
          (installed-IsRetrying i OutcomeKind.no_reduction State.terminal_no_reduction _ _ _ _ _ _
            (λ e. cc e) (λ e. cc e))
          (installed-IsRetrying i _ _ _ _ _ _ _ _
            (otherwise_if OutcomeKind.retry_compact _ OutcomeKind.degraded_compact _ (λ e. cc e)
              (otherwise_if OutcomeKind.retry_compact _ OutcomeKind.compact_preserve_tool_escalated
                OutcomeKind.compact_continue_turn (λ e. cc e) (λ e. cc e)))
            (otherwise_if State.terminal_retry _ State.terminal_degraded
              State.terminal_continue_turn (λ e. cc e) (λ e. cc e)))))

preserved_IsRetrying :
    (i : Input) (path : List State) (prelude : Prelude)
    → IsRetrying (preserve_tool_tail i path prelude)
unfolding preserve_tool_tail
preserved_IsRetrying i path prelude =
    of_if IsRetrying (not i.compact_material.compact_structurally_valid) _ _
      (preserve_failed i _ _ _ _ _)
      (of_if IsRetrying (not i.compact_material.install_succeeds) _ _ (preserve_failed i _ _ _ _ _)
        (of_if IsRetrying (not i.compact_material.useful_reduction) _ _
          (installed-IsRetrying i OutcomeKind.no_reduction State.terminal_no_reduction _ _ _ _ _ _
            (λ e. cc e) (λ e. cc e))
          (installed-IsRetrying i _ _ _ _ _ _ _ _
            (otherwise_if OutcomeKind.retry_compact _ OutcomeKind.degraded_compact
              OutcomeKind.compact_preserve_tool (λ e. cc e) (λ e. cc e))
            (otherwise_if State.terminal_retry _ State.terminal_degraded
              State.terminal_preserve_tool (λ e. cc e) (λ e. cc e)))))

kept : IsKept IsRetrying
unfolding no_retry
kept = record {
  unsupported = λ i. unfold exit_facts in inr (refl, λ e. cc e, λ e. cc e);
  skipped = λ i path code reason. unfold exit_facts in inr (refl, λ e. cc e, λ e. cc e);
  elsewhere = λ i path prelude quiet reason. unfold exit_facts in inr (refl, λ e. cc e, λ e. cc e);
  declined =
      λ i path prelude quiet code reason. unfold exit_facts in inr (refl, λ e. cc e, λ e. cc e);
  continued =
      λ i path prelude quiet code below. unfold exit_facts in inr (refl, λ e. cc e, λ e. cc e);
  completed = λ i path prelude quiet code. unfold exit_facts in inr (refl, λ e. cc e, λ e. cc e);
  turned = λ i path prelude quiet b. turned_IsRetrying i path prelude b;
  preserved = λ i path prelude quiet. preserved_IsRetrying i path prelude;
}

-- In every decision of the oracle the receipt authorizes a retry exactly when the outcome and the
-- terminal state are those of a retry, and then the number of the attempt is below the budget.
pub decide_compact_continuation-IsRetrying :
    (input : Input) (d : Decision) → decide_compact_continuation input ≡ some d → IsRetrying d
decide_compact_continuation-IsRetrying input d h =
    subst (OfSome IsRetrying) h (of_decision IsRetrying kept input)
