-- ===== src/Validation/DecisionChecks.antt =====
-- `validateCompactContinuationDecision` of validate.ts. The texts of `JSON.stringify` are equal for
-- equal effects and paths, and differ for different ones, so the values are compared.
use long_horizon_context.Base.{
  ℕ_discrete, String-discrete, Bool, false, not, ◌&&◌, Option, none, some, List, ◌++◌, is_some,
  get_last?, decide, ◌<>◌,
}
use long_horizon_context.Contract.Codes.{State, State-discrete, states, OutcomeKind-discrete}
use long_horizon_context.Contract.Texts.{state_text}
use long_horizon_context.Contract.Effects.{Effect}
use long_horizon_context.Contract.Receipt.{Decision}
use long_horizon_context.Validation.Issues.{Issue, issue_if, has}
use long_horizon_context.Validation.ReceiptChecks.{validate_receipt}

unfoldable pub Effects-discrete : Discrete (List Effect)
Effects-discrete = hlevel (ℕ_discrete, String-discrete)

unfoldable pub States-discrete : Discrete (List State)
States-discrete = hlevel

abbrev pub is_last : Option State → State → Bool
is_last none s = false
is_last (some t) s = decide (State-discrete s t)

abbrev pub passes : State → List State → Bool
passes s path = has State-discrete path s

unfoldable pub agreement_checks : Decision → List Issue
agreement_checks d =
    issue_if (not (decide (OutcomeKind-discrete d.outcome d.receipt.outcome))) "outcome"
      "decision.outcome must match receipt.outcome"
    ++ issue_if (not (decide (Effects-discrete d.effects d.receipt.effects))) "effects"
        "decision.effects must match receipt.effects"
    ++ issue_if (not (decide (States-discrete d.transition_path d.receipt.transition_path)))
        "transitionPath" "decision.transitionPath must match receipt"

unfoldable pub route_checks : Decision → List Issue
route_checks d =
    issue_if (not (is_last (get_last? d.transition_path) d.terminal_state)) "terminalState"
      "must equal last transitionPath entry"
    ++ issue_if (not (has State-discrete states d.terminal_state)) "terminalState"
        ("unknown state " <> state_text d.terminal_state)
    ++ issue_if
        (passes State.compacting d.transition_path
          && not (passes State.path_preserve_tool d.transition_path)
          && not (passes State.path_continue_turn d.transition_path))
        "transitionPath" "compacting paths must include path_preserve_tool or path_continue_turn"
    ++ issue_if
        (not (is_some d.receipt.pressure.provider_base_tokens)
          && passes State.below_trigger d.transition_path)
        "transitionPath" "missing provider usage must not route through below_trigger"

unfoldable pub validate_decision : Decision → List Issue
validate_decision d = validate_receipt d.receipt ++ agreement_checks d ++ route_checks d
