-- ===== src/Promises/Discards.antt =====
-- A pending boundary that `decideCompactContinuation` (decide.ts) discards.
use long_horizon_context.Base.{
  ◌≡◌, refl, ap, String, Bool, true, false, not, Option, none, some, List, is_empty, if◌then◌else◌,
}
use long_horizon_context.Contract.Codes.{State, OutcomeKind}
use long_horizon_context.Contract.Input.{
  Input, ProviderUsage, available, unavailable, ForcedBoundary, applied, not_applied,
  AppliedBoundary, WorkContinuation, pending_correlated_tool_result, active_non_tool,
}
use long_horizon_context.Contract.Receipt.{Decision}
use long_horizon_context.Decision.Parts.{Prelude}
use long_horizon_context.Decision.Tail.{
  Branch, preserve_tool, continue_turn, continue_guarded, preserve_guarded, post_compact_tail,
  continue_turn_tail, preserve_tool_tail,
}
use long_horizon_context.Decision.Oracle.{
  Unavailable, guarded_tail, above_trigger, below_trigger, unmeasured, by_pressure, by_usage,
  by_boundary, choose_branch,
}
use long_horizon_context.Promises.Requests.{exit_facts}

-- What a decision decides: its outcome, where it ends and how it got there, and the reason.
pub record Outline : Type 0 where
  pub outcome : OutcomeKind
  pub terminal_state : State
  pub transition_path : List State
  pub reason_code : String

abbrev pub outline : Decision → Outline
outline d = record {
  outcome = d.outcome;
  terminal_state = d.terminal_state;
  transition_path = d.transition_path;
  reason_code = d.receipt.reason_code;
}

abbrev pub outline_of : Option Decision → Option Outline
outline_of none = none
outline_of (some d) = some (outline d)

outline-if :
    (b : Bool) (x y x' y' : Decision)
    → outline x ≡ outline x'
    → outline y ≡ outline y'
    → outline (if b then x else y) ≡ outline (if b then x' else y')
outline-if true x y x' y' h k = h
outline-if false x y x' y' h k = k

pub outline_of-if :
    (b : Bool) (x y : Decision) (xs ys : Option Decision)
    → outline x ≡ outline y
    → outline_of xs ≡ outline_of ys
    → outline_of (if b then some x else xs) ≡ outline_of (if b then some y else ys)
outline_of-if true x y xs ys h k = ap some h
outline_of-if false x y xs ys h k = k

module _ (input : Input) (p q : Prelude) where
  outline-continue_turn_tail :
      (path : List State) (b : AppliedBoundary)
      → outline (continue_turn_tail input path p b) ≡ outline (continue_turn_tail input path q b)
  unfolding continue_turn_tail
  outline-continue_turn_tail path b =
      outline-if (not input.compact_material.compact_structurally_valid) _ _ _ _
        (unfold exit_facts in refl)
        (outline-if (not input.compact_material.install_succeeds) _ _ _ _
          (unfold exit_facts in refl)
          (outline-if (not input.compact_material.useful_reduction) _ _ _ _
            (unfold exit_facts in refl) (unfold exit_facts in refl)))

  outline-preserve_tool_tail :
      (path : List State)
      → outline (preserve_tool_tail input path p) ≡ outline (preserve_tool_tail input path q)
  unfolding preserve_tool_tail
  outline-preserve_tool_tail path =
      outline-if (not input.compact_material.compact_structurally_valid) _ _ _ _
        (unfold exit_facts in refl)
        (outline-if (not input.compact_material.install_succeeds) _ _ _ _
          (unfold exit_facts in refl)
          (outline-if (not input.compact_material.useful_reduction) _ _ _ _
            (unfold exit_facts in refl) (unfold exit_facts in refl)))

  outline-continue_guarded :
      (b : ForcedBoundary) (path : List State)
      → outline (continue_guarded b input path p) ≡ outline (continue_guarded b input path q)
  unfolding exit_facts
  outline-continue_guarded not_applied path = refl
  outline-continue_guarded (applied b) path =
      outline-if (is_empty b.continuation_turn_id) _ _ _ _ refl (outline-continue_turn_tail path b)

  outline-preserve_guarded :
      (c : WorkContinuation) (path : List State)
      → outline_of (preserve_guarded c input path p) ≡ outline_of (preserve_guarded c input path q)
  outline-preserve_guarded (pending_correlated_tool_result _ _) path =
      ap some (outline-preserve_tool_tail path)
  outline-preserve_guarded WorkContinuation.none path = refl
  outline-preserve_guarded active_non_tool path = refl

  outline-guarded_tail :
      (u : Option Unavailable) (path : List State) (branch : Branch)
      → outline_of (guarded_tail u input path p branch)
        ≡ outline_of (guarded_tail u input path q branch)
  unfolding guarded_tail post_compact_tail exit_facts
  outline-guarded_tail (some u) path branch = refl
  outline-guarded_tail none path preserve_tool = outline-preserve_guarded input.continuation _
  outline-guarded_tail none path continue_turn =
      ap some (outline-continue_guarded input.forced_continuation_boundary _)

  outline-above_trigger :
      (c : WorkContinuation) (path : List State)
      → outline_of (above_trigger c input path p) ≡ outline_of (above_trigger c input path q)
  unfolding exit_facts
  outline-above_trigger WorkContinuation.none path = refl
  outline-above_trigger (pending_correlated_tool_result ids valid) path =
      outline-guarded_tail _ path preserve_tool
  outline-above_trigger active_non_tool path = refl

  outline-below_trigger :
      (c : WorkContinuation) (path : List State)
      → outline (below_trigger c input path p) ≡ outline (below_trigger c input path q)
  unfolding exit_facts
  outline-below_trigger WorkContinuation.none path = refl
  outline-below_trigger (pending_correlated_tool_result _ _) path = refl
  outline-below_trigger active_non_tool path = refl

  outline-by_pressure :
      (at : Option Bool) (path : List State)
      → outline_of (by_pressure at input path p) ≡ outline_of (by_pressure at input path q)
  outline-by_pressure (some true) path = outline-above_trigger input.continuation path
  outline-by_pressure (some false) path = ap some (outline-below_trigger input.continuation path)
  outline-by_pressure none path = ap some (outline-below_trigger input.continuation path)

  outline-unmeasured :
      (c : WorkContinuation) (path : List State)
      → outline (unmeasured c input path p) ≡ outline (unmeasured c input path q)
  unfolding exit_facts
  outline-unmeasured WorkContinuation.none path = refl
  outline-unmeasured (pending_correlated_tool_result _ _) path = refl
  outline-unmeasured active_non_tool path = refl

  outline-by_usage :
      (u : ProviderUsage) (path : List State)
      → outline_of (by_usage u input path p) ≡ outline_of (by_usage u input path q)
  outline-by_usage (unavailable _) path = ap some (outline-unmeasured input.continuation path)
  outline-by_usage (available _) path = outline-by_pressure _ path

  outline-by_boundary :
      (b : ForcedBoundary) (path : List State)
      → outline_of (by_boundary b input path p) ≡ outline_of (by_boundary b input path q)
  outline-by_boundary (applied b) path = outline-guarded_tail _ path continue_turn
  outline-by_boundary not_applied path = outline-by_usage input.provider_usage path

  -- What stands in front of the branch has no part in what is decided.
  pub outline-choose_branch :
      outline_of (choose_branch input p) ≡ outline_of (choose_branch input q)
  unfolding choose_branch
  outline-choose_branch = outline-by_boundary input.forced_continuation_boundary _
