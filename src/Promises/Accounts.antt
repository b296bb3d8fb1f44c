-- ===== src/Promises/Accounts.antt =====
-- What the fields of a decision of decide.ts say of one another.
use long_horizon_context.Base.{◌≡◌, refl, subst, Bool, true, false, not, some, List, arith, is_some}
use long_horizon_context.Contract.Codes.{State, OutcomeKind}
use long_horizon_context.Contract.Input.{Input, AppliedBoundary}
use long_horizon_context.Contract.Receipt.{Decision}
use long_horizon_context.Decision.Parts.{Prelude}
use long_horizon_context.Decision.Effects.{retry_classification}
use long_horizon_context.Decision.Tail.{continue_turn_tail, preserve_tool_tail}
use long_horizon_context.Decision.Oracle.{decide_compact_continuation}
use long_horizon_context.Validation.SequenceChecks.{is_continue}
use long_horizon_context.Promises.Cases.{IsKept, OfSome, of_if, of_decision}
use long_horizon_context.Promises.Requests.{exit_facts}

-- The outcomes that leave a new view installed.
abbrev pub installs : OutcomeKind → Bool
installs OutcomeKind.no_reduction = true
installs OutcomeKind.degraded_compact = true
installs OutcomeKind.compact_preserve_tool = true
installs OutcomeKind.compact_preserve_tool_escalated = true
installs OutcomeKind.compact_continue_turn = true
installs _ = false

pub record IsAccounted (d : Decision) : Type 0 where
  pub intact : d.receipt.residual.prior_serving_view_intact ≡ not (installs d.outcome)
  pub opened :
      d.receipt.continuation.opened ≡ d.receipt.residual.forced_continuation_boundary_applied
  pub named :
      is_some d.receipt.residual.continuation_turn_id
      ≡ d.receipt.residual.forced_continuation_boundary_applied
  pub ended :
      is_continue d.receipt.turn_end_reason
      ≡ d.receipt.residual.forced_continuation_boundary_applied

turned_IsAccounted :
    (i : Input) (path : List State) (prelude : Prelude) (b : AppliedBoundary)
    → IsAccounted (continue_turn_tail i path prelude b)
unfolding continue_turn_tail
turned_IsAccounted i path prelude b =
    of_if IsAccounted (not i.compact_material.compact_structurally_valid) _ _
      (unfold exit_facts retry_classification in
        record { intact = ground arith; opened = refl; named = refl; ended = refl })
      (of_if IsAccounted (not i.compact_material.install_succeeds) _ _
        (unfold exit_facts retry_classification in
          record { intact = ground arith; opened = refl; named = refl; ended = refl })
        (of_if IsAccounted (not i.compact_material.useful_reduction) _ _
          (unfold exit_facts in record { intact = refl; opened = refl; named = refl; ended = refl })
          (unfold exit_facts in
            record { intact = ground arith; opened = refl; named = refl; ended = refl })))

preserved_IsAccounted :
    (i : Input) (path : List State) (prelude : Prelude)
    → IsAccounted (preserve_tool_tail i path prelude)
unfolding preserve_tool_tail
preserved_IsAccounted i path prelude =
    of_if IsAccounted (not i.compact_material.compact_structurally_valid) _ _
      (unfold exit_facts retry_classification in
        record { intact = ground arith; opened = refl; named = refl; ended = refl })
      (of_if IsAccounted (not i.compact_material.install_succeeds) _ _
        (unfold exit_facts retry_classification in
          record { intact = ground arith; opened = refl; named = refl; ended = refl })
        (of_if IsAccounted (not i.compact_material.useful_reduction) _ _
          (unfold exit_facts in record { intact = refl; opened = refl; named = refl; ended = refl })
          (unfold exit_facts in
            record { intact = ground arith; opened = refl; named = refl; ended = refl })))

kept : IsKept IsAccounted
kept = record {
  unsupported =
      λ i. unfold exit_facts in record { intact = refl; opened = refl; named = refl; ended = refl };
  skipped = λ i path code reason.
      unfold exit_facts in
      record {
        intact = ground arith;
        opened = ground arith;
        named = ground arith;
        ended = ground arith;
      };
  elsewhere = λ i path prelude quiet reason.
      unfold exit_facts in
      record {
        intact = ground arith;
        opened = ground arith;
        named = ground arith;
        ended = ground arith;
      };
  declined = λ i path prelude quiet code reason.
      unfold exit_facts in
      record {
        intact = ground arith;
        opened = ground arith;
        named = ground arith;
        ended = ground arith;
      };
  continued = λ i path prelude quiet code below.
      unfold exit_facts in record { intact = refl; opened = refl; named = refl; ended = refl };
  completed = λ i path prelude quiet code.
      unfold exit_facts in record { intact = refl; opened = refl; named = refl; ended = refl };
  turned = λ i path prelude quiet b. turned_IsAccounted i path prelude b;
  preserved = λ i path prelude quiet. preserved_IsAccounted i path prelude;
}

-- In every decision of the oracle the prior serving view is intact unless the outcome is one of an
-- installed compact, and the same seams open a continuation turn, name it, end the turn with the
-- reason of the contract, and leave the forced boundary applied.
pub decide_compact_continuation-IsAccounted :
    (input : Input) (d : Decision) → decide_compact_continuation input ≡ some d → IsAccounted d
decide_compact_continuation-IsAccounted input d h =
    subst (OfSome IsAccounted) h (of_decision IsAccounted kept input)
