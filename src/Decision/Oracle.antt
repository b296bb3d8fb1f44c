-- ===== src/Decision/Oracle.antt =====
-- `decideCompactContinuation` of decide.ts, in stages: the seam, the pending boundary, the writer,
-- the health of the record, and the branch. `none` stands for a thrown exception.
use long_horizon_context.Base.{
  String, Bool, true, false, not, ◌&&◌, ◌||◌, Option, none, some, List, [], ◌∷◌, ◌++◌,
  if◌then◌else◌, str_eq, is_empty, ◌<>◌,
}
use long_horizon_context.Contract.{contract_version}
use long_horizon_context.Contract.Codes.{State, SkipCode, WarningCode, WriterClaim}
use long_horizon_context.Contract.ToolIds.{normalize_protected_tool_call_ids}
use long_horizon_context.Contract.Texts.{claim_text}
use long_horizon_context.Contract.Input.{
  Seam, Invariants, OwnershipAuthority, no_live_owner, live_owner, ProviderUsage, available,
  unavailable, ForcedBoundary, applied, not_applied, AppliedBoundary, WorkContinuation,
  pending_correlated_tool_result, active_non_tool, Input,
}
use long_horizon_context.Contract.Effects.{Effect}
use long_horizon_context.Contract.Receipt.{Decision}
use long_horizon_context.Decision.Readings.{pressure_receipt}
use long_horizon_context.Decision.Parts.{Prelude}
use long_horizon_context.Decision.Exits.{
  decline_to_ordinary, decline_unsupported_version, writer_owned_elsewhere, skip, continue_normal,
  normal_complete,
}
use long_horizon_context.Decision.Tail.{Branch, preserve_tool, continue_turn, post_compact_tail}

unfoldable pub at_seam : Seam → Bool
at_seam seam =
    seam.model_response_complete && seam.requested_tools_settled && seam.capture_flushed
    && seam.before_next_provider_request

-- `preludeEffects`, `boundaryDiscarded` and `effective`
pub record Gate : Type 0 where
  pub effects : List Effect
  pub boundary_discarded : Bool
  pub input : Input

abbrev pub is_none_kind : WorkContinuation → Bool
is_none_kind WorkContinuation.none = true
is_none_kind _ = false

abbrev kind_text : WorkContinuation → String
kind_text WorkContinuation.none = "none"
kind_text (pending_correlated_tool_result _ _) = "pending_correlated_tool_result"
kind_text active_non_tool = "active_non_tool"

unfoldable pub discard_reason : Bool → WorkContinuation → String
discard_reason true continuation =
    "forcedContinuationBoundary.applied requires active_non_tool or pending_correlated_tool_result; got "
    <> kind_text continuation
    <> " — boundary discarded, seam starts fresh"
discard_reason false continuation =
    "forcedContinuationBoundary.continuationTurnId must be a non-empty turn id when applied — boundary discarded, seam starts fresh"

-- The gate of an input with nothing to discard, with a boundary discarded, and with a marker claim
-- that is not trusted.
abbrev pub idle_gate : Input → Gate
idle_gate input = record { effects = []; boundary_discarded = false; input = input }

abbrev pub discarded_gate : AppliedBoundary → Input → Gate
discarded_gate b input =
    let reason = discard_reason (is_none_kind input.continuation) input.continuation in
    record {
      effects =
          Effect.discard_pending_boundary
            (if is_empty b.continuation_turn_id then none else some b.continuation_turn_id) reason
          ∷ Effect.warn WarningCode.pending_boundary_discarded reason
          ∷ [];
      boundary_discarded = true;
      input = record input { forced_continuation_boundary = not_applied };
    }

abbrev pub untrusted_gate : Input → Gate
untrusted_gate input = record {
  effects =
      Effect.warn WarningCode.boundary_marker_claim_untrusted
        "forcedThisSeam true cannot pair with markerAlreadyPersisted true (a fresh turn_end marker cannot already exist); marker claim not trusted"
      ∷ [];
  boundary_discarded = false;
  input = input;
}

abbrev pub boundary_gate : ForcedBoundary → Input → Gate
boundary_gate not_applied input = idle_gate input
boundary_gate (applied b) input =
    if is_none_kind input.continuation || is_empty b.continuation_turn_id
    then discarded_gate b input
    else if b.forced_this_seam && b.marker_already_persisted
    then untrusted_gate input
    else idle_gate input

unfoldable pub check_boundary : Input → Gate
unfolding discard_reason
check_boundary input = boundary_gate input.forced_continuation_boundary input

-- The writer stage goes on with a gate, or ends the seam.
pub data Stage : Type 0 where
  proceed : Gate → Stage
  owned_elsewhere : Gate → String → Stage

unfoldable pub reclaim_reason : WriterClaim → String
reclaim_reason claim =
    "stale "
    <> claim_text claim
    <> " writer row reclaimed after host ownership authority confirmed no live owner holds this LHC thread"

unfoldable pub owned_reason : Option OwnershipAuthority → WriterClaim → String
owned_reason (some live_owner) claim =
    "a live owner holds this LHC thread ("
    <> claim_text claim
    <> " writer row); continuing this attempt's current request and re-competing at the next seam"
owned_reason _ claim =
    "no host ownership authority was supplied for a "
    <> claim_text claim
    <> " writer row; treating it as a live owner and continuing this attempt's current request"

abbrev pub contested : Option OwnershipAuthority → WriterClaim → Gate → Stage
contested (some no_live_owner) claim gate = proceed (record gate {
  effects =
      gate.effects
      ++ (Effect.reclaim_writer claim no_live_owner
          ∷ Effect.warn WarningCode.stale_writer_row_reclaimed (reclaim_reason claim)
          ∷ []);
  input = record (gate.input) {
    invariants = record (gate.input.invariants) { writer_claim = WriterClaim.none };
  };
})
contested authority claim gate = owned_elsewhere gate (owned_reason authority claim)

abbrev pub writer_stage : WriterClaim → Gate → Stage
writer_stage WriterClaim.native gate =
    contested gate.input.invariants.writer_ownership_authority WriterClaim.native gate
writer_stage WriterClaim.conflict gate =
    contested gate.input.invariants.writer_ownership_authority WriterClaim.conflict gate
writer_stage _ gate = proceed gate

unfoldable pub check_writer : Gate → Stage
unfolding reclaim_reason owned_reason
check_writer gate = writer_stage gate.input.invariants.writer_claim gate

unfoldable pub identity_reason : String
identity_reason =
    "required provider/model identity cannot be proven; omitting signed reasoning and proceeding with the compact"

unfoldable pub health_effects : Invariants → List Effect
unfolding identity_reason
health_effects invariants =
    (if not invariants.capture_complete
      then Effect.warn WarningCode.capture_incomplete
          "capture of the settled model turn is incomplete; compacting on available thread data (capture feeds derivation quality, not compact capability)"
        ∷ []
      else [])
    ++ (if not invariants.provider_identity_valid
        then Effect.warn WarningCode.provider_identity_unproven identity_reason
          ∷ Effect.omit_signed_reasoning identity_reason
          ∷ []
        else [])
    ++ (if not invariants.single_open_turn
        then Effect.warn WarningCode.open_turn_invariant_unverified
            "exactly-one-open-turn invariant does not hold; turn-record health is core LHC's own job, not a compact precondition"
          ∷ []
        else [])

pub record Unavailable : Type 0 where
  pub code : WarningCode
  pub reason : String

abbrev pub empty_set : List String → Option Unavailable
empty_set [] = some (record {
  code = WarningCode.protected_tool_pairs_invalid;
  reason =
      "protectedToolCallIds must be a sorted unique non-empty set; declining into ordinary settled-seam compact on canonical state";
})
empty_set (_ ∷ _) = none

-- `protectedPathUnavailable`
unfoldable pub protected_path_unavailable : WorkContinuation → Option Unavailable
protected_path_unavailable (pending_correlated_tool_result ids false) = some (record {
  code = WarningCode.tool_correlation_unproven;
  reason =
      "pending tool-result continuation cannot prove call/result correlation; declining into ordinary settled-seam compact on canonical state";
})
protected_path_unavailable (pending_correlated_tool_result ids true) =
    empty_set (normalize_protected_tool_call_ids ids)
protected_path_unavailable WorkContinuation.none = none
protected_path_unavailable active_non_tool = none

-- Decline where the protected path is closed, else take the branch.
unfoldable pub guarded_tail :
    Option Unavailable → Input → List State → Prelude → Branch → Option Decision
guarded_tail (some u) input path prelude branch =
    some (decline_to_ordinary input path prelude u.code u.reason)
guarded_tail none input path prelude branch = post_compact_tail input path prelude branch

abbrev pub above_trigger : WorkContinuation → Input → List State → Prelude → Option Decision
above_trigger WorkContinuation.none input path prelude =
    some (normal_complete input path prelude "normal_complete_above_pressure")
above_trigger (pending_correlated_tool_result ids valid) input path prelude =
    guarded_tail (protected_path_unavailable (pending_correlated_tool_result ids valid)) input path
      prelude preserve_tool
above_trigger active_non_tool input path prelude = some (
    decline_to_ordinary input path prelude WarningCode.continuation_boundary_unavailable
      "active_non_tool above trigger requires forcedContinuationBoundary.applied with continuationTurnId (runtime forces turn_end first); declining into ordinary settled-seam compact")

abbrev pub below_trigger : WorkContinuation → Input → List State → Prelude → Decision
below_trigger WorkContinuation.none input path prelude =
    normal_complete input path prelude "below_trigger_work_complete"
below_trigger _ input path prelude = continue_normal input path prelude "below_trigger" true

abbrev pub unmeasured : WorkContinuation → Input → List State → Prelude → Decision
unmeasured WorkContinuation.none input path prelude =
    normal_complete input path prelude "no_provider_usage_work_complete"
unmeasured _ input path prelude = continue_normal input path prelude "no_provider_usage" false

-- `pressure.atOrAboveTrigger !== true`
abbrev pub by_pressure : Option Bool → Input → List State → Prelude → Option Decision
by_pressure (some true) input path prelude = above_trigger input.continuation input path prelude
by_pressure _ input path prelude = some (below_trigger input.continuation input path prelude)

abbrev pub by_usage : ProviderUsage → Input → List State → Prelude → Option Decision
by_usage (unavailable _) input path prelude =
    some (unmeasured input.continuation input path prelude)
by_usage (available _) input path prelude =
    by_pressure (pressure_receipt input).at_or_above_trigger input path prelude

abbrev pub by_boundary : ForcedBoundary → Input → List State → Prelude → Option Decision
by_boundary (applied _) input path prelude =
    guarded_tail (protected_path_unavailable input.continuation) input path prelude continue_turn
by_boundary not_applied input path prelude = by_usage input.provider_usage input path prelude

abbrev pub checking_path : List State
checking_path = State.at_seam ∷ State.checking_invariants ∷ []

abbrev pub evaluating_path : List State
evaluating_path = State.at_seam ∷ State.checking_invariants ∷ State.evaluating_pressure ∷ []

unfoldable pub choose_branch : Input → Prelude → Option Decision
choose_branch input prelude =
    by_boundary input.forced_continuation_boundary input evaluating_path prelude

unfoldable pub after_writer : Stage → Option Decision
unfolding choose_branch
after_writer (owned_elsewhere gate reason) = some (
    writer_owned_elsewhere gate.input checking_path
      (record { effects = gate.effects; boundary_discarded = gate.boundary_discarded }) reason)
after_writer (proceed gate) = choose_branch gate.input (record {
  effects = gate.effects ++ health_effects gate.input.invariants;
  boundary_discarded = gate.boundary_discarded;
})

unfoldable pub decide_compact_continuation : Input → Option Decision
decide_compact_continuation input =
    if not (str_eq input.contract_version contract_version)
    then some (decline_unsupported_version input)
    else if input.seam.inside_transport_retry
    then some (
        skip input (State.idle ∷ []) SkipCode.transport_retry
          "mutation forbidden inside transport retry")
    else if not (at_seam input.seam)
    then some (
        skip input (State.idle ∷ []) SkipCode.not_at_settled_seam
          "compact-continuation requires a settled model-turn seam before the next provider request")
    else after_writer (check_writer (check_boundary input))
