-- ===== src/Promises/Cases.antt =====
-- A case for each way in which `decideCompactContinuation` (decide.ts) returns.
use long_horizon_context.Base.{
  refl, arith, ◌&&◌, ◌||◌, [], ◌∷◌, All, All-append, String, Bool, true, false, not, Option, none,
  some, List, is_empty, if◌then◌else◌, str_eq,
}
use long_horizon_context.Contract.{contract_version}
use long_horizon_context.Contract.Codes.{State, SkipCode, WarningCode, WriterClaim}
use long_horizon_context.Contract.Effects.{Effect}
use long_horizon_context.Promises.Writer.{IsIdle}
use long_horizon_context.Contract.Input.{
  Invariants, OwnershipAuthority, no_live_owner, live_owner, Input, ProviderUsage, available,
  unavailable, ForcedBoundary, applied, not_applied, AppliedBoundary, WorkContinuation,
  pending_correlated_tool_result, active_non_tool,
}
use long_horizon_context.Contract.Receipt.{Decision}
use long_horizon_context.Decision.Parts.{Prelude}
use long_horizon_context.Decision.Exits.{
  decline_to_ordinary, decline_unsupported_version, writer_owned_elsewhere, skip, continue_normal,
  normal_complete,
}
use long_horizon_context.Decision.Tail.{
  preserve_tool, continue_turn, continue_guarded, preserve_guarded, post_compact_tail,
  continue_turn_tail, preserve_tool_tail,
}
use long_horizon_context.Decision.Oracle.{
  Gate, boundary_gate, discarded_gate, untrusted_gate, idle_gate, is_none_kind, contested,
  reclaim_reason, writer_stage, health_effects, Unavailable, guarded_tail, above_trigger,
  below_trigger, unmeasured, by_pressure, by_usage, by_boundary, choose_branch, after_writer, Stage,
  proceed, owned_elsewhere, at_seam, check_boundary, check_writer, decide_compact_continuation,
}

-- A predicate of decisions holds for each way to return one.
pub record IsKept {ℓ} (Q : Decision → Type ℓ) : Type ℓ where
  pub unsupported : (i : Input) → Q (decline_unsupported_version i)
  pub skipped :
      (i : Input) (path : List State) (code : SkipCode) (reason : String)
      → Q (skip i path code reason)
  pub elsewhere :
      (i : Input) (path : List State) (prelude : Prelude) (quiet : All IsIdle prelude.effects)
      (reason : String)
      → Q (writer_owned_elsewhere i path prelude reason)
  pub declined :
      (i : Input) (path : List State) (prelude : Prelude) (quiet : All IsIdle prelude.effects)
      (code : WarningCode) (reason : String)
      → Q (decline_to_ordinary i path prelude code reason)
  pub continued :
      (i : Input) (path : List State) (prelude : Prelude) (quiet : All IsIdle prelude.effects)
      (code : String) (below : Bool)
      → Q (continue_normal i path prelude code below)
  pub completed :
      (i : Input) (path : List State) (prelude : Prelude) (quiet : All IsIdle prelude.effects)
      (code : String)
      → Q (normal_complete i path prelude code)
  pub turned :
      (i : Input) (path : List State) (prelude : Prelude) (quiet : All IsIdle prelude.effects)
      (b : AppliedBoundary)
      → Q (continue_turn_tail i path prelude b)
  pub preserved :
      (i : Input) (path : List State) (prelude : Prelude) (quiet : All IsIdle prelude.effects)
      → Q (preserve_tool_tail i path prelude)

-- The predicate holds of the decision, where there is one.
abbrev pub OfSome {ℓ} : (Decision → Type ℓ) → Option Decision → Type ℓ
OfSome Q none = Unit
OfSome Q (some d) = Q d

pub of_if {ℓ} :
    (Q : Decision → Type ℓ) (b : Bool) (x y : Decision) → Q x → Q y → Q (if b then x else y)
of_if Q true x y h k = h
of_if Q false x y h k = k

module _ {ℓ} (Q : Decision → Type ℓ) (k : IsKept Q) (input : Input) (path : List State)
    (prelude : Prelude) (quiet : All IsIdle prelude.effects) where
  of_continue_guarded :
      (b : ForcedBoundary) (p : List State) → Q (continue_guarded b input p prelude)
  of_continue_guarded not_applied p = k.declined input p prelude quiet _ _
  of_continue_guarded (applied b) p =
      of_if Q (is_empty b.continuation_turn_id) _ _ (k.declined input p prelude quiet _ _)
        (k.turned input p prelude quiet b)

  of_preserve_guarded :
      (c : WorkContinuation) (p : List State) → OfSome Q (preserve_guarded c input p prelude)
  of_preserve_guarded (pending_correlated_tool_result _ _) p = k.preserved input p prelude quiet
  of_preserve_guarded WorkContinuation.none p = tt
  of_preserve_guarded active_non_tool p = tt

  of_preserve :
      (u : Option Unavailable) → OfSome Q (guarded_tail u input path prelude preserve_tool)
  unfolding guarded_tail post_compact_tail
  of_preserve (some u) = k.declined input path prelude quiet u.code u.reason
  of_preserve none = of_preserve_guarded input.continuation _

  of_continue :
      (u : Option Unavailable) → OfSome Q (guarded_tail u input path prelude continue_turn)
  unfolding guarded_tail post_compact_tail
  of_continue (some u) = k.declined input path prelude quiet u.code u.reason
  of_continue none = of_continue_guarded input.forced_continuation_boundary _

  of_above_trigger : (c : WorkContinuation) → OfSome Q (above_trigger c input path prelude)
  of_above_trigger WorkContinuation.none = k.completed input path prelude quiet _
  of_above_trigger (pending_correlated_tool_result ids valid) = of_preserve _
  of_above_trigger active_non_tool = k.declined input path prelude quiet _ _

  of_below_trigger : (c : WorkContinuation) → Q (below_trigger c input path prelude)
  of_below_trigger WorkContinuation.none = k.completed input path prelude quiet _
  of_below_trigger (pending_correlated_tool_result _ _) = k.continued input path prelude quiet _ _
  of_below_trigger active_non_tool = k.continued input path prelude quiet _ _

  of_unmeasured : (c : WorkContinuation) → Q (unmeasured c input path prelude)
  of_unmeasured WorkContinuation.none = k.completed input path prelude quiet _
  of_unmeasured (pending_correlated_tool_result _ _) = k.continued input path prelude quiet _ _
  of_unmeasured active_non_tool = k.continued input path prelude quiet _ _

  of_by_pressure : (at : Option Bool) → OfSome Q (by_pressure at input path prelude)
  of_by_pressure (some true) = of_above_trigger input.continuation
  of_by_pressure (some false) = of_below_trigger input.continuation
  of_by_pressure none = of_below_trigger input.continuation

  of_by_usage : (u : ProviderUsage) → OfSome Q (by_usage u input path prelude)
  of_by_usage (unavailable _) = of_unmeasured input.continuation
  of_by_usage (available _) = of_by_pressure _

  of_by_boundary : (b : ForcedBoundary) → OfSome Q (by_boundary b input path prelude)
  of_by_boundary (applied _) = of_continue _
  of_by_boundary not_applied = of_by_usage input.provider_usage

-- The stages in front of the branch leave the writer as it is.
abbrev gate_of : Stage → Gate
gate_of (proceed gate) = gate
gate_of (owned_elsewhere gate _) = gate

gate_if :
    (b : Bool) (x y : Gate)
    → All IsIdle x.effects
    → All IsIdle y.effects
    → All IsIdle (if b then x else y).effects
gate_if true x y h k = h
gate_if false x y h k = k

boundary_gate-IsIdle :
    (b : ForcedBoundary) (input : Input) → All IsIdle (boundary_gate b input).effects
boundary_gate-IsIdle not_applied input = tt
boundary_gate-IsIdle (applied b) input =
    gate_if (is_none_kind input.continuation || is_empty b.continuation_turn_id)
      (discarded_gate b input)
      (if b.forced_this_seam && b.marker_already_persisted
        then untrusted_gate input
        else idle_gate input)
      ((refl, refl), ((refl, refl), tt))
      (gate_if (b.forced_this_seam && b.marker_already_persisted) (untrusted_gate input)
        (idle_gate input) ((refl, refl), tt) tt)

contested-IsIdle :
    (authority : Option OwnershipAuthority) (claim : WriterClaim) (gate : Gate)
    → All IsIdle gate.effects
    → All IsIdle (gate_of (contested authority claim gate)).effects
contested-IsIdle none claim gate h = h
contested-IsIdle (some live_owner) claim gate h = h
contested-IsIdle (some no_live_owner) claim gate h =
    All-append IsIdle gate.effects
      (Effect.reclaim_writer claim no_live_owner
        ∷ Effect.warn WarningCode.stale_writer_row_reclaimed (reclaim_reason claim)
        ∷ [])
      h ((refl, refl), ((refl, refl), tt))

writer_stage-IsIdle :
    (claim : WriterClaim) (gate : Gate)
    → All IsIdle gate.effects
    → All IsIdle (gate_of (writer_stage claim gate)).effects
writer_stage-IsIdle WriterClaim.none gate h = h
writer_stage-IsIdle WriterClaim.lhc gate h = h
writer_stage-IsIdle WriterClaim.native gate h =
    contested-IsIdle gate.input.invariants.writer_ownership_authority WriterClaim.native gate h
writer_stage-IsIdle WriterClaim.conflict gate h =
    contested-IsIdle gate.input.invariants.writer_ownership_authority WriterClaim.conflict gate h

health-IsIdle : (invariants : Invariants) → All IsIdle (health_effects invariants)
unfolding health_effects
health-IsIdle invariants = ground arith

of_stage {ℓ} :
    (Q : Decision → Type ℓ)
    → IsKept Q
    → (s : Stage) → All IsIdle (gate_of s).effects
    → OfSome Q (after_writer s)
unfolding after_writer choose_branch
of_stage Q k (proceed gate) h =
    of_by_boundary Q k gate.input _ _
      (All-append IsIdle gate.effects (health_effects gate.input.invariants) h
        (health-IsIdle gate.input.invariants))
      gate.input.forced_continuation_boundary
of_stage Q k (owned_elsewhere gate reason) h = k.elsewhere gate.input _ _ h reason

of_if_some {ℓ} :
    (Q : Decision → Type ℓ) (b : Bool) (d : Decision) (rest : Option Decision)
    → Q d
    → OfSome Q rest
    → OfSome Q (if b then some d else rest)
of_if_some Q true d rest h k = h
of_if_some Q false d rest h k = k

quiet_stage : (input : Input) → All IsIdle (gate_of (check_writer (check_boundary input))).effects
unfolding check_writer check_boundary
quiet_stage input =
    let gate = boundary_gate input.forced_continuation_boundary input in
    writer_stage-IsIdle gate.input.invariants.writer_claim gate
      (boundary_gate-IsIdle input.forced_continuation_boundary input)

pub of_decision {ℓ} :
    (Q : Decision → Type ℓ)
    → IsKept Q
    → (input : Input) → OfSome Q (decide_compact_continuation input)
unfolding decide_compact_continuation
of_decision Q k input =
    of_if_some Q (not (str_eq input.contract_version contract_version)) _ _ (k.unsupported input) (
      of_if_some Q input.seam.inside_transport_retry _ _ (k.skipped input _ _ _) (
        of_if_some Q (not (at_seam input.seam)) _ _ (k.skipped input _ _ _)
          (of_stage Q k (check_writer (check_boundary input)) (quiet_stage input))))
