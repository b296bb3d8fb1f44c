-- ===== src/Promises/Decides.antt =====
-- The input at which `decideCompactContinuation` (decide.ts) orders a compact.
use long_horizon_context.Base.{
  ◌≡◌, refl, ap, ap₂, ◌∙◌, String, Bool, true, false, not, ◌&&◌, ◌||◌, inl, inr, Option, none, some,
  List, arith, is_empty, any, any-append, if◌then◌else◌, str_eq, Bool-cases,
}
use long_horizon_context.Contract.{contract_version}
use long_horizon_context.Contract.Codes.{State, SkipCode, WriterClaim}
use long_horizon_context.Contract.Input.{
  Input, Invariants, ForcedBoundary, applied, not_applied, AppliedBoundary, OwnershipAuthority,
  no_live_owner, live_owner,
}
use long_horizon_context.Contract.Receipt.{Decision}
use long_horizon_context.Decision.Parts.{decide as build}
use long_horizon_context.Decision.Effects.{is_compact}
use long_horizon_context.Decision.Exits.{
  decline_unsupported_version, writer_owned_elsewhere, writer_owned_elsewhere_parts, skip,
  skip_parts,
}
use long_horizon_context.Decision.Oracle.{
  Gate, boundary_gate, is_none_kind, untrusted_gate, idle_gate, check_boundary, proceed,
  owned_elsewhere, contested, writer_stage, check_writer, health_effects, after_writer, at_seam,
  decide_compact_continuation,
}
use long_horizon_context.Promises.Due.{
  orders_compact, is_measured_due, is_open, is_branch_due, orders_compact-choose_branch,
}

-- No writer but this one, or a stale row that the host says nobody owns.
abbrev pub is_free : WriterClaim → Option OwnershipAuthority → Bool
is_free WriterClaim.none authority = true
is_free WriterClaim.lhc authority = true
is_free WriterClaim.native (some no_live_owner) = true
is_free WriterClaim.native _ = false
is_free WriterClaim.conflict (some no_live_owner) = true
is_free WriterClaim.conflict _ = false

-- A settled seam of a supported version outside a transport retry.
abbrev pub is_settled : Input → Bool
is_settled input =
    str_eq input.contract_version contract_version
    && not input.seam.inside_transport_retry
    && input.seam.model_response_complete
    && input.seam.requested_tools_settled
    && input.seam.capture_flushed
    && input.seam.before_next_provider_request

-- A boundary that names its turn, of open work, calls for the compact; without one the pressure does.
abbrev pub is_seam_due : ForcedBoundary → Input → Bool
is_seam_due not_applied input = is_measured_due input
is_seam_due (applied b) input =
    if is_none_kind input.continuation || is_empty b.continuation_turn_id
    then is_measured_due input
    else is_open input.continuation

-- When a compact is due, said of the input alone.
abbrev pub is_compact_due : Input → Bool
is_compact_due input =
    is_settled input
    && is_free input.invariants.writer_claim input.invariants.writer_ownership_authority
    && is_seam_due input.forced_continuation_boundary input

abbrev is_gate_due : Input → Bool
is_gate_due input =
    is_branch_due input.forced_continuation_boundary (is_measured_due input)
      (is_open input.continuation)

health-compact : (i : Invariants) → any is_compact (health_effects i) ≡ false
unfolding health_effects
health-compact i = ground arith

proceeds-compact :
    (gate : Gate)
    → any is_compact gate.effects ≡ false
    → orders_compact (after_writer (proceed gate)) ≡ is_gate_due gate.input
unfolding after_writer
proceeds-compact gate h =
    orders_compact-choose_branch gate.input _
      (any-append is_compact gate.effects _ ∙ rw (h, health-compact gate.input.invariants) refl)

elsewhere-compact :
    (gate : Gate) (reason : String)
    → any is_compact gate.effects ≡ false
    → orders_compact (after_writer (owned_elsewhere gate reason)) ≡ false
unfolding after_writer writer_owned_elsewhere writer_owned_elsewhere_parts build
elsewhere-compact gate reason h = any-append is_compact gate.effects _ ∙ rw h refl

module _ (gate : Gate) (h : any is_compact gate.effects ≡ false) where
  contested_native-compact :
      (a : Option OwnershipAuthority)
      → orders_compact (after_writer (contested a WriterClaim.native gate))
        ≡ (is_free WriterClaim.native a && is_gate_due gate.input)
  contested_native-compact none = elsewhere-compact gate _ h
  contested_native-compact (some live_owner) = elsewhere-compact gate _ h
  contested_native-compact (some no_live_owner) =
      proceeds-compact _ (any-append is_compact gate.effects _ ∙ rw h refl)

  contested_conflict-compact :
      (a : Option OwnershipAuthority)
      → orders_compact (after_writer (contested a WriterClaim.conflict gate))
        ≡ (is_free WriterClaim.conflict a && is_gate_due gate.input)
  contested_conflict-compact none = elsewhere-compact gate _ h
  contested_conflict-compact (some live_owner) = elsewhere-compact gate _ h
  contested_conflict-compact (some no_live_owner) =
      proceeds-compact _ (any-append is_compact gate.effects _ ∙ rw h refl)

  writer-compact :
      (c : WriterClaim)
      → orders_compact (after_writer (writer_stage c gate))
        ≡ (is_free c gate.input.invariants.writer_ownership_authority && is_gate_due gate.input)
  writer-compact WriterClaim.none = proceeds-compact gate h
  writer-compact WriterClaim.lhc = proceeds-compact gate h
  writer-compact WriterClaim.native =
      contested_native-compact gate.input.invariants.writer_ownership_authority
  writer-compact WriterClaim.conflict =
      contested_conflict-compact gate.input.invariants.writer_ownership_authority

-- What the boundary stage hands on.
record IsGate (input : Input) (due : Bool) (gate : Gate) : Type 0 where
  quiet : any is_compact gate.effects ≡ false
  invariants : gate.input.invariants ≡ input.invariants
  branch : is_gate_due gate.input ≡ due

IsGate-if :
    {input : Input} {due : Bool} (b : Bool) (x y : Gate)
    → IsGate input due x
    → IsGate input due y
    → IsGate input due (if b then x else y)
IsGate-if true x y h k = h
IsGate-if false x y h k = k

kept-due :
    (input : Input) (b : AppliedBoundary)
    → input.forced_continuation_boundary ≡ applied b
    → (is_none_kind input.continuation || is_empty b.continuation_turn_id) ≡ false
    → is_gate_due input ≡ is_open input.continuation
kept-due input b q e =
    ap (λ c. is_branch_due c (is_measured_due input) (is_open input.continuation)) q
    ∙ ground (arith, e)

boundary_gate-IsGate :
    (input : Input) (b : ForcedBoundary)
    → input.forced_continuation_boundary ≡ b
    → IsGate input (is_seam_due b input) (boundary_gate b input)
boundary_gate-IsGate input not_applied q = record {
  quiet = refl;
  invariants = refl;
  branch = ap (λ c. is_branch_due c (is_measured_due input) (is_open input.continuation)) q;
}
boundary_gate-IsGate input (applied b) q =
    elim (Bool-cases (is_none_kind input.continuation || is_empty b.continuation_turn_id)) [
      | inl e ↦ rw e (record { quiet = refl; invariants = refl; branch = refl })
      | inr e ↦ rw e (
          IsGate-if (b.forced_this_seam && b.marker_already_persisted) (untrusted_gate input)
            (idle_gate input)
            (record { quiet = refl; invariants = refl; branch = kept-due input b q e })
            (record { quiet = refl; invariants = refl; branch = kept-due input b q e }))
    ]

gate-compact :
    (input : Input)
    → orders_compact (after_writer (check_writer (check_boundary input))) ≡ (
        is_free input.invariants.writer_claim input.invariants.writer_ownership_authority
        && is_seam_due input.forced_continuation_boundary input)
unfolding check_writer check_boundary
gate-compact input =
    let gate = boundary_gate input.forced_continuation_boundary input in
    let g = boundary_gate-IsGate input input.forced_continuation_boundary refl in
    writer-compact gate g.quiet gate.input.invariants.writer_claim
    ∙ ap₂ (λ i due. is_free i.writer_claim i.writer_ownership_authority && due) g.invariants
        g.branch

unsupported-compact :
    (input : Input) → any is_compact (decline_unsupported_version input).effects ≡ false
unfolding decline_unsupported_version
unsupported-compact input = refl

skip-compact :
    (input : Input) (path : List State) (code : SkipCode) (reason : String)
    → any is_compact (skip input path code reason).effects ≡ false
unfolding skip skip_parts build
skip-compact input path code reason = refl

guarded-compact :
    (b due : Bool) (d : Decision) (rest : Option Decision)
    → any is_compact d.effects ≡ false
    → orders_compact rest ≡ due
    → orders_compact (if b then some d else rest) ≡ (not b && due)
guarded-compact true due d rest h k = h
guarded-compact false due d rest h k = k

-- The oracle orders a compact exactly when one is due: the version is supported, the seam is settled
-- and outside a transport retry, no live writer holds the thread, and either a forced boundary that
-- names its turn meets open work that can be compacted, or, with no such boundary, the measured
-- pressure is at or above the trigger and a pending tool result can be compacted.
pub decide_compact_continuation-orders_compact :
    (input : Input) → orders_compact (decide_compact_continuation input) ≡ is_compact_due input
unfolding decide_compact_continuation at_seam
decide_compact_continuation-orders_compact input =
    guarded-compact (not (str_eq input.contract_version contract_version)) _ _ _
      (unsupported-compact input)
      (guarded-compact input.seam.inside_transport_retry _ _ _ (skip-compact input _ _ _) (
        guarded-compact (not (at_seam input.seam)) _ _ _ (skip-compact input _ _ _)
          (gate-compact input)))
    ∙ ground arith
