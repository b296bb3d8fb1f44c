-- ===== src/Promises/Fresh.antt =====
-- The seam behind a pending boundary that `decideCompactContinuation` (decide.ts) discards.
use long_horizon_context.Base.{
  ◌≡◌, refl, ap, ◌∙◌, Bool, true, false, not, ◌||◌, Option, none, some, List, is_empty, str_eq,
}
use long_horizon_context.Contract.{contract_version}
use long_horizon_context.Contract.Codes.{WriterClaim}
use long_horizon_context.Contract.Input.{
  Input, applied, not_applied, AppliedBoundary, OwnershipAuthority, no_live_owner, live_owner,
}
use long_horizon_context.Contract.Effects.{Effect}
use long_horizon_context.Decision.Oracle.{
  Gate, is_none_kind, discarded_gate, boundary_gate, check_boundary, contested, writer_stage,
  check_writer, after_writer, at_seam, decide_compact_continuation,
}
use long_horizon_context.Promises.Requests.{exit_facts}
use long_horizon_context.Promises.Discards.{outline_of, outline_of-if, outline-choose_branch}

module _ (i : Input) (d e : Bool) where
  abbrev gate : Bool → List Effect → Gate
  gate discarded effects = record { effects = effects; boundary_discarded = discarded; input = i }

  outline-contested :
      (a : Option OwnershipAuthority) (c : WriterClaim) (xs ys : List Effect)
      → outline_of (after_writer (contested a c (gate d xs)))
        ≡ outline_of (after_writer (contested a c (gate e ys)))
  unfolding after_writer exit_facts
  outline-contested none c xs ys = refl
  outline-contested (some live_owner) c xs ys = refl
  outline-contested (some no_live_owner) c xs ys = outline-choose_branch _ _ _

  outline-writer_stage :
      (c : WriterClaim) (xs ys : List Effect)
      → outline_of (after_writer (writer_stage c (gate d xs)))
        ≡ outline_of (after_writer (writer_stage c (gate e ys)))
  unfolding after_writer
  outline-writer_stage WriterClaim.none xs ys = outline-choose_branch i _ _
  outline-writer_stage WriterClaim.lhc xs ys = outline-choose_branch i _ _
  outline-writer_stage WriterClaim.native xs ys =
      outline-contested i.invariants.writer_ownership_authority WriterClaim.native xs ys
  outline-writer_stage WriterClaim.conflict xs ys =
      outline-contested i.invariants.writer_ownership_authority WriterClaim.conflict xs ys

-- The same seam without its boundary.
abbrev pub without_boundary : Input → Input
without_boundary input = record input { forced_continuation_boundary = not_applied }

discarded-gate :
    (input : Input) (b : AppliedBoundary)
    → (is_none_kind input.continuation || is_empty b.continuation_turn_id) ≡ true
    → boundary_gate (applied b) input ≡ discarded_gate b input
discarded-gate input b h = rw h refl

discarded-stage :
    (input : Input) (b : AppliedBoundary)
    → input.forced_continuation_boundary ≡ applied b
    → (is_none_kind input.continuation || is_empty b.continuation_turn_id) ≡ true
    → outline_of (after_writer (check_writer (check_boundary input)))
      ≡ outline_of (after_writer (check_writer (check_boundary (without_boundary input))))
unfolding check_writer check_boundary
discarded-stage input b q h =
    ap (λ c. outline_of (after_writer (check_writer (boundary_gate c input)))) q
    ∙ ap (λ g. outline_of (after_writer (check_writer g))) (discarded-gate input b h)
    ∙ outline-writer_stage (without_boundary input) true false input.invariants.writer_claim _ _

-- A seam whose forced boundary is discarded, since no work is open or the boundary names no turn,
-- decides as the same seam without it: the outcome, the terminal state, the path and the reason agree.
pub outline_of-discarded :
    (input : Input) (b : AppliedBoundary)
    → input.forced_continuation_boundary ≡ applied b
    → (is_none_kind input.continuation || is_empty b.continuation_turn_id) ≡ true
    → outline_of (decide_compact_continuation input)
      ≡ outline_of (decide_compact_continuation (without_boundary input))
unfolding decide_compact_continuation exit_facts
outline_of-discarded input b q h =
    outline_of-if (not (str_eq input.contract_version contract_version)) _ _ _ _ refl (
      outline_of-if input.seam.inside_transport_retry _ _ _ _ refl
        (outline_of-if (not (at_seam input.seam)) _ _ _ _ refl (discarded-stage input b q h)))
