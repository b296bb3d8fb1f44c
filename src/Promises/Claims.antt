-- ===== src/Promises/Claims.antt =====
-- The claim of the writer over the effects that decide.ts builds.
use long_horizon_context.Base.{
  ℕ, ◌≡◌, refl, ◌∙◌, Bool, true, false, not, ◌||◌, Option, none, some, List, [], ◌∷◌, ◌++◌, String,
  All, All-append, All-if, if◌then◌else◌, leb, Bool-cases, inl, inr,
}
use long_horizon_context.Contract.Codes.{WarningCode}
use long_horizon_context.Contract.Input.{Input, HostStatus, AppliedBoundary}
use long_horizon_context.Contract.Effects.{Effect}
use long_horizon_context.Contract.Receipt.{Retry}
use long_horizon_context.Decision.Parts.{Prelude}
use long_horizon_context.Decision.Readings.{degradation_reasons_of}
use long_horizon_context.Decision.Effects.{
  record_receipt, decline_effects, is_lhc, force_turn_end_effect, compact_effect, marker_effect,
  attempt_failure_warnings, insert_degrade_after_compact, body_quality_warnings, is_false,
  runway_warning, advance, boundary_advance_effects, host_validation_effects,
}
use long_horizon_context.Decision.Tail.{
  closing, pairs_if, continue_claimed, continue_assembled, continue_install, preserve_claimed,
  preserve_assembled,
}
use long_horizon_context.Promises.Writer.{
  writer_run, IsIdle, run_idle, idle_run, run_then, run_both, run_if, run-insert,
}

run-insert_degrade :
    (held : Bool) (xs : List Effect) (reasons : List String)
    → writer_run held (insert_degrade_after_compact xs reasons) ≡ writer_run held xs
unfolding insert_degrade_after_compact
run-insert_degrade held xs [] = refl
run-insert_degrade held xs (r ∷ reasons) = run-insert held _ _ xs (refl, refl)

warnings-IsIdle :
    (code : WarningCode) (reason : String) (retry : Retry)
    → All IsIdle (attempt_failure_warnings code reason retry)
unfolding attempt_failure_warnings
warnings-IsIdle code reason retry =
    ((refl, refl), All-if IsIdle (not retry.retry_authorized) _ _ ((refl, refl), tt) tt)

runway-IsIdle : (b : Bool) → IsIdle (runway_warning b)
runway-IsIdle false = (refl, refl)
runway-IsIdle true = (refl, refl)

quality-IsIdle : (input : Input) → All IsIdle (body_quality_warnings input)
unfolding body_quality_warnings
quality-IsIdle input =
    let material = input.compact_material in
    All-append IsIdle _ _
      (All-if IsIdle (not material.can_produce_valid_provider_request) _ _ ((refl, refl), tt) tt)
      (All-if IsIdle
        (material.maximal_prune_insufficient || is_false material.projected_pressure_safe) _ _
        (runway-IsIdle material.maximal_prune_insufficient, tt) tt)

advance-IsIdle : (before after point : Option ℕ) → All IsIdle (advance before after point)
advance-IsIdle none after point = tt
advance-IsIdle (some before) none point = tt
advance-IsIdle (some before) (some after) point = elim (Bool-cases (leb after before)) [
  | inl e ↦ rw e tt
  | inr e ↦ rw e ((refl, refl), tt)
]

pub host-IsIdle : (status : HostStatus) → All IsIdle (host_validation_effects status)
unfolding host_validation_effects
host-IsIdle HostStatus.not_required = tt
host-IsIdle HostStatus.awaiting = ((refl, refl), tt)
host-IsIdle HostStatus.ok = ((refl, refl), tt)
host-IsIdle HostStatus.failed = ((refl, refl), ((refl, refl), ((refl, refl), tt)))

pairs_if-IsIdle : (ids : List String) → All IsIdle (pairs_if ids)
pairs_if-IsIdle [] = tt
pairs_if-IsIdle (id ∷ ids) = ((refl, refl), tt)

pub install-IsIdle :
    (input : Input) (ids : List String) (status : HostStatus)
    → All IsIdle (continue_install input ids status)
unfolding continue_install boundary_advance_effects
install-IsIdle input ids status =
    let m = input.compact_material in
    let last : List Effect = Effect.install_serving_view ∷ host_validation_effects status in
    let steps =
      advance m.visibility_boundary_before m.visibility_boundary_after m.compact_point_at_install in
    All-append IsIdle (pairs_if ids) (steps ++ last) (pairs_if-IsIdle ids) (
      All-append IsIdle steps last
        (advance-IsIdle m.visibility_boundary_before m.visibility_boundary_after
          m.compact_point_at_install)
        ((refl, refl), host-IsIdle status))

-- Effects that hold the writer, then idle ones, then the release.
pub closed :
    (xs ys : List Effect)
    → writer_run false xs ≡ some true
    → All IsIdle ys
    → writer_run false ((xs ++ ys) ++ closing) ≡ some false
closed xs ys h k =
    run_then false true (xs ++ ys) closing (run_then false true xs ys h ∙ idle_run true ys k)

pub failed :
    (xs : List Effect) (code : WarningCode) (reason : String) (retry : Retry)
    → writer_run false xs ≡ some true
    → writer_run false (xs ++ (attempt_failure_warnings code reason retry ++ closing)) ≡ some false
failed xs code reason retry h =
    run_then false true xs _ h
    ∙ run_idle true (attempt_failure_warnings code reason retry) closing
        (warnings-IsIdle code reason retry)

pub decline-run :
    (input : Input) (prelude : Prelude) (code : WarningCode) (reason : String)
    → All IsIdle prelude.effects
    → writer_run false (decline_effects input prelude code reason) ≡ some false
unfolding decline_effects
decline-run input prelude code reason h = elim (Bool-cases (is_lhc input.invariants.writer_claim)) [
  | inl e ↦
      let warned : List Effect = prelude.effects ++ (Effect.warn code reason ∷ []) in
      let claimed : List Effect = warned ++ (Effect.claim_writer "lhc" ∷ []) in
      let recorded : List Effect = claimed ++ (record_receipt ∷ []) in
      rw e (
        run_both false true false recorded (Effect.release_writer ∷ [])
          (run_both false true true claimed (record_receipt ∷ [])
            (run_both false false true warned (Effect.claim_writer "lhc" ∷ [])
              (run_both false false false prelude.effects (Effect.warn code reason ∷ [])
                (idle_run false prelude.effects h) refl)
              refl)
            refl)
          refl)
  | inr e ↦
      let warned : List Effect = prelude.effects ++ (Effect.warn code reason ∷ []) in
      let recorded : List Effect = (warned ++ []) ++ (record_receipt ∷ []) in
      rw e (
        run_both false false false recorded []
          (run_both false false false (warned ++ []) (record_receipt ∷ [])
            (run_both false false false warned []
              (run_both false false false prelude.effects (Effect.warn code reason ∷ [])
                (idle_run false prelude.effects h) refl)
              refl)
            refl)
          refl)
]

module _ (input : Input) (prelude : Prelude) (quiet : All IsIdle prelude.effects) where
  pub claimed-run :
      (boundary : AppliedBoundary)
      → writer_run false (continue_claimed input prelude boundary) ≡ some true
  unfolding continue_claimed force_turn_end_effect compact_effect
  claimed-run boundary =
      let claimed : List Effect = prelude.effects ++ (Effect.claim_writer "lhc" ∷ []) in
      let forced : List Effect =
        if boundary.forced_this_seam
        then force_turn_end_effect boundary.continuation_turn_id ∷ []
        else [] in
      run_both false true true (claimed ++ forced) (compact_effect input ∷ [])
        (run_both false true true claimed forced
          (run_both false false true prelude.effects (Effect.claim_writer "lhc" ∷ [])
            (idle_run false prelude.effects quiet) refl)
          (run_if true true boundary.forced_this_seam
            (force_turn_end_effect boundary.continuation_turn_id ∷ []) [] refl refl))
        refl

  pub assembled-run :
      (boundary : AppliedBoundary)
      → writer_run false (continue_assembled input prelude boundary) ≡ some true
  unfolding continue_assembled marker_effect
  assembled-run boundary =
      let front = continue_claimed input prelude boundary ++ body_quality_warnings input in
      run_then false true (insert_degrade_after_compact front (degradation_reasons_of input))
        (marker_effect boundary.continuation_turn_id ∷ [])
        (run-insert_degrade false front (degradation_reasons_of input)
          ∙ run_then false true (continue_claimed input prelude boundary)
              (body_quality_warnings input) (claimed-run boundary)
          ∙ idle_run true (body_quality_warnings input) (quality-IsIdle input))

  pub preserve_claimed-run : writer_run false (preserve_claimed input prelude) ≡ some true
  unfolding preserve_claimed compact_effect
  preserve_claimed-run =
      let claimed : List Effect = prelude.effects ++ (Effect.claim_writer "lhc" ∷ []) in
      run_both false true true claimed (compact_effect input ∷ [])
        (run_both false false true prelude.effects (Effect.claim_writer "lhc" ∷ [])
          (idle_run false prelude.effects quiet) refl)
        refl

  pub preserve_assembled-run : writer_run false (preserve_assembled input prelude) ≡ some true
  unfolding preserve_assembled
  preserve_assembled-run =
      run-insert_degrade false (preserve_claimed input prelude ++ body_quality_warnings input)
        (degradation_reasons_of input)
      ∙ run_then false true (preserve_claimed input prelude) (body_quality_warnings input)
          preserve_claimed-run
      ∙ idle_run true (body_quality_warnings input) (quality-IsIdle input)
