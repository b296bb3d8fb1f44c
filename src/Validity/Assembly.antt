-- ===== src/Validity/Assembly.antt =====
-- The effects that a compact assembles before its install.
use long_horizon_context.Base.{
  is_nil, suc, ◌≡◌, refl, ap, String, Bool, true, false, not, ◌||◌, some, List, [], ◌∷◌, ◌++◌,
  arith, any, any-append, All, All-append, All-if, length, if◌then◌else◌,
}
use mathlib.Core.List.{append_assoc, append-nil}
use long_horizon_context.Contract.Input.{Input, HostStatus, AppliedBoundary}
use long_horizon_context.Contract.Effects.{Effect, EffectType, CompactOrder}
use long_horizon_context.Decision.Readings.{degradation_reasons_of}
use long_horizon_context.Decision.Parts.{Prelude}
use long_horizon_context.Decision.Effects.{
  force_turn_end_effect, compact_effect, marker_effect, is_compact, insert_degrade_after_compact,
  body_quality_warnings, unvalidated_warning, runway_warning, is_false, find_index, insert_at,
  host_validation_effects,
}
use long_horizon_context.Decision.Tail.{continue_claimed, continue_assembled}
use long_horizon_context.Validation.EffectChecks.{validate_effect}
use long_horizon_context.Validity.Sequences.{skeleton}
use long_horizon_context.Validity.Shapes.{optional, degrade_part, skeleton_laws}
use long_horizon_context.Validity.Soft.{IsSoft, skeleton-soft}

runway-IsSoft : (b : Bool) → All IsSoft (runway_warning b ∷ [])
runway-IsSoft true = ((refl, refl), tt)
runway-IsSoft false = ((refl, refl), tt)

unvalidated-IsSoft : All IsSoft (unvalidated_warning ∷ [])
unvalidated-IsSoft = ((refl, refl), tt)

pub body_quality-IsSoft : (input : Input) → All IsSoft (body_quality_warnings input)
unfolding body_quality_warnings
body_quality-IsSoft input =
    let material = input.compact_material in
    let unproven = not material.can_produce_valid_provider_request in
    let unsafe = material.maximal_prune_insufficient || is_false material.projected_pressure_safe in
    let runway = runway_warning material.maximal_prune_insufficient ∷ [] in
    All-append IsSoft (if unproven then unvalidated_warning ∷ [] else [])
      (if unsafe then runway else [])
      (All-if IsSoft unproven (unvalidated_warning ∷ []) [] unvalidated-IsSoft tt)
      (All-if IsSoft unsafe runway [] (runway-IsSoft material.maximal_prune_insufficient) tt)

pub host_validation-IsSoft : (status : HostStatus) → All IsSoft (host_validation_effects status)
unfolding host_validation_effects validate_effect
host_validation-IsSoft HostStatus.not_required = tt
host_validation-IsSoft HostStatus.awaiting = ((λ q. refl, refl), tt)
host_validation-IsSoft HostStatus.ok = ((λ q. refl, refl), tt)
host_validation-IsSoft HostStatus.failed =
    ((λ q. refl, refl), ((λ q. refl, refl), ((refl, refl), tt)))

pub any-is_compact-soft :
    (effects : List Effect) → All IsSoft effects → any is_compact effects ≡ false
any-is_compact-soft [] h = refl
any-is_compact-soft (Effect.compact order ∷ effects) h = cc (h.0.1)
any-is_compact-soft (Effect.warn code reason ∷ effects) h = any-is_compact-soft effects h.1
any-is_compact-soft (_ ∷ effects) h = any-is_compact-soft effects h.1

find_index-append :
    (xs ys : List Effect) (order : CompactOrder)
    → any is_compact xs ≡ false
    → find_index is_compact (xs ++ Effect.compact order ∷ [] ++ ys) ≡ some (length xs)
unfolding find_index
find_index-append [] ys order h = refl
find_index-append (x ∷ xs) ys order h = ground (arith, find_index-append xs ys order)

insert_at-append :
    (x : Effect) (xs ys : List Effect) (order : CompactOrder)
    → insert_at (suc (length xs)) x (xs ++ Effect.compact order ∷ [] ++ ys)
      ≡ xs ++ Effect.compact order ∷ x ∷ ys
unfolding insert_at
insert_at-append x [] ys order = refl
insert_at-append x (y ∷ xs) ys order = ap (λ l. y ∷ l) (insert_at-append x xs ys order)

-- With no compact in front of a compact, the degradation of fidelity is spliced in right behind that
-- compact, and only where there are causes.
pub insert_degrade-append :
    (xs ys : List Effect) (order : CompactOrder) (causes : List String)
    → any is_compact xs ≡ false
    → insert_degrade_after_compact (xs ++ Effect.compact order ∷ [] ++ ys) causes
      ≡ xs ++ Effect.compact order ∷ (degrade_part causes ++ ys)
unfolding insert_degrade_after_compact
insert_degrade-append xs ys order [] h = append_assoc xs _ ys
insert_degrade-append xs ys order (cause ∷ causes) h =
    rw (find_index-append xs ys order h) (insert_at-append _ xs ys order)

-- What is in front of the compact of the continue-turn branch, and of the preserve branch.
abbrev continue_front : Prelude → AppliedBoundary → List Effect
continue_front prelude boundary =
    prelude.effects
    ++ (Effect.claim_writer "lhc" ∷ [])
    ++ (if boundary.forced_this_seam
        then force_turn_end_effect boundary.continuation_turn_id ∷ []
        else [])

any-is_compact-continue :
    (prelude : Prelude) (boundary : AppliedBoundary)
    → All IsSoft prelude.effects
    → any is_compact (continue_front prelude boundary) ≡ false
unfolding force_turn_end_effect
any-is_compact-continue prelude boundary h =
    rw
      (
        any-append is_compact (prelude.effects ++ Effect.claim_writer "lhc" ∷ []) _,
        any-append is_compact prelude.effects (Effect.claim_writer "lhc" ∷ []),
        any-is_compact-soft prelude.effects h,
      )
      (ground arith)

pub continue_claimed-All :
    (P : Effect → Type 0) (input : Input) (prelude : Prelude) (boundary : AppliedBoundary)
    → All P prelude.effects
    → P (Effect.claim_writer "lhc")
    → P (force_turn_end_effect boundary.continuation_turn_id)
    → P (compact_effect input)
    → All P (continue_claimed input prelude boundary)
unfolding continue_claimed
continue_claimed-All P input prelude boundary h c t o =
    All-append P _ _
      (All-append P _ _ (All-append P _ _ h (c, tt))
        (All-if P boundary.forced_this_seam _ _ (t, tt) tt))
      (o, tt)

pub degrade_part-All :
    (P : Effect → Type 0) (causes : List String)
    → ((causes : List String) → P (Effect.degrade_fidelity causes))
    → All P (degrade_part causes)
degrade_part-All P [] d = tt
degrade_part-All P (cause ∷ causes) d = (d (cause ∷ causes), tt)

-- The effects of the continue-turn branch up to the marker, in the order of the branch.
abbrev continue_listed : Input → Prelude → AppliedBoundary → List Effect
continue_listed input prelude boundary =
    continue_front prelude boundary
    ++ (compact_effect input
        ∷ (degrade_part (degradation_reasons_of input) ++ body_quality_warnings input))
    ++ marker_effect boundary.continuation_turn_id ∷ []

continue_assembled_lem :
    (input : Input) (prelude : Prelude) (boundary : AppliedBoundary)
    → All IsSoft prelude.effects
    → continue_assembled input prelude boundary ≡ continue_listed input prelude boundary
unfolding continue_assembled continue_claimed compact_effect
continue_assembled_lem input prelude boundary h =
    ap (λ l. l ++ marker_effect boundary.continuation_turn_id ∷ [])
      (insert_degrade-append (continue_front prelude boundary) (body_quality_warnings input) _
        (degradation_reasons_of input) (any-is_compact-continue prelude boundary h))

pub continue_assembled-All :
    (P : Effect → Type 0) (input : Input) (prelude : Prelude) (boundary : AppliedBoundary)
    → All IsSoft prelude.effects
    → All P prelude.effects
    → All P (body_quality_warnings input)
    → P (Effect.claim_writer "lhc")
    → P (force_turn_end_effect boundary.continuation_turn_id)
    → P (compact_effect input)
    → ((causes : List String) → P (Effect.degrade_fidelity causes))
    → P (marker_effect boundary.continuation_turn_id)
    → All P (continue_assembled input prelude boundary)
continue_assembled-All P input prelude boundary s h q c t o d m =
    rw (continue_assembled_lem input prelude boundary s) (
      All-append P _ _
        (All-append P _ _
          (All-append P _ _ (All-append P _ _ h (c, tt))
            (All-if P boundary.forced_this_seam _ _ (t, tt) tt))
          (o, All-append P _ _ (degrade_part-All P (degradation_reasons_of input) d) q))
        (m, tt))

pub skeleton-continue_claimed :
    (input : Input) (prelude : Prelude) (boundary : AppliedBoundary)
    → All IsSoft prelude.effects
    → skeleton (continue_claimed input prelude boundary)
      ≡ EffectType.claim_writer ∷ optional boundary.forced_this_seam EffectType.force_turn_end
        ++ EffectType.compact ∷ []
unfolding continue_claimed
skeleton-continue_claimed input prelude boundary h =
    simp (skeleton_laws, skeleton-soft prelude.effects h)

pub skeleton-continue_assembled :
    (input : Input) (prelude : Prelude) (boundary : AppliedBoundary)
    → All IsSoft prelude.effects
    → skeleton (continue_assembled input prelude boundary)
      ≡ EffectType.claim_writer ∷ optional boundary.forced_this_seam EffectType.force_turn_end
        ++ EffectType.compact
          ∷ optional (not (is_nil (degradation_reasons_of input))) EffectType.degrade_fidelity
        ++ EffectType.insert_continuation_marker ∷ []
skeleton-continue_assembled input prelude boundary h =
    rw (continue_assembled_lem input prelude boundary h) (
      simp (
        skeleton_laws,
        skeleton-soft prelude.effects h,
        skeleton-soft (body_quality_warnings input) (body_quality-IsSoft input),
        append-nil,
      ))
