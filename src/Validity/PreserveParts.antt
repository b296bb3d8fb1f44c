-- ===== src/Validity/PreserveParts.antt =====
-- The effects of the preserve-tool branch of `postCompactTail` (decide.ts), one after the other.
use long_horizon_context.Base.{
  is_nil, ◌≡◌, refl, ap, String, true, false, not, List, [], ◌∷◌, ◌++◌, arith, any, any-append, All,
  All-append,
}
use mathlib.Core.List.{append-nil}
use long_horizon_context.Contract.Input.{Input, HostStatus}
use long_horizon_context.Contract.Effects.{Effect, EffectType}
use long_horizon_context.Decision.Readings.{degradation_reasons_of}
use long_horizon_context.Decision.Parts.{Prelude}
use long_horizon_context.Decision.Effects.{
  compact_effect, body_quality_warnings, is_compact, host_validation_effects,
}
use long_horizon_context.Decision.Tail.{preserve_claimed, preserve_assembled}
use long_horizon_context.Validity.Sequences.{skeleton}
use long_horizon_context.Validity.Soft.{IsSoft, skeleton-soft, skeleton-append}
use long_horizon_context.Validity.Shapes.{shape, optional, degrade_part, skeleton_laws}
use long_horizon_context.Validity.Assembly.{
  body_quality-IsSoft, host_validation-IsSoft, insert_degrade-append, any-is_compact-soft,
  degrade_part-All,
}

abbrev preserve_front : Prelude → List Effect
preserve_front prelude = prelude.effects ++ (Effect.claim_writer "lhc" ∷ [])

-- The effects of the preserve branch up to its install, in the order of the branch.
abbrev preserve_listed : Input → Prelude → List Effect
preserve_listed input prelude =
    preserve_front prelude
    ++ (compact_effect input
        ∷ (degrade_part (degradation_reasons_of input) ++ body_quality_warnings input))

any-is_compact-preserve :
    (prelude : Prelude)
    → All IsSoft prelude.effects
    → any is_compact (preserve_front prelude) ≡ false
any-is_compact-preserve prelude h =
    rw
      (
        any-append is_compact prelude.effects (Effect.claim_writer "lhc" ∷ []),
        any-is_compact-soft prelude.effects h,
      )
      refl

preserve_assembled_lem :
    (input : Input) (prelude : Prelude)
    → All IsSoft prelude.effects
    → preserve_assembled input prelude ≡ preserve_listed input prelude
unfolding preserve_assembled preserve_claimed compact_effect
preserve_assembled_lem input prelude h =
    insert_degrade-append (preserve_front prelude) (body_quality_warnings input) _
      (degradation_reasons_of input) (any-is_compact-preserve prelude h)

pub preserve_assembled-All :
    (P : Effect → Type 0) (input : Input) (prelude : Prelude)
    → All IsSoft prelude.effects
    → All P prelude.effects
    → All P (body_quality_warnings input)
    → P (Effect.claim_writer "lhc")
    → P (compact_effect input)
    → ((causes : List String) → P (Effect.degrade_fidelity causes))
    → All P (preserve_assembled input prelude)
preserve_assembled-All P input prelude s h q c o d = rw (preserve_assembled_lem input prelude s) (
    All-append P (preserve_front prelude) _
      (All-append P prelude.effects (Effect.claim_writer "lhc" ∷ []) h (c, tt))
      (
        o,
        All-append P (degrade_part (degradation_reasons_of input)) _
            (degrade_part-All P (degradation_reasons_of input) d) q,
      ))

pub preserve_claimed-All :
    (P : Effect → Type 0) (input : Input) (prelude : Prelude)
    → All P prelude.effects
    → P (Effect.claim_writer "lhc")
    → P (compact_effect input)
    → All P (preserve_claimed input prelude)
unfolding preserve_claimed
preserve_claimed-All P input prelude h c o =
    All-append P (prelude.effects ++ Effect.claim_writer "lhc" ∷ []) (compact_effect input ∷ [])
      (All-append P prelude.effects (Effect.claim_writer "lhc" ∷ []) h (c, tt)) (o, tt)

pub preserve_claimed-shape :
    (input : Input) (prelude : Prelude)
    → All IsSoft prelude.effects
    → skeleton (preserve_claimed input prelude) ++ EffectType.release_writer ∷ []
      ≡ shape false false false false
unfolding preserve_claimed
preserve_claimed-shape input prelude h = simp (skeleton_laws, skeleton-soft prelude.effects h)

skeleton-preserve_assembled :
    (input : Input) (prelude : Prelude)
    → All IsSoft prelude.effects
    → skeleton (preserve_assembled input prelude)
      ≡ EffectType.claim_writer
        ∷ (EffectType.compact
            ∷ optional (not (is_nil (degradation_reasons_of input))) EffectType.degrade_fidelity)
skeleton-preserve_assembled input prelude h = rw (preserve_assembled_lem input prelude h) (
    simp (
      skeleton_laws,
      skeleton-soft prelude.effects h,
      skeleton-soft (body_quality_warnings input) (body_quality-IsSoft input),
      append-nil,
    ))

abbrev pub preserve_install : List String → HostStatus → List Effect
preserve_install ids status =
    Effect.preserve_tool_pairs_verbatim ids "open_turn_tail"
    ∷ (Effect.install_serving_view ∷ host_validation_effects status)

pub preserve_pairs-shape :
    (input : Input) (prelude : Prelude) (ids : List String)
    → All IsSoft prelude.effects
    → skeleton (
          preserve_assembled input prelude
          ++ Effect.preserve_tool_pairs_verbatim ids "open_turn_tail" ∷ [])
        ++ EffectType.release_writer ∷ []
      ≡ shape false (not (is_nil (degradation_reasons_of input))) false false
preserve_pairs-shape input prelude ids h =
    rw (skeleton-append, skeleton-preserve_assembled input prelude h)
      (unfold skeleton in ground arith)

skeleton-preserve_install :
    (ids : List String) (status : HostStatus)
    → skeleton (preserve_install ids status) ≡ EffectType.install_serving_view ∷ []
unfolding skeleton
skeleton-preserve_install ids status =
    ap (λ l. EffectType.install_serving_view ∷ l)
      (skeleton-soft (host_validation_effects status) (host_validation-IsSoft status))

pub preserve_effects-shape :
    (input : Input) (prelude : Prelude) (ids : List String) (status : HostStatus)
    → All IsSoft prelude.effects
    → skeleton (preserve_assembled input prelude ++ preserve_install ids status)
        ++ EffectType.release_writer ∷ []
      ≡ shape false (not (is_nil (degradation_reasons_of input))) false true
preserve_effects-shape input prelude ids status h =
    rw
      (
        skeleton-append,
        skeleton-preserve_assembled input prelude h,
        skeleton-preserve_install ids status,
      )
      (ground arith)
