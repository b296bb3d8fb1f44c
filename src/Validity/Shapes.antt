-- ===== src/Validity/Shapes.antt =====
-- The claims, changes and releases of a seam at which a compact ran, in their order.
use long_horizon_context.Base.{
  is_nil, ◌≡◌, refl, Bool, true, false, List, [], ◌∷◌, ◌++◌, String, not, any, All, if◌then◌else◌,
}
use long_horizon_context.Contract.Effects.{Effect, EffectType}
use long_horizon_context.Decision.Readings.{warnings_of}
use long_horizon_context.Contract.Input.{Input}
use long_horizon_context.Decision.Effects.{force_turn_end_effect, compact_effect, marker_effect}
use long_horizon_context.Decision.Tail.{closing}
use long_horizon_context.Validation.SequenceChecks.{is_install_warning, warns_install}
use long_horizon_context.Validity.Sequences.{skeleton}
use long_horizon_context.Validity.Soft.{IsSoft, skeleton-append}

abbrev pub degrade_part : List String → List Effect
degrade_part [] = []
degrade_part (cause ∷ causes) = Effect.degrade_fidelity (cause ∷ causes) ∷ []

abbrev pub optional : Bool → EffectType → List EffectType
optional b t = if b then t ∷ [] else []

pub skeleton-force :
    (b : Bool) (turn_id : String)
    → skeleton (if b then force_turn_end_effect turn_id ∷ [] else [])
      ≡ optional b EffectType.force_turn_end
unfolding skeleton force_turn_end_effect
skeleton-force true turn_id = refl
skeleton-force false turn_id = refl

pub skeleton-degrade :
    (causes : List String)
    → skeleton (degrade_part causes) ≡ optional (not (is_nil causes)) EffectType.degrade_fidelity
unfolding skeleton
skeleton-degrade [] = refl
skeleton-degrade (cause ∷ causes) = refl

pub skeleton-compact :
    (input : Input) (effects : List Effect)
    → skeleton (compact_effect input ∷ effects) ≡ EffectType.compact ∷ skeleton effects
unfolding skeleton compact_effect
skeleton-compact input effects = refl

pub skeleton-claim : skeleton (Effect.claim_writer "lhc" ∷ []) ≡ EffectType.claim_writer ∷ []
unfolding skeleton
skeleton-claim = refl

pub skeleton-marker :
    (turn_id : String)
    → skeleton (marker_effect turn_id ∷ []) ≡ EffectType.insert_continuation_marker ∷ []
unfolding skeleton marker_effect
skeleton-marker turn_id = refl

pub skeleton-nil : skeleton [] ≡ []
unfolding skeleton
skeleton-nil = refl

pub ruleset skeleton_laws = (
  skeleton-append, skeleton-force, skeleton-degrade, skeleton-compact, skeleton-claim,
  skeleton-marker, skeleton-nil,
)

-- Whether a turn end was forced, whether fidelity degraded, whether a marker was inserted and
-- whether a view was installed.
abbrev pub shape : Bool → Bool → Bool → Bool → List EffectType
shape forced degraded marked installs =
    EffectType.claim_writer
    ∷ (optional forced EffectType.force_turn_end
        ++ (EffectType.compact
            ∷ (optional degraded EffectType.degrade_fidelity
                ++ (optional marked EffectType.insert_continuation_marker
                    ++ (optional installs EffectType.install_serving_view
                        ++ (EffectType.release_writer ∷ []))))))

pub skeleton-closing : skeleton closing ≡ EffectType.release_writer ∷ []
unfolding skeleton
skeleton-closing = refl

-- No warning that an install failed.
abbrev pub IsQuiet : Effect → Type 0
IsQuiet (Effect.warn code reason) = is_install_warning code ≡ false
IsQuiet _ = Unit

pub IsQuiet-soft : (effects : List Effect) → All IsSoft effects → All IsQuiet effects
IsQuiet-soft [] h = tt
IsQuiet-soft (Effect.warn code reason ∷ effects) h = (h.0.1, IsQuiet-soft effects h.1)
IsQuiet-soft (_ ∷ effects) h = (tt, IsQuiet-soft effects h.1)

pub warns_install-quiet :
    (effects : List Effect) → All IsQuiet effects → any warns_install (warnings_of effects) ≡ false
unfolding warnings_of
warns_install-quiet [] h = refl
warns_install-quiet (Effect.warn code reason ∷ effects) h =
    rw (h.0) (warns_install-quiet effects h.1)
warns_install-quiet (_ ∷ effects) h = warns_install-quiet effects h.1
