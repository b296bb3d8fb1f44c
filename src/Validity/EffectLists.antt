-- ===== src/Validity/EffectLists.antt =====
-- When the checks on a list of effects, and on the warnings that mirror it, find nothing.
use long_horizon_context.Base.{
  ℕ, suc, ◌+◌, ◌≡◌, refl, ap, String, false, List, [], ◌∷◌, arith, is_empty, filter, length, All,
  decide_self, eq_iff,
}
use long_horizon_context.Contract.Codes.{WarningCode-discrete}
use long_horizon_context.Contract.Effects.{Effect}
use long_horizon_context.Decision.Readings.{warnings_of}
use long_horizon_context.Validation.EffectChecks.{validate_effect, validate_effects}
use long_horizon_context.Validation.ReceiptChecks.{
  is_warn, match_checks, mirror_checks, warning_checks,
}
use long_horizon_context.Validity.Vocabulary.{warning_codes-listed}

-- An effect that `validateEffect` accepts; of a warning, that its reason is not empty.
abbrev pub IsSound : Effect → Type 0
IsSound (Effect.warn code reason) = is_empty reason ≡ false
IsSound e = (path : String) → validate_effect path e ≡ []

pub validate_effect-IsSound :
    (e : Effect) → IsSound e → (path : String) → validate_effect path e ≡ []
unfolding validate_effect
validate_effect-IsSound (Effect.warn code reason) h path = rw (warning_codes-listed code, h)
validate_effect-IsSound _ h path = h path

pub validate_effects-nil :
    (i : ℕ) (effects : List Effect) → All IsSound effects → validate_effects i effects ≡ []
unfolding validate_effects
validate_effects-nil i [] h = refl
validate_effects-nil i (e ∷ effects) h =
    rw (validate_effect-IsSound e h.0 _) (validate_effects-nil (i + 1) effects h.1)

pub warning_checks-nil :
    (i : ℕ) (effects : List Effect)
    → All IsSound effects
    → warning_checks i (warnings_of effects) ≡ []
unfolding warning_checks warnings_of
warning_checks-nil i [] h = refl
warning_checks-nil i (Effect.warn code reason ∷ effects) h =
    rw (warning_codes-listed code, h.0) (warning_checks-nil (i + 1) effects h.1)
warning_checks-nil i (_ ∷ effects) h = warning_checks-nil i effects h.1

length-warnings_of :
    (effects : List Effect) → length (filter is_warn effects) ≡ length (warnings_of effects)
unfolding warnings_of
length-warnings_of [] = refl
length-warnings_of (Effect.warn code reason ∷ effects) = ap suc (length-warnings_of effects)
length-warnings_of (_ ∷ effects) = length-warnings_of effects

match_checks-nil :
    (i : ℕ) (effects : List Effect)
    → match_checks i (filter is_warn effects) (warnings_of effects) ≡ []
unfolding match_checks warnings_of
match_checks-nil i [] = refl
match_checks-nil i (Effect.warn code reason ∷ effects) =
    rw (decide_self WarningCode-discrete code, (eq_iff reason reason).1 refl)
      (match_checks-nil (i + 1) effects)
match_checks-nil i (_ ∷ effects) = match_checks-nil i effects

-- The warnings of a receipt are its warn effects, so they mirror them.
pub mirror_checks-nil : (effects : List Effect) → mirror_checks effects (warnings_of effects) ≡ []
unfolding mirror_checks
mirror_checks-nil effects = ground (arith, length-warnings_of effects, match_checks-nil 0 effects)
