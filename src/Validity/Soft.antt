-- ===== src/Validity/Soft.antt =====
-- Effects that no check on the order reads, and the lists that they form.
use long_horizon_context.Base.{
  ◌≡◌, refl, sym, ◌∙◌, String, Bool, false, ◌||◌, Option, none, some, List, [], ◌∷◌, ◌++◌, is_empty,
  any, any-append, find, filter-append, All, eq_iff,
}
use mathlib.Core.List.{map-append}
use long_horizon_context.Contract.Effects.{Effect, type_of}
use long_horizon_context.Decision.Readings.{warnings_of}
use long_horizon_context.Validation.SequenceChecks.{
  is_force, is_marker, turn_ids_differ, turn_id_checks, is_install_warning, warns_install,
}
use long_horizon_context.Validity.EffectLists.{IsSound}
use long_horizon_context.Validity.Sequences.{is_hard, skeleton}

-- A sound effect of a type that the order checks do not ask for, and no `install_attempt_failed`.
abbrev pub IsSoft : Effect → Type 0
IsSoft (Effect.warn code reason) = (is_empty reason ≡ false) × (is_install_warning code ≡ false)
IsSoft e = IsSound e × (is_hard (type_of e) ≡ false)

-- The turn that a forced turn end or a marker names is `turn_id`.
abbrev pub AtTurn : String → Effect → Type 0
AtTurn turn_id (Effect.force_turn_end e) = e.continuation_turn_id ≡ turn_id
AtTurn turn_id (Effect.insert_continuation_marker m) = m.continuation_turn_id ≡ turn_id
AtTurn turn_id _ = Unit

pub warns_of_install : List Effect → Bool
warns_of_install effects = any warns_install (warnings_of effects)

pub IsSound-soft : (effects : List Effect) → All IsSoft effects → All IsSound effects
IsSound-soft [] h = tt
IsSound-soft (Effect.warn code reason ∷ effects) h = (h.0.0, IsSound-soft effects h.1)
IsSound-soft (_ ∷ effects) h = (h.0.0, IsSound-soft effects h.1)

pub AtTurn-soft :
    (turn_id : String) (effects : List Effect) → All IsSoft effects → All (AtTurn turn_id) effects
AtTurn-soft turn_id [] h = tt
AtTurn-soft turn_id (Effect.force_turn_end e ∷ effects) h = cc (h.0.1)
AtTurn-soft turn_id (Effect.insert_continuation_marker m ∷ effects) h = cc (h.0.1)
AtTurn-soft turn_id (_ ∷ effects) h = (tt, AtTurn-soft turn_id effects h.1)

skeleton-cons :
    (e : Effect) (effects : List Effect)
    → is_hard (type_of e) ≡ false
    → skeleton (e ∷ effects) ≡ skeleton effects
unfolding skeleton
skeleton-cons e effects h = rw h

pub skeleton-soft : (effects : List Effect) → All IsSoft effects → skeleton effects ≡ []
unfolding skeleton
skeleton-soft [] h = refl
skeleton-soft (Effect.warn code reason ∷ effects) h = skeleton-soft effects h.1
skeleton-soft (e ∷ effects) h = skeleton-cons e effects h.0.1 ∙ skeleton-soft effects h.1

pub skeleton-append : (xs ys : List Effect) → skeleton (xs ++ ys) ≡ skeleton xs ++ skeleton ys
unfolding skeleton
skeleton-append xs ys = rw (map-append, filter-append)

warnings_of-append :
    (xs ys : List Effect) → warnings_of (xs ++ ys) ≡ warnings_of xs ++ warnings_of ys
unfolding warnings_of
warnings_of-append [] ys = refl
warnings_of-append (Effect.warn code reason ∷ xs) ys = rw (warnings_of-append xs ys)
warnings_of-append (_ ∷ xs) ys = warnings_of-append xs ys

pub warns_of_install-append :
    (xs ys : List Effect)
    → warns_of_install (xs ++ ys) ≡ (warns_of_install xs || warns_of_install ys)
unfolding warns_of_install
warns_of_install-append xs ys = rw (warnings_of-append, any-append)

pub warns_of_install-soft :
    (effects : List Effect) → All IsSoft effects → warns_of_install effects ≡ false
unfolding warns_of_install warnings_of
warns_of_install-soft [] h = refl
warns_of_install-soft (Effect.warn code reason ∷ effects) h =
    rw (h.0.1) (warns_of_install-soft effects h.1)
warns_of_install-soft (_ ∷ effects) h = warns_of_install-soft effects h.1

-- The first forced turn end, and the first marker, name the turn that all of them name.
abbrev ForceAt : String → Option Effect → Type 0
ForceAt turn_id none = Unit
ForceAt turn_id (some (Effect.force_turn_end e)) = e.continuation_turn_id ≡ turn_id
ForceAt turn_id (some _) = ⊥

abbrev MarkerAt : String → Option Effect → Type 0
MarkerAt turn_id none = Unit
MarkerAt turn_id (some (Effect.insert_continuation_marker m)) = m.continuation_turn_id ≡ turn_id
MarkerAt turn_id (some _) = ⊥

find-ForceAt :
    (turn_id : String) (effects : List Effect)
    → All (AtTurn turn_id) effects
    → ForceAt turn_id (find is_force effects)
find-ForceAt turn_id [] h = tt
find-ForceAt turn_id (Effect.force_turn_end e ∷ effects) h = h.0
find-ForceAt turn_id (_ ∷ effects) h = find-ForceAt turn_id effects h.1

find-MarkerAt :
    (turn_id : String) (effects : List Effect)
    → All (AtTurn turn_id) effects
    → MarkerAt turn_id (find is_marker effects)
find-MarkerAt turn_id [] h = tt
find-MarkerAt turn_id (Effect.insert_continuation_marker m ∷ effects) h = h.0
find-MarkerAt turn_id (_ ∷ effects) h = find-MarkerAt turn_id effects h.1

agree :
    (turn_id : String) (e m : Option Effect)
    → ForceAt turn_id e
    → MarkerAt turn_id m
    → turn_ids_differ e m ≡ false
agree turn_id (some (Effect.force_turn_end e)) (some (Effect.insert_continuation_marker m)) h k =
    rw (h ∙ sym k, (eq_iff m.continuation_turn_id m.continuation_turn_id).1 refl)
agree turn_id (some (Effect.force_turn_end e)) none h k = refl
agree turn_id (some (Effect.force_turn_end e)) (some _) h k = absurd k
agree turn_id none m h k = refl
agree turn_id (some _) m h k = absurd h

pub turn_id_checks-nil :
    (turn_id : String) (effects : List Effect)
    → All (AtTurn turn_id) effects
    → turn_id_checks effects ≡ []
unfolding turn_id_checks
turn_id_checks-nil turn_id effects h = rw (
    agree turn_id (find is_force effects) (find is_marker effects) (find-ForceAt turn_id effects h)
      (find-MarkerAt turn_id effects h))
