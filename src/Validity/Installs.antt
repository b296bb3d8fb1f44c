-- ===== src/Validity/Installs.antt =====
-- The effects with which a compact installs its view or records its failure.
use long_horizon_context.Base.{
  ℕ, ◌+◌, ◌≡◌, ◌≢◌, refl, String, true, false, not, inl, inr, Option, none, some, List, [], ◌∷◌,
  arith, is_empty, is_empty-<>, any, All, All-append, All-if, Bool-cases, str_eq, eq_iff, filter,
  leb,
}
use long_horizon_context.Contract.Codes.{WarningCode}
use long_horizon_context.Contract.Input.{
  Input, HostStatus, WorkContinuation, pending_correlated_tool_result,
}
use long_horizon_context.Decision.Readings.{protected_ids_of, protected_ids}
use long_horizon_context.Validity.Shapes.{IsQuiet, IsQuiet-soft}
use long_horizon_context.Contract.Effects.{Effect, EffectType}
use long_horizon_context.Contract.Receipt.{Retry}
use long_horizon_context.Contract.ToolIds.{
  normalize_protected_tool_call_ids, dedupe, sort, insert, lt_text,
}
use long_horizon_context.Decision.Effects.{
  force_turn_end_effect, marker_effect, attempt_failure_warnings, boundary_advance_effects,
  host_validation_effects, advance,
}
use long_horizon_context.Decision.Tail.{closing, continue_install, pairs_if}
use long_horizon_context.Validation.EffectChecks.{validate_effect, id_checks}
use long_horizon_context.Validation.Issues.{is_null_or_safe}
use long_horizon_context.Validity.EffectLists.{IsSound}
use long_horizon_context.Validity.Sequences.{skeleton}
use long_horizon_context.Validity.Soft.{
  AtTurn, IsSound-soft, AtTurn-soft, skeleton-soft, skeleton-append,
}
use long_horizon_context.Validity.Assembly.{host_validation-IsSoft}
use long_horizon_context.Validity.Fits.{Fits}

abbrev pub IsFilled : String → Type 0
IsFilled id = is_empty id ≡ false

filter-IsFilled : (ids : List String) → All IsFilled (filter (λ id. not (is_empty id)) ids)
filter-IsFilled [] = tt
filter-IsFilled (id ∷ ids) = elim (Bool-cases (is_empty id)) [
  | inl e ↦ rw e (filter-IsFilled ids)
  | inr e ↦ rw e (e, filter-IsFilled ids)
]

dedupe-All : (P : String → Type 0) (seen ids : List String) → All P ids → All P (dedupe seen ids)
unfolding dedupe
dedupe-All P seen [] h = tt
dedupe-All P seen (id ∷ ids) h =
    All-if P (any (λ t. str_eq t id) seen) (dedupe seen ids) (id ∷ dedupe (id ∷ seen) ids)
      (dedupe-All P seen ids h.1) (h.0, dedupe-All P (id ∷ seen) ids h.1)

insert-All :
    (P : String → Type 0) (id : String) (ids : List String)
    → P id
    → All P ids
    → All P (insert id ids)
unfolding insert
insert-All P id [] p h = (p, tt)
insert-All P id (x ∷ ids) p h =
    All-if P (lt_text id x) (id ∷ x ∷ ids) (x ∷ insert id ids) (p, h)
      (h.0, insert-All P id ids p h.1)

sort-All : (P : String → Type 0) (ids : List String) → All P ids → All P (sort ids)
unfolding sort
sort-All P [] h = tt
sort-All P (id ∷ ids) h = insert-All P id (sort ids) h.0 (sort-All P ids h.1)

-- Every id of a normalized set is a non-empty text.
pub normalize-IsFilled : (ids : List String) → All IsFilled (normalize_protected_tool_call_ids ids)
unfolding normalize_protected_tool_call_ids
normalize-IsFilled ids = sort-All IsFilled _ (dedupe-All IsFilled [] _ (filter-IsFilled ids))

id_checks-nil :
    (path : String) (i : ℕ) (ids : List String) → All IsFilled ids → id_checks path i ids ≡ []
unfolding id_checks
id_checks-nil path i [] h = refl
id_checks-nil path i (id ∷ ids) h = rw (h.0) (id_checks-nil path (i + 1) ids h.1)

pub pairs-IsSound :
    (ids : List String)
    → ids ≢ []
    → All IsFilled ids
    → IsSound (Effect.preserve_tool_pairs_verbatim ids "open_turn_tail")
unfolding validate_effect
pairs-IsSound [] n h = absurd (n refl)
pairs-IsSound (id ∷ ids) n h = λ path. rw (id_checks-nil path 0 (id ∷ ids) h)

pairs_if-IsSound : (ids : List String) → All IsFilled ids → All IsSound (pairs_if ids)
pairs_if-IsSound [] h = tt
pairs_if-IsSound (id ∷ ids) h = (pairs-IsSound (id ∷ ids) (λ e. cc) h, tt)

advance-IsSound :
    (before after point : Option ℕ)
    → is_null_or_safe before ≡ true
    → is_null_or_safe after ≡ true
    → is_null_or_safe point ≡ true
    → All IsSound (advance before after point)
unfolding validate_effect
advance-IsSound none after point p q r = tt
advance-IsSound (some b) none point p q r = tt
advance-IsSound (some b) (some a) point p q r = elim (Bool-cases (leb a b)) [
  | inl e ↦ rw e tt
  | inr e ↦ rw e ((λ path. ground arith), tt)
]

advance-AtTurn :
    (turn_id : String) (before after point : Option ℕ)
    → All (AtTurn turn_id) (advance before after point)
advance-AtTurn turn_id none after point = tt
advance-AtTurn turn_id (some b) none point = tt
advance-AtTurn turn_id (some b) (some a) point = elim (Bool-cases (leb a b)) [
  | inl e ↦ rw e tt
  | inr e ↦ rw e (tt, tt)
]

pub force-IsSound : (turn_id : String) → IsFilled turn_id → IsSound (force_turn_end_effect turn_id)
unfolding validate_effect force_turn_end_effect
force-IsSound turn_id h = λ path. rw h

pub marker-IsSound : (turn_id : String) → IsFilled turn_id → IsSound (marker_effect turn_id)
unfolding validate_effect marker_effect
marker-IsSound turn_id h = λ path. rw (h, (eq_iff _ _).1 refl)

pub closing-IsSound : All IsSound closing
unfolding validate_effect
closing-IsSound = (λ q. refl, (λ q. refl, tt))

pub failure-IsSound :
    (code : WarningCode) (reason : String) (retry : Retry)
    → IsFilled reason
    → All IsSound (attempt_failure_warnings code reason retry)
unfolding attempt_failure_warnings
failure-IsSound code reason retry h =
    (h, All-if IsSound (not retry.retry_authorized) _ [] (rw is_empty-<>, tt) tt)

pub install-IsSound :
    (input : Input) (ids : List String) (status : HostStatus)
    → Fits input
    → All IsFilled ids
    → All IsSound (continue_install input ids status)
unfolding continue_install boundary_advance_effects
install-IsSound input ids status f h =
    let material = input.compact_material in
    All-append IsSound (pairs_if ids) _ (pairs_if-IsSound ids h) (
      All-append IsSound
        (advance material.visibility_boundary_before material.visibility_boundary_after
          material.compact_point_at_install)
        (Effect.install_serving_view ∷ host_validation_effects status)
        (advance-IsSound material.visibility_boundary_before material.visibility_boundary_after
          material.compact_point_at_install f.before f.after f.point)
        (unfold validate_effect in (λ q. refl), IsSound-soft _ (host_validation-IsSoft status)))

pairs_if-AtTurn : (turn_id : String) (ids : List String) → All (AtTurn turn_id) (pairs_if ids)
pairs_if-AtTurn turn_id [] = tt
pairs_if-AtTurn turn_id (id ∷ ids) = (tt, tt)

pub install-AtTurn :
    (turn_id : String) (input : Input) (ids : List String) (status : HostStatus)
    → All (AtTurn turn_id) (continue_install input ids status)
unfolding continue_install boundary_advance_effects
install-AtTurn turn_id input ids status =
    let material = input.compact_material in
    All-append (AtTurn turn_id) (pairs_if ids) _ (pairs_if-AtTurn turn_id ids) (
      All-append (AtTurn turn_id)
        (advance material.visibility_boundary_before material.visibility_boundary_after
          material.compact_point_at_install)
        (Effect.install_serving_view ∷ host_validation_effects status)
        (advance-AtTurn turn_id material.visibility_boundary_before
          material.visibility_boundary_after material.compact_point_at_install)
        (tt, AtTurn-soft turn_id _ (host_validation-IsSoft status)))

skeleton-pairs_if : (ids : List String) → skeleton (pairs_if ids) ≡ []
unfolding skeleton
skeleton-pairs_if [] = refl
skeleton-pairs_if (id ∷ ids) = refl

skeleton-advance : (before after point : Option ℕ) → skeleton (advance before after point) ≡ []
unfolding skeleton
skeleton-advance none after point = refl
skeleton-advance (some b) none point = refl
skeleton-advance (some b) (some a) point = elim (Bool-cases (leb a b)) [
  | inl e ↦ rw e refl
  | inr e ↦ rw e refl
]

skeleton-install_view :
    (effects : List Effect)
    → skeleton (Effect.install_serving_view ∷ effects)
      ≡ EffectType.install_serving_view ∷ skeleton effects
unfolding skeleton
skeleton-install_view effects = refl

pub skeleton-continue_install :
    (input : Input) (ids : List String) (status : HostStatus)
    → skeleton (continue_install input ids status) ≡ EffectType.install_serving_view ∷ []
unfolding continue_install boundary_advance_effects
skeleton-continue_install input ids status = simp (
  skeleton-append,
  skeleton-pairs_if,
  skeleton-advance,
  skeleton-install_view,
  skeleton-soft (host_validation_effects status) (host_validation-IsSoft status),
)

pairs_if-IsQuiet : (ids : List String) → All IsQuiet (pairs_if ids)
pairs_if-IsQuiet [] = tt
pairs_if-IsQuiet (id ∷ ids) = (tt, tt)

advance-IsQuiet : (before after point : Option ℕ) → All IsQuiet (advance before after point)
advance-IsQuiet none after point = tt
advance-IsQuiet (some b) none point = tt
advance-IsQuiet (some b) (some a) point = elim (Bool-cases (leb a b)) [
  | inl e ↦ rw e tt
  | inr e ↦ rw e (tt, tt)
]

pub install-IsQuiet :
    (input : Input) (ids : List String) (status : HostStatus)
    → All IsQuiet (continue_install input ids status)
unfolding continue_install boundary_advance_effects
install-IsQuiet input ids status =
    let material = input.compact_material in
    All-append IsQuiet (pairs_if ids) _ (pairs_if-IsQuiet ids) (
      All-append IsQuiet
        (advance material.visibility_boundary_before material.visibility_boundary_after
          material.compact_point_at_install)
        (Effect.install_serving_view ∷ host_validation_effects status)
        (advance-IsQuiet material.visibility_boundary_before material.visibility_boundary_after
          material.compact_point_at_install)
        (tt, IsQuiet-soft _ (host_validation-IsSoft status)))

pub protected-IsFilled : (input : Input) → All IsFilled (protected_ids_of input)
unfolding protected_ids_of
protected-IsFilled input = filled input.continuation
  where
    filled : (c : WorkContinuation) → All IsFilled (protected_ids c)
    filled (pending_correlated_tool_result ids valid) = normalize-IsFilled ids
    filled WorkContinuation.none = tt
    filled WorkContinuation.active_non_tool = tt
