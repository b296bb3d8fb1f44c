-- ===== src/Validity/Sequences.antt =====
-- The checks on the order of the effects read only the effects that claim, change or release; the
-- others can be filtered out first.
use long_horizon_context.Base.{
  ℕ, suc, ◌≡◌, refl, sym, ap, ◌∙◌, Bool, true, false, ◌||◌, inl, inr, Option, none, some, List, [],
  ◌∷◌, map, arith, is_some, filter, decide, Bool-cases, if◌then◌else◌,
}
use long_horizon_context.Contract.Effects.{Effect, EffectType, EffectType-discrete, type_of}
use long_horizon_context.Contract.Receipt.{Receipt}
use long_horizon_context.Validation.SequenceChecks.{
  same_type, includes, index_of, gt_index, later, turn_id_checks, force_checks, boundary_checks,
  exclusion_checks, order_checks, install_checks, continuation_checks, sequence_checks,
}

-- The types that the checks ask for.
abbrev pub is_hard : EffectType → Bool
is_hard EffectType.claim_writer = true
is_hard EffectType.release_writer = true
is_hard EffectType.force_turn_end = true
is_hard EffectType.compact = true
is_hard EffectType.insert_continuation_marker = true
is_hard EffectType.install_serving_view = true
is_hard EffectType.degrade_fidelity = true
is_hard _ = false

unfoldable pub skeleton : List Effect → List EffectType
skeleton effects = filter is_hard (map type_of effects)

soft-ne-hard : (t u : EffectType) → is_hard t ≡ true → is_hard u ≡ false → same_type t u ≡ false
unfolding decide
soft-ne-hard t u h k = elim (EffectType-discrete t u) as (λ d. decide d ≡ false) [
  | yes p ↦ cc (ap is_hard p)
  | no q ↦ refl
]

pub includes-hard :
    (t : EffectType) (types : List EffectType)
    → is_hard t ≡ true
    → includes t types ≡ includes t (filter is_hard types)
unfolding includes
includes-hard t [] h = refl
includes-hard t (u ∷ types) h = elim (Bool-cases (is_hard u)) [
  | inl k ↦ rw k (ap (λ b. same_type t u || b) (includes-hard t types h))
  | inr k ↦ rw (k, soft-ne-hard t u h k) (includes-hard t types h)
]

is_some-index_of :
    (t : EffectType) (types : List EffectType) → is_some (index_of t types) ≡ includes t types
unfolding index_of includes
is_some-index_of t [] = refl
is_some-index_of t (u ∷ types) = ground (arith, is_some-index_of t types)

abbrev shift : Option ℕ → Option ℕ
shift none = none
shift (some i) = some (suc i)

gt_index-shift : (i j : Option ℕ) → gt_index (shift i) (shift j) ≡ gt_index i j
gt_index-shift none j = refl
gt_index-shift (some i) none = refl
gt_index-shift (some i) (some j) = ground arith

-- One more type in front moves both indices, or settles the comparison.
abbrev step_later : Bool → Bool → Option ℕ → Option ℕ → Bool
step_later first_t first_u i j =
    gt_index (if first_t then some 0 else shift i) (if first_u then some 0 else shift j)

step_later-cong :
    (b c : Bool) (i j i' j' : Option ℕ)
    → is_some i ≡ is_some i'
    → is_some j ≡ is_some j'
    → gt_index i j ≡ gt_index i' j'
    → step_later b c i j ≡ step_later b c i' j'
step_later-cong b c none none none none p q r = ground arith
step_later-cong b c none none none (some _) p q r = cc
step_later-cong b c none none (some _) _ p q r = cc
step_later-cong b c none (some _) none none p q r = cc
step_later-cong b c none (some _) none (some _) p q r = ground arith
step_later-cong b c none (some _) (some _) _ p q r = cc
step_later-cong b c (some _) _ none _ p q r = cc
step_later-cong b c (some _) none (some _) none p q r = ground arith
step_later-cong b c (some _) none (some _) (some _) p q r = cc
step_later-cong b c (some _) (some _) (some _) none p q r = cc
step_later-cong b c (some _) (some _) (some _) (some _) p q r = ground arith

later-cons :
    (t u v : EffectType) (types : List EffectType)
    → later t u (v ∷ types)
      ≡ step_later (same_type t v) (same_type u v) (index_of t types) (index_of u types)
unfolding index_of
later-cons t u v types = ground arith

pub later-hard :
    (t u : EffectType) (types : List EffectType)
    → is_hard t ≡ true
    → is_hard u ≡ true
    → later t u types ≡ later t u (filter is_hard types)
unfolding index_of
later-hard t u [] h k = refl
later-hard t u (v ∷ types) h k = elim (Bool-cases (is_hard v)) [
  | inl hv ↦ rw hv (
      later-cons t u v types
      ∙ step_later-cong (same_type t v) (same_type u v) _ _ _ _
          (is_some-index_of t types ∙ includes-hard t types h ∙ sym (is_some-index_of t _))
          (is_some-index_of u types ∙ includes-hard u types k ∙ sym (is_some-index_of u _))
          (later-hard t u types h k)
      ∙ sym (later-cons t u v (filter is_hard types)))
  | inr sv ↦ rw sv (
      later-cons t u v types
      ∙ rw (soft-ne-hard t v h sv, soft-ne-hard u v k sv)
          (gt_index-shift (index_of t types) (index_of u types) ∙ later-hard t u types h k))
]

-- The mutual exclusion of a preserved tool pair with a marker, or with a forced turn end, is never
-- reported, whatever the effects: the excuse holds whenever the exclusion is broken.
pub exclusion_checks-nil : (types : List EffectType) → exclusion_checks types ≡ []
unfolding exclusion_checks
exclusion_checks-nil types = ground arith

force_checks-hard :
    (types : List EffectType) (r : Receipt)
    → force_checks types r ≡ force_checks (filter is_hard types) r
unfolding force_checks
force_checks-hard types r = rw (includes-hard EffectType.force_turn_end types refl)

order_checks-hard :
    (types : List EffectType) (r : Receipt)
    → order_checks types r ≡ order_checks (filter is_hard types) r
unfolding order_checks
order_checks-hard types r = rw (
  includes-hard EffectType.force_turn_end types refl,
  includes-hard EffectType.install_serving_view types refl,
  includes-hard EffectType.claim_writer types refl,
  includes-hard EffectType.release_writer types refl,
  includes-hard EffectType.compact types refl,
  includes-hard EffectType.degrade_fidelity types refl,
  later-hard EffectType.claim_writer EffectType.release_writer types refl refl,
  later-hard EffectType.force_turn_end EffectType.compact types refl refl,
  later-hard EffectType.compact EffectType.install_serving_view types refl refl,
  later-hard EffectType.compact EffectType.degrade_fidelity types refl refl,
  later-hard EffectType.degrade_fidelity EffectType.install_serving_view types refl refl,
)

install_checks-hard :
    (types : List EffectType) (r : Receipt)
    → install_checks types r ≡ install_checks (filter is_hard types) r
unfolding install_checks
install_checks-hard types r = rw (
  includes-hard EffectType.install_serving_view types refl,
  includes-hard EffectType.insert_continuation_marker types refl,
)

continuation_checks-hard :
    (types : List EffectType) (r : Receipt)
    → continuation_checks types r ≡ continuation_checks (filter is_hard types) r
unfolding continuation_checks
continuation_checks-hard types r =
    rw (includes-hard EffectType.insert_continuation_marker types refl)

-- What is left of the checks once the effects are filtered.
pub record SkeletonPasses (types : List EffectType) (r : Receipt) : Type 0 where
  pub force : force_checks types r ≡ []
  pub boundary : boundary_checks r ≡ []
  pub order : order_checks types r ≡ []
  pub install : install_checks types r ≡ []
  pub continuation : continuation_checks types r ≡ []

pub sequence_checks-nil :
    (r : Receipt)
    → turn_id_checks r.effects ≡ []
    → SkeletonPasses (skeleton r.effects) r
    → sequence_checks r ≡ []
unfolding sequence_checks skeleton
sequence_checks-nil r h s =
    let types = map type_of r.effects in
    rw (
      force_checks-hard types r ∙ s.force,
      h,
      s.boundary,
      exclusion_checks-nil types,
      order_checks-hard types r ∙ s.order,
      install_checks-hard types r ∙ s.install,
      continuation_checks-hard types r ∙ s.continuation,
    )
