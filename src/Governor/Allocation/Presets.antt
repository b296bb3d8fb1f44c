-- ===== src/Governor/Allocation/Presets.antt =====
-- The presets, by id.
use long_horizon_context.Base.{
  ◌+◌, ◌*◌, ◌≡◌, refl, sym, ◌∙◌, true, All, Bool-cases, Option-cases, String, false, not, Option,
  none, some, List, [], ◌∷◌, filter, str_eq, arith, inl, inr, eq_iff,
}
use long_horizon_context.Governor.{session, ContextPolicy, ResolvedContextPolicy, ConfigFallback}
use long_horizon_context.Governor.Allocation.{
  BandAllocation, band_allocations, segment_threshold_tokens, allocation_by_id,
  is_band_allocation_id, mutation_core_profile, compact_construction, CompactConstruction,
  apply_session_allocation, is_profile_fallback,
}

-- The allocations of a name, of all that there are.
abbrev pub named : String → List BandAllocation
named id = filter (λ a. str_eq a.id id) band_allocations

-- The allocation is the only one of that name, and shares out a hundred percent.
pub record IsAllocation (id : String) (a : BandAllocation) : Type 0 where
  pub sole : named id ≡ a ∷ []
  pub whole_share : a.low + a.medium + a.high + a.full ≡ 100

-- What the presets make of a name.
abbrev pub IsFound : String → Option BandAllocation → Type 0
IsFound id none = named id ≡ []
IsFound id (some a) = IsAllocation id a

texts_differ : (s t id : String) → str_eq s t ≡ false → str_eq s id ≡ true → str_eq t id ≡ false
texts_differ s t id h e = elim (Bool-cases (str_eq t id)) [
  | inl f ↦ cc (h, (eq_iff s t).1 ((eq_iff s id).0 e ∙ sym ((eq_iff t id).0 f)))
  | inr f ↦ f
]

allocation_by_id-IsFound : (id : String) → IsFound id (allocation_by_id id)
unfolding allocation_by_id
allocation_by_id-IsFound id = ground (
  arith,
  texts_differ "default" "balanced" id refl,
  texts_differ "default" "historical" id refl,
  texts_differ "balanced" "historical" id refl,
)

-- What a session that chose a preset compacts with.
pub record IsConstructed (policy : ContextPolicy) (c : CompactConstruction) : Type 0 where
  pub allocation : BandAllocation
  pub chosen : IsAllocation policy.profile allocation
  pub profile : c.profile ≡ allocation.core_profile
  pub lower_bound : c.lower_bound ≡ policy.lower_bound_tokens

abbrev pub IsConstruction : ContextPolicy → Option CompactConstruction → Type 0
IsConstruction policy none = named policy.profile ≡ []
IsConstruction policy (some c) = IsConstructed policy c

-- A policy whose name one of the allocations has compacts with the profile of the only allocation of
-- that name, whose shares make up a hundred percent, and with the policy's lower bound; where none
-- has the name, it is an error.
pub compact_construction-IsConstruction :
    (policy : ContextPolicy) → IsConstruction policy (compact_construction policy)
unfolding compact_construction mutation_core_profile is_band_allocation_id
compact_construction-IsConstruction policy =
    let found = allocation_by_id-IsFound policy.profile in
    elim (Option-cases (allocation_by_id policy.profile)) [
      | inl e ↦
          rw (compact_construction, mutation_core_profile, is_band_allocation_id, e) (rw e at found)
      | inr (a, e) ↦
          rw (compact_construction, mutation_core_profile, is_band_allocation_id, e)
            (record { allocation = a; chosen = rw e at found; profile = refl; lower_bound = refl })
    ]

-- What remains of the fallbacks of the configuration: all but those of the profile, in their order.
pub data Cleared : List ConfigFallback → List ConfigFallback → Type 0 where
  nothing : Cleared [] []
  dropped :
      (f : ConfigFallback) {fallbacks rest : List ConfigFallback}
      → is_profile_fallback f ≡ true
      → Cleared fallbacks rest
      → Cleared (f ∷ fallbacks) rest
  kept :
      (f : ConfigFallback) {fallbacks rest : List ConfigFallback}
      → is_profile_fallback f ≡ false
      → Cleared fallbacks rest
      → Cleared (f ∷ fallbacks) (f ∷ rest)

-- What the choice of an allocation makes of the policy of a session.
pub record IsChosen (before : ResolvedContextPolicy) (a : BandAllocation)
    (after : ResolvedContextPolicy) : Type 0 where
  pub construction :
      compact_construction after.policy
      ≡ some (record { profile = a.core_profile; lower_bound = before.policy.lower_bound_tokens })
  pub threshold :
      segment_threshold_tokens after.policy ≡ some (before.policy.lower_bound_tokens * a.full)
  pub source : after.sources.profile_source ≡ session
  pub cleared : Cleared before.fallbacks after.fallbacks

Cleared-filter :
    (fallbacks : List ConfigFallback)
    → Cleared fallbacks (filter (λ f. not (is_profile_fallback f)) fallbacks)
Cleared-filter [] = nothing
Cleared-filter (f ∷ fallbacks) = elim (Bool-cases (is_profile_fallback f)) [
  | inl e ↦ rw e (dropped f e (Cleared-filter fallbacks))
  | inr e ↦ rw e (kept f e (Cleared-filter fallbacks))
]

-- For every allocation, a session that chooses it by its id compacts with its profile and the lower
-- bound that the policy had, and has the threshold of its share in full; the source of the profile
-- is then the session, and of the fallbacks all but those of the profile remain, in their order.
pub apply_session_allocation-IsChosen :
    (resolved : ResolvedContextPolicy)
    → All (λ a. IsChosen resolved a (apply_session_allocation resolved a.id)) band_allocations
unfolding apply_session_allocation compact_construction mutation_core_profile is_band_allocation_id
    segment_threshold_tokens allocation_by_id
apply_session_allocation-IsChosen resolved =
    let cleared = Cleared-filter resolved.fallbacks in
    (
      record { construction = refl; threshold = refl; source = refl; cleared = cleared },
      (
        record { construction = refl; threshold = refl; source = refl; cleared = cleared },
        (record { construction = refl; threshold = refl; source = refl; cleared = cleared }, tt),
      ),
    )
