-- ===== src/Governor/Allocation.antt =====
-- packages/cc-lhc/src/governor/band-allocation.ts: the presets of a session, and the view profile
-- that each stands for. A TypeError is `none`.
pub mod Presets
use long_horizon_context.Base.{
  ℕ, ◌+◌, ◌*◌, ◌/◌, String, Bool, true, false, not, Option, none, some, List, [], ◌∷◌, map, filter,
  find, is_some, if◌then◌else◌, str_eq,
}
use long_horizon_context.Governor.{
  ContextPolicy, ResolvedContextPolicy, PolicyFieldSources, PolicyFieldSource, session,
  ConfigFallback, PolicyFieldKey, profile_key,
}

pub data InternalCoreProfile : Type 0 where
  continuation cc_lhc_balanced cc_lhc_historical : InternalCoreProfile

pub record BandAllocation : Type 0 where
  pub id : String
  pub label : String
  pub description : String
  pub low : ℕ
  pub medium : ℕ
  pub high : ℕ
  pub full : ℕ
  pub core_profile : InternalCoreProfile

-- `HOST_PROFILE_CONSTRUCTION_LOWER_BOUND`
abbrev pub host_profile_construction_lower_bound : ℕ
host_profile_construction_lower_bound = 120000

abbrev default_allocation : BandAllocation
default_allocation = record {
  id = "default";
  label = "Default";
  description = "favors recent history";
  low = 20;
  medium = 20;
  high = 30;
  full = 30;
  core_profile = continuation;
}

abbrev balanced_allocation : BandAllocation
balanced_allocation = record {
  id = "balanced";
  label = "Balanced";
  description = "equal fidelity distribution";
  low = 25;
  medium = 25;
  high = 25;
  full = 25;
  core_profile = cc_lhc_balanced;
}

abbrev historical_allocation : BandAllocation
historical_allocation = record {
  id = "historical";
  label = "Historical";
  description = "broader low-fidelity history";
  low = 30;
  medium = 20;
  high = 30;
  full = 20;
  core_profile = cc_lhc_historical;
}

-- `BAND_ALLOCATIONS`
abbrev pub band_allocations : List BandAllocation
band_allocations = default_allocation ∷ balanced_allocation ∷ historical_allocation ∷ []

-- `PRODUCT_PRESET_IDS`
abbrev pub product_preset_ids : List String
product_preset_ids = map (λ a. a.id) band_allocations

-- `allocationById`, by `BY_ID`, the map of the allocations by id
unfoldable pub allocation_by_id : String → Option BandAllocation
allocation_by_id id = find (λ a. str_eq a.id id) band_allocations

unfoldable pub is_band_allocation_id : String → Bool
unfolding allocation_by_id
is_band_allocation_id value = is_some (allocation_by_id value)

-- `mutationCoreProfile`
unfoldable pub mutation_core_profile : String → Option InternalCoreProfile
unfolding allocation_by_id is_band_allocation_id
mutation_core_profile profile =
    if is_band_allocation_id profile
    then elim (allocation_by_id profile) [ none ↦ none | some a ↦ some a.core_profile ]
    else none

-- `segmentThresholdTokens`, in two-hundredths of a token
unfoldable pub segment_threshold_tokens : ContextPolicy → Option ℕ
unfolding allocation_by_id
segment_threshold_tokens policy = elim (allocation_by_id policy.profile) [
  | none ↦ none
  | some a ↦ some (policy.lower_bound_tokens * a.full)
]

pub record CompactConstruction : Type 0 where
  pub profile : InternalCoreProfile
  pub lower_bound : ℕ

unfoldable pub compact_construction : ContextPolicy → Option CompactConstruction
unfolding mutation_core_profile
compact_construction policy = elim (mutation_core_profile policy.profile) [
  | none ↦ none
  | some profile ↦ some (record { profile = profile; lower_bound = policy.lower_bound_tokens })
]

pub record HostPercentages : Type 0 where
  pub brief : ℕ
  pub detailed : ℕ
  pub smooth : ℕ
  pub full : ℕ

pub record ViewProfileOverride : Type 0 where
  pub name : InternalCoreProfile
  pub lower_bound : ℕ
  pub percentages : HostPercentages

-- `hostProfile`
abbrev pub host_profile : BandAllocation → ViewProfileOverride
host_profile a = record {
  name = a.core_profile;
  lower_bound = host_profile_construction_lower_bound;
  percentages = record { brief = a.low; detailed = a.medium; smooth = a.high; full = a.full };
}

-- `HOST_VIEW_PROFILES`
unfoldable pub host_view_profiles : List ViewProfileOverride
host_view_profiles = map host_profile (filter (λ a. not (str_eq a.id "default")) band_allocations)

abbrev pub is_profile_fallback : ConfigFallback → Bool
is_profile_fallback fallback = elim fallback.field [ some profile_key ↦ true | _ ↦ false ]

-- `applySessionAllocation`
unfoldable pub apply_session_allocation : ResolvedContextPolicy → String → ResolvedContextPolicy
apply_session_allocation resolved id = record {
  policy = record (resolved.policy) { profile = id };
  sources = record (resolved.sources) { profile_source = session };
  fallbacks = filter (λ f. not (is_profile_fallback f)) resolved.fallbacks;
}
