-- ===== src/Governor.antt =====
-- The data of the governor (packages/cc-lhc/src/governor/types.ts).
pub mod Pressure
pub mod Decide
pub mod Allocation
pub mod Observe
use long_horizon_context.Base.{ℕ, String, Bool, Option, List}
use long_horizon_context.Base.Int.{ℤ}

-- A value that may come from outside: a whole number, or anything else, which a reader of numbers
-- refuses.
pub data Raw : Type 0 where
  whole : ℤ → Raw
  no_whole_number : Raw

pub record PostMeasurementEstimate : Type 0 where
  pub tokens : ℕ
  pub source : String

-- An estimate before it is normalized; null or undefined is `none`.
pub record RawEstimate : Type 0 where
  pub tokens : Raw
  pub source : Option String

pub record ContextPolicy : Type 0 where
  pub lower_bound_tokens : ℕ
  pub upper_bound_tokens : ℕ
  pub profile : String
  pub prune_enabled : Bool
  pub prune_threshold_tokens : Option ℕ
  pub prune_target_tokens : Option ℕ
  pub min_runway_tokens : ℕ

pub data PolicyFieldSource : Type 0 where
  builtin user project session : PolicyFieldSource

pub data PolicyFieldKey : Type 0 where
  lower_bound_key upper_bound_key profile_key prune_enabled_key : PolicyFieldKey
  prune_threshold_key prune_target_key min_runway_key : PolicyFieldKey

pub record PolicyFieldSources : Type 0 where
  pub lower_bound_source : PolicyFieldSource
  pub upper_bound_source : PolicyFieldSource
  pub profile_source : PolicyFieldSource
  pub prune_enabled_source : PolicyFieldSource
  pub prune_threshold_source : PolicyFieldSource
  pub prune_target_source : PolicyFieldSource
  pub min_runway_source : PolicyFieldSource

pub record ConfigFallback : Type 0 where
  pub origin : String
  pub field : Option PolicyFieldKey
  pub detail : String

pub record ResolvedContextPolicy : Type 0 where
  pub policy : ContextPolicy
  pub sources : PolicyFieldSources
  pub fallbacks : List ConfigFallback

pub record ProviderContextTokens : Type 0 where
  pub input_tokens : ℕ
  pub cache_creation_input_tokens : ℕ
  pub cache_read_input_tokens : ℕ
  pub total : ℕ

pub data GovernorDecisionKind : Type 0 where
  would_compact below_threshold turn_open operation_in_flight : GovernorDecisionKind

pub data ProviderBaseFreshness : Type 0 where
  current_sampling last_known none_read : ProviderBaseFreshness

-- The two fields with one possible value, the domains, are left out.
pub record GovernorPressureReceipt : Type 0 where
  pub provider_base_tokens : Option ℕ
  pub provider_base_freshness : ProviderBaseFreshness
  pub estimate_tokens : ℕ
  pub estimate_source : String
  pub next_request_pressure_tokens : ℕ
  pub upper_trigger_tokens : ℕ
  pub at_or_above_trigger : Bool

pub record GovernorInput : Type 0 where
  pub policy : ContextPolicy
  pub turn_open : Bool
  pub provider_context : Option ProviderContextTokens
  pub provider_context_freshness : ProviderBaseFreshness
  pub post_measurement_estimate : RawEstimate
  pub operation_in_flight : Bool
  pub context_limit_rejected : Bool

pub record GovernorDecision : Type 0 where
  pub kind : GovernorDecisionKind
  pub reason : String
  pub provider_context_total : Option ℕ
  pub pressure : GovernorPressureReceipt
  pub upper_bound_tokens : ℕ
  pub lower_bound_tokens : ℕ
  pub would_mutate : Bool
