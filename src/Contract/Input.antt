-- ===== src/Contract/Input.antt =====
-- `CompactContinuationInput` and its parts (contract.ts).
use long_horizon_context.Base.{ℕ, String, Bool, Option, List}
use long_horizon_context.Base.Int.{ℤ}
use long_horizon_context.Contract.Codes.{WriterClaim, HostCapability}

-- The three accounting domains of token counts.
pub data Domain : Type 0 where
  provider_reported_input : Domain
  lhc_rendered_history : Domain
  source_labelled_estimate : Domain

unfoldable pub Domain-discrete : Discrete Domain
Domain-discrete = hlevel

-- A field that may be absent, null or given.
pub data Field (A : Type 0) : Type 0 where
  absent : Field A
  null : Field A
  given : A → Field A

-- A number as `Math.trunc` reads it: its whole part, if it is finite.
pub data Number : Type 0 where
  not_finite : Number
  finite : ℤ → Number

pub record Seam : Type 0 where
  pub model_response_complete : Bool
  pub requested_tools_settled : Bool
  pub capture_flushed : Bool
  pub before_next_provider_request : Bool
  pub inside_transport_retry : Bool
  pub input_epoch_at_decision : ℕ
  pub input_epoch_at_apply : ℕ

pub record Usage : Type 0 where
  pub input_tokens : ℕ
  pub cache_creation_tokens : ℕ
  pub cache_read_tokens : ℕ
  pub total : ℕ

pub data UsageGap : Type 0 where
  missing invalid : UsageGap

pub data ProviderUsage : Type 0 where
  available : Usage → ProviderUsage
  unavailable : UsageGap → ProviderUsage

pub record Estimate : Type 0 where
  pub tokens : ℕ
  pub source : String

pub data WorkContinuation : Type 0 where
  none : WorkContinuation
  pending_correlated_tool_result : List String → Bool → WorkContinuation
  active_non_tool : WorkContinuation

pub record AppliedBoundary : Type 0 where
  pub continuation_turn_id : String
  pub forced_this_seam : Bool
  pub marker_already_persisted : Bool

pub data ForcedBoundary : Type 0 where
  not_applied : ForcedBoundary
  applied : AppliedBoundary → ForcedBoundary

pub data OwnershipAuthority : Type 0 where
  no_live_owner live_owner : OwnershipAuthority

unfoldable pub OwnershipAuthority-discrete : Discrete OwnershipAuthority
OwnershipAuthority-discrete = hlevel

pub record Invariants : Type 0 where
  pub capture_complete : Bool
  pub provider_identity_valid : Bool
  pub single_open_turn : Bool
  pub writer_claim : WriterClaim
  pub writer_ownership_authority : Option OwnershipAuthority

pub data HostStatus : Type 0 where
  not_required awaiting ok failed : HostStatus

unfoldable pub HostStatus-discrete : Discrete HostStatus
HostStatus-discrete = hlevel

pub record Material : Type 0 where
  pub derivations_missing_or_failed : Bool
  pub lower_target_met : Bool
  pub compact_structurally_valid : Bool
  pub install_succeeds : Bool
  pub useful_reduction : Bool
  pub can_produce_valid_provider_request : Bool
  pub projected_pressure_tokens : Option ℕ
  pub rendered_savings_tokens : Option ℕ
  pub rendered_savings_source : Option String
  pub safe_runway_threshold_tokens : Field ℕ
  pub safe_runway_threshold_source : Field String
  pub projected_pressure_safe : Option Bool
  pub protected_escalation_applied : Bool
  pub visibility_boundary_before : Option ℕ
  pub visibility_boundary_after : Option ℕ
  pub compact_point_at_install : Option ℕ
  pub maximal_prune_insufficient : Bool
  pub compact_attempt_index : Option Number
  pub host_validation_status : Option HostStatus

pub record Policy : Type 0 where
  pub upper_trigger_tokens : ℕ
  pub lower_target_tokens : ℕ
  pub host_capability : HostCapability
  pub safe_runway_threshold_tokens : Option ℕ
  pub safe_runway_threshold_source : Option String
  pub compact_retry_budget : Option Number

pub record Input : Type 0 where
  pub contract_version : String
  pub seam : Seam
  pub provider_usage : ProviderUsage
  pub post_measurement_estimate : Estimate
  pub policy : Policy
  pub continuation : WorkContinuation
  pub invariants : Invariants
  pub forced_continuation_boundary : ForcedBoundary
  pub compact_material : Material
