-- ===== src/Contract/Receipt.antt =====
-- The receipt and the decision (contract.ts).
use long_horizon_context.Base.{ℕ, String, Bool, Option, List}
use long_horizon_context.Contract.Codes.{
  State, OutcomeKind, ReliefPath, SkipCode, RefuseCode, WarningCode,
}
use long_horizon_context.Contract.Input.{Domain, HostStatus}
use long_horizon_context.Contract.Effects.{Effect}

pub record Warning : Type 0 where
  pub code : WarningCode
  pub reason : String

pub record Pressure : Type 0 where
  pub provider_base_tokens : Option ℕ
  pub provider_base_domain : Domain
  pub estimate_tokens : ℕ
  pub estimate_source : String
  pub estimate_domain : Domain
  pub next_request_pressure_tokens : Option ℕ
  pub upper_trigger_tokens : ℕ
  pub at_or_above_trigger : Option Bool
  pub projected_pressure_tokens : Option ℕ
  pub rendered_savings_tokens : Option ℕ
  pub rendered_savings_source : Option String
  pub rendered_savings_domain : Option Domain
  pub safe_runway_threshold_tokens : Option ℕ
  pub safe_runway_threshold_source : Option String
  pub projected_pressure_safe : Option Bool

pub record LowerTarget : Type 0 where
  pub domain : Domain
  pub tokens : ℕ
  pub met : Option Bool
  pub is_success_gate : Bool

pub record Residual : Type 0 where
  pub writer_released : Bool
  pub prior_serving_view_intact : Bool
  pub forced_continuation_boundary_applied : Bool
  pub continuation_turn_opened : Bool
  pub continuation_turn_id : Option String
  pub marker_persisted : Bool
  pub marker_served : Bool
  pub original_agentic_turn_still_open : Bool
  pub pending_boundary_discarded : Bool
  pub next_provider_request_allowed : Bool
  pub relief_path : ReliefPath
  pub protected_tool_call_ids : List String
  pub visibility_boundary_before : Option ℕ
  pub visibility_boundary_after : Option ℕ
  pub host_validation_status : HostStatus
  pub core_install_retained_pending_host_validation : Bool

pub record Retry : Type 0 where
  pub attempt_index : ℕ
  pub budget : ℕ
  pub retry_authorized : Bool

pub data Fidelity : Type 0 where
  full degraded : Fidelity

-- The field `continuation` of a receipt.
pub record Opened : Type 0 where
  pub opened : Bool
  pub marker_served : Bool
  pub same_agentic_turn_preserved : Bool

pub record Receipt : Type 0 where
  pub contract_version : String
  pub outcome : OutcomeKind
  pub reason_code : String
  pub turn_end_reason : Option String
  pub pressure : Pressure
  pub lower_target : LowerTarget
  pub fidelity : Fidelity
  pub degradation_reasons : List String
  pub warnings : List Warning
  pub retry : Retry
  pub continuation : Opened
  pub relief_path : ReliefPath
  pub protected_tool_call_ids : List String
  pub effects : List Effect
  pub residual : Residual
  pub refused : Bool
  pub refuse_code : Option RefuseCode
  pub skipped : Bool
  pub skip_code : Option SkipCode
  pub transition_path : List State

pub record Decision : Type 0 where
  pub outcome : OutcomeKind
  pub terminal_state : State
  pub transition_path : List State
  pub effects : List Effect
  pub receipt : Receipt
