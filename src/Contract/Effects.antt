-- ===== src/Contract/Effects.antt =====
-- `CompactContinuationEffect` (contract.ts). A field of a literal type is kept, since the receipt
-- validator checks it; `type` is the constructor.
use long_horizon_context.Base.{ℕ, String, Bool, Option, List}
use long_horizon_context.Contract.Codes.{WriterClaim, SkipCode, WarningCode, RefuseCode}
use long_horizon_context.Contract.Input.{Domain, OwnershipAuthority}

-- `CompactContinuationMarkerSemantics`
pub record Semantics : Type 0 where
  pub cause : String
  pub action : String
  pub new_user_request : Bool
  pub wait_for_user : Bool

pub record TurnEnd : Type 0 where
  pub reason : String
  pub outcome : String
  pub opens_continuation_turn : Bool
  pub continuation_turn_count : ℕ
  pub continuation_turn_id : String

pub record CompactOrder : Type 0 where
  pub lower_target_domain : Domain
  pub lower_target_tokens : ℕ
  pub allow_degraded_derivations : Bool

pub record Marker : Type 0 where
  pub kind : String
  pub continuation_turn_id : String
  pub idempotency_key : String
  pub semantics : Semantics
  pub model_visible : Bool
  pub lhc_inspect_visible : Bool
  pub user_chat_visible : Bool
  pub host_may_inject_transiently : Bool

pub record Advance : Type 0 where
  pub previous_boundary : ℕ
  pub new_boundary : ℕ
  pub compact_point : ℕ

pub data HostResult : Type 0 where
  ok failed : HostResult

pub data Effect : Type 0 where
  claim_writer : String → Effect
  release_writer : Effect
  force_turn_end : TurnEnd → Effect
  compact : CompactOrder → Effect
  preserve_tool_pairs_verbatim : List String → String → Effect
  advance_visibility_boundary : Advance → Effect
  await_host_validation : String → Effect
  record_host_validation : HostResult → Option String → Effect
  insert_continuation_marker : Marker → Effect
  install_serving_view : Effect
  record_receipt : Bool → Bool → Effect
  degrade_fidelity : List String → Effect
  skip_seam : SkipCode → String → Effect
  warn : WarningCode → String → Effect
  omit_signed_reasoning : String → Effect
  reclaim_writer : WriterClaim → OwnershipAuthority → Effect
  discard_pending_boundary : Option String → String → Effect
  refuse : RefuseCode → String → Effect

-- `CompactContinuationEffectType`
pub data EffectType : Type 0 where
  claim_writer release_writer force_turn_end compact preserve_tool_pairs_verbatim : EffectType
  advance_visibility_boundary await_host_validation record_host_validation : EffectType
  insert_continuation_marker install_serving_view record_receipt degrade_fidelity : EffectType
  skip_seam warn omit_signed_reasoning reclaim_writer discard_pending_boundary refuse : EffectType

unfoldable pub EffectType-discrete : Discrete EffectType
EffectType-discrete = hlevel

-- `effect.type`
abbrev pub type_of : Effect → EffectType
type_of (Effect.claim_writer _) = EffectType.claim_writer
type_of Effect.release_writer = EffectType.release_writer
type_of (Effect.force_turn_end _) = EffectType.force_turn_end
type_of (Effect.compact _) = EffectType.compact
type_of (Effect.preserve_tool_pairs_verbatim _ _) = EffectType.preserve_tool_pairs_verbatim
type_of (Effect.advance_visibility_boundary _) = EffectType.advance_visibility_boundary
type_of (Effect.await_host_validation _) = EffectType.await_host_validation
type_of (Effect.record_host_validation _ _) = EffectType.record_host_validation
type_of (Effect.insert_continuation_marker _) = EffectType.insert_continuation_marker
type_of Effect.install_serving_view = EffectType.install_serving_view
type_of (Effect.record_receipt _ _) = EffectType.record_receipt
type_of (Effect.degrade_fidelity _) = EffectType.degrade_fidelity
type_of (Effect.skip_seam _ _) = EffectType.skip_seam
type_of (Effect.warn _ _) = EffectType.warn
type_of (Effect.omit_signed_reasoning _) = EffectType.omit_signed_reasoning
type_of (Effect.reclaim_writer _ _) = EffectType.reclaim_writer
type_of (Effect.discard_pending_boundary _ _) = EffectType.discard_pending_boundary
type_of (Effect.refuse _ _) = EffectType.refuse
