-- ===== src/Validity/Exits.antt =====
-- The exits of decide.ts that run no compact, against the checks.
use long_horizon_context.Base.{
  ◌≡◌, refl, String, true, false, List, [], ◌∷◌, ◌++◌, arith, is_empty, All, All-append, All-if,
  if◌then◌else◌,
}
use long_horizon_context.Contract.Codes.{State, OutcomeKind, SkipCode, WarningCode}
use long_horizon_context.Contract.Texts.{skip_text, warning_text}
use long_horizon_context.Contract.Input.{Input}
use long_horizon_context.Contract.Effects.{Effect, EffectType}
use long_horizon_context.Decision.Parts.{Prelude, decide as build}
use long_horizon_context.Decision.Effects.{decline_effects, is_lhc}
use long_horizon_context.Decision.Exits.{skip_parts, decline_to_ordinary_parts}
use long_horizon_context.Validation.EffectChecks.{validate_effect}
use long_horizon_context.Validation.ResidualChecks.{validate_residual}
use long_horizon_context.Validation.ReceiptChecks.{standing_checks}
use long_horizon_context.Contract.Codes.{SkipCode-discrete}
use long_horizon_context.Validity.Vocabulary.{skip_codes-listed}
use long_horizon_context.Validity.EffectLists.{IsSound}
use long_horizon_context.Validity.Sequences.{skeleton}
use long_horizon_context.Validity.Soft.{
  IsSoft, AtTurn, IsSound-soft, AtTurn-soft, skeleton-soft, skeleton-append, turn_id_checks-nil,
}
use long_horizon_context.Validity.Facts.{residual_facts, sequence_facts}
use long_horizon_context.Validity.Decisions.{Passes}
use long_horizon_context.Validity.Fits.{Fits, no_retry-passes}
use long_horizon_context.Validity.Routes.{is_last-append, IsPlain, plain_route}

pub skip-Passes :
    (input : Input) (path : List State) (code : SkipCode) (reason : String)
    → Fits input
    → IsPlain (path ++ State.terminal_skip ∷ [])
    → Passes input (skip_parts input path code reason)
unfolding skip_parts build
skip-Passes input path code reason f p = record {
  reason = nonempty code;
  ended = ground arith;
  sound = (
    λ q. unfold validate_effect in rw (skip_codes-listed code),
    (λ q. unfold validate_effect in refl, tt),
  );
  residual = unfold validate_residual residual_facts in ground (arith, f.before, f.after);
  retry = no_retry-passes input OutcomeKind.skip_seam f (λ e. cc);
  standing = unfold standing_checks residual_facts SkipCode-discrete in ground arith;
  turn_ids = turn_id_checks-nil "" (skip_parts input path code reason).effects (tt, (tt, tt));
  sequence = record {
    force = unfold sequence_facts in ground arith;
    boundary = unfold sequence_facts in ground arith;
    order = unfold sequence_facts in ground arith;
    install = unfold sequence_facts in ground arith;
    continuation = unfold sequence_facts in ground arith;
  };
  route = plain_route _ (is_last-append path State.terminal_skip) p;
}
  where
    nonempty : (c : SkipCode) → is_empty (skip_text c) ≡ false
    nonempty SkipCode.transport_retry = refl
    nonempty SkipCode.not_at_settled_seam = refl

skeleton-decline :
    (input : Input) (prelude : Prelude) (code : WarningCode) (reason : String)
    → All IsSoft prelude.effects
    → skeleton (decline_effects input prelude code reason) ≡ (
        if is_lhc input.invariants.writer_claim
        then EffectType.claim_writer ∷ EffectType.release_writer ∷ []
        else [])
unfolding decline_effects
skeleton-decline input prelude code reason h =
    simp (skeleton-append, skeleton-soft prelude.effects h) (unfold skeleton in ground arith)

decline-All :
    (P : Effect → Type 0) (input : Input) (prelude : Prelude) (code : WarningCode) (reason : String)
    → All P prelude.effects
    → P (Effect.warn code reason)
    → P (Effect.claim_writer "lhc")
    → P (Effect.record_receipt true false)
    → P Effect.release_writer
    → All P (decline_effects input prelude code reason)
unfolding decline_effects
decline-All P input prelude code reason h w c r l =
    let held = is_lhc input.invariants.writer_claim in
    All-append P _ _
      (All-append P _ _
        (All-append P _ _ (All-append P _ _ h (w, tt)) (All-if P held _ _ (c, tt) tt)) (r, tt))
      (All-if P held _ _ (l, tt) tt)

pub decline-Passes :
    (input : Input) (path : List State) (prelude : Prelude) (code : WarningCode) (reason : String)
    → Fits input
    → IsPlain (path ++ State.terminal_decline_ordinary ∷ [])
    → All IsSoft prelude.effects
    → is_empty reason ≡ false
    → Passes input (decline_to_ordinary_parts input path prelude code reason)
unfolding decline_to_ordinary_parts build
decline-Passes input path prelude code reason f p h n = record {
  reason = nonempty code;
  ended = ground arith;
  sound =
      decline-All IsSound input prelude code reason (IsSound-soft prelude.effects h) n
        (λ q. unfold validate_effect in refl) (λ q. unfold validate_effect in refl)
        (λ q. unfold validate_effect in refl);
  residual = unfold validate_residual residual_facts in ground (arith, f.before, f.after);
  retry = no_retry-passes input OutcomeKind.decline_to_ordinary_compact f (λ e. cc);
  standing = unfold standing_checks residual_facts in ground arith;
  turn_ids = turn_id_checks-nil "" (decline_effects input prelude code reason) (
      decline-All (AtTurn "") input prelude code reason (AtTurn-soft "" prelude.effects h) tt tt tt
        tt);
  sequence = rw (skeleton-decline input prelude code reason h) (record {
    force = unfold sequence_facts in ground arith;
    boundary = unfold sequence_facts in ground arith;
    order = unfold sequence_facts in ground arith;
    install = unfold sequence_facts in ground arith;
    continuation = unfold sequence_facts in ground arith;
  });
  route = plain_route _ (is_last-append path State.terminal_decline_ordinary) p;
}
  where
    nonempty : (c : WarningCode) → is_empty (warning_text c) ≡ false
    nonempty WarningCode.capture_incomplete = refl
    nonempty _ = refl
