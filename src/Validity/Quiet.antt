-- ===== src/Validity/Quiet.antt =====
-- The exits of decide.ts that leave the writer as it is, against the checks.
use long_horizon_context.Base.{
  ◌≡◌, refl, String, Bool, true, false, List, [], ◌∷◌, ◌++◌, arith, is_empty, All, All-append,
}
use long_horizon_context.Contract.Codes.{State, OutcomeKind, WarningCode}
use long_horizon_context.Contract.Input.{Input}
use long_horizon_context.Contract.Effects.{Effect}
use long_horizon_context.Decision.Parts.{Prelude, decide as build}
use long_horizon_context.Decision.Exits.{
  writer_owned_elsewhere_parts, continue_normal_parts, normal_complete_parts,
}
use long_horizon_context.Validation.EffectChecks.{validate_effect}
use long_horizon_context.Validation.ResidualChecks.{validate_residual}
use long_horizon_context.Validation.ReceiptChecks.{standing_checks}
use long_horizon_context.Validation.SequenceChecks.{turn_id_checks}
use long_horizon_context.Validation.DecisionChecks.{route_checks}
use long_horizon_context.Validity.EffectLists.{IsSound}
use long_horizon_context.Validity.Sequences.{skeleton}
use long_horizon_context.Validity.Soft.{
  IsSoft, IsSound-soft, AtTurn-soft, skeleton-soft, turn_id_checks-nil,
}
use long_horizon_context.Validity.Facts.{residual_facts, sequence_facts}
use long_horizon_context.Validity.Decisions.{Passes}
use long_horizon_context.Validity.Fits.{Fits, no_retry-passes}
use long_horizon_context.Validity.Routes.{is_last-append, IsPlain, plain_route}

-- The effects of these exits: those of the prelude, then a few that no order check reads.
skeleton-quiet :
    (prelude : Prelude) (last : List Effect)
    → All IsSoft prelude.effects
    → All IsSoft last
    → skeleton (prelude.effects ++ last) ≡ []
skeleton-quiet prelude last h k = skeleton-soft _ (All-append IsSoft prelude.effects last h k)

quiet-IsSound :
    (prelude : Prelude) (last : List Effect)
    → All IsSoft prelude.effects
    → All IsSoft last
    → All IsSound (prelude.effects ++ last)
quiet-IsSound prelude last h k = IsSound-soft _ (All-append IsSoft prelude.effects last h k)

quiet-turn_ids :
    (prelude : Prelude) (last : List Effect)
    → All IsSoft prelude.effects
    → All IsSoft last
    → turn_id_checks (prelude.effects ++ last) ≡ []
quiet-turn_ids prelude last h k =
    turn_id_checks-nil "" _ (AtTurn-soft "" _ (All-append IsSoft prelude.effects last h k))

abbrev receipt_only : List Effect
receipt_only = Effect.record_receipt true false ∷ []

receipt_only-IsSoft : All IsSoft receipt_only
unfolding validate_effect
receipt_only-IsSoft = ((λ q. refl, refl), tt)

pub elsewhere-Passes :
    (input : Input) (path : List State) (prelude : Prelude) (reason : String)
    → Fits input
    → IsPlain (path ++ State.terminal_continue_current_body ∷ [])
    → All IsSoft prelude.effects
    → is_empty reason ≡ false
    → Passes input (writer_owned_elsewhere_parts input path prelude reason)
unfolding writer_owned_elsewhere_parts build
elsewhere-Passes input path prelude reason f p h n =
    let soft : All IsSoft (Effect.warn WarningCode.writer_owned_elsewhere reason ∷ receipt_only) =
      ((n, refl), receipt_only-IsSoft) in
    record {
      reason = refl;
      ended = ground arith;
      sound = quiet-IsSound prelude _ h soft;
      residual = unfold validate_residual residual_facts in ground (arith, f.before, f.after);
      retry = no_retry-passes input OutcomeKind.continue_current_body f (λ e. cc);
      standing = unfold standing_checks residual_facts in ground arith;
      turn_ids = quiet-turn_ids prelude _ h soft;
      sequence = rw (skeleton-quiet prelude _ h soft) (record {
        force = unfold sequence_facts in ground arith;
        boundary = unfold sequence_facts in ground arith;
        order = unfold sequence_facts in ground arith;
        install = unfold sequence_facts in ground arith;
        continuation = unfold sequence_facts in ground arith;
      });
      route = plain_route _ (is_last-append path State.terminal_continue_current_body) p;
    }

pub continue_normal-Passes :
    (input : Input) (path : List State) (prelude : Prelude) (code : String) (below : Bool)
    → Fits input
    → route_checks (build input (continue_normal_parts input path prelude code below)) ≡ []
    → All IsSoft prelude.effects
    → is_empty code ≡ false
    → Passes input (continue_normal_parts input path prelude code below)
unfolding continue_normal_parts build
continue_normal-Passes input path prelude code below f p h n = record {
  reason = n;
  ended = refl;
  sound = quiet-IsSound prelude receipt_only h receipt_only-IsSoft;
  residual = unfold validate_residual residual_facts in ground (arith, f.before, f.after);
  retry = no_retry-passes input OutcomeKind.continue_normal f (λ e. cc);
  standing = unfold standing_checks residual_facts in ground arith;
  turn_ids = quiet-turn_ids prelude receipt_only h receipt_only-IsSoft;
  sequence = rw (skeleton-quiet prelude receipt_only h receipt_only-IsSoft) (record {
    force = unfold sequence_facts in ground arith;
    boundary = unfold sequence_facts in ground arith;
    order = unfold sequence_facts in ground arith;
    install = unfold sequence_facts in ground arith;
    continuation = unfold sequence_facts in ground arith;
  });
  route = p;
}

pub normal_complete-Passes :
    (input : Input) (path : List State) (prelude : Prelude) (code : String)
    → Fits input
    → route_checks (build input (normal_complete_parts input path prelude code)) ≡ []
    → All IsSoft prelude.effects
    → is_empty code ≡ false
    → Passes input (normal_complete_parts input path prelude code)
unfolding normal_complete_parts build
normal_complete-Passes input path prelude code f p h n = record {
  reason = n;
  ended = refl;
  sound = quiet-IsSound prelude receipt_only h receipt_only-IsSoft;
  residual = unfold validate_residual residual_facts in ground (arith, f.before, f.after);
  retry = no_retry-passes input OutcomeKind.normal_complete f (λ e. cc);
  standing = unfold standing_checks residual_facts in ground arith;
  turn_ids = quiet-turn_ids prelude receipt_only h receipt_only-IsSoft;
  sequence = rw (skeleton-quiet prelude receipt_only h receipt_only-IsSoft) (record {
    force = unfold sequence_facts in ground arith;
    boundary = unfold sequence_facts in ground arith;
    order = unfold sequence_facts in ground arith;
    install = unfold sequence_facts in ground arith;
    continuation = unfold sequence_facts in ground arith;
  });
  route = p;
}
