-- ===== src/Validity/Installed.antt =====
-- The exits of decide.ts whose compact was installed, against the checks.
use long_horizon_context.Base.{
  ◌≡◌, ◌≢◌, refl, ◌∙◌, sym, String, Bool, true, false, not, Option, none, some, List, [], ◌∷◌, ◌++◌,
  arith, any, All, All-append, get_last?,
}
use mathlib.Core.List.{append_assoc}
use long_horizon_context.Contract.{continue_reason}
use long_horizon_context.Contract.Codes.{State, OutcomeKind, ReliefPath}
use long_horizon_context.Contract.Input.{Input, HostStatus}
use long_horizon_context.Contract.Effects.{Effect, EffectType}
use long_horizon_context.Decision.Readings.{warnings_of}
use long_horizon_context.Decision.Parts.{decide as build, Overrides, no_overrides}
use long_horizon_context.Decision.Tail.{
  installed_parts, closing, continued, preserved, is_awaiting, same_turn, served_turn,
}
use long_horizon_context.Validation.ResidualChecks.{validate_residual}
use long_horizon_context.Validation.ReceiptChecks.{standing_checks}
use long_horizon_context.Validation.SequenceChecks.{is_continue_turn, warns_install}
use long_horizon_context.Validation.DecisionChecks.{passes, is_last}
use long_horizon_context.Validity.EffectLists.{IsSound}
use long_horizon_context.Validity.Sequences.{skeleton}
use long_horizon_context.Validity.Soft.{AtTurn, skeleton-append, turn_id_checks-nil}
use long_horizon_context.Validity.Facts.{residual_facts, sequence_facts}
use long_horizon_context.Validity.Decisions.{Passes}
use long_horizon_context.Validity.Fits.{Fits, no_retry-passes}
use long_horizon_context.Validity.Routes.{is_last-append, compact_route}
use long_horizon_context.Validity.Installs.{closing-IsSound, IsFilled}
use long_horizon_context.Validity.Shapes.{shape, skeleton-closing, IsQuiet, warns_install-quiet}
use long_horizon_context.Validity.Failures.{IsAttempt, IsAttempt-append}

-- What the end of an installed compact asks of its effects, at the turn that it is about.
pub record IsInstall (turn_id : String) (effects : List Effect) : Type 0 where
  pub sound : All IsSound effects
  pub at_turn : All (AtTurn turn_id) effects
  pub quiet : All IsQuiet effects

abbrev pub install_overrides : Option (List String) → ReliefPath → HostStatus → Overrides
install_overrides ids relief status = record no_overrides {
  relief_path = some relief;
  protected_tool_call_ids = ids;
  host_validation_status = some status;
  core_install_retained_pending_host_validation = some (is_awaiting status);
}

-- An outcome and a terminal state of an installed compact.
pub record IsEnd (outcome : OutcomeKind) (terminal : State) : Type 0 where
  pub no_retry : outcome ≢ OutcomeKind.retry_compact
  pub no_below : passes State.below_trigger (State.installing ∷ terminal ∷ []) ≡ false

closed :
    (effects : List Effect)
    → skeleton (effects ++ closing) ≡ skeleton effects ++ EffectType.release_writer ∷ []
closed effects = rw (skeleton-append, skeleton-closing) refl

installed-quiet :
    (turn_id : String) (effects : List Effect)
    → IsInstall turn_id effects
    → any warns_install (warnings_of (effects ++ closing)) ≡ false
installed-quiet turn_id effects h =
    warns_install-quiet (effects ++ closing)
      (All-append IsQuiet effects closing h.quiet (tt, (tt, tt)))

end_of_route :
    (path : List State) (terminal : State)
    → is_last (get_last? (path ++ State.installing ∷ terminal ∷ [])) terminal ≡ true
end_of_route path terminal =
    rw (sym (append_assoc path (State.installing ∷ []) (terminal ∷ [])))
      (is_last-append (path ++ State.installing ∷ []) terminal)

pub installed_continue-Passes :
    (input : Input) (outcome : OutcomeKind) (terminal : State) (path : List State) (code : String)
    (effects : List Effect) (turn_id : String) (forced degraded discarded : Bool)
    (ids : List String) (relief : ReliefPath) (status : HostStatus)
    → Fits input
    → IsEnd outcome terminal
    → IsAttempt path
    → IsFilled code
    → IsInstall turn_id effects
    → skeleton effects ++ EffectType.release_writer ∷ [] ≡ shape forced degraded true true
    → Passes input (
        installed_parts input outcome terminal path code effects
          (some continue_reason)
          served_turn
          (continued false turn_id true true
            (some discarded)
            (not (is_awaiting status))
            input
            (install_overrides (some ids) relief status)))
unfolding installed_parts build
installed_continue-Passes input outcome terminal path code effects turn_id forced degraded discarded
      ids relief status f e p n h k =
    let quiet = installed-quiet turn_id effects h in
    record {
      reason = n;
      ended = refl;
      sound = All-append IsSound effects closing h.sound closing-IsSound;
      residual = unfold validate_residual residual_facts in ground (arith, f.before, f.after);
      retry = no_retry-passes input outcome f e.no_retry;
      standing = unfold standing_checks residual_facts in ground arith;
      turn_ids =
          turn_id_checks-nil turn_id _
            (All-append (AtTurn turn_id) effects closing h.at_turn (tt, (tt, tt)));
      sequence = rw (closed effects ∙ k) (record {
        force = unfold sequence_facts in ground arith;
        boundary = unfold sequence_facts in ground arith;
        order = unfold sequence_facts in ground arith;
        install = unfold sequence_facts in ground (arith, quiet);
        continuation = unfold sequence_facts in ground arith;
      });
      route =
          let q = IsAttempt-append path (State.installing ∷ terminal ∷ []) p e.no_below in
          compact_route _ (end_of_route path terminal) q.branched q.no_below;
    }

pub installed_preserve-Passes :
    (input : Input) (outcome : OutcomeKind) (terminal : State) (path : List State) (code : String)
    (effects : List Effect) (degraded discarded : Bool) (status : HostStatus)
    → Fits input
    → IsEnd outcome terminal
    → is_continue_turn outcome ≡ false
    → IsAttempt path
    → IsFilled code
    → IsInstall "" effects
    → skeleton effects ++ EffectType.release_writer ∷ [] ≡ shape false degraded false true
    → Passes input (
        installed_parts input outcome terminal path code effects none same_turn (
          preserved false
            (some discarded)
            (not (is_awaiting status))
            input
            (install_overrides none ReliefPath.normal_preserve status)))
unfolding installed_parts build
installed_preserve-Passes input outcome terminal path code effects degraded discarded status f e o p
      n h k =
    let quiet = installed-quiet "" effects h in
    record {
      reason = n;
      ended = refl;
      sound = All-append IsSound effects closing h.sound closing-IsSound;
      residual = unfold validate_residual residual_facts in ground (arith, f.before, f.after);
      retry = no_retry-passes input outcome f e.no_retry;
      standing = unfold standing_checks residual_facts in ground arith;
      turn_ids =
          turn_id_checks-nil "" _ (All-append (AtTurn "") effects closing h.at_turn (tt, (tt, tt)));
      sequence = rw (closed effects ∙ k) (record {
        force = unfold sequence_facts in ground arith;
        boundary = unfold sequence_facts in ground arith;
        order = unfold sequence_facts in ground arith;
        install = unfold sequence_facts in ground (arith, quiet);
        continuation = unfold sequence_facts in ground (arith, o);
      });
      route =
          let q = IsAttempt-append path (State.installing ∷ terminal ∷ []) p e.no_below in
          compact_route _ (end_of_route path terminal) q.branched q.no_below;
    }
