-- ===== src/Promises/Compacts.antt =====
-- The compacts that the branches of decide.ts order.
use long_horizon_context.Base.{
  ℕ, ◌≡◌, refl, ◌∙◌, String, Bool, true, not, ◌||◌, Option, List, [], ◌∷◌, ◌++◌, suc, zero, arith,
  any, any-append, if◌then◌else◌,
}
use long_horizon_context.Contract.Codes.{State, WarningCode, OutcomeKind}
use long_horizon_context.Contract.Input.{Input, AppliedBoundary}
use long_horizon_context.Contract.Effects.{Effect}
use long_horizon_context.Contract.Receipt.{Decision, Opened, Residual}
use long_horizon_context.Decision.Parts.{Prelude, decide as build}
use long_horizon_context.Decision.Effects.{
  is_compact, insert_at, insert_degrade_after_compact, body_quality_warnings, compact_effect,
  force_turn_end_effect,
}
use long_horizon_context.Decision.Tail.{
  continue_turn_tail, preserve_tool_tail, continue_claimed, continue_assembled, preserve_claimed,
  preserve_assembled, attempt_failed_after_preserve, attempt_failed_after_preserve_parts,
  attempt_failed_after_continue, attempt_failed_after_continue_parts, installed, installed_parts,
}
use long_horizon_context.Decision.Readings.{degradation_reasons_of}
use long_horizon_context.Promises.Cases.{of_if}

-- A degradation of fidelity spliced in is no compact.
insert_at-compact :
    (i : ℕ) (x : Effect) (effects : List Effect)
    → any is_compact (insert_at i x effects) ≡ (is_compact x || any is_compact effects)
unfolding insert_at
insert_at-compact zero x effects = refl
insert_at-compact (suc i) x [] = refl
insert_at-compact (suc i) x (e ∷ effects) = ground (arith, insert_at-compact i x effects)

insert_degrade-compact :
    (effects : List Effect) (causes : List String)
    → any is_compact (insert_degrade_after_compact effects causes) ≡ any is_compact effects
unfolding insert_degrade_after_compact
insert_degrade-compact effects [] = refl
insert_degrade-compact effects (cause ∷ causes) = insert_at-compact _ _ effects

-- A list that orders a compact does so whatever comes behind.
compact-append : (xs ys : List Effect) → any is_compact xs ≡ true → any is_compact (xs ++ ys) ≡ true
compact-append xs ys h = rw (any-append is_compact xs ys, h) refl

-- The effects order a compact.
record HasCompact (effects : List Effect) : Type 0 where
  found : any is_compact effects ≡ true

HasCompact-append : (xs ys : List Effect) → HasCompact xs → HasCompact (xs ++ ys)
HasCompact-append xs ys h = record { found = compact-append xs ys h.found }

compact_last :
    (xs : List Effect) (input : Input) → any is_compact (xs ++ compact_effect input ∷ []) ≡ true
unfolding compact_effect
compact_last xs input = rw (any-append is_compact xs) (ground arith)

continue_claimed-compact :
    (input : Input) (prelude : Prelude) (b : AppliedBoundary)
    → any is_compact (continue_claimed input prelude b) ≡ true
unfolding continue_claimed
continue_claimed-compact input prelude b =
    compact_last
      (prelude.effects
        ++ Effect.claim_writer "lhc" ∷ []
        ++ (if b.forced_this_seam then force_turn_end_effect b.continuation_turn_id ∷ [] else []))
      input

continue_assembled-compact :
    (input : Input) (prelude : Prelude) (b : AppliedBoundary)
    → any is_compact (continue_assembled input prelude b) ≡ true
unfolding continue_assembled
continue_assembled-compact input prelude b =
    compact-append
      (insert_degrade_after_compact
        (continue_claimed input prelude b ++ body_quality_warnings input)
        (degradation_reasons_of input))
      _
      (insert_degrade-compact _ (degradation_reasons_of input)
        ∙ compact-append (continue_claimed input prelude b) _
            (continue_claimed-compact input prelude b))

preserve_claimed-compact :
    (input : Input) (prelude : Prelude) → any is_compact (preserve_claimed input prelude) ≡ true
unfolding preserve_claimed
preserve_claimed-compact input prelude =
    compact_last (prelude.effects ++ Effect.claim_writer "lhc" ∷ []) input

preserve_assembled-compact :
    (input : Input) (prelude : Prelude) → any is_compact (preserve_assembled input prelude) ≡ true
unfolding preserve_assembled
preserve_assembled-compact input prelude =
    insert_degrade-compact _ _
    ∙ compact-append (preserve_claimed input prelude) _ (preserve_claimed-compact input prelude)

abbrev Compacts : Decision → Type 0
Compacts d = any is_compact d.effects ≡ true

failed_continue-compact :
    (input : Input) (path : List State) (code : WarningCode) (reason : String)
    (effects : List Effect) (ran : Bool) (turn_id : String) (persisted : Bool)
    → HasCompact effects
    → Compacts (attempt_failed_after_continue input path code reason effects ran turn_id persisted)
unfolding attempt_failed_after_continue attempt_failed_after_continue_parts build
failed_continue-compact input path code reason effects ran turn_id persisted h =
    compact-append effects _ h.found

failed_preserve-compact :
    (input : Input) (path : List State) (code : WarningCode) (reason : String)
    (effects : List Effect) (ran : Bool)
    → HasCompact effects
    → Compacts (attempt_failed_after_preserve input path code reason effects ran)
unfolding attempt_failed_after_preserve attempt_failed_after_preserve_parts build
failed_preserve-compact input path code reason effects ran h = compact-append effects _ h.found

installed-compact :
    (input : Input) (outcome : OutcomeKind) (terminal : State) (path : List State) (code : String)
    (effects : List Effect) (reason : Option String) (opened : Opened) (left : Residual)
    → HasCompact effects
    → Compacts (installed input outcome terminal path code effects reason opened left)
unfolding installed installed_parts build
installed-compact input outcome terminal path code effects reason opened left h =
    compact-append effects _ h.found

pub continue_turn_tail-compact :
    (input : Input) (path : List State) (prelude : Prelude) (b : AppliedBoundary)
    → Compacts (continue_turn_tail input path prelude b)
unfolding continue_turn_tail
continue_turn_tail-compact input path prelude b =
    let assembled : HasCompact (continue_assembled input prelude b) = record {
      found = continue_assembled-compact input prelude b;
    } in
    of_if Compacts (not input.compact_material.compact_structurally_valid) _ _
      (failed_continue-compact _ _ _ _ _ _ _ _
        (record { found = continue_claimed-compact input prelude b }))
      (of_if Compacts (not input.compact_material.install_succeeds) _ _
        (failed_continue-compact _ _ _ _ _ _ _ _ assembled)
        (of_if Compacts (not input.compact_material.useful_reduction) _ _
          (installed-compact _ _ _ _ _ _ _ _ _ (HasCompact-append _ _ assembled))
          (installed-compact _ _ _ _ _ _ _ _ _ (HasCompact-append _ _ assembled))))

pub preserve_tool_tail-compact :
    (input : Input) (path : List State) (prelude : Prelude)
    → Compacts (preserve_tool_tail input path prelude)
unfolding preserve_tool_tail
preserve_tool_tail-compact input path prelude =
    let assembled : HasCompact (preserve_assembled input prelude) = record {
      found = preserve_assembled-compact input prelude;
    } in
    of_if Compacts (not input.compact_material.compact_structurally_valid) _ _
      (failed_preserve-compact _ _ _ _ _ _
        (record { found = preserve_claimed-compact input prelude }))
      (of_if Compacts (not input.compact_material.install_succeeds) _ _
        (failed_preserve-compact _ _ _ _ _ _ (HasCompact-append _ _ assembled))
        (of_if Compacts (not input.compact_material.useful_reduction) _ _
          (installed-compact _ _ _ _ _ _ _ _ _ (HasCompact-append _ _ assembled))
          (installed-compact _ _ _ _ _ _ _ _ _ (HasCompact-append _ _ assembled))))
