-- ===== src/Validity/Routes.antt =====
-- The checks on the transition path of a decision.
use long_horizon_context.Base.{
  ◌≡◌, refl, true, false, ◌||◌, some, List, [], ◌∷◌, ◌++◌, arith, any-append, get_last?, decide,
  decide_self,
}
use long_horizon_context.Contract.Codes.{State, State-discrete}
use long_horizon_context.Contract.Receipt.{Decision}
use long_horizon_context.Validation.DecisionChecks.{is_last, passes, route_checks}
use long_horizon_context.Validity.Vocabulary.{states-listed}

get_last?-append : (path : List State) (s : State) → get_last? (path ++ s ∷ []) ≡ some s
get_last?-append [] s = refl
get_last?-append (x ∷ []) s = refl
get_last?-append (x ∷ y ∷ path) s = get_last?-append (y ∷ path) s

pub is_last-append : (path : List State) (s : State) → is_last (get_last? (path ++ s ∷ [])) s ≡ true
is_last-append path s = rw (get_last?-append path s, decide_self State-discrete s)

-- A path that neither compacts nor passes below the trigger.
pub record IsPlain (path : List State) : Type 0 where
  pub no_compact : passes State.compacting path ≡ false
  pub no_below : passes State.below_trigger path ≡ false

pub IsPlain-append : (xs ys : List State) → IsPlain xs → IsPlain ys → IsPlain (xs ++ ys)
IsPlain-append xs ys h k = record {
  no_compact =
      rw (any-append (λ x. decide (State-discrete State.compacting x)) xs ys, h.no_compact)
        k.no_compact;
  no_below =
      rw (any-append (λ x. decide (State-discrete State.below_trigger x)) xs ys, h.no_below)
        k.no_below;
}

-- A path that ends in the terminal state and is plain, or compacts behind its branch.
pub plain_route :
    (d : Decision)
    → is_last (get_last? d.transition_path) d.terminal_state ≡ true
    → IsPlain d.transition_path
    → route_checks d ≡ []
unfolding route_checks
plain_route d h p =
    rw (h, states-listed d.terminal_state, p.no_compact, p.no_below) (ground (arith))

pub compact_route :
    (d : Decision)
    → is_last (get_last? d.transition_path) d.terminal_state ≡ true
    → (passes State.path_preserve_tool d.transition_path
        || passes State.path_continue_turn d.transition_path)
      ≡ true
    → passes State.below_trigger d.transition_path ≡ false
    → route_checks d ≡ []
unfolding route_checks
compact_route d h p q = rw (h, states-listed d.terminal_state, q) (ground (arith, p))
