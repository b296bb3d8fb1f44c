-- ===== src/Tests/Steps.antt =====
-- A concrete turn of three steps, the last with an open call.
use long_horizon_context.Base.{
  ℕ, ◌≡◌, refl, String, true, Option, none, some, List, [], ◌∷◌, All, arith,
}
use long_horizon_context.Steps.{StepMember, step_edges}
use long_horizon_context.Steps.Counts.{IsNumbered, step_edges-IsNumbered}
use long_horizon_context.Steps.Order.{IsDisjoint, step_edges-IsDisjoint}
use long_horizon_context.Steps.Cover.{is_covered, step_edges-is_covered}
use long_horizon_context.Steps.Edges.{IsParted, step_edges-IsParted}

abbrev member : String → ℕ → String → Option ℕ → Option String → StepMember
member id order kind index call = record {
  message_id = id;
  order = order;
  kind = kind;
  step_index = index;
  tool_call_id = call;
}

abbrev turn : List StepMember
turn =
    member "m1" 3 "user_prompt" none none
    ∷ member "m2" 4 "assistant_text" (some 0) none
    ∷ member "m3" 5 "tool_call" (some 0) (some "c1")
    ∷ member "m4" 6 "tool_result" (some 0) (some "c1")
    ∷ member "m5" 7 "assistant_text" (some 1) none
    ∷ member "m6" 9 "tool_call" (some 2) (some "c2")
    ∷ []

turn_edge : (step_edges turn).last_edge ≡ some 1
unfolding step_edges
turn_edge = refl

turn_splittable : (step_edges turn).splittable ≡ true
unfolding step_edges
turn_splittable = refl

step_edges-IsNumbered_example : IsNumbered 0 (step_edges turn).steps
step_edges-IsNumbered_example = step_edges-IsNumbered turn turn_splittable

step_edges-IsDisjoint_example : IsDisjoint 0 (step_edges turn).steps
step_edges-IsDisjoint_example = step_edges-IsDisjoint turn (omega arith)

step_edges-is_covered_example : All (λ m. is_covered (step_edges turn).steps m ≡ true) turn
step_edges-is_covered_example = step_edges-is_covered turn (omega arith)

step_edges-IsParted_example : IsParted (step_edges turn)
step_edges-IsParted_example = step_edges-IsParted turn
