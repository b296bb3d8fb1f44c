-- ===== src/Steps.antt =====
-- `stepEdges` of turns/internal/steps.ts: the steps of a turn, read off its messages in one pass.
--
-- The array `steps`, whose last entry the pass edits, is the list `done` of the entries before the
-- last and the last entry, `current`. The index before the first step is -1 in the source, so the
-- state holds the index after it: `next_index` is `previousIndex + 1`. The map of open calls is the
-- list of its keys, and the map from a call to its step is the list of its entries, newest first.
pub mod Order
pub mod Counts
pub mod Cover
pub mod Edges
use long_horizon_context.Base.{
  is_nil, ℕ, zero, suc, ◌-◌, String, Bool, true, false, not, ◌&&◌, Option, none, some, List, [],
  ◌∷◌, ◌++◌, ltb, ◌==◌, if◌then◌else◌, str_eq, any, filter,
}

-- `STEP_BEARING_KINDS`
abbrev pub step_bearing_kinds : List String
step_bearing_kinds = "assistant_text" ∷ "assistant_thinking" ∷ "tool_call" ∷ "tool_result" ∷ []

pub record StepMember : Type 0 where
  pub message_id : String
  pub order : ℕ
  pub kind : String
  pub step_index : Option ℕ
  pub tool_call_id : Option String

pub record StepRange : Type 0 where
  pub index : ℕ
  pub first_message_id : String
  pub last_message_id : String
  pub first_order : ℕ
  pub last_order : ℕ
  pub complete : Bool

pub record StepEdges : Type 0 where
  pub splittable : Bool
  pub steps : List StepRange
  pub complete : ℕ
  pub last_edge : Option ℕ

pub record CallStep : Type 0 where
  pub call : String
  pub step : ℕ

-- The variables of the loop.
pub record Walk : Type 0 where
  pub done : List StepRange
  pub current : Option StepRange
  pub splittable : Bool
  pub next_index : ℕ
  pub open_calls : List String
  pub straddled : Bool
  pub call_step : List CallStep

abbrev pub start : Walk
start = record {
  done = [];
  current = none;
  splittable = true;
  next_index = 0;
  open_calls = [];
  straddled = false;
  call_step = [];
}

abbrev pub bears_step : StepMember → Bool
bears_step m = any (str_eq m.kind) step_bearing_kinds

abbrev pub with_last : List StepRange → Option StepRange → List StepRange
with_last done none = done
with_last done (some s) = done ++ (s ∷ [])

-- `closeStep`
abbrev pub close_step : Walk → Option StepRange
close_step w = elim w.current [
  | none ↦ none
  | some s ↦ some (record s { complete = is_nil w.open_calls && not w.straddled })
]

abbrev new_step : StepMember → ℕ → StepRange
new_step m index = record {
  index = index;
  first_message_id = m.message_id;
  last_message_id = m.message_id;
  first_order = m.order;
  last_order = m.order;
  complete = false;
}

-- A member with another index than the step before it starts a step.
unfoldable enter : StepMember → ℕ → Walk → Walk
enter m index w = if suc index == w.next_index then w else record w {
  splittable = w.splittable && (index == w.next_index);
  done = with_last w.done (close_step w);
  current = some (new_step m index);
  open_calls = [];
  straddled = false;
  next_index = suc index;
}

unfoldable extend : StepMember → Walk → Walk
extend m w = elim w.current [
  | none ↦ w
  | some s ↦ record w {
    current = some (record s { last_message_id = m.message_id; last_order = m.order });
  }
]

abbrev issued_in : String → List CallStep → Option ℕ
issued_in id [] = none
issued_in id (c ∷ calls) =
    let rest = issued_in id calls in if str_eq c.call id then some c.step else rest

abbrev is_issued_in : ℕ → Option ℕ → Bool
is_issued_in index none = false
is_issued_in index (some step) = step == index

unfoldable note_call : String → ℕ → Walk → Walk
note_call id index w = record w {
  open_calls = id ∷ filter (λ c. not (str_eq c id)) w.open_calls;
  call_step = record { call = id; step = index } ∷ w.call_step;
}

unfoldable note_result : String → ℕ → Walk → Walk
note_result id index w =
    if is_issued_in index (issued_in id w.call_step) && any (λ c. str_eq c id) w.open_calls
    then record w { open_calls = filter (λ c. not (str_eq c id)) w.open_calls }
    else record w { straddled = true; splittable = false }

-- The two tests on the kind of a member that names a tool call.
unfoldable note_tool : StepMember → ℕ → Walk → Walk
unfolding note_call note_result
note_tool m index w = elim m.tool_call_id [
  | none ↦ w
  | some id ↦
      let called = if str_eq m.kind "tool_call" then note_call id index w else w in
      if str_eq m.kind "tool_result" then note_result id index called else called
]

-- The body of the loop.
unfoldable visit : StepMember → Walk → Walk
unfolding enter extend note_tool
visit m w =
    if bears_step m
    then elim m.step_index [
      | none ↦ record w { splittable = false }
      | some index ↦ note_tool m index (extend m (enter m index w))
    ]
    else w

unfoldable visit_all : List StepMember → Walk → Walk
unfolding visit
visit_all [] w = w
visit_all (m ∷ members) w = visit_all members (visit m w)

-- The number of complete steps in front.
abbrev pub leading_complete : List StepRange → ℕ
leading_complete [] = 0
leading_complete (s ∷ steps) =
    let rest = leading_complete steps in if s.complete then suc rest else 0

abbrev pub edges_of : Bool → List StepRange → StepEdges
edges_of splittable steps = record {
  splittable = splittable && not (is_nil steps);
  steps = steps;
  complete = leading_complete steps;
  last_edge = if ltb 1 (leading_complete steps) then some (leading_complete steps - 1) else none;
}

-- `stepEdges`
unfoldable pub step_edges : List StepMember → StepEdges
unfolding visit_all
step_edges members =
    let w = visit_all members start in edges_of w.splittable (with_last w.done (close_step w))
