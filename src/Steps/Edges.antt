-- ===== src/Steps/Edges.antt =====
-- The complete steps in front, and the last edge, in `stepEdges`.
use long_horizon_context.Base.{
  ℕ, suc, ◌≤◌, ◌<◌, ◌≡◌, refl, Bool, true, false, Option, none, some, List, [], ◌∷◌, ◌++◌, ap,
  arith, length, All, inl, inr, Bool-cases,
}
use long_horizon_context.Steps.{
  StepMember, StepRange, StepEdges, start, with_last, close_step, visit_all, leading_complete,
  edges_of, step_edges,
}

abbrev pub IsComplete : StepRange → Type 0
IsComplete s = s.complete ≡ true

-- Nothing is left, or a step that is not complete.
abbrev pub IsStopped : List StepRange → Type 0
IsStopped [] = Unit
IsStopped (s ∷ steps) = s.complete ≡ false

-- One less than the number of the complete steps in front, where they are two or more.
abbrev pub IsLastEdge : ℕ → Option ℕ → Type 0
IsLastEdge complete none = complete ≤ 1
IsLastEdge complete (some edge) = (0 < edge) × (suc edge ≡ complete)

pub record IsParted (edges : StepEdges) : Type 0 where
  pub front : List StepRange
  pub rest : List StepRange
  pub parted : edges.steps ≡ front ++ rest
  pub counted : length front ≡ edges.complete
  pub all_complete : All IsComplete front
  pub stopped : IsStopped rest
  pub edge : IsLastEdge edges.complete edges.last_edge

record IsFront (steps : List StepRange) : Type 0 where
  front : List StepRange
  rest : List StepRange
  parted : steps ≡ front ++ rest
  counted : length front ≡ leading_complete steps
  all_complete : All IsComplete front
  stopped : IsStopped rest

leading_complete-IsFront : (steps : List StepRange) → IsFront steps
leading_complete-IsFront [] = record {
  front = [];
  rest = [];
  parted = refl;
  counted = refl;
  all_complete = tt;
  stopped = tt;
}
leading_complete-IsFront (s ∷ steps) =
    let h = leading_complete-IsFront steps in
    elim (Bool-cases s.complete) [
      | inl e ↦ record {
        front = s ∷ h.front;
        rest = h.rest;
        parted = ap (◌∷◌ s) h.parted;
        counted = ground (arith, e, h.counted);
        all_complete = (e, h.all_complete);
        stopped = h.stopped;
      }
      | inr e ↦ record {
        front = [];
        rest = s ∷ steps;
        parted = refl;
        counted = ground (arith, e);
        all_complete = tt;
        stopped = e;
      }
    ]

edges_of-IsParted :
    (splittable : Bool) (steps : List StepRange) → IsParted (edges_of splittable steps)
edges_of-IsParted splittable steps =
    let h = leading_complete-IsFront steps in
    record {
      front = h.front;
      rest = h.rest;
      parted = h.parted;
      counted = h.counted;
      all_complete = h.all_complete;
      stopped = h.stopped;
      edge = ground arith;
    }

-- The steps are the complete ones in front, as many as `complete` counts, and then nothing or a
-- step that is not complete; the last edge is one less than their number where
-- they are two or more, and null otherwise.
pub step_edges-IsParted : (members : List StepMember) → IsParted (step_edges members)
unfolding step_edges
step_edges-IsParted members =
    let w = visit_all members start in
    edges_of-IsParted w.splittable (with_last w.done (close_step w))
