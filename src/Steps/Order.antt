-- ===== src/Steps/Order.antt =====
-- The order of steps in `stepEdges`.
use long_horizon_context.Base.{
  ℕ, suc, ◌≤◌, ◌<◌, ◌≡◌, refl, Option, none, some, List, [], ◌∷◌, ◌++◌, arith,
}
use long_horizon_context.Steps.{
  StepMember, StepRange, Walk, start, with_last, close_step, enter, extend, note_call, note_result,
  note_tool, visit, visit_all, step_edges,
}

-- The messages ascend, from `lo` on.
abbrev pub IsAscending : ℕ → List StepMember → Type 0
IsAscending lo [] = Unit
IsAscending lo (m ∷ members) = (lo ≤ m.order) × IsAscending (suc m.order) members

-- The ranges ascend, from `lo` on, and do not overlap.
abbrev pub IsDisjoint : ℕ → List StepRange → Type 0
IsDisjoint lo [] = Unit
IsDisjoint lo (s ∷ steps) =
    (lo ≤ s.first_order) × (s.first_order ≤ s.last_order) × IsDisjoint (suc s.last_order) steps

abbrev end_of : ℕ → List StepRange → ℕ
end_of lo [] = lo
end_of lo (s ∷ steps) = end_of (suc s.last_order) steps

IsDisjoint-snoc :
    (lo : ℕ) (steps : List StepRange) (s : StepRange)
    → IsDisjoint lo steps
    → end_of lo steps ≤ s.first_order
    → s.first_order ≤ s.last_order
    → IsDisjoint lo (steps ++ (s ∷ [])) × (end_of lo (steps ++ (s ∷ [])) ≡ suc s.last_order)
IsDisjoint-snoc lo [] s h e f = ((e, f, tt), refl)
IsDisjoint-snoc lo (t ∷ steps) s h e f =
    let rest = IsDisjoint-snoc (suc t.last_order) steps s h.2 e f in ((h.0, h.1, rest.0), rest.1)

abbrev IsLast : ℕ → ℕ → Option StepRange → Type 0
IsLast lo hi none = lo ≤ hi
IsLast lo hi (some s) = (lo ≤ s.first_order) × (s.first_order ≤ s.last_order) × (s.last_order < hi)

-- The invariant of the loop: what was visited lies below `hi`.
pub record IsBelow (hi : ℕ) (w : Walk) : Type 0 where
  pub disjoint : IsDisjoint 0 w.done
  pub last : IsLast (end_of 0 w.done) hi w.current

with_last-IsDisjoint :
    (done : List StepRange) (hi : ℕ) (last : Option StepRange)
    → IsDisjoint 0 done
    → IsLast (end_of 0 done) hi last
    → IsDisjoint 0 (with_last done last) × (end_of 0 (with_last done last) ≤ hi)
with_last-IsDisjoint done hi none h e = (h, e)
with_last-IsDisjoint done hi (some s) h e =
    let both = IsDisjoint-snoc 0 done s h e.0 e.1 in (both.0, omega (arith, both.1, e.2))

pub close_step-IsDisjoint :
    (hi : ℕ) (w : Walk)
    → IsBelow hi w
    → IsDisjoint 0 (with_last w.done (close_step w))
      × (end_of 0 (with_last w.done (close_step w)) ≤ hi)
close_step-IsDisjoint hi w h =
    with_last-IsDisjoint w.done hi (close_step w) h.disjoint (ground (arith, h.last))

pub IsBelow-later : (lo hi : ℕ) (w : Walk) → lo ≤ hi → IsBelow lo w → IsBelow hi w
IsBelow-later lo hi w e h = ground (arith, h.last, h.disjoint)

-- A member at or above what was visited is in the last step afterwards.
pub visit-IsBelow :
    (m : StepMember) (lo : ℕ) (w : Walk)
    → lo ≤ m.order
    → IsBelow lo w
    → IsBelow (suc m.order) (visit m w)
unfolding visit enter extend note_tool note_call note_result
visit-IsBelow m lo w e h = ground (
  arith,
  h.last,
  h.disjoint,
  close_step-IsDisjoint lo w h,
  IsBelow-later lo (suc m.order) w (omega (arith, e)) h,
)

visit_all-IsBelow :
    (members : List StepMember) (lo : ℕ) (w : Walk)
    → IsAscending lo members
    → IsBelow lo w
    → (hi : ℕ) × IsBelow hi (visit_all members w)
unfolding visit_all
visit_all-IsBelow [] lo w e h = (lo, h)
visit_all-IsBelow (m ∷ members) lo w e h =
    visit_all-IsBelow members (suc m.order) (visit m w) e.1 (visit-IsBelow m lo w e.0 h)

-- Messages that ascend are cut into steps whose ranges ascend and do not overlap.
pub step_edges-IsDisjoint :
    (members : List StepMember) → IsAscending 0 members → IsDisjoint 0 (step_edges members).steps
unfolding step_edges
step_edges-IsDisjoint members e =
    let (hi, h) =
      visit_all-IsBelow members 0 start e (record { disjoint = tt; last = omega arith }) in
    (close_step-IsDisjoint hi (visit_all members start) h).0
