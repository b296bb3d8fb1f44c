-- ===== src/Steps/Counts.antt =====
-- The numbering of steps in `stepEdges`.
use long_horizon_context.Base.{
  ℕ, suc, ◌+◌, ◌≡◌, refl, true, Option, none, some, List, [], ◌∷◌, ◌++◌, arith, length,
  length-append,
}
use long_horizon_context.Steps.{
  StepMember, StepRange, Walk, start, with_last, close_step, enter, extend, note_call, note_result,
  note_tool, visit, visit_all, step_edges,
}

-- The steps are numbered upwards from `k`.
abbrev pub IsNumbered : ℕ → List StepRange → Type 0
IsNumbered k [] = Unit
IsNumbered k (s ∷ steps) = (s.index ≡ k) × IsNumbered (suc k) steps

IsNumbered-snoc :
    (k : ℕ) (steps : List StepRange) (s : StepRange)
    → IsNumbered k steps
    → s.index ≡ k + length steps
    → IsNumbered k (steps ++ (s ∷ []))
IsNumbered-snoc k [] s h e = (omega (arith, e), tt)
IsNumbered-snoc k (t ∷ steps) s h e = (h.0, IsNumbered-snoc (suc k) steps s h.1 (omega (arith, e)))

abbrev IsCurrent : ℕ → ℕ → Option StepRange → Type 0
IsCurrent count next none = (count ≡ 0) × (next ≡ 0)
IsCurrent count next (some s) = (s.index ≡ count) × (next ≡ suc count)

record IsCounted (w : Walk) : Type 0 where
  numbered : IsNumbered 0 w.done
  last : IsCurrent (length w.done) w.next_index w.current

-- The invariant of the loop, as long as the turn is splittable.
abbrev IsOnCount : Walk → Type 0
IsOnCount w = w.splittable ≡ true → IsCounted w

with_last-IsNumbered :
    (done : List StepRange) (next : ℕ) (last : Option StepRange)
    → IsNumbered 0 done
    → IsCurrent (length done) next last
    → IsNumbered 0 (with_last done last) × (length (with_last done last) ≡ next)
with_last-IsNumbered done next none h e = (h, omega (arith, e))
with_last-IsNumbered done next (some s) h e =
    (IsNumbered-snoc 0 done s h (omega (arith, e)), omega (arith, e, length-append done (s ∷ [])))

close_step-IsCurrent :
    (w : Walk)
    → IsCurrent (length w.done) w.next_index w.current
    → IsCurrent (length w.done) w.next_index (close_step w)
close_step-IsCurrent w h =
    elim w.current
        as (λ c.
          IsCurrent (length w.done) w.next_index c
          → IsCurrent (length w.done) w.next_index (close_step (record w { current = c }))) [
            | none ↦ λ e. e
            | some s ↦ λ e. e
          ]
      h

close_step-IsNumbered :
    (w : Walk)
    → IsCounted w
    → IsNumbered 0 (with_last w.done (close_step w))
      × (length (with_last w.done (close_step w)) ≡ w.next_index)
close_step-IsNumbered w h =
    with_last-IsNumbered w.done w.next_index (close_step w) h.numbered
      (close_step-IsCurrent w h.last)

visit-IsOnCount : (m : StepMember) (w : Walk) → IsOnCount w → IsOnCount (visit m w)
unfolding visit enter extend note_tool note_call note_result
visit-IsOnCount m w h = ground (arith, h, close_step-IsNumbered w)

visit_all-IsOnCount :
    (members : List StepMember) (w : Walk) → IsOnCount w → IsOnCount (visit_all members w)
unfolding visit_all
visit_all-IsOnCount [] w h = h
visit_all-IsOnCount (m ∷ members) w h =
    visit_all-IsOnCount members (visit m w) (visit-IsOnCount m w h)

-- The steps of a turn that can be split are numbered from 0 without a gap.
pub step_edges-IsNumbered :
    (members : List StepMember)
    → (step_edges members).splittable ≡ true
    → IsNumbered 0 (step_edges members).steps
unfolding step_edges
step_edges-IsNumbered members e =
    (close_step-IsNumbered (visit_all members start) (
      visit_all-IsOnCount members start (λ _. record { numbered = tt; last = (refl, refl) })
        (ground (arith, e)))).0
