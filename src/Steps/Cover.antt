-- ===== src/Steps/Cover.antt =====
-- The messages that the steps of `stepEdges` hold.
use long_horizon_context.Base.{
  ℕ, suc, ◌≤◌, ◌≡◌, refl, Bool, true, false, not, ◌&&◌, ◌||◌, Option, none, some, List, inl, inr,
  Bool-cases, [], ◌∷◌, arith, leb, ◌==◌, any, any-append, All, All-map,
}
use long_horizon_context.Steps.{
  StepMember, StepRange, Walk, start, with_last, close_step, enter, extend, note_call, note_result,
  note_tool, visit, visit_all, step_edges, bears_step,
}
use long_horizon_context.Steps.Order.{
  IsAscending, IsBelow, visit-IsBelow, close_step-IsDisjoint, IsBelow-later,
}

-- A range of step `index` that reaches over `order`.
abbrev pub holds : ℕ → ℕ → StepRange → Bool
holds index order s = (s.index == index) && leb s.first_order order && leb order s.last_order

-- A test on the number and the order of a message that bears a step.
abbrev pub on_step : (ℕ → ℕ → Bool) → StepMember → Bool
on_step test m = elim m.step_index [
  | none ↦ true
  | some index ↦ not (bears_step m) || test index m.order
]

abbrev pub is_covered : List StepRange → StepMember → Bool
is_covered steps = on_step (λ index order. any (holds index order) steps)

or_mono : (b x y : Bool) → (x ≡ true → y ≡ true) → (b || x) ≡ true → (b || y) ≡ true
or_mono true x y f h = refl
or_mono false x y f h = f h

on_step_mono :
    (f g : ℕ → ℕ → Bool) (m : StepMember)
    → ((index : ℕ) → f index m.order ≡ true → g index m.order ≡ true)
    → on_step f m ≡ true
    → on_step g m ≡ true
on_step_mono f g m keep =
    elim m.step_index
      as (λ i.
        on_step f (record m { step_index = i }) ≡ true
        → on_step g (record m { step_index = i }) ≡ true) [
          | none ↦ λ h. h
          | some index ↦
              or_mono (not (bears_step m)) (f index m.order) (g index m.order) (keep index)
        ]

abbrev holds_last : ℕ → ℕ → Option StepRange → Bool
holds_last index order none = false
holds_last index order (some s) = holds index order s

abbrev is_held : ℕ → ℕ → Walk → Bool
is_held index order w = any (holds index order) w.done || holds_last index order w.current

any-with_last :
    (index order : ℕ) (done : List StepRange) (last : Option StepRange)
    → any (holds index order) (with_last done last)
      ≡ (any (holds index order) done || holds_last index order last)
any-with_last index order done none = ground arith
any-with_last index order done (some s) =
    ground (arith, any-append (holds index order) done (s ∷ []))

any_closed :
    (index order : ℕ) (w : Walk)
    → any (holds index order) (with_last w.done (close_step w)) ≡ is_held index order w
any_closed index order w = ground (arith, any-with_last index order w.done (close_step w))

-- A tool call or result changes no range.
note_tool-is_held :
    (index order : ℕ) (m : StepMember) (step : ℕ) (w : Walk)
    → is_held index order (note_tool m step w) ≡ is_held index order w
unfolding note_tool note_call note_result
note_tool-is_held index order m step w = ground arith

enter-is_held :
    (index order : ℕ) (m : StepMember) (step : ℕ) (w : Walk)
    → is_held index order w ≡ true
    → is_held index order (enter m step w) ≡ true
unfolding enter
enter-is_held index order m step w t = ground (arith, any_closed index order w)

extend-is_held :
    (index order : ℕ) (m : StepMember) (w : Walk)
    → IsBelow (suc m.order) w
    → is_held index order w ≡ true
    → is_held index order (extend m w) ≡ true
unfolding extend
extend-is_held index order m w h t = ground (arith, h.last)

abbrev IsNext : ℕ → Option StepRange → Type 0
IsNext next none = next ≡ 0
IsNext next (some s) = next ≡ suc s.index

visit-IsNext :
    (m : StepMember) (w : Walk)
    → IsNext w.next_index w.current
    → IsNext (visit m w).next_index (visit m w).current
unfolding visit enter extend note_tool note_call note_result
visit-IsNext m w h = ground (arith, h)

enter-IsBelow :
    (m : StepMember) (step lo : ℕ) (w : Walk)
    → lo ≤ m.order
    → IsBelow lo w
    → IsBelow (suc m.order) (enter m step w)
unfolding enter
enter-IsBelow m step lo w e h = ground (
  arith,
  h.last,
  h.disjoint,
  close_step-IsDisjoint lo w h,
  IsBelow-later lo (suc m.order) w (omega (arith, e)) h,
)

-- The member that was entered and extended by is held.
entered-is_held :
    (m : StepMember) (step lo : ℕ) (w : Walk)
    → lo ≤ m.order
    → IsBelow lo w
    → IsNext w.next_index w.current
    → is_held step m.order (extend m (enter m step w)) ≡ true
unfolding enter extend
entered-is_held m step lo w e h n = ground (arith, h.last, n)

-- What a step holds, it holds after later messages.
visit-is_held :
    (index order : ℕ) (m : StepMember) (lo : ℕ) (w : Walk)
    → lo ≤ m.order
    → IsBelow lo w
    → is_held index order w ≡ true
    → is_held index order (visit m w) ≡ true
unfolding visit
visit-is_held index order m lo w e h t = elim (Bool-cases (bears_step m)) [
  | inl b ↦
      elim m.step_index
        as (λ i. is_held index order (visit (record m { step_index = i }) w) ≡ true) [
          | none ↦ rw b t
          | some step ↦ rw b (
              rw (note_tool-is_held index order m step (extend m (enter m step w))) (
                extend-is_held index order m (enter m step w) (enter-IsBelow m step lo w e h)
                  (enter-is_held index order m step w t)))
        ]
  | inr b ↦ rw b t
]

abbrev is_member_held : Walk → StepMember → Bool
is_member_held w = on_step (λ index order. is_held index order w)

visit-is_member_held :
    (m : StepMember) (lo : ℕ) (w : Walk)
    → lo ≤ m.order
    → IsBelow lo w
    → IsNext w.next_index w.current
    → is_member_held (visit m w) m ≡ true
unfolding visit
visit-is_member_held m lo w e h n = elim (Bool-cases (bears_step m)) [
  | inl b ↦
      elim m.step_index
        as (λ i.
          is_member_held (visit (record m { step_index = i }) w) (record m { step_index = i })
          ≡ true) [
            | none ↦ refl
            | some step ↦ rw b (
                rw (note_tool-is_held step m.order m step (extend m (enter m step w)))
                  (entered-is_held m step lo w e h n))
          ]
  | inr b ↦
      elim m.step_index
        as (λ i.
          is_member_held (visit (record m { step_index = i }) w) (record m { step_index = i })
          ≡ true) [ none ↦ refl | some step ↦ rw b refl ]
]

visit_all-keeps :
    (members : List StepMember) (lo : ℕ) (w : Walk) (m : StepMember)
    → IsAscending lo members
    → IsBelow lo w
    → is_member_held w m ≡ true
    → is_member_held (visit_all members w) m ≡ true
unfolding visit_all
visit_all-keeps [] lo w m e h t = t
visit_all-keeps (n ∷ members) lo w m e h t =
    visit_all-keeps members (suc n.order) (visit n w) m e.1 (visit-IsBelow n lo w e.0 h) (
      on_step_mono (λ i o. is_held i o w) (λ i o. is_held i o (visit n w)) m
        (λ i. visit-is_held i m.order n lo w e.0 h) t)

visit_all-holds :
    (members : List StepMember) (lo : ℕ) (w : Walk)
    → IsAscending lo members
    → IsBelow lo w
    → IsNext w.next_index w.current
    → All (λ m. is_member_held (visit_all members w) m ≡ true) members
unfolding visit_all
visit_all-holds [] lo w e h n = tt
visit_all-holds (m ∷ members) lo w e h n =
    let below = visit-IsBelow m lo w e.0 h in
    (
      visit_all-keeps members (suc m.order) (visit m w) m e.1 below
          (visit-is_member_held m lo w e.0 h n),
      visit_all-holds members (suc m.order) (visit m w) e.1 below (visit-IsNext m w n),
    )

is_covered_of_held :
    (w : Walk) (m : StepMember)
    → is_member_held w m ≡ true
    → is_covered (with_last w.done (close_step w)) m ≡ true
is_covered_of_held w m t =
    on_step_mono (λ i o. is_held i o w) (λ i o. any (holds i o) (with_last w.done (close_step w))) m
      (λ i. λ x. rw (any_closed i m.order w) x) t

-- When the messages ascend, each message that bears a step with a number lies in the range of a
-- step with that number.
pub step_edges-is_covered :
    (members : List StepMember)
    → IsAscending 0 members
    → All (λ m. is_covered (step_edges members).steps m ≡ true) members
unfolding step_edges
step_edges-is_covered members e =
    let w = visit_all members start in
    All-map (λ m. is_member_held w m ≡ true)
      (λ m. is_covered (with_last w.done (close_step w)) m ≡ true) (is_covered_of_held w) members
      (visit_all-holds members 0 start e (record { disjoint = tt; last = omega arith }) refl)
