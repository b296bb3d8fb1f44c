-- ===== src/View/Point/Boundary.antt =====
-- Where the compact point lies.
use long_horizon_context.Base.{
  ℕ, ◌*◌, ◌≤◌, ◌≡◌, refl, String, Bool, true, false, ◌||◌, Option, none, some, List, [], ◌∷◌,
  filter, ltb, ◌==◌, inl, inr, Bool-cases, Option-cases, or_else, get_last?, arith, any,
}
use long_horizon_context.View.{SelectionTurn, SelectionConfig}
use long_horizon_context.View.Source.{SelectionSource, Crossed}
use long_horizon_context.View.Point.{
  closed_at_or_zero, snap_crossing, is_closed, turn_by_id, previous_close, snap_closed,
  snap_compact_point, greatest_close, lower_to, compact_point, has_turns,
}

abbrev closes_at : ℕ → SelectionTurn → Bool
closes_at point t = elim t.closed_at [ none ↦ false | some order ↦ order == point ]

-- 0, or the order at which a turn of the list was closed
abbrev pub is_close : List SelectionTurn → ℕ → Bool
is_close turns point = (point == 0) || any (closes_at point) turns

closed_turns_of : List SelectionTurn → List SelectionTurn
closed_turns_of turns = filter is_closed turns

is_close-cons :
    (t : SelectionTurn) (turns : List SelectionTurn) (point : ℕ)
    → is_close turns point ≡ true
    → is_close (t ∷ turns) point ≡ true
is_close-cons t turns point h = ground (arith, h)

closes_at_self :
    (t : SelectionTurn) (turns : List SelectionTurn)
    → is_close (t ∷ turns) (or_else t.closed_at 0) ≡ true
closes_at_self t turns = ground arith

is_close-filter :
    (p : SelectionTurn → Bool) (turns : List SelectionTurn) (point : ℕ)
    → is_close (filter p turns) point ≡ true
    → is_close turns point ≡ true
is_close-filter p [] point h = h
is_close-filter p (t ∷ turns) point h = ground (arith, h, is_close-filter p turns point)

is_close-last :
    (turns : List SelectionTurn) → is_close turns (closed_at_or_zero (get_last? turns)) ≡ true
is_close-last [] = refl
is_close-last (t ∷ []) = ground arith
is_close-last (t ∷ u ∷ turns) = is_close-cons t (u ∷ turns) _ (is_close-last (u ∷ turns))

previous_close-is_close :
    (closed_turns : List SelectionTurn) (turn : SelectionTurn)
    → is_close closed_turns (previous_close closed_turns turn) ≡ true
unfolding previous_close
previous_close-is_close closed_turns turn =
    is_close-filter (λ t. ltb t.turn_order turn.turn_order) closed_turns _
      (is_close-last (filter (λ t. ltb t.turn_order turn.turn_order) closed_turns))

is_close-greatest :
    (bound : ℕ) (turns : List SelectionTurn)
    → (is_close turns (greatest_close bound turns) ≡ true) × (greatest_close bound turns ≤ bound)
is_close-greatest bound [] = (refl, omega arith)
is_close-greatest bound (t ∷ turns) = ground (arith, is_close-greatest bound turns)

-- A closed turn that the map of turns holds is one of the closed turns.
is_close_of_turn :
    (turns : List SelectionTurn) (turn_id : String) (turn : SelectionTurn)
    → turn_by_id turns turn_id ≡ some turn
    → is_closed turn ≡ true
    → is_close (filter is_closed turns) (or_else turn.closed_at 0) ≡ true
is_close_of_turn [] turn_id turn e h = cc
is_close_of_turn (t ∷ turns) turn_id turn e h =
    ground (arith, e, h, is_close_of_turn turns turn_id turn)

snap_compact_point-is_close :
    (source : SelectionSource) (full_budget : ℕ) (crossed : Crossed)
    → is_close
        (filter is_closed source.turns)
        (snap_compact_point source (filter is_closed source.turns) full_budget crossed)
      ≡ true
unfolding snap_compact_point snap_closed
snap_compact_point-is_close source full_budget crossed =
    let closed_turns = filter is_closed source.turns in
    elim (Option-cases (turn_by_id source.turns crossed.turn_id)) [
      | inl e ↦ rw (snap_compact_point, e) refl
      | inr (turn, e) ↦
          rw (snap_compact_point, e)
            (ground (
              arith,
              previous_close-is_close closed_turns turn,
              is_close_of_turn source.turns crossed.turn_id turn e,
            ))
    ]

snap_crossing-is_close :
    (source : SelectionSource) (full_budget : ℕ) (crossing : Option Crossed)
    → is_close
        (filter is_closed source.turns)
        (snap_crossing source (filter is_closed source.turns) full_budget crossing)
      ≡ true
snap_crossing-is_close source full_budget none = refl
snap_crossing-is_close source full_budget (some crossed) =
    elim (Bool-cases (has_turns (filter is_closed source.turns))) [
      | inl e ↦ rw e (snap_compact_point-is_close source full_budget crossed)
      | inr e ↦ rw e refl
    ]

lower_to-is_close :
    (bound : Option ℕ) (turns : List SelectionTurn) (point : ℕ)
    → is_close turns point ≡ true
    → is_close turns (lower_to bound turns point) ≡ true
unfolding lower_to
lower_to-is_close none turns point h = h
lower_to-is_close (some bound) turns point h = elim (Bool-cases (ltb bound point)) [
  | inl e ↦ rw e (is_close-greatest bound turns).0
  | inr e ↦ rw e h
]

-- Before turn parts are placed, the compact point is 0 or the close of a closed turn.
pub compact_point-is_close :
    (source : SelectionSource) (config : SelectionConfig) (with_parts : Bool)
    → is_close (filter is_closed source.turns) (compact_point source config with_parts) ≡ true
unfolding compact_point
compact_point-is_close source config with_parts =
    lower_to-is_close config.compact_point_upper_bound (filter is_closed source.turns) _
      (snap_crossing-is_close source (config.lower_bound * config.percentages.full) _)

-- Where the caller gives an upper bound, the compact point does not pass it.
pub compact_point_bounded :
    (source : SelectionSource) (config : SelectionConfig) (with_parts : Bool) (bound : ℕ)
    → config.compact_point_upper_bound ≡ some bound
    → compact_point source config with_parts ≤ bound
unfolding compact_point lower_to
compact_point_bounded source config with_parts bound e =
    ground (arith, e, is_close-greatest bound (filter is_closed source.turns))
