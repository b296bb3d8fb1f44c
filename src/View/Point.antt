-- ===== src/View/Point.antt =====
-- The compact point of `walkArrangement` in thread-view/internal/walk.ts, up to the turn parts: the
-- message at which the full budget is reached, snapped to the end of a closed turn, and lowered to
-- an upper bound. Budgets are in hundredths of a token.
pub mod Boundary
use long_horizon_context.Base.{
  ℕ, ◌+◌, ◌*◌, ◌-◌, String, Bool, true, false, not, ◌&&◌, ◌||◌, Option, none, some, List, [], ◌∷◌,
  map, min, max, filter, find, ltb, leb, if◌then◌else◌, str_eq, or_else, get_last?,
}
use long_horizon_context.View.{SelectionTurn, Status, Percentages, SelectionConfig}
use long_horizon_context.View.Source.{SelectionSource, Crossed}

abbrev pub is_closed : SelectionTurn → Bool
is_closed t = elim t.status [ Status.closed_status ↦ true | Status.open_status ↦ false ]

abbrev pub has_turns : List SelectionTurn → Bool
has_turns [] = false
has_turns (_ ∷ _) = true

-- `turnsById.get`: of turns with one id, the last is in the map.
abbrev pub turn_by_id : List SelectionTurn → String → Option SelectionTurn
turn_by_id [] turn_id = none
turn_by_id (t ∷ turns) turn_id = elim (turn_by_id turns turn_id) [
  | some u ↦ some u
  | none ↦ if str_eq t.turn_id turn_id then some t else none
]

abbrev pub turn_start_order : SelectionSource → SelectionTurn → ℕ
turn_start_order source turn = or_else (source.turn_min_message_order turn.turn_id) turn.opened_at

-- `previousClose`
abbrev pub closed_at_or_zero : Option SelectionTurn → ℕ
closed_at_or_zero none = 0
closed_at_or_zero (some t) = or_else t.closed_at 0

unfoldable pub previous_close : List SelectionTurn → SelectionTurn → ℕ
previous_close closed_turns turn =
    closed_at_or_zero (get_last? (filter (λ t. ltb t.turn_order turn.turn_order) closed_turns))

abbrev pub straddling_turn_stays_in_full : ℕ → ℕ → Bool
straddling_turn_stays_in_full full_side turn_tokens = leb (turn_tokens - full_side) full_side

-- The tokens of a turn that fall into the full budget.
abbrev pub full_side_tokens : SelectionSource → ℕ → SelectionTurn → ℕ
full_side_tokens source full_budget turn = min (100 * source.turn_message_tokens turn.turn_id) (
    full_budget
    - 100 * (elim turn.closed_at [ none ↦ 0 | some order ↦ source.message_tokens_after order ]))

-- `snapCompactPoint`
unfoldable pub snap_closed : SelectionSource → List SelectionTurn → ℕ → Crossed → SelectionTurn → ℕ
unfolding previous_close
snap_closed source closed_turns full_budget crossed turn =
    if leb crossed.order (turn_start_order source turn)
    then previous_close closed_turns turn
    else if straddling_turn_stays_in_full (full_side_tokens source full_budget turn)
        (100 * source.turn_message_tokens turn.turn_id)
    then previous_close closed_turns turn
    else or_else turn.closed_at 0

unfoldable pub snap_compact_point : SelectionSource → List SelectionTurn → ℕ → Crossed → ℕ
unfolding snap_closed previous_close
snap_compact_point source closed_turns full_budget crossed =
    elim (turn_by_id source.turns crossed.turn_id) [
      | none ↦ 0
      | some turn ↦
          if is_closed turn
          then snap_closed source closed_turns full_budget crossed turn
          else previous_close closed_turns turn
    ]

-- `Math.max(...)` of the closes up to the bound, or 0
abbrev pub greatest_close : ℕ → List SelectionTurn → ℕ
greatest_close bound [] = 0
greatest_close bound (t ∷ turns) =
    let rest = greatest_close bound turns in
    elim t.closed_at [ none ↦ rest | some order ↦ if leb order bound then max order rest else rest ]

unfoldable pub lower_to : Option ℕ → List SelectionTurn → ℕ → ℕ
lower_to none closed_turns point = point
lower_to (some bound) closed_turns point =
    if ltb bound point then greatest_close bound closed_turns else point

-- The crossing; `with_parts` tells whether the source has turn parts.
unfoldable pub crossing_of : SelectionSource → List SelectionTurn → ℕ → Bool → Option Crossed
crossing_of source closed_turns full_budget with_parts =
    if (has_turns closed_turns || with_parts) && source.has_placeable_messages
    then source.crossing_message full_budget
    else none

abbrev pub snap_crossing : SelectionSource → List SelectionTurn → ℕ → Option Crossed → ℕ
snap_crossing source closed_turns full_budget none = 0
snap_crossing source closed_turns full_budget (some crossed) =
    if has_turns closed_turns then snap_compact_point source closed_turns full_budget crossed else 0

-- `compactPoint`, before turn parts are placed.
unfoldable pub compact_point : SelectionSource → SelectionConfig → Bool → ℕ
unfolding snap_compact_point lower_to crossing_of
compact_point source config with_parts =
    let full_budget = config.lower_bound * config.percentages.full in
    let closed_turns = filter is_closed source.turns in
    lower_to config.compact_point_upper_bound closed_turns (
      snap_crossing source closed_turns full_budget
        (crossing_of source closed_turns full_budget with_parts))
