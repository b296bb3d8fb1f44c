-- ===== src/View/Parts/Seams.antt =====
-- Where the compact point lies that `walkArrangement` ends with: with parts, the end of a step, and
-- without them a seam between turns.
use long_horizon_context.Base.{◌≡◌, true, Option, none, some, List}
use long_horizon_context.View.{SelectionTurn}
use long_horizon_context.View.Point.Boundary.{is_close}
use long_horizon_context.View.Parts.{Placing}

-- Parts are placed, or the point is 0 or the close of a closed turn.
abbrev IsSeam : List SelectionTurn → Option Placing → Type 0
IsSeam closed_turns none = Unit
IsSeam closed_turns (some p) = elim p.plan [
  | none ↦ is_close closed_turns p.point ≡ true
  | some plan ↦ Unit
]
