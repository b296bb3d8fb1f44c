-- ===== src/View/Parts/Installed.antt =====
-- What becomes of the parts that are installed already.
use long_horizon_context.Base.{
  ℕ, ◌*◌, ◌≡◌, Bool, true, not, Option, none, some, List, leb, is_nil, refl, ◌&&◌, arith,
  Option-cases, if-cases, inl, inr,
}
use long_horizon_context.Steps.{StepEdges}
use long_horizon_context.View.{SelectionTurn, PartRange}
use long_horizon_context.View.Source.{SelectionSource}
use long_horizon_context.View.Point.{is_closed, turn_by_id}
use long_horizon_context.View.Parts.{
  InstalledTransition, PartsSource, PartsPlan, Placing, edge_of, last_to_step, edge_option,
  nothing_placed, keep_parts, place_closed, place_installed, installed_placing,
}
use long_horizon_context.View.Parts.Lookups.{ends_option, edge_of-ends}

abbrev pub is_plan_edge : PartsPlan → ℕ → Bool
is_plan_edge plan point = ends_option plan.steps.steps (last_to_step plan.ranges) point

abbrev pub is_edge : Placing → Bool
is_edge p = elim p.plan [ none ↦ true | some plan ↦ is_plan_edge plan p.point ]

-- A turn that settles is closed, and a turn with parts beside it is open.
abbrev pub is_exclusive : Placing → Bool
is_exclusive p = elim p.settling [
  | none ↦ true
  | some s ↦ is_closed s && (elim p.plan [ none ↦ true | some plan ↦ not (is_closed plan.turn) ])
]

abbrev pub is_settled_closed : Option SelectionTurn → Bool
is_settled_closed none = true
is_settled_closed (some s) = is_closed s

-- What the installed parts place.
pub record IsInstalled (p : Placing) : Type 0 where
  pub edge : is_edge p ≡ true
  pub settled : is_settled_closed p.settling ≡ true
  pub exclusive : is_exclusive p ≡ true

nothing-IsInstalled :
    (point : ℕ) → IsInstalled (record { point = point; settling = none; plan = none })
nothing-IsInstalled point = record { edge = refl; settled = refl; exclusive = refl }

keep_parts-IsInstalled :
    (turn : SelectionTurn) (steps : StepEdges) (ranges : List PartRange) (point : ℕ)
    (last : Option ℕ)
    → last_to_step ranges ≡ last
    → IsInstalled (keep_parts turn steps ranges point (edge_option steps.steps last))
keep_parts-IsInstalled turn steps ranges point none e = nothing-IsInstalled point
keep_parts-IsInstalled turn steps ranges point (some to_step) e =
    elim (Option-cases (edge_of steps.steps to_step)) [
      | inl n ↦ rw n (nothing-IsInstalled point)
      | inr (edge, n) ↦ rw n (record {
        edge = rw e (edge_of-ends steps.steps to_step edge n);
        settled = refl;
        exclusive = refl;
      })
    ]

place_closed-IsInstalled :
    (source : SelectionSource) (full_budget : ℕ) (turn : SelectionTurn) (steps : StepEdges)
    (ranges : List PartRange) (point : ℕ) (closed_at : Option ℕ)
    → is_closed turn ≡ true
    → IsInstalled (place_closed source full_budget turn steps ranges point closed_at)
place_closed-IsInstalled source full_budget turn steps ranges point none c =
    nothing-IsInstalled point
place_closed-IsInstalled source full_budget turn steps ranges point (some closed_at) c =
    if-cases IsInstalled (leb full_budget (100 * source.message_tokens_after closed_at))
      (record { point = point; settling = some turn; plan = none })
      (keep_parts turn steps ranges point (edge_option steps.steps (last_to_step ranges)))
      (λ _. record { edge = refl; settled = c; exclusive = ground (arith, c) })
      (λ _. keep_parts-IsInstalled turn steps ranges point (last_to_step ranges) refl)

place_installed-IsInstalled :
    (source : SelectionSource) (parts : PartsSource) (full_budget point : ℕ)
    (ranges : List PartRange) (turn : Option SelectionTurn)
    → IsInstalled (place_installed source parts full_budget point ranges turn)
place_installed-IsInstalled source parts full_budget point ranges none = nothing-IsInstalled point
place_installed-IsInstalled source parts full_budget point ranges (some turn) =
    if-cases IsInstalled (is_closed turn && not (is_nil ranges))
      (place_closed source full_budget turn (parts.turn_steps turn.turn_id) ranges point
        turn.closed_at)
      (nothing_placed point)
      (λ e.
        place_closed-IsInstalled source full_budget turn (parts.turn_steps turn.turn_id) ranges
          point turn.closed_at (ground (arith, e)))
      (λ _. nothing-IsInstalled point)

pub installed_placing-IsInstalled :
    (source : SelectionSource) (parts : PartsSource) (full_budget point : ℕ)
    (installed : Option InstalledTransition)
    → IsInstalled (installed_placing source parts full_budget point installed)
installed_placing-IsInstalled source parts full_budget point none = nothing-IsInstalled point
installed_placing-IsInstalled source parts full_budget point (some installed) =
    place_installed-IsInstalled source parts full_budget point installed.parts
      (turn_by_id source.turns installed.turn_id)
