-- ===== src/View/Parts.antt =====
-- The turn parts that `walkArrangement` of thread-view/internal/walk.ts places: which turn settles,
-- and which steps of a turn are summarized in front of its rest. An exception is `none`: the one for
-- installed parts under an upper bound, and a read past the end of an array of steps.
pub mod Lookups
pub mod Installed
pub mod Placed
pub mod Seams
use long_horizon_context.Base.{
  ℕ, zero, suc, ◌+◌, ◌-◌, ◌*◌, max, String, Bool, true, false, not, ◌&&◌, Option, none, some, List,
  [], ◌∷◌, ◌++◌, ltb, leb, ◌==◌, if◌then◌else◌, str_eq, find, or_else, is_some, get_last?, is_nil,
  filter,
}
use long_horizon_context.Steps.{StepRange, StepEdges}
use long_horizon_context.View.{SelectionTurn, PartRange, SelectionConfig}
use long_horizon_context.View.Source.{SelectionSource, Crossed}
use long_horizon_context.View.Point.{is_closed, turn_by_id, crossing_of, compact_point}

pub record InstalledTransition : Type 0 where
  pub turn_id : String
  pub parts : List PartRange

-- The two members of `PartsSource` that the placing reads.
pub record PartsSource : Type 0 where
  pub installed : Option InstalledTransition
  pub turn_steps : String → StepEdges

pub record PartsPlan : Type 0 where
  pub turn : SelectionTurn
  pub steps : StepEdges
  pub ranges : List PartRange

pub record Placing : Type 0 where
  pub point : ℕ
  pub settling : Option SelectionTurn
  pub plan : Option PartsPlan

-- `ordinalThrough`
abbrev pub ordinal_through : List StepRange → ℕ → ℕ
ordinal_through [] to_step = 0
ordinal_through (s ∷ steps) to_step =
    let rest = ordinal_through steps to_step in
    if s.index == to_step then 1 else if rest == 0 then 0 else suc rest

abbrev pub step_at : List StepRange → ℕ → Option StepRange
step_at [] k = none
step_at (s ∷ steps) zero = some s
step_at (s ∷ steps) (suc k) = step_at steps k

-- `steps.find((step) => step.index === toStep)?.lastOrder`
abbrev pub edge_of : List StepRange → ℕ → Option ℕ
edge_of [] to_step = none
edge_of (s ∷ steps) to_step =
    let rest = edge_of steps to_step in if s.index == to_step then some s.last_order else rest

-- The loop for `kComputed`: the first of `left` steps from number `k` on behind which the messages
-- fit, and the greatest number where none is.
abbrev pub compute_from : (ℕ → ℕ) → ℕ → ℕ → ℕ → ℕ → List StepRange → Option ℕ
compute_from tokens_after full_budget k_max k zero steps = some k_max
compute_from tokens_after full_budget k_max k (suc left) [] = none
compute_from tokens_after full_budget k_max k (suc left) (s ∷ steps) =
    let rest = compute_from tokens_after full_budget k_max (suc k) left steps in
    if leb (100 * tokens_after s.last_order) full_budget then some k else rest

abbrev pub crosses : Option Crossed → SelectionTurn → Bool
crosses none turn = false
crosses (some crossed) turn = str_eq crossed.turn_id turn.turn_id

abbrev pub computed :
    SelectionSource → ℕ → Option Crossed → SelectionTurn → List StepRange → ℕ → Option ℕ
computed source full_budget crossing turn steps k_max =
    if crosses crossing turn && ltb 0 k_max
    then compute_from source.message_tokens_after full_budget k_max 1 k_max steps
    else some 0

abbrev pub last_to_step : List PartRange → Option ℕ
last_to_step parts = elim (get_last? parts) [ none ↦ none | some range ↦ some range.to_step ]

-- The parts that are installed of a turn; `prior` is null where there are none.
abbrev pub prior_parts : PartsSource → SelectionTurn → List PartRange
prior_parts source turn = elim source.installed [
  | none ↦ []
  | some installed ↦ if str_eq installed.turn_id turn.turn_id then installed.parts else []
]

abbrev pub ordinal_of : List StepRange → Option ℕ → ℕ
ordinal_of steps none = 0
ordinal_of steps (some to_step) = ordinal_through steps to_step

abbrev pub prior_ordinal : List StepRange → List PartRange → ℕ
prior_ordinal steps parts = ordinal_of steps (last_to_step parts)

abbrev pub k_max_of : StepEdges → ℕ → ℕ
k_max_of steps prior_k = if steps.splittable then or_else steps.last_edge 0 else prior_k

-- The parts up to step number `k`, behind `prior_k` steps that have parts.
abbrev pub ranges_up_to :
    List StepRange → List PartRange → ℕ → StepRange → ℕ → Option (List PartRange)
ranges_up_to steps prior prior_k last k =
    if ltb prior_k k
    then elim (step_at steps prior_k) [
      | none ↦ none
      | some first ↦ some (prior ++ (record { from_step = first.index; to_step = last.index } ∷ []))
    ]
    else some prior

abbrev pub plan_up_to :
    SelectionTurn → StepEdges → List PartRange → ℕ → Option SelectionTurn → ℕ → ℕ → Option Placing
plan_up_to turn steps prior prior_k settling point zero =
    some (record { point = point; settling = settling; plan = none })
plan_up_to turn steps prior prior_k settling point (suc k) = elim (step_at steps.steps k) [
  | none ↦ none
  | some last ↦ elim (ranges_up_to steps.steps prior prior_k last (suc k)) [
    | none ↦ none
    | some ranges ↦ some (record {
      point = last.last_order;
      settling = settling;
      plan = some (record { turn = turn; steps = steps; ranges = ranges });
    })
  ]
]

-- The parts of the open turn.
unfoldable pub place_open :
    SelectionSource
    → PartsSource
    → ℕ
    → Option Crossed
    → SelectionTurn
    → Option SelectionTurn
    → ℕ
    → Option Placing
place_open source parts full_budget crossing turn settling point =
    let steps = parts.turn_steps turn.turn_id in
    let prior = prior_parts parts turn in
    let prior_k = prior_ordinal steps.steps prior in
    elim (computed source full_budget crossing turn steps.steps (k_max_of steps prior_k)) [
      | none ↦ none
      | some k ↦ plan_up_to turn steps prior prior_k settling point (max k prior_k)
    ]

abbrev pub edge_option : List StepRange → Option ℕ → Option ℕ
edge_option steps none = none
edge_option steps (some to_step) = edge_of steps to_step

abbrev pub nothing_placed : ℕ → Placing
nothing_placed point = record { point = point; settling = none; plan = none }

-- The installed parts are kept where their last step, `installedEdge`, is known.
abbrev pub keep_parts : SelectionTurn → StepEdges → List PartRange → ℕ → Option ℕ → Placing
keep_parts turn steps ranges point none = nothing_placed point
keep_parts turn steps ranges point (some edge) = record {
  point = edge;
  settling = none;
  plan = some (record { turn = turn; steps = steps; ranges = ranges });
}

-- What becomes of installed parts whose turn was closed at an order.
abbrev pub place_closed :
    SelectionSource → ℕ → SelectionTurn → StepEdges → List PartRange → ℕ → Option ℕ → Placing
place_closed source full_budget turn steps ranges point none = nothing_placed point
place_closed source full_budget turn steps ranges point (some closed_at) =
    if leb full_budget (100 * source.message_tokens_after closed_at)
    then record { point = point; settling = some turn; plan = none }
    else keep_parts turn steps ranges point (edge_option steps.steps (last_to_step ranges))

abbrev pub place_installed :
    SelectionSource → PartsSource → ℕ → ℕ → List PartRange → Option SelectionTurn → Placing
place_installed source parts full_budget point ranges none = nothing_placed point
place_installed source parts full_budget point ranges (some turn) =
    if is_closed turn && not (is_nil ranges)
    then place_closed source full_budget turn (parts.turn_steps turn.turn_id) ranges point
        turn.closed_at
    else nothing_placed point

abbrev pub installed_placing :
    SelectionSource → PartsSource → ℕ → ℕ → Option InstalledTransition → Placing
installed_placing source parts full_budget point none = nothing_placed point
installed_placing source parts full_budget point (some installed) =
    place_installed source parts full_budget point installed.parts
      (turn_by_id source.turns installed.turn_id)

-- The parts of the open turn, if there is one.
unfoldable pub place_next :
    SelectionSource
    → PartsSource
    → ℕ
    → Option Crossed
    → Placing
    → Option SelectionTurn
    → Option Placing
unfolding place_open
place_next source parts full_budget crossing installed none = some installed
place_next source parts full_budget crossing installed (some turn) =
    place_open source parts full_budget crossing turn installed.settling installed.point

unfoldable pub place_parts : SelectionSource → PartsSource → ℕ → Option Crossed → ℕ → Option Placing
unfolding place_next
place_parts source parts full_budget crossing point =
    let installed = installed_placing source parts full_budget point parts.installed in
    elim installed.plan [
      | some _ ↦ some installed
      | none ↦
          place_next source parts full_budget crossing installed
            (find (λ t. not (is_closed t)) source.turns)
    ]

abbrev pub has_installed : Option PartsSource → Bool
has_installed none = false
has_installed (some parts) = is_some parts.installed

-- The compact point, with the parts of a source that has them.
abbrev pub place_with : SelectionSource → Option PartsSource → SelectionConfig → Option Placing
place_with source none config = some (nothing_placed (compact_point source config false))
place_with source (some parts) config =
    let full_budget = config.lower_bound * config.percentages.full in
    place_parts source parts full_budget
      (crossing_of source (filter is_closed source.turns) full_budget true)
      (compact_point source config true)

-- The compact point with its parts: where the caller gives an upper bound, no parts are placed, and
-- an installed transition is an error.
unfoldable pub place : SelectionSource → Option PartsSource → SelectionConfig → Option Placing
unfolding place_parts crossing_of compact_point
place source parts config = elim config.compact_point_upper_bound [
  | none ↦ place_with source parts config
  | some _ ↦ if has_installed parts then none else place_with source none config
]
