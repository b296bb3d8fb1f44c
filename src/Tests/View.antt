-- ===== src/Tests/View.antt =====
-- A concrete thread of three turns and its chunks.
use long_horizon_context.Base.{
  ℕ, ◌≤◌, ◌≡◌, refl, Option, String, true, false, none, some, List, [], ◌∷◌, All,
}
use long_horizon_context.View.{
  Status, SelectionMessage, SelectionTurn, ArrangementEntry, Band, SubjectKind, Percentages,
  SelectionConfig,
}
use long_horizon_context.View.Bands.{fill_band, Crossing, cascade}
use long_horizon_context.View.Bands.Fill.{
  IsFitting, fill_band-IsFitting, IsPrefix, fill_band-IsPrefix,
}
use long_horizon_context.View.Bands.Skim.{IsSkimmed, fill_band-IsSkimmed}
use long_horizon_context.View.Bands.Shares.{IsCascaded, cascade-IsCascaded}
use long_horizon_context.View.Source.{crossing_message, eager_selection_source, SelectionSource}
use long_horizon_context.View.Source.Crossings.{IsCrossing, crossing_message-IsCrossing}
use long_horizon_context.View.Point.{compact_point}
use long_horizon_context.View.Point.Boundary.{compact_point_bounded}
use long_horizon_context.View.Structure.{TurnChunkStructure, shape_turns, shape_chunks}
use long_horizon_context.View.Structure.Accounts.{
  IsReadable, is_accounted, shape_chunks-is_accounted,
}
use long_horizon_context.View.Preview.{
  ToolResultRow, Stored, PreviewOptions, preview_protected_visibility_boundary,
}
use long_horizon_context.View.Preview.Kept.{IsKept, preview_protected_visibility_boundary-IsKept}
use long_horizon_context.Steps.{StepMember, step_edges}
use long_horizon_context.View.Parts.{PartsSource, Placing, place}
use long_horizon_context.View.Parts.Placed.{IsAnswered, place-IsAnswered}

abbrev message : ℕ → ℕ → String → SelectionMessage
message order tokens turn_id = record {
  message_id = "m";
  order = order;
  kind = "assistant_text";
  token_estimate = tokens;
  turn_id = turn_id;
  text = "x";
}

abbrev messages : List SelectionMessage
messages = message 1 40 "t1" ∷ message 3 50 "t2" ∷ message 4 30 "t2" ∷ message 6 20 "t3" ∷ []

abbrev turns : List SelectionTurn
turns =
    record {
      turn_id = "t1";
      turn_order = 1;
      status = Status.closed_status;
      opened_at = 1;
      closed_at = some 2;
    }
    ∷ record {
      turn_id = "t2";
      turn_order = 2;
      status = Status.closed_status;
      opened_at = 3;
      closed_at = some 5;
    }
    ∷ record {
      turn_id = "t3";
      turn_order = 3;
      status = Status.open_status;
      opened_at = 6;
      closed_at = none;
    }
    ∷ []

abbrev percentages : Percentages
percentages = record { full = 40; smooth = 30; detailed = 20; brief = 10 }

abbrev config : SelectionConfig
config = record { lower_bound = 100; percentages = percentages; compact_point_upper_bound = none }

abbrev bounded : SelectionConfig
bounded = record config { compact_point_upper_bound = some 4 }

abbrev source : SelectionSource
source = eager_selection_source messages turns []

point : compact_point source config false ≡ 5
unfolding compact_point eager_selection_source
point = refl

lowered : compact_point source bounded false ≡ 2
unfolding compact_point eager_selection_source
lowered = refl

compact_point_bounded_example : compact_point source bounded false ≤ 4
compact_point_bounded_example = compact_point_bounded source bounded false 4 refl

crossing_message-IsCrossing_example : IsCrossing messages 4000 (crossing_message messages 4000)
crossing_message-IsCrossing_example = crossing_message-IsCrossing messages 4000

abbrev entry : ℕ → ArrangementEntry
entry tokens = record {
  band = Band.smooth;
  subject_kind = SubjectKind.turn;
  subject_id = "t";
  derivation_used = "turn_rendering";
  degraded = false;
  gap = false;
  reason = none;
  start_order = 1;
  text = "x";
  tokens = tokens;
  part = none;
}

abbrev candidates : List ℕ
candidates = 10 ∷ 30 ∷ 5 ∷ []

stopped : (fill_band candidates 2000 entry Crossing.stop true []).rest ≡ 30 ∷ 5 ∷ []
unfolding fill_band
stopped = refl

skipped_over : (fill_band candidates 2000 entry Crossing.skip true []).skipped ≡ entry 30 ∷ []
unfolding fill_band
skipped_over = refl

fill_band-IsFitting_example :
    IsFitting 2000 [] (fill_band candidates 2000 entry Crossing.skip true []).included
fill_band-IsFitting_example = fill_band-IsFitting candidates 2000 entry Crossing.skip true []

fill_band-IsPrefix_example :
    IsPrefix candidates 2000 entry true [] (fill_band candidates 2000 entry Crossing.stop true [])
fill_band-IsPrefix_example = fill_band-IsPrefix candidates 2000 entry true []

fill_band-IsSkimmed_example :
    IsSkimmed candidates 2000 entry [] (fill_band candidates 2000 entry Crossing.skip true [])
fill_band-IsSkimmed_example = fill_band-IsSkimmed candidates 2000 entry true []

cascade-IsCascaded_example : IsCascaded 100 percentages 4000 (cascade 100 percentages 4000)
cascade-IsCascaded_example = cascade-IsCascaded 100 percentages 4000

abbrev structure : TurnChunkStructure
structure = record {
  turns =
      record {
        turn_id = "t1";
        turn_order = 1;
        status = Status.closed_status;
        opened_at_event_order = 1;
        closed_at_event_order = some 2;
        deleted = false;
      }
      ∷ [];
  chunks =
      record {
        chunk_id = "c1";
        chunk_order = 1;
        status = Status.closed_status;
        member_turn_ids = "t1" ∷ "t9" ∷ [];
      }
      ∷ record {
        chunk_id = "c2";
        chunk_order = 2;
        status = Status.closed_status;
        member_turn_ids = [];
      }
      ∷ [];
}

shape_chunks-is_accounted_example :
    All (IsReadable (shape_turns structure)) (shape_chunks structure (shape_turns structure)).chunks
    × All
        (λ row. is_accounted (shape_chunks structure (shape_turns structure)) row ≡ true)
        structure.chunks
shape_chunks-is_accounted_example = shape_chunks-is_accounted structure (shape_turns structure)

abbrev result_row : ℕ → String → ℕ → ToolResultRow
result_row order id tokens = record {
  source_event_order = order;
  tool_call_id = id;
  token_estimate = tokens;
}

abbrev stored : Stored
stored = record {
  boundary_position = 3;
  snapshot_compact_point = some 2;
  live_tool_results =
      result_row 2 "c0" 5
      ∷ result_row 4 "c1" 50
      ∷ result_row 6 "c2" 40
      ∷ result_row 8 "c3" 30
      ∷ result_row 9 "c4" 20
      ∷ [];
}

abbrev options : PreviewOptions
options = record { target_zone_tokens = some 100; compact_point_override = none }

pruned_one :
    (preview_protected_visibility_boundary stored ("c3" ∷ []) options).proposed_boundary ≡ 4
unfolding preview_protected_visibility_boundary
pruned_one = refl

preview_protected_visibility_boundary-IsKept_example :
    IsKept stored
      ("c3" ∷ [])
      (some 100)
      (preview_protected_visibility_boundary stored ("c3" ∷ []) options)
preview_protected_visibility_boundary-IsKept_example =
    preview_protected_visibility_boundary-IsKept stored ("c3" ∷ []) options

abbrev member : String → ℕ → ℕ → StepMember
member id order index = record {
  message_id = id;
  order = order;
  kind = "assistant_text";
  step_index = some index;
  tool_call_id = none;
}

-- The open turn `t3` has three steps.
abbrev members : String → List StepMember
members id = member "a" 6 0 ∷ member "b" 7 1 ∷ member "c" 8 2 ∷ []

abbrev long_messages : List SelectionMessage
long_messages =
    message 1 40 "t1"
    ∷ message 3 50 "t2"
    ∷ message 6 60 "t3"
    ∷ message 7 30 "t3"
    ∷ message 8 20 "t3"
    ∷ []

abbrev long_source : SelectionSource
long_source = eager_selection_source long_messages turns []

abbrev parts : PartsSource
parts = record { installed = none; turn_steps = λ id. step_edges (members id) }

place-IsAnswered_example : IsAnswered config none (place long_source (some parts) config)
place-IsAnswered_example = place-IsAnswered long_source none members config

abbrev point_of : Option Placing → ℕ
point_of none = 0
point_of (some p) = p.point

-- The newest of the messages up to the full budget lie behind the second step.
placed_point : point_of (place long_source (some parts) config) ≡ 7
unfolding place eager_selection_source step_edges
placed_point = refl
