-- ===== src/View/Structure.antt =====
-- thread-view/internal/selection-structure.ts: the turns and chunks that a view selects from. The
-- records that `shapeChunks` pushes to the caller's array are returned, in order.
pub mod Accounts
use long_horizon_context.Base.{
  is_nil, ℕ, String, Bool, true, false, not, Option, List, [], ◌∷◌, ◌++◌, map, filter, any, str_eq,
  if◌then◌else◌, ◌<>◌,
}
use long_horizon_context.View.{Status, SelectionTurn, SelectionChunk}

pub record TurnStructureRow : Type 0 where
  pub turn_id : String
  pub turn_order : ℕ
  pub status : Status
  pub opened_at_event_order : ℕ
  pub closed_at_event_order : Option ℕ
  pub deleted : Bool

pub record ChunkStructureRow : Type 0 where
  pub chunk_id : String
  pub chunk_order : ℕ
  pub status : Status
  pub member_turn_ids : List String

pub record TurnChunkStructure : Type 0 where
  pub turns : List TurnStructureRow
  pub chunks : List ChunkStructureRow

pub data SkippedRecord : Type 0 where
  orphaned_message : (message_id turn_id reason : String) → SkippedRecord
  dangling_chunk_member : (chunk_id turn_id reason : String) → SkippedRecord

pub record ShapedTurns : Type 0 where
  pub turns : List SelectionTurn
  pub turn_ids : List String
  pub live_turn_ids : List String

abbrev pub has_id : List String → String → Bool
has_id ids id = any (λ other. str_eq other id) ids

abbrev turn_of_row : TurnStructureRow → SelectionTurn
turn_of_row row = record {
  turn_id = row.turn_id;
  turn_order = row.turn_order;
  status = row.status;
  opened_at = row.opened_at_event_order;
  closed_at = row.closed_at_event_order;
}

-- `shapeTurns`; a set of ids is a list of them.
unfoldable pub shape_turns : TurnChunkStructure → ShapedTurns
shape_turns structure =
    let turns = map turn_of_row (filter (λ row. not row.deleted) structure.turns) in
    record {
      turns = turns;
      turn_ids = map (λ row. row.turn_id) structure.turns;
      live_turn_ids = map (λ turn. turn.turn_id) turns;
    }

pub record ShapedChunks : Type 0 where
  pub chunks : List SelectionChunk
  pub empty_chunk_ids : List String
  pub skipped_records : List SkippedRecord

unfoldable dangling_member : String → String → SkippedRecord
unfolding ◌<>◌
dangling_member chunk_id turn_id = SkippedRecord.dangling_chunk_member chunk_id turn_id (
    "chunk " <> chunk_id <> " has a member pointing at turn " <> turn_id
    <> ", which has no turn row")

-- The members of a row that have a turn row.
abbrev pub known_members : ShapedTurns → List String → List String
known_members shaped ids = filter (has_id shaped.turn_ids) ids

abbrev pub dangling_members : ShapedTurns → List String → List String
dangling_members shaped ids = filter (λ id. not (has_id shaped.turn_ids id)) ids

abbrev pub chunk_of_row : ShapedTurns → ChunkStructureRow → SelectionChunk
chunk_of_row shaped row = record {
  chunk_id = row.chunk_id;
  chunk_order = row.chunk_order;
  status = row.status;
  member_turn_ids = known_members shaped row.member_turn_ids;
}

abbrev pub is_live_row : ShapedTurns → ChunkStructureRow → Bool
is_live_row shaped row =
    any (has_id shaped.live_turn_ids) (known_members shaped row.member_turn_ids)

-- The body of the `flatMap`: the row in front of what the rows behind it give.
unfoldable shape_row : ShapedTurns → ChunkStructureRow → ShapedChunks → ShapedChunks
unfolding dangling_member
shape_row shaped row rest =
    let dangling = dangling_members shaped row.member_turn_ids in
    let skipped = map (dangling_member row.chunk_id) dangling ++ rest.skipped_records in
    if is_live_row shaped row
    then record rest { chunks = chunk_of_row shaped row ∷ rest.chunks; skipped_records = skipped }
    else if is_nil dangling
    then record rest {
      empty_chunk_ids = row.chunk_id ∷ rest.empty_chunk_ids;
      skipped_records = skipped;
    }
    else record rest { skipped_records = skipped }

unfoldable shape_rows : ShapedTurns → List ChunkStructureRow → ShapedChunks
unfolding shape_row
shape_rows shaped [] = record { chunks = []; empty_chunk_ids = []; skipped_records = [] }
shape_rows shaped (row ∷ rows) = shape_row shaped row (shape_rows shaped rows)

-- `shapeChunks`
unfoldable pub shape_chunks : TurnChunkStructure → ShapedTurns → ShapedChunks
unfolding shape_rows
shape_chunks structure shaped = shape_rows shaped structure.chunks

-- `orphanedMessageSkip`
unfoldable pub orphaned_message_skip : String → String → SkippedRecord
unfolding ◌<>◌
orphaned_message_skip message_id turn_id =
    SkippedRecord.orphaned_message message_id turn_id
      ("message " <> message_id <> " points at turn " <> turn_id <> ", which is not a live turn")
