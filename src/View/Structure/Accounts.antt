-- ===== src/View/Structure/Accounts.antt =====
-- What becomes of a chunk row.
use long_horizon_context.Base.{
  is_nil, ◌≡◌, refl, String, Bool, true, false, ◌||◌, List, [], ◌∷◌, map, filter, any, any-append,
  str_eq, eq_iff, arith, All, All-map, Bool-cases, inl, inr,
}
use long_horizon_context.View.{SelectionChunk}
use long_horizon_context.View.Structure.{
  TurnChunkStructure, ChunkStructureRow, SkippedRecord, ShapedTurns, ShapedChunks, has_id,
  dangling_members, dangling_member, is_live_row, shape_row, shape_rows, shape_chunks,
}

-- Every member has a turn row, and some member is live.
pub record IsReadable (shaped : ShapedTurns) (chunk : SelectionChunk) : Type 0 where
  pub known : All (λ id. has_id shaped.turn_ids id ≡ true) chunk.member_turn_ids
  pub live : any (has_id shaped.live_turn_ids) chunk.member_turn_ids ≡ true

abbrev pub is_dangling_in : String → SkippedRecord → Bool
is_dangling_in chunk_id (SkippedRecord.orphaned_message _ _ _) = false
is_dangling_in chunk_id (SkippedRecord.dangling_chunk_member other _ _) = str_eq other chunk_id

-- The row is a chunk, or an empty chunk, or has a record of a dangling member.
abbrev pub is_accounted : ShapedChunks → ChunkStructureRow → Bool
is_accounted out row =
    any (λ chunk. str_eq chunk.chunk_id row.chunk_id) out.chunks
    || has_id out.empty_chunk_ids row.chunk_id
    || any (is_dangling_in row.chunk_id) out.skipped_records

filter-holds {ℓ} : {A : Type ℓ} (p : A → Bool) (xs : List A) → All (λ x. p x ≡ true) (filter p xs)
filter-holds p [] = tt
filter-holds p (x ∷ xs) = elim (Bool-cases (p x)) [
  | inl e ↦ rw e (e, filter-holds p xs)
  | inr e ↦ rw e (filter-holds p xs)
]

-- The two fields of what a row gives that a reader sees.
abbrev IsAllReadable : ShapedTurns → ShapedChunks → Type 0
IsAllReadable shaped out = All (IsReadable shaped) out.chunks

shape_row-IsReadable :
    (shaped : ShapedTurns) (row : ChunkStructureRow) (rest : ShapedChunks)
    → IsAllReadable shaped rest
    → IsAllReadable shaped (shape_row shaped row rest)
unfolding shape_row
shape_row-IsReadable shaped row rest h = elim (Bool-cases (is_live_row shaped row)) [
  | inl e ↦
      rw (shape_row, e)
        (record { known = filter-holds (has_id shaped.turn_ids) row.member_turn_ids; live = e }, h)
  | inr e ↦
      rw (shape_row, e)
        (elim (Bool-cases (is_nil (dangling_members shaped row.member_turn_ids))) [
          | inl n ↦ rw n h
          | inr n ↦ rw n h
        ])
]

shape_rows-IsReadable :
    (shaped : ShapedTurns) (rows : List ChunkStructureRow)
    → IsAllReadable shaped (shape_rows shaped rows)
unfolding shape_rows
shape_rows-IsReadable shaped [] = tt
shape_rows-IsReadable shaped (row ∷ rows) =
    shape_row-IsReadable shaped row (shape_rows shaped rows) (shape_rows-IsReadable shaped rows)

str_eq_self : (s : String) → str_eq s s ≡ true
str_eq_self s = (eq_iff s s).1 refl

shape_row-is_accounted :
    (shaped : ShapedTurns) (row : ChunkStructureRow) (rest : ShapedChunks)
    → is_accounted (shape_row shaped row rest) row ≡ true
unfolding shape_row dangling_member
shape_row-is_accounted shaped row rest = ground (arith, str_eq_self row.chunk_id)

shape_row-keeps :
    (shaped : ShapedTurns) (row other : ChunkStructureRow) (rest : ShapedChunks)
    → is_accounted rest other ≡ true
    → is_accounted (shape_row shaped row rest) other ≡ true
unfolding shape_row
shape_row-keeps shaped row other rest h =
    let skipped =
      map (dangling_member row.chunk_id) (dangling_members shaped row.member_turn_ids) in
    ground (arith, h, any-append (is_dangling_in other.chunk_id) skipped rest.skipped_records)

shape_rows-is_accounted :
    (shaped : ShapedTurns) (rows : List ChunkStructureRow)
    → All (λ row. is_accounted (shape_rows shaped rows) row ≡ true) rows
unfolding shape_rows
shape_rows-is_accounted shaped [] = tt
shape_rows-is_accounted shaped (row ∷ rows) =
    let rest = shape_rows shaped rows in
    (
      shape_row-is_accounted shaped row rest,
      All-map (λ other. is_accounted rest other ≡ true)
          (λ other. is_accounted (shape_row shaped row rest) other ≡ true)
          (λ other. shape_row-keeps shaped row other rest) rows
          (shape_rows-is_accounted shaped rows),
    )

-- Every chunk that a view selects from has only members with a turn row, one of them live; and every
-- row of the record is such a chunk, or is named as an empty chunk, or has a record of a member
-- without a turn row.
pub shape_chunks-is_accounted :
    (structure : TurnChunkStructure) (shaped : ShapedTurns)
    → All (IsReadable shaped) (shape_chunks structure shaped).chunks
      × All (λ row. is_accounted (shape_chunks structure shaped) row ≡ true) structure.chunks
unfolding shape_chunks
shape_chunks-is_accounted structure shaped =
    (shape_rows-IsReadable shaped structure.chunks, shape_rows-is_accounted shaped structure.chunks)
