-- ===== src/View/Preview.antt =====
-- `previewProtectedVisibilityBoundary` of thread-view/internal/protected-boundary.ts.
--
-- The database is its three readings: the position of the boundary, the compact point of the stored
-- snapshot, and the rows of the live tool results with their weighed estimates. The savings of an
-- abridged row are computed by no caller and are left out.
pub mod Safety
pub mod Proposal
pub mod Legal
pub mod Kept
use long_horizon_context.Base.{
  ℕ, ◌+◌, ◌-◌, max, min, String, Bool, true, false, not, ◌&&◌, Option, none, some, List, [], ◌∷◌,
  ◌++◌, ltb, leb, ◌==◌, if◌then◌else◌, str_eq, is_empty, any, filter, or_else, is_nil,
}
use long_horizon_context.Contract.ToolIds.{normalize_protected_tool_call_ids}

pub record ToolResultRow : Type 0 where
  pub source_event_order : ℕ
  pub tool_call_id : String
  pub token_estimate : ℕ

pub record Stored : Type 0 where
  pub boundary_position : ℕ
  pub snapshot_compact_point : Option ℕ
  pub live_tool_results : List ToolResultRow

pub record PreviewOptions : Type 0 where
  pub target_zone_tokens : Option ℕ
  pub compact_point_override : Option ℕ

pub record ProtectedBoundaryPreview : Type 0 where
  pub previous_boundary : ℕ
  pub proposed_boundary : ℕ
  pub compact_point : ℕ
  pub effective_start : ℕ
  pub earliest_protected_result_order : Option ℕ
  pub max_legal_boundary : ℕ
  pub protected_tool_call_ids : List String
  pub full_protected_token_estimate : ℕ
  pub eligible_unprotected_token_estimate : ℕ
  pub pruned_unprotected_token_estimate : ℕ
  pub remaining_unprotected_full_token_estimate : ℕ
  pub zone_tokens_after_estimate : ℕ
  pub maximal_prune_insufficient : Bool
  pub no_op : Bool
  pub notes : List String

-- The rows behind the effective start, as the query selects them.
abbrev pub rows_after : ℕ → List ToolResultRow → List ToolResultRow
rows_after start rows = filter (λ r. ltb start r.source_event_order) rows

abbrev pub is_protected : List String → ToolResultRow → Bool
is_protected ids r = any (λ id. str_eq id r.tool_call_id) (filter (λ id. not (is_empty id)) ids)

abbrev pub estimates : List ToolResultRow → ℕ
estimates [] = 0
estimates (r ∷ rows) = r.token_estimate + estimates rows

-- The loop for `earliestProtectedResultOrder`.
abbrev pub earliest_from : Option ℕ → List ToolResultRow → Option ℕ
earliest_from e [] = e
earliest_from none (r ∷ rows) = earliest_from (some r.source_event_order) rows
earliest_from (some e) (r ∷ rows) =
    earliest_from (some (if ltb r.source_event_order e then r.source_event_order else e)) rows

abbrev highest_order : ℕ
highest_order = 9007199254740991

abbrev pub max_legal_of : Option ℕ → ℕ
max_legal_of none = highest_order
max_legal_of (some earliest) = earliest - 1

-- The loop for `maximalBoundary`.
unfoldable pub maximal_from : ℕ → ℕ → List ToolResultRow → ℕ
maximal_from max_legal boundary [] = boundary
maximal_from max_legal boundary (r ∷ rows) =
    maximal_from max_legal
      (if ltb boundary r.source_event_order && leb r.source_event_order max_legal
        then r.source_event_order
        else boundary)
      rows

abbrev pub reaches : ℕ → Option ℕ → Bool
reaches boundary none = false
reaches boundary (some earliest) = leb earliest boundary

-- `boundary >= earliest ? Math.max(previous, earliest - 1) : boundary`
abbrev pub clamp : ℕ → Option ℕ → ℕ → ℕ
clamp previous none boundary = boundary
clamp previous (some earliest) boundary =
    if leb earliest boundary then max previous (earliest - 1) else boundary

-- The three corrections of `maximalBoundary` behind its loop.
abbrev pub correct_maximal : ℕ → ℕ → Option ℕ → ℕ → ℕ
correct_maximal previous max_legal earliest boundary =
    let low = if ltb boundary previous then previous else boundary in
    let legal =
      if ltb max_legal low && leb previous max_legal
      then max previous (min low max_legal)
      else low in
    clamp previous earliest legal

-- `zoneFullAfter`
abbrev pub zone_full_after : List ToolResultRow → ℕ → ℕ → ℕ
zone_full_after rows compact_point boundary =
    estimates (filter (λ r. ltb (max boundary compact_point) r.source_event_order) rows)

-- The loop over the eligible rows, with a target for the zone.
unfoldable pub propose_from : (ℕ → ℕ) → ℕ → ℕ → Option ℕ → ℕ → List ToolResultRow → ℕ
propose_from zone target max_legal earliest proposed [] = proposed
propose_from zone target max_legal earliest proposed (r ∷ rows) =
    let order = r.source_event_order in
    let skip_row = propose_from zone target max_legal earliest proposed rows in
    let rest = propose_from zone target max_legal earliest order rows in
    if leb order proposed
    then skip_row
    else if ltb max_legal order
    then proposed
    else if reaches order earliest
    then proposed
    else if leb (zone order) target
    then order
    else rest

-- `proposedBoundary` before it is clamped
unfoldable pub propose : (ℕ → ℕ) → Option ℕ → ℕ → ℕ → ℕ → Option ℕ → List ToolResultRow → ℕ
unfolding propose_from
propose zone none previous maximal max_legal earliest eligible = maximal
propose zone (some target) previous maximal max_legal earliest eligible =
    if leb (zone previous) target
    then previous
    else propose_from zone target max_legal earliest previous eligible

abbrev pub note_if : Bool → String → List String
note_if true note = note ∷ []
note_if false note = []

abbrev pub is_insufficient : Option ℕ → ℕ → ℕ → Bool → Bool
is_insufficient none maximal_zone protected_tokens no_eligible =
    ltb 0 protected_tokens && no_eligible
is_insufficient (some target) maximal_zone protected_tokens no_eligible = ltb target maximal_zone

-- The rows that the loop behind the proposal counts as remaining, and as pruned.
abbrev pub is_remaining : ℕ → ℕ → ToolResultRow → Bool
is_remaining proposed compact_point r = ltb (max proposed compact_point) r.source_event_order

abbrev pub is_pruned : ℕ → ℕ → ToolResultRow → Bool
is_pruned proposed compact_point r =
    not (is_remaining proposed compact_point r)
    && ltb compact_point r.source_event_order
    && leb r.source_event_order proposed

-- What the last part of the code makes of the boundaries.
abbrev pub preview_of :
    (previous compact_point : ℕ)
    (rows protected_rows unprotected_rows eligible : List ToolResultRow) (ids : List String)
    (target earliest : Option ℕ) (maximal proposal : ℕ)
    → ProtectedBoundaryPreview
preview_of previous compact_point rows protected_rows unprotected_rows eligible ids target earliest
      maximal proposal =
    let low = if ltb proposal previous then previous else proposal in
    let proposed = clamp previous earliest low in
    let zone = zone_full_after rows compact_point in
    let final = clamp previous earliest proposed in
    record {
      previous_boundary = previous;
      proposed_boundary = final;
      compact_point = compact_point;
      effective_start = max previous compact_point;
      earliest_protected_result_order = earliest;
      max_legal_boundary = elim earliest [ none ↦ maximal | some e ↦ e - 1 ];
      protected_tool_call_ids = ids;
      full_protected_token_estimate = estimates protected_rows;
      eligible_unprotected_token_estimate = estimates unprotected_rows;
      pruned_unprotected_token_estimate =
          estimates (filter (is_pruned proposed compact_point) unprotected_rows);
      remaining_unprotected_full_token_estimate =
          estimates (filter (is_remaining proposed compact_point) unprotected_rows);
      zone_tokens_after_estimate = zone proposed;
      maximal_prune_insufficient =
          is_insufficient target (zone maximal) (estimates protected_rows) (is_nil eligible);
      no_op = final == previous;
      notes =
          note_if (reaches (max previous compact_point) earliest)
            "earliest protected result is at or behind effective start; no eligible older unprotected rows"
          ++ note_if (reaches low earliest)
              "clamped proposed boundary strictly before earliest protected result";
    }

-- `previewProtectedVisibilityBoundary`
unfoldable pub preview_protected_visibility_boundary :
    Stored → List String → PreviewOptions → ProtectedBoundaryPreview
unfolding maximal_from propose
preview_protected_visibility_boundary stored ids options =
    let compact_point =
      or_else options.compact_point_override (or_else stored.snapshot_compact_point 0) in
    let previous = stored.boundary_position in
    let rows = rows_after (max previous compact_point) stored.live_tool_results in
    let protected_rows = filter (is_protected ids) rows in
    let unprotected_rows = filter (λ r. not (is_protected ids r)) rows in
    let earliest = earliest_from none protected_rows in
    let max_legal = max_legal_of earliest in
    let eligible = filter (λ r. leb r.source_event_order max_legal) unprotected_rows in
    let maximal =
      correct_maximal previous max_legal earliest (maximal_from max_legal previous eligible) in
    preview_of previous compact_point rows protected_rows unprotected_rows eligible
      (normalize_protected_tool_call_ids ids) options.target_zone_tokens earliest maximal
      (propose (zone_full_after rows compact_point) options.target_zone_tokens previous maximal
        max_legal earliest eligible)
