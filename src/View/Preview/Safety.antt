-- ===== src/View/Preview/Safety.antt =====
-- What a proposed boundary keeps.
use long_horizon_context.Base.{
  ℕ, ◌+◌, ◌≤◌, ◌<◌, ◌≡◌, refl, Bool, false, Option, none, some, List, [], ◌∷◌, ltb, if◌then◌else◌,
  filter, arith, All,
}
use long_horizon_context.View.Preview.{
  ToolResultRow, rows_after, estimates, earliest_from, reaches, clamp, is_remaining, is_pruned,
}

abbrev pub IsAfter : ℕ → ToolResultRow → Type 0
IsAfter n r = n < r.source_event_order

-- The bound `e` is below every row: none stands for no bound.
abbrev pub IsBeforeOption : ℕ → Option ℕ → Type 0
IsBeforeOption n none = Unit
IsBeforeOption n (some e) = n < e

pub rows_after-IsAfter :
    (start : ℕ) (rows : List ToolResultRow) → All (IsAfter start) (rows_after start rows)
rows_after-IsAfter start [] = tt
rows_after-IsAfter start (r ∷ rows) = ground (arith, rows_after-IsAfter start rows)

pub filter-IsAfter :
    (n : ℕ) (p : ToolResultRow → Bool) (rows : List ToolResultRow)
    → All (IsAfter n) rows
    → All (IsAfter n) (filter p rows)
filter-IsAfter n p [] h = tt
filter-IsAfter n p (r ∷ rows) h = ground (arith, h, filter-IsAfter n p rows)

pub earliest_from-IsAfter :
    (n : ℕ) (e : Option ℕ) (rows : List ToolResultRow)
    → IsBeforeOption n e
    → All (IsAfter n) rows
    → IsBeforeOption n (earliest_from e rows)
earliest_from-IsAfter n e [] h g = h
earliest_from-IsAfter n none (r ∷ rows) h g =
    earliest_from-IsAfter n (some r.source_event_order) rows g.0 g.1
earliest_from-IsAfter n (some e) (r ∷ rows) h g =
    earliest_from-IsAfter n (some (if ltb r.source_event_order e then r.source_event_order else e))
      rows (ground (arith, h, g.0)) g.1

-- Below the earliest is below all.
pub earliest-IsLeast :
    (n : ℕ) (e : Option ℕ) (rows : List ToolResultRow)
    → reaches n (earliest_from e rows) ≡ false
    → All (IsAfter n) rows × (reaches n e ≡ false)
earliest-IsLeast n e [] h = (tt, h)
earliest-IsLeast n none (r ∷ rows) h =
    let rest = earliest-IsLeast n (some r.source_event_order) rows h in
    ((ground (arith, rest.1), rest.0), refl)
earliest-IsLeast n (some e) (r ∷ rows) h =
    let rest =
      earliest-IsLeast n (some (if ltb r.source_event_order e then r.source_event_order else e))
        rows h in
    ((ground (arith, rest.1), rest.0), ground (arith, rest.1))

-- A boundary that is clamped stays below the earliest protected row, where the boundary before was.
clamp-below :
    (previous : ℕ) (earliest : Option ℕ) (boundary : ℕ)
    → IsBeforeOption previous earliest
    → reaches (clamp previous earliest boundary) earliest ≡ false
clamp-below previous none boundary h = refl
clamp-below previous (some e) boundary h = ground (arith, h)

clamp-above :
    (previous : ℕ) (earliest : Option ℕ) (boundary : ℕ)
    → previous ≤ boundary
    → previous ≤ clamp previous earliest boundary
clamp-above previous none boundary h = h
clamp-above previous (some e) boundary h = ground (arith, h)

-- Rows behind the compact point are remaining or pruned.
pub parted_estimates :
    (proposed compact_point : ℕ) (rows : List ToolResultRow)
    → All (IsAfter compact_point) rows
    → estimates (filter (is_pruned proposed compact_point) rows)
        + estimates (filter (is_remaining proposed compact_point) rows)
      ≡ estimates rows
parted_estimates proposed compact_point [] h = refl
parted_estimates proposed compact_point (r ∷ rows) h =
    ground (arith, h, parted_estimates proposed compact_point rows)
