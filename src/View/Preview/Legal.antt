-- ===== src/View/Preview/Legal.antt =====
-- The zone behind the boundaries that are legal, and behind the maximal one.
use long_horizon_context.Base.{
  ℕ, ◌≤◌, ◌<◌, ◌≡◌, Bool, true, false, not, ◌&&◌, Option, none, some, List, [], ◌∷◌, ltb, leb,
  filter, arith, All, Bool-cases, inl, inr, ◌⊎◌,
}
use long_horizon_context.View.Preview.{
  ToolResultRow, earliest_from, max_legal_of, maximal_from, zone_full_after,
}
use long_horizon_context.View.Preview.Safety.{IsAfter, IsBeforeOption, earliest_from-IsAfter}
use long_horizon_context.View.Preview.Proposal.{IsUpTo, maximal_from-bounded}

-- All of the rows lie behind the boundary.
abbrev pub is_spared : ℕ → List ToolResultRow → Bool
is_spared boundary [] = true
is_spared boundary (r ∷ rows) = ltb boundary r.source_event_order && is_spared boundary rows

-- A boundary that moves back, or is no safe order, or prunes a protected row.
abbrev pub IsIllegal : ℕ → List ToolResultRow → ℕ → Type 0
IsIllegal previous protected_rows boundary =
    (boundary < previous)
    ⊎ (9007199254740991 < boundary)
    ⊎ (is_spared boundary protected_rows ≡ false)

-- The row is not behind `m`, or is behind `b`.
abbrev IsCovered : ℕ → ℕ → ToolResultRow → Type 0
IsCovered m b r = (r.source_event_order ≤ m) ⊎ (b < r.source_event_order)

spared-IsAfter :
    (b : ℕ) (rows : List ToolResultRow) → is_spared b rows ≡ true → All (IsAfter b) rows
spared-IsAfter b [] h = tt
spared-IsAfter b (r ∷ rows) h = ground (arith, h, spared-IsAfter b rows)

zone-covered :
    (m b compact_point : ℕ) (rows : List ToolResultRow)
    → All (IsCovered m b) rows
    → zone_full_after rows compact_point m ≤ zone_full_after rows compact_point b
zone-covered m b compact_point [] h = omega arith
zone-covered m b compact_point (r ∷ rows) h = ground (arith, h, zone-covered m b compact_point rows)

rows-IsCovered :
    (p : ToolResultRow → Bool) (legal m b : ℕ) (rows : List ToolResultRow)
    → b ≤ legal
    → All (IsAfter b) (filter p rows)
    → All (IsUpTo m) (filter (λ r. leb r.source_event_order legal) (filter (λ r. not (p r)) rows))
    → All (IsCovered m b) rows
rows-IsCovered p legal m b [] l h k = tt
rows-IsCovered p legal m b (r ∷ rows) l h k =
    ground (arith, l, h, k, rows-IsCovered p legal m b rows l)

maximal_from-IsUpTo :
    (legal boundary : ℕ) (rows : List ToolResultRow)
    → All (IsUpTo legal) rows
    → All (IsUpTo (maximal_from legal boundary rows)) rows
unfolding maximal_from
maximal_from-IsUpTo legal boundary [] h = tt
maximal_from-IsUpTo legal boundary (r ∷ rows) h = ground (
  arith,
  h,
  maximal_from-IsUpTo legal boundary rows,
  maximal_from-IsUpTo legal r.source_event_order rows,
  maximal_from-bounded legal boundary rows,
  maximal_from-bounded legal r.source_event_order rows,
)

before-legal :
    (b : ℕ) (earliest : Option ℕ)
    → b ≤ 9007199254740991
    → IsBeforeOption b earliest
    → b ≤ max_legal_of earliest
before-legal b none l h = l
before-legal b (some e) l h = omega (arith, h)

-- No legal boundary leaves less than the maximal one.
pub zone_of_legal :
    (p : ToolResultRow → Bool) (compact_point previous target : ℕ) (rows : List ToolResultRow)
    → let earliest = earliest_from none (filter p rows) in
      let eligible =
        filter
          (λ r. leb r.source_event_order (max_legal_of earliest))
          (filter (λ r. not (p r)) rows) in
      All (IsUpTo (max_legal_of earliest)) eligible
      → target
        < zone_full_after rows compact_point
            (maximal_from (max_legal_of earliest) previous eligible)
      → (b : ℕ)
      → IsIllegal previous (filter p rows) b ⊎ (target < zone_full_after rows compact_point b)
zone_of_legal p compact_point previous target rows u t b =
    let earliest = earliest_from none (filter p rows) in
    let legal = max_legal_of earliest in
    elim (Bool-cases (leb b 9007199254740991)) [
      | inr f ↦ inl (inr (inl (ground (arith, f))))
      | inl f ↦ elim (Bool-cases (is_spared b (filter p rows))) [
        | inr g ↦ inl (inr (inr g))
        | inl g ↦
            let after = spared-IsAfter b (filter p rows) g in
            let bound : b ≤ legal =
              before-legal b earliest (ground (arith, f))
                (earliest_from-IsAfter b none (filter p rows) tt after) in
            let least = zone-covered _ b compact_point rows (
              rows-IsCovered p legal _ b rows bound after
                (maximal_from-IsUpTo legal previous _ u)) in
            inr (omega (arith, t, least))
      ]
    ]
