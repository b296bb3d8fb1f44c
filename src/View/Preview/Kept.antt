-- ===== src/View/Preview/Kept.antt =====
-- What a preview keeps of the boundary, the protected results and the target.
use long_horizon_context.Base.{
  ℕ, ◌+◌, ◌≤◌, ◌<◌, ◌≡◌, Bool-cases, inl, inr, refl, sym, subst, max, String, Bool, true, false,
  not, Option, none, some, List, [], ◌∷◌, ◌++◌, ltb, leb, if◌then◌else◌, filter, or_else, arith,
  All, is_nil, ◌⊎◌,
}
use long_horizon_context.View.Preview.{
  ToolResultRow, Stored, PreviewOptions, ProtectedBoundaryPreview, rows_after, is_protected,
  estimates, earliest_from, max_legal_of, maximal_from, reaches, clamp, correct_maximal,
  zone_full_after, propose, is_insufficient, note_if, preview_protected_visibility_boundary,
}
use long_horizon_context.View.Preview.Safety.{
  IsAfter, IsBeforeOption, rows_after-IsAfter, filter-IsAfter, earliest_from-IsAfter,
  earliest-IsLeast, parted_estimates,
}
use long_horizon_context.View.Preview.Legal.{IsIllegal, zone_of_legal}
use long_horizon_context.View.Preview.Proposal.{IsUpTo, IsMet, propose_lem, correct_maximal_lem}

-- With a target, the zone behind the boundary is within it, or every legal boundary leaves more.
abbrev pub IsReached : ℕ → List ToolResultRow → (ℕ → ℕ) → Option ℕ → ℕ → Bool → Type 0
IsReached previous protected_rows zone_behind none zone insufficient = Unit
IsReached previous protected_rows zone_behind (some target) zone insufficient =
    ((insufficient ≡ false) × (zone ≤ target))
    ⊎ ((insufficient ≡ true)
        × ((b : ℕ) → IsIllegal previous protected_rows b ⊎ (target < zone_behind b)))

-- The protected results are those behind the effective start whose call id is protected.
pub record IsKept (stored : Stored) (ids : List String) (target : Option ℕ)
    (p : ProtectedBoundaryPreview) : Type 0 where
  pub forward : stored.boundary_position ≤ p.proposed_boundary
  pub spared :
      All
        (IsAfter p.proposed_boundary)
        (filter (is_protected ids) (rows_after p.effective_start stored.live_tool_results))
  pub accounted :
      p.pruned_unprotected_token_estimate + p.remaining_unprotected_full_token_estimate
      ≡ p.eligible_unprotected_token_estimate
  pub reached :
      IsReached stored.boundary_position
        (filter (is_protected ids) (rows_after p.effective_start stored.live_tool_results))
        (zone_full_after (rows_after p.effective_start stored.live_tool_results) p.compact_point)
        target
        p.zone_tokens_after_estimate
        p.maximal_prune_insufficient
  pub quiet : p.notes ≡ []

filter-IsUpTo :
    (n : ℕ) (rows : List ToolResultRow)
    → All (IsUpTo n) (filter (λ r. leb r.source_event_order n) rows)
filter-IsUpTo n [] = tt
filter-IsUpTo n (r ∷ rows) = ground (arith, filter-IsUpTo n rows)

clamp-IsSame :
    (previous : ℕ) (earliest : Option ℕ) (boundary : ℕ)
    → reaches boundary earliest ≡ false
    → clamp previous earliest boundary ≡ boundary
clamp-IsSame previous none boundary e = refl
clamp-IsSame previous (some f) boundary e = ground (arith, e)

not_below :
    (previous boundary : ℕ)
    → previous ≤ boundary
    → (if ltb boundary previous then previous else boundary) ≡ boundary
not_below previous boundary h = ground (arith, h)

-- The preview of a proposal that nothing corrects.
final_boundary :
    (previous : ℕ) (earliest : Option ℕ) (p : ℕ)
    → previous ≤ p
    → reaches p earliest ≡ false
    → let low = if ltb p previous then previous else p in
      (low ≡ p)
      × (clamp previous earliest low ≡ p)
      × (clamp previous earliest (clamp previous earliest low) ≡ p)
final_boundary previous none p h e = ground (arith, h)
final_boundary previous (some f) p h e = ground (arith, h, e)

before-less :
    (n m : ℕ) (earliest : Option ℕ) → n ≤ m → IsBeforeOption m earliest → IsBeforeOption n earliest
before-less n m none e h = tt
before-less n m (some f) e h = omega (arith, e, h)

IsAfter-weaken :
    (n m : ℕ) (rows : List ToolResultRow) → n ≤ m → All (IsAfter m) rows → All (IsAfter n) rows
IsAfter-weaken n m [] e h = tt
IsAfter-weaken n m (r ∷ rows) e h = (omega (arith, e, h.0), IsAfter-weaken n m rows e h.1)

reaches-max :
    (start : ℕ) (earliest : Option ℕ)
    → IsBeforeOption start earliest
    → reaches start earliest ≡ false
reaches-max start none h = refl
reaches-max start (some e) h = ground (arith, h)

IsReached-met :
    (previous : ℕ) (protected_rows : List ToolResultRow) (zone_behind : ℕ → ℕ) (target : Option ℕ)
    (zone maximal_zone protected_tokens : ℕ) (no_eligible : Bool)
    → IsMet target zone maximal_zone
    → ((t : ℕ)
        → t < maximal_zone
        → (b : ℕ) → IsIllegal previous protected_rows b ⊎ (t < zone_behind b))
    → IsReached previous protected_rows zone_behind target zone
        (is_insufficient target maximal_zone protected_tokens no_eligible)
IsReached-met previous protected_rows zone_behind none zone maximal_zone tokens no_eligible h k = tt
IsReached-met previous protected_rows zone_behind (some t) zone maximal_zone tokens no_eligible h
      k =
    elim (Bool-cases (ltb t maximal_zone)) [
      | inl e ↦ rw e (inr (refl, k t (ground (arith, e))))
      | inr e ↦ rw e (inl (refl, ground (arith, e, h)))
    ]

no_notes :
    (a b : Bool) (first second : String)
    → a ≡ false
    → b ≡ false
    → note_if a first ++ note_if b second ≡ []
no_notes a b first second e f = ground (arith, e, f)

module _ (stored : Stored) (ids : List String) (options : PreviewOptions) where
  abbrev compact : ℕ
  compact = or_else options.compact_point_override (or_else stored.snapshot_compact_point 0)

  abbrev previous : ℕ
  previous = stored.boundary_position

  abbrev rows : List ToolResultRow
  rows = rows_after (max previous compact) stored.live_tool_results

  abbrev kept_rows : List ToolResultRow
  kept_rows = filter (is_protected ids) rows

  abbrev open_rows : List ToolResultRow
  open_rows = filter (λ r. not (is_protected ids r)) rows

  abbrev earliest : Option ℕ
  earliest = earliest_from none kept_rows

  abbrev eligible : List ToolResultRow
  eligible = filter (λ r. leb r.source_event_order (max_legal_of earliest)) open_rows

  abbrev maximal : ℕ
  maximal =
      correct_maximal previous (max_legal_of earliest) earliest
        (maximal_from (max_legal_of earliest) previous eligible)

  abbrev proposal : ℕ
  proposal =
      propose (zone_full_after rows compact) options.target_zone_tokens previous maximal
        (max_legal_of earliest) earliest eligible

  start-before : IsBeforeOption (max previous compact) earliest
  start-before = earliest_from-IsAfter (max previous compact) none kept_rows tt (
      filter-IsAfter (max previous compact) (is_protected ids) rows
        (rows_after-IsAfter (max previous compact) stored.live_tool_results))

  previous-before : IsBeforeOption previous earliest
  previous-before = before-less previous (max previous compact) earliest (omega arith) start-before

  proposal_lem :
      (previous ≤ proposal)
      × (reaches proposal earliest ≡ false)
      × IsMet options.target_zone_tokens
          (zone_full_after rows compact proposal)
          (zone_full_after rows compact maximal)
  proposal_lem = rw (correct_maximal_lem previous earliest eligible previous-before).0 (
      propose_lem (zone_full_after rows compact) options.target_zone_tokens previous earliest
        eligible (filter-IsUpTo (max_legal_of earliest) open_rows) previous-before)

  maximal-least :
      (t : ℕ)
      → t < zone_full_after rows compact maximal
      → (b : ℕ) → IsIllegal previous kept_rows b ⊎ (t < zone_full_after rows compact b)
  maximal-least t h b =
      zone_of_legal (is_protected ids) compact previous t rows
        (filter-IsUpTo (max_legal_of earliest) open_rows)
        (subst (λ m. t < zone_full_after rows compact m)
          (correct_maximal_lem previous earliest eligible previous-before).0 h)
        b

  preview-IsKept :
      IsKept stored ids options.target_zone_tokens
        (preview_protected_visibility_boundary stored ids options)
  unfolding preview_protected_visibility_boundary
  preview-IsKept =
      let f = final_boundary previous earliest proposal proposal_lem.0 proposal_lem.1 in
      let bounded = rows_after-IsAfter (max previous compact) stored.live_tool_results in
      record {
        forward = subst (λ n. previous ≤ n) (sym f.2) proposal_lem.0;
        spared =
            subst (λ n. All (IsAfter n) kept_rows) (sym f.2)
              (earliest-IsLeast proposal none kept_rows proposal_lem.1).0;
        accounted = parted_estimates _ compact open_rows (
            IsAfter-weaken compact (max previous compact) open_rows (omega arith)
              (filter-IsAfter (max previous compact) (λ r. not (is_protected ids r)) rows bounded));
        reached =
            subst
              (λ n.
                IsReached previous kept_rows (zone_full_after rows compact)
                  options.target_zone_tokens (zone_full_after rows compact n)
                  (is_insufficient options.target_zone_tokens (zone_full_after rows compact maximal)
                    (estimates kept_rows) (is_nil eligible)))
              (sym f.1)
              (IsReached-met previous kept_rows (zone_full_after rows compact)
                options.target_zone_tokens _ _ _ _ proposal_lem.2 maximal-least);
        quiet =
            no_notes _ _ _ _ (reaches-max (max previous compact) earliest start-before)
              (subst (λ n. reaches n earliest ≡ false) (sym f.0) proposal_lem.1);
      }

-- A previewed boundary never moves back, and every protected tool result behind the effective start
-- stays behind it; the unprotected results are pruned or remain, each counted once; with a target,
-- the zone behind the boundary is within it, or the preview says that it is insufficient and every
-- boundary leaves more than the target that does not move back, is a safe order, and lies before all
-- those protected results; and no note is written.
pub preview_protected_visibility_boundary-IsKept :
    (stored : Stored) (ids : List String) (options : PreviewOptions)
    → IsKept stored ids options.target_zone_tokens
        (preview_protected_visibility_boundary stored ids options)
preview_protected_visibility_boundary-IsKept = preview-IsKept
