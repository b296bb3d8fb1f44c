-- ===== src/View/Preview/Proposal.antt =====
-- The boundary that is proposed, before and after it is clamped.
use long_horizon_context.Base.{
  ℕ, ◌≤◌, ◌<◌, ◌≡◌, refl, false, Option, none, some, List, [], ◌∷◌, leb, arith, All, Bool-cases,
  if-cases, leb→le, subst, inl, inr, ◌⊎◌,
}
use long_horizon_context.View.Preview.{
  ToolResultRow, max_legal_of, maximal_from, reaches, correct_maximal, propose_from, propose,
}
use long_horizon_context.View.Preview.Safety.{IsBeforeOption}

abbrev pub IsUpTo : ℕ → ToolResultRow → Type 0
IsUpTo n r = r.source_event_order ≤ n

pub maximal_from-bounded :
    (max_legal boundary : ℕ) (rows : List ToolResultRow)
    → (boundary ≤ maximal_from max_legal boundary rows)
      × ((maximal_from max_legal boundary rows ≤ max_legal)
          ⊎ (maximal_from max_legal boundary rows ≡ boundary))
unfolding maximal_from
maximal_from-bounded max_legal boundary [] = (omega arith, inr refl)
maximal_from-bounded max_legal boundary (r ∷ rows) = ground (
  arith,
  maximal_from-bounded max_legal r.source_event_order rows,
  maximal_from-bounded max_legal boundary rows,
)

-- Behind the loop nothing is left to correct.
pub correct_maximal_lem :
    (previous : ℕ) (earliest : Option ℕ) (rows : List ToolResultRow)
    → IsBeforeOption previous earliest
    → let maximal = maximal_from (max_legal_of earliest) previous rows in
      (correct_maximal previous (max_legal_of earliest) earliest maximal ≡ maximal)
      × (previous ≤ maximal)
      × (reaches maximal earliest ≡ false)
correct_maximal_lem previous none rows h =
    ground (arith, maximal_from-bounded (max_legal_of none) previous rows)
correct_maximal_lem previous (some e) rows h =
    ground (arith, h, maximal_from-bounded (max_legal_of (some e)) previous rows)

module _ (zone : ℕ → ℕ) (target : ℕ) where
  -- The loop stops at a row that reaches the target, or goes as far as the rows go.
  propose_from_lem :
      (earliest : Option ℕ) (proposed : ℕ) (rows : List ToolResultRow)
      → All (IsUpTo (max_legal_of earliest)) rows
      → IsBeforeOption proposed earliest
      → let q = propose_from zone target (max_legal_of earliest) earliest proposed rows in
        (proposed ≤ q)
        × (reaches q earliest ≡ false)
        × ((zone q ≤ target) ⊎ (q ≡ maximal_from (max_legal_of earliest) proposed rows))
  unfolding propose_from maximal_from
  propose_from_lem none proposed [] u h = ground arith
  propose_from_lem (some e) proposed [] u h = ground (arith, h)
  propose_from_lem none proposed (r ∷ rows) u h = ground (
    arith,
    u.0,
    propose_from_lem none proposed rows u.1 tt,
    propose_from_lem none r.source_event_order rows u.1 tt,
  )
  propose_from_lem (some e) proposed (r ∷ rows) u h = ground (
    arith,
    u.0,
    h,
    propose_from_lem (some e) proposed rows u.1 h,
    propose_from_lem (some e) r.source_event_order rows u.1,
  )

-- What a target asks of a zone and of the zone behind the maximal boundary.
abbrev pub IsMet : Option ℕ → ℕ → ℕ → Type 0
IsMet none zone maximal_zone = Unit
IsMet (some target) zone maximal_zone = (zone ≤ target) ⊎ (target < maximal_zone)

reaches-before :
    (previous : ℕ) (earliest : Option ℕ)
    → IsBeforeOption previous earliest
    → reaches previous earliest ≡ false
reaches-before previous none h = refl
reaches-before previous (some e) h = ground (arith, h)

IsMet-or :
    (zone : ℕ → ℕ) (target q maximal : ℕ)
    → (zone q ≤ target) ⊎ (q ≡ maximal)
    → (zone q ≤ target) ⊎ (target < zone maximal)
IsMet-or zone target q maximal (inl e) = inl e
IsMet-or zone target q maximal (inr e) = elim (Bool-cases (leb (zone q) target)) [
  | inl t ↦ inl (leb→le (zone q) target t)
  | inr t ↦ inr (subst (λ x. target < zone x) e (ground (arith, t)))
]

pub propose_lem :
    (zone : ℕ → ℕ) (target : Option ℕ) (previous : ℕ) (earliest : Option ℕ)
    (rows : List ToolResultRow)
    → All (IsUpTo (max_legal_of earliest)) rows
    → IsBeforeOption previous earliest
    → let maximal = maximal_from (max_legal_of earliest) previous rows in
      let p = propose zone target previous maximal (max_legal_of earliest) earliest rows in
      (previous ≤ p) × (reaches p earliest ≡ false) × IsMet target (zone p) (zone maximal)
unfolding propose
propose_lem zone none previous earliest rows u h =
    let m = correct_maximal_lem previous earliest rows h in (m.1, m.2, tt)
propose_lem zone (some target) previous earliest rows u h =
    let p = propose_from_lem zone target earliest previous rows u h in
    let maximal = maximal_from (max_legal_of earliest) previous rows in
    let q = propose_from zone target (max_legal_of earliest) earliest previous rows in
    if-cases
      (λ (p : ℕ).
        (previous ≤ p)
        × (reaches p earliest ≡ false)
        × ((zone p ≤ target) ⊎ (target < zone maximal)))
      (leb (zone previous) target) previous q
      (λ e.
        (omega arith, reaches-before previous earliest h, inl (leb→le (zone previous) target e)))
      λ e. (p.0, p.1, IsMet-or zone target q maximal p.2)
