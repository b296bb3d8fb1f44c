-- ===== src/View/Parts/Lookups.antt =====
-- The steps that a part ends at, and the numbers of steps, as they are looked up.
use long_horizon_context.Base.{
  ℕ, zero, suc, ◌+◌, ◌*◌, ◌≤◌, ◌<◌, ◌≡◌, refl, ap, ◌∙◌, subst, Bool, true, false, ◌&&◌, Option,
  none, some, List, [], ◌∷◌, ◌++◌, ltb, leb, ◌==◌, any, or_else, arith, length, length-append,
  Bool-cases, if-cases, inl, inr,
}
use long_horizon_context.Steps.{StepRange, StepEdges}
use long_horizon_context.Steps.Edges.{IsParted}
use long_horizon_context.View.{SelectionTurn, PartRange}
use long_horizon_context.View.Source.{SelectionSource, Crossed}
use long_horizon_context.View.Parts.{
  ordinal_through, step_at, edge_of, compute_from, crosses, computed, last_to_step, ordinal_of,
  k_max_of,
}

-- A step of that number ends at that order.
abbrev pub ends_at : List StepRange → ℕ → ℕ → Bool
ends_at steps to_step order = any (λ s. (s.index == to_step) && (s.last_order == order)) steps

abbrev pub ends_option : List StepRange → Option ℕ → ℕ → Bool
ends_option steps none order = false
ends_option steps (some to_step) order = ends_at steps to_step order

pub ordinal_through-bounded :
    (steps : List StepRange) (to_step : ℕ) → ordinal_through steps to_step ≤ length steps
ordinal_through-bounded [] to_step = omega arith
ordinal_through-bounded (s ∷ steps) to_step = ground (arith, ordinal_through-bounded steps to_step)

pub step_at-found :
    (steps : List StepRange) (k : ℕ)
    → k < length steps
    → (s : StepRange) × (step_at steps k ≡ some s)
step_at-found [] k h = absurd (omega (arith, h))
step_at-found (s ∷ steps) zero h = (s, refl)
step_at-found (s ∷ steps) (suc k) h = step_at-found steps k (omega (arith, h))

pub step_at-ends :
    (steps : List StepRange) (k : ℕ) (s : StepRange)
    → step_at steps k ≡ some s
    → ends_at steps s.index s.last_order ≡ true
step_at-ends [] k s e = cc
step_at-ends (t ∷ steps) zero s e = ground (arith, e)
step_at-ends (t ∷ steps) (suc k) s e = ground (arith, step_at-ends steps k s e)

pub step_at-ordinal :
    (steps : List StepRange) (to_step k : ℕ) (s : StepRange)
    → ordinal_through steps to_step ≡ suc k
    → step_at steps k ≡ some s
    → s.index ≡ to_step
step_at-ordinal [] to_step k s o e = cc
step_at-ordinal (t ∷ steps) to_step zero s o e = ground (arith, o, e)
step_at-ordinal (t ∷ steps) to_step (suc k) s o e =
    ground (arith, o, step_at-ordinal steps to_step k s)

pub compute_from-found :
    (tokens_after : ℕ → ℕ) (full_budget k_max k left : ℕ) (steps : List StepRange)
    → left ≤ length steps
    → k + left ≤ suc k_max
    → (c : ℕ) × (compute_from tokens_after full_budget k_max k left steps ≡ some c) × (c ≤ k_max)
compute_from-found tokens_after full_budget k_max k zero steps h e = (k_max, refl, omega arith)
compute_from-found tokens_after full_budget k_max k (suc left) [] h e = absurd (omega (arith, h))
compute_from-found tokens_after full_budget k_max k (suc left) (s ∷ steps) h e =
    elim (Bool-cases (leb (100 * tokens_after s.last_order) full_budget)) [
      | inl t ↦ (k, rw t refl, omega (arith, e))
      | inr t ↦
          let rest =
            compute_from-found tokens_after full_budget k_max (suc k) left steps (omega (arith, h))
              (omega (arith, e)) in
          (rest.0, rw t rest.1, rest.2)
    ]

pub last_to_step-snoc :
    (ranges : List PartRange) (r : PartRange) → last_to_step (ranges ++ (r ∷ [])) ≡ some r.to_step
last_to_step-snoc [] r = refl
last_to_step-snoc (x ∷ []) r = refl
last_to_step-snoc (x ∷ y ∷ ranges) r = last_to_step-snoc (y ∷ ranges) r

pub edge_of-ends :
    (steps : List StepRange) (to_step edge : ℕ)
    → edge_of steps to_step ≡ some edge
    → ends_at steps to_step edge ≡ true
edge_of-ends [] to_step edge e = cc
edge_of-ends (s ∷ steps) to_step edge e = ground (arith, e, edge_of-ends steps to_step edge)

pub last_edge-bounded :
    (edges : StepEdges) → IsParted edges → or_else edges.last_edge 0 ≤ length edges.steps
last_edge-bounded edges h =
    let l : length edges.steps ≡ length h.front + length h.rest =
      ap length h.parted ∙ length-append h.front h.rest in
    ground (arith, l, h.counted, h.edge)

-- The edge of a plan whose parts were installed before.
pub prior-is_edge :
    (steps : List StepRange) (last : Option ℕ) (k : ℕ) (s : StepRange)
    → ordinal_of steps last ≡ suc k
    → step_at steps k ≡ some s
    → ends_option steps last s.last_order ≡ true
prior-is_edge steps none k s o e = absurd (omega (arith, o))
prior-is_edge steps (some to_step) k s o e =
    subst (λ t. ends_at steps t s.last_order ≡ true) (step_at-ordinal steps to_step k s o e)
      (step_at-ends steps k s e)

pub ordinal_of-bounded :
    (steps : List StepRange) (last : Option ℕ) → ordinal_of steps last ≤ length steps
ordinal_of-bounded steps none = omega arith
ordinal_of-bounded steps (some to_step) = ordinal_through-bounded steps to_step

pub k_max_of-bounded :
    (edges : StepEdges) (prior_k : ℕ)
    → IsParted edges
    → prior_k ≤ length edges.steps
    → k_max_of edges prior_k ≤ length edges.steps
k_max_of-bounded edges prior_k h p =
    if-cases (λ n. n ≤ length edges.steps) edges.splittable (or_else edges.last_edge 0) prior_k
      (λ _. last_edge-bounded edges h) (λ _. p)

pub computed-found :
    (source : SelectionSource) (full_budget : ℕ) (crossing : Option Crossed) (turn : SelectionTurn)
    (steps : List StepRange) (k_max : ℕ)
    → k_max ≤ length steps
    → (c : ℕ) × (computed source full_budget crossing turn steps k_max ≡ some c)
      × (c ≤ length steps)
computed-found source full_budget crossing turn steps k_max h =
    elim (Bool-cases (crosses crossing turn && ltb 0 k_max)) [
      | inl t ↦
          let found =
            compute_from-found source.message_tokens_after full_budget k_max 1 k_max steps h
              (omega arith) in
          (found.0, rw (computed, t) found.1, omega (arith, h, found.2))
      | inr t ↦ (0, rw (computed, t) refl, omega arith)
    ]
