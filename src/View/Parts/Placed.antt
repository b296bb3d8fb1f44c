-- ===== src/View/Parts/Placed.antt =====
-- The parts that are placed, over the steps that `stepEdges` reads.
use long_horizon_context.Base.{
  ℕ, zero, suc, ◌*◌, ◌≤◌, ◌≡◌, max, String, Bool, true, false, not, Option, none, some, List, [],
  ◌∷◌, ◌++◌, ltb, find, is_some, refl, ◌⊎◌, ◌&&◌, arith, length, Bool-cases, Option-cases, inl, inr,
}
use long_horizon_context.Steps.{StepMember, StepEdges, step_edges}
use long_horizon_context.Steps.Edges.{IsParted, step_edges-IsParted}
use long_horizon_context.View.{SelectionTurn, PartRange, SelectionConfig}
use long_horizon_context.View.Source.{SelectionSource, Crossed}
use long_horizon_context.View.Point.{is_closed, compact_point}
use long_horizon_context.View.Parts.{
  InstalledTransition, PartsSource, Placing, last_to_step, prior_parts, prior_ordinal, k_max_of,
  ranges_up_to, plan_up_to, place_open, nothing_placed, place_next, installed_placing, place_parts,
  place,
}
use long_horizon_context.View.Parts.Lookups.{
  step_at-found, step_at-ends, last_to_step-snoc, prior-is_edge, ordinal_of-bounded,
  k_max_of-bounded, computed-found,
}
use long_horizon_context.View.Parts.Installed.{
  is_edge, is_exclusive, is_settled_closed, IsInstalled, installed_placing-IsInstalled,
}

pub record IsPlaced (o : Option Placing) : Type 0 where
  pub placing : Placing
  pub returned : o ≡ some placing
  pub edge : is_edge placing ≡ true
  pub exclusive : is_exclusive placing ≡ true

exclusive_of :
    (settling : Option SelectionTurn) (turn : SelectionTurn)
    → is_settled_closed settling ≡ true
    → is_closed turn ≡ false
    → (elim settling [ none ↦ true | some s ↦ is_closed s && not (is_closed turn) ]) ≡ true
exclusive_of none turn h o = refl
exclusive_of (some s) turn h o = ground (arith, h, o)

plan_up_to-IsPlaced :
    (turn : SelectionTurn) (steps : StepEdges) (prior : List PartRange)
    (settling : Option SelectionTurn) (point k : ℕ)
    → k ≤ length steps.steps
    → prior_ordinal steps.steps prior ≤ k
    → is_settled_closed settling ≡ true
    → is_closed turn ≡ false
    → IsPlaced (plan_up_to turn steps prior (prior_ordinal steps.steps prior) settling point k)
plan_up_to-IsPlaced turn steps prior settling point zero h p c o = record {
  placing = record { point = point; settling = settling; plan = none };
  returned = refl;
  edge = refl;
  exclusive = ground (arith, c);
}
plan_up_to-IsPlaced turn steps prior settling point (suc k) h p c o =
    let prior_k = prior_ordinal steps.steps prior in
    let (s, e) = step_at-found steps.steps k (omega (arith, h)) in
    elim (Bool-cases (ltb prior_k (suc k))) [
      | inl t ↦
          let (first, f) = step_at-found steps.steps prior_k (ground (arith, t, h)) in
          let ranges : List PartRange =
            prior ++ (record { from_step = first.index; to_step = s.index } ∷ []) in
          record {
            placing = record {
              point = s.last_order;
              settling = settling;
              plan = some (record { turn = turn; steps = steps; ranges = ranges });
            };
            returned = rw (plan_up_to, e, ranges_up_to, t, f) refl;
            edge =
                rw (last_to_step-snoc prior (record { from_step = first.index; to_step = s.index }))
                  (step_at-ends steps.steps k s e);
            exclusive = exclusive_of settling turn c o;
          }
      | inr t ↦
          let same : prior_k ≡ suc k = ground (arith, t, p) in
          record {
            placing = record {
              point = s.last_order;
              settling = settling;
              plan = some (record { turn = turn; steps = steps; ranges = prior });
            };
            returned = rw (plan_up_to, e, ranges_up_to, t) refl;
            edge = prior-is_edge steps.steps (last_to_step prior) k s same e;
            exclusive = exclusive_of settling turn c o;
          }
    ]

place_open-IsPlaced :
    (source : SelectionSource) (parts : PartsSource) (full_budget : ℕ) (crossing : Option Crossed)
    (turn : SelectionTurn) (settling : Option SelectionTurn) (point : ℕ)
    → IsParted (parts.turn_steps turn.turn_id)
    → is_settled_closed settling ≡ true
    → is_closed turn ≡ false
    → IsPlaced (place_open source parts full_budget crossing turn settling point)
unfolding place_open
place_open-IsPlaced source parts full_budget crossing turn settling point h c o =
    let steps = parts.turn_steps turn.turn_id in
    let prior = prior_parts parts turn in
    let prior_k = prior_ordinal steps.steps prior in
    let bound = ordinal_of-bounded steps.steps (last_to_step prior) in
    let found =
      computed-found source full_budget crossing turn steps.steps (k_max_of steps prior_k)
        (k_max_of-bounded steps prior_k h bound) in
    rw (place_open, found.1)
      (plan_up_to-IsPlaced turn steps prior settling point (max found.0 prior_k)
        (omega (arith, found.2, bound)) (omega arith) c o)

find-open :
    (turns : List SelectionTurn) (turn : SelectionTurn)
    → find (λ t. not (is_closed t)) turns ≡ some turn
    → is_closed turn ≡ false
find-open [] turn e = cc
find-open (t ∷ turns) turn e = ground (arith, e, find-open turns turn)

place_next-IsPlaced :
    (source : SelectionSource) (parts : PartsSource) (full_budget : ℕ) (crossing : Option Crossed)
    (installed : Placing) (turn : Option SelectionTurn)
    → ((turn_id : String) → IsParted (parts.turn_steps turn_id))
    → IsInstalled installed
    → find (λ t. not (is_closed t)) source.turns ≡ turn
    → IsPlaced (place_next source parts full_budget crossing installed turn)
unfolding place_next
place_next-IsPlaced source parts full_budget crossing installed none h i e = record {
  placing = installed;
  returned = refl;
  edge = i.edge;
  exclusive = i.exclusive;
}
place_next-IsPlaced source parts full_budget crossing installed (some turn) h i e =
    place_open-IsPlaced source parts full_budget crossing turn installed.settling installed.point
      (h turn.turn_id) i.settled (find-open source.turns turn e)

place_parts-IsPlaced :
    (source : SelectionSource) (parts : PartsSource) (full_budget : ℕ) (crossing : Option Crossed)
    (point : ℕ)
    → ((turn_id : String) → IsParted (parts.turn_steps turn_id))
    → IsPlaced (place_parts source parts full_budget crossing point)
unfolding place_parts
place_parts-IsPlaced source parts full_budget crossing point h =
    let installed = installed_placing source parts full_budget point parts.installed in
    let i = installed_placing-IsInstalled source parts full_budget point parts.installed in
    elim (Option-cases installed.plan) [
      | inl e ↦
          rw (place_parts, e)
            (place_next-IsPlaced source parts full_budget crossing installed
              (find (λ t. not (is_closed t)) source.turns) h i refl)
      | inr (plan, e) ↦
          rw (place_parts, e)
            (record {
              placing = installed;
              returned = refl;
              edge = i.edge;
              exclusive = i.exclusive;
            })
    ]

-- An upper bound and an installed transition together.
abbrev pub is_contradicted : SelectionConfig → Option InstalledTransition → Bool
is_contradicted config installed = is_some config.compact_point_upper_bound && is_some installed

-- The error for a contradiction, and else a placing; under an upper bound no parts are placed.
abbrev pub IsAnswered : SelectionConfig → Option InstalledTransition → Option Placing → Type 0
IsAnswered config installed o =
    ((is_contradicted config installed ≡ true) × (o ≡ none))
    ⊎ ((is_contradicted config installed ≡ false) × IsPlaced o)

place_bound-IsAnswered :
    (source : SelectionSource) (installed : Option InstalledTransition) (steps : String → StepEdges)
    (config : SelectionConfig) (bound : ℕ)
    → config.compact_point_upper_bound ≡ some bound
    → IsAnswered config installed
        (place source (some (record { installed = installed; turn_steps = steps })) config)
unfolding place
place_bound-IsAnswered source none steps config bound e =
    rw (place, e)
      (inr (
        refl,
        record {
          placing = nothing_placed (compact_point source config false);
          returned = refl;
          edge = refl;
          exclusive = refl;
        },
      ))
place_bound-IsAnswered source (some installed) steps config bound e =
    rw (place, e) (inl (refl, refl))

-- An upper bound on a thread that serves installed parts is an error. Otherwise, over steps as
-- `stepEdges` reads them, the placing never reads past the end of an array: it returns. A compact
-- point that it places with parts is the end of the step at which the last part ends; and where a
-- turn settles, it is closed, and a turn with parts beside it is open.
pub place-IsAnswered :
    (source : SelectionSource) (installed : Option InstalledTransition)
    (members : String → List StepMember) (config : SelectionConfig)
    → IsAnswered config installed (
        place source
          (some (record { installed = installed; turn_steps = λ id. step_edges (members id) }))
          config)
unfolding place
place-IsAnswered source installed members config =
    elim (Option-cases config.compact_point_upper_bound) [
      | inl e ↦
          rw (place, e)
            (inr (
              refl,
              place_parts-IsPlaced source
                  (record { installed = installed; turn_steps = λ id. step_edges (members id) })
                  (config.lower_bound * config.percentages.full) _ _
                  (λ id. step_edges-IsParted (members id)),
            ))
      | inr (bound, e) ↦
          place_bound-IsAnswered source installed (λ id. step_edges (members id)) config bound e
    ]
