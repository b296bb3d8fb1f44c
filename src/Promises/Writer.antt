-- ===== src/Promises/Writer.antt =====
-- The claim of the writer over a list of effects (decide.ts).
use long_horizon_context.Base.{
  ℕ, zero, suc, ◌≡◌, refl, ◌∙◌, Bool, true, false, Option, none, some, List, [], ◌∷◌, ◌++◌, All,
  if◌then◌else◌, Option-cases, inl, inr,
}
use long_horizon_context.Contract.Effects.{Effect}
use long_horizon_context.Decision.Effects.{insert_at}

-- An effect claims a writer that is not held, releases one that is, or leaves it as it is.
abbrev pub writer_step : Bool → Effect → Option Bool
writer_step held (Effect.claim_writer _) = if held then none else some true
writer_step held Effect.release_writer = if held then some false else none
writer_step held _ = some held

-- Whether the writer is held behind the effects; `none` where they claim it twice or release it
-- without a claim.
abbrev pub writer_run : Bool → List Effect → Option Bool
writer_run held [] = some held
writer_run held (e ∷ effects) = elim (writer_step held e) [
  | none ↦ none
  | some h ↦ writer_run h effects
]

abbrev pub IsIdle : Effect → Type 0
IsIdle e = (writer_step false e ≡ some false) × (writer_step true e ≡ some true)

pub run_idle :
    (held : Bool) (xs ys : List Effect)
    → All IsIdle xs
    → writer_run held (xs ++ ys) ≡ writer_run held ys
run_idle held [] ys h = refl
run_idle false (x ∷ xs) ys h = rw (writer_run, h.0.0) (run_idle false xs ys h.1)
run_idle true (x ∷ xs) ys h = rw (writer_run, h.0.1) (run_idle true xs ys h.1)

pub run_then :
    (a b : Bool) (xs ys : List Effect)
    → writer_run a xs ≡ some b
    → writer_run a (xs ++ ys) ≡ writer_run b ys
run_then a b [] ys h = cc
run_then a b (x ∷ xs) ys h = elim (Option-cases (writer_step a x)) [
  | inl e ↦ cc (rw (writer_run, e) at h)
  | inr (c, e) ↦ rw (writer_run, e) (run_then c b xs ys (rw (writer_run, e) at h))
]

pub idle_run : (held : Bool) (xs : List Effect) → All IsIdle xs → writer_run held xs ≡ some held
idle_run held [] h = refl
idle_run false (x ∷ xs) h = rw (writer_run, h.0.0) (idle_run false xs h.1)
idle_run true (x ∷ xs) h = rw (writer_run, h.0.1) (idle_run true xs h.1)

pub run_both :
    (a b c : Bool) (xs ys : List Effect)
    → writer_run a xs ≡ some b
    → writer_run b ys ≡ some c
    → writer_run a (xs ++ ys) ≡ some c
run_both a b c xs ys h k = run_then a b xs ys h ∙ k

pub run_if :
    (a b : Bool) (t : Bool) (xs ys : List Effect)
    → writer_run a xs ≡ some b
    → writer_run a ys ≡ some b
    → writer_run a (if t then xs else ys) ≡ some b
run_if a b true xs ys h k = h
run_if a b false xs ys h k = k

pub run-insert :
    (held : Bool) (i : ℕ) (x : Effect) (xs : List Effect)
    → IsIdle x
    → writer_run held (insert_at i x xs) ≡ writer_run held xs
unfolding insert_at
run-insert false zero x xs h = rw (writer_run, h.0) refl
run-insert true zero x xs h = rw (writer_run, h.1) refl
run-insert false (suc i) x [] h = rw (writer_run, h.0) refl
run-insert true (suc i) x [] h = rw (writer_run, h.1) refl
run-insert held (suc i) x (e ∷ xs) h = elim (Option-cases (writer_step held e)) [
  | inl f ↦ rw (writer_run, f) refl
  | inr (c, f) ↦ rw (writer_run, f) (run-insert c i x xs h)
]
