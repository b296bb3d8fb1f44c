-- ===== src/View/Bands/Fill.antt =====
-- What `fillBand` takes and leaves.
use long_horizon_context.Base.{
  ℕ, ◌+◌, ◌*◌, ◌≤◌, ◌<◌, ◌≡◌, refl, sym, ap, ◌∙◌, ◌⊎◌, inl, inr, Bool, false, Bool-cases, not, ◌&&◌,
  List, [], ◌∷◌, ◌++◌, map, arith, length, length-append, leb, ◌==◌,
}
use mathlib.Core.List.{append_assoc, append-nil}
use long_horizon_context.View.{ArrangementEntry, tokens_of}
use long_horizon_context.View.Bands.{Crossing, stop, Filled, PassedOver, fill_from, fill_band}

pub tokens_of-snoc :
    (entries : List ArrangementEntry) (e : ArrangementEntry)
    → tokens_of (entries ++ (e ∷ [])) ≡ tokens_of entries + e.tokens
tokens_of-snoc [] e = omega arith
tokens_of-snoc (x ∷ entries) e = omega (arith, tokens_of-snoc entries e)

tokens_of-nil : (entries : List ArrangementEntry) → length entries ≡ 0 → tokens_of entries ≡ 0
tokens_of-nil [] e = refl
tokens_of-nil (x ∷ entries) e = absurd (omega (arith, e))

-- Nothing was taken, or all that is held is in the budget, or one entry alone exceeds it.
abbrev pub IsFitting : ℕ → List ArrangementEntry → List ArrangementEntry → Type 0
IsFitting budget prior included =
    (length included ≡ 0)
    ⊎ (100 * (tokens_of prior + tokens_of included) ≤ budget)
    ⊎ ((length prior ≡ 0) × (length included ≡ 1) × (budget < 100 * tokens_of included))

module _ {ℓ} {T : Type ℓ} (budget : ℕ) (build : T → ArrangementEntry)
    (prior : List ArrangementEntry) where
  fill_from-IsFitting :
      (crossing : Crossing) (candidates : List T) (included : List ArrangementEntry)
      (passed : List PassedOver) (sum : ℕ)
      → sum ≡ tokens_of prior + tokens_of included
      → IsFitting budget prior included
      → IsFitting budget prior
          (fill_from budget build crossing (length prior) candidates included passed sum).included
  unfolding fill_from
  fill_from-IsFitting crossing [] included passed sum e h = h
  fill_from-IsFitting crossing (c ∷ rest) included passed sum e h =
      let more = included ++ (build c ∷ []) in
      ground (
        arith,
        e,
        h,
        tokens_of-snoc included (build c),
        tokens_of-nil included,
        tokens_of-nil prior,
        length-append included (build c ∷ []),
        fill_from-IsFitting crossing rest more passed (sum + (build c).tokens),
        fill_from-IsFitting crossing rest included
            (passed ++ (record { entry = build c; included_before = length included } ∷ [])) sum,
      )

-- Whatever the mode, a band takes nothing, or holds at most its budget with what it held before, or
-- is one entry, the first, that alone exceeds the budget.
pub fill_band-IsFitting {ℓ} :
    {T : Type ℓ} (candidates : List T) (budget : ℕ) (build : T → ArrangementEntry)
    (crossing : Crossing) (admit_first : Bool) (prior : List ArrangementEntry)
    → IsFitting budget prior (fill_band candidates budget build crossing admit_first prior).included
unfolding fill_band
fill_band-IsFitting candidates budget build crossing admit_first prior =
    elim (Bool-cases (not admit_first && (budget == 0))) [
      | inl e ↦ rw e (inl refl)
      | inr e ↦ rw e (
          fill_from-IsFitting budget build prior crossing candidates [] [] (tokens_of prior)
            (omega arith) (inl refl))
    ]

-- No candidate is left, or the next one does not fit beside the tokens held.
abbrev pub IsFull {ℓ} : {T : Type ℓ} → ℕ → (T → ArrangementEntry) → ℕ → List T → Type 0
IsFull budget build held [] = Unit
IsFull budget build held (c ∷ rest) = budget < 100 * (held + (build c).tokens)

over-IsFull {ℓ} :
    {T : Type ℓ} (budget : ℕ) (build : T → ArrangementEntry) (held : ℕ) (rest : List T)
    → budget < 100 * held
    → IsFull budget build held rest
over-IsFull budget build held [] h = tt
over-IsFull budget build held (c ∷ rest) h = omega (arith, h)

record IsRun {ℓ} {T : Type ℓ} (candidates : List T) (budget : ℕ) (build : T → ArrangementEntry)
    (prior included : List ArrangementEntry) (filled : Filled T) : Type ℓ where
  taken : List T
  parted : candidates ≡ taken ++ filled.rest
  built : filled.included ≡ included ++ map build taken
  quiet : filled.skipped ≡ []
  greedy : IsFull budget build (tokens_of prior + tokens_of filled.included) filled.rest

module _ {ℓ} {T : Type ℓ} (budget : ℕ) (build : T → ArrangementEntry)
    (prior : List ArrangementEntry) where
  IsRun-take :
      (c : T) (rest : List T) (included : List ArrangementEntry) (filled : Filled T)
      → IsRun rest budget build prior (included ++ (build c ∷ [])) filled
      → IsRun (c ∷ rest) budget build prior included filled
  IsRun-take c rest included filled h = record {
    taken = c ∷ h.taken;
    parted = ap (◌∷◌ c) h.parted;
    built = h.built ∙ append_assoc included (build c ∷ []) (map build h.taken);
    quiet = h.quiet;
    greedy = h.greedy;
  }

  fill_from-IsRun :
      (candidates : List T) (included : List ArrangementEntry) (sum : ℕ)
      → sum ≡ tokens_of prior + tokens_of included
      → IsRun candidates budget build prior included
          (fill_from budget build stop (length prior) candidates included [] sum)
  unfolding fill_from
  fill_from-IsRun [] included sum e = record {
    taken = [];
    parted = refl;
    built = sym (append-nil included);
    quiet = refl;
    greedy = tt;
  }
  fill_from-IsRun (c ∷ rest) included sum e =
      elim (Bool-cases (leb (100 * (sum + (build c).tokens)) budget)) [
        | inl t ↦
            rw (fill_from, t)
              (IsRun-take c rest included _ (
                fill_from-IsRun rest (included ++ (build c ∷ [])) (sum + (build c).tokens)
                  (omega (arith, e, tokens_of-snoc included (build c)))))
        | inr t ↦ elim (Bool-cases (length prior + length included == 0)) [
          | inl z ↦
              rw (fill_from, t, z)
                (record {
                  taken = c ∷ [];
                  parted = refl;
                  built = refl;
                  quiet = refl;
                  greedy =
                      over-IsFull budget build _ rest
                        (ground (arith, t, e, tokens_of-snoc included (build c)));
                })
          | inr z ↦
              rw (fill_from, t, z)
                (record {
                  taken = [];
                  parted = refl;
                  built = sym (append-nil included);
                  quiet = refl;
                  greedy = ground (arith, t, e);
                })
        ]
      ]

-- What a stopping band takes and leaves; a band that must not admit a first entry takes none on an
-- empty budget.
pub record IsPrefix {ℓ} {T : Type ℓ} (candidates : List T) (budget : ℕ)
    (build : T → ArrangementEntry) (admit_first : Bool) (prior : List ArrangementEntry)
    (filled : Filled T) : Type ℓ where
  pub taken : List T
  pub parted : candidates ≡ taken ++ filled.rest
  pub built : filled.included ≡ map build taken
  pub quiet : filled.skipped ≡ []
  pub fitting : IsFitting budget prior filled.included
  pub greedy :
      IsFull budget build (tokens_of prior + tokens_of filled.included) filled.rest
      ⊎ ((admit_first ≡ false) × (budget ≡ 0) × (length filled.included ≡ 0))

-- A band that stops where an entry does not fit takes the newest candidates, leaves the others in
-- order, and reports none as skipped. What it takes is nothing, or fits the budget with what the
-- band held before, or is one entry, the first, that alone exceeds the budget. The next candidate
-- does not fit beside what is held, unless the band must not admit a first entry and its budget is
-- empty: then it takes none.
pub fill_band-IsPrefix {ℓ} :
    {T : Type ℓ} (candidates : List T) (budget : ℕ) (build : T → ArrangementEntry)
    (admit_first : Bool) (prior : List ArrangementEntry)
    → IsPrefix candidates budget build admit_first prior
        (fill_band candidates budget build stop admit_first prior)
unfolding fill_band
fill_band-IsPrefix candidates budget build admit_first prior =
    elim (Bool-cases (not admit_first && (budget == 0))) [
      | inl e ↦ rw e (record {
        taken = [];
        parted = refl;
        built = refl;
        quiet = refl;
        fitting = inl refl;
        greedy = inr (ground (arith, e), ground (arith, e), refl);
      })
      | inr e ↦
          let run =
            fill_from-IsRun budget build prior candidates [] (tokens_of prior) (omega arith) in
          rw e (record {
            taken = run.taken;
            parted = run.parted;
            built = run.built;
            quiet = run.quiet;
            fitting =
                fill_from-IsFitting budget build prior stop candidates [] [] (tokens_of prior)
                  (omega arith) (inl refl);
            greedy = inl run.greedy;
          })
    ]
