-- ===== src/View/Bands/Skim.antt =====
-- What `fillBand` takes and reports where it skips an entry that does not fit.
use mathlib.Core.List.{append_assoc, map-append}
use long_horizon_context.Base.{
  ℕ, ◌+◌, ◌*◌, ◌≤◌, ◌<◌, ◌≡◌, refl, sym, subst, ap, ◌∙◌, Bool, not, ◌&&◌, List, [], ◌∷◌, ◌++◌, map,
  arith, All, All-append, All-map, Bool-cases, inl, inr, length, ltb, leb, ◌==◌, get_last?,
}
use long_horizon_context.View.{ArrangementEntry, tokens_of}
use long_horizon_context.View.Bands.Fill.{tokens_of-snoc}
use long_horizon_context.View.Bands.{skip, Filled, PassedOver, reportable, fill_from, fill_band}
use long_horizon_context.View.Bands.Looked.{
  Mixed, entries_of, entries_of-append, IsLooked, none-IsLooked, keep-IsLooked, pass-IsLooked,
  reportable-IsLooked,
}

-- The entry does not fit beside the tokens held.
abbrev pub IsLarge : ℕ → ℕ → ArrangementEntry → Type 0
IsLarge budget held e = budget < 100 * (held + e.tokens)

-- No candidate is left, or the tokens held reach the budget.
abbrev pub IsReached {ℓ} : {T : Type ℓ} → ℕ → ℕ → List T → Type 0
IsReached budget held [] = Unit
IsReached budget held (c ∷ rest) = budget ≤ 100 * held

IsReached-enough {ℓ} :
    {T : Type ℓ} (budget held : ℕ) (rest : List T)
    → budget ≤ 100 * held
    → IsReached budget held rest
IsReached-enough budget held [] h = tt
IsReached-enough budget held (c ∷ rest) h = h

IsLarge-later :
    (budget held more : ℕ) (es : List ArrangementEntry)
    → All (IsLarge budget held) es
    → All (IsLarge budget (held + more)) es
IsLarge-later budget held more es h = All-map _ _ (λ e l. omega (arith, l)) es h

-- What a skipping band took, reported and looked at.
pub record IsSkimmed {ℓ} {T : Type ℓ} (candidates : List T) (budget : ℕ)
    (build : T → ArrangementEntry) (prior : List ArrangementEntry) (filled : Filled T)
    : Type ℓ where
  pub seen : List T
  pub parted : candidates ≡ seen ++ filled.rest
  pub front : List ArrangementEntry
  pub back : List ArrangementEntry
  pub built : map build seen ≡ front ++ back
  pub mixed : Mixed filled.included filled.skipped front
  pub last : get_last? front ≡ get_last? filled.included
  pub large :
      All (IsLarge budget (tokens_of prior + tokens_of filled.included)) (filled.skipped ++ back)
  pub reached : IsReached budget (tokens_of prior + tokens_of filled.included) filled.rest

module _ {ℓ} {T : Type ℓ} (budget : ℕ) (build : T → ArrangementEntry)
    (prior : List ArrangementEntry) where
  end-IsSkimmed :
      (seen rest : List T) {included : List ArrangementEntry} {passed : List PassedOver} (sum : ℕ)
      → IsLooked included passed (map build seen)
      → sum ≡ tokens_of prior + tokens_of included
      → All (IsLarge budget sum) (entries_of passed)
      → IsReached budget sum rest
      → IsSkimmed
          (seen ++ rest)
          budget
          build
          prior
          (record { included = included; rest = rest; skipped = reportable included passed })
  end-IsSkimmed seen rest {included} {passed} sum h e large reached = record {
    seen = seen;
    parted = refl;
    front = h.front;
    back = entries_of h.pending;
    built = h.parted;
    mixed = subst (λ l. Mixed included l h.front) (sym (reportable-IsLooked h)) h.mixed;
    last = h.last;
    large =
        subst (λ n. All (IsLarge budget n) (reportable included passed ++ entries_of h.pending)) e
          (subst (All (IsLarge budget sum))
            (ap entries_of h.split
              ∙ entries_of-append h.reported h.pending
              ∙ ap (λ l. l ++ entries_of h.pending) (sym (reportable-IsLooked h)))
            large);
    reached = subst (λ n. IsReached budget n rest) e reached;
  }

  regroup-IsSkimmed :
      (seen : List T) (c : T) (rest : List T) (filled : Filled T)
      → IsSkimmed ((seen ++ (c ∷ [])) ++ rest) budget build prior filled
      → IsSkimmed (seen ++ (c ∷ rest)) budget build prior filled
  regroup-IsSkimmed seen c rest filled h =
      subst (λ l. IsSkimmed l budget build prior filled) (append_assoc seen (c ∷ []) rest) h

  fill_from-IsSkimmed :
      (before : ℕ) (seen rest : List T) (included : List ArrangementEntry)
      (passed : List PassedOver) (sum : ℕ)
      → IsLooked included passed (map build seen)
      → sum ≡ tokens_of prior + tokens_of included
      → All (IsLarge budget sum) (entries_of passed)
      → IsSkimmed
          (seen ++ rest)
          budget
          build
          prior
          (fill_from budget build skip before rest included passed sum)
  unfolding fill_from
  fill_from-IsSkimmed before seen [] included passed sum h e large =
      end-IsSkimmed seen [] sum h e large tt
  fill_from-IsSkimmed before seen (c ∷ rest) included passed sum h e large =
      let next : List T = seen ++ (c ∷ []) in
      let looked : map build seen ++ (build c ∷ []) ≡ map build next =
        sym (map-append build seen (c ∷ [])) in
      let more : List ArrangementEntry = included ++ (build c ∷ []) in
      let p : PassedOver = record { entry = build c; included_before = length included } in
      let taken =
        regroup-IsSkimmed seen c rest
          (fill_from budget build skip before rest more passed (sum + (build c).tokens))
          (fill_from-IsSkimmed before next rest more passed (sum + (build c).tokens)
            (subst (IsLooked _ passed) looked (keep-IsLooked (build c) h))
            (omega (arith, e, tokens_of-snoc included (build c)))
            (IsLarge-later budget sum (build c).tokens (entries_of passed) large)) in
      elim (Bool-cases (ltb 0 (before + length included) && leb budget (100 * sum))) [
        | inl f ↦
            rw (fill_from, f) (end-IsSkimmed seen (c ∷ rest) sum h e large (ground (arith, f)))
        | inr f ↦ elim (Bool-cases (leb (100 * (sum + (build c).tokens)) budget)) [
          | inl t ↦ rw (fill_from, f, t) taken
          | inr t ↦ elim (Bool-cases (before + length included == 0)) [
            | inl z ↦ rw (fill_from, f, t, z) taken
            | inr z ↦
                let unfit : budget < 100 * (sum + (build c).tokens) = ground (arith, t) in
                rw (fill_from, f, t, z)
                  (regroup-IsSkimmed seen c rest
                    (fill_from budget build skip before rest included (passed ++ (p ∷ [])) sum)
                    (fill_from-IsSkimmed before next rest included (passed ++ (p ∷ [])) sum
                      (subst (IsLooked included _) looked (pass-IsLooked (build c) h)) e
                      (subst (All (IsLarge budget sum)) (sym (entries_of-append passed (p ∷ []))) (
                        All-append (IsLarge budget sum) (entries_of passed) (build c ∷ []) large
                          (unfit, tt)))))
          ]
        ]
      ]

-- A band that skips what does not fit looks at the candidates in order and leaves the others in
-- order; it leaves any only where the tokens held reach the budget. Up to the last entry it takes,
-- every entry looked at is either taken or reported as skipped, in the order of the candidates. No
-- entry that is reported, nor any passed over behind the last one taken, fits beside what is held.
pub fill_band-IsSkimmed {ℓ} :
    {T : Type ℓ} (candidates : List T) (budget : ℕ) (build : T → ArrangementEntry)
    (admit_first : Bool) (prior : List ArrangementEntry)
    → IsSkimmed candidates budget build prior
        (fill_band candidates budget build skip admit_first prior)
unfolding fill_band
fill_band-IsSkimmed candidates budget build admit_first prior =
    elim (Bool-cases (not admit_first && (budget == 0))) [
      | inl e ↦ rw e (
          end-IsSkimmed budget build prior [] candidates (tokens_of prior) none-IsLooked
            (omega arith) tt (IsReached-enough budget _ candidates (ground (arith, e))))
      | inr e ↦ rw e (
          fill_from-IsSkimmed budget build prior (length prior) [] candidates [] []
            (tokens_of prior) none-IsLooked (omega arith) tt)
    ]
