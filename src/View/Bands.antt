-- ===== src/View/Bands.antt =====
-- `fillBand` and the budgets of the bands, of `walkArrangement` in thread-view/internal/walk.ts.
--
-- A budget is a percentage of the lower bound in tokens, `lowerBound * share / 100`; it is held in
-- hundredths of a token, so that the division is exact, and a sum of tokens is compared with it as
-- a hundred times that sum. Percentages are whole numbers.
pub mod Fill
pub mod Looked
pub mod Shares
pub mod Skim
use long_horizon_context.Base.{
  ℕ, ◌+◌, ◌*◌, ◌-◌, Bool, true, false, not, ◌&&◌, List, [], ◌∷◌, ◌++◌, map, length, filter, ltb,
  leb, ◌==◌, if◌then◌else◌,
}
use long_horizon_context.View.{Percentages, ArrangementEntry, tokens_of}

pub data Crossing : Type 0 where
  stop skip : Crossing

abbrev is_skipping : Crossing → Bool
is_skipping stop = false
is_skipping skip = true

pub record Filled {ℓ} (T : Type ℓ) : Type ℓ where
  pub included : List ArrangementEntry
  pub rest : List T
  pub skipped : List ArrangementEntry

-- An entry that did not fit, with the number of entries taken before it.
pub record PassedOver : Type 0 where
  pub entry : ArrangementEntry
  pub included_before : ℕ

-- `reportable`: the entries passed over that a later entry was taken behind
abbrev pub reportable : List ArrangementEntry → List PassedOver → List ArrangementEntry
reportable included passed =
    map (λ p. p.entry) (filter (λ p. ltb p.included_before (length included)) passed)

module _ {ℓ} {T : Type ℓ} (budget : ℕ) (build : T → ArrangementEntry) (crossing : Crossing) where
  -- The loop; `before` is the number of entries of `prior`, and `sum` the tokens held.
  unfoldable pub fill_from : ℕ → List T → List ArrangementEntry → List PassedOver → ℕ → Filled T
  fill_from before [] included passed sum = record {
    included = included;
    rest = [];
    skipped = reportable included passed;
  }
  fill_from before (c ∷ rest) included passed sum =
      elim (is_skipping crossing && ltb 0 (before + length included) && leb budget (100 * sum)) [
        | true ↦ record {
          included = included;
          rest = c ∷ rest;
          skipped = reportable included passed;
        }
        | false ↦ elim (leb (100 * (sum + (build c).tokens)) budget) [
          | true ↦
              fill_from before rest (included ++ (build c ∷ [])) passed (sum + (build c).tokens)
          | false ↦ elim (before + length included == 0) [
            | true ↦ elim crossing [
              | stop ↦ record { included = included ++ (build c ∷ []); rest = rest; skipped = [] }
              | skip ↦
                  fill_from before rest (included ++ (build c ∷ [])) passed (sum + (build c).tokens)
            ]
            | false ↦ elim crossing [
              | stop ↦ record { included = included; rest = c ∷ rest; skipped = [] }
              | skip ↦
                  fill_from before rest included
                    (passed ++ (record { entry = build c; included_before = length included } ∷ []))
                    sum
            ]
          ]
        ]
      ]

-- `fillBand`; the candidates are newest first.
unfoldable pub fill_band {ℓ} :
    {T : Type ℓ}
    → List T
    → ℕ
    → (T → ArrangementEntry)
    → Crossing
    → Bool
    → List ArrangementEntry
    → Filled T
unfolding fill_from
fill_band candidates budget build crossing admit_first prior =
    if not admit_first && (budget == 0)
    then record { included = []; rest = candidates; skipped = [] }
    else fill_from budget build crossing (length prior) candidates [] [] (tokens_of prior)

-- `budget`, in hundredths of a token
abbrev pub budget_of : ℕ → ℕ → ℕ
budget_of lower_bound share = lower_bound * share

pub record Usable : Type 0 where
  pub usable : ℕ
  pub carry : ℕ

-- `shareAfterCarry`: what the carry leaves of a share, and the carry that is left.
abbrev pub share_after_carry : ℕ → ℕ → Usable
share_after_carry share carry = record { usable = share - carry; carry = carry - share }

pub record Budgets : Type 0 where
  pub smooth : ℕ
  pub detailed : ℕ
  pub brief : ℕ
  pub carry : ℕ

-- The three calls of `shareAfterCarry`, in the order of the code.
unfoldable pub cascade : ℕ → Percentages → ℕ → Budgets
cascade lower_bound percentages carry =
    let smooth = share_after_carry (budget_of lower_bound percentages.smooth) carry in
    let detailed = share_after_carry (budget_of lower_bound percentages.detailed) smooth.carry in
    let brief = share_after_carry (budget_of lower_bound percentages.brief) detailed.carry in
    record {
      smooth = smooth.usable;
      detailed = detailed.usable;
      brief = brief.usable;
      carry = brief.carry;
    }
