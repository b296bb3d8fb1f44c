-- ===== src/View/Bands/Shares.antt =====
-- The budgets behind a carry.
use long_horizon_context.Base.{ℕ, ◌+◌, ◌-◌, ◌≤◌, ◌≡◌, arith, ◌⊎◌}
use long_horizon_context.View.{Percentages}
use long_horizon_context.View.Bands.{Budgets, budget_of, cascade}

abbrev pub shares_of : ℕ → Percentages → ℕ
shares_of lower_bound p =
    budget_of lower_bound p.smooth
    + budget_of lower_bound p.detailed
    + budget_of lower_bound p.brief

-- The three budgets together are the three shares less the carry, what the shares do not cover of
-- the carry is left over, and no band has a budget before the carry is used up.
pub record IsCascaded (lower_bound : ℕ) (p : Percentages) (carry : ℕ) (budgets : Budgets)
    : Type 0 where
  pub total : budgets.smooth + budgets.detailed + budgets.brief ≡ shares_of lower_bound p - carry
  pub left : budgets.carry ≡ carry - shares_of lower_bound p
  pub smooth_share : budgets.smooth ≤ budget_of lower_bound p.smooth
  pub detailed_share : budgets.detailed ≤ budget_of lower_bound p.detailed
  pub brief_share : budgets.brief ≤ budget_of lower_bound p.brief
  pub smooth_first :
      (budgets.smooth ≡ 0)
      ⊎ ((budgets.detailed ≡ budget_of lower_bound p.detailed)
          × (budgets.brief ≡ budget_of lower_bound p.brief))
  pub detailed_next : (budgets.detailed ≡ 0) ⊎ (budgets.brief ≡ budget_of lower_bound p.brief)

-- The budgets of the three bands behind a carry: together they are the shares less the carry; what
-- the shares do not cover stays as the carry; none exceeds its share; and a band has a budget only
-- where every band after it has its whole share.
pub cascade-IsCascaded :
    (lower_bound : ℕ) (p : Percentages) (carry : ℕ)
    → IsCascaded lower_bound p carry (cascade lower_bound p carry)
unfolding cascade
cascade-IsCascaded lower_bound p carry = ground arith
