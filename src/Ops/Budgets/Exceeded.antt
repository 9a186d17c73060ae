-- ===== src/Ops/Budgets/Exceeded.antt =====
-- The status that is shown, and the check at a launch (gpu-platform/internal/ops/budgets.go and
-- internal/billing/impl.go).
use node_hive_b2b.Prelude.{
  ℕ, ◌*◌, ◌≡◌, refl, Bool, true, false, not, ◌&&◌, ◌||◌, arith, leb, ltb, ◌==◌, Bool-cases, inl,
  inr,
}
use node_hive_b2b.Store.{Time}
use node_hive_b2b.Billing.Meter.{Books}
use node_hive_b2b.Billing.Admission.{scope_spend_inr, is_exhausted}
use node_hive_b2b.Ops.Budgets.{BudgetStatus, BudgetRow, budget_status, view_of_budget}

abbrev pub shows_exceeded : BudgetStatus → Bool
shows_exceeded BudgetStatus.safe = false
shows_exceeded BudgetStatus.at_risk = false
shows_exceeded BudgetStatus.exceeded = true

exceeded_status :
    (day spend total_forecast amount : ℕ)
    → shows_exceeded (budget_status day spend total_forecast amount)
      ≡ (not (amount == 0) && leb amount spend)
unfolding budget_status
exceeded_status day spend total_forecast amount = elim (Bool-cases (amount == 0)) [
  | inl a ↦ rw a refl
  | inr a ↦ elim (Bool-cases (leb amount spend)) [
    | inl e ↦ rw (a, e) refl
    | inr e ↦
        elim (Bool-cases (ltb (day * amount) total_forecast || leb (4 * amount) (5 * spend))) [
          | inl f ↦ rw (a, e, f) refl
          | inr f ↦ rw (a, e, f) refl
        ]
  ]
]

-- A budget is shown as exceeded exactly when it refuses launches, on whichever day of the month, when
-- the same books and the same beginning of the month are read.
pub shown-exceeded :
    (month : Time) (day days org_id : ℕ) (books : Books) (r : BudgetRow)
    → shows_exceeded (view_of_budget month day days org_id books r).status
      ≡ is_exhausted month org_id books r.budget
unfolding view_of_budget
shown-exceeded month day days org_id books r =
    let spend = scope_spend_inr month org_id r.budget.scope_type r.budget.scope_id books in
    let same : (3600 * r.budget.amount == 0) ≡ (r.budget.amount == 0) = ground arith in
    rw (exceeded_status day spend (spend * days) (3600 * r.budget.amount), same) refl
