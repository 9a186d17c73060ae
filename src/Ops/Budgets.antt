-- ===== src/Ops/Budgets.antt =====
-- Budgets and their status: gpu-platform/internal/ops/budgets.go. Money is in 1/3600 of the ledger's
-- currency; `scopeSpendINR` of internal/ops/ops.go is that of Billing.
pub mod Exceeded
use node_hive_b2b.Prelude.{
  ℕ, ◌*◌, Bool, true, false, not, ◌&&◌, ◌||◌, List, [], ◌∷◌, ◌++◌, map, Option, none, some, leb,
  ltb, ◌==◌, if◌then◌else◌, holds_id,
}
use node_hive_b2b.Sql.{select, update, count, order_by}
use node_hive_b2b.Store.{Time}
use node_hive_b2b.Billing.Meter.{Books}
use node_hive_b2b.Billing.Admission.{Scope, Budget, scope_spend_inr}

pub data BudgetStatus : Type 0 where
  safe at_risk exceeded : BudgetStatus

-- The forecast is `total_forecast / day`; nothing is divided. `spend / amount >= 0.8` is
-- `5 * spend >= 4 * amount`.
unfoldable pub budget_status : ℕ → ℕ → ℕ → ℕ → BudgetStatus
budget_status day spend total_forecast amount =
    if amount == 0
    then BudgetStatus.safe
    else if leb amount spend
    then BudgetStatus.exceeded
    else if ltb (day * amount) total_forecast || leb (4 * amount) (5 * spend)
    then BudgetStatus.at_risk
    else BudgetStatus.safe

-- A row of budgets with its id.
pub record BudgetRow : Type 0 where
  pub id : ℕ
  pub budget : Budget

-- What a view computes of a row. Its other columns are sums and quotients of these.
pub record BudgetView : Type 0 where
  pub id : ℕ
  pub budget : Budget
  pub spend : ℕ
  pub status : BudgetStatus

-- `month` is the beginning of the month, `day` the day of the month, at least 1, and `days` the days
-- that it has.
unfoldable pub view_of_budget : Time → ℕ → ℕ → ℕ → Books → BudgetRow → BudgetView
unfolding budget_status
view_of_budget month day days org_id books r =
    let spend = scope_spend_inr month org_id r.budget.scope_type r.budget.scope_id books in
    record {
      id = r.id;
      budget = r.budget;
      spend = spend;
      status = budget_status day spend (spend * days) (3600 * r.budget.amount);
    }

abbrev pub scope_code : Scope → ℕ
scope_code Scope.department = 0
scope_code Scope.organization = 1
scope_code Scope.project = 2

-- ORDER BY scope_type, the alphabetical order of the three texts.
unfoldable pub list_budgets : Time → ℕ → ℕ → ℕ → Books → List BudgetRow → List BudgetView
unfolding view_of_budget
list_budgets month day days org_id books rows = map (view_of_budget month day days org_id books) (
    order_by (λ a b. leb (scope_code a.budget.scope_type) (scope_code b.budget.scope_type))
      (select (λ r. r.budget.org_id == org_id) rows))

-- Equality of `coalesce(scope_id, nil)`, which no id is.
abbrev pub same_scope_id : Option ℕ → Option ℕ → Bool
same_scope_id none none = true
same_scope_id none (some n) = false
same_scope_id (some m) b = holds_id b m

abbrev pub has_scope : ℕ → Scope → Option ℕ → BudgetRow → Bool
has_scope org_id scope id r =
    r.budget.org_id == org_id
    && (scope_code r.budget.scope_type == scope_code scope && same_scope_id r.budget.scope_id id)

-- INSERT … ON CONFLICT … DO UPDATE; `drawn` is the id of a new row. The table refuses an amount below 0.
unfoldable pub set_budget : ℕ → Budget → List BudgetRow → List BudgetRow
set_budget drawn b rows =
    if count (has_scope b.org_id b.scope_type b.scope_id) rows == 0
    then rows ++ record { id = drawn; budget = b } ∷ []
    else update (has_scope b.org_id b.scope_type b.scope_id)
        (λ r. record r { budget = record (r.budget) { amount = b.amount } }) rows

unfoldable pub delete_budget : ℕ → ℕ → List BudgetRow → List BudgetRow
delete_budget org_id id rows = select (λ r. not (r.id == id && r.budget.org_id == org_id)) rows
