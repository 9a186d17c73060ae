-- ===== src/Billing/Admission.antt =====
-- Admission of launches: `AuthorizeLaunch` and `scopeSpendINR` in gpu-platform/internal/billing/impl.go.
pub mod Admits
pub mod Permits
use node_hive_b2b.Prelude.{
  ℕ, ◌+◌, ◌*◌, Bool, true, false, not, ◌&&◌, ◌||◌, String, List, [], ◌∷◌, Option, none, some, ltb,
  leb, ◌==◌, if◌then◌else◌, holds_id,
}
use node_hive_b2b.Prelude.Int.{ℤ, pos, leb_ℤ}
use node_hive_b2b.Sql.{select, find, exists}
use node_hive_b2b.Store.{Time, Workload}
use node_hive_b2b.Billing.{AdmissionError, insufficient_credit, budget_exceeded}
use node_hive_b2b.Billing.Ledger.{latest_balance}
use node_hive_b2b.Billing.Meter.{Usage, Books, total_amount, usd_to_inr}

pub data Scope : Type 0 where
  organization department project : Scope

-- A row of budgets; the amount is in the ledger's currency.
pub record Budget : Type 0 where
  pub org_id : ℕ
  pub scope_type : Scope
  pub scope_id : Option ℕ
  pub amount : ℕ

-- `a = b` of two nullable columns.
abbrev pub same_id : Option ℕ → Option ℕ → Bool
same_id a none = false
same_id a (some n) = holds_id a n

abbrev pub in_scope : Scope → Option ℕ → Option ℕ → Option ℕ → Bool
in_scope Scope.organization id dept proj = true
in_scope Scope.department id dept proj = same_id id dept
in_scope Scope.project id dept proj = same_id id proj

-- The WHERE of the budgets' query.
abbrev pub applies : ℕ → Option ℕ → Option ℕ → Budget → Bool
applies org_id dept proj b = b.org_id == org_id && in_scope b.scope_type b.scope_id dept proj

-- The cost's workload is of the department.
abbrev of_department : Option ℕ → List Workload → Usage → Bool
of_department id ws u = exists (λ w. w.id == u.workload_id && same_id w.department_id id) ws

abbrev spent_in : Scope → Option ℕ → List Workload → Usage → Bool
spent_in Scope.organization id ws u = true
spent_in Scope.department id ws u = of_department id ws u
spent_in Scope.project id ws u = same_id u.project_id id

-- The spend since the beginning of the month, in 1/3600 of the ledger's unit.
unfoldable pub scope_spend_inr : Time → ℕ → Scope → Option ℕ → Books → ℕ
scope_spend_inr month org_id scope id b =
    total_amount (
      select
        (λ u.
          u.org_id == org_id && (spent_in scope id b.store.workloads u && leb month u.period_start))
        b.usage)
    * usd_to_inr

abbrev pub is_exhausted : Time → ℕ → Books → Budget → Bool
is_exhausted month org_id books b =
    not (b.amount == 0)
    && leb (3600 * b.amount) (scope_spend_inr month org_id b.scope_type b.scope_id books)

abbrev pub stops : Time → ℕ → Option ℕ → Option ℕ → Books → Budget → Bool
stops month org_id dept proj books b =
    applies org_id dept proj b && is_exhausted month org_id books b

abbrev scope_name : Scope → String
scope_name Scope.organization = "organization"
scope_name Scope.department = "department"
scope_name Scope.project = "project"

abbrev pub refused_by : Option Budget → Option AdmissionError
refused_by none = none
refused_by (some b) = some (budget_exceeded (scope_name b.scope_type))

-- The first error, if any. `month` is the beginning of the current month.
unfoldable pub authorize_launch :
    Bool → Time → List Budget → Books → ℕ → Option ℕ → Option ℕ → Option AdmissionError
authorize_launch enforce month budgets books org_id dept proj =
    if not enforce
    then none
    else if leb_ℤ (latest_balance org_id books.ledger) (pos 0)
    then some insufficient_credit
    else refused_by (find (stops month org_id dept proj books) budgets)
