-- ===== src/Tests/Billing.antt =====
-- The theorems on billing at a small ledger and a small workload.
use node_hive_b2b.Prelude.{ℕ, suc, All, ◌*◌, ◌↔◌, List, true, ◌<◌, ◌≡◌, refl, [], ◌∷◌, none, some}
use node_hive_b2b.Prelude.Int.{pos, negsuc}
use node_hive_b2b.Domain.{WorkloadState}
use node_hive_b2b.Store.{Workload, minute}
use node_hive_b2b.Billing.Ledger.{Ledger, of_org, latest_balance, post_ledger, sum_deltas}
use node_hive_b2b.Billing.Ledger.Balance.{empty, post, latest_balance-sum}
use node_hive_b2b.Sql.{find, update}
use node_hive_b2b.Billing.Admission.{Budget, Scope, authorize_launch, is_exhausted}
use node_hive_b2b.Billing.Admission.Admits.{authorize_launch_iff}
use node_hive_b2b.Billing.Admission.Permits.{Permits}
use node_hive_b2b.Billing.Meter.{bill_row, bill, Books, Usage, slice, meter_workload}
use node_hive_b2b.Billing.Meter.Slices.{slice_contiguous, meter_workload_twice}
use node_hive_b2b.Ops.Budgets.{BudgetRow, view_of_budget}
use node_hive_b2b.Ops.Budgets.Exceeded.{shows_exceeded, shown-exceeded}
use node_hive_b2b.Tests.Fixtures.{small_workload, small_store}

abbrev small_ledger : Ledger
small_ledger =
    post_ledger 3 1 (negsuc 4) "charge" "" none
      (post_ledger 2 2 (pos 50) "topup" "" none (post_ledger 1 1 (pos 20) "grant" "" none []))

latest_balance-sum_example : latest_balance 1 small_ledger ≡ sum_deltas (of_org 1) small_ledger
latest_balance-sum_example = latest_balance-sum 1 small_ledger (
    post 3 1 (negsuc 4) "charge" "" none _
      (post 2 2 (pos 50) "topup" "" none _ (post 1 1 (pos 20) "grant" "" none [] empty)))

abbrev started_workload : Workload
started_workload = record (small_workload 100 WorkloadState.running (some 1)) {
  started_at = some 0;
}

abbrev stopped_workload : Workload
stopped_workload = record (small_workload 100 WorkloadState.stopped (some 1)) {
  started_at = some 0;
  stopped_at = some 900000000000;
}

abbrev ten_minutes : ℕ
ten_minutes = 10 * minute

abbrev small_books : Books
small_books = record {
  store = record small_store { workloads = stopped_workload ∷ [] };
  rate_cards = [];
  default_rate = λ o. 2;
  usage = [];
  ledger = small_ledger;
}

abbrev running_books : Books
running_books = record small_books {
  store = record small_store { workloads = started_workload ∷ [] };
}

slice_contiguous_example :
    (0 < 600000000000) × (ten_minutes ≡ 600000000000) × (600000000000 < 900000000000)
unfolding slice find meter_workload bill_row bill update
slice_contiguous_example =
    slice_contiguous 600000000000 700000000000 100 running_books started_workload
      (record started_workload { metered_until = some 600000000000 })
      (record stopped_workload { metered_until = some 600000000000 }) refl refl refl refl refl refl

meter_workload_twice_example :
    meter_workload 990000000000 100 (meter_workload 990000000000 100 small_books)
    ≡ meter_workload 990000000000 100 small_books
meter_workload_twice_example = meter_workload_twice 990000000000 100 small_books

abbrev small_budgets : List Budget
small_budgets =
    record { org_id = 1; scope_type = Scope.organization; scope_id = none; amount = 5 } ∷ []

authorize_launch_iff_example :
    (authorize_launch true 0 small_budgets small_books 1 none none ≡ none) ↔ (
      ((n : ℕ) × (latest_balance 1 small_ledger ≡ pos (suc n)))
      × All (Permits 0 1 none none small_books) small_budgets)
authorize_launch_iff_example = authorize_launch_iff 0 small_budgets small_books 1 none none

abbrev small_usage : Usage
small_usage = record {
  org_id = 1;
  workload_id = 100;
  gpu_id = 10;
  project_id = none;
  user_id = 7;
  period_start = 5;
  period_end = 9;
  gpu_seconds = 4;
  amount = 7200;
}

abbrev small_budget : BudgetRow
small_budget = record {
  id = 1;
  budget = record { org_id = 1; scope_type = Scope.organization; scope_id = none; amount = 160 };
}

-- The organization has spent 166 of 160.
shown-exceeded_example :
    let books = record small_books { usage = small_usage ∷ [] } in
    shows_exceeded (view_of_budget 2 10 31 1 books small_budget).status
    ≡ is_exhausted 2 1 books small_budget.budget
shown-exceeded_example =
    shown-exceeded 2 10 31 1 (record small_books { usage = small_usage ∷ [] }) small_budget
