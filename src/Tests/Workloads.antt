-- ===== src/Tests/Workloads.antt =====
-- The theorems on workloads at the small organization.
use node_hive_b2b.Workloads.Sweep.{sweep_stuck}
use node_hive_b2b.Workloads.Steps.{reports, sweeps, done, then_step, Steps-Inv}
use node_hive_b2b.Prelude.{◌≡◌, refl, some, [], ◌∷◌, ok}
use node_hive_b2b.Domain.{WorkloadState}
use node_hive_b2b.Sql.{count, find}
use node_hive_b2b.Store.{Store}
use node_hive_b2b.Text.{trim_space, len}
use node_hive_b2b.Workloads.ImageRef.{matches, image_ref_pattern}
use node_hive_b2b.Workloads.Request.{validate_launch}
use node_hive_b2b.Workloads.Request.Bounds.{IsValidRequest, validate_launch-IsValidRequest}
use node_hive_b2b.Workloads.Invariant.{Inv}
use node_hive_b2b.Workloads.Status.{report, report_ended, require_workload_on_node, update_status}
use node_hive_b2b.Workloads.Status.Final.{KeepsEnded, update_status-KeepsEnded}
use node_hive_b2b.Workloads.Status.Duplicate.{update_status_twice}
use node_hive_b2b.Workloads.Status.Resurrect.{ended_at, update_status-resurrects}
use node_hive_b2b.Tests.Fixtures.{
  small_workload, small_service, small_store, small_store-Inv, small_request,
}

validate_launch-IsValidRequest_example : IsValidRequest small_request
unfolding validate_launch trim_space len matches image_ref_pattern
validate_launch-IsValidRequest_example =
    validate_launch-IsValidRequest small_request {r = small_request} refl

abbrev with_ended : Store → Store
with_ended s = record s { workloads = small_workload 100 WorkloadState.stopped (some 1) ∷ [] }

-- The store after workload 100 has run and stopped.
abbrev after_stop : Store
after_stop =
    report_ended small_service 5 (small_workload 100 WorkloadState.running (some 1))
      WorkloadState.stopped "stopped" "workload.stopped" "" small_store

-- The agent reports that workload 100 has stopped, and a sweep follows.
Steps-Inv_example : Inv (sweep_stuck small_service (λ e. e) 900000000000 after_stop).1
unfolding update_status report require_workload_on_node find report_ended
Steps-Inv_example =
    Steps-Inv small_service small_store
      (sweep_stuck small_service (λ e. e) 900000000000 after_stop).1 small_store-Inv
      (then_step after_stop (sweep_stuck small_service (λ e. e) 900000000000 after_stop).1
        (then_step small_store after_stop done
          (reports 5 1 1 100 WorkloadState.stopped "" "" "" refl refl))
        (sweeps (λ e. e) 900000000000 refl))

update_status-KeepsEnded_example : KeepsEnded small_store after_stop
unfolding update_status report require_workload_on_node find report_ended
update_status-KeepsEnded_example =
    update_status-KeepsEnded small_service 5 1 1 100 WorkloadState.stopped "" "" "" small_store
      after_stop refl refl

update_status_twice_example :
    update_status small_service 9 2 1 100 WorkloadState.failed "" "" "" after_stop ≡ ok after_stop
unfolding update_status report require_workload_on_node find report_ended
update_status_twice_example =
    update_status_twice small_service 5 9 1 2 1 100 WorkloadState.stopped WorkloadState.failed "" ""
      "" "" "" "" small_store after_stop refl refl refl

update_status-resurrects_example :
    (s' : Store) × (update_status small_service 9 2 1 100 WorkloadState.pending "" "" ""
        (with_ended small_store)
      ≡ ok s')
    × (count (ended_at 100) s'.workloads ≡ 0)
unfolding require_workload_on_node find
update_status-resurrects_example =
    update_status-resurrects small_service 9 2 1 100 WorkloadState.pending "" "" ""
      (with_ended small_store) (small_workload 100 WorkloadState.stopped (some 1)) refl refl
