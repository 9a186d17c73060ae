-- ===== src/Workloads/Status/Resurrect.antt =====
-- The default case of `UpdateStatus` in gpu-platform/internal/workloads/impl.go.
use node_hive_b2b.Prelude.{ℕ, ◌≡◌, refl, Bool, false, String, arith, ◌==◌, ◌&&◌, ok, subst}
use node_hive_b2b.Domain.{WorkloadState, is_terminal}
use node_hive_b2b.Sql.{count}
use node_hive_b2b.Sql.Counts.{count-update-none}
use node_hive_b2b.Store.{Time, Workload, Store}
use node_hive_b2b.Workloads.Service.{Service}
use node_hive_b2b.Workloads.Status.{report_other, report, require_workload_on_node, update_status}
use node_hive_b2b.Workloads.Status.Final.{is_named}
use node_hive_b2b.Workloads.Status.Duplicate.{required-Finds}

abbrev pub ended_at : ℕ → Workload → Bool
ended_at id x = x.id == id && is_terminal x.status

report_other-not_ended :
    (w : Workload) (state : WorkloadState) (s : Store)
    → is_terminal state ≡ false
    → count (ended_at w.id) (report_other w state s).workloads ≡ 0
unfolding report_other
report_other-not_ended w state s n =
    count-update-none (ended_at w.id) (λ x. x.id == w.id) _ s.workloads (λ x e. ground arith)
      (λ x e. ground arith)

report-not_ended :
    (svc : Service) (now : Time) (cmd_id node_id : ℕ) (w : Workload) (state : WorkloadState)
    (ssh jupyter logs : String) (s : Store)
    → is_named state ≡ false
    → count (ended_at w.id) (report svc now cmd_id node_id w state ssh jupyter logs s).workloads ≡ 0
unfolding report
report-not_ended svc now cmd_id node_id w WorkloadState.queued ssh jupyter logs s n =
    report_other-not_ended w _ s refl
report-not_ended svc now cmd_id node_id w WorkloadState.pending ssh jupyter logs s n =
    report_other-not_ended w _ s refl
report-not_ended svc now cmd_id node_id w WorkloadState.running ssh jupyter logs s n = cc
report-not_ended svc now cmd_id node_id w WorkloadState.stopping ssh jupyter logs s n =
    report_other-not_ended w _ s refl
report-not_ended svc now cmd_id node_id w WorkloadState.stopped ssh jupyter logs s n = cc
report-not_ended svc now cmd_id node_id w WorkloadState.failed ssh jupyter logs s n = cc

-- A report of any other state, such as `pending` or `stopping`, for a workload that is assigned to
-- the reporting node is always accepted, and after it the workload has not ended, also when it had
-- ended before.
pub update_status-resurrects :
    (svc : Service) (now : Time) (cmd_id node_id id : ℕ) (state : WorkloadState)
    (ssh jupyter logs : String) (s : Store) (w : Workload)
    → is_named state ≡ false
    → require_workload_on_node node_id id s ≡ ok w
    → (s' : Store) × (update_status svc now cmd_id node_id id state ssh jupyter logs s ≡ ok s')
      × (count (ended_at id) s'.workloads ≡ 0)
unfolding update_status
update_status-resurrects svc now cmd_id node_id id state ssh jupyter logs s w n e = (
  report svc now cmd_id node_id w state ssh jupyter logs s,
  rw e refl,
  subst
      (λ k.
        count (ended_at k) (report svc now cmd_id node_id w state ssh jupyter logs s).workloads ≡ 0)
      (required-Finds node_id id s w e).keyed
      (report-not_ended svc now cmd_id node_id w state ssh jupyter logs s n),
)
