-- ===== src/Workloads/Stop.antt =====
-- `Stop` in gpu-platform/internal/workloads/impl.go.
pub mod Outcome
use node_hive_b2b.Prelude.{
  ℕ, Bool, true, false, ◌&&◌, String, List, [], ◌∷◌, Option, none, some, ◌==◌, if◌then◌else◌,
  Result, ok, err, ◌>>=◌, or_fail,
}
use node_hive_b2b.Domain.{WorkloadState, StopReason, is_startable}
use node_hive_b2b.Sql.{update, find}
use node_hive_b2b.Store.{Time, Workload, Store, nudge, emit}
use node_hive_b2b.Workloads.Service.{Service, Error, not_found, notify, audit_system, record_event}
use node_hive_b2b.Workloads.Outbox.{enqueue_stop}

-- WHERE id = … AND status IN ('pending','running').
abbrev pub can_stop : ℕ → Workload → Bool
can_stop id w = w.id == id && is_startable w.status

abbrev pub mark_stopping : ℕ → StopReason → Time → Store → Store
mark_stopping id reason now s = record s {
  workloads =
      update (can_stop id)
        (λ w. record w {
          status = WorkloadState.stopping;
          stop_reason = some reason;
          stopping_at = some now;
        })
        s.workloads;
}

-- The stop command, for a workload that has a node.
abbrev pub stop_command : Time → ℕ → ℕ → Option ℕ → ℕ → StopReason → Store → Store
stop_command now cmd_id org_id none id reason s = s
stop_command now cmd_id org_id (some node_id) id reason s =
    enqueue_stop now cmd_id org_id node_id id reason s

abbrev pub nudge_node : Option ℕ → Store → Store
nudge_node none s = s
nudge_node (some node_id) s = emit (nudge node_id) s

-- User and administrator stops are audited elsewhere.
abbrev pub audit_stop : Service → ℕ → ℕ → StopReason → Store → Store
audit_stop svc org_id id StopReason.user s = s
audit_stop svc org_id id StopReason.admin s = s
audit_stop svc org_id id StopReason.idle_reclaim s =
    audit_system svc org_id "system" "workload.stop" id (some "idle_reclaim") s
audit_stop svc org_id id StopReason.failure s =
    audit_system svc org_id "system" "workload.stop" id (some "failure") s

-- What a stop of the row `w` leaves: the transaction, then the event, the audit record, the hints.
abbrev pub stop_row : Service → Time → ℕ → ℕ → StopReason → Workload → Store → Store
stop_row svc now cmd_id id reason w s =
    let committed =
      stop_command now cmd_id w.org_id w.node_id id reason (mark_stopping id reason now s) in
    let recorded = record_event id w.org_id "stopping" "" committed in
    let audited = audit_stop svc w.org_id id reason recorded in
    nudge_node w.node_id (notify svc w.org_id ("workloads" ∷ []) audited)

unfoldable pub stop : Service → Time → ℕ → ℕ → StopReason → Store → Result Error Store
stop svc now cmd_id id reason s = do
  w ← or_fail (find (can_stop id) s.workloads) not_found
  ok (stop_row svc now cmd_id id reason w s)
