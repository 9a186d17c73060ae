-- ===== src/Workloads/Status.antt =====
-- Reports from the agents: `UpdateStatus`, `requireWorkloadOnNode` and `RecordStageEvent` in
-- gpu-platform/internal/workloads/impl.go and events.go.
pub mod Keeps
pub mod Resurrect
pub mod Duplicate
pub mod Final
use node_hive_b2b.Prelude.{
  ℕ, Bool, true, false, not, ◌&&◌, String, List, [], ◌∷◌, map, Option, none, some, ◌==◌,
  if◌then◌else◌, is_null, coalesce, holds_id, str_eq, Result, ok, err, ◌>>=◌, ◌>>◌, guard, or_fail,
}
use node_hive_b2b.Domain.{WorkloadState, StopReason, GpuStatus, is_startable, is_terminal}
use node_hive_b2b.Sql.{select, update, count, find}
use node_hive_b2b.Store.{
  Time, Workload, WorkloadGpu, Gpu, Store, nudge, emit, go_promote_queued, go_meter_workload,
}
use node_hive_b2b.Workloads.Service.{
  Service, Authorize, Error, not_found, notify, audit_system, record_event, keep_if_empty,
}
use node_hive_b2b.Workloads.Outbox.{enqueue_stop}

-- The workload, if it exists and is assigned to the reporting node.
unfoldable pub require_workload_on_node : ℕ → ℕ → Store → Result Error Workload
require_workload_on_node node_id id s = do
  w ← or_fail (find (λ w. w.id == id) s.workloads) not_found
  guard (holds_id w.node_id node_id) not_found
  ok w

abbrev pub can_run : ℕ → Workload → Bool
can_run id w = w.id == id && is_startable w.status

abbrev pub run_row : String → String → String → Time → Workload → Workload
run_row ssh jupyter logs now w = record w {
  status = WorkloadState.running;
  ssh_endpoint = ssh;
  jupyter_endpoint = jupyter;
  started_at = some (coalesce w.started_at now);
  logs = keep_if_empty logs w.logs;
}

abbrev pub mark_running : ℕ → String → String → String → Time → Store → Store
mark_running id ssh jupyter logs now s = record s {
  workloads = update (can_run id) (run_row ssh jupyter logs now) s.workloads;
}

abbrev pub record_endpoint : ℕ → ℕ → String → String → Store → Store
record_endpoint id org_id stage endpoint s =
    if str_eq endpoint "" then s else record_event id org_id stage endpoint s

-- case domain.WorkloadRunning: `w` is the row as it was read.
unfoldable pub report_running :
    Service → Time → ℕ → ℕ → Workload → String → String → String → Store → Store
unfolding enqueue_stop notify record_event
report_running svc now cmd_id node_id w ssh jupyter logs s =
    if count (can_run w.id) s.workloads == 0
    then (if is_terminal w.status
        then emit (nudge node_id)
            (enqueue_stop now cmd_id w.org_id node_id w.id StopReason.failure s)
        else s)
    else notify svc w.org_id ("workloads" ∷ []) (
        record_event w.id w.org_id "ready" "workload running" (
          record_endpoint w.id w.org_id "jupyter_enabled" jupyter (
            record_endpoint w.id w.org_id "ssh_enabled" ssh
              (mark_running w.id ssh jupyter logs now s))))

abbrev pub can_end : ℕ → Workload → Bool
can_end id w = w.id == id && not (is_terminal w.status)

abbrev pub attached_to : ℕ → WorkloadGpu → Bool
attached_to id a = a.workload_id == id && is_null a.detached_at

-- UPDATE workload_gpus SET detached_at=… WHERE workload_id=… AND detached_at IS NULL.
abbrev pub detach : ℕ → Time → List WorkloadGpu → List WorkloadGpu
detach id now rows = update (attached_to id) (λ a. record a { detached_at = some now }) rows

unfoldable pub set_idle : List ℕ → List Gpu → List Gpu
set_idle [] gpus = gpus
set_idle (g ∷ gs) gpus =
    set_idle gs (update (λ x. x.id == g) (λ x. record x { status = GpuStatus.idle }) gpus)

abbrev pub end_row : WorkloadState → String → Time → Workload → Workload
end_row state logs now w = record w {
  status = state;
  stopped_at = some now;
  logs = keep_if_empty logs w.logs;
}

-- The transaction that ends a workload.
abbrev pub mark_ended : ℕ → WorkloadState → String → Time → Store → Store
mark_ended id state logs now s = record s {
  workloads = update (can_end id) (end_row state logs now) s.workloads;
  workload_gpus = detach id now s.workload_gpus;
  gpus = set_idle (map (λ a. a.gpu_id) (select (attached_to id) s.workload_gpus)) s.gpus;
}

abbrev pub go_meter : Option Authorize → ℕ → Store → Store
go_meter none id s = s
go_meter (some b) id s = emit (go_meter_workload id) s

-- case domain.WorkloadStopped, domain.WorkloadFailed.
unfoldable pub report_ended :
    Service → Time → Workload → WorkloadState → String → String → String → Store → Store
unfolding set_idle notify audit_system record_event
report_ended svc now w state stage action logs s =
    if count (can_end w.id) s.workloads == 0
    then s
    else go_meter svc.billing w.id (
        emit (go_promote_queued w.org_id) (
          notify svc w.org_id ("workloads" ∷ "queue" ∷ "budgets" ∷ []) (
            audit_system svc w.org_id "agent" action w.id none
              (record_event w.id w.org_id stage "" (mark_ended w.id state logs now s)))))

-- The default case sets the state, whatever it was.
unfoldable pub report_other : Workload → WorkloadState → Store → Store
report_other w state s = record s {
  workloads = update (λ x. x.id == w.id) (λ x. record x { status = state }) s.workloads;
}

unfoldable pub report :
    Service → Time → ℕ → ℕ → Workload → WorkloadState → String → String → String → Store → Store
report svc now cmd_id node_id w WorkloadState.running ssh jupyter logs s =
    report_running svc now cmd_id node_id w ssh jupyter logs s
report svc now cmd_id node_id w WorkloadState.stopped ssh jupyter logs s =
    report_ended svc now w WorkloadState.stopped "stopped" "workload.stopped" logs s
report svc now cmd_id node_id w WorkloadState.failed ssh jupyter logs s =
    report_ended svc now w WorkloadState.failed "failed" "workload.failed" logs s
report svc now cmd_id node_id w state ssh jupyter logs s = report_other w state s

unfoldable pub update_status :
    Service
    → Time
    → ℕ
    → ℕ
    → ℕ
    → WorkloadState
    → String
    → String
    → String
    → Store
    → Result Error Store
unfolding report require_workload_on_node
update_status svc now cmd_id node_id id state ssh jupyter logs s = do
  w ← require_workload_on_node node_id id s
  ok (report svc now cmd_id node_id w state ssh jupyter logs s)

unfoldable pub record_stage_event : ℕ → ℕ → String → Store → Result Error Store
unfolding record_event
record_stage_event node_id id stage s = do
  w ← or_fail (find (λ w. w.id == id) s.workloads) not_found
  guard (holds_id w.node_id node_id) not_found
  ok (record_event id w.org_id stage "" s)
