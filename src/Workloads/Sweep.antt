-- ===== src/Workloads/Sweep.antt =====
-- `SweepStuck` in gpu-platform/internal/workloads/impl.go.
pub mod Frees
pub mod Keeps
use node_hive_b2b.Prelude.{
  ℕ, ◌+◌, ◌*◌, ◌<◌, Bool, true, false, not, ◌&&◌, ◌||◌, String, List, [], ◌∷◌, ◌++◌, map, Option,
  none, some, ltb, ◌==◌, if◌then◌else◌, is_null, coalesce, holds_id, length,
}
use node_hive_b2b.Domain.{WorkloadState, StopReason, GpuStatus, is_active, is_in_use, is_offline}
use node_hive_b2b.Sql.{select, update, count, exists}
use node_hive_b2b.Store.{Time, minute, Workload, WorkloadGpu, Gpu, Node, Kind, Store}
use node_hive_b2b.Commands.{Expired, expire_overdue, supersede_for_terminal_workloads}
use node_hive_b2b.Workloads.Service.{Service, notify, audit_system, keep_if_empty}
use node_hive_b2b.Workloads.Place.{contains}
use node_hive_b2b.Workloads.Status.{detach}

abbrev pub is_stopping : WorkloadState → Bool
is_stopping WorkloadState.queued = false
is_stopping WorkloadState.pending = false
is_stopping WorkloadState.running = false
is_stopping WorkloadState.stopping = true
is_stopping WorkloadState.stopped = false
is_stopping WorkloadState.failed = false

abbrev pub is_pending : WorkloadState → Bool
is_pending WorkloadState.queued = false
is_pending WorkloadState.pending = true
is_pending WorkloadState.running = false
is_pending WorkloadState.stopping = false
is_pending WorkloadState.stopped = false
is_pending WorkloadState.failed = false

-- `t < now() - interval '2 minutes'`.
abbrev pub is_stale : Time → Time → Bool
is_stale now t = ltb (t + 2 * minute) now

abbrev pub unseen : Time → Option Time → Bool
unseen now none = true
unseen now (some t) = is_stale now t

-- The join of case 1, for one workload and one node.
abbrev pub is_stuck_at : Time → Workload → Node → Bool
is_stuck_at now w n =
    holds_id w.node_id n.id
    && ((is_active w.status && (is_offline n.status && unseen now n.last_seen_at))
        || (is_stopping w.status && is_stale now (coalesce w.stopping_at w.created_at)))

abbrev pub is_stuck : Time → List Node → Workload → Bool
is_stuck now nodes w = exists (is_stuck_at now w) nodes

abbrev pub fail_row : Time → Workload → Workload
fail_row now w = record w {
  status = WorkloadState.failed;
  stopped_at = some now;
  stop_reason = some (coalesce w.stop_reason StopReason.failure);
}

-- Case 1: the updates of one stuck workload.
abbrev pub fail_one : Time → ℕ → Store → Store
fail_one now id s = record s {
  workloads = update (λ w. w.id == id) (fail_row now) s.workloads;
  workload_gpus = detach id now s.workload_gpus;
}

unfoldable pub fail_all : Time → List ℕ → Store → Store
fail_all now [] s = s
fail_all now (id ∷ ids) s = fail_all now ids (fail_one now id s)

-- A GPU that an active workload holds.
abbrev pub holds_gpu : List Workload → ℕ → WorkloadGpu → Bool
holds_gpu ws g a =
    a.gpu_id == g
    && (is_null a.detached_at && exists (λ w. w.id == a.workload_id && is_active w.status) ws)

abbrev pub is_held : Store → ℕ → Bool
is_held s g = exists (holds_gpu s.workloads g) s.workload_gpus

abbrev pub is_leaked : Store → Gpu → Bool
is_leaked s g = is_in_use g.status && not (is_held s g.id)

-- Case 2: the GPUs in use that no active workload holds.
unfoldable pub free_leaked : Store → Store
free_leaked s = record s {
  gpus = update (is_leaked s) (λ g. record g { status = GpuStatus.idle }) s.gpus;
}

abbrev pub undelivered : String
undelivered = "launch command could not be delivered to the agent (node unreachable)"

abbrev pub fail_undelivered_row : Time → Workload → Workload
fail_undelivered_row now w = record w {
  status = WorkloadState.failed;
  stopped_at = some now;
  stage = "failed";
  stop_reason = some (coalesce w.stop_reason StopReason.failure);
  logs = keep_if_empty w.logs undelivered;
}

abbrev pub is_pending_at : ℕ → Workload → Bool
is_pending_at id w = w.id == id && is_pending w.status

abbrev pub fail_undelivered : Time → ℕ → Store → Store
fail_undelivered now id s = record s {
  workloads = update (is_pending_at id) (fail_undelivered_row now) s.workloads;
  workload_gpus = detach id now s.workload_gpus;
}

-- The workload whose launch has expired.
abbrev pub if_launch : Kind → Option ℕ → Option ℕ
if_launch Kind.launch w = w
if_launch Kind.stop w = none
if_launch Kind.get_inventory w = none

abbrev pub expired_launch : Expired → Option ℕ
expired_launch e = if_launch e.kind e.workload_id

-- Case 3 for one expired command: the store, and the workload if it has been failed.
abbrev pub fail_expired : Time → Option ℕ → Store → Store × List ℕ
fail_expired now none s = (s, [])
fail_expired now (some id) s =
    if count (is_pending_at id) s.workloads == 0
    then (s, [])
    else (fail_undelivered now id s, id ∷ [])

unfoldable pub fail_expired_all : Time → List Expired → Store → Store × List ℕ
fail_expired_all now [] s = (s, [])
fail_expired_all now (e ∷ es) s =
    let r = fail_expired now (expired_launch e) s in
    let rest = fail_expired_all now es r.0 in (rest.0, r.1 ++ rest.1)

-- The audit records and hints of the reclaims; each org is notified once.
unfoldable pub report_reclaims : Service → List Workload → List ℕ → Store → Store
report_reclaims svc [] seen s = s
report_reclaims svc (w ∷ ws) seen s =
    let audited =
      audit_system svc w.org_id "system" "workload.failed" w.id (some "sweep_reclaim") s in
    let hinted =
      if contains w.org_id seen
      then audited
      else notify svc w.org_id ("workloads" ∷ "queue" ∷ []) audited in
    report_reclaims svc ws (w.org_id ∷ seen) hinted

unfoldable pub announce_reclaims : Service → List ℕ → Store → Store
unfolding report_reclaims
announce_reclaims svc stuck s =
    if (svc.has_audit || svc.has_publish) && ltb 0 (length stuck)
    then report_reclaims svc (select (λ w. contains w.id stuck) s.workloads) [] s
    else s

abbrev pub stuck_ids : Time → Store → List ℕ
stuck_ids now s = map (λ w. w.id) (select (is_stuck now s.nodes) s.workloads)

-- The transaction: cases 1 to 4, and the freeing of GPUs once more.
unfoldable pub sweep_tables : (String → String) → Time → Store → Store × List ℕ
unfolding fail_all free_leaked fail_expired_all
sweep_tables overdue_error now s =
    let stuck = stuck_ids now s in
    let freed = free_leaked (fail_all now stuck s) in
    let (expired_s, expired) = expire_overdue overdue_error now freed in
    let (failed_s, undelivered_ids) = fail_expired_all now expired expired_s in
    let (superseded, superseded_count) = supersede_for_terminal_workloads failed_s in
    (free_leaked superseded, stuck ++ undelivered_ids)

unfoldable pub sweep_stuck : Service → (String → String) → Time → Store → ℕ × Store
unfolding sweep_tables announce_reclaims
sweep_stuck svc overdue_error now s =
    let (swept, stuck) = sweep_tables overdue_error now s in
    (length stuck, announce_reclaims svc stuck swept)
