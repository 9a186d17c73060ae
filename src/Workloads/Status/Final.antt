-- ===== src/Workloads/Status/Final.antt =====
-- Agents' reports and the workloads that have ended
-- (`UpdateStatus` in gpu-platform/internal/workloads/impl.go).
use node_hive_b2b.Prelude.{
  ℕ, ◌≤◌, ◌≡◌, refl, Bool, true, false, not, String, Option, none, some, arith, ◌==◌, ◌&&◌,
  Bool-cases, inl, inr, &&_true, subst, if◌then◌else◌, str_eq, ok, Result-cases, same_ok,
  not_ok_and_err,
}
use node_hive_b2b.Domain.{WorkloadState, is_startable, is_terminal}
use node_hive_b2b.Sql.{count, update}
use node_hive_b2b.Sql.Counts.{count-le-update}
use node_hive_b2b.Store.{Time, Workload, Store}
use node_hive_b2b.Workloads.Service.{Service, Authorize, notify, audit_system, record_event}
use node_hive_b2b.Workloads.Outbox.{enqueue_stop}
use node_hive_b2b.Workloads.Status.{
  can_run, run_row, mark_running, report_running, can_end, end_row, mark_ended, report_ended,
  record_endpoint, go_meter, report, require_workload_on_node, update_status,
}

abbrev pub ended_and : (Workload → Bool) → Workload → Bool
ended_and t x = is_terminal x.status && t x

-- Every row that has ended is still there, and no test on rows tells that it has changed.
pub record KeepsEnded (s s' : Store) : Type 0 where
  pub kept :
      (t : Workload → Bool) → count (ended_and t) s.workloads ≤ count (ended_and t) s'.workloads

refl-KeepsEnded : (s s' : Store) → s'.workloads ≡ s.workloads → KeepsEnded s s'
refl-KeepsEnded s s' e = record { kept = λ t. rw e (omega arith) }

trans-KeepsEnded : {s t u : Store} → KeepsEnded s t → KeepsEnded t u → KeepsEnded s u
trans-KeepsEnded g h = record { kept = λ r. omega (arith, g.kept r, h.kept r) }

workloads-KeepsEnded :
    (p : Workload → Bool) (f : Workload → Workload) (s s' : Store)
    → ((x : Workload) → p x ≡ true → is_terminal x.status ≡ false)
    → s'.workloads ≡ update p f s.workloads
    → KeepsEnded s s'
workloads-KeepsEnded p f s s' h w = record {
  kept = λ t. rw w (
      count-le-update (ended_and t) p (ended_and t) f s.workloads
        (λ x e k. absurd (ground (arith, h x e))) (λ x e k. k));
}

record_event-KeepsEnded :
    (w org_id : ℕ) (stage message : String) (s : Store)
    → KeepsEnded s (record_event w org_id stage message s)
unfolding record_event
record_event-KeepsEnded w org_id stage message s =
    workloads-KeepsEnded (λ x. x.id == w && not (is_terminal x.status)) _ s _ (λ x e. ground arith)
      refl

startable_not_ended : (w : WorkloadState) → is_startable w ≡ true → is_terminal w ≡ false
startable_not_ended WorkloadState.queued e = refl
startable_not_ended WorkloadState.pending e = refl
startable_not_ended WorkloadState.running e = refl
startable_not_ended WorkloadState.stopping e = refl
startable_not_ended WorkloadState.stopped e = cc
startable_not_ended WorkloadState.failed e = cc

if_KeepsEnded :
    {s : Store} (b : Bool) {t u : Store}
    → KeepsEnded s t
    → KeepsEnded s u
    → KeepsEnded s (if b then t else u)
if_KeepsEnded true g h = g
if_KeepsEnded false g h = h

record_endpoint-KeepsEnded :
    (id org_id : ℕ) (stage endpoint : String) (s : Store)
    → KeepsEnded s (record_endpoint id org_id stage endpoint s)
record_endpoint-KeepsEnded id org_id stage endpoint s =
    if_KeepsEnded (str_eq endpoint "") (refl-KeepsEnded s s refl)
      (record_event-KeepsEnded id org_id stage endpoint s)

report_running-KeepsEnded :
    (svc : Service) (now : Time) (cmd_id node_id : ℕ) (w : Workload) (ssh jupyter logs : String)
    (s : Store)
    → KeepsEnded s (report_running svc now cmd_id node_id w ssh jupyter logs s)
unfolding report_running enqueue_stop notify
report_running-KeepsEnded svc now cmd_id node_id w ssh jupyter logs s =
    if_KeepsEnded (count (can_run w.id) s.workloads == 0)
      (if_KeepsEnded (is_terminal w.status) (refl-KeepsEnded s _ refl) (refl-KeepsEnded s s refl))
      (trans-KeepsEnded
        (workloads-KeepsEnded (can_run w.id) (run_row ssh jupyter logs now) s
          (mark_running w.id ssh jupyter logs now s)
          (λ x k. startable_not_ended x.status (&&_true (x.id == w.id) (is_startable x.status) k).1)
          refl)
        (trans-KeepsEnded (record_endpoint-KeepsEnded w.id w.org_id "ssh_enabled" ssh _) (
          trans-KeepsEnded (record_endpoint-KeepsEnded w.id w.org_id "jupyter_enabled" jupyter _) (
            trans-KeepsEnded (record_event-KeepsEnded w.id w.org_id "ready" "workload running" _)
              (refl-KeepsEnded _ _ refl)))))

go_meter_frame :
    (b : Option Authorize) (id : ℕ) (s : Store)
    → go_meter b id s ≡ record s { effects = (go_meter b id s).effects }
go_meter_frame none id s = refl
go_meter_frame (some b) id s = refl

-- The tables that `report_ended` leaves when the workload has not ended before.
abbrev pub ended_tables : Workload → WorkloadState → String → String → Time → Store → Store
ended_tables w state stage logs now s =
    record_event w.id w.org_id stage "" (mark_ended w.id state logs now s)

pub report_ended-workloads :
    (svc : Service) (now : Time) (w : Workload) (state : WorkloadState) (stage action logs : String)
    (s : Store)
    → (report_ended svc now w state stage action logs s).workloads
      ≡ (if count (can_end w.id) s.workloads == 0
          then s
          else ended_tables w state stage logs now s).workloads
unfolding report_ended notify audit_system
report_ended-workloads svc now w state stage action logs s =
    elim (Bool-cases (count (can_end w.id) s.workloads == 0)) [
      | inl e ↦ rw e refl
      | inr e ↦ rw (e, go_meter_frame svc.billing w.id _) refl
    ]

report_ended-KeepsEnded :
    (svc : Service) (now : Time) (w : Workload) (state : WorkloadState) (stage action logs : String)
    (s : Store)
    → KeepsEnded s (report_ended svc now w state stage action logs s)
report_ended-KeepsEnded svc now w state stage action logs s =
    trans-KeepsEnded
      (if_KeepsEnded (count (can_end w.id) s.workloads == 0) (refl-KeepsEnded s s refl) (
        trans-KeepsEnded
          (workloads-KeepsEnded (can_end w.id) (end_row state logs now) s
            (mark_ended w.id state logs now s) (λ x k. ground arith) refl)
          (record_event-KeepsEnded w.id w.org_id stage "" _)))
      (refl-KeepsEnded _ _ (report_ended-workloads svc now w state stage action logs s))

-- The states that the three cases of `UpdateStatus` name.
abbrev pub is_named : WorkloadState → Bool
is_named WorkloadState.queued = false
is_named WorkloadState.pending = false
is_named WorkloadState.running = true
is_named WorkloadState.stopping = false
is_named WorkloadState.stopped = true
is_named WorkloadState.failed = true

report-KeepsEnded :
    (svc : Service) (now : Time) (cmd_id node_id : ℕ) (w : Workload) (state : WorkloadState)
    (ssh jupyter logs : String) (s : Store)
    → is_named state ≡ true
    → KeepsEnded s (report svc now cmd_id node_id w state ssh jupyter logs s)
unfolding report
report-KeepsEnded svc now cmd_id node_id w WorkloadState.queued ssh jupyter logs s q = cc
report-KeepsEnded svc now cmd_id node_id w WorkloadState.pending ssh jupyter logs s q = cc
report-KeepsEnded svc now cmd_id node_id w WorkloadState.running ssh jupyter logs s q =
    report_running-KeepsEnded svc now cmd_id node_id w ssh jupyter logs s
report-KeepsEnded svc now cmd_id node_id w WorkloadState.stopping ssh jupyter logs s q = cc
report-KeepsEnded svc now cmd_id node_id w WorkloadState.stopped ssh jupyter logs s q =
    report_ended-KeepsEnded svc now w _ _ _ logs s
report-KeepsEnded svc now cmd_id node_id w WorkloadState.failed ssh jupyter logs s q =
    report_ended-KeepsEnded svc now w _ _ _ logs s

-- A report of `running`, `stopped` or `failed` that is accepted changes no workload that has ended,
-- neither the reported one nor another.
pub update_status-KeepsEnded :
    (svc : Service) (now : Time) (cmd_id node_id id : ℕ) (state : WorkloadState)
    (ssh jupyter logs : String) (s s' : Store)
    → is_named state ≡ true
    → update_status svc now cmd_id node_id id state ssh jupyter logs s ≡ ok s'
    → KeepsEnded s s'
unfolding update_status
update_status-KeepsEnded svc now cmd_id node_id id state ssh jupyter logs s s' q e =
    elim (Result-cases (require_workload_on_node node_id id s)) [
      | inl (w, h) ↦
          subst (KeepsEnded s) (same_ok (rw h refl) e)
            (report-KeepsEnded svc now cmd_id node_id w state ssh jupyter logs s q)
      | inr (x, h) ↦ not_ok_and_err {e = x} e (rw h refl)
    ]
