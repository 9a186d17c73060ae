-- ===== src/Workloads/Steps.antt =====
-- Histories of the operations of the Workloads service
-- (gpu-platform/internal/workloads/impl.go and queue.go).
use node_hive_b2b.Prelude.{
  zero_or_pos, ℕ, ◌≡◌, refl, subst, Bool, true, false, String, [], ◌∷◌, inl, inr, ok, arith, ap,
  ◌∙◌, same_ok, bind-ok, ◌==◌, guard-ok, Result-cases, not_ok_and_err, &&_true, or_fail, holds_id,
}
use node_hive_b2b.Domain.{WorkloadState, StopReason, is_queued, is_active}
use node_hive_b2b.Sql.{update, count, find}
use node_hive_b2b.Sql.Counts.{count-update, count-update-le}
use node_hive_b2b.Store.{Time, Workload, Store}
use node_hive_b2b.Workloads.Service.{Service, invalid_request, not_queued, not_found}
use node_hive_b2b.Workloads.Request.{LaunchRequest, validate_launch}
use node_hive_b2b.Workloads.Launch.{Draws, admit, checked, launch}
use node_hive_b2b.Workloads.Launch.Commits.{IsFresh}
use node_hive_b2b.Workloads.Launch.Outcome.{launch_outcome}
use node_hive_b2b.Workloads.Stop.{can_stop, stop}
use node_hive_b2b.Workloads.Stop.Outcome.{stop_outcome}
use node_hive_b2b.Workloads.Status.{update_status, record_stage_event}
use node_hive_b2b.Workloads.Status.Keeps.{update_status-Inv}
use node_hive_b2b.Workloads.Queue.{
  Attempt, can_dequeue, cancel_row, cancel_queued, promote_queued, promote_all_queued,
}
use node_hive_b2b.Workloads.Queue.Promote.{promote_queued-keeps, promote_all_queued-keeps}
use node_hive_b2b.Workloads.Sweep.{sweep_stuck}
use node_hive_b2b.Workloads.Sweep.Keeps.{sweep_stuck-Inv}
use node_hive_b2b.Workloads.Invariant.{Inv, active_at, queued_at}
use node_hive_b2b.Workloads.Invariant.Frame.{notify-Inv, record_event-Inv}

queued_inactive : (w : WorkloadState) → is_queued w ≡ true → is_active w ≡ false
queued_inactive WorkloadState.queued e = refl
queued_inactive WorkloadState.pending e = cc
queued_inactive WorkloadState.running e = cc
queued_inactive WorkloadState.stopping e = cc
queued_inactive WorkloadState.stopped e = cc
queued_inactive WorkloadState.failed e = cc

checked-ok : (q r : LaunchRequest) → checked (validate_launch q) ≡ ok r → validate_launch q ≡ ok r
checked-ok q r e = elim (Result-cases (validate_launch q)) [
  | inl (a, h) ↦ h ∙ ap ok (same_ok {x = checked (validate_launch q)} {a = a} (rw h refl) e)
  | inr (x, h) ↦ not_ok_and_err {e = invalid_request x} e (rw h refl)
]

-- A launch that succeeds keeps the invariant.
launch-Inv :
    (svc : Service) (locked : ℕ → Bool) (scanned : Store) (org_id : ℕ) (q : LaunchRequest)
    (d : Draws) (now : Time) (s s' : Store) (w : Workload)
    → Inv s
    → IsFresh d.workload_id s
    → launch svc locked scanned org_id q d now s ≡ ok (w, s')
    → Inv s'
unfolding launch
launch-Inv svc locked scanned org_id q d now s s' w v f e =
    let (r, valid, rest) = bind-ok (checked (validate_launch q)) e in
    let (_, admitted, _) = bind-ok (admit svc.billing org_id r.department_id r.project_id) rest in
    let (x, t, launched, _, outcome) =
      launch_outcome svc locked scanned org_id q d now s r v f (checked-ok q r valid) admitted in
    subst Inv (ap (λ p. p.1) (same_ok launched e))
      (elim outcome [ inl queued ↦ queued.keeps | inr (p, placed) ↦ placed.keeps ])

stop-Inv :
    (svc : Service) (now : Time) (cmd_id id : ℕ) (reason : StopReason) (s s' : Store)
    → Inv s
    → stop svc now cmd_id id reason s ≡ ok s'
    → Inv s'
stop-Inv svc now cmd_id id reason s s' v e =
    let outcome = stop_outcome svc now cmd_id id reason s in
    elim (zero_or_pos (count (can_stop id) s.workloads)) [
      | inl z ↦ not_ok_and_err e (outcome.0 z)
      | inr z ↦
          let (w, t, stopped, stops) = outcome.1 z in subst Inv (same_ok stopped e) (stops.keeps v)
    ]

cancel_row-Inv :
    (id : ℕ) (now : Time) (s : Store)
    → Inv s
    → Inv (record s { workloads = update (can_dequeue id) (cancel_row now) s.workloads })
cancel_row-Inv id now s v = record {
  gpu_keys = v.gpu_keys;
  one_active = v.one_active;
  idle_free = v.idle_free;
  held = λ w h. omega (
    arith,
    v.held w h,
    count-update (active_at w) (can_dequeue id) (cancel_row now) s.workloads
        (λ x e. rw (queued_inactive x.status (&&_true (x.id == id) _ e).1) refl),
  );
  queued_unplaced = λ w h. v.queued_unplaced w (
      omega (
        arith,
        h,
        count-update-le (queued_at w) (can_dequeue id) (queued_at w) (cancel_row now) s.workloads
            (λ x e k. absurd (ground arith)) (λ x e k. k),
      ));
}

cancel_queued-Inv :
    (svc : Service) (now : Time) (id : ℕ) (s s' : Store)
    → Inv s
    → cancel_queued svc now id s ≡ ok s'
    → Inv s'
unfolding cancel_queued
cancel_queued-Inv svc now id s s' v e =
    let (w, _, done) = bind-ok (or_fail (find (can_dequeue id) s.workloads) not_queued) e in
    subst Inv (same_ok refl done) (
      notify-Inv svc w.org_id ("workloads" ∷ "queue" ∷ []) _ (
        record_event-Inv id w.org_id "stopped" "cancelled from queue" _
          (cancel_row-Inv id now s v)))

record_stage_event-Inv :
    (node_id id : ℕ) (stage : String) (s s' : Store)
    → Inv s
    → record_stage_event node_id id stage s ≡ ok s'
    → Inv s'
unfolding record_stage_event
record_stage_event-Inv node_id id stage s s' v e =
    let (w, _, rest) = bind-ok (or_fail (find (λ w. w.id == id) s.workloads) not_found) e in
    let (_, done) = guard-ok (holds_id w.node_id node_id) not_found rest in
    subst Inv (same_ok refl done) (record_event-Inv id w.org_id stage "" s v)

-- One operation of the service on the store. A launch draws a new id, and the protocol of the agents
-- has no `queued`.
pub data Step (svc : Service) (s s' : Store) : Type 0 where
  launches :
      (locked : ℕ → Bool) (scanned : Store) (org_id : ℕ) (q : LaunchRequest) (d : Draws)
      (now : Time) (w : Workload)
      → IsFresh d.workload_id s
      → launch svc locked scanned org_id q d now s ≡ ok (w, s')
      → Step svc s s'
  stops :
      (now : Time) (cmd_id id : ℕ) (reason : StopReason)
      → stop svc now cmd_id id reason s ≡ ok s'
      → Step svc s s'
  reports :
      (now : Time) (cmd_id node_id id : ℕ) (state : WorkloadState) (ssh jupyter logs : String)
      → is_queued state ≡ false
      → update_status svc now cmd_id node_id id state ssh jupyter logs s ≡ ok s'
      → Step svc s s'
  reports_stage :
      (node_id id : ℕ) (stage : String)
      → record_stage_event node_id id stage s ≡ ok s'
      → Step svc s s'
  cancels : (now : Time) (id : ℕ) → cancel_queued svc now id s ≡ ok s' → Step svc s s'
  promotes :
      (attempts : ℕ → Attempt) (org_id : ℕ)
      → (promote_queued svc attempts org_id s).store ≡ s'
      → Step svc s s'
  promotes_all :
      (attempts : ℕ → ℕ → Attempt) → (promote_all_queued svc attempts s).store ≡ s' → Step svc s s'
  sweeps :
      (overdue_error : String → String) (now : Time)
      → (sweep_stuck svc overdue_error now s).1 ≡ s'
      → Step svc s s'

pub data Steps (svc : Service) (s : Store) : Store → Type 0 where
  done : Steps svc s s
  then_step : (t u : Store) → Steps svc s t → Step svc t u → Steps svc s u

Step-Inv : (svc : Service) (s s' : Store) → Inv s → Step svc s s' → Inv s'
Step-Inv svc s s' v (launches locked scanned org_id q d now w f e) =
    launch-Inv svc locked scanned org_id q d now s s' w v f e
Step-Inv svc s s' v (stops now cmd_id id reason e) = stop-Inv svc now cmd_id id reason s s' v e
Step-Inv svc s s' v (reports now cmd_id node_id id state ssh jupyter logs q e) =
    update_status-Inv svc now cmd_id node_id id state ssh jupyter logs s s' q v e
Step-Inv svc s s' v (reports_stage node_id id stage e) =
    record_stage_event-Inv node_id id stage s s' v e
Step-Inv svc s s' v (cancels now id e) = cancel_queued-Inv svc now id s s' v e
Step-Inv svc s s' v (promotes attempts org_id e) =
    subst Inv e (promote_queued-keeps svc attempts org_id s v).keeps
Step-Inv svc s s' v (promotes_all attempts e) =
    subst Inv e (promote_all_queued-keeps svc attempts s v).1
Step-Inv svc s s' v (sweeps overdue_error now e) =
    subst Inv e (sweep_stuck-Inv svc overdue_error now s v)

-- However launches, stops, reports, cancellations, promotions and sweeps follow one another, the
-- invariant of workloads, GPUs and attachments is kept, when launches draw new ids and no agent
-- reports `queued`.
pub Steps-Inv : (svc : Service) (s s' : Store) → Inv s → Steps svc s s' → Inv s'
Steps-Inv svc s _ v done = v
Steps-Inv svc s _ v (then_step t s' steps step) = Step-Inv svc t s' (Steps-Inv svc s t v steps) step
