-- ===== src/Workloads/Status/Keeps.antt =====
-- Agents' reports and the invariant (`UpdateStatus` in gpu-platform/internal/workloads/impl.go).
use node_hive_b2b.Prelude.{
  ℕ, ◌+◌, ◌≤◌, ◌<◌, ◌≡◌, refl, ◌∙◌, Bool, true, false, String, List, [], ◌∷◌, map, Option, none,
  some, arith, ◌==◌, ==_iff, Bool-cases, inl, inr, &&_true, subst, if◌then◌else◌, str_eq, ok,
  Result-cases, same_ok, not_ok_and_err,
}
use node_hive_b2b.Domain.{
  WorkloadState, StopReason, is_startable, is_active, is_queued, is_terminal,
}
use node_hive_b2b.Sql.{select, count, update, exists}
use node_hive_b2b.Sql.Counts.{count-update, count-update-le, count-le-update, count-update_self}
use node_hive_b2b.Store.{Time, Workload, WorkloadGpu, Gpu, Store, nudge}
use node_hive_b2b.Workloads.Service.{Service, Authorize}
use node_hive_b2b.Workloads.Place.{is_attached, contains}
use node_hive_b2b.Workloads.Invariant.{Inv, idle_at, active_of, of_workload, active_at, queued_at}
use node_hive_b2b.Workloads.Invariant.Frame.{
  record_event-Inv, workloads-Inv, notify-Inv, audit_system-Inv, emit-Inv, enqueue_stop-Inv,
  startable_active, startable_not_queued,
}
use node_hive_b2b.Workloads.Status.{
  can_run, mark_running, report_running, can_end, end_row, attached_to, detach, set_idle,
  mark_ended, report_ended, record_endpoint, go_meter, report_other, report,
  require_workload_on_node, update_status,
}

mark_running-Inv :
    (id : ℕ) (ssh jupyter logs : String) (now : Time) (s : Store)
    → Inv s
    → Inv (mark_running id ssh jupyter logs now s)
mark_running-Inv id ssh jupyter logs now s v =
    workloads-Inv (can_run id) _ s
      (λ w x e.
        rw (startable_active x.status (&&_true (x.id == id) (is_startable x.status) e).1) refl)
      (λ w x e.
        rw (startable_not_queued x.status (&&_true (x.id == id) (is_startable x.status) e).1) refl)
      v

-- An idle GPU after `set_idle` was idle before, or is one of the GPUs.
set_idle-idle :
    (g : ℕ) (ids : List ℕ) (gpus : List Gpu)
    → contains g ids ≡ false
    → count (idle_at g) (set_idle ids gpus) ≡ count (idle_at g) gpus
unfolding set_idle exists
set_idle-idle g [] gpus c = refl
set_idle-idle g (x ∷ ids) gpus c =
    set_idle-idle g ids _ (ground arith)
    ∙ count-update (idle_at g) (λ y. y.id == x) _ gpus (λ y e. ground arith)

set_idle-keys :
    (g : ℕ) (ids : List ℕ) (gpus : List Gpu)
    → count (λ x. x.id == g) (set_idle ids gpus) ≡ count (λ x. x.id == g) gpus
unfolding set_idle
set_idle-keys g [] gpus = refl
set_idle-keys g (x ∷ ids) gpus =
    set_idle-keys g ids _ ∙ count-update (λ y. y.id == g) (λ y. y.id == x) _ gpus (λ y e. refl)

-- The GPUs of the detached rows.
abbrev freed : ℕ → List WorkloadGpu → List ℕ
freed id rows = map (λ a. a.gpu_id) (select (attached_to id) rows)

pub detach-le :
    (g id : ℕ) (now : Time) (rows : List WorkloadGpu)
    → count (is_attached g) (detach id now rows) ≤ count (is_attached g) rows
detach-le g id now rows =
    count-update-le (is_attached g) (attached_to id) (is_attached g) _ rows (λ a e h. ground arith)
      (λ a e h. h)

-- A GPU with one active attachment that is freed has none left after the detachment.
freed-detached :
    (g id : ℕ) (now : Time) (rows : List WorkloadGpu)
    → contains g (freed id rows) ≡ true
    → count (is_attached g) (detach id now rows) + 1 ≤ count (is_attached g) rows
unfolding count update select exists
freed-detached g id now [] c = cc
freed-detached g id now (x ∷ rows) c = elim (Bool-cases (attached_to id x)) [
  | inl e ↦ elim (Bool-cases (x.gpu_id == g)) [
    | inl f ↦ ground (arith, detach-le g id now rows)
    | inr f ↦ ground (arith, freed-detached g id now rows)
  ]
  | inr e ↦ ground (arith, freed-detached g id now rows)
]

mark_ended-Inv :
    (id : ℕ) (state : WorkloadState) (logs : String) (now : Time) (s : Store)
    → is_queued state ≡ false
    → Inv s
    → Inv (mark_ended id state logs now s)
mark_ended-Inv id state logs now s q v = record {
  gpu_keys = λ g. omega (arith, v.gpu_keys g, set_idle-keys g (freed id s.workload_gpus) s.gpus);
  one_active = λ g. omega (arith, v.one_active g, detach-le g id now s.workload_gpus);
  idle_free = λ g h. elim (Bool-cases (contains g (freed id s.workload_gpus))) [
    | inl e ↦ omega (arith, freed-detached g id now s.workload_gpus e, v.one_active g)
    | inr e ↦ omega (
      arith,
      set_idle-idle g (freed id s.workload_gpus) s.gpus e,
      detach-le g id now s.workload_gpus,
      v.idle_free g,
    )
  ];
  held = λ w h. elim (Bool-cases (w == id)) [
    | inl e ↦
        let none_left =
          count-update_self (active_of id) (λ a. record a { detached_at = some now })
            s.workload_gpus (λ a f. ground arith) in
        absurd (
          omega (
            arith,
            none_left,
            subst (λ k. 0 < count (active_of k) (detach id now s.workload_gpus)) ((==_iff w id).0 e)
                h,
          ))
    | inr e ↦
        let before =
          count-update-le (active_of w) (attached_to id) (active_of w)
            (λ a. record a { detached_at = some now }) s.workload_gpus (λ a f k. ground arith)
            (λ a f k. k) in
        omega (
          arith,
          before,
          v.held w,
          count-update (active_at w) (can_end id) (end_row state logs now) s.workloads
              (λ x f. ground arith),
        )
  ];
  queued_unplaced = λ w h. omega (
    arith,
    count-update-le (queued_at w) (can_end id) (queued_at w) (end_row state logs now) s.workloads
        (λ x e k. absurd (ground arith)) (λ x e k. k),
    v.queued_unplaced w,
    count-update (of_workload w) (attached_to id) (λ a. record a { detached_at = some now })
        s.workload_gpus (λ a e. refl),
  );
}

report_running-Inv :
    (svc : Service) (now : Time) (cmd_id node_id : ℕ) (w : Workload) (ssh jupyter logs : String)
    (s : Store)
    → Inv s
    → Inv (report_running svc now cmd_id node_id w ssh jupyter logs s)
unfolding report_running
report_running-Inv svc now cmd_id node_id w ssh jupyter logs s v =
    if_Inv (count (can_run w.id) s.workloads == 0) _ _
      (if_Inv (is_terminal w.status) _ _
        (emit-Inv (nudge node_id) _
          (enqueue_stop-Inv now cmd_id w.org_id node_id w.id StopReason.failure s v))
        v)
      (notify-Inv svc w.org_id ("workloads" ∷ []) _ (
        record_event-Inv w.id w.org_id "ready" "workload running" _ (
          endpoint w.id w.org_id "jupyter_enabled" jupyter _ (
            endpoint w.id w.org_id "ssh_enabled" ssh _
              (mark_running-Inv w.id ssh jupyter logs now s v)))))
  where
    if_Inv : (b : Bool) (t u : Store) → Inv t → Inv u → Inv (if b then t else u)
    if_Inv true t u g h = g
    if_Inv false t u g h = h

    endpoint :
        (id org_id : ℕ) (stage e : String) (t : Store)
        → Inv t
        → Inv (record_endpoint id org_id stage e t)
    endpoint id org_id stage e t g =
        if_Inv (str_eq e "") _ _ g (record_event-Inv id org_id stage e t g)

go_meter-Inv : (b : Option Authorize) (id : ℕ) (s : Store) → Inv s → Inv (go_meter b id s)
go_meter-Inv none id s v = v
go_meter-Inv (some b) id s v = emit-Inv _ s v

report_ended-Inv :
    (svc : Service) (now : Time) (w : Workload) (state : WorkloadState) (stage action logs : String)
    (s : Store)
    → is_queued state ≡ false
    → Inv s
    → Inv (report_ended svc now w state stage action logs s)
unfolding report_ended
report_ended-Inv svc now w state stage action logs s q v =
    elim (Bool-cases (count (can_end w.id) s.workloads == 0)) [
      | inl e ↦ rw e v
      | inr e ↦ rw e (
          go_meter-Inv svc.billing w.id _ (
            emit-Inv _ _ (
              notify-Inv svc w.org_id _ _ (
                audit_system-Inv svc w.org_id "agent" action w.id none _ (
                  record_event-Inv w.id w.org_id stage "" _
                    (mark_ended-Inv w.id state logs now s q v))))))
    ]

report_other-Inv :
    (w : Workload) (state : WorkloadState) (s : Store)
    → is_active state ≡ true
    → is_queued state ≡ false
    → Inv s
    → Inv (report_other w state s)
unfolding report_other
report_other-Inv w state s a q v = record {
  gpu_keys = v.gpu_keys;
  one_active = v.one_active;
  idle_free = v.idle_free;
  held = λ x h. omega (
    arith,
    count-le-update (active_at x) (λ y. y.id == w.id) (active_at x)
        (λ y. record y { status = state }) s.workloads (λ y e k. ground arith) (λ y e k. k),
    v.held x h,
  );
  queued_unplaced = λ x h. v.queued_unplaced x (
      omega (
        arith,
        count-update-le (queued_at x) (λ y. y.id == w.id) (queued_at x)
            (λ y. record y { status = state }) s.workloads (λ y e k. absurd (ground arith))
            (λ y e k. k),
      ));
}

report-Inv :
    (svc : Service) (now : Time) (cmd_id node_id : ℕ) (w : Workload) (state : WorkloadState)
    (ssh jupyter logs : String) (s : Store)
    → is_queued state ≡ false
    → Inv s
    → Inv (report svc now cmd_id node_id w state ssh jupyter logs s)
unfolding report
report-Inv svc now cmd_id node_id w WorkloadState.queued ssh jupyter logs s q v = cc
report-Inv svc now cmd_id node_id w WorkloadState.pending ssh jupyter logs s q v =
    report_other-Inv w _ s refl refl v
report-Inv svc now cmd_id node_id w WorkloadState.running ssh jupyter logs s q v =
    report_running-Inv svc now cmd_id node_id w ssh jupyter logs s v
report-Inv svc now cmd_id node_id w WorkloadState.stopping ssh jupyter logs s q v =
    report_other-Inv w _ s refl refl v
report-Inv svc now cmd_id node_id w WorkloadState.stopped ssh jupyter logs s q v =
    report_ended-Inv svc now w _ _ _ logs s refl v
report-Inv svc now cmd_id node_id w WorkloadState.failed ssh jupyter logs s q v =
    report_ended-Inv svc now w _ _ _ logs s refl v

-- Whatever an agent reports, a report that is accepted keeps the invariant. The agents' protocol has
-- no `queued`.
pub update_status-Inv :
    (svc : Service) (now : Time) (cmd_id node_id id : ℕ) (state : WorkloadState)
    (ssh jupyter logs : String) (s s' : Store)
    → is_queued state ≡ false
    → Inv s
    → update_status svc now cmd_id node_id id state ssh jupyter logs s ≡ ok s'
    → Inv s'
unfolding update_status
update_status-Inv svc now cmd_id node_id id state ssh jupyter logs s s' q v e =
    elim (Result-cases (require_workload_on_node node_id id s)) [
      | inl (w, h) ↦
          subst Inv (same_ok (rw h refl) e)
            (report-Inv svc now cmd_id node_id w state ssh jupyter logs s q v)
      | inr (x, h) ↦ not_ok_and_err {e = x} e (rw h refl)
    ]
