-- ===== src/Workloads/Sweep/Keeps.antt =====
-- The sweep and the invariant (gpu-platform/internal/workloads/impl.go).
use node_hive_b2b.Prelude.{
  ℕ, ◌<◌, ◌≡◌, refl, sym, subst, Bool, true, false, ◌&&◌, ◌||◌, String, List, [], ◌∷◌, Option, none,
  some, arith, ◌==◌, ==_iff, if◌then◌else◌, length, Bool-cases, inl, inr, &&_true, ltb,
}
use node_hive_b2b.Domain.{GpuStatus, is_queued}
use node_hive_b2b.Sql.{select, update, count, exists}
use node_hive_b2b.Sql.Counts.{count-update, count-update-le, count-update_self, exists_of-count}
use node_hive_b2b.Store.{Time, Workload, WorkloadGpu, Store}
use node_hive_b2b.Commands.{Expired, expire_overdue, supersede_for_terminal_workloads}
use node_hive_b2b.Workloads.Service.{Service, notify, audit_system}
use node_hive_b2b.Workloads.Place.{contains, is_attached}
use node_hive_b2b.Workloads.Status.{detach, attached_to}
use node_hive_b2b.Workloads.Status.Keeps.{detach-le}
use node_hive_b2b.Workloads.Invariant.{Inv, idle_at, active_of, of_workload, active_at, queued_at}
use node_hive_b2b.Workloads.Invariant.Frame.{effects-Inv, notify-Inv, audit_system-Inv}
use node_hive_b2b.Workloads.Sweep.{
  fail_row, fail_all, holds_gpu, is_held, is_leaked, free_leaked, is_pending_at,
  fail_undelivered_row, expired_launch, fail_expired, fail_expired_all, report_reclaims,
  announce_reclaims, stuck_ids, sweep_tables, sweep_stuck,
}

-- Failing the rows with the id that `p` selects, and detaching all of the workload's GPUs.
module _ (id : ℕ) (now : Time) (p : Workload → Bool) (f : Workload → Workload) (s : Store) where
  abbrev failed_by : Store
  failed_by = record s {
    workloads = update p f s.workloads;
    workload_gpus = detach id now s.workload_gpus;
  }

  failed_by-Inv :
      ((x : Workload) → p x ≡ true → x.id ≡ id)
      → ((x : Workload) → (f x).id ≡ x.id)
      → ((x : Workload) → is_queued (f x).status ≡ false)
      → Inv s
      → Inv failed_by
  failed_by-Inv only same unqueued v = record {
    gpu_keys = v.gpu_keys;
    one_active = λ g. omega (arith, v.one_active g, detach-le g id now s.workload_gpus);
    idle_free = λ g h. omega (arith, v.idle_free g h, detach-le g id now s.workload_gpus);
    held = λ w h. elim (Bool-cases (w == id)) [
      | inl e ↦
          let none_left =
            count-update_self (active_of id) (λ a. record a { detached_at = some now })
              s.workload_gpus (λ a f. ground arith) in
          absurd (
            omega (
              arith,
              none_left,
              subst (λ k. 0 < count (active_of k) (detach id now s.workload_gpus))
                  ((==_iff w id).0 e) h,
            ))
      | inr e ↦
          let before =
            count-update-le (active_of w) (attached_to id) (active_of w)
              (λ a. record a { detached_at = some now }) s.workload_gpus (λ a f k. ground arith)
              (λ a f k. k) in
          omega (
            arith,
            before,
            v.held w,
            count-update (active_at w) p f s.workloads (λ x k. ground (arith, only x k, same x)),
          )
    ];
    queued_unplaced = λ w h. omega (
      arith,
      count-update-le (queued_at w) p (queued_at w) f s.workloads
          (λ x e k. absurd (ground (arith, unqueued x))) (λ x e k. k),
      v.queued_unplaced w,
      count-update (of_workload w) (attached_to id) (λ a. record a { detached_at = some now })
          s.workload_gpus (λ a e. refl),
    );
  }

fail_all-Inv : (now : Time) (ids : List ℕ) (s : Store) → Inv s → Inv (fail_all now ids s)
unfolding fail_all
fail_all-Inv now [] s v = v
fail_all-Inv now (id ∷ ids) s v = fail_all-Inv now ids _ (
    failed_by-Inv id now (λ w. w.id == id) (fail_row now) s (λ x e. (==_iff x.id id).0 e)
      (λ x. refl) (λ x. refl) v)

-- A GPU with an active attachment is held, when active attachments belong to active workloads.
attached-is_held :
    (g : ℕ) (ws : List Workload) (rows : List WorkloadGpu)
    → ((w : ℕ) → 0 < count (active_of w) rows → 0 < count (active_at w) ws)
    → 0 < count (is_attached g) rows
    → exists (holds_gpu ws g) rows ≡ true
unfolding count exists
attached-is_held g ws [] held h = absurd (omega arith)
attached-is_held g ws (a ∷ rows) held h = elim (Bool-cases (is_attached g a)) [
  | inl e ↦
      let live = exists_of-count (active_at a.workload_id) ws (held a.workload_id (ground arith)) in
      ground (arith, live)
  | inr e ↦
      let rest = attached-is_held g ws rows (λ w k. held w (ground arith)) (ground arith) in
      ground (arith, rest)
]

free_leaked-idle :
    (s : Store)
    → Inv s
    → (g : ℕ) → 0 < count (idle_at g) (free_leaked s).gpus
    → count (is_attached g) s.workload_gpus ≡ 0
unfolding free_leaked
free_leaked-idle s v g h = elim (Bool-cases (ltb 0 (count (is_attached g) s.workload_gpus))) [
  | inl e ↦
      let held = attached-is_held g s.workloads s.workload_gpus v.held (ground arith) in
      let before =
        count-update-le (idle_at g) (is_leaked s) (idle_at g)
          (λ x. record x { status = GpuStatus.idle }) s.gpus
          (λ x p q.
            let same : is_held s x.id ≡ true =
              subst (λ k. is_held s k ≡ true) (sym ((==_iff x.id g).0 (&&_true _ _ q).0)) held in
            absurd (ground arith))
          (λ x p q. q) in
      v.idle_free g (omega (arith, before, h))
  | inr e ↦ ground arith
]

free_leaked-Inv : (s : Store) → Inv s → Inv (free_leaked s)
unfolding free_leaked
free_leaked-Inv s v = record {
  gpu_keys = λ g. omega (
    arith,
    v.gpu_keys g,
    count-update (λ x. x.id == g) (is_leaked s) (λ x. record x { status = GpuStatus.idle }) s.gpus
        (λ x e. refl),
  );
  one_active = v.one_active;
  idle_free = λ g h. free_leaked-idle s v g h;
  held = v.held;
  queued_unplaced = v.queued_unplaced;
}

fail_expired-Inv : (now : Time) (w : Option ℕ) (s : Store) → Inv s → Inv (fail_expired now w s).0
fail_expired-Inv now none s v = v
fail_expired-Inv now (some id) s v = elim (Bool-cases (count (is_pending_at id) s.workloads == 0)) [
  | inl e ↦ rw e v
  | inr e ↦ rw e (
      failed_by-Inv id now (is_pending_at id) (fail_undelivered_row now) s
        (λ x k. (==_iff x.id id).0 (&&_true _ _ k).0) (λ x. refl) (λ x. refl) v)
]

fail_expired_all-Inv :
    (now : Time) (es : List Expired) (s : Store) → Inv s → Inv (fail_expired_all now es s).0
unfolding fail_expired_all
fail_expired_all-Inv now [] s v = v
fail_expired_all-Inv now (e ∷ es) s v =
    fail_expired_all-Inv now es _ (fail_expired-Inv now (expired_launch e) s v)

expire_overdue-Inv :
    (text : String → String) (now : Time) (s : Store) → Inv s → Inv (expire_overdue text now s).0
unfolding expire_overdue
expire_overdue-Inv text now s v = effects-Inv _ _ refl refl refl v

supersede-Inv : (s : Store) → Inv s → Inv (supersede_for_terminal_workloads s).0
unfolding supersede_for_terminal_workloads
supersede-Inv s v = effects-Inv _ _ refl refl refl v

sweep_tables-Inv :
    (text : String → String) (now : Time) (s : Store) → Inv s → Inv (sweep_tables text now s).0
unfolding sweep_tables
sweep_tables-Inv text now s v =
    let freed = free_leaked-Inv _ (fail_all-Inv now (stuck_ids now s) s v) in
    free_leaked-Inv _ (
      supersede-Inv _ (
        fail_expired_all-Inv now
          (expire_overdue text now (free_leaked (fail_all now (stuck_ids now s) s))).1 _
          (expire_overdue-Inv text now _ freed)))

report_reclaims-Inv :
    (svc : Service) (ws : List Workload) (seen : List ℕ) (s : Store)
    → Inv s
    → Inv (report_reclaims svc ws seen s)
unfolding report_reclaims
report_reclaims-Inv svc [] seen s v = v
report_reclaims-Inv svc (w ∷ ws) seen s v =
    report_reclaims-Inv svc ws (w.org_id ∷ seen) _ (hinted (contains w.org_id seen))
  where
    audited :
        Inv (audit_system svc w.org_id "system" "workload.failed" w.id (some "sweep_reclaim") s)
    audited =
        audit_system-Inv svc w.org_id "system" "workload.failed" w.id (some "sweep_reclaim") s v

    hinted :
        (b : Bool)
        → let t =
            audit_system svc w.org_id "system" "workload.failed" w.id (some "sweep_reclaim") s in
          Inv (if b then t else notify svc w.org_id ("workloads" ∷ "queue" ∷ []) t)
    hinted true = audited
    hinted false = notify-Inv svc w.org_id ("workloads" ∷ "queue" ∷ []) _ audited

announce_reclaims-Inv :
    (svc : Service) (stuck : List ℕ) (s : Store) → Inv s → Inv (announce_reclaims svc stuck s)
unfolding announce_reclaims
announce_reclaims-Inv svc stuck s v =
    announced ((svc.has_audit || svc.has_publish) && ltb 0 (length stuck))
  where
    announced :
        (b : Bool)
        → Inv (
            if b
            then report_reclaims svc (select (λ w. contains w.id stuck) s.workloads) [] s
            else s)
    announced true = report_reclaims-Inv svc (select (λ w. contains w.id stuck) s.workloads) [] s v
    announced false = v

-- The sweep keeps the invariant.
pub sweep_stuck-Inv :
    (svc : Service) (text : String → String) (now : Time) (s : Store)
    → Inv s
    → Inv (sweep_stuck svc text now s).1
unfolding sweep_stuck
sweep_stuck-Inv svc text now s v =
    announce_reclaims-Inv svc (sweep_tables text now s).1 _ (sweep_tables-Inv text now s v)
