-- ===== src/Workloads/Invariant/Frame.antt =====
-- The invariant across steps that leave the GPUs, the attachments and the workloads' ids and states
-- alone (gpu-platform/internal/workloads).
use node_hive_b2b.Prelude.{ℕ, ◌≡◌, refl, Bool, true, false, String, List, Option, arith}
use node_hive_b2b.Domain.{WorkloadState, StopReason, is_startable, is_active, is_queued}
use node_hive_b2b.Workloads.Outbox.{enqueue_stop}
use node_hive_b2b.Sql.{update, count}
use node_hive_b2b.Sql.Counts.{count-update}
use node_hive_b2b.Store.{Store, Workload, Effect, emit}
use node_hive_b2b.Workloads.Service.{Service, notify, audit_system, record_event}
use node_hive_b2b.Workloads.Invariant.{Inv, active_at, queued_at}

-- The invariant does not read the commands, the events and the effects.
pub effects-Inv :
    (s t : Store)
    → t.gpus ≡ s.gpus
    → t.workload_gpus ≡ s.workload_gpus
    → t.workloads ≡ s.workloads
    → Inv s
    → Inv t
effects-Inv s t g a w v = record {
  gpu_keys = rw g v.gpu_keys;
  one_active = rw a v.one_active;
  idle_free = rw (g, a) v.idle_free;
  held = rw (a, w) v.held;
  queued_unplaced = rw (a, w) v.queued_unplaced;
}

module _ (p : Workload → Bool) (stage : String) (ws : List Workload) where
  abbrev restaged : List Workload
  restaged = update p (λ w. record w { stage = stage }) ws

  pub active_at-stage : (w : ℕ) → count (active_at w) restaged ≡ count (active_at w) ws
  active_at-stage w = count-update (active_at w) p _ ws (λ x e. refl)

  pub queued_at-stage : (w : ℕ) → count (queued_at w) restaged ≡ count (queued_at w) ws
  queued_at-stage w = count-update (queued_at w) p _ ws (λ x e. refl)

pub record_event-Inv :
    (w org_id : ℕ) (stage message : String) (s : Store)
    → Inv s
    → Inv (record_event w org_id stage message s)
unfolding record_event
record_event-Inv w org_id stage message s v = record {
  gpu_keys = v.gpu_keys;
  one_active = v.one_active;
  idle_free = v.idle_free;
  held = λ x h. rw (active_at-stage _ stage s.workloads x) (v.held x h);
  queued_unplaced = λ x h. v.queued_unplaced x (rw (queued_at-stage _ stage s.workloads x) at h);
}

-- An update of workloads that leaves them as active and as queued as they were keeps the invariant.
pub workloads-Inv :
    (p : Workload → Bool) (f : Workload → Workload) (s : Store)
    → ((w : ℕ) (x : Workload) → p x ≡ true → active_at w (f x) ≡ active_at w x)
    → ((w : ℕ) (x : Workload) → p x ≡ true → queued_at w (f x) ≡ queued_at w x)
    → Inv s
    → Inv (record s { workloads = update p f s.workloads })
workloads-Inv p f s a q v = record {
  gpu_keys = v.gpu_keys;
  one_active = v.one_active;
  idle_free = v.idle_free;
  held = λ w h. omega (arith, count-update (active_at w) p f s.workloads (a w), v.held w h);
  queued_unplaced =
      λ w h. v.queued_unplaced w (omega (arith, count-update (queued_at w) p f s.workloads (q w)));
}

pub notify-Inv :
    (svc : Service) (org_id : ℕ) (topics : List String) (s : Store)
    → Inv s
    → Inv (notify svc org_id topics s)
unfolding notify
notify-Inv svc org_id topics s v = effects-Inv _ _ refl refl refl v

pub audit_system-Inv :
    (svc : Service) (org_id : ℕ) (actor action : String) (w : ℕ) (reason : Option String)
    (s : Store)
    → Inv s
    → Inv (audit_system svc org_id actor action w reason s)
unfolding audit_system
audit_system-Inv svc org_id actor action w reason s v = effects-Inv _ _ refl refl refl v

pub emit-Inv : (e : Effect) (s : Store) → Inv s → Inv (emit e s)
emit-Inv e s v = effects-Inv _ _ refl refl refl v

pub enqueue_stop-Inv :
    (now cmd_id org_id node_id id : ℕ) (reason : StopReason) (s : Store)
    → Inv s
    → Inv (enqueue_stop now cmd_id org_id node_id id reason s)
unfolding enqueue_stop
enqueue_stop-Inv now cmd_id org_id node_id id reason s v = effects-Inv _ _ refl refl refl v

-- A state of `pending` or `running` is active, and not queued.
pub startable_active : (w : WorkloadState) → is_startable w ≡ true → is_active w ≡ true
startable_active WorkloadState.queued e = cc
startable_active WorkloadState.pending e = refl
startable_active WorkloadState.running e = refl
startable_active WorkloadState.stopping e = refl
startable_active WorkloadState.stopped e = cc
startable_active WorkloadState.failed e = cc

pub startable_not_queued : (w : WorkloadState) → is_startable w ≡ true → is_queued w ≡ false
startable_not_queued WorkloadState.queued e = cc
startable_not_queued WorkloadState.pending e = refl
startable_not_queued WorkloadState.running e = refl
startable_not_queued WorkloadState.stopping e = refl
startable_not_queued WorkloadState.stopped e = refl
startable_not_queued WorkloadState.failed e = refl
