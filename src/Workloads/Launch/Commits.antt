-- ===== src/Workloads/Launch/Commits.antt =====
-- The transaction of a placed launch commits, and keeps the invariant
-- (gpu-platform/internal/workloads/impl.go).
use node_hive_b2b.Prelude.{
  ℕ, ◌<◌, ◌≡◌, refl, subst, sym, [], ◌∷◌, none, some, arith, ◌==◌, Bool-cases, inl, inr, ok,
  &&_true, ==_refl,
}
use node_hive_b2b.Domain.{WorkloadState}
use node_hive_b2b.Sql.{count}
use node_hive_b2b.Sql.Counts.{count-append, count_mono}
use node_hive_b2b.Store.{Time, Workload, Store}
use node_hive_b2b.Workloads.Request.{LaunchRequest}
use node_hive_b2b.Workloads.Service.{Service}
use node_hive_b2b.Workloads.Place.{Placement, attach}
use node_hive_b2b.Workloads.Place.Claims.{Claims}
use node_hive_b2b.Workloads.Place.Attach.{attached, attach-ok, attached-Inv}
use node_hive_b2b.Workloads.Outbox.{enqueue_launch}
use node_hive_b2b.Workloads.Invariant.{Inv, active_at, queued_at, of_workload}
use node_hive_b2b.Workloads.Invariant.Frame.{effects-Inv, record_event-Inv}
use node_hive_b2b.Workloads.Launch.{
  Draws, new_workload, insert_workload, announce_launch, launch_placed, launch_as,
}

-- The drawn workload id is new.
pub record IsFresh (id : ℕ) (s : Store) : Type 0 where
  pub no_workload : count (λ (w : Workload). w.id == id) s.workloads ≡ 0
  pub no_attachment : count (of_workload id) s.workload_gpus ≡ 0

pub insert_workload-Inv :
    (w : Workload) (s : Store)
    → count (of_workload w.id) s.workload_gpus ≡ 0
    → Inv s
    → Inv (insert_workload w s)
unfolding insert_workload count
insert_workload-Inv w s f v = record {
  gpu_keys = v.gpu_keys;
  one_active = v.one_active;
  idle_free = v.idle_free;
  held = λ x h. omega (arith, v.held x h, count-append (active_at x) s.workloads (w ∷ []));
  queued_unplaced = λ x h. elim (Bool-cases (w.id == x)) [
    | inl e ↦ subst (λ k. count (of_workload k) s.workload_gpus ≡ 0) (ground arith) f
    | inr e ↦ v.queued_unplaced x (ground (arith, count-append (queued_at x) s.workloads (w ∷ [])))
  ];
}

pub enqueue_launch-Inv :
    (now id : ℕ) (w : Workload) (p : Placement) (s : Store)
    → Inv s
    → Inv (enqueue_launch now id w p s)
unfolding enqueue_launch
enqueue_launch-Inv now id w p s v = record {
  gpu_keys = v.gpu_keys;
  one_active = v.one_active;
  idle_free = v.idle_free;
  held = v.held;
  queued_unplaced = v.queued_unplaced;
}

-- The workload row of a placed launch, and the store right after its transaction.
module _ (svc : Service) (org_id : ℕ) (req : LaunchRequest) (d : Draws) (now : Time) where
  abbrev pub pending_row : Placement → Workload
  pending_row p =
      new_workload svc org_id req d now WorkloadState.pending (some p.node_id) "preparing" none

  abbrev pub committed : Placement → Store → Store
  committed p s =
      enqueue_launch now d.command_id (pending_row p) p
        (attached p (insert_workload (pending_row p) s))

  inserted-Inv :
      (p : Placement) (s : Store)
      → IsFresh d.workload_id s
      → Inv s
      → Inv (insert_workload (pending_row p) s)
  unfolding new_workload
  inserted-Inv p s f v = insert_workload-Inv (pending_row p) s f.no_attachment v

  -- The inserted row is the only one with its id, and is pending.
  inserted_row :
      (p : Placement) (s : Store)
      → IsFresh d.workload_id s
      → let ws = (insert_workload (pending_row p) s).workloads in
        (0 < count (active_at d.workload_id) ws) × (count (queued_at d.workload_id) ws ≡ 0)
  unfolding new_workload insert_workload count
  inserted_row p s f =
      let w = d.workload_id in
      let row = pending_row p in
      let old = count_mono (queued_at w) (λ x. x.id == w) s.workloads (λ x e. (&&_true _ _ e).0) in
      (
        ground (arith, ==_refl w, count-append (active_at w) s.workloads (row ∷ [])),
        ground (arith, f.no_workload, old, count-append (queued_at w) s.workloads (row ∷ [])),
      )

  pub committed-Inv :
      (p : Placement) (s : Store)
      → p.workload_id ≡ d.workload_id
      → IsFresh d.workload_id s
      → Claims s.gpus p.gpu_ids
      → Inv s
      → Inv (committed p s)
  unfolding insert_workload
  committed-Inv p s e f c v =
      let (live, unqueued) = inserted_row p s f in
      enqueue_launch-Inv now d.command_id (pending_row p) p _ (
        attached-Inv p (insert_workload (pending_row p) s) (inserted-Inv p s f v) c
          (subst (λ k. 0 < count (active_at k) (insert_workload (pending_row p) s).workloads)
            (sym e) live)
          (subst (λ k. count (queued_at k) (insert_workload (pending_row p) s).workloads ≡ 0)
            (sym e) unqueued))

  pub attach-inserted :
      (p : Placement) (s : Store)
      → p.workload_id ≡ d.workload_id
      → IsFresh d.workload_id s
      → Claims s.gpus p.gpu_ids
      → Inv s
      → attach p (insert_workload (pending_row p) s)
        ≡ ok (attached p (insert_workload (pending_row p) s))
  unfolding insert_workload
  attach-inserted p s e f c v =
      attach-ok p (insert_workload (pending_row p) s) (inserted-Inv p s f v)
        (subst (λ k. count (of_workload k) s.workload_gpus ≡ 0) (sym e) f.no_attachment) c

  pub announce-Inv :
      (w : Workload) (p : Placement) (s : Store) → Inv s → Inv (announce_launch svc org_id w p s)
  unfolding announce_launch
  announce-Inv w p s v = effects-Inv _ _ refl refl refl (
      record_event-Inv w.id org_id "preparing" "" _ (
        record_event-Inv w.id org_id "node_selected" "" _
          (record_event-Inv w.id org_id "scheduling" "" s v)))

  -- A placed launch commits: neither a unique index nor the hard guard of `attach` can refuse it.
  pub launch_as_placed :
      (p : Placement) (s : Store)
      → p.workload_id ≡ d.workload_id
      → IsFresh d.workload_id s
      → Claims s.gpus p.gpu_ids
      → Inv s
      → launch_as svc org_id req d now (some p) s
        ≡ ok (
          record (pending_row p) { stage = "" },
          announce_launch svc org_id (pending_row p) p (committed p s),
        )
  unfolding launch_as launch_placed
  launch_as_placed p s e f c v = rw (attach-inserted p s e f c v)
