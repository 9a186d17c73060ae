-- ===== src/Nodes/Remove/Keeps.antt =====
-- The removal of a node and the invariant of workloads, GPUs and attachments
-- (gpu-platform/internal/nodes/repo.go).
use node_hive_b2b.Prelude.{
  zero_or_pos, ℕ, ◌<◌, ◌≡◌, refl, not, ◌&&◌, none, some, arith, ltb, ◌==◌, Bool-cases, inl, inr,
  &&_true, holds_id,
}
use node_hive_b2b.Sql.{count}
use node_hive_b2b.Sql.Counts.{count-update, count-update-le, count_mono, count_zero_mono}
use node_hive_b2b.Sql.Deletes.{count-delete-le, count-update-others}
use node_hive_b2b.Store.{Store}
use node_hive_b2b.Workloads.Invariant.{Inv, active_of, active_at, idle_at, queued_at, of_workload}
use node_hive_b2b.Workloads.Place.{is_attached}
use node_hive_b2b.Nodes.Remove.{
  is_active_on, fail_removed_row, is_gpu_of, is_attached_on, fail_node_workloads, delete_node,
  fail_if_active,
}

-- The workloads that are active on a node hold GPUs of this node only.
pub record IsLocal (node_id : ℕ) (s : Store) : Type 0 where
  pub on_node :
      (w : ℕ)
      → 0 < count (λ x. x.id == w && is_active_on node_id x) s.workloads
      → count (λ a. active_of w a && not (is_gpu_of node_id s.gpus a.gpu_id)) s.workload_gpus ≡ 0

module _ (now node_id : ℕ) (s : Store) (v : Inv s) where
  pub delete_node-Inv : Inv (delete_node node_id s)
  unfolding delete_node
  delete_node-Inv = record {
    gpu_keys = λ g. omega (
      arith,
      v.gpu_keys g,
      count-delete-le (λ x. x.id == g) (λ x. not (x.node_id == node_id)) s.gpus,
    );
    one_active = λ g. omega (
      arith,
      v.one_active g,
      count-delete-le (is_attached g) (λ a. not (is_gpu_of node_id s.gpus a.gpu_id))
          s.workload_gpus,
    );
    idle_free = λ g h. omega (
      arith,
      v.idle_free g
          (omega (arith, h, count-delete-le (idle_at g) (λ x. not (x.node_id == node_id)) s.gpus)),
      count-delete-le (is_attached g) (λ a. not (is_gpu_of node_id s.gpus a.gpu_id))
          s.workload_gpus,
    );
    held = λ w h. omega (
      arith,
      v.held w (
          omega (
            arith,
            h,
            count-delete-le (active_of w) (λ a. not (is_gpu_of node_id s.gpus a.gpu_id))
                s.workload_gpus,
          )),
      count-update (active_at w) (λ x. holds_id x.node_id node_id)
          (λ x. record x { node_id = none }) s.workloads (λ x e. refl),
    );
    queued_unplaced = λ w h. omega (
      arith,
      v.queued_unplaced w (
          omega (
            arith,
            h,
            count-update (queued_at w) (λ x. holds_id x.node_id node_id)
                (λ x. record x { node_id = none }) s.workloads (λ x e. refl),
          )),
      count-delete-le (of_workload w) (λ a. not (is_gpu_of node_id s.gpus a.gpu_id))
          s.workload_gpus,
    );
  }

  -- An active attachment that is left belongs to a workload that is not active on the node.
  held_elsewhere :
      IsLocal node_id s
      → (w : ℕ) → 0 < count (active_of w) (fail_node_workloads now node_id s).workload_gpus
      → (0 < count (active_of w) s.workload_gpus)
        × (count (λ x. is_active_on node_id x && active_at w x) s.workloads ≡ 0)
  unfolding fail_node_workloads
  held_elsewhere l w h =
      let left =
        count-update-le (active_of w) (is_attached_on node_id s.gpus)
          (λ a. active_of w a && not (is_gpu_of node_id s.gpus a.gpu_id))
          (λ a. record a { detached_at = some now }) s.workload_gpus
          (λ a e k. absurd (ground arith)) (λ a e k. ground arith) in
      (
        omega (
          arith,
          h,
          left,
          count_mono (λ a. active_of w a && not (is_gpu_of node_id s.gpus a.gpu_id)) (active_of w)
              s.workload_gpus (λ a e. (&&_true _ _ e).0),
        ),
        elim (zero_or_pos (count (λ x. x.id == w && is_active_on node_id x) s.workloads)) [
          | inl z ↦
              count_zero_mono (λ x. is_active_on node_id x && active_at w x)
                (λ x. x.id == w && is_active_on node_id x) s.workloads (λ x e. ground arith) z
          | inr z ↦ absurd (omega (arith, l.on_node w z, h, left))
        ],
      )

  fail_node_workloads-Inv : IsLocal node_id s → Inv (fail_node_workloads now node_id s)
  unfolding fail_node_workloads
  fail_node_workloads-Inv l = record {
    gpu_keys = v.gpu_keys;
    one_active = λ g. omega (
      arith,
      v.one_active g,
      count-update-le (is_attached g) (is_attached_on node_id s.gpus) (is_attached g)
          (λ a. record a { detached_at = some now }) s.workload_gpus
          (λ a e k. absurd (ground arith)) (λ a e k. k),
    );
    idle_free = λ g h. omega (
      arith,
      v.idle_free g h,
      count-update-le (is_attached g) (is_attached_on node_id s.gpus) (is_attached g)
          (λ a. record a { detached_at = some now }) s.workload_gpus
          (λ a e k. absurd (ground arith)) (λ a e k. k),
    );
    held = λ w h.
        let (before, elsewhere) = held_elsewhere l w h in
        omega (
          arith,
          v.held w before,
          count-update-others (active_at w) (is_active_on node_id) (fail_removed_row now)
              s.workloads elsewhere,
        );
    queued_unplaced = λ w h. omega (
      arith,
      v.queued_unplaced w (
          omega (
            arith,
            h,
            count-update-le (queued_at w) (is_active_on node_id) (queued_at w)
                (fail_removed_row now) s.workloads (λ x e k. absurd (ground arith)) (λ x e k. k),
          )),
      count-update (of_workload w) (is_attached_on node_id s.gpus)
          (λ a. record a { detached_at = some now }) s.workload_gpus (λ a e. refl),
    );
  }

  pub fail_if_active-Inv : IsLocal node_id s → Inv (fail_if_active now node_id s)
  unfolding fail_if_active
  fail_if_active-Inv l = elim (Bool-cases (ltb 0 (count (is_active_on node_id) s.workloads))) [
    | inl e ↦ rw e (fail_node_workloads-Inv l)
    | inr e ↦ rw e v
  ]
