-- ===== src/Inventory/Reported.antt =====
-- What a report of an inventory leaves (gpu-platform/internal/inventory/impl.go).
use node_hive_b2b.Prelude.{
  ℕ, ◌≤◌, ◌<◌, ◌≡◌, refl, false, List, [], ◌∷◌, ◌++◌, some, arith, ◌==◌, Bool-cases, inl, inr,
}
use node_hive_b2b.Sql.{update, count, find}
use node_hive_b2b.Sql.Counts.{count-append, count-update, find-count}
use node_hive_b2b.Sql.Keys.{find-updated_all}
use node_hive_b2b.Store.{Gpu, Store}
use node_hive_b2b.Nodes.{NodeInfo}
use node_hive_b2b.Workloads.Place.{is_attached}
use node_hive_b2b.Workloads.Invariant.{Inv, idle_at}
use node_hive_b2b.Inventory.{
  GpuReport, has_uuid, inserted, updated, upsert_gpu, upsert_gpus, upsert_inventory,
}

-- What the invariant says of the GPUs.
record GpusFit (s : Store) (gpus : List Gpu) : Type 0 where
  pub gpu_keys : (g : ℕ) → count (λ x. x.id == g) gpus ≤ 1
  pub idle_free : (g : ℕ) → 0 < count (idle_at g) gpus → count (is_attached g) s.workload_gpus ≡ 0

-- Each drawn id is new when it is drawn.
abbrev pub AreFresh : Store → ℕ → ℕ → List GpuReport → List Gpu → Type 0
AreFresh s node_id org_id [] gpus = Unit
AreFresh s node_id org_id (g ∷ gs) gpus =
    (count (λ x. x.id == g.drawn) gpus ≡ 0)
    × (count (is_attached g.drawn) s.workload_gpus ≡ 0)
    × AreFresh s node_id org_id gs (upsert_gpu node_id org_id g gpus)

module _ (s : Store) (node_id org_id : ℕ) where
  inserted-GpusFit :
      (g : GpuReport) (gpus : List Gpu)
      → count (λ x. x.id == g.drawn) gpus ≡ 0
      → count (is_attached g.drawn) s.workload_gpus ≡ 0
      → GpusFit s gpus
      → GpusFit s (gpus ++ inserted node_id org_id g ∷ [])
  unfolding count
  inserted-GpusFit g gpus new_id unattached v = record {
    gpu_keys = λ k. ground (
      arith,
      v.gpu_keys k,
      new_id,
      count-append (λ x. x.id == k) gpus (inserted node_id org_id g ∷ []),
    );
    idle_free = λ k h. elim (Bool-cases (g.drawn == k)) [
      | inl e ↦ let same : k ≡ g.drawn = ground (arith, e) in rw same unattached
      | inr e ↦
          v.idle_free k
            (ground (arith, h, e, count-append (idle_at k) gpus (inserted node_id org_id g ∷ [])))
    ];
  }

  updated-GpusFit :
      (g : GpuReport) (gpus : List Gpu)
      → GpusFit s gpus
      → GpusFit s (update (has_uuid g.uuid) (updated node_id org_id g) gpus)
  updated-GpusFit g gpus v = record {
    gpu_keys = λ k. omega (
      arith,
      v.gpu_keys k,
      count-update (λ x. x.id == k) (has_uuid g.uuid) (updated node_id org_id g) gpus (λ x e. refl),
    );
    idle_free = λ k h. v.idle_free k (
        omega (
          arith,
          h,
          count-update (idle_at k) (has_uuid g.uuid) (updated node_id org_id g) gpus (λ x e. refl),
        ));
  }

  upsert_gpu-GpusFit :
      (g : GpuReport) (gpus : List Gpu)
      → count (λ x. x.id == g.drawn) gpus ≡ 0
      → count (is_attached g.drawn) s.workload_gpus ≡ 0
      → GpusFit s gpus
      → GpusFit s (upsert_gpu node_id org_id g gpus)
  unfolding upsert_gpu
  upsert_gpu-GpusFit g gpus new_id unattached v =
      elim (Bool-cases (count (has_uuid g.uuid) gpus == 0)) [
        | inl e ↦ rw e (inserted-GpusFit g gpus new_id unattached v)
        | inr e ↦ rw e (updated-GpusFit g gpus v)
      ]

  upsert_gpus-GpusFit :
      (gs : List GpuReport) (gpus : List Gpu)
      → AreFresh s node_id org_id gs gpus
      → GpusFit s gpus
      → GpusFit s (upsert_gpus node_id org_id gs gpus)
  unfolding upsert_gpus
  upsert_gpus-GpusFit [] gpus f v = v
  upsert_gpus-GpusFit (g ∷ gs) gpus f v =
      upsert_gpus-GpusFit gs (upsert_gpu node_id org_id g gpus) f.2
        (upsert_gpu-GpusFit g gpus f.0 f.1 v)

-- A report of an inventory keeps the invariant of workloads, GPUs and attachments, when the ids that
-- are drawn for new rows are new: no GPU that is in use becomes idle by it.
pub upsert_inventory-Inv :
    (now node_id org_id : ℕ) (info : NodeInfo) (gs : List GpuReport) (s : Store)
    → AreFresh s node_id org_id gs s.gpus
    → Inv s
    → Inv (upsert_inventory now node_id org_id info gs s)
unfolding upsert_inventory
upsert_inventory-Inv now node_id org_id info gs s f v =
    let k =
      upsert_gpus-GpusFit s node_id org_id gs s.gpus f
        (record { gpu_keys = v.gpu_keys; idle_free = v.idle_free }) in
    record {
      gpu_keys = k.gpu_keys;
      one_active = v.one_active;
      idle_free = k.idle_free;
      held = v.held;
      queued_unplaced = v.queued_unplaced;
    }

-- A report that names a GPU of another node takes its row over: whichever node and organization held
-- it, the row is then the reporting node's, in its organization, with its id and status as before.
pub upsert_gpu-takes_over :
    (node_id org_id : ℕ) (g : GpuReport) (gpus : List Gpu) (x : Gpu)
    → find (has_uuid g.uuid) gpus ≡ some x
    → find (has_uuid g.uuid) (upsert_gpu node_id org_id g gpus) ≡ some (updated node_id org_id g x)
unfolding upsert_gpu
upsert_gpu-takes_over node_id org_id g gpus x h =
    let known : (count (has_uuid g.uuid) gpus == 0) ≡ false =
      ground (arith, (find-count (has_uuid g.uuid) gpus h).1) in
    rw known (find-updated_all (has_uuid g.uuid) (updated node_id org_id g) gpus (λ y. refl) h)
