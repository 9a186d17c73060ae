-- ===== src/Workloads/Invariant.antt =====
-- What holds of the tables between two operations of the Workloads service
-- (gpu-platform/internal/workloads, and the keys and indexes of gpu-platform/migrations).
pub mod Frame
use node_hive_b2b.Prelude.{ℕ, ◌≤◌, ◌<◌, ◌≡◌, Bool, ◌&&◌, ◌==◌, is_null}
use node_hive_b2b.Domain.{is_active, is_idle, is_queued}
use node_hive_b2b.Sql.{count}
use node_hive_b2b.Store.{Store, Workload, Gpu, WorkloadGpu}
use node_hive_b2b.Workloads.Place.{is_attached}

abbrev pub idle_at : ℕ → Gpu → Bool
idle_at g x = x.id == g && is_idle x.status

abbrev pub active_of : ℕ → WorkloadGpu → Bool
active_of w a = a.workload_id == w && is_null a.detached_at

abbrev pub of_workload : ℕ → WorkloadGpu → Bool
of_workload w a = a.workload_id == w

abbrev pub active_at : ℕ → Workload → Bool
active_at w x = x.id == w && is_active x.status

abbrev pub queued_at : ℕ → Workload → Bool
queued_at w x = x.id == w && is_queued x.status

pub record Inv (s : Store) : Type 0 where
  -- The primary key of gpus.
  pub gpu_keys : (g : ℕ) → count (λ x. x.id == g) s.gpus ≤ 1
  -- A GPU has one active attachment at most.
  pub one_active : (g : ℕ) → count (is_attached g) s.workload_gpus ≤ 1
  -- An idle GPU has none.
  pub idle_free : (g : ℕ) → 0 < count (idle_at g) s.gpus → count (is_attached g) s.workload_gpus ≡ 0
  -- An active attachment belongs to an active workload.
  pub held : (w : ℕ) → 0 < count (active_of w) s.workload_gpus → 0 < count (active_at w) s.workloads
  -- A queued workload has never had a GPU.
  pub queued_unplaced :
      (w : ℕ) → 0 < count (queued_at w) s.workloads → count (of_workload w) s.workload_gpus ≡ 0
