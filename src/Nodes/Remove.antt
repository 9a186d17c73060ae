-- ===== src/Nodes/Remove.antt =====
-- `RemoveNode` in gpu-platform/internal/nodes/repo.go, with what a deletion of a node does by the
-- foreign keys of gpu-platform/migrations.
pub mod Keeps
use node_hive_b2b.Prelude.{
  ℕ, Bool, not, ◌&&◌, String, List, none, some, ltb, ◌==◌, if◌then◌else◌, is_null, holds_id,
  coalesce, Result, ok, ◌>>=◌, ◌>>◌, guard, or_fail,
}
use node_hive_b2b.Domain.{WorkloadState, StopReason, is_active}
use node_hive_b2b.Sql.{select, update, count, find, exists}
use node_hive_b2b.Store.{Time, Workload, WorkloadGpu, Gpu, Store}
use node_hive_b2b.Workloads.Service.{keep_if_empty}
use node_hive_b2b.Nodes.{
  Fleet, NodeError, not_found, node_busy, is_node, is_node_of, is_live_of, revoke_all,
}

pub record RemoveResult : Type 0 where
  pub active_workloads : ℕ
  pub failed_workloads : ℕ
  pub credentials_revoked : ℕ

-- WHERE node_id = … AND status IN ('pending','running','stopping').
abbrev pub is_active_on : ℕ → Workload → Bool
is_active_on node_id w = holds_id w.node_id node_id && is_active w.status

abbrev pub removal : String
removal = "node removed by administrator"

abbrev pub fail_removed_row : Time → Workload → Workload
fail_removed_row now w = record w {
  status = WorkloadState.failed;
  stage = "failed";
  stopped_at = some now;
  stop_reason = some (coalesce w.stop_reason StopReason.admin);
  logs = keep_if_empty w.logs removal;
}

-- The GPU belongs to the node.
abbrev pub is_gpu_of : ℕ → List Gpu → ℕ → Bool
is_gpu_of node_id gpus g = exists (λ x. x.id == g && x.node_id == node_id) gpus

abbrev pub is_attached_on : ℕ → List Gpu → WorkloadGpu → Bool
is_attached_on node_id gpus a = is_gpu_of node_id gpus a.gpu_id && is_null a.detached_at

-- What a forced removal does to the active workloads.
unfoldable pub fail_node_workloads : Time → ℕ → Store → Store
fail_node_workloads now node_id s = record s {
  workloads = update (is_active_on node_id) (fail_removed_row now) s.workloads;
  workload_gpus =
      update (is_attached_on node_id s.gpus) (λ a. record a { detached_at = some now })
        s.workload_gpus;
}

-- DELETE FROM gpu_nodes: its GPUs go with it, their attachments with them, and its commands; the
-- workloads stay, without a node. Heartbeats have no foreign key.
unfoldable pub delete_node : ℕ → Store → Store
delete_node node_id s = record s {
  nodes = select (λ n. not (is_node node_id n)) s.nodes;
  gpus = select (λ g. not (g.node_id == node_id)) s.gpus;
  workload_gpus = select (λ a. not (is_gpu_of node_id s.gpus a.gpu_id)) s.workload_gpus;
  commands = select (λ c. not (c.node_id == node_id)) s.commands;
  workloads =
      update (λ w. holds_id w.node_id node_id) (λ w. record w { node_id = none }) s.workloads;
}

unfoldable pub fail_if_active : Time → ℕ → Store → Store
unfolding fail_node_workloads
fail_if_active now node_id s =
    if ltb 0 (count (is_active_on node_id) s.workloads)
    then fail_node_workloads now node_id s
    else s

unfoldable pub remove_node : Time → ℕ → ℕ → Bool → Fleet → Result NodeError (RemoveResult × Fleet)
unfolding fail_if_active delete_node
remove_node now org_id node_id force f = do
  n ← or_fail (find (is_node_of org_id node_id) f.store.nodes) not_found
  let active = count (is_active_on node_id) f.store.workloads
  guard (not (ltb 0 active && not force)) node_busy
  ok (
    record {
      active_workloads = active;
      failed_workloads = active;
      credentials_revoked = count (is_live_of node_id) f.credentials;
    },
    record f {
      store = delete_node node_id (fail_if_active now node_id f.store);
      credentials = select (λ c. not (c.node_id == node_id)) (revoke_all now node_id f.credentials);
    },
  )
