-- ===== src/Inventory.antt =====
-- The inventory of nodes and GPUs: gpu-platform/internal/inventory/impl.go. The labels of a node and
-- the time of a row's last update are not columns of the model.
pub mod Reported
use node_hive_b2b.Prelude.{
  ℕ, ◌+◌, ◌*◌, ◌<◌, Bool, true, false, not, ◌&&◌, String, List, [], ◌∷◌, ◌++◌, Option, none, some,
  ltb, leb, ◌==◌, if◌then◌else◌, str_eq, Result, ok, err, ◌>>=◌, or_fail,
}
use node_hive_b2b.Prelude.Int.{ℤ}
use node_hive_b2b.Domain.{NodeStatus, GpuStatus, is_online}
use node_hive_b2b.Sql.{select, update, count, find, order_by}
use node_hive_b2b.Store.{Time, second, Node, Gpu, Store}
use node_hive_b2b.Nodes.{NodeInfo, NodeError, not_found, is_node, refresh_row}
use node_hive_b2b.Nodes.Remove.{delete_node}

-- What an agent reports of a GPU, and the id that is drawn for its row.
pub record GpuReport : Type 0 where
  pub drawn : ℕ
  pub index : ℕ
  pub uuid : String
  pub model : String
  pub memory_mb : ℤ
  pub mig_enabled : Bool

abbrev pub has_uuid : String → Gpu → Bool
has_uuid uuid g = str_eq g.uuid uuid

abbrev pub inserted : ℕ → ℕ → GpuReport → Gpu
inserted node_id org_id g = record {
  id = g.drawn;
  node_id = node_id;
  org_id = org_id;
  index = g.index;
  uuid = g.uuid;
  model = g.model;
  memory_mb = g.memory_mb;
  mig_enabled = g.mig_enabled;
  status = GpuStatus.idle;
}

abbrev pub updated : ℕ → ℕ → GpuReport → Gpu → Gpu
updated node_id org_id g x = record x {
  node_id = node_id;
  org_id = org_id;
  model = g.model;
  memory_mb = g.memory_mb;
  mig_enabled = g.mig_enabled;
}

-- INSERT … ON CONFLICT (uuid) DO UPDATE.
unfoldable pub upsert_gpu : ℕ → ℕ → GpuReport → List Gpu → List Gpu
upsert_gpu node_id org_id g gpus =
    if count (has_uuid g.uuid) gpus == 0
    then gpus ++ inserted node_id org_id g ∷ []
    else update (has_uuid g.uuid) (updated node_id org_id g) gpus

-- A number for each status, to compare them.
abbrev pub status_code : GpuStatus → ℕ
status_code GpuStatus.healthy = 0
status_code GpuStatus.unhealthy = 1
status_code GpuStatus.in_use = 2
status_code GpuStatus.idle = 3

abbrev pub has_status : Option GpuStatus → Gpu → Bool
has_status none g = true
has_status (some status) g = status_code g.status == status_code status

unfoldable pub upsert_gpus : ℕ → ℕ → List GpuReport → List Gpu → List Gpu
unfolding upsert_gpu
upsert_gpus node_id org_id [] gpus = gpus
upsert_gpus node_id org_id (g ∷ gs) gpus =
    upsert_gpus node_id org_id gs (upsert_gpu node_id org_id g gpus)

-- `org_id` is the organization of the node that reports.
unfoldable pub upsert_inventory : Time → ℕ → ℕ → NodeInfo → List GpuReport → Store → Store
unfolding upsert_gpus
upsert_inventory now node_id org_id info gs s = record s {
  nodes = update (is_node node_id) (refresh_row now info) s.nodes;
  gpus = upsert_gpus node_id org_id gs s.gpus;
}

-- `last_seen_at IS NULL OR last_seen_at < now - 90s`, with the ninety seconds on the other side.
abbrev pub unseen_for : Time → Option Time → Bool
unseen_for now none = true
unseen_for now (some t) = ltb (t + 90 * second) now

abbrev pub is_silent : Time → Node → Bool
is_silent now n = is_online n.status && unseen_for now n.last_seen_at

unfoldable pub sweep_offline : Time → Store → Store
sweep_offline now s = record s {
  nodes = update (is_silent now) (λ n. record n { status = NodeStatus.offline }) s.nodes;
}

-- `le` is the database's order of host names.
unfoldable pub list_nodes : (String → String → Bool) → ℕ → Store → List Node
list_nodes le org_id s =
    order_by (λ a b. le a.hostname b.hostname) (select (λ n. n.org_id == org_id) s.nodes)

-- Without a status all GPUs are listed. `le` is the database's order of texts.
unfoldable pub list_gpus : (String → String → Bool) → ℕ → Option GpuStatus → Store → List Gpu
list_gpus le org_id status s =
    order_by (λ a b. if str_eq a.model b.model then leb a.index b.index else le a.model b.model)
      (select (λ g. g.org_id == org_id && has_status status g) s.gpus)

unfoldable pub list_gpus_by_node : ℕ → Store → List Gpu
list_gpus_by_node node_id s =
    order_by (λ a b. leb a.index b.index) (select (λ g. g.node_id == node_id) s.gpus)

unfoldable pub get_node : ℕ → Store → Result NodeError (Node × List Gpu)
unfolding list_gpus_by_node
get_node id s = do n ← or_fail (find (is_node id) s.nodes) not_found; ok (n, list_gpus_by_node id s)

abbrev pub deregister_node : ℕ → Store → Store
deregister_node id s = delete_node id s
