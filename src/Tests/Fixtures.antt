-- ===== src/Tests/Fixtures.antt =====
-- The rows that the applications of the theorems share.
use node_hive_b2b.Prelude.{ℕ, true, false, [], ◌∷◌, Option, none, some, arith, str_eq}
use node_hive_b2b.Prelude.Int.{pos}
use node_hive_b2b.Text.{runes}
use node_hive_b2b.Domain.{WorkloadState, GpuStatus, NodeStatus}
use node_hive_b2b.Sql.{count}
use node_hive_b2b.Store.{Workload, Gpu, Store}
use node_hive_b2b.Workloads.Service.{Service}
use node_hive_b2b.Workloads.Request.{LaunchRequest}
use node_hive_b2b.Workloads.Launch.{Draws}
use node_hive_b2b.Workloads.Invariant.{Inv}

abbrev pub small_service : Service
small_service = record {
  billing = none;
  has_audit = true;
  has_publish = true;
  ilike_contains = str_eq;
  uuid_hex = λ n. runes "0123456789abcdef0123456789abcdef";
}

abbrev pub small_workload : ℕ → WorkloadState → Option ℕ → Workload
small_workload id status node_id = record {
  id = id;
  org_id = 1;
  project_id = none;
  department_id = none;
  template_id = none;
  user_id = 7;
  node_id = node_id;
  name = runes "train";
  image = runes "ubuntu:22.04";
  container_id = runes "nodehive-0123456789abcdef0123";
  requested_gpu_count = pos 1;
  requested_gpu_type = "any";
  status = status;
  stage = "";
  idle_timeout_sec = none;
  expose_ssh = false;
  expose_jupyter = false;
  ssh_password = "";
  ssh_endpoint = "";
  jupyter_endpoint = "";
  logs = "";
  started_at = none;
  stopped_at = none;
  stop_reason = none;
  created_at = 0;
  queued_at = none;
  stopping_at = none;
  metered_until = none;
}

abbrev pub small_gpu : ℕ → GpuStatus → Gpu
small_gpu id status = record {
  id = id;
  node_id = 1;
  org_id = 1;
  index = id;
  uuid = "GPU-1";
  model = "A100";
  memory_mb = pos 81920;
  mig_enabled = false;
  status = status;
}

-- Node 1 has GPU 10, idle, and GPU 11, which the running workload 100 holds; workload 200 waits.
abbrev pub small_store : Store
small_store = record {
  workloads =
      small_workload 100 WorkloadState.running (some 1)
      ∷ small_workload 200 WorkloadState.queued none
      ∷ [];
  gpus = small_gpu 10 GpuStatus.idle ∷ small_gpu 11 GpuStatus.in_use ∷ [];
  nodes =
      record {
        id = 1;
        org_id = 1;
        fingerprint = "f";
        hostname = "h";
        status = NodeStatus.online;
        os = "linux";
        kernel = "";
        cpu_model = "";
        cpu_cores = pos 0;
        ram_mb = pos 0;
        nvidia_driver = "";
        cuda_version = "";
        agent_version = "0.1.0";
        enrolled_at = 0;
        last_seen_at = some 0;
      }
      ∷ [];
  workload_gpus = record { workload_id = 100; gpu_id = 11; detached_at = none } ∷ [];
  commands = [];
  events = [];
  effects = [];
}

pub small_store-Inv : Inv small_store
unfolding count
small_store-Inv = record {
  gpu_keys = λ g. ground arith;
  one_active = λ g. ground arith;
  idle_free = λ g h. ground arith;
  held = λ w h. ground arith;
  queued_unplaced = λ w h. ground arith;
}

abbrev pub small_request : LaunchRequest
small_request = record {
  user_id = 7;
  project_id = none;
  department_id = none;
  template_id = none;
  name = runes "train";
  image = runes "ubuntu:22.04";
  gpu_count = pos 1;
  gpu_type = "any";
  idle_timeout_sec = none;
  expose_ssh = false;
  expose_jupyter = false;
}

abbrev pub small_draws : Draws
small_draws = record { workload_id = 300; command_id = 1; password = "p" }
