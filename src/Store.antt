-- ===== src/Store.antt =====
-- The control plane's tables, as far as the modelled operations read and write them
-- (gpu-platform/internal/domain/domain.go, gpu-platform/internal/commands/commands.go and the
-- columns of the queries), with a trace of the effects that leave the database. An id (a UUID) is a
-- number, and a time a number of nanoseconds.
use node_hive_b2b.Prelude.{ℕ, Bool, String, List, ◌∷◌, Option}
use node_hive_b2b.Prelude.Int.{ℤ}
use node_hive_b2b.Text.{Text}
use node_hive_b2b.Domain.{NodeStatus, GpuStatus, WorkloadState, StopReason}

abbrev pub Time : Type 0
Time = ℕ

abbrev pub second : ℕ
second = 1000000000

abbrev pub minute : ℕ
minute = 60000000000

pub record Workload : Type 0 where
  pub id : ℕ
  pub org_id : ℕ
  pub project_id : Option ℕ
  pub department_id : Option ℕ
  pub template_id : Option ℕ
  pub user_id : ℕ
  pub node_id : Option ℕ
  pub name : Text
  pub image : Text
  pub container_id : Text
  pub requested_gpu_count : ℤ
  pub requested_gpu_type : String
  pub status : WorkloadState
  pub stage : String
  pub idle_timeout_sec : Option ℤ
  pub expose_ssh : Bool
  pub expose_jupyter : Bool
  pub ssh_password : String
  pub ssh_endpoint : String
  pub jupyter_endpoint : String
  pub logs : String
  pub started_at : Option Time
  pub stopped_at : Option Time
  pub stop_reason : Option StopReason
  pub created_at : Time
  pub queued_at : Option Time
  pub stopping_at : Option Time
  pub metered_until : Option Time

pub record Gpu : Type 0 where
  pub id : ℕ
  pub node_id : ℕ
  pub org_id : ℕ
  pub index : ℕ
  pub uuid : String
  pub model : String
  pub memory_mb : ℤ
  pub mig_enabled : Bool
  pub status : GpuStatus

pub record Node : Type 0 where
  pub id : ℕ
  pub org_id : ℕ
  pub fingerprint : String
  pub hostname : String
  pub status : NodeStatus
  pub os : String
  pub kernel : String
  pub cpu_model : String
  pub cpu_cores : ℤ
  pub ram_mb : ℤ
  pub nvidia_driver : String
  pub cuda_version : String
  pub agent_version : String
  pub enrolled_at : Time
  pub last_seen_at : Option Time

-- A row of workload_gpus.
pub record WorkloadGpu : Type 0 where
  pub workload_id : ℕ
  pub gpu_id : ℕ
  pub detached_at : Option Time

-- What a launch command tells the agent.
pub record WorkloadSpec : Type 0 where
  pub workload_id : ℕ
  pub image : Text
  pub gpu_count : ℕ
  pub gpu_uuids : List String
  pub idle_timeout_sec : ℕ
  pub ssh_password : Option String
  pub expose_ssh : Bool
  pub expose_jupyter : Bool

pub data ProtoStopReason : Type 0 where
  unspecified user idle_reclaim admin failure : ProtoStopReason

-- The payload of a command, as `proto.Unmarshal` reads it; `malformed` is one that it refuses.
pub data Message : Type 0 where
  launch : WorkloadSpec → Message
  stop : ℕ → ProtoStopReason → Message
  get_inventory : Message
  malformed : Message

pub data Kind : Type 0 where
  launch stop get_inventory : Kind

pub data CommandStatus : Type 0 where
  pending sent acked failed expired superseded : CommandStatus

-- A row of agent_commands.
pub record Command : Type 0 where
  pub id : ℕ
  pub org_id : ℕ
  pub node_id : ℕ
  pub workload_id : Option ℕ
  pub kind : Kind
  pub payload : Message
  pub status : CommandStatus
  pub attempts : ℕ
  pub next_attempt_at : Time
  pub deliver_by : Option Time
  pub last_error : String
  pub created_at : Time
  pub sent_at : Option Time
  pub acked_at : Option Time

-- A row of workload_events.
pub record WorkloadEvent : Type 0 where
  pub workload_id : ℕ
  pub org_id : ℕ
  pub stage : String
  pub message : String

-- What an operation does outside the database: realtime hints, nudges of the delivery engine, audit
-- records, and the goroutines that it starts.
pub data Effect : Type 0 where
  publish : ℕ → List String → Effect
  nudge : ℕ → Effect
  audit : ℕ → String → String → ℕ → Option String → Effect
  go_promote_queued : ℕ → Effect
  go_meter_workload : ℕ → Effect

pub record Store : Type 0 where
  pub workloads : List Workload
  pub gpus : List Gpu
  pub nodes : List Node
  pub workload_gpus : List WorkloadGpu
  pub commands : List Command
  pub events : List WorkloadEvent
  pub effects : List Effect

-- The newest effect comes first.
abbrev pub emit : Effect → Store → Store
emit e s = record s { effects = e ∷ s.effects }
