-- ===== src/Workloads/Outbox.antt =====
-- The launch and stop commands that go into the outbox: `enqueueLaunch`, `enqueueStop` and
-- `domainToProtoStopReason` in gpu-platform/internal/workloads/impl.go.
use node_hive_b2b.Prelude.{ℕ, ◌+◌, ◌*◌, Option, none, some, if◌then◌else◌, str_eq}
use node_hive_b2b.Prelude.Int.{ℤ, as_uint32}
use node_hive_b2b.Domain.{StopReason}
use node_hive_b2b.Store.{Time, minute, Workload, ProtoStopReason, Message, Kind, Store}
use node_hive_b2b.Commands.{enqueue}
use node_hive_b2b.Workloads.Place.{Placement}

abbrev pub launch_delivery_deadline : Time
launch_delivery_deadline = 10 * minute

abbrev pub timeout_or_default : Option ℤ → ℕ
timeout_or_default none = 3600
timeout_or_default (some t) = as_uint32 t

abbrev pub launch_message : Workload → Placement → Message
launch_message w p = Message.launch (record {
  workload_id = w.id;
  image = w.image;
  gpu_count = as_uint32 w.requested_gpu_count;
  gpu_uuids = p.gpu_uuids;
  idle_timeout_sec = timeout_or_default w.idle_timeout_sec;
  ssh_password = if str_eq w.ssh_password "" then none else some w.ssh_password;
  expose_ssh = w.expose_ssh;
  expose_jupyter = w.expose_jupyter;
})

unfoldable pub enqueue_launch : Time → ℕ → Workload → Placement → Store → Store
unfolding enqueue
enqueue_launch now cmd_id w p s =
    enqueue now cmd_id w.org_id p.node_id (some w.id) Kind.launch (launch_message w p)
      (some (now + launch_delivery_deadline)) s

unfoldable pub to_proto_stop_reason : StopReason → ProtoStopReason
to_proto_stop_reason StopReason.user = ProtoStopReason.user
to_proto_stop_reason StopReason.idle_reclaim = ProtoStopReason.idle_reclaim
to_proto_stop_reason StopReason.admin = ProtoStopReason.admin
to_proto_stop_reason StopReason.failure = ProtoStopReason.failure

-- A stop has no delivery deadline.
unfoldable pub enqueue_stop : Time → ℕ → ℕ → ℕ → ℕ → StopReason → Store → Store
unfolding enqueue to_proto_stop_reason
enqueue_stop now cmd_id org_id node_id workload_id reason s =
    enqueue now cmd_id org_id node_id (some workload_id) Kind.stop
      (Message.stop workload_id (to_proto_stop_reason reason)) none s
