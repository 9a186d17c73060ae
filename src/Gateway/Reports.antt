-- ===== src/Gateway/Reports.antt =====
-- The agents' reports: `handleWorkloadStatus`, `extractLogs`, `findSep` and `protoToWorkloadState` in
-- gpu-platform/internal/agentgw/server.go, and the messages that the agent makes of an error and logs
-- (gpu-platform/agent/client/client.go). A Text is here a list of bytes.
pub mod RoundTrip
use node_hive_b2b.Prelude.{
  ℕ, suc, ◌+◌, Bool, true, false, ◌&&◌, String, List, [], ◌∷◌, ◌++◌, Option, none, some, ltb, ◌==◌,
  if◌then◌else◌, length, drop, Result, ok, err,
}
use node_hive_b2b.Text.{Text, runes, is_empty, is_prefix}
use node_hive_b2b.Domain.{WorkloadState}
use node_hive_b2b.Store.{Time, Store}
use node_hive_b2b.Workloads.Service.{Service, Error}
use node_hive_b2b.Workloads.Status.{update_status, record_stage_event}

abbrev pub partial_sep : Text
partial_sep = runes "\n---LOGS---"

abbrev pub sep : Text
sep = partial_sep ++ 10 ∷ []

abbrev next_position : Option ℕ → Option ℕ
next_position none = none
next_position (some i) = some (suc i)

-- The first position; `none` is the source's -1.
unfoldable pub find_sep : Text → Text → Option ℕ
unfolding is_prefix
find_sep sep [] = if is_prefix sep [] then some 0 else none
find_sep sep (c ∷ s) =
    let rest = next_position (find_sep sep s) in if is_prefix sep (c ∷ s) then some 0 else rest

abbrev pub after_sep : Option ℕ → Text → Text
after_sep none msg = []
after_sep (some i) msg = drop (i + length sep) msg

unfoldable pub extract_logs : Text → Text
unfolding find_sep
extract_logs msg = if ltb (length sep) (length msg) then after_sep (find_sep sep msg) msg else []

-- What the agent sends.
unfoldable pub with_logs : Text → Text → Text
with_logs msg logs = if is_empty logs then msg else msg ++ sep ++ logs

pub data ProtoState : Type 0 where
  unspecified pending running stopping stopped failed : ProtoState

unfoldable pub proto_to_workload_state : ProtoState → WorkloadState
proto_to_workload_state ProtoState.running = WorkloadState.running
proto_to_workload_state ProtoState.stopping = WorkloadState.stopping
proto_to_workload_state ProtoState.stopped = WorkloadState.stopped
proto_to_workload_state ProtoState.failed = WorkloadState.failed
proto_to_workload_state ProtoState.pending = WorkloadState.pending
proto_to_workload_state ProtoState.unspecified = WorkloadState.pending

-- A report; `none` is a workload id that does not parse.
pub record WorkloadReport : Type 0 where
  pub workload_id : Option ℕ
  pub state : ProtoState
  pub ssh_endpoint : String
  pub jupyter_endpoint : String
  pub message : Text

abbrev pub stage_prefix : Text
stage_prefix = runes "STAGE:"

-- An error is logged, and leaves the store.
abbrev pub accepted : Result Error Store → Store → Store
accepted (ok t) s = t
accepted (err e) s = s

abbrev pub handle_report :
    Service → (Text → String) → Time → ℕ → ℕ → Option ℕ → WorkloadReport → Store → Store
handle_report svc str now cmd_id node_id none r s = s
handle_report svc str now cmd_id node_id (some id) r s =
    if is_prefix stage_prefix r.message
    then accepted (record_stage_event node_id id (str (drop (length stage_prefix) r.message)) s) s
    else accepted
        (update_status svc now cmd_id node_id id (proto_to_workload_state r.state) r.ssh_endpoint
          r.jupyter_endpoint (str (extract_logs r.message)) s)
        s

-- `str` is the string of the bytes, and `cmd_id` the id of the stop command, if one is stored.
unfoldable pub handle_workload_status :
    Service → (Text → String) → Time → ℕ → ℕ → WorkloadReport → Store → Store
unfolding is_prefix extract_logs proto_to_workload_state
handle_workload_status svc str now cmd_id node_id r s =
    handle_report svc str now cmd_id node_id r.workload_id r s
