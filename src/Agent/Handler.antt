-- ===== src/Agent/Handler.antt =====
-- The agent's handling of commands and its reports: `handleCommand`, `sendResult` and
-- `reconcileWorkloads` in gpu-platform/agent/client/client.go.
pub mod Answers
use node_hive_b2b.Prelude.{
  ℕ, Bool, true, false, not, String, List, [], ◌∷◌, ◌++◌, map, Option, none, some, if◌then◌else◌,
  str_eq, is_null, coalesce,
}
use node_hive_b2b.Text.{Text, runes, is_empty}
use node_hive_b2b.Store.{WorkloadSpec, Message, ProtoStopReason}
use node_hive_b2b.Gateway.Reports.{ProtoState, stage_prefix, with_logs}
use node_hive_b2b.Agent.Tracker.{
  CommandResult, Tracker, Begun, begin, finish, fresh, in_flight, cached,
}

-- What launching a workload gives: the stages that it reports, an error's text, and the status.
pub record Launching : Type 0 where
  pub stages : List Text
  pub error : Option Text
  pub ssh_endpoint : String
  pub jupyter_endpoint : String
  pub message : Text

-- A workload that is found on the host.
pub record Found : Type 0 where
  pub workload_id : ℕ
  pub state : String
  pub ssh_endpoint : String
  pub jupyter_endpoint : String
  pub message : Text
  pub logs : Text

-- The container runtime; an empty Text stands for no logs, and for logs that cannot be read.
pub record Executor : Type 0 where
  pub launch : WorkloadSpec → Launching
  pub stop : ℕ → Option Text
  pub logs : ℕ → Text

-- What the agent sends.
pub data AgentMessage : Type 0 where
  workload_status : ℕ → ProtoState → String → String → Text → AgentMessage
  command_result : CommandResult → AgentMessage
  inventory : AgentMessage

-- An empty command id is neither tracked nor cached.
abbrev pub finish_if : Option ℕ → CommandResult → Tracker → Tracker
finish_if none res t = t
finish_if (some id) res t = finish id res t

abbrev pub result_of : Option ℕ → Option Text → Text → CommandResult
result_of id error text = record { command_id = coalesce id 0; ok = is_null error; error = text }

unfoldable pub send_result : Option ℕ → Option Text → Text → Tracker → List AgentMessage × Tracker
send_result id error text t =
    (command_result (result_of id error text) ∷ [], finish_if id (result_of id error text) t)

-- The state and the message that are reported of a launch.
abbrev pub launch_state : Option Text → ProtoState
launch_state none = ProtoState.running
launch_state (some e) = ProtoState.failed

abbrev pub launch_message : Launching → Option Text → Text
launch_message l none = []
launch_message l (some e) = with_logs e l.message

abbrev pub stage_report : ℕ → Text → AgentMessage
stage_report id stage = workload_status id ProtoState.pending "" "" (stage_prefix ++ stage)

unfoldable pub handle_launch : Launching → Option ℕ → ℕ → Tracker → List AgentMessage × Tracker
unfolding send_result
handle_launch l id workload_id t =
    let r = send_result id l.error (launch_message l l.error) t in
    (
      map (stage_report workload_id) l.stages
          ++ workload_status workload_id (launch_state l.error) l.ssh_endpoint l.jupyter_endpoint
              (launch_message l l.error)
            ∷ r.0,
      r.1,
    )

unfoldable pub handle_stop : Executor → Option ℕ → ℕ → Tracker → List AgentMessage × Tracker
unfolding send_result
handle_stop exec id workload_id t =
    let text = coalesce (exec.stop workload_id) [] in
    let r = send_result id (exec.stop workload_id) text t in
    (
      workload_status workload_id ProtoState.stopped "" "" (with_logs text (exec.logs workload_id))
          ∷ r.0,
      r.1,
    )

-- A message without a known payload is neither finished nor answered.
unfoldable pub execute : Executor → Option ℕ → Message → Tracker → List AgentMessage × Tracker
unfolding handle_launch handle_stop send_result
execute exec id (Message.launch spec) t = handle_launch (exec.launch spec) id spec.workload_id t
execute exec id (Message.stop w reason) t = handle_stop exec id w t
execute exec id Message.get_inventory t = let r = send_result id none [] t in (inventory ∷ r.0, r.1)
execute exec id Message.malformed t = ([], t)

abbrev pub handle_begun : Executor → ℕ → Message → Begun × Tracker → List AgentMessage × Tracker
handle_begun exec id m (fresh, t) = execute exec (some id) m t
handle_begun exec id m (in_flight, t) = ([], t)
handle_begun exec id m (cached res, t) = (command_result res ∷ [], t)

-- What is sent, and the tracker after it.
unfoldable pub handle_command :
    Executor → Option ℕ → Message → Tracker → List AgentMessage × Tracker
unfolding execute
handle_command exec none m t = execute exec none m t
handle_command exec (some id) m t = handle_begun exec id m (begin id t)

abbrev pub found_state : String → ProtoState
found_state s = if str_eq s "running" then ProtoState.running else ProtoState.stopped

unfoldable pub reconcile_workloads : List Found → List AgentMessage
reconcile_workloads found =
    map
      (λ f.
        workload_status f.workload_id (found_state f.state) f.ssh_endpoint f.jupyter_endpoint
          (with_logs f.message f.logs))
      found
