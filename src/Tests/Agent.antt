-- ===== src/Tests/Agent.antt =====
-- The theorems on the agent at a tracker that has executed one command.
use node_hive_b2b.Prelude.{ℕ, ◌≡◌, refl, true, [], ◌∷◌, none, some, arith}
use node_hive_b2b.Text.{runes}
use node_hive_b2b.Sql.{count}
use node_hive_b2b.Store.{Message, WorkloadSpec}
use node_hive_b2b.Agent.Tracker.{CommandResult, Tracker, in_flight, cached, lookup, begin, finish}
use node_hive_b2b.Agent.Tracker.Ops.{begins, finishes, run, IsTracker}
use node_hive_b2b.Agent.Tracker.Once.{executed_once}
use node_hive_b2b.Agent.Handler.{Executor, command_result, handle_command}
use node_hive_b2b.Agent.Handler.Answers.{results_in, handle_command_twice}

abbrev result_for : ℕ → CommandResult
result_for id = record { command_id = id; ok = true; error = [] }

abbrev small_tracker : Tracker
small_tracker = record { inflight = 8 ∷ []; done = (7, result_for 7) ∷ []; order = 7 ∷ [] }

small_tracker-IsTracker : IsTracker small_tracker
unfolding lookup count
small_tracker-IsTracker = record { once = λ id. ground arith; known = λ id e. ground (arith, e) }

executed_once_example :
    ((begin 9 (run (finishes 8 (result_for 8) ∷ begins 9 ∷ []) (begin 9 small_tracker).1)).0
      ≡ in_flight)
    × ((begin 9 (
          run (begins 10 ∷ finishes 10 (result_for 10) ∷ []) (
            finish 9
              (result_for 9)
              (run (finishes 8 (result_for 8) ∷ begins 9 ∷ []) (begin 9 small_tracker).1)))).0
        ≡ cached (result_for 9))
unfolding begin count lookup
executed_once_example =
    executed_once 9 (result_for 9) (finishes 8 (result_for 8) ∷ begins 9 ∷ [])
      (begins 10 ∷ finishes 10 (result_for 10) ∷ []) small_tracker small_tracker-IsTracker refl refl
      refl (omega arith)

abbrev small_executor : Executor
small_executor = record {
  launch = λ spec. record {
    stages = runes "pulling" ∷ [];
    error = none;
    ssh_endpoint = "10.0.0.2:22";
    jupyter_endpoint = "";
    message = [];
  };
  stop = λ w. none;
  logs = λ w. runes "done";
}

abbrev small_spec : WorkloadSpec
small_spec = record {
  workload_id = 100;
  image = runes "ubuntu:22.04";
  gpu_count = 1;
  gpu_uuids = "GPU-1" ∷ [];
  idle_timeout_sec = 60;
  ssh_password = none;
  expose_ssh = true;
  expose_jupyter = true;
}

handle_command_twice_example :
    (res : CommandResult) × (results_in
        (handle_command small_executor (some 9) (Message.launch small_spec) small_tracker).0
      ≡ res ∷ [])
    × (handle_command small_executor
          (some 9)
          Message.get_inventory
          (handle_command small_executor (some 9) (Message.launch small_spec) small_tracker).1
        ≡ (
          command_result res ∷ [],
          (handle_command small_executor (some 9) (Message.launch small_spec) small_tracker).1,
        ))
unfolding begin lookup count
handle_command_twice_example =
    handle_command_twice small_executor 9 (Message.launch small_spec) Message.get_inventory
      small_tracker small_tracker-IsTracker refl refl
