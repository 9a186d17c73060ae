-- ===== src/Tests/Queue.antt =====
-- The theorems on the queue and the sweep at the small organization.
use node_hive_b2b.Prelude.{ℕ, ◌≡◌, false}
use node_hive_b2b.Sql.{count}
use node_hive_b2b.Workloads.Queue.{Attempt}
use node_hive_b2b.Workloads.Sweep.{is_stuck, is_leaked, sweep_stuck}
use node_hive_b2b.Workloads.Sweep.Frees.{sweep_stuck-clean}
use node_hive_b2b.Tests.Fixtures.{small_service, small_store}

abbrev small_attempt : ℕ → Attempt
small_attempt i = record { scanned = small_store; locked = λ g. false; command_id = i; now = 9 }

sweep_stuck-clean_example :
    (count
        (is_stuck 900000000000 small_store.nodes)
        (sweep_stuck small_service (λ e. e) 900000000000 small_store).1.workloads
      ≡ 0)
    × (count
          (is_leaked (sweep_stuck small_service (λ e. e) 900000000000 small_store).1)
          (sweep_stuck small_service (λ e. e) 900000000000 small_store).1.gpus
        ≡ 0)
sweep_stuck-clean_example = sweep_stuck-clean small_service (λ e. e) 900000000000 small_store
