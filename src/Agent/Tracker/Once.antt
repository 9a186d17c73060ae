-- ===== src/Agent/Tracker/Once.antt =====
-- Commands that arrive again
-- (gpu-platform/agent/client/client.go).
use node_hive_b2b.Prelude.{ℕ, ◌<◌, ◌≡◌, List, arith}
use node_hive_b2b.Sql.{count}
use node_hive_b2b.Agent.Tracker.{
  CommandResult, Tracker, cmd_done_cache_size, fresh, in_flight, cached, begin, finish,
}
use node_hive_b2b.Agent.Tracker.Ops.{Op, run, is_finish, Others, IsTracker}
use node_hive_b2b.Agent.Tracker.Remembered.{finished-Remembered, run-Remembered}
use node_hive_b2b.Agent.Tracker.InFlight.{
  run-InFlight, fresh-InFlight, InFlight-begin, Remembered-begin,
}

-- A command that is new is executed once, as long as fewer than 256 other commands finish after it:
-- while it runs, an arrival of it is ignored, and after it has finished, an arrival is answered with
-- its first result, in whatever order other commands arrive and finish before and after.
pub executed_once :
    (id : ℕ) (res : CommandResult) (before after : List Op) (t : Tracker)
    → IsTracker t
    → (begin id t).0 ≡ fresh
    → Others id before
    → Others id after
    → count is_finish after < cmd_done_cache_size
    → let running = run before (begin id t).1 in
      ((begin id running).0 ≡ in_flight)
      × ((begin id (run after (finish id res running))).0 ≡ cached res)
executed_once id res before after t v f o_before o_after short =
    let running = run before (begin id t).1 in
    let k = run-InFlight id before (begin id t).1 o_before (fresh-InFlight id t v f) in
    (
      InFlight-begin id running k,
      Remembered-begin id res _ (
          run-Remembered id res after 0 (finish id res running) o_after (omega (arith, short))
            (finished-Remembered id res running k.not_ordered)),
    )
