-- ===== src/Agent/Handler/Answers.antt =====
-- How the agent answers a command, and its duplicates (gpu-platform/agent/client/client.go).
use node_hive_b2b.Prelude.{ℕ, ap, ◌∙◌, ◌≡◌, refl, Bool, true, false, List, [], ◌∷◌, ◌++◌, map, some}
use node_hive_b2b.Text.{Text}
use node_hive_b2b.Store.{Message}
use node_hive_b2b.Agent.Tracker.{
  CommandResult, Tracker, Begun, begin, fresh, in_flight, cached, lookup, finish,
}
use node_hive_b2b.Agent.Tracker.Ops.{IsTracker}
use node_hive_b2b.Agent.Tracker.Remembered.{finished-Remembered}
use node_hive_b2b.Agent.Tracker.InFlight.{fresh-InFlight, Remembered-begin}
use node_hive_b2b.Agent.Handler.{
  Executor, AgentMessage, workload_status, command_result, inventory, stage_report, send_result,
  handle_launch, handle_stop, execute, handle_command, handle_begun,
}

abbrev pub is_known : Message → Bool
is_known (Message.launch spec) = true
is_known (Message.stop w reason) = true
is_known Message.get_inventory = true
is_known Message.malformed = false

-- The results among the messages.
unfoldable pub results_in : List AgentMessage → List CommandResult
results_in [] = []
results_in (workload_status w state ssh jupyter m ∷ ms) = results_in ms
results_in (command_result res ∷ ms) = res ∷ results_in ms
results_in (inventory ∷ ms) = results_in ms

results_in-stages :
    (w : ℕ) (stages : List Text) (ms : List AgentMessage)
    → results_in (map (stage_report w) stages ++ ms) ≡ results_in ms
unfolding results_in
results_in-stages w [] ms = refl
results_in-stages w (s ∷ stages) ms = results_in-stages w stages ms

-- One result among the messages, and the same one in the cache.
pub record Answers (id : ℕ) (t : Tracker) (r : List AgentMessage × Tracker) : Type 0 where
  pub result : CommandResult
  pub once : results_in r.0 ≡ result ∷ []
  pub kept : r.1 ≡ finish id result t

execute-Answers :
    (exec : Executor) (id : ℕ) (m : Message) (t : Tracker)
    → is_known m ≡ true
    → Answers id t (execute exec (some id) m t)
unfolding execute handle_launch handle_stop send_result results_in
execute-Answers exec id (Message.launch spec) t k = record {
  result = _;
  once = results_in-stages spec.workload_id (exec.launch spec).stages _;
  kept = refl;
}
execute-Answers exec id (Message.stop w reason) t k = record {
  result = _;
  once = refl;
  kept = refl;
}
execute-Answers exec id Message.get_inventory t k = record { result = _; once = refl; kept = refl }
execute-Answers exec id Message.malformed t k = cc

abbrev result_in : Begun → CommandResult → CommandResult
result_in fresh r = r
result_in in_flight r = r
result_in (cached res) r = res

cached-injective : {a b : CommandResult} → cached a ≡ cached b → a ≡ b
cached-injective {a = a} h = ap (λ c. result_in c a) h

module _ (exec : Executor) (id : ℕ) (m : Message) where
  begun_fresh :
      (b : Begun × Tracker) → b.0 ≡ fresh → handle_begun exec id m b ≡ execute exec (some id) m b.1
  begun_fresh (fresh, t) h = refl
  begun_fresh (in_flight, t) h = cc
  begun_fresh (cached res, t) h = cc

  begun_cached :
      (res : CommandResult) (b : Begun × Tracker)
      → b.0 ≡ cached res
      → handle_begun exec id m b ≡ (command_result res ∷ [], b.1)
  begun_cached res (fresh, t) h = cc
  begun_cached res (in_flight, t) h = cc
  begun_cached res (cached other, t) h = ap (λ r. (command_result r ∷ [], t)) (cached-injective h)

  begun_same :
      (t : Tracker) (res : CommandResult) → lookup id t.done ≡ some res → (begin id t).1 ≡ t
  unfolding begin
  begun_same t res e = rw e refl

-- A new command with a known payload is answered by one result, and when it arrives again, with
-- whatever payload, the same result is sent again and nothing else.
pub handle_command_twice :
    (exec : Executor) (id : ℕ) (m again : Message) (t : Tracker)
    → IsTracker t
    → (begin id t).0 ≡ fresh
    → is_known m ≡ true
    → let r = handle_command exec (some id) m t in
      (res : CommandResult) × (results_in r.0 ≡ res ∷ [])
      × (handle_command exec (some id) again r.1 ≡ (command_result res ∷ [], r.1))
unfolding handle_command
handle_command_twice exec id m again t v f k =
    let started = (begin id t).1 in
    let answers = execute-Answers exec id m started k in
    let run = begun_fresh exec id m (begin id t) f in
    let running = fresh-InFlight id t v f in
    let stored = (finished-Remembered id answers.result started running.not_ordered).result in
    rw (run, answers.kept)
      (
        answers.result,
        answers.once,
        begun_cached exec id again answers.result (begin id (finish id answers.result started))
              (Remembered-begin id answers.result (finish id answers.result started) stored)
            ∙ ap (λ x. (command_result answers.result ∷ [], x))
                (begun_same exec id again (finish id answers.result started) answers.result stored),
      )
