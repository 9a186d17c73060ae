-- ===== src/Gateway/Delivery/Attempted.antt =====
-- Claimed commands after a batch (gpu-platform/internal/agentgw/delivery.go).
use node_hive_b2b.Prelude.{
  ℕ, ◌+◌, ◌*◌, ◌≤◌, ◌<◌, ◌≡◌, Bool, false, not, ◌&&◌, String, List, [], ◌∷◌, Option, none, some,
  arith, ◌==◌, All,
}
use node_hive_b2b.Sql.{count}
use node_hive_b2b.Sql.Counts.{count-update-le, count-update-none}
use node_hive_b2b.Store.{Time, second, Command, Message, Store}
use node_hive_b2b.Commands.{is_outstanding, is_due, claim_due, mark_sent, mark_attempt_failed, ack}
use node_hive_b2b.Commands.Lifecycle.{resend_backoff_bounds}
use node_hive_b2b.Gateway.Delivery.{
  Send, batch_size, after_send, deliver_message, deliver_one, deliver_all, deliver_batch, reset_due,
}

abbrev pub due_at : ℕ → Time → ℕ → Command → Bool
due_at node_id later id c = c.id == id && is_due node_id later c

module _ (node_id : ℕ) (now later : Time) (soon : later < now + 15 * second) where
  mark_sent-due :
      (id attempts i : ℕ) (s : Store)
      → (count (due_at node_id later i) (mark_sent id attempts now s).commands
          ≤ count (due_at node_id later i) s.commands)
        × (count (due_at node_id later id) (mark_sent id attempts now s).commands ≡ 0)
  unfolding mark_sent
  mark_sent-due id attempts i s =
      let wait = (resend_backoff_bounds attempts attempts (omega arith)).0 in
      (
        count-update-le (due_at node_id later i) (λ c. c.id == id) (due_at node_id later i) _
            s.commands (λ c e k. absurd (ground (arith, wait))) (λ c e k. k),
        count-update-none (due_at node_id later id) (λ c. c.id == id) _ s.commands
            (λ c e. ground (arith, wait)) (λ c e. ground arith),
      )

  mark_attempt_failed-due :
      (id attempts i : ℕ) (reason : String) (s : Store)
      → (count (due_at node_id later i) (mark_attempt_failed id attempts reason now s).commands
          ≤ count (due_at node_id later i) s.commands)
        × (count (due_at node_id later id) (mark_attempt_failed id attempts reason now s).commands
            ≡ 0)
  unfolding mark_attempt_failed
  mark_attempt_failed-due id attempts i reason s =
      let wait = (resend_backoff_bounds attempts attempts (omega arith)).0 in
      (
        count-update-le (due_at node_id later i) (λ c. c.id == id) (due_at node_id later i) _
            s.commands (λ c e k. absurd (ground (arith, wait))) (λ c e k. k),
        count-update-none (due_at node_id later id) (λ c. c.id == id) _ s.commands
            (λ c e. ground (arith, wait)) (λ c e. ground arith),
      )

  ack-due :
      (id i : ℕ) (text : String) (s : Store)
      → (count (due_at node_id later i) (ack id false text now s).commands
          ≤ count (due_at node_id later i) s.commands)
        × (count (due_at node_id later id) (ack id false text now s).commands ≡ 0)
  unfolding ack
  ack-due id i text s = (
    count-update-le (due_at node_id later i) (λ c. c.id == id && is_outstanding c.status)
        (due_at node_id later i) _ s.commands (λ c e k. absurd (ground arith)) (λ c e k. k),
    count-update-none (due_at node_id later id) (λ c. c.id == id && is_outstanding c.status) _
        s.commands (λ c e. ground arith) (λ c e. ground arith),
  )

  -- One step never makes a command due, and its own command is due no more.
  deliver_one-due :
      (send : Send) (text : String) (c : Command) (i : ℕ) (s : Store)
      → (count (due_at node_id later i) (deliver_one send text now c s).1.commands
          ≤ count (due_at node_id later i) s.commands)
        × (count (due_at node_id later c.id) (deliver_one send text now c s).1.commands ≡ 0)
  unfolding deliver_one
  deliver_one-due send text c i s = by_message c.payload (send c)
    where
      sent_or_not :
          (o : Option String)
          → (count (due_at node_id later i) (after_send o now c s).1.commands
              ≤ count (due_at node_id later i) s.commands)
            × (count (due_at node_id later c.id) (after_send o now c s).1.commands ≡ 0)
      sent_or_not none = mark_sent-due c.id c.attempts i s
      sent_or_not (some reason) = mark_attempt_failed-due c.id c.attempts i reason s

      by_message :
          (m : Message) (o : Option String)
          → (count (due_at node_id later i) (deliver_message m send text now c s).1.commands
              ≤ count (due_at node_id later i) s.commands)
            × (count (due_at node_id later c.id) (deliver_message m send text now c s).1.commands
                ≡ 0)
      by_message (Message.launch spec) o = sent_or_not (send c)
      by_message (Message.stop id reason) o = sent_or_not (send c)
      by_message Message.get_inventory o = sent_or_not (send c)
      by_message Message.malformed o = ack-due c.id i text s

  deliver_all-le :
      (send : Send) (text : String) (cs : List Command) (i : ℕ) (s : Store)
      → count (due_at node_id later i) (deliver_all send text now cs s).1.commands
        ≤ count (due_at node_id later i) s.commands
  unfolding deliver_all
  deliver_all-le send text [] i s = omega arith
  deliver_all-le send text (c ∷ cs) i s = omega (
    arith,
    (deliver_one-due send text c i s).0,
    deliver_all-le send text cs i (deliver_one send text now c s).1,
  )

  deliver_all-All :
      (send : Send) (text : String) (cs : List Command) (s : Store)
      → All
          (λ c. count (due_at node_id later c.id) (deliver_all send text now cs s).1.commands ≡ 0)
          cs
  unfolding deliver_all
  deliver_all-All send text [] s = tt
  deliver_all-All send text (c ∷ cs) s = (
    omega (
      arith,
      (deliver_one-due send text c c.id s).1,
      deliver_all-le send text cs c.id (deliver_one send text now c s).1,
    ),
    deliver_all-All send text cs (deliver_one send text now c s).1,
  )

-- After a batch no command that it claimed is due for fifteen seconds, whether it was sent, could not
-- be sent, or could not be read: nothing that was claimed is skipped, and nothing is sent in a loop.
pub deliver_batch-attempts :
    (node_id : ℕ) (now later : Time) (send : Send) (text : String) (locked : ℕ → Bool) (s : Store)
    → later < now + 15 * second
    → All
        (λ c.
          count
            (due_at node_id later c.id)
            (deliver_batch send text now locked node_id s).1.commands
          ≡ 0)
        (claim_due node_id batch_size now locked s)
unfolding deliver_batch
deliver_batch-attempts node_id now later send text locked s soon =
    deliver_all-All node_id now later soon send text (claim_due node_id batch_size now locked s) s

-- After a reconnect every outstanding command of the node is due.
pub reset_due-all :
    (now : Time) (node_id : ℕ) (s : Store)
    → count
        (λ c. (c.node_id == node_id && is_outstanding c.status) && not (is_due node_id now c))
        (reset_due now node_id s).commands
      ≡ 0
unfolding reset_due
reset_due-all now node_id s =
    count-update-none _ (λ c. c.node_id == node_id && is_outstanding c.status) _ s.commands
      (λ c e. ground arith) (λ c e. ground arith)
