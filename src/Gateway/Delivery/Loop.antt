-- ===== src/Gateway/Delivery/Loop.antt =====
-- The loop of the delivery engine over batches
-- (`deliverNode` and `OnConnect` in gpu-platform/internal/agentgw/delivery.go).
use node_hive_b2b.Prelude.{
  ℕ, zero, suc, ◌+◌, ◌*◌, ◌≤◌, ◌<◌, ◌≡◌, refl, Bool, false, not, ◌&&◌, String, List, [], ◌∷◌,
  Option, none, some, arith, ◌==◌, ==_refl, Bool-cases, inl, inr, ◌⊎◌, zero_or_pos,
}
use node_hive_b2b.Sql.{count}
use node_hive_b2b.Sql.Counts.{count_mono, count-update-le}
use node_hive_b2b.Sql.Deletes.{count-update-loses}
use node_hive_b2b.Store.{Time, second, Command, Message, Store}
use node_hive_b2b.Commands.{is_outstanding, is_due, claim_due, mark_sent, mark_attempt_failed, ack}
use node_hive_b2b.Commands.Lifecycle.{resend_backoff_bounds, claim_due-none}
use node_hive_b2b.Gateway.Delivery.{
  Send, Round, batch_size, after_send, deliver_message, deliver_one, deliver_all, deliver_batch,
  deliver_node, reset_due, on_connect,
}
use node_hive_b2b.Gateway.Delivery.Attempted.{due_at}

module _ (node_id : ℕ) (later : Time) where
  -- How many commands of the node are due by the end of the loop's window.
  abbrev pub due_count : Store → ℕ
  due_count s = count (is_due node_id later) s.commands

  module _ (now : Time) (soon : later < now + 15 * second) where
    mark_sent-drop :
        (id attempts : ℕ) (s : Store)
        → due_count (mark_sent id attempts now s) + count (due_at node_id later id) s.commands
          ≤ due_count s
    unfolding mark_sent
    mark_sent-drop id attempts s =
        let wait = (resend_backoff_bounds attempts attempts (omega arith)).0 in
        count-update-loses (is_due node_id later) (λ c. c.id == id) (due_at node_id later id) _
          s.commands (λ c e. ground (arith, wait)) (λ c e. ground arith) (λ c e. ground arith)

    mark_attempt_failed-drop :
        (id attempts : ℕ) (reason : String) (s : Store)
        → due_count (mark_attempt_failed id attempts reason now s)
            + count (due_at node_id later id) s.commands
          ≤ due_count s
    unfolding mark_attempt_failed
    mark_attempt_failed-drop id attempts reason s =
        let wait = (resend_backoff_bounds attempts attempts (omega arith)).0 in
        count-update-loses (is_due node_id later) (λ c. c.id == id) (due_at node_id later id) _
          s.commands (λ c e. ground (arith, wait)) (λ c e. ground arith) (λ c e. ground arith)

    ack-drop :
        (id : ℕ) (text : String) (s : Store)
        → due_count (ack id false text now s) + count (due_at node_id later id) s.commands
          ≤ due_count s
    unfolding ack
    ack-drop id text s =
        count-update-loses (is_due node_id later) (λ c. c.id == id && is_outstanding c.status)
          (due_at node_id later id) _ s.commands (λ c e. ground arith) (λ c e. ground arith)
          (λ c e. ground arith)

    -- One step takes its command from those that are due.
    deliver_one-drop :
        (send : Send) (text : String) (c : Command) (s : Store)
        → due_count (deliver_one send text now c s).1 + count (due_at node_id later c.id) s.commands
          ≤ due_count s
    unfolding deliver_one
    deliver_one-drop send text c s = by_message c.payload
      where
        sent_or_not :
            (o : Option String)
            → due_count (after_send o now c s).1 + count (due_at node_id later c.id) s.commands
              ≤ due_count s
        sent_or_not none = mark_sent-drop c.id c.attempts s
        sent_or_not (some reason) = mark_attempt_failed-drop c.id c.attempts reason s

        by_message :
            (m : Message)
            → due_count (deliver_message m send text now c s).1
                + count (due_at node_id later c.id) s.commands
              ≤ due_count s
        by_message (Message.launch spec) = sent_or_not (send c)
        by_message (Message.stop id reason) = sent_or_not (send c)
        by_message Message.get_inventory = sent_or_not (send c)
        by_message Message.malformed = ack-drop c.id text s

    deliver_all-fewer :
        (send : Send) (text : String) (cs : List Command) (s : Store)
        → due_count (deliver_all send text now cs s).1 ≤ due_count s
    unfolding deliver_all
    deliver_all-fewer send text [] s = omega arith
    deliver_all-fewer send text (c ∷ cs) s = omega (
      arith,
      deliver_one-drop send text c s,
      deliver_all-fewer send text cs (deliver_one send text now c s).1,
    )

    -- A claimed command is due.
    claimed_due :
        (locked : ℕ → Bool) (s : Store) (c : Command) (cs : List Command)
        → now ≤ later
        → claim_due node_id batch_size now locked s ≡ c ∷ cs
        → 0 < count (due_at node_id later c.id) s.commands
    unfolding count
    claimed_due locked s c cs h e =
        elim (zero_or_pos
          (count (λ x. is_due node_id now x && (not (locked x.id) && x.id == c.id)) s.commands)) [
            | inl z ↦
                let none_claimed =
                  claim_due-none (λ x. x.id == c.id) node_id batch_size now locked s z in
                absurd (ground (arith, rw e at (none_claimed), ==_refl c.id))
            | inr z ↦ omega (
              arith,
              z,
              count_mono (λ x. is_due node_id now x && (not (locked x.id) && x.id == c.id))
                  (due_at node_id later c.id) s.commands (λ x k. ground arith),
            )
          ]

    -- A batch that delivers something leaves fewer commands due.
    deliver_batch-fewer :
        (send : Send) (text : String) (locked : ℕ → Bool) (s : Store)
        → now ≤ later
        → ((deliver_batch send text now locked node_id s).0 ≡ 0)
          ⊎ (due_count (deliver_batch send text now locked node_id s).1 < due_count s)
    unfolding deliver_batch deliver_all
    deliver_batch-fewer send text locked s h =
        claimed (claim_due node_id batch_size now locked s) refl
      where
        claimed :
            (cs : List Command)
            → claim_due node_id batch_size now locked s ≡ cs
            → ((deliver_all send text now cs s).0 ≡ 0)
              ⊎ (due_count (deliver_all send text now cs s).1 < due_count s)
        claimed [] e = inl refl
        claimed (c ∷ cs) e = inr (
            omega (
              arith,
              deliver_one-drop send text c s,
              deliver_all-fewer send text cs (deliver_one send text now c s).1,
              claimed_due locked s c cs h e,
            ))

deliver_batch-le :
    (node_id : ℕ) (later now : Time)
    → later < now + 15 * second
    → (send : Send) (text : String) (locked : ℕ → Bool) (s : Store)
    → due_count node_id later (deliver_batch send text now locked node_id s).1
      ≤ due_count node_id later s
unfolding deliver_batch
deliver_batch-le node_id later now soon send text locked s =
    deliver_all-fewer node_id later now soon send text (claim_due node_id batch_size now locked s) s

-- The batches of one run of the loop draw their times within fifteen seconds, up to `later`.
pub record InWindow (later : Time) (rounds : ℕ → Round) : Type 0 where
  pub begun : (i : ℕ) → (rounds i).now ≤ later
  pub short : (i : ℕ) → later < (rounds i).now + 15 * second

-- What a run that ends leaves due.
abbrev pub Ends : ℕ → Time → Store → Option Store → Type 0
Ends node_id later s o =
    (t : Store) × (o ≡ some t) × (due_count node_id later t ≤ due_count node_id later s)

-- The delivery loop ends when its batches stay within a window of fifteen seconds: as many batches as
-- commands are due in the window, and one more, are enough, whatever sending gives and whatever other
-- deliverers have locked. It makes no command due.
pub deliver_node-Ends :
    (fuel : ℕ) (send : Send) (text : String) (rounds : ℕ → Round) (i node_id : ℕ) (later : Time)
    (s : Store)
    → InWindow later rounds
    → due_count node_id later s < fuel
    → Ends node_id later s (deliver_node fuel send text rounds i node_id s)
unfolding deliver_node
deliver_node-Ends zero send text rounds i node_id later s v enough = absurd (omega arith)
deliver_node-Ends (suc fuel) send text rounds i node_id later s v enough =
    let now = (rounds i).now in
    let r = deliver_batch send text now (rounds i).locked node_id s in
    elim (Bool-cases (r.0 == 0)) [
      | inl e ↦ (r.1, rw e refl, deliver_batch-le node_id later now (v.short i) send text _ s)
      | inr e ↦
          let less : due_count node_id later r.1 < due_count node_id later s =
            elim (deliver_batch-fewer node_id later now (v.short i) send text (rounds i).locked s
              (v.begun i)) [ inl z ↦ absurd (ground (arith, z, e)) | inr less ↦ less ] in
          let (t, ends, le) =
            deliver_node-Ends fuel send text rounds (suc i) node_id later r.1 v
              (omega (arith, less, enough)) in
          (t, rw e ends, omega (arith, le, less))
    ]

reset_due-count :
    (now : Time) (node_id : ℕ) (later : Time) (s : Store)
    → due_count node_id later (reset_due now node_id s)
      ≤ count (λ c. c.node_id == node_id && is_outstanding c.status) s.commands
unfolding reset_due
reset_due-count now node_id later s =
    count-update-le (is_due node_id later) (λ c. c.node_id == node_id && is_outstanding c.status)
      (λ c. c.node_id == node_id && is_outstanding c.status) _ s.commands (λ c e k. e)
      (λ c e k. ground arith)

-- A reconnect ends as well, when as many batches are given as the node has outstanding commands, and
-- one more, and they stay within a window of fifteen seconds.
pub on_connect-ends :
    (fuel : ℕ) (send : Send) (text : String) (rounds : ℕ → Round) (now node_id : ℕ) (later : Time)
    (s : Store)
    → InWindow later rounds
    → count (λ c. c.node_id == node_id && is_outstanding c.status) s.commands < fuel
    → (t : Store) × (on_connect fuel send text rounds now node_id s ≡ some t)
unfolding on_connect
on_connect-ends fuel send text rounds now node_id later s v enough =
    let (t, ends, _) =
      deliver_node-Ends fuel send text rounds 0 node_id later (reset_due now node_id s) v
        (omega (arith, reset_due-count now node_id later s, enough)) in
    (t, ends)
