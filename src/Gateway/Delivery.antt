-- ===== src/Gateway/Delivery.antt =====
-- The delivery of commands to connected agents: gpu-platform/internal/agentgw/delivery.go.
pub mod Attempted
pub mod Loop
use node_hive_b2b.Prelude.{
  ℕ, zero, suc, ◌+◌, ◌++◌, ltb, length, if◌then◌else◌, Bool, true, false, ◌&&◌, String, List, [],
  ◌∷◌, Option, none, some, ◌==◌,
}
use node_hive_b2b.Sql.{update}
use node_hive_b2b.Store.{Time, Message, Command, Store}
use node_hive_b2b.Commands.{is_outstanding, claim_due, mark_sent, mark_attempt_failed, ack}

abbrev pub batch_size : ℕ
batch_size = 16

-- What sending a command gives: nothing, or the error's text.
abbrev pub Send : Type 0
Send = Command → Option String

abbrev pub after_send : Option String → Time → Command → Store → ℕ × Store
after_send none now c s = (1, mark_sent c.id c.attempts now s)
after_send (some reason) now c s = (0, mark_attempt_failed c.id c.attempts reason now s)

abbrev pub deliver_message : Message → Send → String → Time → Command → Store → ℕ × Store
deliver_message (Message.launch spec) send text now c s = after_send (send c) now c s
deliver_message (Message.stop id reason) send text now c s = after_send (send c) now c s
deliver_message Message.get_inventory send text now c s = after_send (send c) now c s
deliver_message Message.malformed send text now c s = (0, ack c.id false text now s)

-- One claimed command; `text` is the error for a payload that does not unmarshal.
unfoldable pub deliver_one : Send → String → Time → Command → Store → ℕ × Store
deliver_one send text now c s = deliver_message c.payload send text now c s

unfoldable pub deliver_all : Send → String → Time → List Command → Store → ℕ × Store
unfolding deliver_one
deliver_all send text now [] s = (0, s)
deliver_all send text now (c ∷ cs) s =
    let (n, s1) = deliver_one send text now c s in
    let (m, s2) = deliver_all send text now cs s1 in (n + m, s2)

unfoldable pub deliver_batch : Send → String → Time → (ℕ → Bool) → ℕ → Store → ℕ × Store
unfolding deliver_all
deliver_batch send text now locked node_id s =
    deliver_all send text now (claim_due node_id batch_size now locked s) s

-- What each batch of the loop draws: the time, and the rows that other deliverers have locked.
pub record Round : Type 0 where
  pub now : Time
  pub locked : ℕ → Bool

-- The loop over batches, on fuel; `rounds` gives what each batch draws. Without fuel there is no
-- result.
unfoldable pub deliver_node : ℕ → Send → String → (ℕ → Round) → ℕ → ℕ → Store → Option Store
deliver_node zero send text rounds i node_id s = none
deliver_node (suc fuel) send text rounds i node_id s =
    let r = deliver_batch send text (rounds i).now (rounds i).locked node_id s in
    let rest = deliver_node fuel send text rounds (suc i) node_id r.1 in
    if r.0 == 0 then some r.1 else rest

abbrev pub wake_size : ℕ
wake_size = 64

-- The wake channel: a nudge is dropped when it is full.
unfoldable pub nudge : ℕ → List ℕ → List ℕ
nudge node_id wake = if ltb (length wake) wake_size then wake ++ node_id ∷ [] else wake

-- The UPDATE of `OnConnect`.
unfoldable pub reset_due : Time → ℕ → Store → Store
reset_due now node_id s = record s {
  commands =
      update (λ c. c.node_id == node_id && is_outstanding c.status)
        (λ c. record c { next_attempt_at = now }) s.commands;
}

unfoldable pub on_connect : ℕ → Send → String → (ℕ → Round) → Time → ℕ → Store → Option Store
unfolding deliver_node reset_due
on_connect fuel send text rounds now node_id s =
    deliver_node fuel send text rounds 0 node_id (reset_due now node_id s)
