-- ===== src/Commands/Lifecycle.antt =====
-- How the rows of the command outbox move (gpu-platform/internal/commands/commands.go).
use node_hive_b2b.Prelude.{
  ℕ, zero, suc, ◌+◌, ◌*◌, ◌≤◌, ◌<◌, min, ◌≡◌, refl, ◌∙◌, Bool, not, ◌&&◌, String, length, arith,
  leb, ◌==◌, if◌then◌else◌, length-take-le, length-map, ap,
}
use node_hive_b2b.Sql.{select, count, order_by}
use node_hive_b2b.Sql.Counts.{
  count-update_self, count-select, count-take-le, count-order_by, length-select, update_none,
  count-update-none, never,
}
use node_hive_b2b.Store.{Time, second, minute, Command, Store}
use node_hive_b2b.Commands.{
  is_outstanding, resend_backoff, is_due, claim_due, mark_sent, ack, is_overdue, expire_overdue,
  targets_terminal, supersede_for_terminal_workloads,
}

backoff_table :
    (n : ℕ)
    → resend_backoff n ≡ (
        if n == 0
        then 15 * second
        else if n == 1
        then 30 * second
        else if n == 2
        then 60 * second
        else if n == 3
        then 120 * second
        else 4 * minute)
unfolding resend_backoff
backoff_table zero = refl
backoff_table (suc zero) = refl
backoff_table (suc (suc zero)) = refl
backoff_table (suc (suc (suc zero))) = refl
backoff_table (suc (suc (suc (suc n)))) =
    let capped : min (suc (suc (suc (suc n)))) 4 ≡ 4 = omega arith in rw capped (ground arith)

-- The delay before the next attempt is at least fifteen seconds and at most four minutes, and it does
-- not shrink as the attempts go on.
pub resend_backoff_bounds :
    (m n : ℕ)
    → m ≤ n
    → (15 * second ≤ resend_backoff m)
      × (resend_backoff n ≤ 4 * minute)
      × (resend_backoff m ≤ resend_backoff n)
resend_backoff_bounds m n h = ground (arith, backoff_table m, backoff_table n)

-- No claimed command fails a test that the claim's query makes.
pub claim_due-none :
    (q : Command → Bool) (node_id limit : ℕ) (now : Time) (locked : ℕ → Bool) (s : Store)
    → count (λ c. is_due node_id now c && (not (locked c.id) && q c)) s.commands ≡ 0
    → count q (claim_due node_id limit now locked s) ≡ 0
unfolding claim_due
claim_due-none q node_id limit now locked s z =
    let free = λ (c : Command). not (locked c.id) in
    let due = select (is_due node_id now) s.commands in
    let le = λ (c d : Command). leb c.created_at d.created_at in
    omega (
      arith,
      count-take-le q limit (select free (order_by le due)),
      count-select free q (order_by le due),
      count-order_by (λ c. free c && q c) le due,
      count-select (is_due node_id now) (λ c. free c && q c) s.commands,
      z,
    )

abbrev pub claimable : ℕ → Time → (ℕ → Bool) → Command → Bool
claimable node_id now locked c = is_due node_id now c && not (locked c.id)

claim_due-limit :
    (node_id limit : ℕ) (now : Time) (locked : ℕ → Bool) (s : Store)
    → length (claim_due node_id limit now locked s) ≤ limit
unfolding claim_due
claim_due-limit node_id limit now locked s = length-take-le limit _

-- A claim returns at most `limit` commands, each outstanding, due for the node and locked by no one
-- else.
pub claim_due_sound :
    (node_id limit : ℕ) (now : Time) (locked : ℕ → Bool) (s : Store)
    → (length (claim_due node_id limit now locked s) ≤ limit)
      × (count (λ c. not (claimable node_id now locked c)) (claim_due node_id limit now locked s)
          ≡ 0)
claim_due_sound node_id limit now locked s = (
  claim_due-limit node_id limit now locked s,
  claim_due-none (λ c. not (claimable node_id now locked c)) node_id limit now locked s
      (never _ s.commands (λ c. ground arith)),
)

-- A command that has just been sent is not claimed again, by whichever worker, until fifteen seconds
-- have passed.
pub claim_after-mark_sent :
    (node_id limit id attempts : ℕ) (now later : Time) (locked : ℕ → Bool) (s : Store)
    → later < now + 15 * second
    → count
        (λ (c : Command). c.id == id)
        (claim_due node_id limit later locked (mark_sent id attempts now s))
      ≡ 0
unfolding mark_sent
claim_after-mark_sent node_id limit id attempts now later locked s h =
    claim_due-none (λ c. c.id == id) node_id limit later locked (mark_sent id attempts now s)
      (count-update-none _ _ _ s.commands
        (λ c e. ground (arith, resend_backoff_bounds attempts attempts (omega arith)))
        (λ c e. ground arith))

-- The first ack of a command decides: a later one, whatever it says, changes nothing.
pub ack_once :
    (id : ℕ) (ok ok' : Bool) (e e' : String) (now later : Time) (s : Store)
    → ack id ok' e' later (ack id ok e now s) ≡ ack id ok e now s
unfolding ack
ack_once id ok ok' e e' now later s =
    ap (λ cs. record s { commands = cs })
      (update_none (λ c. c.id == id && is_outstanding c.status) _ _
        (count-update_self (λ c. c.id == id && is_outstanding c.status) _ s.commands
          (λ c k. ground arith)))

-- After an expiry pass no command is overdue, and the pass has reported exactly the overdue ones.
pub expire_overdue_all :
    (text : String → String) (now : Time) (s : Store)
    → (count (is_overdue now) (expire_overdue text now s).0.commands ≡ 0)
      × (length (expire_overdue text now s).1 ≡ count (is_overdue now) s.commands)
unfolding expire_overdue
expire_overdue_all text now s = (
  count-update_self (is_overdue now) _ s.commands (λ c e. ground arith),
  length-map _ (select (is_overdue now) s.commands) ∙ length-select (is_overdue now) s.commands,
)

-- After a superseding pass no outstanding command is for a workload that has ended.
pub supersede_all :
    (s : Store)
    → let s' = (supersede_for_terminal_workloads s).0 in
      count (λ c. is_outstanding c.status && targets_terminal s'.workloads c) s'.commands ≡ 0
unfolding supersede_for_terminal_workloads
supersede_all s = count-update_self _ _ s.commands (λ c e. ground arith)
