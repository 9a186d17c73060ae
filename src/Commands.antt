-- ===== src/Commands.antt =====
-- The transactional command outbox: gpu-platform/internal/commands/commands.go.
pub mod Lifecycle
use node_hive_b2b.Prelude.{
  ℕ, ◌+◌, ◌*◌, ◌^◌, ◌<◌, Bool, true, false, ◌&&◌, not, String, List, [], ◌∷◌, ◌++◌, map, Option,
  none, some, ltb, leb, ◌==◌, if◌then◌else◌, is_null, coalesce, holds_id, take, min,
}
use node_hive_b2b.Domain.{is_terminal}
use node_hive_b2b.Sql.{select, update, count, exists, order_by}
use node_hive_b2b.Store.{
  Time, second, minute, Workload, Message, Kind, Command, CommandStatus, Store,
}
use node_hive_b2b.Store.{WorkloadSpec}

-- `status IN ('pending','sent')`: not yet final.
abbrev pub is_outstanding : CommandStatus → Bool
is_outstanding CommandStatus.pending = true
is_outstanding CommandStatus.sent = true
is_outstanding CommandStatus.acked = false
is_outstanding CommandStatus.failed = false
is_outstanding CommandStatus.expired = false
is_outstanding CommandStatus.superseded = false

-- The INSERT of `Enqueue`; the columns that it leaves out take the table's defaults. The table refuses an
-- id that it has, by its primary key. Every caller draws the id by `uuid.New`, and the model has no
-- case for one that is drawn twice.
unfoldable pub enqueue : Time → ℕ → ℕ → ℕ → Option ℕ → Kind → Message → Option Time → Store → Store
enqueue now id org_id node_id workload_id kind payload deliver_by s = record s {
  commands =
      s.commands
      ++ record {
        id = id;
        org_id = org_id;
        node_id = node_id;
        workload_id = workload_id;
        kind = kind;
        payload = payload;
        status = CommandStatus.pending;
        attempts = 0;
        next_attempt_at = now;
        deliver_by = deliver_by;
        last_error = "";
        created_at = now;
        sent_at = none;
        acked_at = none;
      }
        ∷ [];
}

-- `15 * time.Second << min(attempts, 4)`, capped at four minutes.
unfoldable pub resend_backoff : ℕ → ℕ
resend_backoff attempts =
    let d = 15 * second * 2 ^ min attempts 4 in if ltb (4 * minute) d then 4 * minute else d

-- The rows that the query of `ClaimDue` selects, before its LIMIT and its SKIP LOCKED.
abbrev pub is_due : ℕ → Time → Command → Bool
is_due node_id now c = c.node_id == node_id && is_outstanding c.status && leb c.next_attempt_at now

-- `locked` says which rows another transaction holds at this moment.
unfoldable pub claim_due : ℕ → ℕ → Time → (ℕ → Bool) → Store → List Command
claim_due node_id limit now locked s = take limit (
    select (λ c. not (locked c.id))
      (order_by (λ c d. leb c.created_at d.created_at) (select (is_due node_id now) s.commands)))

unfoldable pub mark_sent : ℕ → ℕ → Time → Store → Store
mark_sent id attempts now s = record s {
  commands =
      update (λ c. c.id == id)
        (λ c. record c {
          status = CommandStatus.sent;
          attempts = attempts + 1;
          sent_at = some (coalesce c.sent_at now);
          next_attempt_at = now + resend_backoff attempts;
        })
        s.commands;
}

unfoldable pub mark_attempt_failed : ℕ → ℕ → String → Time → Store → Store
mark_attempt_failed id attempts reason now s = record s {
  commands =
      update (λ c. c.id == id)
        (λ c. record c {
          attempts = attempts + 1;
          last_error = reason;
          next_attempt_at = now + resend_backoff attempts;
        })
        s.commands;
}

-- An ack finalizes an outstanding row only.
unfoldable pub ack : ℕ → Bool → String → Time → Store → Store
ack id ok err_msg now s = record s {
  commands =
      update (λ c. c.id == id && is_outstanding c.status)
        (λ c. record c {
          status = if ok then CommandStatus.acked else CommandStatus.failed;
          acked_at = some now;
          last_error = err_msg;
        })
        s.commands;
}

abbrev overdue_by : Time → Option Time → Bool
overdue_by now none = false
overdue_by now (some t) = ltb t now

abbrev pub is_overdue : Time → Command → Bool
is_overdue now c = is_outstanding c.status && overdue_by now c.deliver_by

pub record Expired : Type 0 where
  pub id : ℕ
  pub kind : Kind
  pub workload_id : Option ℕ

abbrev to_expired : Command → Expired
to_expired c = record { id = c.id; kind = c.kind; workload_id = c.workload_id }

-- `overdue_error` is the SQL expression trim('; ' FROM last_error || '; delivery deadline exceeded').
unfoldable pub expire_overdue : (String → String) → Time → Store → Store × List Expired
expire_overdue overdue_error now s = (
  record s {
    commands =
        update (is_overdue now)
          (λ c. record c {
            status = CommandStatus.expired;
            last_error = overdue_error c.last_error;
          })
          s.commands;
  },
  map to_expired (select (is_overdue now) s.commands),
)

-- Some workload that the command is for has stopped or failed.
abbrev pub targets_terminal : List Workload → Command → Bool
targets_terminal ws c = exists (λ w. holds_id c.workload_id w.id && is_terminal w.status) ws

unfoldable pub supersede_for_terminal_workloads : Store → Store × ℕ
supersede_for_terminal_workloads s =
    let dead = λ (c : Command). is_outstanding c.status && targets_terminal s.workloads c in
    (
      record s {
        commands = update dead (λ c. record c { status = CommandStatus.superseded }) s.commands;
      },
      count dead s.commands,
    )
