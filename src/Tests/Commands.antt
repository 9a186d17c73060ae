-- ===== src/Tests/Commands.antt =====
-- The theorems on the command outbox at a small outbox.
use node_hive_b2b.Prelude.{ℕ, ◌≡◌, false, [], ◌∷◌, none, some, arith, ◌==◌}
use node_hive_b2b.Sql.{count}
use node_hive_b2b.Store.{Command, CommandStatus, Kind, Message, Store}
use node_hive_b2b.Commands.{claim_due, mark_sent}
use node_hive_b2b.Commands.Lifecycle.{claim_after-mark_sent}
use node_hive_b2b.Tests.Fixtures.{small_store}

abbrev small_command : ℕ → CommandStatus → Command
small_command id status = record {
  id = id;
  org_id = 1;
  node_id = 1;
  workload_id = some 100;
  kind = Kind.get_inventory;
  payload = Message.get_inventory;
  status = status;
  attempts = 0;
  next_attempt_at = 0;
  deliver_by = some 50;
  last_error = "";
  created_at = id;
  sent_at = none;
  acked_at = none;
}

abbrev pub small_outbox : Store
small_outbox = record small_store {
  commands = small_command 1 CommandStatus.pending ∷ small_command 2 CommandStatus.sent ∷ [];
}

claim_after-mark_sent_example :
    count
      (λ (c : Command). c.id == 1)
      (claim_due 1 16 200 (λ c. false) (mark_sent 1 0 100 small_outbox))
    ≡ 0
claim_after-mark_sent_example =
    claim_after-mark_sent 1 16 1 0 100 200 (λ c. false) small_outbox (omega arith)
