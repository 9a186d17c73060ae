-- ===== src/Workloads/Stop/Outcome.antt =====
-- `Stop` on each branch, and the invariant
-- (gpu-platform/internal/workloads/impl.go).
use node_hive_b2b.Prelude.{
  ℕ, ◌<◌, ◌≡◌, refl, true, Option, none, some, arith, ◌==◌, ok, err, &&_true, ◌∙◌, [], ◌∷◌, ◌++◌,
}
use node_hive_b2b.Domain.{StopReason, is_startable}
use node_hive_b2b.Sql.{count}
use node_hive_b2b.Sql.Counts.{count-update, not-find, count-find, count-update_self}
use node_hive_b2b.Store.{Time, Workload, Kind, Message, CommandStatus, Store}
use node_hive_b2b.Workloads.Service.{Service, notify, audit_system, record_event, not_found}
use node_hive_b2b.Workloads.Outbox.{enqueue_stop, to_proto_stop_reason}
use node_hive_b2b.Workloads.Invariant.{Inv, active_at}
use node_hive_b2b.Workloads.Invariant.Frame.{
  record_event-Inv, active_at-stage, workloads-Inv, notify-Inv, audit_system-Inv, emit-Inv,
  enqueue_stop-Inv, startable_active, startable_not_queued,
}
use node_hive_b2b.Workloads.Stop.{
  can_stop, mark_stopping, stop_command, nudge_node, audit_stop, stop, stop_row,
}

mark_stopping-Inv :
    (id : ℕ) (reason : StopReason) (now : Time) (s : Store)
    → Inv s
    → Inv (mark_stopping id reason now s)
mark_stopping-Inv id reason now s v =
    workloads-Inv (can_stop id) _ s
      (λ w x e.
        rw (startable_active x.status (&&_true (x.id == id) (is_startable x.status) e).1) refl)
      (λ w x e.
        rw (startable_not_queued x.status (&&_true (x.id == id) (is_startable x.status) e).1) refl)
      v

stop_command-Inv :
    (now cmd_id org_id : ℕ) (node : Option ℕ) (id : ℕ) (reason : StopReason) (s : Store)
    → Inv s
    → Inv (stop_command now cmd_id org_id node id reason s)
stop_command-Inv now cmd_id org_id none id reason s v = v
stop_command-Inv now cmd_id org_id (some n) id reason s v =
    enqueue_stop-Inv now cmd_id org_id n id reason s v

nudge_node-Inv : (node : Option ℕ) (s : Store) → Inv s → Inv (nudge_node node s)
nudge_node-Inv none s v = v
nudge_node-Inv (some n) s v = emit-Inv _ s v

audit_stop-Inv :
    (svc : Service) (org_id id : ℕ) (reason : StopReason) (s : Store)
    → Inv s
    → Inv (audit_stop svc org_id id reason s)
audit_stop-Inv svc org_id id StopReason.user s v = v
audit_stop-Inv svc org_id id StopReason.admin s v = v
audit_stop-Inv svc org_id id StopReason.idle_reclaim s v = audit_system-Inv svc _ _ _ _ _ s v
audit_stop-Inv svc org_id id StopReason.failure s v = audit_system-Inv svc _ _ _ _ _ s v

stop_row-Inv :
    (svc : Service) (now : Time) (cmd_id id : ℕ) (reason : StopReason) (w : Workload) (s : Store)
    → Inv s
    → Inv (stop_row svc now cmd_id id reason w s)
stop_row-Inv svc now cmd_id id reason w s v = nudge_node-Inv w.node_id _ (
    notify-Inv svc w.org_id _ _ (
      audit_stop-Inv svc w.org_id id reason _ (
        record_event-Inv id w.org_id "stopping" "" _ (
          stop_command-Inv now cmd_id w.org_id w.node_id id reason _
            (mark_stopping-Inv id reason now s v)))))

-- What only adds an effect.
audit_stop_frame :
    (svc : Service) (org_id id : ℕ) (reason : StopReason) (s : Store)
    → audit_stop svc org_id id reason s
      ≡ record s { effects = (audit_stop svc org_id id reason s).effects }
unfolding audit_system
audit_stop_frame svc org_id id StopReason.user s = refl
audit_stop_frame svc org_id id StopReason.admin s = refl
audit_stop_frame svc org_id id StopReason.idle_reclaim s = refl
audit_stop_frame svc org_id id StopReason.failure s = refl

nudge_node_frame :
    (node : Option ℕ) (s : Store)
    → nudge_node node s ≡ record s { effects = (nudge_node node s).effects }
nudge_node_frame none s = refl
nudge_node_frame (some n) s = refl

stop_command_frame :
    (now cmd_id org_id : ℕ) (node : Option ℕ) (id : ℕ) (reason : StopReason) (s : Store)
    → stop_command now cmd_id org_id node id reason s
      ≡ record s { commands = (stop_command now cmd_id org_id node id reason s).commands }
unfolding enqueue_stop
stop_command_frame now cmd_id org_id none id reason s = refl
stop_command_frame now cmd_id org_id (some n) id reason s = refl

stop_row-commands :
    (svc : Service) (now : Time) (cmd_id id : ℕ) (reason : StopReason) (w : Workload) (n : ℕ)
    (s : Store)
    → w.node_id ≡ some n
    → (stop_row svc now cmd_id id reason w s).commands
      ≡ (enqueue_stop now cmd_id w.org_id n id reason s).commands
unfolding notify audit_system record_event enqueue_stop
stop_row-commands svc now cmd_id id reason w n s e =
    rw (e, audit_stop_frame svc w.org_id id reason _) refl

stop_row-tables :
    (svc : Service) (now : Time) (cmd_id id : ℕ) (reason : StopReason) (w : Workload) (s : Store)
    → let s' = stop_row svc now cmd_id id reason w s in
      (s'.gpus ≡ s.gpus)
      × (s'.workload_gpus ≡ s.workload_gpus)
      × (s'.workloads
          ≡ (record_event id w.org_id "stopping" "" (mark_stopping id reason now s)).workloads)
unfolding notify record_event
stop_row-tables svc now cmd_id id reason w s =
    rw
      (
        nudge_node_frame w.node_id _,
        audit_stop_frame svc w.org_id id reason _,
        stop_command_frame now cmd_id w.org_id w.node_id id reason _,
      )
      (refl, refl, refl)

module _ (id : ℕ) (reason : StopReason) (now : Time) (org_id : ℕ) (s : Store) where
  abbrev marked : Store
  marked = record_event id org_id "stopping" "" (mark_stopping id reason now s)

  marked_unstartable : count (can_stop id) marked.workloads ≡ 0
  unfolding record_event
  marked_unstartable =
      count-update (can_stop id) _ _ (mark_stopping id reason now s).workloads (λ x e. refl)
      ∙ count-update_self (can_stop id) _ s.workloads (λ x e. ground arith)

  marked_active : (x : ℕ) → count (active_at x) marked.workloads ≡ count (active_at x) s.workloads
  unfolding record_event
  marked_active x =
      active_at-stage _ "stopping" (mark_stopping id reason now s).workloads x
      ∙ count-update (active_at x) (can_stop id) _ s.workloads (λ y e.
        rw (startable_active y.status (&&_true (y.id == id) (is_startable y.status) e).1) refl)

module _ (svc : Service) (now : Time) (cmd_id id : ℕ) (reason : StopReason) (s : Store) where
  -- After the stop the workload is active, but it cannot be stopped or run again.
  pub record Stops (w : Workload) (s' : Store) : Type 0 where
    pub was_startable : can_stop id w ≡ true
    pub none_startable : count (can_stop id) s'.workloads ≡ 0
    pub still_active : (x : ℕ) → count (active_at x) s'.workloads ≡ count (active_at x) s.workloads
    pub same_gpus : s'.gpus ≡ s.gpus
    pub same_attachments : s'.workload_gpus ≡ s.workload_gpus
    pub command :
        (n : ℕ)
        → w.node_id ≡ some n
        → s'.commands
          ≡ s.commands
            ++ record {
              id = cmd_id;
              org_id = w.org_id;
              node_id = n;
              workload_id = some id;
              kind = Kind.stop;
              payload = Message.stop id (to_proto_stop_reason reason);
              status = CommandStatus.pending;
              attempts = 0;
              next_attempt_at = now;
              deliver_by = none;
              last_error = "";
              created_at = now;
              sent_at = none;
              acked_at = none;
            }
              ∷ []
    pub keeps : Inv s → Inv s'

  pub stop_outcome :
      (count (can_stop id) s.workloads ≡ 0 → stop svc now cmd_id id reason s ≡ err not_found)
      × (0 < count (can_stop id) s.workloads
          → (w : Workload) × (s' : Store) × (stop svc now cmd_id id reason s ≡ ok s') × Stops w s')
  unfolding stop enqueue_stop
  stop_outcome = (
    λ z. rw (not-find (can_stop id) s.workloads z) refl,
    λ z.
        let (w, f, p) = count-find (can_stop id) s.workloads z in
        let tables = stop_row-tables svc now cmd_id id reason w s in
        (
          w,
          stop_row svc now cmd_id id reason w s,
          rw f refl,
          record {
            was_startable = p;
            none_startable = rw tables.2 (marked_unstartable id reason now w.org_id s);
            still_active = λ x. rw tables.2 (marked_active id reason now w.org_id s x);
            same_gpus = tables.0;
            same_attachments = tables.1;
            command = λ n e. stop_row-commands svc now cmd_id id reason w n s e ∙ refl;
            keeps = stop_row-Inv svc now cmd_id id reason w s;
          },
        ),
  )
