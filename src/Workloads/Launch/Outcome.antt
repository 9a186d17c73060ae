-- ===== src/Workloads/Launch/Outcome.antt =====
-- `Launch` on each branch, and the invariant
-- (gpu-platform/internal/workloads/impl.go).
use node_hive_b2b.Prelude.{
  ℕ, ◌≡◌, refl, Bool, [], ◌∷◌, ◌++◌, map, Option, none, some, ◌==◌, length, ◌+◌, ◌*◌, Result,
  if◌then◌else◌, str_eq, inl, inr, ◌⊎◌, ok,
}
use node_hive_b2b.Prelude.Int.{pos_part, as_uint32}
use node_hive_b2b.Domain.{WorkloadState}
use node_hive_b2b.Sql.{count}
use node_hive_b2b.Store.{Time, minute, Workload, Kind, Message, CommandStatus, Store}
use node_hive_b2b.Workloads.Request.{LaunchRequest, validate_launch}
use node_hive_b2b.Workloads.Service.{Service, Error, notify, record_event}
use node_hive_b2b.Workloads.Place.{Placement}
use node_hive_b2b.Workloads.Place.Claims.{Claims, AreNamed, IsSound, place-IsSound}
use node_hive_b2b.Workloads.Place.Attach.{new_row}
use node_hive_b2b.Workloads.Outbox.{enqueue_launch, timeout_or_default}
use node_hive_b2b.Workloads.Invariant.{Inv}
use node_hive_b2b.Workloads.Invariant.Frame.{effects-Inv, record_event-Inv}
use node_hive_b2b.Workloads.Launch.{
  Draws, admit, new_workload, insert_workload, launch_queued, announce_launch, launch_as, launch,
  Launched,
}
use node_hive_b2b.Workloads.Launch.Stored.{
  IsStored, shown-IsStored, insert_workload-IsStored, record_event-IsStored,
}
use node_hive_b2b.Workloads.Launch.Commits.{
  IsFresh, insert_workload-Inv, pending_row, committed, committed-Inv, announce-Inv,
  launch_as_placed,
}

-- The workload has the columns of the request.
pub record IsRequested (org_id id : ℕ) (r : LaunchRequest) (w : Workload) : Type 0 where
  pub org : w.org_id ≡ org_id
  pub name : w.name ≡ r.name
  pub gpu_count : w.requested_gpu_count ≡ r.gpu_count
  pub user : w.user_id ≡ r.user_id
  pub project : w.project_id ≡ r.project_id
  pub never_ran : (w.started_at ≡ none) × (w.stopped_at ≡ none)

-- The launch waits: nothing is reserved and no command is stored.
pub record WasQueued (id : ℕ) (s s' : Store) (w : Workload) : Type 0 where
  pub stored : IsStored id "queued" s.workloads s'.workloads w
  pub no_node : w.node_id ≡ none
  pub status : w.status ≡ WorkloadState.queued
  pub same_gpus : s'.gpus ≡ s.gpus
  pub same_attachments : s'.workload_gpus ≡ s.workload_gpus
  pub same_commands : s'.commands ≡ s.commands
  pub keeps : Inv s'

-- The launch holds `n` GPUs that were idle, and one launch command for their node is in the outbox.
pub record WasPlaced (now id cmd_id n : ℕ) (s s' : Store) (w : Workload) (p : Placement)
    : Type 0 where
  pub stored : IsStored id "preparing" s.workloads s'.workloads w
  pub status : w.status ≡ WorkloadState.pending
  pub on_node : w.node_id ≡ some p.node_id
  pub full : length p.gpu_ids ≡ n
  pub were_idle : Claims s.gpus p.gpu_ids
  pub named : AreNamed s.gpus p
  pub attachments : s'.workload_gpus ≡ s.workload_gpus ++ map (new_row id) p.gpu_ids
  pub command :
      s'.commands
      ≡ s.commands
        ++ record {
          id = cmd_id;
          org_id = w.org_id;
          node_id = p.node_id;
          workload_id = some id;
          kind = Kind.launch;
          payload = Message.launch (record {
            workload_id = id;
            image = w.image;
            gpu_count = as_uint32 w.requested_gpu_count;
            gpu_uuids = p.gpu_uuids;
            idle_timeout_sec = timeout_or_default w.idle_timeout_sec;
            ssh_password = if str_eq w.ssh_password "" then none else some w.ssh_password;
            expose_ssh = w.expose_ssh;
            expose_jupyter = w.expose_jupyter;
          });
          status = CommandStatus.pending;
          attempts = 0;
          next_attempt_at = now;
          deliver_by = some (now + 10 * minute);
          last_error = "";
          created_at = now;
          sent_at = none;
          acked_at = none;
        }
          ∷ []
  pub keeps : Inv s'

module _ (svc : Service) (locked : ℕ → Bool) (scanned : Store) (org_id : ℕ) (q : LaunchRequest)
    (d : Draws) (now : Time) (s : Store) where
  -- A launch that succeeds, with what it makes of the store.
  abbrev pub LaunchesAs : LaunchRequest → Result Error Launched → Type 0
  LaunchesAs r res =
      (w : Workload) × (s' : Store) × (res ≡ ok (w, s'))
      × IsRequested org_id d.workload_id r w
      × (WasQueued d.workload_id s s' w
          ⊎ ((p : Placement) × WasPlaced now d.workload_id d.command_id (pos_part r.gpu_count) s s'
                w p))

  placed_stored :
      (r : LaunchRequest) (p : Placement)
      → count (λ (x : Workload). x.id == d.workload_id) s.workloads ≡ 0
      → let w = pending_row svc org_id r d now p in
        IsStored d.workload_id "preparing" s.workloads
          (announce_launch svc org_id w p (committed svc org_id r d now p s)).workloads
          w
  unfolding announce_launch notify new_workload insert_workload enqueue_launch record_event
  placed_stored r p f =
      let w = pending_row svc org_id r d now p in
      let c = committed svc org_id r d now p s in
      let c1 = record_event w.id org_id "scheduling" "" c in
      let c2 = record_event w.id org_id "node_selected" "" c1 in
      record_event-IsStored w.id org_id "node_selected" "preparing" "" s.workloads c2 w refl (
        record_event-IsStored w.id org_id "scheduling" "node_selected" "" s.workloads c1 w refl (
          record_event-IsStored w.id org_id "preparing" "scheduling" "" s.workloads c w refl
            (insert_workload-IsStored w s f)))

  launch_placement :
      (r : LaunchRequest) (o : Option Placement)
      → Inv s
      → IsFresh d.workload_id s
      → ((p : Placement)
          → o ≡ some p
          → IsSound locked (pos_part r.gpu_count) s.gpus d.workload_id p)
      → LaunchesAs r (launch_as svc org_id r d now o s)
  unfolding launch_as launch_queued insert_workload new_workload announce_launch enqueue_launch
      notify record_event
  launch_placement r none v f sound =
      let row = new_workload svc org_id r d now WorkloadState.queued none "queued" (some now) in
      let inserted = insert_workload-Inv row s f.no_attachment v in
      (
        record row { stage = "" },
        launch_queued svc org_id row s,
        refl,
        record {
          org = refl;
          name = refl;
          gpu_count = refl;
          user = refl;
          project = refl;
          never_ran = (refl, refl);
        },
        inl (record {
          stored = shown-IsStored _ _ _ _ _ (
              record_event-IsStored row.id org_id "queued" "queued"
                "no matching GPU capacity — queued" s.workloads (insert_workload row s) row refl
                (insert_workload-IsStored row s f.no_workload));
          no_node = refl;
          status = refl;
          same_gpus = refl;
          same_attachments = refl;
          same_commands = refl;
          keeps = effects-Inv _ _ refl refl refl (
              record_event-Inv row.id org_id "queued" "no matching GPU capacity — queued" _
                inserted);
        }),
      )
  launch_placement r (some p) v f sound =
      let good = sound p refl in
      let e = good.for_workload in
      let c = good.claimed in
      (
        record (pending_row svc org_id r d now p) { stage = "" },
        announce_launch svc org_id (pending_row svc org_id r d now p) p
            (committed svc org_id r d now p s),
        launch_as_placed svc org_id r d now p s e f c v,
        record {
          org = refl;
          name = refl;
          gpu_count = refl;
          user = refl;
          project = refl;
          never_ran = (refl, refl);
        },
        inr (
          p,
          record {
            stored = shown-IsStored _ _ _ _ _ (placed_stored r p f.no_workload);
            status = refl;
            on_node = refl;
            full = good.full;
            were_idle = c;
            named = good.named;
            attachments = rw e refl;
            command = refl;
            keeps =
                announce-Inv svc org_id r d now (pending_row svc org_id r d now p) p _
                  (committed-Inv svc org_id r d now p s e f c v);
          },
        ),
      )

  pub launch_outcome :
      (r : LaunchRequest)
      → Inv s
      → IsFresh d.workload_id s
      → validate_launch q ≡ ok r
      → admit svc.billing org_id r.department_id r.project_id ≡ ok tt
      → LaunchesAs r (launch svc locked scanned org_id q d now s)
  unfolding launch
  launch_outcome r v f valid admitted =
      rw (valid, admitted)
        (launch_placement r _ v f (λ p e.
          place-IsSound svc locked scanned org_id d.workload_id r.gpu_type (pos_part r.gpu_count) s
            v.gpu_keys e))
