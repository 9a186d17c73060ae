-- ===== src/Workloads/Launch.antt =====
-- `Launch` in gpu-platform/internal/workloads/impl.go.
pub mod Outcome
pub mod Stored
pub mod Commits
use node_hive_b2b.Prelude.{
  ℕ, Bool, true, false, String, List, [], ◌∷◌, ◌++◌, Option, none, some, if◌then◌else◌, str_eq,
  take, Result, ok, err, ◌>>=◌, ◌>>◌,
}
use node_hive_b2b.Prelude.Int.{ℤ, pos, pos_part}
use node_hive_b2b.Text.{Text, runes, is_empty}
use node_hive_b2b.Domain.{WorkloadState}
use node_hive_b2b.Store.{Time, Workload, Store, nudge, emit}
use node_hive_b2b.Workloads.Request.{LaunchRequest, InvalidRequest, validate_launch}
use node_hive_b2b.Workloads.Service.{
  Service, Authorize, Error, invalid_request, refused, notify, record_event,
}
use node_hive_b2b.Workloads.Place.{Placement, place, attach}
use node_hive_b2b.Workloads.Outbox.{enqueue_launch}

-- What a launch draws: `uuid.New` twice, and `randomPassword`.
pub record Draws : Type 0 where
  pub workload_id : ℕ
  pub command_id : ℕ
  pub password : String

abbrev pub checked : Result InvalidRequest LaunchRequest → Result Error LaunchRequest
checked (ok r) = ok r
checked (err e) = err (invalid_request e)

-- The admission gate; no biller admits everything.
unfoldable pub admit : Option Authorize → ℕ → Option ℕ → Option ℕ → Result Error (Unit {0})
admit none org_id department_id project_id = ok tt
admit (some authorize) org_id department_id project_id =
    elim (authorize org_id department_id project_id) [ none ↦ ok tt | some e ↦ err (refused e) ]

abbrev image_or_default : Text → Text
image_or_default image = if is_empty image then runes "ubuntu:22.04" else image

abbrev timeout_or_hour : Option ℤ → ℤ
timeout_or_hour none = pos 3600
timeout_or_hour (some t) = t

-- The row that `Launch` builds, with the columns of `insertWorkload` that depend on the branch.
unfoldable pub new_workload :
    Service
    → ℕ
    → LaunchRequest
    → Draws
    → Time
    → WorkloadState
    → Option ℕ
    → String
    → Option Time
    → Workload
new_workload svc org_id req d now status node_id stage queued_at = record {
  id = d.workload_id;
  org_id = org_id;
  project_id = req.project_id;
  department_id = req.department_id;
  template_id = req.template_id;
  user_id = req.user_id;
  node_id = node_id;
  name = req.name;
  image = image_or_default req.image;
  container_id = runes "nodehive-" ++ take 20 (svc.uuid_hex d.workload_id);
  requested_gpu_count = req.gpu_count;
  requested_gpu_type = if str_eq req.gpu_type "" then "any" else req.gpu_type;
  status = status;
  stage = stage;
  idle_timeout_sec = some (timeout_or_hour req.idle_timeout_sec);
  expose_ssh = req.expose_ssh;
  expose_jupyter = req.expose_jupyter;
  ssh_password = if req.expose_ssh then d.password else "";
  ssh_endpoint = "";
  jupyter_endpoint = "";
  logs = "";
  started_at = none;
  stopped_at = none;
  stop_reason = none;
  created_at = now;
  queued_at = queued_at;
  stopping_at = none;
  metered_until = none;
}

unfoldable pub insert_workload : Workload → Store → Store
insert_workload w s = record s { workloads = s.workloads ++ w ∷ [] }

-- No capacity: the workload waits in the queue.
unfoldable pub launch_queued : Service → ℕ → Workload → Store → Store
unfolding insert_workload
launch_queued svc org_id w s =
    notify svc org_id ("workloads" ∷ "queue" ∷ [])
      (record_event w.id org_id "queued" "no matching GPU capacity — queued" (insert_workload w s))

-- What follows the commit of a placed launch.
unfoldable pub announce_launch : Service → ℕ → Workload → Placement → Store → Store
unfolding notify record_event
announce_launch svc org_id w p s = emit (nudge p.node_id) (
    notify svc org_id ("workloads" ∷ []) (
      record_event w.id org_id "preparing" ""
        (record_event w.id org_id "node_selected" "" (record_event w.id org_id "scheduling" "" s))))

-- The transaction of a placed launch, and what follows its commit.
unfoldable pub launch_placed :
    Service → ℕ → Time → ℕ → Workload → Placement → Store → Result Error Store
unfolding insert_workload
launch_placed svc org_id now cmd_id w p s = do
  rows ← attach p (insert_workload w s)
  ok (announce_launch svc org_id w p (enqueue_launch now cmd_id w p rows))

-- What a launch returns besides the store: the workload as the caller sees it, its stage not set.
abbrev pub Launched : Type 0
Launched = Workload × Store

unfoldable pub launch_as :
    Service → ℕ → LaunchRequest → Draws → Time → Option Placement → Store → Result Error Launched
launch_as svc org_id req d now none s =
    let w = new_workload svc org_id req d now WorkloadState.queued none "queued" (some now) in
    ok (record w { stage = "" }, launch_queued svc org_id w s)
launch_as svc org_id req d now (some p) s = do
  let w = new_workload svc org_id req d now WorkloadState.pending (some p.node_id) "preparing" none
  s' ← launch_placed svc org_id now d.command_id w p s
  ok (record w { stage = "" }, s')

-- `scanned` is what the unlocked candidate scan saw, and `locked` says which GPU rows concurrent
-- transactions hold when the claims are made.
unfoldable pub launch :
    Service → (ℕ → Bool) → Store → ℕ → LaunchRequest → Draws → Time → Store → Result Error Launched
unfolding launch_as
launch svc locked scanned org_id request d now s = do
  req ← checked (validate_launch request)
  admit svc.billing org_id req.department_id req.project_id
  launch_as svc org_id req d now
      (place svc locked scanned org_id d.workload_id req.gpu_type (pos_part req.gpu_count) s) s
