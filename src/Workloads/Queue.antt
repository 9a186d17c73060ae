-- ===== src/Workloads/Queue.antt =====
-- The launch queue: gpu-platform/internal/workloads/queue.go.
pub mod Launches
pub mod Attempts
pub mod Promote
pub mod Listing
use node_hive_b2b.Prelude.{
  ℕ, suc, ◌+◌, Bool, true, false, not, ◌&&◌, String, List, [], ◌∷◌, map, Option, none, some, ◌==◌,
  if◌then◌else◌, coalesce, leb, Result, ok, err, ◌>>=◌, ◌>>◌, guard, or_fail,
}
use node_hive_b2b.Prelude.Int.{ℤ, pos_part}
use node_hive_b2b.Text.{Text}
use node_hive_b2b.Domain.{WorkloadState, StopReason, is_queued}
use node_hive_b2b.Sql.{select, update, count, find, exists, order_by}
use node_hive_b2b.Store.{Time, Workload, Store, nudge, emit}
use node_hive_b2b.Workloads.Service.{Service, Error, not_found, not_queued, notify, record_event}
use node_hive_b2b.Workloads.Place.{Placement, contains, place, attach}
use node_hive_b2b.Workloads.Outbox.{enqueue_launch}
use node_hive_b2b.Workloads.Launch.{admit}

-- WHERE id = … AND status = 'queued'.
abbrev pub can_dequeue : ℕ → Workload → Bool
can_dequeue id w = w.id == id && is_queued w.status

abbrev pub cancel_row : Time → Workload → Workload
cancel_row now w = record w {
  status = WorkloadState.stopped;
  stage = "stopped";
  stopped_at = some now;
  stop_reason = some StopReason.user;
}

unfoldable pub cancel_queued : Service → Time → ℕ → Store → Result Error Store
unfolding notify record_event
cancel_queued svc now id s = do
  w ← or_fail (find (can_dequeue id) s.workloads) not_queued
  let cancelled = record s { workloads = update (can_dequeue id) (cancel_row now) s.workloads }
  ok (
      notify svc w.org_id ("workloads" ∷ "queue" ∷ [])
        (record_event id w.org_id "stopped" "cancelled from queue" cancelled))

-- What one attempt draws: what the unlocked scan sees, the GPU rows that concurrent transactions have
-- locked, the id of the command and the time.
pub record Attempt : Type 0 where
  pub scanned : Store
  pub locked : ℕ → Bool
  pub command_id : ℕ
  pub now : Time

abbrev pub promote_row : ℕ → Workload → Workload
promote_row node_id w = record w {
  status = WorkloadState.pending;
  stage = "preparing";
  node_id = some node_id;
}

abbrev pub mark_promoted : ℕ → ℕ → Store → Store
mark_promoted id node_id s = record s {
  workloads = update (can_dequeue id) (promote_row node_id) s.workloads;
}

-- What follows the commit of a promotion.
unfoldable pub announce_promotion : Service → ℕ → ℕ → Placement → Store → Store
unfolding notify record_event
announce_promotion svc org_id id p s = emit (nudge p.node_id) (
    notify svc org_id ("workloads" ∷ "queue" ∷ []) (
      record_event id org_id "preparing" ""
        (record_event id org_id "node_selected" "promoted from queue" s)))

abbrev pub commit_promotion : Service → Attempt → ℕ → ℕ → Placement → Workload → Store → Store
commit_promotion svc t org_id id p w s =
    announce_promotion svc org_id id p
      (enqueue_launch t.now t.command_id (record w { node_id = some p.node_id }) p s)

-- The transaction from the claim on; a row that is not queued any more rolls it back.
unfoldable pub promote_placed :
    Service → Attempt → ℕ → ℕ → Placement → Store → Result Error (Bool × Store)
promote_placed svc t org_id id p s =
    if count (can_dequeue id) s.workloads == 0 then ok (false, s) else (do
      attached ← attach p (mark_promoted id p.node_id s)
      w ← or_fail (find (λ x. x.id == id) attached.workloads) not_found
      ok (true, commit_promotion svc t org_id id p w attached))

-- `ErrNoGPUsAvailable` leaves the entry in the queue.
abbrev pub promote_found :
    Service → Attempt → ℕ → ℕ → Option Placement → Store → Result Error (Bool × Store)
promote_found svc t org_id id none s = ok (false, s)
promote_found svc t org_id id (some p) s = promote_placed svc t org_id id p s

unfoldable pub promote_one :
    Service → Attempt → ℕ → ℕ → String → ℕ → Store → Result Error (Bool × Store)
unfolding promote_placed
promote_one svc t org_id id gpu_type n s =
    promote_found svc t org_id id (place svc t.locked t.scanned org_id id gpu_type n s) s

-- How many were promoted, and the error that ended the loop.
pub record Promotion : Type 0 where
  pub promoted : ℕ
  pub error : Option Error
  pub store : Store

abbrev pub add_promoted : Bool → Promotion → Promotion
add_promoted true r = record r { promoted = suc r.promoted }
add_promoted false r = r

-- A refused admission ends the loop without an error.
abbrev pub if_admitted : Result Error (Unit {0}) → Store → Promotion → Promotion
if_admitted (err e) s r = record { promoted = 0; error = none; store = s }
if_admitted (ok u) s r = r

-- A failed attempt ends the loop, with what was promoted so far.
abbrev pub and_then : Result Error (Bool × Store) → Store → (Store → Promotion) → Promotion
and_then (err e) s k = record { promoted = 0; error = some e; store = s }
and_then (ok r) s k = add_promoted r.0 (k r.1)

-- The loop over the candidates. `attempts` gives what each attempt draws.
unfoldable pub promote_loop : Service → (ℕ → Attempt) → ℕ → ℕ → List Workload → Store → Promotion
promote_loop svc attempts i org_id [] s = record { promoted = 0; error = none; store = s }
promote_loop svc attempts i org_id (c ∷ cs) s =
    if_admitted (admit svc.billing org_id c.department_id c.project_id) s (
      and_then
        (promote_one svc (attempts i) org_id c.id c.requested_gpu_type
          (pos_part c.requested_gpu_count) s)
        s (λ s'. promote_loop svc attempts (suc i) org_id cs s'))

abbrev pub waits_in : ℕ → Workload → Bool
waits_in org_id w = w.org_id == org_id && is_queued w.status

abbrev pub waiting_since : Workload → Time
waiting_since w = coalesce w.queued_at w.created_at

abbrev pub by_waiting : Workload → Workload → Bool
by_waiting v w = leb (waiting_since v) (waiting_since w)

-- The org's queue, oldest first.
abbrev pub queue_of : ℕ → Store → List Workload
queue_of org_id s = order_by by_waiting (select (waits_in org_id) s.workloads)

unfoldable pub promote_queued : Service → (ℕ → Attempt) → ℕ → Store → Promotion
unfolding promote_loop
promote_queued svc attempts org_id s = promote_loop svc attempts 0 org_id (queue_of org_id s) s

distinct : List ℕ → List ℕ
distinct [] = []
distinct (n ∷ ns) = let rest = distinct ns in if contains n rest then rest else n ∷ rest

abbrev pub add_rest : Option Error → Promotion → Promotion → Promotion
add_rest (some e) r rest = r
add_rest none r rest = record rest { promoted = r.promoted + rest.promoted }

unfoldable pub promote_orgs : Service → (ℕ → ℕ → Attempt) → List ℕ → Store → Promotion
promote_orgs svc attempts [] s = record { promoted = 0; error = none; store = s }
promote_orgs svc attempts (o ∷ os) s =
    let r = promote_queued svc (attempts o) o s in
    let rest = promote_orgs svc attempts os r.store in add_rest r.error r rest

-- SELECT DISTINCT org_id: the order of the orgs is the database's, here that of the rows.
unfoldable pub promote_all_queued : Service → (ℕ → ℕ → Attempt) → Store → Promotion
unfolding promote_orgs distinct
promote_all_queued svc attempts s =
    promote_orgs svc attempts
      (distinct (map (λ w. w.org_id) (select (λ w. is_queued w.status) s.workloads))) s
