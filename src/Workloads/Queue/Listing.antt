-- ===== src/Workloads/Queue/Listing.antt =====
-- The queue as it is listed: `estWaitPerPosition` and `ListQueue` in
-- gpu-platform/internal/workloads/queue.go.
use node_hive_b2b.Prelude.{
  ℕ, zero, suc, ◌+◌, ◌*◌, ◌/◌, ◌≡◌, refl, String, List, [], ◌∷◌, Option, none, some, length, ltb,
  if◌then◌else◌, true, map, ap, sym, ◌∙◌,
}
use node_hive_b2b.Sql.{count, select, order_by}
use node_hive_b2b.Sql.Counts.{length-count, count-order_by, length-select}
use node_hive_b2b.Prelude.Int.{ℤ}
use node_hive_b2b.Text.{Text}
use node_hive_b2b.Store.{Time, second, minute, Workload, Store}
use node_hive_b2b.Workloads.Queue.{queue_of, waiting_since, waits_in, by_waiting}

abbrev pub avg_wait_fallback : Time
avg_wait_fallback = 15 * minute

-- `avg` is the average runtime of the org's running workloads, when there is one; the conversion to
-- whole seconds cuts it off.
unfoldable pub est_wait_per_position : Option Time → Time
est_wait_per_position none = avg_wait_fallback
est_wait_per_position (some avg) = if ltb 0 avg then (avg / second) * second else avg_wait_fallback

pub record QueueEntry : Type 0 where
  pub id : ℕ
  pub name : Text
  pub position : ℕ
  pub gpu_type : String
  pub gpu_count : ℤ
  pub queued_at : Time
  pub est_wait_min : ℕ
  pub est_start : Time

pub record QueueStats : Type 0 where
  pub waiting : ℕ
  pub avg_wait_min : ℕ
  pub next_free_at : Option Time
  pub entries : List QueueEntry

entries_from : Time → Time → ℕ → List Workload → List QueueEntry
entries_from per now pos [] = []
entries_from per now pos (w ∷ ws) =
    record {
      id = w.id;
      name = w.name;
      position = suc pos;
      gpu_type = w.requested_gpu_type;
      gpu_count = w.requested_gpu_count;
      queued_at = waiting_since w;
      est_wait_min = (suc pos * per) / minute;
      est_start = now + suc pos * per;
    }
    ∷ entries_from per now (suc pos) ws

abbrev next_free : Time → Time → ℕ → Option Time
next_free per now zero = none
next_free per now (suc n) = some (now + per)

unfoldable pub list_queue : Option Time → Time → ℕ → Store → QueueStats
unfolding entries_from
list_queue avg now org_id s =
    let per = est_wait_per_position avg in
    record {
      waiting = length (queue_of org_id s);
      avg_wait_min = per / minute;
      next_free_at = next_free per now (length (queue_of org_id s));
      entries = entries_from per now 0 (queue_of org_id s);
    }

pub positions_from : ℕ → ℕ → List ℕ
positions_from pos zero = []
positions_from pos (suc n) = suc pos ∷ positions_from (suc pos) n

entries_from-position :
    (per now pos : ℕ) (ws : List Workload)
    → map (λ e. e.position) (entries_from per now pos ws) ≡ positions_from pos (length ws)
unfolding entries_from positions_from
entries_from-position per now pos [] = refl
entries_from-position per now pos (w ∷ ws) =
    ap (λ r. suc pos ∷ r) (entries_from-position per now (suc pos) ws)

entries_from-id :
    (per now pos : ℕ) (ws : List Workload)
    → map (λ e. e.id) (entries_from per now pos ws) ≡ map (λ w. w.id) ws
unfolding entries_from
entries_from-id per now pos [] = refl
entries_from-id per now pos (w ∷ ws) = ap (λ r. w.id ∷ r) (entries_from-id per now (suc pos) ws)

length-order_by : (ws : List Workload) → length (order_by by_waiting ws) ≡ length ws
length-order_by ws =
    sym (length-count (order_by by_waiting ws))
    ∙ (count-order_by (λ w. true) by_waiting ws ∙ length-count ws)

pub length-queue_of :
    (org_id : ℕ) (s : Store) → length (queue_of org_id s) ≡ count (waits_in org_id) s.workloads
length-queue_of org_id s =
    length-order_by (select (waits_in org_id) s.workloads)
    ∙ length-select (waits_in org_id) s.workloads

-- The queue's listing numbers the waiting workloads of the org from 1 on, in the order in which they
-- are promoted, and counts them.
pub list_queue_positions :
    (avg : Option Time) (now org_id : ℕ) (s : Store)
    → let q = list_queue avg now org_id s in
      (q.waiting ≡ count (waits_in org_id) s.workloads)
      × (map (λ e. e.position) q.entries ≡ positions_from 0 q.waiting)
      × (map (λ e. e.id) q.entries ≡ map (λ w. w.id) (queue_of org_id s))
unfolding list_queue
list_queue_positions avg now org_id s = (
  length-queue_of org_id s,
  entries_from-position (est_wait_per_position avg) now 0 (queue_of org_id s),
  entries_from-id (est_wait_per_position avg) now 0 (queue_of org_id s),
)
