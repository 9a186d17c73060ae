-- ===== src/Workloads/Place.antt =====
-- Placement: `placeAndAttach` and `attach` in gpu-platform/internal/workloads/impl.go.
pub mod Claims
pub mod Attach
use node_hive_b2b.Prelude.{
  ℕ, ◌+◌, Bool, true, false, not, ◌&&◌, ◌||◌, String, List, [], ◌∷◌, ◌++◌, map, Option, none, some,
  ltb, leb, ◌==◌, if◌then◌else◌, is_null, take, length, str_eq, Result, ok, err, ◌>>=◌, ◌>>◌, guard,
}
use node_hive_b2b.Domain.{GpuStatus, is_idle, is_online}
use node_hive_b2b.Sql.{select, update, count, exists, order_by}
use node_hive_b2b.Store.{Store, Gpu, Node, WorkloadGpu}
use node_hive_b2b.Workloads.Service.{Service, Error, unique_violation, claim_raced}

-- A claimed but not yet attached set of GPUs.
pub record Placement : Type 0 where
  pub workload_id : ℕ
  pub node_id : ℕ
  pub gpu_ids : List ℕ
  pub gpu_uuids : List String

abbrev pub contains : ℕ → List ℕ → Bool
contains n xs = exists (λ m. m == n) xs

-- The filter that the request's GPU type adds to the query.
unfoldable pub model_matches : Service → String → String → Bool
model_matches svc gpu_type model =
    if str_eq gpu_type "" || str_eq gpu_type "any" then true else svc.ilike_contains model gpu_type

-- The WHERE of the candidate scan.
abbrev pub is_candidate : Service → ℕ → String → List Node → Gpu → Bool
is_candidate svc org_id gpu_type nodes g =
    g.org_id == org_id
    && is_idle g.status
    && exists (λ n. n.id == g.node_id && is_online n.status) nodes
    && model_matches svc gpu_type g.model

-- ORDER BY g.node_id, g.gpu_index.
abbrev by_node_then_index : Gpu → Gpu → Bool
by_node_then_index a b = ltb a.node_id b.node_id || (a.node_id == b.node_id && leb a.index b.index)

-- `byNode` and `nodeOrder` in one: the nodes as they are first seen, each with its GPUs.
add_to_node : ℕ → ℕ → List (ℕ × List ℕ) → List (ℕ × List ℕ)
add_to_node node_id gpu_id [] = (node_id, gpu_id ∷ []) ∷ []
add_to_node node_id gpu_id ((n, ids) ∷ rest) =
    let others = add_to_node node_id gpu_id rest in
    if n == node_id then (n, ids ++ gpu_id ∷ []) ∷ rest else (n, ids) ∷ others

group_by_node : List Gpu → List (ℕ × List ℕ) → List (ℕ × List ℕ)
unfolding add_to_node
group_by_node [] groups = groups
group_by_node (g ∷ gs) groups = group_by_node gs (add_to_node g.node_id g.id groups)

unfoldable pub candidates : Service → ℕ → String → Store → List (ℕ × List ℕ)
unfolding group_by_node
candidates svc org_id gpu_type s =
    group_by_node
      (order_by by_node_then_index (select (is_candidate svc org_id gpu_type s.nodes) s.gpus)) []

-- SELECT … WHERE id = ANY(ids) AND status='idle' ORDER BY gpu_index LIMIT n FOR UPDATE SKIP LOCKED.
unfoldable pub claim : (ℕ → Bool) → List ℕ → ℕ → List Gpu → List Gpu
claim locked ids n gpus = take n (
    select (λ g. not (locked g.id))
      (order_by (λ a b. leb a.index b.index)
        (select (λ g. contains g.id ids && is_idle g.status) gpus)))

-- The loop over `nodeOrder`.
try_nodes : (ℕ → Bool) → ℕ → ℕ → List Gpu → List (ℕ × List ℕ) → Option Placement
try_nodes locked workload_id n gpus [] = none
try_nodes locked workload_id n gpus ((node_id, ids) ∷ rest) =
    let later = try_nodes locked workload_id n gpus rest in
    let claimed = claim locked ids n gpus in
    if ltb (length ids) n
    then later
    else if length claimed == n
    then some (record {
      workload_id = workload_id;
      node_id = node_id;
      gpu_ids = map (λ g. g.id) claimed;
      gpu_uuids = map (λ g. g.uuid) claimed;
    })
    else later

-- The scan reads `scanned` without locks, and the claims read the rows as they are in `s`, skipping
-- those that another transaction has locked. `none` is `ErrNoGPUsAvailable`.
unfoldable pub place : Service → (ℕ → Bool) → Store → ℕ → ℕ → String → ℕ → Store → Option Placement
unfolding try_nodes
place svc locked scanned org_id workload_id gpu_type n s =
    try_nodes locked workload_id n s.gpus (candidates svc org_id gpu_type scanned)

abbrev pub is_attached : ℕ → WorkloadGpu → Bool
is_attached gpu_id a = a.gpu_id == gpu_id && is_null a.detached_at

-- The INSERTs, under idx_workload_gpus_one_active and UNIQUE (workload_id, gpu_id).
insert_attachments : ℕ → List ℕ → List WorkloadGpu → Result Error (List WorkloadGpu)
insert_attachments workload_id [] rows = ok rows
insert_attachments workload_id (g ∷ gs) rows =
    let taken =
      exists (is_attached g) rows
      || exists (λ (a : WorkloadGpu). a.workload_id == workload_id && a.gpu_id == g) rows in
    let row : WorkloadGpu = record { workload_id = workload_id; gpu_id = g; detached_at = none } in
    let rest = insert_attachments workload_id gs (rows ++ row ∷ []) in
    if taken then err unique_violation else rest

abbrev pub is_claimed : List ℕ → Gpu → Bool
is_claimed ids g = contains g.id ids && is_idle g.status

unfoldable pub attach : Placement → Store → Result Error Store
unfolding insert_attachments
attach p s = do
  rows ← insert_attachments p.workload_id p.gpu_ids s.workload_gpus
  guard (count (is_claimed p.gpu_ids) s.gpus == length p.gpu_ids) claim_raced
  ok (record s {
    workload_gpus = rows;
    gpus = update (is_claimed p.gpu_ids) (λ g. record g { status = GpuStatus.in_use }) s.gpus;
  })
