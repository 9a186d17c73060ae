-- ===== src/Workloads/Place/Claims.antt =====
-- Which GPUs a placement claims, however stale its candidate scan was
-- (`placeAndAttach` in gpu-platform/internal/workloads/impl.go).
use node_hive_b2b.Prelude.{
  ℕ, ◌≤◌, ◌≡◌, refl, Bool, true, false, not, ◌&&◌, String, List, [], ◌∷◌, map, some, arith, ltb,
  leb, ◌==◌, length, length-map, Bool-cases, inl, inr, ==_refl, ◌∙◌, &&_true, subst, some-injective,
}
use node_hive_b2b.Domain.{is_idle}
use node_hive_b2b.Sql.{select, count, order_by}
use node_hive_b2b.Sql.Counts.{
  count-select, count-order_by, count-take-le, count_mono, not-exists, count-map,
}
use node_hive_b2b.Store.{Gpu, Store}
use node_hive_b2b.Workloads.Service.{Service}
use node_hive_b2b.Workloads.Place.{Placement, contains, claim, try_nodes, place, candidates}
use node_hive_b2b.Workloads.Invariant.{idle_at}

-- Distinct ids, each of a GPU that is idle now.
abbrev pub Claims : List Gpu → List ℕ → Type 0
Claims gpus [] = Unit {0}
Claims gpus (g ∷ gs) = (contains g gs ≡ false) × (count (idle_at g) gpus ≡ 1) × Claims gpus gs

ids : List Gpu → List ℕ
ids = map (λ g. g.id)

module _ (gpus : List Gpu) (keys : (g : ℕ) → count (λ x. x.id == g) gpus ≤ 1) where
  idle_key : (g : ℕ) → count (idle_at g) gpus ≤ 1
  idle_key g =
      omega (arith, keys g, count_mono (idle_at g) (λ x. x.id == g) gpus (λ x e. ground arith))

  Claims-of_rows :
      (rows : List Gpu)
      → ((g : ℕ) → count (λ x. x.id == g) rows ≤ count (idle_at g) gpus)
      → Claims gpus (ids rows)
  unfolding ids count
  Claims-of_rows [] h = tt
  Claims-of_rows (x ∷ rows) h =
      let self : (x.id == x.id) ≡ true = ==_refl x.id in
      let bound : count (λ y. y.id == x.id) (x ∷ rows) ≤ count (idle_at x.id) gpus = h x.id in
      let none_left : count (λ y. y.id == x.id) rows ≡ 0 = ground (arith, idle_key x.id) in
      (
        not-exists (λ m. m == x.id) (map (λ g. g.id) rows)
            (count-map (λ m. m == x.id) (λ (g : Gpu). g.id) rows ∙ none_left),
        ground (arith, idle_key x.id),
        Claims-of_rows rows (λ g. ground (arith, h g)),
      )

-- The claimed rows are idle rows of the table, none of them twice more than there.
claim-from :
    (locked : ℕ → Bool) (wanted : List ℕ) (n : ℕ) (gpus : List Gpu) (p : Gpu → Bool)
    → count p (claim locked wanted n gpus) ≤ count (λ x. p x && is_idle x.status) gpus
unfolding claim
claim-from locked wanted n gpus p =
    let r : Gpu → Bool = λ x. contains x.id wanted && is_idle x.status in
    let free : Gpu → Bool = λ x. not (locked x.id) in
    let sorted = order_by (λ a b. leb a.index b.index) (select r gpus) in
    omega (
      arith,
      count-take-le p n (select free sorted),
      count-select free p sorted,
      count_mono (λ x. free x && p x) p sorted (λ x e. (&&_true _ _ e).1),
      count-order_by p (λ (a b : Gpu). leb a.index b.index) (select r gpus),
      count-select r p gpus,
      count_mono (λ x. r x && p x) (λ x. p x && is_idle x.status) gpus (λ x e. ground arith),
    )

claim-le :
    (locked : ℕ → Bool) (wanted : List ℕ) (n : ℕ) (gpus : List Gpu) (g : ℕ)
    → count (λ x. x.id == g) (claim locked wanted n gpus) ≤ count (idle_at g) gpus
claim-le locked wanted n gpus g = claim-from locked wanted n gpus (λ x. x.id == g)

-- The ids and the UUIDs of a placement are those of idle rows of the table.
pub record AreNamed (gpus : List Gpu) (p : Placement) : Type 0 where
  pub rows : List Gpu
  pub by_id : p.gpu_ids ≡ map (λ g. g.id) rows
  pub by_uuid : p.gpu_uuids ≡ map (λ g. g.uuid) rows
  pub from_table : (q : Gpu → Bool) → count q rows ≤ count (λ x. q x && is_idle x.status) gpus

-- What a successful placement is: `n` distinct GPUs, each idle and unlocked as the rows stand now.
pub record IsSound (locked : ℕ → Bool) (n : ℕ) (gpus : List Gpu) (w : ℕ) (p : Placement)
    : Type 0 where
  pub for_workload : p.workload_id ≡ w
  pub full : length p.gpu_ids ≡ n
  pub claimed : Claims gpus p.gpu_ids
  pub named : AreNamed gpus p

try_nodes-IsSound :
    (locked : ℕ → Bool) (w n : ℕ) (gpus : List Gpu) (groups : List (ℕ × List ℕ)) {p : Placement}
    → ((g : ℕ) → count (λ x. x.id == g) gpus ≤ 1)
    → try_nodes locked w n gpus groups ≡ some p
    → IsSound locked n gpus w p
unfolding try_nodes ids
try_nodes-IsSound locked w n gpus [] keys h = cc
try_nodes-IsSound locked w n gpus ((node_id, wanted) ∷ rest) {p} keys h =
    let rows = claim locked wanted n gpus in
    let sound : Claims gpus (map (λ g. g.id) rows) =
      Claims-of_rows gpus keys rows (claim-le locked wanted n gpus) in
    let full : length (map (λ g. g.id) rows) ≡ length rows = length-map (λ (g : Gpu). g.id) rows in
    elim (Bool-cases (ltb (length wanted) n)) [
      | inl e ↦ try_nodes-IsSound locked w n gpus rest keys (rw e at h)
      | inr e ↦ elim (Bool-cases (length rows == n)) [
        | inl f ↦ found rows sound (claim-from locked wanted n gpus) full f (rw (e, f) at h)
        | inr f ↦ try_nodes-IsSound locked w n gpus rest keys (rw (e, f) at h)
      ]
    ]
  where
    found :
        (rows : List Gpu)
        → Claims gpus (map (λ g. g.id) rows)
        → ((q : Gpu → Bool) → count q rows ≤ count (λ x. q x && is_idle x.status) gpus)
        → length (map (λ g. g.id) rows) ≡ length rows
        → (length rows == n) ≡ true
        → some (record {
          workload_id = w;
          node_id = node_id;
          gpu_ids = map (λ g. g.id) rows;
          gpu_uuids = map (λ g. g.uuid) rows;
        })
          ≡ some p
        → IsSound locked n gpus w p
    found rows sound from full f h =
        subst (IsSound locked n gpus w) (some-injective _ _ h) (record {
          for_workload = refl;
          full = ground arith;
          claimed = sound;
          named = record { rows = rows; by_id = refl; by_uuid = refl; from_table = from };
        })

pub place-IsSound :
    (svc : Service) (locked : ℕ → Bool) (scanned : Store) (org_id w : ℕ) (gpu_type : String) (n : ℕ)
    (s : Store) {p : Placement}
    → ((g : ℕ) → count (λ x. x.id == g) s.gpus ≤ 1)
    → place svc locked scanned org_id w gpu_type n s ≡ some p
    → IsSound locked n s.gpus w p
unfolding place
place-IsSound svc locked scanned org_id w gpu_type n s keys h =
    try_nodes-IsSound locked w n s.gpus (candidates svc org_id gpu_type scanned) keys h
