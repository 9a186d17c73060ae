-- ===== src/Workloads/Place/Attach.antt =====
-- `attach` under the invariant
-- (gpu-platform/internal/workloads/impl.go).
use node_hive_b2b.Prelude.{
  ℕ, ◌+◌, ◌≤◌, ◌<◌, ◌≡◌, refl, ap, Bool, true, false, ◌&&◌, List, [], ◌∷◌, ◌++◌, map, none, arith,
  ltb, ◌==◌, length, Bool-cases, inl, inr, ok, ==_refl, ==_iff, &&_true, subst, append-nil,
  append_assoc,
}
use node_hive_b2b.Domain.{GpuStatus}
use node_hive_b2b.Sql.{update, count, exists}
use node_hive_b2b.Sql.Counts.{
  count-append, count-map, count_mono, not-exists, count-exists, count-update, count-witness,
}
use node_hive_b2b.Store.{Gpu, Store, WorkloadGpu}
use node_hive_b2b.Workloads.Place.{
  Placement, contains, insert_attachments, attach, is_attached, is_claimed,
}
use node_hive_b2b.Workloads.Place.Claims.{Claims}
use node_hive_b2b.Workloads.Invariant.{Inv, idle_at, active_of, of_workload, active_at, queued_at}

abbrev pub new_row : ℕ → ℕ → WorkloadGpu
new_row w g = record { workload_id = w; gpu_id = g; detached_at = none }

abbrev pair_of : ℕ → ℕ → WorkloadGpu → Bool
pair_of w g a = a.workload_id == w && a.gpu_id == g

-- No index stands in the way of the rows for these GPUs.
abbrev Insertable : ℕ → List ℕ → List WorkloadGpu → Type 0
Insertable w [] rows = Unit {0}
Insertable w (g ∷ gs) rows =
    (contains g gs ≡ false)
    × (count (is_attached g) rows ≡ 0)
    × (count (pair_of w g) rows ≡ 0)
    × Insertable w gs rows

Insertable-append :
    (w g : ℕ) (gs : List ℕ) (rows : List WorkloadGpu)
    → contains g gs ≡ false
    → Insertable w gs rows
    → Insertable w gs (rows ++ new_row w g ∷ [])
unfolding count exists
Insertable-append w g [] rows c h = tt
Insertable-append w g (x ∷ xs) rows c h = (
  h.0,
  ground (arith, count-append (is_attached x) rows (new_row w g ∷ [])),
  ground (arith, count-append (pair_of w x) rows (new_row w g ∷ [])),
  Insertable-append w g xs rows (ground arith) h.3,
)

insert_attachments-ok :
    (w : ℕ) (gs : List ℕ) (rows : List WorkloadGpu)
    → Insertable w gs rows
    → insert_attachments w gs rows ≡ ok (rows ++ map (new_row w) gs)
unfolding insert_attachments
insert_attachments-ok w [] rows h = rw append-nil
insert_attachments-ok w (g ∷ gs) rows h = rw (
  not-exists (is_attached g) rows h.1,
  not-exists (pair_of w g) rows h.2,
  insert_attachments-ok w gs (rows ++ new_row w g ∷ []) (Insertable-append w g gs rows h.0 h.3),
  append_assoc rows (new_row w g ∷ []) (map (new_row w) gs),
)

Insertable-of_Claims :
    (w : ℕ) (gs : List ℕ) (s : Store)
    → Inv s
    → count (of_workload w) s.workload_gpus ≡ 0
    → Claims s.gpus gs
    → Insertable w gs s.workload_gpus
Insertable-of_Claims w [] s v f c = tt
Insertable-of_Claims w (g ∷ gs) s v f c = (
  c.0,
  v.idle_free g (omega arith),
  omega (arith, count_mono (pair_of w g) (of_workload w) s.workload_gpus (λ a e. ground arith)),
  Insertable-of_Claims w gs s v f c.2,
)

not_contains_eq :
    (g n : ℕ) (gs : List ℕ) → contains g gs ≡ false → (g == n) ≡ true → contains n gs ≡ false
not_contains_eq g n gs h e = let q : n ≡ g = ground arith in rw q h

claimed-cons :
    (g : ℕ) (gs : List ℕ) (gpus : List Gpu)
    → contains g gs ≡ false
    → count (is_claimed (g ∷ gs)) gpus ≡ count (idle_at g) gpus + count (is_claimed gs) gpus
unfolding count exists
claimed-cons g gs [] c = refl
claimed-cons g gs (x ∷ gpus) c =
    ground (arith, not_contains_eq g x.id gs c, claimed-cons g gs gpus c)

claimed_nil : (gpus : List Gpu) → count (is_claimed []) gpus ≡ 0
unfolding count exists
claimed_nil [] = refl
claimed_nil (x ∷ gpus) = omega (arith, claimed_nil gpus)

-- The hard guard of `attach` counts all of the claim.
pub claimed-count :
    (gpus : List Gpu) (gs : List ℕ) → Claims gpus gs → count (is_claimed gs) gpus ≡ length gs
claimed-count gpus [] c = claimed_nil gpus
claimed-count gpus (g ∷ gs) c = omega (arith, claimed-cons g gs gpus c.0, claimed-count gpus gs c.2)

-- The store that a successful attach leaves.
abbrev pub attached : Placement → Store → Store
attached p s = record s {
  workload_gpus = s.workload_gpus ++ map (new_row p.workload_id) p.gpu_ids;
  gpus = update (is_claimed p.gpu_ids) (λ g. record g { status = GpuStatus.in_use }) s.gpus;
}

pub attach-ok :
    (p : Placement) (s : Store)
    → Inv s
    → count (of_workload p.workload_id) s.workload_gpus ≡ 0
    → Claims s.gpus p.gpu_ids
    → attach p s ≡ ok (attached p s)
unfolding attach
attach-ok p s v f c = rw (
  insert_attachments-ok p.workload_id p.gpu_ids s.workload_gpus
      (Insertable-of_Claims p.workload_id p.gpu_ids s v f c),
  claimed-count s.gpus p.gpu_ids c,
  ==_refl (length p.gpu_ids),
)

-- How often a GPU occurs among the new rows.
rows-count :
    (w g : ℕ) (gs : List ℕ) → count (is_attached g) (map (new_row w) gs) ≡ count (λ m. m == g) gs
rows-count w g gs = omega (
  arith,
  count-map (is_attached g) (new_row w) gs,
  count_mono (λ m. m == g) (λ m. is_attached g (new_row w m)) gs (λ m e. ground arith),
  count_mono (λ m. is_attached g (new_row w m)) (λ m. m == g) gs (λ m e. ground arith),
)

-- A claimed GPU occurs once in its claim, and is idle.
abbrev Claimed : List Gpu → ℕ → List ℕ → Type 0
Claimed gpus g gs =
    (count (λ m. m == g) gs ≤ 1) × (0 < count (λ m. m == g) gs → 0 < count (idle_at g) gpus)

Claims-Claimed : (gpus : List Gpu) (g : ℕ) (gs : List ℕ) → Claims gpus gs → Claimed gpus g gs
unfolding count
Claims-Claimed gpus g [] c = (omega arith, λ h. absurd (omega arith))
Claims-Claimed gpus g (x ∷ gs) c = elim (Bool-cases (x == g)) [
  | inl e ↦
      let q : x ≡ g = ground arith in
      let gone = count-exists (λ m. m == g) gs (not_contains_eq x g gs c.0 e) in
      (ground arith, λ h. subst (λ k. 0 < count (idle_at k) gpus) q (omega (arith, c.1)))
  | inr e ↦
      let (once, idle) = Claims-Claimed gpus g gs c.2 in (ground arith, λ h. idle (ground arith))
]

-- After the flip to `in_use` a claimed GPU is idle no more.
attached_not_idle :
    (g : ℕ) (gs : List ℕ) (gpus : List Gpu)
    → let after = update (is_claimed gs) (λ x. record x { status = GpuStatus.in_use }) gpus in
      0 < count (idle_at g) after → (0 < count (idle_at g) gpus) × (count (λ m. m == g) gs ≡ 0)
unfolding count update
attached_not_idle g gs [] h = absurd (omega arith)
attached_not_idle g gs (x ∷ gpus) h = elim (Bool-cases (x.id == g)) [
  | inl e ↦
      let q : x.id ≡ g = ground arith in
      ground (arith, attached_not_idle g gs gpus, count-exists (λ m. m == g) gs, not_contains_x q)
  | inr e ↦ ground (arith, attached_not_idle g gs gpus)
]
  where
    not_contains_x : x.id ≡ g → contains x.id gs ≡ contains g gs
    not_contains_x q = ap (λ k. contains k gs) q

new_rows_owner : (w x : ℕ) (gs : List ℕ) → 0 < count (of_workload w) (map (new_row x) gs) → x ≡ w
new_rows_owner w x gs h =
    let counted : 0 < count (λ m. of_workload w (new_row x m)) gs =
      omega (arith, count-map (of_workload w) (new_row x) gs) in
    (==_iff x w).0 (count-witness (λ m. of_workload w (new_row x m)) gs counted).1

attached-held :
    (p : Placement) (s : Store)
    → ((w : ℕ) → 0 < count (active_of w) s.workload_gpus → 0 < count (active_at w) s.workloads)
    → 0 < count (active_at p.workload_id) s.workloads
    → (w : ℕ) → 0 < count (active_of w) (attached p s).workload_gpus
    → 0 < count (active_at w) s.workloads
attached-held p s held live w h = elim (Bool-cases (ltb 0 (count (active_of w) s.workload_gpus))) [
  | inl e ↦ held w (ground arith)
  | inr e ↦
      let rows = map (new_row p.workload_id) p.gpu_ids in
      let owned : 0 < count (of_workload w) rows = ground (
        arith,
        count-append (active_of w) s.workload_gpus rows,
        count_mono (active_of w) (of_workload w) rows (λ a f. (&&_true _ _ f).0),
      ) in
      subst (λ x. 0 < count (active_at x) s.workloads)
        (new_rows_owner w p.workload_id p.gpu_ids owned) live
]

attached-queued :
    (p : Placement) (s : Store)
    → ((w : ℕ) → 0 < count (queued_at w) s.workloads → count (of_workload w) s.workload_gpus ≡ 0)
    → count (queued_at p.workload_id) s.workloads ≡ 0
    → (w : ℕ) → 0 < count (queued_at w) s.workloads
    → count (of_workload w) (attached p s).workload_gpus ≡ 0
attached-queued p s unplaced unqueued w h = elim (Bool-cases (ltb 0 (count (of_workload w) rows))) [
  | inl e ↦
      let other =
        subst (λ x. count (queued_at x) s.workloads ≡ 0)
          (new_rows_owner w p.workload_id p.gpu_ids (ground arith)) unqueued in
      absurd (omega arith)
  | inr e ↦ ground (arith, count-append (of_workload w) s.workload_gpus rows, unplaced w h)
]
  where
    rows : List WorkloadGpu
    rows = map (new_row p.workload_id) p.gpu_ids

pub attached-Inv :
    (p : Placement) (s : Store)
    → Inv s
    → Claims s.gpus p.gpu_ids
    → 0 < count (active_at p.workload_id) s.workloads
    → count (queued_at p.workload_id) s.workloads ≡ 0
    → Inv (attached p s)
attached-Inv p s v c live unqueued = record {
  gpu_keys = λ g. omega (
    arith,
    v.gpu_keys g,
    count-update (λ x. x.id == g) (is_claimed p.gpu_ids)
        (λ x. record x { status = GpuStatus.in_use }) s.gpus (λ x e. refl),
  );
  one_active = λ g. grind (
    arith,
    count-append (is_attached g) s.workload_gpus (map (new_row p.workload_id) p.gpu_ids),
    rows-count p.workload_id g p.gpu_ids,
    (Claims-Claimed s.gpus g p.gpu_ids c).0,
    (Claims-Claimed s.gpus g p.gpu_ids c).1,
    v.one_active g,
    v.idle_free g,
  );
  idle_free = λ g h.
      let (idle, unclaimed) = attached_not_idle g p.gpu_ids s.gpus h in
      omega (
        arith,
        count-append (is_attached g) s.workload_gpus (map (new_row p.workload_id) p.gpu_ids),
        rows-count p.workload_id g p.gpu_ids,
        v.idle_free g idle,
      );
  held = attached-held p s v.held live;
  queued_unplaced = attached-queued p s v.queued_unplaced unqueued;
}
