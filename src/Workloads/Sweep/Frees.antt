-- ===== src/Workloads/Sweep/Frees.antt =====
-- What is left after a sweep (gpu-platform/internal/workloads/impl.go).
use node_hive_b2b.Prelude.{
  ℕ, ◌≤◌, ◌≡◌, refl, ◌∙◌, ap, Bool, true, false, not, ◌&&◌, ◌||◌, String, List, [], ◌∷◌, map,
  Option, none, some, arith, ◌==◌, if◌then◌else◌, length, Bool-cases, inl, inr, ltb, ==_refl,
}
use node_hive_b2b.Domain.{WorkloadState, is_in_use}
use node_hive_b2b.Sql.{select, count, exists}
use node_hive_b2b.Sql.Counts.{count-update-le, count-update_self, count_mono}
use node_hive_b2b.Store.{Time, Workload, Node, Gpu, WorkloadGpu, Store}
use node_hive_b2b.Commands.{Expired, expire_overdue, supersede_for_terminal_workloads}
use node_hive_b2b.Workloads.Service.{Service, notify, audit_system}
use node_hive_b2b.Workloads.Place.{contains}
use node_hive_b2b.Workloads.Sweep.{
  is_stuck, fail_row, fail_one, fail_all, holds_gpu, is_leaked, free_leaked, is_pending_at,
  fail_undelivered_row, expired_launch, fail_expired, fail_expired_all, report_reclaims,
  announce_reclaims, stuck_ids, sweep_tables, sweep_stuck,
}

-- A row that has ended is not stuck.
ended_not_stuck :
    (now : Time) (w : Workload) (nodes : List Node)
    → w.status ≡ WorkloadState.failed
    → is_stuck now nodes w ≡ false
unfolding exists
ended_not_stuck now w [] e = refl
ended_not_stuck now w (n ∷ nodes) e = rw e (ground (arith, ended_not_stuck now w nodes e))

module _ (now : Time) (nodes : List Node) where
  -- The stuck rows that are left are those whose id is not in the list.
  fail_all-count :
      (ids : List ℕ) (s : Store)
      → count (is_stuck now nodes) (fail_all now ids s).workloads
        ≤ count (λ w. is_stuck now nodes w && not (contains w.id ids)) s.workloads
  unfolding fail_all exists
  fail_all-count [] s = count_mono _ _ s.workloads (λ w e. ground arith)
  fail_all-count (id ∷ ids) s = omega (
    arith,
    fail_all-count ids (fail_one now id s),
    count-update-le (λ w. is_stuck now nodes w && not (contains w.id ids)) (λ w. w.id == id)
        (λ w. is_stuck now nodes w && not (contains w.id (id ∷ ids))) (fail_row now) s.workloads
        (λ w e k. absurd (ground (arith, ended_not_stuck now (fail_row now w) nodes refl)))
        (λ w e k. ground arith),
  )

-- No row that `p` selects is missing from the ids of the selected rows.
all_listed :
    (p : Workload → Bool) (ws : List Workload) (keep : ℕ → Bool)
    → ((n : ℕ) → contains n (map (λ w. w.id) (select p ws)) ≡ true → keep n ≡ true)
    → count (λ w. p w && not (keep w.id)) ws ≡ 0
unfolding count select exists
all_listed p [] keep h = refl
all_listed p (w ∷ ws) keep h = elim (Bool-cases (p w)) [
  | inl e ↦
      let kept = h w.id (ground (arith, ==_refl w.id)) in
      ground (arith, all_listed p ws keep (λ n k. h n (ground arith)))
  | inr e ↦ ground (arith, all_listed p ws keep (λ n k. h n (ground arith)))
]

fail_expired-count :
    (now : Time) (nodes : List Node) (e : Option ℕ) (s : Store)
    → count (is_stuck now nodes) (fail_expired now e s).0.workloads
      ≤ count (is_stuck now nodes) s.workloads
fail_expired-count now nodes none s = omega arith
fail_expired-count now nodes (some id) s =
    elim (Bool-cases (count (is_pending_at id) s.workloads == 0)) [
      | inl e ↦ rw e (omega arith)
      | inr e ↦ rw e (
          count-update-le (is_stuck now nodes) (is_pending_at id) (is_stuck now nodes)
            (fail_undelivered_row now) s.workloads
            (λ w k q.
              absurd (ground (arith, ended_not_stuck now (fail_undelivered_row now w) nodes refl)))
            (λ w k q. q))
    ]

fail_expired_all-count :
    (now : Time) (nodes : List Node) (es : List Expired) (s : Store)
    → count (is_stuck now nodes) (fail_expired_all now es s).0.workloads
      ≤ count (is_stuck now nodes) s.workloads
unfolding fail_expired_all
fail_expired_all-count now nodes [] s = omega arith
fail_expired_all-count now nodes (e ∷ es) s = omega (
  arith,
  fail_expired-count now nodes (expired_launch e) s,
  fail_expired_all-count now nodes es (fail_expired now (expired_launch e) s).0,
)

free_leaked-none : (s : Store) → count (is_leaked (free_leaked s)) (free_leaked s).gpus ≡ 0
unfolding free_leaked
free_leaked-none s = count-update_self (is_leaked s) _ s.gpus (λ g e. refl)

-- Two stores with the same tables of workloads, GPUs and attachments.
record SameTables (s t : Store) : Type 0 where
  pub workloads : t.workloads ≡ s.workloads
  pub gpus : t.gpus ≡ s.gpus
  pub workload_gpus : t.workload_gpus ≡ s.workload_gpus

trans-SameTables : {s t u : Store} → SameTables s t → SameTables t u → SameTables s u
trans-SameTables g h = record {
  workloads = h.workloads ∙ g.workloads;
  gpus = h.gpus ∙ g.gpus;
  workload_gpus = h.workload_gpus ∙ g.workload_gpus;
}

SameTables-leaked :
    (s t : Store) → SameTables s t → count (is_leaked t) t.gpus ≡ count (is_leaked s) s.gpus
SameTables-leaked s t h =
    ap (λ ws. leaked ws t.workload_gpus t.gpus) h.workloads
    ∙ (ap (λ rows. leaked s.workloads rows t.gpus) h.workload_gpus
        ∙ ap (λ gs. leaked s.workloads s.workload_gpus gs) h.gpus)
  where
    leaked : List Workload → List WorkloadGpu → List Gpu → ℕ
    leaked ws rows gs = count (λ g. is_in_use g.status && not (exists (holds_gpu ws g.id) rows)) gs

report_reclaims-SameTables :
    (svc : Service) (ws : List Workload) (seen : List ℕ) (s : Store)
    → SameTables s (report_reclaims svc ws seen s)
unfolding report_reclaims audit_system notify
report_reclaims-SameTables svc [] seen s = record {
  workloads = refl;
  gpus = refl;
  workload_gpus = refl;
}
report_reclaims-SameTables svc (w ∷ ws) seen s =
    trans-SameTables (hinted (contains w.org_id seen))
      (report_reclaims-SameTables svc ws (w.org_id ∷ seen) _)
  where
    hinted :
        (b : Bool)
        → let t =
            audit_system svc w.org_id "system" "workload.failed" w.id (some "sweep_reclaim") s in
          SameTables s (if b then t else notify svc w.org_id ("workloads" ∷ "queue" ∷ []) t)
    hinted true = record { workloads = refl; gpus = refl; workload_gpus = refl }
    hinted false = record { workloads = refl; gpus = refl; workload_gpus = refl }

announce_reclaims-SameTables :
    (svc : Service) (stuck : List ℕ) (s : Store) → SameTables s (announce_reclaims svc stuck s)
unfolding announce_reclaims
announce_reclaims-SameTables svc stuck s =
    announced ((svc.has_audit || svc.has_publish) && ltb 0 (length stuck))
  where
    announced :
        (b : Bool)
        → SameTables s (
            if b
            then report_reclaims svc (select (λ w. contains w.id stuck) s.workloads) [] s
            else s)
    announced true =
        report_reclaims-SameTables svc (select (λ w. contains w.id stuck) s.workloads) [] s
    announced false = record { workloads = refl; gpus = refl; workload_gpus = refl }

module _ (text : String → String) (now : Time) (s : Store) where
  swept_unstuck : count (is_stuck now s.nodes) (sweep_tables text now s).0.workloads ≡ 0
  unfolding sweep_tables free_leaked expire_overdue supersede_for_terminal_workloads
  swept_unstuck = omega (
    arith,
    fail_expired_all-count now s.nodes
        (expire_overdue text now (free_leaked (fail_all now (stuck_ids now s) s))).1
        (expire_overdue text now (free_leaked (fail_all now (stuck_ids now s) s))).0,
    fail_all-count now s.nodes (stuck_ids now s) s,
    all_listed (is_stuck now s.nodes) s.workloads (λ n. contains n (stuck_ids now s)) (λ n e. e),
  )

  swept_unleaked :
      count (is_leaked (sweep_tables text now s).0) (sweep_tables text now s).0.gpus ≡ 0
  unfolding sweep_tables
  swept_unleaked =
      let freed = free_leaked (fail_all now (stuck_ids now s) s) in
      let r = expire_overdue text now freed in
      free_leaked-none (supersede_for_terminal_workloads (fail_expired_all now r.1 r.0).0).0

-- After a sweep no workload is stuck by the clock and the nodes of the sweep, and every GPU in use is
-- held by an active workload.
pub sweep_stuck-clean :
    (svc : Service) (text : String → String) (now : Time) (s : Store)
    → let s' = (sweep_stuck svc text now s).1 in
      (count (is_stuck now s.nodes) s'.workloads ≡ 0) × (count (is_leaked s') s'.gpus ≡ 0)
unfolding sweep_stuck
sweep_stuck-clean svc text now s =
    let same =
      announce_reclaims-SameTables svc (sweep_tables text now s).1 (sweep_tables text now s).0 in
    (
      rw same.workloads (swept_unstuck text now s),
      SameTables-leaked _ _ same ∙ swept_unleaked text now s,
    )
