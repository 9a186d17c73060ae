-- ===== src/Workloads/Status/Duplicate.antt =====
-- Repeated reports of a workload's end (`UpdateStatus` in gpu-platform/internal/workloads/impl.go).
use node_hive_b2b.Prelude.{
  ℕ, ◌≡◌, refl, ◌∙◌, sym, Bool, true, not, String, some, arith, ◌==◌, ◌&&◌, Bool-cases, inl, inr,
  subst, ok, Result-cases, same_ok, not_ok_and_err, holds_id, Option-cases, ap, ==_iff,
}
use node_hive_b2b.Domain.{WorkloadState, is_terminal}
use node_hive_b2b.Sql.{count, update, find}
use node_hive_b2b.Sql.Counts.{count-update, count-update_self, find-update, find-count}
use node_hive_b2b.Store.{Time, Workload, Store}
use node_hive_b2b.Workloads.Service.{Service, not_found, record_event}
use node_hive_b2b.Workloads.Status.{
  can_end, end_row, mark_ended, report_ended, report, require_workload_on_node, update_status,
}
use node_hive_b2b.Workloads.Status.Final.{ended_tables, report_ended-workloads}

-- The row that a report finds.
pub record Finds (node_id id : ℕ) (s : Store) (w : Workload) : Type 0 where
  pub found : find (λ (x : Workload). x.id == id) s.workloads ≡ some w
  pub keyed : w.id ≡ id
  pub on_node : holds_id w.node_id node_id ≡ true

pub required-Finds :
    (node_id id : ℕ) (s : Store) (w : Workload)
    → require_workload_on_node node_id id s ≡ ok w
    → Finds node_id id s w
unfolding require_workload_on_node
required-Finds node_id id s w e =
    elim (Option-cases (find (λ (x : Workload). x.id == id) s.workloads)) [
      | inl n ↦ not_ok_and_err {e = not_found} e (rw n refl)
      | inr (x, h) ↦ elim (Bool-cases (holds_id x.node_id node_id)) [
        | inl k ↦
            let q : x ≡ w = same_ok (rw (h, k) refl) e in
            subst (Finds node_id id s) q (record {
              found = h;
              keyed = (==_iff x.id id).0 (find-count _ s.workloads h).0;
              on_node = k;
            })
        | inr k ↦ not_ok_and_err {e = not_found} e (rw (h, k) refl)
      ]
    ]

Finds-required :
    (node_id id : ℕ) (s : Store) (w : Workload)
    → Finds node_id id s w
    → require_workload_on_node node_id id s ≡ ok w
unfolding require_workload_on_node
Finds-required node_id id s w f = rw (f.found, f.on_node) refl

-- After an update of other columns the row is still found.
update-Finds :
    (node_id id : ℕ) (s s' : Store) (w : Workload) (q : Workload → Bool) (f : Workload → Workload)
    → ((x : Workload) → (f x).id ≡ x.id)
    → ((x : Workload) → (f x).node_id ≡ x.node_id)
    → s'.workloads ≡ update q f s.workloads
    → Finds node_id id s w
    → (v : Workload) × Finds node_id id s' v
update-Finds node_id id s s' w q f i n e g =
    let (b, h, o) =
      find-update (λ (x : Workload). x.id == id) q f s.workloads {a = w} (λ x. rw (i x) refl)
        g.found in
    elim o [
      | inl k ↦ (b, record { found = rw e h; keyed = rw k g.keyed; on_node = rw k g.on_node })
      | inr k ↦ (
        b,
        record { found = rw e h; keyed = rw (k, i w) g.keyed; on_node = rw (k, n w) g.on_node },
      )
    ]

-- The row is found again after the transaction that ends it, and has ended.
ended_tables-Finds :
    (now : Time) (node_id id : ℕ) (w : Workload) (state : WorkloadState) (stage logs : String)
    (s : Store)
    → is_terminal state ≡ true
    → Finds node_id id s w
    → let s' = ended_tables w state stage logs now s in
      ((v : Workload) × Finds node_id id s' v) × (count (can_end w.id) s'.workloads ≡ 0)
unfolding record_event
ended_tables-Finds now node_id id w state stage logs s t f =
    let (v, g) =
      update-Finds node_id id s (mark_ended w.id state logs now s) w (can_end w.id)
        (end_row state logs now) (λ x. refl) (λ x. refl) refl f in
    (
      update-Finds node_id id (mark_ended w.id state logs now s)
          (ended_tables w state stage logs now s) v
          (λ x. x.id == w.id && not (is_terminal x.status)) (λ x. record x { stage = stage })
          (λ x. refl) (λ x. refl) refl g,
      count-update (can_end w.id) _ _ (mark_ended w.id state logs now s).workloads (λ x e. refl)
          ∙ count-update_self (can_end w.id) (end_row state logs now) s.workloads
              (λ x e. ground arith),
    )

-- What a report of the end leaves: the row is found again, and has ended.
ended-Finds :
    (svc : Service) (now : Time) (node_id id : ℕ) (w : Workload) (state : WorkloadState)
    (stage action logs : String) (s : Store)
    → is_terminal state ≡ true
    → Finds node_id id s w
    → let s' = report_ended svc now w state stage action logs s in
      ((v : Workload) × Finds node_id id s' v) × (count (can_end w.id) s'.workloads ≡ 0)
ended-Finds svc now node_id id w state stage action logs s t f =
    elim (Bool-cases (count (can_end w.id) s.workloads == 0)) [
      | inl e ↦
          let same : s'.workloads ≡ s.workloads =
            rw e at (report_ended-workloads svc now w state stage action logs s) in
          (
            (w, record { found = rw same f.found; keyed = f.keyed; on_node = f.on_node }),
            rw same (ground arith),
          )
      | inr e ↦
          let same : s'.workloads ≡ (ended_tables w state stage logs now s).workloads =
            rw e at (report_ended-workloads svc now w state stage action logs s) in
          let ((v, g), z) = ended_tables-Finds now node_id id w state stage logs s t f in
          ((v, record { found = rw same g.found; keyed = g.keyed; on_node = g.on_node }), rw same z)
    ]
  where
    s' : Store
    s' = report_ended svc now w state stage action logs s

-- Reporting the end of a workload that has ended changes nothing.
ended_again :
    (svc : Service) (now : Time) (w : Workload) (state : WorkloadState) (stage action logs : String)
    (s : Store)
    → count (can_end w.id) s.workloads ≡ 0
    → report_ended svc now w state stage action logs s ≡ s
unfolding report_ended
ended_again svc now w state stage action logs s z = rw z refl

report_end-Finds :
    (svc : Service) (now : Time) (cmd_id node_id id : ℕ) (w : Workload) (state : WorkloadState)
    (ssh jupyter logs : String) (s : Store)
    → is_terminal state ≡ true
    → Finds node_id id s w
    → let s' = report svc now cmd_id node_id w state ssh jupyter logs s in
      ((v : Workload) × Finds node_id id s' v) × (count (can_end w.id) s'.workloads ≡ 0)
unfolding report
report_end-Finds svc now cmd_id node_id id w WorkloadState.queued ssh jupyter logs s t f = cc
report_end-Finds svc now cmd_id node_id id w WorkloadState.pending ssh jupyter logs s t f = cc
report_end-Finds svc now cmd_id node_id id w WorkloadState.running ssh jupyter logs s t f = cc
report_end-Finds svc now cmd_id node_id id w WorkloadState.stopping ssh jupyter logs s t f = cc
report_end-Finds svc now cmd_id node_id id w WorkloadState.stopped ssh jupyter logs s t f =
    ended-Finds svc now node_id id w _ "stopped" "workload.stopped" logs s refl f
report_end-Finds svc now cmd_id node_id id w WorkloadState.failed ssh jupyter logs s t f =
    ended-Finds svc now node_id id w _ "failed" "workload.failed" logs s refl f

report_end_again :
    (svc : Service) (now : Time) (cmd_id node_id : ℕ) (w : Workload) (state : WorkloadState)
    (ssh jupyter logs : String) (s : Store)
    → is_terminal state ≡ true
    → count (can_end w.id) s.workloads ≡ 0
    → report svc now cmd_id node_id w state ssh jupyter logs s ≡ s
unfolding report
report_end_again svc now cmd_id node_id w WorkloadState.queued ssh jupyter logs s t z = cc
report_end_again svc now cmd_id node_id w WorkloadState.pending ssh jupyter logs s t z = cc
report_end_again svc now cmd_id node_id w WorkloadState.running ssh jupyter logs s t z = cc
report_end_again svc now cmd_id node_id w WorkloadState.stopping ssh jupyter logs s t z = cc
report_end_again svc now cmd_id node_id w WorkloadState.stopped ssh jupyter logs s t z =
    ended_again svc now w _ _ _ logs s z
report_end_again svc now cmd_id node_id w WorkloadState.failed ssh jupyter logs s t z =
    ended_again svc now w _ _ _ logs s z

-- A second report of a workload's end, of whichever of the two states, is accepted and changes
-- nothing: no second audit record, promotion, settlement or detachment.
pub update_status_twice :
    (svc : Service) (now later : Time) (cmd_id cmd_id' node_id id : ℕ)
    (first second : WorkloadState) (ssh jupyter logs ssh' jupyter' logs' : String) (s s' : Store)
    → is_terminal first ≡ true
    → is_terminal second ≡ true
    → update_status svc now cmd_id node_id id first ssh jupyter logs s ≡ ok s'
    → update_status svc later cmd_id' node_id id second ssh' jupyter' logs' s' ≡ ok s'
unfolding update_status
update_status_twice svc now later cmd_id cmd_id' node_id id first second ssh jupyter logs ssh'
      jupyter' logs' s s' t u e =
    elim (Result-cases (require_workload_on_node node_id id s)) [
      | inl (w, h) ↦
          let f = required-Finds node_id id s w h in
          let q : report svc now cmd_id node_id w first ssh jupyter logs s ≡ s' =
            same_ok (rw h refl) e in
          let ((v, g), z) =
            report_end-Finds svc now cmd_id node_id id w first ssh jupyter logs s t f in
          let ended : count (can_end v.id) s'.workloads ≡ 0 = rw (g.keyed, sym f.keyed, sym q) z in
          rw (Finds-required node_id id s' v (subst (λ r. Finds node_id id r v) q g)) (
            ap ok
              (report_end_again svc later cmd_id' node_id v second ssh' jupyter' logs' s' u ended))
      | inr (x, h) ↦ not_ok_and_err {e = x} e (rw h refl)
    ]
