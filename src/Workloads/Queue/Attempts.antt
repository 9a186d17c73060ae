-- ===== src/Workloads/Queue/Attempts.antt =====
-- What one attempt at a promotion leaves (gpu-platform/internal/workloads/queue.go).
use node_hive_b2b.Prelude.{
  ℕ, ◌<◌, ◌≡◌, refl, sym, subst, Bool, true, false, String, List, [], ◌∷◌, some, arith, ◌==◌, ap,
  ◌++◌, append-nil, ==_iff, Bool-cases, Option-cases, inl, inr, &&_true, ok,
}
use node_hive_b2b.Sql.{count}
use node_hive_b2b.Sql.Counts.{
  count-update-le, count-le-update, count-update_self, count_mono, count-find,
}
use node_hive_b2b.Store.{Workload, Command, Store, nudge}
use node_hive_b2b.Workloads.Service.{Service, notify, record_event}
use node_hive_b2b.Workloads.Place.{Placement, place, attach}
use node_hive_b2b.Workloads.Place.Claims.{IsSound, place-IsSound}
use node_hive_b2b.Workloads.Place.Attach.{attached, attach-ok, attached-Inv}
use node_hive_b2b.Workloads.Outbox.{enqueue_launch}
use node_hive_b2b.Workloads.Launch.Commits.{enqueue_launch-Inv}
use node_hive_b2b.Workloads.Invariant.{Inv, of_workload, active_at, queued_at}
use node_hive_b2b.Workloads.Invariant.Frame.{record_event-Inv, notify-Inv, emit-Inv}
use node_hive_b2b.Workloads.Queue.{
  can_dequeue, Attempt, promote_row, mark_promoted, announce_promotion, commit_promotion,
  promote_placed, promote_one,
}
use node_hive_b2b.Workloads.Queue.Launches.{IsLaunch, Sends}

module _ (id node_id : ℕ) (s : Store) (v : Inv s) where
  mark_promoted-Inv : Inv (mark_promoted id node_id s)
  mark_promoted-Inv = record {
    gpu_keys = v.gpu_keys;
    one_active = v.one_active;
    idle_free = v.idle_free;
    held = λ w h. omega (
      arith,
      count-le-update (active_at w) (can_dequeue id) (active_at w) (promote_row node_id) s.workloads
          (λ x e k. ground arith) (λ x e k. k),
      v.held w h,
    );
    queued_unplaced = λ w h. v.queued_unplaced w (
        omega (
          arith,
          count-update-le (queued_at w) (can_dequeue id) (queued_at w) (promote_row node_id)
              s.workloads (λ x e k. absurd (ground arith)) (λ x e k. k),
        ));
  }

  mark_promoted-active :
      0 < count (can_dequeue id) s.workloads
      → 0 < count (active_at id) (mark_promoted id node_id s).workloads
  mark_promoted-active h = omega (
    arith,
    h,
    count-le-update (active_at id) (can_dequeue id) (can_dequeue id) (promote_row node_id)
        s.workloads (λ x e k. ground arith) (λ x e k. absurd (ground arith)),
  )

  mark_promoted-unqueued : count (queued_at id) (mark_promoted id node_id s).workloads ≡ 0
  mark_promoted-unqueued =
      count-update_self (can_dequeue id) (promote_row node_id) s.workloads (λ x e. ground arith)

-- What one attempt at a promotion leaves.
pub record Attempts (t : Attempt) (id : ℕ) (s : Store) (r : Bool × Store) : Type 0 where
  pub keeps : Inv r.1
  pub launched : List Command
  pub appended : r.1.commands ≡ s.commands ++ launched
  pub sends : Sends t id r.0 launched

module _ (svc : Service) (t : Attempt) (org_id id : ℕ) (s : Store) (v : Inv s) where
  attached_promoted :
      (p : Placement) (n : ℕ)
      → IsSound t.locked n s.gpus id p
      → 0 < count (can_dequeue id) s.workloads
      → (attach p (mark_promoted id p.node_id s) ≡ ok (attached p (mark_promoted id p.node_id s)))
        × Inv (attached p (mark_promoted id p.node_id s))
  attached_promoted p n sound waiting =
      let m = mark_promoted id p.node_id s in
      let v_m = mark_promoted-Inv id p.node_id s v in
      (
        attach-ok p m v_m
            (subst (λ k. count (of_workload k) s.workload_gpus ≡ 0) (sym sound.for_workload)
              (v.queued_unplaced id waiting))
            sound.claimed,
        attached-Inv p m v_m sound.claimed
            (subst (λ k. 0 < count (active_at k) m.workloads) (sym sound.for_workload)
              (mark_promoted-active id p.node_id s v waiting))
            (subst (λ k. count (queued_at k) m.workloads ≡ 0) (sym sound.for_workload)
              (mark_promoted-unqueued id p.node_id s v)),
      )

  row_left :
      (p : Placement)
      → 0 < count (can_dequeue id) s.workloads
      → 0 < count (λ x. x.id == id) (mark_promoted id p.node_id s).workloads
  row_left p waiting = omega (
    arith,
    mark_promoted-active id p.node_id s v waiting,
    count_mono (active_at id) (λ x. x.id == id) (mark_promoted id p.node_id s).workloads
        (λ x e. (&&_true _ _ e).0),
  )

  commit-Inv :
      (p : Placement) (w : Workload) (a : Store)
      → Inv a
      → Inv (commit_promotion svc t org_id id p w a)
  unfolding announce_promotion
  commit-Inv p w a v_a = emit-Inv (nudge p.node_id) _ (
      notify-Inv svc org_id ("workloads" ∷ "queue" ∷ []) _ (
        record_event-Inv id org_id "preparing" "" _ (
          record_event-Inv id org_id "node_selected" "promoted from queue" _ (
            enqueue_launch-Inv t.now t.command_id (record w { node_id = some p.node_id }) p a
              v_a))))

  commit-commands :
      (p : Placement) (w : Workload) (a : Store)
      → w.id ≡ id
      → (c : Command) × ((commit_promotion svc t org_id id p w a).commands ≡ a.commands ++ c ∷ [])
        × (c.id ≡ t.command_id)
        × (c.workload_id ≡ some id)
        × IsLaunch c
  unfolding announce_promotion notify record_event enqueue_launch
  commit-commands p w a e = (
    _,
    refl,
    refl,
    ap some e,
    record {
      kind = refl;
      spec = _;
      payload = refl;
      of_workload = refl;
      status = refl;
      attempts = refl;
      due = refl;
      deadline = refl;
    },
  )

  idle-Attempts : Attempts t id s (false, s)
  idle-Attempts = record {
    keeps = v;
    launched = [];
    appended = sym (append-nil s.commands);
    sends = refl;
  }

  promote_placed-ok :
      (p : Placement) (n : ℕ)
      → IsSound t.locked n s.gpus id p
      → (r : Bool × Store) × (promote_placed svc t org_id id p s ≡ ok r) × Attempts t id s r
  unfolding promote_placed
  promote_placed-ok p n sound = elim (Bool-cases (count (can_dequeue id) s.workloads == 0)) [
    | inl e ↦ ((false, s), rw e refl, idle-Attempts)
    | inr e ↦
        let waiting : 0 < count (can_dequeue id) s.workloads = ground arith in
        let (ok_m, v_m) = attached_promoted p n sound waiting in
        let (w, f, k) =
          count-find (λ x. x.id == id) (attached p (mark_promoted id p.node_id s)).workloads
            (row_left p waiting) in
        let keyed : w.id ≡ id = (==_iff w.id id).0 k in
        let (c, stored, drawn, of_id, launch) =
          commit-commands p w (attached p (mark_promoted id p.node_id s)) keyed in
        (
          (true, commit_promotion svc t org_id id p w (attached p (mark_promoted id p.node_id s))),
          rw (e, ok_m, f) refl,
          record {
            keeps = commit-Inv p w _ v_m;
            launched = c ∷ [];
            appended = stored;
            sends = (c, refl, drawn, of_id, launch);
          },
        )
  ]

  -- An attempt never fails, and keeps the invariant.
  pub promote_one-ok :
      (gpu_type : String) (n : ℕ)
      → (r : Bool × Store) × (promote_one svc t org_id id gpu_type n s ≡ ok r) × Attempts t id s r
  unfolding promote_one
  promote_one-ok gpu_type n =
      elim (Option-cases (place svc t.locked t.scanned org_id id gpu_type n s)) [
        | inl e ↦ ((false, s), rw e refl, idle-Attempts)
        | inr (p, e) ↦
            let (r, f, g) =
              promote_placed-ok p n
                (place-IsSound svc t.locked t.scanned org_id id gpu_type n s v.gpu_keys e) in
            (r, rw e f, g)
      ]
