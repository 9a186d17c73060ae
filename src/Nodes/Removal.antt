-- ===== src/Nodes/Removal.antt =====
-- What the removal of a node leaves (`RemoveNode` in gpu-platform/internal/nodes/repo.go).
use node_hive_b2b.Prelude.{
  ℕ, ap, ◌≡◌, ◌≢◌, refl, subst, Bool, true, false, not, ◌&&◌, ◌||◌, sym, ◌∙◌, none, arith, ltb,
  ◌==◌, Bool-cases, inl, inr, ok, or_fail, or_fail-some, bind-ok, guard-ok, same_ok, holds_id,
}
use node_hive_b2b.Domain.{WorkloadState}
use node_hive_b2b.Sql.{select, update, count, find}
use node_hive_b2b.Sql.Counts.{count-update, find-count, update_none}
use node_hive_b2b.Sql.Deletes.{count-deleted, count-update_as}
use node_hive_b2b.Store.{Store}
use node_hive_b2b.Workloads.Invariant.{Inv, active_at}
use node_hive_b2b.Nodes.{
  Fleet, not_found, node_busy, is_node, is_node_of, is_live_of, is_live_key, revoke_all,
  authenticate_agent,
}
use node_hive_b2b.Nodes.Remove.{
  RemoveResult, is_active_on, fail_removed_row, fail_node_workloads, delete_node, fail_if_active,
  remove_node,
}
use node_hive_b2b.Nodes.Remove.Keeps.{IsLocal, delete_node-Inv, fail_if_active-Inv}

abbrev pub has_failed : WorkloadState → Bool
has_failed WorkloadState.queued = false
has_failed WorkloadState.pending = false
has_failed WorkloadState.running = false
has_failed WorkloadState.stopping = false
has_failed WorkloadState.stopped = false
has_failed WorkloadState.failed = true

-- What the removal leaves.
pub record Removes (node_id : ℕ) (force : Bool) (f : Fleet) (res : RemoveResult) (g : Fleet)
    : Type 0 where
  pub no_node : count (is_node node_id) g.store.nodes ≡ 0
  pub no_gpus : count (λ x. x.node_id == node_id) g.store.gpus ≡ 0
  pub no_commands : count (λ c. c.node_id == node_id) g.store.commands ≡ 0
  pub no_access : (key org_id : ℕ) → authenticate_agent key g ≢ ok (node_id, org_id)
  pub unforced : force ≡ false → res.active_workloads ≡ 0
  pub reported : res.failed_workloads ≡ count (is_active_on node_id) f.store.workloads
  pub failed :
      (w : ℕ)
      → count (λ x. x.id == w && has_failed x.status) g.store.workloads
        ≡ count
            (λ x. x.id == w && (has_failed x.status || is_active_on node_id x))
            f.store.workloads
  pub others :
      (w : ℕ)
      → count (active_at w) g.store.workloads
        ≡ count (λ x. active_at w x && not (is_active_on node_id x)) f.store.workloads
  pub keeps : Inv g.store

-- The statuses that are left.
module _ (now node_id : ℕ) (s : Store) where
  deleted_active :
      (w : ℕ)
      → count (active_at w) (delete_node node_id s).workloads ≡ count (active_at w) s.workloads
  unfolding delete_node
  deleted_active w =
      count-update (active_at w) (λ x. holds_id x.node_id node_id)
        (λ x. record x { node_id = none }) s.workloads (λ x e. refl)

  deleted_failed :
      (w : ℕ)
      → count (λ x. x.id == w && has_failed x.status) (delete_node node_id s).workloads
        ≡ count (λ x. x.id == w && has_failed x.status) s.workloads
  unfolding delete_node
  deleted_failed w =
      count-update (λ x. x.id == w && has_failed x.status) (λ x. holds_id x.node_id node_id)
        (λ x. record x { node_id = none }) s.workloads (λ x e. refl)

  -- The active workloads of the node are failed, all others stay as they are.
  failed_rows :
      (fail_if_active now node_id s).workloads
      ≡ update (is_active_on node_id) (fail_removed_row now) s.workloads
  unfolding fail_if_active fail_node_workloads
  failed_rows = elim (Bool-cases (ltb 0 (count (is_active_on node_id) s.workloads))) [
    | inl e ↦ rw e refl
    | inr e ↦
        rw e (
          sym
            (update_none (is_active_on node_id) (fail_removed_row now) s.workloads (ground arith)))
  ]

  failed_ones :
      (w : ℕ)
      → count (λ x. x.id == w && has_failed x.status) (fail_if_active now node_id s).workloads
        ≡ count (λ x. x.id == w && (has_failed x.status || is_active_on node_id x)) s.workloads
  failed_ones w = rw failed_rows (
      count-update_as (λ x. x.id == w && has_failed x.status)
        (λ x. x.id == w && (has_failed x.status || is_active_on node_id x)) (is_active_on node_id)
        (fail_removed_row now) s.workloads (λ x e. ground (arith, e)) (λ x e. ground (arith, e)))

  left_active :
      (w : ℕ)
      → count (active_at w) (fail_if_active now node_id s).workloads
        ≡ count (λ x. active_at w x && not (is_active_on node_id x)) s.workloads
  left_active w = rw failed_rows (
      count-update_as (active_at w) (λ x. active_at w x && not (is_active_on node_id x))
        (is_active_on node_id) (fail_removed_row now) s.workloads (λ x e. ground (arith, e))
        (λ x e. ground (arith, e)))

no_node_access :
    (node_id : ℕ) (f : Fleet) (key org_id : ℕ)
    → count (is_node node_id) f.store.nodes ≡ 0
    → authenticate_agent key f ≢ ok (node_id, org_id)
unfolding authenticate_agent
no_node_access node_id f key org_id none_left e =
    let (c, _, rest) = bind-ok (or_fail (find (is_live_key key) f.credentials) not_found) e in
    let (n, found, done) =
      bind-ok (or_fail (find (is_node c.node_id) f.store.nodes) not_found) rest in
    let at_c = find-count (is_node c.node_id) f.store.nodes (or_fail-some _ not_found found) in
    let ids : n.id ≡ node_id = ap (λ p. p.0) (same_ok refl done) in
    let key_of : c.node_id ≡ node_id = ground (arith, at_c.0, ids) in
    omega (arith, none_left, (rw key_of at (at_c.1)))

module _ (now node_id : ℕ) (force : Bool) (f : Fleet) where
  abbrev active : ℕ
  active = count (is_active_on node_id) f.store.workloads

  abbrev removed : Fleet
  removed = record f {
    store = delete_node node_id (fail_if_active now node_id f.store);
    credentials = select (λ c. not (c.node_id == node_id)) (revoke_all now node_id f.credentials);
  }

  abbrev result : RemoveResult
  result = record {
    active_workloads = active;
    failed_workloads = active;
    credentials_revoked = count (is_live_of node_id) f.credentials;
  }

  no_node_left : count (is_node node_id) removed.store.nodes ≡ 0
  unfolding delete_node
  no_node_left =
      count-deleted (is_node node_id) (is_node node_id) (fail_if_active now node_id f.store).nodes
        (λ n e. e)

  no_gpu_left : count (λ x. x.node_id == node_id) removed.store.gpus ≡ 0
  unfolding delete_node
  no_gpu_left =
      count-deleted (λ x. x.node_id == node_id) (λ x. x.node_id == node_id)
        (fail_if_active now node_id f.store).gpus (λ n e. e)

  no_command_left : count (λ c. c.node_id == node_id) removed.store.commands ≡ 0
  unfolding delete_node
  no_command_left =
      count-deleted (λ c. c.node_id == node_id) (λ c. c.node_id == node_id)
        (fail_if_active now node_id f.store).commands (λ n e. e)

  removed_as :
      Inv f.store
      → IsLocal node_id f.store
      → not (ltb 0 active && not force) ≡ true
      → Removes node_id force f result removed
  removed_as v l idle = record {
    no_node = no_node_left;
    no_gpus = no_gpu_left;
    no_commands = no_command_left;
    no_access = λ key org_id. no_node_access node_id removed key org_id no_node_left;
    unforced = λ e. ground (arith, idle);
    reported = refl;
    failed = λ w.
        deleted_failed now node_id (fail_if_active now node_id f.store) w
        ∙ failed_ones now node_id f.store w;
    others = λ w.
        deleted_active now node_id (fail_if_active now node_id f.store) w
        ∙ left_active now node_id f.store w;
    keeps =
        delete_node-Inv now node_id (fail_if_active now node_id f.store)
          (fail_if_active-Inv now node_id f.store v l);
  }

-- A removal that succeeds leaves no trace of the node: no GPU, no command, and no credential that
-- authenticates it. Without force no active workload was on it. The workloads that were active on it
-- have failed, as many as are reported; no other workload has failed by it, and the other active ones
-- stay active. The invariant of workloads, GPUs and attachments is kept, when the workloads on the node
-- hold GPUs of the node only.
pub remove_node-Removes :
    (now org_id node_id : ℕ) (force : Bool) (f g : Fleet) (res : RemoveResult)
    → Inv f.store
    → IsLocal node_id f.store
    → remove_node now org_id node_id force f ≡ ok (res, g)
    → Removes node_id force f res g
unfolding remove_node
remove_node-Removes now org_id node_id force f g res v l e =
    let (n, _, rest) =
      bind-ok (or_fail (find (is_node_of org_id node_id) f.store.nodes) not_found) e in
    let (idle, done) =
      guard-ok (not (ltb 0 (count (is_active_on node_id) f.store.workloads) && not force)) node_busy
        rest in
    subst (λ x. Removes node_id force f x.0 x.1) (same_ok refl done)
      (removed_as now node_id force f v l idle)
