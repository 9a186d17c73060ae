-- ===== src/Workloads/Launch/Stored.antt =====
-- The row of a launch under the events that follow it
-- (gpu-platform/internal/workloads/impl.go and events.go).
use node_hive_b2b.Prelude.{
  ℕ, ◌≡◌, refl, subst, Bool, true, false, not, ◌&&◌, String, List, [], ◌∷◌, ◌++◌, some, arith, ◌==◌,
  ==_refl, ◌∙◌, if◌then◌else◌, ap,
}
use node_hive_b2b.Domain.{is_terminal}
use node_hive_b2b.Sql.{find, count}
use node_hive_b2b.Sql.Counts.{find-count}
use node_hive_b2b.Sql.Keys.{find-append, find-updated_if, find-update_others}
use node_hive_b2b.Store.{Workload, Store}
use node_hive_b2b.Workloads.Service.{record_event}
use node_hive_b2b.Workloads.Launch.{insert_workload}

-- The workload that the caller gets is stored, with its stage, and no other row has changed.
pub record IsStored (id : ℕ) (stage : String) (rows rows' : List Workload) (w : Workload)
    : Type 0 where
  pub row : find (λ x. x.id == id) rows' ≡ some (record w { stage = stage })
  pub others :
      (k : ℕ) → (id == k) ≡ false → find (λ x. x.id == k) rows' ≡ find (λ x. x.id == k) rows

find-append_others :
    (p : Workload → Bool) (xs : List Workload) (w : Workload)
    → p w ≡ false
    → find p (xs ++ w ∷ []) ≡ find p xs
unfolding find
find-append_others p [] w h = rw h refl
find-append_others p (x ∷ xs) w h =
    ap (λ r. if p x then some x else r) (find-append_others p xs w h)

pub insert_workload-IsStored :
    (w : Workload) (s : Store)
    → count (λ (x : Workload). x.id == w.id) s.workloads ≡ 0
    → IsStored w.id w.stage s.workloads (insert_workload w s).workloads w
unfolding insert_workload find
insert_workload-IsStored w s f = record {
  row = rw (find-append (λ x. x.id == w.id) s.workloads (w ∷ []) f, ==_refl w.id) refl;
  others = λ k e. find-append_others (λ x. x.id == k) s.workloads w e;
}

pub record_event-IsStored :
    (id org_id : ℕ) (old stage message : String) (rows : List Workload) (s' : Store) (w : Workload)
    → is_terminal w.status ≡ false
    → IsStored id old rows s'.workloads w
    → IsStored id stage rows (record_event id org_id stage message s').workloads w
unfolding record_event
record_event-IsStored id org_id old stage message rows s' w live v = record {
  row =
      let here : (w.id == id && not (is_terminal w.status)) ≡ true =
        rw ((find-count (λ x. x.id == id) s'.workloads v.row).0, live) refl in
      subst
        (λ b.
          find (λ x. x.id == id) (record_event id org_id stage message s').workloads
          ≡ some (if b then record w { stage = stage } else record w { stage = old }))
        here
        (find-updated_if (λ x. x.id == id) (λ x. x.id == id && not (is_terminal x.status))
          (λ x. record x { stage = stage }) s'.workloads {a = record w { stage = old }} (λ x. refl)
          v.row);
  others = λ k e.
      find-update_others (λ x. x.id == k) (λ x. x.id == id && not (is_terminal x.status))
        (λ x. record x { stage = stage }) s'.workloads (λ x. refl) (λ x h. ground (arith, h, e))
      ∙ v.others k e;
}

-- The caller sees the row without its stage.
pub shown-IsStored :
    (id : ℕ) (stage : String) (rows rows' : List Workload) (w : Workload)
    → IsStored id stage rows rows' w
    → IsStored id stage rows rows' (record w { stage = "" })
shown-IsStored id stage rows rows' w v = record { row = v.row; others = v.others }
