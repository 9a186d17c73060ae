-- ===== src/Workloads/Queue/Promote.antt =====
-- Promotions and the invariant (gpu-platform/internal/workloads/queue.go).
use node_hive_b2b.Prelude.{
  ℕ, suc, ◌≡◌, refl, sym, Bool, true, false, List, [], ◌∷◌, none, some, length, map, ap, ◌∙◌, ◌++◌,
  append-nil, append_assoc, All, inl, inr, Result-cases,
}
use node_hive_b2b.Prelude.Int.{pos_part}
use node_hive_b2b.Store.{Workload, Command, Store}
use node_hive_b2b.Workloads.Service.{Service}
use node_hive_b2b.Workloads.Launch.{admit}
use node_hive_b2b.Workloads.Invariant.{Inv}
use node_hive_b2b.Workloads.Queue.{
  Attempt, Promotion, promote_loop, promote_queued, promote_orgs, promote_all_queued, queue_of,
  add_promoted,
}
use node_hive_b2b.Workloads.Queue.Launches.{IsLaunch, AreDrawn, AreDrawn-next}
use node_hive_b2b.Prelude.Sublists.{Sublist, dropped, kept, Sublist-prefix}
use node_hive_b2b.Workloads.Queue.Attempts.{Attempts, promote_one-ok}

-- What a round of promotions leaves.
pub record Rounds (attempts : ℕ → Attempt) (i : ℕ) (queue : List Workload) (s : Store)
    (r : Promotion) : Type 0 where
  pub no_error : r.error ≡ none
  pub keeps : Inv r.store
  pub launched : List Command
  pub appended : r.store.commands ≡ s.commands ++ launched
  pub one_each : length launched ≡ r.promoted
  pub in_turn : Sublist (map (λ c. c.workload_id) launched) (map (λ w. some w.id) queue)
  pub launches : All IsLaunch launched
  pub drawn : AreDrawn attempts i launched

Rounds-stop :
    (attempts : ℕ → Attempt) (i : ℕ) (queue : List Workload) (s : Store)
    → Inv s
    → Rounds attempts i queue s (record { promoted = 0; error = none; store = s })
Rounds-stop attempts i queue s v = record {
  no_error = refl;
  keeps = v;
  launched = [];
  appended = sym (append-nil s.commands);
  one_each = refl;
  in_turn = Sublist-prefix [] (map (λ w. some w.id) queue);
  launches = tt;
  drawn = tt;
}

-- An attempt, and the rounds after it.
Rounds-next :
    (attempts : ℕ → Attempt) (i : ℕ) (w : Workload) (queue : List Workload) (s s1 : Store)
    (b : Bool) (r : Promotion)
    → Attempts (attempts i) w.id s (b, s1)
    → Rounds attempts (suc i) queue s1 r
    → Rounds attempts i (w ∷ queue) s (add_promoted b r)
Rounds-next attempts i w queue s s1 false r g n = record {
  no_error = n.no_error;
  keeps = n.keeps;
  launched = g.launched ++ n.launched;
  appended = n.appended ∙ (ap (λ c. c ++ n.launched) g.appended ∙ append_assoc s.commands _ _);
  one_each = rw (g.sends) n.one_each;
  in_turn = rw (g.sends) (dropped (some w.id) n.in_turn);
  launches = rw (g.sends) n.launches;
  drawn = AreDrawn-next attempts i w.id false g.launched n.launched g.sends n.drawn;
}
Rounds-next attempts i w queue s s1 true r g n =
    let (c, e, _, of_w, launch) = g.sends in
    record {
      no_error = n.no_error;
      keeps = n.keeps;
      launched = g.launched ++ n.launched;
      appended = n.appended ∙ (ap (λ c. c ++ n.launched) g.appended ∙ append_assoc s.commands _ _);
      one_each = rw e (ap suc n.one_each);
      in_turn = rw (e, of_w) (kept (some w.id) n.in_turn);
      launches = rw e (launch, n.launches);
      drawn = AreDrawn-next attempts i w.id true g.launched n.launched g.sends n.drawn;
    }

pub promote_loop-Rounds :
    (svc : Service) (attempts : ℕ → Attempt) (i org_id : ℕ) (cs : List Workload) (s : Store)
    → Inv s
    → Rounds attempts i cs s (promote_loop svc attempts i org_id cs s)
unfolding promote_loop
promote_loop-Rounds svc attempts i org_id [] s v = Rounds-stop attempts i [] s v
promote_loop-Rounds svc attempts i org_id (c ∷ cs) s v =
    elim (Result-cases (admit svc.billing org_id c.department_id c.project_id)) [
      | inr (e, h) ↦ rw h (Rounds-stop attempts i (c ∷ cs) s v)
      | inl (u, h) ↦
          let ((b, s1), f, g) =
            promote_one-ok svc (attempts i) org_id c.id s v c.requested_gpu_type
              (pos_part c.requested_gpu_count) in
          rw (h, f)
            (Rounds-next attempts i c cs s s1 b _ g
              (promote_loop-Rounds svc attempts (suc i) org_id cs s1 g.keeps))
    ]

-- A round of promotions, whatever the attempts draw.
pub promote_queued-keeps :
    (svc : Service) (attempts : ℕ → Attempt) (org_id : ℕ) (s : Store)
    → Inv s
    → Rounds attempts 0 (queue_of org_id s) s (promote_queued svc attempts org_id s)
unfolding promote_queued
promote_queued-keeps svc attempts org_id s v =
    promote_loop-Rounds svc attempts 0 org_id (queue_of org_id s) s v

promote_orgs-keeps :
    (svc : Service) (attempts : ℕ → ℕ → Attempt) (orgs : List ℕ) (s : Store)
    → Inv s
    → ((promote_orgs svc attempts orgs s).error ≡ none)
      × Inv (promote_orgs svc attempts orgs s).store
unfolding promote_orgs
promote_orgs-keeps svc attempts [] s v = (refl, v)
promote_orgs-keeps svc attempts (o ∷ os) s v =
    let r = promote_queued-keeps svc (attempts o) o s v in
    let (e, k) =
      promote_orgs-keeps svc attempts os (promote_queued svc (attempts o) o s).store r.keeps in
    rw r.no_error (e, k)

-- The sweep over all orgs never ends with an error, and keeps the invariant.
pub promote_all_queued-keeps :
    (svc : Service) (attempts : ℕ → ℕ → Attempt) (s : Store)
    → Inv s
    → let r = promote_all_queued svc attempts s in (r.error ≡ none) × Inv r.store
unfolding promote_all_queued
promote_all_queued-keeps svc attempts s v = promote_orgs-keeps svc attempts _ s v
