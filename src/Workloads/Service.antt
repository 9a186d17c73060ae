-- ===== src/Workloads/Service.antt =====
-- What the operations of the Workloads service share: its wiring, its errors, its realtime and audit
-- hooks, and the lifecycle events (gpu-platform/internal/workloads/impl.go, events.go).
use node_hive_b2b.Prelude.{
  ℕ, Bool, not, ◌&&◌, String, List, [], ◌∷◌, ◌++◌, Option, ◌==◌, if◌then◌else◌, str_eq,
}
use node_hive_b2b.Text.{Text}
use node_hive_b2b.Domain.{is_terminal}
use node_hive_b2b.Sql.{update}
use node_hive_b2b.Store.{Store, publish, audit}
use node_hive_b2b.Billing.{AdmissionError}
use node_hive_b2b.Workloads.Request.{InvalidRequest}

-- The `Biller` seam's admission check: organization, department, project.
abbrev pub Authorize : Type 0
Authorize = ℕ → Option ℕ → Option ℕ → Option AdmissionError

-- `ServiceImpl`: the optional collaborators, and two functions that the repository does not define,
-- `model ILIKE '%text%'` of PostgreSQL and the hexadecimal digits of a UUID.
pub record Service : Type 0 where
  pub billing : Option Authorize
  pub has_audit : Bool
  pub has_publish : Bool
  pub ilike_contains : String → String → Bool
  pub uuid_hex : ℕ → Text

pub data Error : Type 0 where
  invalid_request : InvalidRequest → Error
  refused : AdmissionError → Error
  not_found no_gpus_available not_queued : Error
  unique_violation claim_raced : Error

unfoldable pub notify : Service → ℕ → List String → Store → Store
notify svc org_id topics s = record s {
  effects = if svc.has_publish then publish org_id topics ∷ s.effects else s.effects;
}

unfoldable pub audit_system : Service → ℕ → String → String → ℕ → Option String → Store → Store
audit_system svc org_id actor_type action workload_id reason s = record s {
  effects =
      if svc.has_audit
      then audit org_id actor_type action workload_id reason ∷ s.effects
      else s.effects;
}

-- `recordEvent`: a timeline row, and the stage of a workload that is not terminal.
unfoldable pub record_event : ℕ → ℕ → String → String → Store → Store
record_event workload_id org_id stage message s = record s {
  events =
      s.events
      ++ record { workload_id = workload_id; org_id = org_id; stage = stage; message = message }
        ∷ [];
  workloads =
      update (λ w. w.id == workload_id && not (is_terminal w.status))
        (λ w. record w { stage = stage }) s.workloads;
}

-- `COALESCE(NULLIF(new, ''), old)`.
abbrev pub keep_if_empty : String → String → String
keep_if_empty new old = if str_eq new "" then old else new
