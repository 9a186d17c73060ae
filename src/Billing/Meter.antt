-- ===== src/Billing/Meter.antt =====
-- Metering: `MeterWorkload` and `MeterRunning` in gpu-platform/internal/billing/impl.go.
pub mod Slices
use node_hive_b2b.Prelude.{
  ℕ, ◌+◌, ◌-◌, ◌*◌, ◌/◌, Bool, true, false, not, ◌&&◌, ◌||◌, String, List, [], ◌∷◌, ◌++◌, map,
  Option, none, some, ltb, leb, ◌==◌, if◌then◌else◌, coalesce, str_eq,
}
use node_hive_b2b.Prelude.Int.{ℤ, pos, ◌-ℤ◌}
use node_hive_b2b.Domain.{WorkloadState, is_terminal}
use node_hive_b2b.Sql.{select, update, find, exists, order_by}
use node_hive_b2b.Store.{Time, second, minute, Workload, WorkloadGpu, Gpu, Store}
use node_hive_b2b.Billing.Ledger.{Ledger, post_ledger}

abbrev pub meter_min_slice : Time
meter_min_slice = 5 * minute

abbrev pub later_of : Time → Option Time → Time
later_of t none = t
later_of t (some u) = if ltb t u then u else t

-- `from`: the watermark, or the start.
abbrev pub slice_from : Time → Workload → Time
slice_from started w = later_of started w.metered_until

-- The slice from `from` to `to`, if it is to be billed.
abbrev pub slice_to : Bool → Time → Time → Option (Time × Time)
slice_to terminal from to =
    if not (ltb from to)
    then none
    else if not terminal && ltb (to - from) meter_min_slice
    then none
    else some (from, to)

abbrev pub terminal_slice : Time → Option Time → Option (Time × Time)
terminal_slice from none = none
terminal_slice from (some stopped) = slice_to true from stopped

abbrev pub started_slice : Time → Workload → Option Time → Option (Time × Time)
started_slice now w none = none
started_slice now w (some started) =
    if is_terminal w.status
    then terminal_slice (slice_from started w) w.stopped_at
    else slice_to false (slice_from started w) now

-- What `MeterWorkload` bills of a row: nothing, or the time from the first to the second.
unfoldable pub slice : Time → Workload → Option (Time × Time)
slice now w = started_slice now w w.started_at

-- A row of rate_cards; the rate is in the unit per GPU and hour.
pub record RateCard : Type 0 where
  pub org_id : ℕ
  pub gpu_model : String
  pub rate_per_gpu_hour : ℕ
  pub effective_from : Time
  pub effective_to : Option Time

abbrev pub still_effective : Time → Option Time → Bool
still_effective to none = true
still_effective to (some t) = ltb to t

abbrev pub is_effective : ℕ → String → Time → RateCard → Bool
is_effective org_id model to c =
    c.org_id == org_id
    && (str_eq c.gpu_model model && (leb c.effective_from to && still_effective to c.effective_to))

abbrev rate_or : ℕ → Option RateCard → ℕ
rate_or default none = default
rate_or default (some c) = c.rate_per_gpu_hour

-- The newest effective rate card, or the organization's default rate.
unfoldable pub rate_of : (ℕ → ℕ) → List RateCard → ℕ → String → Time → ℕ
rate_of default cards org_id model to = rate_or (default org_id) (
    find (is_effective org_id model to)
      (order_by (λ a b. leb b.effective_from a.effective_from) cards))

-- A usage record with its cost record; `amount` is in 1/3600 of the rate's unit.
pub record Usage : Type 0 where
  pub org_id : ℕ
  pub workload_id : ℕ
  pub gpu_id : ℕ
  pub project_id : Option ℕ
  pub user_id : ℕ
  pub period_start : Time
  pub period_end : Time
  pub gpu_seconds : ℕ
  pub amount : ℕ

-- What metering reads and writes; `default_rate` is in the settings of the organizations.
pub record Books : Type 0 where
  pub store : Store
  pub rate_cards : List RateCard
  pub default_rate : ℕ → ℕ
  pub usage : List Usage
  pub ledger : Ledger

abbrev pub usd_to_inr : ℕ
usd_to_inr = 83

-- The GPUs that have ever been attached to the workload.
attached_gpus : ℕ → List WorkloadGpu → List Gpu → List Gpu
attached_gpus id [] gpus = []
attached_gpus id (a ∷ rows) gpus =
    let rest = attached_gpus id rows gpus in
    if a.workload_id == id then select (λ g. g.id == a.gpu_id) gpus ++ rest else rest

unfoldable pub gpus_of : ℕ → Store → List Gpu
unfolding attached_gpus
gpus_of id s = attached_gpus id s.workload_gpus s.gpus

abbrev pub usage_of : (String → Time → ℕ) → Workload → Time → Time → Gpu → Usage
usage_of rate w from to g = record {
  org_id = w.org_id;
  workload_id = w.id;
  gpu_id = g.id;
  project_id = w.project_id;
  user_id = w.user_id;
  period_start = from;
  period_end = to;
  gpu_seconds = (to - from) / second;
  amount = (to - from) / second * rate g.model to;
}

unfoldable pub total_amount : List Usage → ℕ
total_amount [] = 0
total_amount (u ∷ us) = u.amount + total_amount us

-- The debit, if there is one.
unfoldable pub debit : Time → Workload → ℕ → Ledger → Ledger
unfolding post_ledger ◌-ℤ◌
debit now w total l =
    if ltb 0 total
    then post_ledger now w.org_id (pos 0 -ℤ pos (total * usd_to_inr)) "charge" "Workload usage"
        (some w.id) l
    else l

-- Records, debit and watermark of one slice, which commit together.
unfoldable pub bill : Time → Workload → Option (Time × Time) → Books → Books
unfolding debit rate_of gpus_of total_amount
bill now w none b = b
bill now w (some (from, to)) b =
    let us =
      map (usage_of (rate_of b.default_rate b.rate_cards w.org_id) w from to)
        (gpus_of w.id b.store) in
    record b {
      store = record b.store {
        workloads =
            update (λ x. x.id == w.id) (λ x. record x { metered_until = some to })
              b.store.workloads;
      };
      usage = b.usage ++ us;
      ledger = debit now w (total_amount us) b.ledger;
    }

unfoldable pub bill_row : Time → Option Workload → Books → Books
unfolding bill slice
bill_row now none b = b
bill_row now (some w) b = bill now w (slice now w) b

unfoldable pub meter_workload : Time → ℕ → Books → Books
unfolding bill_row
meter_workload now id b = bill_row now (find (λ w. w.id == id) b.store.workloads) b

abbrev is_running : WorkloadState → Bool
is_running WorkloadState.queued = false
is_running WorkloadState.pending = false
is_running WorkloadState.running = true
is_running WorkloadState.stopping = true
is_running WorkloadState.stopped = false
is_running WorkloadState.failed = false

abbrev owes_since : Time → Workload → Option Time → Bool
owes_since since w none = false
owes_since since w (some stopped) = ltb since stopped

abbrev owes_from : Time → Workload → Option Time → Bool
owes_from now w none = false
owes_from now w (some started) =
    let since = coalesce w.metered_until started in
    (is_running w.status && ltb (since + meter_min_slice) now)
    || (is_terminal w.status && owes_since since w w.stopped_at)

-- The WHERE of `MeterRunning`.
unfoldable pub owes : Time → Workload → Bool
owes now w = owes_from now w w.started_at

meter_all : Time → List ℕ → Books → Books
meter_all now [] b = b
meter_all now (id ∷ ids) b = meter_all now ids (meter_workload now id b)

unfoldable pub meter_running : Time → Books → Books
unfolding meter_all owes
meter_running now b = meter_all now (map (λ w. w.id) (select (owes now) b.store.workloads)) b
