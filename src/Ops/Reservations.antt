-- ===== src/Ops/Reservations.antt =====
-- Reservations of GPUs: gpu-platform/internal/ops/reservations.go.
pub mod Booking
pub mod Histories
pub mod Races
use node_hive_b2b.Prelude.{
  ℕ, ◌+◌, Bool, true, false, not, ◌&&◌, ◌||◌, String, List, [], ◌∷◌, ◌++◌, map, Option, none, some,
  leb, ltb, ◌==◌, if◌then◌else◌, str_eq, Result, ok, err, ◌>>=◌, ◌>>◌, guard,
}
use node_hive_b2b.Prelude.Int.{ℤ, pos_part}
use node_hive_b2b.Sql.{select, update, count, total, order_by}
use node_hive_b2b.Store.{Time, Gpu}

-- The stored status, and the one that is shown.
pub data Stored : Type 0 where
  upcoming cancelled : Stored

pub data LiveStatus : Type 0 where
  cancelled expired upcoming active : LiveStatus

-- A row of reservations.
pub record Row : Type 0 where
  pub id : ℕ
  pub org_id : ℕ
  pub project_id : Option ℕ
  pub user_id : ℕ
  pub gpu_model : String
  pub gpu_count : ℕ
  pub start_at : Time
  pub end_at : Time
  pub status : Stored
  pub created_at : Time

pub record CreateReservationReq : Type 0 where
  pub gpu_model : String
  pub gpu_count : ℤ
  pub start_at : Time
  pub end_at : Time
  pub project_id : Option ℕ

pub data ReservationError : Type 0 where
  invalid_parameters overbooked : ReservationError

abbrev pub live_by_clock : Time → Time → Time → LiveStatus
live_by_clock now start_at end_at =
    if ltb end_at now
    then LiveStatus.expired
    else if ltb now start_at
    then LiveStatus.upcoming
    else LiveStatus.active

unfoldable pub live_status : Time → Stored → Time → Time → LiveStatus
live_status now Stored.cancelled start_at end_at = LiveStatus.cancelled
live_status now Stored.upcoming start_at end_at = live_by_clock now start_at end_at

abbrev pub is_live : Stored → Bool
is_live Stored.upcoming = true
is_live Stored.cancelled = false

-- `ilike` is PostgreSQL's `model ILIKE '%'||name||'%'`.
unfoldable pub total_gpus : (String → String → Bool) → ℕ → String → List Gpu → ℕ
total_gpus ilike org_id model gpus =
    count (λ g. g.org_id == org_id && (str_eq model "any" || ilike g.model model)) gpus

abbrev pub is_excluded : Option ℕ → Row → Bool
is_excluded none r = false
is_excluded (some id) r = r.id == id

abbrev pub overlaps : ℕ → String → Time → Time → Option ℕ → Row → Bool
overlaps org_id model start_at end_at exclude r =
    r.org_id == org_id
    && (is_live r.status
        && (str_eq r.gpu_model model
            && (ltb r.start_at end_at && (ltb start_at r.end_at && not (is_excluded exclude r)))))

unfoldable pub peak_reserved : ℕ → String → Time → Time → Option ℕ → List Row → ℕ
peak_reserved org_id model start_at end_at exclude rows =
    total (overlaps org_id model start_at end_at exclude) (λ r. r.gpu_count) rows

abbrev pub new_row : Time → ℕ → ℕ → ℕ → CreateReservationReq → Row
new_row now id org_id user_id req = record {
  id = id;
  org_id = org_id;
  project_id = req.project_id;
  user_id = user_id;
  gpu_model = req.gpu_model;
  gpu_count = pos_part req.gpu_count;
  start_at = req.start_at;
  end_at = req.end_at;
  status = Stored.upcoming;
  created_at = now;
}

-- Three statements without a transaction: `gpus` is what the count sees, `seen` what the sum sees, and
-- `rows` the table at the INSERT, which other requests may have changed since.
unfoldable pub create_reservation :
    (String → String → Bool)
    → Time
    → ℕ
    → ℕ
    → ℕ
    → CreateReservationReq
    → List Gpu
    → List Row
    → List Row
    → Result ReservationError ((Row × LiveStatus) × List Row)
unfolding total_gpus peak_reserved live_status
create_reservation ilike now id org_id user_id req gpus seen rows = do
  guard (not (pos_part req.gpu_count == 0 || not (ltb req.start_at req.end_at))) invalid_parameters
  let already = peak_reserved org_id req.gpu_model req.start_at req.end_at none seen
  guard (leb (already + pos_part req.gpu_count) (total_gpus ilike org_id req.gpu_model gpus))
      overbooked
  let r = new_row now id org_id user_id req
  ok ((r, live_status now r.status r.start_at r.end_at), rows ++ r ∷ [])

-- Latest start first; the names that the source joins are left out.
unfoldable pub list_reservations : Time → ℕ → List Row → List (Row × LiveStatus)
unfolding live_status
list_reservations now org_id rows =
    map (λ r. (r, live_status now r.status r.start_at r.end_at))
      (order_by (λ r q. leb q.start_at r.start_at) (select (λ r. r.org_id == org_id) rows))

unfoldable pub cancel_reservation : ℕ → ℕ → List Row → List Row
cancel_reservation org_id id rows =
    update (λ r. r.id == id && r.org_id == org_id) (λ r. record r { status = Stored.cancelled })
      rows

abbrev pub is_reserved_at : ℕ → Time → Row → Bool
is_reserved_at org_id t r =
    r.org_id == org_id && (is_live r.status && (leb r.start_at t && ltb t r.end_at))

unfoldable pub reserved_now : Time → ℕ → List Row → ℕ
reserved_now now org_id rows = total (is_reserved_at org_id now) (λ r. r.gpu_count) rows
