-- ===== src/Ops/Reservations/Races.antt =====
-- Two reservations at once (gpu-platform/internal/ops/reservations.go).
use node_hive_b2b.Prelude.{ℕ, ◌+◌, ◌<◌, ◌≡◌, Bool, String, List, [], ◌∷◌, ok, arith}
use node_hive_b2b.Sql.{total}
use node_hive_b2b.Store.{Time, Gpu}
use node_hive_b2b.Ops.Reservations.{
  Row, Stored, LiveStatus, total_gpus, peak_reserved, new_row, create_reservation, reserved_now,
  live_status,
}
use node_hive_b2b.Ops.Reservations.Booking.{request_for, accepted}

-- Two requests at once, each for all GPUs of a model's name, are both accepted when the second sums the
-- reservations before the first inserts its row: twice as many are reserved then as there are.
pub create_reservation_race :
    (ilike : String → String → Bool) (now now' id id' org_id user_id user_id' n : ℕ)
    (model : String) (start_at end_at : Time) (gpus : List Gpu)
    → 0 < n
    → start_at < end_at
    → total_gpus ilike org_id model gpus ≡ n
    → (x y : (Row × LiveStatus) × List Row) × (create_reservation ilike now id org_id user_id
          (request_for model n start_at end_at)
          gpus
          []
          []
        ≡ ok x)
      × (create_reservation ilike now' id' org_id user_id'
            (request_for model n start_at end_at)
            gpus
            []
            x.1
          ≡ ok y)
      × (reserved_now start_at org_id y.1 ≡ n + n)
unfolding peak_reserved reserved_now total
create_reservation_race ilike now now' id id' org_id user_id user_id' n model start_at end_at gpus
      some_n later named =
    let req = request_for model n start_at end_at in
    let row1 = new_row now id org_id user_id req in
    let row2 = new_row now' id' org_id user_id' req in
    (
      ((row1, live_status now Stored.upcoming start_at end_at), row1 ∷ []),
      ((row2, live_status now' Stored.upcoming start_at end_at), row1 ∷ row2 ∷ []),
      accepted ilike now id org_id user_id req gpus [] [] some_n later (ground (arith, named)),
      accepted ilike now' id' org_id user_id' req gpus [] (row1 ∷ []) some_n later
          (ground (arith, named)),
      ground (arith, later),
    )
