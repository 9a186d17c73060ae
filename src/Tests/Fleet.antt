-- ===== src/Tests/Fleet.antt =====
-- The theorems on the inventory and on reservations at the small organization.
use node_hive_b2b.Prelude.{◌+◌, ◌≡◌, refl, false, [], ◌∷◌, ok, arith, str_eq, List}
use node_hive_b2b.Prelude.Int.{pos}
use node_hive_b2b.Sql.{update, count, total}
use node_hive_b2b.Workloads.Invariant.{Inv}
use node_hive_b2b.Inventory.{GpuReport, upsert_inventory}
use node_hive_b2b.Inventory.Reported.{upsert_inventory-Inv}
use node_hive_b2b.Ops.Reservations.{
  Stored, cancel_reservation, Row, LiveStatus, create_reservation, reserved_now, new_row,
  total_gpus, peak_reserved, live_status,
}
use node_hive_b2b.Ops.Reservations.Booking.{IsBooked, request_for, create_reservation-overbooks}
use node_hive_b2b.Ops.Reservations.Histories.{created, cancelled, done, then_step, Steps-IsBooked}
use node_hive_b2b.Tests.Fixtures.{small_store, small_store-Inv}
use node_hive_b2b.Tests.Nodes.{small_info}

abbrev new_report : GpuReport
new_report = record {
  drawn = 12;
  index = 2;
  uuid = "GPU-2";
  model = "A100";
  memory_mb = pos 81920;
  mig_enabled = false;
}

upsert_inventory-Inv_example : Inv (upsert_inventory 9 1 1 small_info (new_report ∷ []) small_store)
unfolding count
upsert_inventory-Inv_example =
    upsert_inventory-Inv 9 1 1 small_info (new_report ∷ []) small_store (refl, refl, tt)
      small_store-Inv

none-IsBooked : IsBooked str_eq 1 small_store.gpus []
unfolding total
none-IsBooked = record { within = λ model t. omega arith }

abbrev small_booking : Row
small_booking = new_row 5 1 1 7 (request_for "A100" 1 10 20)

-- A reservation is made and then cancelled.
Steps-IsBooked_example :
    IsBooked str_eq 1 small_store.gpus (record small_booking { status = Stored.cancelled } ∷ [])
unfolding create_reservation total_gpus peak_reserved live_status count total cancel_reservation
    update
Steps-IsBooked_example =
    Steps-IsBooked str_eq 1 small_store.gpus []
      (record small_booking { status = Stored.cancelled } ∷ []) none-IsBooked
      (then_step (small_booking ∷ []) (record small_booking { status = Stored.cancelled } ∷ [])
        (then_step [] (small_booking ∷ []) done
          (created 5 1 1 7 (request_for "A100" 1 10 20) small_booking LiveStatus.upcoming refl))
        (cancelled 1 1 refl))

create_reservation-overbooks_example :
    (x y : (Row × LiveStatus) × List Row) × (create_reservation str_eq 5 1 1 7
        (request_for "any" 2 10 20)
        small_store.gpus
        []
        []
      ≡ ok x)
    × (create_reservation str_eq 5 2 1 7 (request_for "A100" 2 10 20) small_store.gpus x.1 x.1
        ≡ ok y)
    × (reserved_now 10 1 y.1 ≡ 2 + 2)
unfolding total_gpus count
create_reservation-overbooks_example =
    create_reservation-overbooks str_eq 5 1 2 1 7 2 "A100" 10 20 small_store.gpus (omega arith)
      (omega arith) refl refl refl
