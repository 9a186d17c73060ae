-- ===== src/Ops/Reservations/Histories.antt =====
-- Histories of reservations (gpu-platform/internal/ops/reservations.go), of all organizations, while
-- the GPUs stay as they are.
use node_hive_b2b.Prelude.{
  ℕ, ◌≡◌, refl, subst, ap, Bool, false, String, List, [], ◌∷◌, ◌++◌, ok, arith, ◌==◌, Bool-cases,
  inl, inr, guard-ok, same_ok, not, ◌||◌, ltb, leb, ◌+◌, none, ◌&&◌, str_eq,
}
use node_hive_b2b.Prelude.Int.{pos_part}
use node_hive_b2b.Sql.{total}
use node_hive_b2b.Sql.Totals.{total-append, total-update-le}
use node_hive_b2b.Store.{Time, Gpu}
use node_hive_b2b.Ops.Reservations.{
  Row, Stored, LiveStatus, CreateReservationReq, invalid_parameters, overbooked, total_gpus,
  peak_reserved, new_row, create_reservation, cancel_reservation, is_reserved_at,
}
use node_hive_b2b.Ops.Reservations.Booking.{IsBooked, reserved_at, create_reservation-IsBooked}

-- One operation that succeeds, of whichever organization. A creation sees the table as it is at its
-- INSERT: no other operation comes between its statements.
pub data Step (ilike : String → String → Bool) (gpus : List Gpu) (rows rows' : List Row)
    : Type 0 where
  created :
      (now id org_id user_id : ℕ) (req : CreateReservationReq) (r : Row) (s : LiveStatus)
      → create_reservation ilike now id org_id user_id req gpus rows rows ≡ ok ((r, s), rows')
      → Step ilike gpus rows rows'
  cancelled :
      (org_id id : ℕ) → cancel_reservation org_id id rows ≡ rows' → Step ilike gpus rows rows'

pub data Steps (ilike : String → String → Bool) (gpus : List Gpu) (rows : List Row)
    : List Row → Type 0 where
  done : Steps ilike gpus rows rows
  then_step :
      (rows1 rows2 : List Row)
      → Steps ilike gpus rows rows1
      → Step ilike gpus rows1 rows2
      → Steps ilike gpus rows rows2

-- A row of another organization does not count.
other-same :
    (o now id org_id user_id : ℕ) (req : CreateReservationReq) (model : String) (t : Time)
    (rows : List Row)
    → (org_id == o) ≡ false
    → reserved_at o model t (rows ++ new_row now id org_id user_id req ∷ [])
      ≡ reserved_at o model t rows
unfolding total
other-same o now id org_id user_id req model t rows e = ground (
  arith,
  e,
  total-append (λ r. r.gpu_count) (λ r. is_reserved_at o t r && str_eq r.gpu_model model) rows
      (new_row now id org_id user_id req ∷ []),
)

appended :
    (ilike : String → String → Bool) (now id org_id user_id : ℕ) (req : CreateReservationReq)
    (gpus : List Gpu) (rows rows' : List Row) (r : Row) (s : LiveStatus)
    → create_reservation ilike now id org_id user_id req gpus rows rows ≡ ok ((r, s), rows')
    → rows ++ new_row now id org_id user_id req ∷ [] ≡ rows'
unfolding create_reservation
appended ilike now id org_id user_id req gpus rows rows' r s h =
    let (_, valid) =
      guard-ok (not (pos_part req.gpu_count == 0 || not (ltb req.start_at req.end_at)))
        invalid_parameters h in
    let (_, stored) =
      guard-ok
        (leb
          (peak_reserved org_id req.gpu_model req.start_at req.end_at none rows
            + pos_part req.gpu_count)
          (total_gpus ilike org_id req.gpu_model gpus))
        overbooked valid in
    ap (λ x. x.1) (same_ok refl stored)

created_other-IsBooked :
    (ilike : String → String → Bool) (o now id org_id user_id : ℕ) (req : CreateReservationReq)
    (gpus : List Gpu) (rows : List Row)
    → (org_id == o) ≡ false
    → IsBooked ilike o gpus rows
    → IsBooked ilike o gpus (rows ++ new_row now id org_id user_id req ∷ [])
created_other-IsBooked ilike o now id org_id user_id req gpus rows e v = record {
  within = λ model t.
      omega (arith, v.within model t, other-same o now id org_id user_id req model t rows e);
}

cancel_reservation-IsBooked :
    (ilike : String → String → Bool) (o org_id id : ℕ) (gpus : List Gpu) (rows : List Row)
    → IsBooked ilike o gpus rows
    → IsBooked ilike o gpus (cancel_reservation org_id id rows)
unfolding cancel_reservation
cancel_reservation-IsBooked ilike o org_id id gpus rows v = record {
  within = λ model t. omega (
    arith,
    v.within model t,
    total-update-le (λ r. r.gpu_count) (λ r. is_reserved_at o t r && str_eq r.gpu_model model)
        (λ r. r.id == id && r.org_id == org_id) (λ r. record r { status = Stored.cancelled }) rows
        (λ r m. ground (arith, m)) (λ r. refl),
  );
}

Step-IsBooked :
    (ilike : String → String → Bool) (o : ℕ) (gpus : List Gpu) (rows rows' : List Row)
    → IsBooked ilike o gpus rows
    → Step ilike gpus rows rows'
    → IsBooked ilike o gpus rows'
Step-IsBooked ilike o gpus rows rows' v (created now id org_id user_id req r s h) =
    elim (Bool-cases (org_id == o)) [
      | inl e ↦
          let same : org_id ≡ o = ground (arith, e) in
          create_reservation-IsBooked ilike now id o user_id req gpus rows rows' r s v (
            subst
              (λ n.
                create_reservation ilike now id n user_id req gpus rows rows ≡ ok ((r, s), rows'))
              same h)
      | inr e ↦
          subst (IsBooked ilike o gpus)
            (appended ilike now id org_id user_id req gpus rows rows' r s h)
            (created_other-IsBooked ilike o now id org_id user_id req gpus rows e v)
    ]
Step-IsBooked ilike o gpus rows rows' v (cancelled org_id id same) =
    subst (IsBooked ilike o gpus) same (cancel_reservation-IsBooked ilike o org_id id gpus rows v)

-- However reservations of all organizations are made and cancelled, while the GPUs stay as they are and
-- no operation comes between the statements of another, no model's name is booked beyond the
-- organization's GPUs of this name at any instant.
pub Steps-IsBooked :
    (ilike : String → String → Bool) (o : ℕ) (gpus : List Gpu) (rows rows' : List Row)
    → IsBooked ilike o gpus rows
    → Steps ilike gpus rows rows'
    → IsBooked ilike o gpus rows'
Steps-IsBooked ilike o gpus rows _ v done = v
Steps-IsBooked ilike o gpus rows _ v (then_step rows1 rows2 steps step) =
    Step-IsBooked ilike o gpus rows1 rows2 (Steps-IsBooked ilike o gpus rows rows1 v steps) step
