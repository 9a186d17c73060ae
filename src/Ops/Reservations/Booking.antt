-- ===== src/Ops/Reservations/Booking.antt =====
-- How many GPUs are reserved at an instant (gpu-platform/internal/ops/reservations.go).
use node_hive_b2b.Prelude.{
  ℕ, ap, ◌+◌, ◌≤◌, ◌<◌, ◌≡◌, refl, subst, Bool, true, false, not, ◌&&◌, ◌||◌, String, List, [], ◌∷◌,
  ◌++◌, none, arith, leb, ltb, ◌==◌, str_eq, eq_iff, Bool-cases, inl, inr, ok, guard-ok, same_ok,
  if◌then◌else◌,
}
use node_hive_b2b.Prelude.Int.{pos, pos_part}
use node_hive_b2b.Sql.{total}
use node_hive_b2b.Sql.Totals.{total-append, total_mono}
use node_hive_b2b.Store.{Time, Gpu}
use node_hive_b2b.Ops.Reservations.{
  Row, Stored, LiveStatus, CreateReservationReq, invalid_parameters, overbooked, total_gpus,
  overlaps, peak_reserved, new_row, create_reservation, reserved_now, live_status, is_reserved_at,
}

-- The GPUs that are reserved under a model's name at an instant.
abbrev pub reserved_at : ℕ → String → Time → List Row → ℕ
reserved_at org_id model t rows =
    total (λ r. is_reserved_at org_id t r && str_eq r.gpu_model model) (λ r. r.gpu_count) rows

-- No model's name is overbooked at any instant.
pub record IsBooked (ilike : String → String → Bool) (org_id : ℕ) (gpus : List Gpu)
    (rows : List Row) : Type 0 where
  pub within :
      (model : String) (t : Time)
      → reserved_at org_id model t rows ≤ total_gpus ilike org_id model gpus

module _ (ilike : String → String → Bool) (now id org_id user_id : ℕ) (req : CreateReservationReq)
    (gpus : List Gpu) (rows : List Row) where
  abbrev row : Row
  row = new_row now id org_id user_id req

  -- What the new row adds at an instant.
  abbrev added_at : (t : Time) (model : String) → ℕ
  added_at t model =
      if is_reserved_at org_id t row && str_eq req.gpu_model model
      then pos_part req.gpu_count
      else 0

  reserved_added :
      (t : Time) (model : String)
      → reserved_at org_id model t (rows ++ row ∷ [])
        ≡ reserved_at org_id model t rows + added_at t model
  unfolding total
  reserved_added t model = omega (
    arith,
    total-append (λ r. r.gpu_count) (λ r. is_reserved_at org_id t r && str_eq r.gpu_model model)
        rows (row ∷ []),
  )

  added_le : (t : Time) (model : String) → added_at t model ≤ pos_part req.gpu_count
  added_le t model = ground arith

  added_none_at :
      (t : Time) (model : String)
      → (leb req.start_at t && ltb t req.end_at) ≡ false
      → added_at t model ≡ 0
  added_none_at t model h = ground (arith, h)

  added_none :
      (t : Time) (model : String) → str_eq req.gpu_model model ≡ false → added_at t model ≡ 0
  added_none t model h = ground (arith, h)

  added_within :
      IsBooked ilike org_id gpus rows
      → peak_reserved org_id req.gpu_model req.start_at req.end_at none rows
          + pos_part req.gpu_count
        ≤ total_gpus ilike org_id req.gpu_model gpus
      → (t : Time) (model : String)
      → reserved_at org_id model t (rows ++ row ∷ []) ≤ total_gpus ilike org_id model gpus
  unfolding peak_reserved
  added_within v fits t model = elim (Bool-cases (str_eq req.gpu_model model)) [
    | inl e ↦
        let same : req.gpu_model ≡ model = (eq_iff req.gpu_model model).0 e in
        let fits_here =
          subst
            (λ m.
              peak_reserved org_id m req.start_at req.end_at none rows + pos_part req.gpu_count
              ≤ total_gpus ilike org_id m gpus)
            same fits in
        elim (Bool-cases (leb req.start_at t && ltb t req.end_at)) [
          | inl k ↦ omega (
            arith,
            fits_here,
            reserved_added t model,
            total_mono (λ r. r.gpu_count)
                (λ r. is_reserved_at org_id t r && str_eq r.gpu_model model)
                (overlaps org_id model req.start_at req.end_at none) rows
                (λ r m. ground (arith, k, m)),
            added_le t model,
          )
          | inr k ↦ omega (arith, v.within model t, reserved_added t model, added_none_at t model k)
        ]
    | inr e ↦ omega (arith, v.within model t, reserved_added t model, added_none t model e)
  ]

-- A reservation that is accepted keeps every model's name within the organization's GPUs of this name
-- at every instant, however many reservations there are, when no other request comes between its
-- statements.
pub create_reservation-IsBooked :
    (ilike : String → String → Bool) (now id org_id user_id : ℕ) (req : CreateReservationReq)
    (gpus : List Gpu) (rows rows' : List Row) (r : Row) (s : LiveStatus)
    → IsBooked ilike org_id gpus rows
    → create_reservation ilike now id org_id user_id req gpus rows rows ≡ ok ((r, s), rows')
    → IsBooked ilike org_id gpus rows'
unfolding create_reservation
create_reservation-IsBooked ilike now id org_id user_id req gpus rows rows' r s v h =
    let (_, valid) =
      guard-ok (not (pos_part req.gpu_count == 0 || not (ltb req.start_at req.end_at)))
        invalid_parameters h in
    let (fits, done) =
      guard-ok
        (leb
          (peak_reserved org_id req.gpu_model req.start_at req.end_at none rows
            + pos_part req.gpu_count)
          (total_gpus ilike org_id req.gpu_model gpus))
        overbooked valid in
    let bound : peak_reserved org_id req.gpu_model req.start_at req.end_at none rows
          + pos_part req.gpu_count
        ≤ total_gpus ilike org_id req.gpu_model gpus =
      ground (arith, fits) in
    subst (IsBooked ilike org_id gpus) (ap (λ x. x.1) (same_ok refl done)) (record {
      within = λ model t. added_within ilike now id org_id user_id req gpus rows v bound t model;
    })

abbrev pub request_for : String → ℕ → Time → Time → CreateReservationReq
request_for model n start_at end_at = record {
  gpu_model = model;
  gpu_count = pos n;
  start_at = start_at;
  end_at = end_at;
  project_id = none;
}

-- A well-formed request that fits is accepted.
pub accepted :
    (ilike : String → String → Bool) (now id org_id user_id : ℕ) (req : CreateReservationReq)
    (gpus : List Gpu) (seen rows : List Row)
    → 0 < pos_part req.gpu_count
    → req.start_at < req.end_at
    → peak_reserved org_id req.gpu_model req.start_at req.end_at none seen + pos_part req.gpu_count
      ≤ total_gpus ilike org_id req.gpu_model gpus
    → let r = new_row now id org_id user_id req in
      create_reservation ilike now id org_id user_id req gpus seen rows
      ≡ ok ((r, live_status now Stored.upcoming req.start_at req.end_at), rows ++ r ∷ [])
unfolding create_reservation
accepted ilike now id org_id user_id req gpus seen rows some_gpus window fits =
    let positive : (pos_part req.gpu_count == 0) ≡ false = ground (arith, some_gpus) in
    let lasts : ltb req.start_at req.end_at ≡ true = ground (arith, window) in
    let fitting : leb
          (peak_reserved org_id req.gpu_model req.start_at req.end_at none seen
            + pos_part req.gpu_count)
          (total_gpus ilike org_id req.gpu_model gpus)
        ≡ true =
      ground (arith, fits) in
    rw (positive, lasts, fitting) refl

-- Reservations under different names are not counted together: when all GPUs of an organization have a
-- model's name, all of them can be reserved under `any` and once more under the name, so that at an
-- instant twice as many are reserved as there are.
pub create_reservation-overbooks :
    (ilike : String → String → Bool) (now id id' org_id user_id n : ℕ) (model : String)
    (start_at end_at : Time) (gpus : List Gpu)
    → 0 < n
    → start_at < end_at
    → str_eq "any" model ≡ false
    → total_gpus ilike org_id "any" gpus ≡ n
    → total_gpus ilike org_id model gpus ≡ n
    → (x y : (Row × LiveStatus) × List Row) × (create_reservation ilike now id org_id user_id
          (request_for "any" n start_at end_at)
          gpus
          []
          []
        ≡ ok x)
      × (create_reservation ilike now id' org_id user_id
            (request_for model n start_at end_at)
            gpus
            x.1
            x.1
          ≡ ok y)
      × (reserved_now start_at org_id y.1 ≡ n + n)
unfolding create_reservation peak_reserved reserved_now total
create_reservation-overbooks ilike now id id' org_id user_id n model start_at end_at gpus some_n
      later other all named =
    let first = request_for "any" n start_at end_at in
    let second = request_for model n start_at end_at in
    let row1 = new_row now id org_id user_id first in
    let row2 = new_row now id' org_id user_id second in
    (
      ((row1, live_status now Stored.upcoming start_at end_at), row1 ∷ []),
      ((row2, live_status now Stored.upcoming start_at end_at), row1 ∷ row2 ∷ []),
      accepted ilike now id org_id user_id first gpus [] [] some_n later (ground (arith, all)),
      accepted ilike now id' org_id user_id second gpus (row1 ∷ []) (row1 ∷ []) some_n later
          (ground (arith, named, other)),
      ground (arith, later),
    )
