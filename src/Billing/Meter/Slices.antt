-- ===== src/Billing/Meter/Slices.antt =====
-- The slices that metering bills (gpu-platform/internal/billing/impl.go).
use node_hive_b2b.Sql.Counts.{find-count}
use node_hive_b2b.Prelude.{
  ℕ, List, [], ◌∷◌, ◌==◌, ==_iff, subst, Option-cases, ◌≤◌, ◌<◌, ◌≡◌, refl, ◌∙◌, Bool, true, false,
  not, ◌&&◌, Option, none, some, some-injective, arith, ◌-◌, sym, Bool-cases, inl, inr, ltb, ap,
}
use node_hive_b2b.Domain.{is_terminal}
use node_hive_b2b.Store.{Time, Workload}
use node_hive_b2b.Sql.{find, update}
use node_hive_b2b.Billing.Meter.{
  Books, meter_workload, bill_row, bill, slice, slice_from, slice_to, later_of, started_slice,
  terminal_slice, meter_min_slice,
}

-- The row after a slice has been billed, whatever else has changed but the start.
abbrev pub billed_to : Time → Workload → Workload
billed_to to w = record w { metered_until = some to }

slice_to-some :
    (b : Bool) (f t : Time) {from to : Time}
    → slice_to b f t ≡ some (from, to)
    → (from ≡ f) × (to ≡ t) × (f < t)
slice_to-some b f t {from} {to} h = elim (Bool-cases (not (ltb f t))) [
  | inl e ↦ absurd (let q : none ≡ some (from, to) = rw e at h in cc)
  | inr e ↦ elim (Bool-cases (not b && ltb (t - f) meter_min_slice)) [
    | inl g ↦ absurd (let q : none ≡ some (from, to) = rw (e, g) at h in cc)
    | inr g ↦
        let q : (f, t) ≡ (from, to) = some-injective _ _ (rw (e, g) at h) in
        (ap (λ x. x.0) (sym q), ap (λ x. x.1) (sym q), ground arith)
  ]
]

-- Where a billed slice begins and ends.
record Bills (now : Time) (w : Workload) (from to : Time) : Type 0 where
  pub started : Time
  pub start : w.started_at ≡ some started
  pub begins : from ≡ slice_from started w
  pub positive : from < to
  pub at_stop : is_terminal w.status ≡ true → w.stopped_at ≡ some to
  pub at_now : is_terminal w.status ≡ false → to ≡ now

started_slice-Bills :
    (now : Time) (w : Workload) (o : Option Time) {from to : Time}
    → started_slice now w o ≡ some (from, to)
    → (st : Time) × (o ≡ some st)
      × (from ≡ slice_from st w)
      × (from < to)
      × (is_terminal w.status ≡ true → w.stopped_at ≡ some to)
      × (is_terminal w.status ≡ false → to ≡ now)
started_slice-Bills now w none h = cc
started_slice-Bills now w (some st) {from} {to} h = elim (Bool-cases (is_terminal w.status)) [
  | inl e ↦ let (a, b, c) = ended w.stopped_at (rw e at h) in (st, refl, a, b, λ t. c, λ t. cc)
  | inr e ↦
      let (a, b, c) =
        slice_to-some false (slice_from st w) now {from = from} {to = to} (rw e at h) in
      (st, refl, a, omega (arith, a, b, c), λ t. cc, λ t. b)
]
  where
    ended :
        (o : Option Time)
        → terminal_slice (slice_from st w) o ≡ some (from, to)
        → (from ≡ slice_from st w) × (from < to) × (o ≡ some to)
    ended none k = cc
    ended (some stopped) k =
        let (a, b, c) = slice_to-some true (slice_from st w) stopped {from = from} {to = to} k in
        (a, omega (arith, a, b, c), ap some (sym b))

slice-Bills :
    (now : Time) (w : Workload) {from to : Time}
    → slice now w ≡ some (from, to)
    → Bills now w from to
unfolding slice
slice-Bills now w {from} {to} h =
    let (st, e, b, p, a, n) = started_slice-Bills now w w.started_at {from = from} {to = to} h in
    record { started = st; start = e; begins = b; positive = p; at_stop = a; at_now = n }

started_le : (st from : Time) (o : Option Time) → from ≡ later_of st o → st ≤ from
started_le st from none q = omega (arith, q)
started_le st from (some u) q = ground (arith, q)

-- The next slice of a row whose watermark is the end of a slice.
next_slice :
    (now later : Time) (w w' : Workload) {from to from' to' : Time}
    → slice now w ≡ some (from, to)
    → w'.started_at ≡ w.started_at
    → w'.metered_until ≡ some to
    → slice later w' ≡ some (from', to')
    → (from < to) × (from' ≡ to) × (to < to')
next_slice now later w w' {from} {to} {from'} {to'} h s m k =
    let b = slice-Bills now w h in
    let b' = slice-Bills later w' k in
    let same : b'.started ≡ b.started = some-injective _ _ (sym b'.start ∙ (s ∙ b.start)) in
    let begins' : from' ≡ later_of b'.started (some to) = rw m at b'.begins in
    let after : b.started ≤ from = started_le b.started from w.metered_until b.begins in
    let next : from' ≡ to = ground (arith, begins', same, after, b.positive) in
    (b.positive, next, omega (arith, next, b'.positive))

-- After the end of a workload has been billed up to its stop, nothing more is ever billed.
pub slice_settled :
    (now later : Time) (w : Workload) {from to : Time}
    → is_terminal w.status ≡ true
    → slice now w ≡ some (from, to)
    → (w.stopped_at ≡ some to) × (slice later (billed_to to w) ≡ none)
unfolding slice
slice_settled now later w {from} {to} t h =
    let b = slice-Bills now w h in
    let after : b.started ≤ from = started_le b.started from w.metered_until b.begins in
    (b.at_stop t, rw (b.start, t, b.at_stop t) (ground (arith, after, b.positive)))

-- At the same time nothing more is billed of a row whose slice has been billed.
slice_again :
    (now : Time) (w : Workload) {from to : Time}
    → slice now w ≡ some (from, to)
    → slice now (billed_to to w) ≡ none
unfolding slice
slice_again now w {from} {to} h = elim (Bool-cases (is_terminal w.status)) [
  | inl t ↦ (slice_settled now now w {from = from} {to = to} t h).1
  | inr t ↦ running t
]
  where
    running : is_terminal w.status ≡ false → slice now (billed_to to w) ≡ none
    running t =
        let b = slice-Bills now w h in
        let after : b.started ≤ from = started_le b.started from w.metered_until b.begins in
        let e : to ≡ now = b.at_now t in rw (b.start, t) (ground (arith, after, b.positive, e))

found_updated :
    (id to : ℕ) (ws : List Workload) {w : Workload}
    → find (λ x. x.id == id) ws ≡ some w
    → find (λ x. x.id == id) (update (λ x. x.id == id) (billed_to to) ws) ≡ some (billed_to to w)
unfolding find update
found_updated id to [] h = cc
found_updated id to (x ∷ ws) {w} h = elim (Bool-cases (x.id == id)) [
  | inl e ↦ rw (e, e) (ap (λ y. some (billed_to to y)) (some-injective _ _ (rw e at h)))
  | inr e ↦ rw (e, e) (found_updated id to ws {w = w} (rw e at h))
]

-- The row that was billed, as the books have it afterwards.
billed_row :
    (now : Time) (id : ℕ) (w : Workload) (from to : Time) (b : Books)
    → find (λ x. x.id == id) b.store.workloads ≡ some w
    → find (λ x. x.id == id) (bill now w (some (from, to)) b).store.workloads
      ≡ some (billed_to to w)
unfolding bill
billed_row now id w from to b f =
    let keyed : w.id ≡ id =
      (==_iff w.id id).0 (find-count (λ x. x.id == id) b.store.workloads f).0 in
    subst
      (λ k.
        find (λ x. x.id == id) (update (λ x. x.id == k) (billed_to to) b.store.workloads)
        ≡ some (billed_to to w))
      (sym keyed) (found_updated id to b.store.workloads {w = w} f)

metered_none :
    (now : Time) (id : ℕ) (b : Books) {w : Workload}
    → find (λ x. x.id == id) b.store.workloads ≡ some w
    → slice now w ≡ none
    → meter_workload now id b ≡ b
unfolding meter_workload bill_row bill
metered_none now id b f n = rw (f, n) refl

metered_some :
    (now : Time) (id : ℕ) (b : Books) {w : Workload} {from to : Time}
    → find (λ x. x.id == id) b.store.workloads ≡ some w
    → slice now w ≡ some (from, to)
    → meter_workload now id b ≡ bill now w (some (from, to)) b
unfolding meter_workload bill_row
metered_some now id b f n = rw (f, n) refl

missing_none :
    (now : Time) (id : ℕ) (b : Books)
    → find (λ x. x.id == id) b.store.workloads ≡ none
    → meter_workload now id b ≡ b
unfolding meter_workload bill_row
missing_none now id b n = rw n refl

-- When metering bills a slice of a workload, the next slice that is billed, whenever that is and
-- whatever else of the workload has changed then, begins exactly where this one ended. Neither is empty.
pub slice_contiguous :
    (now later id : ℕ) (b : Books) (w w1 w' : Workload) {from to from' to' : Time}
    → find (λ x. x.id == id) b.store.workloads ≡ some w
    → slice now w ≡ some (from, to)
    → find (λ x. x.id == id) (meter_workload now id b).store.workloads ≡ some w1
    → w'.started_at ≡ w1.started_at
    → w'.metered_until ≡ w1.metered_until
    → slice later w' ≡ some (from', to')
    → (from < to) × (from' ≡ to) × (to < to')
slice_contiguous now later id b w w1 w' {from} {to} {from'} {to'} f h g s m k =
    let e = metered_some now id b {w = w} {from = from} {to = to} f h in
    let g' : find (λ x. x.id == id) (bill now w (some (from, to)) b).store.workloads ≡ some w1 =
      subst (λ c. find (λ x. x.id == id) c.store.workloads ≡ some w1) e g in
    let same : w1 ≡ billed_to to w =
      some-injective _ _ (sym g' ∙ billed_row now id w from to b f) in
    next_slice now later w w' {from = from} {to = to} {from' = from'} {to' = to'} h
      (s ∙ ap (λ x. x.started_at) same) (m ∙ ap (λ x. x.metered_until) same) k

-- Metering a workload twice at the same time bills it once: the second time leaves all books as they
-- are, whether the workload runs or has ended.
pub meter_workload_twice :
    (now : Time) (id : ℕ) (b : Books)
    → meter_workload now id (meter_workload now id b) ≡ meter_workload now id b
meter_workload_twice now id b = elim (Option-cases (find (λ w. w.id == id) b.store.workloads)) [
  | inl n ↦ let e = missing_none now id b n in ap (meter_workload now id) e
  | inr (w, f) ↦ elim (Option-cases (slice now w)) [
    | inl n ↦ let e = metered_none now id b {w = w} f n in ap (meter_workload now id) e
    | inr ((from, to), h) ↦
        let e = metered_some now id b {w = w} {from = from} {to = to} f h in
        let again =
          metered_none now id (bill now w (some (from, to)) b) {w = billed_to to w}
            (billed_row now id w from to b f) (slice_again now w {from = from} {to = to} h) in
        ap (meter_workload now id) e ∙ (again ∙ sym e)
  ]
]
