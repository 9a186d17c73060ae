-- ===== src/Billing/Admission/Permits.antt =====
-- Which budgets permit a launch (gpu-platform/internal/billing/impl.go).
use node_hive_b2b.Prelude.{
  ℕ, ◌+◌, ◌*◌, ◌<◌, ◌≡◌, ◌≢◌, refl, Bool, true, false, not, ◌&&◌, List, [], ◌∷◌, Option, none, some,
  if◌then◌else◌, Bool-cases, inl, inr, arith, leb, ◌==◌, sym, subst, ap, ◌∙◌, holds_id, ==_refl,
}
use node_hive_b2b.Sql.{total, select, exists}
use node_hive_b2b.Sql.Counts.{never, not-exists}
use node_hive_b2b.Store.{Time, Workload}
use node_hive_b2b.Billing.Meter.{Books, Usage, total_amount}
use node_hive_b2b.Billing.Admission.{
  Scope, Budget, same_id, in_scope, is_exhausted, stops, scope_spend_inr, spent_in,
}

-- Which budgets a launch has to stay within.
pub data Covers (dept proj : Option ℕ) (b : Budget) : Type 0 where
  whole : b.scope_type ≡ Scope.organization → Covers dept proj b
  of_department :
      (d : ℕ)
      → b.scope_type ≡ Scope.department
      → b.scope_id ≡ some d
      → dept ≡ some d
      → Covers dept proj b
  of_project :
      (p : ℕ)
      → b.scope_type ≡ Scope.project
      → b.scope_id ≡ some p
      → proj ≡ some p
      → Covers dept proj b

-- Which costs count against a budget: those of its organization in the month, for a department those
-- of the department's workloads, and for a project those that carry its id.
abbrev pub is_charged : Scope → Option ℕ → List Workload → Usage → Bool
is_charged Scope.organization id ws u = true
is_charged Scope.department none ws u = false
is_charged Scope.department (some d) ws u =
    exists (λ w. w.id == u.workload_id && holds_id w.department_id d) ws
is_charged Scope.project none ws u = false
is_charged Scope.project (some p) ws u = holds_id u.project_id p

abbrev pub spent_of : Time → Books → Budget → ℕ
spent_of month books b =
    total
      (λ u.
        u.org_id == b.org_id
        && (is_charged b.scope_type b.scope_id books.store.workloads u && leb month u.period_start))
      (λ u. u.amount) books.usage

-- A budget that does not stand in the way: what has been spent in rupees, at 83 to the dollar, is less
-- than its amount, both in 1/3600.
pub data Permits (month : Time) (org_id : ℕ) (dept proj : Option ℕ) (books : Books) (b : Budget)
    : Type 0 where
  foreign : b.org_id ≢ org_id → Permits month org_id dept proj books b
  elsewhere : ¬ Covers dept proj b → Permits month org_id dept proj books b
  unlimited : b.amount ≡ 0 → Permits month org_id dept proj books b
  left : 83 * spent_of month books b < 3600 * b.amount → Permits month org_id dept proj books b

total_amount-select :
    (p : Usage → Bool) (us : List Usage) → total_amount (select p us) ≡ total p (λ u. u.amount) us
unfolding total_amount select total
total_amount-select p [] = refl
total_amount-select p (u ∷ us) = ground (arith, total_amount-select p us)

total_same :
    (p q : Usage → Bool) (us : List Usage)
    → ((u : Usage) → p u ≡ q u)
    → total p (λ u. u.amount) us ≡ total q (λ u. u.amount) us
unfolding total
total_same p q [] h = refl
total_same p q (u ∷ us) h =
    rw (h u) (ap (λ n. (if q u then u.amount else 0) + n) (total_same p q us h))

spent_in-charged :
    (scope : Scope) (id : Option ℕ) (ws : List Workload) (u : Usage)
    → spent_in scope id ws u ≡ is_charged scope id ws u
spent_in-charged Scope.organization id ws u = refl
spent_in-charged Scope.department none ws u =
    not-exists (λ w. w.id == u.workload_id && same_id w.department_id none) ws
      (never (λ w. w.id == u.workload_id && same_id w.department_id none) ws (λ w. ground arith))
spent_in-charged Scope.department (some d) ws u = refl
spent_in-charged Scope.project none ws u = refl
spent_in-charged Scope.project (some p) ws u = refl

spent-total :
    (month : Time) (books : Books) (b : Budget)
    → scope_spend_inr month b.org_id b.scope_type b.scope_id books ≡ 83 * spent_of month books b
unfolding scope_spend_inr
spent-total month books b = omega (
  arith,
  total_amount-select
      (λ u.
        u.org_id == b.org_id
        && (spent_in b.scope_type b.scope_id books.store.workloads u && leb month u.period_start))
      books.usage,
  total_same
      (λ u.
        u.org_id == b.org_id
        && (spent_in b.scope_type b.scope_id books.store.workloads u && leb month u.period_start))
      (λ u.
        u.org_id == b.org_id
        && (is_charged b.scope_type b.scope_id books.store.workloads u && leb month u.period_start))
      books.usage
      (λ u.
        ap (λ t. u.org_id == b.org_id && (t && leb month u.period_start))
          (spent_in-charged b.scope_type b.scope_id books.store.workloads u)),
)

same_id_iff : (a b : Option ℕ) → same_id a b ≡ true → (n : ℕ) × (a ≡ some n) × (b ≡ some n)
same_id_iff none none h = cc
same_id_iff (some m) none h = cc
same_id_iff none (some n) h = cc
same_id_iff (some m) (some n) h = let e : m ≡ n = ground (arith, h) in (n, ap some e, refl)

module _ (dept proj : Option ℕ) where
  in_scope-Covers :
      (scope : Scope) (b : Budget)
      → b.scope_type ≡ scope
      → in_scope scope b.scope_id dept proj ≡ true
      → Covers dept proj b
  in_scope-Covers Scope.organization b s h = whole s
  in_scope-Covers Scope.department b s h =
      let (n, x, y) = same_id_iff b.scope_id dept h in of_department n s x y
  in_scope-Covers Scope.project b s h =
      let (n, x, y) = same_id_iff b.scope_id proj h in of_project n s x y

  Covers-in_scope :
      (b : Budget) → Covers dept proj b → in_scope b.scope_type b.scope_id dept proj ≡ true
  Covers-in_scope b (whole s) = rw s refl
  Covers-in_scope b (of_department d s x y) = rw (s, x, y) (==_refl d)
  Covers-in_scope b (of_project p s x y) = rw (s, x, y) (==_refl p)

  module _ (month : Time) (org_id : ℕ) (books : Books) (b : Budget) where
    exhausted_spent :
        b.org_id ≡ org_id
        → is_exhausted month org_id books b
          ≡ (not (b.amount == 0) && leb (3600 * b.amount) (83 * spent_of month books b))
    exhausted_spent same =
        let spent =
          subst
            (λ o.
              scope_spend_inr month o b.scope_type b.scope_id books ≡ 83 * spent_of month books b)
            same (spent-total month books b) in
        ap (λ n. not (b.amount == 0) && leb (3600 * b.amount) n) spent

    pub stops-Permits :
        stops month org_id dept proj books b ≡ false → Permits month org_id dept proj books b
    stops-Permits h = elim (Bool-cases (b.org_id == org_id)) [
      | inr o ↦ foreign (λ e. ground (arith, o, e))
      | inl o ↦ elim (Bool-cases (in_scope b.scope_type b.scope_id dept proj)) [
        | inr c ↦ elsewhere (λ k. let t = Covers-in_scope b k in ground (arith, c, t))
        | inl c ↦
            let same : b.org_id ≡ org_id = ground (arith, o) in
            let unspent : is_exhausted month org_id books b ≡ false = rw (o, c) at h in
            let spent = sym (exhausted_spent same) ∙ unspent in
            elim (Bool-cases (b.amount == 0)) [
              | inl z ↦ unlimited (ground (arith, z))
              | inr z ↦ left (ground (arith, z, spent))
            ]
      ]
    ]

    pub Permits-stops :
        Permits month org_id dept proj books b → stops month org_id dept proj books b ≡ false
    Permits-stops p = elim (Bool-cases (b.org_id == org_id)) [
      | inr o ↦ rw o refl
      | inl o ↦ elim (Bool-cases (in_scope b.scope_type b.scope_id dept proj)) [
        | inr c ↦ rw (o, c) refl
        | inl c ↦
            let same : b.org_id ≡ org_id = ground (arith, o) in
            rw (o, c) (exhausted_spent same ∙ within p same c)
      ]
    ]
      where
        within :
            Permits month org_id dept proj books b
            → b.org_id ≡ org_id
            → in_scope b.scope_type b.scope_id dept proj ≡ true
            → (not (b.amount == 0) && leb (3600 * b.amount) (83 * spent_of month books b)) ≡ false
        within (foreign f) same c = absurd (f same)
        within (elsewhere f) same c = absurd (f (in_scope-Covers b.scope_type b refl c))
        within (unlimited z) same c = rw z refl
        within (left l) same c = ground (arith, l)
