-- ===== src/Billing/Admission/Admits.antt =====
-- Which launches are admitted (gpu-platform/internal/billing/impl.go).
use node_hive_b2b.Prelude.{
  ℕ, suc, zero, ◌≡◌, refl, ◌↔◌, Bool, true, false, List, [], ◌∷◌, Option, none, some, if◌then◌else◌,
  Bool-cases, inl, inr, arith, All,
}
use node_hive_b2b.Prelude.Int.{ℤ, pos, negsuc, leb_ℤ}
use node_hive_b2b.Sql.{find, count}
use node_hive_b2b.Sql.Counts.{find-none-count, not-find}
use node_hive_b2b.Store.{Time}
use node_hive_b2b.Billing.{AdmissionError}
use node_hive_b2b.Billing.Ledger.{latest_balance}
use node_hive_b2b.Billing.Meter.{Books}
use node_hive_b2b.Billing.Admission.{Budget, stops, refused_by, authorize_launch}
use node_hive_b2b.Billing.Admission.Permits.{Permits, stops-Permits, Permits-stops}

count-All :
    (p : Budget → Bool) (P : Budget → Type 0) (bs : List Budget)
    → ((b : Budget) → p b ≡ false → P b)
    → count p bs ≡ 0
    → All P bs
unfolding count
count-All p P [] h z = tt
count-All p P (b ∷ bs) h z =
    let here : p b ≡ false = ground (arith, z) in (h b here, count-All p P bs h (ground (arith, z)))

All-count :
    (p : Budget → Bool) (P : Budget → Type 0) (bs : List Budget)
    → ((b : Budget) → P b → p b ≡ false)
    → All P bs
    → count p bs ≡ 0
unfolding count
All-count p P [] h a = refl
All-count p P (b ∷ bs) h a =
    let rest = All-count p P bs h a.1 in let here = h b a.0 in ground (arith, rest, here)

refused_none : (o : Option Budget) → refused_by o ≡ none → o ≡ none
refused_none none h = refl
refused_none (some b) h = cc

positive : (z : ℤ) → leb_ℤ z (pos 0) ≡ false → (n : ℕ) × (z ≡ pos (suc n))
positive (pos zero) h = absurd (ground (arith, h))
positive (pos (suc n)) h = (n, refl)
positive (negsuc n) h = absurd (ground (arith, h))

-- With enforcement, a launch is admitted exactly when the balance is positive and every budget permits
-- it: it is of another organization, it does not cover the launch's department or project, it is 0, or
-- more is left of it than nothing, counting the costs of its scope in the month.
pub authorize_launch_iff :
    (month : Time) (budgets : List Budget) (books : Books) (org_id : ℕ) (dept proj : Option ℕ)
    → (authorize_launch true month budgets books org_id dept proj ≡ none) ↔ (
        ((n : ℕ) × (latest_balance org_id books.ledger ≡ pos (suc n)))
        × All (Permits month org_id dept proj books) budgets)
unfolding authorize_launch
authorize_launch_iff month budgets books org_id dept proj = (to, from)
  where
    blocked : Budget → Bool
    blocked = stops month org_id dept proj books

    to :
        (if leb_ℤ (latest_balance org_id books.ledger) (pos 0)
            then some AdmissionError.insufficient_credit
            else refused_by (find blocked budgets))
          ≡ none
        → ((n : ℕ) × (latest_balance org_id books.ledger ≡ pos (suc n)))
          × All (Permits month org_id dept proj books) budgets
    to h = elim (Bool-cases (leb_ℤ (latest_balance org_id books.ledger) (pos 0))) [
      | inl e ↦ absurd (let q : some AdmissionError.insufficient_credit ≡ none = rw e at h in cc)
      | inr e ↦ (
        positive (latest_balance org_id books.ledger) e,
        count-All blocked (Permits month org_id dept proj books) budgets
            (λ b k. stops-Permits dept proj month org_id books b k)
            (find-none-count blocked budgets (refused_none (find blocked budgets) (rw e at h))),
      )
    ]

    from :
        ((n : ℕ) × (latest_balance org_id books.ledger ≡ pos (suc n)))
          × All (Permits month org_id dept proj books) budgets
        → (if leb_ℤ (latest_balance org_id books.ledger) (pos 0)
            then some AdmissionError.insufficient_credit
            else refused_by (find blocked budgets))
          ≡ none
    from ((n, e), a) =
        let above : leb_ℤ (pos (suc n)) (pos 0) ≡ false = ground arith in
        let none_found = not-find blocked budgets (
          All-count blocked (Permits month org_id dept proj books) budgets
            (λ b k. Permits-stops dept proj month org_id books b k) a) in
        rw (e, above, none_found) refl
