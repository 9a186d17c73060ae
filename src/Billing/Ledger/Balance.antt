-- ===== src/Billing/Ledger/Balance.antt =====
-- The running balance (gpu-platform/internal/billing/impl.go).
use node_hive_b2b.Prelude.{
  ℕ, ◌≡◌, refl, ◌∙◌, ap, String, [], Option, arith, ◌==◌, Bool-cases, inl, inr,
}
use node_hive_b2b.Prelude.Int.{ℤ, ◌+ℤ◌}
use node_hive_b2b.Sql.{find}
use node_hive_b2b.Store.{Time}
use node_hive_b2b.Billing.Ledger.{Ledger, of_org, latest_balance, post_ledger, sum_deltas}

-- The ledgers that posting makes, from the empty one on.
pub data IsPosted : Ledger → Type 0 where
  empty : IsPosted []
  post :
      (now : Time) (org_id : ℕ) (delta : ℤ) (kind description : String) (workload_id : Option ℕ)
      (l : Ledger)
      → IsPosted l
      → IsPosted (post_ledger now org_id delta kind description workload_id l)

-- However the entries of the organizations interleave, the latest balance of each is the sum of its
-- own deltas.
pub latest_balance-sum :
    (org_id : ℕ) (l : Ledger) → IsPosted l → latest_balance org_id l ≡ sum_deltas (of_org org_id) l
unfolding latest_balance sum_deltas post_ledger find
latest_balance-sum org_id l empty = refl
latest_balance-sum org_id l (post now o delta kind description w l' p) =
    elim (Bool-cases (o == org_id)) [
      | inl e ↦
          let same : o ≡ org_id = ground arith in
          rw e (
            ap (λ k. latest_balance k l' +ℤ delta) same
            ∙ ap (λ b. b +ℤ delta) (latest_balance-sum org_id l' p))
      | inr e ↦ rw e (latest_balance-sum org_id l' p)
    ]
