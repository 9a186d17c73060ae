-- ===== src/Billing/Ledger.antt =====
-- The credit ledger: `postLedgerTx`, `AddCredit`, `CreditSummary` and `Ledger` in
-- gpu-platform/internal/billing/impl.go. Money is exact, in a unit that divides every amount: the
-- rounding of float64 and of numeric(14,4) is not modelled.
pub mod Balance
use node_hive_b2b.Prelude.{
  ℕ, ◌*◌, Bool, true, false, not, ◌&&◌, ◌||◌, String, List, [], ◌∷◌, Option, none, some, ltb, leb,
  ◌==◌, if◌then◌else◌, str_eq, take,
}
use node_hive_b2b.Prelude.Int.{ℤ, pos, negsuc, ◌+ℤ◌, ◌-ℤ◌, ltb_ℤ, leb_ℤ}
use node_hive_b2b.Sql.{select, find}
use node_hive_b2b.Store.{Time}

pub record LedgerEntry : Type 0 where
  pub org_id : ℕ
  pub delta : ℤ
  pub balance : ℤ
  pub kind : String
  pub description : String
  pub workload_id : Option ℕ
  pub created_at : Time

-- The rows of credit_ledger, by descending `seq`.
abbrev pub Ledger : Type 0
Ledger = List LedgerEntry

abbrev pub of_org : ℕ → LedgerEntry → Bool
of_org org_id e = e.org_id == org_id

abbrev pub balance_or_zero : Option LedgerEntry → ℤ
balance_or_zero none = pos 0
balance_or_zero (some e) = e.balance

-- SELECT balance … ORDER BY seq DESC LIMIT 1, or 0.
unfoldable pub latest_balance : ℕ → Ledger → ℤ
latest_balance org_id l = balance_or_zero (find (of_org org_id) l)

unfoldable pub post_ledger : Time → ℕ → ℤ → String → String → Option ℕ → Ledger → Ledger
unfolding latest_balance ◌+ℤ◌
post_ledger now org_id delta kind description workload_id l =
    record {
      org_id = org_id;
      delta = delta;
      balance = latest_balance org_id l +ℤ delta;
      kind = kind;
      description = description;
      workload_id = workload_id;
      created_at = now;
    }
    ∷ l

-- `none` is the error for an amount that is not positive; the balance is read again after the commit.
unfoldable pub add_credit : Time → ℕ → ℤ → String → String → Ledger → Option (ℤ × Ledger)
unfolding post_ledger latest_balance
add_credit now org_id amount kind description l =
    let posted =
      post_ledger now org_id amount (if str_eq kind "" then "topup" else kind) description none l in
    if leb_ℤ amount (pos 0) then none else some (latest_balance org_id posted, posted)

-- The sum of the org's deltas that satisfy a test.
unfoldable pub sum_deltas : (LedgerEntry → Bool) → Ledger → ℤ
unfolding ◌+ℤ◌
sum_deltas p [] = pos 0
sum_deltas p (e ∷ l) = let rest = sum_deltas p l in if p e then rest +ℤ e.delta else rest

pub record CreditSummary : Type 0 where
  pub balance : ℤ
  pub total_granted : ℤ
  pub total_spent : ℤ
  pub month_spent : ℤ
  pub recent_entries : List LedgerEntry

abbrev clamp_limit : ℤ → ℕ
clamp_limit (negsuc n) = 50
clamp_limit (pos n) = if n == 0 || ltb 500 n then 50 else n

-- `Ledger`: the newest entries of the org.
unfoldable pub list_ledger : ℕ → ℤ → Ledger → List LedgerEntry
list_ledger org_id limit l = take (clamp_limit limit) (select (of_org org_id) l)

abbrev pub granted : ℕ → LedgerEntry → Bool
granted org_id e = of_org org_id e && ltb_ℤ (pos 0) e.delta

abbrev pub spent : ℕ → LedgerEntry → Bool
spent org_id e = of_org org_id e && ltb_ℤ e.delta (pos 0)

abbrev pub spent_since : Time → ℕ → LedgerEntry → Bool
spent_since month org_id e = spent org_id e && leb month e.created_at

-- `month` is the beginning of the current month.
unfoldable pub credit_summary : Time → ℕ → Ledger → CreditSummary
unfolding latest_balance sum_deltas list_ledger ◌-ℤ◌
credit_summary month org_id l = record {
  balance = latest_balance org_id l;
  total_granted = sum_deltas (granted org_id) l;
  total_spent = pos 0 -ℤ sum_deltas (spent org_id) l;
  month_spent = pos 0 -ℤ sum_deltas (spent_since month org_id) l;
  recent_entries = list_ledger org_id (pos 10) l;
}
