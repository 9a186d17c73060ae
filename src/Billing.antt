-- ===== src/Billing.antt =====
-- The Billing module: gpu-platform/internal/billing. This file has what its clients name.
pub mod Ledger
pub mod Meter
pub mod Admission
use node_hive_b2b.Prelude.{String}

-- `ErrInsufficientCredit`, and `ErrBudgetExceeded` with the scope that it is wrapped with.
pub data AdmissionError : Type 0 where
  insufficient_credit : AdmissionError
  budget_exceeded : String → AdmissionError
