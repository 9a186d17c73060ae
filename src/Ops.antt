-- ===== src/Ops.antt =====
-- Operations: gpu-platform/internal/ops.
pub mod Budgets
pub mod Reservations
