-- ===== src/Workloads.antt =====
-- The Workloads module: gpu-platform/internal/workloads.
pub mod Steps
pub mod ImageRef
pub mod Request
pub mod Service
pub mod Place
pub mod Outbox
pub mod Launch
pub mod Invariant
pub mod Stop
pub mod Status
pub mod Queue
pub mod Sweep
