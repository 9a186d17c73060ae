-- ===== src/Gateway.antt =====
-- The agents' gateway of the control plane: gpu-platform/internal/agentgw.
pub mod Reports
pub mod Streams
pub mod Dispatcher
pub mod Delivery
