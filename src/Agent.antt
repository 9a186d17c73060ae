-- ===== src/Agent.antt =====
-- The agent: gpu-platform/agent/client/client.go.
pub mod Tracker
pub mod Reconnect
pub mod Handler
