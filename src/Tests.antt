-- ===== src/Tests.antt =====
-- The theorems applied to a small organization: one node with an idle GPU and one that a running
-- workload holds.
mod Fixtures
mod Workloads
mod Queue
mod Commands
mod Gateway
mod Nodes
mod Members
mod Sessions
mod ApiKeys
mod Agent
mod Fleet
mod Hub
mod Billing
mod RateLimit
