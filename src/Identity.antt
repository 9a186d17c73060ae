-- ===== src/Identity.antt =====
-- Users, organizations and memberships: gpu-platform/internal/identity.
pub mod Devices
pub mod Members
pub mod Sessions
pub mod ApiKeys
pub mod JoinCodes
