-- ===== src/Domain.antt =====
-- The shared vocabulary of the control plane: gpu-platform/internal/domain/domain.go.

use node_hive_b2b.Prelude.{ℕ, Bool, true, false, String, leb}

-- `type Role string`: the four known values and any other text.
pub data Role : Type 0 where
  owner admin member user : Role
  other : String → Role

-- Unknown roles rank 0, and the legacy `user` ranks with `member`.
unfoldable pub rank : Role → ℕ
rank owner = 3
rank admin = 2
rank member = 1
rank user = 1
rank (other s) = 0

unfoldable pub at_least : Role → Role → Bool
unfolding rank
at_least r least = leb (rank least) (rank r)

unfoldable pub normalize : Role → Role
normalize user = member
normalize owner = owner
normalize admin = admin
normalize member = member
normalize (other s) = other s

abbrev pub is_owner : Role → Bool
is_owner owner = true
is_owner admin = false
is_owner member = false
is_owner user = false
is_owner (other s) = false

pub data NodeStatus : Type 0 where
  online offline degraded : NodeStatus

pub data GpuStatus : Type 0 where
  healthy unhealthy in_use idle : GpuStatus

pub data WorkloadState : Type 0 where
  queued pending running stopping stopped failed : WorkloadState

pub data StopReason : Type 0 where
  user idle_reclaim admin failure : StopReason

-- `status IN ('pending','running','stopping')`: the states that hold GPUs.
abbrev pub is_active : WorkloadState → Bool
is_active queued = false
is_active pending = true
is_active running = true
is_active stopping = true
is_active stopped = false
is_active failed = false

-- `status IN ('stopped','failed')`.
abbrev pub is_terminal : WorkloadState → Bool
is_terminal queued = false
is_terminal pending = false
is_terminal running = false
is_terminal stopping = false
is_terminal stopped = true
is_terminal failed = true

abbrev pub is_queued : WorkloadState → Bool
is_queued queued = true
is_queued pending = false
is_queued running = false
is_queued stopping = false
is_queued stopped = false
is_queued failed = false

-- `status IN ('pending','running')`.
abbrev pub is_startable : WorkloadState → Bool
is_startable queued = false
is_startable pending = true
is_startable running = true
is_startable stopping = false
is_startable stopped = false
is_startable failed = false

abbrev pub is_idle : GpuStatus → Bool
is_idle healthy = false
is_idle unhealthy = false
is_idle in_use = false
is_idle idle = true

abbrev pub is_in_use : GpuStatus → Bool
is_in_use healthy = false
is_in_use unhealthy = false
is_in_use in_use = true
is_in_use idle = false

abbrev pub is_online : NodeStatus → Bool
is_online online = true
is_online offline = false
is_online degraded = false

abbrev pub is_offline : NodeStatus → Bool
is_offline online = false
is_offline offline = true
is_offline degraded = false
