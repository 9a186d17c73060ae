-- ===== src/Workloads/Request.antt =====
-- Launch requests and their validation: `LaunchRequest` in
-- gpu-platform/internal/workloads/workloads.go, `validateLaunch` in
-- gpu-platform/internal/workloads/impl.go.
pub mod Bounds
use node_hive_b2b.Prelude.{
  ℕ, Bool, true, false, not, ◌||◌, String, Option, none, some, ltb, leb, if◌then◌else◌, Result, ok,
  err, ◌>>=◌, ◌>>◌, guard,
}
use node_hive_b2b.Prelude.Int.{ℤ, pos, negsuc, ltb_ℤ, leb_ℤ}
use node_hive_b2b.Text.{Text, is_empty, len, trim_space}
use node_hive_b2b.Workloads.ImageRef.{matches, image_ref_pattern}

pub record LaunchRequest : Type 0 where
  pub user_id : ℕ
  pub project_id : Option ℕ
  pub department_id : Option ℕ
  pub name : Text
  pub template_id : Option ℕ
  pub image : Text
  pub gpu_type : String
  pub gpu_count : ℤ
  pub idle_timeout_sec : Option ℤ
  pub expose_ssh : Bool
  pub expose_jupyter : Bool

-- The reasons with which `ErrInvalidRequest` is wrapped.
pub data InvalidRequest : Type 0 where
  name_required name_too_long gpu_count_too_large image_too_long image_malformed : InvalidRequest
  idle_timeout_negative idle_timeout_too_small idle_timeout_too_large : InvalidRequest

abbrev pub max_gpus_per_workload : ℕ
max_gpus_per_workload = 16

abbrev pub max_name_len : ℕ
max_name_len = 120

abbrev pub max_image_len : ℕ
max_image_len = 256

abbrev pub min_idle_timeout_sec : ℕ
min_idle_timeout_sec = 60

-- 7 * 24 * 3600.
abbrev pub max_idle_timeout_sec : ℕ
max_idle_timeout_sec = 604800

-- The `switch` on `*req.IdleTimeoutSec`; 0 means the default.
unfoldable pub check_idle_timeout : Option ℤ → Result InvalidRequest (Option ℤ)
check_idle_timeout none = ok none
check_idle_timeout (some (negsuc n)) = err idle_timeout_negative
check_idle_timeout (some (pos t)) =
    if leb t 0
    then ok none
    else if ltb t min_idle_timeout_sec
    then err idle_timeout_too_small
    else if ltb max_idle_timeout_sec t
    then err idle_timeout_too_large
    else ok (some (pos t))

unfoldable pub validate_launch : LaunchRequest → Result InvalidRequest LaunchRequest
unfolding check_idle_timeout
validate_launch req = do
  let name = trim_space req.name
  guard (not (is_empty name)) name_required
  guard (not (ltb max_name_len (len name))) name_too_long
  guard (not (ltb_ℤ (pos max_gpus_per_workload) req.gpu_count)) gpu_count_too_large
  guard (not (ltb max_image_len (len req.image))) image_too_long
  guard (is_empty req.image || matches image_ref_pattern req.image) image_malformed
  let gpu_count : ℤ = if leb_ℤ req.gpu_count (pos 0) then pos 1 else req.gpu_count
  idle_timeout_sec ← check_idle_timeout req.idle_timeout_sec
  ok (record req { name = name; gpu_count = gpu_count; idle_timeout_sec = idle_timeout_sec })
