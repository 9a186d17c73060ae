-- ===== src/Workloads/Request/Bounds.antt =====
-- What a validated launch request satisfies.
use node_hive_b2b.Prelude.{◌≤◌, ◌≡◌, true, false, ◌||◌, Option, none, some, arith, ok, All, [], ◌∷◌}
use node_hive_b2b.Prelude.Int.{ℤ, pos, negsuc, as_uint32, ◌≤ℤ◌}
use node_hive_b2b.Text.{Text, is_empty, len}
use node_hive_b2b.Workloads.ImageRef.{matches, image_ref_pattern}
use node_hive_b2b.Workloads.ImageRef.Safe.{is_safe, matches-All, image_ref_pattern-Over}
use node_hive_b2b.Workloads.Request.{
  LaunchRequest, check_idle_timeout, validate_launch, max_gpus_per_workload, max_name_len,
  max_image_len, min_idle_timeout_sec, max_idle_timeout_sec,
}

-- A validated idle timeout is unset or within the bounds, so its `uint32` is itself.
abbrev pub TimeoutInBounds : Option ℤ → Type 0
TimeoutInBounds none = Unit {0}
TimeoutInBounds (some t) =
    (pos min_idle_timeout_sec ≤ℤ t) × (t ≤ℤ pos max_idle_timeout_sec) × (pos (as_uint32 t) ≡ t)

pub record IsValidRequest (r : LaunchRequest) : Type 0 where
  pub named : is_empty r.name ≡ false
  pub name_bounded : len r.name ≤ max_name_len
  pub at_least_one : pos 1 ≤ℤ r.gpu_count
  pub at_most_max : r.gpu_count ≤ℤ pos max_gpus_per_workload
  pub image_bounded : len r.image ≤ max_image_len
  pub image_well_formed : (is_empty r.image || matches image_ref_pattern r.image) ≡ true
  pub timeout : TimeoutInBounds r.idle_timeout_sec

check_idle_timeout_bounds :
    (o : Option ℤ) {p : Option ℤ} → check_idle_timeout o ≡ ok p → TimeoutInBounds p
unfolding check_idle_timeout
check_idle_timeout_bounds o {p = none} h = tt
check_idle_timeout_bounds none {p = some t} h = cc
check_idle_timeout_bounds (some (negsuc n)) {p = some t} h = cc
check_idle_timeout_bounds (some (pos n)) {p = some (pos m)} h = ground arith
check_idle_timeout_bounds (some (pos n)) {p = some (negsuc m)} h = ground arith

pub validate_launch-IsValidRequest :
    (q : LaunchRequest) {r : LaunchRequest} → validate_launch q ≡ ok r → IsValidRequest r
unfolding validate_launch
validate_launch-IsValidRequest q h = ground (arith, check_idle_timeout_bounds q.idle_timeout_sec)

-- A launch that validates has an image reference of letters, digits and the characters of a registry
-- reference only, so no space, quote or shell character reaches the agent.
pub validate_launch-safe_image :
    (q : LaunchRequest) {r : LaunchRequest}
    → validate_launch q ≡ ok r
    → All (λ c. is_safe c ≡ true) r.image
validate_launch-safe_image q {r} h =
    safe r.image (validate_launch-IsValidRequest q h).image_well_formed
  where
    safe :
        (t : Text)
        → (is_empty t || matches image_ref_pattern t) ≡ true
        → All (λ c. is_safe c ≡ true) t
    safe [] e = tt
    safe (c ∷ cs) e = matches-All is_safe image_ref_pattern (c ∷ cs) image_ref_pattern-Over e
