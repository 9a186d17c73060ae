-- ===== src/Identity/Devices/Labels.antt =====
-- The labels of a device (gpu-platform/internal/identity/sessions.go).
use node_hive_b2b.Prelude.{
  ℕ, suc, ◌≤◌, ◌≡◌, refl, false, [], ◌∷◌, ltb, length, arith, Bool-cases, inl, inr, length-take-le,
}
use node_hive_b2b.Text.{Text, is_empty}
use node_hive_b2b.Identity.Devices.{
  DeviceInfo, Browser, System, edge, opera, chrome, chromium, firefox, safari, curl, windows, ios,
  ipados, macos, android, linux, clip, browser_name, system_name, browser_of, system_of, device_of,
  or_else, labelled, normalized,
}

clip-le : (s : Text) (n : ℕ) → length (clip s n) ≤ n
unfolding clip
clip-le s n = elim (Bool-cases (ltb n (length s))) [
  | inl e ↦ rw e (length-take-le n s)
  | inr e ↦ rw e (ground arith)
]

-- Cutting keeps a label from becoming empty.
clip-nonempty : (s : Text) (n : ℕ) → is_empty s ≡ false → is_empty (clip s (suc n)) ≡ false
unfolding clip
clip-nonempty [] n h = cc
clip-nonempty (c ∷ s) n h = elim (Bool-cases (ltb (suc n) (length (c ∷ s)))) [
  | inl e ↦ rw e refl
  | inr e ↦ rw e refl
]

or_else-nonempty : (s t : Text) → is_empty t ≡ false → is_empty (or_else s t) ≡ false
or_else-nonempty [] t h = h
or_else-nonempty (c ∷ s) t h = refl

browser-nonempty : (b : Browser) → is_empty (browser_name b) ≡ false
browser-nonempty edge = refl
browser-nonempty opera = refl
browser-nonempty chrome = refl
browser-nonempty chromium = refl
browser-nonempty firefox = refl
browser-nonempty safari = refl
browser-nonempty curl = refl
browser-nonempty Browser.unknown = refl

system-nonempty : (os : System) → is_empty (system_name os) ≡ false
system-nonempty windows = refl
system-nonempty ios = refl
system-nonempty ipados = refl
system-nonempty macos = refl
system-nonempty android = refl
system-nonempty linux = refl
system-nonempty System.unknown = refl

device-nonempty : (b : Browser) (os : System) → is_empty (device_of b os) ≡ false
unfolding device_of
device-nonempty edge os = ground arith
device-nonempty opera os = ground arith
device-nonempty chrome os = ground arith
device-nonempty chromium os = ground arith
device-nonempty firefox os = ground arith
device-nonempty safari os = ground arith
device-nonempty curl os = ground arith
device-nonempty Browser.unknown windows = refl
device-nonempty Browser.unknown ios = refl
device-nonempty Browser.unknown ipados = refl
device-nonempty Browser.unknown macos = refl
device-nonempty Browser.unknown android = refl
device-nonempty Browser.unknown linux = refl
device-nonempty Browser.unknown System.unknown = refl

-- A device as it is stored.
pub record IsLabelled (d : DeviceInfo) : Type 0 where
  pub user_agent_short : length d.user_agent ≤ 512
  pub device_name_short : length d.device_name ≤ 120
  pub browser_short : length d.browser ≤ 60
  pub os_short : length d.os ≤ 60
  pub ip_address_short : length d.ip_address ≤ 64
  pub device_named : is_empty d.device_name ≡ false
  pub browser_named : is_empty d.browser ≡ false
  pub os_named : is_empty d.os ≡ false

-- Whatever a client sends, every field of the device that is stored is within its bound, and its
-- device, browser and system have names.
pub normalized-IsLabelled :
    (to_lower : Text → Text) (d : DeviceInfo) → IsLabelled (normalized to_lower d)
unfolding normalized labelled
normalized-IsLabelled to_lower d =
    let b = browser_of (to_lower d.user_agent) in
    let os = system_of (to_lower d.user_agent) in
    record {
      user_agent_short = clip-le d.user_agent 512;
      device_name_short = clip-le (or_else d.device_name (device_of b os)) 120;
      browser_short = clip-le (or_else d.browser (browser_name b)) 60;
      os_short = clip-le (or_else d.os (system_name os)) 60;
      ip_address_short = clip-le d.ip_address 64;
      device_named = clip-nonempty _ 119 (or_else-nonempty d.device_name _ (device-nonempty b os));
      browser_named = clip-nonempty _ 59 (or_else-nonempty d.browser _ (browser-nonempty b));
      os_named = clip-nonempty _ 59 (or_else-nonempty d.os _ (system-nonempty os));
    }
