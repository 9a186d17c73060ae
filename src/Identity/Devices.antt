-- ===== src/Identity/Devices.antt =====
-- The device of a session: `DeviceInfo`, `normalized`, `clip` and `parseUserAgent` in
-- gpu-platform/internal/identity/sessions.go and identity.go. A Text is here a list of bytes.
pub mod Labels
use node_hive_b2b.Prelude.{
  ℕ, Bool, true, false, not, ◌&&◌, ◌||◌, List, [], ◌∷◌, ◌++◌, if◌then◌else◌, ltb, length, take,
}
use node_hive_b2b.Text.{Text, runes, is_empty, is_infix}

pub record DeviceInfo : Type 0 where
  pub user_agent : Text
  pub ip_address : Text
  pub device_name : Text
  pub browser : Text
  pub os : Text

unfoldable pub clip : Text → ℕ → Text
clip s n = if ltb n (length s) then take n s else s

pub data Browser : Type 0 where
  edge opera chrome chromium firefox safari curl unknown : Browser

pub data System : Type 0 where
  windows ios ipados macos android linux unknown : System

abbrev pub browser_name : Browser → Text
browser_name edge = runes "Edge"
browser_name opera = runes "Opera"
browser_name chrome = runes "Chrome"
browser_name chromium = runes "Chromium"
browser_name firefox = runes "Firefox"
browser_name safari = runes "Safari"
browser_name curl = runes "curl"
browser_name Browser.unknown = runes "Unknown"

abbrev pub system_name : System → Text
system_name windows = runes "Windows"
system_name ios = runes "iOS"
system_name ipados = runes "iPadOS"
system_name macos = runes "macOS"
system_name android = runes "Android"
system_name linux = runes "Linux"
system_name System.unknown = runes "Unknown"

-- The first switch; `l` is the user agent in lower case.
unfoldable pub browser_of : Text → Browser
unfolding is_infix
browser_of l =
    if is_infix (runes "edg/") l
    then edge
    else if is_infix (runes "opr/") l || is_infix (runes "opera") l
    then opera
    else if is_infix (runes "chrome/") l && not (is_infix (runes "chromium") l)
    then chrome
    else if is_infix (runes "chromium") l
    then chromium
    else if is_infix (runes "firefox/") l
    then firefox
    else if is_infix (runes "safari/") l && is_infix (runes "version/") l
    then safari
    else if is_infix (runes "curl/") l
    then curl
    else Browser.unknown

-- The second switch.
unfoldable pub system_of : Text → System
unfolding is_infix
system_of l =
    if is_infix (runes "windows") l
    then windows
    else if is_infix (runes "iphone") l
    then ios
    else if is_infix (runes "ipad") l
    then ipados
    else if is_infix (runes "mac os x") l || is_infix (runes "macintosh") l
    then macos
    else if is_infix (runes "android") l
    then android
    else if is_infix (runes "linux") l
    then linux
    else System.unknown

abbrev pub is_unknown_browser : Browser → Bool
is_unknown_browser edge = false
is_unknown_browser opera = false
is_unknown_browser chrome = false
is_unknown_browser chromium = false
is_unknown_browser firefox = false
is_unknown_browser safari = false
is_unknown_browser curl = false
is_unknown_browser Browser.unknown = true

abbrev pub is_unknown_system : System → Bool
is_unknown_system windows = false
is_unknown_system ios = false
is_unknown_system ipados = false
is_unknown_system macos = false
is_unknown_system android = false
is_unknown_system linux = false
is_unknown_system System.unknown = true

-- The third switch.
unfoldable pub device_of : Browser → System → Text
device_of b os =
    if is_unknown_system os && is_unknown_browser b
    then runes "Unknown device"
    else if is_unknown_browser b
    then system_name os
    else (browser_name b ++ runes " on ") ++ system_name os

abbrev pub or_else : Text → Text → Text
or_else s t = if is_empty s then t else s

-- What the source's nested tests fill in: each label that is empty.
unfoldable pub labelled : (Text → Text) → DeviceInfo → DeviceInfo
unfolding browser_of system_of device_of
labelled to_lower d =
    let b = browser_of (to_lower d.user_agent) in
    let os = system_of (to_lower d.user_agent) in
    record d {
      browser = or_else d.browser (browser_name b);
      os = or_else d.os (system_name os);
      device_name = or_else d.device_name (device_of b os);
    }

-- `to_lower` is `strings.ToLower`.
unfoldable pub normalized : (Text → Text) → DeviceInfo → DeviceInfo
unfolding labelled clip
normalized to_lower d =
    let l = labelled to_lower d in
    record {
      user_agent = clip l.user_agent 512;
      device_name = clip l.device_name 120;
      browser = clip l.browser 60;
      os = clip l.os 60;
      ip_address = clip l.ip_address 64;
    }
