-- ===== src/Identity/Sessions.antt =====
-- Refresh sessions: gpu-platform/internal/identity/sessions.go.
pub mod Rotation
use node_hive_b2b.Prelude.{
  ℕ, ◌+◌, Bool, true, false, not, ◌&&◌, List, [], ◌∷◌, ◌++◌, Option, none, some, leb, ltb, ◌==◌,
  if◌then◌else◌, is_null, coalesce, Result, ok, err, ◌>>=◌, ◌>>◌, guard, or_fail,
}
use node_hive_b2b.Text.{Text, is_empty, trim_space}
use node_hive_b2b.Sql.{select, update, count, find, order_by}
use node_hive_b2b.Store.{Time}
use node_hive_b2b.Identity.Devices.{DeviceInfo, normalized}
use node_hive_b2b.Identity.Members.{User, Session, Directory, is_live, is_other_session}

pub data SessionError : Type 0 where
  session_invalid not_found : SessionError

-- What the operations use of the service: SHA-256 of a token, `strings.ToLower`, and the users whose
-- status is `active`.
pub record Tokens : Type 0 where
  pub hash : Text → ℕ
  pub to_lower : Text → Text
  pub is_active : ℕ → Bool

abbrev pub refresh_token_ttl : ℕ → ℕ
refresh_token_ttl ttl = if ltb 0 ttl then ttl else 2592000000000000

abbrev pub new_session : Tokens → Time → ℕ → ℕ → Text → ℕ → DeviceInfo → Session
new_session t now ttl id raw user_id dev = record {
  id = id;
  user_id = user_id;
  refresh_token_hash = t.hash raw;
  device = normalized t.to_lower dev;
  created_at = now;
  last_active_at = now;
  expires_at = now + refresh_token_ttl ttl;
  revoked_at = none;
}

-- `id` and `raw` are the drawn id and token; the raw token goes to the caller.
unfoldable pub create_session :
    Tokens → Time → ℕ → ℕ → Text → ℕ → DeviceInfo → Directory → Text × Session × Directory
create_session t now ttl id raw user_id dev d =
    let x = new_session t now ttl id raw user_id dev in
    (raw, x, record d { sessions = d.sessions ++ x ∷ [] })

-- The WHERE of the rotation.
abbrev pub can_refresh : ℕ → Time → Session → Bool
can_refresh hash now x =
    x.refresh_token_hash == hash && (is_null x.revoked_at && ltb now x.expires_at)

abbrev pub rotate_row : Time → ℕ → DeviceInfo → Session → Session
rotate_row now hash dev x = record x {
  refresh_token_hash = hash;
  last_active_at = now;
  device = record x.device { ip_address = dev.ip_address; user_agent = dev.user_agent };
}

unfoldable pub user_by_id : Tokens → ℕ → Directory → Result SessionError User
user_by_id t id d = or_fail (find (λ u. u.id == id && t.is_active u.id) d.users) session_invalid

-- The transaction of a refresh; without its user it is rolled back. Returned are the user, for whom
-- the access token is made, and the session.
unfoldable pub refresh_session :
    Tokens
    → Time
    → Text
    → Text
    → DeviceInfo
    → Directory
    → Result SessionError (User × Session × Directory)
unfolding user_by_id
refresh_session t now raw new_raw dev d = do
  guard (not (is_empty (trim_space raw))) session_invalid
  x ← or_fail (find (can_refresh (t.hash raw) now) d.sessions) session_invalid
  u ← user_by_id t x.user_id d
  let rotate = rotate_row now (t.hash new_raw) (normalized t.to_lower dev)
  ok (u, rotate x, record d { sessions = update (can_refresh (t.hash raw) now) rotate d.sessions })

-- Newest activity first.
unfoldable pub list_sessions : Time → ℕ → Directory → List Session
list_sessions now user_id d =
    order_by (λ x y. leb y.last_active_at x.last_active_at)
      (select (λ x. is_live user_id x && ltb now x.expires_at) d.sessions)

abbrev pub is_session_of : ℕ → ℕ → Session → Bool
is_session_of user_id id x = x.id == id && is_live user_id x

abbrev pub revoke_session_row : Time → Session → Session
revoke_session_row now x = record x { revoked_at = some now }

unfoldable pub revoke_session : Time → ℕ → ℕ → Directory → Result SessionError Directory
revoke_session now user_id id d = do
  guard (not (count (is_session_of user_id id) d.sessions == 0)) not_found
  ok (record d { sessions = update (is_session_of user_id id) (revoke_session_row now) d.sessions })

unfoldable pub revoke_all_sessions : Time → ℕ → Option ℕ → Directory → Directory
revoke_all_sessions now user_id except d = record d {
  sessions =
      update (λ x. is_live user_id x && is_other_session except x) (revoke_session_row now)
        d.sessions;
}

abbrev pub has_live_hash : ℕ → Session → Bool
has_live_hash hash x = x.refresh_token_hash == hash && is_null x.revoked_at

-- The user and the organization of the session, `none` for the zero UUIDs; a session has a user.
abbrev pub owner_of : Option Session → Directory → Option (ℕ × Option ℕ)
owner_of none d = none
owner_of (some x) d = elim (find (λ u. u.id == x.user_id) d.users) [
  | none ↦ none
  | some u ↦ some (u.id, u.org_id)
]

unfoldable pub revoke_session_by_refresh :
    Tokens → Time → Text → Directory → Option (ℕ × Option ℕ) × Directory
revoke_session_by_refresh t now raw d = if is_empty (trim_space raw) then (none, d) else (
  owner_of (find (has_live_hash (t.hash raw)) d.sessions) d,
  record d { sessions = update (has_live_hash (t.hash raw)) (revoke_session_row now) d.sessions },
)

unfoldable pub session_id_by_refresh : Tokens → Time → Text → Directory → Result SessionError ℕ
session_id_by_refresh t now raw d = do
  guard (not (is_empty (trim_space raw))) not_found
  x ← or_fail (find (can_refresh (t.hash raw) now) d.sessions) not_found
  ok x.id
