-- ===== src/Identity/Sessions/Rotation.antt =====
-- Tokens that have been rotated away or revoked (gpu-platform/internal/identity/sessions.go).
use node_hive_b2b.Prelude.{
  ℕ, ◌≤◌, ◌<◌, ◌≡◌, ◌≢◌, refl, subst, true, false, not, ◌&&◌, some, arith, ◌==◌, length, Bool-cases,
  inl, inr, &&_true, ok, err, or_fail, or_fail-some, bind-ok, guard-ok, same_ok,
}
use node_hive_b2b.Text.{Text, is_empty, trim_space}
use node_hive_b2b.Sql.{update, count, find}
use node_hive_b2b.Sql.Counts.{
  count-update, count-update-none, count_zero_mono, find-count, not-find, length-update,
}
use node_hive_b2b.Sql.Keys.{find-updated}
use node_hive_b2b.Store.{Time}
use node_hive_b2b.Identity.Devices.{DeviceInfo, normalized}
use node_hive_b2b.Identity.Members.{User, Session, Directory, is_live}
use node_hive_b2b.Identity.Sessions.{
  Tokens, session_invalid, can_refresh, rotate_row, user_by_id, refresh_session, has_live_hash,
  revoke_session_row, revoke_session_by_refresh, session_id_by_refresh,
}

-- A token of no session that can be refreshed is refused.
refused :
    (t : Tokens) (now : Time) (raw new_raw : Text) (dev : DeviceInfo) (d : Directory)
    → count (can_refresh (t.hash raw) now) d.sessions ≡ 0
    → refresh_session t now raw new_raw dev d ≡ err session_invalid
unfolding refresh_session
refused t now raw new_raw dev d z = elim (Bool-cases (is_empty (trim_space raw))) [
  | inl e ↦ rw e refl
  | inr e ↦ rw (e, not-find (can_refresh (t.hash raw) now) d.sessions z) refl
]

-- What a refresh leaves.
pub record Rotates (t : Tokens) (now : Time) (raw new_raw : Text) (d : Directory) (u : User)
    (x : Session) (d' : Directory) : Type 0 where
  pub user_of : (x.user_id ≡ u.id) × (t.is_active u.id ≡ true)
  pub unexpired : now < x.expires_at
  pub old_refused :
      (later : Time) (next_raw : Text) (dev : DeviceInfo)
      → now ≤ later
      → refresh_session t later raw next_raw dev d' ≡ err session_invalid
  pub new_accepted :
      (later : Time) → later < x.expires_at → session_id_by_refresh t later new_raw d' ≡ ok x.id
  pub same_count : length d'.sessions ≡ length d.sessions
  pub same_live :
      (user_id : ℕ) → count (is_live user_id) d'.sessions ≡ count (is_live user_id) d.sessions

module _ (t : Tokens) (now : Time) (raw new_raw : Text) (dev : DeviceInfo) (d : Directory)
    (other : t.hash new_raw ≢ t.hash raw)
    (fresh : count (λ (y : Session). y.refresh_token_hash == t.hash new_raw) d.sessions ≡ 0)
    (named : is_empty (trim_space new_raw) ≡ false) where
  abbrev rotate : Session → Session
  rotate = rotate_row now (t.hash new_raw) dev

  abbrev rotated : Directory
  rotated = record d { sessions = update (can_refresh (t.hash raw) now) rotate d.sessions }

  old_gone :
      (later : Time) → now ≤ later → count (can_refresh (t.hash raw) later) rotated.sessions ≡ 0
  old_gone later h =
      count-update-none (can_refresh (t.hash raw) later) (can_refresh (t.hash raw) now) rotate
        d.sessions (λ y e. ground arith) (λ y e. ground arith)

  new_found :
      (x : Session) (later : Time)
      → find (can_refresh (t.hash raw) now) d.sessions ≡ some x
      → later < x.expires_at
      → find (can_refresh (t.hash new_raw) later) rotated.sessions ≡ some (rotate x)
  new_found x later e soon =
      let live = (find-count (can_refresh (t.hash raw) now) d.sessions e).0 in
      find-updated (can_refresh (t.hash raw) now) (can_refresh (t.hash new_raw) later) rotate
        d.sessions {a = x} e
        (count_zero_mono (can_refresh (t.hash new_raw) later)
          (λ y. y.refresh_token_hash == t.hash new_raw) d.sessions (λ y k. (&&_true _ _ k).0) fresh)
        (ground arith)

  rotated-Rotates :
      (x : Session) (u : User)
      → find (can_refresh (t.hash raw) now) d.sessions ≡ some x
      → find (λ v. v.id == x.user_id && t.is_active v.id) d.users ≡ some u
      → Rotates t now raw new_raw d u (rotate x) rotated
  unfolding session_id_by_refresh
  rotated-Rotates x u e f =
      let live = (find-count (can_refresh (t.hash raw) now) d.sessions e).0 in
      let (owner, active) =
        &&_true (u.id == x.user_id) (t.is_active u.id)
          (find-count (λ v. v.id == x.user_id && t.is_active v.id) d.users f).0 in
      record {
        user_of = (ground (arith, owner), active);
        unexpired = ground arith;
        old_refused =
            λ later next_raw dv h. refused t later raw next_raw dv rotated (old_gone later h);
        new_accepted = λ later soon. rw (named, new_found x later e soon) refl;
        same_count = length-update (can_refresh (t.hash raw) now) rotate d.sessions;
        same_live = λ user_id.
            count-update (is_live user_id) (can_refresh (t.hash raw) now) rotate d.sessions
              (λ y k. refl);
      }

-- A refresh that succeeds rotates the token: from then on the old token is refused at every time, and
-- the new one finds the session until it expires, for an active user. No session is added or lost,
-- and each user keeps as many live ones. The new token is not blank, and its SHA-256 is new.
pub refresh_session-Rotates :
    (t : Tokens) (now : Time) (raw new_raw : Text) (dev : DeviceInfo) (d d' : Directory) (u : User)
    (x : Session)
    → t.hash new_raw ≢ t.hash raw
    → count (λ (y : Session). y.refresh_token_hash == t.hash new_raw) d.sessions ≡ 0
    → is_empty (trim_space new_raw) ≡ false
    → refresh_session t now raw new_raw dev d ≡ ok (u, x, d')
    → Rotates t now raw new_raw d u x d'
unfolding refresh_session user_by_id
refresh_session-Rotates t now raw new_raw dev d d' u x other fresh named h =
    let (_, rest) = guard-ok (not (is_empty (trim_space raw))) session_invalid h in
    let (y, found, more) =
      bind-ok (or_fail (find (can_refresh (t.hash raw) now) d.sessions) session_invalid) rest in
    let (v, user, done) =
      bind-ok (or_fail (find (λ w. w.id == y.user_id && t.is_active w.id) d.users) session_invalid)
        more in
    subst (λ r. Rotates t now raw new_raw d r.0 r.1 r.2) (same_ok refl done)
      (rotated-Rotates t now raw new_raw (normalized t.to_lower dev) d other fresh named y v
        (or_fail-some _ session_invalid found) (or_fail-some _ session_invalid user))

refused_after_logout :
    (t : Tokens) (now later : Time) (raw new_raw : Text) (dev : DeviceInfo) (d : Directory)
    → refresh_session t later raw new_raw dev (revoke_session_by_refresh t now raw d).1
      ≡ err session_invalid
unfolding revoke_session_by_refresh refresh_session
refused_after_logout t now later raw new_raw dev d = elim (Bool-cases (is_empty (trim_space raw))) [
  | inl e ↦ rw e refl
  | inr e ↦
      let gone =
        count-update-none (can_refresh (t.hash raw) later) (has_live_hash (t.hash raw))
          (revoke_session_row now) d.sessions (λ y k. ground arith) (λ y k. ground arith) in
      rw (e, not-find (can_refresh (t.hash raw) later) _ gone) refl
]

others_after_logout :
    (t : Tokens) (now later : Time) (raw : Text) (d : Directory) (hash : ℕ)
    → hash ≢ t.hash raw
    → count (can_refresh hash later) (revoke_session_by_refresh t now raw d).1.sessions
      ≡ count (can_refresh hash later) d.sessions
unfolding revoke_session_by_refresh
others_after_logout t now later raw d hash other = elim (Bool-cases (is_empty (trim_space raw))) [
  | inl e ↦ rw e refl
  | inr e ↦ rw e (
      count-update (can_refresh hash later) (has_live_hash (t.hash raw)) (revoke_session_row now)
        d.sessions (λ y k. ground arith))
]

-- After a logout its refresh token is refused at every time, whether it had a session or not, and
-- every other token can be refreshed exactly when it could before.
pub revoke_session_by_refresh-refused :
    (t : Tokens) (now later : Time) (raw new_raw : Text) (dev : DeviceInfo) (d : Directory)
    (hash : ℕ)
    → hash ≢ t.hash raw
    → let d' = (revoke_session_by_refresh t now raw d).1 in
      (refresh_session t later raw new_raw dev d' ≡ err session_invalid)
      × (count (can_refresh hash later) d'.sessions ≡ count (can_refresh hash later) d.sessions)
revoke_session_by_refresh-refused t now later raw new_raw dev d hash other = (
  refused_after_logout t now later raw new_raw dev d,
  others_after_logout t now later raw d hash other,
)
