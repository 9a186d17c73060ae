-- ===== src/Tests/Sessions.antt =====
-- The theorems on refresh sessions at the session of one user.
use node_hive_b2b.Prelude.{◌+◌, ◌≡◌, refl, true, some, [], ◌∷◌, err, length, arith}
use node_hive_b2b.Text.{runes, trim_space}
use node_hive_b2b.Domain.{Role}
use node_hive_b2b.Sql.{count, find, update}
use node_hive_b2b.Identity.Devices.{normalized}
use node_hive_b2b.Identity.Members.{User, Session}
use node_hive_b2b.Identity.Sessions.{
  Tokens, session_invalid, rotate_row, refresh_session, user_by_id, can_refresh,
  revoke_session_by_refresh,
}
use node_hive_b2b.Identity.Sessions.Rotation.{
  Rotates, refresh_session-Rotates, revoke_session_by_refresh-refused,
}
use node_hive_b2b.Tests.Members.{small_device, small_session, two_owners}

-- The hash of the example tells tokens apart by their lengths.
abbrev small_tokens : Tokens
small_tokens = record { hash = λ s. length s + 38; to_lower = λ s. s; is_active = λ u. true }

abbrev six : User
six = record { id = 6; org_id = some 1; role = Role.owner }

abbrev small_rotated : Session
small_rotated = rotate_row 5 43 (normalized (λ s. s) small_device) small_session

refresh_session-Rotates_example :
    Rotates small_tokens 5
      (runes "four")
      (runes "fives")
      two_owners
      six
      small_rotated
      (record two_owners { sessions = small_rotated ∷ [] })
unfolding refresh_session user_by_id trim_space find update count
refresh_session-Rotates_example =
    refresh_session-Rotates small_tokens 5 (runes "four") (runes "fives") small_device two_owners
      (record two_owners { sessions = small_rotated ∷ [] }) six small_rotated (λ e. omega arith)
      refl refl refl

revoke_session_by_refresh-refused_example :
    (refresh_session small_tokens 9
        (runes "four")
        (runes "fives")
        small_device
        (revoke_session_by_refresh small_tokens 5 (runes "four") two_owners).1
      ≡ err session_invalid)
    × (count
          (can_refresh 50 9)
          (revoke_session_by_refresh small_tokens 5 (runes "four") two_owners).1.sessions
        ≡ count (can_refresh 50 9) two_owners.sessions)
revoke_session_by_refresh-refused_example =
    revoke_session_by_refresh-refused small_tokens 5 9 (runes "four") (runes "fives") small_device
      two_owners 50 (λ e. omega arith)
