-- ===== src/Identity/Members.antt =====
-- The membership operations: `ChangeMemberRole`, `RemoveMember`, `LeaveOrg`, `TransferOwnership`,
-- `memberRole` and `ownerCount` in gpu-platform/internal/identity/memberships.go.
pub mod Steps
pub mod Spares
pub mod Owners
use node_hive_b2b.Prelude.{
  ℕ, Bool, true, false, not, ◌&&◌, ◌||◌, List, [], ◌∷◌, Option, none, some, ltb, ◌==◌,
  if◌then◌else◌, is_null, holds_id, Result, ok, err, ◌>>=◌, ◌>>◌, guard, or_fail,
}
use node_hive_b2b.Domain.{Role, is_owner, normalize}
use node_hive_b2b.Sql.{select, update, count, find}
use node_hive_b2b.Store.{Time}
use node_hive_b2b.Identity.Devices.{DeviceInfo}

-- A row of organization_members.
pub record Member : Type 0 where
  pub org_id : ℕ
  pub user_id : ℕ
  pub role : Role

-- The columns of users that the operations read or write.
pub record User : Type 0 where
  pub id : ℕ
  pub org_id : Option ℕ
  pub role : Role

-- A row of user_sessions; a number stands for the SHA-256 of the refresh token.
pub record Session : Type 0 where
  pub id : ℕ
  pub user_id : ℕ
  pub refresh_token_hash : ℕ
  pub device : DeviceInfo
  pub created_at : Time
  pub last_active_at : Time
  pub expires_at : Time
  pub revoked_at : Option Time

pub record Directory : Type 0 where
  pub members : List Member
  pub users : List User
  pub sessions : List Session

pub data MemberError : Type 0 where
  invalid_role forbidden not_found last_owner : MemberError

abbrev pub is_member : ℕ → ℕ → Member → Bool
is_member org_id user_id m = m.org_id == org_id && m.user_id == user_id

abbrev pub is_owner_of : ℕ → Member → Bool
is_owner_of org_id m = m.org_id == org_id && is_owner m.role

abbrev pub is_user_in : ℕ → ℕ → User → Bool
is_user_in org_id user_id u = u.id == user_id && holds_id u.org_id org_id

unfoldable pub member_role : ℕ → ℕ → Directory → Result MemberError Role
member_role org_id user_id d = do
  m ← or_fail (find (is_member org_id user_id) d.members) not_found
  ok m.role

unfoldable pub owner_count : ℕ → Directory → ℕ
owner_count org_id d = count (is_owner_of org_id) d.members

-- Owner, admin or member, after `Normalize`.
abbrev pub is_known : Role → Bool
is_known Role.owner = true
is_known Role.admin = true
is_known Role.member = true
is_known Role.user = false
is_known (Role.other s) = false

-- The two UPDATEs of a role.
unfoldable pub set_role : ℕ → ℕ → Role → Directory → Directory
set_role org_id user_id role d = record d {
  members = update (is_member org_id user_id) (λ m. record m { role = role }) d.members;
  users = update (is_user_in org_id user_id) (λ u. record u { role = role }) d.users;
}

-- What `ChangeMemberRole` checks before its transaction.
unfoldable pub check_change : ℕ → ℕ → Role → ℕ → Role → Directory → Result MemberError (Unit {0})
unfolding member_role owner_count
check_change org_id actor_id actor_role target new_role d = do
  guard (is_known new_role) invalid_role
  guard (not (actor_id == target)) forbidden
  current ← member_role org_id target d
  guard (not ((is_owner new_role || is_owner current) && not (is_owner actor_role))) forbidden
  guard (not ((is_owner current && not (is_owner new_role)) && ltb (owner_count org_id d) 2))
      last_owner

unfoldable pub change_member_role :
    ℕ → ℕ → Role → ℕ → Role → Directory → Result MemberError Directory
unfolding check_change set_role
change_member_role org_id actor_id actor_role target new_role d = do
  check_change org_id actor_id actor_role target (normalize new_role) d
  ok (set_role org_id target (normalize new_role) d)

-- What `RemoveMember` checks before its transaction.
unfoldable pub check_remove : ℕ → ℕ → Role → ℕ → Directory → Result MemberError (Unit {0})
unfolding member_role owner_count
check_remove org_id actor_id actor_role target d = do
  guard (not (actor_id == target)) forbidden
  current ← member_role org_id target d
  guard (not (is_owner current && not (is_owner actor_role))) forbidden
  guard (not (is_owner current && ltb (owner_count org_id d) 2)) last_owner

-- The DELETE and the UPDATE that take a user out of an organization.
abbrev pub take_out : ℕ → ℕ → Directory → Directory
take_out org_id user_id d = record d {
  members = select (λ m. not (is_member org_id user_id m)) d.members;
  users =
      update (is_user_in org_id user_id) (λ u. record u { org_id = none; role = Role.member })
        d.users;
}

abbrev pub is_live : ℕ → Session → Bool
is_live user_id x = x.user_id == user_id && is_null x.revoked_at

-- The transaction of `RemoveMember`.
unfoldable pub remove_row : Time → ℕ → ℕ → Directory → Directory
remove_row now org_id target d = record (take_out org_id target d) {
  sessions = update (is_live target) (λ x. record x { revoked_at = some now }) d.sessions;
}

unfoldable pub remove_member : Time → ℕ → ℕ → Role → ℕ → Directory → Result MemberError Directory
unfolding check_remove remove_row
remove_member now org_id actor_id actor_role target d = do
  check_remove org_id actor_id actor_role target d
  ok (remove_row now org_id target d)

abbrev pub is_other_session : Option ℕ → Session → Bool
is_other_session none x = true
is_other_session (some id) x = not (x.id == id)

-- `role` is the caller's role as the request read it.
unfoldable pub leave_org : Time → ℕ → ℕ → Role → Option ℕ → Directory → Result MemberError Directory
unfolding owner_count
leave_org now org_id user_id role except d = do
  guard (not (is_owner (normalize role) && ltb (owner_count org_id d) 2)) last_owner
  u ← or_fail (find (is_user_in org_id user_id) d.users) not_found
  ok (record (take_out org_id user_id d) {
    sessions =
        update (λ x. is_live user_id x && is_other_session except x)
          (λ x. record x { revoked_at = some now }) d.sessions;
  })

unfoldable pub transfer_ownership : ℕ → ℕ → Role → ℕ → Directory → Result MemberError Directory
unfolding member_role set_role
transfer_ownership org_id actor_id actor_role target d = do
  guard (is_owner (normalize actor_role)) forbidden
  guard (not (actor_id == target)) forbidden
  current ← member_role org_id target d
  ok (set_role org_id target Role.owner (set_role org_id actor_id Role.admin d))
