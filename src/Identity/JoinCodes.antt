-- ===== src/Identity/JoinCodes.antt =====
-- Join codes: `JoinViaCode` and `joinOrgTx` in gpu-platform/internal/identity/memberships.go.
pub mod Uses
use node_hive_b2b.Prelude.{
  ℕ, suc, ◌+◌, Bool, true, false, not, ◌&&◌, ◌||◌, List, [], ◌∷◌, ◌++◌, Option, none, some, ltb,
  ◌==◌, if◌then◌else◌, is_null, Result, ok, err, ◌>>=◌, ◌>>◌, guard, or_fail,
}
use node_hive_b2b.Text.{Text, is_empty, trim_space}
use node_hive_b2b.Domain.{Role, normalize}
use node_hive_b2b.Sql.{select, update, count, find}
use node_hive_b2b.Store.{Time}
use node_hive_b2b.Identity.Members.{Member, User, Directory, is_member}

-- A row of organization_join_codes; 0 stands for no limit.
pub record JoinCode : Type 0 where
  pub id : ℕ
  pub org_id : ℕ
  pub code_hash : ℕ
  pub uses : ℕ
  pub max_uses : ℕ
  pub expires_at : Time
  pub revoked_at : Option Time

pub record Joining : Type 0 where
  pub directory : Directory
  pub codes : List JoinCode

pub data JoinError : Type 0 where
  join_code_invalid invalid_credentials already_member : JoinError

-- The WHERE of the claim.
abbrev pub can_use : ℕ → Time → JoinCode → Bool
can_use hash now c =
    c.code_hash == hash
    && (is_null c.revoked_at
        && (ltb now c.expires_at && (c.max_uses == 0 || ltb c.uses c.max_uses)))

abbrev pub claim_code : ℕ → Time → List JoinCode → List JoinCode
claim_code hash now codes = update (can_use hash now) (λ c. record c { uses = c.uses + 1 }) codes

-- INSERT … ON CONFLICT (org_id, user_id) DO UPDATE SET role.
unfoldable pub upsert_member : ℕ → ℕ → Role → List Member → List Member
upsert_member org_id user_id role ms =
    if count (is_member org_id user_id) ms == 0
    then ms ++ record { org_id = org_id; user_id = user_id; role = role } ∷ []
    else update (is_member org_id user_id) (λ m. record m { role = role }) ms

abbrev pub is_unattached : ℕ → User → Bool
is_unattached user_id u = u.id == user_id && is_null u.org_id

unfoldable pub join_org : ℕ → ℕ → Role → Directory → Result JoinError Directory
unfolding upsert_member
join_org user_id org_id role d = do
  u ← or_fail (find (is_unattached user_id) d.users) already_member
  ok (record d {
    users =
        update (is_unattached user_id)
          (λ x. record x { org_id = some org_id; role = normalize role }) d.users;
    members = upsert_member org_id user_id (normalize role) d.members;
  })

-- `hash` is the SHA-256 of a code, and `is_active` tells which users have the status `active`.
unfoldable pub join_via_code :
    (Text → ℕ) → (ℕ → Bool) → Time → ℕ → Text → Joining → Result JoinError Joining
unfolding join_org
join_via_code hash is_active now user_id raw j = do
  guard (not (is_empty (trim_space raw))) join_code_invalid
  u ← or_fail (find (λ x. x.id == user_id && is_active x.id) j.directory.users) invalid_credentials
  guard (is_null u.org_id) already_member
  c ← or_fail (find (can_use (hash (trim_space raw)) now) j.codes) join_code_invalid
  joined ← join_org user_id c.org_id Role.member j.directory
  ok (record { directory = joined; codes = claim_code (hash (trim_space raw)) now j.codes })
