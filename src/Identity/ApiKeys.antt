-- ===== src/Identity/ApiKeys.antt =====
-- Service accounts and API keys: gpu-platform/internal/identity/apikeys.go. A Text is here a list of
-- bytes, and a number stands for the SHA-256 of a key.
pub mod Entitlement
use node_hive_b2b.Prelude.{
  ℕ, ◌+◌, Bool, true, false, not, ◌&&◌, ◌||◌, List, [], ◌∷◌, ◌++◌, map, Option, none, some, leb,
  ltb, ◌==◌, if◌then◌else◌, is_null, holds_id, length, take, Result, ok, err, ◌>>=◌, ◌>>◌, guard,
  or_fail,
}
use node_hive_b2b.Text.{Text, runes, is_empty, trim_space, is_prefix, text_eq}
use node_hive_b2b.Domain.{Role, normalize}
use node_hive_b2b.Sql.{select, update, count, find, order_by}
use node_hive_b2b.Store.{Time, minute}
use node_hive_b2b.Identity.Members.{User}

pub record ServiceAccount : Type 0 where
  pub id : ℕ
  pub org_id : ℕ
  pub name : Text
  pub description : Text
  pub role : Role
  pub created_by : ℕ
  pub created_at : Time
  pub disabled_at : Option Time

-- A row of api_keys.
pub record ApiKey : Type 0 where
  pub id : ℕ
  pub org_id : ℕ
  pub name : Text
  pub prefix : Text
  pub key_hash : ℕ
  pub user_id : Option ℕ
  pub service_account_id : Option ℕ
  pub created_by : ℕ
  pub created_at : Time
  pub expires_at : Option Time
  pub last_used_at : Option Time
  pub revoked_at : Option Time

pub record Keyring : Type 0 where
  pub keys : List ApiKey
  pub accounts : List ServiceAccount
  pub users : List User

pub data KeyError : Type 0 where
  name_required service_account_exists one_owner_required not_found api_key_invalid : KeyError

abbrev pub api_key_scheme : Text
api_key_scheme = runes "nhk_"

-- A machine is capped at admin.
unfoldable pub cap_role : Role → Role
cap_role Role.admin = Role.admin
cap_role Role.owner = Role.member
cap_role Role.member = Role.member
cap_role Role.user = Role.member
cap_role (Role.other s) = Role.member

abbrev pub new_account : Time → ℕ → ℕ → ℕ → Text → Text → Role → ServiceAccount
new_account now id org_id created_by name description role = record {
  id = id;
  org_id = org_id;
  name = trim_space name;
  description = trim_space description;
  role = cap_role role;
  created_by = created_by;
  created_at = now;
  disabled_at = none;
}

-- The names of an organization's accounts are unique.
unfoldable pub create_service_account :
    Time → ℕ → ℕ → ℕ → Text → Text → Role → Keyring → Result KeyError (ServiceAccount × Keyring)
unfolding cap_role
create_service_account now id org_id created_by name description role r = do
  guard (not (is_empty (trim_space name))) name_required
  guard (count (λ a. a.org_id == org_id && text_eq a.name (trim_space name)) r.accounts == 0)
      service_account_exists
  let a = new_account now id org_id created_by name description role
  ok (a, record r { accounts = r.accounts ++ a ∷ [] })

unfoldable pub list_service_accounts : ℕ → Keyring → List ServiceAccount
list_service_accounts org_id r =
    order_by (λ a b. leb b.created_at a.created_at) (select (λ a. a.org_id == org_id) r.accounts)

abbrev pub is_account_of : ℕ → ℕ → ServiceAccount → Bool
is_account_of org_id id a = a.id == id && a.org_id == org_id

-- The WHERE of the two queries.
abbrev pub can_toggle : Bool → ℕ → ℕ → ServiceAccount → Bool
can_toggle true org_id id a = is_account_of org_id id a && is_null a.disabled_at
can_toggle false org_id id a = is_account_of org_id id a

abbrev pub disabled_from : Bool → Time → Option Time
disabled_from true now = some now
disabled_from false now = none

unfoldable pub set_service_account_disabled :
    Time → ℕ → ℕ → Bool → Keyring → Result KeyError Keyring
set_service_account_disabled now org_id id disabled r = do
  guard (not (count (can_toggle disabled org_id id) r.accounts == 0)) not_found
  ok (record r {
    accounts =
        update (can_toggle disabled org_id id)
          (λ a. record a { disabled_at = disabled_from disabled now }) r.accounts;
  })

pub record ApiKeyRequest : Type 0 where
  pub name : Text
  pub owner_user_id : Option ℕ
  pub service_account_id : Option ℕ
  pub created_by : ℕ
  pub ttl : ℕ

pub data KeyStatus : Type 0 where
  revoked expired active : KeyStatus

abbrev pub is_past : Time → Option Time → Bool
is_past now none = false
is_past now (some t) = ltb t now

unfoldable pub api_key_status : Time → ApiKey → KeyStatus
api_key_status now k =
    if not (is_null k.revoked_at)
    then revoked
    else if is_past now k.expires_at
    then expired
    else active

abbrev pub one_of : Option ℕ → Option ℕ → Bool
one_of none none = false
one_of none (some b) = true
one_of (some a) none = true
one_of (some a) (some b) = false

abbrev pub new_key : (Text → ℕ) → Time → ℕ → Text → ℕ → ApiKeyRequest → ApiKey
new_key hash now id token org_id req = record {
  id = id;
  org_id = org_id;
  name = trim_space req.name;
  prefix = take (length api_key_scheme + 8) (api_key_scheme ++ token);
  key_hash = hash (api_key_scheme ++ token);
  user_id = req.owner_user_id;
  service_account_id = req.service_account_id;
  created_by = req.created_by;
  created_at = now;
  expires_at = if ltb 0 req.ttl then some (now + req.ttl) else none;
  last_used_at = none;
  revoked_at = none;
}

-- `token` is the random token; the raw key is returned.
unfoldable pub create_api_key :
    (Text → ℕ)
    → Time
    → ℕ
    → Text
    → ℕ
    → ApiKeyRequest
    → Keyring
    → Result KeyError (Text × ApiKey × Keyring)
create_api_key hash now id token org_id req r = do
  guard (not (is_empty (trim_space req.name))) name_required
  guard (one_of req.owner_user_id req.service_account_id) one_owner_required
  let k = new_key hash now id token org_id req
  ok (api_key_scheme ++ token, k, record r { keys = r.keys ++ k ∷ [] })

abbrev pub is_owned_by : Option ℕ → ApiKey → Bool
is_owned_by none k = true
is_owned_by (some u) k = holds_id k.user_id u

-- Newest first; with an owner, this user's keys only.
unfoldable pub list_api_keys : Time → ℕ → Option ℕ → Keyring → List (ApiKey × KeyStatus)
unfolding api_key_status
list_api_keys now org_id owner r =
    map (λ k. (k, api_key_status now k))
      (order_by (λ j k. leb k.created_at j.created_at)
        (select (λ k. k.org_id == org_id && is_owned_by owner k) r.keys))

abbrev pub can_revoke : ℕ → ℕ → Option ℕ → ApiKey → Bool
can_revoke org_id id owner k =
    k.id == id && (k.org_id == org_id && (is_null k.revoked_at && is_owned_by owner k))

unfoldable pub revoke_api_key : Time → ℕ → ℕ → Option ℕ → Keyring → Result KeyError Keyring
revoke_api_key now org_id id owner r = do
  guard (not (count (can_revoke org_id id owner) r.keys == 0)) not_found
  ok (record r {
    keys = update (can_revoke org_id id owner) (λ k. record k { revoked_at = some now }) r.keys;
  })

-- Who acts with a key.
pub record Principal : Type 0 where
  pub id : ℕ
  pub org_id : ℕ
  pub role : Role
  pub is_service_account : Bool

-- A personal key acts as its owner, with the owner's role, in the key's organization.
unfoldable pub personal : (ℕ → Bool) → ApiKey → ℕ → Keyring → Result KeyError Principal
personal is_active k user_id r = do
  u ← or_fail (find (λ u. u.id == user_id && is_active u.id) r.users) api_key_invalid
  guard (holds_id u.org_id k.org_id) api_key_invalid
  ok (record { id = u.id; org_id = k.org_id; role = u.role; is_service_account = false })

unfoldable pub machine : ApiKey → ℕ → Keyring → Result KeyError Principal
machine k account_id r = do
  a ← or_fail (find (λ a. a.id == account_id) r.accounts) api_key_invalid
  guard (is_null a.disabled_at && a.org_id == k.org_id) api_key_invalid
  ok (record { id = a.id; org_id = a.org_id; role = normalize a.role; is_service_account = true })

abbrev pub principal_of :
    (ℕ → Bool) → ApiKey → Option ℕ → Option ℕ → Keyring → Result KeyError Principal
principal_of is_active k (some u) account r = personal is_active k u r
principal_of is_active k none (some a) r = machine k a r
principal_of is_active k none none r = err api_key_invalid

-- `last_used_at < now() - interval '60 seconds'`.
abbrev pub is_stale_use : Time → Option Time → Bool
is_stale_use now none = true
is_stale_use now (some t) = ltb (t + minute) now

abbrev pub touch_key : Time → ℕ → List ApiKey → List ApiKey
touch_key now id ks =
    update (λ k. k.id == id && is_stale_use now k.last_used_at)
      (λ k. record k { last_used_at = some now }) ks

-- `is_active` tells which users have the status `active`.
unfoldable pub authenticate_api_key :
    (Text → ℕ) → (ℕ → Bool) → Time → Text → Keyring → Result KeyError (Principal × Keyring)
unfolding personal machine is_prefix
authenticate_api_key hash is_active now raw r = do
  guard (is_prefix api_key_scheme raw) api_key_invalid
  k ← or_fail (find (λ k. k.key_hash == hash raw) r.keys) api_key_invalid
  guard (is_null k.revoked_at && not (is_past now k.expires_at)) api_key_invalid
  p ← principal_of is_active k k.user_id k.service_account_id r
  ok (p, record r { keys = touch_key now k.id r.keys })
