-- ===== src/Identity/ApiKeys/Entitlement.antt =====
-- Who an API key authenticates (gpu-platform/internal/identity/apikeys.go).
use node_hive_b2b.Prelude.{
  ℕ, ◌↔◌, ==_refl, ◌≡◌, refl, subst, ap, Bool, true, false, not, ◌&&◌, Option, none, some, arith,
  ◌==◌, is_null, holds_id, &&_true, ok, or_fail, or_fail-some, bind-ok, guard-ok, same_ok,
}
use node_hive_b2b.Text.{Text, is_prefix}
use node_hive_b2b.Domain.{normalize}
use node_hive_b2b.Sql.{find}
use node_hive_b2b.Store.{Time}
use node_hive_b2b.Identity.Members.{User}
use node_hive_b2b.Identity.ApiKeys.{
  ServiceAccount, ApiKey, Keyring, api_key_invalid, api_key_scheme, is_past, Principal, personal,
  machine, principal_of, touch_key, authenticate_api_key,
}

-- Whose key it is: an active user who belongs to the key's organization, or an account of this
-- organization that is not disabled.
pub data Holds (is_active : ℕ → Bool) (r : Keyring) (k : ApiKey) (p : Principal) : Type 0 where
  person :
      (id : ℕ) (u : User)
      → k.user_id ≡ some id
      → find (λ v. v.id == id && is_active v.id) r.users ≡ some u
      → u.org_id ≡ some k.org_id
      → record { id = u.id; org_id = k.org_id; role = u.role; is_service_account = false } ≡ p
      → Holds is_active r k p
  account :
      (id : ℕ) (a : ServiceAccount)
      → k.user_id ≡ none
      → k.service_account_id ≡ some id
      → find (λ b. b.id == id) r.accounts ≡ some a
      → a.disabled_at ≡ none
      → a.org_id ≡ k.org_id
      → record { id = a.id; org_id = a.org_id; role = normalize a.role; is_service_account = true }
        ≡ p
      → Holds is_active r k p

-- A key that is known, not revoked, not expired and held by the principal.
pub record Entitles (hash : Text → ℕ) (is_active : ℕ → Bool) (now : Time) (raw : Text) (r : Keyring)
    (p : Principal) : Type 0 where
  pub scheme : is_prefix api_key_scheme raw ≡ true
  pub key : ApiKey
  pub found : find (λ k. k.key_hash == hash raw) r.keys ≡ some key
  pub unrevoked : key.revoked_at ≡ none
  pub in_time : is_past now key.expires_at ≡ false
  pub holder : Holds is_active r key p

null_none : {A : Type 0} (o : Option A) → is_null o ≡ true → o ≡ none
null_none none h = refl
null_none (some a) h = cc

holds_some : (o : Option ℕ) (n : ℕ) → holds_id o n ≡ true → o ≡ some n
holds_some none n h = cc
holds_some (some m) n h = ap some (ground arith)

module _ (is_active : ℕ → Bool) (r : Keyring) (k : ApiKey) where
  personal-Holds :
      (id : ℕ) (p : Principal)
      → k.user_id ≡ some id
      → personal is_active k id r ≡ ok p
      → Holds is_active r k p
  unfolding personal
  personal-Holds id p e h =
      let (u, found, rest) =
        bind-ok (or_fail (find (λ v. v.id == id && is_active v.id) r.users) api_key_invalid) h in
      let (member, done) = guard-ok (holds_id u.org_id k.org_id) api_key_invalid rest in
      person id u e (or_fail-some _ api_key_invalid found) (holds_some u.org_id k.org_id member)
        (same_ok refl done)

  machine-Holds :
      (id : ℕ) (p : Principal)
      → k.user_id ≡ none
      → k.service_account_id ≡ some id
      → machine k id r ≡ ok p
      → Holds is_active r k p
  unfolding machine
  machine-Holds id p n e h =
      let (a, found, rest) =
        bind-ok (or_fail (find (λ b. b.id == id) r.accounts) api_key_invalid) h in
      let (enabled, done) =
        guard-ok (is_null a.disabled_at && a.org_id == k.org_id) api_key_invalid rest in
      let (null, org) = &&_true (is_null a.disabled_at) (a.org_id == k.org_id) enabled in
      account id a n e (or_fail-some _ api_key_invalid found) (null_none a.disabled_at null)
        (ground (arith, org)) (same_ok refl done)

  principal-Holds :
      (u a : Option ℕ) (p : Principal)
      → k.user_id ≡ u
      → k.service_account_id ≡ a
      → principal_of is_active k u a r ≡ ok p
      → Holds is_active r k p
  principal-Holds (some u) a p e f h = personal-Holds u p e h
  principal-Holds none (some a) p e f h = machine-Holds a p e f h
  principal-Holds none none p e f h = cc

  Holds-principal :
      (p : Principal)
      → Holds is_active r k p
      → principal_of is_active k k.user_id k.service_account_id r ≡ ok p
  unfolding personal machine
  Holds-principal p (person id u e found member same) =
      rw (e, found, member, ==_refl k.org_id) (ap ok same)
  Holds-principal p (account id a n e found enabled org same) =
      let member : (a.org_id == k.org_id) ≡ true = ground (arith, org) in
      rw (n, e, found, enabled, member) (ap ok same)

-- An API key authenticates a principal exactly when it is known, neither revoked nor expired, and held
-- by an active user who still belongs to the key's organization, with the user's current role, or by
-- an account of the organization that is not disabled.
pub authenticate_api_key_iff :
    (hash : Text → ℕ) (is_active : ℕ → Bool) (now : Time) (raw : Text) (r : Keyring) (p : Principal)
    → Entitles hash is_active now raw r p
      ↔ ((r' : Keyring) × (authenticate_api_key hash is_active now raw r ≡ ok (p, r')))
unfolding authenticate_api_key
authenticate_api_key_iff hash is_active now raw r p = (
  λ e. (
    record r { keys = touch_key now e.key.id r.keys },
    rw (e.scheme, e.found, e.unrevoked, e.in_time, Holds-principal is_active r e.key p e.holder)
        refl,
  ),
  λ o.
      let (scheme, known) = guard-ok (is_prefix api_key_scheme raw) api_key_invalid o.1 in
      let (k, found, rest) =
        bind-ok (or_fail (find (λ k. k.key_hash == hash raw) r.keys) api_key_invalid) known in
      let (live, more) =
        guard-ok (is_null k.revoked_at && not (is_past now k.expires_at)) api_key_invalid rest in
      let (null, in_time) = &&_true (is_null k.revoked_at) (not (is_past now k.expires_at)) live in
      let (q, held, done) =
        bind-ok (principal_of is_active k k.user_id k.service_account_id r) more in
      let same : q ≡ p = ap (λ x. x.0) (same_ok refl done) in
      record {
        scheme = scheme;
        key = k;
        found = or_fail-some _ api_key_invalid found;
        unrevoked = null_none k.revoked_at null;
        in_time = ground (arith, in_time);
        holder =
            subst (Holds is_active r k) same
              (principal-Holds is_active r k k.user_id k.service_account_id q refl refl held);
      },
)
