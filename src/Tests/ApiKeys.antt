-- ===== src/Tests/ApiKeys.antt =====
-- The theorem on API keys at a machine's key.
use node_hive_b2b.Prelude.{◌↔◌, ◌≡◌, true, some, none, [], ◌∷◌, ok, length}
use node_hive_b2b.Text.{runes}
use node_hive_b2b.Domain.{Role}
use node_hive_b2b.Identity.ApiKeys.{Keyring, Principal, authenticate_api_key}
use node_hive_b2b.Identity.ApiKeys.Entitlement.{Entitles, authenticate_api_key_iff}

abbrev small_keyring : Keyring
small_keyring = record {
  keys =
      record {
        id = 1;
        org_id = 1;
        name = runes "ci";
        prefix = runes "nhk_12345678";
        key_hash = 8;
        user_id = none;
        service_account_id = some 3;
        created_by = 5;
        created_at = 0;
        expires_at = some 90;
        last_used_at = none;
        revoked_at = none;
      }
      ∷ [];
  accounts =
      record {
        id = 3;
        org_id = 1;
        name = runes "ci";
        description = [];
        role = Role.member;
        created_by = 5;
        created_at = 0;
        disabled_at = none;
      }
      ∷ [];
  users = [];
}

abbrev small_principal : Principal
small_principal = record { id = 3; org_id = 1; role = Role.member; is_service_account = true }

authenticate_api_key_iff_example :
    Entitles (λ s. length s) (λ u. true) 5 (runes "nhk_1234") small_keyring small_principal ↔ (
      (r' : Keyring) × (authenticate_api_key
          (λ s. length s)
          (λ u. true)
          5
          (runes "nhk_1234")
          small_keyring
        ≡ ok (small_principal, r')))
authenticate_api_key_iff_example =
    authenticate_api_key_iff (λ s. length s) (λ u. true) 5 (runes "nhk_1234") small_keyring
      small_principal
