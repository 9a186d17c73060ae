-- ===== src/Nodes/Tokens.antt =====
-- The operations on enrollment tokens: `IssueEnrollmentTokenDesc`, `IssueEnrollmentToken`,
-- `ListEnrollmentTokens` and `RevokeEnrollmentToken` in gpu-platform/internal/identity/impl.go, and
-- `EnsureEnrollmentToken` in gpu-platform/internal/nodes/repo.go.
use node_hive_b2b.Prelude.{
  ℕ, ◌+◌, Bool, not, ◌&&◌, String, List, [], ◌∷◌, ◌++◌, map, Option, none, some, leb, ltb, ◌==◌,
  if◌then◌else◌, is_null, Result, ok, ◌>>◌, guard,
}
use node_hive_b2b.Sql.{select, update, count, order_by}
use node_hive_b2b.Store.{Time}
use node_hive_b2b.Nodes.{EnrollmentToken}

abbrev pub new_token : Time → ℕ → ℕ → ℕ → Option ℕ → String → Time → ℕ → EnrollmentToken
new_token now id org_id hash created_by description expires_at max_uses = record {
  id = id;
  org_id = org_id;
  token_hash = hash;
  created_by = created_by;
  description = description;
  expires_at = expires_at;
  uses = 0;
  max_uses = max_uses;
  last_used_at = none;
  revoked_at = none;
  created_at = now;
}

-- `id` and `hash` are those of the token that is drawn.
unfoldable pub issue_enrollment_token_desc :
    Time → ℕ → ℕ → ℕ → ℕ → String → ℕ → ℕ → List EnrollmentToken → List EnrollmentToken
issue_enrollment_token_desc now id hash org_id created_by desc ttl max_uses ts =
    ts ++ new_token now id org_id hash (some created_by) desc (now + ttl) max_uses ∷ []

unfoldable pub issue_enrollment_token :
    Time → ℕ → ℕ → ℕ → ℕ → ℕ → ℕ → List EnrollmentToken → List EnrollmentToken
issue_enrollment_token now id hash org_id created_by ttl max_uses ts =
    ts ++ new_token now id org_id hash (some created_by) "" (now + ttl) max_uses ∷ []

pub data TokenStatus : Type 0 where
  revoked expired exhausted active : TokenStatus

unfoldable pub token_status : Time → EnrollmentToken → TokenStatus
token_status now t =
    if not (is_null t.revoked_at)
    then revoked
    else if ltb t.expires_at now
    then expired
    else if leb t.max_uses t.uses
    then exhausted
    else active

-- Newest first.
unfoldable pub list_enrollment_tokens :
    Time → ℕ → List EnrollmentToken → List (EnrollmentToken × TokenStatus)
unfolding token_status
list_enrollment_tokens now org_id ts =
    map (λ t. (t, token_status now t))
      (order_by (λ t u. leb u.created_at t.created_at) (select (λ t. t.org_id == org_id) ts))

pub data RevokeError : Type 0 where
  not_found_or_revoked : RevokeError

abbrev pub can_revoke : ℕ → ℕ → EnrollmentToken → Bool
can_revoke org_id id t = t.id == id && (t.org_id == org_id && is_null t.revoked_at)

unfoldable pub revoke_enrollment_token :
    Time → ℕ → ℕ → List EnrollmentToken → Result RevokeError (List EnrollmentToken)
revoke_enrollment_token now org_id id ts = do
  guard (not (count (can_revoke org_id id) ts == 0)) not_found_or_revoked
  ok (update (can_revoke org_id id) (λ t. record t { revoked_at = some now }) ts)

-- INSERT … ON CONFLICT (token_hash) DO UPDATE SET expires_at, max_uses.
unfoldable pub ensure_enrollment_token :
    Time → ℕ → ℕ → ℕ → Time → ℕ → List EnrollmentToken → List EnrollmentToken
ensure_enrollment_token now id org_id hash expires_at max_uses ts =
    if count (λ t. t.token_hash == hash) ts == 0
    then ts ++ new_token now id org_id hash none "" expires_at max_uses ∷ []
    else update (λ t. t.token_hash == hash)
        (λ t. record t { expires_at = expires_at; max_uses = max_uses }) ts
