-- ===== src/Gateway/Streams.antt =====
-- Enrollment and the authentication of streams: `Enroll` and `enrollError` in
-- gpu-platform/internal/agentgw/server.go, gpu-platform/internal/agentgw/auth.go, and `Enroll` and
-- `AuthenticateAgent` in gpu-platform/internal/nodes/service.go.
pub mod Credentials
use node_hive_b2b.Prelude.{
  ℕ, Bool, true, false, not, String, List, [], ◌∷◌, ◌++◌, Option, none, some, if◌then◌else◌, str_eq,
  length, drop, Result, ok, err, ◌>>=◌, ◌>>◌, guard,
}
use node_hive_b2b.Text.{is_prefix, Text, runes, is_empty, trim_space}
use node_hive_b2b.Store.{Time}
use node_hive_b2b.Nodes.{
  NodeInfo, NodeError, Fleet, enroll, authenticate_agent, not_found, invalid_token, token_expired,
  token_exhausted, fingerprint_conflict, node_busy,
}

-- The codes of gRPC that the two handlers answer with.
pub data Code : Type 0 where
  invalid_argument unauthenticated permission_denied internal : Code

pub record Status : Type 0 where
  pub code : Code
  pub message : String

abbrev pub status : Code → String → Status
status code message = record { code = code; message = message }

unfoldable pub enroll_error : NodeError → Status
enroll_error invalid_token = status Code.unauthenticated "invalid enrollment token"
enroll_error token_expired = status Code.permission_denied "enrollment token expired"
enroll_error token_exhausted = status Code.permission_denied "enrollment token exhausted"
enroll_error fingerprint_conflict =
    status Code.permission_denied "this machine is already enrolled by another organization"
enroll_error not_found = status Code.internal "enrollment failed"
enroll_error node_busy = status Code.internal "enrollment failed"

pub record EnrollRequest : Type 0 where
  pub enrollment_token : Text
  pub fingerprint : String
  pub node : NodeInfo

abbrev pub as_status {ℓ} : {A : Type ℓ} → Result NodeError A → Result Status A
as_status (ok a) = ok a
as_status (err e) = err (enroll_error e)

-- What an enrollment answers, and the tables that it leaves.
pub record Enrolled : Type 0 where
  pub node_id : ℕ
  pub credential : Text
  pub fleet : Fleet

-- `hash` is SHA-256, `drawn` a new node's id, and `credential` the random credential.
unfoldable pub service_enroll :
    (Text → ℕ) → Time → ℕ → Text → Text → String → NodeInfo → Fleet → Result NodeError Enrolled
service_enroll hash now drawn credential token fingerprint info f = do
  r ← enroll now drawn (hash token) fingerprint info (hash credential) f
  ok (record { node_id = r.0; credential = credential; fleet = r.2 })

unfoldable pub handle_enroll :
    (Text → ℕ) → Time → ℕ → Text → EnrollRequest → Fleet → Result Status Enrolled
unfolding service_enroll enroll_error
handle_enroll hash now drawn credential req f = do
  guard (not (is_empty req.enrollment_token))
      (status Code.invalid_argument "enrollment_token is required")
  guard (not (str_eq req.fingerprint "")) (status Code.invalid_argument "fingerprint is required")
  as_status
      (service_enroll hash now drawn credential req.enrollment_token req.fingerprint req.node f)

abbrev pub bearer_prefix : Text
bearer_prefix = runes "Bearer "

-- `strings.TrimPrefix`.
unfoldable pub trim_prefix : Text → Text → Text
unfolding is_prefix
trim_prefix p s = if is_prefix p s then drop (length p) s else s

-- The first value of the header, without the prefix and the spaces around.
unfoldable pub bearer : List Text → Text
unfolding trim_prefix trim_space
bearer [] = []
bearer (v ∷ vs) = trim_space (trim_prefix bearer_prefix v)

abbrev pub as_agent : Result NodeError (ℕ × ℕ) → Result Status (Option (ℕ × ℕ))
as_agent (ok ids) = ok (some ids)
as_agent (err e) = err (status Code.unauthenticated "invalid agent credential")

-- What the interceptor puts into the stream's context: the node and its organization on Connect, and
-- nothing on other methods. `values` are those of the header `authorization`.
unfoldable pub stream_auth : (Text → ℕ) → Bool → List Text → Fleet → Result Status (Option (ℕ × ℕ))
unfolding bearer
stream_auth hash is_connect values f =
    if is_connect
    then (do
      guard (not (is_empty (bearer values)))
          (status Code.unauthenticated "missing agent credential")
      as_agent (authenticate_agent (hash (bearer values)) f))
    else ok none
