-- ===== src/Gateway/Streams/Credentials.antt =====
-- A credential from its enrollment to its stream (gpu-platform/internal/agentgw/server.go and auth.go).
use node_hive_b2b.Prelude.{
  ℕ, ◌≡◌, refl, subst, ap, true, false, not, [], ◌∷◌, ◌++◌, some, str_eq, ok, err, Result, guard-ok,
  bind-ok, same_ok,
}
use node_hive_b2b.Text.{Text, is_empty}
use node_hive_b2b.Sql.{count}
use node_hive_b2b.Nodes.{NodeError, Fleet, is_node, has_key, enroll}
use node_hive_b2b.Nodes.Enrollment.{IsFleet, Enrolls, enroll-Enrolls}
use node_hive_b2b.Gateway.Streams.{
  Code, status, EnrollRequest, Enrolled, as_status, service_enroll, handle_enroll, bearer,
  bearer_prefix, stream_auth,
}

as_status-ok : {A : Type 0} (r : Result NodeError A) {a : A} → as_status r ≡ ok a → r ≡ ok a
as_status-ok (ok b) h = ap ok (same_ok refl h)
as_status-ok (err e) h = cc

-- The answer to an enrollment is a credential with which the agent's stream is authenticated as the
-- node, in the organization of the enrollment token, when SHA-256 of the random credential is new and
-- the header's prefix and spaces leave the credential as it is.
pub enroll_then_connect :
    (hash : Text → ℕ) (now drawn : ℕ) (credential : Text) (req : EnrollRequest) (f : Fleet)
    (e : Enrolled)
    → IsFleet f
    → count (is_node drawn) f.store.nodes ≡ 0
    → count (has_key (hash credential)) f.credentials ≡ 0
    → is_empty credential ≡ false
    → bearer ((bearer_prefix ++ credential) ∷ []) ≡ credential
    → handle_enroll hash now drawn credential req f ≡ ok e
    → (org_id : ℕ) × Enrolls now
        (hash req.enrollment_token)
        (hash credential)
        f
        e.node_id
        org_id
        e.fleet
      × (stream_auth hash true ((bearer_prefix ++ e.credential) ∷ []) e.fleet
          ≡ ok (some (e.node_id, org_id)))
unfolding handle_enroll service_enroll stream_auth
enroll_then_connect hash now drawn credential req f e v new_id new_key nonempty kept h =
    let (_, named) =
      guard-ok (not (is_empty req.enrollment_token))
        (status Code.invalid_argument "enrollment_token is required") h in
    let (_, served) =
      guard-ok (not (str_eq req.fingerprint ""))
        (status Code.invalid_argument "fingerprint is required") named in
    let (r, enrolled, done) =
      bind-ok
        (enroll now drawn (hash req.enrollment_token) req.fingerprint req.node (hash credential) f)
        (as_status-ok _ served) in
    let k =
      enroll-Enrolls now drawn (hash req.enrollment_token) req.fingerprint req.node
        (hash credential) f r.2 r.0 r.1 v new_id new_key enrolled in
    subst
      (λ x.
        (org_id : ℕ) × Enrolls now (hash req.enrollment_token) (hash credential) f x.node_id org_id
          x.fleet
        × (stream_auth hash true ((bearer_prefix ++ x.credential) ∷ []) x.fleet
            ≡ ok (some (x.node_id, org_id))))
      (same_ok refl done) (r.1, k, rw (kept, nonempty, k.authenticates) refl)
