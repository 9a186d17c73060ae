-- ===== src/Nodes/Verdicts.antt =====
-- Every outcome of `Enroll` (gpu-platform/internal/nodes/repo.go), and the statuses under which
-- `ListEnrollmentTokens` (gpu-platform/internal/identity/impl.go) lists the tokens.
use node_hive_b2b.Prelude.{
  ℕ, ◌≤◌, ◌<◌, ◌≡◌, ◌≢◌, refl, Bool, false, String, List, [], ◌∷◌, ◌++◌, none, some, arith, ltb,
  leb, ◌==◌, Bool-cases, Option-cases, inl, inr, Result, ok, err,
}
use node_hive_b2b.Sql.{count, find, update}
use node_hive_b2b.Sql.Counts.{find-none-count}
use node_hive_b2b.Store.{Node}
use node_hive_b2b.Nodes.{
  NodeInfo, NodeError, EnrollmentToken, Fleet, has_fingerprint, is_node, with_nodes, new_node,
  refresh_row, revoke_all, store_credential, use_token, register_node, check_token, enroll,
  invalid_token, token_expired, token_exhausted, fingerprint_conflict,
}
use node_hive_b2b.Nodes.Tokens.{TokenStatus, token_status, revoked, expired, exhausted, active}

abbrev pub has_hash : ℕ → EnrollmentToken → Bool
has_hash token_hash t = t.token_hash == token_hash

-- The outcomes, each with its condition; the conditions exclude each other.
pub data Outcome (now drawn token_hash : ℕ) (fingerprint : String) (f : Fleet)
    (r : Result NodeError (ℕ × ℕ × Fleet)) : Type 0 where
  unknown :
      count (has_hash token_hash) f.tokens ≡ 0
      → r ≡ err invalid_token
      → Outcome now drawn token_hash fingerprint f r
  late :
      (t : EnrollmentToken)
      → find (has_hash token_hash) f.tokens ≡ some t
      → t.expires_at < now
      → r ≡ err token_expired
      → Outcome now drawn token_hash fingerprint f r
  used_up :
      (t : EnrollmentToken)
      → find (has_hash token_hash) f.tokens ≡ some t
      → now ≤ t.expires_at
      → t.max_uses ≤ t.uses
      → r ≡ err token_exhausted
      → Outcome now drawn token_hash fingerprint f r
  conflict :
      (t : EnrollmentToken) (n : Node)
      → find (has_hash token_hash) f.tokens ≡ some t
      → now ≤ t.expires_at
      → t.uses < t.max_uses
      → find (has_fingerprint fingerprint) f.store.nodes ≡ some n
      → n.org_id ≢ t.org_id
      → r ≡ err fingerprint_conflict
      → Outcome now drawn token_hash fingerprint f r
  renewed :
      (t : EnrollmentToken) (n : Node) (g : Fleet)
      → find (has_hash token_hash) f.tokens ≡ some t
      → now ≤ t.expires_at
      → t.uses < t.max_uses
      → find (has_fingerprint fingerprint) f.store.nodes ≡ some n
      → n.org_id ≡ t.org_id
      → r ≡ ok (n.id, t.org_id, g)
      → Outcome now drawn token_hash fingerprint f r
  added :
      (t : EnrollmentToken) (g : Fleet)
      → find (has_hash token_hash) f.tokens ≡ some t
      → now ≤ t.expires_at
      → t.uses < t.max_uses
      → count (has_fingerprint fingerprint) f.store.nodes ≡ 0
      → r ≡ ok (drawn, t.org_id, g)
      → Outcome now drawn token_hash fingerprint f r

module _ (now drawn token_hash : ℕ) (fingerprint : String) (info : NodeInfo) (key : ℕ)
    (f : Fleet) where
  abbrev used_by : EnrollmentToken → Fleet
  used_by t = record f { tokens = use_token t.id f.tokens }

  abbrev added_to : EnrollmentToken → Fleet
  added_to t =
      store_credential t.org_id drawn key (
        with_nodes (f.store.nodes ++ new_node now drawn t.org_id fingerprint info ∷ []) (used_by t))

  abbrev renewed_to : EnrollmentToken → Node → Fleet
  renewed_to t n = store_credential t.org_id n.id key (
      with_nodes (update (is_node n.id) (refresh_row now info) f.store.nodes)
        (record (used_by t) { credentials = revoke_all now n.id f.credentials }))

  admitted-Outcome :
      (t : EnrollmentToken)
      → find (has_hash token_hash) f.tokens ≡ some t
      → ltb t.expires_at now ≡ false
      → leb t.max_uses t.uses ≡ false
      → Outcome now drawn token_hash fingerprint f
          (enroll now drawn token_hash fingerprint info key f)
  unfolding enroll check_token register_node
  admitted-Outcome t h e u =
      elim (Option-cases (find (has_fingerprint fingerprint) f.store.nodes)) [
        | inl none_found ↦
            added t (added_to t) h (ground arith) (ground arith)
              (find-none-count (has_fingerprint fingerprint) f.store.nodes none_found)
              (rw (h, e, u, none_found) refl)
        | inr (n, found) ↦ elim (Bool-cases (n.org_id == t.org_id)) [
          | inl same ↦
              renewed t n (renewed_to t n) h (ground arith) (ground arith) found (ground arith)
                (rw (h, e, u, found, same) refl)
          | inr other ↦
              conflict t n h (ground arith) (ground arith) found (λ k. ground arith)
                (rw (h, e, u, found, other) refl)
        ]
      ]

  -- An enrollment is refused as one of four errors or succeeds, each in exactly the stated case: no
  -- such token, an expired one, one used up, a fingerprint of another organization; a known machine
  -- keeps its node, and a new one gets the drawn id.
  pub enroll-Outcome :
      Outcome now drawn token_hash fingerprint f
        (enroll now drawn token_hash fingerprint info key f)
  unfolding enroll check_token
  enroll-Outcome = elim (Option-cases (find (has_hash token_hash) f.tokens)) [
    | inl h ↦ unknown (find-none-count (has_hash token_hash) f.tokens h) (rw h refl)
    | inr (t, h) ↦ elim (Bool-cases (ltb t.expires_at now)) [
      | inl e ↦ late t h (ground arith) (rw (h, e) refl)
      | inr e ↦ elim (Bool-cases (leb t.max_uses t.uses)) [
        | inl u ↦ used_up t h (ground arith) (ground arith) (rw (h, e, u) refl)
        | inr u ↦ admitted-Outcome t h e u
      ]
    ]
  ]

-- What a listed status says about an enrollment.
abbrev pub verdict : TokenStatus → EnrollmentToken → Result NodeError EnrollmentToken
verdict revoked t = err invalid_token
verdict expired t = err token_expired
verdict exhausted t = err token_exhausted
verdict active t = ok t

abbrev pub unrevoked : EnrollmentToken → EnrollmentToken
unrevoked t = record t { revoked_at = none }

-- Enrollment decides about a token by the status under which it would be listed if it had never been
-- revoked: expired and used up tokens are refused with their error and active ones pass, and so do
-- revoked ones that are neither expired nor used up.
pub check_token_status :
    (now token_hash : ℕ) (ts : List EnrollmentToken) (t : EnrollmentToken)
    → find (has_hash token_hash) ts ≡ some t
    → check_token now token_hash ts ≡ verdict (token_status now (unrevoked t)) t
unfolding check_token token_status
check_token_status now token_hash ts t h = elim (Bool-cases (ltb t.expires_at now)) [
  | inl e ↦ rw (h, e) refl
  | inr e ↦ elim (Bool-cases (leb t.max_uses t.uses)) [
    | inl u ↦ rw (h, e, u) refl
    | inr u ↦ rw (h, e, u) refl
  ]
]
