-- ===== src/Nodes/Enrollment.antt =====
-- What an enrollment leaves: one live credential, for the token's organization
-- (`Enroll` and `AuthenticateAgent` in gpu-platform/internal/nodes/repo.go).
use node_hive_b2b.Prelude.{
  ◌∙◌, ℕ, ◌+◌, ◌≤◌, ◌<◌, ◌≡◌, refl, sym, subst, not, String, List, [], ◌∷◌, ◌++◌, Option, none,
  some, arith, ltb, leb, ◌==◌, Bool-cases, inl, inr, ok, or_fail, or_fail-some, bind-ok, guard-ok,
  same_ok, ==_refl, &&_true, if◌then◌else◌, false, true,
}
use node_hive_b2b.Sql.{count, find}
use node_hive_b2b.Sql.Counts.{
  count-append, count-update, count-update_self, find-count, find-update, count_zero_mono,
}
use node_hive_b2b.Sql.Keys.{find_key, find-append, find-updated_if, find-update_others}
use node_hive_b2b.Store.{Node}
use node_hive_b2b.Nodes.{
  NodeInfo, EnrollmentToken, Credential, Fleet, is_node, is_node_of, has_fingerprint, is_live_of,
  revoke_row, use_token, new_node, refresh_row, register_node, has_key, store_credential,
  check_token, enroll, is_live_key, authenticate_agent, invalid_token, token_expired,
  token_exhausted, fingerprint_conflict,
}

-- The keys of the tables, and the foreign key of the credentials.
pub record IsFleet (f : Fleet) : Type 0 where
  pub node_keys : (id : ℕ) → count (is_node id) f.store.nodes ≤ 1
  pub known :
      (id : ℕ)
      → count (is_node id) f.store.nodes ≡ 0
      → count (λ c. c.node_id == id) f.credentials ≡ 0
  pub key_once : (key : ℕ) → count (has_key key) f.credentials ≤ 1

-- What the registration of the node leaves, before the credential is stored.
record Registers (org_id : ℕ) (f : Fleet) (node_id : ℕ) (g : Fleet) : Type 0 where
  pub node : Node
  pub found : find (is_node node_id) g.store.nodes ≡ some node
  pub in_org : node.org_id ≡ org_id
  pub none_live : count (is_live_of node_id) g.credentials ≡ 0
  pub same_keys : (key : ℕ) → count (has_key key) g.credentials ≡ count (has_key key) f.credentials
  pub same_tokens : g.tokens ≡ f.tokens
  pub tenants :
      (org id : ℕ)
      → count (is_node_of org id) f.store.nodes ≤ count (is_node_of org id) g.store.nodes
  pub node_keys : (id : ℕ) → count (is_node id) g.store.nodes ≤ 1
  pub known :
      (id : ℕ)
      → count (is_node id) g.store.nodes ≡ 0
      → count (λ c. c.node_id == id) g.credentials ≡ 0

module _ (now drawn org_id : ℕ) (fingerprint : String) (info : NodeInfo) (f : Fleet)
    (v : IsFleet f) where
  inserted-keyed :
      count (is_node drawn) f.store.nodes ≡ 0
      → (id : ℕ)
      → count (is_node id) (f.store.nodes ++ new_node now drawn org_id fingerprint info ∷ []) ≤ 1
  unfolding count
  inserted-keyed fresh id = ground (
    arith,
    v.node_keys id,
    fresh,
    count-append (is_node id) f.store.nodes (new_node now drawn org_id fingerprint info ∷ []),
  )

  inserted-Registers :
      count (is_node drawn) f.store.nodes ≡ 0
      → (node_id : ℕ) (g : Fleet)
      → register_node now drawn org_id fingerprint info none f ≡ ok (node_id, g)
      → Registers org_id f node_id g
  unfolding register_node find
  inserted-Registers fresh node_id g e =
      let row = new_node now drawn org_id fingerprint info in
      subst (λ r. Registers org_id f r.0 r.1) (same_ok refl e)
        (record {
          node = row;
          found =
              rw (find-append (is_node drawn) f.store.nodes (row ∷ []) fresh, ==_refl drawn) refl;
          in_org = refl;
          none_live =
              count_zero_mono (is_live_of drawn) (λ c. c.node_id == drawn) f.credentials
                (λ c h. (&&_true _ _ h).0) (v.known drawn fresh);
          same_keys = λ key. refl;
          same_tokens = refl;
          tenants =
              λ org id. omega (arith, count-append (is_node_of org id) f.store.nodes (row ∷ []));
          node_keys = inserted-keyed fresh;
          known = λ id z.
              v.known id (omega (arith, z, count-append (is_node id) f.store.nodes (row ∷ [])));
        })

  -- A node of the token's organization stays where it is.
  refreshed-Registers :
      (n : Node) (node_id : ℕ) (g : Fleet)
      → find (has_fingerprint fingerprint) f.store.nodes ≡ some n
      → register_node now drawn org_id fingerprint info (some n) f ≡ ok (node_id, g)
      → Registers org_id f node_id g
  unfolding register_node
  refreshed-Registers n node_id g h e =
      let (same, done) = guard-ok (n.org_id == org_id) fingerprint_conflict e in
      let by_id =
        find_key (is_node n.id) (has_fingerprint fingerprint) f.store.nodes (v.node_keys n.id) h
          (==_refl n.id) in
      let (m, found, which) =
        find-update (is_node n.id) (is_node n.id) (refresh_row now info) f.store.nodes (λ x. refl)
          by_id in
      subst (λ r. Registers org_id f r.0 r.1) (same_ok refl done)
        (record {
          node = m;
          found = found;
          in_org = elim which [ inl k ↦ rw k (ground arith) | inr k ↦ rw k (ground arith) ];
          none_live =
              count-update_self (is_live_of n.id) (revoke_row now) f.credentials
                (λ c k. ground arith);
          same_keys = λ key.
              count-update (has_key key) (is_live_of n.id) (revoke_row now) f.credentials
                (λ c k. refl);
          same_tokens = refl;
          tenants = λ org id. omega (
            arith,
            count-update (is_node_of org id) (is_node n.id) (refresh_row now info) f.store.nodes
                (λ x k. refl),
          );
          node_keys = λ id. omega (
            arith,
            v.node_keys id,
            count-update (is_node id) (is_node n.id) (refresh_row now info) f.store.nodes
                (λ x k. refl),
          );
          known = λ id z.
              let before = v.known id (
                omega (
                  arith,
                  z,
                  count-update (is_node id) (is_node n.id) (refresh_row now info) f.store.nodes
                      (λ x k. refl),
                )) in
              omega (
                arith,
                before,
                count-update (λ c. c.node_id == id) (is_live_of n.id) (revoke_row now) f.credentials
                    (λ c k. refl),
              );
        })

  register-Registers :
      (o : Option Node) (node_id : ℕ) (g : Fleet)
      → count (is_node drawn) f.store.nodes ≡ 0
      → find (has_fingerprint fingerprint) f.store.nodes ≡ o
      → register_node now drawn org_id fingerprint info o f ≡ ok (node_id, g)
      → Registers org_id f node_id g
  register-Registers none node_id g fresh h e = inserted-Registers fresh node_id g e
  register-Registers (some n) node_id g fresh h e = refreshed-Registers n node_id g h e

-- What the stored credential makes of it.
module _ (org_id node_id key : ℕ) (f g : Fleet) (r : Registers org_id f node_id g)
    (fresh : count (has_key key) g.credentials ≡ 0) where
  abbrev stored : Fleet
  stored = store_credential org_id node_id key g

  abbrev row : Credential
  row = record { org_id = org_id; node_id = node_id; public_key = key; revoked_at = none }

  stored-credentials : stored.credentials ≡ g.credentials ++ row ∷ []
  unfolding store_credential
  stored-credentials = rw fresh refl

  stored-store : stored.store ≡ g.store
  unfolding store_credential
  stored-store = refl

  stored-tokens : stored.tokens ≡ g.tokens
  unfolding store_credential
  stored-tokens = refl

  row_live : count (is_live_of node_id) (row ∷ []) ≡ 1
  unfolding count
  row_live = ground arith

  stored-live : count (is_live_of node_id) stored.credentials ≡ 1
  stored-live = rw stored-credentials (
      omega
        (arith, count-append (is_live_of node_id) g.credentials (row ∷ []), r.none_live, row_live))

  stored-authenticates : authenticate_agent key stored ≡ ok (node_id, org_id)
  unfolding authenticate_agent find
  stored-authenticates =
      let none_live =
        count_zero_mono (is_live_key key) (has_key key) g.credentials (λ c h. (&&_true _ _ h).0)
          fresh in
      let none_before = find-append (is_live_key key) g.credentials (row ∷ []) none_live in
      let id_of : r.node.id ≡ node_id =
        ground (arith, (find-count (is_node node_id) g.store.nodes r.found).0) in
      rw (stored-credentials, none_before, ==_refl key, stored-store, r.found, id_of, r.in_org) refl

  row_known :
      (id : ℕ) → count (is_node id) g.store.nodes ≡ 0 → count (λ c. c.node_id == id) (row ∷ []) ≡ 0
  unfolding count
  row_known id z = elim (Bool-cases (node_id == id)) [
    | inl e ↦
        let same : node_id ≡ id = ground arith in
        absurd (omega (arith, z, (find-count (is_node id) g.store.nodes (rw same at r.found)).1))
    | inr e ↦ rw e refl
  ]

  row_once :
      (k : ℕ)
      → count (has_key k) f.credentials ≤ 1
      → count (has_key k) g.credentials + count (has_key k) (row ∷ []) ≤ 1
  unfolding count
  row_once k u = elim (Bool-cases (key == k)) [
    | inl e ↦ let same : k ≡ key = ground arith in rw (e, same, fresh) (omega arith)
    | inr e ↦ rw e (omega (arith, u, r.same_keys k))
  ]

  stored-IsFleet : IsFleet f → IsFleet stored
  stored-IsFleet v = record {
    node_keys = rw stored-store r.node_keys;
    known = λ id z.
        let none_in_g = rw stored-store at z in
        rw stored-credentials (
          omega (
            arith,
            count-append (λ c. c.node_id == id) g.credentials (row ∷ []),
            r.known id none_in_g,
            row_known id none_in_g,
          ));
    key_once = λ k. rw stored-credentials (
        omega
          (arith, count-append (has_key k) g.credentials (row ∷ []), row_once k (v.key_once k)));
  }

-- The token of a successful enrollment.
checked_token :
    (now token_hash : ℕ) (ts : List EnrollmentToken) (t : EnrollmentToken)
    → check_token now token_hash ts ≡ ok t
    → (find (λ x. x.token_hash == token_hash) ts ≡ some t)
      × (now ≤ t.expires_at)
      × (t.uses < t.max_uses)
unfolding check_token
checked_token now token_hash ts t e =
    let (x, found, rest) =
      bind-ok (or_fail (find (λ x. x.token_hash == token_hash) ts) invalid_token) e in
    let (in_time, more) = guard-ok (not (ltb x.expires_at now)) token_expired rest in
    let (left, done) = guard-ok (not (leb x.max_uses x.uses)) token_exhausted more in
    let same : x ≡ t = same_ok refl done in
    rw (sym same) (or_fail-some _ invalid_token found, ground arith, ground arith)

-- The token that is found is the one that is used.
used_once :
    (token_hash : ℕ) (ts : List EnrollmentToken) (t : EnrollmentToken)
    → find (λ x. x.token_hash == token_hash) ts ≡ some t
    → find (λ x. x.token_hash == token_hash) (use_token t.id ts)
      ≡ some (record t { uses = t.uses + 1 })
used_once token_hash ts t found =
    let mine : (t.id == t.id) ≡ true = ==_refl t.id in
    subst
      (λ b.
        find (λ x. x.token_hash == token_hash) (use_token t.id ts)
        ≡ some (if b then record t { uses = t.uses + 1 } else t))
      mine
      (find-updated_if (λ x. x.token_hash == token_hash) (λ x. x.id == t.id)
        (λ x. record x { uses = x.uses + 1 }) ts {a = t} (λ x. refl) found)

-- What an enrollment with a new credential leaves.
pub record Enrolls (now token_hash key : ℕ) (f : Fleet) (node_id org_id : ℕ) (g : Fleet)
    : Type 0 where
  pub token : EnrollmentToken
  pub found : find (λ x. x.token_hash == token_hash) f.tokens ≡ some token
  pub in_time : now ≤ token.expires_at
  pub use_left : token.uses < token.max_uses
  pub used :
      find (λ x. x.token_hash == token_hash) g.tokens
      ≡ some (record token { uses = token.uses + 1 })
  pub others :
      (id : ℕ)
      → (token.id == id) ≡ false
      → find (λ x. x.id == id) g.tokens ≡ find (λ x. x.id == id) f.tokens
  pub org : org_id ≡ token.org_id
  pub authenticates : authenticate_agent key g ≡ ok (node_id, org_id)
  pub one_live : count (is_live_of node_id) g.credentials ≡ 1
  pub tenants :
      (org id : ℕ)
      → count (is_node_of org id) f.store.nodes ≤ count (is_node_of org id) g.store.nodes
  pub keeps : IsFleet g

stored-Enrolls :
    (now token_hash key : ℕ) (f : Fleet) (t : EnrollmentToken) (node_id : ℕ) (g : Fleet)
    → IsFleet f
    → check_token now token_hash f.tokens ≡ ok t
    → Registers t.org_id (record f { tokens = use_token t.id f.tokens }) node_id g
    → count (has_key key) f.credentials ≡ 0
    → Enrolls now token_hash key f node_id t.org_id (store_credential t.org_id node_id key g)
stored-Enrolls now token_hash key f t node_id g v checked k new_key =
    let (found, in_time, left) = checked_token now token_hash f.tokens t checked in
    let used = record f { tokens = use_token t.id f.tokens } in
    let fresh : count (has_key key) g.credentials ≡ 0 = omega (arith, k.same_keys key, new_key) in
    let v_used : IsFleet used = record {
      node_keys = v.node_keys;
      known = v.known;
      key_once = v.key_once;
    } in
    let tokens = stored-tokens t.org_id node_id key used g k fresh ∙ k.same_tokens in
    record {
      token = t;
      found = found;
      in_time = in_time;
      use_left = left;
      used = rw tokens (used_once token_hash f.tokens t found);
      others = λ id e. rw tokens (
          find-update_others (λ x. x.id == id) (λ x. x.id == t.id) _ f.tokens (λ x. refl)
            (λ x h. ground (arith, h, e)));
      org = refl;
      authenticates = stored-authenticates t.org_id node_id key used g k fresh;
      one_live = stored-live t.org_id node_id key used g k fresh;
      tenants = λ org id. rw (stored-store t.org_id node_id key used g k fresh) (k.tenants org id);
      keeps = stored-IsFleet t.org_id node_id key used g k fresh v_used;
    }

-- An enrollment that succeeds with a new credential takes a token that is in time and not used up, and
-- counts one use more of it and of no other. The credential authenticates the node for the token's organization and is the node's only
-- live one. No node changes its organization, and the keys of the tables are kept.
pub enroll-Enrolls :
    (now drawn token_hash : ℕ) (fingerprint : String) (info : NodeInfo) (key : ℕ) (f g : Fleet)
    (node_id org_id : ℕ)
    → IsFleet f
    → count (is_node drawn) f.store.nodes ≡ 0
    → count (has_key key) f.credentials ≡ 0
    → enroll now drawn token_hash fingerprint info key f ≡ ok (node_id, org_id, g)
    → Enrolls now token_hash key f node_id org_id g
unfolding enroll
enroll-Enrolls now drawn token_hash fingerprint info key f g node_id org_id v new_id new_key e =
    let (t, checked, rest) = bind-ok (check_token now token_hash f.tokens) e in
    let used = record f { tokens = use_token t.id f.tokens } in
    let (r, registered, done) =
      bind-ok
        (register_node now drawn t.org_id fingerprint info
          (find (has_fingerprint fingerprint) f.store.nodes) used)
        rest in
    let v_used : IsFleet used = record {
      node_keys = v.node_keys;
      known = v.known;
      key_once = v.key_once;
    } in
    subst (λ x. Enrolls now token_hash key f x.0 x.1 x.2) (same_ok refl done)
      (stored-Enrolls now token_hash key f t r.0 r.1 v checked
        (register-Registers now drawn t.org_id fingerprint info used v_used _ r.0 r.1 new_id refl
          registered)
        new_key)
