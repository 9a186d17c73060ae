-- ===== src/Nodes.antt =====
-- Nodes, their credentials and their enrollment: gpu-platform/internal/nodes/repo.go and service.go.
-- `RemoveNode` is in Nodes/Remove, and the tokens' own operations are in Nodes/Tokens.
pub mod Remove
pub mod Enrollment
pub mod Verdicts
pub mod Removal
pub mod Tokens
use node_hive_b2b.Prelude.{
  ℕ, ◌+◌, Bool, true, false, not, ◌&&◌, String, List, [], ◌∷◌, ◌++◌, map, Option, none, some, leb,
  ltb, ◌==◌, if◌then◌else◌, is_null, str_eq, Result, ok, err, ◌>>=◌, ◌>>◌, guard, or_fail,
}
use node_hive_b2b.Prelude.Int.{ℤ}
use node_hive_b2b.Domain.{NodeStatus}
use node_hive_b2b.Sql.{select, update, count, find, order_by}
use node_hive_b2b.Store.{Time, Node, Gpu, Store}

pub data NodeError : Type 0 where
  not_found invalid_token token_expired token_exhausted fingerprint_conflict node_busy : NodeError

pub record NodeInfo : Type 0 where
  pub hostname : String
  pub os : String
  pub kernel : String
  pub cpu_model : String
  pub cpu_cores : ℤ
  pub ram_mb : ℤ
  pub nvidia_driver : String
  pub cuda_version : String
  pub agent_version : String

-- A row of enrollment_tokens. A number stands for a SHA-256.
pub record EnrollmentToken : Type 0 where
  pub id : ℕ
  pub org_id : ℕ
  pub token_hash : ℕ
  pub created_by : Option ℕ
  pub description : String
  pub expires_at : Time
  pub uses : ℕ
  pub max_uses : ℕ
  pub last_used_at : Option Time
  pub revoked_at : Option Time
  pub created_at : Time

-- A row of agent_credentials.
pub record Credential : Type 0 where
  pub org_id : ℕ
  pub node_id : ℕ
  pub public_key : ℕ
  pub revoked_at : Option Time

-- A row of agent_heartbeats; the mean utilization is a number of a unit that divides it.
pub record Heartbeat : Type 0 where
  pub org_id : ℕ
  pub node_id : ℕ
  pub ts : Time
  pub agent_version : String
  pub gpu_count : ℕ
  pub mean_util : ℕ

pub record Fleet : Type 0 where
  pub store : Store
  pub tokens : List EnrollmentToken
  pub credentials : List Credential
  pub heartbeats : List Heartbeat

abbrev pub with_nodes : List Node → Fleet → Fleet
with_nodes ns f = record f { store = record f.store { nodes = ns } }

abbrev pub is_node : ℕ → Node → Bool
is_node id n = n.id == id

abbrev pub has_fingerprint : String → Node → Bool
has_fingerprint fingerprint n = str_eq n.fingerprint fingerprint

-- WHERE node_id = … AND revoked_at IS NULL.
abbrev pub is_live_of : ℕ → Credential → Bool
is_live_of node_id c = c.node_id == node_id && is_null c.revoked_at

abbrev pub revoke_row : Time → Credential → Credential
revoke_row now c = record c { revoked_at = some now }

abbrev pub revoke_all : Time → ℕ → List Credential → List Credential
revoke_all now node_id cs = update (is_live_of node_id) (revoke_row now) cs

-- UPDATE enrollment_tokens SET uses = uses + 1.
abbrev pub use_token : ℕ → List EnrollmentToken → List EnrollmentToken
use_token id ts = update (λ t. t.id == id) (λ t. record t { uses = t.uses + 1 }) ts

abbrev pub new_node : Time → ℕ → ℕ → String → NodeInfo → Node
new_node now id org_id fingerprint info = record {
  id = id;
  org_id = org_id;
  fingerprint = fingerprint;
  hostname = info.hostname;
  status = NodeStatus.online;
  os = info.os;
  kernel = info.kernel;
  cpu_model = info.cpu_model;
  cpu_cores = info.cpu_cores;
  ram_mb = info.ram_mb;
  nvidia_driver = info.nvidia_driver;
  cuda_version = info.cuda_version;
  agent_version = info.agent_version;
  enrolled_at = now;
  last_seen_at = some now;
}

abbrev pub refresh_row : Time → NodeInfo → Node → Node
refresh_row now info n = record n {
  hostname = info.hostname;
  status = NodeStatus.online;
  os = info.os;
  kernel = info.kernel;
  cpu_model = info.cpu_model;
  cpu_cores = info.cpu_cores;
  ram_mb = info.ram_mb;
  nvidia_driver = info.nvidia_driver;
  cuda_version = info.cuda_version;
  agent_version = info.agent_version;
  last_seen_at = some now;
}

-- A first enrollment inserts the node with a drawn id. A fingerprint of another organization is
-- refused, and one of the same organization keeps its node and loses its credentials.
unfoldable pub register_node :
    Time → ℕ → ℕ → String → NodeInfo → Option Node → Fleet → Result NodeError (ℕ × Fleet)
register_node now drawn org_id fingerprint info none f =
    ok (drawn, with_nodes (f.store.nodes ++ new_node now drawn org_id fingerprint info ∷ []) f)
register_node now drawn org_id fingerprint info (some n) f = do
  guard (n.org_id == org_id) fingerprint_conflict
  let refreshed = update (is_node n.id) (refresh_row now info) f.store.nodes
  ok (n.id, with_nodes refreshed (record f { credentials = revoke_all now n.id f.credentials }))

-- INSERT INTO agent_credentials … ON CONFLICT (public_key) DO NOTHING.
abbrev pub has_key : ℕ → Credential → Bool
has_key key c = c.public_key == key

unfoldable pub store_credential : ℕ → ℕ → ℕ → Fleet → Fleet
store_credential org_id node_id key f = record f {
  credentials =
      if count (has_key key) f.credentials == 0
      then f.credentials
        ++ record { org_id = org_id; node_id = node_id; public_key = key; revoked_at = none } ∷ []
      else f.credentials;
}

-- What `Enroll` checks of the token.
unfoldable pub check_token : Time → ℕ → List EnrollmentToken → Result NodeError EnrollmentToken
check_token now token_hash ts = do
  t ← or_fail (find (λ t. t.token_hash == token_hash) ts) invalid_token
  guard (not (ltb t.expires_at now)) token_expired
  guard (not (leb t.max_uses t.uses)) token_exhausted
  ok t

-- The transaction; an error rolls it back, the use of the token included. Returned are the ids of the
-- node and of the organization.
unfoldable pub enroll :
    Time → ℕ → ℕ → String → NodeInfo → ℕ → Fleet → Result NodeError (ℕ × ℕ × Fleet)
unfolding check_token register_node store_credential
enroll now drawn token_hash fingerprint info key f = do
  t ← check_token now token_hash f.tokens
  let used = record f { tokens = use_token t.id f.tokens }
  r ←
      register_node now drawn t.org_id fingerprint info
        (find (has_fingerprint fingerprint) f.store.nodes) used
  ok (r.0, t.org_id, store_credential t.org_id r.0 key r.1)

-- `c.public_key = … AND c.revoked_at IS NULL`.
abbrev pub is_live_key : ℕ → Credential → Bool
is_live_key key c = c.public_key == key && is_null c.revoked_at

-- The join of the live credential and its node.
unfoldable pub authenticate_agent : ℕ → Fleet → Result NodeError (ℕ × ℕ)
authenticate_agent key f = do
  c ← or_fail (find (is_live_key key) f.credentials) not_found
  n ← or_fail (find (is_node c.node_id) f.store.nodes) not_found
  ok (n.id, n.org_id)

unfoldable pub record_heartbeat : Time → ℕ → ℕ → String → ℕ → ℕ → Fleet → Fleet
record_heartbeat now org_id node_id agent_version gpu_count mean_util f =
    let seen =
      update (is_node node_id)
        (λ n. record n {
          last_seen_at = some now;
          status = NodeStatus.online;
          agent_version = agent_version;
        })
        f.store.nodes in
    record (with_nodes seen f) {
      heartbeats =
          f.heartbeats
          ++ record {
            org_id = org_id;
            node_id = node_id;
            ts = now;
            agent_version = agent_version;
            gpu_count = gpu_count;
            mean_util = mean_util;
          }
            ∷ [];
    }

unfoldable pub set_node_status : ℕ → NodeStatus → Fleet → Fleet
set_node_status node_id status f =
    with_nodes (update (is_node node_id) (λ n. record n { status = status }) f.store.nodes) f

-- A node as the API shows it.
pub record NodeView : Type 0 where
  pub node : Node
  pub gpu_count : ℕ

abbrev pub view_of : List Gpu → Node → NodeView
view_of gpus n = record { node = n; gpu_count = count (λ g. g.node_id == n.id) gpus }

-- `le` is the database's order of host names.
unfoldable pub list_nodes : (String → String → Bool) → ℕ → Fleet → List NodeView
list_nodes le org_id f =
    map (view_of f.store.gpus)
      (order_by (λ a b. le a.hostname b.hostname) (select (λ n. n.org_id == org_id) f.store.nodes))

unfoldable pub get_node_by_id : ℕ → Fleet → Result NodeError NodeView
get_node_by_id id f = do
  n ← or_fail (find (is_node id) f.store.nodes) not_found
  ok (view_of f.store.gpus n)

unfoldable pub get_node_by_fingerprint : String → Fleet → Result NodeError NodeView
get_node_by_fingerprint fingerprint f = do
  n ← or_fail (find (has_fingerprint fingerprint) f.store.nodes) not_found
  ok (view_of f.store.gpus n)

abbrev pub is_node_of : ℕ → ℕ → Node → Bool
is_node_of org_id id n = n.id == id && n.org_id == org_id

-- How many credentials were revoked.
unfoldable pub revoke_node_credentials : Time → ℕ → ℕ → Fleet → Result NodeError (ℕ × Fleet)
revoke_node_credentials now org_id node_id f = do
  n ← or_fail (find (is_node_of org_id node_id) f.store.nodes) not_found
  ok (
    count (is_live_of node_id) f.credentials,
    record f { credentials = revoke_all now node_id f.credentials },
  )
