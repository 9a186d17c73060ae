-- ===== src/Tests/Nodes.antt =====
-- The theorems on nodes at a fleet of one node.
use node_hive_b2b.Prelude.{◌≡◌, refl, true, [], ◌∷◌, none, some, arith}
use node_hive_b2b.Prelude.Int.{pos}
use node_hive_b2b.Sql.{select, update, count, find, exists}
use node_hive_b2b.Nodes.{
  NodeInfo, EnrollmentToken, Fleet, enroll, store_credential, use_token, with_nodes, refresh_row,
  is_node, revoke_all, register_node, check_token,
}
use node_hive_b2b.Nodes.Enrollment.{IsFleet, Enrolls, enroll-Enrolls}
use node_hive_b2b.Nodes.Verdicts.{Outcome, enroll-Outcome, check_token_status, verdict, unrevoked}
use node_hive_b2b.Nodes.Tokens.{token_status}
use node_hive_b2b.Nodes.Remove.{remove_node, delete_node, fail_if_active, RemoveResult}
use node_hive_b2b.Nodes.Removal.{Removes, remove_node-Removes}
use node_hive_b2b.Nodes.Remove.Keeps.{IsLocal}
use node_hive_b2b.Tests.Fixtures.{small_store, small_store-Inv}

abbrev small_token : EnrollmentToken
small_token = record {
  id = 1;
  org_id = 1;
  token_hash = 7;
  created_by = none;
  description = "";
  expires_at = 90;
  uses = 0;
  max_uses = 2;
  last_used_at = none;
  revoked_at = some 3;
  created_at = 0;
}

abbrev pub small_fleet : Fleet
small_fleet = record {
  store = small_store;
  tokens = small_token ∷ [];
  credentials = record { org_id = 1; node_id = 1; public_key = 50; revoked_at = none } ∷ [];
  heartbeats = [];
}

abbrev pub small_info : NodeInfo
small_info = record {
  hostname = "h";
  os = "linux";
  kernel = "";
  cpu_model = "";
  cpu_cores = pos 8;
  ram_mb = pos 1024;
  nvidia_driver = "";
  cuda_version = "";
  agent_version = "0.1.0";
}

pub small_fleet-IsFleet : IsFleet small_fleet
unfolding count
small_fleet-IsFleet = record {
  node_keys = λ id. ground arith;
  known = λ id z. ground arith;
  key_once = λ k. ground arith;
}

-- The machine enrolls again, with a token that has been revoked.
abbrev enrolled_again : Fleet
enrolled_again = store_credential 1 1 60 (
    with_nodes (update (is_node 1) (refresh_row 9 small_info) small_store.nodes)
      (record small_fleet {
        tokens = use_token 1 small_fleet.tokens;
        credentials = revoke_all 9 1 small_fleet.credentials;
      }))

enroll-Enrolls_example : Enrolls 9 7 60 small_fleet 1 1 enrolled_again
unfolding enroll check_token register_node find count
enroll-Enrolls_example =
    enroll-Enrolls 9 2 7 "f" small_info 60 small_fleet enrolled_again 1 1 small_fleet-IsFleet refl
      refl refl

enroll-Outcome_example : Outcome 9 2 7 "g" small_fleet (enroll 9 2 7 "g" small_info 60 small_fleet)
enroll-Outcome_example = enroll-Outcome 9 2 7 "g" small_info 60 small_fleet

check_token_status_example :
    check_token 9 7 small_fleet.tokens
    ≡ verdict (token_status 9 (unrevoked small_token)) small_token
unfolding find
check_token_status_example = check_token_status 9 7 small_fleet.tokens small_token refl

small_fleet-IsLocal : IsLocal 1 small_store
unfolding count exists
small_fleet-IsLocal = record { on_node = λ w h. ground arith }

abbrev small_removed : Fleet
small_removed = record small_fleet {
  store = delete_node 1 (fail_if_active 9 1 small_store);
  credentials = [];
}

abbrev small_result : RemoveResult
small_result = record { active_workloads = 1; failed_workloads = 1; credentials_revoked = 1 }

remove_node-Removes_example : Removes 1 true small_fleet small_result small_removed
unfolding remove_node count find select update
remove_node-Removes_example =
    remove_node-Removes 9 1 1 true small_fleet small_removed small_result small_store-Inv
      small_fleet-IsLocal refl
