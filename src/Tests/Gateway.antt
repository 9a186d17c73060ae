-- ===== src/Tests/Gateway.antt =====
-- The theorems on the agents' gateway at small registries and outboxes.
use node_hive_b2b.Text.{is_prefix, Text, runes, trim_space}
use node_hive_b2b.Nodes.{
  enroll, check_token, register_node, store_credential, use_token, with_nodes, new_node,
}
use node_hive_b2b.Nodes.Enrollment.{Enrolls}
use node_hive_b2b.Gateway.Reports.{find_sep, extract_logs, with_logs}
use node_hive_b2b.Gateway.Reports.RoundTrip.{extract_logs-with_logs}
use node_hive_b2b.Gateway.Streams.{
  EnrollRequest, Enrolled, handle_enroll, service_enroll, bearer, bearer_prefix, trim_prefix,
  stream_auth,
}
use node_hive_b2b.Gateway.Streams.Credentials.{enroll_then_connect}
use node_hive_b2b.Tests.Fixtures.{small_store}
use node_hive_b2b.Tests.Nodes.{small_fleet, small_info, small_fleet-IsFleet}
use node_hive_b2b.Prelude.{
  ◌≡◌, refl, true, false, [], ◌∷◌, ◌++◌, none, ok, ◌+◌, length, some, ℕ, All, arith,
}
use node_hive_b2b.Sql.{count, find}
use node_hive_b2b.Commands.{claim_due}
use node_hive_b2b.Gateway.Dispatcher.{Dispatcher, Sending, deregister, send, send_target}
use node_hive_b2b.Gateway.Dispatcher.Channels.{IsSafe, Deregisters, deregister-IsSafe, send_race}
use node_hive_b2b.Gateway.Delivery.{deliver_batch, batch_size, Round, deliver_node}
use node_hive_b2b.Gateway.Delivery.Attempted.{due_at, deliver_batch-attempts}
use node_hive_b2b.Gateway.Delivery.Loop.{InWindow, Ends, deliver_node-Ends}
use node_hive_b2b.Tests.Commands.{small_outbox}

abbrev one_stream : Dispatcher
one_stream = record {
  streams = record { node_id = 1; channel = 7; kicked = false } ∷ [];
  closed = 6 ∷ [];
}

one_stream-IsSafe : IsSafe one_stream
unfolding count
one_stream-IsSafe = record { one_stream = λ n. ground arith; used_once = λ c. ground arith }

deregister-IsSafe_example : Deregisters 1 7 one_stream (deregister 1 7 one_stream)
deregister-IsSafe_example = deregister-IsSafe 1 7 one_stream one_stream-IsSafe

send_race_example :
    (send true 1 one_stream one_stream ≡ Sending.sent)
    × (send true 1 one_stream (deregister 1 7 one_stream).1 ≡ Sending.panicked)
unfolding send_target find
send_race_example = send_race 1 7 one_stream refl one_stream-IsSafe

deliver_batch-attempts_example :
    All
      (λ c.
        count
          (due_at 1 200 c.id)
          (deliver_batch (λ c. none) "malformed payload" 100 (λ c. false) 1 small_outbox).1.commands
        ≡ 0)
      (claim_due 1 batch_size 100 (λ c. false) small_outbox)
deliver_batch-attempts_example =
    deliver_batch-attempts 1 100 200 (λ c. none) "malformed payload" (λ c. false) small_outbox
      (omega arith)

abbrev steady : ℕ → Round
steady i = record { now = 100; locked = λ c. false }

steady-InWindow : InWindow 100 steady
steady-InWindow = record { begun = λ i. omega arith; short = λ i. omega arith }

deliver_node-Ends_example :
    Ends 1 100 small_outbox (deliver_node 3 (λ c. none) "malformed payload" steady 0 1 small_outbox)
unfolding count
deliver_node-Ends_example =
    deliver_node-Ends 3 (λ c. none) "malformed payload" steady 0 1 100 small_outbox steady-InWindow
      (ground arith)

extract_logs-with_logs_example :
    extract_logs (with_logs (runes "exit status 1") (runes "no space left")) ≡ runes "no space left"
unfolding find_sep
extract_logs-with_logs_example =
    extract_logs-with_logs (runes "exit status 1") (runes "no space left") refl

abbrev small_enrollment : EnrollRequest
small_enrollment = record { enrollment_token = runes "token"; fingerprint = "g"; node = small_info }

-- The hash of the example tells the token and the credential apart by their lengths.
abbrev small_hash : Text → ℕ
small_hash t = length t + 2

abbrev small_enrolled : Enrolled
small_enrolled = record {
  node_id = 2;
  credential = runes "secret";
  fleet = store_credential 1 2 8 (
      with_nodes (small_store.nodes ++ new_node 9 2 1 "g" small_info ∷ [])
        (record small_fleet { tokens = use_token 1 small_fleet.tokens }));
}

enroll_then_connect_example :
    (org_id : ℕ) × Enrolls 9 7 8 small_fleet 2 org_id small_enrolled.fleet
    × (stream_auth small_hash true ((bearer_prefix ++ runes "secret") ∷ []) small_enrolled.fleet
        ≡ ok (some (2, org_id)))
unfolding handle_enroll service_enroll enroll check_token register_node bearer trim_prefix is_prefix
    trim_space find count
enroll_then_connect_example =
    enroll_then_connect small_hash 9 2 (runes "secret") small_enrollment small_fleet small_enrolled
      small_fleet-IsFleet refl refl refl refl refl
