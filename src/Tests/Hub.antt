-- ===== src/Tests/Hub.antt =====
-- The theorems on the hub at one subscriber among two.
use node_hive_b2b.Prelude.{ℕ, ◌≡◌, refl, List, [], ◌∷◌, ◌++◌, some, arith}
use node_hive_b2b.Sql.{find}
use node_hive_b2b.Hub.{Event, Subscriber, has_channel, topic_event}
use node_hive_b2b.Hub.Acts.{Act, published, received, subscribed, cancelled, sent, heard, run}
use node_hive_b2b.Hub.Listening.{heard_all}
use node_hive_b2b.Hub.Queues.{got, queue_after, queue_acts, run-Refines}

abbrev small_hint : Event ℕ
small_hint = topic_event "workloads"

abbrev small_listener : Subscriber ℕ
small_listener = record { org_id = 1; channel = 7; buffer = [] }

abbrev small_hub : List (Subscriber ℕ)
small_hub = small_listener ∷ record { org_id = 2; channel = 8; buffer = [] } ∷ []

abbrev small_acts : List (Act ℕ)
small_acts =
    published 1 small_hint
    ∷ published 2 small_hint
    ∷ subscribed 1 9
    ∷ cancelled 2 8
    ∷ received 7
    ∷ published 1 (topic_event "nodes")
    ∷ []

run-Refines_example :
    (y : Subscriber ℕ) × (find (has_channel 7) (run small_acts small_hub) ≡ some y)
    × (heard 7 small_acts small_hub ≡ got (queue_acts 1 7 small_acts) [])
    × (y.buffer ≡ queue_after (queue_acts 1 7 small_acts) [])
unfolding find
run-Refines_example =
    run-Refines 7 small_acts small_hub small_listener (refl, tt) refl (omega arith)

heard_all_example :
    (y : Subscriber ℕ) × (find (has_channel 7) (run small_acts small_hub) ≡ some y)
    × (heard 7 small_acts small_hub ++ y.buffer ≡ sent 1 small_acts)
unfolding find sent
heard_all_example = heard_all 7 small_acts small_hub small_listener (refl, tt) refl (omega arith)
