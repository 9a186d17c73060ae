-- ===== src/Hub.antt =====
-- The realtime hub: gpu-platform/internal/events/hub.go. A channel is a number, and `Any` what the data of
-- an event maps to.
pub mod Acts
pub mod Rows
pub mod Listening
pub mod Queues
use node_hive_b2b.Prelude.{
  ℕ, Bool, true, not, ◌&&◌, String, List, [], ◌∷◌, ◌++◌, length, Option, none, some, ltb, ◌==◌,
  if◌then◌else◌,
}
use node_hive_b2b.Sql.{select, update, count, find}

pub record Event (Any : Type 0) : Type 0 where
  pub topic : String
  pub event_data : List (String × Any)

-- A channel of `subs`, with the organization that it is stored under and what it holds.
pub record Subscriber (Any : Type 0) : Type 0 where
  pub org_id : ℕ
  pub channel : ℕ
  pub buffer : List (Event Any)

pub data Topic : Type 0 where
  nodes workloads queue budgets members : Topic

unfoldable pub topic_name : Topic → String
topic_name nodes = "nodes"
topic_name workloads = "workloads"
topic_name queue = "queue"
topic_name budgets = "budgets"
topic_name members = "members"

-- `make(chan Event, 16)`.
abbrev pub buffer_size : ℕ
buffer_size = 16

module _ {Any : Type 0} where
  -- `ch` is the channel that is made.
  unfoldable pub subscribe : ℕ → ℕ → List (Subscriber Any) → List (Subscriber Any)
  subscribe org_id ch subs = subs ++ record { org_id = org_id; channel = ch; buffer = [] } ∷ []

  -- The function that `Subscribe` returns.
  unfoldable pub cancel : ℕ → ℕ → List (Subscriber Any) → List (Subscriber Any)
  cancel org_id ch subs = select (λ x. not (x.org_id == org_id && x.channel == ch)) subs

  -- A send that does not block: what does not fit is dropped.
  abbrev pub offer : Event Any → Subscriber Any → Subscriber Any
  offer e x =
      if ltb (length x.buffer) buffer_size then record x { buffer = x.buffer ++ e ∷ [] } else x

  unfoldable pub publish : ℕ → Event Any → List (Subscriber Any) → List (Subscriber Any)
  publish org_id e subs = update (λ x. x.org_id == org_id) (offer e) subs

  abbrev pub topic_event : String → Event Any
  topic_event t = record { topic = t; event_data = [] }

  unfoldable pub publish_topics : ℕ → List String → List (Subscriber Any) → List (Subscriber Any)
  unfolding publish
  publish_topics org_id [] subs = subs
  publish_topics org_id (t ∷ ts) subs =
      publish_topics org_id ts (publish org_id (topic_event t) subs)

  unfoldable pub subscribers : List (Subscriber Any) → ℕ
  subscribers subs = count (λ x. true) subs

  abbrev pub has_channel : ℕ → Subscriber Any → Bool
  has_channel ch x = x.channel == ch

  abbrev pub first_of : List (Event Any) → Option (Event Any)
  first_of [] = none
  first_of (e ∷ es) = some e

  abbrev pub rest_of : List (Event Any) → List (Event Any)
  rest_of [] = []
  rest_of (e ∷ es) = es

  abbrev pub taken_from : Option (Subscriber Any) → Option (Event Any)
  taken_from none = none
  taken_from (some x) = first_of x.buffer

  abbrev pub take_first : Subscriber Any → Subscriber Any
  take_first x = record x { buffer = rest_of x.buffer }

  -- `<-ch` in the handler, when it does not block.
  unfoldable pub receive : ℕ → List (Subscriber Any) → Option (Event Any) × List (Subscriber Any)
  receive ch subs =
      (taken_from (find (has_channel ch) subs), update (has_channel ch) take_first subs)
