-- ===== src/Gateway/Dispatcher.antt =====
-- The registry of live agent streams: gpu-platform/internal/agentgw/dispatch.go. A channel is a number.
pub mod Channels
use node_hive_b2b.Prelude.{
  ℕ, Bool, true, false, not, ◌&&◌, List, [], ◌∷◌, map, Option, none, some, ◌==◌, if◌then◌else◌,
}
use node_hive_b2b.Sql.{select, update, find, exists}

-- `registration`, with the node that it is stored under.
pub record Registration : Type 0 where
  pub node_id : ℕ
  pub channel : ℕ
  pub kicked : Bool

-- The map of streams, and the channels that have been closed.
pub record Dispatcher : Type 0 where
  pub streams : List Registration
  pub closed : List ℕ

abbrev pub is_for : ℕ → Registration → Bool
is_for node_id r = r.node_id == node_id

abbrev pub has_channel : ℕ → ℕ → Registration → Bool
has_channel node_id ch r = r.node_id == node_id && r.channel == ch

abbrev pub lookup : ℕ → Dispatcher → Option Registration
lookup node_id d = find (is_for node_id) d.streams

-- `ch` is the channel that `make` returns.
unfoldable pub register : ℕ → ℕ → Dispatcher → Dispatcher
register node_id ch d = record d {
  streams =
      record { node_id = node_id; channel = ch; kicked = false }
      ∷ select (λ r. not (is_for node_id r)) d.streams;
}

abbrev pub if_current : ℕ → ℕ → Option Registration → Dispatcher → Bool × Dispatcher
if_current node_id ch none d = (false, d)
if_current node_id ch (some cur) d =
    if cur.channel == ch
    then (
      true,
      record d {
        streams = select (λ r. not (is_for node_id r)) d.streams;
        closed = cur.channel ∷ d.closed;
      },
    )
    else (false, d)

unfoldable pub deregister : ℕ → ℕ → Dispatcher → Bool × Dispatcher
deregister node_id ch d = if_current node_id ch (lookup node_id d) d

abbrev pub is_live : Option Registration → Bool
is_live none = false
is_live (some r) = true

-- Closing `kicked` a second time is left out by the source's select.
unfoldable pub kick : ℕ → Dispatcher → Bool × Dispatcher
kick node_id d = (
  is_live (lookup node_id d),
  record d { streams = update (is_for node_id) (λ r. record r { kicked = true }) d.streams },
)

unfoldable pub connected_nodes : Dispatcher → List ℕ
connected_nodes d = map (λ r. r.node_id) d.streams

-- `Send` in its two steps: the channel that the locked lookup returns, and the send to it.
abbrev pub channel_of : Option Registration → Option ℕ
channel_of none = none
channel_of (some r) = some r.channel

unfoldable pub send_target : ℕ → Dispatcher → Option ℕ
send_target node_id d = channel_of (lookup node_id d)

-- How a send ends. A send on a closed channel panics.
pub data Sending : Type 0 where
  sent gave_up not_connected panicked : Sending

-- `takes` tells whether the select takes the channel's case, and not the time-out or the context's end.
abbrev pub send_to : Bool → Option ℕ → Dispatcher → Sending
send_to takes none d = Sending.not_connected
send_to takes (some ch) d =
    if not takes
    then Sending.gave_up
    else if exists (λ c. c == ch) d.closed
    then Sending.panicked
    else Sending.sent

-- `looked` is the registry while the lock is held, and `d` the registry at the send, after its release.
unfoldable pub send : Bool → ℕ → Dispatcher → Dispatcher → Sending
unfolding send_target
send takes node_id looked d = send_to takes (send_target node_id looked) d
