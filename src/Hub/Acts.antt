-- ===== src/Hub/Acts.antt =====
-- What happens at the hub, as a sequence of acts (gpu-platform/internal/events/hub.go).
use node_hive_b2b.Prelude.{
  ℕ, ◌≡◌, false, List, [], ◌∷◌, ◌++◌, Option, none, some, ◌==◌, if◌then◌else◌,
}
use node_hive_b2b.Hub.{Event, Subscriber, subscribe, cancel, publish, receive}

-- What happens at a hub while someone listens on a channel.
pub data Act (Any : Type 0) : Type 0 where
  subscribed : ℕ → ℕ → Act Any
  cancelled : ℕ → ℕ → Act Any
  published : ℕ → Event Any → Act Any
  received : ℕ → Act Any

module _ {Any : Type 0} where
  abbrev pub after_act : Act Any → List (Subscriber Any) → List (Subscriber Any)
  after_act (subscribed org_id ch) subs = subscribe org_id ch subs
  after_act (cancelled org_id ch) subs = cancel org_id ch subs
  after_act (published org_id e) subs = publish org_id e subs
  after_act (received ch) subs = (receive ch subs).1

  abbrev pub one_of : Option (Event Any) → List (Event Any)
  one_of none = []
  one_of (some e) = e ∷ []

  -- What the listener on `ch` gets by an act.
  abbrev pub heard_by : ℕ → Act Any → List (Subscriber Any) → List (Event Any)
  heard_by ch (subscribed org_id c) subs = []
  heard_by ch (cancelled org_id c) subs = []
  heard_by ch (published org_id e) subs = []
  heard_by ch (received c) subs = if c == ch then one_of (receive ch subs).0 else []

  unfoldable pub run : List (Act Any) → List (Subscriber Any) → List (Subscriber Any)
  run [] subs = subs
  run (a ∷ acts) subs = run acts (after_act a subs)

  unfoldable pub heard : ℕ → List (Act Any) → List (Subscriber Any) → List (Event Any)
  heard ch [] subs = []
  heard ch (a ∷ acts) subs = heard_by ch a subs ++ heard ch acts (after_act a subs)

  abbrev pub sent_by : ℕ → Act Any → List (Event Any)
  sent_by org_id (subscribed o c) = []
  sent_by org_id (cancelled o c) = []
  sent_by org_id (published o e) = if org_id == o then e ∷ [] else []
  sent_by org_id (received c) = []

  -- What is published to an organization.
  unfoldable pub sent : ℕ → List (Act Any) → List (Event Any)
  sent org_id [] = []
  sent org_id (a ∷ acts) = sent_by org_id a ++ sent org_id acts

  -- The listener's channel is not cancelled.
  abbrev pub Stays : ℕ → List (Act Any) → Type 0
  Stays ch [] = Unit
  Stays ch (cancelled o c ∷ acts) = ((c == ch) ≡ false) × Stays ch acts
  Stays ch (subscribed o c ∷ acts) = Stays ch acts
  Stays ch (published o e ∷ acts) = Stays ch acts
  Stays ch (received c ∷ acts) = Stays ch acts
