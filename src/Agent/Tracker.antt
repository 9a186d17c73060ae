-- ===== src/Agent/Tracker.antt =====
-- The deduplication of commands: `cmdTracker` in gpu-platform/agent/client/client.go. A number stands
-- for the id of a command.
pub mod Ops
pub mod Remembered
pub mod InFlight
pub mod Kept
pub mod Once
use node_hive_b2b.Prelude.{
  ℕ, Bool, true, false, not, ◌&&◌, String, List, [], ◌∷◌, ◌++◌, Option, none, some, ltb, ◌==◌,
  if◌then◌else◌, length,
}
use node_hive_b2b.Text.{Text}
use node_hive_b2b.Sql.{select, count, find}

pub record CommandResult : Type 0 where
  pub command_id : ℕ
  pub ok : Bool
  pub error : Text

-- The map of finished commands as an association list.
pub record Tracker : Type 0 where
  pub inflight : List ℕ
  pub done : List (ℕ × CommandResult)
  pub order : List ℕ

abbrev pub cmd_done_cache_size : ℕ
cmd_done_cache_size = 256

pub data Begun : Type 0 where
  fresh in_flight : Begun
  cached : CommandResult → Begun

abbrev pub is_entry : ℕ → ℕ × CommandResult → Bool
is_entry id e = e.0 == id

unfoldable pub lookup : ℕ → List (ℕ × CommandResult) → Option CommandResult
lookup id [] = none
lookup id (e ∷ es) = let rest = lookup id es in if e.0 == id then some e.1 else rest

unfoldable pub remove_entry : ℕ → List (ℕ × CommandResult) → List (ℕ × CommandResult)
remove_entry id es = select (λ e. not (is_entry id e)) es

abbrev pub begin_unknown : ℕ → Tracker → Begun × Tracker
begin_unknown id t =
    if count (λ i. i == id) t.inflight == 0
    then (fresh, record t { inflight = id ∷ t.inflight })
    else (in_flight, t)

abbrev pub begin_known : Option CommandResult → ℕ → Tracker → Begun × Tracker
begin_known (some res) id t = (cached res, t)
begin_known none id t = begin_unknown id t

unfoldable pub begin : ℕ → Tracker → Begun × Tracker
unfolding lookup
begin id t = begin_known (lookup id t.done) id t

-- The loop that forgets the oldest finished commands.
unfoldable pub trim : List ℕ → List (ℕ × CommandResult) → List ℕ × List (ℕ × CommandResult)
unfolding remove_entry
trim [] es = ([], es)
trim (i ∷ is) es =
    let rest = trim is (remove_entry i es) in
    if ltb cmd_done_cache_size (length (i ∷ is)) then rest else (i ∷ is, es)

unfoldable pub finish : ℕ → CommandResult → Tracker → Tracker
unfolding trim
finish id res t =
    let r = trim (t.order ++ id ∷ []) ((id, res) ∷ remove_entry id t.done) in
    record { inflight = select (λ i. not (i == id)) t.inflight; order = r.0; done = r.1 }
