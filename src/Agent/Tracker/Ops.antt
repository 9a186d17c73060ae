-- ===== src/Agent/Tracker/Ops.antt =====
-- Histories of the agent's command tracker
-- (gpu-platform/agent/client/client.go).
use node_hive_b2b.Prelude.{
  ℕ, ◌≤◌, ◌≡◌, ◌≢◌, refl, ap, Bool, true, false, not, List, [], ◌∷◌, none, some, arith, ◌==◌,
  if◌then◌else◌, Bool-cases, Option-cases, inl, inr,
}
use node_hive_b2b.Sql.{select, count}
use node_hive_b2b.Agent.Tracker.{CommandResult, Tracker, lookup, remove_entry, begin, finish}

-- What happens to the tracker between two arrivals of a command.
pub data Op : Type 0 where
  begins : ℕ → Op
  finishes : ℕ → CommandResult → Op

abbrev pub run_op : Op → Tracker → Tracker
run_op (begins j) t = (begin j t).1
run_op (finishes j res) t = finish j res t

unfoldable pub run : List Op → Tracker → Tracker
run [] t = t
run (o ∷ os) t = run os (run_op o t)

abbrev pub is_other_op : ℕ → Op → Bool
is_other_op id (begins j) = true
is_other_op id (finishes j res) = not (j == id)

abbrev pub is_finish : Op → Bool
is_finish (begins j) = false
is_finish (finishes j res) = true

-- No operation finishes the command.
abbrev pub Others : ℕ → List Op → Type 0
Others id os = count (λ o. not (is_other_op id o)) os ≡ 0

-- A command is once in the order of the finished ones, and only while its result is kept.
pub record IsTracker (t : Tracker) : Type 0 where
  pub once : (id : ℕ) → count (λ i. i == id) t.order ≤ 1
  pub known : (id : ℕ) → lookup id t.done ≡ none → count (λ i. i == id) t.order ≡ 0

pub lookup-remove :
    (id i : ℕ) (es : List (ℕ × CommandResult))
    → (i == id) ≡ false
    → lookup id (remove_entry i es) ≡ lookup id es
unfolding lookup remove_entry select
lookup-remove id i [] n = refl
lookup-remove id i (e ∷ es) n = elim (Bool-cases (e.0 == i)) [
  | inl h ↦
      let other : (e.0 == id) ≡ false = ground arith in rw (h, other) (lookup-remove id i es n)
  | inr h ↦ rw h (ap (λ r. if e.0 == id then some e.1 else r) (lookup-remove id i es n))
]

pub begin_order :
    (j : ℕ) (t : Tracker) → ((begin j t).1.order ≡ t.order) × ((begin j t).1.done ≡ t.done)
unfolding begin
begin_order j t = elim (Option-cases (lookup j t.done)) [
  | inl e ↦ elim (Bool-cases (count (λ i. i == j) t.inflight == 0)) [
    | inl f ↦ rw (e, f) (refl, refl)
    | inr f ↦ rw (e, f) (refl, refl)
  ]
  | inr (r, e) ↦ rw e (refl, refl)
]

pub added : (id j : ℕ) (is : List ℕ) → count (λ i. i == id) is ≤ count (λ i. i == id) (j ∷ is)
unfolding count
added id j is = omega arith

pub not_last : (id j : ℕ) → (j == id) ≡ false → count (λ i. i == id) (j ∷ []) ≡ 0
unfolding count
not_last id j h = rw h refl

pub one_last : (id j : ℕ) → count (λ i. i == id) (j ∷ []) ≤ 1
unfolding count
one_last id j = ground arith

pub result_or_none : (a : CommandResult) → some a ≢ none
result_or_none a g = cc
