-- ===== src/Agent/Tracker/InFlight.antt =====
-- Commands that are being executed
-- (gpu-platform/agent/client/client.go).
use node_hive_b2b.Prelude.{
  ℕ, ◌≤◌, ◌<◌, ◌≡◌, ◌≢◌, refl, false, not, ◌&&◌, List, [], ◌∷◌, ◌++◌, none, some, arith, ltb, ◌==◌,
  ==_refl, length, Bool-cases, Option-cases, inl, inr,
}
use node_hive_b2b.Sql.{select, count}
use node_hive_b2b.Sql.Counts.{count-append, count-select, count_mono}
use node_hive_b2b.Agent.Tracker.{
  CommandResult, Tracker, cmd_done_cache_size, fresh, in_flight, cached, lookup, remove_entry,
  begin, trim, finish,
}
use node_hive_b2b.Agent.Tracker.Ops.{Op, begins, finishes, run, Others, IsTracker, begin_order}
use node_hive_b2b.Agent.Tracker.Ops.{added, not_last, result_or_none}

-- The command is in flight.
pub record InFlight (id : ℕ) (t : Tracker) : Type 0 where
  pub not_ordered : count (λ i. i == id) t.order ≡ 0
  pub unknown : lookup id t.done ≡ none
  pub running : 0 < count (λ i. i == id) t.inflight

pub trim-ordered :
    (id : ℕ) (is : List ℕ) (es : List (ℕ × CommandResult))
    → count (λ i. i == id) is ≡ 0
    → count (λ i. i == id) (trim is es).0 ≡ 0
unfolding trim count
trim-ordered id [] es z = refl
trim-ordered id (i ∷ is) es z = elim (Bool-cases (ltb cmd_done_cache_size (length (i ∷ is)))) [
  | inl e ↦ rw e (trim-ordered id is (remove_entry i es) (ground arith))
  | inr e ↦ rw e z
]

pub lookup-removed :
    (id i : ℕ) (es : List (ℕ × CommandResult))
    → lookup id es ≡ none
    → lookup id (remove_entry i es) ≡ none
unfolding lookup remove_entry select
lookup-removed id i [] h = refl
lookup-removed id i (e ∷ es) h = elim (Bool-cases (e.0 == id)) [
  | inl k ↦ absurd (result_or_none e.1 (rw k at h))
  | inr k ↦ elim (Bool-cases (e.0 == i)) [
    | inl m ↦ rw m (lookup-removed id i es (rw k at h))
    | inr m ↦ rw (m, k) (lookup-removed id i es (rw k at h))
  ]
]

pub trim-unknown :
    (id : ℕ) (is : List ℕ) (es : List (ℕ × CommandResult))
    → lookup id es ≡ none
    → lookup id (trim is es).1 ≡ none
unfolding trim
trim-unknown id [] es h = h
trim-unknown id (i ∷ is) es h = elim (Bool-cases (ltb cmd_done_cache_size (length (i ∷ is)))) [
  | inl e ↦ rw e (trim-unknown id is (remove_entry i es) (lookup-removed id i es h))
  | inr e ↦ rw e h
]

pub busy_or_fresh : in_flight ≢ fresh
busy_or_fresh h = cc

pub cached_or_fresh : (r : CommandResult) → cached r ≢ fresh
cached_or_fresh r h = cc

module _ (id : ℕ) where
  pub begin_inflight :
      (j : ℕ) (t : Tracker)
      → count (λ i. i == id) t.inflight ≤ count (λ i. i == id) (begin j t).1.inflight
  unfolding begin
  begin_inflight j t = elim (Option-cases (lookup j t.done)) [
    | inl e ↦ elim (Bool-cases (count (λ i. i == j) t.inflight == 0)) [
      | inl f ↦ rw (e, f) (added id j t.inflight)
      | inr f ↦ rw (e, f) (omega arith)
    ]
    | inr (r, e) ↦ rw e (omega arith)
  ]

  pub begin-InFlight : (j : ℕ) (t : Tracker) → InFlight id t → InFlight id (begin j t).1
  begin-InFlight j t v =
      let (o, d) = begin_order j t in
      record {
        not_ordered = rw o v.not_ordered;
        unknown = rw d v.unknown;
        running = omega (arith, v.running, begin_inflight j t);
      }

  pub finish-InFlight :
      (j : ℕ) (res : CommandResult) (t : Tracker)
      → (j == id) ≡ false
      → InFlight id t
      → InFlight id (finish j res t)
  unfolding finish lookup
  finish-InFlight j res t other v = record {
    not_ordered = trim-ordered id (t.order ++ j ∷ []) _ (
        omega (
          arith,
          count-append (λ i. i == id) t.order (j ∷ []),
          v.not_ordered,
          not_last id j other,
        ));
    unknown =
        trim-unknown id (t.order ++ j ∷ []) _ (rw other (lookup-removed id j t.done v.unknown));
    running = omega (
      arith,
      v.running,
      count-select (λ i. not (i == j)) (λ i. i == id) t.inflight,
      count_mono (λ i. i == id) (λ i. not (i == j) && i == id) t.inflight (λ i e. ground arith),
    );
  }

  pub run-InFlight :
      (os : List Op) (t : Tracker) → Others id os → InFlight id t → InFlight id (run os t)
  unfolding run count
  run-InFlight [] t o v = v
  run-InFlight (begins j ∷ os) t o v =
      run-InFlight os (begin j t).1 (omega (arith, o)) (begin-InFlight j t v)
  run-InFlight (finishes j res ∷ os) t o v =
      run-InFlight os (finish j res t) (ground (arith, o))
        (finish-InFlight j res t (ground (arith, o)) v)

  pub fresh-InFlight :
      (t : Tracker) → IsTracker t → (begin id t).0 ≡ fresh → InFlight id (begin id t).1
  unfolding begin count
  fresh-InFlight t v f = elim (Option-cases (lookup id t.done)) [
    | inl e ↦ elim (Bool-cases (count (λ i. i == id) t.inflight == 0)) [
      | inl g ↦
          rw (e, g)
            (record {
              not_ordered = v.known id e;
              unknown = e;
              running = rw (==_refl id) (omega arith);
            })
      | inr g ↦ absurd (busy_or_fresh (rw (e, g) at f))
    ]
    | inr (r, e) ↦ absurd (cached_or_fresh r (rw e at f))
  ]

  pub InFlight-begin : (t : Tracker) → InFlight id t → (begin id t).0 ≡ in_flight
  unfolding begin
  InFlight-begin t v =
      let busy : (count (λ i. i == id) t.inflight == 0) ≡ false = ground (arith, v.running) in
      rw (v.unknown, busy) refl

  pub Remembered-begin :
      (res : CommandResult) (t : Tracker)
      → lookup id t.done ≡ some res
      → (begin id t).0 ≡ cached res
  unfolding begin
  Remembered-begin res t e = rw e refl
