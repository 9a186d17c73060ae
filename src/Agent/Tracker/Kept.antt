-- ===== src/Agent/Tracker/Kept.antt =====
-- The invariant of the command tracker
-- (gpu-platform/agent/client/client.go).
use node_hive_b2b.Prelude.{
  ℕ, ◌≡◌, sym, subst, ◌∙◌, List, [], ◌∷◌, ◌++◌, none, arith, ltb, ◌==◌, length, Bool-cases, inl,
  inr,
}
use node_hive_b2b.Sql.{count}
use node_hive_b2b.Sql.Counts.{count-append}
use node_hive_b2b.Agent.Tracker.{
  CommandResult, Tracker, cmd_done_cache_size, lookup, remove_entry, begin, trim, finish,
}
use node_hive_b2b.Agent.Tracker.Ops.{IsTracker, lookup-remove, begin_order}
use node_hive_b2b.Agent.Tracker.Ops.{not_last, one_last, result_or_none}

-- Forgetting the oldest command forgets its result.
forgotten :
    (i : ℕ) (is : List ℕ) (es : List (ℕ × CommandResult)) (inflight : List ℕ)
    → IsTracker (record { inflight = inflight; done = es; order = i ∷ is })
    → IsTracker (record { inflight = inflight; done = remove_entry i es; order = is })
unfolding count
forgotten i is es inflight v = record {
  once = λ id. omega (arith, v.once id);
  known = λ id e. elim (Bool-cases (i == id)) [
    | inl k ↦ ground (arith, v.once id)
    | inr k ↦ omega (arith, v.known id (sym (lookup-remove id i es k) ∙ e))
  ];
}

added-IsTracker :
    (j : ℕ) (res : CommandResult) (t : Tracker) (inflight : List ℕ)
    → lookup j t.done ≡ none
    → IsTracker t
    → IsTracker (record {
      inflight = inflight;
      done = (j, res) ∷ remove_entry j t.done;
      order = t.order ++ j ∷ [];
    })
unfolding lookup
added-IsTracker j res t inflight n v = record {
  once = λ id. elim (Bool-cases (j == id)) [
    | inl k ↦
        let same : j ≡ id = ground (arith, k) in
        omega (
          arith,
          count-append (λ i. i == id) t.order (j ∷ []),
          v.known id (subst (λ i. lookup i t.done ≡ none) same n),
          one_last id j,
        )
    | inr k ↦
        omega (arith, count-append (λ i. i == id) t.order (j ∷ []), v.once id, not_last id j k)
  ];
  known = λ id e. elim (Bool-cases (j == id)) [
    | inl k ↦ absurd (result_or_none res (rw k at e))
    | inr k ↦ omega (
      arith,
      count-append (λ i. i == id) t.order (j ∷ []),
      not_last id j k,
      v.known id (sym (lookup-remove id j t.done k) ∙ (rw k at e)),
    )
  ];
}

-- The tracker's invariant.
trim-IsTracker :
    (is : List ℕ) (es : List (ℕ × CommandResult)) (inflight : List ℕ)
    → IsTracker (record { inflight = inflight; done = es; order = is })
    → IsTracker (record { inflight = inflight; done = (trim is es).1; order = (trim is es).0 })
unfolding trim
trim-IsTracker [] es inflight v = v
trim-IsTracker (i ∷ is) es inflight v =
    elim (Bool-cases (ltb cmd_done_cache_size (length (i ∷ is)))) [
      | inl e ↦ rw e (trim-IsTracker is (remove_entry i es) inflight (forgotten i is es inflight v))
      | inr e ↦ rw e v
    ]

pub begin-IsTracker : (j : ℕ) (t : Tracker) → IsTracker t → IsTracker (begin j t).1
begin-IsTracker j t v =
    let (o, d) = begin_order j t in
    record { once = rw o v.once; known = λ id e. rw o (v.known id (rw d at e)) }

-- A command that finishes was in flight, so it had no result.
pub finish-IsTracker :
    (j : ℕ) (res : CommandResult) (t : Tracker)
    → lookup j t.done ≡ none
    → IsTracker t
    → IsTracker (finish j res t)
unfolding finish
finish-IsTracker j res t n v =
    trim-IsTracker (t.order ++ j ∷ []) _ _ (added-IsTracker j res t _ n v)
