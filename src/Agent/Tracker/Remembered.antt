-- ===== src/Agent/Tracker/Remembered.antt =====
-- Finished commands that are still cached
-- (gpu-platform/agent/client/client.go).
use node_hive_b2b.Prelude.{
  ℕ, suc, ◌+◌, ◌≤◌, ◌<◌, ◌≡◌, refl, ap, ◌∙◌, false, List, [], ◌∷◌, ◌++◌, some, arith, ltb, ◌==◌,
  ==_refl, length, Bool-cases, inl, inr, append_assoc, length-append,
}
use node_hive_b2b.Sql.{count}
use node_hive_b2b.Agent.Tracker.{
  CommandResult, Tracker, cmd_done_cache_size, lookup, remove_entry, begin, trim, finish,
}
use node_hive_b2b.Agent.Tracker.Ops.{
  Op, begins, finishes, run, is_finish, Others, lookup-remove, begin_order,
}

-- The command has finished with a result, and `n` commands have finished since.
pub record Remembered (id : ℕ) (res : CommandResult) (n : ℕ) (t : Tracker) : Type 0 where
  pub older : List ℕ
  pub newer : List ℕ
  pub order : t.order ≡ older ++ id ∷ newer
  pub since : length newer ≡ n
  pub not_older : count (λ i. i == id) older ≡ 0
  pub result : lookup id t.done ≡ some res

-- Forgetting the oldest stops before a command that is among the 256 newest.
pub trim-keeps :
    (id : ℕ) (res : CommandResult) (older newer : List ℕ) (es : List (ℕ × CommandResult))
    → suc (length newer) ≤ cmd_done_cache_size
    → count (λ i. i == id) older ≡ 0
    → lookup id es ≡ some res
    → (left : List ℕ) × ((trim (older ++ id ∷ newer) es).0 ≡ left ++ id ∷ newer)
      × (count (λ i. i == id) left ≡ 0)
      × (lookup id (trim (older ++ id ∷ newer) es).1 ≡ some res)
unfolding trim count
trim-keeps id res [] newer es short none_older h =
    let fits : ltb cmd_done_cache_size (length (id ∷ newer)) ≡ false = ground arith in
    ([], rw fits refl, refl, rw fits h)
trim-keeps id res (i ∷ older) newer es short none_older h =
    let (head, tail) : ((i == id) ≡ false) × (count (λ j. j == id) older ≡ 0) =
      (ground arith, ground arith) in
    elim (Bool-cases (ltb cmd_done_cache_size (length (i ∷ (older ++ id ∷ newer))))) [
      | inl e ↦
          let (left, o, c, l) =
            trim-keeps id res older newer (remove_entry i es) short tail
              (lookup-remove id i es head ∙ h) in
          (left, rw e o, c, rw e l)
      | inr e ↦ (i ∷ older, rw e refl, rw (head, tail) refl, rw e h)
    ]

module _ (id : ℕ) (res : CommandResult) where
  pub begin-Remembered :
      (j n : ℕ) (t : Tracker) → Remembered id res n t → Remembered id res n (begin j t).1
  begin-Remembered j n t r =
      let (o, d) = begin_order j t in
      record {
        older = r.older;
        newer = r.newer;
        order = rw o r.order;
        since = r.since;
        not_older = r.not_older;
        result = rw d r.result;
      }

  pub finish-Remembered :
      (j : ℕ) (other : CommandResult) (n : ℕ) (t : Tracker)
      → (j == id) ≡ false
      → suc n < cmd_done_cache_size
      → Remembered id res n t
      → Remembered id res (suc n) (finish j other t)
  unfolding finish lookup
  finish-Remembered j other n t apart short r =
      let appended : t.order ++ j ∷ [] ≡ r.older ++ id ∷ (r.newer ++ j ∷ []) =
        ap (λ o. o ++ j ∷ []) r.order ∙ append_assoc r.older (id ∷ r.newer) (j ∷ []) in
      let still : lookup id ((j, other) ∷ remove_entry j t.done) ≡ some res =
        rw apart (lookup-remove id j t.done apart ∙ r.result) in
      let count_newer : length (r.newer ++ j ∷ []) ≡ suc n =
        omega (arith, length-append r.newer (j ∷ []), r.since) in
      let (left, o, c, l) =
        trim-keeps id res r.older (r.newer ++ j ∷ []) ((j, other) ∷ remove_entry j t.done)
          (omega (arith, count_newer, short)) r.not_older still in
      record {
        older = left;
        newer = r.newer ++ j ∷ [];
        order = rw appended o;
        since = count_newer;
        not_older = c;
        result = rw appended l;
      }

  pub run-Remembered :
      (os : List Op) (n : ℕ) (t : Tracker)
      → Others id os
      → n + count is_finish os < cmd_done_cache_size
      → Remembered id res n t
      → lookup id (run os t).done ≡ some res
  unfolding run count
  run-Remembered [] n t o short r = r.result
  run-Remembered (begins j ∷ os) n t o short r =
      run-Remembered os n (begin j t).1 (omega (arith, o)) (omega (arith, short))
        (begin-Remembered j n t r)
  run-Remembered (finishes j other ∷ os) n t o short r =
      run-Remembered os (suc n) (finish j other t) (ground (arith, o)) (omega (arith, short))
        (finish-Remembered j other n t (ground (arith, o)) (omega (arith, short)) r)

  pub finished-Remembered :
      (t : Tracker) → count (λ i. i == id) t.order ≡ 0 → Remembered id res 0 (finish id res t)
  unfolding finish lookup
  finished-Remembered t z =
      let (left, o, c, l) =
        trim-keeps id res t.order [] ((id, res) ∷ remove_entry id t.done) (omega arith) z
          (rw (==_refl id) refl) in
      record { older = left; newer = []; order = o; since = refl; not_older = c; result = l }
