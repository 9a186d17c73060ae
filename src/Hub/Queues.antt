-- ===== src/Hub/Queues.antt =====
-- The hub as bounded queues, one for each subscriber (gpu-platform/internal/events/hub.go).
use node_hive_b2b.Prelude.{
  ℕ, zero, suc, ◌≤◌, ◌≡◌, refl, sym, ap, ◌∙◌, subst, List, [], ◌∷◌, ◌++◌, length, take,
  length-take-le, some, arith, ltb, ◌==◌, if◌then◌else◌, Bool-cases, inl, inr, length-append,
}
use node_hive_b2b.Sql.{find}
use node_hive_b2b.Hub.{
  Event, Subscriber, buffer_size, offer, has_channel, first_of, rest_of, receive,
}
use node_hive_b2b.Hub.Acts.{
  Act, subscribed, cancelled, published, received, after_act, one_of, heard_by, run, heard, Stays,
}
use node_hive_b2b.Hub.Rows.{next_row, Stays-Spares, found_after, same_org}

-- The specification: a queue of at most sixteen events, which drops what comes when it is full.
pub data QueueAct (Any : Type 0) : Type 0 where
  put : Event Any → QueueAct Any
  get : QueueAct Any

module _ {Any : Type 0} where
  abbrev pub after_queue_act : QueueAct Any → List (Event Any) → List (Event Any)
  after_queue_act (put e) q = take 16 (q ++ e ∷ [])
  after_queue_act get [] = []
  after_queue_act get (e ∷ q) = q

  abbrev pub got_by : QueueAct Any → List (Event Any) → List (Event Any)
  got_by (put e) q = []
  got_by get [] = []
  got_by get (e ∷ q) = e ∷ []

  unfoldable pub queue_after : List (QueueAct Any) → List (Event Any) → List (Event Any)
  queue_after [] q = q
  queue_after (a ∷ acts) q = queue_after acts (after_queue_act a q)

  unfoldable pub got : List (QueueAct Any) → List (Event Any) → List (Event Any)
  got [] q = []
  got (a ∷ acts) q = got_by a q ++ got acts (after_queue_act a q)

  -- What concerns the subscriber of an organization on a channel.
  unfoldable pub queue_acts : ℕ → ℕ → List (Act Any) → List (QueueAct Any)
  queue_acts org_id ch [] = []
  queue_acts org_id ch (subscribed o c ∷ acts) = queue_acts org_id ch acts
  queue_acts org_id ch (cancelled o c ∷ acts) = queue_acts org_id ch acts
  queue_acts org_id ch (published o e ∷ acts) =
      let rest = queue_acts org_id ch acts in if org_id == o then put e ∷ rest else rest
  queue_acts org_id ch (received c ∷ acts) =
      let rest = queue_acts org_id ch acts in if c == ch then get ∷ rest else rest

  take_all : (n : ℕ) (xs : List (Event Any)) → length xs ≤ n → take n xs ≡ xs
  take_all zero [] h = refl
  take_all zero (x ∷ xs) h = absurd (omega (arith, h))
  take_all (suc n) [] h = refl
  take_all (suc n) (x ∷ xs) h = ap (λ r. x ∷ r) (take_all n xs (omega (arith, h)))

  take_full : (n : ℕ) (xs ys : List (Event Any)) → length xs ≡ n → take n (xs ++ ys) ≡ xs
  take_full zero [] ys h = refl
  take_full zero (x ∷ xs) ys h = absurd (omega (arith, h))
  take_full (suc n) [] ys h = absurd (omega (arith, h))
  take_full (suc n) (x ∷ xs) ys h = ap (λ r. x ∷ r) (take_full n xs ys (omega (arith, h)))

  offered-put :
      (e : Event Any) (x : Subscriber Any)
      → length x.buffer ≤ 16
      → (offer e x).buffer ≡ after_queue_act (put e) x.buffer
  offered-put e x fits = elim (Bool-cases (ltb (length x.buffer) buffer_size)) [
    | inl k ↦
        let room : length (x.buffer ++ e ∷ []) ≤ 16 =
          ground (arith, k, length-append x.buffer (e ∷ [])) in
        rw k (sym (take_all 16 (x.buffer ++ e ∷ []) room))
    | inr k ↦ rw k (sym (take_full 16 x.buffer (e ∷ []) (ground (arith, k, fits))))
  ]

  taken-get : (q : List (Event Any)) → rest_of q ≡ after_queue_act get q
  taken-get [] = refl
  taken-get (e ∷ q) = refl

  first-got : (q : List (Event Any)) → one_of (first_of q) ≡ got_by get q
  first-got [] = refl
  first-got (e ∷ q) = refl

  get-short : (q : List (Event Any)) → length q ≤ 16 → length (after_queue_act get q) ≤ 16
  get-short [] h = h
  get-short (e ∷ q) h = omega (arith, h)

  -- The queue of a subscriber, and what comes out of it, over acts that begin with one of them.
  record IsQueue (ch : ℕ) (a : Act Any) (acts : List (Act Any)) (subs : List (Subscriber Any))
      (x : Subscriber Any) : Type 0 where
    pub short : length (next_row ch a x).buffer ≤ 16
    pub same_queue :
        queue_after (queue_acts x.org_id ch (a ∷ acts)) x.buffer
        ≡ queue_after (queue_acts x.org_id ch acts) (next_row ch a x).buffer
    pub same_got :
        got (queue_acts x.org_id ch (a ∷ acts)) x.buffer
        ≡ heard_by ch a subs ++ got (queue_acts x.org_id ch acts) (next_row ch a x).buffer

  act-IsQueue :
      (ch : ℕ) (a : Act Any) (acts : List (Act Any)) (subs : List (Subscriber Any))
      (x : Subscriber Any)
      → find (has_channel ch) subs ≡ some x
      → length x.buffer ≤ 16
      → IsQueue ch a acts subs x
  unfolding queue_acts queue_after got receive
  act-IsQueue ch (subscribed o c) acts subs x h fits = record {
    short = fits;
    same_queue = refl;
    same_got = refl;
  }
  act-IsQueue ch (cancelled o c) acts subs x h fits = record {
    short = fits;
    same_queue = refl;
    same_got = refl;
  }
  act-IsQueue ch (published o e) acts subs x h fits = elim (Bool-cases (x.org_id == o)) [
    | inl m ↦
        let same = offered-put e x fits in
        record {
          short =
              rw m (subst (λ q. length q ≤ 16) (sym same) (length-take-le 16 (x.buffer ++ e ∷ [])));
          same_queue = rw m (ap (queue_after (queue_acts x.org_id ch acts)) (sym same));
          same_got = rw m (ap (got (queue_acts x.org_id ch acts)) (sym same));
        }
    | inr m ↦ record { short = rw m fits; same_queue = rw m refl; same_got = rw m refl }
  ]
  act-IsQueue ch (received c) acts subs x h fits = elim (Bool-cases (c == ch)) [
    | inl m ↦ record {
      short = rw (m, taken-get x.buffer) (get-short x.buffer fits);
      same_queue = rw (m, taken-get x.buffer) refl;
      same_got = rw (m, h, taken-get x.buffer, first-got x.buffer) refl;
    }
    | inr m ↦ record { short = rw m fits; same_queue = rw m refl; same_got = rw m refl }
  ]

  -- The hub is a bounded queue for each of its subscribers: whatever others subscribe, cancel, publish
  -- and receive, what a subscriber receives and what its channel holds is what a queue gives and holds
  -- into which the events for its organization are put, in their order, and which drops an event only
  -- when it holds sixteen, while the channel is not cancelled.
  pub run-Refines :
      (ch : ℕ) (acts : List (Act Any)) (subs : List (Subscriber Any)) (x : Subscriber Any)
      → Stays ch acts
      → find (has_channel ch) subs ≡ some x
      → length x.buffer ≤ 16
      → (y : Subscriber Any) × (find (has_channel ch) (run acts subs) ≡ some y)
        × (heard ch acts subs ≡ got (queue_acts x.org_id ch acts) x.buffer)
        × (y.buffer ≡ queue_after (queue_acts x.org_id ch acts) x.buffer)
  unfolding run heard queue_acts queue_after got
  run-Refines ch [] subs x k h fits = (x, h, refl, refl)
  run-Refines ch (a ∷ acts) subs x k h fits =
      let (spares, stays) = Stays-Spares ch a acts k in
      let q = act-IsQueue ch a acts subs x h fits in
      let (y, found, hears, holds) =
        run-Refines ch acts (after_act a subs) (next_row ch a x) stays
          (found_after ch a subs spares h) q.short in
      let org = same_org ch a x in
      (
        y,
        found,
        ap (λ r. heard_by ch a subs ++ r)
              (subst
                (λ o.
                  heard ch acts (after_act a subs)
                  ≡ got (queue_acts o ch acts) (next_row ch a x).buffer)
                org hears)
            ∙ sym q.same_got,
        subst (λ o. y.buffer ≡ queue_after (queue_acts o ch acts) (next_row ch a x).buffer) org
              holds
            ∙ sym q.same_queue,
      )
