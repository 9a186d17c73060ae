-- ===== src/Hub/Rows.antt =====
-- The row of a subscriber under the acts of others (gpu-platform/internal/events/hub.go).
use node_hive_b2b.Prelude.{
  ℕ, ◌≡◌, refl, sym, ap, ◌∙◌, subst, Bool, true, false, not, ◌&&◌, List, [], ◌∷◌, ◌++◌, length,
  some, arith, ltb, ◌==◌, if◌then◌else◌, Bool-cases, inl, inr, some-injective,
}
use node_hive_b2b.Sql.{select, update, find}
use node_hive_b2b.Sql.Counts.{find-count}
use node_hive_b2b.Hub.{
  Subscriber, buffer_size, subscribe, cancel, offer, publish, has_channel, take_first, receive,
}
use node_hive_b2b.Hub.Acts.{Act, subscribed, cancelled, published, received, after_act, Stays}

module _ {Any : Type 0} where
  -- The listener's row after an act.
  abbrev pub next_row : ℕ → Act Any → Subscriber Any → Subscriber Any
  next_row ch (subscribed o c) x = x
  next_row ch (cancelled o c) x = x
  next_row ch (published o e) x = if x.org_id == o then offer e x else x
  next_row ch (received c) x = if c == ch then take_first x else x

  pub find-subscribe :
      (p : Subscriber Any → Bool) (xs ys : List (Subscriber Any)) {x : Subscriber Any}
      → find p xs ≡ some x
      → find p (xs ++ ys) ≡ some x
  unfolding find
  find-subscribe p [] ys h = cc
  find-subscribe p (y ∷ xs) ys h = elim (Bool-cases (p y)) [
    | inl e ↦ rw e (rw e at h)
    | inr e ↦ rw e (find-subscribe p xs ys (rw e at h))
  ]

  pub find-select :
      (p q : Subscriber Any → Bool) (xs : List (Subscriber Any)) {x : Subscriber Any}
      → ((y : Subscriber Any) → p y ≡ true → q y ≡ true)
      → find p xs ≡ some x
      → find p (select q xs) ≡ some x
  unfolding find select
  find-select p q [] k h = cc
  find-select p q (y ∷ xs) k h = elim (Bool-cases (p y)) [
    | inl e ↦ rw (k y e, e) (rw e at h)
    | inr e ↦
        let rest = find-select p q xs k (rw e at h) in
        elim (Bool-cases (q y)) [ inl f ↦ rw (f, e) rest | inr f ↦ rw f rest ]
  ]

  pub find-update :
      (p q : Subscriber Any → Bool) (f : Subscriber Any → Subscriber Any)
      (xs : List (Subscriber Any)) {x : Subscriber Any}
      → ((y : Subscriber Any) → p (f y) ≡ p y)
      → find p xs ≡ some x
      → find p (update q f xs) ≡ some (if q x then f x else x)
  unfolding find update
  find-update p q f [] k h = cc
  find-update p q f (y ∷ xs) {x} k h = elim (Bool-cases (p y)) [
    | inl e ↦
        let same : y ≡ x = some-injective _ _ (rw e at h) in
        rw same (elim (Bool-cases (q x)) [
          | inl g ↦ rw (g, k x, (ap p (sym same) ∙ e)) refl
          | inr g ↦ rw (g, (ap p (sym same) ∙ e)) refl
        ])
    | inr e ↦
        let rest = find-update p q f xs k (rw e at h) in
        elim (Bool-cases (q y)) [ inl g ↦ rw (g, k y, e) rest | inr g ↦ rw (g, e) rest ]
  ]

  -- The act does not cancel the channel.
  abbrev pub Spares : ℕ → Act Any → Type 0
  Spares ch (cancelled o c) = (c == ch) ≡ false
  Spares ch (subscribed o c) = Unit
  Spares ch (published o e) = Unit
  Spares ch (received c) = Unit

  pub Stays-Spares :
      (ch : ℕ) (a : Act Any) (acts : List (Act Any))
      → Stays ch (a ∷ acts)
      → Spares ch a × Stays ch acts
  Stays-Spares ch (cancelled o c) acts h = h
  Stays-Spares ch (subscribed o c) acts h = (tt, h)
  Stays-Spares ch (published o e) acts h = (tt, h)
  Stays-Spares ch (received c) acts h = (tt, h)

  pub found_after :
      (ch : ℕ) (a : Act Any) (subs : List (Subscriber Any)) {x : Subscriber Any}
      → Spares ch a
      → find (has_channel ch) subs ≡ some x
      → find (has_channel ch) (after_act a subs) ≡ some (next_row ch a x)
  unfolding subscribe cancel publish receive
  found_after ch (subscribed o c) subs k h = find-subscribe (has_channel ch) subs _ h
  found_after ch (cancelled o c) subs k h =
      find-select (has_channel ch) (λ x. not (x.org_id == o && x.channel == c)) subs
        (λ y m. ground (arith, k, m)) h
  found_after ch (published o e) subs k h =
      find-update (has_channel ch) (λ x. x.org_id == o) (offer e) subs
        (λ y. elim (Bool-cases (ltb (length y.buffer) buffer_size)) [
          | inl m ↦ rw m refl
          | inr m ↦ rw m refl
        ])
        h
  found_after ch (received c) subs {x} k h =
      let mine : (x.channel == ch) ≡ true = (find-count (has_channel ch) subs h).0 in
      let swap : (x.channel == c) ≡ (c == ch) = ground (arith, mine) in
      subst
        (λ t.
          find (has_channel ch) (update (has_channel c) take_first subs)
          ≡ some (if t then take_first x else x))
        swap (find-update (has_channel ch) (has_channel c) take_first subs (λ y. refl) h)

  pub same_org : (ch : ℕ) (a : Act Any) (x : Subscriber Any) → (next_row ch a x).org_id ≡ x.org_id
  same_org ch (subscribed o c) x = refl
  same_org ch (cancelled o c) x = refl
  same_org ch (published o e) x = elim (Bool-cases (x.org_id == o)) [
    | inl m ↦ rw m (elim (Bool-cases (ltb (length x.buffer) buffer_size)) [
      | inl k ↦ rw k refl
      | inr k ↦ rw k refl
    ])
    | inr m ↦ rw m refl
  ]
  same_org ch (received c) x = elim (Bool-cases (c == ch)) [ inl m ↦ rw m refl | inr m ↦ rw m refl ]
