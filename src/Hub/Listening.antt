-- ===== src/Hub/Listening.antt =====
-- What a subscriber hears (gpu-platform/internal/events/hub.go).
use node_hive_b2b.Prelude.{
  ℕ, ◌+◌, ◌≤◌, ◌≡◌, refl, sym, ap, ◌∙◌, subst, List, [], ◌∷◌, ◌++◌, length, some, arith, ltb, ◌==◌,
  Bool-cases, inl, inr, length-append, append-nil, append_assoc,
}
use node_hive_b2b.Sql.{find}
use node_hive_b2b.Hub.{
  Event, Subscriber, buffer_size, offer, has_channel, first_of, rest_of, receive,
}
use node_hive_b2b.Hub.Acts.{
  Act, subscribed, cancelled, published, received, after_act, one_of, heard_by, run, heard, sent_by,
  sent, Stays,
}
use node_hive_b2b.Hub.Rows.{next_row, Stays-Spares, found_after, same_org}

module _ {Any : Type 0} where
  -- One act of the hub, as the listener sees it: what it gets and what its channel holds is what its
  -- channel held and what was published, when that fits.
  record IsNext (before h y s : List (Event Any)) : Type 0 where
    pub lossless : length before + length s ≤ buffer_size → h ++ y ≡ before ++ s

  unchanged-IsNext : (b : List (Event Any)) → IsNext b [] b []
  unchanged-IsNext b = record { lossless = λ h. sym (append-nil b) }

  offered-IsNext :
      (e : Event Any) (x : Subscriber Any) → IsNext x.buffer [] (offer e x).buffer (e ∷ [])
  offered-IsNext e x = elim (Bool-cases (ltb (length x.buffer) buffer_size)) [
    | inl k ↦ rw k (record { lossless = λ h. refl })
    | inr k ↦ rw k (record { lossless = λ h. ground (arith, k, h) })
  ]

  taken-IsNext : (b : List (Event Any)) → IsNext b (one_of (first_of b)) (rest_of b) []
  taken-IsNext [] = unchanged-IsNext []
  taken-IsNext (e ∷ b) = record { lossless = λ h. sym (append-nil (e ∷ b)) }

  act-IsNext :
      (ch : ℕ) (a : Act Any) (subs : List (Subscriber Any)) {x : Subscriber Any}
      → find (has_channel ch) subs ≡ some x
      → IsNext x.buffer (heard_by ch a subs) (next_row ch a x).buffer (sent_by x.org_id a)
  unfolding receive
  act-IsNext ch (subscribed o c) subs {x} h = unchanged-IsNext x.buffer
  act-IsNext ch (cancelled o c) subs {x} h = unchanged-IsNext x.buffer
  act-IsNext ch (published o e) subs {x} h = elim (Bool-cases (x.org_id == o)) [
    | inl m ↦ rw m (offered-IsNext e x)
    | inr m ↦ rw m (unchanged-IsNext x.buffer)
  ]
  act-IsNext ch (received c) subs {x} h = elim (Bool-cases (c == ch)) [
    | inl m ↦ rw (m, h) (taken-IsNext x.buffer)
    | inr m ↦ rw m (unchanged-IsNext x.buffer)
  ]

  -- One stretch of acts after another.
  joined-IsNext :
      {b h y s H z S : List (Event Any)}
      → IsNext b h y s
      → IsNext y H z S
      → IsNext b (h ++ H) z (s ++ S)
  joined-IsNext {b} {h} {y} {s} {H} {z} {S} m n = record {
    lossless = λ k.
        let all : h ++ y ≡ b ++ s = m.lossless (omega (arith, k, length-append s S)) in
        let size : length h + length y ≡ length b + length s =
          omega (arith, ap length all, length-append h y, length-append b s) in
        append_assoc h H z
        ∙ ap (λ t. h ++ t) (n.lossless (omega (arith, k, size, length-append s S)))
        ∙ sym (append_assoc h y S)
        ∙ ap (λ t. t ++ S) all
        ∙ append_assoc b s S;
  }

  run-IsNext :
      (ch : ℕ) (acts : List (Act Any)) (subs : List (Subscriber Any)) (x : Subscriber Any)
      → Stays ch acts
      → find (has_channel ch) subs ≡ some x
      → (y : Subscriber Any) × (find (has_channel ch) (run acts subs) ≡ some y)
        × IsNext x.buffer (heard ch acts subs) y.buffer (sent x.org_id acts)
  unfolding run heard sent
  run-IsNext ch [] subs x k h = (x, h, unchanged-IsNext x.buffer)
  run-IsNext ch (a ∷ acts) subs x k h =
      let (spares, stays) = Stays-Spares ch a acts k in
      let (y, found, rest) =
        run-IsNext ch acts (after_act a subs) (next_row ch a x) stays
          (found_after ch a subs spares h) in
      (
        y,
        found,
        joined-IsNext (act-IsNext ch a subs h) (
            subst
              (λ o.
                IsNext (next_row ch a x).buffer (heard ch acts (after_act a subs)) y.buffer
                  (sent o acts))
              (same_org ch a x) rest),
      )

  -- A subscriber loses nothing when what its channel holds and what is published to its organization
  -- fit into the channel together, while the channel is not cancelled.
  pub heard_all :
      (ch : ℕ) (acts : List (Act Any)) (subs : List (Subscriber Any)) (x : Subscriber Any)
      → Stays ch acts
      → find (has_channel ch) subs ≡ some x
      → length x.buffer + length (sent x.org_id acts) ≤ buffer_size
      → (y : Subscriber Any) × (find (has_channel ch) (run acts subs) ≡ some y)
        × (heard ch acts subs ++ y.buffer ≡ x.buffer ++ sent x.org_id acts)
  heard_all ch acts subs x k h fits =
      let (y, found, n) = run-IsNext ch acts subs x k h in (y, found, n.lossless fits)
