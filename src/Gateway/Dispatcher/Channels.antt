-- ===== src/Gateway/Dispatcher/Channels.antt =====
-- Which channels are open (gpu-platform/internal/agentgw/dispatch.go).
use node_hive_b2b.Prelude.{
  ℕ, ◌+◌, ◌≤◌, ◌<◌, ◌≡◌, refl, ◌∙◌, Bool, true, false, not, ◌&&◌, List, [], ◌∷◌, none, some,
  some-injective, arith, ◌==◌, ==_refl, Bool-cases, Option-cases, inl, inr, subst, &&_true, ◌≢◌, ap,
  sym,
}
use node_hive_b2b.Sql.{select, count, find, exists}
use node_hive_b2b.Sql.Counts.{count-select, count_mono, never, not-exists}
use node_hive_b2b.Sql.Keys.{find-select}
use node_hive_b2b.Gateway.Dispatcher.{
  Registration, Dispatcher, Sending, is_for, lookup, register, deregister, channel_of, send_target,
  send,
}

abbrev pub closings : ℕ → Dispatcher → ℕ
closings ch d = count (λ c. c == ch) d.closed

abbrev pub users_of : ℕ → Dispatcher → ℕ
users_of ch d = count (λ r. r.channel == ch) d.streams

-- A node has one registration, a channel one user, and a channel in use is open; no channel has been
-- closed twice.
pub record IsSafe (d : Dispatcher) : Type 0 where
  pub one_stream : (node_id : ℕ) → count (is_for node_id) d.streams ≤ 1
  pub used_once : (ch : ℕ) → users_of ch d + closings ch d ≤ 1

delete-le :
    (q p : Registration → Bool) (xs : List Registration) → count q (select p xs) ≤ count q xs
delete-le q p xs =
    omega (arith, count-select p q xs, count_mono (λ x. p x && q x) q xs (λ x e. (&&_true _ _ e).1))

-- Registering a new channel keeps the registry safe.
pub register-IsSafe :
    (node_id ch : ℕ) (d : Dispatcher)
    → IsSafe d
    → users_of ch d + closings ch d ≡ 0
    → IsSafe (register node_id ch d)
unfolding register count
register-IsSafe node_id ch d v fresh = record {
  one_stream = λ n. elim (Bool-cases (node_id == n)) [
    | inl e ↦
        let gone =
          never (λ r. not (is_for node_id r) && is_for n r) d.streams (λ r. ground arith) in
        ground (arith, gone, count-select (λ r. not (is_for node_id r)) (is_for n) d.streams)
    | inr e ↦
        ground (arith, v.one_stream n, delete-le (is_for n) (λ r. not (is_for node_id r)) d.streams)
  ];
  used_once = λ c. elim (Bool-cases (ch == c)) [
    | inl e ↦
        let same : ch ≡ c = ground arith in
        let unused : users_of c d + closings c d ≡ 0 =
          subst (λ k. users_of k d + closings k d ≡ 0) same fresh in
        ground
          (arith, unused, delete-le (λ r. r.channel == c) (λ r. not (is_for node_id r)) d.streams)
    | inr e ↦ ground (
      arith,
      v.used_once c,
      delete-le (λ r. r.channel == c) (λ r. not (is_for node_id r)) d.streams,
    )
  ];
}

-- The found registration is one of the rows.
found_counts :
    (p q : Registration → Bool) (xs : List Registration) {a : Registration}
    → find p xs ≡ some a
    → q a ≡ true
    → 0 < count (λ x. p x && q x) xs
unfolding count find
found_counts p q [] h k = cc
found_counts p q (x ∷ xs) {a} h k = elim (Bool-cases (p x)) [
  | inl e ↦
      let same : x ≡ a = some-injective _ _ (rw e at h) in
      let holds : q x ≡ true = rw same k in ground arith
  | inr e ↦ ground (arith, found_counts p q xs {a = a} (rw e at h) k)
]

-- A deletion and what it deletes make up all rows.
delete-count :
    (q p : Registration → Bool) (xs : List Registration)
    → count q (select (λ x. not (p x)) xs) + count (λ x. p x && q x) xs ≡ count q xs
unfolding count select
delete-count q p [] = refl
delete-count q p (x ∷ xs) = ground (arith, delete-count q p xs)

-- The registry after the node's current channel has been closed.
abbrev after_close : ℕ → ℕ → Dispatcher → Dispatcher
after_close node_id ch d = record d {
  streams = select (λ r. not (is_for node_id r)) d.streams;
  closed = ch ∷ d.closed;
}

after_close-IsSafe :
    (node_id : ℕ) (cur : Registration) (d : Dispatcher)
    → IsSafe d
    → lookup node_id d ≡ some cur
    → (closings cur.channel d ≡ 0)
      × (count (is_for node_id) (after_close node_id cur.channel d).streams ≡ 0)
      × IsSafe (after_close node_id cur.channel d)
unfolding count
after_close-IsSafe node_id cur d v f = (
  omega (arith, v.used_once cur.channel, split cur.channel, one),
  count-select (λ r. not (is_for node_id r)) (is_for node_id) d.streams
      ∙ never (λ r. not (is_for node_id r) && is_for node_id r) d.streams (λ r. ground arith),
  record {
    one_stream = λ n.
        omega (arith, v.one_stream n, delete-le (is_for n) (λ r. not (is_for node_id r)) d.streams);
    used_once = λ c. elim (Bool-cases (cur.channel == c)) [
      | inl e ↦
          let same : cur.channel ≡ c = ground arith in
          let used =
            subst (λ k. 0 < count (λ x. is_for node_id x && x.channel == k) d.streams) same one in
          ground (arith, v.used_once c, split c, used)
      | inr e ↦ ground (arith, v.used_once c, split c)
    ];
  },
)
  where
    one : 0 < count (λ x. is_for node_id x && x.channel == cur.channel) d.streams
    one =
        found_counts (is_for node_id) (λ r. r.channel == cur.channel) d.streams f
          (==_refl cur.channel)

    split :
        (c : ℕ)
        → count (λ r. r.channel == c) (select (λ x. not (is_for node_id x)) d.streams)
            + count (λ x. is_for node_id x && x.channel == c) d.streams
          ≡ count (λ r. r.channel == c) d.streams
    split c = delete-count (λ r. r.channel == c) (is_for node_id) d.streams

-- What a deregistration with a channel gives.
pub data Deregisters (node_id ch : ℕ) (d : Dispatcher) (r : Bool × Dispatcher) : Type 0 where
  current :
      send_target node_id d ≡ some ch
      → r.0 ≡ true
      → closings ch r.1 ≡ 1
      → count (is_for node_id) r.1.streams ≡ 0
      → ((n : ℕ) → (node_id == n) ≡ false → send_target n r.1 ≡ send_target n d)
      → IsSafe r.1
      → Deregisters node_id ch d r
  stale : send_target node_id d ≢ some ch → r ≡ (false, d) → Deregisters node_id ch d r

-- Deregistering closes the channel if it is the node's current one, and is without effect otherwise.
-- In the first case the node has no channel any more, the other nodes keep theirs, and the registry
-- stays safe: nothing has been closed twice, and no registered channel is closed.
pub deregister-IsSafe :
    (node_id ch : ℕ) (d : Dispatcher)
    → IsSafe d
    → Deregisters node_id ch d (deregister node_id ch d)
unfolding deregister send_target count
deregister-IsSafe node_id ch d v = elim (Option-cases (lookup node_id d)) [
  | inl n ↦ stale (λ k. let q : none ≡ some ch = rw n at k in cc) (rw n refl)
  | inr (cur, f) ↦ elim (Bool-cases (cur.channel == ch)) [
    | inl e ↦
        let same : cur.channel ≡ ch = ground arith in
        let (zero_before, all_gone, safe) = after_close-IsSafe node_id cur d v f in
        let z : closings ch d ≡ 0 = subst (λ k. closings k d ≡ 0) same zero_before in
        current (rw f (ap some same)) (rw (f, e) refl) (rw (f, e) (ground arith))
          (rw (f, e) all_gone)
          (λ n other.
            rw (f, e)
              (ap channel_of (
                find-select (is_for n) (λ r. not (is_for node_id r)) d.streams
                  (λ r k. ground (arith, k, other)))))
          (rw (f, e) safe)
    | inr e ↦
        stale
          (λ k.
            let q : cur.channel ≡ ch = some-injective _ _ (rw f at k) in
            absurd (ground (arith, e, q)))
          (rw (f, e) refl)
  ]
]

-- A send whose select takes the channel's case sends the message when nothing comes between its two
-- steps, and panics when the node's stream is deregistered between them.
pub send_race :
    (node_id ch : ℕ) (d : Dispatcher)
    → send_target node_id d ≡ some ch
    → IsSafe d
    → (send true node_id d d ≡ Sending.sent)
      × (send true node_id d (deregister node_id ch d).1 ≡ Sending.panicked)
unfolding send send_target deregister exists
send_race node_id ch d h v = elim (Option-cases (lookup node_id d)) [
  | inl n ↦ absurd (let q : none ≡ some ch = rw n at h in cc)
  | inr (cur, f) ↦
      let same : cur.channel ≡ ch = some-injective _ _ (rw f at h) in
      let (zero_before, all_gone, safe) = after_close-IsSafe node_id cur d v f in
      let z : exists (λ c. c == cur.channel) d.closed ≡ false =
        not-exists (λ c. c == cur.channel) d.closed zero_before in
      rw (f, sym same, z, ==_refl cur.channel) (refl, rw (==_refl cur.channel) refl)
]
