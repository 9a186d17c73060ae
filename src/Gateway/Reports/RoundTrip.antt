-- ===== src/Gateway/Reports/RoundTrip.antt =====
-- Logs on their way from the agent to the control plane
-- (gpu-platform/agent/client/client.go and gpu-platform/internal/agentgw/server.go).
use node_hive_b2b.Prelude.{
  ℕ, suc, ◌+◌, ◌≤◌, ◌≡◌, refl, ap, ◌∙◌, sym, true, false, [], ◌∷◌, ◌++◌, none, some, arith, ltb,
  ==_refl, length, drop, append_assoc, length-append, Bool-cases, inl, inr, Option-cases, ◌≢◌,
}
use node_hive_b2b.Text.{is_prefix, Text}
use node_hive_b2b.Gateway.Reports.{partial_sep, sep, find_sep, extract_logs, with_logs}

none_or_some : {A : Type 0} {a : A} → some a ≢ none
none_or_some h = cc

-- What a text starts with is decided by its first bytes.
is_prefix-append : (p xs ys : Text) → length p ≤ length xs → is_prefix p (xs ++ ys) ≡ is_prefix p xs
unfolding is_prefix
is_prefix-append [] xs ys h = refl
is_prefix-append (c ∷ p) [] ys h = absurd (omega arith)
is_prefix-append (c ∷ p) (x ∷ xs) ys h = rw (is_prefix-append p xs ys (omega arith)) refl

is_prefix_mono : (p xs ys : Text) → is_prefix p (xs ++ ys) ≡ false → is_prefix p xs ≡ false
unfolding is_prefix
is_prefix_mono [] xs ys h = h
is_prefix_mono (c ∷ p) [] ys h = refl
is_prefix_mono (c ∷ p) (x ∷ xs) ys h = ground (arith, is_prefix_mono p xs ys)

is_prefix_self : (p ys : Text) → is_prefix p (p ++ ys) ≡ true
unfolding is_prefix
is_prefix_self [] ys = refl
is_prefix_self (c ∷ p) ys = rw (==_refl c, is_prefix_self p ys) refl

drop-length : (xs ys : Text) (n : ℕ) → drop (length xs + n) (xs ++ ys) ≡ drop n ys
drop-length [] ys n = let none_dropped : 0 + n ≡ n = omega arith in rw none_dropped refl
drop-length (x ∷ xs) ys n =
    let one_more : suc (length xs) + n ≡ suc (length xs + n) = omega arith in
    rw one_more (drop-length xs ys n)

find_sep-here : (p s : Text) → is_prefix p s ≡ true → find_sep p s ≡ some 0
unfolding find_sep
find_sep-here p [] h = rw h refl
find_sep-here p (c ∷ s) h = rw h refl

find_sep-next :
    (p : Text) (c i : ℕ) (s : Text)
    → is_prefix p (c ∷ s) ≡ false
    → find_sep p s ≡ some i
    → find_sep p (c ∷ s) ≡ some (suc i)
unfolding find_sep
find_sep-next p c i s h e = rw (h, e) refl

-- No separator in a text is none at its start and none in the rest.
find_sep-none :
    (p : Text) (c : ℕ) (s : Text)
    → find_sep p (c ∷ s) ≡ none
    → (is_prefix p (c ∷ s) ≡ false) × (find_sep p s ≡ none)
unfolding find_sep
find_sep-none p c s h = elim (Bool-cases (is_prefix p (c ∷ s))) [
  | inl e ↦ absurd (none_or_some (rw e at h))
  | inr e ↦ elim (Option-cases (find_sep p s)) [
    | inl z ↦ (e, z)
    | inr (i, z) ↦ absurd (none_or_some (rw (e, z) at h))
  ]
]

module _ (q : Text) (l : ℕ) (logs : Text) where
  -- A text that, followed by a part of the separator, has no separator in it, has the first one where
  -- the separator is put.
  find_sep-first :
      (msg : Text)
      → find_sep (q ++ l ∷ []) (msg ++ q) ≡ none
      → find_sep (q ++ l ∷ []) (msg ++ (q ++ l ∷ []) ++ logs) ≡ some (length msg)
  find_sep-first [] h =
      find_sep-here (q ++ l ∷ []) ((q ++ l ∷ []) ++ logs) (is_prefix_self (q ++ l ∷ []) logs)
  find_sep-first (c ∷ msg) h =
      let (start, rest) = find_sep-none (q ++ l ∷ []) c (msg ++ q) h in
      let whole : (msg ++ (q ++ l ∷ [])) ++ logs ≡ (msg ++ q) ++ l ∷ logs =
        ap (λ s. s ++ logs) (sym (append_assoc msg q (l ∷ [])))
        ∙ append_assoc (msg ++ q) (l ∷ []) logs in
      let short : length (q ++ l ∷ []) ≤ length (c ∷ (msg ++ q)) =
        omega (arith, length-append q (l ∷ []), length-append msg q) in
      find_sep-next (q ++ l ∷ []) c (length msg) _
        (ap (λ s. is_prefix (q ++ l ∷ []) (c ∷ s)) whole
          ∙ is_prefix-append (q ++ l ∷ []) (c ∷ (msg ++ q)) (l ∷ logs) short
          ∙ start)
        (find_sep-first msg rest)

-- A separator in a text is one in a longer text.
find_sep-shorter :
    (p xs ys : Text) → find_sep p (xs ++ ys) ≡ none → is_prefix p [] ≡ false → find_sep p xs ≡ none
unfolding find_sep
find_sep-shorter p [] ys h n = rw n refl
find_sep-shorter p (x ∷ xs) ys h n =
    let (start, rest) = find_sep-none p x (xs ++ ys) h in
    rw (is_prefix_mono p (x ∷ xs) ys start, find_sep-shorter p xs ys rest n) refl

-- The logs that the agent appends to a message are the logs that the control plane stores, also when
-- there are none, when the message, followed by the separator without its last line break, has no
-- separator in it.
pub extract_logs-with_logs :
    (msg logs : Text)
    → find_sep sep (msg ++ partial_sep) ≡ none
    → extract_logs (with_logs msg logs) ≡ logs
unfolding extract_logs with_logs is_prefix
extract_logs-with_logs msg [] h =
    let none_left : find_sep sep msg ≡ none = find_sep-shorter sep msg partial_sep h refl in
    elim (Bool-cases (ltb (length sep) (length msg))) [
      | inl e ↦ rw (e, none_left) refl
      | inr e ↦ rw e refl
    ]
extract_logs-with_logs msg (c ∷ logs) h =
    let found = find_sep-first partial_sep 10 (c ∷ logs) msg h in
    let whole = (msg ++ sep) ++ c ∷ logs in
    let longer : ltb (length sep) (length whole) ≡ true =
      ground (arith, length-append (msg ++ sep) (c ∷ logs), length-append msg sep) in
    let at : length msg + length sep ≡ length (msg ++ sep) + 0 =
      omega (arith, length-append msg sep) in
    rw (longer, found, at) (drop-length (msg ++ sep) (c ∷ logs) 0)
