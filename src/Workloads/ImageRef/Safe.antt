-- ===== src/Workloads/ImageRef/Safe.antt =====
-- What an admitted image reference is made of.
use node_hive_b2b.Prelude.{
  ℕ, zero, suc, Bool, true, false, ◌≡◌, ◌||◌, refl, [], ◌∷◌, ◌==◌, All, arith, Bool-cases, inl, inr,
}
use node_hive_b2b.Text.{Text, runes}
use node_hive_b2b.Workloads.ImageRef.{
  Regex, never, empty, one, seq, alt, many, nullable, derive, matches, is_alnum, is_digit, is_hex,
  is_ref_char, times, word, image_ref_pattern,
}

-- The runes of a reference: letters, digits and the punctuation of the pattern. No space, control
-- byte, quote or shell metacharacter is among them.
abbrev pub is_safe : ℕ → Bool
is_safe c = is_ref_char c || c == b':' || c == b'/' || c == b'@'

-- Every class of the expression lies within `p`.
abbrev pub Over : (ℕ → Bool) → Regex → Type 0
Over p never = Unit {0}
Over p empty = Unit {0}
Over p (one q) = (c : ℕ) → q c ≡ true → p c ≡ true
Over p (seq a b) = Over p a × Over p b
Over p (alt a b) = Over p a × Over p b
Over p (many a) = Over p a

-- An expression that matches nothing, visibly.
abbrev IsVoid : Regex → Type 0
IsVoid never = Unit {0}
IsVoid empty = ⊥
IsVoid (one q) = ⊥
IsVoid (seq a b) = IsVoid a
IsVoid (alt a b) = IsVoid a × IsVoid b
IsVoid (many a) = ⊥

IsVoid-nullable : (r : Regex) → IsVoid r → nullable r ≡ false
unfolding nullable
IsVoid-nullable never v = refl
IsVoid-nullable empty v = absurd v
IsVoid-nullable (one q) v = refl
IsVoid-nullable (seq a b) v = ground (arith, IsVoid-nullable a v)
IsVoid-nullable (alt a b) v = ground (arith, IsVoid-nullable a v.0, IsVoid-nullable b v.1)
IsVoid-nullable (many a) v = absurd v

IsVoid-derive : (c : ℕ) (r : Regex) → IsVoid r → IsVoid (derive c r)
unfolding derive
IsVoid-derive c never v = tt
IsVoid-derive c empty v = absurd v
IsVoid-derive c (one q) v = absurd v
IsVoid-derive c (seq a b) v = rw (IsVoid-nullable a v) (IsVoid-derive c a v)
IsVoid-derive c (alt a b) v = (IsVoid-derive c a v.0, IsVoid-derive c b v.1)
IsVoid-derive c (many a) v = absurd v

IsVoid-matches : (r : Regex) (s : Text) → IsVoid r → matches r s ≡ false
unfolding matches
IsVoid-matches r [] v = IsVoid-nullable r v
IsVoid-matches r (c ∷ s) v = IsVoid-matches (derive c r) s (IsVoid-derive c r v)

-- A rune outside every class leaves nothing that could match.
derive-IsVoid : (p : ℕ → Bool) (c : ℕ) (r : Regex) → Over p r → p c ≡ false → IsVoid (derive c r)
unfolding derive
derive-IsVoid p c never o h = tt
derive-IsVoid p c empty o h = tt
derive-IsVoid p c (one q) o h = elim (Bool-cases (q c)) [
  | inl e ↦ absurd (cc (o c e))
  | inr e ↦ rw e tt
]
derive-IsVoid p c (seq a b) o h = elim (Bool-cases (nullable a)) [
  | inl e ↦ rw e (derive-IsVoid p c a o.0 h, derive-IsVoid p c b o.1 h)
  | inr e ↦ rw e (derive-IsVoid p c a o.0 h)
]
derive-IsVoid p c (alt a b) o h = (derive-IsVoid p c a o.0 h, derive-IsVoid p c b o.1 h)
derive-IsVoid p c (many a) o h = derive-IsVoid p c a o h

derive-Over : (p : ℕ → Bool) (c : ℕ) (r : Regex) → Over p r → Over p (derive c r)
unfolding derive
derive-Over p c never o = tt
derive-Over p c empty o = tt
derive-Over p c (one q) o = elim (Bool-cases (q c)) [ inl e ↦ rw e tt | inr e ↦ rw e tt ]
derive-Over p c (seq a b) o = elim (Bool-cases (nullable a)) [
  | inl e ↦ rw e ((derive-Over p c a o.0, o.1), derive-Over p c b o.1)
  | inr e ↦ rw e (derive-Over p c a o.0, o.1)
]
derive-Over p c (alt a b) o = (derive-Over p c a o.0, derive-Over p c b o.1)
derive-Over p c (many a) o = (derive-Over p c a o, o)

-- A text that matches is made of the runes of the classes.
pub matches-All :
    (p : ℕ → Bool) (r : Regex) (s : Text) → Over p r → matches r s ≡ true → All (λ c. p c ≡ true) s
unfolding matches
matches-All p r [] o h = tt
matches-All p r (c ∷ s) o h = elim (Bool-cases (p c)) [
  | inl e ↦ (e, matches-All p (derive c r) s (derive-Over p c r o) h)
  | inr e ↦ absurd (cc (IsVoid-matches (derive c r) s (derive-IsVoid p c r o e)))
]

times-Over : (p : ℕ → Bool) (n : ℕ) (r : Regex) → Over p r → Over p (times n r)
times-Over p zero r o = tt
times-Over p (suc n) r o = (o, times-Over p n r o)

alnum-is_safe : (c : ℕ) → is_alnum c ≡ true → is_safe c ≡ true
alnum-is_safe c h = ground arith

ref_char-is_safe : (c : ℕ) → is_ref_char c ≡ true → is_safe c ≡ true
ref_char-is_safe c h = ground arith

digit-is_safe : (c : ℕ) → is_digit c ≡ true → is_safe c ≡ true
digit-is_safe c h = ground arith

hex-is_safe : (c : ℕ) → is_hex c ≡ true → is_safe c ≡ true
hex-is_safe c h = ground arith

equal-is_safe : (d : ℕ) → is_safe d ≡ true → (c : ℕ) → (c == d) ≡ true → is_safe c ≡ true
equal-is_safe d k c h = let e : c ≡ d = ground arith in rw e k

word-Over : (s : Text) → All (λ c. is_safe c ≡ true) s → Over is_safe (word s)
word-Over [] h = tt
word-Over (c ∷ s) h = (equal-is_safe c h.0, word-Over s h.1)

digest-Over : Over is_safe (word (runes "@sha256:"))
digest-Over =
    word-Over (runes "@sha256:") (refl, (refl, (refl, (refl, (refl, (refl, (refl, (refl, tt))))))))

colon : Over is_safe (word (runes ":"))
colon = word-Over (runes ":") (refl, tt)

slash : Over is_safe (word (runes "/"))
slash = word-Over (runes "/") (refl, tt)

pub image_ref_pattern-Over : Over is_safe image_ref_pattern
unfolding image_ref_pattern
image_ref_pattern-Over = (
  alnum-is_safe,
  (
    ref_char-is_safe,
    (
      ((colon, (digit-is_safe, digit-is_safe)), tt),
      (
        (slash, (ref_char-is_safe, ref_char-is_safe)),
        (
          ((colon, (ref_char-is_safe, ref_char-is_safe)), tt),
          ((digest-Over, times-Over is_safe 64 (one is_hex) hex-is_safe), tt),
        ),
      ),
    ),
  ),
)
