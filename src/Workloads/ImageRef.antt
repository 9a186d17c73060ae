-- ===== src/Workloads/ImageRef.antt =====
-- The container image references that a launch admits: `imageRefPattern` in
-- gpu-platform/internal/workloads/impl.go, as a regular expression with a matcher by derivatives.
pub mod Safe
use node_hive_b2b.Prelude.{
  ℕ, zero, suc, Bool, true, false, ◌&&◌, ◌||◌, String, List, [], ◌∷◌, ◌++◌, leb, ◌==◌,
  if◌then◌else◌,
}
use node_hive_b2b.Text.{Text, runes}

pub data Regex : Type 0 where
  never : Regex
  empty : Regex
  one : (ℕ → Bool) → Regex
  seq : Regex → Regex → Regex
  alt : Regex → Regex → Regex
  many : Regex → Regex

-- Whether the empty text matches.
nullable : Regex → Bool
nullable never = false
nullable empty = true
nullable (one p) = false
nullable (seq a b) = nullable a && nullable b
nullable (alt a b) = nullable a || nullable b
nullable (many a) = true

-- What must match after a rune.
derive : ℕ → Regex → Regex
unfolding nullable
derive c never = never
derive c empty = never
derive c (one p) = if p c then empty else never
derive c (seq a b) =
    let first = seq (derive c a) b in
    let rest = derive c b in if nullable a then alt first rest else first
derive c (alt a b) = alt (derive c a) (derive c b)
derive c (many a) = seq (derive c a) (many a)

unfoldable pub matches : Regex → Text → Bool
unfolding nullable derive
matches r [] = nullable r
matches r (c ∷ s) = matches (derive c r) s

abbrev pub maybe : Regex → Regex
maybe r = alt r empty

abbrev pub some_of : Regex → Regex
some_of r = seq r (many r)

abbrev pub times : ℕ → Regex → Regex
times zero r = empty
times (suc n) r = seq r (times n r)

abbrev pub word : Text → Regex
word [] = empty
word (c ∷ s) = seq (one (λ d. d == c)) (word s)

abbrev pub is_digit : ℕ → Bool
is_digit c = leb b'0' c && leb c b'9'

abbrev pub is_alnum : ℕ → Bool
is_alnum c = (leb b'a' c && leb c b'z') || (leb b'A' c && leb c b'Z') || is_digit c

-- [a-zA-Z0-9._\-]
abbrev pub is_ref_char : ℕ → Bool
is_ref_char c = is_alnum c || c == b'.' || c == b'_' || c == b'-'

abbrev pub is_hex : ℕ → Bool
is_hex c = (leb b'a' c && leb c b'f') || (leb b'A' c && leb c b'F') || is_digit c

abbrev ref_word : Regex
ref_word = some_of (one is_ref_char)

-- ^[a-zA-Z0-9][a-zA-Z0-9._\-]*(?::[0-9]+)?(?:/[a-zA-Z0-9._\-]+)*(?::[a-zA-Z0-9._\-]+)?
-- (?:@sha256:[a-fA-F0-9]{64})?$
unfoldable pub image_ref_pattern : Regex
image_ref_pattern = seq (one is_alnum) (
    seq (many (one is_ref_char)) (
      seq (maybe (seq (word (runes ":")) (some_of (one is_digit)))) (
        seq (many (seq (word (runes "/")) ref_word)) (
          seq (maybe (seq (word (runes ":")) ref_word))
            (maybe (seq (word (runes "@sha256:")) (times 64 (one is_hex))))))))
