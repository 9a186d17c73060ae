-- ===== src/Prelude/Sublists.antt =====
-- Lists with some members left out.
use mathlib.Core.List.{List, [], ◌∷◌, ◌++◌}

-- `xs` is `ys` with some members dropped.
pub data Sublist {A : Type 0} : List A → List A → Type 0 where
  none_left : Sublist [] []
  dropped : {xs ys : List A} (y : A) → Sublist xs ys → Sublist xs (y ∷ ys)
  kept : {xs ys : List A} (y : A) → Sublist xs ys → Sublist (y ∷ xs) (y ∷ ys)

module _ {A : Type 0} where
  pub Sublist-prefix : (xs zs : List A) → Sublist xs (xs ++ zs)
  Sublist-prefix [] [] = none_left
  Sublist-prefix [] (z ∷ zs) = dropped z (Sublist-prefix [] zs)
  Sublist-prefix (x ∷ xs) zs = kept x (Sublist-prefix xs zs)
