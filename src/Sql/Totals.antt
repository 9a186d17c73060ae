-- ===== src/Sql/Totals.antt =====
-- How sums of rows move under INSERT and UPDATE.
use node_hive_b2b.Prelude.{ℕ, ◌+◌, ◌≤◌, ◌≡◌, refl, Bool, true, false, List, [], ◌∷◌, ◌++◌, arith}
use node_hive_b2b.Sql.{update, total}

module _ {ℓ} {A : Type ℓ} (f : A → ℕ) where
  pub total-append :
      (p : A → Bool) (xs ys : List A) → total p f (xs ++ ys) ≡ total p f xs + total p f ys
  unfolding total
  total-append p [] ys = omega arith
  total-append p (x ∷ xs) ys = omega (arith, total-append p xs ys)

  pub total_mono :
      (p q : A → Bool) (xs : List A)
      → ((x : A) → p x ≡ true → q x ≡ true)
      → total p f xs ≤ total q f xs
  unfolding total
  total_mono p q [] h = omega arith
  total_mono p q (x ∷ xs) h = ground (arith, h x, total_mono p q xs h)

  pub total_none : (p : A → Bool) (xs : List A) → ((x : A) → p x ≡ false) → total p f xs ≡ 0
  unfolding total
  total_none p [] h = refl
  total_none p (x ∷ xs) h = ground (arith, h x, total_none p xs h)

  pub total-update-le :
      (p q : A → Bool) (g : A → A) (xs : List A)
      → ((x : A) → p (g x) ≡ true → p x ≡ true)
      → ((x : A) → f (g x) ≡ f x)
      → total p f (update q g xs) ≤ total p f xs
  unfolding total update
  total-update-le p q g [] h k = omega arith
  total-update-le p q g (x ∷ xs) h k = ground (arith, h x, k x, total-update-le p q g xs h k)
