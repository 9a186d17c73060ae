-- ===== src/Sql/Deletes.antt =====
-- How the number of rows that satisfy a test moves under DELETE, and under an UPDATE of other rows.
use node_hive_b2b.Prelude.{
  ◌+◌, ◌≤◌, ◌≡◌, refl, Bool, true, false, not, ◌&&◌, List, [], ◌∷◌, arith, Bool-cases, inl, inr, ap,
  if◌then◌else◌,
}
use node_hive_b2b.Sql.{select, update, count}

module _ {ℓ} {A : Type ℓ} where
  pub count-delete-loss :
      (q p : A → Bool) (xs : List A)
      → count q xs ≤ count q (select (λ x. not (p x)) xs) + count p xs
  unfolding count select
  count-delete-loss q p [] = omega arith
  count-delete-loss q p (x ∷ xs) = ground (arith, count-delete-loss q p xs)

  pub count-delete-le : (q p : A → Bool) (xs : List A) → count q (select p xs) ≤ count q xs
  unfolding count select
  count-delete-le q p [] = omega arith
  count-delete-le q p (x ∷ xs) = ground (arith, count-delete-le q p xs)

  -- A deletion leaves no row that it selects.
  pub count-deleted :
      (q p : A → Bool) (xs : List A)
      → ((x : A) → q x ≡ true → p x ≡ true)
      → count q (select (λ x. not (p x)) xs) ≡ 0
  unfolding count select
  count-deleted q p [] h = refl
  count-deleted q p (x ∷ xs) h = ground (arith, h x, count-deleted q p xs h)

  -- An update of rows that do not satisfy the test loses none that does.
  pub count-update-others :
      (q p : A → Bool) (f : A → A) (xs : List A)
      → count (λ x. p x && q x) xs ≡ 0
      → count q xs ≤ count q (update p f xs)
  unfolding count update
  count-update-others q p f [] h = omega arith
  count-update-others q p f (x ∷ xs) h = ground (arith, count-update-others q p f xs)

  -- An update that takes a test from the rows that it selects, and leaves the others.
  pub count-update-split :
      (q p : A → Bool) (f : A → A) (xs : List A)
      → ((x : A) → p x ≡ true → q x ≡ true)
      → ((x : A) → p x ≡ true → q (f x) ≡ false)
      → count q xs ≡ count q (update p f xs) + count p xs
  unfolding count update
  count-update-split q p f [] h k = refl
  count-update-split q p f (x ∷ xs) h k = ground (arith, h x, k x, count-update-split q p f xs h k)

  -- An update that takes the test `q` from the rows that it selects loses those that satisfy `r`.
  pub count-update-loses :
      (q p r : A → Bool) (f : A → A) (xs : List A)
      → ((x : A) → p x ≡ true → q (f x) ≡ false)
      → ((x : A) → r x ≡ true → p x ≡ true)
      → ((x : A) → r x ≡ true → q x ≡ true)
      → count q (update p f xs) + count r xs ≤ count q xs
  unfolding count update
  count-update-loses q p r f [] h k m = omega arith
  count-update-loses q p r f (x ∷ xs) h k m =
      ground (arith, h x, k x, m x, count-update-loses q p r f xs h k m)

  -- What satisfies a test after an update, by what satisfied another before.
  pub count-update_as :
      (p r q : A → Bool) (f : A → A) (xs : List A)
      → ((x : A) → q x ≡ true → p (f x) ≡ r x)
      → ((x : A) → q x ≡ false → p x ≡ r x)
      → count p (update q f xs) ≡ count r xs
  unfolding count update
  count-update_as p r q f [] h k = refl
  count-update_as p r q f (x ∷ xs) h k = elim (Bool-cases (q x)) [
    | inl e ↦ rw (e, h x e) (ap (λ n. (if r x then 1 else 0) + n) (count-update_as p r q f xs h k))
    | inr e ↦ rw (e, k x e) (ap (λ n. (if r x then 1 else 0) + n) (count-update_as p r q f xs h k))
  ]
