-- ===== src/Sql/Counts.antt =====
-- How the number of rows that satisfy a test moves under SELECT, UPDATE, INSERT, ORDER BY and LIMIT.
use node_hive_b2b.Prelude.{
  ℕ, zero, suc, ◌+◌, ◌≤◌, ◌<◌, ◌≡◌, refl, Bool, true, false, ◌&&◌, List, [], ◌∷◌, ◌++◌, none, some,
  arith, take, length, map, Bool-cases, ◌⊎◌, inl, inr, ap, some-injective,
}
use node_hive_b2b.Sql.{select, update, count, find, exists, insert_by, order_by}

module _ {ℓ} {A : Type ℓ} where
  pub count-append : (p : A → Bool) (xs ys : List A) → count p (xs ++ ys) ≡ count p xs + count p ys
  unfolding count
  count-append p [] ys = omega arith
  count-append p (x ∷ xs) ys = omega (arith, count-append p xs ys)

  pub count-le-length : (p : A → Bool) (xs : List A) → count p xs ≤ length xs
  unfolding count
  count-le-length p [] = omega arith
  count-le-length p (x ∷ xs) = ground (arith, count-le-length p xs)

  pub count_mono :
      (p q : A → Bool) (xs : List A) → ((x : A) → p x ≡ true → q x ≡ true) → count p xs ≤ count q xs
  unfolding count
  count_mono p q [] h = omega arith
  count_mono p q (x ∷ xs) h = ground (arith, h x, count_mono p q xs h)

  -- A row that satisfies `q` after the update satisfied `r` before it.
  pub count-update-le :
      (q p r : A → Bool) (f : A → A) (xs : List A)
      → ((x : A) → p x ≡ true → q (f x) ≡ true → r x ≡ true)
      → ((x : A) → p x ≡ false → q x ≡ true → r x ≡ true)
      → count q (update p f xs) ≤ count r xs
  unfolding count update
  count-update-le q p r f [] h k = omega arith
  count-update-le q p r f (x ∷ xs) h k = ground (arith, h x, k x, count-update-le q p r f xs h k)

  -- A row that satisfied `r` before the update satisfies `q` after it.
  pub count-le-update :
      (q p r : A → Bool) (f : A → A) (xs : List A)
      → ((x : A) → p x ≡ true → r x ≡ true → q (f x) ≡ true)
      → ((x : A) → p x ≡ false → r x ≡ true → q x ≡ true)
      → count r xs ≤ count q (update p f xs)
  unfolding count update
  count-le-update q p r f [] h k = omega arith
  count-le-update q p r f (x ∷ xs) h k = ground (arith, h x, k x, count-le-update q p r f xs h k)

  -- An update that leaves the test as it was leaves the count.
  pub count-update :
      (q p : A → Bool) (f : A → A) (xs : List A)
      → ((x : A) → p x ≡ true → q (f x) ≡ q x)
      → count q (update p f xs) ≡ count q xs
  unfolding count update
  count-update q p f [] h = refl
  count-update q p f (x ∷ xs) h = ground (arith, h x, count-update q p f xs h)

  pub length-update : (p : A → Bool) (f : A → A) (xs : List A) → length (update p f xs) ≡ length xs
  unfolding update
  length-update p f [] = refl
  length-update p f (x ∷ xs) = omega (arith, length-update p f xs)

  -- An update of no row changes nothing.
  pub update_none : (p : A → Bool) (f : A → A) (xs : List A) → count p xs ≡ 0 → update p f xs ≡ xs
  unfolding count update
  update_none p f [] h = refl
  update_none p f (x ∷ xs) h = ground (arith, update_none p f xs)

  -- An update that takes its own test away leaves no row that satisfies it.
  pub count-update_self :
      (p : A → Bool) (f : A → A) (xs : List A)
      → ((x : A) → p x ≡ true → p (f x) ≡ false)
      → count p (update p f xs) ≡ 0
  unfolding count update
  count-update_self p f [] h = refl
  count-update_self p f (x ∷ xs) h = ground (arith, h x, count-update_self p f xs h)

  -- No row satisfies `q` after an update that takes it away, when the other rows do not satisfy it.
  pub count-update-none :
      (q p : A → Bool) (f : A → A) (xs : List A)
      → ((x : A) → p x ≡ true → q (f x) ≡ false)
      → ((x : A) → p x ≡ false → q x ≡ false)
      → count q (update p f xs) ≡ 0
  unfolding count update
  count-update-none q p f [] h k = refl
  count-update-none q p f (x ∷ xs) h k = ground (arith, h x, k x, count-update-none q p f xs h k)

  -- A test that no row can satisfy.
  pub never : (p : A → Bool) (xs : List A) → ((x : A) → p x ≡ false) → count p xs ≡ 0
  unfolding count
  never p [] h = refl
  never p (x ∷ xs) h = ground (arith, h x, never p xs h)

  pub count-select :
      (p q : A → Bool) (xs : List A) → count q (select p xs) ≡ count (λ x. p x && q x) xs
  unfolding count select
  count-select p q [] = refl
  count-select p q (x ∷ xs) = ground (arith, count-select p q xs)

  pub length-select : (p : A → Bool) (xs : List A) → length (select p xs) ≡ count p xs
  unfolding count select
  length-select p [] = refl
  length-select p (x ∷ xs) = ground (arith, length-select p xs)

  pub count-take-le : (p : A → Bool) (n : ℕ) (xs : List A) → count p (take n xs) ≤ count p xs
  unfolding count
  count-take-le p zero xs = omega arith
  count-take-le p (suc n) [] = omega arith
  count-take-le p (suc n) (x ∷ xs) = omega (arith, count-take-le p n xs)

  count-insert_by :
      (p : A → Bool) (le : A → A → Bool) (x : A) (xs : List A)
      → count p (insert_by le x xs) ≡ count p (x ∷ xs)
  unfolding count insert_by
  count-insert_by p le x [] = refl
  count-insert_by p le x (y ∷ ys) = ground (arith, count-insert_by p le x ys)

  pub count-order_by :
      (p : A → Bool) (le : A → A → Bool) (xs : List A) → count p (order_by le xs) ≡ count p xs
  unfolding count order_by
  count-order_by p le [] = refl
  count-order_by p le (x ∷ xs) =
      ground (arith, count-insert_by p le x (order_by le xs), count-order_by p le xs)

  pub length-count : (xs : List A) → count (λ x. true) xs ≡ length xs
  unfolding count
  length-count [] = refl
  length-count (x ∷ xs) = omega (arith, length-count xs)

  pub find-count :
      (p : A → Bool) (xs : List A) {a : A} → find p xs ≡ some a → (p a ≡ true) × (0 < count p xs)
  unfolding find count
  find-count p [] h = cc
  find-count p (x ∷ xs) {a} h = elim (Bool-cases (p x)) [
    | inl e ↦ ground arith
    | inr e ↦ ground (arith, find-count p xs {a = a})
  ]

  pub find-none-count : (p : A → Bool) (xs : List A) → find p xs ≡ none → count p xs ≡ 0
  unfolding find count
  find-none-count p [] h = refl
  find-none-count p (x ∷ xs) h = ground (arith, find-none-count p xs)

  pub exists-count : (p : A → Bool) (xs : List A) → exists p xs ≡ true → 0 < count p xs
  unfolding exists count
  exists-count p [] h = cc
  exists-count p (x ∷ xs) h = ground (arith, exists-count p xs)

  pub not-find : (p : A → Bool) (xs : List A) → count p xs ≡ 0 → find p xs ≡ none
  unfolding find count
  not-find p [] h = refl
  not-find p (x ∷ xs) h = ground (arith, not-find p xs)

  -- A row that is found.
  pub count-find :
      (p : A → Bool) (xs : List A) → 0 < count p xs → (a : A) × (find p xs ≡ some a) × (p a ≡ true)
  unfolding find count
  count-find p [] h = absurd (omega arith)
  count-find p (x ∷ xs) h = elim (Bool-cases (p x)) [
    | inl e ↦ (x, rw e refl, e)
    | inr e ↦ let (a, f, g) = count-find p xs (ground arith) in (a, rw e f, g)
  ]

  -- The row that a query on a key finds after an update of other columns.
  pub find-update :
      (p q : A → Bool) (f : A → A) (xs : List A) {a : A}
      → ((x : A) → p (f x) ≡ p x)
      → find p xs ≡ some a
      → (b : A) × (find p (update q f xs) ≡ some b) × ((b ≡ a) ⊎ (b ≡ f a))
  unfolding find update
  find-update p q f [] h e = cc
  find-update p q f (x ∷ xs) {a} h e = elim (Bool-cases (p x)) [
    | inl k ↦ elim (Bool-cases (q x)) [
      | inl m ↦ (f x, rw (m, h x, k) refl, inr (ap f (some-injective _ _ (rw k at e))))
      | inr m ↦ (x, rw (m, k) refl, inl (some-injective _ _ (rw k at e)))
    ]
    | inr k ↦
        let (b, g, o) = find-update p q f xs {a = a} h (rw k at e) in
        elim (Bool-cases (q x)) [ inl m ↦ (b, rw (m, h x, k) g, o) | inr m ↦ (b, rw (m, k) g, o) ]
  ]

  pub count-exists : (p : A → Bool) (xs : List A) → exists p xs ≡ false → count p xs ≡ 0
  unfolding exists count
  count-exists p [] h = refl
  count-exists p (x ∷ xs) h = ground (arith, count-exists p xs)

  pub not-exists : (p : A → Bool) (xs : List A) → count p xs ≡ 0 → exists p xs ≡ false
  unfolding exists count
  not-exists p [] h = refl
  not-exists p (x ∷ xs) h = ground (arith, not-exists p xs)

  pub exists_of-count : (p : A → Bool) (xs : List A) → 0 < count p xs → exists p xs ≡ true
  unfolding exists count
  exists_of-count p [] h = absurd (omega arith)
  exists_of-count p (x ∷ xs) h = ground (arith, exists_of-count p xs)

  pub count_zero_mono :
      (p q : A → Bool) (xs : List A)
      → ((x : A) → p x ≡ true → q x ≡ true)
      → count q xs ≡ 0
      → count p xs ≡ 0
  count_zero_mono p q xs h z = omega (arith, count_mono p q xs h)

  pub count_pos_mono :
      (p q : A → Bool) (xs : List A)
      → ((x : A) → p x ≡ true → q x ≡ true)
      → 0 < count p xs
      → 0 < count q xs
  count_pos_mono p q xs h z = omega (arith, count_mono p q xs h)

  -- A row that is counted.
  pub count-witness : (p : A → Bool) (xs : List A) → 0 < count p xs → (a : A) × (p a ≡ true)
  unfolding count
  count-witness p [] h = absurd (omega arith)
  count-witness p (x ∷ xs) h = elim (Bool-cases (p x)) [
    | inl e ↦ (x, e)
    | inr e ↦ count-witness p xs (ground arith)
  ]

module _ {ℓ κ} {A : Type ℓ} {B : Type κ} where
  pub count-map :
      (p : B → Bool) (f : A → B) (xs : List A) → count p (map f xs) ≡ count (λ x. p (f x)) xs
  unfolding count
  count-map p f [] = refl
  count-map p f (x ∷ xs) = ground (arith, count-map p f xs)
