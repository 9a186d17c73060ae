-- ===== src/Sql.antt =====
-- Tables as lists of rows: SELECT, UPDATE, the number of rows affected, ORDER BY and LIMIT, in the
-- form in which the repository's queries use them, and how counts of rows move under them.
pub mod Counts
pub mod Deletes
pub mod Keys
pub mod Totals
use node_hive_b2b.Prelude.{
  ℕ, ◌+◌, Bool, true, false, ◌||◌, List, [], ◌∷◌, Option, none, some, if◌then◌else◌,
}

module _ {ℓ} {A : Type ℓ} where
  -- `SELECT … WHERE p`.
  unfoldable pub select : (A → Bool) → List A → List A
  select p [] = []
  select p (x ∷ xs) = let rest = select p xs in if p x then x ∷ rest else rest

  -- `UPDATE … SET f WHERE p`.
  unfoldable pub update : (A → Bool) → (A → A) → List A → List A
  update p f [] = []
  update p f (x ∷ xs) = (if p x then f x else x) ∷ update p f xs

  -- How many rows satisfy `p`: `count(*)`, and `RowsAffected` of an update.
  unfoldable pub count : (A → Bool) → List A → ℕ
  count p [] = 0
  count p (x ∷ xs) = (if p x then 1 else 0) + count p xs

  -- `coalesce(sum(f), 0)` of the rows that satisfy `p`.
  unfoldable pub total : (A → Bool) → (A → ℕ) → List A → ℕ
  total p f [] = 0
  total p f (x ∷ xs) = (if p x then f x else 0) + total p f xs

  -- The one row of a query on a key, or the first of an ordered one.
  unfoldable pub find : (A → Bool) → List A → Option A
  find p [] = none
  find p (x ∷ xs) = let rest = find p xs in if p x then some x else rest

  unfoldable pub exists : (A → Bool) → List A → Bool
  exists p [] = false
  exists p (x ∷ xs) = p x || exists p xs

  -- `ORDER BY`, for the order that `le` decides: a stable insertion sort.
  insert_by : (A → A → Bool) → A → List A → List A
  insert_by le x [] = x ∷ []
  insert_by le x (y ∷ ys) = let rest = insert_by le x ys in if le x y then x ∷ y ∷ ys else y ∷ rest

  unfoldable pub order_by : (A → A → Bool) → List A → List A
  unfolding insert_by
  order_by le [] = []
  order_by le (x ∷ xs) = insert_by le x (order_by le xs)
