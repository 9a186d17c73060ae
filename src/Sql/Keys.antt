-- ===== src/Sql/Keys.antt =====
-- Queries on a key: a test that one row at most satisfies.
use node_hive_b2b.Prelude.{
  ◌≤◌, ◌≡◌, refl, sym, ap, ◌∙◌, Bool, true, false, ◌&&◌, List, [], ◌∷◌, ◌++◌, some, arith,
  Bool-cases, inl, inr, &&_true, some-injective, subst, if◌then◌else◌,
}
use node_hive_b2b.Sql.{select, update, count, find}
use node_hive_b2b.Sql.Counts.{count_mono, find-count}

module _ {ℓ} {A : Type ℓ} where
  -- The rows with a unique key are the one that is found.
  pub unique_found :
      (p q : A → Bool) (xs : List A) {a : A}
      → count p xs ≤ 1
      → find p xs ≡ some a
      → q a ≡ false
      → count (λ x. p x && q x) xs ≡ 0
  unfolding count find
  unique_found p q [] u h n = cc
  unique_found p q (x ∷ xs) {a} u h n = elim (Bool-cases (p x)) [
    | inl e ↦
        let same : x ≡ a = some-injective _ _ (rw e at h) in
        let gone : q x ≡ false = rw same n in
        ground (arith, count_mono (λ y. p y && q y) p xs (λ y k. (&&_true _ _ k).0))
    | inr e ↦ ground (arith, unique_found p q xs {a = a} (ground arith) (rw e at h) n)
  ]

  -- A row that another query found is the one that its key finds.
  pub find_key :
      (p q : A → Bool) (xs : List A) {a : A}
      → count p xs ≤ 1
      → find q xs ≡ some a
      → p a ≡ true
      → find p xs ≡ some a
  unfolding count find
  find_key p q [] u h k = cc
  find_key p q (x ∷ xs) {a} u h k = elim (Bool-cases (q x)) [
    | inl e ↦
        let same : x ≡ a = some-injective _ _ (rw e at h) in
        let kept : p x ≡ true = rw same k in rw kept (subst (λ y. some y ≡ some a) (sym same) refl)
    | inr e ↦ elim (Bool-cases (p x)) [
      | inl m ↦
          let rest = find_key p q xs {a = a} (ground arith) (rw e at h) k in
          absurd (ground (arith, (find-count p xs rest).1))
      | inr m ↦ rw m (find_key p q xs {a = a} (ground arith) (rw e at h) k)
    ]
  ]

  pub find-append : (p : A → Bool) (xs ys : List A) → count p xs ≡ 0 → find p (xs ++ ys) ≡ find p ys
  unfolding count find
  find-append p [] ys h = refl
  find-append p (x ∷ xs) ys h = ground (arith, find-append p xs ys)

  -- The first row that is updated is found by a test that no row satisfied before.
  pub find-updated :
      (p q : A → Bool) (f : A → A) (xs : List A) {a : A}
      → find p xs ≡ some a
      → count q xs ≡ 0
      → q (f a) ≡ true
      → find q (update p f xs) ≡ some (f a)
  unfolding count find update
  find-updated p q f [] h z k = cc
  find-updated p q f (x ∷ xs) {a} h z k = elim (Bool-cases (p x)) [
    | inl e ↦ let same : x ≡ a = some-injective _ _ (rw e at h) in rw (e, same, k) refl
    | inr e ↦
        let none_here : q x ≡ false = ground arith in
        rw (e, none_here) (find-updated p q f xs {a = a} (rw e at h) (ground arith) k)
  ]

  -- An update of the rows that a query finds, which leaves the test as it was, updates what it finds.
  pub find-updated_all :
      (p : A → Bool) (f : A → A) (xs : List A) {a : A}
      → ((x : A) → p (f x) ≡ p x)
      → find p xs ≡ some a
      → find p (update p f xs) ≡ some (f a)
  unfolding find update
  find-updated_all p f [] k h = cc
  find-updated_all p f (x ∷ xs) {a} k h = elim (Bool-cases (p x)) [
    | inl e ↦
        let same : x ≡ a = some-injective _ _ (rw e at h) in
        let still : p (f x) ≡ true = k x ∙ e in rw (e, still) (ap (λ y. some (f y)) same)
    | inr e ↦ rw (e, e) (find-updated_all p f xs {a = a} k (rw e at h))
  ]

  -- A query finds the same row among all rows and among those that a deletion leaves, when none that
  -- it looks for is deleted.
  pub find-select :
      (p q : A → Bool) (xs : List A)
      → ((x : A) → p x ≡ true → q x ≡ true)
      → find p (select q xs) ≡ find p xs
  unfolding find select
  find-select p q [] k = refl
  find-select p q (x ∷ xs) k = elim (Bool-cases (p x)) [
    | inl e ↦ rw (k x e, e) refl
    | inr e ↦
        let rest = find-select p q xs k in
        elim (Bool-cases (q x)) [ inl f ↦ rw (f, e) rest | inr f ↦ rw (f, e) rest ]
  ]

  -- The found row, updated if it is one of the rows that are.
  pub find-updated_if :
      (p q : A → Bool) (f : A → A) (xs : List A) {a : A}
      → ((x : A) → p (f x) ≡ p x)
      → find p xs ≡ some a
      → find p (update q f xs) ≡ some (if q a then f a else a)
  unfolding find update
  find-updated_if p q f [] k h = cc
  find-updated_if p q f (x ∷ xs) {a} k h = elim (Bool-cases (p x)) [
    | inl e ↦
        let same : x ≡ a = some-injective _ _ (rw e at h) in
        let found : p a ≡ true = ap p (sym same) ∙ e in
        rw same
          (elim (Bool-cases (q a)) [ inl g ↦ rw (g, k a, found) refl | inr g ↦ rw (g, found) refl ])
    | inr e ↦
        let rest = find-updated_if p q f xs {a = a} k (rw e at h) in
        elim (Bool-cases (q x)) [ inl g ↦ rw (g, k x, e) rest | inr g ↦ rw (g, e) rest ]
  ]

  -- An update of other rows leaves what a query finds.
  pub find-update_others :
      (p q : A → Bool) (f : A → A) (xs : List A)
      → ((x : A) → p (f x) ≡ p x)
      → ((x : A) → q x ≡ true → p x ≡ false)
      → find p (update q f xs) ≡ find p xs
  unfolding find update
  find-update_others p q f [] k o = refl
  find-update_others p q f (x ∷ xs) k o = elim (Bool-cases (q x)) [
    | inl e ↦ rw (e, k x, o x e) (find-update_others p q f xs k o)
    | inr e ↦ rw e (ap (λ r. if p x then some x else r) (find-update_others p q f xs k o))
  ]

  -- A row before the ones that are added is found first.
  pub find-append_found :
      (p : A → Bool) (xs ys : List A) {a : A} → find p xs ≡ some a → find p (xs ++ ys) ≡ some a
  unfolding find
  find-append_found p [] ys h = cc
  find-append_found p (x ∷ xs) ys h = elim (Bool-cases (p x)) [
    | inl e ↦ rw e (rw e at h)
    | inr e ↦ rw e (find-append_found p xs ys (rw e at h))
  ]
