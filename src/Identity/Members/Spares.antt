-- ===== src/Identity/Members/Spares.antt =====
-- Owners that can be spared: what a change or a deletion of one membership row leaves
-- (gpu-platform/internal/identity/memberships.go).
use node_hive_b2b.Prelude.{
  ℕ, ◌+◌, ◌≤◌, ◌<◌, ◌≡◌, refl, Bool, true, not, ◌&&◌, List, [], ◌∷◌, some, arith, Bool-cases,
  Option-cases, inl, inr, ◌⊎◌, ok, same_ok, not_ok_and_err, &&_true,
}
use node_hive_b2b.Domain.{Role, is_owner}
use node_hive_b2b.Sql.{update, count, find}
use node_hive_b2b.Sql.Counts.{count-select, count-update, count-le-update, count_mono, find-count}
use node_hive_b2b.Sql.Keys.{unique_found}
use node_hive_b2b.Sql.Deletes.{count-delete-le}
use node_hive_b2b.Identity.Members.{
  Member, Directory, is_member, is_owner_of, member_role, owner_count, set_role, take_out,
  not_found,
}

-- The primary key of organization_members, and an organization that has an owner.
pub record HasOwner (org_id : ℕ) (d : Directory) : Type 0 where
  pub keyed : (user_id : ℕ) → count (is_member org_id user_id) d.members ≤ 1
  pub owned : 0 < owner_count org_id d

module _ {ℓ} {A : Type ℓ} where
  -- An update or a deletion of rows loses at most that many rows of a kind.
  count-update-loss :
      (q p : A → Bool) (f : A → A) (xs : List A) → count q xs ≤ count q (update p f xs) + count p xs
  unfolding count update
  count-update-loss q p f [] = omega arith
  count-update-loss q p f (x ∷ xs) = ground (arith, count-update-loss q p f xs)

-- An owner's row is changed or deleted only where the organization has two.
abbrev Spares : ℕ → ℕ → Directory → Type 0
Spares org_id target d =
    (count (λ m. is_member org_id target m && is_owner m.role) d.members ≡ 0)
    ⊎ (2 ≤ owner_count org_id d)

found_role :
    (org_id target : ℕ) (d : Directory) (r : Role)
    → member_role org_id target d ≡ ok r
    → (m : Member) × (find (is_member org_id target) d.members ≡ some m) × (m.role ≡ r)
unfolding member_role
found_role org_id target d r h = elim (Option-cases (find (is_member org_id target) d.members)) [
  | inl n ↦ not_ok_and_err {e = not_found} h (rw n refl)
  | inr (m, f) ↦ (m, f, same_ok (rw f refl) h)
]

pub role-Spares :
    (org_id target : ℕ) (d : Directory) (r : Role)
    → HasOwner org_id d
    → member_role org_id target d ≡ ok r
    → (is_owner r ≡ true → 2 ≤ owner_count org_id d)
    → Spares org_id target d
role-Spares org_id target d r k h two = elim (Bool-cases (is_owner r)) [
  | inl e ↦ inr (two e)
  | inr e ↦
      let (m, f, q) = found_role org_id target d r h in
      inl (
        unique_found (is_member org_id target) (λ m. is_owner m.role) d.members (k.keyed target) f
          (rw q e))
]

-- The owners outside the row, which a change of the row does not touch.
owners_outside :
    (org_id target : ℕ) (ms : List Member)
    → count (is_owner_of org_id) ms
      ≤ count (λ m. is_owner_of org_id m && not (is_member org_id target m)) ms
        + count (λ m. is_member org_id target m && is_owner m.role) ms
unfolding count
owners_outside org_id target [] = omega arith
owners_outside org_id target (m ∷ ms) = ground (arith, owners_outside org_id target ms)

-- With a spare owner, one is left outside the row.
Spares-outside :
    (org_id target : ℕ) (d : Directory)
    → HasOwner org_id d
    → Spares org_id target d
    → 0 < count (λ m. is_owner_of org_id m && not (is_member org_id target m)) d.members
unfolding owner_count
Spares-outside org_id target d k (inl none_in) =
    omega (arith, k.owned, owners_outside org_id target d.members)
Spares-outside org_id target d k (inr two) = omega (
  arith,
  owners_outside org_id target d.members,
  count_mono (λ m. is_member org_id target m && is_owner m.role) (is_member org_id target) d.members
      (λ m e. (&&_true _ _ e).0),
  k.keyed target,
)

pub set_role-keyed :
    (org_id target : ℕ) (r : Role) (d : Directory) (user_id : ℕ)
    → count (is_member org_id user_id) (set_role org_id target r d).members
      ≡ count (is_member org_id user_id) d.members
unfolding set_role
set_role-keyed org_id target r d user_id =
    count-update (is_member org_id user_id) _ _ d.members (λ m e. refl)

-- An owner outside the row stays, whatever the row's new role.
pub set_role-HasOwner :
    (org_id target : ℕ) (r : Role) (d : Directory)
    → HasOwner org_id d
    → Spares org_id target d
    → HasOwner org_id (set_role org_id target r d)
unfolding owner_count set_role
set_role-HasOwner org_id target r d k spare = record {
  keyed = λ u. omega (arith, set_role-keyed org_id target r d u, k.keyed u);
  owned = omega (
    arith,
    Spares-outside org_id target d k spare,
    count-le-update (is_owner_of org_id) (is_member org_id target)
        (λ m. is_owner_of org_id m && not (is_member org_id target m)) (λ m. record m { role = r })
        d.members (λ m e q. absurd (ground arith)) (λ m e q. (&&_true _ _ q).0),
  );
}

-- Promoting a member gives the organization an owner.
pub promote-HasOwner :
    (org_id target : ℕ) (d : Directory)
    → ((u : ℕ) → count (is_member org_id u) d.members ≤ 1)
    → 0 < count (is_member org_id target) d.members
    → HasOwner org_id (set_role org_id target Role.owner d)
unfolding owner_count set_role
promote-HasOwner org_id target d keyed present = record {
  keyed = λ u. omega (arith, set_role-keyed org_id target Role.owner d u, keyed u);
  owned = omega (
    arith,
    present,
    count-le-update (is_owner_of org_id) (is_member org_id target) (is_member org_id target)
        (λ m. record m { role = Role.owner }) d.members (λ m e q. ground arith)
        (λ m e q. absurd (ground arith)),
  );
}

pub take_out-HasOwner :
    (org_id target : ℕ) (d : Directory)
    → HasOwner org_id d
    → Spares org_id target d
    → HasOwner org_id (take_out org_id target d)
unfolding owner_count
take_out-HasOwner org_id target d k spare = record {
  keyed = λ u. omega (
    arith,
    count-delete-le (is_member org_id u) (λ m. not (is_member org_id target m)) d.members,
    k.keyed u,
  );
  owned = omega (
    arith,
    Spares-outside org_id target d k spare,
    count-select (λ m. not (is_member org_id target m)) (is_owner_of org_id) d.members,
    count_mono (λ m. is_owner_of org_id m && not (is_member org_id target m))
        (λ m. not (is_member org_id target m) && is_owner_of org_id m) d.members
        (λ m e. ground arith),
  );
}

pub present :
    (org_id target : ℕ) (d : Directory) (r : Role)
    → member_role org_id target d ≡ ok r
    → 0 < count (is_member org_id target) d.members
present org_id target d r h =
    let (m, f, q) = found_role org_id target d r h in
    (find-count (is_member org_id target) d.members f).1
