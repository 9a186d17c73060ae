-- ===== src/Identity/Members/Owners.antt =====
-- The membership operations and the owners of an organization
-- (gpu-platform/internal/identity/memberships.go).
use node_hive_b2b.Prelude.{
  or_fail, ◌≢◌, ℕ, ◌≡◌, refl, subst, Bool, true, false, not, ◌&&◌, ◌||◌, Option, arith, ltb, ◌==◌,
  ok, guard, bind-ok, guard-ok, same_ok,
}
use node_hive_b2b.Domain.{Role, is_owner, normalize}
use node_hive_b2b.Sql.{select, count, find}
use node_hive_b2b.Sql.Counts.{count-select, count_mono}
use node_hive_b2b.Store.{Time}
use node_hive_b2b.Identity.Members.{
  is_known, Directory, MemberError, is_member, is_owner_of, is_user_in, member_role, owner_count,
  set_role, check_change, change_member_role, check_remove, remove_row, remove_member, leave_org,
  transfer_ownership, invalid_role, forbidden, not_found, last_owner,
}
use node_hive_b2b.Identity.Members.Spares.{
  HasOwner, role-Spares, set_role-keyed, set_role-HasOwner, promote-HasOwner, take_out-HasOwner,
  present,
}

-- Whether the row is promoted or loses a spare owner, an owner stays.
change-HasOwner :
    (org_id target : ℕ) (n r : Role) (d : Directory)
    → HasOwner org_id d
    → member_role org_id target d ≡ ok r
    → not ((is_owner r && not (is_owner n)) && ltb (owner_count org_id d) 2) ≡ true
    → HasOwner org_id (set_role org_id target n d)
change-HasOwner org_id target Role.owner r d k found spare =
    promote-HasOwner org_id target d k.keyed (present org_id target d r found)
change-HasOwner org_id target Role.admin r d k found spare =
    set_role-HasOwner org_id target Role.admin d k
      (role-Spares org_id target d r k found (λ e. ground arith))
change-HasOwner org_id target Role.member r d k found spare =
    set_role-HasOwner org_id target Role.member d k
      (role-Spares org_id target d r k found (λ e. ground arith))
change-HasOwner org_id target Role.user r d k found spare =
    set_role-HasOwner org_id target Role.user d k
      (role-Spares org_id target d r k found (λ e. ground arith))
change-HasOwner org_id target (Role.other t) r d k found spare =
    set_role-HasOwner org_id target (Role.other t) d k
      (role-Spares org_id target d r k found (λ e. ground arith))

-- The last guard of a chain of checks.
only_guard : (c : Bool) (e : MemberError) → guard c e ≡ ok tt → c ≡ true
only_guard true e h = refl
only_guard false e h = cc

-- Changing a role keeps an owner.
pub change_member_role-HasOwner :
    (org_id actor_id : ℕ) (actor_role : Role) (target : ℕ) (new_role : Role) (d d' : Directory)
    → HasOwner org_id d
    → change_member_role org_id actor_id actor_role target new_role d ≡ ok d'
    → HasOwner org_id d'
unfolding change_member_role check_change
change_member_role-HasOwner org_id actor_id actor_role target new_role d d' k h =
    let (_, checked, done) =
      bind-ok (check_change org_id actor_id actor_role target (normalize new_role) d) h in
    let known = guard-ok (is_known (normalize new_role)) invalid_role checked in
    let others = guard-ok (not (actor_id == target)) forbidden known.1 in
    let (r, found, rest) = bind-ok (member_role org_id target d) others.1 in
    let allowed =
      guard-ok (not ((is_owner (normalize new_role) || is_owner r) && not (is_owner actor_role)))
        forbidden rest in
    subst (HasOwner org_id) (same_ok refl done) (
      change-HasOwner org_id target (normalize new_role) r d k found
        (only_guard _ last_owner allowed.1))

-- Removing a member keeps an owner.
pub remove_member-HasOwner :
    (now : Time) (org_id actor_id : ℕ) (actor_role : Role) (target : ℕ) (d d' : Directory)
    → HasOwner org_id d
    → remove_member now org_id actor_id actor_role target d ≡ ok d'
    → HasOwner org_id d'
unfolding remove_member check_remove remove_row owner_count
remove_member-HasOwner now org_id actor_id actor_role target d d' k h =
    let (_, checked, done) = bind-ok (check_remove org_id actor_id actor_role target d) h in
    let others = guard-ok (not (actor_id == target)) forbidden checked in
    let (r, found, rest) = bind-ok (member_role org_id target d) others.1 in
    let allowed = guard-ok (not (is_owner r && not (is_owner actor_role))) forbidden rest in
    let spare =
      only_guard (not (is_owner r && ltb (owner_count org_id d) 2)) last_owner allowed.1 in
    let taken =
      take_out-HasOwner org_id target d k
        (role-Spares org_id target d r k found (λ e. ground arith)) in
    subst (HasOwner org_id) (same_ok refl done)
      (record { keyed = taken.keyed; owned = taken.owned })

-- Leaving keeps an owner, when the role that the caller presents tells whether it is an owner.
pub leave_org-HasOwner :
    (now : Time) (org_id user_id : ℕ) (role r : Role) (except : Option ℕ) (d d' : Directory)
    → HasOwner org_id d
    → member_role org_id user_id d ≡ ok r
    → is_owner (normalize role) ≡ is_owner r
    → leave_org now org_id user_id role except d ≡ ok d'
    → HasOwner org_id d'
unfolding leave_org owner_count
leave_org-HasOwner now org_id user_id role r except d d' k found same h =
    let left =
      guard-ok (not (is_owner (normalize role) && ltb (owner_count org_id d) 2)) last_owner h in
    let (u, is_in, done) =
      bind-ok (or_fail (find (is_user_in org_id user_id) d.users) not_found) left.1 in
    let taken =
      take_out-HasOwner org_id user_id d k
        (role-Spares org_id user_id d r k found (λ e. ground arith)) in
    subst (HasOwner org_id) (same_ok refl done)
      (record { keyed = taken.keyed; owned = taken.owned })

-- Transferring the ownership keeps an owner: the target.
pub transfer_ownership-HasOwner :
    (org_id actor_id : ℕ) (actor_role : Role) (target : ℕ) (d d' : Directory)
    → HasOwner org_id d
    → transfer_ownership org_id actor_id actor_role target d ≡ ok d'
    → HasOwner org_id d'
unfolding transfer_ownership
transfer_ownership-HasOwner org_id actor_id actor_role target d d' k h =
    let owns = guard-ok (is_owner (normalize actor_role)) forbidden h in
    let others = guard-ok (not (actor_id == target)) forbidden owns.1 in
    let (r, found, done) = bind-ok (member_role org_id target d) others.1 in
    let demoted = set_role org_id actor_id Role.admin d in
    subst (HasOwner org_id) (same_ok refl done) (
      promote-HasOwner org_id target demoted
        (λ u. omega (arith, set_role-keyed org_id actor_id Role.admin d u, k.keyed u))
        (omega (
          arith,
          set_role-keyed org_id actor_id Role.admin d target,
          present org_id target d r found,
        )))

-- Two removals whose checks both read the directory before either commits can leave the organization
-- without an owner: it is enough that each actor is an owner and that the targets are the only owners.
pub remove_member_race :
    (now later : Time) (org_id a b : ℕ) (d : Directory)
    → a ≢ b
    → member_role org_id a d ≡ ok Role.owner
    → member_role org_id b d ≡ ok Role.owner
    → owner_count org_id d ≡ 2
    → count
        (λ m. is_owner_of org_id m && not (is_member org_id a m || is_member org_id b m))
        d.members
      ≡ 0
    → (check_remove org_id a Role.owner b d ≡ ok tt)
      × (check_remove org_id b Role.owner a d ≡ ok tt)
      × (owner_count org_id (remove_row later org_id a (remove_row now org_id b d)) ≡ 0)
unfolding check_remove remove_row owner_count
remove_member_race now later org_id a b d n ra rb two only =
    let ab : (a == b) ≡ false = ground arith in
    let ba : (b == a) ≡ false = ground arith in
    (
      rw (ab, rb, two) refl,
      rw (ba, ra, two) refl,
      omega (
        arith,
        count-select (λ m. not (is_member org_id a m)) (is_owner_of org_id)
            (select (λ m. not (is_member org_id b m)) d.members),
        count-select (λ m. not (is_member org_id b m))
            (λ m. not (is_member org_id a m) && is_owner_of org_id m) d.members,
        count_mono
            (λ m.
              not (is_member org_id b m) && (not (is_member org_id a m) && is_owner_of org_id m))
            (λ m. is_owner_of org_id m && not (is_member org_id a m || is_member org_id b m))
            d.members (λ m e. ground arith),
      ),
    )
