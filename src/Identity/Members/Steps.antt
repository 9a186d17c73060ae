-- ===== src/Identity/Members/Steps.antt =====
-- Histories of the membership operations
-- (gpu-platform/internal/identity/memberships.go).
use node_hive_b2b.Prelude.{ℕ, ◌≡◌, Option, ok}
use node_hive_b2b.Domain.{Role, is_owner, normalize}
use node_hive_b2b.Store.{Time}
use node_hive_b2b.Identity.Members.{
  Directory, member_role, change_member_role, remove_member, leave_org, transfer_ownership,
}
use node_hive_b2b.Identity.Members.Spares.{HasOwner}
use node_hive_b2b.Identity.Members.Owners.{
  change_member_role-HasOwner, remove_member-HasOwner, leave_org-HasOwner,
  transfer_ownership-HasOwner,
}

-- One operation on the organization that succeeds. The one who leaves presents a role that tells
-- whether they are an owner.
pub data Step (org_id : ℕ) (d d' : Directory) : Type 0 where
  change :
      (actor_id : ℕ) (actor_role : Role) (target : ℕ) (new_role : Role)
      → change_member_role org_id actor_id actor_role target new_role d ≡ ok d'
      → Step org_id d d'
  remove :
      (now : Time) (actor_id : ℕ) (actor_role : Role) (target : ℕ)
      → remove_member now org_id actor_id actor_role target d ≡ ok d'
      → Step org_id d d'
  leave :
      (now : Time) (user_id : ℕ) (role r : Role) (except : Option ℕ)
      → member_role org_id user_id d ≡ ok r
      → is_owner (normalize role) ≡ is_owner r
      → leave_org now org_id user_id role except d ≡ ok d'
      → Step org_id d d'
  transfer :
      (actor_id : ℕ) (actor_role : Role) (target : ℕ)
      → transfer_ownership org_id actor_id actor_role target d ≡ ok d'
      → Step org_id d d'

pub data Steps (org_id : ℕ) (d : Directory) : Directory → Type 0 where
  done : Steps org_id d d
  then_step : (e f : Directory) → Steps org_id d e → Step org_id e f → Steps org_id d f

Step-HasOwner :
    (org_id : ℕ) (d d' : Directory) → HasOwner org_id d → Step org_id d d' → HasOwner org_id d'
Step-HasOwner org_id d d' k (change actor_id role target new_role e) =
    change_member_role-HasOwner org_id actor_id role target new_role d d' k e
Step-HasOwner org_id d d' k (remove now actor_id role target e) =
    remove_member-HasOwner now org_id actor_id role target d d' k e
Step-HasOwner org_id d d' k (leave now user_id role r except found same e) =
    leave_org-HasOwner now org_id user_id role r except d d' k found same e
Step-HasOwner org_id d d' k (transfer actor_id role target e) =
    transfer_ownership-HasOwner org_id actor_id role target d d' k e

-- However role changes, removals, departures and transfers follow one another, an organization that
-- has an owner keeps one, when whoever leaves presents a role that tells whether they are an owner.
pub Steps-HasOwner :
    (org_id : ℕ) (d d' : Directory) → HasOwner org_id d → Steps org_id d d' → HasOwner org_id d'
Steps-HasOwner org_id d _ k done = k
Steps-HasOwner org_id d _ k (then_step e d' steps step) =
    Step-HasOwner org_id e d' (Steps-HasOwner org_id d e k steps) step
