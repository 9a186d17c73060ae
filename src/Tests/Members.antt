-- ===== src/Tests/Members.antt =====
-- The theorems on memberships at an organization of two owners and a member.
use node_hive_b2b.Prelude.{true, ◌≡◌, refl, [], ◌∷◌, none, some, ok, arith}
use node_hive_b2b.Domain.{Role, normalize}
use node_hive_b2b.Sql.{count, find, update}
use node_hive_b2b.Identity.Members.{
  Session, Directory, member_role, owner_count, check_change, check_remove, change_member_role,
  set_role, remove_row, leave_org, transfer_ownership,
}
use node_hive_b2b.Identity.Devices.{DeviceInfo}
use node_hive_b2b.Text.{runes, trim_space}
use node_hive_b2b.Identity.JoinCodes.{Joining, join_org, join_via_code, upsert_member}
use node_hive_b2b.Identity.JoinCodes.Uses.{IsKeyed, Joins, join_via_code-Joins}
use node_hive_b2b.Identity.Members.Spares.{HasOwner}
use node_hive_b2b.Identity.Members.Owners.{remove_member_race}
use node_hive_b2b.Identity.Members.Steps.{change, leave, transfer, done, then_step, Steps-HasOwner}

abbrev pub small_device : DeviceInfo
small_device = record {
  user_agent = runes "curl/8";
  ip_address = runes "10.0.0.1";
  device_name = [];
  browser = [];
  os = [];
}

abbrev pub small_session : Session
small_session = record {
  id = 1;
  user_id = 6;
  refresh_token_hash = 42;
  device = small_device;
  created_at = 0;
  last_active_at = 0;
  expires_at = 90;
  revoked_at = none;
}

abbrev pub two_owners : Directory
two_owners = record {
  members =
      record { org_id = 1; user_id = 5; role = Role.owner }
      ∷ record { org_id = 1; user_id = 6; role = Role.owner }
      ∷ record { org_id = 1; user_id = 7; role = Role.member }
      ∷ [];
  users =
      record { id = 5; org_id = some 1; role = Role.owner }
      ∷ record { id = 6; org_id = some 1; role = Role.owner }
      ∷ record { id = 7; org_id = some 1; role = Role.member }
      ∷ [];
  sessions = small_session ∷ [];
}

two_owners-HasOwner : HasOwner 1 two_owners
unfolding count owner_count
two_owners-HasOwner = record { keyed = λ u. ground arith; owned = ground arith }

abbrev one_owner : Directory
one_owner = set_role 1 5 Role.member two_owners

abbrev after_transfer : Directory
after_transfer = set_role 1 7 Role.owner (set_role 1 6 Role.admin one_owner)

-- Owner 6 demotes owner 5, then makes 7 the owner and leaves.
Steps-HasOwner_example : HasOwner 1 (remove_row 9 1 6 after_transfer)
unfolding change_member_role check_change set_role transfer_ownership leave_org remove_row
    member_role owner_count find count normalize update
Steps-HasOwner_example =
    Steps-HasOwner 1 two_owners (remove_row 9 1 6 after_transfer) two_owners-HasOwner (
      then_step after_transfer (remove_row 9 1 6 after_transfer)
        (then_step one_owner after_transfer
          (then_step two_owners one_owner done (change 6 Role.owner 5 Role.member refl))
          (transfer 6 Role.owner 7 refl))
        (leave 9 6 Role.admin Role.admin none refl refl refl))

remove_member_race_example :
    (check_remove 1 5 Role.owner 6 two_owners ≡ ok tt)
    × (check_remove 1 6 Role.owner 5 two_owners ≡ ok tt)
    × (owner_count 1 (remove_row 9 1 5 (remove_row 8 1 6 two_owners)) ≡ 0)
unfolding member_role owner_count find count
remove_member_race_example =
    remove_member_race 8 9 1 5 6 two_owners (ground arith) refl refl refl refl

abbrev small_joining : Joining
small_joining = record {
  directory = record {
    members = [];
    users = record { id = 9; org_id = none; role = Role.member } ∷ [];
    sessions = [];
  };
  codes =
      record {
        id = 1;
        org_id = 1;
        code_hash = 42;
        uses = 0;
        max_uses = 1;
        expires_at = 90;
        revoked_at = none;
      }
      ∷ [];
}

abbrev after_joining : Joining
after_joining = record {
  directory = record {
    members = record { org_id = 1; user_id = 9; role = Role.member } ∷ [];
    users = record { id = 9; org_id = some 1; role = Role.member } ∷ [];
    sessions = [];
  };
  codes =
      record {
        id = 1;
        org_id = 1;
        code_hash = 42;
        uses = 1;
        max_uses = 1;
        expires_at = 90;
        revoked_at = none;
      }
      ∷ [];
}

small_joining-IsKeyed : IsKeyed small_joining
unfolding count
small_joining-IsKeyed = record { hash_keys = λ h. ground arith; user_keys = λ u. ground arith }

join_via_code-Joins_example : Joins 5 42 9 small_joining after_joining
unfolding join_via_code join_org upsert_member find update count normalize trim_space
join_via_code-Joins_example =
    join_via_code-Joins (λ t. 42) (λ u. true) 5 9 (runes "code") small_joining after_joining
      small_joining-IsKeyed refl
