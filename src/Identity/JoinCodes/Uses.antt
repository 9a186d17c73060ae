-- ===== src/Identity/JoinCodes/Uses.antt =====
-- The uses of a join code (gpu-platform/internal/identity/memberships.go).
use node_hive_b2b.Prelude.{
  ℕ, ◌+◌, ◌≤◌, ◌≡◌, refl, Bool, true, false, not, ◌&&◌, List, [], ◌∷◌, some, arith, ltb, ◌==◌,
  is_null, ok, bind-ok, guard-ok, same_ok, or_fail, or_fail-some, subst, zero_or_pos, inl, inr,
  if◌then◌else◌, &&_true, ==_refl,
}
use node_hive_b2b.Text.{Text, is_empty, trim_space}
use node_hive_b2b.Domain.{Role, normalize}
use node_hive_b2b.Sql.{count, find, update}
use node_hive_b2b.Sql.Counts.{count-update, find-count, count-find}
use node_hive_b2b.Sql.Keys.{
  find_key, find-append, find-updated_all, find-updated_if, find-update_others,
}
use node_hive_b2b.Store.{Time}
use node_hive_b2b.Identity.Members.{Directory, Member, User, is_member}
use node_hive_b2b.Identity.JoinCodes.{
  JoinCode, Joining, can_use, claim_code, upsert_member, is_unattached, join_org, join_via_code,
  join_code_invalid, invalid_credentials, already_member,
}

-- A code with a limit that has been used more often than that.
abbrev pub is_overused : JoinCode → Bool
is_overused c = not (c.max_uses == 0) && ltb c.max_uses c.uses

abbrev pub has_hash : ℕ → JoinCode → Bool
has_hash hash c = c.code_hash == hash

abbrev pub is_user : ℕ → User → Bool
is_user id u = u.id == id

-- The keys of the tables: the hash of a code, and the id of a user.
pub record IsKeyed (j : Joining) : Type 0 where
  pub hash_keys : (hash : ℕ) → count (has_hash hash) j.codes ≤ 1
  pub user_keys : (id : ℕ) → count (is_user id) j.directory.users ≤ 1

pub record Joins (now : Time) (hash user_id : ℕ) (j j' : Joining) : Type 0 where
  pub code : JoinCode
  pub found : find (has_hash hash) j.codes ≡ some code
  pub usable : can_use hash now code ≡ true
  pub used : find (has_hash hash) j'.codes ≡ some (record code { uses = code.uses + 1 })
  pub other_codes :
      (h : ℕ) → (hash == h) ≡ false → find (has_hash h) j'.codes ≡ find (has_hash h) j.codes
  pub within_limit : count is_overused j'.codes ≡ count is_overused j.codes
  pub user : User
  pub was_free :
      (find (is_user user_id) j.directory.users ≡ some user) × (is_null user.org_id ≡ true)
  pub attached :
      find (is_user user_id) j'.directory.users
      ≡ some (record user { org_id = some code.org_id; role = Role.member })
  pub other_users :
      (u : ℕ)
      → (user_id == u) ≡ false
      → find (is_user u) j'.directory.users ≡ find (is_user u) j.directory.users
  pub membership : Member
  pub has_row : find (is_member code.org_id user_id) j'.directory.members ≡ some membership
  pub as_member : membership.role ≡ Role.member

upsert_member-found :
    (org_id user_id : ℕ) (role : Role) (ms : List Member)
    → (m : Member) × (find (is_member org_id user_id) (upsert_member org_id user_id role ms)
        ≡ some m)
      × (m.role ≡ role)
unfolding upsert_member find
upsert_member-found org_id user_id role ms =
    elim (zero_or_pos (count (is_member org_id user_id) ms)) [
      | inl z ↦
          let row : Member = record { org_id = org_id; user_id = user_id; role = role } in
          (
            row,
            rw
                (
                  z,
                  find-append (is_member org_id user_id) ms (row ∷ []) z,
                  ==_refl org_id,
                  ==_refl user_id,
                )
                refl,
            refl,
          )
      | inr p ↦
          let (m, f, _) = count-find (is_member org_id user_id) ms p in
          let known : (count (is_member org_id user_id) ms == 0) ≡ false = ground (arith, p) in
          (
            record m { role = role },
            rw known (
                find-updated_all (is_member org_id user_id) (λ x. record x { role = role }) ms
                  {a = m} (λ x. refl) f),
            refl,
          )
    ]

-- What the claim does to the codes.
module _ (hash now : ℕ) (codes : List JoinCode) (c : JoinCode)
    (found : find (can_use hash now) codes ≡ some c) where
  is_usable : can_use hash now c ≡ true
  is_usable = (find-count (can_use hash now) codes found).0

  by_hash : count (has_hash hash) codes ≤ 1 → find (has_hash hash) codes ≡ some c
  by_hash k =
      find_key (has_hash hash) (can_use hash now) codes {a = c} k found (&&_true _ _ is_usable).0

  claimed :
      count (has_hash hash) codes ≤ 1
      → find (has_hash hash) (claim_code hash now codes) ≡ some (record c { uses = c.uses + 1 })
  claimed k =
      subst
        (λ b.
          find (has_hash hash) (claim_code hash now codes)
          ≡ some (if b then record c { uses = c.uses + 1 } else c))
        is_usable
        (find-updated_if (has_hash hash) (can_use hash now) (λ x. record x { uses = x.uses + 1 })
          codes {a = c} (λ x. refl) (by_hash k))

  other_claimed :
      (h : ℕ)
      → (hash == h) ≡ false
      → find (has_hash h) (claim_code hash now codes) ≡ find (has_hash h) codes
  other_claimed h e =
      find-update_others (has_hash h) (can_use hash now) (λ x. record x { uses = x.uses + 1 }) codes
        (λ x. refl) (λ x m. ground (arith, m, e))

-- What joining does to the directory.
record JoinsOrg (user_id org_id : ℕ) (d d' : Directory) : Type 0 where
  pub user : User
  pub was_free : (find (is_user user_id) d.users ≡ some user) × (is_null user.org_id ≡ true)
  pub attached :
      find (is_user user_id) d'.users
      ≡ some (record user { org_id = some org_id; role = Role.member })
  pub others :
      (u : ℕ) → (user_id == u) ≡ false → find (is_user u) d'.users ≡ find (is_user u) d.users
  pub membership : Member
  pub has_row : find (is_member org_id user_id) d'.members ≡ some membership
  pub as_member : membership.role ≡ Role.member

join_org-JoinsOrg :
    (user_id org_id : ℕ) (d d' : Directory)
    → count (is_user user_id) d.users ≤ 1
    → join_org user_id org_id Role.member d ≡ ok d'
    → JoinsOrg user_id org_id d d'
unfolding join_org normalize
join_org-JoinsOrg user_id org_id d d' k h =
    let (u, f, done) = bind-ok (or_fail (find (is_unattached user_id) d.users) already_member) h in
    let f' = or_fail-some _ already_member f in
    let free = (find-count (is_unattached user_id) d.users f').0 in
    let by_id =
      find_key (is_user user_id) (is_unattached user_id) d.users {a = u} k f'
        (&&_true _ _ free).0 in
    let set : User → User = λ x. record x { org_id = some org_id; role = Role.member } in
    let (m, row, role) = upsert_member-found org_id user_id Role.member d.members in
    subst (JoinsOrg user_id org_id d) (same_ok refl done) (record {
      user = u;
      was_free = (by_id, (&&_true _ _ free).1);
      attached =
          subst
            (λ b.
              find (is_user user_id) (update (is_unattached user_id) set d.users)
              ≡ some (if b then set u else u))
            free
            (find-updated_if (is_user user_id) (is_unattached user_id) set d.users {a = u}
              (λ x. refl) by_id);
      others = λ o e.
          find-update_others (is_user o) (is_unattached user_id) set d.users (λ x. refl)
            (λ x n. ground (arith, n, e));
      membership = m;
      has_row = row;
      as_member = role;
    })

-- Joining by a code takes a code that can be used, counts one use more of it and of no other code, and
-- never exceeds its limit. The user, who had no organization, is in the code's organization then as a
-- member, with a membership of it, and no other user has changed, when hashes and user ids are keys.
pub join_via_code-Joins :
    (hash : Text → ℕ) (is_active : ℕ → Bool) (now : Time) (user_id : ℕ) (raw : Text)
    (j j' : Joining)
    → IsKeyed j
    → join_via_code hash is_active now user_id raw j ≡ ok j'
    → Joins now (hash (trim_space raw)) user_id j j'
unfolding join_via_code
join_via_code-Joins hash is_active now user_id raw j j' keyed h =
    let code_hash = hash (trim_space raw) in
    let given = guard-ok (not (is_empty (trim_space raw))) join_code_invalid h in
    let (u, f, checked) =
      bind-ok
        (or_fail (find (λ x. x.id == user_id && is_active x.id) j.directory.users)
          invalid_credentials)
        given.1 in
    let free = guard-ok (is_null u.org_id) already_member checked in
    let (c, g, rest) =
      bind-ok (or_fail (find (can_use code_hash now) j.codes) join_code_invalid) free.1 in
    let found = or_fail-some _ join_code_invalid g in
    let (d, joined, done) = bind-ok (join_org user_id c.org_id Role.member j.directory) rest in
    let o = join_org-JoinsOrg user_id c.org_id j.directory d (keyed.user_keys user_id) joined in
    subst (Joins now code_hash user_id j) (same_ok refl done) (record {
      code = c;
      found = by_hash code_hash now j.codes c found (keyed.hash_keys code_hash);
      usable = is_usable code_hash now j.codes c found;
      used = claimed code_hash now j.codes c found (keyed.hash_keys code_hash);
      other_codes = other_claimed code_hash now j.codes c found;
      within_limit =
          count-update is_overused (can_use code_hash now) _ j.codes (λ x e. ground arith);
      user = o.user;
      was_free = o.was_free;
      attached = o.attached;
      other_users = o.others;
      membership = o.membership;
      has_row = o.has_row;
      as_member = o.as_member;
    })
