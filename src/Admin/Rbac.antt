-- ===== src/Admin/Rbac.antt =====
-- internal/admin/rbac/rbac.go. Roles are ASCII; strings.TrimSpace cuts the ASCII spaces.
use ravenguard.Common.{ℕ, ◌≡◌, refl, Bool, ◌||◌, arith, leb, if◌then◌else◌, Bytes, bytes, str_eq}
use ravenguard.Common.Ascii.{trim_space, to_lower}

-- Normalize: strings.ToLower(strings.TrimSpace(role))
unfoldable pub normalize : Bytes → Bytes
unfolding trim_space
normalize role = to_lower (trim_space role)

-- ValidRole
unfoldable pub valid_role : Bytes → Bool
valid_role role =
    let r = normalize role in
    str_eq r (bytes "owner") || str_eq r (bytes "admin") || str_eq r (bytes "viewer")

-- Rank
unfoldable pub rank : Bytes → ℕ
rank role =
    let r = normalize role in
    if str_eq r (bytes "owner")
    then 3
    else if str_eq r (bytes "admin")
    then 2
    else if str_eq r (bytes "viewer")
    then 1
    else 0

-- AtLeast
unfoldable pub at_least : Bytes → Bytes → Bool
at_least role minimum = leb (rank minimum) (rank role)

-- CanManageUsers, CanWriteOps and CanWriteConfig
unfoldable pub can_manage_users : Bytes → Bool
can_manage_users role = at_least role (bytes "admin")

unfoldable pub can_write_ops : Bytes → Bool
can_write_ops role = at_least role (bytes "admin")

unfoldable pub can_write_config : Bytes → Bool
can_write_config role = at_least role (bytes "admin")

-- CanManageOwners
unfoldable pub can_manage_owners : Bytes → Bool
can_manage_owners role = str_eq (normalize role) (bytes "owner")

-- CanRead
unfoldable pub can_read : Bytes → Bool
can_read role = at_least role (bytes "viewer")

rank_admin : rank (bytes "admin") ≡ 2
unfolding rank normalize str_eq
rank_admin = refl

rank_viewer : rank (bytes "viewer") ≡ 1
unfolding rank normalize str_eq
rank_viewer = refl

owners : (role : Bytes) → can_manage_owners role ≡ leb 3 (rank role)
unfolding can_manage_owners rank
owners role = ground arith

users : (role : Bytes) → at_least role (bytes "admin") ≡ leb 2 (rank role)
unfolding at_least
users role = rw rank_admin refl

reads : (role : Bytes) → at_least role (bytes "viewer") ≡ leb 1 (rank role)
unfolding at_least
reads role = rw rank_viewer refl

valid : (role : Bytes) → valid_role role ≡ leb 1 (rank role)
unfolding valid_role rank
valid role = ground arith

-- Every permission is a threshold on the rank: owners are managed from 3 on, users are managed and
-- operations and configuration written from 2 on, and reading starts at 1, which is where a role is
-- valid.
pub permissions_rank :
    (role : Bytes)
    → (can_manage_owners role ≡ leb 3 (rank role))
      × (can_manage_users role ≡ leb 2 (rank role))
      × (can_write_ops role ≡ leb 2 (rank role))
      × (can_write_config role ≡ leb 2 (rank role))
      × (can_read role ≡ leb 1 (rank role))
      × (valid_role role ≡ leb 1 (rank role))
unfolding can_manage_users can_write_ops can_write_config can_read
permissions_rank role = (owners role, users role, users role, users role, reads role, valid role)
