-- ===== src/Groups.antt =====
-- Groups, their members and the caller's active group (src/routes/groups.rs).
use badminton_be_rust.Prelude.{
  ℕ, Bool, true, false, ◌&&◌, List, [], Option, none, some, Result, ok, guard, or_fail, ◌>>=◌, ◌>>◌,
  ◌==◌, text, find_row, is_some,
}
use badminton_be_rust.Errors.{ApiError, forbidden, conflict}

pub data GroupRole : Type 0 where
  admin member : GroupRole

pub record User : Type 0 where
  pub id : ℕ
  pub active_group_id : Option ℕ

pub record GroupMember : Type 0 where
  pub group_id : ℕ
  pub user_id : ℕ
  pub role : GroupRole

pub record Group : Type 0 where
  pub id : ℕ
  pub court_min : ℕ
  pub court_max : ℕ

pub record GroupTables : Type 0 where
  pub users : List User
  pub members : List GroupMember
  pub groups : List Group

pub record GroupCtx : Type 0 where
  pub group_id : ℕ
  pub role : GroupRole

abbrev pub is_admin : GroupRole → Bool
is_admin admin = true
is_admin member = false

abbrev pub membership : ℕ → ℕ → GroupMember → Bool
membership group user m = m.group_id == group && m.user_id == user

-- `SELECT 1 FROM group_members WHERE group_id = $1 AND user_id = $2`.
unfoldable pub is_member : GroupTables → ℕ → ℕ → Bool
unfolding find_row
is_member db group user = is_some (find_row (membership group user) db.members)

abbrev no_group : ApiError
no_group =
    conflict
      (record { format = text "You're not in a group yet — create or join one first."; shown = [] })

-- The membership in the user's active group: an inner join.
abbrev pub joined_group : GroupTables → ℕ → Option ℕ → Option GroupMember
joined_group db user none = none
joined_group db user (some group) = find_row (membership group user) db.members

abbrev pub active_membership : GroupTables → ℕ → Option User → Option GroupMember
active_membership db user none = none
active_membership db user (some u) = joined_group db user u.active_group_id

unfoldable pub active_group : GroupTables → ℕ → Result ApiError GroupCtx
unfolding find_row
active_group db user = do
  m ← or_fail (active_membership db user (find_row (λ u. u.id == user) db.users)) no_group
  ok (record { group_id = m.group_id; role = m.role })

unfoldable pub require_group_admin : GroupTables → ℕ → Result ApiError GroupCtx
unfolding active_group
require_group_admin db user = do
  ctx ← active_group db user
  guard (is_admin ctx.role) forbidden
  ok ctx

unfoldable pub court_range : GroupTables → ℕ → Result ApiError (ℕ × ℕ)
unfolding find_row
court_range db group = do
  g ← or_fail (find_row (λ g. g.id == group) db.groups) ApiError.db
  ok (g.court_min, g.court_max)
