-- ===== src/Reservations/Resolving.antt =====
-- The group that a new court belongs to: `resolve_group` of src/routes/reservations.rs. A HashSet is
-- a list, of which only the members count; the groups come in the order of their rows, where the
-- code orders them by name.
pub mod Laws
use badminton_be_rust.Prelude.{
  ℕ, Bool, true, false, not, List, [], ◌∷◌, ◌++◌, map, Option, none, some, ◌==◌, if◌then◌else◌,
  select, contains, is_empty,
}
use badminton_be_rust.Groups.{GroupTables, is_member}
use badminton_be_rust.Reservations.{Db}

-- The groups that a user is a member of.
unfoldable pub my_groups : GroupTables → ℕ → List ℕ
unfolding select is_member
my_groups db user = map (λ g. g.id) (select (λ g. is_member db g.id user) db.groups)

-- `Vec::dedup`: of equal neighbours, the first stays.
abbrev keep_first : ℕ → List ℕ → List ℕ
keep_first id [] = id ∷ []
keep_first id (next ∷ ids) = if id == next then id ∷ ids else id ∷ next ∷ ids

unfoldable pub dedup : List ℕ → List ℕ
dedup [] = []
dedup (id ∷ ids) = keep_first id (dedup ids)

unfoldable pub groups_of : Db → ℕ → List ℕ
unfolding select
groups_of db credential =
    map (λ s. s.group_id) (select (λ s. s.credential_id == credential) db.shares)

abbrev pub intersection : List ℕ → List ℕ → List ℕ
intersection xs ys = select (contains ys) xs

abbrev pub narrowed : Option (List ℕ) → List ℕ → List ℕ
narrowed none set = set
narrowed (some prev) set = intersection prev set

-- The groups that share all the logins, if there is one, and those that share some.
unfoldable pub gather : Db → List ℕ → Option (List ℕ) → List ℕ → Option (List ℕ) × List ℕ
unfolding groups_of contains
gather db [] inter union = (inter, union)
gather db (credential ∷ ids) inter union =
    gather db ids (some (narrowed inter (groups_of db credential)))
      (union ++ groups_of db credential)

abbrev pub or_else : List ℕ → List ℕ → List ℕ
or_else xs ys = if is_empty xs then ys else xs

abbrev pub candidates : List ℕ → Option (List ℕ) × List ℕ → List ℕ
candidates mine (none, union) = mine
candidates mine (some common, union) =
    or_else (intersection common mine) (or_else (intersection union mine) mine)

unfoldable pub resolve_group : Db → ℕ → List ℕ → List ℕ
unfolding my_groups dedup gather contains select
resolve_group db user ids =
    let mine = my_groups db.tenancy user in
    select (contains (candidates mine (gather db (dedup ids) none []))) mine
