-- ===== src/Reservations/History.antt =====
-- Requests to create, complete, cancel, edit and unlock_credential of src/routes/reservations.rs one
-- after another, and whose reservations they change.
use badminton_be_rust.Prelude.{
  is_some_and, ℕ, ◌≤◌, ◌≡◌, refl, ap, subst, ◌∙◌, inl, inr, Bool, true, false, ◌&&◌, List, [], ◌∷◌,
  ◌++◌, Option, none, some, ok, guard, arith, ◌==◌, bit, find_row, any, total, tally,
  total-update_same, total-append, find_row-passes, Bool-cases, Result-cases, ok-eq-ok, guard-eq-ok,
  or_fail_then-eq-ok, guard-ok-eq-ok, >>=-eq-ok,
}
use badminton_be_rust.Errors.{forbidden, not_found}
use badminton_be_rust.Groups.{
  is_admin, GroupTables, GroupCtx, GroupMember, User, membership, is_member, joined_group,
  active_membership, active_group, require_group_admin,
}
use badminton_be_rust.Reservations.{
  Reservation, Db, Clock, has_id, in_group, reservation_in_group, complete, complete_row, cancel,
  detach_row, unlock_credential, is_active, cancelled, violates,
}
use badminton_be_rust.Reservations.Create.{
  CreateReservationReq, target_group, plan, insert_reservation, create,
}
use badminton_be_rust.Reservations.Create.Plans.{plan-IsPlanned}
use badminton_be_rust.Reservations.Edit.{EditReservationReq, edit}
use badminton_be_rust.Reservations.Isolation.{
  rows_of, hits, select-update, select-update_same, select-append, found-hits, none-hits, Spares,
  update_one-Spares, edit_fields-Spares,
}

-- A request of a user; the id is the one that the database gives to a new row.
pub data Request : Type 0 where
  log : ℕ → CreateReservationReq → Request
  finish call_off : ℕ → Request
  change : ℕ → EditReservationReq → Request
  unlock : ℕ → Request

unfoldable pub respond : Clock → ℕ → Request → Db → Db
unfolding create complete cancel edit unlock_credential
respond clock user (log id req) db = (create (λ d. d) clock id user req db).1
respond clock user (finish id) db = (complete user id db).1
respond clock user (call_off id) db = (cancel user id db).1
respond clock user (change id req) db = (edit clock user id req db).1
respond clock user (unlock credential) db = (unlock_credential user credential db).1

unfoldable pub serve : List (Clock × ℕ × Request) → Db → Db
serve [] db = db
serve ((clock, user, request) ∷ requests) db = serve requests (respond clock user request db)

-- The active group of a user is one that the user is a member of.
joined_group-member :
    (db : GroupTables) (user : ℕ) (o : Option ℕ) (m : GroupMember)
    → joined_group db user o ≡ some m
    → is_member db m.group_id user ≡ true
unfolding is_member
joined_group-member db user none m h = cc
joined_group-member db user (some group) m h =
    let passes : membership group user m ≡ true =
      find_row-passes (membership group user) db.members m h in
    let same : m.group_id ≡ group = ground arith in rw (same, h) refl

active_membership-member :
    (db : GroupTables) (user : ℕ) (o : Option User) (m : GroupMember)
    → active_membership db user o ≡ some m
    → is_member db m.group_id user ≡ true
active_membership-member db user none m h = cc
active_membership-member db user (some u) m h = joined_group-member db user u.active_group_id m h

active_group-member :
    (db : GroupTables) (user : ℕ) (ctx : GroupCtx)
    → active_group db user ≡ ok ctx
    → is_member db ctx.group_id user ≡ true
unfolding active_group
active_group-member db user ctx h =
    let (m, found, rest) =
      or_fail_then-eq-ok (active_membership db user (find_row (λ u. u.id == user) db.users)) _ _
        h in
    subst (λ k. is_member db k user ≡ true) (ap (λ c. c.group_id) (ok-eq-ok rest))
      (active_membership-member db user _ m found)

require_group_admin-member :
    (db : GroupTables) (user : ℕ) (ctx : GroupCtx)
    → require_group_admin db user ≡ ok ctx
    → is_member db ctx.group_id user ≡ true
unfolding require_group_admin
require_group_admin-member db user ctx h =
    let (c, found, rest) = >>=-eq-ok (active_group db user) _ h in
    let (allowed, same) = guard-ok-eq-ok (is_admin c.role) forbidden c ctx rest in
    subst (λ k. is_member db k.group_id user ≡ true) same (active_group-member db user c found)

target_group-member :
    (db : Db) (user : ℕ) (o : Option ℕ) (group : ℕ)
    → target_group db user o ≡ ok group
    → is_member db.tenancy group user ≡ true
target_group-member db user none group h =
    let (c, found, rest) = >>=-eq-ok (active_group db.tenancy user) _ h in
    subst (λ k. is_member db.tenancy k user ≡ true) (ok-eq-ok rest)
      (active_group-member db.tenancy user c found)
target_group-member db user (some g) group h =
    let (u, fine, rest) = >>=-eq-ok (guard (is_member db.tenancy g user) _) _ h in
    subst (λ k. is_member db.tenancy k user ≡ true) (ok-eq-ok rest)
      (guard-eq-ok (is_member db.tenancy g user) _ fine)

complete_row-keeps : (user : ℕ) (r : Reservation) → (complete_row user r).group_id ≡ r.group_id
complete_row-keeps user r = ground arith

complete_row-id : (user : ℕ) (r : Reservation) → (complete_row user r).id ≡ r.id
complete_row-id user r = ground arith

detach_row-keeps :
    (credential group : ℕ) (r : Reservation) → (detach_row credential group r).group_id ≡ r.group_id
detach_row-keeps credential group r = ground arith

detach_row-id : (credential group : ℕ) (r : Reservation) → (detach_row credential group r).id ≡ r.id
detach_row-id credential group r = ground arith

abbrev pub HasUniqueIds : Db → Type 0
HasUniqueIds db = (k : ℕ) → tally (has_id k) db.reservations ≤ 1

grown :
    (id k : ℕ) (rows : List Reservation) (r : Reservation)
    → r.id ≡ id
    → tally (has_id id) rows ≡ 0
    → tally (has_id k) rows ≤ 1
    → tally (has_id k) (rows ++ r ∷ []) ≤ 1
unfolding total
grown id k rows r named new unique =
    rw (total-append (λ r. bit (has_id k r)) rows (r ∷ []), named)
      elim (Bool-cases (id == k)) [
        | inl e ↦ let same : id ≡ k = ground arith in rw e (omega (arith, rw same at new))
        | inr e ↦ rw e (omega (arith, unique))
      ]

detach_row-elsewhere :
    (credential group : ℕ) (r : Reservation)
    → in_group group r ≡ false
    → detach_row credential group r ≡ r
detach_row-elsewhere credential group r h =
    let off : (is_some_and (λ c. c == credential) r.credential_id
          && is_active r.status
          && in_group group r)
        ≡ false =
      ground (arith, h) in
    rw off refl

abbrev pub IsNewId : Request → Db → Type 0
IsNewId (log id req) db = tally (has_id id) db.reservations ≡ 0
IsNewId (finish id) db = Unit
IsNewId (call_off id) db = Unit
IsNewId (change id req) db = Unit
IsNewId (unlock credential) db = Unit

module _ (g : ℕ) where
  -- A member of another group only.
  elsewhere :
      (db : GroupTables) (user k : ℕ)
      → is_member db g user ≡ false
      → is_member db k user ≡ true
      → (k == g) ≡ false
  elsewhere db user k out within = elim (Bool-cases (k == g)) [
    | inr e ↦ e
    | inl e ↦ let same : k ≡ g = ground arith in absurd (cc (rw same at within))
  ]

  -- A request that leaves the group's reservations, the users and the uniqueness of the ids.
  record Apart (before after : Db) : Type 0 where
    pub rows : rows_of g after.reservations ≡ rows_of g before.reservations
    pub users : after.tenancy ≡ before.tenancy
    pub unique : HasUniqueIds before → HasUniqueIds after

  Apart-refl : (db : Db) → Apart db db
  Apart-refl db = record { rows = refl; users = refl; unique = λ u. u }

  Spares-Apart : (id : ℕ) (before after : Db) → Spares g id before after → Apart before after
  Spares-Apart id before after s = record {
    rows = s.rows;
    users = s.users;
    unique = λ u k. rw (s.ids k) (u k);
  }

  module _ (user : ℕ) (db : Db) (out : is_member db.tenancy g user ≡ false) where
    -- The row that a handler finds in the caller's group is no row of the other group.
    found-elsewhere :
        (id : ℕ) (ctx : GroupCtx) (r : Reservation)
        → active_group db.tenancy user ≡ ok ctx
        → reservation_in_group db id ctx ≡ ok r
        → tally (has_id id) db.reservations ≤ 1
        → hits g (has_id id) db.reservations ≡ 0
    unfolding reservation_in_group
    found-elsewhere id ctx r mine found unique =
        let (x, at_id, rest) =
          or_fail_then-eq-ok (find_row (has_id id) db.reservations) _ _ found in
        let (ours, same) = guard-ok-eq-ok (x.group_id == ctx.group_id) not_found x r rest in
        let away =
          elsewhere db.tenancy user ctx.group_id out
            (active_group-member db.tenancy user ctx mine) in
        found-hits g id db.reservations x at_id (ground arith) unique

    create-spares :
        (clock : Clock) (id : ℕ) (req : CreateReservationReq)
        → tally (has_id id) db.reservations ≡ 0
        → Apart db (create (λ d. d) clock id user req db).1
    unfolding create insert_reservation
    create-spares clock id req new = elim (Result-cases (plan clock id user req db)) [
      | inr (e, failed) ↦ rw (failed, create) (Apart-refl db)
      | inl ((r, logins), planned) ↦
          let p = plan-IsPlanned clock id user req db r logins planned in
          let away =
            elsewhere db.tenancy user r.group_id out
              (target_group-member db user req.group_id r.group_id p.group) in
          elim (Bool-cases (violates db r)) [
            | inl taken ↦ rw (planned, taken, create) (Apart-refl db)
            | inr fine ↦
                rw (planned, fine, create)
                  (record {
                    rows = select-append g db.reservations r away;
                    users = refl;
                    unique = λ u k. grown id k db.reservations r p.named new (u k);
                  })
          ]
    ]

    edit-spares :
        (clock : Clock) (id : ℕ) (req : EditReservationReq)
        → tally (has_id id) db.reservations ≤ 1
        → Apart db (edit clock user id req db).1
    unfolding edit
    edit-spares clock id req unique = elim (Result-cases (active_group db.tenancy user)) [
      | inr (e, failed) ↦ rw (failed, edit) (Apart-refl db)
      | inl (ctx, mine) ↦ elim (Result-cases (reservation_in_group db id ctx)) [
        | inr (e, failed) ↦ rw (mine, failed, edit) (Apart-refl db)
        | inl (r, found) ↦
            rw (mine, found, edit)
              (Spares-Apart id db _ (
                edit_fields-Spares g clock user ctx id req db
                  (found-elsewhere id ctx r mine found unique)))
      ]
    ]

    complete-spares :
        (id : ℕ) → tally (has_id id) db.reservations ≤ 1 → Apart db (complete user id db).1
    unfolding complete
    complete-spares id unique = elim (Result-cases (active_group db.tenancy user)) [
      | inr (e, failed) ↦ rw (failed, complete) (Apart-refl db)
      | inl (ctx, mine) ↦ elim (Result-cases (reservation_in_group db id ctx)) [
        | inr (e, failed) ↦ rw (mine, failed, complete) (Apart-refl db)
        | inl (r, found) ↦ elim (Bool-cases (is_active r.status)) [
          | inr over ↦ rw (mine, found, over, complete) (Apart-refl db)
          | inl on ↦
              rw (mine, found, on, complete)
                (Spares-Apart id db _ (
                  update_one-Spares g id (complete_row user) db (complete_row-keeps user)
                    (complete_row-id user) (found-elsewhere id ctx r mine found unique)))
        ]
      ]
    ]

    cancel-spares : (id : ℕ) → Apart db (cancel user id db).1
    unfolding cancel
    cancel-spares id = elim (Result-cases (require_group_admin db.tenancy user)) [
      | inr (e, failed) ↦ rw (failed, cancel) (Apart-refl db)
      | inl (ctx, mine) ↦
          let away =
            elsewhere db.tenancy user ctx.group_id out
              (require_group_admin-member db.tenancy user ctx mine) in
          let matches : Reservation → Bool = λ r. has_id id r && in_group ctx.group_id r in
          let none_here : (r : Reservation) → matches r && in_group g r ≡ false =
            λ r. ground (arith, away) in
          elim (Bool-cases (any matches db.reservations)) [
            | inr missing ↦ rw (mine, missing, cancel) (Apart-refl db)
            | inl there_is ↦
                rw (mine, there_is, cancel)
                  (record {
                    rows =
                        select-update g matches (λ r. record r { status = cancelled })
                          db.reservations (λ r. refl)
                          (none-hits g matches db.reservations none_here);
                    users = refl;
                    unique = λ u k.
                        rw
                          (total-update_same matches (λ r. record r { status = cancelled })
                            (λ r. bit (has_id k r)) db.reservations (λ r e. refl))
                          (u k);
                  })
          ]
    ]

    unlock-spares : (credential : ℕ) → Apart db (unlock_credential user credential db).1
    unfolding unlock_credential
    unlock-spares credential = elim (Result-cases (require_group_admin db.tenancy user)) [
      | inr (e, failed) ↦ rw (failed, unlock_credential) (Apart-refl db)
      | inl (ctx, mine) ↦
          let away =
            elsewhere db.tenancy user ctx.group_id out
              (require_group_admin-member db.tenancy user ctx mine) in
          rw (mine, unlock_credential)
            (record {
              users = refl;
              unique = λ u k.
                  rw
                    (total-update_same (λ r. true) (detach_row credential ctx.group_id)
                      (λ r. bit (has_id k r)) db.reservations
                      (λ r e. ap (λ n. bit (n == k)) (detach_row-id credential ctx.group_id r)))
                    (u k);
              rows =
                  select-update_same g (detach_row credential ctx.group_id) db.reservations
                    (detach_row-keeps credential ctx.group_id)
                    (λ r e.
                      detach_row-elsewhere credential ctx.group_id r (ground (arith, away, e)));
            })
    ]

  -- The rows that are logged have new ids, and no request is a member's of the group.
  abbrev pub AreOutside : List (Clock × ℕ × Request) → Db → Type 0
  AreOutside [] db = Unit
  AreOutside ((clock, user, request) ∷ requests) db =
      (is_member db.tenancy g user ≡ false)
      × IsNewId request db
      × AreOutside requests (respond clock user request db)

  respond-Apart :
      (clock : Clock) (user : ℕ) (request : Request) (db : Db)
      → HasUniqueIds db
      → is_member db.tenancy g user ≡ false
      → IsNewId request db
      → Apart db (respond clock user request db)
  unfolding respond
  respond-Apart clock user (log id req) db unique out new =
      create-spares user db out clock id req new
  respond-Apart clock user (finish id) db unique out new =
      complete-spares user db out id (unique id)
  respond-Apart clock user (call_off id) db unique out new = cancel-spares user db out id
  respond-Apart clock user (change id req) db unique out new =
      edit-spares user db out clock id req (unique id)
  respond-Apart clock user (unlock credential) db unique out new =
      unlock-spares user db out credential

  -- Whatever requests to create, complete, cancel and edit reservations and to unlock credentials
  -- users make who are no members of a group at that time, the rows of the group's reservations stay
  -- as they are: none is added, changed or lost. The ids of the rows are unique, and a new row gets
  -- a new id.
  pub serve-rows :
      (requests : List (Clock × ℕ × Request)) (db : Db)
      → HasUniqueIds db
      → AreOutside requests db
      → rows_of g (serve requests db).reservations ≡ rows_of g db.reservations
  unfolding serve
  serve-rows [] db unique h = refl
  serve-rows ((clock, user, request) ∷ requests) db unique (out, new, rest) =
      let one = respond-Apart clock user request db unique out new in
      serve-rows requests (respond clock user request db) (one.unique unique) rest ∙ one.rows
