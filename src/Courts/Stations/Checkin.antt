-- ===== src/Courts/Stations/Checkin.antt =====
-- Member check-in (src/courts.rs) when no other transaction commits between its statements.
use badminton_be_rust.Prelude.{
  ℕ, ◌≡◌, refl, ap, subst, ◌∙◌, inl, inr, true, false, [], ◌∷◌, ◌++◌, none, some, Result, ok, err,
  arith, Text, find_row, any, any-tally, tally-find_row-none, tally_pos, find_row-append,
  find_row-passes, find_row-In, Option-cases, Bool-cases,
}
use badminton_be_rust.Courts.Tables.{Credential, CredentialKind, Member, ClubRow, Db, Env}
use badminton_be_rust.Courts.Queries.{is_active, club_today}
use badminton_be_rust.Courts.Stations.{
  issued_on, insert_credential, day_pass, CheckinResult, CheckinError, unknown_member, revoked,
  username_held, row_not_found, holds_card, is_member, pass_today, redisplay, Others, Draws,
  checkin_loop, member_checkin,
}

abbrev pub quiet : Others
quiet k db = db

abbrev pub shown : Member → Credential → CheckinResult
shown m c = record {
  display_name = m.display_name;
  member_ref = m.member_ref;
  username = m.username;
  password = c.password;
}

-- How a check-in ends: with the password of the member's active pass of today, which is now in the
-- table; or the tables are as they were, and today's pass is revoked or the username is held by
-- somebody else.
abbrev pub HasCheckedIn :
    ClubRow → Member → ℕ → Db → Result CheckinError CheckinResult × Db → Type 0
HasCheckedIn club m today db (ok r, db') =
    (db'.members ≡ db.members)
    × ((c : Credential) × (find_row (pass_today club.id m.id today) db'.credentials ≡ some c)
        × (is_active c.status ≡ true)
        × (r ≡ shown m c))
HasCheckedIn club m today db (err revoked, db') =
    (db' ≡ db)
    × ((c : Credential) × (find_row (pass_today club.id m.id today) db.credentials ≡ some c)
        × (is_active c.status ≡ false))
HasCheckedIn club m today db (err username_held, db') =
    (db' ≡ db)
    × ((c : Credential) × (find_row (issued_on club.id m.username today) db.credentials ≡ some c)
        × (is_member m.id c.member_id ≡ false))
HasCheckedIn club m today db (err unknown_member, db') = ⊥
HasCheckedIn club m today db (err row_not_found, db') = ⊥

module _ (club : ClubRow) (m : Member) (today : ℕ) where
  redisplay-HasCheckedIn :
      (db db' : Db) (c : Credential)
      → db' ≡ db
      → find_row (pass_today club.id m.id today) db.credentials ≡ some c
      → HasCheckedIn club m today db (redisplay m c db')
  redisplay-HasCheckedIn db db' c same found = elim (Bool-cases (is_active c.status)) [
    | inl active ↦ rw active (
      ap (λ d. d.members) same,
      (
        c,
        ap (λ d. find_row (pass_today club.id m.id today) d.credentials) same ∙ found,
        active,
        refl,
      ),
    )
    | inr inactive ↦ rw inactive (same, (c, found, inactive))
  ]

  -- The unique index is violated, so somebody has the slot; and the member's own pass was not there.
  held_by_other :
      (db : Db)
      → find_row (pass_today club.id m.id today) db.credentials ≡ none
      → any (issued_on club.id m.username today) db.credentials ≡ true
      → (c : Credential) × (find_row (issued_on club.id m.username today) db.credentials ≡ some c)
        × (is_member m.id c.member_id ≡ false)
  held_by_other db missing taken =
      elim (Option-cases (find_row (issued_on club.id m.username today) db.credentials)) [
        | inl none_issued ↦ absurd (
            ground (
              arith,
              taken,
              any-tally (issued_on club.id m.username today) db.credentials (
                  tally-find_row-none (issued_on club.id m.username today) db.credentials
                    none_issued),
            ))
        | inr (c, found) ↦ (
          c,
          found,
          ground (
            arith,
            find_row-passes (issued_on club.id m.username today) db.credentials c found,
            tally-find_row-none (pass_today club.id m.id today) db.credentials missing,
            tally_pos (pass_today club.id m.id today) db.credentials c
                (find_row-In (issued_on club.id m.username today) db.credentials c found),
          ),
        )
      ]

  -- The pass that a check-in inserts.
  abbrev issued : Draws → Credential
  issued draw =
      day_pass (draw 0).0 club.id m.username (draw 0).1 CredentialKind.member (some m.id) today

  issued_found :
      (draw : Draws) (db : Db)
      → find_row (pass_today club.id m.id today) db.credentials ≡ none
      → find_row (pass_today club.id m.id today) (db.credentials ++ issued draw ∷ [])
        ≡ some (issued draw)
  unfolding find_row
  issued_found draw db missing =
      find_row-append (pass_today club.id m.id today) db.credentials (issued draw ∷ []) missing
      ∙ ground arith

  checkin_loop-HasCheckedIn :
      (draw : Draws) (db : Db)
      → HasCheckedIn club m today db (checkin_loop 2 0 quiet draw club m today db)
  unfolding checkin_loop insert_credential
  checkin_loop-HasCheckedIn draw db =
      elim (Option-cases (find_row (pass_today club.id m.id today) db.credentials)) [
        | inr (c, found) ↦ rw (found, checkin_loop) (redisplay-HasCheckedIn db db c refl found)
        | inl missing ↦
            elim (Bool-cases (any (issued_on club.id m.username today) db.credentials)) [
              | inl taken ↦
                  let (c, found, other) = held_by_other db missing taken in
                  rw (missing, taken, found, other, checkin_loop) (refl, (c, found, other))
              | inr free ↦
                  rw (missing, free, issued_found draw db missing, checkin_loop)
                    (refl, (issued draw, issued_found draw db missing, refl, refl))
            ]
      ]

-- When no other transaction intervenes, a check-in with the card of an active member ends in one of
-- three ways, and never runs out of tries: it shows the password of the member's active pass of
-- today, which is in the table; or the tables are as they were and today's pass is revoked; or they
-- are as they were and somebody else's pass holds the username today.
pub member_checkin-HasCheckedIn :
    (env : Env) (draw : Draws) (club : ClubRow) (member_ref : Text) (m : Member) (db : Db)
    → find_row (holds_card club.id member_ref) db.members ≡ some m
    → HasCheckedIn club m
        (club_today env club.timezone)
        db
        (member_checkin env quiet draw club member_ref db)
unfolding member_checkin
member_checkin-HasCheckedIn env draw club member_ref m db known =
    rw (known, member_checkin)
      (checkin_loop-HasCheckedIn club m (club_today env club.timezone) draw db)

again :
    (env env' : Env) (draw draw' : Draws) (club : ClubRow) (member_ref : Text) (m : Member)
    (db db' : Db) (r : CheckinResult)
    → find_row (holds_card club.id member_ref) db.members ≡ some m
    → club_today env' club.timezone ≡ club_today env club.timezone
    → HasCheckedIn club m (club_today env club.timezone) db (ok r, db')
    → member_checkin env' quiet draw' club member_ref db' ≡ (ok r, db')
unfolding member_checkin checkin_loop
again env env' draw draw' club member_ref m db db' r known same_day
      (members, (c, found, active, shows)) =
    let still_known = ap (find_row (holds_card club.id member_ref)) members ∙ known in
    rw (still_known, same_day, found, active, shows, member_checkin, checkin_loop) refl

-- When no other transaction intervenes, a check-in that succeeded succeeds again on the same day,
-- with the same password, and changes nothing.
pub member_checkin-again :
    (env env' : Env) (draw draw' : Draws) (club : ClubRow) (member_ref : Text) (db db' : Db)
    (r : CheckinResult)
    → club_today env' club.timezone ≡ club_today env club.timezone
    → member_checkin env quiet draw club member_ref db ≡ (ok r, db')
    → member_checkin env' quiet draw' club member_ref db' ≡ (ok r, db')
unfolding member_checkin
member_checkin-again env env' draw draw' club member_ref db db' r same_day done =
    elim (Option-cases (find_row (holds_card club.id member_ref) db.members)) [
      | inl unknown ↦ absurd (cc (rw (unknown, member_checkin) at done))
      | inr (m, known) ↦ again env env' draw draw' club member_ref m db db' r known same_day (
          subst (HasCheckedIn club m (club_today env club.timezone) db) done
            (member_checkin-HasCheckedIn env draw club member_ref m db known))
    ]
