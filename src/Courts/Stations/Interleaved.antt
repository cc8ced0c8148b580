-- ===== src/Courts/Stations/Interleaved.antt =====
-- Member check-in (src/courts.rs) with any other transactions between its statements.
use badminton_be_rust.Prelude.{
  ℕ, zero, suc, ◌+◌, ◌≡◌, sym, ap, subst, inl, inr, true, some, ok, Text, find_row, Option-cases,
  Bool-cases, ok-eq-ok,
}
use badminton_be_rust.Courts.Tables.{Credential, CredentialKind, Member, ClubRow, Db, Env}
use badminton_be_rust.Courts.Queries.{is_active, club_today}
use badminton_be_rust.Courts.Stations.{
  issued_on, insert_credential, day_pass, CheckinResult, holds_card, is_member, pass_today,
  redisplay, Others, Draws, checkin_loop, member_checkin,
}
use badminton_be_rust.Courts.Stations.Checkin.{shown}

-- The tables have an active pass of the member for the day, and the result shows its password.
abbrev pub Shows : ClubRow → Member → ℕ → CheckinResult → Db → Type 0
Shows club m today r db =
    (c : Credential) × (find_row (pass_today club.id m.id today) db.credentials ≡ some c)
    × (is_active c.status ≡ true)
    × (r ≡ shown m c)

module _ (others : Others) (draw : Draws) (club : ClubRow) (m : Member) (today : ℕ) where
  redisplay-Shows :
      (db db' : Db) (c : Credential) (r : CheckinResult)
      → find_row (pass_today club.id m.id today) db.credentials ≡ some c
      → redisplay m c db ≡ (ok r, db')
      → Shows club m today r db'
  redisplay-Shows db db' c r found h = elim (Bool-cases (is_active c.status)) [
    | inl active ↦
        let e = rw active at h in
        subst (Shows club m today r) (ap (λ p. p.1) e)
          (c, found, active, sym (ok-eq-ok (ap (λ p. p.0) e)))
    | inr inactive ↦ absurd (cc (rw inactive at h))
  ]

  checkin_loop-Shows :
      (tries k : ℕ) (db db' : Db) (r : CheckinResult)
      → checkin_loop tries k others draw club m today db ≡ (ok r, db')
      → Shows club m today r db'
  unfolding checkin_loop
  checkin_loop-Shows zero k db db' r h = absurd (cc h)
  checkin_loop-Shows (suc tries) k db db' r h =
      let seen = others k db in
      let now = others (k + 1) seen in
      let later = others (k + 2) now in
      let pass =
        day_pass (draw k).0 club.id m.username (draw k).1 CredentialKind.member (some m.id) today in
      elim (Option-cases (find_row (pass_today club.id m.id today) seen.credentials)) [
        | inr (c, found) ↦ redisplay-Shows seen db' c r found (rw (found, checkin_loop) at h)
        | inl missing ↦ elim (Option-cases (insert_credential pass now)) [
          | inr (inserted, e) ↦
              checkin_loop-Shows tries (k + 3) inserted db' r (rw (missing, e, checkin_loop) at h)
          | inl violated ↦
              elim (Option-cases
                (find_row (issued_on club.id m.username today) later.credentials)) [
                  | inl vanished ↦
                      checkin_loop-Shows tries (k + 3) later db' r
                        (rw (missing, violated, vanished, checkin_loop) at h)
                  | inr (c, holder) ↦ elim (Bool-cases (is_member m.id c.member_id)) [
                    | inl own ↦
                        checkin_loop-Shows tries (k + 3) later db' r
                          (rw (missing, violated, holder, own, checkin_loop) at h)
                    | inr other ↦
                        absurd (cc (rw (missing, violated, holder, other, checkin_loop) at h))
                  ]
                ]
        ]
      ]

-- Whatever other transactions commit between the statements of a check-in that succeeds, an active
-- member holds the card, and the password shown is that of an active pass of this member for today,
-- which the tables have at the end.
pub member_checkin-Shows :
    (env : Env) (others : Others) (draw : Draws) (club : ClubRow) (member_ref : Text) (db db' : Db)
    (r : CheckinResult)
    → member_checkin env others draw club member_ref db ≡ (ok r, db')
    → (m : Member) × (find_row (holds_card club.id member_ref) db.members ≡ some m)
      × Shows club m (club_today env club.timezone) r db'
unfolding member_checkin
member_checkin-Shows env others draw club member_ref db db' r h =
    elim (Option-cases (find_row (holds_card club.id member_ref) db.members)) [
      | inl unknown ↦ absurd (cc (rw (unknown, member_checkin) at h))
      | inr (m, known) ↦ (
        m,
        known,
        checkin_loop-Shows others draw club m (club_today env club.timezone) 2 0 db db' r
            (rw (known, member_checkin) at h),
      )
    ]
