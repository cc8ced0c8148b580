-- ===== src/Courts/Stations/Laws.antt =====
-- Walk-in signup (src/courts.rs): when it is refused, and that its pass may play.
use badminton_be_rust.Prelude.{
  ℕ, ◌≡◌, ◌≤◌, refl, sym, ◌∙◌, ap, Bool, true, not, ◌&&◌, List, [], ◌∷◌, ◌++◌, none, some, ok, err,
  arith, ltb, leb, bit, Text, trim, text_eq_refl, any, tally, total, select, tally-any, any-tally,
  total-append, some-eq-some, ok-eq-ok, Bool-cases, inl, inr, guard_then-eq-ok, or_fail_then-eq-ok,
}
use badminton_be_rust.Courts.Tables.{Credential, CredentialKind, ClubRow, Db, Env}
use badminton_be_rust.Courts.Queries.{club_today, lock_username, credential_usable}
use badminton_be_rust.Courts.Players.{
  newest, has_username, pass_of, play, check_player, check_validity,
}
use badminton_be_rust.Courts.Actions.{begin}
use badminton_be_rust.Courts.Stations.{
  valid_kiosk_username, Reason, taken, issued_on, reserves, walkin_unavailable_reason, unavailable,
  insert_credential, day_pass, walkin_create,
}

-- The pass of a walk-in.
abbrev pub walkin_pass : Env → ClubRow → Text → Text → Credential
walkin_pass env club username password =
    day_pass env.new_id club.id username password CredentialKind.walkin none
      (club_today env club.timezone)

module _ (env : Env) (club : ClubRow) (username password : Text) (db : Db) where
  -- If the availability check gives a reason against a username, a walk-in signup with it fails
  -- with this reason.
  pub walkin_create-unavailable :
      (r : Reason)
      → walkin_unavailable_reason env club username db ≡ some r
      → walkin_create env club username password db ≡ err (unavailable r)
  unfolding walkin_unavailable_reason walkin_create insert_credential lock_username
  walkin_create-unavailable r h =
      ground (
        arith,
        tally-any (issued_on club.id username (club_today env club.timezone)) db.credentials,
      )

  issued_pos :
      1
      ≤ tally
          (issued_on club.id username (club_today env club.timezone))
          (walkin_pass env club username password ∷ [])
  unfolding total
  issued_pos = ground (arith, text_eq_refl username)

  -- If the availability check gives no reason against a username, a walk-in signup with it
  -- succeeds, gives the generated password, adds an active pass for today to the credentials, keeps
  -- the members, and from then on the check says that the username is taken.
  pub walkin_create-free :
      walkin_unavailable_reason env club username db ≡ none
      → (db' : Db) × (walkin_create env club username password db ≡ ok (password, db'))
        × (db'.members ≡ db.members)
        × (db'.credentials ≡ db.credentials ++ walkin_pass env club username password ∷ [])
        × (walkin_unavailable_reason env club username db' ≡ some taken)
  unfolding walkin_unavailable_reason walkin_create insert_credential lock_username
  walkin_create-free h =
      let today = club_today env club.timezone in
      let fits : valid_kiosk_username username ≡ true = ground arith in
      let unissued : tally (issued_on club.id username today) db.credentials ≡ 0 = ground arith in
      let unreserved : tally (reserves club.id username) db.members ≡ 0 = ground arith in
      (
        record (lock_username club.id username (begin db)) {
          credentials = db.credentials ++ walkin_pass env club username password ∷ [];
        },
        rw (fits, unreserved, any-tally (issued_on club.id username today) db.credentials unissued)
            refl,
        refl,
        refl,
        ground (
          arith,
          total-append (λ c. bit (issued_on club.id username today c)) db.credentials
              (walkin_pass env club username password ∷ []),
          text_eq_refl username,
          issued_pos,
        ),
      )

  newest-append :
      (p : Credential → Bool) (cs : List Credential) (c : Credential)
      → p c ≡ true
      → tally (λ d. p d && leb c.valid_date d.valid_date) cs ≡ 0
      → newest (select p (cs ++ c ∷ [])) ≡ some c
  unfolding newest select total
  newest-append p [] c h none_later = ground arith
  newest-append p (d ∷ cs) c h none_later = ground (arith, newest-append p cs c h)

  -- What a successful signup stored.
  walkin_create-eq-ok :
      (p : Text) (db' : Db)
      → walkin_create env club username password db ≡ ok (p, db')
      → (p ≡ password)
        × (db'.credentials ≡ db.credentials ++ walkin_pass env club username password ∷ [])
        × (tally (issued_on club.id username (club_today env club.timezone)) db.credentials ≡ 0)
  unfolding walkin_create insert_credential lock_username
  walkin_create-eq-ok p db' h =
      let (_, h₁) = guard_then-eq-ok (valid_kiosk_username username) _ _ h in
      let (_, h₂) =
        guard_then-eq-ok (not (ltb 0 (tally (reserves club.id username) db.members))) _ _ h₁ in
      let (inserted, e, h₃) =
        or_fail_then-eq-ok
          (insert_credential (walkin_pass env club username password)
            (lock_username club.id username (begin db)))
          _ _ h₂ in
      let both = ok-eq-ok h₃ in
      elim (Bool-cases
        (any (issued_on club.id username (club_today env club.timezone)) db.credentials)) [
          | inl found ↦ cc (rw found at e)
          | inr free ↦ (
            sym (ap (λ r. r.0) both),
            sym (ap (λ r. r.1.credentials) both)
                ∙ sym (ap (λ d. d.credentials) (some-eq-some (rw free at e))),
            tally-any (issued_on club.id username (club_today env club.timezone)) db.credentials
                free,
          )
        ]

  nothing_newer :
      (day : ℕ) (cs : List Credential)
      → tally (λ c. has_username club.id username c && ltb day c.valid_date) cs ≡ 0
      → tally (issued_on club.id username day) cs ≡ 0
      → tally (λ c. has_username club.id username c && leb day c.valid_date) cs ≡ 0
  unfolding total
  nothing_newer day [] a b = refl
  nothing_newer day (c ∷ cs) a b = ground (arith, nothing_newer day cs)

  -- If no pass of the username is dated after today, and the generated password has no blanks
  -- around it, then after a successful walk-in signup the username with the password that was given
  -- is accepted for play today, as the pass issued.
  pub walkin_create-play :
      (p : Text) (db' : Db)
      → trim password ≡ password
      → tally
          (λ c. has_username club.id username c && ltb (club_today env club.timezone) c.valid_date)
          db.credentials
        ≡ 0
      → walkin_create env club username password db ≡ ok (p, db')
      → check_player play
          (club_today env club.timezone)
          (pass_of club.id username db')
          (record { username = username; password = p })
        ≡ ok env.new_id
  unfolding walkin_create insert_credential lock_username pass_of check_player check_validity
      credential_usable
  walkin_create-play p db' trimmed none_later h =
      let today = club_today env club.timezone in
      let (same, stored, unissued) = walkin_create-eq-ok p db' h in
      let newest_is : newest (select (has_username club.id username) db'.credentials)
          ≡ some (walkin_pass env club username password) =
        rw stored (
          newest-append (has_username club.id username) db.credentials
            (walkin_pass env club username password) (ground (arith, text_eq_refl username))
            (nothing_newer today db.credentials none_later unissued)) in
      rw (newest_is, same, trimmed) (ground (arith, text_eq_refl password))
