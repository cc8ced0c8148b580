-- ===== src/Courts/Invariant/SignUp.antt =====
-- Lemmas on `take_court` and `join_court` (src/courts.rs).
use badminton_be_rust.Prelude.{
  ℕ, ◌≤◌, ◌≡◌, refl, sym, ap, ◌∙◌, inl, inr, true, not, List, [], ◌∷◌, ◌++◌, some, ok, contains,
  arith, ◌==◌, length, count, tally, update, find_row, Option-cases, find_row-In, find_row-passes,
  find_row_of_In, guard-eq-ok, guard_then-eq-ok, or_fail_then-eq-ok, or_fail-eq-ok, ==_iff, subst,
  >>=-eq-ok, is_some, length-append, count-append,
}
use badminton_be_rust.Courts.Tables.{Session, Db, Env, ClubRow, PlayerCred}
use badminton_be_rust.Courts.Queries.{
  is_playing, plays_on, lock_court, court_state, CourtState, check_group_size, expired_unresolved,
  club_today,
}
use badminton_be_rust.Courts.Players.{validate_players, seat_session}
use badminton_be_rust.Courts.Actions.{
  begin, fresh_session, start_session, take_court, seat_players, join_court,
}
use badminton_be_rust.Courts.Invariant.{places, is_two_or_four, IsSound}
use badminton_be_rust.Courts.Invariant.Resolving.{SameTables, AreFree, validate_players-AreFree}
use badminton_be_rust.Courts.Invariant.Rows.{add_session-IsSound, update_session-IsSound}
use badminton_be_rust.Courts.Invariant.Inserts.{
  SameTables-IsSound, IsFresh, insert_session-eq-some, insert_session_players-eq-ok, fill_session,
}

pub check_group_size-two_or_four :
    (n : ℕ) {u : Unit {0}} → check_group_size n (2 ∷ 4 ∷ []) ≡ ok u → is_two_or_four n ≡ true
unfolding check_group_size contains
check_group_size-two_or_four n e = let h = guard-eq-ok _ _ e in ground arith

check_group_size-two : (n : ℕ) {u : Unit {0}} → check_group_size n (2 ∷ []) ≡ ok u → n ≡ 2
unfolding check_group_size contains
check_group_size-two n e = let h = guard-eq-ok _ _ e in ground arith

pub begin-SameTables :
    (club_id number : ℕ) (db : Db) → SameTables db (lock_court club_id number (begin db))
unfolding lock_court
begin-SameTables club_id number db = ground arith

-- A started session: its row, of players that had no place.
pub record Started (env : Env) (club : ClubRow) (number n : ℕ) (db db' : Db) : Type 0 where
  pub ids : List ℕ
  pub locked : Db
  pub free : AreFree n ids db locked
  pub idle : tally (plays_on club.id number) locked.sessions ≡ 0
  pub result : db' ≡ record locked {
    sessions =
        locked.sessions
        ++ seat_session ids (fresh_session env club.id number club.session_minutes) ∷ [];
  }

pub start_session-Started :
    (env : Env) (club : ClubRow) (number : ℕ) (players : List PlayerCred) (db db' : Db)
    → IsSound db
    → IsFresh env db
    → start_session env club number players db ≡ ok db'
    → Started env club number (length players) db db'
unfolding start_session
start_session-Started env club number players db db' v fresh e =
    let ((ids, locked), validated, e₁) = >>=-eq-ok _ _ e in
    let (started, inserted, e₂) = >>=-eq-ok _ _ e₁ in
    let free =
      validate_players-AreFree club.id players _ db locked ids v.credential_ids validated in
    let (idle, row) =
      insert_session-eq-some env club.id number club.session_minutes locked started
        (or_fail-eq-ok _ _ inserted) in
    let filled = insert_session_players-eq-ok env.new_id ids started db' e₂ in
    let none_yet : tally (λ (s : Session). s.id == env.new_id) locked.sessions ≡ 0 =
      rw free.same.sessions fresh.sessions in
    record {
      ids = ids;
      locked = locked;
      free = free;
      idle = idle;
      result =
          filled
          ∙ ap
              (λ (d : Db). record d {
                sessions = update (λ s. s.id == env.new_id) (seat_session ids) d.sessions;
              })
              row
          ∙ ap (λ ss. record locked { sessions = ss })
              (fill_session (fresh_session env club.id number club.session_minutes) ids
                locked.sessions none_yet);
    }

pub places-SameTables :
    {db db' : Db} (id : ℕ) → SameTables db db' → places id db ≡ 0 → places id db' ≡ 0
places-SameTables id s e = rw (s.sessions, s.queues) e

Started-IsSound :
    {env : Env} {club : ClubRow} {number n : ℕ} {db db' : Db}
    → IsSound db
    → IsFresh env db
    → is_two_or_four n ≡ true
    → Started env club number n db db'
    → IsSound db'
Started-IsSound {env} {club} {number} {n} {db} {db'} v fresh even st =
    let same = st.free.same in
    rw st.result (
      add_session-IsSound st.locked
        (seat_session st.ids (fresh_session env club.id number club.session_minutes))
        (SameTables-IsSound same v) (rw same.sessions fresh.sessions) st.idle
        (rw st.free.number even) st.free.distinct
        (λ id m. places-SameTables id same (st.free.free id m)))

-- What `take_court` went through when it succeeds.
take_court-Started :
    (env : Env) (club : ClubRow) (number : ℕ) (players : List PlayerCred) (db db' : Db)
    → IsSound db
    → IsFresh env db
    → take_court env club number players db ≡ ok db'
    → (is_two_or_four (length players) ≡ true)
      × Started env club number (length players) (lock_court club.id number (begin db)) db'
unfolding take_court
take_court-Started env club number players db db' v fresh e =
    let tx = lock_court club.id number (begin db) in
    let (_, size, e₁) = >>=-eq-ok (check_group_size (length players) (2 ∷ 4 ∷ [])) _ e in
    let (court, _, e₂) = >>=-eq-ok (court_state env club.id number tx) _ e₁ in
    let (_, e₃) = guard_then-eq-ok (not court.closed) _ _ e₂ in
    let (_, e₄) = guard_then-eq-ok (not (expired_unresolved env court)) _ _ e₃ in
    let (_, e₅) = guard_then-eq-ok (not (is_some court.session_id)) _ _ e₄ in
    let same = begin-SameTables club.id number db in
    (
      check_group_size-two_or_four (length players) size,
      start_session-Started env club number players (lock_court club.id number (begin db)) db'
          (SameTables-IsSound same v)
          (record {
            sessions = rw same.sessions fresh.sessions;
            queues = rw same.queues fresh.queues;
          })
          e₅,
    )

-- If the tables are sound, the new session's UUID is unused and `take_court` succeeds, the tables
-- that it leaves are sound.
pub take_court-IsSound :
    (env : Env) (club : ClubRow) (number : ℕ) (players : List PlayerCred) (db db' : Db)
    → IsSound db
    → IsFresh env db
    → take_court env club number players db ≡ ok db'
    → IsSound db'
take_court-IsSound env club number players db db' v fresh e =
    let same = begin-SameTables club.id number db in
    let (even, st) = take_court-Started env club number players db db' v fresh e in
    Started-IsSound (SameTables-IsSound same v)
      (record { sessions = rw same.sessions fresh.sessions; queues = rw same.queues fresh.queues })
      even st

-- Two players that have no place join the session of a row that is in play and has two.
seat_session-IsSound :
    (db : Db) (s : Session) (ids : List ℕ)
    → IsSound db
    → find_row (λ (x : Session). x.id == s.id) db.sessions ≡ some s
    → is_playing s.status ≡ true
    → length s.players ≡ 2
    → length ids ≡ 2
    → ((id : ℕ) → count id ids ≤ 1)
    → ((id : ℕ) → 1 ≤ count id ids → places id db ≡ 0)
    → IsSound (record db { sessions = update (λ x. x.id == s.id) (seat_session ids) db.sessions })
seat_session-IsSound db s ids v found playing two more distinct free =
    update_session-IsSound db s.id (seat_session ids) s v found refl refl refl (λ h. h)
      (ground (arith, length-append s.players ids))
      (λ id. ground (arith, count-append id s.players ids, v.one_place id, distinct id, free id))

-- The active session that `court_state` reports.
court_state-session :
    (env : Env) (club_id number : ℕ) (db : Db) (c : CourtState) (session_id : ℕ)
    → court_state env club_id number db ≡ ok c
    → c.session_id ≡ some session_id
    → (s : Session) × (find_row (plays_on club_id number) db.sessions ≡ some s)
      × (s.id ≡ session_id)
      × (length s.players ≡ c.player_count)
unfolding court_state
court_state-session env club_id number db c session_id e h =
    elim (Option-cases (find_row (plays_on club_id number) db.sessions)) [
      | inl q ↦ absurd (ground arith)
      | inr (s, q) ↦ (s, q, ground arith, ground arith)
    ]

-- The row that an active session of a court is found by.
pub by_id :
    (db : Db) (club_id number : ℕ) (s : Session)
    → IsSound db
    → find_row (plays_on club_id number) db.sessions ≡ some s
    → (find_row (λ (x : Session). x.id == s.id) db.sessions ≡ some s) × (is_playing s.status ≡ true)
by_id db club_id number s v e =
    let m = find_row-In (plays_on club_id number) db.sessions s e in
    let p = find_row-passes (plays_on club_id number) db.sessions s e in
    (
      find_row_of_In (λ (x : Session). x.id == s.id) s db.sessions (v.session_ids s.id)
          (ground arith) m,
      ground arith,
    )

seat_players-IsSound :
    (env : Env) (club : ClubRow) (number session_id : ℕ) (players : List PlayerCred) (s : Session)
    (db db' : Db)
    → IsSound db
    → find_row (plays_on club.id number) db.sessions ≡ some s
    → s.id ≡ session_id
    → length s.players ≡ 2
    → length players ≡ 2
    → seat_players env club session_id players db ≡ ok db'
    → IsSound db'
unfolding seat_players
seat_players-IsSound env club number session_id players s db db' v found key two more e =
    let ((ids, locked), validated, e₁) =
      >>=-eq-ok (validate_players club.id players (club_today env club.timezone) db) _ e in
    let free =
      validate_players-AreFree club.id players _ db locked ids v.credential_ids validated in
    let v₁ = SameTables-IsSound free.same v in
    let (row, playing) = by_id locked club.id number s v₁ (rw free.same.sessions found) in
    let seated =
      seat_session-IsSound locked s ids v₁ row playing two (free.number ∙ more) free.distinct
        (λ id m. places-SameTables id free.same (free.free id m)) in
    let result = insert_session_players-eq-ok session_id ids locked db' e₁ in
    subst IsSound
      (sym (
        result
        ∙ ap
            (λ i. record locked {
              sessions = update (λ x. x.id == i) (seat_session ids) locked.sessions;
            })
            (sym key)))
      seated

-- If the tables are sound and `join_court` succeeds, the tables that it leaves are sound.
pub join_court-IsSound :
    (env : Env) (club : ClubRow) (number : ℕ) (players : List PlayerCred) (db db' : Db)
    → IsSound db
    → join_court env club number players db ≡ ok db'
    → IsSound db'
unfolding join_court
join_court-IsSound env club number players db db' v e =
    let tx = lock_court club.id number (begin db) in
    let (_, size, e₁) = >>=-eq-ok (check_group_size (length players) (2 ∷ [])) _ e in
    let (court, state, e₂) = >>=-eq-ok (court_state env club.id number tx) _ e₁ in
    let (_, e₃) = guard_then-eq-ok (not court.closed) _ _ e₂ in
    let (session_id, present, e₄) = or_fail_then-eq-ok court.session_id _ _ e₃ in
    let (_, e₅) = guard_then-eq-ok (not (expired_unresolved env court)) _ _ e₄ in
    let (half, e₆) = guard_then-eq-ok (court.player_count == 2) _ _ e₅ in
    let (s, found, key, count_s) =
      court_state-session env club.id number tx court session_id state present in
    let two : court.player_count ≡ 2 = (==_iff court.player_count 2).0 half in
    seat_players-IsSound env club number session_id players s tx db'
      (SameTables-IsSound (begin-SameTables club.id number db) v) found key (count_s ∙ two)
      (check_group_size-two (length players) size) e₆
