-- ===== src/Courts/Invariant/Leaving.antt =====
-- Lemmas on `leave_court` (src/courts.rs).
use badminton_be_rust.Prelude.{
  ℕ, ◌≤◌, ◌<◌, ◌≡◌, refl, ap, inl, inr, true, not, List, [], ◌∷◌, ◌++◌, some, ok, find_row, arith,
  leb, count, contains, length, is_empty, >>=-eq-ok, or_fail_then-eq-ok, guard_then-eq-ok, Text,
  append-eq-nil, length-map,
}
use badminton_be_rust.Courts.Tables.{Session, Db, Env, ClubRow, PlayerCred}
use badminton_be_rust.Courts.Queries.{plays_on, lock_court, club_today, closed_or, check_group_size}
use badminton_be_rust.Courts.Players.{leave, ids_of, resolve_from, resolve_players}
use badminton_be_rust.Courts.Actions.{begin}
use badminton_be_rust.Courts.Leaving.{LeaveOutcome, check_on_court, leave_court}
use badminton_be_rust.Courts.Invariant.{IsSound}
use badminton_be_rust.Courts.Invariant.Resolving.{resolve_from-count, resolve_from-length}
use badminton_be_rust.Courts.Invariant.Inserts.{SameTables-IsSound, IsFresh}
use badminton_be_rust.Courts.Invariant.SignUp.{begin-SameTables}
use badminton_be_rust.Courts.Invariant.Seating.{SeatsNext-before}
use badminton_be_rust.Courts.Invariant.Departing.{check_on_court-ok, HasLeft, depart-HasLeft}

-- The locks that were taken first change no queue and no pass.
HasLeft-lock :
    (env : Env) (club : ClubRow) (number : ℕ) (s : Session) (leavers : List ℕ) (o : LeaveOutcome)
    (db db' : Db)
    → HasLeft env club number s leavers (lock_court club.id number (begin db)) o db'
    → HasLeft env club number s leavers db o db'
unfolding lock_court closed_or
HasLeft-lock env club number s leavers o db db' (inl h) = inl h
HasLeft-lock env club number s leavers o db db' (inr (inl (e, all, (d, h)))) =
    inr (
      inl (e, all, (d, SeatsNext-before (lock_court club.id number (begin db)) db db' refl refl h)))
HasLeft-lock env club number s leavers o db db' (inr (inr h)) = inr (inr h)

-- If the tables are sound, a new session's UUID is unused and `leave_court` succeeds: the court's
-- session had not run out; the leavers are as many as the players that signed off, no two the same
-- and all on the court. As the outcome says, either a pair of four left the other pair in play,
-- with every other session and every queue as before; or everyone left and the first group of the
-- court's queue whose players may all play has the court, this group and those before it, each of
-- which has a player who may not play, are gone from the queue, whoever is behind moves up by as
-- many places, and no other queue row changes; or everyone left and nobody has the court, and its
-- queue is empty or the court closed. The tables are sound afterwards.
pub leave_court-HasLeft :
    (env : Env) (club : ClubRow) (number : ℕ) (players : List PlayerCred) (o : LeaveOutcome)
    (db db' : Db)
    → IsSound db
    → IsFresh env db
    → leave_court env club number players db ≡ ok (o, db')
    → IsSound db'
      × ((s : Session) × (leavers : List ℕ) × (find_row (plays_on club.id number) db.sessions
            ≡ some s)
          × (env.app_now < s.ends_at)
          × (length leavers ≡ length players)
          × ((id : ℕ) → count id leavers ≤ 1)
          × ((id : ℕ) → 1 ≤ count id leavers → contains s.players id ≡ true)
          × HasLeft env club number s leavers db o db')
unfolding leave_court lock_court resolve_players
leave_court-HasLeft env club number players o db db' v fresh e =
    let tx = lock_court club.id number (begin db) in
    let today = club_today env club.timezone in
    let first = resolve_from leave club.id today tx [] players in
    let (_, size, e₁) = >>=-eq-ok (check_group_size (length players) (2 ∷ 4 ∷ [])) _ e in
    let (s, found, e₂) =
      or_fail_then-eq-ok (find_row (plays_on club.id number) tx.sessions) _ _ e₁ in
    let (running, e₃) = guard_then-eq-ok (not (leb s.ends_at env.app_now)) _ _ e₂ in
    let second = check_on_court number s.players first.resolved in
    let (fine, e₄) = guard_then-eq-ok (is_empty (first.errors ++ second.errors)) _ _ e₃ in
    let (no_first, no_second) = append-eq-nil first.errors second.errors fine in
    let (all_kept, on_court) = check_on_court-ok number s.players first.resolved no_second in
    let same = begin-SameTables club.id number db in
    let v₁ = SameTables-IsSound same v in
    let kept : ids_of second.resolved ≡ ids_of first.resolved = ap ids_of all_kept in
    let once : (id : ℕ) → count id (ids_of second.resolved) ≤ 1 =
      λ id. rw kept (resolve_from-count tx v₁.credential_ids leave club.id today [] players id) in
    let on : (id : ℕ) → 1 ≤ count id (ids_of second.resolved) → contains s.players id ≡ true =
      λ id m. on_court id (rw kept at m) in
    let (v', left) =
      depart-HasLeft env club number s (ids_of second.resolved) tx v₁
        (record { sessions = fresh.sessions; queues = fresh.queues }) found once on o db' e₄ in
    (
      v',
      (
        s,
        ids_of second.resolved,
        found,
        ground arith,
        omega (
          arith,
          ap length kept,
          length-map (λ (player : Text × ℕ). player.1) first.resolved,
          resolve_from-length leave club.id today tx [] players,
          ap length no_first,
        ),
        once,
        on,
        HasLeft-lock env club number s (ids_of second.resolved) o db db' left,
      ),
    )
