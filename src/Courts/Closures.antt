-- ===== src/Courts/Closures.antt =====
-- Closure windows and the number of courts (src/courts.rs): `valid_close_window`,
-- `closure_boundary_pass` and `resize_courts`.
pub mod Laws
pub mod Resizing
pub mod Tests
use badminton_be_rust.Prelude.{
  ℕ, zero, suc, ◌+◌, ◌-◌, Bool, true, false, ◌&&◌, ◌||◌, List, [], ◌∷◌, ◌++◌, Option, none, some,
  Result, ok, err, ◌>>=◌, ◌>>◌, guard, or_fail, ltb, leb, ◌==◌, if◌then◌else◌, map, any, contains,
  select, update, delete, find_row, tally, is_some_and,
}
use badminton_be_rust.Courts.Tables.{
  ClubRow, Court, Session, QueueGroup, Lock, Db, Env, games_in_play_above, ActionError,
}
use badminton_be_rust.Courts.Queries.{
  is_playing, minutes, lock, lock_court, is_court, waits_for, closed_or,
}
use badminton_be_rust.Courts.Actions.{begin}

pub data WindowError : Type 0 where
  ends_before_start starts_in_past : WindowError

-- `from < now - 5 minutes`, of instants.
unfoldable pub valid_close_window : ℕ → ℕ → ℕ → Result WindowError (Unit {0})
valid_close_window from until now =
    if leb until from
    then err ends_before_start
    else if ltb (from + minutes 5) now
    then err starts_in_past
    else ok tt

abbrev pub crossed : ℕ → ℕ → Option ℕ → Bool
crossed since now = is_some_and (λ t. ltb since t && leb t now)

-- `SELECT DISTINCT`.
abbrev pub distinct : List ℕ → List ℕ
distinct [] = []
distinct (id ∷ ids) = let rest = distinct ids in if contains rest id then rest else id ∷ rest

unfoldable pub closure_boundary_clubs : ℕ → ℕ → Db → List ℕ
closure_boundary_clubs since now db = distinct (
    map (λ (c : Court). c.club_id)
      (select (λ c. crossed since now c.closed_from || crossed since now c.closed_until) db.courts))

-- One court whose window has started; it is looked at again under its lock.
unfoldable pub release_court : Env → ℕ → ℕ → Db → Db
release_court env club_id number db =
    let tx = lock_court club_id number (begin db) in
    if closed_or false env club_id number tx
    then record tx { queues = delete (waits_for club_id number) tx.queues }
    else tx

unfoldable pub release_each : (ℕ → Env) → ℕ → List Court → Db → Db
release_each envs k [] db = db
release_each envs k (c ∷ cs) db =
    release_each envs (k + 1) cs (release_court (envs k) c.club_id c.number db)

-- Gives the clubs to notify.
unfoldable pub closure_boundary_pass : (ℕ → Env) → ℕ → ℕ → Db → List ℕ × Db
closure_boundary_pass envs since now db =
    let released =
      release_each envs 0 (select (λ c. crossed since now c.closed_from) db.courts) db in
    (closure_boundary_clubs since now released, released)

-- The locks of the courts first + 1, …, first + n, ascending.
unfoldable pub lock_courts : ℕ → ℕ → ℕ → Db → Db
lock_courts club_id first zero db = db
lock_courts club_id first (suc n) db =
    lock_courts club_id (first + 1) n (lock_court club_id (first + 1) db)

abbrev pub plays_above : ℕ → ℕ → Session → Bool
plays_above club_id n s = s.club_id == club_id && ltb n s.court_number && is_playing s.status

abbrev pub waits_above : ℕ → ℕ → QueueGroup → Bool
waits_above club_id n g = g.club_id == club_id && ltb n g.court_number

abbrev pub is_above : ℕ → ℕ → Court → Bool
is_above club_id n c = c.club_id == club_id && ltb n c.number

-- The part of `resize_courts` for fewer courts.
unfoldable pub remove_courts : ℕ → ℕ → ℕ → Db → Result ActionError Db
remove_courts club_id new_count old_count db = do
  let locked = lock_courts club_id new_count (old_count - new_count) db
  guard (tally (plays_above club_id new_count) locked.sessions == 0)
      (ActionError.court (games_in_play_above new_count))
  ok (record locked {
    queues = delete (waits_above club_id new_count) locked.queues;
    courts = delete (is_above club_id new_count) locked.courts;
  })

-- `INSERT … SELECT generate_series(1, n) ON CONFLICT DO NOTHING`.
abbrev pub open_court : ℕ → ℕ → Court
open_court club_id number = record {
  club_id = club_id;
  number = number;
  closed = false;
  closed_from = none;
  closed_until = none;
}

unfoldable pub insert_courts : ℕ → ℕ → List Court → List Court
insert_courts club_id zero courts = courts
insert_courts club_id (suc n) courts =
    let rest = insert_courts club_id n courts in
    if any (is_court club_id (suc n)) rest then rest else rest ++ open_court club_id (suc n) ∷ []

abbrev pub set_count : ℕ → ℕ → Db → Db
set_count club_id n db = record db {
  clubs = update (λ (c : ClubRow). c.id == club_id) (λ c. record c { court_count = n }) db.clubs;
  courts = insert_courts club_id n db.courts;
}

-- In the caller's transaction.
unfoldable pub resize_courts : ℕ → ℕ → Db → Result ActionError Db
resize_courts club_id new_count db = do
  club ← or_fail (find_row (λ (c : ClubRow). c.id == club_id) db.clubs) ActionError.db
  let tx = lock (Lock.clubs_row club_id) db
  kept ←
      (if ltb new_count club.court_count
        then remove_courts club_id new_count club.court_count tx
        else ok tx)
  ok (set_count club_id new_count kept)
