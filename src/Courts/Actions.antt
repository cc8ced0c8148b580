-- ===== src/Courts/Actions.antt =====
-- The kiosk actions that sign players up (src/courts.rs): `take_court`, `join_court`, `queue_court`.
-- A failed action rolls its transaction back: it gives an error and no tables.
use badminton_be_rust.Prelude.{
  ℕ, ◌+◌, max, Bool, not, ◌&&◌, List, [], ◌∷◌, ◌++◌, Option, none, some, Result, ok, ◌>>=◌, ◌>>◌,
  guard, or_fail, ltb, leb, ◌==◌, if◌then◌else◌, find_row, tally, length, any, is_some,
}
use badminton_be_rust.Courts.Tables.{
  ClubRow, Session, QueueGroup, Db, Env, PlayerCred, is_closed, finishing_up, already_in_play,
  just_taken, free_to_join, no_half_game, free_to_queue, open_spots, queue_full, ActionError,
}
use badminton_be_rust.Courts.Tables.{SessionStatus}
use badminton_be_rust.Courts.Queries.{
  club_today, minutes, lock_court, plays_on, waits_for, expired_unresolved, court_state,
  check_group_size,
}
use badminton_be_rust.Courts.Players.{
  validate_players, insert_session_players, insert_queue_players,
}

abbrev pub begin : Db → Db
begin db = record db { held = [] }

-- `INSERT INTO court_sessions`: `none` is a violation of the unique index on active sessions.
abbrev pub fresh_session : Env → ℕ → ℕ → ℕ → Session
fresh_session env club_id number session_minutes = record {
  id = env.new_id;
  club_id = club_id;
  court_number = number;
  started_at = env.db_now;
  ends_at = env.db_now + minutes session_minutes;
  extensions = 0;
  status = SessionStatus.active;
  players = [];
}

unfoldable pub insert_session : Env → ℕ → ℕ → ℕ → Db → Option Db
insert_session env club_id number session_minutes db =
    if any (plays_on club_id number) db.sessions
    then none
    else some (record db {
      sessions = db.sessions ++ fresh_session env club_id number session_minutes ∷ [];
    })

-- The part of `take_court` behind the checks of the court.
unfoldable pub start_session : Env → ClubRow → ℕ → List PlayerCred → Db → Result ActionError Db
start_session env club number players db = do
  (ids, locked) ← validate_players club.id players (club_today env club.timezone) db
  started ←
      or_fail (insert_session env club.id number club.session_minutes locked)
        (ActionError.court (just_taken number))
  insert_session_players env.new_id ids started

unfoldable pub take_court : Env → ClubRow → ℕ → List PlayerCred → Db → Result ActionError Db
take_court env club number players db = do
  check_group_size (length players) (2 ∷ 4 ∷ [])
  let tx = lock_court club.id number (begin db)
  court ← court_state env club.id number tx
  guard (not court.closed) (ActionError.court (is_closed number))
  guard (not (expired_unresolved env court)) (ActionError.court (finishing_up number))
  guard (not (is_some court.session_id)) (ActionError.court (already_in_play number))
  start_session env club number players tx

-- The part of `join_court` behind the checks of the court.
unfoldable pub seat_players : Env → ClubRow → ℕ → List PlayerCred → Db → Result ActionError Db
seat_players env club session_id players db = do
  (ids, locked) ← validate_players club.id players (club_today env club.timezone) db
  insert_session_players session_id ids locked

unfoldable pub join_court : Env → ClubRow → ℕ → List PlayerCred → Db → Result ActionError Db
join_court env club number players db = do
  check_group_size (length players) (2 ∷ [])
  let tx = lock_court club.id number (begin db)
  court ← court_state env club.id number tx
  guard (not court.closed) (ActionError.court (is_closed number))
  session_id ← or_fail court.session_id (ActionError.court (free_to_join number))
  guard (not (expired_unresolved env court)) (ActionError.court (finishing_up number))
  guard (court.player_count == 2) (ActionError.court (no_half_game number))
  seat_players env club session_id players tx

abbrev pub queue_len : ℕ → ℕ → Db → ℕ
queue_len club_id number db = tally (waits_for club_id number) db.queues

-- `COALESCE(MAX(position), 0)`.
unfoldable pub max_position : ℕ → ℕ → List QueueGroup → ℕ
max_position club_id number [] = 0
max_position club_id number (g ∷ gs) =
    let rest = max_position club_id number gs in
    if waits_for club_id number g then max g.position rest else rest

abbrev pub fresh_group : Env → ℕ → ℕ → ℕ → QueueGroup
fresh_group env club_id number position = record {
  id = env.new_id;
  club_id = club_id;
  court_number = number;
  position = position;
  players = [];
}

abbrev pub stands_at : ℕ → ℕ → ℕ → QueueGroup → Bool
stands_at club_id number position g = waits_for club_id number g && g.position == position

-- `INSERT INTO court_queues`, the id read back by its position, and `INSERT INTO queue_players`.
unfoldable pub append_group : Env → ℕ → ℕ → List ℕ → Db → Result ActionError (ℕ × Db)
append_group env club_id number ids db = do
  let position = max_position club_id number db.queues + 1
  guard (not (any (stands_at club_id number position) db.queues)) ActionError.db
  let appended = record db { queues = db.queues ++ fresh_group env club_id number position ∷ [] }
  g ← or_fail (find_row (stands_at club_id number position) appended.queues) ActionError.db
  filled ← insert_queue_players g.id ids appended
  ok (position, filled)

unfoldable pub enqueue_players :
    Env → ClubRow → ℕ → List PlayerCred → Db → Result ActionError (ℕ × Db)
enqueue_players env club number players db = do
  (ids, locked) ← validate_players club.id players (club_today env club.timezone) db
  append_group env club.id number ids locked

-- Gives the group's position in the queue.
unfoldable pub queue_court : Env → ClubRow → ℕ → List PlayerCred → Db → Result ActionError (ℕ × Db)
queue_court env club number players db = do
  check_group_size (length players) (2 ∷ 4 ∷ [])
  let tx = lock_court club.id number (begin db)
  court ← court_state env club.id number tx
  guard (not court.closed) (ActionError.court (is_closed number))
  guard (is_some court.session_id) (ActionError.court (free_to_queue number))
  guard (leb 4 court.player_count) (ActionError.court (open_spots number))
  guard (ltb (queue_len club.id number tx) club.queue_depth)
      (ActionError.court (queue_full number club.queue_depth))
  enqueue_players env club number players tx
