-- ===== src/Courts/Leaving.antt =====
-- Leaving (src/courts.rs): `leave_court` and `leave_queue`.
use badminton_be_rust.Prelude.{
  ℕ, ◌+◌, ◌-◌, ◌%◌, ◌^◌, Bool, true, false, not, ◌&&◌, List, [], ◌∷◌, ◌++◌, Option, none, some,
  Result, ok, err, ◌>>=◌, ◌>>◌, guard, or_fail, leb, ◌==◌, if◌then◌else◌, Text, find_row, update,
  length, all, contains, is_empty, head?, map, without,
}
use badminton_be_rust.Courts.Tables.{
  ClubRow, Session, QueueGroup, Db, Env, PlayerCred, not_on_court, not_in_queue, CredError,
  finishing_up, no_game_in_play, uneven_court, mixed_groups, uneven_group, ActionError, validation,
}
use badminton_be_rust.Courts.Queries.{
  club_today, lock_court, lock_credentials, plays_on, waits_for, closed_or, check_group_size,
}
use badminton_be_rust.Courts.Players.{Resolution, leave, failed, ids_of, resolve_players}
use badminton_be_rust.Courts.Actions.{begin}
use badminton_be_rust.Courts.Promotion.{
  remove_queue_group, Promotion, promoted, not_promoted, raced, end_session, promote_next,
}

pub record LeaveOutcome : Type 0 where
  pub session_ended : Bool
  pub promoted : Bool

-- `a - b` on `usize`.
abbrev pub usize_sub : ℕ → ℕ → ℕ
usize_sub a b = (a + 2 ^ 64 - b) % 2 ^ 64

-- The leavers that are on the court, and an error for each that is not.
unfoldable pub check_on_court : ℕ → List ℕ → List (Text × ℕ) → Resolution
check_on_court number on_court [] = record { errors = []; resolved = [] }
check_on_court number on_court ((username, id) ∷ rest) =
    let r = check_on_court number on_court rest in
    if contains on_court id
    then record r { resolved = (username, id) ∷ r.resolved }
    else failed username not_on_court (some number) r

-- `DELETE FROM session_players`, once for each leaver.
abbrev pub unseat_session : ℕ → List ℕ → List Session → List Session
unseat_session session_id ids =
    update (λ s. s.id == session_id) (λ s. record s { players = without ids s.players })

abbrev pub concluded : ℕ → ℕ → List ℕ → Promotion × Db → Result ActionError (LeaveOutcome × Db)
concluded number session_id leavers (promoted dropped, db) =
    ok (record { session_ended = true; promoted = true }, db)
concluded number session_id leavers (not_promoted, db) =
    let locked = lock_credentials leavers db in
    ok (
      record { session_ended = true; promoted = false },
      record locked { sessions = end_session session_id locked.sessions },
    )
concluded number session_id leavers (raced, db) = err (ActionError.court (finishing_up number))

-- The part of `leave_court` behind the checks of the leavers.
unfoldable pub depart :
    Env → ClubRow → ℕ → Session → List ℕ → Db → Result ActionError (LeaveOutcome × Db)
depart env club number s leavers db =
    let remainder = usize_sub (length s.players) (length leavers) in
    let locked = lock_credentials leavers db in
    let pair_left : Result ActionError (LeaveOutcome × Db) = ok (
      record { session_ended = false; promoted = false },
      record locked { sessions = unseat_session s.id leavers locked.sessions },
    ) in
    let all_left =
      or_fail
        (promote_next env club.id number club.session_minutes (closed_or true env club.id number db)
          (club_today env club.timezone) s.id leavers db)
        ActionError.db
      >>= concluded number s.id leavers in
    if not (remainder == 0) && not (remainder == 2)
    then err (ActionError.court uneven_court)
    else if remainder == 2
    then pair_left
    else all_left

unfoldable pub leave_court :
    Env → ClubRow → ℕ → List PlayerCred → Db → Result ActionError (LeaveOutcome × Db)
leave_court env club number players db = do
  check_group_size (length players) (2 ∷ 4 ∷ [])
  let tx = lock_court club.id number (begin db)
  s ←
      or_fail (find_row (plays_on club.id number) tx.sessions)
        (ActionError.court (no_game_in_play number))
  guard (not (leb s.ends_at env.app_now)) (ActionError.court (finishing_up number))
  let first = resolve_players tx club.id players (club_today env club.timezone) leave
  let second = check_on_court number s.players first.resolved
  guard (is_empty (first.errors ++ second.errors)) (validation (first.errors ++ second.errors))
  depart env club number s (ids_of second.resolved) tx

-- The leavers with their queue groups on this court, and an error for each that has none.
pub record Groups : Type 0 where
  pub errors : List CredError
  pub group_of : List (ℕ × ℕ)

abbrev pub queued_here : ℕ → ℕ → ℕ → QueueGroup → Bool
queued_here club_id number id g = waits_for club_id number g && contains g.players id

abbrev pub add_group : ℕ → Text × ℕ → Option QueueGroup → Groups → Groups
add_group number (username, id) (some g) r = record r { group_of = (id, g.id) ∷ r.group_of }
add_group number (username, id) none r = record r {
  errors =
      record { username = username; code = not_in_queue; court_number = some number } ∷ r.errors;
}

unfoldable pub find_groups : ℕ → ℕ → Db → List (Text × ℕ) → Groups
find_groups club_id number db [] = record { errors = []; group_of = [] }
find_groups club_id number db (player ∷ rest) =
    add_group number player (find_row (queued_here club_id number player.1) db.queues)
      (find_groups club_id number db rest)

abbrev pub unseat_group : ℕ → List ℕ → List QueueGroup → List QueueGroup
unseat_group queue_id ids =
    update (λ g. g.id == queue_id) (λ g. record g { players = without ids g.players })

abbrev pub group_players : ℕ → Db → List ℕ
group_players queue_id db = elim (find_row (λ (g : QueueGroup). g.id == queue_id) db.queues) [
  | none ↦ []
  | some g ↦ g.players
]

-- The part of `leave_queue` behind the checks of the leavers; gives whether the group is gone.
unfoldable pub withdraw : ℕ → ℕ → ℕ → List ℕ → Db → Result ActionError (Bool × Db)
withdraw club_id number queue_id leavers db =
    let remainder = usize_sub (length (group_players queue_id db)) (length leavers) in
    let locked = lock_credentials leavers db in
    let pair_left = record locked { queues = unseat_group queue_id leavers locked.queues } in
    if not (remainder == 0) && not (remainder == 2)
    then err (ActionError.court uneven_group)
    else if remainder == 0
    then ok (true, remove_queue_group club_id number queue_id locked)
    else ok (false, pair_left)

unfoldable pub leave_queue :
    Env → ClubRow → ℕ → List PlayerCred → Db → Result ActionError (Bool × Db)
leave_queue env club number players db = do
  check_group_size (length players) (2 ∷ 4 ∷ [])
  let tx = lock_court club.id number (begin db)
  let first = resolve_players tx club.id players (club_today env club.timezone) leave
  let second = find_groups club.id number tx first.resolved
  guard (is_empty (first.errors ++ second.errors)) (validation (first.errors ++ second.errors))
  leader ← or_fail (head? second.group_of) ActionError.panic
  guard (all (λ (m : ℕ × ℕ). m.1 == leader.1) second.group_of) (ActionError.court mixed_groups)
  withdraw club.id number leader.1 (map (λ (m : ℕ × ℕ). m.0) second.group_of) tx
