-- ===== src/Courts/Witnesses.antt =====
-- The theorems on the kiosk actions and the engine (src/courts.rs) at one evening of a small club.
use badminton_be_rust.Prelude.{
  ℕ, ◌+◌, ◌≡◌, ◌≤◌, ◌<◌, ◌==◌, refl, true, false, List, [], ◌∷◌, ◌++◌, some, ok, arith, count,
  length, find_row, contains,
}
use badminton_be_rust.Courts.Tables.{Session, SessionStatus, QueueGroup, Lock, Db}
use badminton_be_rust.Courts.Queries.{lock_credentials, minutes, plays_on, waits_for, closed_or}
use badminton_be_rust.Courts.Players.{play, resolve_from, ids_of}
use badminton_be_rust.Courts.Actions.{queue_len, max_position}
use badminton_be_rust.Courts.Promotion.{
  walk_queue, Walk, remove_queue_group, Promotion, promote_next,
}
use badminton_be_rust.Courts.Engine.{EngineOutcome, expire_court}
use badminton_be_rust.Courts.Invariant.{IsSound}
use badminton_be_rust.Courts.Invariant.Inserts.{IsFresh}
use badminton_be_rust.Courts.Invariant.Resolving.{
  resolve_from-count, validate_players-AreFree, AreFree,
}
use badminton_be_rust.Courts.Invariant.Queueing.{queue_court-IsSound, max_position-queue_len}
use badminton_be_rust.Courts.Invariant.Renumbering.{remove_queue_group-IsSound}
use badminton_be_rust.Courts.Invariant.Walking.{walk_queue-Walked, Walked}
use badminton_be_rust.Courts.Invariant.Promoting.{HasResolved, promote_next-HasResolved}
use badminton_be_rust.Courts.Invariant.Expiring.{IsSettled, expire_court-IsSettled}
use badminton_be_rust.Courts.Invariant.Departing.{HasLeft}
use badminton_be_rust.Courts.Invariant.Leaving.{leave_court-HasLeft}
use badminton_be_rust.Courts.Invariant.Dequeuing.{HasWithdrawn}
use badminton_be_rust.Courts.Invariant.Withdrawing.{leave_queue-HasWithdrawn}
use badminton_be_rust.Courts.History.{takes, joins, run-IsSound}
use badminton_be_rust.Courts.Tests.{
  courts, at_time, club, opening, opening-IsSound, evening, half, in_play, group_behind, in_session,
  full, ann_bob, cat_dan, eve_fay,
}

half-IsSound : IsSound half
unfolding courts
half-IsSound =
    run-IsSound ((at_time 0 11, takes club 1 ann_bob) ∷ []) opening opening-IsSound (omega arith)

in_play-IsSound : IsSound in_play
unfolding courts
in_play-IsSound =
    run-IsSound ((at_time 0 11, takes club 1 ann_bob) ∷ (at_time 1 12, joins club 1 cat_dan) ∷ [])
      opening opening-IsSound (omega arith)

full-IsSound : IsSound full
unfolding courts
full-IsSound = run-IsSound evening opening opening-IsSound (omega arith)

full-IsFresh : IsFresh (at_time 45 14) full
unfolding courts
full-IsFresh = record { sessions = refl; queues = refl }

abbrev in_session_of : Session
in_session_of = in_session (1 ∷ 2 ∷ 3 ∷ 4 ∷ [])

-- Court 1 with the queue's group from a given minute on.
abbrev taken_over_at : ℕ → List Lock → Db
taken_over_at now locks = record opening {
  sessions =
      record in_session_of { status = SessionStatus.done }
      ∷ record in_session_of {
        id = 14;
        started_at = minutes now;
        ends_at = minutes (now + 45);
        players = 5 ∷ 6 ∷ [];
      }
      ∷ [];
  held = locks;
}

abbrev promoted_db : Db
promoted_db = taken_over_at 45 (Lock.court 1 1 ∷ Lock.credential 5 ∷ Lock.credential 6 ∷ [])

abbrev promoted_now : Db
promoted_now = taken_over_at 9 (
    Lock.court 1 1
    ∷ Lock.credential 1
    ∷ Lock.credential 2
    ∷ Lock.credential 3
    ∷ Lock.credential 4
    ∷ Lock.credential 5
    ∷ Lock.credential 6
    ∷ [])

abbrev in_play_again : Db
in_play_again = record in_play {
  held = Lock.court 1 1 ∷ Lock.credential 5 ∷ Lock.credential 6 ∷ [];
}

run-IsSound_example : IsSound full
unfolding courts
run-IsSound_example = run-IsSound evening opening opening-IsSound (omega arith)

queue_court-IsSound_example : IsSound full × (1 ≡ queue_len 1 1 in_play + 1) × (1 ≤ 3)
unfolding courts
queue_court-IsSound_example =
    queue_court-IsSound (at_time 2 13) club 1 eve_fay in_play full 1 in_play-IsSound
      (record { sessions = refl; queues = refl }) refl

max_position-queue_len_example : max_position 1 1 full.queues ≡ queue_len 1 1 full
max_position-queue_len_example = max_position-queue_len 1 1 full full-IsSound

expire_court-IsSettled_example :
    (o : EngineOutcome) × (db' : Db) × (expire_court (at_time 45 14) 1 1 full ≡ ok (some o, db'))
    × IsSound db'
    × IsSettled
        (at_time 45 14)
        club
        1
        in_session_of
        (closed_or true (at_time 45 14) 1 1 full)
        full
        o
        db'
unfolding courts
expire_court-IsSettled_example =
    expire_court-IsSettled (at_time 45 14) club 1 in_session_of full full-IsSound full-IsFresh refl
      refl

promote_next-HasResolved_example :
    (r : Promotion × Db) × (promote_next (at_time 45 14) 1 1 45 false 5 11 [] full ≡ some r)
    × HasResolved (at_time 45 14) 1 1 45 false 5 full r
unfolding courts
promote_next-HasResolved_example =
    promote_next-HasResolved (at_time 45 14) 1 1 45 false 5 in_session_of [] full full-IsSound
      full-IsFresh refl

walk_queue-Walked_example : (w : Walk) × (walk_queue 2 1 1 5 full ≡ some w) × Walked 1 1 5 full w
unfolding courts
walk_queue-Walked_example = walk_queue-Walked 2 1 1 5 full full-IsSound (omega arith)

validate_players-AreFree_example :
    AreFree 2 (5 ∷ 6 ∷ []) in_play (lock_credentials (5 ∷ 6 ∷ []) in_play)
unfolding courts
validate_players-AreFree_example =
    validate_players-AreFree 1 eve_fay 5 in_play (lock_credentials (5 ∷ 6 ∷ []) in_play)
      (5 ∷ 6 ∷ []) in_play-IsSound.credential_ids refl

resolve_from-count_example :
    count 5 (ids_of (resolve_from play 1 5 in_play [] (eve_fay ++ eve_fay)).resolved) ≤ 1
resolve_from-count_example =
    resolve_from-count in_play in_play-IsSound.credential_ids play 1 5 [] (eve_fay ++ eve_fay) 5

remove_queue_group-IsSound_example : IsSound (remove_queue_group 1 1 13 full)
unfolding courts
remove_queue_group-IsSound_example =
    remove_queue_group-IsSound 1 1 full full-IsSound 13 group_behind refl refl

leave_court-HasLeft_example :
    IsSound promoted_now
    × ((s : Session) × (leavers : List ℕ) × (find_row (plays_on 1 1) full.sessions ≡ some s)
        × (minutes 9 < s.ends_at)
        × (length leavers ≡ 4)
        × ((id : ℕ) → count id leavers ≤ 1)
        × ((id : ℕ) → 1 ≤ count id leavers → contains s.players id ≡ true)
        × HasLeft
            (at_time 9 14)
            club
            1
            s
            leavers
            full
            (record { session_ended = true; promoted = true })
            promoted_now)
unfolding courts
leave_court-HasLeft_example =
    leave_court-HasLeft (at_time 9 14) club 1 (ann_bob ++ cat_dan)
      (record { session_ended = true; promoted = true }) full promoted_now full-IsSound
      (record { sessions = refl; queues = refl }) refl

leave_queue-HasWithdrawn_example :
    IsSound in_play_again
    × ((g : QueueGroup) × (leavers : List ℕ) × (find_row
            (λ (x : QueueGroup). x.id == g.id)
            full.queues
          ≡ some g)
        × (waits_for 1 1 g ≡ true)
        × (length leavers ≡ 2)
        × ((id : ℕ) → count id leavers ≤ 1)
        × ((id : ℕ) → 1 ≤ count id leavers → contains g.players id ≡ true)
        × HasWithdrawn 1 1 g leavers full true in_play_again)
unfolding courts
leave_queue-HasWithdrawn_example =
    leave_queue-HasWithdrawn (at_time 9 14) club 1 eve_fay true full in_play_again full-IsSound refl
