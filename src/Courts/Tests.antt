-- ===== src/Courts/Tests.antt =====
-- Runs of the courts model (src/courts.rs) at a small club, and the theorems at these inputs.
use badminton_be_rust.Prelude.{
  ℕ, ◌≡◌, refl, true, false, List, [], ◌∷◌, none, some, err, arith, Text, text, total, count,
  find_row, select, update, delete, any, all, contains, without, trim, eq_ignore_ascii_case,
  text_eq,
}
use badminton_be_rust.Courts.Tables.{
  Credential, CredentialStatus, CredentialKind, ClubStatus, ClubRow, Court, Session, SessionStatus,
  QueueGroup, Lock, Db, Env, PlayerCred, validation, expired, duplicate, in_queue, not_found,
}
use badminton_be_rust.Courts.Queries.{
  minutes, parse_timezone, club_tz, club_today, lock_court, lock_credentials, court_closed,
  expired_unresolved, court_state, closed_or, check_group_size, credential_usable, plays_on,
}
use badminton_be_rust.Courts.Players.{
  newest, pass_of, check_validity, check_player, resolve_from, resolve_players, place_player,
  check_places, validate_players, insert_session_player, insert_session_players,
  insert_queue_player, insert_queue_players,
}
use badminton_be_rust.Courts.Actions.{
  insert_session, start_session, take_court, seat_players, join_court, max_position, append_group,
  enqueue_players, queue_court,
}
use badminton_be_rust.Courts.Promotion.{
  renumber, remove_queue_group, queue_head, all_usable, walk_queue, start_group, promote_next,
}
use badminton_be_rust.Courts.Leaving.{
  check_on_court, depart, leave_court, find_groups, withdraw, leave_queue,
}
use badminton_be_rust.Courts.Engine.{
  club_engine_row, settle, expire_session, expire_court, expired_courts, resolve_each, engine_tick,
}
use badminton_be_rust.Courts.Invariant.{IsSound}
use badminton_be_rust.Courts.History.{takes, joins, queues, expires, step, run, Call}

unfoldable pub courts : Unit {0}
unfolding total find_row select update delete any all contains count without trim
    eq_ignore_ascii_case text_eq parse_timezone club_tz club_today lock_court lock_credentials
    court_closed expired_unresolved court_state closed_or check_group_size credential_usable newest
    pass_of check_validity check_player resolve_from resolve_players place_player check_places
    validate_players insert_session_player insert_session_players insert_queue_player
    insert_queue_players insert_session start_session take_court seat_players join_court
    max_position append_group enqueue_players queue_court renumber remove_queue_group queue_head
    all_usable walk_queue start_group promote_next check_on_court depart leave_court find_groups
    withdraw leave_queue club_engine_row settle expire_session expire_court expired_courts
    resolve_each engine_tick step run
courts = tt

abbrev pass : ℕ → Text → ℕ → Credential
pass id name day = record {
  id = id;
  club_id = 1;
  username = name;
  password = text "pw";
  status = CredentialStatus.active;
  kind = CredentialKind.walkin;
  member_id = none;
  valid_date = day;
}

abbrev pub court : ℕ → Court
court n = record {
  club_id = 1;
  number = n;
  closed = false;
  closed_from = none;
  closed_until = none;
}

abbrev pub club : ClubRow
club = record {
  id = 1;
  slug = text "bintang";
  name = text "Bintang";
  brand_color = text "#b06f3c";
  court_count = 2;
  session_minutes = 45;
  queue_depth = 3;
  auto_extend = true;
  opens_at = 6;
  closes_at = 22;
  kiosk_theme = text "light";
  status = ClubStatus.live;
  timezone = text "UTC";
  created_at = 0;
}

abbrev pub opening : Db
opening = record {
  clubs = club ∷ [];
  courts = court 1 ∷ court 2 ∷ [];
  members = [];
  credentials =
      pass 1 (text "ann") 5
      ∷ pass 2 (text "bob") 5
      ∷ pass 3 (text "cat") 5
      ∷ pass 4 (text "dan") 5
      ∷ pass 5 (text "eve") 5
      ∷ pass 6 (text "fay") 5
      ∷ pass 7 (text "old") 4
      ∷ [];
  sessions = [];
  queues = [];
  held = [];
}

-- A calendar with one zone, in which it is always day 5.
abbrev pub at_time : ℕ → ℕ → Env
at_time now id = record {
  app_now = minutes now;
  db_now = minutes now;
  new_id = id;
  calendar = record { parse = λ s. some 0; app_tz = 0; date = λ tz t. 5; time_of_day = λ tz t. 12 };
}

abbrev pub player : Text → PlayerCred
player name = record { username = name; password = text "pw" }

abbrev pub ann_bob : List PlayerCred
ann_bob = player (text "ann") ∷ player (text " bob ") ∷ []

abbrev pub cat_dan : List PlayerCred
cat_dan = player (text "cat") ∷ player (text "dan") ∷ []

abbrev pub eve_fay : List PlayerCred
eve_fay = player (text "eve") ∷ player (text "fay") ∷ []

-- Two players take court 1, two join them, and two more queue.
abbrev pub evening : List (Env × Call)
evening =
    (at_time 0 11, takes club 1 ann_bob)
    ∷ (at_time 1 12, joins club 1 cat_dan)
    ∷ (at_time 2 13, queues club 1 eve_fay)
    ∷ []

abbrev pub in_session : List ℕ → Session
in_session ids = record {
  id = 11;
  club_id = 1;
  court_number = 1;
  started_at = 0;
  ends_at = minutes 45;
  extensions = 0;
  status = SessionStatus.active;
  players = ids;
}

abbrev locked : ℕ → ℕ → List Lock
locked a b = Lock.court 1 1 ∷ Lock.credential a ∷ Lock.credential b ∷ []

abbrev pub half : Db
half = record opening { sessions = in_session (1 ∷ 2 ∷ []) ∷ []; held = locked 1 2 }

abbrev pub in_play : Db
in_play = record opening { sessions = in_session (1 ∷ 2 ∷ 3 ∷ 4 ∷ []) ∷ []; held = locked 3 4 }

abbrev pub group_behind : QueueGroup
group_behind = record { id = 13; club_id = 1; court_number = 1; position = 1; players = 5 ∷ 6 ∷ [] }

abbrev pub full : Db
full = record in_play { queues = group_behind ∷ []; held = locked 5 6 }

evening_runs : run evening opening ≡ full
unfolding courts
evening_runs = refl

pub opening-IsSound : IsSound opening
unfolding total
opening-IsSound = record {
  credential_ids = λ id. ground arith;
  session_ids = λ id. omega arith;
  queue_ids = λ id. omega arith;
  one_session = λ club_id number. omega arith;
  one_place = λ id. omega arith;
  even_sessions = refl;
  even_groups = refl;
  dense = λ club_id number k. ground arith;
}

-- At the end of the session the queue takes over; the others have left the court.
promotes_then :
    find_row (plays_on 1 1) (step (at_time 45 14) (expires 1 1) full).sessions
    ≡ some (record {
      id = 14;
      club_id = 1;
      court_number = 1;
      started_at = minutes 45;
      ends_at = minutes 90;
      extensions = 0;
      status = SessionStatus.active;
      players = 5 ∷ 6 ∷ [];
    })
unfolding courts
promotes_then = refl

rejections :
    take_court
      (at_time 3 14)
      club
      2
      (player (text "ANN") ∷ player (text "ann") ∷ player (text "eve") ∷ player (text "old") ∷ [])
      full
    ≡ err (
        validation (
          record { username = text "ANN"; code = not_found; court_number = none }
          ∷ record { username = text "ann"; code = duplicate; court_number = none }
          ∷ record { username = text "old"; code = expired; court_number = none }
          ∷ record { username = text "eve"; code = in_queue; court_number = some 1 }
          ∷ []))
unfolding courts
rejections = refl
