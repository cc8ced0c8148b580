-- ===== src/Reservations/Tests.antt =====
-- Requests of src/routes/reservations.rs at two small groups.
use badminton_be_rust.Prelude.{
  In, here, there, ◌↔◌, ◌<◌, ◌++◌, some, map, count, true, ◌≤◌, ◌&&◌, ℕ, ◌≡◌, refl, List, [], ◌∷◌,
  none, some, err, text, arith, any, tally, total,
}
use badminton_be_rust.Groups.{GroupTables, admin, is_member, require_group_admin}
use badminton_be_rust.Reservations.{
  full, active, Reservation, Db, Clock, minutes, is_live, uses, duplicate_warnings, slots_conflict,
  unlock_credential,
}
use badminton_be_rust.Reservations.Create.{CreateReservationReq, create, refused}
use badminton_be_rust.Reservations.Create.Plans.{HasReserved, create-HasReserved}
use badminton_be_rust.Reservations.Create.Logins.{IsExclusive, create-IsExclusive}
use badminton_be_rust.Reservations.Edit.{
  EditReservationReq, edit, set_duration, set_start, resync_expiry,
}
use badminton_be_rust.Reservations.Edit.Expiry.{AreTimed, edit-AreTimed}
use badminton_be_rust.Reservations.Warnings.{IsContested, warning_at, warning_at-IsContested}
use badminton_be_rust.Reservations.Unlocking.{holds, unlock_credential-frees}
use badminton_be_rust.Reservations.History.{
  respond, Request, log, finish, call_off, change, unlock, serve, HasUniqueIds, serve-rows,
}
use badminton_be_rust.Reservations.Isolation.{rows_of}
use badminton_be_rust.Reservations.Board.{PostedLogin, BoardCourt, BoardMatch, build_matches}
use badminton_be_rust.Reservations.Board.Laws.{suggested, ids_of, suggested-build_matches}
use badminton_be_rust.Reservations.Resolving.{my_groups, resolve_group}
use badminton_be_rust.Reservations.Resolving.Laws.{hosts, resolve_group-hosts}

-- Users 7 and 8 are the administrators of the groups 1 and 2.
abbrev people : GroupTables
people = record {
  users =
      record { id = 7; active_group_id = some 1 }
      ∷ record { id = 8; active_group_id = some 2 }
      ∷ [];
  members =
      record { group_id = 1; user_id = 7; role = admin }
      ∷ record { group_id = 2; user_id = 8; role = admin }
      ∷ [];
  groups =
      record { id = 1; court_min = 1; court_max = 10 }
      ∷ record { id = 2; court_min = 1; court_max = 6 }
      ∷ [];
}

abbrev logged : Reservation
logged = record {
  id = 20;
  group_id = 1;
  court_number = 3;
  credential_id = some 5;
  reserved_by = 7;
  court_type = full;
  player_count = none;
  duration_minutes = 45;
  start_at = 0;
  expiry_at = minutes 45;
  queue_number = none;
  notes = none;
  status = active;
  completed_by = none;
  game_date = 100;
}

abbrev db : Db
db = record {
  tenancy = people;
  reservations = logged ∷ [];
  attached = record { reservation_id = 20; credential_id = 5; name_snapshot = text "kiosk" } ∷ [];
  credentials =
      record { id = 5; posted_by = 7; game_date = 100; bintang_name = text "kiosk" }
      ∷ record { id = 6; posted_by = 8; game_date = 100; bintang_name = text "desk" }
      ∷ [];
  shares = [];
}

abbrev at_minute : ℕ → Clock
at_minute n = record {
  now = minutes n;
  db_now = minutes n;
  today = 100;
  parse_from_rfc3339 = λ t. none;
}

-- A whole court from now on, with a login.
abbrev wanted : ℕ → ℕ → CreateReservationReq
wanted court login = record {
  group_id = none;
  court_number = court;
  credential_id = some login;
  credential_ids = none;
  court_type = text "full";
  player_count = some 4;
  duration_minutes = some 30;
  start_type = text "now";
  start_at = none;
  queue_number = none;
  notes = none;
}

abbrev no_change : EditReservationReq
no_change = record {
  court_number = none;
  court_type = none;
  player_count = none;
  duration_minutes = none;
  start_at = none;
  queue_number = none;
  notes = none;
  credential_ids = none;
}

abbrev longer : EditReservationReq
longer = record no_change { duration_minutes = some 60 }

exclusive : IsExclusive (minutes 10) db
unfolding total any
exclusive credential = ground arith

create-IsExclusive_example :
    IsExclusive (minutes 10) (create (λ d. d) (at_minute 10) 21 8 (wanted 2 6) db).1
unfolding total
create-IsExclusive_example =
    create-IsExclusive (at_minute 10) 21 8 (wanted 2 6) db (refl, refl) exclusive

-- What the request of user 8 leaves.
abbrev second : Db
second = (create (λ d. d) (at_minute 10) 21 8 (wanted 2 6) db).1

create-HasReserved_example : HasReserved (at_minute 10) 21 8 (wanted 2 6) db 21 db second
unfolding create
create-HasReserved_example =
    create-HasReserved (at_minute 10) 21 8 (wanted 2 6) db (λ d. d) 21 second refl

edit-AreTimed_example : AreTimed (edit (at_minute 10) 7 20 longer db).1
unfolding edit total set_duration resync_expiry
edit-AreTimed_example = edit-AreTimed (at_minute 10) 7 20 longer db refl refl

unlock_credential-frees_example :
    tally (holds (unlock_credential 7 5 db).1 1 5) (unlock_credential 7 5 db).1.reservations ≡ 0
unfolding require_group_admin
unlock_credential-frees_example =
    unlock_credential-frees 7 5 (record { group_id = 1; role = admin }) db refl

logged_hours : (r : Reservation) → In r ([] ++ logged ∷ logged ∷ []) → r.start_at < r.expiry_at
logged_hours r (here s) = rw s (omega arith)
logged_hours r (there (here s)) = rw s (omega arith)
logged_hours r (there (there m)) = elim m [ ]

warning_at-IsContested_example : (warning_at (minutes 10) [] logged (logged ∷ []) ≡ some true) ↔ (
    (is_live (minutes 10) logged ≡ true)
    × ((other : Reservation) × In other ([] ++ logged ∷ [])
        × (is_live (minutes 10) other ≡ true)
        × IsContested logged other))
warning_at-IsContested_example =
    warning_at-IsContested (minutes 10) [] (logged ∷ []) logged logged_hours

warned_twice : duplicate_warnings (minutes 10) [] (logged ∷ logged ∷ []) ≡ true ∷ true ∷ []
unfolding duplicate_warnings slots_conflict any
warned_twice = refl

-- User 8 tries to finish, cancel and edit the reservation of group 1.
abbrev attempts : List (Clock × ℕ × Request)
attempts =
    (at_minute 10, 8, log 21 (wanted 2 6))
    ∷ (at_minute 11, 8, finish 20)
    ∷ (at_minute 12, 8, call_off 20)
    ∷ (at_minute 13, 8, change 20 longer)
    ∷ (at_minute 14, 8, unlock 5)
    ∷ []

unique : HasUniqueIds db
unfolding total
unique k = ground arith

serve-rows_example : rows_of 1 (serve attempts db).reservations ≡ rows_of 1 db.reservations
unfolding is_member total respond
serve-rows_example =
    serve-rows 1 attempts db unique
      ((refl, refl, (refl, tt, (refl, tt, (refl, tt, (refl, tt, tt))))))

-- At minute 50 the reservation is over and its login is free, so another court can be logged with
-- it; an edit then makes the first one last until minute 120.
abbrev revived : Db
revived =
    let again = (create (λ d. d) (at_minute 50) 22 7 (wanted 4 5) db).1 in
    (edit (at_minute 55) 7 20 (record no_change { duration_minutes = some 120 }) again).1

revived_twice : tally (λ r. is_live (minutes 55) r && uses revived 5 r) revived.reservations ≡ 2
unfolding create edit set_duration resync_expiry total any
revived_twice = refl

-- The start is refused after the duration was written.
half_edited : edit (at_minute 10) 7 20 (record longer { start_at = some (text "soon") }) db ≡ (
  err (refused (text "invalid start time")),
  record db { reservations = record logged { duration_minutes = 60 } ∷ [] },
)
unfolding edit set_duration set_start
half_edited = refl

-- A login that another request takes between the checks and the INSERT.
abbrev raced : Db
raced =
    let other = λ (d : Db). (create (λ d. d) (at_minute 50) 22 7 (wanted 4 5) d).1 in
    (create other (at_minute 50) 23 7 (wanted 5 5) db).1

raced_twice : tally (λ r. is_live (minutes 50) r && uses raced 5 r) raced.reservations ≡ 2
unfolding create total any
raced_twice = refl

resolve_group-hosts_example :
    resolve_group db 7 (5 ∷ 6 ∷ []) ≡ hosts db (my_groups people 7) (5 ∷ 6 ∷ [])
resolve_group-hosts_example = resolve_group-hosts db 7 (5 ∷ 6 ∷ [])

-- Five posted logins that the line of the current players names.
abbrev five : List PostedLogin
five =
    map (λ n. record { id = n; name = text "desk"; in_use_court = none }) (1 ∷ 2 ∷ 3 ∷ 4 ∷ 5 ∷ [])

abbrev panel : BoardCourt
panel = record {
  court_number = 3;
  minutes_left = some 20;
  current_players = text "desk" ∷ [];
  queue = text "desk" ∷ [];
}

abbrev scanned : List BoardMatch
scanned = build_matches (λ t. t) (λ c. true) five (panel ∷ panel ∷ [])

-- One suggestion, with five logins for four players.
five_at_once :
    (map (λ m. m.credential_ids) scanned ≡ (1 ∷ 2 ∷ 3 ∷ 4 ∷ 5 ∷ []) ∷ [])
    × (map (λ m. m.player_count) scanned ≡ 4 ∷ [])
unfolding build_matches
five_at_once = (refl, refl)

suggested-build_matches_example : suggested 3 scanned ≤ count 3 (ids_of five)
suggested-build_matches_example =
    suggested-build_matches (λ t. t) (λ c. true) 3 five (panel ∷ panel ∷ [])
