-- ===== src/Courts/Queries.antt =====
-- The statements of src/courts.rs on the courts tables: clubs and their clocks, the validity of a
-- day pass, locks, the state of a court, and the rows of sessions and queues.
use badminton_be_rust.Prelude.{
  ℕ, ◌*◌, Bool, true, false, ◌&&◌, ◌||◌, List, [], ◌∷◌, ◌++◌, Option, none, some, Result, ok, ◌>>=◌,
  guard, or_fail, ltb, leb, ◌==◌, if◌then◌else◌, Text, trim, find_row, length, contains, is_some,
  is_some_and, map, to_ascii_lowercase,
}
use badminton_be_rust.Courts.Tables.{
  CredentialStatus, ClubRow, Court, Session, SessionStatus, QueueGroup, Lock, Db, Calendar, Env,
  CourtMessage, two_or_four, join_takes_two, does_not_exist, ActionError,
}

abbrev pub is_active : CredentialStatus → Bool
is_active CredentialStatus.active = true
is_active CredentialStatus.revoked = false

abbrev pub is_playing : SessionStatus → Bool
is_playing SessionStatus.active = true
is_playing SessionStatus.done = false

-- A day pass may be used if it is active and issued for today.
unfoldable pub credential_usable : CredentialStatus → ℕ → ℕ → Bool
credential_usable status valid_date today = is_active status && valid_date == today

-- `parse_timezone`, and `ClubRow::tz` with its default.
unfoldable pub parse_timezone : Calendar → Text → Option ℕ
parse_timezone cal s = cal.parse (trim s)

unfoldable pub club_tz : Calendar → Text → ℕ
unfolding parse_timezone
club_tz cal timezone = elim (parse_timezone cal timezone) [ none ↦ cal.app_tz | some tz ↦ tz ]

unfoldable pub club_today : Env → Text → ℕ
unfolding club_tz
club_today env timezone = env.calendar.date (club_tz env.calendar timezone) env.app_now

unfoldable pub open_now : Env → ClubRow → Bool
unfolding club_tz
open_now env club =
    let now = env.calendar.time_of_day (club_tz env.calendar club.timezone) env.app_now in
    leb club.opens_at now && ltb now club.closes_at

-- `make_interval(mins => m)`.
abbrev pub minutes : ℕ → ℕ
minutes m = m * 60000000

abbrev pub lock : Lock → Db → Db
lock l db = record db { held = db.held ++ l ∷ [] }

unfoldable pub lock_court : ℕ → ℕ → Db → Db
lock_court club_id court_number = lock (Lock.court club_id court_number)

-- The database's `lower` is ASCII's on the usernames that the kiosk allows.
unfoldable pub lock_username : ℕ → Text → Db → Db
lock_username club_id username = lock (Lock.username club_id (map to_ascii_lowercase username))

abbrev pub insert_sorted : ℕ → List ℕ → List ℕ
insert_sorted a [] = a ∷ []
insert_sorted a (x ∷ xs) = if leb a x then a ∷ x ∷ xs else x ∷ insert_sorted a xs

abbrev pub sort : List ℕ → List ℕ
sort [] = []
sort (x ∷ xs) = insert_sorted x (sort xs)

abbrev pub lock_each : List ℕ → Db → Db
lock_each [] db = db
lock_each (id ∷ ids) db = lock_each ids (lock (Lock.credential id) db)

-- The credentials' locks, in the order of their ids.
unfoldable pub lock_credentials : List ℕ → Db → Db
lock_credentials ids db = lock_each (sort ids) db

-- COURT_CLOSED_SQL: the manual switch, or a closure window that has begun and not ended. A window
-- with a NULL end is no window.
abbrev pub in_window : ℕ → Option ℕ → Option ℕ → Bool
in_window now (some from) (some until) = leb from now && ltb now until
in_window now (some from) none = false
in_window now none until = false

unfoldable pub court_closed : ℕ → Court → Bool
court_closed now c = c.closed || in_window now c.closed_from c.closed_until

abbrev pub is_court : ℕ → ℕ → Court → Bool
is_court club_id number c = c.club_id == club_id && c.number == number

abbrev pub plays_on : ℕ → ℕ → Session → Bool
plays_on club_id number s = is_playing s.status && s.club_id == club_id && s.court_number == number

abbrev pub waits_for : ℕ → ℕ → QueueGroup → Bool
waits_for club_id number g = g.club_id == club_id && g.court_number == number

pub record CourtState : Type 0 where
  pub closed : Bool
  pub session_id : Option ℕ
  pub player_count : ℕ
  pub ends_at : Option ℕ

-- The timer of the active session is at zero, and the engine has not resolved it yet.
unfoldable pub expired_unresolved : Env → CourtState → Bool
expired_unresolved env state =
    is_some state.session_id && is_some_and (λ e. leb e env.app_now) state.ends_at

abbrev pub state_of : Bool → Option Session → CourtState
state_of closed none = record {
  closed = closed;
  session_id = none;
  player_count = 0;
  ends_at = none;
}
state_of closed (some s) = record {
  closed = closed;
  session_id = some s.id;
  player_count = length s.players;
  ends_at = some s.ends_at;
}

unfoldable pub court_state : Env → ℕ → ℕ → Db → Result ActionError CourtState
unfolding court_closed
court_state env club_id number db = do
  c ←
      or_fail (find_row (is_court club_id number) db.courts)
        (ActionError.court (does_not_exist number))
  ok (state_of (court_closed env.db_now c) (find_row (plays_on club_id number) db.sessions))

-- `SELECT COURT_CLOSED_SQL … unwrap_or(default)`.
unfoldable pub closed_or : Bool → Env → ℕ → ℕ → Db → Bool
unfolding court_closed
closed_or default env club_id number db = elim (find_row (is_court club_id number) db.courts) [
  | none ↦ default
  | some c ↦ court_closed env.db_now c
]

abbrev pub size_refusal : List ℕ → CourtMessage
size_refusal (k ∷ []) = if k == 2 then join_takes_two else two_or_four
size_refusal [] = two_or_four
size_refusal (k ∷ m ∷ ks) = two_or_four

unfoldable pub check_group_size : ℕ → List ℕ → Result ActionError (Unit {0})
unfolding contains
check_group_size n allowed = guard (contains allowed n) (ActionError.court (size_refusal allowed))
