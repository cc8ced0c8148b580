-- ===== src/Courts/Tables.antt =====
-- The rows of the courts tables (src/courts.rs, migrations/0009_clubs.sql, 0010_clubs_v2.sql) and
-- the errors of the kiosk actions. A UUID is a number, an instant a number of microseconds, a date
-- a number of days. The rows of session_players and queue_players, which belong to one session or
-- queue group and are deleted with it, are that row's list `players`.
use badminton_be_rust.Prelude.{ℕ, Bool, List, Option, Text}

pub data CredentialStatus : Type 0 where
  active revoked : CredentialStatus

pub data CredentialKind : Type 0 where
  walkin member : CredentialKind

pub record Credential : Type 0 where
  pub id : ℕ
  pub club_id : ℕ
  pub username : Text
  pub password : Text
  pub status : CredentialStatus
  pub kind : CredentialKind
  pub member_id : Option ℕ
  pub valid_date : ℕ

pub data MemberStatus : Type 0 where
  active removed : MemberStatus

pub record Member : Type 0 where
  pub id : ℕ
  pub club_id : ℕ
  pub member_ref : Text
  pub username : Text
  pub display_name : Option Text
  pub status : MemberStatus

pub data ClubStatus : Type 0 where
  onboarding live suspended : ClubStatus

pub record ClubRow : Type 0 where
  pub id : ℕ
  pub slug : Text
  pub name : Text
  pub brand_color : Text
  pub court_count : ℕ
  pub session_minutes : ℕ
  pub queue_depth : ℕ
  pub auto_extend : Bool
  pub opens_at : ℕ
  pub closes_at : ℕ
  pub kiosk_theme : Text
  pub status : ClubStatus
  pub timezone : Text
  pub created_at : ℕ

pub record Court : Type 0 where
  pub club_id : ℕ
  pub number : ℕ
  pub closed : Bool
  pub closed_from : Option ℕ
  pub closed_until : Option ℕ

pub data SessionStatus : Type 0 where
  active done : SessionStatus

pub record Session : Type 0 where
  pub id : ℕ
  pub club_id : ℕ
  pub court_number : ℕ
  pub started_at : ℕ
  pub ends_at : ℕ
  pub extensions : ℕ
  pub status : SessionStatus
  pub players : List ℕ

pub record QueueGroup : Type 0 where
  pub id : ℕ
  pub club_id : ℕ
  pub court_number : ℕ
  pub position : ℕ
  pub players : List ℕ

-- An advisory lock of a transaction: on a court, on a username of a club, or on a credential.
pub data Lock : Type 0 where
  clubs_row : ℕ → Lock
  username : ℕ → Text → Lock
  court : ℕ → ℕ → Lock
  credential : ℕ → Lock

-- The tables, with the advisory locks that the running transaction has taken, oldest first.
pub record Db : Type 0 where
  pub clubs : List ClubRow
  pub courts : List Court
  pub members : List Member
  pub credentials : List Credential
  pub sessions : List Session
  pub queues : List QueueGroup
  pub held : List Lock

-- chrono-tz: its zones are numbered, `parse` reads a zone's name, and an instant has a date and a
-- time of day in each zone.
pub record Calendar : Type 0 where
  pub parse : Text → Option ℕ
  pub app_tz : ℕ
  pub date : ℕ → ℕ → ℕ
  pub time_of_day : ℕ → ℕ → ℕ

-- What one transaction reads from outside: the process's clock, the database's `NOW()`, the UUID
-- that `gen_random_uuid()` gives to the row it inserts, and the calendar.
pub record Env : Type 0 where
  pub app_now : ℕ
  pub db_now : ℕ
  pub new_id : ℕ
  pub calendar : Calendar

pub record PlayerCred : Type 0 where
  pub username : Text
  pub password : Text

pub data CredCode : Type 0 where
  not_found expired revoked bad_password on_court in_queue duplicate not_on_court not_in_queue :
      CredCode

pub record CredError : Type 0 where
  pub username : Text
  pub code : CredCode
  pub court_number : Option ℕ

-- The messages of `ActionError::Court`, with the numbers that they show.
pub data CourtMessage : Type 0 where
  join_takes_two two_or_four : CourtMessage
  does_not_exist is_closed finishing_up already_in_play just_taken : ℕ → CourtMessage
  free_to_join no_half_game free_to_queue open_spots no_game_in_play : ℕ → CourtMessage
  queue_full : ℕ → ℕ → CourtMessage
  uneven_court mixed_groups uneven_group : CourtMessage
  games_in_play_above : ℕ → CourtMessage

pub data ActionError : Type 0 where
  validation : List CredError → ActionError
  court : CourtMessage → ActionError
  db : ActionError
  -- An index out of bounds.
  panic : ActionError
