-- ===== src/Courts/Players.antt =====
-- The players of a kiosk action (src/courts.rs): `resolve_players` and `validate_players`, which
-- collect every failure, and the rows that an action inserts for the players.
use badminton_be_rust.Prelude.{
  ℕ, Bool, true, false, not, ◌&&◌, List, [], ◌∷◌, ◌++◌, Option, none, some, Result, ok, err, ◌>>=◌,
  ◌>>◌, guard, or_fail, ltb, ◌==◌, if◌then◌else◌, Text, text_eq, trim, eq_ignore_ascii_case, any,
  is_empty, map, find_row, select, update, contains,
}
use badminton_be_rust.Courts.Tables.{
  Credential, Session, QueueGroup, Db, PlayerCred, CredCode, not_found, expired, revoked,
  bad_password, on_court, in_queue, duplicate, CredError, ActionError, validation,
}
use badminton_be_rust.Courts.Queries.{is_active, is_playing, credential_usable, lock_credentials}

-- Whether an out-of-date pass is refused.
pub data ResolveMode : Type 0 where
  play leave : ResolveMode

abbrev pub is_play : ResolveMode → Bool
is_play play = true
is_play leave = false

-- `ORDER BY valid_date DESC LIMIT 1`.
abbrev pub newer : Credential → Option Credential → Option Credential
newer c none = some c
newer c (some d) = if ltb c.valid_date d.valid_date then some d else some c

unfoldable pub newest : List Credential → Option Credential
newest [] = none
newest (c ∷ cs) = newer c (newest cs)

abbrev pub has_username : ℕ → Text → Credential → Bool
has_username club_id username c = c.club_id == club_id && text_eq c.username username

-- The newest pass issued to a username.
unfoldable pub pass_of : ℕ → Text → Db → Option Credential
unfolding newest
pass_of club_id username db = newest (select (has_username club_id username) db.credentials)

-- A revoked pass is refused in every mode, an out-of-date one for play only.
unfoldable pub check_validity : ResolveMode → ℕ → Credential → Result CredCode (Unit {0})
unfolding credential_usable
check_validity mode today c =
    if credential_usable c.status c.valid_date today
    then ok tt
    else if not (is_active c.status)
    then err revoked
    else if is_play mode
    then err expired
    else ok tt

-- One player: existence, validity, password.
unfoldable pub check_player : ResolveMode → ℕ → Option Credential → PlayerCred → Result CredCode ℕ
unfolding check_validity
check_player mode today row p = do
  c ← or_fail row not_found
  check_validity mode today c
  guard (text_eq c.password (trim p.password)) bad_password
  ok c.id

pub record Resolution : Type 0 where
  pub errors : List CredError
  pub resolved : List (Text × ℕ)

abbrev pub failed : Text → CredCode → Option ℕ → Resolution → Resolution
failed username code court r = record r {
  errors = record { username = username; code = code; court_number = court } ∷ r.errors;
}

abbrev pub checked : Text → Result CredCode ℕ → Resolution → Resolution
checked username (ok id) r = record r { resolved = (username, id) ∷ r.resolved }
checked username (err code) r = failed username code none r

-- `resolve_players`; `seen` holds the usernames met so far.
unfoldable pub resolve_from : ResolveMode → ℕ → ℕ → Db → List Text → List PlayerCred → Resolution
unfolding check_player pass_of eq_ignore_ascii_case any
resolve_from mode club_id today db seen [] = record { errors = []; resolved = [] }
resolve_from mode club_id today db seen (p ∷ ps) =
    let username = trim p.username in
    let later = resolve_from mode club_id today db seen ps in
    let others = resolve_from mode club_id today db (username ∷ seen) ps in
    if any (eq_ignore_ascii_case username) seen
    then failed username duplicate none later
    else checked username (check_player mode today (pass_of club_id username db) p) others

unfoldable pub resolve_players : Db → ℕ → List PlayerCred → ℕ → ResolveMode → Resolution
unfolding resolve_from
resolve_players db club_id players today mode = resolve_from mode club_id today db [] players

-- The court on whose queue, or on which, a credential has a place.
abbrev pub queued_with : ℕ → QueueGroup → Bool
queued_with id g = contains g.players id

abbrev pub playing_with : ℕ → Session → Bool
playing_with id s = is_playing s.status && contains s.players id

unfoldable pub place_player : Db → Text × ℕ → Resolution → Resolution
unfolding contains find_row
place_player db (username, id) r = elim (find_row (queued_with id) db.queues) [
  | some g ↦ failed username in_queue (some g.court_number) r
  | none ↦ elim (find_row (playing_with id) db.sessions) [
    | some s ↦ failed username on_court (some s.court_number) r
    | none ↦ record r { resolved = (username, id) ∷ r.resolved }
  ]
]

-- Phase 2 of `validate_players`: the double-use check of each resolved credential.
unfoldable pub check_places : Db → List (Text × ℕ) → Resolution
unfolding place_player
check_places db [] = record { errors = []; resolved = [] }
check_places db (player ∷ rest) = place_player db player (check_places db rest)

abbrev pub ids_of : List (Text × ℕ) → List ℕ
ids_of = map λ player. player.1

unfoldable pub validate_players : ℕ → List PlayerCred → ℕ → Db → Result ActionError (List ℕ × Db)
validate_players club_id players today db = do
  let first = resolve_players db club_id players today play
  let locked = lock_credentials (ids_of first.resolved) db
  let second = check_places locked first.resolved
  guard (is_empty (first.errors ++ second.errors)) (validation (first.errors ++ second.errors))
  ok (ids_of second.resolved, locked)

-- `INSERT INTO session_players`; the primary key forbids a second row for one player.
abbrev pub seat_session : List ℕ → Session → Session
seat_session ids s = record s { players = s.players ++ ids }

unfoldable pub insert_session_player : ℕ → ℕ → Db → Result ActionError Db
unfolding any contains update
insert_session_player session_id id db = do
  guard (not (any (λ s. s.id == session_id && contains s.players id) db.sessions)) ActionError.db
  ok (record db {
    sessions = update (λ s. s.id == session_id) (seat_session (id ∷ [])) db.sessions;
  })

unfoldable pub insert_session_players : ℕ → List ℕ → Db → Result ActionError Db
unfolding insert_session_player
insert_session_players session_id [] db = ok db
insert_session_players session_id (id ∷ ids) db =
    insert_session_player session_id id db >>= insert_session_players session_id ids

abbrev pub seat_group : List ℕ → QueueGroup → QueueGroup
seat_group ids g = record g { players = g.players ++ ids }

-- `INSERT INTO queue_players`, likewise.
unfoldable pub insert_queue_player : ℕ → ℕ → Db → Result ActionError Db
unfolding any contains update
insert_queue_player queue_id id db = do
  guard (not (any (λ g. g.id == queue_id && contains g.players id) db.queues)) ActionError.db
  ok (record db { queues = update (λ g. g.id == queue_id) (seat_group (id ∷ [])) db.queues })

unfoldable pub insert_queue_players : ℕ → List ℕ → Db → Result ActionError Db
unfolding insert_queue_player
insert_queue_players queue_id [] db = ok db
insert_queue_players queue_id (id ∷ ids) db =
    insert_queue_player queue_id id db >>= insert_queue_players queue_id ids
