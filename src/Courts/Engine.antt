-- ===== src/Courts/Engine.antt =====
-- The expiry engine (src/courts.rs): `expire_court` and `engine_tick`.
use badminton_be_rust.Prelude.{
  ℕ, ◌+◌, Bool, true, not, ◌&&◌, List, [], ◌∷◌, ◌++◌, Option, none, some, Result, ok, err, ◌>>=◌,
  or_fail, leb, ◌==◌, if◌then◌else◌, find_row, select, update, contains, map,
}
use badminton_be_rust.Courts.Tables.{ClubRow, Session, Db, Env, ActionError}
use badminton_be_rust.Courts.Queries.{
  is_playing, club_today, minutes, lock_court, plays_on, closed_or,
}
use badminton_be_rust.Courts.Actions.{begin}
use badminton_be_rust.Courts.Promotion.{
  all_usable, Promotion, not_promoted, raced, end_session, promote_next,
}

pub data EngineOutcome : Type 0 where
  promoted : ℕ → EngineOutcome
  extended cleared : EngineOutcome

abbrev pub is_over : Env → ℕ → ℕ → Session → Bool
is_over env club_id number s = plays_on club_id number s && leb s.ends_at env.db_now

-- `SELECT session_minutes, auto_extend, timezone FROM clubs`; a missing club is an error.
unfoldable pub club_engine_row : ℕ → Db → Result ActionError ClubRow
club_engine_row club_id db =
    or_fail (find_row (λ (c : ClubRow). c.id == club_id) db.clubs) ActionError.db

abbrev pub extend_session : ℕ → ℕ → List Session → List Session
extend_session session_id session_minutes =
    update (λ s. s.id == session_id)
      λ s. record s { ends_at = s.ends_at + minutes session_minutes; extensions = s.extensions + 1 }

-- What becomes of the court behind the promotion. `none` is a lost race, which changes nothing.
unfoldable pub settle :
    ClubRow → Bool → ℕ → Session → Db → Promotion × Db → Option EngineOutcome × Db
settle club closed today s before (Promotion.promoted dropped, db) =
    (some (EngineOutcome.promoted dropped), db)
settle club closed today s before (raced, db) = (none, before)
settle club closed today s before (not_promoted, db) =
    if club.auto_extend && not closed && all_usable today s.players db
    then (
      some extended,
      record db { sessions = extend_session s.id club.session_minutes db.sessions },
    )
    else (some cleared, record db { sessions = end_session s.id db.sessions })

unfoldable pub expire_session :
    Env → ℕ → ℕ → Session → Db → Db → Result ActionError (Option EngineOutcome × Db)
expire_session env club_id number s before db = do
  club ← club_engine_row club_id db
  let today = club_today env club.timezone
  let closed = closed_or true env club_id number db
  outcome ←
      or_fail (promote_next env club_id number club.session_minutes closed today s.id [] db)
        ActionError.db
  ok (settle club closed today s before outcome)

unfoldable pub expire_court : Env → ℕ → ℕ → Db → Result ActionError (Option EngineOutcome × Db)
expire_court env club_id number db =
    let tx = lock_court club_id number (begin db) in
    elim (find_row (is_over env club_id number) tx.sessions) [
      | none ↦ ok (none, db)
      | some s ↦ expire_session env club_id number s db tx
    ]

-- The candidates of one pass, seen before any of them is resolved.
unfoldable pub expired_courts : Env → Db → List (ℕ × ℕ)
expired_courts env db =
    map (λ (s : Session). (s.club_id, s.court_number))
      (select (λ s. is_playing s.status && leb s.ends_at env.db_now) db.sessions)

abbrev pub note_changed : ℕ → Option EngineOutcome → List ℕ → List ℕ
note_changed club_id none changed = changed
note_changed club_id (some outcome) changed =
    if contains changed club_id then changed else changed ++ club_id ∷ []

-- Each candidate in a transaction of its own, the k-th with the readings `envs k`; an error stops
-- the pass and keeps what was committed. Gives the clubs whose boards changed.
unfoldable pub resolve_each :
    (ℕ → Env) → ℕ → List (ℕ × ℕ) → List ℕ → Db → Result ActionError (List ℕ) × Db
resolve_each envs k [] changed db = (ok changed, db)
resolve_each envs k ((club_id, number) ∷ cs) changed db =
    elim (expire_court (envs k) club_id number db) [
      | err e ↦ (err e, db)
      | ok (outcome, db') ↦ resolve_each envs (k + 1) cs (note_changed club_id outcome changed) db'
    ]

unfoldable pub engine_tick : Env → (ℕ → Env) → Db → Result ActionError (List ℕ) × Db
engine_tick env envs db = resolve_each envs 0 (expired_courts env db) [] db
