-- ===== src/Courts/Promotion.antt =====
-- The queue of a court (src/courts.rs): `remove_queue_group` and `promote_next`.
use badminton_be_rust.Prelude.{
  ℕ, zero, suc, ◌+◌, Bool, true, false, ◌&&◌, List, [], ◌∷◌, ◌++◌, Option, none, some, ltb, ◌==◌,
  if◌then◌else◌, find_row, update, delete, tally, all,
}
use badminton_be_rust.Courts.Tables.{Credential, Session, SessionStatus, QueueGroup, Db, Env}
use badminton_be_rust.Courts.Queries.{waits_for, credential_usable, lock_credentials}
use badminton_be_rust.Courts.Players.{seat_session}
use badminton_be_rust.Courts.Actions.{insert_session, queue_len}

-- The two UPDATEs of `remove_queue_group` negate the positions of the court's queue and then number
-- its rows by descending negated position: a row's new position is one more than the number of rows
-- that stood before it.
abbrev pub stands_before : ℕ → ℕ → ℕ → QueueGroup → Bool
stands_before club_id number position g = waits_for club_id number g && ltb g.position position

unfoldable pub renumber : ℕ → ℕ → List QueueGroup → List QueueGroup
renumber club_id number gs =
    update (waits_for club_id number)
      (λ g. record g { position = tally (stands_before club_id number g.position) gs + 1 }) gs

unfoldable pub remove_queue_group : ℕ → ℕ → ℕ → Db → Db
remove_queue_group club_id number queue_id db = record db {
  queues = renumber club_id number (delete (λ g. g.id == queue_id) db.queues);
}

-- `ORDER BY position LIMIT 1`.
abbrev pub earlier : QueueGroup → Option QueueGroup → Option QueueGroup
earlier g none = some g
earlier g (some h) = if ltb h.position g.position then some h else some g

unfoldable pub queue_head : ℕ → ℕ → List QueueGroup → Option QueueGroup
queue_head club_id number [] = none
queue_head club_id number (g ∷ gs) =
    let rest = queue_head club_id number gs in
    if waits_for club_id number g then earlier g rest else rest

-- `members.iter().any(!credential_usable)`, negated, over the players that join a credential.
abbrev pub usable_on : ℕ → Option Credential → Bool
usable_on today none = true
usable_on today (some c) = credential_usable c.status c.valid_date today

unfoldable pub all_usable : ℕ → List ℕ → Db → Bool
all_usable today ids db =
    all (λ id. usable_on today (find_row (λ (c : Credential). c.id == id) db.credentials)) ids

-- The walk over the queue: drops groups up to the first one that may play. `none` is out of fuel.
pub record Walk : Type 0 where
  pub dropped : ℕ
  pub head : Option QueueGroup
  pub db : Db

abbrev pub one_more : Option Walk → Option Walk
one_more none = none
one_more (some w) = some (record w { dropped = w.dropped + 1 })

unfoldable pub walk_queue : ℕ → ℕ → ℕ → ℕ → Db → Option Walk
walk_queue zero club_id number today db = none
walk_queue (suc fuel) club_id number today db = elim (queue_head club_id number db.queues) [
  | none ↦ some (record { dropped = 0; head = none; db = db })
  | some g ↦ elim (all_usable today g.players db) [
    | true ↦ some (record { dropped = 0; head = some g; db = db })
    | false ↦
        one_more (walk_queue fuel club_id number today (remove_queue_group club_id number g.id db))
  ]
]

pub data Promotion : Type 0 where
  promoted : ℕ → Promotion
  not_promoted raced : Promotion

abbrev pub end_session : ℕ → List Session → List Session
end_session session_id =
    update (λ s. s.id == session_id) (λ s. record s { status = SessionStatus.done })

-- The group on its new session and out of the queue; `none` is a lost race.
abbrev pub taken_over : Env → ℕ → ℕ → QueueGroup → ℕ → Db → Option Db → Promotion × Db
taken_over env club_id number g dropped ended none = (raced, ended)
taken_over env club_id number g dropped ended (some started) = (
  promoted dropped,
  remove_queue_group club_id number g.id (record started {
    sessions = update (λ s. s.id == env.new_id) (seat_session g.players) started.sessions;
  }),
)

-- The move of a group onto the court, behind the walk.
unfoldable pub start_group : Env → ℕ → ℕ → ℕ → ℕ → List ℕ → QueueGroup → ℕ → Db → Promotion × Db
start_group env club_id number session_minutes old_session_id also_lock g dropped db =
    let locked = lock_credentials (g.players ++ also_lock) db in
    let ended = record locked { sessions = end_session old_session_id locked.sessions } in
    taken_over env club_id number g dropped ended
      (insert_session env club_id number session_minutes ended)

-- What follows the walk. A closed court takes no new group.
abbrev pub promote_head :
    Env → ℕ → ℕ → ℕ → Bool → ℕ → List ℕ → ℕ → Db → Option QueueGroup → Promotion × Db
promote_head env club_id number session_minutes closed old_session_id also_lock dropped db none =
    (not_promoted, db)
promote_head env club_id number session_minutes closed old_session_id also_lock dropped db
      (some g) =
    if closed
    then (not_promoted, db)
    else start_group env club_id number session_minutes old_session_id also_lock g dropped db

-- `none` is out of fuel.
unfoldable pub promote_next : Env → ℕ → ℕ → ℕ → Bool → ℕ → ℕ → List ℕ → Db → Option (Promotion × Db)
promote_next env club_id number session_minutes closed today old_session_id also_lock db =
    elim (walk_queue (suc (queue_len club_id number db)) club_id number today db) [
      | none ↦ none
      | some w ↦ some (
          promote_head env club_id number session_minutes closed old_session_id also_lock w.dropped
            w.db w.head)
    ]
