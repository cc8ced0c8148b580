-- ===== src/Reservations.antt =====
-- Court reservations of a group (src/routes/reservations.rs): the tables, the conflict of two
-- slots, and the handlers complete, cancel and unlock_credential. An instant is a number of
-- microseconds; a number of a request is natural, as a negative one fails the tests that zero fails.
pub mod Create
pub mod Edit
pub mod Isolation
pub mod Warnings
pub mod Unlocking
pub mod History
pub mod Resolving
pub mod Board
mod Tests
use badminton_be_rust.Prelude.{
  ℕ, ◌+◌, ◌*◌, Bool, true, false, not, ◌&&◌, ◌||◌, List, [], ◌∷◌, Option, none, some, Result, ok,
  err, guard, or_fail, ◌>>=◌, ◌>>◌, ◌==◌, ltb, leb, if◌then◌else◌, Text, text, text_eq, find_row,
  select, update, delete, any, contains, is_some_and,
}
use badminton_be_rust.Errors.{Message, ApiError, not_found, conflict}
use badminton_be_rust.Groups.{GroupTables, GroupCtx, active_group, require_group_admin}

pub data CourtType : Type 0 where
  full half : CourtType

pub data Status : Type 0 where
  active completed cancelled : Status

pub record Reservation : Type 0 where
  pub id : ℕ
  pub group_id : ℕ
  pub court_number : ℕ
  pub credential_id : Option ℕ
  pub reserved_by : ℕ
  pub court_type : CourtType
  pub player_count : Option ℕ
  pub duration_minutes : ℕ
  pub start_at : ℕ
  pub expiry_at : ℕ
  pub queue_number : Option ℕ
  pub notes : Option Text
  pub status : Status
  pub completed_by : Option ℕ
  pub game_date : ℕ

pub record ReservationCredential : Type 0 where
  pub reservation_id : ℕ
  pub credential_id : ℕ
  pub name_snapshot : Text

pub record CourtCredential : Type 0 where
  pub id : ℕ
  pub posted_by : ℕ
  pub game_date : ℕ
  pub bintang_name : Text

pub record CredentialShare : Type 0 where
  pub credential_id : ℕ
  pub group_id : ℕ

pub record Db : Type 0 where
  pub tenancy : GroupTables
  pub reservations : List Reservation
  pub attached : List ReservationCredential
  pub credentials : List CourtCredential
  pub shares : List CredentialShare

-- The clocks of the process and of the database, the app's date, and the parser of RFC 3339 texts.
pub record Clock : Type 0 where
  pub now : ℕ
  pub db_now : ℕ
  pub today : ℕ
  pub parse_from_rfc3339 : Text → Option ℕ

abbrev pub minutes : ℕ → ℕ
minutes n = n * 60000000

abbrev pub is_active : Status → Bool
is_active active = true
is_active completed = false
is_active cancelled = false

abbrev pub is_half : CourtType → Bool
is_half full = false
is_half half = true

abbrev pub same_queue : Option ℕ → Option ℕ → Bool
same_queue none none = true
same_queue none (some b) = false
same_queue (some a) none = false
same_queue (some a) (some b) = a == b

pub record ActiveSlot : Type 0 where
  pub court : ℕ
  pub queue : Option ℕ
  pub half_court : Bool
  pub start : ℕ
  pub expiry : ℕ

unfoldable pub slots_conflict : ActiveSlot → ActiveSlot → Bool
slots_conflict a b =
    a.court == b.court
    && same_queue a.queue b.queue
    && ltb a.start b.expiry
    && ltb b.start a.expiry
    && not (a.half_court && b.half_court)

-- `status = 'active' AND expiry_at > t`.
abbrev pub is_live : ℕ → Reservation → Bool
is_live t r = is_active r.status && ltb t r.expiry_at

abbrev pub slot_of : Reservation → ActiveSlot
slot_of r = record {
  court = r.court_number;
  queue = r.queue_number;
  half_court = is_half r.court_type;
  start = r.start_at;
  expiry = r.expiry_at;
}

abbrev pub clashes : ℕ → Reservation → Reservation → Bool
clashes now me other = is_live now other && slots_conflict (slot_of me) (slot_of other)

-- The warnings of the rows of `today`: each live row against all others, those before it and those
-- after it.
unfoldable pub duplicate_warnings : ℕ → List Reservation → List Reservation → List Bool
unfolding slots_conflict any
duplicate_warnings now seen [] = []
duplicate_warnings now seen (me ∷ rows) =
    let rest = duplicate_warnings now (me ∷ seen) rows in
    (is_live now me && (any (clashes now me) seen || any (clashes now me) rows)) ∷ rest

abbrev pub has_id : ℕ → Reservation → Bool
has_id id r = r.id == id

abbrev pub in_group : ℕ → Reservation → Bool
in_group group r = r.group_id == group

abbrev pub set_reservations : List Reservation → Db → Db
set_reservations rows db = record db { reservations = rows }

-- `UPDATE court_reservations SET … WHERE id = $1`.
abbrev pub update_one : ℕ → (Reservation → Reservation) → Db → Db
update_one id f db = set_reservations (update (has_id id) f db.reservations) db

unfoldable pub reservation_in_group : Db → ℕ → GroupCtx → Result ApiError Reservation
unfolding find_row
reservation_in_group db id ctx = do
  r ← or_fail (find_row (has_id id) db.reservations) not_found
  guard (r.group_id == ctx.group_id) not_found
  ok r

abbrev pub complete_row : ℕ → Reservation → Reservation
complete_row user r =
    if is_active r.status then record r { status = completed; completed_by = some user } else r

abbrev not_active : ApiError
not_active = conflict (record { format = text "This reservation is no longer active."; shown = [] })

abbrev pub checked : Result ApiError (Unit {0}) → Db → Db → Result ApiError (Unit {0}) × Db
checked (ok u) before after = (ok u, after)
checked (err e) before after = (err e, before)

unfoldable pub complete : ℕ → ℕ → Db → Result ApiError (Unit {0}) × Db
unfolding update reservation_in_group active_group
complete user id db =
    let checks = do
      ctx ← active_group db.tenancy user
      r ← reservation_in_group db id ctx
      guard (is_active r.status) not_active
    in checked checks db (update_one id (complete_row user) db)

-- `WHERE id = $1 AND group_id = $2`, whatever the status.
unfoldable pub cancel : ℕ → ℕ → Db → Result ApiError (Unit {0}) × Db
unfolding update any require_group_admin
cancel user id db = elim (require_group_admin db.tenancy user) [
  | err e ↦ (err e, db)
  | ok ctx ↦
      let matches : Reservation → Bool = λ r. has_id id r && in_group ctx.group_id r in
      if any matches db.reservations
      then (
        ok tt,
        set_reservations (update matches (λ r. record r { status = cancelled }) db.reservations) db,
      )
      else (err not_found, db)
]

-- An active reservation of the group has this id.
abbrev pub is_active_in : ℕ → List Reservation → ℕ → Bool
is_active_in group rows id = any (λ r. has_id id r && is_active r.status && in_group group r) rows

abbrev pub detach_row : ℕ → ℕ → Reservation → Reservation
detach_row credential group r =
    if is_some_and (λ c. c == credential) r.credential_id && is_active r.status && in_group group r
    then record r { credential_id = none }
    else r

unfoldable pub unlock_credential : ℕ → ℕ → Db → Result ApiError (Unit {0}) × Db
unfolding update delete any require_group_admin
unlock_credential user credential db = elim (require_group_admin db.tenancy user) [
  | err e ↦ (err e, db)
  | ok ctx ↦
      let rows = update (λ r. true) (detach_row credential ctx.group_id) db.reservations in
      let attached =
        delete
          (λ a. a.credential_id == credential && is_active_in ctx.group_id rows a.reservation_id)
          db.attached in
      (ok tt, record db { reservations = rows; attached = attached })
]

-- The reservations that lock a login: it is their primary one or attached to them.
abbrev pub uses : Db → ℕ → Reservation → Bool
uses db credential r =
    is_some_and (λ c. c == credential) r.credential_id
    || any (λ a. a.reservation_id == r.id && a.credential_id == credential) db.attached

-- The unique index on (group_id, game_date, court_number, queue_number) of the active rows that
-- have a queue number: another row has the slot.
abbrev pub is_same_slot : Reservation → Reservation → Bool
is_same_slot r other =
    is_active other.status
    && is_active r.status
    && other.group_id == r.group_id
    && other.game_date == r.game_date
    && other.court_number == r.court_number
    && is_some_and (λ q. is_some_and (λ k. k == q) other.queue_number) r.queue_number

unfoldable pub violates : Db → Reservation → Bool
unfolding any
violates db r = any (λ other. not (other.id == r.id) && is_same_slot r other) db.reservations
