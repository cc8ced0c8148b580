-- ===== src/Reservations/Create.antt =====
-- Logging a court: `create` of src/routes/reservations.rs.
pub mod Plans
pub mod Logins
use badminton_be_rust.Prelude.{
  ℕ, ◌+◌, ◌*◌, Bool, true, false, not, ◌&&◌, ◌||◌, List, [], ◌∷◌, ◌++◌, Option, none, some, Result,
  ok, err, guard, or_fail, ◌>>=◌, ◌>>◌, ◌==◌, ltb, leb, if◌then◌else◌, Text, text, text_eq, trim,
  is_empty, length, find_row, any, contains, head?,
}
use badminton_be_rust.Errors.{Message, ApiError, bad_request, forbidden, conflict}
use badminton_be_rust.Groups.{is_member, active_group, court_range}
use badminton_be_rust.Reservations.{
  CourtType, full, half, active, Reservation, ReservationCredential, CourtCredential,
  CredentialShare, Db, Clock, minutes, is_live, uses, violates,
}

pub record CreateReservationReq : Type 0 where
  pub group_id : Option ℕ
  pub court_number : ℕ
  pub credential_id : Option ℕ
  pub credential_ids : Option (List ℕ)
  pub court_type : Text
  pub player_count : Option ℕ
  pub duration_minutes : Option ℕ
  pub start_type : Text
  pub start_at : Option Text
  pub queue_number : Option ℕ
  pub notes : Option Text

abbrev pub refused : Text → ApiError
refused t = bad_request (record { format = t; shown = [] })

abbrev pub off_range : ℕ → ℕ → ApiError
off_range cmin cmax = bad_request (record {
  format = text "Court number must be between {cmin} and {cmax} at your venue.";
  shown = cmin ∷ cmax ∷ [];
})

-- `(low..=high).contains(&n)`.
abbrev pub between : ℕ → ℕ → ℕ → Bool
between low high n = leb low n && leb n high

abbrev pub optional : (ℕ → Bool) → Option ℕ → Bool
optional p none = true
optional p (some n) = p n

unfoldable pub court_type_of : Text → Option CourtType
unfolding text_eq
court_type_of t =
    if text_eq t (text "full")
    then some full
    else if text_eq t (text "half")
    then some half
    else none

abbrev pub or_value : Option ℕ → ℕ → ℕ
or_value none n = n
or_value (some m) n = m

abbrev pub not_empty : Text → Option Text
not_empty t = if is_empty t then none else some t

abbrev pub trimmed : Option Text → Option Text
trimmed none = none
trimmed (some t) = not_empty (trim t)

abbrev pub short_notes : Option Text → Bool
short_notes none = true
short_notes (some n) = leb (length n) 100

abbrev pub later_start : Clock → Option Text → Result ApiError ℕ
later_start clock raw = do
  raw ← or_fail raw (refused (text "start time is required"))
  parsed ← or_fail (clock.parse_from_rfc3339 raw) (refused (text "invalid start time"))
  guard (ltb (clock.now + minutes 1) parsed) (refused (text "Start time must be in the future."))
  guard (leb parsed (clock.now + minutes 180))
      (refused (text "Start time must be within the next 3 hours."))
  ok parsed

unfoldable pub start_of : Clock → Text → Option Text → Result ApiError ℕ
unfolding text_eq
start_of clock start_type raw =
    if text_eq start_type (text "now")
    then ok clock.now
    else if text_eq start_type (text "at_time")
    then later_start clock raw
    else err (refused (text "start type must be now or at_time"))

-- The first occurrence of each id that was not seen yet.
unfoldable pub distinct : List ℕ → List ℕ → List ℕ
unfolding contains
distinct seen [] = []
distinct seen (id ∷ ids) =
    let later = distinct (id ∷ seen) ids in
    let rest = distinct seen ids in if contains seen id then rest else id ∷ later

abbrev pub singleton : Option ℕ → List ℕ
singleton none = []
singleton (some id) = id ∷ []

-- `credential_ids` where it is not empty, and `credential_id` otherwise.
abbrev pub requested_ids : Option (List ℕ) → Option ℕ → List ℕ
requested_ids none one = singleton one
requested_ids (some []) one = singleton one
requested_ids (some (id ∷ ids)) one = distinct [] (id ∷ ids)

-- Posted by the caller, or shared with the group.
abbrev pub is_visible : Db → ℕ → ℕ → CourtCredential → Bool
is_visible db user group c =
    c.posted_by == user || any (λ s. s.credential_id == c.id && s.group_id == group) db.shares

abbrev pub in_use : ℕ → ApiError
in_use court =
    conflict
      (record { format = text "{name}'s login is in use — Court {court}."; shown = court ∷ [] })

abbrev pub free : Option Reservation → Result ApiError (Unit {0})
free none = ok tt
free (some r) = err (in_use r.court_number)

-- One login, that must be visible, today's, and on no live reservation but those excepted.
unfoldable pub check_login :
    Clock → Db → ℕ → ℕ → (Reservation → Bool) → ℕ → Result ApiError (ℕ × Text)
unfolding find_row any
check_login clock db user group counts id = do
  c ←
      or_fail (find_row (λ c. c.id == id && is_visible db user group c) db.credentials)
        (refused (text "credential not found"))
  guard (c.game_date == clock.today) (refused (text "that credential is not for today"))
  free (find_row (λ r. is_live clock.db_now r && counts r && uses db id r) db.reservations)
  ok (id, c.bintang_name)

unfoldable pub check_logins :
    Clock → Db → ℕ → ℕ → (Reservation → Bool) → List ℕ → Result ApiError (List (ℕ × Text))
unfolding check_login
check_logins clock db user group counts [] = ok []
check_logins clock db user group counts (id ∷ ids) = do
  login ← check_login clock db user group counts id
  logins ← check_logins clock db user group counts ids
  ok (login ∷ logins)

abbrev pub primary : List (ℕ × Text) → Option ℕ
primary [] = none
primary (login ∷ logins) = some login.0

abbrev pub target_group : Db → ℕ → Option ℕ → Result ApiError ℕ
target_group db user none = do ctx ← active_group db.tenancy user; ok ctx.group_id
target_group db user (some g) = do guard (is_member db.tenancy g user) forbidden; ok g

-- All that `create` does before it writes: the row to insert, and the logins to attach to it.
unfoldable pub plan :
    Clock → ℕ → ℕ → CreateReservationReq → Db → Result ApiError (Reservation × List (ℕ × Text))
unfolding active_group is_member court_range start_of court_type_of check_logins distinct trim
plan clock id user req db = do
  gid ← target_group db user req.group_id
  (cmin, cmax) ← court_range db.tenancy gid
  guard (between cmin cmax req.court_number) (off_range cmin cmax)
  court_type ←
      or_fail (court_type_of req.court_type) (refused (text "court type must be full or half"))
  let duration = or_value req.duration_minutes 45
  guard (between 1 45 duration) (refused (text "Duration must be between 1 and 45 minutes."))
  guard (optional (between 1 8) req.player_count)
      (refused (text "player count must be between 1 and 8"))
  guard (optional (between 1 5) req.queue_number)
      (refused (text "queue number must be between 1 and 5"))
  let notes = trimmed req.notes
  guard (short_notes notes) (refused (text "notes must be 100 characters or fewer"))
  start_at ← start_of clock req.start_type req.start_at
  attached ←
      check_logins clock db user gid (λ r. true)
        (requested_ids req.credential_ids req.credential_id)
  ok (
    record {
      id = id;
      group_id = gid;
      court_number = req.court_number;
      credential_id = primary attached;
      reserved_by = user;
      court_type = court_type;
      player_count = req.player_count;
      duration_minutes = duration;
      start_at = start_at;
      expiry_at = start_at + minutes duration;
      queue_number = req.queue_number;
      notes = notes;
      status = active;
      completed_by = none;
      game_date = clock.today;
    },
    attached,
  )

-- `INSERT INTO reservation_credentials … ON CONFLICT DO NOTHING`.
abbrev pub attach : ℕ → ℕ × Text → List ReservationCredential → List ReservationCredential
attach reservation (id, name) rows =
    if any (λ a. a.reservation_id == reservation && a.credential_id == id) rows
    then rows
    else rows
      ++ record { reservation_id = reservation; credential_id = id; name_snapshot = name } ∷ []

unfoldable pub attach_all :
    ℕ → List (ℕ × Text) → List ReservationCredential → List ReservationCredential
unfolding any
attach_all reservation [] rows = rows
attach_all reservation (login ∷ logins) rows =
    attach_all reservation logins (attach reservation login rows)

abbrev pub slot_taken : ℕ → ApiError
slot_taken court = conflict (record {
  format = text "Court {} already has an active reservation for that queue slot.";
  shown = court ∷ [];
})

unfoldable pub insert_reservation : Reservation → List (ℕ × Text) → Db → Result ApiError ℕ × Db
unfolding violates attach_all
insert_reservation r logins db = if violates db r then (err (slot_taken r.court_number), db) else (
  ok r.id,
  record db {
    reservations = db.reservations ++ r ∷ [];
    attached = attach_all r.id logins db.attached;
  },
)

-- `id` is the id that the database gives to the row. The checks and the INSERT are not one
-- transaction: `meanwhile` is what others commit between them.
unfoldable pub create :
    (Db → Db) → Clock → ℕ → ℕ → CreateReservationReq → Db → Result ApiError ℕ × Db
unfolding plan insert_reservation
create meanwhile clock id user req db = elim (plan clock id user req db) [
  | err e ↦ (err e, db)
  | ok (r, logins) ↦ insert_reservation r logins (meanwhile db)
]
