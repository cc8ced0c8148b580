-- ===== src/Reservations/Edit.antt =====
-- Editing a logged court: `edit` of src/routes/reservations.rs. Each field is a statement of its
-- own, so an error keeps what was written before it.

pub mod Expiry
use badminton_be_rust.Prelude.{
  ℕ, ◌+◌, Bool, true, false, not, List, [], ◌∷◌, ◌++◌, Option, none, some, Result, ok, err, guard,
  or_fail, ◌>>=◌, ◌>>◌, ◌==◌, leb, if◌then◌else◌, Text, text, trim, length, find_row, update,
  delete, is_some, ◌||◌,
}
use badminton_be_rust.Errors.{Message, ApiError, conflict}
use badminton_be_rust.Groups.{GroupCtx, active_group, court_range}
use badminton_be_rust.Reservations.{
  CourtType, Reservation, Db, Clock, minutes, has_id, update_one, reservation_in_group, violates,
}
use badminton_be_rust.Reservations.Create.{
  refused, off_range, between, optional, court_type_of, not_empty, distinct, check_logins, primary,
  attach_all,
}

pub record EditReservationReq : Type 0 where
  pub court_number : Option ℕ
  pub court_type : Option Text
  pub player_count : Option ℕ
  pub duration_minutes : Option ℕ
  pub start_at : Option Text
  pub queue_number : Option (Option ℕ)
  pub notes : Option Text
  pub credential_ids : Option (List ℕ)

-- What a handler writes before it ends, and how it ends.
abbrev pub Step : Type 0
Step = Db → Result ApiError (Unit {0}) × Db

abbrev and_then : Result ApiError (Unit {0}) × Db → Step → Result ApiError (Unit {0}) × Db
and_then (ok u, db) next = next db
and_then (err e, db) next = (err e, db)

-- One step after another, up to the first that fails.
unfoldable pub in_order : List Step → Step
in_order [] db = (ok tt, db)
in_order (step ∷ steps) db = and_then (step db) (in_order steps)

-- A field that the request leaves out is left as it is.
unfoldable pub if_given {ℓ} : {A : Type ℓ} → Option A → (A → Step) → Step
if_given none step db = (ok tt, db)
if_given (some a) step db = step a db

unfoldable pub write_if : Result ApiError (Unit {0}) → (Db → Db) → Step
write_if (ok u) write db = (ok tt, write db)
write_if (err e) write db = (err e, db)

abbrev pub dup : ApiError
dup = conflict (record {
  format = text "That court and queue slot already has an active reservation.";
  shown = [];
})

abbrev pub breaks_index : ℕ → Db → Bool
breaks_index id db = elim (find_row (has_id id) db.reservations) [
  | none ↦ false
  | some r ↦ violates db r
]

-- An UPDATE that the unique index may refuse.
unfoldable pub update_slot : ℕ → (Reservation → Reservation) → Step
unfolding update find_row violates
update_slot id f db =
    let after = update_one id f db in
    if breaks_index id after then (err dup, db) else (ok tt, after)

unfoldable pub set_court : GroupCtx → ℕ → ℕ → Step
unfolding court_range update_slot
set_court ctx id court db = elim (court_range db.tenancy ctx.group_id) [
  | err e ↦ (err e, db)
  | ok (cmin, cmax) ↦
      if between cmin cmax court
      then update_slot id (λ r. record r { court_number = court }) db
      else (err (off_range cmin cmax), db)
]

unfoldable pub set_court_type : ℕ → Text → Step
unfolding court_type_of update
set_court_type id t db = elim (court_type_of t) [
  | none ↦ (err (refused (text "court type must be full or half")), db)
  | some court_type ↦ (ok tt, update_one id (λ r. record r { court_type = court_type }) db)
]

unfoldable pub set_player_count : ℕ → ℕ → Step
unfolding update write_if
set_player_count id n =
    write_if (guard (between 1 8 n) (refused (text "player count must be between 1 and 8")))
      (update_one id (λ r. record r { player_count = some n }))

unfoldable pub set_duration : ℕ → ℕ → Step
unfolding update write_if
set_duration id n =
    write_if (guard (between 1 180 n) (refused (text "duration out of range")))
      (update_one id (λ r. record r { duration_minutes = n }))

unfoldable pub set_start : Clock → ℕ → Text → Step
unfolding update
set_start clock id raw db = elim (clock.parse_from_rfc3339 raw) [
  | none ↦ (err (refused (text "invalid start time")), db)
  | some t ↦ (ok tt, update_one id (λ r. record r { start_at = t }) db)
]

unfoldable pub set_queue : ℕ → Option ℕ → Step
unfolding update_slot
set_queue id q db =
    if optional (between 1 5) q
    then update_slot id (λ r. record r { queue_number = q }) db
    else (err (refused (text "queue number must be between 1 and 5")), db)

unfoldable pub set_notes : ℕ → Text → Step
unfolding write_if update trim
set_notes id notes =
    write_if
      (guard (leb (length (trim notes)) 100)
        (refused (text "notes must be 100 characters or fewer")))
      (update_one id (λ r. record r { notes = not_empty (trim notes) }))

-- The checks read; the three statements after them are one transaction. (No login is attached twice,
-- so the INSERT conflicts with nothing.)
unfoldable pub set_logins : Clock → ℕ → GroupCtx → ℕ → List ℕ → Step
unfolding update delete distinct check_logins attach_all
set_logins clock user ctx id raw db =
    elim (check_logins clock db user ctx.group_id (λ r. not (r.id == id)) (distinct [] raw)) [
      | err e ↦ (err e, db)
      | ok logins ↦
          let kept = delete (λ a. a.reservation_id == id) db.attached in
          (
            ok tt,
            update_one id (λ r. record r { credential_id = primary logins })
                (record db { attached = attach_all id logins kept }),
          )
    ]

-- `expiry_at = start_at + make_interval(mins => duration_minutes)`.
unfoldable pub resync_expiry : ℕ → Bool → Step
unfolding update
resync_expiry id true db = (
  ok tt,
  update_one id (λ r. record r { expiry_at = r.start_at + minutes r.duration_minutes }) db,
)
resync_expiry id false db = (ok tt, db)

abbrev pub fields_before_expiry : Clock → ℕ → GroupCtx → ℕ → EditReservationReq → List Step
fields_before_expiry clock user ctx id req =
    if_given req.court_number (set_court ctx id)
    ∷ if_given req.court_type (set_court_type id)
    ∷ if_given req.player_count (set_player_count id)
    ∷ if_given req.duration_minutes (set_duration id)
    ∷ if_given req.start_at (set_start clock id)
    ∷ if_given req.queue_number (set_queue id)
    ∷ if_given req.notes (set_notes id)
    ∷ if_given req.credential_ids (set_logins clock user ctx id)
    ∷ []

abbrev pub edit_fields : Clock → ℕ → GroupCtx → ℕ → EditReservationReq → List Step
edit_fields clock user ctx id req =
    fields_before_expiry clock user ctx id req
    ++ resync_expiry id (is_some req.duration_minutes || is_some req.start_at) ∷ []

unfoldable pub edit : Clock → ℕ → ℕ → EditReservationReq → Step
unfolding in_order if_given active_group reservation_in_group
edit clock user id req db = elim (active_group db.tenancy user) [
  | err e ↦ (err e, db)
  | ok ctx ↦ elim (reservation_in_group db id ctx) [
    | err e ↦ (err e, db)
    | ok r ↦ in_order (edit_fields clock user ctx id req) db
  ]
]
