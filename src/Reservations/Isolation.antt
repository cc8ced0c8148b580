-- ===== src/Reservations/Isolation.antt =====
-- Whose reservations the handlers of src/routes/reservations.rs change.
use badminton_be_rust.Prelude.{
  ℕ, ◌+◌, ◌≤◌, ◌≡◌, refl, ap, ◌∙◌, inl, inr, Bool, true, false, not, ◌&&◌, ◌||◌, List, [], ◌∷◌,
  ◌++◌, Option, none, some, Result, ok, err, arith, trim, All, ◌==◌, bit, Text, is_some, find_row,
  select, update, total, tally, total-update_same, some-eq-some, Bool-cases, Option-cases,
  Result-cases,
}
use badminton_be_rust.Errors.{ApiError}
use badminton_be_rust.Groups.{GroupCtx, court_range}
use badminton_be_rust.Reservations.{minutes, Reservation, Db, Clock, has_id, in_group, update_one}
use badminton_be_rust.Reservations.Create.{
  not_empty, between, optional, court_type_of, check_logins, distinct, primary,
}
use badminton_be_rust.Reservations.Edit.{
  EditReservationReq, Step, in_order, if_given, write_if, breaks_index, update_slot, set_court,
  set_court_type, set_player_count, set_duration, set_start, set_queue, set_notes, set_logins,
  resync_expiry, edit_fields,
}

module _ (g : ℕ) where
  -- The group's reservations, and how many of them have an id.
  abbrev pub rows_of : List Reservation → List Reservation
  rows_of = select (in_group g)

  abbrev pub hits : (Reservation → Bool) → List Reservation → ℕ
  hits p = tally (λ r. p r && in_group g r)

  pub select-update :
      (p : Reservation → Bool) (f : Reservation → Reservation) (rows : List Reservation)
      → ((r : Reservation) → (f r).group_id ≡ r.group_id)
      → hits p rows ≡ 0
      → rows_of (update p f rows) ≡ rows_of rows
  unfolding select update total
  select-update p f [] keeps h = refl
  select-update p f (r ∷ rows) keeps h = ground (arith, keeps r, select-update p f rows keeps)

  pub select-update_same :
      (f : Reservation → Reservation) (rows : List Reservation)
      → ((r : Reservation) → (f r).group_id ≡ r.group_id)
      → ((r : Reservation) → in_group g r ≡ true → f r ≡ r)
      → rows_of (update (λ r. true) f rows) ≡ rows_of rows
  unfolding select update
  select-update_same f [] keeps same = refl
  select-update_same f (r ∷ rows) keeps same = elim (Bool-cases (in_group g r)) [
    | inl e ↦ rw (same r e, e) (ap (λ l. r ∷ l) (select-update_same f rows keeps same))
    | inr e ↦ rw (keeps r, e) (select-update_same f rows keeps same)
  ]

  pub select-append :
      (rows : List Reservation) (r : Reservation)
      → in_group g r ≡ false
      → rows_of (rows ++ r ∷ []) ≡ rows_of rows
  unfolding select
  select-append [] r h = rw h refl
  select-append (x ∷ rows) r h = ground (arith, select-append rows r h)

  hits_le : (p : Reservation → Bool) (rows : List Reservation) → hits p rows ≤ tally p rows
  unfolding total
  hits_le p [] = omega arith
  hits_le p (r ∷ rows) = ground (arith, hits_le p rows)

  -- The row that has the id is another group's.
  pub found-hits :
      (id : ℕ) (rows : List Reservation) (r : Reservation)
      → find_row (has_id id) rows ≡ some r
      → in_group g r ≡ false
      → tally (has_id id) rows ≤ 1
      → hits (has_id id) rows ≡ 0
  unfolding find_row total
  found-hits id [] r h other unique = cc
  found-hits id (x ∷ rows) r h other unique = elim (Bool-cases (has_id id x)) [
    | inl e ↦
        let same : x ≡ r = some-eq-some (rw e at h) in
        let elsewhere : in_group g x ≡ false = ap (in_group g) same ∙ other in
        let alone : 1 + tally (has_id id) rows ≤ 1 = rw e at unique in
        rw (e, elsewhere) (omega (arith, hits_le (has_id id) rows, alone))
    | inr e ↦
        rw e (omega (arith, found-hits id rows r (rw e at h) other (omega (arith, rw e at unique))))
  ]

  pub none-hits :
      (p : Reservation → Bool) (rows : List Reservation)
      → ((r : Reservation) → p r && in_group g r ≡ false)
      → hits p rows ≡ 0
  unfolding total
  none-hits p [] h = refl
  none-hits p (r ∷ rows) h = rw (h r) (omega (arith, none-hits p rows h))

  -- A change that leaves alone the group's rows, the number of rows with each id, and the users.
  pub record Spares (id : ℕ) (before after : Db) : Type 0 where
    pub rows : rows_of after.reservations ≡ rows_of before.reservations
    pub still : hits (has_id id) after.reservations ≡ 0
    pub ids : (k : ℕ) → tally (has_id k) after.reservations ≡ tally (has_id k) before.reservations
    pub users : after.tenancy ≡ before.tenancy

  abbrev SparesStep : ℕ → Step → Type 0
  SparesStep id step = (db : Db) → hits (has_id id) db.reservations ≡ 0 → Spares id db (step db).1

  Spares-refl : (id : ℕ) (db : Db) → hits (has_id id) db.reservations ≡ 0 → Spares id db db
  Spares-refl id db h = record { rows = refl; still = h; ids = λ k. refl; users = refl }

  pub update_one-Spares :
      (id : ℕ) (f : Reservation → Reservation) (db : Db)
      → ((r : Reservation) → (f r).group_id ≡ r.group_id)
      → ((r : Reservation) → (f r).id ≡ r.id)
      → hits (has_id id) db.reservations ≡ 0
      → Spares id db (update_one id f db)
  update_one-Spares id f db keeps names h = record {
    rows = select-update (has_id id) f db.reservations keeps h;
    still =
        total-update_same (has_id id) f (λ r. bit (has_id id r && in_group g r)) db.reservations
          (λ r e. rw (names r, keeps r) refl)
        ∙ h;
    ids = λ k.
        total-update_same (has_id id) f (λ r. bit (has_id k r)) db.reservations
          (λ r e. rw (names r) refl);
    users = refl;
  }

  in_order-Spares :
      (id : ℕ) (steps : List Step) → All (SparesStep id) steps → SparesStep id (in_order steps)
  unfolding in_order
  in_order-Spares id [] t db h = Spares-refl id db h
  in_order-Spares id (step ∷ steps) (a, rest) db h = elim (Result-cases (step db).0) [
    | inr (e, stopped) ↦ rw stopped (a db h)
    | inl (u, went_on) ↦
        let one = a db h in
        let two = in_order-Spares id steps rest (step db).1 one.still in
        rw went_on record {
          rows = two.rows ∙ one.rows;
          still = two.still;
          ids = λ k. two.ids k ∙ one.ids k;
          users = two.users ∙ one.users;
        }
  ]

  if_given-Spares {ℓ} :
      {A : Type ℓ} (id : ℕ) (o : Option A) (step : A → Step)
      → ((a : A) → SparesStep id (step a))
      → SparesStep id (if_given o step)
  unfolding if_given
  if_given-Spares id none step h db z = Spares-refl id db z
  if_given-Spares id (some a) step h db z = h a db z

  write_if-Spares :
      (id : ℕ) (check : Result ApiError (Unit {0})) (f : Reservation → Reservation)
      → ((r : Reservation) → (f r).group_id ≡ r.group_id)
      → ((r : Reservation) → (f r).id ≡ r.id)
      → SparesStep id (write_if check (update_one id f))
  unfolding write_if
  write_if-Spares id (ok u) f keeps names db h = update_one-Spares id f db keeps names h
  write_if-Spares id (err e) f keeps names db h = Spares-refl id db h

  update_slot-Spares :
      (id : ℕ) (f : Reservation → Reservation)
      → ((r : Reservation) → (f r).group_id ≡ r.group_id)
      → ((r : Reservation) → (f r).id ≡ r.id)
      → SparesStep id (update_slot id f)
  unfolding update_slot
  update_slot-Spares id f keeps names db h =
      elim (Bool-cases (breaks_index id (update_one id f db))) [
        | inl broken ↦ rw broken (Spares-refl id db h)
        | inr fine ↦ rw fine (update_one-Spares id f db keeps names h)
      ]

  set_court-Spares : (ctx : GroupCtx) (id court : ℕ) → SparesStep id (set_court ctx id court)
  unfolding set_court
  set_court-Spares ctx id court db h = elim (Result-cases (court_range db.tenancy ctx.group_id)) [
    | inr (e, failed) ↦ rw (failed, set_court) (Spares-refl id db h)
    | inl ((cmin, cmax), range) ↦ elim (Bool-cases (between cmin cmax court)) [
      | inl fits ↦
          rw (range, fits, set_court)
            (update_slot-Spares id (λ r. record r { court_number = court }) (λ r. refl) (λ r. refl)
              db h)
      | inr off ↦ rw (range, off, set_court) (Spares-refl id db h)
    ]
  ]

  set_court_type-Spares : (id : ℕ) (t : Text) → SparesStep id (set_court_type id t)
  unfolding set_court_type
  set_court_type-Spares id t db h = elim (Option-cases (court_type_of t)) [
    | inl unknown ↦ rw (unknown, set_court_type) (Spares-refl id db h)
    | inr (court_type, known) ↦
        rw (known, set_court_type)
          (update_one-Spares id (λ r. record r { court_type = court_type }) db (λ r. refl)
            (λ r. refl) h)
  ]

  set_start-Spares : (clock : Clock) (id : ℕ) (raw : Text) → SparesStep id (set_start clock id raw)
  unfolding set_start
  set_start-Spares clock id raw db h = elim (Option-cases (clock.parse_from_rfc3339 raw)) [
    | inl bad ↦ rw (bad, set_start) (Spares-refl id db h)
    | inr (t, good) ↦
        rw (good, set_start)
          (update_one-Spares id (λ r. record r { start_at = t }) db (λ r. refl) (λ r. refl) h)
  ]

  set_queue-Spares : (id : ℕ) (q : Option ℕ) → SparesStep id (set_queue id q)
  unfolding set_queue
  set_queue-Spares id q db h = elim (Bool-cases (optional (between 1 5) q)) [
    | inl fits ↦
        rw fits
          (update_slot-Spares id (λ r. record r { queue_number = q }) (λ r. refl) (λ r. refl) db h)
    | inr off ↦ rw off (Spares-refl id db h)
  ]

  set_logins-Spares :
      (clock : Clock) (user : ℕ) (ctx : GroupCtx) (id : ℕ) (raw : List ℕ)
      → SparesStep id (set_logins clock user ctx id raw)
  unfolding set_logins
  set_logins-Spares clock user ctx id raw db h =
      elim (Result-cases
        (check_logins clock db user ctx.group_id (λ r. not (r.id == id)) (distinct [] raw))) [
          | inr (e, failed) ↦ rw (failed, set_logins) (Spares-refl id db h)
          | inl (logins, found) ↦
              let s =
                update_one-Spares id (λ r. record r { credential_id = primary logins }) db
                  (λ r. refl) (λ r. refl) h in
              rw (found, set_logins)
                record { rows = s.rows; still = s.still; ids = s.ids; users = s.users }
        ]

  resync_expiry-Spares : (id : ℕ) (b : Bool) → SparesStep id (resync_expiry id b)
  unfolding resync_expiry
  resync_expiry-Spares id true db h =
      update_one-Spares id (λ r. record r { expiry_at = r.start_at + minutes r.duration_minutes })
        db (λ r. refl) (λ r. refl) h
  resync_expiry-Spares id false db h = Spares-refl id db h

  set_player_count-Spares : (id : ℕ) (n : ℕ) → SparesStep id (set_player_count id n)
  unfolding set_player_count
  set_player_count-Spares id n =
      write_if-Spares id _ (λ r. record r { player_count = some n }) (λ r. refl) (λ r. refl)

  set_duration-Spares : (id : ℕ) (n : ℕ) → SparesStep id (set_duration id n)
  unfolding set_duration
  set_duration-Spares id n =
      write_if-Spares id _ (λ r. record r { duration_minutes = n }) (λ r. refl) (λ r. refl)

  set_notes-Spares : (id : ℕ) (t : Text) → SparesStep id (set_notes id t)
  unfolding set_notes
  set_notes-Spares id t =
      write_if-Spares id _ (λ r. record r { notes = not_empty (trim t) }) (λ r. refl) (λ r. refl)

  pub edit_fields-Spares :
      (clock : Clock) (user : ℕ) (ctx : GroupCtx) (id : ℕ) (req : EditReservationReq)
      → SparesStep id (in_order (edit_fields clock user ctx id req))
  edit_fields-Spares clock user ctx id req =
      in_order-Spares id (edit_fields clock user ctx id req) (
        if_given-Spares id req.court_number (set_court ctx id) (set_court-Spares ctx id),
        (
          if_given-Spares id req.court_type (set_court_type id) (set_court_type-Spares id),
          (
            if_given-Spares id req.player_count (set_player_count id) (set_player_count-Spares id),
            (
              if_given-Spares id req.duration_minutes (set_duration id) (set_duration-Spares id),
              (
                if_given-Spares id req.start_at (set_start clock id) (set_start-Spares clock id),
                (
                  if_given-Spares id req.queue_number (set_queue id) (set_queue-Spares id),
                  (
                    if_given-Spares id req.notes (set_notes id) (set_notes-Spares id),
                    (
                      if_given-Spares id req.credential_ids (set_logins clock user ctx id)
                          (set_logins-Spares clock user ctx id),
                      (
                        resync_expiry-Spares id
                            (is_some req.duration_minutes || is_some req.start_at),
                        tt,
                      ),
                    ),
                  ),
                ),
              ),
            ),
          ),
        ),
      )
