-- ===== src/Reservations/Edit/Expiry.antt =====
-- The expiry of an edited reservation (`edit` of src/routes/reservations.rs).
use badminton_be_rust.Prelude.{
  ℕ, ◌+◌, ◌≡◌, refl, ap, ◌∙◌, inl, inr, Bool, true, false, not, ◌&&◌, ◌||◌, List, [], ◌∷◌, ◌++◌,
  Option, none, some, Result, ok, err, Text, arith, ◌==◌, All, bit, trim, is_some, total, tally,
  update, total-update_same, Bool-cases, Option-cases, Result-cases,
}
use badminton_be_rust.Errors.{ApiError}
use badminton_be_rust.Groups.{GroupCtx, active_group, court_range}
use badminton_be_rust.Reservations.{
  CourtType, Reservation, Db, Clock, minutes, has_id, update_one, reservation_in_group,
}
use badminton_be_rust.Reservations.Create.{
  not_empty, between, optional, court_type_of, check_logins, distinct, primary,
}
use badminton_be_rust.Reservations.Edit.{
  EditReservationReq, Step, in_order, if_given, write_if, breaks_index, update_slot, set_court,
  set_court_type, set_player_count, set_duration, set_start, set_queue, set_notes, set_logins,
  resync_expiry, fields_before_expiry, edit_fields, edit,
}

abbrev pub is_timed : Reservation → Bool
is_timed r = r.expiry_at == r.start_at + minutes r.duration_minutes

-- Every reservation expires when its duration has passed since its start.
abbrev pub AreTimed : Db → Type 0
AreTimed db = tally (λ r. not (is_timed r)) db.reservations ≡ 0

module _ (id : ℕ) (q : Reservation → Bool) where
  abbrev Without : Db → Type 0
  Without db = tally q db.reservations ≡ 0

  abbrev Keeps : Step → Type 0
  Keeps step = (db : Db) → Without db → Without (step db).1

  -- A write to the edited row that the test does not see.
  abbrev Unseen : (Reservation → Reservation) → Type 0
  Unseen f = (r : Reservation) → has_id id r ≡ true → q (f r) ≡ q r

  update_one-Without :
      (f : Reservation → Reservation)
      → Unseen f
      → (db : Db) → Without db
      → Without (update_one id f db)
  update_one-Without f same db h =
      total-update_same (has_id id) f (λ r. bit (q r)) db.reservations (λ r e. ap bit (same r e))
      ∙ h

  if_given-Keeps {ℓ} :
      {A : Type ℓ} (o : Option A) (step : A → Step)
      → ((a : A) → Keeps (step a))
      → Keeps (if_given o step)
  unfolding if_given
  if_given-Keeps none step h db z = z
  if_given-Keeps (some a) step h db z = h a db z

  write_if-Keeps :
      (check : Result ApiError (Unit {0})) (f : Reservation → Reservation)
      → Unseen f
      → Keeps (write_if check (update_one id f))
  unfolding write_if
  write_if-Keeps (ok u) f same db h = update_one-Without f same db h
  write_if-Keeps (err e) f same db h = h

  update_slot-Keeps : (f : Reservation → Reservation) → Unseen f → Keeps (update_slot id f)
  unfolding update_slot
  update_slot-Keeps f same db h = elim (Bool-cases (breaks_index id (update_one id f db))) [
    | inl broken ↦ rw broken h
    | inr fine ↦ rw fine (update_one-Without f same db h)
  ]

  set_court-Keeps :
      (ctx : GroupCtx) (court : ℕ)
      → Unseen (λ r. record r { court_number = court })
      → Keeps (set_court ctx id court)
  unfolding set_court
  set_court-Keeps ctx court same db h = elim (Result-cases (court_range db.tenancy ctx.group_id)) [
    | inr (e, failed) ↦ rw (failed, set_court) h
    | inl ((cmin, cmax), range) ↦ elim (Bool-cases (between cmin cmax court)) [
      | inl fits ↦
          rw (range, fits, set_court)
            (update_slot-Keeps (λ r. record r { court_number = court }) same db h)
      | inr off ↦ rw (range, off, set_court) h
    ]
  ]

  set_court_type-Keeps :
      (t : Text)
      → ((c : CourtType) → Unseen (λ r. record r { court_type = c }))
      → Keeps (set_court_type id t)
  unfolding set_court_type
  set_court_type-Keeps t same db h = elim (Option-cases (court_type_of t)) [
    | inl unknown ↦ rw (unknown, set_court_type) h
    | inr (c, known) ↦
        rw (known, set_court_type)
          (update_one-Without (λ r. record r { court_type = c }) (same c) db h)
  ]

  set_player_count-Keeps :
      (n : ℕ) → Unseen (λ r. record r { player_count = some n }) → Keeps (set_player_count id n)
  unfolding set_player_count
  set_player_count-Keeps n same = write_if-Keeps _ (λ r. record r { player_count = some n }) same

  set_duration-Keeps :
      (n : ℕ) → Unseen (λ r. record r { duration_minutes = n }) → Keeps (set_duration id n)
  unfolding set_duration
  set_duration-Keeps n same = write_if-Keeps _ (λ r. record r { duration_minutes = n }) same

  set_start-Keeps :
      (clock : Clock) (raw : Text)
      → ((t : ℕ) → Unseen (λ r. record r { start_at = t }))
      → Keeps (set_start clock id raw)
  unfolding set_start
  set_start-Keeps clock raw same db h = elim (Option-cases (clock.parse_from_rfc3339 raw)) [
    | inl bad ↦ rw (bad, set_start) h
    | inr (t, good) ↦
        rw (good, set_start) (update_one-Without (λ r. record r { start_at = t }) (same t) db h)
  ]

  set_queue-Keeps :
      (o : Option ℕ) → Unseen (λ r. record r { queue_number = o }) → Keeps (set_queue id o)
  unfolding set_queue
  set_queue-Keeps o same db h = elim (Bool-cases (optional (between 1 5) o)) [
    | inl fits ↦ rw fits (update_slot-Keeps (λ r. record r { queue_number = o }) same db h)
    | inr off ↦ rw off h
  ]

  set_notes-Keeps :
      (t : Text) → Unseen (λ r. record r { notes = not_empty (trim t) }) → Keeps (set_notes id t)
  unfolding set_notes
  set_notes-Keeps t same = write_if-Keeps _ (λ r. record r { notes = not_empty (trim t) }) same

  set_logins-Keeps :
      (clock : Clock) (user : ℕ) (ctx : GroupCtx) (raw : List ℕ)
      → ((o : Option ℕ) → Unseen (λ r. record r { credential_id = o }))
      → Keeps (set_logins clock user ctx id raw)
  unfolding set_logins
  set_logins-Keeps clock user ctx raw same db h =
      elim (Result-cases
        (check_logins clock db user ctx.group_id (λ r. not (r.id == id)) (distinct [] raw))) [
          | inr (e, failed) ↦ rw (failed, set_logins) h
          | inl (logins, found) ↦
              rw (found, set_logins)
                (update_one-Without (λ r. record r { credential_id = primary logins })
                  (same (primary logins)) db h)
        ]

  -- Steps that keep a property, and a last one that reaches another, if all succeed.
  in_order-last :
      (goal : Reservation → Bool) (steps : List Step) (last : Step) (db : Db)
      → All Keeps steps
      → ((db : Db) → Without db → tally goal (last db).1.reservations ≡ 0)
      → Without db
      → (in_order (steps ++ last ∷ []) db).0 ≡ ok tt
      → tally goal (in_order (steps ++ last ∷ []) db).1.reservations ≡ 0
  unfolding in_order
  in_order-last goal [] last db t reach h done = elim (Result-cases (last db).0) [
    | inl (u, fine) ↦ rw fine (reach db h)
    | inr (e, failed) ↦ absurd (cc (rw failed at done))
  ]
  in_order-last goal (step ∷ steps) last db (a, rest) reach h done =
      elim (Result-cases (step db).0) [
        | inl (u, fine) ↦
            rw fine
              (in_order-last goal steps last (step db).1 rest reach (a db h) (rw fine at done))
        | inr (e, failed) ↦ absurd (cc (rw failed at done))
      ]

  -- The fields that the test does not see, of all but the two that move the expiry.
  record SeesTimeOnly : Type 0 where
    pub court : (n : ℕ) → Unseen (λ r. record r { court_number = n })
    pub kind : (c : CourtType) → Unseen (λ r. record r { court_type = c })
    pub players : (n : ℕ) → Unseen (λ r. record r { player_count = some n })
    pub queue : (o : Option ℕ) → Unseen (λ r. record r { queue_number = o })
    pub notes : (o : Option Text) → Unseen (λ r. record r { notes = o })
    pub login : (o : Option ℕ) → Unseen (λ r. record r { credential_id = o })

  fields-Keeps :
      (clock : Clock) (user : ℕ) (ctx : GroupCtx) (req : EditReservationReq)
      → SeesTimeOnly
      → Keeps (if_given req.duration_minutes (set_duration id))
      → Keeps (if_given req.start_at (set_start clock id))
      → All Keeps (fields_before_expiry clock user ctx id req)
  fields-Keeps clock user ctx req sees lasts starts = (
    if_given-Keeps req.court_number (set_court ctx id) (λ n. set_court-Keeps ctx n (sees.court n)),
    (
      if_given-Keeps req.court_type (set_court_type id) (λ t. set_court_type-Keeps t sees.kind),
      (
        if_given-Keeps req.player_count (set_player_count id)
            (λ n. set_player_count-Keeps n (sees.players n)),
        (
          lasts,
          (
            starts,
            (
              if_given-Keeps req.queue_number (set_queue id)
                  (λ o. set_queue-Keeps o (sees.queue o)),
              (
                if_given-Keeps req.notes (set_notes id)
                    (λ t. set_notes-Keeps t (sees.notes (not_empty (trim t)))),
                (
                  if_given-Keeps req.credential_ids (set_logins clock user ctx id)
                      (λ raw. set_logins-Keeps clock user ctx raw sees.login),
                  tt,
                ),
              ),
            ),
          ),
        ),
      ),
    ),
  )

  if_none-Keeps {ℓ} :
      {A : Type ℓ} (o : Option A) (step : A → Step) → is_some o ≡ false → Keeps (if_given o step)
  unfolding if_given
  if_none-Keeps none step e db h = h
  if_none-Keeps (some a) step e db h = cc

module _ (id : ℕ) where
  -- A row that is not the edited one and is not timed.
  abbrev other_untimed : Reservation → Bool
  other_untimed r = not (has_id id r) && not (is_timed r)

  blind :
      (f : Reservation → Reservation)
      → ((r : Reservation) → (f r).id ≡ r.id)
      → Unseen id other_untimed f
  blind f names r e =
      let same : has_id id (f r) ≡ true = ap (λ n. n == id) (names r) ∙ e in rw (same, e) refl

  resync-AreTimed :
      (rows : List Reservation)
      → tally other_untimed rows ≡ 0
      → tally
          (λ r. not (is_timed r))
          (update
            (has_id id)
            (λ r. record r { expiry_at = r.start_at + minutes r.duration_minutes })
            rows)
        ≡ 0
  unfolding total update
  resync-AreTimed [] h = refl
  resync-AreTimed (r ∷ rows) h = ground (arith, h, resync-AreTimed rows)

  others_untimed :
      (rows : List Reservation)
      → tally (λ r. not (is_timed r)) rows ≡ 0
      → tally other_untimed rows ≡ 0
  unfolding total
  others_untimed [] h = refl
  others_untimed (r ∷ rows) h = ground (arith, h, others_untimed rows)

  edit_fields-AreTimed :
      (clock : Clock) (user : ℕ) (ctx : GroupCtx) (req : EditReservationReq) (db : Db)
      → AreTimed db
      → (in_order (edit_fields clock user ctx id req) db).0 ≡ ok tt
      → AreTimed (in_order (edit_fields clock user ctx id req) db).1
  unfolding resync_expiry
  edit_fields-AreTimed clock user ctx req db timed done =
      let moved = is_some req.duration_minutes || is_some req.start_at in
      let untimed : Reservation → Bool = λ r. not (is_timed r) in
      let steps = fields_before_expiry clock user ctx id req in
      elim (Bool-cases moved) [
        | inl yes_moved ↦
            in_order-last id other_untimed untimed steps (resync_expiry id moved) db
              (fields-Keeps id other_untimed clock user ctx req
                record {
                  court = λ n. blind (λ r. record r { court_number = n }) (λ r. refl);
                  kind = λ c. blind (λ r. record r { court_type = c }) (λ r. refl);
                  players = λ n. blind (λ r. record r { player_count = some n }) (λ r. refl);
                  queue = λ o. blind (λ r. record r { queue_number = o }) (λ r. refl);
                  notes = λ o. blind (λ r. record r { notes = o }) (λ r. refl);
                  login = λ o. blind (λ r. record r { credential_id = o }) (λ r. refl);
                }
                (if_given-Keeps id other_untimed req.duration_minutes (set_duration id) (λ n.
                  set_duration-Keeps id other_untimed n
                    (blind (λ r. record r { duration_minutes = n }) (λ r. refl))))
                (if_given-Keeps id other_untimed req.start_at (set_start clock id) (λ raw.
                  set_start-Keeps id other_untimed clock raw
                    (λ t. blind (λ r. record r { start_at = t }) (λ r. refl)))))
              (λ d h. rw (yes_moved, resync_expiry) (resync-AreTimed d.reservations h))
              (others_untimed db.reservations timed) done
        | inr as_before ↦
            in_order-last id untimed untimed steps (resync_expiry id moved) db
              (fields-Keeps id untimed clock user ctx req
                record {
                  court = λ n r e. refl;
                  kind = λ c r e. refl;
                  players = λ n r e. refl;
                  queue = λ o r e. refl;
                  notes = λ o r e. refl;
                  login = λ o r e. refl;
                }
                (if_none-Keeps id untimed req.duration_minutes (set_duration id)
                  (ground (arith, as_before)))
                (if_none-Keeps id untimed req.start_at (set_start clock id)
                  (ground (arith, as_before))))
              (λ d h. rw (as_before, resync_expiry) h) timed done
      ]

-- If every reservation's expiry is its start and its duration, and `edit` succeeds, this is so
-- afterwards too.
pub edit-AreTimed :
    (clock : Clock) (user id : ℕ) (req : EditReservationReq) (db : Db)
    → AreTimed db
    → (edit clock user id req db).0 ≡ ok tt
    → AreTimed (edit clock user id req db).1
unfolding edit
edit-AreTimed clock user id req db timed done = elim (Result-cases (active_group db.tenancy user)) [
  | inr (e, failed) ↦ rw (failed, edit) timed
  | inl (ctx, mine) ↦ elim (Result-cases (reservation_in_group db id ctx)) [
    | inr (e, failed) ↦ rw (mine, failed, edit) timed
    | inl (r, found) ↦
        rw (mine, found, edit)
          (edit_fields-AreTimed id clock user ctx req db timed (rw (mine, found, edit) at done))
  ]
]
