-- ===== src/Reservations/Create/Plans.antt =====
-- What `create` of src/routes/reservations.rs decides to insert.
use badminton_be_rust.Prelude.{
  ℕ, ◌+◌, ◌≤◌, ◌≡◌, refl, sym, ap, subst, ◌∷◌, [], ◌++◌, Result-cases, true, false, List, none,
  some, ok, Text, text, text_eq, arith, ltb, leb, inl, inr, Bool-cases, ok-eq-ok, >>=-eq-ok,
  guard_then-eq-ok, or_fail_then-eq-ok,
}
use badminton_be_rust.Groups.{court_range}
use badminton_be_rust.Reservations.{active, Reservation, Db, Clock, minutes, violates}
use badminton_be_rust.Reservations.Create.{
  CreateReservationReq, between, optional, or_value, trimmed, short_notes, court_type_of,
  target_group, start_of, later_start, requested_ids, check_logins, primary, plan, attach_all,
  insert_reservation, create,
}

-- The tables after the INSERTs.
abbrev pub inserted : Reservation → List (ℕ × Text) → Db → Db
inserted r logins db = record db {
  reservations = db.reservations ++ r ∷ [];
  attached = attach_all r.id logins db.attached;
}

module _ (clock : Clock) (id user : ℕ) (req : CreateReservationReq) (db : Db) where
  pub record IsPlanned (r : Reservation) (logins : List (ℕ × Text)) : Type 0 where
    pub named : r.id ≡ id
    pub by_user : r.reserved_by ≡ user
    pub is_new : r.status ≡ active
    pub group : target_group db user req.group_id ≡ ok r.group_id
    pub cmin : ℕ
    pub cmax : ℕ
    pub range : court_range db.tenancy r.group_id ≡ ok (cmin, cmax)
    pub on_court : between cmin cmax r.court_number ≡ true
    pub lasts : between 1 45 r.duration_minutes ≡ true
    pub expires : r.expiry_at ≡ r.start_at + minutes r.duration_minutes
    pub starts : start_of clock req.start_type req.start_at ≡ ok r.start_at
    pub queued : optional (between 1 5) r.queue_number ≡ true
    pub players : optional (between 1 8) r.player_count ≡ true
    pub noted : short_notes r.notes ≡ true
    pub court : r.court_number ≡ req.court_number
    pub kind : court_type_of req.court_type ≡ some r.court_type
    pub duration : r.duration_minutes ≡ or_value req.duration_minutes 45
    pub queue : r.queue_number ≡ req.queue_number
    pub player_count : r.player_count ≡ req.player_count
    pub notes : r.notes ≡ trimmed req.notes
    pub nobody : r.completed_by ≡ none
    pub today : r.game_date ≡ clock.today
    pub first : r.credential_id ≡ primary logins
    pub checked :
        check_logins clock db user r.group_id
          (λ r. true)
          (requested_ids req.credential_ids req.credential_id)
        ≡ ok logins

  pub plan-IsPlanned :
      (r : Reservation) (logins : List (ℕ × Text))
      → plan clock id user req db ≡ ok (r, logins)
      → IsPlanned r logins
  unfolding plan
  plan-IsPlanned r logins h₀ =
      let (gid, group, h₁) = >>=-eq-ok (target_group db user req.group_id) _ h₀ in
      let (range, found, h₂) = >>=-eq-ok (court_range db.tenancy gid) _ h₁ in
      let (on_court, h₃) = guard_then-eq-ok (between range.0 range.1 req.court_number) _ _ h₂ in
      let (kind, known, h₄) = or_fail_then-eq-ok (court_type_of req.court_type) _ _ h₃ in
      let (lasts, h₅) = guard_then-eq-ok (between 1 45 (or_value req.duration_minutes 45)) _ _ h₄ in
      let (players, h₆) = guard_then-eq-ok (optional (between 1 8) req.player_count) _ _ h₅ in
      let (queued, h₇) = guard_then-eq-ok (optional (between 1 5) req.queue_number) _ _ h₆ in
      let (noted, h₈) = guard_then-eq-ok (short_notes (trimmed req.notes)) _ _ h₇ in
      let (start, starts, h₉) = >>=-eq-ok (start_of clock req.start_type req.start_at) _ h₈ in
      let (attached, checked, done) =
        >>=-eq-ok
          (check_logins clock db user gid (λ r. true)
            (requested_ids req.credential_ids req.credential_id))
          _ h₉ in
      subst (λ p. IsPlanned p.0 p.1) (ok-eq-ok done)
        record {
          named = refl;
          by_user = refl;
          is_new = refl;
          group = group;
          cmin = range.0;
          cmax = range.1;
          range = found;
          on_court = on_court;
          lasts = lasts;
          expires = refl;
          starts = starts;
          queued = queued;
          players = players;
          noted = noted;
          court = refl;
          kind = known;
          duration = refl;
          queue = refl;
          player_count = refl;
          notes = refl;
          nobody = refl;
          today = refl;
          first = refl;
          checked = checked;
        }

  -- A reservation of the request was logged: its row is among the rows, and its logins are attached.
  pub record HasReserved (key : ℕ) (before after : Db) : Type 0 where
    pub row : Reservation
    pub logins : List (ℕ × Text)
    pub planned : IsPlanned row logins
    pub key_of_row : key ≡ row.id
    pub slot_free : violates before row ≡ false
    pub starts_after : clock.now ≤ row.start_at
    pub starts_before : row.start_at ≤ clock.now + minutes 180
    pub rows : after ≡ inserted row logins before

  later_start-bounds :
      (t : ℕ)
      → later_start clock req.start_at ≡ ok t
      → (clock.now ≤ t) × (t ≤ clock.now + minutes 180)
  later_start-bounds t h₀ =
      let (raw, given, h₁) = or_fail_then-eq-ok req.start_at _ _ h₀ in
      let (parsed, read, h₂) = or_fail_then-eq-ok (clock.parse_from_rfc3339 raw) _ _ h₁ in
      let (future, h₃) = guard_then-eq-ok (ltb (clock.now + minutes 1) parsed) _ _ h₂ in
      let (near, h₄) = guard_then-eq-ok (leb parsed (clock.now + minutes 180)) _ _ h₃ in
      let same : parsed ≡ t = ok-eq-ok h₄ in
      let after : clock.now ≤ parsed = ground arith in
      let before : parsed ≤ clock.now + minutes 180 = ground arith in
      (omega (arith, after, same), omega (arith, before, same))

  pub start_of-bounds :
      (t : ℕ)
      → start_of clock req.start_type req.start_at ≡ ok t
      → (clock.now ≤ t) × (t ≤ clock.now + minutes 180)
  unfolding start_of
  start_of-bounds t h = elim (Bool-cases (text_eq req.start_type (text "now"))) [
    | inl at_once ↦
        let same : clock.now ≡ t = ok-eq-ok (rw (at_once, start_of) at h) in
        (omega (arith, same), omega (arith, same))
    | inr later ↦ elim (Bool-cases (text_eq req.start_type (text "at_time"))) [
      | inl timed ↦ later_start-bounds t (rw (later, timed, start_of) at h)
      | inr other ↦ absurd (cc (rw (later, other, start_of) at h))
    ]
  ]

  -- If `create` succeeds, whatever others commit before the INSERT, the tables are these with one
  -- row and its logins more. The row is new and of today, in the caller's group, and has the court,
  -- the court type, the duration (45 minutes by default), the queue place, the number of players and
  -- the trimmed notes of the request: a court of the group's range, 1 to 45 minutes, no queue or a
  -- place 1 to 5 that no active row violates. It starts in the next three hours at most, and its
  -- expiry is its start and duration. The logins are the requested ones, which passed the checks.
  pub create-HasReserved :
      (meanwhile : Db → Db) (key : ℕ) (after : Db)
      → create meanwhile clock id user req db ≡ (ok key, after)
      → HasReserved key (meanwhile db) after
  unfolding create insert_reservation
  create-HasReserved meanwhile key after h = elim (Result-cases (plan clock id user req db)) [
    | inr (e, failed) ↦ absurd (cc (rw (failed, create) at h))
    | inl ((r, logins), planned) ↦ elim (Bool-cases (violates (meanwhile db) r)) [
      | inl taken ↦ absurd (cc (rw (planned, taken, create) at h))
      | inr fine ↦
          let p = plan-IsPlanned r logins planned in
          let done = rw (planned, fine, create) at h in
          let times = start_of-bounds r.start_at p.starts in
          record {
            row = r;
            logins = logins;
            planned = p;
            key_of_row = sym (ok-eq-ok (ap (λ q. q.0) done));
            slot_free = fine;
            starts_after = times.0;
            starts_before = times.1;
            rows = sym (ap (λ q. q.1) done);
          }
    ]
  ]
