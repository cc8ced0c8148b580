-- ===== src/Reservations/Unlocking.antt =====
-- What `unlock_credential` of src/routes/reservations.rs detaches.
use badminton_be_rust.Prelude.{
  ℕ, ◌≡◌, refl, ap, ◌∙◌, inl, inr, Bool, true, false, ◌&&◌, List, [], ◌∷◌, ok, arith, ◌==◌, any,
  update, delete, bit, total, tally, In, tally_pos, tally-any, total_cong, is_some_and, Bool-cases,
}
use badminton_be_rust.Groups.{GroupCtx, require_group_admin}
use badminton_be_rust.Reservations.{
  Reservation, ReservationCredential, Db, has_id, in_group, is_active, is_active_in, detach_row,
  uses, unlock_credential,
}

-- A reservation that is active in a group and uses a login.
abbrev pub holds : Db → ℕ → ℕ → Reservation → Bool
holds db group credential r = is_active r.status && in_group group r && uses db credential r

not_attached :
    (rows : List Reservation) (group credential id : ℕ) (links : List ReservationCredential)
    → is_active_in group rows id ≡ true
    → any
        (λ a. a.reservation_id == id && a.credential_id == credential)
        (delete
          (λ a. a.credential_id == credential && is_active_in group rows a.reservation_id)
          links)
      ≡ false
unfolding any delete
not_attached rows group credential id [] h = refl
not_attached rows group credential id (a ∷ links) h = elim (Bool-cases (a.reservation_id == id)) [
  | inl e ↦
      let same : a.reservation_id ≡ id = ground arith in
      let full : is_active_in group rows a.reservation_id ≡ true =
        ap (is_active_in group rows) same ∙ h in
      ground (arith, e, full, not_attached rows group credential id links h)
  | inr e ↦ ground (arith, e, not_attached rows group credential id links h)
]

listed :
    (group : ℕ) (r : Reservation) (rows : List Reservation)
    → In r rows
    → (is_active r.status && in_group group r) ≡ true
    → is_active_in group rows r.id ≡ true
listed group r rows m h = elim (Bool-cases (is_active_in group rows r.id)) [
  | inl e ↦ e
  | inr e ↦
      let test : Reservation → Bool =
        λ x. has_id r.id x && is_active x.status && in_group group x in
      let passes : test r ≡ true = ground (arith, h) in
      absurd (ground (arith, tally_pos test rows r m passes, tally-any test rows e))
]

-- It is the primary login of an active reservation of the group.
abbrev leads : ℕ → ℕ → Reservation → Bool
leads group credential r =
    is_active r.status && in_group group r && is_some_and (λ c. c == credential) r.credential_id

leads-detach_row :
    (group credential : ℕ) (r : Reservation)
    → leads group credential (detach_row credential group r) ≡ false
leads-detach_row group credential r =
    elim (Bool-cases (
      is_some_and (λ c. c == credential) r.credential_id
      && is_active r.status
      && in_group group r)) [ inl e ↦ rw e (ground arith) | inr e ↦ rw e (ground (arith, e)) ]

tally-leads :
    (group credential : ℕ) (rows : List Reservation)
    → tally (leads group credential) (update (λ r. true) (detach_row credential group) rows) ≡ 0
unfolding update total
tally-leads group credential [] = refl
tally-leads group credential (r ∷ rows) =
    ground (arith, leads-detach_row group credential r, tally-leads group credential rows)

-- After `unlock_credential` by an administrator of the caller's active group, no active reservation
-- of this group uses the login, neither as its primary one nor as one of several.
pub unlock_credential-frees :
    (user credential : ℕ) (ctx : GroupCtx) (db : Db)
    → require_group_admin db.tenancy user ≡ ok ctx
    → tally
        (holds (unlock_credential user credential db).1 ctx.group_id credential)
        (unlock_credential user credential db).1.reservations
      ≡ 0
unfolding unlock_credential
unlock_credential-frees user credential ctx db admin =
    let group = ctx.group_id in
    let rows = update (λ r. true) (detach_row credential group) db.reservations in
    let links =
      delete (λ a. a.credential_id == credential && is_active_in group rows a.reservation_id)
        db.attached in
    let after : Db = record db { reservations = rows; attached = links } in
    let same : tally (holds after group credential) rows ≡ tally (leads group credential) rows =
      total_cong (λ r. bit (holds after group credential r)) (λ r. bit (leads group credential r))
        rows
        (λ r m. elim (Bool-cases (is_active r.status && in_group group r)) [
          | inr e ↦ ground (arith, e)
          | inl e ↦
              let away =
                not_attached rows group credential r.id db.attached (listed group r rows m e) in
              ground (arith, e, away)
        ]) in
    rw (admin, unlock_credential) (same ∙ tally-leads group credential db.reservations)
