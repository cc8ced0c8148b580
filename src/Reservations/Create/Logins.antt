-- ===== src/Reservations/Create/Logins.antt =====
-- A login on one court at a time: `create` of src/routes/reservations.rs.
use badminton_be_rust.Prelude.{
  ℕ, ◌≤◌, ◌≡◌, refl, sym, ap, subst, ◌∙◌, ◌⊎◌, inl, inr, Bool, true, false, ◌&&◌, ◌||◌, List, [],
  ◌∷◌, ◌++◌, Option, none, some, ok, Text, arith, ◌==◌, bit, any, find_row, total, tally,
  total-append, total_cong, In, tally_pos, tally-find_row-none, is_some_and, Bool-cases,
  Result-cases, ok-eq-ok, >>=-eq-ok, guard_then-eq-ok, or_fail_then-eq-ok,
}
use badminton_be_rust.Reservations.{
  Reservation, ReservationCredential, Db, Clock, is_live, has_id, uses, violates,
}
use badminton_be_rust.Reservations.Create.{
  CreateReservationReq, check_login, check_logins, free, is_visible, primary, attach, attach_all,
  plan, insert_reservation, create,
}
use badminton_be_rust.Reservations.Create.Plans.{inserted, plan-IsPlanned}

abbrev is_on : ℕ → ℕ → ReservationCredential → Bool
is_on reservation credential a = a.reservation_id == reservation && a.credential_id == credential

abbrev has_login : ℕ → List (ℕ × Text) → Bool
has_login credential = any (λ l. l.0 == credential)

-- At an instant, every login is on one live reservation at most.
abbrev pub IsExclusive : ℕ → Db → Type 0
IsExclusive t db =
    (credential : ℕ) → tally (λ r. is_live t r && uses db credential r) db.reservations ≤ 1

-- No row has the id yet.
abbrev pub IsUnused : ℕ → Db → Type 0
IsUnused id db =
    (tally (has_id id) db.reservations ≡ 0) × (tally (λ a. a.reservation_id == id) db.attached ≡ 0)

attach-other :
    (id j credential : ℕ) (login : ℕ × Text) (rows : List ReservationCredential)
    → (id == j) ≡ false
    → any (is_on j credential) (attach id login rows) ≡ any (is_on j credential) rows
unfolding any
attach-other id j credential (l, name) rows h = elim (Bool-cases (any (is_on id l) rows)) [
  | inl there_is ↦ rw there_is refl
  | inr missing ↦ rw missing (grow rows)
]
  where
    grow :
        (rows : List ReservationCredential)
        → any
            (is_on j credential)
            (rows ++ record { reservation_id = id; credential_id = l; name_snapshot = name } ∷ [])
          ≡ any (is_on j credential) rows
    grow [] = rw h refl
    grow (a ∷ rows) = ground (arith, grow rows)

attach-same :
    (id credential : ℕ) (login : ℕ × Text) (rows : List ReservationCredential)
    → any (is_on id credential) (attach id login rows) ≡ true
    → (any (is_on id credential) rows ≡ true) ⊎ ((login.0 == credential) ≡ true)
unfolding any
attach-same id credential (l, name) rows h = elim (Bool-cases (any (is_on id l) rows)) [
  | inl there_is ↦ inl (rw there_is at h)
  | inr missing ↦ grow rows (rw missing at h)
]
  where
    grow :
        (rows : List ReservationCredential)
        → any
            (is_on id credential)
            (rows ++ record { reservation_id = id; credential_id = l; name_snapshot = name } ∷ [])
          ≡ true
        → (any (is_on id credential) rows ≡ true) ⊎ ((l == credential) ≡ true)
    grow [] e = inr (ground (arith, e))
    grow (a ∷ rows) e = ground (arith, e, grow rows)

attach_all-other :
    (id j credential : ℕ) (logins : List (ℕ × Text)) (rows : List ReservationCredential)
    → (id == j) ≡ false
    → any (is_on j credential) (attach_all id logins rows) ≡ any (is_on j credential) rows
unfolding attach_all
attach_all-other id j credential [] rows h = refl
attach_all-other id j credential (login ∷ logins) rows h =
    attach_all-other id j credential logins (attach id login rows) h
    ∙ attach-other id j credential login rows h

attach_all-same :
    (id credential : ℕ) (logins : List (ℕ × Text)) (rows : List ReservationCredential)
    → any (is_on id credential) (attach_all id logins rows) ≡ true
    → (any (is_on id credential) rows ≡ true) ⊎ (has_login credential logins ≡ true)
unfolding attach_all any
attach_all-same id credential [] rows h = inl h
attach_all-same id credential (login ∷ logins) rows h =
    elim (attach_all-same id credential logins (attach id login rows) h) [
      | inr later ↦ inr (ground (arith, later))
      | inl now ↦ elim (attach-same id credential login rows now) [
        | inl before ↦ inl before
        | inr first ↦ inr (ground (arith, first))
      ]
    ]

free-eq-ok : (o : Option Reservation) {u : Unit {0}} → free o ≡ ok u → o ≡ none
free-eq-ok none h = refl
free-eq-ok (some r) h = cc

-- A login that passed the checks is on no live reservation.
check_login-free :
    (clock : Clock) (db : Db) (user group : ℕ) (counts : Reservation → Bool) (id : ℕ)
    (login : ℕ × Text)
    → check_login clock db user group counts id ≡ ok login
    → (login.0 ≡ id)
      × (tally (λ r. is_live clock.db_now r && counts r && uses db id r) db.reservations ≡ 0)
unfolding check_login
check_login-free clock db user group counts id login h₀ =
    let (c, found, h₁) =
      or_fail_then-eq-ok (find_row (λ c. c.id == id && is_visible db user group c) db.credentials) _
        _ h₀ in
    let (today, h₂) = guard_then-eq-ok (c.game_date == clock.today) _ _ h₁ in
    let taken =
      find_row (λ r. is_live clock.db_now r && counts r && uses db id r) db.reservations in
    let (u, open_now, h₃) = >>=-eq-ok (free taken) _ h₂ in
    (
      sym (ap (λ l. l.0) (ok-eq-ok h₃)),
      tally-find_row-none _ db.reservations (free-eq-ok taken open_now),
    )

check_logins-free :
    (clock : Clock) (db : Db) (user group : ℕ) (counts : Reservation → Bool) (ids : List ℕ)
    (logins : List (ℕ × Text))
    → check_logins clock db user group counts ids ≡ ok logins
    → (credential : ℕ) → has_login credential logins ≡ true
    → tally (λ r. is_live clock.db_now r && counts r && uses db credential r) db.reservations ≡ 0
unfolding check_logins any
check_logins-free clock db user group counts [] logins h credential e =
    absurd (cc (ap (has_login credential) (ok-eq-ok h) ∙ e))
check_logins-free clock db user group counts (id ∷ ids) logins h credential e =
    let (login, one, h₁) = >>=-eq-ok (check_login clock db user group counts id) _ h in
    let (more, rest, h₂) = >>=-eq-ok (check_logins clock db user group counts ids) _ h₁ in
    let (same, nowhere) = check_login-free clock db user group counts id login one in
    let e' : has_login credential (login ∷ more) ≡ true =
      ap (has_login credential) (ok-eq-ok h₂) ∙ e in
    elim (Bool-cases (login.0 == credential)) [
      | inl first ↦
          let this : id ≡ credential = ground arith in
          subst
            (λ k.
              tally (λ r. is_live clock.db_now r && counts r && uses db k r) db.reservations ≡ 0)
            this nowhere
      | inr later ↦
          check_logins-free clock db user group counts ids more rest credential (rw later at e')
    ]

drop_true :
    (p q : Reservation → Bool) (rows : List Reservation)
    → tally (λ r. p r && true && q r) rows ≡ 0
    → tally (λ r. p r && q r) rows ≡ 0
unfolding total
drop_true p q [] h = refl
drop_true p q (r ∷ rows) h = ground (arith, h, drop_true p q rows)

module _ (r : Reservation) (logins : List (ℕ × Text)) (db : Db) (unused : IsUnused r.id db)
    (first : r.credential_id ≡ primary logins) where
  -- An older row uses the logins that it used.
  older :
      (credential : ℕ) (x : Reservation)
      → In x db.reservations
      → uses (inserted r logins db) credential x ≡ uses db credential x
  older credential x m =
      let old : (r.id == x.id) ≡ false = elim (Bool-cases (r.id == x.id)) [
        | inr e ↦ e
        | inl e ↦ absurd (ground (arith, unused.0, tally_pos (has_id r.id) db.reservations x m))
      ] in
      ap (λ b. is_some_and (λ c. c == credential) x.credential_id || b)
        (attach_all-other r.id x.id credential logins db.attached old)

  primary-has_login :
      (credential : ℕ) (ls : List (ℕ × Text))
      → is_some_and (λ c. c == credential) (primary ls) ≡ true
      → has_login credential ls ≡ true
  unfolding any
  primary-has_login credential [] h = cc
  primary-has_login credential (l ∷ ls) h = ground (arith, h)

  not_attached :
      (credential : ℕ) (rows : List ReservationCredential)
      → tally (λ a. a.reservation_id == r.id) rows ≡ 0
      → any (is_on r.id credential) rows ≡ false
  unfolding total any
  not_attached credential [] h = refl
  not_attached credential (a ∷ rows) h = ground (arith, not_attached credential rows)

  -- The new row uses the logins that were checked.
  newest :
      (credential : ℕ)
      → uses (inserted r logins db) credential r ≡ true
      → has_login credential logins ≡ true
  newest credential h = elim (Bool-cases (is_some_and (λ c. c == credential) r.credential_id)) [
    | inl main ↦ primary-has_login credential logins (rw first at main)
    | inr other ↦ elim (attach_all-same r.id credential logins db.attached (rw other at h)) [
      | inr given ↦ given
      | inl before ↦ absurd (cc (sym before ∙ not_attached credential db.attached unused.1))
    ]
  ]

  inserted-IsExclusive :
      (t : ℕ)
      → ((credential : ℕ)
          → has_login credential logins ≡ true
          → tally (λ x. is_live t x && uses db credential x) db.reservations ≡ 0)
      → IsExclusive t db
      → IsExclusive t (inserted r logins db)
  unfolding total
  inserted-IsExclusive t nowhere exclusive credential =
      let holds = uses (inserted r logins db) credential in
      let before =
        total_cong (λ x. bit (is_live t x && holds x))
          (λ x. bit (is_live t x && uses db credential x)) db.reservations
          (λ x m. ap (λ b. bit (is_live t x && b)) (older credential x m)) in
      let sum = total-append (λ x. bit (is_live t x && holds x)) db.reservations (r ∷ []) in
      elim (Bool-cases (holds r)) [
        | inl mine ↦ ground (arith, sum, before, nowhere credential (newest credential mine))
        | inr not_mine ↦ ground (arith, sum, before, exclusive credential)
      ]

-- If at the database's instant every login is on one live reservation at most, the new row's id is
-- unused, and nobody commits anything between the checks and the INSERT, then `create`, with success
-- or without, leaves every login on one live reservation at most.
pub create-IsExclusive :
    (clock : Clock) (id user : ℕ) (req : CreateReservationReq) (db : Db)
    → IsUnused id db
    → IsExclusive clock.db_now db
    → IsExclusive clock.db_now (create (λ d. d) clock id user req db).1
unfolding create insert_reservation
create-IsExclusive clock id user req db unused exclusive =
    elim (Result-cases (plan clock id user req db)) [
      | inr (e, failed) ↦ rw (failed, create) exclusive
      | inl ((r, logins), planned) ↦
          let p = plan-IsPlanned clock id user req db r logins planned in
          elim (Bool-cases (violates db r)) [
            | inl taken ↦ rw (planned, taken, create) exclusive
            | inr fine ↦
                rw (planned, fine, create)
                  (inserted-IsExclusive r logins db
                    (subst (λ k. IsUnused k db) (sym p.named) unused) p.first clock.db_now
                    (λ credential given.
                      drop_true (is_live clock.db_now) (uses db credential) db.reservations (
                        check_logins-free clock db user r.group_id (λ x. true) _ logins p.checked
                          credential given))
                    exclusive)
          ]
    ]
