-- ===== src/Courts/Invariant/Departing.antt =====
-- Lemmas on `leave_court` behind its checks (src/courts.rs, `depart` of the model).
use badminton_be_rust.Prelude.{
  ℕ, ◌+◌, ◌≤◌, ◌≡◌, refl, sym, ap, subst, ◌∙◌, ◌⊎◌, inl, inr, true, false, List, [], ◌∷◌, some, ok,
  total-ge, find_row-In, find_row, find_row-update, arith, bit, ◌==◌, tally, count, contains,
  without, count-without_le, length-without_all, length, Bool-cases, ok-eq-ok, Text, ==_iff,
}
use badminton_be_rust.Courts.Tables.{Session, Db, Env, ClubRow}
use badminton_be_rust.Courts.Queries.{plays_on, waits_for, lock_credentials, club_today, closed_or}
use badminton_be_rust.Courts.Players.{ids_of}
use badminton_be_rust.Courts.Actions.{queue_len}
use badminton_be_rust.Courts.Promotion.{Promotion, promoted, not_promoted, raced}
use badminton_be_rust.Courts.Leaving.{
  LeaveOutcome, usize_sub, check_on_court, unseat_session, concluded, depart,
}
use badminton_be_rust.Courts.Invariant.{seats, is_uneven_session, IsSound}
use badminton_be_rust.Courts.Invariant.Resolving.{SameTables, lock_credentials-SameTables}
use badminton_be_rust.Courts.Invariant.Rows.{update_session-IsSound}
use badminton_be_rust.Courts.Invariant.Inserts.{SameTables-IsSound, IsFresh}
use badminton_be_rust.Courts.Invariant.SignUp.{by_id}
use badminton_be_rust.Courts.Invariant.Seating.{SeatsNext}
use badminton_be_rust.Courts.Invariant.Starting.{end_session-IsSound, end_session-idle}
use badminton_be_rust.Courts.Invariant.Promoting.{HasResolved, promote_next-HasResolved}

pub check_on_court-ok :
    (number : ℕ) (on_court : List ℕ) (players : List (Text × ℕ))
    → (check_on_court number on_court players).errors ≡ []
    → ((check_on_court number on_court players).resolved ≡ players)
      × ((id : ℕ) → 1 ≤ count id (ids_of players) → contains on_court id ≡ true)
unfolding check_on_court
check_on_court-ok number on_court [] h = (refl, λ id m. absurd (unfold count in omega arith))
check_on_court-ok number on_court ((username, id) ∷ rest) h =
    elim (Bool-cases (contains on_court id)) [
      | inr off ↦ cc (rw off at h)
      | inl on ↦
          let (same, all_on) = check_on_court-ok number on_court rest (rw on at h) in
          (
            rw on (ap (λ ps. (username, id) ∷ ps) same),
            λ other m. elim (Bool-cases (other == id)) [
              | inl q ↦ let e : other ≡ id = (==_iff other id).0 q in rw e on
              | inr q ↦ all_on other (unfold count in ground arith)
            ],
          )
    ]

-- What leaving a court does: a pair of four leaves the other pair in play; or everyone leaves, and
-- the court goes to the next group of its queue; or to nobody, where its queue is empty or the court
-- closed.
abbrev pub HasLeft : Env → ClubRow → ℕ → Session → List ℕ → Db → LeaveOutcome → Db → Type 0
HasLeft env club number s leavers db o db' =
    ((o ≡ record { session_ended = false; promoted = false })
      × (find_row (plays_on club.id number) db'.sessions
          ≡ some (record s { players = without leavers s.players }))
      × (length (without leavers s.players) ≡ 2)
      × (db'.sessions ≡ unseat_session s.id leavers db.sessions)
      × (db'.queues ≡ db.queues))
    ⊎ ((o ≡ record { session_ended = true; promoted = true })
        × (length leavers ≡ length s.players)
        × ((dropped : ℕ) × SeatsNext env club.id number club.session_minutes
              (club_today env club.timezone) dropped db db'))
    ⊎ ((o ≡ record { session_ended = true; promoted = false })
        × (length leavers ≡ length s.players)
        × (tally (plays_on club.id number) db'.sessions ≡ 0)
        × ((queue_len club.id number db' ≡ 0) ⊎ (closed_or true env club.id number db ≡ true)))

module _ (env : Env) (club : ClubRow) (number : ℕ) (s : Session) (leavers : List ℕ) (db : Db)
    (v : IsSound db) (fresh : IsFresh env db)
    (found : find_row (plays_on club.id number) db.sessions ≡ some s)
    (once : (id : ℕ) → count id leavers ≤ 1)
    (on_court : (id : ℕ) → 1 ≤ count id leavers → contains s.players id ≡ true) where
  players_count : (id : ℕ) → count id s.players ≤ 1
  players_count id = ground (
    arith,
    total-ge (seats id) s db.sessions (find_row-In (plays_on club.id number) db.sessions s found),
    v.one_place id,
    (by_id db club.id number s v found).1,
  )

  left_behind : length (without leavers s.players) + length leavers ≡ length s.players
  left_behind = length-without_all leavers s.players once players_count on_court

  two_or_four : (length s.players ≡ 2) ⊎ (length s.players ≡ 4)
  two_or_four = ground (
    arith,
    total-ge (λ x. bit (is_uneven_session x)) s db.sessions
        (find_row-In (plays_on club.id number) db.sessions s found),
    v.even_sessions,
    (by_id db club.id number s v found).1,
  )

  -- The subtraction of the code does not wrap round.
  pub remainder_lem :
      usize_sub (length s.players) (length leavers) ≡ length (without leavers s.players)
  remainder_lem = ground (arith, left_behind, two_or_four)

  pair_left-IsSound :
      length (without leavers s.players) ≡ 2
      → IsSound (record db { sessions = unseat_session s.id leavers db.sessions })
  pair_left-IsSound two =
      update_session-IsSound db s.id (λ s. record s { players = without leavers s.players }) s v
        (by_id db club.id number s v found).0 refl refl refl (λ h. h) (ground arith)
        (λ id. ground (arith, v.one_place id, count-without_le id leavers s.players))

  -- The pair that stays, in tables that also hold the leavers' locks.
  pair_departs :
      (o : LeaveOutcome) (db' : Db)
      → length (without leavers s.players) ≡ 2
      → let locked = lock_credentials leavers db in
        ◌≡◌ {A = LeaveOutcome × Db}
          (
            record { session_ended = false; promoted = false },
            record locked { sessions = unseat_session s.id leavers locked.sessions },
          )
          (o, db')
        → IsSound db' × HasLeft env club number s leavers db o db'
  pair_departs o db' two e =
      let same = lock_credentials-SameTables leavers db in
      let locked = lock_credentials leavers db in
      let parted = record db { sessions = unseat_session s.id leavers db.sessions } in
      let alike : SameTables parted
          (record locked { sessions = unseat_session s.id leavers locked.sessions }) =
        record {
          clubs = same.clubs;
          courts = same.courts;
          members = same.members;
          credentials = same.credentials;
          sessions = ap (unseat_session s.id leavers) same.sessions;
          queues = same.queues;
        } in
      let kept =
        find_row-update (plays_on club.id number) (λ x. x.id == s.id)
          (λ x. record x { players = without leavers x.players }) db.sessions s (λ y. refl) found
          (ground arith) in
      (
        subst IsSound (ap (λ p. p.1) e) (SameTables-IsSound alike (pair_left-IsSound two)),
        inl (
          sym (ap (λ p. p.0) e),
          ap (λ p. find_row (plays_on club.id number) p.1.sessions) (sym e)
              ∙ ap (find_row (plays_on club.id number)) alike.sessions
              ∙ kept,
          two,
          ap (λ p. p.1.sessions) (sym e) ∙ alike.sessions,
          ap (λ p. p.1.queues) (sym e) ∙ alike.queues,
        ),
      )

  -- Everyone leaves.
  all_depart :
      (o : LeaveOutcome) (db' : Db) (r : Promotion × Db)
      → length leavers ≡ length s.players
      → HasResolved env club.id number club.session_minutes
          (closed_or true env club.id number db)
          (club_today env club.timezone)
          db
          r
      → concluded number s.id leavers r ≡ ok (o, db')
      → IsSound db' × HasLeft env club number s leavers db o db'
  all_depart o db' (promoted d, db₁) all (_, v₁, _, seats) e =
      let q = ok-eq-ok e in
      (
        subst IsSound (ap (λ p. p.1) q) v₁,
        inr (
            inl (
              sym (ap (λ p. p.0) q),
              all,
              (
                d,
                subst
                    (SeatsNext env club.id number club.session_minutes
                      (club_today env club.timezone) d db)
                    (ap (λ p. p.1) q) seats,
              ),
            )),
      )
  all_depart o db' (not_promoted, db₁) all (v₁, same, _, stop, _) e =
      let q = ok-eq-ok e in
      let lock = lock_credentials-SameTables leavers db₁ in
      let found₁ : find_row (plays_on club.id number) db₁.sessions ≡ some s = rw same found in
      let locked = lock_credentials leavers db₁ in
      let v₂ = SameTables-IsSound lock v₁ in
      let found₂ : find_row (plays_on club.id number) locked.sessions ≡ some s =
        rw lock.sessions found₁ in
      let queues : db'.queues ≡ db₁.queues = ap (λ p. p.1.queues) (sym q) ∙ lock.queues in
      (
        subst IsSound (ap (λ p. p.1) q) (end_session-IsSound locked club.id number s v₂ found₂),
        inr (
            inr (
              sym (ap (λ p. p.0) q),
              all,
              ap (λ p. tally (plays_on club.id number) p.1.sessions) (sym q)
                  ∙ end_session-idle locked club.id number s v₂ found₂,
              subst
                  (λ gs.
                    (tally (waits_for club.id number) gs ≡ 0)
                    ⊎ (closed_or true env club.id number db ≡ true))
                  (sym queues) stop,
            )),
      )
  all_depart o db' (raced, db₁) all h e = absurd h

  pub depart-HasLeft :
      (o : LeaveOutcome) (db' : Db)
      → depart env club number s leavers db ≡ ok (o, db')
      → IsSound db' × HasLeft env club number s leavers db o db'
  unfolding depart
  depart-HasLeft o db' e =
      let r = usize_sub (length s.players) (length leavers) in
      elim (Bool-cases (r == 2)) [
        | inl two ↦
            let not_zero : (r == 0) ≡ false = ground arith in
            pair_departs o db' (sym remainder_lem ∙ (==_iff r 2).0 two)
              (ok-eq-ok (rw (two, not_zero) at e))
        | inr other ↦ elim (Bool-cases (r == 0)) [
          | inr odd ↦ cc (rw (other, odd) at e)
          | inl zero_left ↦
              let closed = closed_or true env club.id number db in
              let today = club_today env club.timezone in
              let (result, p, h) =
                promote_next-HasResolved env club.id number club.session_minutes closed today s
                  leavers db v fresh found in
              all_depart o db' result
                (omega (arith, left_behind, remainder_lem, (==_iff r 0).0 zero_left)) h
                (rw (other, zero_left, p) at e)
        ]
      ]
