-- ===== src/Courts/Invariant/Expiring.antt =====
-- Lemmas on the expiry engine's step `expire_court` (src/courts.rs).
use badminton_be_rust.Prelude.{
  ℕ, ◌+◌, ◌≡◌, refl, sym, ap, subst, ◌∙◌, ◌⊎◌, inl, inr, Bool, true, false, not, ◌&&◌, [], Option,
  some, ok-eq-ok, or_fail-eq-ok, ==_iff, find_row-update, In, total-ge, ok, find_row-In,
  find_row-passes, find_row_of_In, find_row, arith, bit, ◌==◌, tally, Bool-cases, Option-cases,
  Result-cases,
}
use badminton_be_rust.Courts.Tables.{Session, Db, Env, ClubRow}
use badminton_be_rust.Courts.Queries.{plays_on, lock_court, minutes, club_today, closed_or}
use badminton_be_rust.Courts.Actions.{begin, queue_len}
use badminton_be_rust.Courts.Promotion.{all_usable, Promotion, promoted, not_promoted, raced}
use badminton_be_rust.Courts.Engine.{
  EngineOutcome, extended, cleared, is_over, club_engine_row, extend_session, settle,
  expire_session, expire_court,
}
use badminton_be_rust.Courts.Invariant.{is_uneven_session, IsSound}
use badminton_be_rust.Courts.Invariant.Rows.{update_session-IsSound}
use badminton_be_rust.Courts.Invariant.Inserts.{SameTables-IsSound, IsFresh}
use badminton_be_rust.Courts.Invariant.SignUp.{begin-SameTables, by_id}
use badminton_be_rust.Courts.Invariant.Starting.{end_session-IsSound, end_session-idle}
use badminton_be_rust.Courts.Invariant.Promoting.{HasResolved, promote_next-HasResolved}
use badminton_be_rust.Courts.Invariant.Seating.{SeatsNext, SeatsNext-before}

-- The expired session that the engine finds on a court is the court's active one.
is_over-plays_on :
    (env : Env) (club_id number : ℕ) (db : Db) (s : Session)
    → IsSound db
    → find_row (is_over env club_id number) db.sessions ≡ some s
    → find_row (plays_on club_id number) db.sessions ≡ some s
is_over-plays_on env club_id number db s v e =
    find_row_of_In (plays_on club_id number) s db.sessions (v.one_session club_id number)
      (ground (arith, find_row-passes (is_over env club_id number) db.sessions s e))
      (find_row-In (is_over env club_id number) db.sessions s e)

even_of_sound :
    (db : Db) (s : Session) → IsSound db → In s db.sessions → is_uneven_session s ≡ false
even_of_sound db s v m =
    ground (arith, total-ge (λ x. bit (is_uneven_session x)) s db.sessions m, v.even_sessions)

-- A longer timer changes no place.
extend_session-IsSound :
    (db : Db) (club_id number session_minutes : ℕ) (s : Session)
    → IsSound db
    → find_row (plays_on club_id number) db.sessions ≡ some s
    → IsSound (record db { sessions = extend_session s.id session_minutes db.sessions })
extend_session-IsSound db club_id number session_minutes s v found =
    update_session-IsSound db s.id _ s v (by_id db club_id number s v found).0 refl refl refl
      (λ h. h) (even_of_sound db s v (find_row-In (plays_on club_id number) db.sessions s found))
      (λ id. omega (arith, v.one_place id))

-- How an expired court is resolved: its queue's first group that may play has it, for a whole new
-- session; or the same players keep it for another one, which takes an empty queue, the club's
-- setting, an open court and passes that are all usable; or nobody plays on it, and its queue is
-- empty or the court closed.
abbrev pub IsSettled : Env → ClubRow → ℕ → Session → Bool → Db → EngineOutcome → Db → Type 0
IsSettled env club number s closed db (EngineOutcome.promoted dropped) db' =
    (closed ≡ false)
    × (queue_len club.id number db' + dropped + 1 ≡ queue_len club.id number db)
    × SeatsNext env club.id number club.session_minutes (club_today env club.timezone) dropped db
        db'
IsSettled env club number s closed db extended db' =
    (queue_len club.id number db' ≡ 0)
    × (club.auto_extend ≡ true)
    × (closed ≡ false)
    × (all_usable (club_today env club.timezone) s.players db' ≡ true)
    × (find_row (plays_on club.id number) db'.sessions
        ≡ some (record s {
          ends_at = s.ends_at + minutes club.session_minutes;
          extensions = s.extensions + 1;
        }))
IsSettled env club number s closed db cleared db' =
    (tally (plays_on club.id number) db'.sessions ≡ 0)
    × ((queue_len club.id number db' ≡ 0) ⊎ (closed ≡ true))

module _ (env : Env) (club : ClubRow) (number : ℕ) (closed : Bool) (s : Session) (before db : Db)
    (v : IsSound db) (found : find_row (plays_on club.id number) db.sessions ≡ some s) where
  kept_on :
      (db' : Db)
      → IsSound db'
      → db'.sessions ≡ db.sessions
      → (queue_len club.id number db' ≡ 0) ⊎ (closed ≡ true)
      → (o : EngineOutcome) × (db'' : Db) × (settle club closed
            (club_today env club.timezone)
            s
            before
            (not_promoted, db')
          ≡ (some o, db''))
        × IsSound db''
        × IsSettled env club number s closed db o db''
  unfolding settle all_usable
  kept_on db' v' same stop =
      let found' : find_row (plays_on club.id number) db'.sessions ≡ some s = rw same found in
      let today = club_today env club.timezone in
      elim (Bool-cases (club.auto_extend && not closed && all_usable today s.players db')) [
        | inl e ↦ (
          extended,
          _,
          rw e,
          extend_session-IsSound db' club.id number club.session_minutes s v' found',
          (
            ground arith,
            ground arith,
            ground arith,
            ground arith,
            find_row-update (plays_on club.id number) _ _ db'.sessions s (λ y. refl) found'
                (ground arith),
          ),
        )
        | inr e ↦ (
          cleared,
          _,
          rw e,
          end_session-IsSound db' club.id number s v' found',
          (end_session-idle db' club.id number s v' found', stop),
        )
      ]

  settles :
      (r : Promotion × Db)
      → HasResolved env club.id number club.session_minutes closed
          (club_today env club.timezone)
          db
          r
      → (o : EngineOutcome) × (db'' : Db) × (settle club closed
            (club_today env club.timezone)
            s
            before
            r
          ≡ (some o, db''))
        × IsSound db''
        × IsSettled env club number s closed db o db''
  unfolding settle
  settles (promoted d, db') (open_court, v', shorter, group) =
      (EngineOutcome.promoted d, db', refl, v', (open_court, shorter, group))
  settles (not_promoted, db') (v', same, _, stop, _) = kept_on db' v' same stop
  settles (raced, db') h = absurd h

expire_session-IsSettled :
    (env : Env) (club : ClubRow) (number : ℕ) (s : Session) (before db : Db)
    → IsSound db
    → IsFresh env db
    → find_row (plays_on club.id number) db.sessions ≡ some s
    → club_engine_row club.id db ≡ ok club
    → (o : EngineOutcome) × (db' : Db) × (expire_session env club.id number s before db
        ≡ ok (some o, db'))
      × IsSound db'
      × IsSettled env club number s (closed_or true env club.id number db) db o db'
unfolding expire_session
expire_session-IsSettled env club number s before db v fresh found known =
    let today = club_today env club.timezone in
    let closed = closed_or true env club.id number db in
    let (r, e, h) =
      promote_next-HasResolved env club.id number club.session_minutes closed today s [] db v fresh
        found in
    let (o, db', q, v', settled) = settles env club number closed s before db v found r h in
    (o, db', rw (known, e) (ap ok q), v', settled)

IsSettled-lock :
    (env : Env) (club : ClubRow) (number : ℕ) (s : Session) (closed : Bool) (db db' : Db)
    (o : EngineOutcome)
    → IsSettled env club number s closed (lock_court club.id number (begin db)) o db'
    → IsSettled env club number s closed db o db'
unfolding lock_court all_usable
IsSettled-lock env club number s closed db db' (EngineOutcome.promoted d) (c, q, h) =
    (c, q, SeatsNext-before (lock_court club.id number (begin db)) db db' refl refl h)
IsSettled-lock env club number s closed db db' extended h = h
IsSettled-lock env club number s closed db db' cleared h = h

-- In sound tables with an unused UUID, for a court with an expired active session whose club has a
-- row, `expire_court` succeeds and resolves the session in one of three ways. The first group of the
-- court's queue whose players may all play has the open court for a whole new session; this group
-- and those before it, each of which has a player who may not play, are gone from the queue,
-- whoever is behind moves up by as many places, and no other queue row changes. Or the same players
-- keep the court for another session, which takes an empty queue, the club's setting, an open court
-- and passes that are all usable. Or the court has no active session any more, and its queue is
-- empty or the court closed. The tables are sound afterwards.
pub expire_court-IsSettled :
    (env : Env) (club : ClubRow) (number : ℕ) (s : Session) (db : Db)
    → IsSound db
    → IsFresh env db
    → find_row (is_over env club.id number) db.sessions ≡ some s
    → club_engine_row club.id db ≡ ok club
    → (o : EngineOutcome) × (db' : Db) × (expire_court env club.id number db ≡ ok (some o, db'))
      × IsSound db'
      × IsSettled env club number s (closed_or true env club.id number db) db o db'
unfolding expire_court lock_court closed_or club_engine_row
expire_court-IsSettled env club number s db v fresh over known =
    let tx = lock_court club.id number (begin db) in
    let same = begin-SameTables club.id number db in
    let (o, db', e, v', settled) =
      expire_session-IsSettled env club number s db tx (SameTables-IsSound same v)
        (record { sessions = fresh.sessions; queues = fresh.queues })
        (is_over-plays_on env club.id number db s v over) known in
    (o, db', rw (over, expire_court) e, v', IsSettled-lock env club number s _ db db' o settled)

club_of_row :
    (club_id : ℕ) (db : Db) (club : ClubRow)
    → club_engine_row club_id db ≡ ok club
    → club_id ≡ club.id
unfolding club_engine_row
club_of_row club_id db club e = (==_iff club_id club.id).0 (
    ground (
      arith,
      find_row-passes (λ (c : ClubRow). c.id == club_id) db.clubs club (or_fail-eq-ok _ _ e),
    ))

expire_club-IsSound :
    (env : Env) (club : ClubRow) (club_id number : ℕ) (s : Session) (db db' : Db)
    (o : Option EngineOutcome)
    → IsSound db
    → IsFresh env db
    → find_row (is_over env club_id number) db.sessions ≡ some s
    → club_engine_row club_id db ≡ ok club
    → club_id ≡ club.id
    → expire_court env club_id number db ≡ ok (o, db')
    → IsSound db'
expire_club-IsSound env club club_id number s db db' o v fresh over known key e =
    let over' : find_row (is_over env club.id number) db.sessions ≡ some s =
      subst (λ i. find_row (is_over env i number) db.sessions ≡ some s) key over in
    let known' : club_engine_row club.id db ≡ ok club =
      subst (λ i. club_engine_row i db ≡ ok club) key known in
    let e' = subst (λ i. expire_court env i number db ≡ ok (o, db')) key e in
    let (o', db'', q, v', _) = expire_court-IsSettled env club number s db v fresh over' known' in
    subst IsSound (ap (λ p. p.1) (ok-eq-ok (sym q ∙ e'))) v'

-- If the tables are sound, the UUID of a new session is unused and `expire_court` succeeds, with an
-- outcome or with none, the tables that it leaves are sound.
pub expire_court-IsSound :
    (env : Env) (club_id number : ℕ) (db db' : Db) (o : Option EngineOutcome)
    → IsSound db
    → IsFresh env db
    → expire_court env club_id number db ≡ ok (o, db')
    → IsSound db'
unfolding expire_court expire_session lock_court club_engine_row
expire_court-IsSound env club_id number db db' o v fresh e =
    elim (Option-cases (find_row (is_over env club_id number) db.sessions)) [
      | inl q ↦ let r = rw (q, expire_court) at e in subst IsSound (ap (λ p. p.1) (ok-eq-ok r)) v
      | inr (s, over) ↦ elim (Result-cases (club_engine_row club_id db)) [
        | inl (club, known) ↦
            expire_club-IsSound env club club_id number s db db' o v fresh over known
              (club_of_row club_id db club known) e
        | inr (bad, unknown) ↦ cc (rw (over, expire_court, unknown) at e)
      ]
    ]
