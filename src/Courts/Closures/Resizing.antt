-- ===== src/Courts/Closures/Resizing.antt =====
-- `resize_courts` (src/courts.rs): a club has its courts 1, …, court_count and nobody beyond them.
use badminton_be_rust.Prelude.{
  ℕ, zero, suc, ◌+◌, ◌-◌, ◌≤◌, ◌≡◌, refl, sym, ap, subst, ◌∙◌, ◌⊎◌, inl, inr, true, false, ◌&&◌,
  List, [], ◌∷◌, ◌++◌, some, ok, arith, ltb, leb, ◌==◌, if◌then◌else◌, bit, ==_iff, any, any-tally,
  tally-any, total, tally, delete, find_row, total-append, total_mono, Bool-cases, ok-eq-ok,
  some-eq-some, guard-ok-eq-ok, or_fail_then-eq-ok, >>=-eq-ok,
}
use badminton_be_rust.Courts.Tables.{ClubRow, Court, QueueGroup, Lock, Db}
use badminton_be_rust.Courts.Queries.{lock, lock_court, is_court, waits_for}
use badminton_be_rust.Courts.Invariant.{IsSound}
use badminton_be_rust.Courts.Invariant.Resolving.{SameTables}
use badminton_be_rust.Courts.Invariant.Inserts.{SameTables-IsSound}
use badminton_be_rust.Courts.Closures.{
  lock_courts, plays_above, waits_above, is_above, remove_courts, open_court, insert_courts,
  set_count, resize_courts,
}
use badminton_be_rust.Courts.Closures.Laws.{
  tally-delete_all, tally-delete_other, delete_queues-IsSound,
}

-- The club's courts are 1, …, n, once each, and beyond them nobody plays or waits.
pub record HasCourts (club_id n : ℕ) (db : Db) : Type 0 where
  pub courts : (k : ℕ) → tally (is_court club_id k) db.courts ≡ bit (leb 1 k && leb k n)
  pub no_sessions : tally (plays_above club_id n) db.sessions ≡ 0
  pub no_groups : tally (waits_above club_id n) db.queues ≡ 0

-- Whether a court is there already.
present_once :
    (club_id n k : ℕ) (cs : List Court)
    → k ≡ n
    → any (is_court club_id n) cs ≡ true
    → 1 ≤ tally (is_court club_id k) cs
present_once club_id n k cs e h = rw e (ground (arith, h, any-tally (is_court club_id n) cs))

absent_yet :
    (club_id n k : ℕ) (cs : List Court)
    → k ≡ n
    → any (is_court club_id n) cs ≡ false
    → tally (is_court club_id k) cs ≡ 0
absent_yet club_id n k cs e h = rw e (tally-any (is_court club_id n) cs h)

insert_courts-tally :
    (club_id n k : ℕ) (cs : List Court)
    → tally (is_court club_id k) cs ≤ 1
    → tally (is_court club_id k) (insert_courts club_id n cs)
      ≡ (if leb 1 k && leb k n then 1 else tally (is_court club_id k) cs)
unfolding insert_courts total
insert_courts-tally club_id zero k cs h = ground arith
insert_courts-tally club_id (suc n) k cs h =
    let rest = insert_courts club_id n cs in
    let ih = insert_courts-tally club_id n k cs h in
    elim (Bool-cases (any (is_court club_id (suc n)) rest)) [
      | inl present ↦
          let once : k ≡ suc n → 1 ≤ tally (is_court club_id k) rest =
            λ e. present_once club_id (suc n) k rest e present in
          rw present (ground (arith, ih, h, once))
      | inr absent ↦
          let nowhere : k ≡ suc n → tally (is_court club_id k) rest ≡ 0 =
            λ e. absent_yet club_id (suc n) k rest e absent in
          rw absent (
            ground (
              arith,
              ih,
              h,
              nowhere,
              total-append (λ c. bit (is_court club_id k c)) rest (open_court club_id (suc n) ∷ []),
            ))
    ]

lock_courts-SameTables :
    (club_id first n : ℕ) (db : Db) → SameTables db (lock_courts club_id first n db)
unfolding lock_courts lock_court
lock_courts-SameTables club_id first zero db = record {
  clubs = refl;
  courts = refl;
  members = refl;
  credentials = refl;
  sessions = refl;
  queues = refl;
}
lock_courts-SameTables club_id first (suc n) db =
    let s = lock_courts-SameTables club_id (first + 1) n (lock_court club_id (first + 1) db) in
    record {
      clubs = s.clubs;
      courts = s.courts;
      members = s.members;
      credentials = s.credentials;
      sessions = s.sessions;
      queues = s.queues;
    }

-- The invariant is not about the clubs' and the courts' rows.
rows_of_courts-IsSound :
    (db : Db) (clubs : List ClubRow) (courts : List Court) (held : List Lock)
    → IsSound db
    → IsSound (record db { clubs = clubs; courts = courts; held = held })
rows_of_courts-IsSound db clubs courts held v = record {
  credential_ids = v.credential_ids;
  session_ids = v.session_ids;
  queue_ids = v.queue_ids;
  one_session = v.one_session;
  one_place = v.one_place;
  even_sessions = v.even_sessions;
  even_groups = v.even_groups;
  dense = v.dense;
}

this_or_above :
    (club_id new_count c n : ℕ)
    → ((g : QueueGroup) → waits_for c n g ≡ true → waits_above club_id new_count g ≡ true)
      ⊎ ((g : QueueGroup) → waits_for c n g ≡ true → waits_above club_id new_count g ≡ false)
this_or_above club_id new_count c n = elim (Bool-cases (c == club_id && ltb new_count n)) [
  | inl above ↦ inl (λ g w. ground arith)
  | inr below ↦ inr (λ g w. ground arith)
]

remove_courts-HasCourts :
    (club_id new_count old_count : ℕ) (db db' : Db)
    → IsSound db
    → HasCourts club_id old_count db
    → ltb new_count old_count ≡ true
    → remove_courts club_id new_count old_count db ≡ ok db'
    → IsSound db' × HasCourts club_id new_count db'
unfolding remove_courts
remove_courts-HasCourts club_id new_count old_count db db' v h less e =
    let locked = lock_courts club_id new_count (old_count - new_count) db in
    let same = lock_courts-SameTables club_id new_count (old_count - new_count) db in
    let (idle, result) =
      guard-ok-eq-ok (tally (plays_above club_id new_count) locked.sessions == 0) _ _ _ e in
    subst (λ d. IsSound d × HasCourts club_id new_count d) result
      (
        rows_of_courts-IsSound _ locked.clubs (delete (is_above club_id new_count) locked.courts)
            locked.held
            (delete_queues-IsSound locked (waits_above club_id new_count)
              (SameTables-IsSound same v) (this_or_above club_id new_count)),
        record {
          courts = λ k. kept k;
          no_sessions = (==_iff _ 0).0 idle;
          no_groups =
              tally-delete_all (waits_above club_id new_count) (waits_above club_id new_count)
                locked.queues (λ g w. w);
        },
      )
  where
    kept :
        (k : ℕ)
        → tally (is_court club_id k) (
            delete
              (is_above club_id new_count)
              (lock_courts club_id new_count (old_count - new_count) db).courts)
          ≡ bit (leb 1 k && leb k new_count)
    kept k =
        let same = lock_courts-SameTables club_id new_count (old_count - new_count) db in
        elim (Bool-cases (ltb new_count k)) [
          | inl above ↦
              tally-delete_all (is_above club_id new_count) (is_court club_id k) _
                (λ c e. ground arith)
              ∙ ground arith
          | inr below ↦
              tally-delete_other (is_above club_id new_count) (is_court club_id k) _
                (λ c e. ground arith)
              ∙ ap (tally (is_court club_id k)) same.courts
              ∙ h.courts k
              ∙ ground arith
        ]

before_growth :
    (club_id new_count old_count : ℕ) (db kept : Db)
    → IsSound db
    → HasCourts club_id old_count db
    → (if ltb new_count old_count then remove_courts club_id new_count old_count db else ok db)
      ≡ ok kept
    → (m : ℕ) × (m ≤ new_count) × IsSound kept × HasCourts club_id m kept
before_growth club_id new_count old_count db kept v h e =
    elim (Bool-cases (ltb new_count old_count)) [
      | inl less ↦
          let (v', h') =
            remove_courts-HasCourts club_id new_count old_count db kept v h less (rw less at e) in
          (new_count, omega arith, v', h')
      | inr more ↦
          let (v', h') =
            subst (λ d. IsSound d × HasCourts club_id old_count d) (ok-eq-ok (rw more at e))
              (v, h) in
          (old_count, ground arith, v', h')
    ]

set_count-HasCourts :
    (club_id m n : ℕ) (db : Db)
    → m ≤ n
    → HasCourts club_id m db
    → HasCourts club_id n (set_count club_id n db)
set_count-HasCourts club_id m n db le h = record {
  courts = λ k. ground (arith, insert_courts-tally club_id n k db.courts, h.courts k);
  no_sessions = omega (
    arith,
    h.no_sessions,
    total_mono (λ s. bit (plays_above club_id n s)) (λ s. bit (plays_above club_id m s)) db.sessions
        (λ s. ground arith),
  );
  no_groups = omega (
    arith,
    h.no_groups,
    total_mono (λ g. bit (waits_above club_id n g)) (λ g. bit (waits_above club_id m g)) db.queues
        (λ g. ground arith),
  );
}

-- If the tables are sound, the club has the courts 1, …, court_count, once each, with nobody in
-- play or queued beyond them, and `resize_courts` succeeds, then the tables are sound and the club
-- has the courts 1, …, new_count, once each, with nobody in play or queued beyond them.
pub resize_courts-HasCourts :
    (club_id new_count : ℕ) (club : ClubRow) (db db' : Db)
    → IsSound db
    → find_row (λ (c : ClubRow). c.id == club_id) db.clubs ≡ some club
    → HasCourts club_id club.court_count db
    → resize_courts club_id new_count db ≡ ok db'
    → IsSound db' × HasCourts club_id new_count db'
unfolding resize_courts
resize_courts-HasCourts club_id new_count club db db' v known h e =
    let tx = lock (Lock.clubs_row club_id) db in
    let v₁ : IsSound tx =
      rows_of_courts-IsSound db db.clubs db.courts (db.held ++ Lock.clubs_row club_id ∷ []) v in
    let h₁ : HasCourts club_id club.court_count tx = record {
      courts = h.courts;
      no_sessions = h.no_sessions;
      no_groups = h.no_groups;
    } in
    let (club', found, e₁) =
      or_fail_then-eq-ok (find_row (λ (c : ClubRow). c.id == club_id) db.clubs) _ _ e in
    let one : club' ≡ club = some-eq-some (sym found ∙ known) in
    let (kept, shrunk, e₂) =
      >>=-eq-ok
        (if ltb new_count club.court_count
          then remove_courts club_id new_count club.court_count tx
          else ok tx)
        _ (rw one at e₁) in
    subst (λ d. IsSound d × HasCourts club_id new_count d) (ok-eq-ok e₂)
      (let (m, le, v₂, h₂) =
          before_growth club_id new_count club.court_count tx kept v₁ h₁ shrunk in
        (
          rows_of_courts-IsSound kept _ _ kept.held v₂,
          set_count-HasCourts club_id m new_count kept le h₂,
        ))
