-- ===== src/Courts/Invariant/Rows.antt =====
-- Lemmas on changes of one row of court_sessions or court_queues (src/courts.rs).
use badminton_be_rust.Prelude.{
  ℕ, ◌+◌, ◌≤◌, ◌≡◌, Bool, true, false, List, [], ◌∷◌, ◌++◌, some, arith, bit, ◌==◌, length, count,
  total, tally, update, find_row, total-append, total-update,
}
use badminton_be_rust.Courts.Tables.{Session, QueueGroup, Db}
use badminton_be_rust.Courts.Queries.{is_playing, plays_on, waits_for}
use badminton_be_rust.Courts.Actions.{queue_len, stands_at}
use badminton_be_rust.Courts.Invariant.{
  seats, waits, places, is_two_or_four, is_uneven_session, is_uneven_group, IsSound,
}

total-snoc :
    {A : Type 0} (f : A → ℕ) (xs : List A) (x : A) → total f (xs ++ x ∷ []) ≡ total f xs + f x
unfolding total
total-snoc f xs x = omega (arith, total-append f xs (x ∷ []))

-- A new active session, of players that have no place, on a court that has none.
pub add_session-IsSound :
    (db : Db) (s : Session)
    → IsSound db
    → tally (λ (x : Session). x.id == s.id) db.sessions ≡ 0
    → tally (plays_on s.club_id s.court_number) db.sessions ≡ 0
    → is_two_or_four (length s.players) ≡ true
    → ((id : ℕ) → count id s.players ≤ 1)
    → ((id : ℕ) → 1 ≤ count id s.players → places id db ≡ 0)
    → IsSound (record db { sessions = db.sessions ++ s ∷ [] })
add_session-IsSound db s v fresh idle even distinct free = record {
  credential_ids = v.credential_ids;
  session_ids = λ id.
      ground
        (arith, total-snoc (λ x. bit (x.id == id)) db.sessions s, v.session_ids id, same_id id);
  queue_ids = v.queue_ids;
  one_session = λ club_id number. ground (
    arith,
    total-snoc (λ x. bit (plays_on club_id number x)) db.sessions s,
    v.one_session club_id number,
    same_court club_id number,
  );
  one_place = λ id.
      ground (arith, total-snoc (seats id) db.sessions s, v.one_place id, distinct id, free id);
  even_sessions =
      ground (arith, total-snoc (λ x. bit (is_uneven_session x)) db.sessions s, v.even_sessions);
  even_groups = v.even_groups;
  dense = v.dense;
}
  where
    same_id : (id : ℕ) → s.id ≡ id → tally (λ (x : Session). x.id == id) db.sessions ≡ 0
    same_id id e = rw (← e) fresh

    same_court :
        (club_id number : ℕ)
        → s.club_id ≡ club_id
        → s.court_number ≡ number
        → tally (plays_on club_id number) db.sessions ≡ 0
    same_court club_id number e q = rw (← e, ← q) idle

-- A change of one session that keeps its key and court, and does not start it again.
pub update_session-IsSound :
    (db : Db) (session_id : ℕ) (f : Session → Session) (s : Session)
    → IsSound db
    → find_row (λ (x : Session). x.id == session_id) db.sessions ≡ some s
    → (f s).id ≡ s.id
    → (f s).club_id ≡ s.club_id
    → (f s).court_number ≡ s.court_number
    → (is_playing (f s).status ≡ true → is_playing s.status ≡ true)
    → (is_uneven_session (f s) ≡ false)
    → ((id : ℕ) → seats id (f s) + places id db ≤ 1 + seats id s)
    → IsSound (record db { sessions = update (λ x. x.id == session_id) f db.sessions })
update_session-IsSound db session_id f s v found key club court status even place = record {
  credential_ids = v.credential_ids;
  session_ids = λ id. ground (arith, change (λ x. bit (x.id == id)), v.session_ids id);
  queue_ids = v.queue_ids;
  one_session = λ club_id number.
      ground (
        arith,
        change (λ x. bit (plays_on club_id number x)),
        v.one_session club_id number,
        status,
      );
  one_place = λ id. ground (arith, change (seats id), place id);
  even_sessions = ground (arith, change (λ x. bit (is_uneven_session x)), v.even_sessions);
  even_groups = v.even_groups;
  dense = v.dense;
}
  where
    change :
        (g : Session → ℕ)
        → total g (update (λ x. x.id == session_id) f db.sessions) + g s
          ≡ total g db.sessions + g (f s)
    change g =
        total-update (λ x. x.id == session_id) f g db.sessions s found (v.session_ids session_id)

-- A change of the players of one queue group.
pub update_group-IsSound :
    (db : Db) (queue_id : ℕ) (f : QueueGroup → QueueGroup) (g : QueueGroup)
    → IsSound db
    → find_row (λ (x : QueueGroup). x.id == queue_id) db.queues ≡ some g
    → (f g).id ≡ g.id
    → (f g).club_id ≡ g.club_id
    → (f g).court_number ≡ g.court_number
    → (f g).position ≡ g.position
    → is_uneven_group (f g) ≡ false
    → ((id : ℕ) → waits id (f g) + places id db ≤ 1 + waits id g)
    → IsSound (record db { queues = update (λ x. x.id == queue_id) f db.queues })
update_group-IsSound db queue_id f g v found key club court position even place = record {
  credential_ids = v.credential_ids;
  session_ids = v.session_ids;
  queue_ids = λ id. ground (arith, change (λ x. bit (x.id == id)), v.queue_ids id);
  one_session = v.one_session;
  one_place = λ id. ground (arith, change (waits id), place id);
  even_sessions = v.even_sessions;
  even_groups = ground (arith, change (λ x. bit (is_uneven_group x)), v.even_groups);
  dense = λ club_id number k. ground (
    arith,
    same (stands_at club_id number k) (ground arith),
    same (waits_for club_id number) (ground arith),
    v.dense club_id number k,
  );
}
  where
    change :
        (m : QueueGroup → ℕ)
        → total m (update (λ x. x.id == queue_id) f db.queues) + m g ≡ total m db.queues + m (f g)
    change m = total-update (λ x. x.id == queue_id) f m db.queues g found (v.queue_ids queue_id)

    same :
        (p : QueueGroup → Bool)
        → p (f g) ≡ p g
        → tally p (update (λ x. x.id == queue_id) f db.queues) ≡ tally p db.queues
    same p e = ground (arith, change (λ x. bit (p x)))

-- A new group at the end of a court's queue, of players that have no place.
pub add_group-IsSound :
    (db : Db) (g : QueueGroup)
    → IsSound db
    → tally (λ (x : QueueGroup). x.id == g.id) db.queues ≡ 0
    → g.position ≡ queue_len g.club_id g.court_number db + 1
    → is_two_or_four (length g.players) ≡ true
    → ((id : ℕ) → count id g.players ≤ 1)
    → ((id : ℕ) → 1 ≤ count id g.players → places id db ≡ 0)
    → IsSound (record db { queues = db.queues ++ g ∷ [] })
add_group-IsSound db g v fresh last even distinct free = record {
  credential_ids = v.credential_ids;
  session_ids = v.session_ids;
  queue_ids = λ id.
      ground (arith, total-snoc (λ x. bit (x.id == id)) db.queues g, v.queue_ids id, same_id id);
  one_session = v.one_session;
  one_place =
      λ id. ground (arith, total-snoc (waits id) db.queues g, v.one_place id, distinct id, free id);
  even_sessions = v.even_sessions;
  even_groups =
      ground (arith, total-snoc (λ x. bit (is_uneven_group x)) db.queues g, v.even_groups);
  dense = λ club_id number k. ground (
    arith,
    total-snoc (λ x. bit (stands_at club_id number k x)) db.queues g,
    total-snoc (λ x. bit (waits_for club_id number x)) db.queues g,
    v.dense club_id number k,
    last_here club_id number,
  );
}
  where
    same_id : (id : ℕ) → g.id ≡ id → tally (λ (x : QueueGroup). x.id == id) db.queues ≡ 0
    same_id id e = rw (← e) fresh

    last_here :
        (club_id number : ℕ)
        → g.club_id ≡ club_id
        → g.court_number ≡ number
        → g.position ≡ queue_len club_id number db + 1
    last_here club_id number e q = rw (← e, ← q) last
