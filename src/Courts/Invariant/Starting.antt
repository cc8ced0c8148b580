-- ===== src/Courts/Invariant/Starting.antt =====
-- Lemmas on `start_group`, a step of `promote_next` (src/courts.rs).
use badminton_be_rust.Prelude.{
  ℕ, ◌+◌, ◌≤◌, ◌≡◌, refl, ap, ◌∙◌, true, List, [], ◌∷◌, ◌++◌, some, In, find_row_of_In,
  find_row-append, find_row_of_tally, total-ge, total-update, any-tally, find_row, find_row-passes,
  arith, bit, ◌==◌, total, tally, count, length,
}
use badminton_be_rust.Courts.Tables.{Session, SessionStatus, QueueGroup, Db, Env}
use badminton_be_rust.Courts.Queries.{plays_on, waits_for, lock_credentials}
use badminton_be_rust.Courts.Players.{seat_session}
use badminton_be_rust.Courts.Actions.{queue_len, fresh_session, insert_session}
use badminton_be_rust.Courts.Promotion.{
  remove_queue_group, queue_head, promoted, end_session, taken_over, start_group,
}
use badminton_be_rust.Courts.Invariant.{waits, places, is_two_or_four, is_uneven_group, IsSound}
use badminton_be_rust.Courts.Invariant.Resolving.{lock_credentials-SameTables}
use badminton_be_rust.Courts.Invariant.Rows.{add_session-IsSound, update_session-IsSound}
use badminton_be_rust.Courts.Invariant.Inserts.{SameTables-IsSound, IsFresh, fill_session}
use badminton_be_rust.Courts.Invariant.SignUp.{by_id}
use badminton_be_rust.Courts.Invariant.Renumbering.{
  remove_queue_group-IsSound, remove_queue_group-places, remove_queue_group-queue_len,
}
use badminton_be_rust.Courts.Invariant.Fronts.{advance}
use badminton_be_rust.Courts.Invariant.Heads.{queue_head-In, remove_head}

-- A session that ends gives up its players' places and its court.
pub end_session-IsSound :
    (db : Db) (club_id number : ℕ) (s : Session)
    → IsSound db
    → find_row (plays_on club_id number) db.sessions ≡ some s
    → IsSound (record db { sessions = end_session s.id db.sessions })
end_session-IsSound db club_id number s v found =
    let (row, _) = by_id db club_id number s v found in
    update_session-IsSound db s.id (λ s. record s { status = SessionStatus.done }) s v row refl refl
      refl (λ h. cc) refl (λ id. omega (arith, v.one_place id))

pub end_session-total :
    (db : Db) (club_id number : ℕ) (s : Session) (m : Session → ℕ)
    → IsSound db
    → find_row (plays_on club_id number) db.sessions ≡ some s
    → total m (end_session s.id db.sessions) + m s
      ≡ total m db.sessions + m (record s { status = SessionStatus.done })
end_session-total db club_id number s m v found =
    total-update (λ (x : Session). x.id == s.id) (λ s. record s { status = SessionStatus.done }) m
      db.sessions s (by_id db club_id number s v found).0 (v.session_ids s.id)

-- Afterwards the court is idle.
pub end_session-idle :
    (db : Db) (club_id number : ℕ) (s : Session)
    → IsSound db
    → find_row (plays_on club_id number) db.sessions ≡ some s
    → tally (plays_on club_id number) (end_session s.id db.sessions) ≡ 0
end_session-idle db club_id number s v found = ground (
  arith,
  end_session-total db club_id number s (λ x. bit (plays_on club_id number x)) v found,
  v.one_session club_id number,
  find_row-passes (plays_on club_id number) db.sessions s found,
)

insert_session_idle :
    (env : Env) (club_id number session_minutes : ℕ) (db : Db)
    → tally (plays_on club_id number) db.sessions ≡ 0
    → insert_session env club_id number session_minutes db
      ≡ some (record db {
        sessions = db.sessions ++ fresh_session env club_id number session_minutes ∷ [];
      })
unfolding insert_session
insert_session_idle env club_id number session_minutes db h =
    rw (any-tally (plays_on club_id number) db.sessions h)

-- What is known of a queue group: 2 or 4 players, no two the same.
group_even :
    (db : Db) (g : QueueGroup)
    → IsSound db
    → In g db.queues
    → is_two_or_four (length g.players) ≡ true
group_even db g v m =
    ground (arith, total-ge (λ x. bit (is_uneven_group x)) g db.queues m, v.even_groups)

group_count :
    (db : Db) (g : QueueGroup) (id : ℕ) → IsSound db → In g db.queues → count id g.players ≤ 1
group_count db g id v m = omega (arith, total-ge (waits id) g db.queues m, v.one_place id)

-- The outcome of a promotion: the tables, with the group in play and out of the queue.
pub record Promoted (env : Env) (club_id number session_minutes : ℕ) (g : QueueGroup) (db db' : Db)
    : Type 0 where
  pub sound : IsSound db'
  pub playing :
      find_row (plays_on club_id number) db'.sessions
      ≡ some (seat_session g.players (fresh_session env club_id number session_minutes))
  pub shorter : queue_len club_id number db' + 1 ≡ queue_len club_id number db
  pub queue : db'.queues ≡ advance club_id number 1 db.queues

module _ (env : Env) (club_id number session_minutes : ℕ) (db : Db) (v : IsSound db)
    (fresh : IsFresh env db) (s : Session) (g : QueueGroup)
    (found : find_row (plays_on club_id number) db.sessions ≡ some s)
    (first : queue_head club_id number db.queues ≡ some g) where
  moved : Session
  moved = seat_session g.players (fresh_session env club_id number session_minutes)

  -- The old session ended and the group taken from the queue.
  between : Db
  between =
      remove_queue_group club_id number g.id (record db { sessions = end_session s.id db.sessions })

  row_of_group : find_row (λ (x : QueueGroup). x.id == g.id) db.queues ≡ some g
  row_of_group =
      find_row_of_In (λ (x : QueueGroup). x.id == g.id) g db.queues (v.queue_ids g.id)
        (ground arith) (queue_head-In club_id number db.queues g first).0

  ended-IsSound : IsSound (record db { sessions = end_session s.id db.sessions })
  ended-IsSound = end_session-IsSound db club_id number s v found

  between-IsSound : IsSound between
  unfolding between
  between-IsSound =
      remove_queue_group-IsSound club_id number
        (record db { sessions = end_session s.id db.sessions }) ended-IsSound g.id g row_of_group
        (queue_head-In club_id number db.queues g first).1

  ended_fresh : tally (λ (x : Session). x.id == env.new_id) (end_session s.id db.sessions) ≡ 0
  ended_fresh = ground (
    arith,
    end_session-total db club_id number s (λ x. bit (x.id == env.new_id)) v found,
    fresh.sessions,
  )

  after_promotion : Db
  after_promotion = record between { sessions = between.sessions ++ moved ∷ [] }

  between_free : (id : ℕ) → 1 ≤ count id g.players → places id between ≡ 0
  unfolding between
  between_free id m = omega (
    arith,
    remove_queue_group-places club_id number (record db { sessions = end_session s.id db.sessions })
        ended-IsSound g.id g row_of_group (queue_head-In club_id number db.queues g first).1 id,
    ended-IsSound.one_place id,
  )

  after_promotion-IsSound : IsSound after_promotion
  unfolding after_promotion moved between remove_queue_group
  after_promotion-IsSound =
      let (m, _) = queue_head-In club_id number db.queues g first in
      add_session-IsSound between moved between-IsSound ended_fresh
        (end_session-idle db club_id number s v found) (group_even db g v m)
        (λ id. group_count db g id v m) between_free

  after_promotion-Promoted : Promoted env club_id number session_minutes g db after_promotion
  unfolding after_promotion moved between remove_queue_group find_row
  after_promotion-Promoted = record {
    sound = after_promotion-IsSound;
    playing =
        find_row-append (plays_on club_id number) (end_session s.id db.sessions) _ (
          find_row_of_tally (plays_on club_id number) (end_session s.id db.sessions)
            (end_session-idle db club_id number s v found))
        ∙ ground arith;
    shorter =
        remove_queue_group-queue_len club_id number
          (record db { sessions = end_session s.id db.sessions }) ended-IsSound g.id g row_of_group
          (queue_head-In club_id number db.queues g first).1;
    queue =
        remove_head club_id number (record db { sessions = end_session s.id db.sessions })
          ended-IsSound g first;
  }

  takes_over :
      (dropped : ℕ)
      → let ended = record db { sessions = end_session s.id db.sessions } in
        taken_over env club_id number g dropped ended
          (insert_session env club_id number session_minutes ended)
        ≡ (promoted dropped, after_promotion)
  unfolding after_promotion moved between remove_queue_group
  takes_over dropped =
      let ended = record db { sessions = end_session s.id db.sessions } in
      ap (taken_over env club_id number g dropped ended) (
        insert_session_idle env club_id number session_minutes ended
          (end_session-idle db club_id number s v found))
      ∙ ap (λ ss. (promoted dropped, record between { sessions = ss }))
          (fill_session (fresh_session env club_id number session_minutes) g.players ended.sessions
            ended_fresh)

-- `start_group` never loses the race, and its result is the one above.
pub start_group-Promoted :
    (env : Env) (club_id number session_minutes : ℕ) (s : Session) (also_lock : List ℕ)
    (g : QueueGroup) (dropped : ℕ) (db : Db)
    → IsSound db
    → IsFresh env db
    → find_row (plays_on club_id number) db.sessions ≡ some s
    → queue_head club_id number db.queues ≡ some g
    → (db' : Db) × (start_group env club_id number session_minutes s.id also_lock g dropped db
        ≡ (promoted dropped, db'))
      × Promoted env club_id number session_minutes g db db'
unfolding start_group
start_group-Promoted env club_id number session_minutes s also_lock g dropped db v fresh found
      first =
    let locked = lock_credentials (g.players ++ also_lock) db in
    let same = lock_credentials-SameTables (g.players ++ also_lock) db in
    let v₁ = SameTables-IsSound same v in
    let found₁ : find_row (plays_on club_id number) locked.sessions ≡ some s =
      rw same.sessions found in
    let first₁ : queue_head club_id number locked.queues ≡ some g = rw same.queues first in
    let fresh₁ : IsFresh env locked = record {
      sessions = rw same.sessions fresh.sessions;
      queues = rw same.queues fresh.queues;
    } in
    let p =
      after_promotion-Promoted env club_id number session_minutes locked v₁ fresh₁ s g found₁
        first₁ in
    (
      after_promotion env club_id number session_minutes locked v₁ fresh₁ s g found₁ first₁,
      takes_over env club_id number session_minutes locked v₁ fresh₁ s g found₁ first₁ dropped,
      record {
        sound = p.sound;
        playing = p.playing;
        shorter = p.shorter ∙ ap (tally (waits_for club_id number)) same.queues;
        queue = p.queue ∙ ap (advance club_id number 1) same.queues;
      },
    )
