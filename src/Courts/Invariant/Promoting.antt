-- ===== src/Courts/Invariant/Promoting.antt =====
-- Lemmas on `promote_next` (src/courts.rs).
use badminton_be_rust.Prelude.{
  ℕ, suc, ◌+◌, ◌≤◌, ◌≡◌, refl, ◌⊎◌, inl, inr, Bool, true, false, List, some, In, find_row, arith,
  Bool-cases,
}
use badminton_be_rust.Courts.Tables.{Session, QueueGroup, Db, Env}
use badminton_be_rust.Courts.Queries.{plays_on, waits_for}
use badminton_be_rust.Courts.Actions.{queue_len}
use badminton_be_rust.Courts.Promotion.{
  all_usable, Walk, Promotion, promoted, not_promoted, raced, promote_head, promote_next,
}
use badminton_be_rust.Courts.Invariant.{IsSound}
use badminton_be_rust.Courts.Invariant.Inserts.{IsFresh}
use badminton_be_rust.Courts.Invariant.Fronts.{advance}
use badminton_be_rust.Courts.Invariant.Walking.{Walked, walk_queue-Walked}
use badminton_be_rust.Courts.Invariant.Seating.{SeatsNext, Walked-SeatsNext}
use badminton_be_rust.Courts.Invariant.Starting.{start_group-Promoted}

-- How `promote_next` ends: the next group of the queue is on the court; or the groups at the
-- queue's first places are gone, each with a player who may not play, and none is left or the court
-- is closed, and the sessions stand as they were. It does not lose the race.
abbrev pub HasResolved : Env → ℕ → ℕ → ℕ → Bool → ℕ → Db → Promotion × Db → Type 0
HasResolved env club_id number session_minutes closed today db (promoted dropped, db') =
    (closed ≡ false)
    × IsSound db'
    × (queue_len club_id number db' + dropped + 1 ≡ queue_len club_id number db)
    × SeatsNext env club_id number session_minutes today dropped db db'
HasResolved env club_id number session_minutes closed today db (not_promoted, db') =
    IsSound db'
    × (db'.sessions ≡ db.sessions)
    × (db'.credentials ≡ db.credentials)
    × ((queue_len club_id number db' ≡ 0) ⊎ (closed ≡ true))
    × ((dropped : ℕ) × (db'.queues ≡ advance club_id number dropped db.queues)
        × ((x : QueueGroup)
            → In x db.queues
            → waits_for club_id number x ≡ true
            → x.position ≤ dropped
            → all_usable today x.players db ≡ false))
HasResolved env club_id number session_minutes closed today db (raced, db') = ⊥

Walked-IsFresh :
    {env : Env} {club_id number today : ℕ} {db : Db} {w : Walk}
    → IsFresh env db
    → Walked club_id number today db w
    → IsFresh env w.db
Walked-IsFresh {env} f r = record {
  sessions = rw r.sessions f.sessions;
  queues = omega (arith, f.queues, r.fewer_ids env.new_id);
}

module _ (env : Env) (club_id number session_minutes : ℕ) (closed : Bool) (today : ℕ) (s : Session)
    (also_lock : List ℕ) (db : Db) where
  promote_head-HasResolved :
      (w : Walk)
      → IsFresh env w.db
      → find_row (plays_on club_id number) db.sessions ≡ some s
      → Walked club_id number today db w
      → HasResolved env club_id number session_minutes closed today db (
          promote_head env club_id number session_minutes closed s.id also_lock w.dropped w.db
            w.head)
  promote_head-HasResolved w fresh found r = elim r.stop [
    | inl (none_left, empty) ↦
        rw none_left
          (r.sound, r.sessions, r.credentials, inl empty, (w.dropped, r.queue, r.skipped))
    | inr (g, is_head, first, usable) ↦ elim (Bool-cases closed) [
      | inl c ↦
          rw (is_head, c)
            (r.sound, r.sessions, r.credentials, inr refl, (w.dropped, r.queue, r.skipped))
      | inr c ↦
          let (db', e, p) =
            start_group-Promoted env club_id number session_minutes s also_lock g w.dropped w.db
              r.sound fresh (rw r.sessions found) first in
          rw (is_head, c, e)
            (
              refl,
              p.sound,
              omega (arith, p.shorter, r.dropped),
              Walked-SeatsNext env club_id number session_minutes today db db' w g r first usable
                  p.playing p.queue,
            )
    ]
  ]

  -- In sound tables with an unused UUID, `promote_next` for a court's active session ends and does
  -- not lose the race. Either the court is open, and the first group of its queue whose players may
  -- all play has it, on a session from now on; this group and the groups before it, each of which
  -- has a player who may not play, are gone from the queue, whoever is behind them moves up by as
  -- many places, and no other queue row changes. Or nobody is promoted, the sessions and
  -- credentials are as they were, groups at the first places that have such a player are gone in
  -- the same way, and the queue is empty or the court closed. The tables are sound afterwards.
  pub promote_next-HasResolved :
      IsSound db
      → IsFresh env db
      → find_row (plays_on club_id number) db.sessions ≡ some s
      → (r : Promotion × Db) × (promote_next env club_id number session_minutes closed today s.id
            also_lock db
          ≡ some r)
        × HasResolved env club_id number session_minutes closed today db r
  unfolding promote_next
  promote_next-HasResolved v fresh found =
      let (w, e, r) =
        walk_queue-Walked (suc (queue_len club_id number db)) club_id number today db v
          (omega arith) in
      (_, rw (e, promote_next), promote_head-HasResolved w (Walked-IsFresh fresh r) found r)
