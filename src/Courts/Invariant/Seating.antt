-- ===== src/Courts/Invariant/Seating.antt =====
-- Whom `promote_next` (src/courts.rs) seats.
use badminton_be_rust.Prelude.{
  ℕ, ◌+◌, ◌≤◌, ◌≡◌, sym, ap, subst, ◌∙◌, List, true, false, some, In, find_row, arith,
}
use badminton_be_rust.Courts.Tables.{QueueGroup, Db, Env}
use badminton_be_rust.Courts.Queries.{plays_on, waits_for}
use badminton_be_rust.Courts.Players.{seat_session}
use badminton_be_rust.Courts.Actions.{fresh_session}
use badminton_be_rust.Courts.Promotion.{all_usable, queue_head, Walk}
use badminton_be_rust.Courts.Invariant.Fronts.{advance, advance-advance, advance-ComesFrom}
use badminton_be_rust.Courts.Invariant.Heads.{queue_head-In, head_place}
use badminton_be_rust.Courts.Invariant.Walking.{Walked}

-- The next group of the queue is on the court: the first one whose players may all play, behind
-- `dropped` groups that each have a player who may not. These and the group are gone from the queue,
-- and nothing else of it changes.
pub record SeatsNext (env : Env) (club_id number session_minutes today dropped : ℕ) (db db' : Db)
    : Type 0 where
  pub group : QueueGroup
  pub queued : In group db.queues
  pub group_waits : waits_for club_id number group ≡ true
  pub place : group.position ≡ dropped + 1
  pub usable : all_usable today group.players db ≡ true
  pub skipped :
      (x : QueueGroup)
      → In x db.queues
      → waits_for club_id number x ≡ true
      → x.position ≤ dropped
      → all_usable today x.players db ≡ false
  pub playing :
      find_row (plays_on club_id number) db'.sessions
      ≡ some (seat_session group.players (fresh_session env club_id number session_minutes))
  pub queue : db'.queues ≡ advance club_id number (dropped + 1) db.queues

pub all_usable-credentials :
    (today : ℕ) (ids : List ℕ) (db db' : Db)
    → db'.credentials ≡ db.credentials
    → all_usable today ids db' ≡ all_usable today ids db
unfolding all_usable
all_usable-credentials today ids db db' e = rw e

-- The group at the head, where the walk over the queue stops.
pub Walked-SeatsNext :
    (env : Env) (club_id number session_minutes today : ℕ) (db db' : Db) (w : Walk) (g : QueueGroup)
    → Walked club_id number today db w
    → queue_head club_id number w.db.queues ≡ some g
    → all_usable today g.players w.db ≡ true
    → find_row (plays_on club_id number) db'.sessions
      ≡ some (seat_session g.players (fresh_session env club_id number session_minutes))
    → db'.queues ≡ advance club_id number 1 w.db.queues
    → SeatsNext env club_id number session_minutes today w.dropped db db'
Walked-SeatsNext env club_id number session_minutes today db db' w g r first usable playing queue =
    let (m, waits) = queue_head-In club_id number w.db.queues g first in
    let from =
      advance-ComesFrom club_id number w.dropped g db.queues (subst (In g) r.queue m) waits in
    let head = head_place club_id number w.db r.sound g first in
    let players : from.group.players ≡ g.players =
      sym (ap (λ (x : QueueGroup). x.players) from.same) in
    record {
      group = from.group;
      queued = from.queued;
      group_waits = from.group_waits;
      place = omega (arith, from.place, head);
      usable =
          ap (λ ids. all_usable today ids db) players
          ∙ sym (all_usable-credentials today g.players db w.db r.credentials)
          ∙ usable;
      skipped = r.skipped;
      playing =
          playing
          ∙ ap (λ ids. some (seat_session ids (fresh_session env club_id number session_minutes)))
              (sym players);
      queue =
          queue
          ∙ ap (advance club_id number 1) r.queue
          ∙ advance-advance club_id number 1 w.dropped db.queues;
    }

-- The same seen from tables with the same queues and credentials.
pub SeatsNext-before :
    {env : Env} {club_id number session_minutes today dropped : ℕ} (db₁ db db' : Db)
    → db₁.queues ≡ db.queues
    → db₁.credentials ≡ db.credentials
    → SeatsNext env club_id number session_minutes today dropped db₁ db'
    → SeatsNext env club_id number session_minutes today dropped db db'
SeatsNext-before {club_id = club_id} {number = number} {today = today} {dropped = dropped} db₁ db
      db' queues credentials s =
    record {
      group = s.group;
      queued = subst (In s.group) queues s.queued;
      group_waits = s.group_waits;
      place = s.place;
      usable = sym (all_usable-credentials today s.group.players db db₁ credentials) ∙ s.usable;
      skipped = λ x m w h.
          sym (all_usable-credentials today x.players db db₁ credentials)
          ∙ s.skipped x (subst (In x) (sym queues) m) w h;
      playing = s.playing;
      queue = s.queue ∙ ap (advance club_id number (dropped + 1)) queues;
    }
