-- ===== src/Courts/Invariant/Walking.antt =====
-- Lemmas on the walk over a queue in `promote_next` (src/courts.rs).
use badminton_be_rust.Prelude.{
  ℕ, zero, suc, ◌+◌, ◌≤◌, ◌<◌, ◌≡◌, refl, sym, ap, subst, ◌∙◌, ◌⊎◌, inl, inr, true, false, leb,
  Option, none, some, In, arith, ◌==◌, tally, Bool-cases, Option-cases,
}
use badminton_be_rust.Courts.Tables.{QueueGroup, Db}
use badminton_be_rust.Courts.Queries.{waits_for}
use badminton_be_rust.Courts.Actions.{queue_len}
use badminton_be_rust.Courts.Promotion.{
  remove_queue_group, queue_head, all_usable, Walk, walk_queue,
}
use badminton_be_rust.Courts.Invariant.{places, IsSound}
use badminton_be_rust.Courts.Invariant.Queueing.{in_range}
use badminton_be_rust.Courts.Invariant.Fronts.{
  advance, moved, advance-advance, advance_nothing, advance-In,
}
use badminton_be_rust.Courts.Invariant.Heads.{
  queue_head-none, queue_head-In, head_found, head_place, remove_head, same_place,
}
use badminton_be_rust.Courts.Invariant.Renumbering.{
  remove_queue_group-IsSound, remove_queue_group-places, remove_queue_group-ids,
  remove_queue_group-queue_len,
}

-- Where a walk over a court's queue stops: the tables that it leaves, the groups at the queue's
-- first places gone, each with a player who may not play, and the group at the head, if any is
-- left, whose players may all play.
pub record Walked (club_id number today : ℕ) (db : Db) (w : Walk) : Type 0 where
  pub sound : IsSound w.db
  pub clubs : w.db.clubs ≡ db.clubs
  pub courts : w.db.courts ≡ db.courts
  pub credentials : w.db.credentials ≡ db.credentials
  pub sessions : w.db.sessions ≡ db.sessions
  pub fewer : (id : ℕ) → places id w.db ≤ places id db
  pub fewer_ids :
      (id : ℕ)
      → tally (λ (x : QueueGroup). x.id == id) w.db.queues
        ≤ tally (λ (x : QueueGroup). x.id == id) db.queues
  pub dropped : queue_len club_id number w.db + w.dropped ≡ queue_len club_id number db
  pub queue : w.db.queues ≡ advance club_id number w.dropped db.queues
  pub skipped :
      (x : QueueGroup)
      → In x db.queues
      → waits_for club_id number x ≡ true
      → x.position ≤ w.dropped
      → all_usable today x.players db ≡ false
  pub stop :
      ((w.head ≡ none) × (queue_len club_id number w.db ≡ 0))
      ⊎ ((g : QueueGroup) × (w.head ≡ some g)
          × (queue_head club_id number w.db.queues ≡ some g)
          × (all_usable today g.players w.db ≡ true))

-- Who stands at the queue's first places is its head or behind it.
skipped_more :
    (club_id number today : ℕ) (db : Db) (g : QueueGroup) (w : Walk)
    → IsSound db
    → queue_head club_id number db.queues ≡ some g
    → all_usable today g.players db ≡ false
    → Walked club_id number today (remove_queue_group club_id number g.id db) w
    → (x : QueueGroup) → In x db.queues
    → waits_for club_id number x ≡ true
    → x.position ≤ w.dropped + 1
    → all_usable today x.players db ≡ false
unfolding all_usable remove_queue_group
skipped_more club_id number today db g w v first bad r x m w₁ h =
    elim (Bool-cases (leb x.position 1)) [
      | inl front ↦
          let low = in_range club_id number db x v m w₁ in
          let (mg, wg) = queue_head-In club_id number db.queues g first in
          let same =
            same_place club_id number db v x g m mg w₁ wg
              (ground (arith, low, head_place club_id number db v g first)) in
          rw same bad
      | inr behind ↦
          let n =
            subst (In (moved club_id number 1 x)) (sym (remove_head club_id number db v g first))
              (advance-In club_id number 1 x db.queues m w₁ (ground arith)) in
          r.skipped (moved club_id number 1 x) n w₁ (omega (arith, h))
    ]

-- One dropped group more.
Walked-one_more :
    (club_id number today : ℕ) (db : Db) (g : QueueGroup) (w : Walk)
    → IsSound db
    → queue_head club_id number db.queues ≡ some g
    → all_usable today g.players db ≡ false
    → Walked club_id number today (remove_queue_group club_id number g.id db) w
    → Walked club_id number today db (record w { dropped = w.dropped + 1 })
unfolding remove_queue_group
Walked-one_more club_id number today db g w v first bad r =
    let found = head_found club_id number db v g first in
    let (_, here_waits) = queue_head-In club_id number db.queues g first in
    record {
      sound = r.sound;
      clubs = r.clubs;
      courts = r.courts;
      credentials = r.credentials;
      sessions = r.sessions;
      fewer = λ id. omega (
        arith,
        r.fewer id,
        remove_queue_group-places club_id number db v g.id g found here_waits id,
      );
      fewer_ids = λ id. omega (
        arith,
        r.fewer_ids id,
        remove_queue_group-ids club_id number db v g.id g found here_waits id,
      );
      dropped = omega (
        arith,
        r.dropped,
        remove_queue_group-queue_len club_id number db v g.id g found here_waits,
      );
      queue =
          r.queue
          ∙ ap (advance club_id number w.dropped) (remove_head club_id number db v g first)
          ∙ advance-advance club_id number w.dropped 1 db.queues
          ∙ ap (λ k. advance club_id number k db.queues) (omega arith);
      skipped = skipped_more club_id number today db g w v first bad r;
      stop = r.stop;
    }

-- Before any group is dropped.
undropped :
    (club_id number today : ℕ) (db : Db) (head : Option QueueGroup)
    → IsSound db
    → let w : Walk = record { dropped = 0; head = head; db = db } in
      ((head ≡ none) × (queue_len club_id number db ≡ 0))
        ⊎ ((g : QueueGroup) × (head ≡ some g)
            × (queue_head club_id number db.queues ≡ some g)
            × (all_usable today g.players db ≡ true))
      → Walked club_id number today db w
undropped club_id number today db head v stop = record {
  sound = v;
  clubs = refl;
  courts = refl;
  credentials = refl;
  sessions = refl;
  fewer = λ id. omega arith;
  fewer_ids = λ id. omega arith;
  dropped = omega arith;
  queue =
      sym (
        advance_nothing club_id number db.queues (λ x m w. (in_range club_id number db x v m w).0));
  skipped = λ x m w h. absurd (omega (arith, (in_range club_id number db x v m w).0, h));
  stop = stop;
}

-- In sound tables, with more fuel than the court's queue has groups, the walk over the queue ends.
-- It leaves sound tables with the sessions, courts, clubs and credentials as they were, has dropped
-- the groups at the first places of the queue, each of which has a player who may not play, and no
-- others, and stops at an empty queue or at a head whose players may all play.
pub walk_queue-Walked :
    (fuel club_id number today : ℕ) (db : Db)
    → IsSound db
    → queue_len club_id number db < fuel
    → (w : Walk) × (walk_queue fuel club_id number today db ≡ some w)
      × Walked club_id number today db w
unfolding walk_queue
walk_queue-Walked zero club_id number today db v h = elim h [ ]
walk_queue-Walked (suc fuel) club_id number today db v h =
    elim (Option-cases (queue_head club_id number db.queues)) [
      | inl q ↦ (
        record { dropped = 0; head = none; db = db },
        rw (q, walk_queue),
        undropped club_id number today db none v
            (inl (refl, queue_head-none club_id number db.queues q)),
      )
      | inr (g, q) ↦ elim (Bool-cases (all_usable today g.players db)) [
        | inl u ↦ (
          record { dropped = 0; head = some g; db = db },
          rw (q, u, walk_queue),
          undropped club_id number today db (some g) v (inr (g, refl, q, u)),
        )
        | inr u ↦
            let (_, waits) = queue_head-In club_id number db.queues g q in
            let found = head_found club_id number db v g q in
            let (w, e, r) =
              walk_queue-Walked fuel club_id number today
                (remove_queue_group club_id number g.id db)
                (remove_queue_group-IsSound club_id number db v g.id g found waits)
                (omega
                  (arith, remove_queue_group-queue_len club_id number db v g.id g found waits)) in
            (
              record w { dropped = w.dropped + 1 },
              rw (q, u, e, walk_queue),
              Walked-one_more club_id number today db g w v q u r,
            )
      ]
    ]
