-- ===== src/Courts/Invariant/Queueing.antt =====
-- Lemmas on `queue_court` (src/courts.rs) and the numbering of a queue.
use badminton_be_rust.Prelude.{
  some-eq-some, not-true, ltb_iff, ℕ, ◌+◌, ◌≤◌, ◌≡◌, refl, sym, ap, ◌∙◌, true, false, not, List, [],
  ◌∷◌, ◌++◌, some, ok, any, In, here, there, find_row-append, tally-any, arith, leb, ltb, ◌==◌,
  length, total, tally, tally_pos, find_row, find_row_of_tally, guard_then-eq-ok,
  or_fail_then-eq-ok, >>=-eq-ok, is_some,
}
use badminton_be_rust.Courts.Tables.{QueueGroup, Db, Env, ClubRow, PlayerCred}
use badminton_be_rust.Courts.Queries.{
  waits_for, lock_court, court_state, check_group_size, club_today,
}
use badminton_be_rust.Courts.Players.{validate_players, seat_group, insert_queue_players}
use badminton_be_rust.Courts.Actions.{
  begin, queue_court, queue_len, max_position, fresh_group, stands_at, append_group,
  enqueue_players,
}
use badminton_be_rust.Courts.Invariant.{is_two_or_four, IsSound}
use badminton_be_rust.Courts.Invariant.Resolving.{validate_players-AreFree}
use badminton_be_rust.Courts.Invariant.Rows.{add_group-IsSound}
use badminton_be_rust.Courts.Invariant.Inserts.{
  SameTables-IsSound, IsFresh, insert_queue_players-eq-ok, fill_group,
}
use badminton_be_rust.Courts.Invariant.SignUp.{
  begin-SameTables, places-SameTables, check_group_size-two_or_four,
}

max_position-le :
    (club_id number n : ℕ) (gs : List QueueGroup)
    → ((g : QueueGroup) → In g gs → waits_for club_id number g ≡ true → g.position ≤ n)
    → max_position club_id number gs ≤ n
unfolding max_position
max_position-le club_id number n [] h = omega arith
max_position-le club_id number n (g ∷ gs) h =
    ground (arith, h g (here refl), max_position-le club_id number n gs (λ x m. h x (there m)))

max_position-ge :
    (club_id number k : ℕ) (gs : List QueueGroup)
    → 1 ≤ tally (stands_at club_id number k) gs
    → k ≤ max_position club_id number gs
unfolding max_position total
max_position-ge club_id number k [] h = absurd (omega arith)
max_position-ge club_id number k (g ∷ gs) h = ground (arith, max_position-ge club_id number k gs)

-- A row of a densely numbered queue stands between 1 and N.
pub in_range :
    (club_id number : ℕ) (db : Db) (g : QueueGroup)
    → IsSound db
    → In g db.queues
    → waits_for club_id number g ≡ true
    → (1 ≤ g.position) × (g.position ≤ queue_len club_id number db)
in_range club_id number db g v m w = ground (
  arith,
  tally_pos (stands_at club_id number g.position) db.queues g m,
  v.dense club_id number g.position,
)

-- In sound tables the greatest position in a court's queue is the queue's length.
pub max_position-queue_len :
    (club_id number : ℕ) (db : Db)
    → IsSound db
    → max_position club_id number db.queues ≡ queue_len club_id number db
max_position-queue_len club_id number db v = ground (
  arith,
  max_position-le club_id number (queue_len club_id number db) db.queues
      (λ g m w. (in_range club_id number db g v m w).1),
  max_position-ge club_id number (queue_len club_id number db) db.queues,
  v.dense club_id number (queue_len club_id number db),
)

pub record Appended (env : Env) (club_id number : ℕ) (ids : List ℕ) (position : ℕ) (db db' : Db)
    : Type 0 where
  pub place : position ≡ max_position club_id number db.queues + 1
  pub result : db' ≡ record db {
    queues = db.queues ++ seat_group ids (fresh_group env club_id number position) ∷ [];
  }

find_fresh :
    (env : Env) (club_id number position : ℕ) (gs : List QueueGroup)
    → any (stands_at club_id number position) gs ≡ false
    → find_row
        (stands_at club_id number position)
        (gs ++ fresh_group env club_id number position ∷ [])
      ≡ some (fresh_group env club_id number position)
unfolding find_row
find_fresh env club_id number position gs h =
    find_row-append (stands_at club_id number position) gs
      (fresh_group env club_id number position ∷ [])
      (find_row_of_tally (stands_at club_id number position) gs
        (tally-any (stands_at club_id number position) gs h))
    ∙ ground arith

fill_fresh :
    (env : Env) (club_id number position : ℕ) (ids : List ℕ) (g : QueueGroup) (db db' : Db)
    → tally (λ (x : QueueGroup). x.id == env.new_id) db.queues ≡ 0
    → g ≡ fresh_group env club_id number position
    → insert_queue_players g.id ids
        (record db { queues = db.queues ++ fresh_group env club_id number position ∷ [] })
      ≡ ok db'
    → db' ≡ record db {
      queues = db.queues ++ seat_group ids (fresh_group env club_id number position) ∷ [];
    }
fill_fresh env club_id number position ids g db db' fresh same e =
    insert_queue_players-eq-ok env.new_id ids _ db' (rw same at e)
    ∙ ap (λ gs. record db { queues = gs })
        (fill_group (fresh_group env club_id number position) ids db.queues fresh)

append_group-Appended :
    (env : Env) (club_id number : ℕ) (ids : List ℕ) (position : ℕ) (db db' : Db)
    → tally (λ (x : QueueGroup). x.id == env.new_id) db.queues ≡ 0
    → append_group env club_id number ids db ≡ ok (position, db')
    → Appended env club_id number ids position db db'
unfolding append_group
append_group-Appended env club_id number ids position db db' fresh e =
    let k = max_position club_id number db.queues + 1 in
    let (vacant, e₁) = guard_then-eq-ok (not (any (stands_at club_id number k) db.queues)) _ _ e in
    let (g, found, e₂) =
      or_fail_then-eq-ok
        (find_row (stands_at club_id number k) (db.queues ++ fresh_group env club_id number k ∷ []))
        _ _ e₁ in
    let (filled, done, e₃) =
      >>=-eq-ok
        (insert_queue_players g.id ids
          (record db { queues = db.queues ++ fresh_group env club_id number k ∷ [] }))
        _ e₂ in
    let same : g ≡ fresh_group env club_id number k =
      some-eq-some (sym found ∙ find_fresh env club_id number k db.queues (not-true _ vacant)) in
    let place : k ≡ position = cc e₃ in
    let final : filled ≡ db' = cc e₃ in
    record {
      place = sym place;
      result =
          sym final
          ∙ fill_fresh env club_id number k ids g db filled fresh same done
          ∙ ap
              (λ n. record db {
                queues = db.queues ++ seat_group ids (fresh_group env club_id number n) ∷ [];
              })
              place;
    }

-- The group that a successful enqueue appends.
pub enqueue_players-IsSound :
    (env : Env) (club : ClubRow) (number : ℕ) (players : List PlayerCred) (db db' : Db)
    (position : ℕ)
    → IsSound db
    → IsFresh env db
    → is_two_or_four (length players) ≡ true
    → enqueue_players env club number players db ≡ ok (position, db')
    → IsSound db' × (position ≡ queue_len club.id number db + 1)
unfolding enqueue_players
enqueue_players-IsSound env club number players db db' position v fresh even e =
    let ((ids, locked), validated, e₁) =
      >>=-eq-ok (validate_players club.id players (club_today env club.timezone) db) _ e in
    let free =
      validate_players-AreFree club.id players _ db locked ids v.credential_ids validated in
    let v₁ = SameTables-IsSound free.same v in
    let none_yet : tally (λ (x : QueueGroup). x.id == env.new_id) locked.queues ≡ 0 =
      rw free.same.queues fresh.queues in
    let done = append_group-Appended env club.id number ids position locked db' none_yet e₁ in
    let last : position ≡ queue_len club.id number locked + 1 =
      done.place ∙ ap (λ n. n + 1) (max_position-queue_len club.id number locked v₁) in
    (
      rw done.result (
          add_group-IsSound locked (seat_group ids (fresh_group env club.id number position)) v₁
            none_yet last (rw free.number even) free.distinct
            (λ id m. places-SameTables id free.same (free.free id m))),
      last ∙ ap (λ gs. tally (waits_for club.id number) gs + 1) free.same.queues,
    )

-- If the tables are sound, the new group's UUID is unused and `queue_court` succeeds, the tables
-- that it leaves are sound, and the position that it gives is one more than the length of the
-- court's queue, and at most the club's queue depth.
pub queue_court-IsSound :
    (env : Env) (club : ClubRow) (number : ℕ) (players : List PlayerCred) (db db' : Db)
    (position : ℕ)
    → IsSound db
    → IsFresh env db
    → queue_court env club number players db ≡ ok (position, db')
    → IsSound db' × (position ≡ queue_len club.id number db + 1) × (position ≤ club.queue_depth)
unfolding queue_court lock_court
queue_court-IsSound env club number players db db' position v fresh e =
    let tx = lock_court club.id number (begin db) in
    let same = begin-SameTables club.id number db in
    let (_, size, e₁) = >>=-eq-ok (check_group_size (length players) (2 ∷ 4 ∷ [])) _ e in
    let (court, state, e₂) = >>=-eq-ok (court_state env club.id number tx) _ e₁ in
    let (_, e₃) = guard_then-eq-ok (not court.closed) _ _ e₂ in
    let (_, e₄) = guard_then-eq-ok (is_some court.session_id) _ _ e₃ in
    let (_, e₅) = guard_then-eq-ok (leb 4 court.player_count) _ _ e₄ in
    let (room, e₆) = guard_then-eq-ok (ltb (queue_len club.id number tx) club.queue_depth) _ _ e₅ in
    let (v', place) =
      enqueue_players-IsSound env club number players tx db' position (SameTables-IsSound same v)
        (record { sessions = fresh.sessions; queues = fresh.queues })
        (check_group_size-two_or_four (length players) size) e₆ in
    (
      v',
      place,
      omega (arith, (ltb_iff (queue_len club.id number tx) club.queue_depth).0 room, place),
    )
