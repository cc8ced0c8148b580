-- ===== src/Courts/Invariant/Withdrawing.antt =====
-- Lemmas on `leave_queue` (src/courts.rs).
use badminton_be_rust.Prelude.{
  ℕ, ◌≤◌, ◌≡◌, sym, ap, subst, ◌∙◌, Bool, true, List, [], ◌∷◌, ◌++◌, some, some-eq-some, ok,
  find_row-In, find_row-passes, find_row_of_In, find_row, arith, ◌==◌, count, contains, length,
  is_empty, >>=-eq-ok, or_fail_then-eq-ok, guard_then-eq-ok, Text, append-eq-nil, all, head?,
  length-map,
}
use badminton_be_rust.Courts.Tables.{QueueGroup, Db, Env, ClubRow, PlayerCred}
use badminton_be_rust.Courts.Queries.{waits_for, lock_court, club_today, check_group_size}
use badminton_be_rust.Courts.Players.{leave, resolve_from, resolve_players}
use badminton_be_rust.Courts.Actions.{begin}
use badminton_be_rust.Courts.Leaving.{queued_here, find_groups, withdraw, leave_queue}
use badminton_be_rust.Courts.Invariant.{waits, IsSound}
use badminton_be_rust.Courts.Invariant.Resolving.{resolve_from-count, resolve_from-length}
use badminton_be_rust.Courts.Invariant.Inserts.{SameTables-IsSound}
use badminton_be_rust.Courts.Invariant.SignUp.{begin-SameTables}
use badminton_be_rust.Courts.Invariant.Dequeuing.{
  leavers_of, AreMembers, find_groups-ok, members_of, HasWithdrawn, withdraw-HasWithdrawn,
}

-- The group of the first leaver.
leader_group :
    (club_id number : ℕ) (db : Db) (ms : List (ℕ × ℕ)) (leader : ℕ × ℕ)
    → IsSound db
    → head? ms ≡ some leader
    → AreMembers club_id number db ms
    → (g : QueueGroup) × (find_row (λ (x : QueueGroup). x.id == g.id) db.queues ≡ some g)
      × (waits_for club_id number g ≡ true)
      × (g.id ≡ leader.1)
leader_group club_id number db [] leader v e h = cc
leader_group club_id number db ((i, q) ∷ ms) leader v e ((g, found, key), h) =
    let passes = find_row-passes (queued_here club_id number i) db.queues g found in
    (
      g,
      find_row_of_In (λ (y : QueueGroup). y.id == g.id) g db.queues (v.queue_ids g.id)
          (ground arith) (find_row-In (queued_here club_id number i) db.queues g found),
      ground arith,
      key ∙ ap (λ m. m.1) (some-eq-some e),
    )

-- If the tables are sound and `leave_queue` succeeds: the leavers are as many as the players that
-- signed off, no two the same and all of one queue group of the court; either a pair of four left
-- the other pair in the group, with every other row as before, or all of the group's players left
-- and exactly its row is gone, with those behind it in the court's queue moved up by one place, as
-- the result says; and the tables are sound afterwards.
pub leave_queue-HasWithdrawn :
    (env : Env) (club : ClubRow) (number : ℕ) (players : List PlayerCred) (gone : Bool)
    (db db' : Db)
    → IsSound db
    → leave_queue env club number players db ≡ ok (gone, db')
    → IsSound db'
      × ((g : QueueGroup) × (leavers : List ℕ) × (find_row
              (λ (x : QueueGroup). x.id == g.id)
              db.queues
            ≡ some g)
          × (waits_for club.id number g ≡ true)
          × (length leavers ≡ length players)
          × ((id : ℕ) → count id leavers ≤ 1)
          × ((id : ℕ) → 1 ≤ count id leavers → contains g.players id ≡ true)
          × HasWithdrawn club.id number g leavers db gone db')
unfolding leave_queue lock_court resolve_players
leave_queue-HasWithdrawn env club number players gone db db' v e =
    let tx = lock_court club.id number (begin db) in
    let today = club_today env club.timezone in
    let first = resolve_from leave club.id today tx [] players in
    let (_, size, e₁) = >>=-eq-ok (check_group_size (length players) (2 ∷ 4 ∷ [])) _ e in
    let second = find_groups club.id number tx first.resolved in
    let (fine, e₂) = guard_then-eq-ok (is_empty (first.errors ++ second.errors)) _ _ e₁ in
    let (leader, lead, e₃) = or_fail_then-eq-ok (head? second.group_of) _ _ e₂ in
    let (one_group, e₄) =
      guard_then-eq-ok (all (λ (m : ℕ × ℕ). m.1 == leader.1) second.group_of) _ _ e₃ in
    let (no_first, no_second) = append-eq-nil first.errors second.errors fine in
    let (kept, members) = find_groups-ok club.id number tx first.resolved no_second in
    let v₁ = SameTables-IsSound (begin-SameTables club.id number db) v in
    let once : (id : ℕ) → count id (leavers_of second.group_of) ≤ 1 =
      λ id. rw kept (resolve_from-count tx v₁.credential_ids leave club.id today [] players id) in
    let (g, row, waits, key) =
      leader_group club.id number tx second.group_of leader v₁ lead members in
    let inside =
      members_of club.id number leader.1 tx g second.group_of v₁ (rw (← key) row) members
        one_group in
    let (v', done) =
      withdraw-HasWithdrawn club.id number g (leavers_of second.group_of) tx v₁ row waits once
        inside gone db'
        (subst (λ i. withdraw club.id number i (leavers_of second.group_of) tx ≡ ok (gone, db'))
          (sym key) e₄) in
    (
      v',
      (
        g,
        leavers_of second.group_of,
        row,
        waits,
        omega (
          arith,
          ap length kept,
          length-map (λ (player : Text × ℕ). player.1) first.resolved,
          resolve_from-length leave club.id today tx [] players,
          ap length no_first,
        ),
        once,
        inside,
        done,
      ),
    )
