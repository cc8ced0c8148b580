-- ===== src/Courts/Invariant/Dequeuing.antt =====
-- Lemmas on `leave_queue` behind its checks (src/courts.rs, `withdraw` of the model).
use badminton_be_rust.Prelude.{
  ℕ, ◌+◌, ◌≤◌, ◌≡◌, refl, sym, ap, subst, ◌∙◌, ◌⊎◌, inl, inr, Bool, true, false, List, [], ◌∷◌,
  some, total-update_same, All, some-eq-some, ok, total-ge, find_row-In, find_row-passes,
  find_row_of_In, find_row, find_row-update, arith, bit, ◌==◌, tally, count, contains, without,
  count-without_le, length-without_all, length, Bool-cases, Option-cases, ok-eq-ok, Text, ==_iff,
  all, map, update, delete,
}
use badminton_be_rust.Courts.Tables.{QueueGroup, Db}
use badminton_be_rust.Courts.Queries.{waits_for, lock_credentials}
use badminton_be_rust.Courts.Players.{ids_of}
use badminton_be_rust.Courts.Actions.{queue_len}
use badminton_be_rust.Courts.Promotion.{remove_queue_group}
use badminton_be_rust.Courts.Leaving.{
  usize_sub, queued_here, add_group, find_groups, unseat_group, group_players, withdraw,
}
use badminton_be_rust.Courts.Invariant.{waits, is_uneven_group, IsSound}
use badminton_be_rust.Courts.Invariant.Resolving.{lock_credentials-SameTables}
use badminton_be_rust.Courts.Invariant.Rows.{update_group-IsSound}
use badminton_be_rust.Courts.Invariant.Inserts.{SameTables-IsSound}
use badminton_be_rust.Courts.Invariant.Renumbering.{
  moved_up, remove_queue_group-IsSound, remove_queue_group-queue_len, remove_queue_group-queues,
}

abbrev pub leavers_of : List (ℕ × ℕ) → List ℕ
leavers_of = map λ (m : ℕ × ℕ). m.0

-- With no error, each leaver waits on this court in the group that it is listed with.
abbrev IsMember : ℕ → ℕ → Db → ℕ → ℕ → Type 0
IsMember club_id number db id queue_id =
    (g : QueueGroup) × (find_row (queued_here club_id number id) db.queues ≡ some g)
    × (g.id ≡ queue_id)

abbrev pub AreMembers : ℕ → ℕ → Db → List (ℕ × ℕ) → Type 0
AreMembers club_id number db = All λ m. IsMember club_id number db m.0 m.1

pub find_groups-ok :
    (club_id number : ℕ) (db : Db) (players : List (Text × ℕ))
    → (find_groups club_id number db players).errors ≡ []
    → (leavers_of (find_groups club_id number db players).group_of ≡ ids_of players)
      × AreMembers club_id number db (find_groups club_id number db players).group_of
unfolding find_groups
find_groups-ok club_id number db [] h = (refl, tt)
find_groups-ok club_id number db ((username, id) ∷ rest) h =
    elim (Option-cases (find_row (queued_here club_id number id) db.queues)) [
      | inl e ↦ cc (rw (e, add_group) at h)
      | inr (g, e) ↦
          let (same, members) = find_groups-ok club_id number db rest (rw (e, add_group) at h) in
          rw (e, add_group) (ap (λ ids. id ∷ ids) same, ((g, e, refl), members))
    ]

-- Members of one group are its players.
pub members_of :
    (club_id number queue_id : ℕ) (db : Db) (g : QueueGroup) (ms : List (ℕ × ℕ))
    → IsSound db
    → find_row (λ (x : QueueGroup). x.id == queue_id) db.queues ≡ some g
    → AreMembers club_id number db ms
    → all (λ (m : ℕ × ℕ). m.1 == queue_id) ms ≡ true
    → (id : ℕ) → 1 ≤ count id (leavers_of ms)
    → contains g.players id ≡ true
unfolding all count
members_of club_id number queue_id db g [] v found h same id m = absurd (omega arith)
members_of club_id number queue_id db g ((i, q) ∷ ms) v found ((x, e, key), h) same id m =
    elim (Bool-cases (id == i)) [
      | inr other ↦
          members_of club_id number queue_id db g ms v found h (ground arith) id (ground arith)
      | inl this ↦
          let passes = find_row-passes (queued_here club_id number i) db.queues x e in
          let row =
            find_row_of_In (λ (y : QueueGroup). y.id == queue_id) x db.queues (v.queue_ids queue_id)
              (ground arith) (find_row-In (queued_here club_id number i) db.queues x e) in
          let one : x ≡ g = some-eq-some (sym row ∙ found) in
          let eq : id ≡ i = (==_iff id i).0 this in rw (eq, ← one) (ground arith)
    ]

-- What leaving a queue does: a pair of four leaves the other pair in its group, which keeps its
-- place, and no other row changes; or the whole group's row goes, those behind it move up by one
-- place, and no other row changes.
abbrev pub HasWithdrawn : ℕ → ℕ → QueueGroup → List ℕ → Db → Bool → Db → Type 0
HasWithdrawn club_id number g leavers db gone db' =
    ((gone ≡ false)
      × (db'.queues ≡ unseat_group g.id leavers db.queues)
      × (find_row (λ (x : QueueGroup). x.id == g.id) db'.queues
          ≡ some (record g { players = without leavers g.players }))
      × (length (without leavers g.players) ≡ 2)
      × (queue_len club_id number db' ≡ queue_len club_id number db))
    ⊎ ((gone ≡ true)
        × (length leavers ≡ length g.players)
        × (db'.queues
            ≡ update (waits_for club_id number) (moved_up g.position)
                (delete (λ (x : QueueGroup). x.id == g.id) db.queues))
        × (queue_len club_id number db' + 1 ≡ queue_len club_id number db))

module _ (club_id number : ℕ) (g : QueueGroup) (leavers : List ℕ) (db : Db) (v : IsSound db)
    (found : find_row (λ (x : QueueGroup). x.id == g.id) db.queues ≡ some g)
    (here_waits : waits_for club_id number g ≡ true) (once : (id : ℕ) → count id leavers ≤ 1)
    (in_group : (id : ℕ) → 1 ≤ count id leavers → contains g.players id ≡ true) where
  left_behind : length (without leavers g.players) + length leavers ≡ length g.players
  left_behind =
      length-without_all leavers g.players once
        (λ id. omega (
          arith,
          total-ge (waits id) g db.queues
              (find_row-In (λ (x : QueueGroup). x.id == g.id) db.queues g found),
          v.one_place id,
        ))
        in_group

  two_or_four : (length g.players ≡ 2) ⊎ (length g.players ≡ 4)
  two_or_four = ground (
    arith,
    total-ge (λ x. bit (is_uneven_group x)) g db.queues
        (find_row-In (λ (x : QueueGroup). x.id == g.id) db.queues g found),
    v.even_groups,
  )

  remainder_lem : usize_sub (length g.players) (length leavers) ≡ length (without leavers g.players)
  remainder_lem = ground (arith, left_behind, two_or_four)

  without_leavers : QueueGroup → QueueGroup
  without_leavers x = record x { players = without leavers x.players }

  pair_withdraws :
      (db' : Db)
      → length (without leavers g.players) ≡ 2
      → let locked = lock_credentials leavers db in
        record locked { queues = unseat_group g.id leavers locked.queues } ≡ db'
        → IsSound db' × HasWithdrawn club_id number g leavers db false db'
  unfolding without_leavers
  pair_withdraws db' two e =
      let locked = lock_credentials leavers db in
      let same = lock_credentials-SameTables leavers db in
      let v₁ = SameTables-IsSound same v in
      let found₁ : find_row (λ (x : QueueGroup). x.id == g.id) locked.queues ≡ some g =
        rw same.queues found in
      let sound =
        update_group-IsSound locked g.id without_leavers g v₁ found₁ refl refl refl refl
          (ground arith)
          (λ id. omega (arith, v₁.one_place id, count-without_le id leavers g.players)) in
      let size =
        total-update_same (λ (x : QueueGroup). x.id == g.id) without_leavers
          (λ x. bit (waits_for club_id number x)) locked.queues (λ x h. refl) in
      (
        subst IsSound e sound,
        inl (
          refl,
          ap (λ (d : Db). d.queues) (sym e) ∙ ap (unseat_group g.id leavers) same.queues,
          ap (λ (d : Db). find_row (λ (x : QueueGroup). x.id == g.id) d.queues) (sym e)
              ∙ find_row-update (λ (x : QueueGroup). x.id == g.id) (λ x. x.id == g.id)
                  without_leavers locked.queues g (λ y. refl) found₁ (ground arith),
          two,
          ap (queue_len club_id number) (sym e)
              ∙ size
              ∙ ap (tally (waits_for club_id number)) same.queues,
        ),
      )

  group_withdraws :
      (db' : Db)
      → length leavers ≡ length g.players
      → remove_queue_group club_id number g.id (lock_credentials leavers db) ≡ db'
      → IsSound db' × HasWithdrawn club_id number g leavers db true db'
  group_withdraws db' all_gone e =
      let locked = lock_credentials leavers db in
      let same = lock_credentials-SameTables leavers db in
      let v₁ = SameTables-IsSound same v in
      let found₁ : find_row (λ (x : QueueGroup). x.id == g.id) locked.queues ≡ some g =
        rw same.queues found in
      (
        subst IsSound e
            (remove_queue_group-IsSound club_id number locked v₁ g.id g found₁ here_waits),
        inr (
          refl,
          all_gone,
          ap (λ (d : Db). d.queues) (sym e)
              ∙ remove_queue_group-queues club_id number locked v₁ g.id g found₁ here_waits
              ∙ ap
                  (λ gs.
                    update (waits_for club_id number) (moved_up g.position)
                      (delete (λ (x : QueueGroup). x.id == g.id) gs))
                  same.queues,
          ap (λ d. queue_len club_id number d + 1) (sym e)
              ∙ remove_queue_group-queue_len club_id number locked v₁ g.id g found₁ here_waits
              ∙ ap (tally (waits_for club_id number)) same.queues,
        ),
      )

  group_players_lem : group_players g.id db ≡ g.players
  group_players_lem = rw (found, group_players)

  pub withdraw-HasWithdrawn :
      (gone : Bool) (db' : Db)
      → withdraw club_id number g.id leavers db ≡ ok (gone, db')
      → IsSound db' × HasWithdrawn club_id number g leavers db gone db'
  unfolding withdraw
  withdraw-HasWithdrawn gone db' e =
      let r = usize_sub (length g.players) (length leavers) in
      elim (Bool-cases (r == 0)) [
        | inl zero_left ↦
            let q = ok-eq-ok (rw (group_players_lem, zero_left) at e) in
            subst (λ b. IsSound db' × HasWithdrawn club_id number g leavers db b db')
              (ap (λ p. p.0) q)
              (group_withdraws db'
                (omega (arith, left_behind, remainder_lem, (==_iff r 0).0 zero_left))
                (ap (λ p. p.1) q))
        | inr some_left ↦ elim (Bool-cases (r == 2)) [
          | inl two ↦
              let q = ok-eq-ok (rw (group_players_lem, some_left, two) at e) in
              subst (λ b. IsSound db' × HasWithdrawn club_id number g leavers db b db')
                (ap (λ p. p.0) q)
                (pair_withdraws db' (sym remainder_lem ∙ (==_iff r 2).0 two) (ap (λ p. p.1) q))
          | inr odd ↦ cc (rw (group_players_lem, some_left, odd) at e)
        ]
      ]
