-- ===== src/Courts/Invariant/Renumbering.antt =====
-- Lemmas on `remove_queue_group` (src/courts.rs).
use badminton_be_rust.Prelude.{
  ℕ, zero, suc, ◌+◌, ◌-◌, ◌≤◌, ◌≡◌, ◌≢◌, refl, ap, update, here, there, Bool, subst, ◌∙◌, inl, inr,
  true, false, ◌&&◌, List, [], ◌∷◌, some, In, find_row-In, delete-In, arith, bit, leb, ltb, ◌==◌,
  if◌then◌else◌, count, total, tally, tally_pos, delete, find_row, Bool-cases, total_cong,
  total-update_same, total-update_eq, total-delete,
}
use badminton_be_rust.Courts.Tables.{QueueGroup, Db}
use badminton_be_rust.Courts.Queries.{waits_for}
use badminton_be_rust.Courts.Actions.{queue_len, stands_at}
use badminton_be_rust.Courts.Promotion.{stands_before, renumber, remove_queue_group}
use badminton_be_rust.Courts.Invariant.{waits, places, is_uneven_group, IsSound}
use badminton_be_rust.Courts.Invariant.Queueing.{in_range}

tally-stands_before :
    (club_id number p : ℕ) (gs : List QueueGroup)
    → tally (stands_before club_id number (suc p)) gs
      ≡ tally (stands_before club_id number p) gs + tally (stands_at club_id number p) gs
unfolding total
tally-stands_before club_id number p [] = refl
tally-stands_before club_id number p (g ∷ gs) =
    ground (arith, tally-stands_before club_id number p gs)

tally-stands_before_zero :
    (club_id number : ℕ) (gs : List QueueGroup) → tally (stands_before club_id number 0) gs ≡ 0
unfolding total
tally-stands_before_zero club_id number [] = refl
tally-stands_before_zero club_id number (g ∷ gs) =
    ground (arith, tally-stands_before_zero club_id number gs)

-- The place of a group, when the one at a place is gone.
abbrev pub moved_up : ℕ → QueueGroup → QueueGroup
moved_up place x = record x {
  position = if ltb place x.position then x.position - 1 else x.position;
}

update_cong :
    (p : QueueGroup → Bool) (f h : QueueGroup → QueueGroup) (xs : List QueueGroup)
    → ((x : QueueGroup) → In x xs → p x ≡ true → f x ≡ h x)
    → update p f xs ≡ update p h xs
unfolding update
update_cong p f h [] same = refl
update_cong p f h (x ∷ xs) same = elim (Bool-cases (p x)) [
  | inl e ↦
      rw (e, same x (here refl) e)
        (ap (λ l. h x ∷ l) (update_cong p f h xs (λ y m. same y (there m))))
  | inr e ↦ rw e (ap (λ l. x ∷ l) (update_cong p f h xs (λ y m. same y (there m))))
]

module _ (club_id number : ℕ) (db : Db) (v : IsSound db) where
  -- In a densely numbered queue, p groups stand before place p + 1.
  before_dense :
      (p : ℕ)
      → p ≤ queue_len club_id number db
      → tally (stands_before club_id number (suc p)) db.queues ≡ p
  before_dense zero h = ground (
    arith,
    tally-stands_before club_id number 0 db.queues,
    tally-stands_before_zero club_id number db.queues,
    v.dense club_id number 0,
  )
  before_dense (suc p) h = ground (
    arith,
    tally-stands_before club_id number (suc p) db.queues,
    before_dense p,
    v.dense club_id number (suc p),
  )

  module _ (queue_id : ℕ) (g : QueueGroup)
      (found : find_row (λ (x : QueueGroup). x.id == queue_id) db.queues ≡ some g)
      (here_waits : waits_for club_id number g ≡ true) where
    left : List QueueGroup
    left = delete (λ (x : QueueGroup). x.id == queue_id) db.queues

    removed : (m : QueueGroup → ℕ) → total m left + m g ≡ total m db.queues
    unfolding left
    removed m =
        total-delete (λ (x : QueueGroup). x.id == queue_id) m db.queues g found
          (v.queue_ids queue_id)

    in_queue : In g db.queues
    in_queue = find_row-In (λ (x : QueueGroup). x.id == queue_id) db.queues g found

    -- The place of a remaining group, and the number of those before it.
    remaining :
        (x : QueueGroup)
        → In x left
        → waits_for club_id number x ≡ true
        → (1 ≤ x.position) × (x.position ≤ queue_len club_id number db) × (x.position ≢ g.position)
    unfolding left
    remaining x m w =
        let (low, high) = in_range club_id number db x v (delete-In _ x db.queues m) w in
        (
          low,
          high,
          λ e. ground (
            arith,
            tally_pos (stands_at club_id number g.position) left x m,
            removed (λ y. bit (stands_at club_id number g.position y)),
            v.dense club_id number g.position,
          ),
        )

    new_position :
        (x : QueueGroup)
        → In x left
        → waits_for club_id number x ≡ true
        → tally (stands_before club_id number x.position) left + 1
          ≡ (if ltb g.position x.position then x.position - 1 else x.position)
    new_position x m w =
        let (low, high, other) = remaining x m w in
        let e : suc (x.position - 1) ≡ x.position = omega arith in
        let b = before_dense (x.position - 1) (omega arith) in
        ground (arith, rw e at b, removed (λ y. bit (stands_before club_id number x.position y)))

    -- A measure that does not see the position.
    kept :
        (m : QueueGroup → ℕ)
        → ((x : QueueGroup) (k : ℕ) → m (record x { position = k }) ≡ m x)
        → total m (renumber club_id number left) + m g ≡ total m db.queues
    unfolding renumber
    kept m blind = omega (
      arith,
      total-update_same (waits_for club_id number)
          (λ x. record x { position = tally (stands_before club_id number x.position) left + 1 }) m
          left (λ x _. blind x _),
      removed m,
    )

    -- The old place of the group that comes to place k.
    old_place : ℕ → ℕ
    old_place k = if ltb k g.position then k else k + 1

    renumbered :
        (k : ℕ)
        → tally (stands_at club_id number k) (renumber club_id number left)
          ≡ tally (stands_at club_id number (old_place k)) left
    unfolding renumber old_place
    renumbered k =
        total-update_eq (waits_for club_id number)
          (λ x. record x { position = tally (stands_before club_id number x.position) left + 1 })
          (λ x. bit (stands_at club_id number k x)) left
        ∙ total_cong _ _ left λ x m. ground (arith, remaining x m, new_position x m)

    dense_here :
        (k : ℕ)
        → tally (stands_at club_id number k) (renumber club_id number left)
          ≡ bit (
              leb 1 k
              && leb k
                  (queue_len club_id number (record db { queues = renumber club_id number left })))
    unfolding old_place
    dense_here k = ground (
      arith,
      renumbered k,
      removed (λ x. bit (stands_at club_id number (old_place k) x)),
      v.dense club_id number (old_place k),
      kept (λ x. bit (waits_for club_id number x)) (λ x k. refl),
      in_range club_id number db g v in_queue here_waits,
    )

    -- Another court's queue is left alone.
    dense_elsewhere :
        (c n k : ℕ)
        → ((c == club_id) && (n == number)) ≡ false
        → tally (stands_at c n k) (renumber club_id number left)
          ≡ bit (
              leb 1 k
              && leb k (queue_len c n (record db { queues = renumber club_id number left })))
    unfolding renumber
    dense_elsewhere c n k other = ground (
      arith,
      total-update_same (waits_for club_id number)
          (λ x. record x { position = tally (stands_before club_id number x.position) left + 1 })
          (λ x. bit (stands_at c n k x)) left (λ x w. ground arith),
      removed (λ x. bit (stands_at c n k x)),
      kept (λ x. bit (waits_for c n x)) (λ x k. refl),
      v.dense c n k,
    )

    dense_after :
        (c n k : ℕ)
        → tally (stands_at c n k) (renumber club_id number left)
          ≡ bit (
              leb 1 k
              && leb k (queue_len c n (record db { queues = renumber club_id number left })))
    dense_after c n k = elim (Bool-cases ((c == club_id) && (n == number))) [
      | inl same ↦
          let e : club_id ≡ c = ground arith in
          let q : number ≡ n = ground arith in
          subst
            (λ c.
              tally (stands_at c n k) (renumber club_id number left)
              ≡ bit (
                  leb 1 k
                  && leb k (queue_len c n (record db { queues = renumber club_id number left }))))
            e
            (subst
              (λ n.
                tally (stands_at club_id n k) (renumber club_id number left)
                ≡ bit (
                    leb 1 k
                    && leb k (
                        queue_len club_id n (record db { queues = renumber club_id number left }))))
              q (dense_here k))
      | inr other ↦ dense_elsewhere c n k other
    ]

    -- If the tables are sound, removing a queue group of a court leaves them sound; in particular
    -- the court's queue is numbered 1, …, N again.
    pub remove_queue_group-IsSound : IsSound (remove_queue_group club_id number queue_id db)
    unfolding remove_queue_group left
    remove_queue_group-IsSound = record {
      credential_ids = v.credential_ids;
      session_ids = v.session_ids;
      queue_ids = λ id. omega (arith, kept (λ x. bit (x.id == id)) (λ x k. refl), v.queue_ids id);
      one_session = v.one_session;
      one_place = λ id. omega (arith, kept (waits id) (λ x k. refl), v.one_place id);
      even_sessions = v.even_sessions;
      even_groups = omega (arith, kept (λ x. bit (is_uneven_group x)) (λ x k. refl), v.even_groups);
      dense = dense_after;
    }

    pub remove_queue_group-places :
        (id : ℕ)
        → places id (remove_queue_group club_id number queue_id db) + count id g.players
          ≡ places id db
    unfolding remove_queue_group left
    remove_queue_group-places id = omega (arith, kept (waits id) (λ x k. refl))

    pub remove_queue_group-queue_len :
        queue_len club_id number (remove_queue_group club_id number queue_id db) + 1
        ≡ queue_len club_id number db
    unfolding remove_queue_group left
    remove_queue_group-queue_len =
        ground (arith, kept (λ x. bit (waits_for club_id number x)) (λ x k. refl))

    pub remove_queue_group-ids :
        (id : ℕ)
        → tally
            (λ (x : QueueGroup). x.id == id)
            (remove_queue_group club_id number queue_id db).queues
          ≤ tally (λ (x : QueueGroup). x.id == id) db.queues
    unfolding remove_queue_group left
    remove_queue_group-ids id = omega (arith, kept (λ x. bit (x.id == id)) (λ x k. refl))

    -- The other groups stay as they are, but that those behind the one that is gone move up.
    pub remove_queue_group-queues :
        (remove_queue_group club_id number queue_id db).queues
        ≡ update
            (waits_for club_id number)
            (moved_up g.position)
            (delete (λ (x : QueueGroup). x.id == queue_id) db.queues)
    unfolding remove_queue_group left renumber
    remove_queue_group-queues =
        update_cong (waits_for club_id number)
          (λ x. record x { position = tally (stands_before club_id number x.position) left + 1 })
          (moved_up g.position) left
          (λ x m w. ap (λ n. record x { position = n }) (new_position x m w))

    -- Behind the head of the queue, every place is one less.
    pub remove_queue_group-behind :
        g.position ≡ 1
        → (remove_queue_group club_id number queue_id db).queues
          ≡ update
              (waits_for club_id number)
              (λ x. record x { position = x.position - 1 })
              (delete (λ (x : QueueGroup). x.id == queue_id) db.queues)
    unfolding remove_queue_group left renumber
    remove_queue_group-behind head =
        update_cong (waits_for club_id number)
          (λ x. record x { position = tally (stands_before club_id number x.position) left + 1 })
          (λ x. record x { position = x.position - 1 }) left
          (λ x m w.
            ap (λ n. record x { position = n })
              (new_position x m w ∙ ground (arith, remaining x m w, head)))
