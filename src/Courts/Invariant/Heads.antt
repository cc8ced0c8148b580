-- ===== src/Courts/Invariant/Heads.antt =====
-- The head of a court's queue (src/courts.rs): whom `queue_head` gives, and what is left of the
-- queue without it.
use badminton_be_rust.Prelude.{
  ℕ, ◌-◌, ◌≤◌, ◌≡◌, refl, sym, ap, ◌∙◌, inl, inr, Bool, true, ◌&&◌, List, [], ◌∷◌, none, some, In,
  here, there, arith, ltb, leb, ◌==◌, tally, total, update, delete, find_row, find_row-In,
  find_row-passes, find_row_of_In, some-eq-some, tally-find_row-none, tally_pos, Bool-cases,
  Option-cases,
}
use badminton_be_rust.Courts.Tables.{QueueGroup, Db}
use badminton_be_rust.Courts.Queries.{waits_for}
use badminton_be_rust.Courts.Actions.{stands_at}
use badminton_be_rust.Courts.Promotion.{remove_queue_group, queue_head}
use badminton_be_rust.Courts.Invariant.{IsSound}
use badminton_be_rust.Courts.Invariant.Queueing.{in_range}
use badminton_be_rust.Courts.Invariant.Renumbering.{remove_queue_group-behind}
use badminton_be_rust.Courts.Invariant.Fronts.{advance}

pub queue_head-none :
    (club_id number : ℕ) (gs : List QueueGroup)
    → queue_head club_id number gs ≡ none
    → tally (waits_for club_id number) gs ≡ 0
unfolding queue_head total
queue_head-none club_id number [] e = refl
queue_head-none club_id number (g ∷ gs) e = ground (arith, queue_head-none club_id number gs)

pub queue_head-In :
    (club_id number : ℕ) (gs : List QueueGroup) (g : QueueGroup)
    → queue_head club_id number gs ≡ some g
    → In g gs × (waits_for club_id number g ≡ true)
unfolding queue_head
queue_head-In club_id number [] g e = cc
queue_head-In club_id number (x ∷ gs) g e = elim (Option-cases (queue_head club_id number gs)) [
  | inl q ↦ elim (Bool-cases (waits_for club_id number x)) [
    | inl w ↦ let s : g ≡ x = ground arith in (here s, rw s w)
    | inr w ↦ absurd (ground arith)
  ]
  | inr (y, q) ↦
      let (m, w) = queue_head-In club_id number gs y q in
      elim (Bool-cases (waits_for club_id number x && ltb y.position x.position)) [
        | inl first ↦ let s : g ≡ y = ground arith in (rw s (there m), rw s w)
        | inr other ↦ elim (Bool-cases (waits_for club_id number x)) [
          | inl u ↦ let s : g ≡ x = ground arith in (here s, rw s u)
          | inr u ↦ let s : g ≡ y = ground arith in (rw s (there m), rw s w)
        ]
      ]
]

-- Nobody on the court's queue stands before its head.
pub queue_head-least :
    (club_id number : ℕ) (gs : List QueueGroup) (g x : QueueGroup)
    → queue_head club_id number gs ≡ some g
    → In x gs
    → waits_for club_id number x ≡ true
    → g.position ≤ x.position
unfolding queue_head
queue_head-least club_id number [] g x e m w = elim m [ ]
queue_head-least club_id number (y ∷ gs) g x e (here s) w = ground (arith)
queue_head-least club_id number (y ∷ gs) g x e (there m) w =
    elim (Option-cases (queue_head club_id number gs)) [
      | inl q ↦ absurd (
          ground (
            arith,
            queue_head-none club_id number gs,
            tally_pos (waits_for club_id number) gs x m w,
          ))
      | inr (h, q) ↦ ground (arith, queue_head-least club_id number gs h x q m w)
    ]

delete_cong :
    (p q : QueueGroup → Bool) (xs : List QueueGroup)
    → ((x : QueueGroup) → In x xs → p x ≡ q x)
    → delete p xs ≡ delete q xs
unfolding delete
delete_cong p q [] same = refl
delete_cong p q (x ∷ xs) same =
    let rest = delete_cong p q xs (λ y m. same y (there m)) in
    elim (Bool-cases (q x)) [
      | inl e ↦ rw (same x (here refl), e) rest
      | inr e ↦ rw (same x (here refl), e) (ap (λ l. x ∷ l) rest)
    ]

module _ (club_id number : ℕ) (db : Db) (v : IsSound db) where
  -- No two groups of a queue stand at one place.
  pub same_place :
      (x g : QueueGroup)
      → In x db.queues
      → In g db.queues
      → waits_for club_id number x ≡ true
      → waits_for club_id number g ≡ true
      → x.position ≡ g.position
      → x ≡ g
  same_place x g mx mg wx wg e =
      let at_most : tally (stands_at club_id number g.position) db.queues ≤ 1 =
        ground (arith, v.dense club_id number g.position) in
      some-eq-some (
        sym (
          find_row_of_In (stands_at club_id number g.position) x db.queues at_most (ground arith)
            mx)
        ∙ find_row_of_In (stands_at club_id number g.position) g db.queues at_most (ground arith)
            mg)

  module _ (g : QueueGroup) (first : queue_head club_id number db.queues ≡ some g) where
    head_In : In g db.queues
    head_In = (queue_head-In club_id number db.queues g first).0

    head_waits : waits_for club_id number g ≡ true
    head_waits = (queue_head-In club_id number db.queues g first).1

    pub head_found : find_row (λ (x : QueueGroup). x.id == g.id) db.queues ≡ some g
    head_found =
        find_row_of_In (λ (x : QueueGroup). x.id == g.id) g db.queues (v.queue_ids g.id)
          (ground arith) head_In

    pub head_place : g.position ≡ 1
    head_place =
        let (low, high) = in_range club_id number db g v head_In head_waits in
        elim (Option-cases (find_row (stands_at club_id number 1) db.queues)) [
          | inl missing ↦ absurd (
              ground (
                arith,
                tally-find_row-none (stands_at club_id number 1) db.queues missing,
                v.dense club_id number 1,
                low,
                high,
              ))
          | inr (x, e) ↦
              let p = find_row-passes (stands_at club_id number 1) db.queues x e in
              let least =
                queue_head-least club_id number db.queues g x first
                  (find_row-In (stands_at club_id number 1) db.queues x e) (ground arith) in
              ground (arith, least, low, p)
        ]

    is_head :
        (x : QueueGroup)
        → In x db.queues
        → (x.id == g.id) ≡ (waits_for club_id number x && leb x.position 1)
    is_head x m = elim (Bool-cases (x.id == g.id)) [
      | inl e ↦
          let same : x ≡ g = some-eq-some (
            sym
              (find_row_of_In (λ (y : QueueGroup). y.id == g.id) x db.queues (v.queue_ids g.id) e m)
            ∙ head_found) in
          let w = head_waits in let p = head_place in rw (same, w, p) (ground arith)
      | inr e ↦ elim (Bool-cases (waits_for club_id number x && leb x.position 1)) [
        | inr other ↦ e ∙ sym other
        | inl front ↦
            let w : waits_for club_id number x ≡ true = ground arith in
            let low = in_range club_id number db x v m w in
            let same = same_place x g m head_In w head_waits (ground (arith, low, head_place)) in
            absurd (ground (arith, ap (λ (y : QueueGroup). y.id) same))
      ]
    ]

    -- The queue without its head.
    pub remove_head :
        (remove_queue_group club_id number g.id db).queues ≡ advance club_id number 1 db.queues
    unfolding advance
    remove_head =
        remove_queue_group-behind club_id number db v g.id g head_found head_waits head_place
        ∙ ap (update (waits_for club_id number) (λ x. record x { position = x.position - 1 })) (
            delete_cong (λ x. x.id == g.id) (λ x. waits_for club_id number x && leb x.position 1)
              db.queues is_head)
