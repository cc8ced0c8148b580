-- ===== src/Courts/Invariant/Fronts.antt =====
-- The front of a court's queue (src/courts.rs): what is left of the queue when the groups at its
-- first places are gone.
use badminton_be_rust.Prelude.{
  ℕ, ◌+◌, ◌-◌, ◌≤◌, ◌<◌, ◌≡◌, refl, sym, ap, subst, ◌∙◌, inl, inr, true, false, ◌&&◌, List, [], ◌∷◌,
  In, here, there, arith, leb, update, delete, Bool-cases,
}
use badminton_be_rust.Courts.Tables.{QueueGroup}
use badminton_be_rust.Courts.Queries.{waits_for}

-- The first `k` places of a court's queue are gone; who is behind moves up by `k`, and nothing else
-- changes.
unfoldable pub advance : ℕ → ℕ → ℕ → List QueueGroup → List QueueGroup
unfolding update delete
advance club_id number k gs =
    update (waits_for club_id number) (λ g. record g { position = g.position - k })
      (delete (λ g. waits_for club_id number g && leb g.position k) gs)

module _ (club_id number : ℕ) where
  -- The row of `g`, when `k` places before it are gone.
  abbrev pub moved : ℕ → QueueGroup → QueueGroup
  moved k g = record g { position = g.position - k }

  advance_nil : (k : ℕ) → advance club_id number k [] ≡ []
  unfolding advance update delete
  advance_nil k = refl

  advance_other :
      (k : ℕ) (g : QueueGroup) (gs : List QueueGroup)
      → waits_for club_id number g ≡ false
      → advance club_id number k (g ∷ gs) ≡ g ∷ advance club_id number k gs
  unfolding advance update delete
  advance_other k g gs w = rw w (rw w refl)

  advance_gone :
      (k : ℕ) (g : QueueGroup) (gs : List QueueGroup)
      → waits_for club_id number g ≡ true
      → g.position ≤ k
      → advance club_id number k (g ∷ gs) ≡ advance club_id number k gs
  unfolding advance update delete
  advance_gone k g gs w h = let e : leb g.position k ≡ true = ground arith in rw (w, e) refl

  advance_behind :
      (k : ℕ) (g : QueueGroup) (gs : List QueueGroup)
      → waits_for club_id number g ≡ true
      → k < g.position
      → advance club_id number k (g ∷ gs) ≡ moved k g ∷ advance club_id number k gs
  unfolding advance update delete
  advance_behind k g gs w h =
      let e : leb g.position k ≡ false = ground arith in rw (w, e) (rw w refl)

  moved-moved : (k j : ℕ) (g : QueueGroup) → moved k (moved j g) ≡ moved (j + k) g
  moved-moved k j g =
      let e : g.position - j - k ≡ g.position - (j + k) = omega arith in
      ap (λ n. record g { position = n }) e

  moved_nothing : (g : QueueGroup) → moved 0 g ≡ g
  moved_nothing g =
      let e : g.position - 0 ≡ g.position = omega arith in ap (λ n. record g { position = n }) e

  moved_waits :
      (k : ℕ) (g : QueueGroup)
      → waits_for club_id number g ≡ true
      → waits_for club_id number (moved k g) ≡ true
  moved_waits k g w = w

  pub advance-advance :
      (k j : ℕ) (gs : List QueueGroup)
      → advance club_id number k (advance club_id number j gs) ≡ advance club_id number (j + k) gs
  unfolding advance update delete
  advance-advance k j [] = refl
  advance-advance k j (g ∷ gs) = elim (Bool-cases (waits_for club_id number g)) [
    | inr w ↦
        ap (advance club_id number k) (advance_other j g gs w)
        ∙ advance_other k g (advance club_id number j gs) w
        ∙ ap (λ l. g ∷ l) (advance-advance k j gs)
        ∙ sym (advance_other (j + k) g gs w)
    | inl w ↦ elim (Bool-cases (leb g.position j)) [
      | inl e ↦
          ap (advance club_id number k) (advance_gone j g gs w (ground arith))
          ∙ advance-advance k j gs
          ∙ sym (advance_gone (j + k) g gs w (ground arith))
      | inr e ↦
          ap (advance club_id number k) (advance_behind j g gs w (ground arith))
          ∙ elim (Bool-cases (leb g.position (j + k))) [
            | inl gone ↦
                advance_gone k (moved j g) (advance club_id number j gs) (moved_waits j g w)
                  (ground arith)
                ∙ advance-advance k j gs
                ∙ sym (advance_gone (j + k) g gs w (ground arith))
            | inr behind ↦
                advance_behind k (moved j g) (advance club_id number j gs) (moved_waits j g w)
                  (ground arith)
                ∙ ap (λ l. moved k (moved j g) ∷ l) (advance-advance k j gs)
                ∙ ap (λ x. x ∷ advance club_id number (j + k) gs) (moved-moved k j g)
                ∙ sym (advance_behind (j + k) g gs w (ground arith))
          ]
    ]
  ]

  pub advance_nothing :
      (gs : List QueueGroup)
      → ((x : QueueGroup) → In x gs → waits_for club_id number x ≡ true → 1 ≤ x.position)
      → advance club_id number 0 gs ≡ gs
  advance_nothing [] h = advance_nil 0
  advance_nothing (g ∷ gs) h =
      let rest = advance_nothing gs (λ x m. h x (there m)) in
      elim (Bool-cases (waits_for club_id number g)) [
        | inr w ↦ advance_other 0 g gs w ∙ ap (λ l. g ∷ l) rest
        | inl w ↦
            advance_behind 0 g gs w (omega (arith, h g (here refl) w))
            ∙ ap (λ x. x ∷ advance club_id number 0 gs) (moved_nothing g)
            ∙ ap (λ l. g ∷ l) rest
      ]

  -- The row of the longer queue that a row of the shorter one comes from.
  pub record ComesFrom (k : ℕ) (gs : List QueueGroup) (x : QueueGroup) : Type 0 where
    pub group : QueueGroup
    pub queued : In group gs
    pub group_waits : waits_for club_id number group ≡ true
    pub place : group.position ≡ k + x.position
    pub same : x ≡ moved k group

  ComesFrom-cons :
      (k : ℕ) (gs : List QueueGroup) (g x : QueueGroup) → ComesFrom k gs x → ComesFrom k (g ∷ gs) x
  ComesFrom-cons k gs g x c = record {
    group = c.group;
    queued = there c.queued;
    group_waits = c.group_waits;
    place = c.place;
    same = c.same;
  }

  pub advance-ComesFrom :
      (k : ℕ) (x : QueueGroup) (gs : List QueueGroup)
      → In x (advance club_id number k gs)
      → waits_for club_id number x ≡ true
      → ComesFrom k gs x
  advance-ComesFrom k x [] m w = elim (subst (In x) (advance_nil k) m) [ ]
  advance-ComesFrom k x (g ∷ gs) m w = elim (Bool-cases (waits_for club_id number g)) [
    | inr u ↦ elim (subst (In x) (advance_other k g gs u) m) [
      | here s ↦ absurd (cc (ap (waits_for club_id number) s))
      | there n ↦ ComesFrom-cons k gs g x (advance-ComesFrom k x gs n w)
    ]
    | inl u ↦ elim (Bool-cases (leb g.position k)) [
      | inl gone ↦
          ComesFrom-cons k gs g x
            (advance-ComesFrom k x gs (subst (In x) (advance_gone k g gs u (ground arith)) m) w)
      | inr behind ↦ elim (subst (In x) (advance_behind k g gs u (ground arith)) m) [
        | here s ↦ record {
          group = g;
          queued = here refl;
          group_waits = u;
          place = ground (arith, ap (λ (y : QueueGroup). y.position) s);
          same = s;
        }
        | there n ↦ ComesFrom-cons k gs g x (advance-ComesFrom k x gs n w)
      ]
    ]
  ]

  -- Who is behind the places that are gone.
  pub advance-In :
      (k : ℕ) (g : QueueGroup) (gs : List QueueGroup)
      → In g gs
      → waits_for club_id number g ≡ true
      → k < g.position
      → In (moved k g) (advance club_id number k gs)
  advance-In k g [] m w h = elim m [ ]
  advance-In k g (x ∷ gs) (here s) w h = rw (← s, advance_behind k g gs w h) (here refl)
  advance-In k g (x ∷ gs) (there m) w h = elim (Bool-cases (waits_for club_id number x)) [
    | inr u ↦
        subst (In (moved k g)) (sym (advance_other k x gs u)) (there (advance-In k g gs m w h))
    | inl u ↦ elim (Bool-cases (leb x.position k)) [
      | inl gone ↦
          subst (In (moved k g)) (sym (advance_gone k x gs u (ground arith)))
            (advance-In k g gs m w h)
      | inr behind ↦
          subst (In (moved k g)) (sym (advance_behind k x gs u (ground arith)))
            (there (advance-In k g gs m w h))
    ]
  ]
