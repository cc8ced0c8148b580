-- ===== src/Reservations/Warnings.antt =====
-- The duplicate warnings of `today` in src/routes/reservations.rs.
use badminton_be_rust.Prelude.{
  ℕ, ◌≤◌, ◌<◌, ◌≡◌, ◌↔◌, refl, sym, ap, ◌∙◌, inl, inr, Bool, true, false, ◌&&◌, ◌||◌, if◌then◌else◌,
  List, [], ◌∷◌, ◌++◌, Option, none, some, In, here, there, arith, ltb, ==_iff, any, head?,
  Bool-cases, some-eq-some,
}
use badminton_be_rust.Reservations.{
  same_queue, slots_conflict, Reservation, is_live, is_half, slot_of, clashes, duplicate_warnings,
}

-- What stands behind the places of `before`.
unfoldable pub behind : {A B : Type 0} → List A → List B → List B
behind [] ys = ys
behind (x ∷ before) [] = []
behind (x ∷ before) (y ∷ ys) = behind before ys

-- The warning of the row between `before` and `after`.
unfoldable pub warning_at : ℕ → List Reservation → Reservation → List Reservation → Option Bool
unfolding behind
warning_at now before me after =
    head? (behind before (duplicate_warnings now [] (before ++ me ∷ after)))

-- Two rows contest a slot: the same court at the same place of its queue, or both at none, at an
-- instant that both windows have, and not as the two halves of the court.
pub record IsContested (me other : Reservation) : Type 0 where
  pub court : me.court_number ≡ other.court_number
  pub queue : me.queue_number ≡ other.queue_number
  pub instant : ℕ
  pub mine : (me.start_at ≤ instant) × (instant < me.expiry_at)
  pub theirs : (other.start_at ≤ instant) × (instant < other.expiry_at)
  pub whole : (is_half me.court_type && is_half other.court_type) ≡ false

same_queue_iff : (a b : Option ℕ) → (same_queue a b ≡ true) ↔ (a ≡ b)
same_queue_iff none none = (λ h. refl, λ h. refl)
same_queue_iff none (some b) = (λ h. cc, λ h. cc)
same_queue_iff (some a) none = (λ h. cc, λ h. cc)
same_queue_iff (some a) (some b) =
    (λ h. ap some ((==_iff a b).0 h), λ h. (==_iff a b).1 (some-eq-some h))

-- The test of two windows that have an instant each is that one instant is in both.
slots_conflict-IsContested :
    (me other : Reservation)
    → me.start_at < me.expiry_at
    → other.start_at < other.expiry_at
    → slots_conflict (slot_of me) (slot_of other) ≡ true
    → IsContested me other
unfolding slots_conflict
slots_conflict-IsContested me other h₁ h₂ h = record {
  court = ground (arith, h);
  queue = (same_queue_iff me.queue_number other.queue_number).0 (ground (arith, h));
  instant = if ltb me.start_at other.start_at then other.start_at else me.start_at;
  mine = ground (arith, h, h₁, h₂);
  theirs = ground (arith, h, h₁, h₂);
  whole = ground (arith, h);
}

IsContested-slots_conflict :
    (me other : Reservation)
    → IsContested me other
    → slots_conflict (slot_of me) (slot_of other) ≡ true
unfolding slots_conflict
IsContested-slots_conflict me other c =
    let q = (same_queue_iff me.queue_number other.queue_number).1 c.queue in
    ground (arith, q, c.court, c.mine, c.theirs, c.whole)

module _ (p : Reservation → Bool) where
  any-In : (xs : List Reservation) → any p xs ≡ true → (x : Reservation) × In x xs × (p x ≡ true)
  unfolding any
  any-In [] h = cc
  any-In (x ∷ xs) h = elim (Bool-cases (p x)) [
    | inl e ↦ (x, here refl, e)
    | inr e ↦ let (y, m, q) = any-In xs (rw e at h) in (y, there m, q)
  ]

  In-any : (x : Reservation) (xs : List Reservation) → In x xs → p x ≡ true → any p xs ≡ true
  unfolding any
  In-any x [] m h = elim m [ ]
  In-any x (y ∷ ys) (here s) h = rw (← s, h) refl
  In-any x (y ∷ ys) (there m) h = ground (arith, In-any x ys m h)

In_middle :
    (before : List Reservation) (me : Reservation) (after : List Reservation)
    → In me (before ++ me ∷ after)
In_middle [] me after = here refl
In_middle (x ∷ before) me after = there (In_middle before me after)

In_around :
    (before : List Reservation) (me x : Reservation) (after : List Reservation)
    → In x (before ++ after)
    → In x (before ++ me ∷ after)
In_around [] me x after m = there m
In_around (y ∷ before) me x after (here s) = here s
In_around (y ∷ before) me x after (there m) = there (In_around before me x after m)

-- The warning, where some rows were seen before.
warned :
    (now : ℕ) (seen before : List Reservation) (me : Reservation) (after : List Reservation)
    → head? (behind before (duplicate_warnings now seen (before ++ me ∷ after)))
      ≡ some
          (is_live now me && (any (clashes now me) seen || any (clashes now me) (before ++ after)))
unfolding duplicate_warnings behind any
warned now seen [] me after = refl
warned now seen (x ∷ before) me after =
    warned now (x ∷ seen) before me after ∙ ap some (ground arith)

-- A row of the day gets a duplicate warning exactly if it is live and contests a slot with a live
-- row at another place of the list: the same court at the same place of its queue, or both at none,
-- at an instant that both have, unless both are half courts. Each row starts before it expires.
pub warning_at-IsContested :
    (now : ℕ) (before after : List Reservation) (me : Reservation)
    → ((r : Reservation) → In r (before ++ me ∷ after) → r.start_at < r.expiry_at)
    → (warning_at now before me after ≡ some true) ↔ (
        (is_live now me ≡ true)
        × ((other : Reservation) × In other (before ++ after)
            × (is_live now other ≡ true)
            × IsContested me other))
unfolding warning_at
warning_at-IsContested now before after me timed = (
  λ h.
      let b = some-eq-some (sym (warned now [] before me after) ∙ h) in
      let live : is_live now me ≡ true = ground (arith, b) in
      let (other, m, c) =
        any-In (clashes now me) (before ++ after) (unfold any in ground (arith, b)) in
      (
        live,
        (
          other,
          m,
          ground (arith, c),
          slots_conflict-IsContested me other (timed me (In_middle before me after))
              (timed other (In_around before me other after m)) (ground (arith, c)),
        ),
      ),
  λ (live, (other, m, there_live, c)).
      let clash = IsContested-slots_conflict me other c in
      let one =
        In-any (clashes now me) other (before ++ after) m (ground (arith, there_live, clash)) in
      warned now [] before me after ∙ ap some (rw (one, live) (unfold any in ground (arith))),
)
