-- ===== src/Net/Laws.antt =====
-- The clean-up of the limiter of src/net.rs is not seen.
use badminton_be_rust.Prelude.{
  ℕ, ◌≤◌, ◌≡◌, refl, sym, ap, ◌∙◌, inl, inr, Bool, true, false, List, [], ◌∷◌, Option, none, some,
  arith, ◌==◌, ltb, leb, if◌then◌else◌, bit, find_row, delete, total-delete_le, find_row_of_tally,
  find_row-passes, ==_iff, total, tally, length, Bool-cases, Option-cases,
}
use badminton_be_rust.Net.{Hit, RateLimiter, is_of, is_over, entry, counted, put, retained, check}

-- The reference: each address's own window, and nothing is ever cleaned up.
abbrev pub Windows : Type 0
Windows = ℕ → Option Hit

abbrev pub set : ℕ → Hit → Windows → Windows
set ip h windows j = if ip == j then some h else windows j

module _ (limiter : RateLimiter) where
  unfoldable pub ideal : List (ℕ × ℕ) → Windows → List Bool
  ideal [] windows = []
  ideal ((now, ip) ∷ calls) windows =
      let h = counted (entry limiter now ip (windows ip)) in
      leb h.count limiter.max_in_window ∷ ideal calls (set ip h windows)

  unfoldable pub run : List (ℕ × ℕ) → List Hit → List Bool
  run [] hits = []
  run ((now, ip) ∷ calls) hits = let c = check limiter now ip hits in c.0 ∷ run calls c.1

  abbrev pub IsSorted : ℕ → List (ℕ × ℕ) → Type 0
  IsSorted last [] = Unit
  IsSorted last ((now, ip) ∷ calls) = (last ≤ now) × IsSorted now calls

  over_later :
      (now t : ℕ) (h : Hit) → now ≤ t → is_over limiter now h ≡ true → is_over limiter t h ≡ true
  over_later now t h le e = ground arith

  -- What a clean-up deletes would be begun again.
  entry-delete :
      (now t ip : ℕ) (hits : List Hit)
      → now ≤ t
      → tally (is_of ip) hits ≤ 1
      → entry limiter t ip (find_row (is_of ip) (delete (is_over limiter now) hits))
        ≡ entry limiter t ip (find_row (is_of ip) hits)
  unfolding find_row delete total
  entry-delete now t ip [] le u = refl
  entry-delete now t ip (x ∷ hits) le u = elim (Bool-cases (is_over limiter now x)) [
    | inr e ↦ elim (Bool-cases (is_of ip x)) [
      | inl m ↦ rw (e, m) refl
      | inr m ↦ rw (e, m) (entry-delete now t ip hits le (omega (arith, rw m at u)))
    ]
    | inl e ↦ elim (Bool-cases (is_of ip x)) [
      | inl m ↦
          let alone : tally (is_of ip) hits ≡ 0 = omega (arith, rw m at u) in
          let gone : tally (is_of ip) (delete (is_over limiter now) hits) ≡ 0 =
            omega
              (arith, alone, total-delete_le (is_over limiter now) (λ h. bit (is_of ip h)) hits) in
          rw
            (
              e,
              m,
              find_row_of_tally (is_of ip) (delete (is_over limiter now) hits) gone,
              over_later now t x le e,
            )
            refl
      | inr m ↦ rw (e, m) (entry-delete now t ip hits le (omega (arith, rw m at u)))
    ]
  ]

  entry-retained :
      (now t ip : ℕ) (hits : List Hit)
      → now ≤ t
      → tally (is_of ip) hits ≤ 1
      → entry limiter t ip (find_row (is_of ip) (retained limiter now hits))
        ≡ entry limiter t ip (find_row (is_of ip) hits)
  entry-retained now t ip hits le u = elim (Bool-cases (ltb 10000 (length hits))) [
    | inl e ↦ rw e (entry-delete now t ip hits le u)
    | inr e ↦ rw e refl
  ]

  find_row-delete_other :
      (ip j : ℕ) (hits : List Hit)
      → (ip == j) ≡ false
      → find_row (is_of j) (delete (is_of ip) hits) ≡ find_row (is_of j) hits
  unfolding find_row delete
  find_row-delete_other ip j [] h = refl
  find_row-delete_other ip j (x ∷ hits) h = elim (Bool-cases (is_of ip x)) [
    | inl e ↦
        let other : is_of j x ≡ false = ground arith in
        rw (e, other) (find_row-delete_other ip j hits h)
    | inr e ↦ elim (Bool-cases (is_of j x)) [
      | inl m ↦ rw (e, m) refl
      | inr m ↦ rw (e, m) (find_row-delete_other ip j hits h)
    ]
  ]

  tally-delete_own : (ip : ℕ) (hits : List Hit) → tally (is_of ip) (delete (is_of ip) hits) ≡ 0
  unfolding delete total
  tally-delete_own ip [] = refl
  tally-delete_own ip (x ∷ hits) = ground (arith, tally-delete_own ip hits)

  tally-put :
      (h : Hit) (j : ℕ) (hits : List Hit)
      → tally (is_of j) hits ≤ 1
      → tally (is_of j) (put h hits) ≤ 1
  unfolding total
  tally-put h j hits u = elim (Bool-cases (h.ip == j)) [
    | inl e ↦
        let same : h.ip ≡ j = ground arith in
        rw e (
          omega (
            arith,
            tally-delete_own h.ip hits,
            ap (λ k. tally (is_of k) (delete (is_of h.ip) hits)) same,
          ))
    | inr e ↦ rw e (omega (arith, u, total-delete_le (is_of h.ip) (λ x. bit (is_of j x)) hits))
  ]

  tally-retained :
      (now j : ℕ) (hits : List Hit)
      → tally (is_of j) hits ≤ 1
      → tally (is_of j) (retained limiter now hits) ≤ 1
  tally-retained now j hits u = elim (Bool-cases (ltb 10000 (length hits))) [
    | inl e ↦
        rw e (omega (arith, u, total-delete_le (is_over limiter now) (λ x. bit (is_of j x)) hits))
    | inr e ↦ rw e u
  ]

  entry-ip : (t ip : ℕ) (hits : List Hit) → (entry limiter t ip (find_row (is_of ip) hits)).ip ≡ ip
  entry-ip t ip hits = elim (Option-cases (find_row (is_of ip) hits)) [
    | inl e ↦ rw e refl
    | inr (h, e) ↦
        let own : h.ip ≡ ip = (==_iff h.ip ip).0 (find_row-passes (is_of ip) hits h e) in
        elim (Bool-cases (is_over limiter t h)) [
          | inl over ↦ rw (e, over) refl
          | inr on ↦ rw (e, on) own
        ]
  ]

  -- From an instant on, the table and the windows begin each call from the same count.
  record Agrees (last : ℕ) (hits : List Hit) (windows : Windows) : Type 0 where
    pub same :
        (t ip : ℕ)
        → last ≤ t
        → entry limiter t ip (find_row (is_of ip) hits) ≡ entry limiter t ip (windows ip)
    pub unique : (ip : ℕ) → tally (is_of ip) hits ≤ 1

  check-Agrees :
      (last now ip : ℕ) (hits : List Hit) (windows : Windows)
      → last ≤ now
      → Agrees last hits windows
      → Agrees now
          (put (counted (entry limiter now ip (windows ip))) (retained limiter now hits))
          (set ip (counted (entry limiter now ip (windows ip))) windows)
  unfolding find_row
  check-Agrees last now ip hits windows le a =
      let h = counted (entry limiter now ip (windows ip)) in
      let own : h.ip ≡ ip = sym (ap (λ e. e.ip) (a.same now ip le)) ∙ entry-ip now ip hits in
      record {
        same = λ t j later. elim (Bool-cases (ip == j)) [
          | inl e ↦ let mine : (h.ip == j) ≡ true = rw own e in rw (e, mine) refl
          | inr e ↦
              let other : (h.ip == j) ≡ false = rw own e in
              rw (e, other)
                (ap (entry limiter t j)
                    (find_row-delete_other h.ip j (retained limiter now hits) other)
                  ∙ entry-retained now t j hits later (a.unique j)
                  ∙ a.same t j (omega arith))
        ];
        unique =
            λ j. tally-put h j (retained limiter now hits) (tally-retained now j hits (a.unique j));
      }

  run-Agrees :
      (calls : List (ℕ × ℕ)) (last : ℕ) (hits : List Hit) (windows : Windows)
      → IsSorted last calls
      → Agrees last hits windows
      → run calls hits ≡ ideal calls windows
  unfolding run ideal check
  run-Agrees [] last hits windows s a = refl
  run-Agrees ((now, ip) ∷ calls) last hits windows (le, s) a =
      let same = entry-retained now now ip hits (omega arith) (a.unique ip) ∙ a.same now ip le in
      simp same (
        ap (λ l. leb (counted (entry limiter now ip (windows ip))).count limiter.max_in_window ∷ l)
          (run-Agrees calls now _ _ s (check-Agrees last now ip hits windows le a)))

  -- Calls of any addresses at instants that do not decrease, from an empty table: each is allowed
  -- exactly as if every address had a window of its own and the table were never cleaned up.
  pub run-ideal :
      (calls : List (ℕ × ℕ)) → IsSorted 0 calls → run calls [] ≡ ideal calls (λ ip. none)
  unfolding find_row total
  run-ideal calls s =
      run-Agrees calls 0 [] (λ ip. none) s
        (record { same = λ t ip h. refl; unique = λ ip. omega arith })
