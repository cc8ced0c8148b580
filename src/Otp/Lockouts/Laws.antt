-- ===== src/Otp/Lockouts/Laws.antt =====
-- What the lockouts of src/otp.rs stop.
use badminton_be_rust.Prelude.{
  ℕ, ◌+◌, ◌≤◌, ◌<◌, ◌≡◌, refl, inl, inr, Bool, true, false, List, [], ◌∷◌, none, some, arith, ltb,
  leb, if◌then◌else◌, Text, text, text_eq, text_eq_refl, total, tally, Bool-cases, Option-cases,
}
use badminton_be_rust.Redis.{Redis, Value, int, set_ex, incr, expire, after_secs, answered, read}
use badminton_be_rust.Otp.{OtpEnv}
use badminton_be_rust.Otp.Lockouts.{
  lockout_threshold, failure_window_secs, lock_secs, kiosk_key, is_kiosk_username_locked,
  note_kiosk_bad_password,
}

module _ (r : Redis) where
  open r use {Store, lookup, exec, lookup-exec}

  -- A request at the kiosk (check_kiosk_lockouts and note_kiosk_failures of src/routes/clubs.rs), of
  -- which one username has a wrong password: a locked username is refused before the password is
  -- looked at, and any other guess is counted. Gives whether the guess was looked at.
  unfoldable pub guess : (Text → Text) → Text → Text → OtpEnv → Store → Bool × Store
  guess lower club_id username env s =
      if is_kiosk_username_locked r lower env club_id username s
      then (false, s)
      else (true, (note_kiosk_bad_password r lower env club_id username s).1)

  unfoldable pub run_guesses : (Text → Text) → Text → Text → List OtpEnv → Store → List Bool
  unfolding guess
  run_guesses lower club_id username [] s = []
  run_guesses lower club_id username (env ∷ envs) s =
      let g = guess lower club_id username env s in
      g.0 ∷ run_guesses lower club_id username envs g.1

  -- The calls fall in the 15 minutes after `start`, and Redis answers each or is down.
  abbrev pub AreSettled : ℕ → List OtpEnv → Type 0
  AreSettled start [] = Unit
  AreSettled start (env ∷ envs) =
      (start ≤ env.redis_now)
      × (env.redis_now < after_secs start lock_secs)
      × (env.connected ≡ true → (k : ℕ) → env.fate k ≡ answered)
      × AreSettled start envs

  module _ (lower : Text → Text) (club_id username : Text) where
    abbrev fail_key : Text
    fail_key = kiosk_key lower (text "fail") club_id username

    abbrev lock_key : Text
    lock_key = kiosk_key lower (text "lock") club_id username

    apart : (text_eq fail_key lock_key ≡ false) × (text_eq lock_key fail_key ≡ false)
    unfolding kiosk_key text_eq
    apart = (refl, refl)

    -- `n` guesses are counted, and from the threshold on the lock outlasts the 15 minutes.
    data Counted (start n : ℕ) (s : Store) : Type 0 where
      first : n ≡ 0 → lookup fail_key s ≡ none → Counted start n s
      more :
          (t : ℕ)
          → lookup fail_key s ≡ some (record { value = int n; expires = some t })
          → after_secs start lock_secs ≤ t
          → n < lockout_threshold
          → Counted start n s
      locked :
          (t : ℕ) (v : Value)
          → lookup lock_key s ≡ some (record { value = v; expires = some t })
          → after_secs start lock_secs ≤ t
          → Counted start n s

    module _ (env : OtpEnv) (up : env.connected ≡ true) (answers : (k : ℕ) → env.fate k ≡ answered)
        (s : Store) where
      abbrev now : ℕ
      now = env.redis_now

      abbrev bumped_store : Store
      bumped_store = exec now fail_key (expire failure_window_secs) (exec now fail_key incr s)

      -- The counter after one more failure.
      Counter : ℕ → Type 0
      Counter n =
          (read r now fail_key (exec now fail_key incr s) ≡ some (int n))
          × (lookup fail_key bumped_store
              ≡ some
                  (record { value = int n; expires = some (after_secs now failure_window_secs) }))

      first_count : lookup fail_key s ≡ none → Counter 1
      unfolding Counter
      first_count h =
          let one = lookup-exec now fail_key incr s fail_key in
          let two =
            lookup-exec now fail_key (expire failure_window_secs) (exec now fail_key incr s)
              fail_key in
          (
            rw (one, text_eq_refl fail_key, h) refl,
            rw (two, text_eq_refl fail_key, one, text_eq_refl fail_key, h) refl,
          )

      next_count :
          (n t : ℕ)
          → lookup fail_key s ≡ some (record { value = int n; expires = some t })
          → now < t
          → Counter (n + 1)
      unfolding Counter
      next_count n t h later =
          let alive : ltb now t ≡ true = ground arith in
          let one = lookup-exec now fail_key incr s fail_key in
          let two =
            lookup-exec now fail_key (expire failure_window_secs) (exec now fail_key incr s)
              fail_key in
          (
            rw (one, text_eq_refl fail_key, h, alive, alive) refl,
            rw (two, text_eq_refl fail_key, one, text_eq_refl fail_key, h, alive, alive) refl,
          )

      -- The store after one more failure.
      noted :
          (n : ℕ)
          → Counter n
          → (note_kiosk_bad_password r lower env club_id username s).1 ≡ (
              if leb lockout_threshold n
              then exec now lock_key (set_ex (int 1) lock_secs) bumped_store
              else bumped_store)
      unfolding Counter note_kiosk_bad_password
      noted n (h, e) = elim (Bool-cases (leb lockout_threshold n)) [
        | inl full ↦ simp (up, answers 0, answers 1, answers 2, h) (rw full refl)
        | inr room ↦ simp (up, answers 0, answers 1, answers 2, h) (rw room refl)
      ]

      noted-Counted :
          (start n : ℕ)
          → Counter n
          → start ≤ now
          → Counted start n (note_kiosk_bad_password r lower env club_id username s).1
      unfolding Counter
      noted-Counted start n (h, e) le =
          rw (noted n (h, e)) elim (Bool-cases (leb lockout_threshold n)) [
            | inl full ↦ rw full (
                locked (after_secs now lock_secs) (int 1)
                  (rw
                    (
                      lookup-exec now lock_key (set_ex (int 1) lock_secs) bumped_store lock_key,
                      text_eq_refl lock_key,
                    )
                    refl)
                  (omega arith))
            | inr room ↦
                rw room (more (after_secs now failure_window_secs) e (omega arith) (ground arith))
          ]

    -- Redis is down, or has no lock, where the username is not refused.
    not_locked :
        (env : OtpEnv) (s : Store)
        → (env.connected ≡ true → (k : ℕ) → env.fate k ≡ answered)
        → is_kiosk_username_locked r lower env club_id username s ≡ false
        → (env.connected ≡ true) × (read r env.redis_now lock_key s ≡ none)
    unfolding is_kiosk_username_locked
    not_locked env s answers h = elim (Bool-cases env.connected) [
      | inr down ↦ absurd (cc (rw down at h))
      | inl up ↦ elim (Option-cases (read r env.redis_now lock_key s)) [
        | inl missing ↦ (up, missing)
        | inr (v, there_is) ↦ absurd (cc (simp (up, answers up 0, there_is) at h))
      ]
    ]

    guess-Counted :
        (env : OtpEnv) (start n : ℕ) (s : Store)
        → start ≤ env.redis_now
        → env.redis_now < after_secs start lock_secs
        → (env.connected ≡ true → (k : ℕ) → env.fate k ≡ answered)
        → Counted start n s
        → is_kiosk_username_locked r lower env club_id username s ≡ false
        → (n < lockout_threshold)
          × Counted start (n + 1) (note_kiosk_bad_password r lower env club_id username s).1
    guess-Counted env start n s le early answers counted h =
        let free = not_locked env s answers h in
        elim counted [
          | first zero missing ↦ rw zero (
            omega arith,
            noted-Counted env free.0 (answers free.0) s start 1
                (first_count env free.0 (answers free.0) s missing) le,
          )
          | more t at_key later small ↦ (
            small,
            noted-Counted env free.0 (answers free.0) s start (n + 1)
                (next_count env free.0 (answers free.0) s n t at_key (omega arith)) le,
          )
          | locked t v at_key later ↦
              let alive : ltb env.redis_now t ≡ true = ground arith in
              absurd (cc (rw (at_key, alive) at free.1))
        ]

    run-Counted :
        (envs : List OtpEnv) (start n : ℕ) (s : Store)
        → AreSettled start envs
        → n ≤ lockout_threshold
        → Counted start n s
        → tally (λ g. g) (run_guesses lower club_id username envs s) + n ≤ lockout_threshold
    unfolding run_guesses total
    run-Counted [] start n s h small counted = omega (arith, small)
    run-Counted (env ∷ envs) start n s (le, early, answers, rest) small counted =
        elim (Bool-cases (is_kiosk_username_locked r lower env club_id username s)) [
          | inl shut ↦ rw shut (omega (arith, run-Counted envs start n s rest small counted))
          | inr open_still ↦
              let (room, next) = guess-Counted env start n s le early answers counted open_still in
              rw open_still
                (omega (arith, run-Counted envs start (n + 1) _ rest (omega arith) next))
        ]

    -- In the 15 minutes after any instant, at most ten wrong passwords for a username are looked at
    -- at a club's kiosk, of requests one after another with the username once in each, where Redis
    -- has no count of failures for it at first, and where Redis answers each of the calls or is down
    -- for the whole of it.
    pub run_guesses-bounded :
        (envs : List OtpEnv) (start : ℕ) (s : Store)
        → lookup fail_key s ≡ none
        → AreSettled start envs
        → tally (λ g. g) (run_guesses lower club_id username envs s) ≤ lockout_threshold
    run_guesses-bounded envs start s missing h =
        omega (arith, run-Counted envs start 0 s h (omega arith) (first refl missing))
