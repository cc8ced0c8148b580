-- ===== src/Otp/Lockouts/Missed.antt =====
-- Login failures (src/otp.rs, `note_login_failure`) after a tenth one that set no lock.
use badminton_be_rust.Prelude.{
  ℕ, ◌+◌, ◌≤◌, ◌<◌, ◌≡◌, ◌⊎◌, refl, ap, bit, ◌∙◌, inl, inr, Bool, true, false, List, [], ◌∷◌, ◌++◌,
  some, ◌&&◌, arith, ltb, ◌==◌, Text, text, text_eq, text_eq_refl, total, tally, Bool-cases,
}
use badminton_be_rust.Redis.{
  Redis, int, incr, expire, Command, after_secs, answered, lost, refused, Fate, command, read,
  incr_reply,
}
use badminton_be_rust.Otp.{OtpEnv}
use badminton_be_rust.Otp.Lockouts.{
  lockout_threshold, lockout_window_secs, count_or_zero, note_login_failure, is_account_locked,
  exists, or_default,
}

-- The reply of the count is lost, or the lock is not stored.
abbrev pub IsMissed : OtpEnv → Type 0
IsMissed env =
    (env.connected ≡ true)
    × ((env.fate 0 ≡ lost) ⊎ ((env.fate 0 ≡ answered) × (env.fate 2 ≡ refused)))

abbrev pub AreWithin : ℕ → ℕ → List OtpEnv → Type 0
AreWithin start end [] = Unit
AreWithin start end (env ∷ envs) =
    (start ≤ env.redis_now) × (env.redis_now < end) × AreWithin start end envs

module _ (r : Redis) where
  open r use {Store, lookup, exec, lookup-exec}

  -- Failed logins to one account, with what each gives: whether it locked the account.
  unfoldable pub run_failures : Text → List OtpEnv → Store → List Bool × Store
  run_failures email [] s = ([], s)
  run_failures email (env ∷ envs) s =
      let g = note_login_failure r env email s in
      let rest = run_failures email envs g.1 in (g.0 ∷ rest.0, rest.1)

  untouched :
      (f : Fate) (now : ℕ) (key j : Text) (c : Command) (s : Store)
      → text_eq key j ≡ false
      → lookup j (command r f now key c s) ≡ lookup j s
  untouched answered now key j c s h = rw (lookup-exec now key c s j, h) refl
  untouched lost now key j c s h = rw (lookup-exec now key c s j, h) refl
  untouched refused now key j c s h = refl

  past_threshold :
      (f : Fate) (now : ℕ) (key : Text) (n t : ℕ) (s : Store)
      → lookup key s ≡ some (record { value = int n; expires = some t })
      → now < t
      → lockout_threshold ≤ n
      → (count_or_zero (incr_reply r f now key s) == lockout_threshold) ≡ false
  past_threshold answered now key n t s h later past =
      let alive : ltb now t ≡ true = ground arith in
      rw (lookup-exec now key incr s key, text_eq_refl key, h, alive, alive) (ground arith)
  past_threshold lost now key n t s h later past = refl
  past_threshold refused now key n t s h later past = refl

  module _ (email : Text) where
    abbrev fail_key : Text
    fail_key = text "failcount:" ++ email

    abbrev flag : Text
    flag = text "lockflag:" ++ email

    -- At least `n` failures are counted, until `end` or later.
    record Past (n end : ℕ) (s : Store) : Type 0 where
      count : ℕ
      expiry : ℕ
      entry : lookup fail_key s ≡ some (record { value = int count; expires = some expiry })
      high : n ≤ count
      later : end ≤ expiry

    weaker : (m n end : ℕ) (s : Store) → m ≤ n → Past n end s → Past m end s
    weaker m n end s h p = record {
      count = p.count;
      expiry = p.expiry;
      entry = p.entry;
      high = omega (arith, h, p.high);
      later = p.later;
    }

    Past-incr :
        (now n end : ℕ) (s : Store)
        → now < end
        → Past n end s
        → Past (n + 1) end (exec now fail_key incr s)
    Past-incr now n end s h p =
        let alive : ltb now p.expiry ≡ true = ground (arith, h, p.later) in
        record {
          count = p.count + 1;
          expiry = p.expiry;
          entry =
              rw (lookup-exec now fail_key incr s fail_key, text_eq_refl fail_key, p.entry, alive)
                refl;
          high = omega (arith, p.high);
          later = p.later;
        }

    Past-expire :
        (now n end : ℕ) (s : Store)
        → now < end
        → end ≤ after_secs now lockout_window_secs
        → Past n end s
        → Past n end (exec now fail_key (expire lockout_window_secs) s)
    Past-expire now n end s h within p =
        let alive : ltb now p.expiry ≡ true = ground (arith, h, p.later) in
        record {
          count = p.count;
          expiry = after_secs now lockout_window_secs;
          entry =
              rw
                (
                  lookup-exec now fail_key (expire lockout_window_secs) s fail_key,
                  text_eq_refl fail_key,
                  p.entry,
                  alive,
                )
                refl;
          high = p.high;
          later = within;
        }

    counted :
        (f : Fate) (now n end : ℕ) (s : Store)
        → now < end
        → Past n end s
        → Past n end (command r f now fail_key incr s)
    counted answered now n end s h p =
        weaker n (n + 1) end (exec now fail_key incr s) (omega arith) (Past-incr now n end s h p)
    counted lost now n end s h p =
        weaker n (n + 1) end (exec now fail_key incr s) (omega arith) (Past-incr now n end s h p)
    counted refused now n end s h p = p

    extended :
        (f : Fate) (now n end : ℕ) (s : Store)
        → now < end
        → end ≤ after_secs now lockout_window_secs
        → Past n end s
        → Past n end (command r f now fail_key (expire lockout_window_secs) s)
    extended answered now n end s h within p = Past-expire now n end s h within p
    extended lost now n end s h within p = Past-expire now n end s h within p
    extended refused now n end s h within p = p

    -- What a failure writes besides the lock.
    abbrev noted : OtpEnv → Store → Store
    noted env s =
        command r (env.fate 1) env.redis_now fail_key (expire lockout_window_secs)
          (command r (env.fate 0) env.redis_now fail_key incr s)

    noted_flag : (env : OtpEnv) (s : Store) → lookup flag (noted env s) ≡ lookup flag s
    unfolding text_eq
    noted_flag env s =
        untouched (env.fate 1) env.redis_now fail_key flag (expire lockout_window_secs) _ refl
        ∙ untouched (env.fate 0) env.redis_now fail_key flag incr s refl

    -- The tenth failure is counted, and sets no lock.
    tenth :
        (env : OtpEnv) (end : ℕ) (s : Store)
        → lookup fail_key s ≡ some (record { value = int 9; expires = some end })
        → env.redis_now < end
        → end ≤ after_secs env.redis_now lockout_window_secs
        → IsMissed env
        → let after = (note_login_failure r env email s).1 in
          Past lockout_threshold end after × (lookup flag after ≡ lookup flag s)
    unfolding note_login_failure
    tenth env end s nine early within (up, missed) =
        let now = env.redis_now in
        let p : Past 9 end s = record {
          count = 9;
          expiry = end;
          entry = nine;
          high = omega arith;
          later = omega arith;
        } in
        let q = Past-incr now 9 end s early p in
        let done = extended (env.fate 1) now 10 end (exec now fail_key incr s) early within q in
        elim missed [
          | inl gone ↦ let kept = noted_flag env s in simp (up, gone) (done, rw gone at kept)
          | inr (counted_it, unset) ↦
              let kept = noted_flag env s in
              let alive : ltb now end ≡ true = ground (arith, early) in
              let reply : read r now fail_key (exec now fail_key incr s) ≡ some (int 10) =
                rw
                  (
                    lookup-exec now fail_key incr s fail_key,
                    text_eq_refl fail_key,
                    nine,
                    alive,
                    alive,
                  )
                  refl in
              simp (up, counted_it, unset, reply) (done, rw counted_it at kept)
        ]

    -- A failure past the tenth sets no lock, whatever becomes of the commands.
    one_more :
        (env : OtpEnv) (end : ℕ) (s : Store)
        → env.redis_now < end
        → end ≤ after_secs env.redis_now lockout_window_secs
        → Past lockout_threshold end s
        → let g = note_login_failure r env email s in
          (g.0 ≡ false) × Past lockout_threshold end g.1 × (lookup flag g.1 ≡ lookup flag s)
    unfolding note_login_failure
    one_more env end s early within p =
        let now = env.redis_now in
        let past =
          past_threshold (env.fate 0) now fail_key p.count p.expiry s p.entry
            (omega (arith, early, p.later)) p.high in
        let q = counted (env.fate 0) now lockout_threshold end s early p in
        elim (Bool-cases env.connected) [
          | inr down ↦ rw down (refl, p, refl)
          | inl up ↦
              simp (up, past)
                (
                  refl,
                  extended (env.fate 1) now lockout_threshold end _ early within q,
                  noted_flag env s,
                )
        ]

    run_past :
        (envs : List OtpEnv) (start end : ℕ) (s : Store)
        → AreWithin start end envs
        → end ≤ after_secs start lockout_window_secs
        → Past lockout_threshold end s
        → let run = run_failures email envs s in
          (tally (λ b. b) run.0 ≡ 0) × (lookup flag run.1 ≡ lookup flag s)
    unfolding run_failures total
    run_past [] start end s h within p = (refl, refl)
    run_past (env ∷ envs) start end s (from, early, rest) within p =
        let (no_lock, q, kept) = one_more env end s early (omega (arith, within, from)) p in
        let (none_later, kept_later) =
          run_past envs start end (note_login_failure r env email s).1 rest within q in
        (omega (arith, ap bit no_lock, none_later), kept_later ∙ kept)

    exists_cong :
        (f : Fate) (now : ℕ) (s s' : Store)
        → lookup flag s ≡ lookup flag s'
        → exists r f now flag s ≡ exists r f now flag s'
    exists_cong answered now s s' e = rw e refl
    exists_cong lost now s s' e = refl
    exists_cong refused now s s' e = refl

    -- The account lockout, where Redis has a count of nine failures that expires in 24 hours at most,
    -- and the tenth failed login is counted and sets no lock, since the reply of the count is lost or
    -- the lock is not stored: of however many more failed logins from then to that expiry, whatever
    -- becomes of their commands, none locks the account, and afterwards it is as locked or open as
    -- before the tenth.
    pub run_failures-is_account_locked :
        (env : OtpEnv) (envs : List OtpEnv) (end : ℕ) (s : Store) (login : OtpEnv)
        → lookup fail_key s ≡ some (record { value = int 9; expires = some end })
        → env.redis_now < end
        → end ≤ after_secs env.redis_now lockout_window_secs
        → IsMissed env
        → AreWithin env.redis_now end envs
        → let run = run_failures email envs (note_login_failure r env email s).1 in
          (tally (λ b. b) run.0 ≡ 0)
          × (is_account_locked r login email run.1 ≡ is_account_locked r login email s)
    unfolding is_account_locked
    run_failures-is_account_locked env envs end s login nine early within missed h =
        let (p, kept) = tenth env end s nine early within missed in
        let (no_lock, kept_later) =
          run_past envs env.redis_now end (note_login_failure r env email s).1 h within p in
        let same = kept_later ∙ kept in
        (
          no_lock,
          ap (λ b. login.connected && or_default r false b)
              (exists_cong (login.fate 0) login.redis_now _ s same),
        )
