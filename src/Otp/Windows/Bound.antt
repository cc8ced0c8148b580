-- ===== src/Otp/Windows/Bound.antt =====
-- The limiter of src/otp.rs, on the store, decides as a log of the calls that were allowed.
use badminton_be_rust.Prelude.{
  ℕ, ◌+◌, ◌-◌, ◌*◌, ◌≤◌, ◌≡◌, refl, sym, ap, subst, ◌∙◌, inl, inr, Bool, true, false, List, [], ◌∷◌,
  Option, none, arith, ltb, leb, if◌then◌else◌, bit, Text, text_eq, text_eq_refl, length, total,
  tally, delete_none, Bool-cases,
}
use badminton_be_rust.Redis.{Redis, Entry, live, effect, zadd, zrembyscore, expire, answered}
use badminton_be_rust.Otp.{OtpEnv}
use badminton_be_rust.Otp.Windows.{prune, zset_reply, sliding_window}
use badminton_be_rust.Otp.Windows.Entries.{
  in_window, at_instant, within, tally-zinsert, pruned, length-pruned, within-pruned, tally-pruned,
  added,
}

-- The reference: a log of the instants of the allowed calls. A call is allowed when fewer than
-- `limit` of them are in the window that ends with it.
unfoldable pub admit : ℕ → ℕ → List ℕ → List ℕ → List Bool
admit limit width log [] = []
admit limit width log (now ∷ times) =
    let ok = ltb (tally (in_window width now) log) limit in
    let allowed = admit limit width (now ∷ log) times in
    let refused = admit limit width log times in if ok then true ∷ allowed else false ∷ refused

abbrev pub is_text : Text → Text → Bool
is_text m u = text_eq u m

abbrev named : Text → Text × ℕ → Bool
named m z = text_eq z.0 m

-- A log of instants up to `last`.
abbrev IsPast : ℕ → List ℕ → Type 0
IsPast last [] = Unit
IsPast last (t ∷ log) = (t ≤ last) × IsPast last log

IsPast-mono : (last now : ℕ) (log : List ℕ) → last ≤ now → IsPast last log → IsPast now log
IsPast-mono last now [] h p = tt
IsPast-mono last now (t ∷ log) h (le, p) = (omega arith, IsPast-mono last now log h p)

past-over :
    (last width later : ℕ) (log : List ℕ)
    → IsPast last log
    → last + width ≤ later
    → tally (in_window width later) log ≡ 0
unfolding total
past-over last width later [] p h = refl
past-over last width later (t ∷ log) (le, p) h = ground (arith, past-over last width later log p h)

module _ (r : Redis) (key : Text) (limit secs : ℕ) where
  open r use {Store, lookup, exec, lookup-exec}

  abbrev width : ℕ
  width = secs * 1000

  -- A call that Redis answers, by the same clock.
  pub record IsAnswered (env : OtpEnv) : Type 0 where
    pub connected : env.connected ≡ true
    pub answers : (k : ℕ) → env.fate k ≡ answered
    pub one_clock : env.redis_now ≡ env.now

  -- The calls are answered, their clock does not go back, and each brings a member of its own.
  abbrev pub AreAnswered : ℕ → List Text → List (OtpEnv × Text) → Type 0
  AreAnswered last used [] = Unit
  AreAnswered last used ((env, member) ∷ calls) =
      (last ≤ env.now)
      × IsAnswered env
      × (tally (is_text member) used ≡ 0)
      × AreAnswered env.now (member ∷ used) calls

  -- Calls one after another: which of them are allowed.
  unfoldable pub run_window : List (OtpEnv × Text) → Store → List Bool
  run_window [] s = []
  run_window ((env, member) ∷ calls) s =
      let w = sliding_window r env member key limit secs s in w.0.0 ∷ run_window calls w.1

  abbrev pub times : List (OtpEnv × Text) → List ℕ
  times [] = []
  times ((env, member) ∷ calls) = env.now ∷ times calls

  -- The entry of the key agrees with the log.
  record Agrees (last : ℕ) (log : List ℕ) (used : List Text) (o : Option Entry) : Type 0 where
    pub past : IsPast last log
    pub same :
        (i later : ℕ)
        → last ≤ i
        → i ≤ later
        → within width later (at_instant i o) ≡ tally (in_window width later) log
    pub fresh :
        (i : ℕ) (m : Text)
        → last ≤ i
        → tally (is_text m) used ≡ 0
        → tally (named m) (at_instant i o) ≡ 0

  pruned-Agrees :
      (last now : ℕ) (log : List ℕ) (used : List Text) (member : Text) (o : Option Entry)
      → last ≤ now
      → Agrees last log used o
      → Agrees now log (member ∷ used) (pruned width now o)
  unfolding total
  pruned-Agrees last now log used member o h a = record {
    past = IsPast-mono last now log h a.past;
    same = λ i later g g'.
        within-pruned width now i later o g (omega arith) ∙ a.same i later (omega arith) g';
    fresh = λ i m g e. omega (
      arith,
      tally-pruned (named m) width now i o g,
      a.fresh i m (omega arith) (omega (arith, e)),
    );
  }

  added-Agrees :
      (last now : ℕ) (log : List ℕ) (used : List Text) (member : Text) (o : Option Entry)
      → last ≤ now
      → tally (is_text member) used ≡ 0
      → Agrees last log used o
      → Agrees now (now ∷ log) (member ∷ used) (
          effect now
            (expire secs)
            (live now (effect now (zadd member now) (live now (pruned width now o)))))
  unfolding total
  added-Agrees last now log used member o h new a =
      let p = pruned-Agrees last now log used member o h a in
      let zs = at_instant now (pruned width now o) in
      let none_yet : tally (named member) zs ≡ 0 = omega (
        arith,
        tally-pruned (named member) width now now o (omega arith),
        a.fresh now member h new,
      ) in
      rw (added now secs member now (pruned width now o), delete_none (named member) zs none_yet)
        record {
          past = (omega arith, p.past);
          same = λ i later g g'. elim (Bool-cases (ltb i (now + width))) [
            | inl on ↦ rw on (
                tally-zinsert (λ z. in_window width later z.1) member now zs
                ∙ ap (λ k. bit (in_window width later now) + k)
                    (p.same now later (omega arith) (omega arith)))
            | inr off ↦
                rw off
                  (sym (past-over now width later (now ∷ log) (omega arith, p.past) (ground arith)))
          ];
          fresh = λ i m g e. elim (Bool-cases (ltb i (now + width))) [
            | inl on ↦ rw on (
                tally-zinsert (named m) member now zs
                ∙ omega (arith, e, p.fresh now m (omega arith) e))
            | inr off ↦ rw off refl
          ];
        }

  lookup-prune :
      (env : OtpEnv) (s : Store)
      → IsAnswered env
      → lookup key (prune r env key secs s) ≡ pruned width env.now (lookup key s)
  unfolding prune
  lookup-prune env s h = elim (Bool-cases (leb width env.now)) [
    | inl old ↦
        rw
          (
            old,
            h.answers 0,
            h.one_clock,
            lookup-exec env.now key (zrembyscore 0 (env.now - width)) s key,
            text_eq_refl key,
          )
          refl
    | inr early ↦ rw early refl
  ]

  counted :
      (env : OtpEnv) (s : Store)
      → IsAnswered env
      → length (zset_reply r (env.fate 1) env.redis_now key (prune r env key secs s))
        ≡ within width env.now (at_instant env.now (lookup key s))
  counted env s h =
      simp (h.answers 1, h.one_clock, lookup-prune env s h)
        (length-pruned width env.now (lookup key s))

  -- An answered call.
  refuses :
      (env : OtpEnv) (member : Text) (s : Store)
      → IsAnswered env
      → leb limit (within width env.now (at_instant env.now (lookup key s))) ≡ true
      → ((sliding_window r env member key limit secs s).0.0 ≡ false)
        × ((sliding_window r env member key limit secs s).1 ≡ prune r env key secs s)
  unfolding sliding_window
  refuses env member s h full = simp (h.connected, counted env s h) (rw full (refl, refl))

  allows :
      (env : OtpEnv) (member : Text) (s : Store)
      → IsAnswered env
      → leb limit (within width env.now (at_instant env.now (lookup key s))) ≡ false
      → ((sliding_window r env member key limit secs s).0.0 ≡ true)
        × ((sliding_window r env member key limit secs s).1
            ≡ exec env.redis_now key
                (expire secs)
                (exec env.redis_now key (zadd member env.now) (prune r env key secs s)))
  unfolding sliding_window
  allows env member s h room =
      simp (h.connected, counted env s h, h.answers 3, h.answers 4) (rw room (refl, refl))

  lookup-added :
      (env : OtpEnv) (member : Text) (s : Store)
      → IsAnswered env
      → lookup key (
          exec env.redis_now key
            (expire secs)
            (exec env.redis_now key (zadd member env.now) (prune r env key secs s)))
        ≡ effect env.now (expire secs) (
            live env.now (
              effect env.now
                (zadd member env.now)
                (live env.now (pruned width env.now (lookup key s)))))
  lookup-added env member s h =
      let s₁ = prune r env key secs s in
      let s₂ = exec env.now key (zadd member env.now) s₁ in
      let first = lookup-exec env.now key (zadd member env.now) s₁ key in
      simp h.one_clock (
        rw
          (
            lookup-exec env.now key (expire secs) s₂ key,
            text_eq_refl key,
            first,
            text_eq_refl key,
            lookup-prune env s h,
          )
          refl)

  run-Agrees :
      (calls : List (OtpEnv × Text)) (last : ℕ) (log : List ℕ) (used : List Text) (s : Store)
      → AreAnswered last used calls
      → Agrees last log used (lookup key s)
      → run_window calls s ≡ admit limit width log (times calls)
  unfolding run_window admit
  run-Agrees [] last log used s h a = refl
  run-Agrees ((env, member) ∷ calls) last log used s (le, good, new, rest) a =
      let o = lookup key s in
      let w = sliding_window r env member key limit secs s in
      let agree = a.same env.now env.now le (omega arith) in
      elim (Bool-cases (leb limit (within width env.now (at_instant env.now o)))) [
        | inl full ↦
            let outcome = refuses env member s good full in
            let off : ltb (tally (in_window width env.now) log) limit ≡ false = ground arith in
            let next =
              subst (Agrees env.now log (member ∷ used))
                (sym (ap (lookup key) outcome.1 ∙ lookup-prune env s good))
                (pruned-Agrees last env.now log used member o le a) in
            rw (outcome.0, off)
              (ap (λ l. false ∷ l) (run-Agrees calls env.now log (member ∷ used) w.1 rest next))
        | inr room ↦
            let outcome = allows env member s good room in
            let on : ltb (tally (in_window width env.now) log) limit ≡ true = ground arith in
            let next =
              subst (Agrees env.now (env.now ∷ log) (member ∷ used))
                (sym (ap (lookup key) outcome.1 ∙ lookup-added env member s good))
                (added-Agrees last env.now log used member o le new a) in
            rw (outcome.0, on)
              (ap (λ l. true ∷ l)
                (run-Agrees calls env.now (env.now ∷ log) (member ∷ used) w.1 rest next))
      ]

  -- Calls that Redis answers by the clock of the caller, on a key that does not exist yet, are
  -- allowed exactly as the reference decides that keeps a log of the allowed instants: a call is
  -- allowed when fewer than `limit` calls were allowed in the window that ends with it. The clock
  -- does not go back, and no two calls bring the same member.
  pub run_window-admit :
      (calls : List (OtpEnv × Text)) (s : Store)
      → lookup key s ≡ none
      → AreAnswered 0 [] calls
      → run_window calls s ≡ admit limit width [] (times calls)
  unfolding total
  run_window-admit calls s h answers =
      run-Agrees calls 0 [] [] s answers
        (rw h record { past = tt; same = λ i later g g'. refl; fresh = λ i m g e. refl })
