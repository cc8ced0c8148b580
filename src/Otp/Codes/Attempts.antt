-- ===== src/Otp/Codes/Attempts.antt =====
-- A one-time code is compared with at most three submissions (src/otp.rs), when Redis answers.
use badminton_be_rust.Prelude.{
  ℕ, ◌+◌, ◌-◌, ◌≤◌, ◌<◌, ◌≡◌, refl, ap, subst, ◌∙◌, ◌⊎◌, inl, inr, Bool, true, false, List, [], ◌∷◌,
  Option, none, some, Result, ok, err, arith, ltb, leb, if◌then◌else◌, bit, Text, text, text_eq,
  text_eq_refl, Bool-cases, Option-cases, some-eq-some, ok-eq-ok, total, tally,
}
use badminton_be_rust.Errors.{ApiError}
use badminton_be_rust.Redis.{
  Redis, str, int, Command, live, after_secs, set_ex, del, incr, expire, Fate, answered, lost,
  refused, is_answered, get,
}
use badminton_be_rust.Otp.{
  OtpEnv, OtpPurpose, VerifyResult, accepted, expired, wrong, too_many_attempts, review_bypass,
  otp_key, sent_key, attempts_key, code_of, max_otp_attempts, otp_ttl_secs, wrong_code, right_code,
  verify_code, fresh_code, store_code, cooling, number_of, generate_code, timestamp,
  resend_cooldown_secs,
}
use badminton_be_rust.Otp.Codes.{text_eq-append}

-- A call that Redis answers, and that is no review account's.
pub record IsPlain (purpose : OtpPurpose) (email : Text) (env : OtpEnv) (submitted : Text)
    : Type 0 where
  pub connected : env.connected ≡ true
  pub answers : (k : ℕ) → env.fate k ≡ answered
  pub no_bypass : review_bypass env purpose email submitted ≡ false

Fate-cases : (f : Fate) → (f ≡ answered) ⊎ (is_answered f ≡ false)
Fate-cases answered = inl refl
Fate-cases lost = inr refl
Fate-cases refused = inr refl

module _ (r : Redis) (purpose : OtpPurpose) (email : Text) where
  open r use {Store, lookup, exec, lookup-exec}

  abbrev key : Text
  key = otp_key purpose email

  abbrev attempts : Text
  attempts = attempts_key purpose email

  apart : (text_eq key attempts ≡ false) × (text_eq attempts key ≡ false)
  unfolding attempts_key
  apart = text_eq-append (otp_key purpose email) (text ":attempts") refl

  -- The code is stored, with the number of wrong submissions, which outlives it.
  pub record Armed (now : ℕ) (c : Text) (n : ℕ) (s : Store) : Type 0 where
    pub code_until : ℕ
    pub count_until : ℕ
    pub code : lookup key s ≡ some (record { value = str c; expires = some code_until })
    pub count : lookup attempts s ≡ some (record { value = int n; expires = some count_until })
    pub outlives : code_until ≤ count_until
    pub soon : code_until ≤ after_secs now otp_ttl_secs

  -- No code, now or later.
  abbrev pub Gone : ℕ → Store → Type 0
  Gone now s = (later : ℕ) → now ≤ later → live later (lookup key s) ≡ none

  module _ (env : OtpEnv) (submitted : Text) (plain : IsPlain purpose email env submitted)
      (s : Store) where
    verify-gone :
        live env.redis_now (lookup key s) ≡ none
        → verify_code r env purpose email submitted s ≡ (ok expired, s)
    unfolding verify_code
    verify-gone h = rw (plain.no_bypass, plain.connected, plain.answers 0, h) refl

    -- The counter after one more wrong submission.
    bumped_count :
        (n t : ℕ)
        → lookup attempts s ≡ some (record { value = int n; expires = some t })
        → env.redis_now < t
        → lookup attempts
            (exec env.redis_now attempts (expire otp_ttl_secs) (exec env.redis_now attempts incr s))
          ≡ some (record {
            value = int (n + 1);
            expires = some (after_secs env.redis_now otp_ttl_secs);
          })
    bumped_count n t h later =
        let open_still : ltb env.redis_now t ≡ true = ground arith in
        rw
          (
            lookup-exec env.redis_now attempts (expire otp_ttl_secs)
                (exec env.redis_now attempts incr s) attempts,
            text_eq_refl attempts,
            lookup-exec env.redis_now attempts incr s attempts,
            text_eq_refl attempts,
            h,
            open_still,
            open_still,
          )
          refl

    untouched :
        (c : Command) (now : ℕ) (s : Store) → lookup key (exec now attempts c s) ≡ lookup key s
    untouched c now s = rw (lookup-exec now attempts c s key, apart.1) refl

    deleted : (now : ℕ) (s : Store) → lookup key (exec now key del s) ≡ none
    deleted now s = rw (lookup-exec now key del s key, text_eq_refl key) refl

    wrong_code-counts :
        (n t : ℕ)
        → lookup attempts s ≡ some (record { value = int n; expires = some t })
        → env.redis_now < t
        → wrong_code r env purpose email s ≡ (
            let s₂ =
              exec env.redis_now attempts
                (expire otp_ttl_secs)
                (exec env.redis_now attempts incr s) in
            if leb max_otp_attempts (n + 1)
            then (too_many_attempts, exec env.redis_now key del s₂)
            else (wrong (max_otp_attempts - (n + 1)), s₂))
    unfolding wrong_code
    wrong_code-counts n t h later =
        let open_still : ltb env.redis_now t ≡ true = ground arith in
        rw
          (
            plain.answers 1,
            plain.answers 2,
            plain.answers 3,
            lookup-exec env.redis_now attempts incr s attempts,
            text_eq_refl attempts,
            h,
            open_still,
            open_still,
          )
          refl

    -- A submission while the code is stored.
    verify-live :
        (c : Text) (t : ℕ)
        → lookup key s ≡ some (record { value = str c; expires = some t })
        → env.redis_now < t
        → verify_code r env purpose email submitted s ≡ (
            if text_eq c submitted
            then (ok accepted, right_code r env purpose email s)
            else (ok (wrong_code r env purpose email s).0, (wrong_code r env purpose email s).1))
    unfolding verify_code
    verify-live c t h later =
        let open_still : ltb env.redis_now t ≡ true = ground arith in
        elim (Bool-cases (text_eq c submitted)) [
          | inl same ↦
              simp (plain.no_bypass, plain.connected, plain.answers 0, h, open_still) (rw same refl)
          | inr other ↦
              simp (plain.no_bypass, plain.connected, plain.answers 0, h, open_still)
                (rw other refl)
        ]

  abbrev pub is_compared : Result ApiError VerifyResult → Bool
  is_compared (ok expired) = false
  is_compared (ok accepted) = true
  is_compared (ok (wrong k)) = true
  is_compared (ok too_many_attempts) = true
  is_compared (err e) = false

  -- The code is gone, or a wrong submission more is counted.
  abbrev After : ℕ → Text → ℕ → Result ApiError VerifyResult × Store → Type 0
  After now c n (res, s) = Gone now s ⊎ ((n + 1 < max_otp_attempts) × Armed now c (n + 1) s)

  verify-Armed :
      (env : OtpEnv) (submitted : Text) (before n : ℕ) (c : Text) (s : Store)
      → IsPlain purpose email env submitted
      → before ≤ env.redis_now
      → Armed before c n s
      → After env.redis_now c n (verify_code r env purpose email submitted s)
  unfolding right_code
  verify-Armed env submitted before n c s plain le armed =
      elim (Bool-cases (ltb env.redis_now armed.code_until)) [
        | inr over ↦
            let missing : (later : ℕ) → env.redis_now ≤ later → live later (lookup key s) ≡ none =
              λ later h. rw armed.code (ground arith) in
            rw (verify-gone env submitted plain s (missing env.redis_now (omega arith)))
              (inl missing)
        | inl alive ↦
            let in_time : env.redis_now < armed.code_until = ground arith in
            let counting : env.redis_now < armed.count_until = omega (arith, armed.outlives) in
            elim (Bool-cases (text_eq c submitted)) [
              | inl right ↦
                  rw
                    (
                      verify-live env submitted plain s c armed.code_until armed.code in_time,
                      right,
                      plain.answers 1,
                      plain.answers 2,
                    )
                    (inl λ later h.
                      rw
                        (
                          untouched env submitted plain s del env.redis_now
                              (exec env.redis_now key del s),
                          deleted env submitted plain s env.redis_now s,
                        )
                        refl)
              | inr other ↦
                  rw
                    (
                      verify-live env submitted plain s c armed.code_until armed.code in_time,
                      other,
                      wrong_code-counts env submitted plain s n armed.count_until armed.count
                          counting,
                    )
                    (elim (Bool-cases (leb max_otp_attempts (n + 1))) [
                      | inl full ↦
                          rw full
                            (inl λ later h. rw (deleted env submitted plain s env.redis_now _) refl)
                      | inr more ↦ rw more (
                          inr (
                            ground arith,
                            record {
                              code_until = armed.code_until;
                              count_until = after_secs env.redis_now otp_ttl_secs;
                              code =
                                  untouched env submitted plain s (expire otp_ttl_secs)
                                    env.redis_now _
                                  ∙ untouched env submitted plain s incr env.redis_now s
                                  ∙ armed.code;
                              count =
                                  bumped_count env submitted plain s n armed.count_until armed.count
                                    counting;
                              outlives = omega (arith, armed.soon);
                              soon = omega (arith, armed.soon);
                            },
                          ))
                    ])
            ]
      ]

  -- Calls one after another, with the results that they give.
  unfoldable pub run_verify : List (OtpEnv × Text) → Store → List (Result ApiError VerifyResult)
  run_verify [] s = []
  run_verify ((env, submitted) ∷ calls) s =
      let v = verify_code r env purpose email submitted s in v.0 ∷ run_verify calls v.1

  -- The calls are plain, and Redis's clock does not go back.
  abbrev pub ArePlain : ℕ → List (OtpEnv × Text) → Type 0
  ArePlain now [] = Unit
  ArePlain now ((env, submitted) ∷ calls) =
      (now ≤ env.redis_now) × IsPlain purpose email env submitted × ArePlain env.redis_now calls

  run-Gone :
      (calls : List (OtpEnv × Text)) (now : ℕ) (s : Store)
      → ArePlain now calls
      → Gone now s
      → tally is_compared (run_verify calls s) ≡ 0
  unfolding run_verify total
  run-Gone [] now s h gone = refl
  run-Gone ((env, submitted) ∷ calls) now s (le, plain, rest) gone =
      rw (verify-gone env submitted plain s (gone env.redis_now le))
        (omega (arith, run-Gone calls env.redis_now s rest (λ later h. gone later (omega arith))))

  run-Armed :
      (calls : List (OtpEnv × Text)) (now n : ℕ) (c : Text) (s : Store)
      → n < max_otp_attempts
      → ArePlain now calls
      → Armed now c n s
      → tally is_compared (run_verify calls s) + n ≤ max_otp_attempts
  unfolding run_verify total
  run-Armed [] now n c s small h armed = omega arith
  run-Armed ((env, submitted) ∷ calls) now n c s small (le, plain, rest) armed =
      let v = verify_code r env purpose email submitted s in
      let one : bit (is_compared v.0) ≤ 1 = ground arith in
      elim (verify-Armed env submitted now n c s plain le armed) [
        | inl gone ↦ omega (arith, one, run-Gone calls env.redis_now v.1 rest gone)
        | inr (more, next) ↦
            omega (arith, one, run-Armed calls env.redis_now (n + 1) c v.1 more rest next)
      ]

  sent_apart : text_eq (sent_key purpose email) key ≡ false
  unfolding sent_key
  sent_apart = (text_eq-append (otp_key purpose email) (text ":sent_at") refl).1

  stored :
      (env : OtpEnv) (code : Text) (s : Store)
      → Armed env.redis_now code 0 (
          exec env.redis_now attempts (set_ex (int 0) otp_ttl_secs) (
            exec env.redis_now
              (sent_key purpose email)
              (set_ex (int (timestamp env)) otp_ttl_secs)
              (exec env.redis_now key (set_ex (str code) otp_ttl_secs) s)))
  stored env code s =
      let now = env.redis_now in
      let s₁ = exec now key (set_ex (str code) otp_ttl_secs) s in
      let s₂ = exec now (sent_key purpose email) (set_ex (int (timestamp env)) otp_ttl_secs) s₁ in
      record {
        code_until = after_secs now otp_ttl_secs;
        count_until = after_secs now otp_ttl_secs;
        code =
            rw
              (
                lookup-exec now attempts (set_ex (int 0) otp_ttl_secs) s₂ key,
                apart.1,
                lookup-exec now (sent_key purpose email) (set_ex (int (timestamp env)) otp_ttl_secs)
                    s₁ key,
                sent_apart,
                lookup-exec now key (set_ex (str code) otp_ttl_secs) s key,
                text_eq_refl key,
              )
              refl;
        count =
            rw
              (
                lookup-exec now attempts (set_ex (int 0) otp_ttl_secs) s₂ attempts,
                text_eq_refl attempts,
              )
              refl;
        outlives = omega arith;
        soon = omega arith;
      }

  fresh_code-Armed :
      (env : OtpEnv) (code : Text) (wait : ℕ) (s s' : Store)
      → fresh_code r env purpose email s ≡ (ok (code, wait), s')
      → Armed env.redis_now code 0 s'
  unfolding fresh_code sent_key attempts_key
  fresh_code-Armed env code wait s s' h = elim (Fate-cases (env.fate 2)) [
    | inr f₂ ↦ absurd (cc (rw f₂ at h))
    | inl f₂ ↦ elim (Fate-cases (env.fate 3)) [
      | inr f₃ ↦ absurd (cc (rw (f₂, f₃) at h))
      | inl f₃ ↦ elim (Fate-cases (env.fate 4)) [
        | inr f₄ ↦ absurd (cc (rw (f₂, f₃, f₄) at h))
        | inl f₄ ↦
            let e = rw (f₂, f₃, f₄) at h in
            let same : generate_code env.drawn ≡ code =
              ap (λ p. p.0) (ok-eq-ok (ap (λ p. p.0) e)) in
            subst (λ c. Armed env.redis_now c 0 s') same
              (subst (Armed env.redis_now (generate_code env.drawn) 0) (ap (λ p. p.1) e)
                (stored env (generate_code env.drawn) s))
      ]
    ]
  ]

  -- A code that is reused still cools down.
  cooling-wait :
      (env : OtpEnv) (sent : Option ℕ) (existing : Option Text) (code : Text)
      → cooling r env sent existing ≡ some (code, 0)
      → ⊥
  cooling-wait env none existing code h = cc
  cooling-wait env (some t) none code h = cc
  cooling-wait env (some t) (some c) code h =
      elim (Bool-cases (ltb (timestamp env) (t + resend_cooldown_secs))) [
        | inl early ↦ absurd (ground (arith, ap (λ p. p.1) (some-eq-some (rw early at h))))
        | inr late ↦ cc (rw late at h)
      ]

  store_code-Armed :
      (env : OtpEnv) (code : Text) (s s' : Store)
      → store_code r env purpose email s ≡ (ok (code, 0), s')
      → Armed env.redis_now code 0 s'
  unfolding store_code
  store_code-Armed env code s s' h = elim (Bool-cases env.connected) [
    | inr down ↦ absurd (cc (rw (down, store_code) at h))
    | inl up ↦
        elim (Option-cases (
          cooling r env (number_of (get r (env.fate 0) env.redis_now (sent_key purpose email) s))
            (code_of (get r (env.fate 1) env.redis_now key s)))) [
              | inl due ↦ fresh_code-Armed env code 0 s s' (rw (up, due, store_code) at h)
              | inr (p, reused) ↦ absurd (
                  cooling-wait env _ _ code (
                    reused ∙ ap some (ok-eq-ok (ap (λ p. p.0) (rw (up, reused, store_code) at h)))))
            ]
  ]

  -- After a new code is stored, at most three of any number of submissions are compared with it,
  -- where Redis answers every command, its clock does not go back, and no submission is a review
  -- account's bypass.
  pub run_verify-bounded :
      (env : OtpEnv) (code : Text) (s s' : Store) (calls : List (OtpEnv × Text))
      → store_code r env purpose email s ≡ (ok (code, 0), s')
      → ArePlain env.redis_now calls
      → tally is_compared (run_verify calls s') ≤ max_otp_attempts
  run_verify-bounded env code s s' calls h plain = omega (
    arith,
    run-Armed calls env.redis_now 0 code s' (omega arith) plain (store_code-Armed env code s s' h),
  )
