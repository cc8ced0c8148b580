-- ===== src/Otp/Codes.antt =====
-- How often a one-time code is compared with what is submitted (src/otp.rs).
pub mod Attempts
use badminton_be_rust.Prelude.{
  ℕ, ◌+◌, ◌-◌, ◌*◌, ◌≤◌, ◌<◌, ◌≡◌, refl, sym, ap, ◌∙◌, ◌⊎◌, inl, inr, Bool, true, false, not, ◌&&◌,
  List, [], ◌∷◌, ◌++◌, Option, none, some, Result, ok, err, arith, ltb, leb, ◌==◌, if◌then◌else◌,
  Text, text, text_eq, text_eq_refl, text_eq_sound, is_empty, Bool-cases, Option-cases, ok-eq-ok,
}
use badminton_be_rust.Redis.{
  Redis, Value, str, int, Entry, Command, live, value_of, effect, after_secs, set_ex, del, incr,
  expire, Fate, answered, lost, refused, command, read, get, counter, incr_reply,
}
use badminton_be_rust.Otp.{
  OtpEnv, OtpPurpose, VerifyResult, accepted, expired, wrong, too_many_attempts, review_bypass,
  otp_key, attempts_key, code_of, attempts_or_max, max_otp_attempts, otp_ttl_secs, wrong_code,
  right_code, verify_code,
}

-- A key is not the key with more behind it.
pub text_eq-append :
    (key more : Text)
    → is_empty more ≡ false
    → (text_eq key (key ++ more) ≡ false) × (text_eq (key ++ more) key ≡ false)
unfolding text_eq
text_eq-append [] [] h = cc
text_eq-append [] (c ∷ more) h = (refl, refl)
text_eq-append (d ∷ key) more h = ground (arith, text_eq-append key more h)

pub code_of-eq-some :
    (g : Option (Option Value)) (c : Text) → code_of g ≡ some c → g ≡ some (some (str c))
code_of-eq-some none c h = cc
code_of-eq-some (some none) c h = cc
code_of-eq-some (some (some (str t))) c h = cc
code_of-eq-some (some (some (int n))) c h = cc
code_of-eq-some (some (some (Value.zset zs))) c h = cc

module _ (r : Redis) where
  open r use {Store, lookup, exec, lookup-exec}

  get-eq-some :
      (f : Fate) (now : ℕ) (key : Text) (s : Store) (v : Option Value)
      → get r f now key s ≡ some v
      → read r now key s ≡ v
  get-eq-some answered now key s v h = cc
  get-eq-some lost now key s v h = cc
  get-eq-some refused now key s v h = cc

  wrong_code-accepted :
      (env : OtpEnv) (purpose : OtpPurpose) (email : Text) (s : Store)
      → (wrong_code r env purpose email s).0 ≡ accepted
      → ⊥
  unfolding wrong_code
  wrong_code-accepted env purpose email s h = ground (arith, h)

  -- If a submission is accepted, whatever becomes of the commands, then it is a review account's
  -- bypass, or Redis is connected and the stored code is the submission.
  pub verify_code-accepted :
      (env : OtpEnv) (purpose : OtpPurpose) (email submitted : Text) (s s' : Store)
      → verify_code r env purpose email submitted s ≡ (ok accepted, s')
      → (review_bypass env purpose email submitted ≡ true)
        ⊎ ((env.connected ≡ true)
            × (read r env.redis_now (otp_key purpose email) s ≡ some (str submitted)))
  unfolding verify_code
  verify_code-accepted env purpose email submitted s s' h =
      let key = otp_key purpose email in
      let found = code_of (get r (env.fate 0) env.redis_now key s) in
      elim (Bool-cases (review_bypass env purpose email submitted)) [
        | inl bypass ↦ inl bypass
        | inr no_bypass ↦ elim (Bool-cases env.connected) [
          | inr down ↦ absurd (cc (rw (no_bypass, down, verify_code) at h))
          | inl up ↦ elim (Option-cases found) [
            | inl missing ↦ absurd (cc (rw (no_bypass, up, missing, verify_code) at h))
            | inr (c, stored) ↦ elim (Bool-cases (text_eq c submitted)) [
              | inl same ↦ inr (
                up,
                get-eq-some (env.fate 0) env.redis_now key s _ (code_of-eq-some _ c stored)
                    ∙ ap (λ t. some (str t)) (text_eq_sound c submitted same),
              )
              | inr other ↦ absurd (
                  wrong_code-accepted env purpose email s (
                    ok-eq-ok (ap (λ p. p.0) (rw (no_bypass, up, stored, other, verify_code) at h))))
            ]
          ]
        ]
      ]
