-- ===== src/Otp.antt =====
-- One-time codes and the limiters in Redis (src/otp.rs). A call happens at one instant; its k-th
-- command has the fate `fate k`.
pub mod Windows
pub mod Lockouts
pub mod Codes
mod Tests
use badminton_be_rust.Prelude.{
  ℕ, ◌+◌, ◌-◌, ◌*◌, ◌/◌, ◌%◌, max, Bool, true, false, not, ◌&&◌, List, [], ◌∷◌, ◌++◌, Option, none,
  some, Result, ok, err, ltb, leb, ◌==◌, if◌then◌else◌, Text, text, text_eq, trim,
  eq_ignore_ascii_case, any, is_empty, length,
}
use badminton_be_rust.Errors.{Message, ApiError, internal}
use badminton_be_rust.Redis.{
  Redis, Value, str, int, set_ex, del, incr, expire, Fate, is_answered, command, get, counter,
  incr_reply,
}

pub data OtpPurpose : Type 0 where
  signup login platform : OtpPurpose

unfoldable pub tag : OtpPurpose → Text
tag signup = text "signup"
tag login = text "login"
tag platform = text "platform"

pub data VerifyResult : Type 0 where
  accepted expired : VerifyResult
  wrong : (remaining : ℕ) → VerifyResult
  too_many_attempts : VerifyResult

-- What a call reads from outside: the process's clock and Redis's, in milliseconds; whether there
-- is a connection; what becomes of its commands; the number that the generator draws; and the
-- variables REVIEW_LOGIN_EMAIL and REVIEW_LOGIN_CODE.
pub record OtpEnv : Type 0 where
  pub now : ℕ
  pub redis_now : ℕ
  pub connected : Bool
  pub fate : ℕ → Fate
  pub drawn : ℕ
  pub review_email : Option Text
  pub review_code : Option Text

abbrev pub timestamp : OtpEnv → ℕ
timestamp env = env.now / 1000

abbrev pub otp_ttl_secs : ℕ
otp_ttl_secs = 300

abbrev pub resend_cooldown_secs : ℕ
resend_cooldown_secs = 60

abbrev pub max_otp_attempts : ℕ
max_otp_attempts = 3

abbrev pub digit : ℕ → ℕ
digit n = b'0' + n % 10

-- `format!("{n:06}")` of a number below a million.
unfoldable pub generate_code : ℕ → Text
generate_code n =
    digit (n / 100000)
    ∷ digit (n / 10000)
    ∷ digit (n / 1000)
    ∷ digit (n / 100)
    ∷ digit (n / 10)
    ∷ digit n
    ∷ []

-- `str::split(',')`; the last field is not closed by a comma.
abbrev pub push_char : ℕ → List Text → List Text
push_char c [] = (c ∷ []) ∷ []
push_char c (field ∷ fields) = (c ∷ field) ∷ fields

unfoldable pub split_commas : Text → List Text
split_commas [] = [] ∷ []
split_commas (c ∷ s) =
    let rest = split_commas s in if c == b',' then [] ∷ rest else push_char c rest

unfoldable pub is_review_email : OtpEnv → Text → Bool
unfolding any split_commas eq_ignore_ascii_case
is_review_email env email = elim env.review_email [
  | none ↦ false
  | some emails ↦ elim env.review_code [
    | none ↦ false
    | some code ↦
        not (is_empty code)
        && any (λ allowed. eq_ignore_ascii_case email (trim allowed)) (split_commas emails)
  ]
]

-- The platform console is never bypassed.
abbrev pub is_member_purpose : OtpPurpose → Bool
is_member_purpose signup = true
is_member_purpose login = true
is_member_purpose platform = false

unfoldable pub review_bypass : OtpEnv → OtpPurpose → Text → Text → Bool
unfolding is_review_email text_eq
review_bypass env purpose email submitted = is_member_purpose purpose && (elim env.review_code [
  | none ↦ false
  | some code ↦ not (is_empty code) && text_eq submitted (trim code) && is_review_email env email
])

unfoldable pub otp_key : OtpPurpose → Text → Text
unfolding tag
otp_key purpose email = text "otp:" ++ tag purpose ++ text ":" ++ email

unfoldable pub sent_key : OtpPurpose → Text → Text
unfolding otp_key
sent_key purpose email = otp_key purpose email ++ text ":sent_at"

unfoldable pub attempts_key : OtpPurpose → Text → Text
unfolding otp_key
attempts_key purpose email = otp_key purpose email ++ text ":attempts"

abbrev pub no_redis : ApiError
no_redis =
    internal (record { format = text "verification service unavailable (no Redis)"; shown = [] })

abbrev pub redis_failed : ApiError
redis_failed = internal (record { format = text "redis: {e}"; shown = [] })

-- A code is a string, and the numbers are stored as numbers.
abbrev pub code_of : Option (Option Value) → Option Text
code_of none = none
code_of (some none) = none
code_of (some (some v)) = elim v [ str t ↦ some t | _ ↦ none ]

abbrev pub number_of : Option (Option Value) → Option ℕ
number_of none = none
number_of (some v) = counter v

module _ (r : Redis) where
  open r use {Store}

  -- The commands that store a new code; the first one that fails ends the call.
  unfoldable pub fresh_code :
      OtpEnv → OtpPurpose → Text → Store → Result ApiError (Text × ℕ) × Store
  unfolding generate_code
  fresh_code env purpose email s₀ =
      let code = generate_code env.drawn in
      let s₁ =
        command r (env.fate 2) env.redis_now (otp_key purpose email)
          (set_ex (str code) otp_ttl_secs) s₀ in
      let s₂ =
        command r (env.fate 3) env.redis_now (sent_key purpose email)
          (set_ex (int (timestamp env)) otp_ttl_secs) s₁ in
      let s₃ =
        command r (env.fate 4) env.redis_now (attempts_key purpose email)
          (set_ex (int 0) otp_ttl_secs) s₂ in
      if not (is_answered (env.fate 2))
      then (err redis_failed, s₁)
      else if not (is_answered (env.fate 3))
      then (err redis_failed, s₂)
      else if not (is_answered (env.fate 4))
      then (err redis_failed, s₃)
      else (ok (code, 0), s₃)

  -- The code that is reused within the cooldown, with what is left of it.
  abbrev pub cooling : OtpEnv → Option ℕ → Option Text → Option (Text × ℕ)
  cooling env none existing = none
  cooling env (some sent_at) none = none
  cooling env (some sent_at) (some code) =
      if ltb (timestamp env) (sent_at + resend_cooldown_secs)
      then some (code, sent_at + resend_cooldown_secs - timestamp env)
      else none

  -- Gives the code to deliver, and the seconds before it may be sent again.
  unfoldable pub store_code :
      OtpEnv → OtpPurpose → Text → Store → Result ApiError (Text × ℕ) × Store
  store_code env purpose email s =
      if not env.connected
      then (err no_redis, s)
      else elim (cooling env
          (number_of (get r (env.fate 0) env.redis_now (sent_key purpose email) s))
          (code_of (get r (env.fate 1) env.redis_now (otp_key purpose email) s))) [
            | some reused ↦ (ok reused, s)
            | none ↦ fresh_code env purpose email s
          ]

  -- A counter that cannot be read counts as exhausted.
  abbrev pub attempts_or_max : Option ℕ → ℕ
  attempts_or_max none = max_otp_attempts
  attempts_or_max (some n) = n

  unfoldable pub wrong_code : OtpEnv → OtpPurpose → Text → Store → VerifyResult × Store
  wrong_code env purpose email s =
      let attempts =
        attempts_or_max (incr_reply r (env.fate 1) env.redis_now (attempts_key purpose email) s) in
      let s₁ = command r (env.fate 1) env.redis_now (attempts_key purpose email) incr s in
      let s₂ =
        command r (env.fate 2) env.redis_now (attempts_key purpose email) (expire otp_ttl_secs)
          s₁ in
      if leb max_otp_attempts attempts
      then (too_many_attempts, command r (env.fate 3) env.redis_now (otp_key purpose email) del s₂)
      else (wrong (max_otp_attempts - attempts), s₂)

  unfoldable pub right_code : OtpEnv → OtpPurpose → Text → Store → Store
  right_code env purpose email s =
      command r (env.fate 2) env.redis_now (attempts_key purpose email) del
        (command r (env.fate 1) env.redis_now (otp_key purpose email) del s)

  unfoldable pub verify_code :
      OtpEnv → OtpPurpose → Text → Text → Store → Result ApiError VerifyResult × Store
  unfolding text_eq
  verify_code env purpose email submitted s =
      if review_bypass env purpose email submitted
      then (ok accepted, s)
      else if not env.connected
      then (err no_redis, s)
      else elim (code_of (get r (env.fate 0) env.redis_now (otp_key purpose email) s)) [
        | none ↦ (ok expired, s)
        | some stored ↦ elim (text_eq stored submitted) [
          | true ↦ (ok accepted, right_code env purpose email s)
          | false ↦ let w = wrong_code env purpose email s in (ok w.0, w.1)
        ]
      ]
