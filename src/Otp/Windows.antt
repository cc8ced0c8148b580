-- ===== src/Otp/Windows.antt =====
-- The sliding-window limiter of src/otp.rs and the limits that use it.
pub mod Entries
pub mod Bound
use badminton_be_rust.Prelude.{
  ℕ, ◌+◌, ◌-◌, ◌*◌, ◌/◌, max, Bool, true, false, List, [], ◌∷◌, ◌++◌, Option, none, some, Result,
  ok, err, leb, if◌then◌else◌, not, Text, text, length,
}
use badminton_be_rust.Errors.{ApiError, rate_limited}
use badminton_be_rust.Redis.{
  Redis, Fate, answered, lost, refused, is_answered, Value, zrembyscore, zadd, expire, members,
  command, read,
}
use badminton_be_rust.Otp.{OtpEnv, is_review_email}

abbrev pub otp_req_window_secs : ℕ
otp_req_window_secs = 3600

module _ (r : Redis) where
  open r use {Store}

  -- `zcard` and `zrange_withscores`, of a reply that fails empty.
  abbrev pub zset_reply : Fate → ℕ → Text → Store → List (Text × ℕ)
  zset_reply answered now key s = members (read r now key s)
  zset_reply lost now key s = []
  zset_reply refused now key s = []

  -- The cutoff is negative before the first window is over, and removes nothing then.
  unfoldable pub prune : OtpEnv → Text → ℕ → Store → Store
  prune env key window_secs s =
      if leb (window_secs * 1000) env.now
      then command r (env.fate 0) env.redis_now key (zrembyscore 0 (env.now - window_secs * 1000)) s
      else s

  abbrev pub retry_after : OtpEnv → ℕ → List (Text × ℕ) → ℕ
  retry_after env window_secs [] = window_secs
  retry_after env window_secs ((member, score) ∷ zs) =
      max ((score + window_secs * 1000 - env.now) / 1000) 1

  -- `member` is the text of the instant and of a new UUID. Gives whether the call is allowed, and
  -- otherwise after how many seconds to try again.
  unfoldable pub sliding_window : OtpEnv → Text → Text → ℕ → ℕ → Store → (Bool × ℕ) × Store
  unfolding prune
  sliding_window env member key limit window_secs s =
      let pruned = prune env key window_secs s in
      if not env.connected
      then ((true, 0), s)
      else if leb limit (length (zset_reply (env.fate 1) env.redis_now key pruned))
      then (
        (false, retry_after env window_secs (zset_reply (env.fate 2) env.redis_now key pruned)),
        pruned,
      )
      else (
        (true, 0),
        command r (env.fate 4) env.redis_now key (expire window_secs)
            (command r (env.fate 3) env.redis_now key (zadd member env.now) pruned),
      )

  abbrev pub try_again : ℕ → ApiError
  try_again retry = rate_limited (record {
    format = text "Too many requests. Try again in {} minutes.";
    shown = (retry + 59) / 60 ∷ [];
  })

  abbrev pub limited : ApiError → Bool → Result ApiError (Unit {0})
  limited e true = ok tt
  limited e false = err e

  -- The second window is looked at only if the first allows the request; its commands are those of
  -- `env'`.
  unfoldable pub check_request_limits :
      OtpEnv → OtpEnv → Text → Text → Text → Text → Store → Result ApiError (Unit {0}) × Store
  check_request_limits env env' member member' email ip s =
      let first = sliding_window env member (text "otp_req:" ++ email) 5 otp_req_window_secs s in
      let second =
        sliding_window env' member' (text "otp_req:ip:" ++ ip) 15 otp_req_window_secs first.1 in
      if is_review_email env email
      then (ok tt, s)
      else if not first.0.0
      then (err (try_again first.0.1), first.1)
      else if not second.0.0
      then (err (try_again second.0.1), second.1)
      else (ok tt, second.1)

  -- A cap whose refusal is one message: 30 walk-in signups a day, 120 probes an hour, 60 check-ins
  -- an hour, 10 invites an hour.
  abbrev pub capped :
      Text → OtpEnv → Text → Text → ℕ → ℕ → Store → Result ApiError (Unit {0}) × Store
  capped message env member key limit window_secs s =
      let w = sliding_window env member key limit window_secs s in
      (limited (rate_limited (record { format = message; shown = [] })) w.0.0, w.1)

  unfoldable pub check_walkin_create_cap :
      OtpEnv → Text → Text → Text → Store → Result ApiError (Unit {0}) × Store
  check_walkin_create_cap env member club_id ip =
      capped (text "Too many signups from this station today. Please see the front desk.") env
        member (text "walkin_create:" ++ club_id ++ text ":" ++ ip) 30 86400

  unfoldable pub check_walkin_probe_cap :
      OtpEnv → Text → Text → Text → Store → Result ApiError (Unit {0}) × Store
  check_walkin_probe_cap env member club_id ip =
      capped (text "Too many lookups from this station. Please see the front desk.") env member
        (text "walkin_probe:" ++ club_id ++ text ":" ++ ip) 120 3600

  unfoldable pub check_checkin_attempt_cap :
      OtpEnv → Text → Text → Text → Store → Result ApiError (Unit {0}) × Store
  check_checkin_attempt_cap env member club_id ip =
      capped (text "Too many check-ins from this station right now. Please try again later.") env
        member (text "checkin_attempt:" ++ club_id ++ text ":" ++ ip) 60 3600

  unfoldable pub check_invite_attempt :
      OtpEnv → Text → Text → Store → Result ApiError (Unit {0}) × Store
  check_invite_attempt env member ip =
      capped (text "Too many attempts. Please try again later.") env member
        (text "invite_try:ip:" ++ ip) 10 3600
