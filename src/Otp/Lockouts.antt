-- ===== src/Otp/Lockouts.antt =====
-- The failure counters of src/otp.rs and the locks that they set: of an account, of a username at a
-- club's kiosk, and of a check-in station.
pub mod Laws
pub mod Missed
use badminton_be_rust.Prelude.{
  ℕ, Bool, true, false, not, ◌++◌, Option, none, some, leb, ◌==◌, ◌&&◌, if◌then◌else◌, Text, text,
  trim, is_some,
}
use badminton_be_rust.Redis.{
  Redis, Value, int, set_ex, del, incr, expire, Fate, answered, lost, refused, command, read,
  incr_reply,
}
use badminton_be_rust.Otp.{OtpEnv}

abbrev pub lockout_threshold : ℕ
lockout_threshold = 10

abbrev pub lockout_window_secs : ℕ
lockout_window_secs = 86400

abbrev pub failure_window_secs : ℕ
failure_window_secs = 3600

abbrev pub lock_secs : ℕ
lock_secs = 900

abbrev pub count_or_zero : Option ℕ → ℕ
count_or_zero none = 0
count_or_zero (some n) = n

-- The texts of a club's id and of an address are given; `to_lowercase` is the standard library's.
unfoldable pub kiosk_key : (Text → Text) → Text → Text → Text → Text
kiosk_key to_lowercase kind club_id username =
    text "kiosk_" ++ kind ++ text ":" ++ club_id ++ text ":" ++ to_lowercase (trim username)

unfoldable pub checkin_key : Text → Text → Text → Text
checkin_key kind club_id ip = text "checkin_" ++ kind ++ text ":" ++ club_id ++ text ":" ++ ip

module _ (r : Redis) where
  open r use {Store}

  -- `r.exists(key)`: `none` is a failure.
  abbrev pub exists : Fate → ℕ → Text → Store → Option Bool
  exists answered now key s = some (is_some (read r now key s))
  exists lost now key s = none
  exists refused now key s = none

  -- Gives whether this failure locked the account.
  unfoldable pub note_login_failure : OtpEnv → Text → Store → Bool × Store
  note_login_failure env email s =
      let key = text "failcount:" ++ email in
      let count = count_or_zero (incr_reply r (env.fate 0) env.redis_now key s) in
      let s₁ = command r (env.fate 0) env.redis_now key incr s in
      let s₂ = command r (env.fate 1) env.redis_now key (expire lockout_window_secs) s₁ in
      if not env.connected
      then (false, s)
      else if count == lockout_threshold
      then (
        true,
        command r (env.fate 2) env.redis_now (text "lockflag:" ++ email)
            (set_ex (int 1) lockout_window_secs) s₂,
      )
      else (false, s₂)

  abbrev pub or_default : Bool → Option Bool → Bool
  or_default d none = d
  or_default d (some b) = b

  -- Fails open.
  unfoldable pub is_account_locked : OtpEnv → Text → Store → Bool
  is_account_locked env email s =
      env.connected
      && or_default false (exists (env.fate 0) env.redis_now (text "lockflag:" ++ email) s)

  unfoldable pub clear_account_lock : OtpEnv → Text → Store → Store
  clear_account_lock env email s =
      if env.connected
      then command r (env.fate 1) env.redis_now (text "failcount:" ++ email) del
          (command r (env.fate 0) env.redis_now (text "lockflag:" ++ email) del s)
      else s

  -- The body of `note_kiosk_bad_password` and of `note_checkin_unknown_ref`.
  unfoldable pub note_failure : OtpEnv → Text → Text → Store → Bool × Store
  note_failure env fail_key lock_key s =
      let count = count_or_zero (incr_reply r (env.fate 0) env.redis_now fail_key s) in
      let s₁ = command r (env.fate 0) env.redis_now fail_key incr s in
      let s₂ = command r (env.fate 1) env.redis_now fail_key (expire failure_window_secs) s₁ in
      if not env.connected
      then (false, s)
      else if leb lockout_threshold count
      then (
        count == lockout_threshold,
        command r (env.fate 2) env.redis_now lock_key (set_ex (int 1) lock_secs) s₂,
      )
      else (false, s₂)

  -- Fails closed.
  unfoldable pub is_key_locked : OtpEnv → Text → Store → Bool
  is_key_locked env lock_key s =
      if env.connected then or_default true (exists (env.fate 0) env.redis_now lock_key s) else true

  unfoldable pub note_kiosk_bad_password :
      (Text → Text) → OtpEnv → Text → Text → Store → Bool × Store
  unfolding note_failure
  note_kiosk_bad_password lower env club_id username =
      note_failure env (kiosk_key lower (text "fail") club_id username)
        (kiosk_key lower (text "lock") club_id username)

  unfoldable pub is_kiosk_username_locked : (Text → Text) → OtpEnv → Text → Text → Store → Bool
  unfolding is_key_locked
  is_kiosk_username_locked lower env club_id username =
      is_key_locked env (kiosk_key lower (text "lock") club_id username)

  unfoldable pub note_checkin_unknown_ref : OtpEnv → Text → Text → Store → Bool × Store
  unfolding note_failure
  note_checkin_unknown_ref env club_id ip =
      note_failure env (checkin_key (text "fail") club_id ip) (checkin_key (text "lock") club_id ip)

  unfoldable pub is_checkin_locked : OtpEnv → Text → Text → Store → Bool
  unfolding is_key_locked
  is_checkin_locked env club_id ip = is_key_locked env (checkin_key (text "lock") club_id ip)
