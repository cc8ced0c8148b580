-- ===== src/Otp/Tests.antt =====
-- The limits of src/otp.rs on a store that is empty at first.
use badminton_be_rust.Prelude.{
  ℕ, inl, ◌≡◌, ◌≤◌, refl, ◌*◌, true, false, List, [], ◌∷◌, ◌++◌, Option, none, some, ok, ◌⊎◌, arith,
  if◌then◌else◌, Text, text, tally, text_eq, total, delete,
}
use badminton_be_rust.Redis.{answered, lost, Entry, int, str, read}
use badminton_be_rust.Redis.Memory.{memory, empty}
use badminton_be_rust.Otp.{
  OtpEnv, login, fresh_code, right_code, sent_key, attempts_key, accepted, store_code, verify_code,
  generate_code, review_bypass, otp_key, max_otp_attempts,
}
use badminton_be_rust.Otp.Codes.{verify_code-accepted}
use badminton_be_rust.Otp.Codes.Attempts.{IsPlain, is_compared, run_verify, run_verify-bounded}
use badminton_be_rust.Otp.Windows.{sliding_window}
use badminton_be_rust.Otp.Windows.Bound.{IsAnswered, run_window, admit, times, run_window-admit}
use badminton_be_rust.Otp.Lockouts.{lockout_threshold, note_login_failure, is_account_locked}
use badminton_be_rust.Otp.Lockouts.Laws.{run_guesses, run_guesses-bounded}
use badminton_be_rust.Otp.Lockouts.Missed.{run_failures, run_failures-is_account_locked}

-- A call at an instant, in milliseconds, that Redis answers.
abbrev at_time : ℕ → OtpEnv
at_time now = record {
  now = now;
  redis_now = now;
  connected = true;
  fate = λ k. answered;
  drawn = 4217;
  review_email = none;
  review_code = none;
}

abbrev email : Text
email = text "a@b.c"

abbrev calls : List (OtpEnv × Text)
calls =
    (at_time 1000, text "a")
    ∷ (at_time 2000, text "b")
    ∷ (at_time 3000, text "c")
    ∷ (at_time 61500, text "d")
    ∷ []

-- Two calls in 60 seconds.
three_windows : run_window memory (text "k") 2 60 calls empty ≡ true ∷ true ∷ false ∷ true ∷ []
unfolding run_window sliding_window text_eq delete
three_windows = refl

window_answers : (now : ℕ) → IsAnswered memory (text "k") 2 60 (at_time now)
window_answers now = record { connected = refl; answers = λ k. refl; one_clock = refl }

run_window-admit_example :
    run_window memory (text "k") 2 60 calls empty
    ≡ admit 2 (60 * 1000) [] (times memory (text "k") 2 60 calls)
unfolding total text_eq
run_window-admit_example = run_window-admit memory (text "k") 2 60 calls empty refl (
    (
      omega arith,
      window_answers 1000,
      refl,
      (
        omega arith,
        window_answers 2000,
        refl,
        (omega arith, window_answers 3000, refl, (omega arith, window_answers 61500, refl, tt)),
      ),
    ))

-- The code that is stored first, two wrong codes, and the code.
abbrev stored : Text → Option Entry
stored = (store_code memory (at_time 0) login email empty).1

abbrev submissions : List (OtpEnv × Text)
submissions =
    (at_time 1000, text "1")
    ∷ (at_time 2000, text "2")
    ∷ (at_time 3000, text "3")
    ∷ (at_time 4000, text "004217")
    ∷ []

plain : (now : ℕ) (submitted : Text) → IsPlain login email (at_time now) submitted
unfolding review_bypass
plain now submitted = record { connected = refl; answers = λ k. refl; no_bypass = refl }

run_verify-bounded_example :
    tally (is_compared memory login email) (run_verify memory login email submissions stored)
    ≤ max_otp_attempts
unfolding store_code fresh_code generate_code
run_verify-bounded_example =
    run_verify-bounded memory login email (at_time 0) (text "004217") empty stored submissions refl
      (
        omega arith,
        plain 1000 (text "1"),
        (
          omega arith,
          plain 2000 (text "2"),
          (omega arith, plain 3000 (text "3"), (omega arith, plain 4000 (text "004217"), tt)),
        ),
      )

abbrev guesses : List OtpEnv
guesses = at_time 1000 ∷ record (at_time 2000) { connected = false } ∷ at_time 3000 ∷ []

run_guesses-bounded_example :
    tally (λ g. g) (run_guesses memory (λ t. t) (text "club") (text "bob") guesses empty)
    ≤ lockout_threshold
run_guesses-bounded_example =
    run_guesses-bounded memory (λ t. t) (text "club") (text "bob") guesses 1000 empty refl
      (
        omega arith,
        omega arith,
        (λ up k. refl),
        (omega arith, omega arith, (λ up k. refl), (omega arith, omega arith, (λ up k. refl), tt)),
      )

-- Ten failures are counted, and the tenth's lock was not stored.
abbrev nine_failures : Text → Option Entry
nine_failures j =
    if text_eq (text "failcount:" ++ email) j
    then some (record { value = int 9; expires = some 5000 })
    else none

-- The tenth failure, with the reply of its count lost.
abbrev missed_one : OtpEnv
missed_one = record (at_time 1000) { fate = λ k. lost }

run_failures-is_account_locked_example :
    let run =
      run_failures memory email
        (at_time 2000 ∷ at_time 3000 ∷ [])
        (note_login_failure memory missed_one email nine_failures).1 in
    (tally (λ b. b) run.0 ≡ 0)
    × (is_account_locked memory (at_time 3500) email run.1
        ≡ is_account_locked memory (at_time 3500) email nine_failures)
unfolding text_eq
run_failures-is_account_locked_example =
    run_failures-is_account_locked memory email missed_one (at_time 2000 ∷ at_time 3000 ∷ []) 5000
      nine_failures (at_time 3500) refl (omega arith) (omega arith) (refl, inl refl)
      (omega arith, omega arith, (omega arith, omega arith, tt))

accepted_run :
    verify_code memory (at_time 1000) login email (text "004217") stored
    ≡ (ok accepted, right_code memory (at_time 1000) login email stored)
unfolding verify_code store_code fresh_code generate_code review_bypass text_eq otp_key sent_key
    attempts_key
accepted_run = refl

verify_code-accepted_example :
    (review_bypass (at_time 1000) login email (text "004217") ≡ true)
    ⊎ (((at_time 1000).connected ≡ true)
        × (read memory (at_time 1000).redis_now (otp_key login email) stored
            ≡ some (str (text "004217"))))
verify_code-accepted_example =
    verify_code-accepted memory (at_time 1000) login email (text "004217") stored
      (right_code memory (at_time 1000) login email stored) accepted_run
