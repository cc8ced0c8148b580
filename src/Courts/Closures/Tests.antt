-- ===== src/Courts/Closures/Tests.antt =====
-- Runs of the closures (src/courts.rs), and the theorems at these inputs.
use badminton_be_rust.Prelude.{
  ℕ, ◌+◌, ◌≡◌, refl, [], ◌∷◌, some, err, arith, find_row, select, delete, update, any, total,
}
use badminton_be_rust.Courts.Tables.{Court, Lock, Db, Env}
use badminton_be_rust.Courts.Queries.{minutes, lock_court, closed_or, court_closed}
use badminton_be_rust.Courts.Actions.{queue_len}
use badminton_be_rust.Courts.Invariant.{IsSound}
use badminton_be_rust.Courts.Closures.{
  valid_close_window, starts_in_past, closure_boundary_clubs, release_court, release_each,
  closure_boundary_pass, lock_courts, remove_courts, insert_courts, resize_courts, open_court,
}
use badminton_be_rust.Courts.Closures.Laws.{closure_boundary_pass-queue_len}
use badminton_be_rust.Courts.Closures.Resizing.{HasCourts, resize_courts-HasCourts}
use badminton_be_rust.Courts.History.{run-IsSound}
use badminton_be_rust.Courts.Tests.{
  courts, at_time, club, court, opening, opening-IsSound, full, evening,
}

unfoldable closures : Unit {0}
unfolding find_row select delete update any total lock_court closed_or court_closed
    valid_close_window closure_boundary_clubs release_court release_each closure_boundary_pass
    lock_courts remove_courts insert_courts resize_courts
closures = tt

-- Court 1 closes from minute 30 to minute 90.
abbrev closing : Court
closing = record (court 1) { closed_from = some (minutes 30); closed_until = some (minutes 90) }

abbrev windowed : Db
windowed = record full { courts = closing ∷ court 2 ∷ [] }

abbrev at_40 : ℕ → Env
at_40 k = at_time 40 (60 + k)

windowed-IsSound : IsSound windowed
unfolding courts
windowed-IsSound =
    let v = run-IsSound evening opening opening-IsSound (omega arith) in
    record {
      credential_ids = v.credential_ids;
      session_ids = v.session_ids;
      queue_ids = v.queue_ids;
      one_session = v.one_session;
      one_place = v.one_place;
      even_sessions = v.even_sessions;
      even_groups = v.even_groups;
      dense = v.dense;
    }

late_window : valid_close_window (minutes 10) (minutes 20) (minutes 16) ≡ err starts_in_past
unfolding closures
late_window = refl

closure_boundary_pass-queue_len_example :
    queue_len 1 1 (closure_boundary_pass at_40 (minutes 20) (minutes 40) windowed).1 ≡ 0
unfolding closures
closure_boundary_pass-queue_len_example =
    closure_boundary_pass-queue_len at_40 (minutes 20) (minutes 40) windowed closing
      windowed-IsSound refl refl (λ k. refl)

abbrev larger : Db
larger = record opening {
  clubs = record club { court_count = 3 } ∷ [];
  courts = court 1 ∷ court 2 ∷ open_court 1 3 ∷ [];
  held = Lock.clubs_row 1 ∷ [];
}

resize_courts-HasCourts_example : IsSound larger × HasCourts 1 3 larger
unfolding closures
resize_courts-HasCourts_example =
    resize_courts-HasCourts 1 3 club opening larger opening-IsSound refl
      (record { courts = λ k. ground arith; no_sessions = refl; no_groups = refl }) refl
