-- ===== src/Courts/Stations/Tests.antt =====
-- Runs of the stations (src/courts.rs), and the theorems at these inputs.
use badminton_be_rust.Prelude.{
  ◌+◌, ◌≡◌, refl, true, false, [], ◌∷◌, ◌++◌, none, some, ok, err, Text, text, text_eq, trim,
  trim_start, is_whitespace, is_ascii_lowercase, is_ascii_digit, is_ascii_uppercase,
  to_ascii_lowercase, any, all, total, select, find_row,
}
use badminton_be_rust.Courts.Tables.{Member, MemberStatus, CredentialKind, Lock, Db, Env}
use badminton_be_rust.Courts.Queries.{
  parse_timezone, club_tz, club_today, lock_username, credential_usable,
}
use badminton_be_rust.Courts.Players.{newest, pass_of, play, check_player, check_validity}
use badminton_be_rust.Courts.Stations.{
  str_len, valid_kiosk_username, taken, unavailable, walkin_unavailable_reason, insert_credential,
  walkin_create, CheckinResult, Draws, checkin_loop, member_checkin, day_pass, holds_card,
}
use badminton_be_rust.Courts.Stations.Laws.{
  walkin_pass, walkin_create-unavailable, walkin_create-free, walkin_create-play,
}
use badminton_be_rust.Courts.Stations.Checkin.{
  quiet, HasCheckedIn, member_checkin-HasCheckedIn, member_checkin-again,
}
use badminton_be_rust.Courts.Stations.Interleaved.{Shows, member_checkin-Shows}
use badminton_be_rust.Courts.Tests.{at_time, club, opening}

unfoldable stations : Unit {0}
unfolding text_eq trim trim_start is_whitespace is_ascii_lowercase is_ascii_digit is_ascii_uppercase
    to_ascii_lowercase any all total select find_row parse_timezone club_tz club_today lock_username
    credential_usable newest pass_of check_player check_validity str_len valid_kiosk_username
    walkin_unavailable_reason insert_credential walkin_create checkin_loop member_checkin
stations = tt

abbrev noon : Env
noon = at_time 720 21

abbrev gus : Text
gus = text "gus"

abbrev word : Text
word = text "otter7"

abbrev signed_up : Db
signed_up = record opening {
  credentials = opening.credentials ++ walkin_pass noon club gus word ∷ [];
  held = Lock.username 1 gus ∷ [];
}

abbrev mia : Member
mia = record {
  id = 31;
  club_id = 1;
  member_ref = text "M-1";
  username = text "mia";
  display_name = none;
  status = MemberStatus.active;
}

abbrev enrolled : Db
enrolled = record opening { members = mia ∷ [] }

abbrev draw : Draws
draw k = (40 + k, text "heron4")

abbrev other_draw : Draws
other_draw k = (50 + k, text "finch2")

abbrev mia_shown : CheckinResult
mia_shown = record {
  display_name = none;
  member_ref = text "M-1";
  username = text "mia";
  password = text "heron4";
}

abbrev checked_in : Db
checked_in = record enrolled {
  credentials =
      opening.credentials
      ++ day_pass 40 1 (text "mia") (text "heron4") CredentialKind.member (some 31) 5 ∷ [];
}

-- `valid_kiosk_username` counts bytes.
usernames :
    (valid_kiosk_username (text "ab") ≡ false)
    × (valid_kiosk_username (text "a.b_c-9") ≡ true)
    × (valid_kiosk_username (text "Abc") ≡ false)
    × (valid_kiosk_username (text "aé") ≡ false)
unfolding stations
usernames = (refl, refl, refl, refl)

checks_in : member_checkin noon quiet draw club (text "M-1") enrolled ≡ (ok mia_shown, checked_in)
unfolding stations
checks_in = refl

walkin_create-unavailable_example :
    walkin_create noon club (text "ann") word opening ≡ err (unavailable taken)
unfolding stations
walkin_create-unavailable_example =
    walkin_create-unavailable noon club (text "ann") word opening taken refl

walkin_create-free_example :
    (db' : Db) × (walkin_create noon club gus word opening ≡ ok (word, db'))
    × (db'.members ≡ [])
    × (db'.credentials ≡ opening.credentials ++ walkin_pass noon club gus word ∷ [])
    × (walkin_unavailable_reason noon club gus db' ≡ some taken)
unfolding stations
walkin_create-free_example = walkin_create-free noon club gus word opening refl

walkin_create-play_example :
    check_player play 5 (pass_of 1 gus signed_up) (record { username = gus; password = word })
    ≡ ok 21
unfolding stations
walkin_create-play_example =
    walkin_create-play noon club gus word opening word signed_up refl refl refl

member_checkin-HasCheckedIn_example :
    HasCheckedIn club mia 5 enrolled (member_checkin noon quiet draw club (text "M-1") enrolled)
unfolding stations
member_checkin-HasCheckedIn_example =
    member_checkin-HasCheckedIn noon draw club (text "M-1") mia enrolled refl

member_checkin-again_example :
    member_checkin (at_time 800 22) quiet other_draw club (text "M-1") checked_in
    ≡ (ok mia_shown, checked_in)
unfolding stations
member_checkin-again_example =
    member_checkin-again noon (at_time 800 22) draw other_draw club (text "M-1") enrolled checked_in
      mia_shown refl refl

member_checkin-Shows_example :
    (m : Member) × (find_row (holds_card 1 (text "M-1")) enrolled.members ≡ some m)
    × Shows club m 5 mia_shown checked_in
unfolding stations
member_checkin-Shows_example =
    member_checkin-Shows noon quiet draw club (text "M-1") enrolled checked_in mia_shown refl
