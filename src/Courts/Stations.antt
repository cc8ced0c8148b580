-- ===== src/Courts/Stations.antt =====
-- The stations of a club (src/courts.rs): walk-in signup and member check-in. A generated password
-- is an argument.
pub mod Laws
pub mod Checkin
pub mod Interleaved
pub mod Tests
use badminton_be_rust.Prelude.{
  ℕ, zero, suc, ◌+◌, Bool, true, false, not, ◌&&◌, ◌||◌, List, [], ◌∷◌, ◌++◌, Option, none, some,
  Result, ok, err, ◌>>=◌, ◌>>◌, guard, or_fail, ltb, leb, ◌==◌, if◌then◌else◌, Text, text_eq, any,
  all, find_row, tally, is_ascii_lowercase, is_ascii_digit,
}
use badminton_be_rust.Courts.Tables.{
  Credential, CredentialStatus, CredentialKind, Member, MemberStatus, ClubRow, Db, Env,
}
use badminton_be_rust.Courts.Queries.{is_active, club_today, lock_username}
use badminton_be_rust.Courts.Actions.{begin}

-- The bytes of a code point in UTF-8, and `str::len`.
abbrev pub char_len : ℕ → ℕ
char_len c = if ltb c 128 then 1 else if ltb c 2048 then 2 else if ltb c 65536 then 3 else 4

unfoldable pub str_len : Text → ℕ
str_len [] = 0
str_len (c ∷ s) = char_len c + str_len s

abbrev pub is_kiosk_char : ℕ → Bool
is_kiosk_char c = is_ascii_lowercase c || is_ascii_digit c || c == b'_' || c == b'.' || c == b'-'

unfoldable pub valid_kiosk_username : Text → Bool
unfolding str_len all is_ascii_lowercase is_ascii_digit
valid_kiosk_username username =
    leb 3 (str_len username) && leb (str_len username) 20 && all is_kiosk_char username

pub data Reason : Type 0 where
  invalid taken : Reason

abbrev pub is_enrolled : MemberStatus → Bool
is_enrolled MemberStatus.active = true
is_enrolled MemberStatus.removed = false

abbrev pub issued_on : ℕ → Text → ℕ → Credential → Bool
issued_on club_id username day c =
    c.club_id == club_id && text_eq c.username username && c.valid_date == day

abbrev pub reserves : ℕ → Text → Member → Bool
reserves club_id username m =
    m.club_id == club_id && text_eq m.username username && is_enrolled m.status

-- `none`: the username is free.
unfoldable pub walkin_unavailable_reason : Env → ClubRow → Text → Db → Option Reason
walkin_unavailable_reason env club username db =
    if not (valid_kiosk_username username)
    then some invalid
    else if ltb 0 (tally (issued_on club.id username (club_today env club.timezone)) db.credentials)
    then some taken
    else if ltb 0 (tally (reserves club.id username) db.members)
    then some taken
    else none

pub data WalkinError : Type 0 where
  unavailable : Reason → WalkinError
  db_error : WalkinError

-- `INSERT INTO club_credentials`: `none` is a violation of the unique index on a club's username
-- and day.
unfoldable pub insert_credential : Credential → Db → Option Db
insert_credential c db =
    if any (issued_on c.club_id c.username c.valid_date) db.credentials
    then none
    else some (record db { credentials = db.credentials ++ c ∷ [] })

abbrev pub day_pass : ℕ → ℕ → Text → Text → CredentialKind → Option ℕ → ℕ → Credential
day_pass id club_id username password kind member_id day = record {
  id = id;
  club_id = club_id;
  username = username;
  password = password;
  status = CredentialStatus.active;
  kind = kind;
  member_id = member_id;
  valid_date = day;
}

unfoldable pub walkin_create : Env → ClubRow → Text → Text → Db → Result WalkinError (Text × Db)
walkin_create env club username password db = do
  guard (valid_kiosk_username username) (unavailable invalid)
  let tx = lock_username club.id username (begin db)
  guard (not (ltb 0 (tally (reserves club.id username) tx.members))) (unavailable taken)
  inserted ←
      or_fail
        (insert_credential
          (day_pass env.new_id club.id username password CredentialKind.walkin none
            (club_today env club.timezone))
          tx)
        (unavailable taken)
  ok (password, inserted)

pub record CheckinResult : Type 0 where
  pub display_name : Option Text
  pub member_ref : Text
  pub username : Text
  pub password : Text

pub data CheckinError : Type 0 where
  unknown_member revoked username_held : CheckinError
  -- `RowNotFound`: both tries are over.
  row_not_found : CheckinError

abbrev pub holds_card : ℕ → Text → Member → Bool
holds_card club_id member_ref m =
    m.club_id == club_id && text_eq m.member_ref member_ref && is_enrolled m.status

abbrev pub is_member : ℕ → Option ℕ → Bool
is_member member_id none = false
is_member member_id (some id) = id == member_id

abbrev pub pass_today : ℕ → ℕ → ℕ → Credential → Bool
pass_today club_id member_id day c =
    c.club_id == club_id && is_member member_id c.member_id && c.valid_date == day

abbrev pub redisplay : Member → Credential → Db → Result CheckinError CheckinResult × Db
redisplay m c db =
    if is_active c.status
    then (
      ok (record {
        display_name = m.display_name;
        member_ref = m.member_ref;
        username = m.username;
        password = c.password;
      }),
      db,
    )
    else (err revoked, db)

-- Each statement commits by itself: `others k` is what other transactions commit before the k-th
-- one. `draw k` is the id and the password of the k-th insert.
abbrev pub Others : Type 0
Others = ℕ → Db → Db

abbrev pub Draws : Type 0
Draws = ℕ → ℕ × Text

-- The loop of `member_checkin`, with the tries that are left. The result of the SELECT is in hand
-- before the next statement.
unfoldable pub checkin_loop :
    ℕ → ℕ → Others → Draws → ClubRow → Member → ℕ → Db → Result CheckinError CheckinResult × Db
checkin_loop zero k others draw club m today db = (err row_not_found, db)
checkin_loop (suc tries) k others draw club m today db =
    let seen = others k db in
    elim (find_row (pass_today club.id m.id today) seen.credentials) [
      | some c ↦ redisplay m c seen
      | none ↦
          let now = others (k + 1) seen in
          let (id, password) = draw k in
          elim (insert_credential
            (day_pass id club.id m.username password CredentialKind.member (some m.id) today) now) [
              | some inserted ↦ checkin_loop tries (k + 3) others draw club m today inserted
              | none ↦
                  let later = others (k + 2) now in
                  elim (find_row (issued_on club.id m.username today) later.credentials) [
                    | none ↦ checkin_loop tries (k + 3) others draw club m today later
                    | some c ↦ elim (is_member m.id c.member_id) [
                      | true ↦ checkin_loop tries (k + 3) others draw club m today later
                      | false ↦ (err username_held, later)
                    ]
                  ]
            ]
    ]

unfoldable pub member_checkin :
    Env → Others → Draws → ClubRow → Text → Db → Result CheckinError CheckinResult × Db
unfolding checkin_loop
member_checkin env others draw club member_ref db =
    elim (find_row (holds_card club.id member_ref) db.members) [
      | none ↦ (err unknown_member, db)
      | some m ↦ checkin_loop 2 0 others draw club m (club_today env club.timezone) db
    ]
