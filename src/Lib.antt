-- ===== src/Lib.antt =====
-- A model of the RallyUp backend (an axum service over PostgreSQL): the courts of a club, whose
-- kiosk players take, join, queue for and leave courts, the engine that resolves sessions that have
-- run out, the refresh tokens of the native apps, the one-time codes with their limits and lockouts,
-- the limiter in memory, and the court reservations of a group.
--
-- Courts           src/courts.rs. A database transaction is a function from the tables to a result
--                  with the tables: an error gives no tables, as the transaction is rolled back.
--                  Transactions run one after another, which is what the advisory lock on each court
--                  and the ones on credentials order them by.
--   Tables         the rows (migrations/0009_clubs.sql, 0010_clubs_v2.sql) and the errors
--   Queries        ClubRow's clock, credential_usable, the locks, court_state, check_group_size
--   Players        resolve_players, validate_players, and the INSERTs of players
--   Actions        take_court, join_court, queue_court
--   Promotion      remove_queue_group and promote_next
--   Leaving        leave_court and leave_queue
--   Engine         club_engine_row, expire_court, engine_tick
--   Invariant      what holds of the tables after each transaction, with a child for each operation
--   History        sequences of these transactions
--   Stations       valid_kiosk_username, walkin_create, member_checkin; a check-in is not one
--                  transaction, so what others commit between its statements is a parameter
--   Closures       valid_close_window, closure_boundary_pass, resize_courts
--   Tests          runs at a small club; Witnesses: the theorems at those runs
-- Tokens           src/tokens.rs (migrations/0004_native_auth_push.sql): issue, rotate, revoke,
--                  revoke_all_for_user; Laws: rotation and replay; Tests: runs
-- Errors           src/error.rs: the errors and their statuses
-- Redis            the interface of Redis: a store with one law; Memory: a store that has it
-- Otp              src/otp.rs: store_code, verify_code
--   Windows        the sliding-window limiter and the limits that use it; Entries, Bound: its decisions
--   Lockouts       the failure counters and locks; Laws: what they stop; Missed: after a lost lock
--   Codes          what is accepted; Attempts: how often a code is compared
--   Tests          runs and the theorems at them
-- Net              src/net.rs: client_ip and the limiter in memory; Laws, Tests
-- Groups           src/routes/groups.rs: the caller's active group, the administrator guard, the court
--                  range (migrations/0003_groups.sql, 0005_group_venue.sql)
-- Reservations     src/routes/reservations.rs: complete, cancel, unlock_credential, the duplicate
--                  warnings of today (migrations/0001_init.sql, 0002_reservation_credentials.sql)
--   Create         create; Plans: the row that it inserts; Logins: a login on one court at a time
--   Edit           edit, a statement for each field; Expiry: the expiry afterwards
--   Isolation      the changes that leave a group's rows alone; History: requests one after another
--   Resolving      resolve_group, the groups that a new court may belong to; Laws
--   Board          name_matches and build_matches, for a scanned status board; Laws
--   Warnings, Unlocking, Tests
-- Prelude          lists, tables as lists of rows, results, texts.
--
-- A row of the model holds the columns that the code reads. A UUID is a number; that
-- `gen_random_uuid()` gives an unused one is the hypothesis IsFresh. An instant is a number of
-- microseconds, a date a number of days. Two clocks are read, as in the code: the process's
-- (`time::now()`) and the database's (`NOW()`); no relation between them is assumed. Time zones
-- (chrono-tz) are the parameter Calendar. The players of a session or a queue group, in the
-- database the tables session_players and queue_players, are a list in its row. Foreign keys from
-- players to credentials are not modelled; a credential that has no row counts as one that a JOIN
-- leaves out. Unique indexes whose violation the code handles are tests in the inserts.
--
-- The loop of promote_next runs on fuel, one more than the court's queue has groups: each turn but
-- the last removes one group.
--
-- A handler of Reservations is a function from the tables to a result and the tables: its statements
-- are no transaction, so an error keeps what was written before it. Redis's commands are executed,
-- executed with the answer lost, or refused, each as its caller's environment says; `create` has what
-- others commit between its checks and its INSERT as a parameter, and other requests run one after
-- another. The numbers of a request are natural numbers: the code's range tests refuse the negative
-- ones as they refuse zero. The parser of RFC 3339 texts (chrono) and the standard library's
-- Unicode tables are parameters. The reservations are those with a group: the column's NULL is not
-- modelled. The numbers of a scanned board (i16) are natural numbers. In `rotate`, others commit
-- between the SELECT and the claim, not between the claim and the INSERT. A message is its format string with the numbers that it shows.
--
-- Not modelled: the board's JSON and the other views, broadcasts, notifications and metrics, the
-- passwords' generation, failures of the database, the reading of screenshots (OCR), and
-- the parts of the repository outside the files named above. SHA-256 is a parameter of the tokens.
pub mod Courts
pub mod Errors
pub mod Groups
pub mod Net
pub mod Otp
pub mod Prelude
pub mod Redis
pub mod Reservations
pub mod Tokens
