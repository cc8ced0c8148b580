-- ===== src/Courts/Invariant.antt =====
-- The invariant of the courts tables (src/courts.rs), and the sums by which it is stated.
pub mod Resolving
pub mod Rows
pub mod Inserts
pub mod SignUp
pub mod Queueing
pub mod Renumbering
pub mod Fronts
pub mod Heads
pub mod Walking
pub mod Seating
pub mod Starting
pub mod Promoting
pub mod Expiring
pub mod Departing
pub mod Leaving
pub mod Dequeuing
pub mod Withdrawing
use badminton_be_rust.Prelude.{
  ℕ, ◌+◌, ◌≤◌, ◌≡◌, Bool, true, false, not, ◌&&◌, ◌||◌, bit, leb, ◌==◌, if◌then◌else◌, length,
  count, total, tally,
}
use badminton_be_rust.Courts.Tables.{Credential, Session, QueueGroup, Db}
use badminton_be_rust.Courts.Queries.{is_playing, plays_on}
use badminton_be_rust.Courts.Actions.{queue_len, stands_at}

-- How often a credential plays in a session that is active, or waits in a queue group.
abbrev pub seats : ℕ → Session → ℕ
seats id s = if is_playing s.status then count id s.players else 0

abbrev pub waits : ℕ → QueueGroup → ℕ
waits id g = count id g.players

abbrev pub places : ℕ → Db → ℕ
places id db = total (seats id) db.sessions + total (waits id) db.queues

abbrev pub is_two_or_four : ℕ → Bool
is_two_or_four n = n == 2 || n == 4

abbrev pub is_uneven_session : Session → Bool
is_uneven_session s = is_playing s.status && not (is_two_or_four (length s.players))

abbrev pub is_uneven_group : QueueGroup → Bool
is_uneven_group g = not (is_two_or_four (length g.players))

-- Keys are unique; a court has at most one active session; a credential has at most one place in
-- the whole database; every active session and every queue group has 2 or 4 players; and the
-- positions of each court's queue are 1, …, N, each taken once.
pub record IsSound (db : Db) : Type 0 where
  pub credential_ids : (id : ℕ) → tally (λ c. c.id == id) db.credentials ≤ 1
  pub session_ids : (id : ℕ) → tally (λ s. s.id == id) db.sessions ≤ 1
  pub queue_ids : (id : ℕ) → tally (λ g. g.id == id) db.queues ≤ 1
  pub one_session : (club_id number : ℕ) → tally (plays_on club_id number) db.sessions ≤ 1
  pub one_place : (id : ℕ) → places id db ≤ 1
  pub even_sessions : tally is_uneven_session db.sessions ≡ 0
  pub even_groups : tally is_uneven_group db.queues ≡ 0
  pub dense :
      (club_id number k : ℕ)
      → tally (stands_at club_id number k) db.queues
        ≡ bit (leb 1 k && leb k (queue_len club_id number db))
