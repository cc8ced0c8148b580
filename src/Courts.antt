-- ===== src/Courts.antt =====
-- src/courts.rs: the per-court state machine of a club, its day passes, the kiosk actions and the
-- expiry engine, over the tables of migrations/0009_clubs.sql and 0010_clubs_v2.sql.
pub mod Tables
pub mod Queries
pub mod Players
pub mod Actions
pub mod Promotion
pub mod Leaving
pub mod Engine
pub mod Stations
pub mod Closures
pub mod Invariant
pub mod History
pub mod Tests
pub mod Witnesses
