-- ===== src/Courts/Invariant/Inserts.antt =====
-- The inserts of the kiosk actions (src/courts.rs) as single changes of the tables.
use mathlib.Core.List.{append-nil, append_assoc}
use badminton_be_rust.Prelude.{
  ℕ, ◌≡◌, sym, ap, ◌∙◌, inl, inr, List, [], ◌∷◌, ◌++◌, some, ok, any, tally-any, update-append,
  update-update, update_id, update_none, arith, ◌==◌, tally, update, Bool-cases, guard-ok-eq-ok,
  >>=-eq-ok,
}
use badminton_be_rust.Courts.Tables.{Session, QueueGroup, Db, Env}
use badminton_be_rust.Courts.Queries.{plays_on}
use badminton_be_rust.Courts.Players.{
  seat_session, seat_group, insert_session_player, insert_session_players, insert_queue_player,
  insert_queue_players,
}
use badminton_be_rust.Courts.Actions.{fresh_session, insert_session}
use badminton_be_rust.Courts.Invariant.{IsSound}
use badminton_be_rust.Courts.Invariant.Resolving.{SameTables}

pub SameTables-IsSound : {db db' : Db} → SameTables db db' → IsSound db → IsSound db'
SameTables-IsSound s v = record {
  credential_ids = λ id. rw s.credentials (v.credential_ids id);
  session_ids = λ id. rw s.sessions (v.session_ids id);
  queue_ids = λ id. rw s.queues (v.queue_ids id);
  one_session = λ club_id number. rw s.sessions (v.one_session club_id number);
  one_place = λ id. rw (s.sessions, s.queues) (v.one_place id);
  even_sessions = rw s.sessions v.even_sessions;
  even_groups = rw s.queues v.even_groups;
  dense = λ club_id number k. rw s.queues (v.dense club_id number k);
}

insert_session_player-eq-ok :
    (session_id id : ℕ) (db db' : Db)
    → insert_session_player session_id id db ≡ ok db'
    → db' ≡ record db {
      sessions = update (λ s. s.id == session_id) (seat_session (id ∷ [])) db.sessions;
    }
unfolding insert_session_player
insert_session_player-eq-ok session_id id db db' e = sym (guard-ok-eq-ok _ _ _ _ e).1

-- The loop of inserts is one change of the session's row.
pub insert_session_players-eq-ok :
    (session_id : ℕ) (ids : List ℕ) (db db' : Db)
    → insert_session_players session_id ids db ≡ ok db'
    → db' ≡ record db { sessions = update (λ s. s.id == session_id) (seat_session ids) db.sessions }
unfolding insert_session_players
insert_session_players-eq-ok session_id [] db db' e =
    let q : db ≡ db' = cc e in
    sym q
    ∙ ap (λ ss. record db { sessions = ss })
        (sym (
          update_id _ _ db.sessions
            (λ s. ap (λ ps. record s { players = ps }) (append-nil s.players))))
insert_session_players-eq-ok session_id (id ∷ ids) db db' e =
    let (mid, first, rest) = >>=-eq-ok _ _ e in
    let q = insert_session_players-eq-ok session_id ids mid db' rest in
    let p = insert_session_player-eq-ok session_id id db mid first in
    q
    ∙ ap
        (λ (d : Db). record d {
          sessions = update (λ s. s.id == session_id) (seat_session ids) d.sessions;
        })
        p
    ∙ ap (λ ss. record db { sessions = ss })
        (update-update (λ s. s.id == session_id) (seat_session (id ∷ [])) (seat_session ids)
          (seat_session (id ∷ ids)) db.sessions (λ s h. h)
          (λ s. ap (λ ps. record s { players = ps }) (append_assoc s.players (id ∷ []) ids)))

insert_queue_player-eq-ok :
    (queue_id id : ℕ) (db db' : Db)
    → insert_queue_player queue_id id db ≡ ok db'
    → db' ≡ record db { queues = update (λ g. g.id == queue_id) (seat_group (id ∷ [])) db.queues }
unfolding insert_queue_player
insert_queue_player-eq-ok queue_id id db db' e = sym (guard-ok-eq-ok _ _ _ _ e).1

pub insert_queue_players-eq-ok :
    (queue_id : ℕ) (ids : List ℕ) (db db' : Db)
    → insert_queue_players queue_id ids db ≡ ok db'
    → db' ≡ record db { queues = update (λ g. g.id == queue_id) (seat_group ids) db.queues }
unfolding insert_queue_players
insert_queue_players-eq-ok queue_id [] db db' e =
    let q : db ≡ db' = cc e in
    sym q
    ∙ ap (λ gs. record db { queues = gs })
        (sym (
          update_id _ _ db.queues
            (λ g. ap (λ ps. record g { players = ps }) (append-nil g.players))))
insert_queue_players-eq-ok queue_id (id ∷ ids) db db' e =
    let (mid, first, rest) = >>=-eq-ok _ _ e in
    let q = insert_queue_players-eq-ok queue_id ids mid db' rest in
    let p = insert_queue_player-eq-ok queue_id id db mid first in
    q
    ∙ ap
        (λ (d : Db). record d { queues = update (λ g. g.id == queue_id) (seat_group ids) d.queues })
        p
    ∙ ap (λ gs. record db { queues = gs })
        (update-update (λ g. g.id == queue_id) (seat_group (id ∷ [])) (seat_group ids)
          (seat_group (id ∷ ids)) db.queues (λ g h. h)
          (λ g. ap (λ ps. record g { players = ps }) (append_assoc g.players (id ∷ []) ids)))

-- No row has the UUID that the database is about to give out.
pub record IsFresh (env : Env) (db : Db) : Type 0 where
  pub sessions : tally (λ (s : Session). s.id == env.new_id) db.sessions ≡ 0
  pub queues : tally (λ (g : QueueGroup). g.id == env.new_id) db.queues ≡ 0

-- The insert of a session gives up exactly where the court has an active one.
pub insert_session-eq-some :
    (env : Env) (club_id number session_minutes : ℕ) (db db' : Db)
    → insert_session env club_id number session_minutes db ≡ some db'
    → (tally (plays_on club_id number) db.sessions ≡ 0)
      × (db' ≡ record db {
        sessions = db.sessions ++ fresh_session env club_id number session_minutes ∷ [];
      })
unfolding insert_session
insert_session-eq-some env club_id number session_minutes db db' e =
    elim (Bool-cases (any (plays_on club_id number) db.sessions)) [
      | inl q ↦ cc (rw q at e)
      | inr q ↦ (tally-any (plays_on club_id number) db.sessions q, ground arith)
    ]

-- A session inserted and then filled is a row with its players.
pub fill_session :
    (s : Session) (ids : List ℕ) (ss : List Session)
    → tally (λ (x : Session). x.id == s.id) ss ≡ 0
    → update (λ (x : Session). x.id == s.id) (seat_session ids) (ss ++ s ∷ [])
      ≡ ss ++ seat_session ids s ∷ []
unfolding update
fill_session s ids ss fresh =
    rw (update-append, update_none (λ (x : Session). x.id == s.id) (seat_session ids) ss fresh)
      (ground arith)

pub fill_group :
    (g : QueueGroup) (ids : List ℕ) (gs : List QueueGroup)
    → tally (λ (x : QueueGroup). x.id == g.id) gs ≡ 0
    → update (λ (x : QueueGroup). x.id == g.id) (seat_group ids) (gs ++ g ∷ [])
      ≡ gs ++ seat_group ids g ∷ []
unfolding update
fill_group g ids gs fresh =
    rw (update-append, update_none (λ (x : QueueGroup). x.id == g.id) (seat_group ids) gs fresh)
      (ground arith)
