-- ===== src/Courts/Invariant/Resolving.antt =====
-- What `resolve_players` and `validate_players` (src/courts.rs) establish of the players.
use badminton_be_rust.Prelude.{
  Result-cases, to_ascii_lowercase, leb, ltb, ℕ, ◌+◌, ◌≤◌, ◌≡◌, refl, sym, ap, ap₂, ◌∙◌, inl, inr,
  false, List, [], ◌∷◌, Option, none, some, ok, arith, Text, trim, eq_ignore_ascii_case,
  text_eq_sound, text_eq_refl, Bool-cases, Option-cases, any, length, length-map, append-eq-nil,
  count, count_zero, find_row, select, tally, total, In, here, there, find_row_of_In, select-In,
  select-passes, total_zero, tally-find_row-none, ◌==◌, guard-eq-ok, >>=-eq-ok, map,
}
use badminton_be_rust.Courts.Tables.{Credential, Session, QueueGroup, Db, PlayerCred}
use badminton_be_rust.Courts.Tables.{Lock}
use badminton_be_rust.Courts.Queries.{lock, lock_credentials, lock_each, sort}
use badminton_be_rust.Courts.Players.{
  ResolveMode, play, newest, newer, has_username, pass_of, check_validity, check_player, Resolution,
  resolve_from, resolve_players, queued_with, playing_with, place_player, check_places, ids_of,
  validate_players,
}
use badminton_be_rust.Courts.Invariant.{seats, waits, places}

newer-In :
    (b c d : Credential) (cs : List Credential)
    → In b cs
    → newer d (some b) ≡ some c
    → In c (d ∷ cs)
newer-In b c d cs m e = elim (Bool-cases (ltb d.valid_date b.valid_date)) [
  | inl q ↦ let same : b ≡ c = ground arith in there (rw (← same) m)
  | inr q ↦ here (ground arith)
]

newest-In : (c : Credential) (cs : List Credential) → newest cs ≡ some c → In c cs
unfolding newest
newest-In c [] e = cc
newest-In c (d ∷ cs) e = elim (Option-cases (newest cs)) [
  | inl q ↦ here (ground arith)
  | inr (b, q) ↦ newer-In b c d cs (newest-In b cs q) (rw q at e)
]

-- The pass that a username resolves to is a row of the table, of that username.
pub pass_of-In :
    (club_id : ℕ) (username : Text) (db : Db) (c : Credential)
    → pass_of club_id username db ≡ some c
    → In c db.credentials × (c.club_id ≡ club_id) × (c.username ≡ username)
unfolding pass_of
pass_of-In club_id username db c e =
    let m = newest-In c (select (has_username club_id username) db.credentials) e in
    let h = select-passes (has_username club_id username) c db.credentials m in
    (select-In _ c db.credentials m, ground arith, text_eq_sound c.username username (ground arith))

-- An id comes from a row that holds it.
check_player-id :
    (mode : ResolveMode) (today id : ℕ) (row : Option Credential) (p : PlayerCred)
    → check_player mode today row p ≡ ok id
    → (c : Credential) × (row ≡ some c) × (c.id ≡ id)
unfolding check_player check_validity
check_player-id mode today id none p e = cc
check_player-id mode today id (some c) p e = (c, refl, ground arith)

module _ (db : Db) (keys : (id : ℕ) → tally (λ (c : Credential). c.id == id) db.credentials ≤ 1)
    (mode : ResolveMode) (club_id today : ℕ) where
  -- The row of a credential, and that its username is none of those met before.
  abbrev IsNew : List Text → ℕ → Type 0
  IsNew seen id =
      (c : Credential) × (find_row (λ (c : Credential). c.id == id) db.credentials ≡ some c)
      × (any (eq_ignore_ascii_case c.username) seen ≡ false)

  IsNew-cons : (u : Text) (seen : List Text) (id : ℕ) → IsNew (u ∷ seen) id → IsNew seen id
  unfolding any
  IsNew-cons u seen id (c, e, h) = (c, e, ground arith)

  abbrev ids_from : List Text → List PlayerCred → List ℕ
  ids_from seen ps = ids_of (resolve_from mode club_id today db seen ps).resolved

  -- The username and the id of a player that passes.
  found_row :
      (username : Text) (p : PlayerCred) (id : ℕ)
      → check_player mode today (pass_of club_id username db) p ≡ ok id
      → (c : Credential) × (find_row (λ (c : Credential). c.id == id) db.credentials ≡ some c)
        × (c.username ≡ username)
  found_row username p id e =
      let (c, row, same) = check_player-id mode today id (pass_of club_id username db) p e in
      let (m, _, name) = pass_of-In club_id username db c row in
      (c, find_row_of_In _ c db.credentials (keys id) (ground arith) m, name)

  checked-IsNew :
      (seen : List Text) (username : Text) (p : PlayerCred) (id₀ id : ℕ) (others : List ℕ)
      → any (eq_ignore_ascii_case username) seen ≡ false
      → check_player mode today (pass_of club_id username db) p ≡ ok id₀
      → (1 ≤ count id others → IsNew (username ∷ seen) id)
      → 1 ≤ count id (id₀ ∷ others)
      → IsNew seen id
  unfolding count
  checked-IsNew seen username p id₀ id others new e ih h = elim (Bool-cases (id == id₀)) [
    | inl q ↦
        let (c, row, name) = found_row username p id₀ e in
        let same : id ≡ id₀ = ground arith in (c, rw same row, rw name new)
    | inr q ↦ IsNew-cons username seen id (ih (ground arith))
  ]

  resolve_from-IsNew :
      (seen : List Text) (ps : List PlayerCred) (id : ℕ)
      → 1 ≤ count id (ids_from seen ps)
      → IsNew seen id
  unfolding resolve_from
  resolve_from-IsNew seen [] id h = absurd (unfold count in omega arith)
  resolve_from-IsNew seen (p ∷ ps) id h =
      elim (Bool-cases (any (eq_ignore_ascii_case (trim p.username)) seen)) [
        | inl dup ↦ resolve_from-IsNew seen ps id (rw dup at h)
        | inr new ↦
            elim (Result-cases (check_player mode today (pass_of club_id (trim p.username) db) p)) [
              | inl (id₀, e) ↦
                  checked-IsNew seen (trim p.username) p id₀ id _ new e
                    (resolve_from-IsNew (trim p.username ∷ seen) ps id) (rw (new, e) at h)
              | inr (code, e) ↦
                  IsNew-cons (trim p.username) seen id
                    (resolve_from-IsNew (trim p.username ∷ seen) ps id (rw (new, e) at h))
            ]
      ]

  -- A resolved id does not recur: its username would be met again.
  checked-count :
      (seen : List Text) (username : Text) (p : PlayerCred) (id₀ id : ℕ) (others : List ℕ)
      → check_player mode today (pass_of club_id username db) p ≡ ok id₀
      → (1 ≤ count id others → IsNew (username ∷ seen) id)
      → count id others ≤ 1
      → count id (id₀ ∷ others) ≤ 1
  unfolding count any eq_ignore_ascii_case
  checked-count seen username p id₀ id others e new h = elim (Bool-cases (id == id₀)) [
    | inl q ↦ elim (Bool-cases (leb 1 (count id others))) [
      | inl again ↦
          let (c, row, name) = found_row username p id₀ e in
          let (d, row', fresh) = new (ground arith) in
          let same : d.username ≡ username = ground arith in
          absurd (ground (arith, text_eq_refl (map to_ascii_lowercase username), rw same at fresh))
      | inr once ↦ ground arith
    ]
    | inr q ↦ ground arith
  ]

  -- If credential ids are unique, no credential is resolved twice, whatever players are given.
  pub resolve_from-count :
      (seen : List Text) (ps : List PlayerCred) (id : ℕ) → count id (ids_from seen ps) ≤ 1
  unfolding resolve_from
  resolve_from-count seen [] id = unfold count in omega arith
  resolve_from-count seen (p ∷ ps) id =
      elim (Bool-cases (any (eq_ignore_ascii_case (trim p.username)) seen)) [
        | inl dup ↦ rw dup (resolve_from-count seen ps id)
        | inr new ↦
            elim (Result-cases (check_player mode today (pass_of club_id (trim p.username) db) p)) [
              | inl (id₀, e) ↦
                  rw (new, e)
                    (checked-count seen (trim p.username) p id₀ id _ e
                      (resolve_from-IsNew (trim p.username ∷ seen) ps id)
                      (resolve_from-count (trim p.username ∷ seen) ps id))
              | inr (code, e) ↦ rw (new, e) (resolve_from-count (trim p.username ∷ seen) ps id)
            ]
      ]

-- Every player is either an error or resolved.
pub resolve_from-length :
    (mode : ResolveMode) (club_id today : ℕ) (db : Db) (seen : List Text) (ps : List PlayerCred)
    → let r = resolve_from mode club_id today db seen ps in
      length r.errors + length r.resolved ≡ length ps
unfolding resolve_from
resolve_from-length mode club_id today db seen [] = refl
resolve_from-length mode club_id today db seen (p ∷ ps) = ground (
  arith,
  resolve_from-length mode club_id today db seen ps,
  resolve_from-length mode club_id today db (trim p.username ∷ seen) ps,
)

seats_zero : (id : ℕ) (s : Session) → playing_with id s ≡ false → seats id s ≡ 0
seats_zero id s h = ground (arith, count_zero id s.players)

waits_zero : (id : ℕ) (g : QueueGroup) → queued_with id g ≡ false → waits id g ≡ 0
waits_zero id g h = count_zero id g.players h

-- The double-use check passes a player only if the credential has no place.
place_player-ok :
    (db : Db) (username : Text) (id : ℕ) (r : Resolution)
    → (place_player db (username, id) r).errors ≡ []
    → (place_player db (username, id) r ≡ record r { resolved = (username, id) ∷ r.resolved })
      × (places id db ≡ 0)
unfolding place_player
place_player-ok db username id r h = elim (Option-cases (find_row (queued_with id) db.queues)) [
  | inr (g, q) ↦ cc (rw (q, place_player) at h)
  | inl q ↦ elim (Option-cases (find_row (playing_with id) db.sessions)) [
    | inr (s, p) ↦ cc (rw (q, p, place_player) at h)
    | inl p ↦ (
      rw (q, p, place_player),
      omega (
        arith,
        total_zero (playing_with id) (seats id) db.sessions (seats_zero id)
            (tally-find_row-none (playing_with id) db.sessions p),
        total_zero (queued_with id) (waits id) db.queues (waits_zero id)
            (tally-find_row-none (queued_with id) db.queues q),
      ),
    )
  ]
]

check_places-ok :
    (db : Db) (players : List (Text × ℕ))
    → (check_places db players).errors ≡ []
    → ((check_places db players).resolved ≡ players)
      × ((id : ℕ) → 1 ≤ count id (ids_of players) → places id db ≡ 0)
unfolding check_places
check_places-ok db [] h = (refl, λ id m. absurd (unfold count in omega arith))
check_places-ok db ((username, id) ∷ rest) h =
    let r = check_places db rest in
    let (same, free) = place_player-ok db username id r h in
    let (ih, others) = check_places-ok db rest (rw same at h) in
    (
      ap (λ q. q.resolved) same ∙ ap (λ ps. (username, id) ∷ ps) ih,
      λ other m. elim (Bool-cases (other == id)) [
        | inl q ↦ let e : other ≡ id = ground arith in rw e free
        | inr q ↦ others other (unfold count in ground arith)
      ],
    )

-- Locks leave the tables alone.
pub record SameTables (db db' : Db) : Type 0 where
  pub clubs : db'.clubs ≡ db.clubs
  pub courts : db'.courts ≡ db.courts
  pub members : db'.members ≡ db.members
  pub credentials : db'.credentials ≡ db.credentials
  pub sessions : db'.sessions ≡ db.sessions
  pub queues : db'.queues ≡ db.queues

lock_each-SameTables : (ids : List ℕ) (db : Db) → SameTables db (lock_each ids db)
lock_each-SameTables [] db = ground arith
lock_each-SameTables (id ∷ ids) db =
    let s = lock_each-SameTables ids (lock (Lock.credential id) db) in
    record {
      clubs = s.clubs;
      courts = s.courts;
      members = s.members;
      credentials = s.credentials;
      sessions = s.sessions;
      queues = s.queues;
    }

pub lock_credentials-SameTables : (ids : List ℕ) (db : Db) → SameTables db (lock_credentials ids db)
unfolding lock_credentials
lock_credentials-SameTables ids db = lock_each-SameTables (sort ids) db

-- What a successful validation gives: as many credentials as players, no two the same, none of
-- them with a place; the tables are those before.
pub record AreFree (n : ℕ) (ids : List ℕ) (db db' : Db) : Type 0 where
  pub same : SameTables db db'
  pub number : length ids ≡ n
  pub distinct : (id : ℕ) → count id ids ≤ 1
  pub free : (id : ℕ) → 1 ≤ count id ids → places id db ≡ 0

-- If credential ids are unique and `validate_players` succeeds, it gives as many credentials as
-- there are players, no two the same and none with a place in an active session or a queue, and
-- leaves the tables as they were but for the locks.
pub validate_players-AreFree :
    (club_id : ℕ) (players : List PlayerCred) (today : ℕ) (db db' : Db) (ids : List ℕ)
    → ((id : ℕ) → tally (λ (c : Credential). c.id == id) db.credentials ≤ 1)
    → validate_players club_id players today db ≡ ok (ids, db')
    → AreFree (length players) ids db db'
unfolding validate_players resolve_players
validate_players-AreFree club_id players today db db' ids keys h =
    let first = resolve_from play club_id today db [] players in
    let locked = lock_credentials (ids_of first.resolved) db in
    let second = check_places locked first.resolved in
    let (_, passed, result) = >>=-eq-ok _ _ h in
    let (e₁, e₂) = append-eq-nil first.errors second.errors (guard-eq-ok _ _ passed) in
    let s = lock_credentials-SameTables (ids_of first.resolved) db in
    let (all_kept, free) = check_places-ok locked first.resolved e₂ in
    let got : ids_of second.resolved ≡ ids = cc result in
    let ids_same : ids ≡ ids_of first.resolved = sym got ∙ ap ids_of all_kept in
    let locked_same : locked ≡ db' = cc result in
    record {
      same = rw (← locked_same) s;
      number = omega (
        arith,
        ap length ids_same,
        length-map (λ (player : Text × ℕ). player.1) first.resolved,
        resolve_from-length play club_id today db [] players,
        ap length e₁,
      );
      distinct = λ id. rw ids_same (resolve_from-count db keys play club_id today [] players id);
      free = λ id m.
          ap₂ ◌+◌ (ap (total (seats id)) (sym s.sessions)) (ap (total (waits id)) (sym s.queues))
          ∙ free id (rw ids_same at m);
    }
