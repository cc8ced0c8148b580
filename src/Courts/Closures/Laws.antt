-- ===== src/Courts/Closures/Laws.antt =====
-- Closure windows and the number of courts (src/courts.rs): what they leave of the queues.
use badminton_be_rust.Prelude.{
  ℕ, ◌+◌, ◌≤◌, ◌≡◌, refl, ap, subst, ◌∙◌, ◌⊎◌, inl, inr, Bool, true, false, ◌&&◌, List, [], ◌∷◌,
  some, arith, ◌==◌, bit, total, tally, delete, select, find_row, In, here, there, find_row-In,
  total-delete_le, Bool-cases,
}
use badminton_be_rust.Courts.Tables.{Court, QueueGroup, Db, Env}
use badminton_be_rust.Courts.Queries.{lock_court, is_court, waits_for, court_closed, closed_or}
use badminton_be_rust.Courts.Actions.{begin, queue_len, stands_at}
use badminton_be_rust.Courts.Invariant.{waits, is_uneven_group, IsSound}
use badminton_be_rust.Courts.Invariant.SignUp.{begin-SameTables}
use badminton_be_rust.Courts.Invariant.Inserts.{SameTables-IsSound}
use badminton_be_rust.Courts.Closures.{release_court, release_each, closure_boundary_pass, crossed}

pub tally-delete_all {ℓ} :
    {A : Type ℓ} (p q : A → Bool) (xs : List A)
    → ((x : A) → q x ≡ true → p x ≡ true)
    → tally q (delete p xs) ≡ 0
unfolding delete total
tally-delete_all p q [] h = refl
tally-delete_all p q (x ∷ xs) h = ground (arith, h x, tally-delete_all p q xs h)

pub tally-delete_other {ℓ} :
    {A : Type ℓ} (p q : A → Bool) (xs : List A)
    → ((x : A) → q x ≡ true → p x ≡ false)
    → tally q (delete p xs) ≡ tally q xs
unfolding delete total
tally-delete_other p q [] h = refl
tally-delete_other p q (x ∷ xs) h = ground (arith, h x, tally-delete_other p q xs h)

-- A deletion that takes each court's queue as a whole.
pub delete_queues-IsSound :
    (db : Db) (p : QueueGroup → Bool)
    → IsSound db
    → ((club_id number : ℕ)
        → ((g : QueueGroup) → waits_for club_id number g ≡ true → p g ≡ true)
          ⊎ ((g : QueueGroup) → waits_for club_id number g ≡ true → p g ≡ false))
    → IsSound (record db { queues = delete p db.queues })
delete_queues-IsSound db p v whole = record {
  credential_ids = v.credential_ids;
  session_ids = v.session_ids;
  queue_ids =
      λ id. omega (arith, total-delete_le p (λ g. bit (g.id == id)) db.queues, v.queue_ids id);
  one_session = v.one_session;
  one_place = λ id. omega (arith, total-delete_le p (waits id) db.queues, v.one_place id);
  even_sessions = v.even_sessions;
  even_groups =
      omega (arith, total-delete_le p (λ g. bit (is_uneven_group g)) db.queues, v.even_groups);
  dense = λ club_id number k. elim (whole club_id number) [
    | inl gone ↦ ground (
      arith,
      tally-delete_all p (waits_for club_id number) db.queues gone,
      tally-delete_all p (stands_at club_id number k) db.queues (λ g s. gone g (ground arith)),
    )
    | inr kept ↦ ground (
      arith,
      tally-delete_other p (waits_for club_id number) db.queues kept,
      tally-delete_other p (stands_at club_id number k) db.queues (λ g s. kept g (ground arith)),
      v.dense club_id number k,
    )
  ];
}

-- A court that is closed loses its queue; no queue grows; courts stay.
record Released (env : Env) (club_id number : ℕ) (db db' : Db) : Type 0 where
  sound : IsSound db'
  courts : db'.courts ≡ db.courts
  shorter : (c n : ℕ) → queue_len c n db' ≤ queue_len c n db
  empty :
      (row : Court)
      → find_row (is_court club_id number) db.courts ≡ some row
      → court_closed env.db_now row ≡ true
      → queue_len club_id number db' ≡ 0

this_or_other :
    (club_id number c n : ℕ)
    → ((g : QueueGroup) → waits_for c n g ≡ true → waits_for club_id number g ≡ true)
      ⊎ ((g : QueueGroup) → waits_for c n g ≡ true → waits_for club_id number g ≡ false)
this_or_other club_id number c n = elim (Bool-cases (c == club_id && n == number)) [
  | inl same ↦ inl (λ g w. ground arith)
  | inr other ↦ inr (λ g w. ground arith)
]

release_court-Released :
    (env : Env) (club_id number : ℕ) (db : Db)
    → IsSound db
    → Released env club_id number db (release_court env club_id number db)
unfolding release_court lock_court closed_or
release_court-Released env club_id number db v =
    elim (Bool-cases (closed_or false env club_id number db)) [
      | inl closed ↦
          rw (closed, release_court)
            (record {
              sound =
                  delete_queues-IsSound (lock_court club_id number (begin db))
                    (waits_for club_id number)
                    (SameTables-IsSound (begin-SameTables club_id number db) v)
                    (this_or_other club_id number);
              courts = refl;
              shorter = λ c n.
                  total-delete_le (waits_for club_id number) (λ g. bit (waits_for c n g)) db.queues;
              empty = λ row found shut.
                  tally-delete_all (waits_for club_id number) (waits_for club_id number) db.queues
                    (λ g w. w);
            })
      | inr open_still ↦
          rw (open_still, release_court)
            (record {
              sound = SameTables-IsSound (begin-SameTables club_id number db) v;
              courts = refl;
              shorter = λ c n. omega arith;
              empty = λ row found shut. cc (rw (found, closed_or) at open_still);
            })
    ]

release_each-IsSound :
    (envs : ℕ → Env) (k : ℕ) (cs : List Court) (db : Db)
    → IsSound db
    → IsSound (release_each envs k cs db)
unfolding release_each
release_each-IsSound envs k [] db v = v
release_each-IsSound envs k (c ∷ cs) db v =
    release_each-IsSound envs (k + 1) cs _
      (release_court-Released (envs k) c.club_id c.number db v).sound

release_each-le :
    (envs : ℕ → Env) (k : ℕ) (cs : List Court) (db : Db) (club_id number : ℕ)
    → IsSound db
    → queue_len club_id number (release_each envs k cs db) ≤ queue_len club_id number db
unfolding release_each
release_each-le envs k [] db club_id number v = omega arith
release_each-le envs k (c ∷ cs) db club_id number v =
    let r = release_court-Released (envs k) c.club_id c.number db v in
    omega
      (arith, r.shorter club_id number, release_each-le envs (k + 1) cs _ club_id number r.sound)

release_each-empty :
    (envs : ℕ → Env) (k : ℕ) (cs : List Court) (db : Db) (c : Court)
    → IsSound db
    → In c cs
    → find_row (is_court c.club_id c.number) db.courts ≡ some c
    → ((k : ℕ) → court_closed (envs k).db_now c ≡ true)
    → queue_len c.club_id c.number (release_each envs k cs db) ≡ 0
unfolding release_each
release_each-empty envs k [] db c v m found shut = elim m [ ]
release_each-empty envs k (d ∷ cs) db c v (here e) found shut =
    let r = release_court-Released (envs k) c.club_id c.number db v in
    subst
      (λ d.
        queue_len c.club_id c.number
          (release_each envs (k + 1) cs (release_court (envs k) d.club_id d.number db))
        ≡ 0)
      e
      (omega (
        arith,
        r.empty c found (shut k),
        release_each-le envs (k + 1) cs _ c.club_id c.number r.sound,
      ))
release_each-empty envs k (d ∷ cs) db c v (there m) found shut =
    let r = release_court-Released (envs k) d.club_id d.number db v in
    release_each-empty envs (k + 1) cs _ c r.sound m
      (ap (find_row (is_court c.club_id c.number)) r.courts ∙ found) shut

select-In_of :
    {c : Court} (p : Court → Bool) (cs : List Court) → In c cs → p c ≡ true → In c (select p cs)
unfolding select
select-In_of p [] m h = m
select-In_of p (d ∷ cs) (here e) h = rw (rw e at h) (here e)
select-In_of p (d ∷ cs) (there m) h = elim (Bool-cases (p d)) [
  | inl taken ↦ rw taken (there (select-In_of p cs m h))
  | inr left ↦ rw left (select-In_of p cs m h)
]

-- The closure pass leaves sound tables sound.
pub closure_boundary_pass-IsSound :
    (envs : ℕ → Env) (since now : ℕ) (db : Db)
    → IsSound db
    → IsSound (closure_boundary_pass envs since now db).1
unfolding closure_boundary_pass
closure_boundary_pass-IsSound envs since now db v =
    release_each-IsSound envs 0 (select (λ c. crossed since now c.closed_from) db.courts) db v

-- In sound tables, if a court's closure window started in the interval of the pass and the court is
-- closed whenever the pass reads the clock, the court's queue is empty after the pass.
pub closure_boundary_pass-queue_len :
    (envs : ℕ → Env) (since now : ℕ) (db : Db) (c : Court)
    → IsSound db
    → find_row (is_court c.club_id c.number) db.courts ≡ some c
    → crossed since now c.closed_from ≡ true
    → ((k : ℕ) → court_closed (envs k).db_now c ≡ true)
    → queue_len c.club_id c.number (closure_boundary_pass envs since now db).1 ≡ 0
unfolding closure_boundary_pass
closure_boundary_pass-queue_len envs since now db c v found starts shut =
    release_each-empty envs 0 (select (λ c. crossed since now c.closed_from) db.courts) db c v
      (select-In_of (λ c. crossed since now c.closed_from) db.courts
        (find_row-In (is_court c.club_id c.number) db.courts c found) starts)
      found shut
