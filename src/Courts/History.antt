-- ===== src/Courts/History.antt =====
-- Histories of the courts tables: the kiosk actions and the engine's steps (src/courts.rs), one
-- transaction after another, as the advisory locks order them.
use badminton_be_rust.Prelude.{ℕ, ◌≡◌, refl, List, [], ◌∷◌, Result, ok, err}
use badminton_be_rust.Courts.Tables.{ClubRow, Db, Env, PlayerCred, ActionError}
use badminton_be_rust.Courts.Actions.{take_court, join_court, queue_court}
use badminton_be_rust.Courts.Leaving.{leave_court, leave_queue}
use badminton_be_rust.Courts.Engine.{expire_court}
use badminton_be_rust.Courts.Closures.{closure_boundary_pass}
use badminton_be_rust.Courts.Closures.Laws.{closure_boundary_pass-IsSound}
use badminton_be_rust.Courts.Invariant.{IsSound}
use badminton_be_rust.Courts.Invariant.Inserts.{IsFresh}
use badminton_be_rust.Courts.Invariant.SignUp.{take_court-IsSound, join_court-IsSound}
use badminton_be_rust.Courts.Invariant.Queueing.{queue_court-IsSound}
use badminton_be_rust.Courts.Invariant.Leaving.{leave_court-HasLeft}
use badminton_be_rust.Courts.Invariant.Withdrawing.{leave_queue-HasWithdrawn}
use badminton_be_rust.Courts.Invariant.Expiring.{expire_court-IsSound}

pub data Call : Type 0 where
  takes joins queues leaves leaves_queue : ClubRow → ℕ → List PlayerCred → Call
  expires : ℕ → ℕ → Call
  -- `closure_boundary_pass`, with the readings of its transactions.
  boundary : (ℕ → Env) → ℕ → ℕ → Call

-- A transaction that fails is rolled back.
abbrev pub committed {ℓ} : {A : Type ℓ} → Db → Result ActionError (A × Db) → Db
committed db (ok (a, db')) = db'
committed db (err e) = db

abbrev pub committed_db : Db → Result ActionError Db → Db
committed_db db (ok db') = db'
committed_db db (err e) = db

unfoldable pub step : Env → Call → Db → Db
step env (takes club number players) db = committed_db db (take_court env club number players db)
step env (joins club number players) db = committed_db db (join_court env club number players db)
step env (queues club number players) db = committed db (queue_court env club number players db)
step env (leaves club number players) db = committed db (leave_court env club number players db)
step env (leaves_queue club number players) db =
    committed db (leave_queue env club number players db)
step env (expires club_id number) db = committed db (expire_court env club_id number db)
step env (boundary envs since now) db = (closure_boundary_pass envs since now db).1

unfoldable pub run : List (Env × Call) → Db → Db
run [] db = db
run ((env, call) ∷ calls) db = run calls (step env call db)

-- Each UUID that the database gives out is new at its moment.
abbrev pub AreFresh : List (Env × Call) → Db → Type 0
AreFresh [] db = Unit
AreFresh ((env, call) ∷ calls) db = IsFresh env db × AreFresh calls (step env call db)

committed-IsSound {ℓ} :
    {A : Type ℓ} (db : Db) (r : Result ActionError (A × Db))
    → IsSound db
    → ((a : A) (db' : Db) → r ≡ ok (a, db') → IsSound db')
    → IsSound (committed db r)
committed-IsSound db (ok (a, db')) v h = h a db' refl
committed-IsSound db (err e) v h = v

committed_db-IsSound :
    (db : Db) (r : Result ActionError Db)
    → IsSound db
    → ((db' : Db) → r ≡ ok db' → IsSound db')
    → IsSound (committed_db db r)
committed_db-IsSound db (ok db') v h = h db' refl
committed_db-IsSound db (err e) v h = v

step-IsSound :
    (env : Env) (call : Call) (db : Db) → IsSound db → IsFresh env db → IsSound (step env call db)
unfolding step
step-IsSound env (takes club number players) db v f =
    committed_db-IsSound db _ v (λ db' e. take_court-IsSound env club number players db db' v f e)
step-IsSound env (joins club number players) db v f =
    committed_db-IsSound db _ v (λ db' e. join_court-IsSound env club number players db db' v e)
step-IsSound env (queues club number players) db v f =
    committed-IsSound db _ v
      (λ p db' e. (queue_court-IsSound env club number players db db' p v f e).0)
step-IsSound env (leaves club number players) db v f =
    committed-IsSound db _ v
      (λ o db' e. (leave_court-HasLeft env club number players o db db' v f e).0)
step-IsSound env (leaves_queue club number players) db v f =
    committed-IsSound db _ v
      (λ b db' e. (leave_queue-HasWithdrawn env club number players b db db' v e).0)
step-IsSound env (expires club_id number) db v f =
    committed-IsSound db _ v (λ o db' e. expire_court-IsSound env club_id number db db' o v f e)
step-IsSound env (boundary envs since now) db v f =
    closure_boundary_pass-IsSound envs since now db v

-- After any history of kiosk actions, engine steps and closure passes, failed ones included, from
-- sound tables, the invariant holds:
-- keys are unique, a court has at most one active session, a credential at most one place in all
-- sessions and queues, every active session and queue group has 2 or 4 players, and each queue is
-- numbered 1, …, N. The new UUIDs are assumed to be unused.
pub run-IsSound :
    (calls : List (Env × Call)) (db : Db) → IsSound db → AreFresh calls db → IsSound (run calls db)
unfolding run
run-IsSound [] db v f = v
run-IsSound ((env, call) ∷ calls) db v (f, fs) =
    run-IsSound calls (step env call db) (step-IsSound env call db v f) fs
