-- ===== src/Tokens.antt =====
-- Refresh tokens (src/tokens.rs, migrations/0004_native_auth_push.sql): single-use tokens in
-- families, which a replay revokes. SHA-256 is a parameter; each statement commits by itself.
pub mod Laws
pub mod Tests
use badminton_be_rust.Prelude.{
  ℕ, ◌+◌, ◌-◌, ◌*◌, ◌/◌, ◌%◌, Bool, true, false, not, ◌&&◌, ◌||◌, List, [], ◌∷◌, ◌++◌, Option, none,
  some, Result, ok, err, ltb, leb, ◌==◌, if◌then◌else◌, Text, text, text_eq, any, find_row, update,
  tally, is_some,
}

pub record User : Type 0 where
  pub id : ℕ
  pub status : Text

pub record Token : Type 0 where
  pub id : ℕ
  pub user_id : ℕ
  pub token_hash : Text
  pub family : ℕ
  pub created_at : ℕ
  pub expires_at : ℕ
  pub used_at : Option ℕ
  pub revoked_at : Option ℕ

pub record TokenDb : Type 0 where
  pub users : List User
  pub tokens : List Token

-- What a call reads from outside: the two clocks in microseconds, the row's id, a new family's id
-- and secret, SHA-256 and the seconds of REFRESH_REUSE_GRACE_SECS, which are taken not to be
-- negative.
pub record TokenEnv : Type 0 where
  pub now : ℕ
  pub db_now : ℕ
  pub new_id : ℕ
  pub new_family : ℕ
  pub secret : Text
  pub sha256 : Text → List ℕ
  pub grace : Option ℕ

unfoldable pub reuse_grace_secs : TokenEnv → ℕ
reuse_grace_secs env = elim env.grace [ none ↦ 60 | some s ↦ s ]

abbrev pub hex_digit : ℕ → ℕ
hex_digit n = if ltb n 10 then b'0' + n else b'a' + (n - 10)

unfoldable pub hex_encode : List ℕ → Text
hex_encode [] = []
hex_encode (b ∷ bs) = hex_digit (b / 16) ∷ hex_digit (b % 16) ∷ hex_encode bs

unfoldable pub hash : TokenEnv → Text → Text
hash env token = hex_encode (env.sha256 token)

abbrev pub days : ℕ → ℕ
days n = n * 86400000000

pub data ApiError : Type 0 where
  internal : ApiError

abbrev pub fresh_token : TokenEnv → ℕ → ℕ → Token
fresh_token env user_id family = record {
  id = env.new_id;
  user_id = user_id;
  token_hash = hash env env.secret;
  family = family;
  created_at = env.db_now;
  expires_at = env.db_now + days 90;
  used_at = none;
  revoked_at = none;
}

-- `unwrap_or_else(Uuid::new_v4)`.
abbrev pub family_or_new : TokenEnv → Option ℕ → ℕ
family_or_new env none = env.new_family
family_or_new env (some family) = family

-- A hash that is there already violates the unique index.
unfoldable pub issue : TokenEnv → ℕ → Option ℕ → TokenDb → Result ApiError Text × TokenDb
issue env user_id family db =
    if any (λ t. text_eq t.token_hash (hash env env.secret)) db.tokens
    then (err internal, db)
    else (
      ok env.secret,
      record db { tokens = db.tokens ++ fresh_token env user_id (family_or_new env family) ∷ [] },
    )

-- `refresh_tokens rt JOIN users u`, by the token's hash.
abbrev pub with_user : Token → Option User → Option (Token × User)
with_user t none = none
with_user t (some u) = some (t, u)

unfoldable pub find_token : TokenEnv → Text → TokenDb → Option (Token × User)
find_token env presented db =
    elim (find_row (λ t. text_eq t.token_hash (hash env presented)) db.tokens) [
      | none ↦ none
      | some t ↦ with_user t (find_row (λ (u : User). u.id == t.user_id) db.users)
    ]

abbrev pub revoke_at : ℕ → Token → Token
revoke_at now t = record t { revoked_at = some now }

unfoldable pub revoke_family : TokenEnv → ℕ → TokenDb → TokenDb
revoke_family env family db = record db {
  tokens =
      update (λ t. t.family == family && not (is_some t.revoked_at)) (revoke_at env.db_now)
        db.tokens;
}

unfoldable pub revoke : TokenEnv → Text → TokenDb → TokenDb
revoke env presented db = record db {
  tokens =
      update (λ t. text_eq t.token_hash (hash env presented) && not (is_some t.revoked_at))
        (revoke_at env.db_now) db.tokens;
}

unfoldable pub revoke_all_for_user : TokenEnv → ℕ → TokenDb → TokenDb
revoke_all_for_user env user_id db = record db {
  tokens =
      update (λ t. t.user_id == user_id && not (is_some t.revoked_at)) (revoke_at env.db_now)
        db.tokens;
}

abbrev pub successor :
    ℕ → Result ApiError Text × TokenDb → Result ApiError (Option (ℕ × Text)) × TokenDb
successor user_id (ok secret, db) = (ok (some (user_id, secret)), db)
successor user_id (err e, db) = (err e, db)

abbrev pub is_dead : TokenEnv → Token → User → Bool
is_dead env t u =
    is_some t.revoked_at || leb t.expires_at env.now || not (text_eq u.status (text "active"))

abbrev pub unclaimed : ℕ → Token → Bool
unclaimed id t = t.id == id && not (is_some t.used_at)

-- The claim of an unused token; when somebody else claimed it first, the caller gets a successor too.
unfoldable pub claim : TokenEnv → Token → TokenDb → TokenDb
claim env t db = record db {
  tokens = update (unclaimed t.id) (λ t. record t { used_at = some env.db_now }) db.tokens;
}

unfoldable pub replay :
    TokenEnv → Token → ℕ → TokenDb → Result ApiError (Option (ℕ × Text)) × TokenDb
replay env t used db =
    if leb ((env.now - used) / 1000000) (reuse_grace_secs env)
    then successor t.user_id (issue env t.user_id (some t.family) db)
    else (ok none, revoke_family env t.family db)

-- `others` is what other calls commit between the SELECT and the next statement.
unfoldable pub rotate :
    TokenEnv → (TokenDb → TokenDb) → Text → TokenDb → Result ApiError (Option (ℕ × Text)) × TokenDb
rotate env others presented db = elim (find_token env presented db) [
  | none ↦ (ok none, db)
  | some (t, u) ↦ elim (is_dead env t u) [
    | true ↦ (ok none, db)
    | false ↦ elim t.used_at [
      | some used ↦ replay env t used (others db)
      | none ↦ successor t.user_id (issue env t.user_id (some t.family) (claim env t (others db)))
    ]
  ]
]
