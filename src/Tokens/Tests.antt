-- ===== src/Tokens/Tests.antt =====
-- Runs of refresh tokens (src/tokens.rs), and the theorems at these inputs.
use badminton_be_rust.Prelude.{
  ℕ, ◌*◌, ◌≡◌, refl, not, [], ◌∷◌, none, some, ok, arith, Text, text, text_eq, any, find_row,
  update, is_some,
}
use badminton_be_rust.Tokens.{
  Token, TokenDb, TokenEnv, reuse_grace_secs, hex_encode, hash, issue, fresh_token, find_token,
  revoke_family, revoke, revoke_all_for_user, claim, replay, rotate,
}
use badminton_be_rust.Tokens.Laws.{revoke-rotate, rotate-replay, rotate-successor}

unfoldable tokens : Unit {0}
unfolding text_eq any find_row update reuse_grace_secs hex_encode hash issue find_token
    revoke_family revoke revoke_all_for_user claim replay rotate
tokens = tt

-- A digest that keeps its text, and a clock in seconds.
abbrev at_second : ℕ → ℕ → Text → TokenEnv
at_second s id secret = record {
  now = s * 1000000;
  db_now = s * 1000000;
  new_id = id;
  new_family = 7;
  secret = secret;
  sha256 = λ t. t;
  grace = none;
}

abbrev signed_in : TokenDb
signed_in = record {
  users = record { id = 5; status = text "active" } ∷ [];
  tokens = fresh_token (at_second 0 1 (text "a")) 5 7 ∷ [];
}

abbrev first : Token
first = fresh_token (at_second 0 1 (text "a")) 5 7

abbrev used_first : Token
used_first = record first { used_at = some 10000000 }

-- The first token is used, and its successor is not.
abbrev rotated : TokenDb
rotated = record signed_in {
  tokens = used_first ∷ fresh_token (at_second 10 2 (text "b")) 5 7 ∷ [];
}

abbrev replayed : TokenDb
replayed = record signed_in {
  tokens =
      record used_first { revoked_at = some 90000000 }
      ∷ record (fresh_token (at_second 10 2 (text "b")) 5 7) { revoked_at = some 90000000 }
      ∷ [];
}

-- A retry within the grace gets another successor.
retries :
    (rotate (at_second 10 2 (text "b")) (λ d. d) (text "a") signed_in
      ≡ (ok (some (5, text "b")), rotated))
    × ((rotate (at_second 60 3 (text "c")) (λ d. d) (text "a") rotated).0 ≡ ok (some (5, text "c")))
unfolding tokens
retries = (refl, refl)

-- Every token of the user is revoked between the SELECT of a rotation and its claim: the successor
-- is live all the same.
outlives_revocation :
    find_row
      (λ t. not (is_some t.revoked_at))
      (rotate
        (at_second 10 2 (text "b"))
        (revoke_all_for_user (at_second 9 8 (text "x")) 5)
        (text "a")
        signed_in).1.tokens
    ≡ some (fresh_token (at_second 10 2 (text "b")) 5 7)
unfolding tokens
outlives_revocation = refl

rotate-successor_example :
    (db' : TokenDb) × (rotate (at_second 10 2 (text "b")) (λ d. d) (text "a") signed_in
      ≡ (ok (some (5, text "b")), db'))
    × (find_row (λ t. text_eq t.token_hash (hash (at_second 10 2 (text "b")) (text "a"))) db'.tokens
        ≡ some used_first)
    × (find_row (λ t. text_eq t.token_hash (hash (at_second 10 2 (text "b")) (text "b"))) db'.tokens
        ≡ some (fresh_token (at_second 10 2 (text "b")) 5 7))
unfolding tokens
rotate-successor_example =
    rotate-successor (at_second 10 2 (text "b")) (text "a") signed_in first
      (record { id = 5; status = text "active" }) refl refl refl refl

rotate-replay_example :
    rotate (at_second 95 4 (text "d")) (λ d. d) (text "b") replayed ≡ (ok none, replayed)
unfolding tokens
rotate-replay_example =
    rotate-replay (at_second 90 3 (text "c")) (at_second 95 4 (text "d")) (λ d. d) (λ d. d)
      (text "a") (text "b") rotated replayed used_first
      (record (fresh_token (at_second 10 2 (text "b")) 5 7) { revoked_at = some 90000000 })
      (record { id = 5; status = text "active" }) (record { id = 5; status = text "active" })
      10000000 refl refl refl (omega arith) refl refl refl

revoke-rotate_example :
    rotate
      (at_second 20 3 (text "c"))
      (λ d. d)
      (text "a")
      (revoke (at_second 15 9 (text "x")) (text "a") signed_in)
    ≡ (ok none, revoke (at_second 15 9 (text "x")) (text "a") signed_in)
unfolding tokens
revoke-rotate_example =
    revoke-rotate (at_second 15 9 (text "x")) (at_second 20 3 (text "c")) (λ d. d) (text "a")
      signed_in refl
