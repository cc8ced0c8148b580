-- ===== src/Tokens/Laws.antt =====
-- Rotation and replay of refresh tokens (src/tokens.rs).
use badminton_be_rust.Prelude.{
  ℕ, ◌-◌, ◌/◌, ◌<◌, ◌≡◌, refl, sym, ap, subst, ◌∙◌, inl, inr, Bool, true, false, not, ◌&&◌, List,
  [], ◌∷◌, ◌++◌, none, some, ok, arith, leb, ◌==◌, Text, text_eq, text_eq_refl, any, find_row,
  update, is_some, In, here, there, find_row-In, find_row-passes, find_row-append, find_row-update,
  find_row_of_tally, tally-any, Bool-cases, Option-cases, some-eq-some,
}
use badminton_be_rust.Tokens.{
  User, Token, TokenDb, TokenEnv, reuse_grace_secs, hash, fresh_token, issue, find_token, revoke_at,
  revoke_family, revoke, is_dead, unclaimed, claim, replay, rotate,
}

-- What an update by `revoke_at` does not leave: a row that passes the test and is not revoked.
update-revoked :
    (now : ℕ) (p : Token → Bool) (ts : List Token) (t : Token)
    → ((x : Token) → p (revoke_at now x) ≡ p x)
    → In t (update (λ x. p x && not (is_some x.revoked_at)) (revoke_at now) ts)
    → p t ≡ true
    → is_some t.revoked_at ≡ true
unfolding update
update-revoked now p [] t same m h = elim m [ ]
update-revoked now p (x ∷ ts) t same (there m) h = update-revoked now p ts t same m h
update-revoked now p (x ∷ ts) t same (here e) h =
    elim (Bool-cases (p x && not (is_some x.revoked_at))) [
      | inl changed ↦ rw (e, changed) refl
      | inr kept ↦ let r : t ≡ x = rw kept at e in rw r (ground (arith, rw r at h))
    ]

-- The row of a token that is found.
find_token-row :
    (env : TokenEnv) (presented : Text) (db : TokenDb) (t : Token) (u : User)
    → find_token env presented db ≡ some (t, u)
    → find_row (λ t. text_eq t.token_hash (hash env presented)) db.tokens ≡ some t
unfolding find_token
find_token-row env presented db t u h =
    elim (Option-cases (find_row (λ t. text_eq t.token_hash (hash env presented)) db.tokens)) [
      | inl missing ↦ absurd (cc (rw (missing, find_token) at h))
      | inr (t', found) ↦
          elim (Option-cases (find_row (λ (u : User). u.id == t'.user_id) db.users)) [
            | inl nobody ↦ absurd (cc (rw (found, nobody, find_token) at h))
            | inr (u', known) ↦
                found ∙ ap (λ p. some p.0) (some-eq-some (rw (found, known, find_token) at h))
          ]
    ]

-- A token whose row is revoked gives nothing.
rotate-dead :
    (env : TokenEnv) (others : TokenDb → TokenDb) (presented : Text) (db : TokenDb)
    → ((t : Token) (u : User)
        → find_token env presented db ≡ some (t, u)
        → is_some t.revoked_at ≡ true)
    → rotate env others presented db ≡ (ok none, db)
unfolding rotate
rotate-dead env others presented db dead = elim (Option-cases (find_token env presented db)) [
  | inl missing ↦ rw (missing, rotate) refl
  | inr ((t, u), found) ↦ rw (found, dead t u found, rotate) refl
]

-- After a token is revoked, its rotation gives nothing and changes nothing, as long as its hash is
-- the same.
pub revoke-rotate :
    (env env' : TokenEnv) (others : TokenDb → TokenDb) (presented : Text) (db : TokenDb)
    → hash env' presented ≡ hash env presented
    → rotate env' others presented (revoke env presented db) ≡ (ok none, revoke env presented db)
unfolding revoke
revoke-rotate env env' others presented db same =
    rotate-dead env' others presented (revoke env presented db) λ t u found.
      let row = find_token-row env' presented (revoke env presented db) t u found in
      update-revoked env.db_now (λ t. text_eq t.token_hash (hash env presented)) db.tokens t
        (λ x. refl) (find_row-In (λ t. text_eq t.token_hash (hash env' presented)) _ t row)
        (rw same at (find_row-passes (λ t. text_eq t.token_hash (hash env' presented)) _ t row))

-- If a presented token has a row that is neither revoked nor expired, its user is active, and the
-- row was used longer ago than the grace, then after a rotation of it that gave nothing, the
-- rotation of any token of the same family gives nothing and changes nothing. What other calls
-- commit meanwhile is arbitrary.
pub rotate-replay :
    (env env' : TokenEnv) (others others' : TokenDb → TokenDb) (presented : Text) (other : Text)
    (db db' : TokenDb) (t t' : Token) (u u' : User) (used : ℕ)
    → find_token env presented db ≡ some (t, u)
    → is_dead env t u ≡ false
    → t.used_at ≡ some used
    → reuse_grace_secs env < (env.now - used) / 1000000
    → rotate env others presented db ≡ (ok none, db')
    → find_token env' other db' ≡ some (t', u')
    → t'.family ≡ t.family
    → rotate env' others' other db' ≡ (ok none, db')
unfolding rotate replay revoke_family
rotate-replay env env' others others' presented other db db' t t' u u' used found alive was_used
      late h found' kin =
    let over : leb ((env.now - used) / 1000000) (reuse_grace_secs env) ≡ false = ground arith in
    let ends : rotate env others presented db ≡ (ok none, revoke_family env t.family (others db)) =
      rw (found, alive, was_used, over, rotate, replay) refl in
    let after : revoke_family env t.family (others db) ≡ db' = ap (λ r. r.1) (sym ends ∙ h) in
    let row = find_token-row env' other db' t' u' found' in
    let revoked : is_some t'.revoked_at ≡ true =
      update-revoked env.db_now (λ x. x.family == t.family) (others db).tokens t' (λ x. refl)
        (subst (λ d. In t' d.tokens) (sym after)
          (find_row-In (λ t. text_eq t.token_hash (hash env' other)) db'.tokens t' row))
        (ground arith) in
    rw (found', revoked, rotate) refl

-- A claim changes no hash.
any-claim :
    (db_now id : ℕ) (wanted : Text) (ts : List Token)
    → any (λ t. text_eq t.token_hash wanted) ts ≡ false
    → any
        (λ t. text_eq t.token_hash wanted)
        (update (unclaimed id) (λ t. record t { used_at = some db_now }) ts)
      ≡ false
unfolding any update
any-claim db_now id wanted [] h = refl
any-claim db_now id wanted (x ∷ ts) h = elim (Bool-cases (unclaimed id x)) [
  | inl free ↦ rw free (ground (arith, any-claim db_now id wanted ts))
  | inr kept ↦ rw kept (ground (arith, any-claim db_now id wanted ts))
]

find_row-append_some :
    (p : Token → Bool) (xs ys : List Token) (t : Token)
    → find_row p xs ≡ some t
    → find_row p (xs ++ ys) ≡ some t
unfolding find_row
find_row-append_some p [] ys t h = cc
find_row-append_some p (x ∷ xs) ys t h = ground (arith, find_row-append_some p xs ys t)

-- If a presented token has a row that is not revoked, expired or used, its user is active, and no
-- row has the hash of the new secret, then its rotation, when no other call intervenes, gives the
-- user and the new secret; the presented token is used from then on, and the new one has a row of
-- the same user and family that is neither used nor revoked.
pub rotate-successor :
    (env : TokenEnv) (presented : Text) (db : TokenDb) (t : Token) (u : User)
    → find_token env presented db ≡ some (t, u)
    → is_dead env t u ≡ false
    → t.used_at ≡ none
    → any (λ t. text_eq t.token_hash (hash env env.secret)) db.tokens ≡ false
    → (db' : TokenDb) × (rotate env (λ d. d) presented db
        ≡ (ok (some (t.user_id, env.secret)), db'))
      × (find_row (λ t. text_eq t.token_hash (hash env presented)) db'.tokens
          ≡ some (record t { used_at = some env.db_now }))
      × (find_row (λ t. text_eq t.token_hash (hash env env.secret)) db'.tokens
          ≡ some (fresh_token env t.user_id t.family))
unfolding rotate issue claim
rotate-successor env presented db t u found alive unused new =
    let claimed = (claim env t db).tokens in
    let next = fresh_token env t.user_id t.family in
    let still_new = any-claim env.db_now t.id (hash env env.secret) db.tokens new in
    let free : unclaimed t.id t ≡ true = ground (arith, unused) in
    (
      record db { tokens = claimed ++ next ∷ [] },
      rw (found, alive, unused, still_new, rotate, issue) refl,
      find_row-append_some (λ t. text_eq t.token_hash (hash env presented)) claimed (next ∷ []) _
          (find_row-update (λ t. text_eq t.token_hash (hash env presented)) (unclaimed t.id) _
            db.tokens t (λ y. refl) (find_token-row env presented db t u found) free),
      find_row-append (λ t. text_eq t.token_hash (hash env env.secret)) claimed (next ∷ [])
            (find_row_of_tally (λ t. text_eq t.token_hash (hash env env.secret)) claimed
              (tally-any (λ t. text_eq t.token_hash (hash env env.secret)) claimed still_new))
          ∙ (unfold find_row in ground (arith, text_eq_refl (hash env env.secret))),
    )
