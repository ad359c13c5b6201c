-- ===== src/Security/Tokens.antt =====
-- src/security/persistence/token_repository_pg.rs: the tokens that reset a password, and the
-- access tokens that are revoked. Each query commits on its own, at the instant `now`: the parts of
-- `insert` are `count_pending_for_user`, `make_room` and `insert_row`, so that the parts of another
-- call can come between them, and `insert` itself is a call with nothing in between.
pub mod Tests
pub mod Cap
pub mod Spent
use egras.Prelude.{
  ℕ, Bool, true, false, ◌&&◌, ◌||◌, not, Option, none, some, List, [], ◌∷◌, ◌++◌, map, filter, find,
  any, contains, take, count, sort_by, Result, ok, err, ltb, leb, ◌==◌, ℕ_eq, bytes_eq,
  if◌then◌else◌,
}
use egras.Security.Model.{
  PasswordResetToken, RevokedToken, Db, Query, Failure, failure, count_pending_query,
  delete_oldest_query, insert_token_query, find_valid_token_query, consume_token_query,
  revoke_token_query, is_revoked_query, user_exists,
}

abbrev pub max_pending_tokens_per_user : ℕ
max_pending_tokens_per_user = 3

-- `consumed_at IS NULL AND expires_at > NOW()`
unfoldable pub is_pending : ℕ → PasswordResetToken → Bool
is_pending now t = elim t.used_at [ none ↦ ltb now t.expires_at | some _ ↦ false ]

abbrev pub pending_of : ℕ → ℕ → PasswordResetToken → Bool
pending_of now user t = t.user_id == user && is_pending now t

abbrev pub older : PasswordResetToken → PasswordResetToken → Bool
older s t = leb s.created_at t.created_at

abbrev pub token_id : PasswordResetToken → ℕ
token_id t = t.id

-- `SELECT id … ORDER BY created_at ASC LIMIT 1`
abbrev pub oldest : ℕ → ℕ → List PasswordResetToken → List PasswordResetToken
oldest now user rows = take 1 (sort_by older (filter (pending_of now user) rows))

pub drop_oldest : ℕ → ℕ → List PasswordResetToken → List PasswordResetToken
drop_oldest now user rows =
    filter (λ t. not (contains (map token_id (oldest now user rows)) t.id)) rows

abbrev pub mark_used : ℕ → ℕ → PasswordResetToken → PasswordResetToken
mark_used now id t = if t.id == id then record t { used_at = some now } else t

module _ (fails : Query → Bool) (now : ℕ) where
  pub count_pending_for_user : ℕ → Db → Result Failure ℕ
  count_pending_for_user user db =
      if fails count_pending_query
      then err failure
      else ok (count (pending_of now user) db.reset_tokens)

  -- The keys: the id, the hash (`UNIQUE`), and the user.
  pub insert_row : PasswordResetToken → Db → Result Failure PasswordResetToken × Db
  insert_row t db =
      if fails insert_token_query
        || not (user_exists t.user_id db)
        || any (λ (s : PasswordResetToken). s.id == t.id || s.token_hash == t.token_hash)
            db.reset_tokens
      then (err failure, db)
      else (ok t, record db { reset_tokens = db.reset_tokens ++ t ∷ [] })

  -- With a count of three or more, the oldest pending token gives way.
  abbrev pub make_room : ℕ → ℕ → Db → Result Failure Db
  make_room user_id pending db =
      if leb max_pending_tokens_per_user pending
      then if fails delete_oldest_query
        then err failure
        else ok (record db { reset_tokens = drop_oldest now user_id db.reset_tokens })
      else ok db

  abbrev pub new_token : ℕ → ℕ → List ℕ → ℕ → PasswordResetToken
  new_token id user_id token_hash expires_at = record {
    id = id;
    token_hash = token_hash;
    user_id = user_id;
    expires_at = expires_at;
    used_at = none;
    created_at = now;
  }

  -- The three statements; room stays made when the insert fails afterwards.
  pub insert : ℕ → ℕ → List ℕ → ℕ → Db → Result Failure PasswordResetToken × Db
  unfolding count_pending_for_user insert_row drop_oldest is_pending
  insert id user_id token_hash expires_at db = elim (count_pending_for_user user_id db) [
    | err e ↦ (err e, db)
    | ok pending ↦ elim (make_room user_id pending db) [
      | err e ↦ (err e, db)
      | ok db' ↦ insert_row (new_token id user_id token_hash expires_at) db'
    ]
  ]

  unfoldable pub find_valid : List ℕ → Db → Result Failure (Option PasswordResetToken)
  unfolding is_pending
  find_valid token_hash db =
      if fails find_valid_token_query
      then err failure
      else ok (find (λ t. t.token_hash == token_hash && is_pending now t) db.reset_tokens)

  unfoldable pub consume : ℕ → Db → Result Failure Db
  consume token_id db =
      if fails consume_token_query
      then err failure
      else ok (record db { reset_tokens = map (mark_used now token_id) db.reset_tokens })

  -- `ON CONFLICT DO NOTHING`, on the primary key `jti`; the user is a foreign key.
  unfoldable pub revoke : ℕ → ℕ → ℕ → Db → Result Failure Db
  revoke jti user_id expires_at db =
      if fails revoke_token_query
      then err failure
      else if any (λ (r : RevokedToken). r.jti == jti) db.revoked_tokens
      then ok db
      else if not (user_exists user_id db)
      then err failure
      else ok (record db {
        revoked_tokens =
            db.revoked_tokens
            ++ record { jti = jti; user_id = user_id; expires_at = expires_at } ∷ [];
      })

  pub is_revoked : ℕ → Db → Result Failure Bool
  is_revoked jti db =
      if fails is_revoked_query
      then err failure
      else ok (any (λ (r : RevokedToken). r.jti == jti && ltb now r.expires_at) db.revoked_tokens)
