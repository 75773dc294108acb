-- ===== src/Auth/Links.antt =====
-- backend/src/auth/auth.service.ts: the links that verify an address and that reset a password. An
-- instant stands for the clock as a request reads it, but for the signature of a session, which has
-- its own.
pub mod Keys
pub mod SingleUse
pub mod Forgotten
use ordely.Common.{
  ℕ, ◌+◌, ◌*◌, ◌/◌, String, Bool, true, false, not, ◌&&◌, ◌||◌, Option, none, some, List, [], ◌∷◌,
  ◌++◌, ◌orelse◌, ◌==◌, any, is_set, if◌then◌else◌, Exec, refuse, gets, modify, pure, demand,
  require, ◌>>=◌, ◌>>◌, conflict, bad_request, internal, too_many_requests, find, update, count,
}
use ordely.Auth.{
  User, AuthDb, AuthResult, Libraries, Link, has_id, has_email, has_verify_hash, has_reset_hash,
  with_verify_token, issue_token, find_user, send_mail, is_live, cools_down,
  verify_resend_cooldown_ms, reset_link_ttl_ms, reset_resend_cooldown_ms,
}

-- A row that a request read, if it is there and its link is live.
abbrev pub live_link : ℕ → (User → Option ℕ) → Option User → Option User
live_link now expiry none = none
live_link now expiry (some u) = if is_live now (expiry u) then some u else none

abbrev pub verified : ℕ → User → User
verified now u = record u {
  email_verified_at = some now;
  email_verify_token_hash = none;
  email_verify_expires_at = none;
}

unfoldable pub verify_email : Libraries → ℕ → String → Exec AuthDb String
unfolding find update
verify_email lib now token = do
  user ← demand bad_request (λ db.
      live_link now (λ u. u.email_verify_expires_at)
        (find (has_verify_hash (lib.sha256 token)) db.users))
  modify (λ db. record db { users = update (has_id user.id) (verified now) db.users })
  pure user.email

-- The hash is another account's: the unique column refuses the write.
abbrev pub hash_taken : (String → User → Bool) → ℕ → String → AuthDb → Bool
hash_taken has_hash user_id hash db = any (λ u. has_hash hash u && not (u.id == user_id)) db.users

unfoldable pub resend_verification : Libraries → String → ℕ → ℕ → Exec AuthDb (Unit {0})
unfolding find_user send_mail update
resend_verification lib token now user_id = do
  user ← find_user user_id
  refuse (is_set user.email_verified_at) conflict
  refuse (cools_down now verify_resend_cooldown_ms user.email_verify_sent_at) too_many_requests
  taken ← gets (hash_taken has_verify_hash user_id (lib.sha256 token))
  refuse taken internal
  modify (λ db. record db {
    users = update (has_id user_id) (with_verify_token (lib.sha256 token) now) db.users;
  })
  send_mail lib (record { to = user.email; name = user.name; link = Link.verify_link token })

abbrev pub with_reset_token : String → ℕ → User → User
with_reset_token hash now u = record u {
  password_reset_token_hash = some hash;
  password_reset_expires_at = some (now + reset_link_ttl_ms);
  password_reset_sent_at = some now;
}

unfoldable pub send_reset : Libraries → String → ℕ → User → Exec AuthDb (Unit {0})
unfolding send_mail update
send_reset lib token now user = do
  taken ← gets (hash_taken has_reset_hash user.id (lib.sha256 token))
  refuse taken internal
  modify (λ db. record db {
    users = update (has_id user.id) (with_reset_token (lib.sha256 token) now) db.users;
  })
  send_mail lib (record { to = user.email; name = user.name; link = Link.reset_link token })

-- `!user || Date.now() - last < RESET_RESEND_COOLDOWN_MS`
abbrev pub may_reset : ℕ → Option User → Option User
may_reset now none = none
may_reset now (some u) =
    if cools_down now reset_resend_cooldown_ms u.password_reset_sent_at then none else some u

abbrev pub reset_mail : Libraries → String → ℕ → Option User → Exec AuthDb (Unit {0})
reset_mail lib token now none = pure tt
reset_mail lib token now (some user) = send_reset lib token now user

unfoldable pub request_password_reset : Libraries → String → ℕ → String → Exec AuthDb (Unit {0})
unfolding find send_reset
request_password_reset lib token now email = do
  found ← gets (λ db. may_reset now (find (has_email email) db.users))
  reset_mail lib token now found

-- `where: { id: user.id, passwordResetTokenHash: tokenHash }`
abbrev pub resets : ℕ → String → User → Bool
resets id hash u = u.id == id && has_reset_hash hash u

-- Whole seconds, like a token's `iat`.
abbrev pub whole_seconds : ℕ → ℕ
whole_seconds now = now / 1000 * 1000

-- The columns that a reset writes; `read` is the row as the request read it.
abbrev pub with_password : String → ℕ → User → User → User
with_password password_hash now read u = record u {
  password_hash = password_hash;
  password_changed_at = some (whole_seconds now);
  password_reset_token_hash = none;
  password_reset_expires_at = none;
  email_verified_at = some (read.email_verified_at orelse whole_seconds now);
  email_verify_token_hash = none;
  email_verify_expires_at = none;
}

-- What a reset does once its row is read: other requests may write between the two.
unfoldable pub redeem : Libraries → String → String → String → ℕ → ℕ → User → Exec AuthDb AuthResult
unfolding count update find_user
redeem lib salt hash password now signed_at read = do
  n ← gets (λ db. count (resets read.id hash) db.users)
  modify (λ db. record db {
    users =
        update (resets read.id hash) (with_password (lib.bcrypt_hash salt password) now read)
          db.users;
  })
  refuse (n == 0) bad_request
  user ← find_user read.id
  pure (issue_token lib signed_at user)

unfoldable pub reset_password :
    Libraries → String → ℕ → ℕ → String → String → Exec AuthDb AuthResult
unfolding find redeem
reset_password lib salt now signed_at token password = do
  user ← demand bad_request (λ db.
      live_link now (λ u. u.password_reset_expires_at)
        (find (has_reset_hash (lib.sha256 token)) db.users))
  redeem lib salt (lib.sha256 token) password now signed_at user
