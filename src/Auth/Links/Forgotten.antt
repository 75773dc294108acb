-- ===== src/Auth/Links/Forgotten.antt =====
-- The way back into an account: `requestPasswordReset`, `resetPassword` and `login` of
-- backend/src/auth/auth.service.ts.
use ordely.Common.{
  ℕ, ◌+◌, ◌≤◌, ◌<◌, ◌≡◌, refl, sym, ◌∙◌, String, true, false, some, List, arith, Option-cases, inl,
  inr, final, result, ok, find, update, count, ==_self, find-update, find-count, find-key,
  find-holds, eq_iff,
}
use ordely.Auth.{
  User, AuthDb, Libraries, Mail, Link, has_id, has_email, has_reset_hash, issue_token, find_user,
  reset_link_ttl_ms, reset_resend_cooldown_ms, is_live, send_mail, cools_down,
}
use ordely.Auth.Sessions.{login}
use ordely.Auth.Links.{
  request_password_reset, send_reset, reset_password, redeem, with_reset_token, with_password,
  resets, may_reset, hash_taken,
}
use ordely.Auth.Links.SingleUse.{redeem-users}
use ordely.Auth.Valid.{IsValid, reset_token-IsValid, Clears-IsValid}
use ordely.Auth.Sessions.Keys.{send_mail-users}

-- A request whose link is live redeems the row of that link.
module _ (lib : Libraries) (salt : String) (now signed_at : ℕ) (token password : String)
    (db : AuthDb) {read : User}
    (found : find (has_reset_hash (lib.sha256 token)) db.users ≡ some read)
    (live : is_live now read.password_reset_expires_at ≡ true) where
  abbrev hash : String
  hash = lib.sha256 token

  abbrev users : List User
  users =
      update (resets read.id hash) (with_password (lib.bcrypt_hash salt password) now read) db.users

  live-answer :
      {row : User}
      → count (resets read.id hash) db.users ≡ 1
      → find (has_id read.id) users ≡ some row
      → result (reset_password lib salt now signed_at token password) db
        ≡ ok (issue_token lib signed_at row)
  unfolding reset_password redeem find_user
  live-answer one by_id = rw (found, live, one, by_id, result) refl

  live-users : (final (reset_password lib salt now signed_at token password) db).users ≡ users
  unfolding reset_password
  live-users = rw (found, live, final) (redeem-users lib salt hash password now signed_at read db)

login_found :
    (lib : Libraries) (now : ℕ) (email password : String) (db : AuthDb) {u : User}
    → find (has_email email) db.users ≡ some u
    → lib.bcrypt_compare password u.password_hash ≡ true
    → result (login lib now email password) db ≡ ok (issue_token lib now u)
unfolding login
login_found lib now email password db found compares = rw (found, compares, result) refl

request_nothing :
    (lib : Libraries) (token : String) (now : ℕ) (email : String) (db : AuthDb) {u : User}
    → find (has_email email) db.users ≡ some u
    → cools_down now reset_resend_cooldown_ms u.password_reset_sent_at ≡ true
    → request_password_reset lib token now email db ≡ (ok tt, db)
unfolding request_password_reset
request_nothing lib token now email db found soon = rw (found, soon) refl

request_answer :
    (lib : Libraries) (token : String) (now : ℕ) (email : String) (db : AuthDb)
    → ((mail : Mail) → lib.delivers mail ≡ true)
    → ((id : ℕ) → hash_taken has_reset_hash id (lib.sha256 token) db ≡ false)
    → result (request_password_reset lib token now email) db ≡ ok tt
unfolding request_password_reset send_reset send_mail
request_answer lib token now email db delivers free =
    elim (Option-cases (may_reset now (find (has_email email) db.users))) [
      | inl no_link ↦ rw (no_link, result) refl
      | inr (u, may) ↦
          rw
            (
              may,
              free u.id,
              result,
              delivers (record { to = u.email; name = u.name; link = Link.reset_link token }),
            )
            refl
    ]

-- As long as mails are sent and the token is new, a request is answered alike for any two
-- addresses, with an account or without.
pub request_password_reset-alike :
    (lib : Libraries) (token token' : String) (now : ℕ) (email other : String) (db : AuthDb)
    → ((mail : Mail) → lib.delivers mail ≡ true)
    → ((id : ℕ) → hash_taken has_reset_hash id (lib.sha256 token) db ≡ false)
    → ((id : ℕ) → hash_taken has_reset_hash id (lib.sha256 token') db ≡ false)
    → result (request_password_reset lib token now email) db
      ≡ result (request_password_reset lib token' now other) db
request_password_reset-alike lib token token' now email other db delivers free free' =
    request_answer lib token now email db delivers free
    ∙ sym (request_answer lib token' now other db delivers free')

module _ (lib : Libraries) (token : String) (now : ℕ) (email : String) (db : AuthDb) where
  abbrev requested : AuthDb
  requested = final (request_password_reset lib token now email) db

  request-users :
      {u : User}
      → may_reset now (find (has_email email) db.users) ≡ some u
      → hash_taken has_reset_hash u.id (lib.sha256 token) db ≡ false
      → requested.users ≡ update (has_id u.id) (with_reset_token (lib.sha256 token) now) db.users
  unfolding request_password_reset send_reset
  request-users {u} may free = rw (may, free, final) (send_mail-users lib _ _)

  module _ {u : User} (valid : IsValid db.users db.next_user_id)
      (may : may_reset now (find (has_email email) db.users) ≡ some u)
      (free : hash_taken has_reset_hash u.id (lib.sha256 token) db ≡ false) where
    abbrev asked : User
    asked = with_reset_token (lib.sha256 token) now u

    found_by_email : (find (has_email email) db.users ≡ some u)
    found_by_email = elim (Option-cases (find (has_email email) db.users)) [
      | inl missing ↦ absurd (ground arith)
      | inr (v, found) ↦ ground arith
    ]

    requested-IsValid : IsValid requested.users db.next_user_id
    requested-IsValid =
        rw (request-users may free)
          (reset_token-IsValid (lib.sha256 token) now u.id db.users db.next_user_id valid free)

    asked_by_id : find (has_id u.id) requested.users ≡ some asked
    asked_by_id =
        rw
          (
            request-users may free,
            find-update (has_id u.id) (has_id u.id) (with_reset_token (lib.sha256 token) now)
                db.users (λ v. refl),
            find-key (has_email email) (has_id u.id) db.users {r = u} found_by_email (==_self u.id)
                (valid.ids u.id),
            ==_self u.id,
          )
          refl

    asked_by_hash : find (has_reset_hash (lib.sha256 token)) requested.users ≡ some asked
    asked_by_hash =
        find-key (has_id u.id) (has_reset_hash (lib.sha256 token)) requested.users {r = asked}
          asked_by_id ((eq_iff (lib.sha256 token) (lib.sha256 token)).1 refl)
          (requested-IsValid.reset_hashes (lib.sha256 token))

    -- In a valid table: after a request that found the account of the address, outside the minute
    -- after an earlier link and with a hash that no other account has, a second request for that address
    -- within a minute of it succeeds, sends nothing and changes nothing, whether or not the mail of
    -- the first one was sent.
    pub request-again :
        (token' : String) (later : ℕ)
        → later < now + reset_resend_cooldown_ms
        → request_password_reset lib token' later email requested ≡ (ok tt, requested)
    request-again token' later soon =
        request_nothing lib token' later email requested {u = asked}
          (find-key (has_id u.id) (has_email email) requested.users {r = asked} asked_by_id
            (find-holds (has_email email) db.users {r = u} found_by_email)
            (requested-IsValid.emails email))
          (ground arith)

    module _ (salt password : String) (later signed_at : ℕ) where
      abbrev chosen : User
      chosen = with_password (lib.bcrypt_hash salt password) later asked asked

      abbrev reset : AuthDb
      reset = final (reset_password lib salt later signed_at token password) requested

      one_row : count (resets u.id (lib.sha256 token)) requested.users ≡ 1
      one_row =
          rw
            (
              find-count (has_id u.id) (has_reset_hash (lib.sha256 token)) requested.users
                  {r = asked} asked_by_id (requested-IsValid.ids u.id),
              (eq_iff (lib.sha256 token) (lib.sha256 token)).1 refl,
            )
            refl

      chosen_by_id :
          find (has_id u.id) (
            update
              (resets u.id (lib.sha256 token))
              (with_password (lib.bcrypt_hash salt password) later asked)
              requested.users)
          ≡ some chosen
      chosen_by_id =
          rw
            (
              find-update (has_id u.id) (resets u.id (lib.sha256 token))
                  (with_password (lib.bcrypt_hash salt password) later asked) requested.users
                  (λ v. refl),
              asked_by_id,
              ==_self u.id,
              (eq_iff (lib.sha256 token) (lib.sha256 token)).1 refl,
            )
            refl

      reset_password-chosen :
          later ≤ now + reset_link_ttl_ms
          → (result (reset_password lib salt later signed_at token password) requested
              ≡ ok (issue_token lib signed_at chosen))
            × (reset.users
                ≡ update
                    (resets u.id (lib.sha256 token))
                    (with_password (lib.bcrypt_hash salt password) later asked)
                    requested.users)
      reset_password-chosen soon =
          let live : is_live later (some (now + reset_link_ttl_ms)) ≡ true = ground arith in
          (
            live-answer lib salt later signed_at token password requested asked_by_hash live one_row
                chosen_by_id,
            live-users lib salt later signed_at token password requested asked_by_hash live,
          )

      -- Who asks for a link and opens it within an hour gets a session under the new password, and
      -- can log in with it from then on: where the last link is more than a minute old and no
      -- other account has a link with this token.
      pub request-reset-login :
          (at : ℕ)
          → later ≤ now + reset_link_ttl_ms
          → lib.bcrypt_compare password (lib.bcrypt_hash salt password) ≡ true
          → (result (reset_password lib salt later signed_at token password) requested
              ≡ ok (issue_token lib signed_at chosen))
            × (result (login lib at email password) reset ≡ ok (issue_token lib at chosen))
      request-reset-login at soon compares =
          let (answer, users) = reset_password-chosen soon in
          let kept : IsValid reset.users db.next_user_id = rw users (
            Clears-IsValid (resets u.id (lib.sha256 token)) _ requested.users db.next_user_id
              (record {
                id = λ u. refl;
                email = λ u. refl;
                verify_hash = λ h u e. cc;
                reset_hash = λ h u e. cc;
              })
              requested-IsValid) in
          let by_email : find (has_email email) reset.users ≡ some chosen =
            find-key (has_id u.id) (has_email email) reset.users {r = chosen}
              (rw users chosen_by_id) (find-holds (has_email email) db.users {r = u} found_by_email)
              (kept.emails email) in
          (answer, login_found lib at email password reset by_email compares)
