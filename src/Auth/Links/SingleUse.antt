-- ===== src/Auth/Links/SingleUse.antt =====
-- The emailed links work once.
use ordely.Common.{
  ℕ, ◌≡◌, refl, String, Bool, true, false, Option, none, some, List, [], ◌∷◌, arith, Bool-cases,
  Option-cases, inl, inr, final, result, ok, err, bad_request, find, update, count, ◌==◌,
  find-holds, find-update-none, ==_self,
}
use ordely.Auth.{
  User, AuthDb, AuthResult, Libraries, has_id, has_verify_hash, has_reset_hash, find_user, is_live,
}
use ordely.Auth.Links.{
  verify_email, reset_password, redeem, live_link, verified, with_password, resets,
}
use ordely.Auth.Valid.{IsValid}

pub live_link-found :
    (now : ℕ) (expiry : User → Option ℕ) (found : Option User) {u : User}
    → live_link now expiry found ≡ some u
    → (found ≡ some u) × (is_live now (expiry u) ≡ true)
live_link-found now expiry none h = cc
live_link-found now expiry (some v) {u} h = ground arith

none_left :
    (p : User → Bool) (f : User → User) (users : List User)
    → ((u : User) → p (f u) ≡ false)
    → count p (update p f users) ≡ 0
unfolding count update
none_left p f [] k = refl
none_left p f (u ∷ users) k = ground (arith, k u, none_left p f users k)

module _ (lib : Libraries) (salt hash password : String) (now signed_at : ℕ) (read : User)
    (db : AuthDb) where
  pub redeem-users :
      (final (redeem lib salt hash password now signed_at read) db).users
      ≡ update
          (resets read.id hash)
          (with_password (lib.bcrypt_hash salt password) now read)
          db.users
  unfolding redeem find_user
  redeem-users =
      let users =
        update (resets read.id hash) (with_password (lib.bcrypt_hash salt password) now read)
          db.users in
      elim (Bool-cases (count (resets read.id hash) db.users == 0)) [
        | inl zero ↦ rw (zero, final) refl
        | inr some_row ↦ elim (Option-cases (find (has_id read.id) users)) [
          | inl gone ↦ rw (some_row, gone, final) refl
          | inr (u, found) ↦ rw (some_row, found, final) refl
        ]
      ]

  redeem_refused :
      count (resets read.id hash) db.users ≡ 0
      → result (redeem lib salt hash password now signed_at read) db ≡ err bad_request
  unfolding redeem
  redeem_refused zero = rw (zero, result) refl

-- Two requests carry one link and have read one row: whatever passwords they bring, and however
-- the first went, the second to write is refused.
pub redeem_twice :
    (lib : Libraries) (salt again hash password other : String) (now later signed_at signed : ℕ)
    (read reread : User) (db : AuthDb)
    → reread.id ≡ read.id
    → result
        (redeem lib again hash other later signed reread)
        (final (redeem lib salt hash password now signed_at read) db)
      ≡ err bad_request
redeem_twice lib salt again hash password other now later signed_at signed read reread db same =
    redeem_refused lib again hash other later signed reread _ (
      rw (same, redeem-users lib salt hash password now signed_at read db)
        (none_left (resets read.id hash) _ db.users (λ u. ground arith)))

reset_password_unknown :
    (lib : Libraries) (salt : String) (now signed_at : ℕ) (token password : String) (db : AuthDb)
    → find (has_reset_hash (lib.sha256 token)) db.users ≡ none
    → result (reset_password lib salt now signed_at token password) db ≡ err bad_request
unfolding reset_password
reset_password_unknown lib salt now signed_at token password db unknown = rw (unknown, result) refl

module _ (lib : Libraries) (salt : String) (now signed_at : ℕ) (token password : String)
    (db : AuthDb) where
  -- A reset that succeeds has redeemed the row that its link found.
  pub record IsReset (r : AuthResult) : Type 0 where
    pub read : User
    pub found : find (has_reset_hash (lib.sha256 token)) db.users ≡ some read
    pub live : is_live now read.password_reset_expires_at ≡ true
    pub redeemed : result (redeem lib salt (lib.sha256 token) password now signed_at read) db ≡ ok r
    pub after :
        final (reset_password lib salt now signed_at token password) db
        ≡ final (redeem lib salt (lib.sha256 token) password now signed_at read) db

  pub reset_password-IsReset :
      {r : AuthResult}
      → result (reset_password lib salt now signed_at token password) db ≡ ok r
      → IsReset r
  unfolding reset_password
  reset_password-IsReset {r} h =
      elim (Option-cases (
        live_link now (λ u. u.password_reset_expires_at)
          (find (has_reset_hash (lib.sha256 token)) db.users))) [
            | inl dead ↦ absurd (ground arith)
            | inr (u, live) ↦
                let (found, alive) =
                  live_link-found now (λ u. u.password_reset_expires_at) _ live in
                record {
                  read = u;
                  found = found;
                  live = alive;
                  redeemed = ground arith;
                  after = rw (live, final) refl;
                }
          ]

  redeemed_row :
      {r : AuthResult} (read : User)
      → result (redeem lib salt (lib.sha256 token) password now signed_at read) db ≡ ok r
      → (count (resets read.id (lib.sha256 token)) db.users == 0) ≡ false
  unfolding redeem
  redeemed_row read h = ground arith

  -- A password reset through a link uses the link up: opened again, at any time and with any
  -- password, it is refused.
  pub reset_password_once :
      (salt' : String) (later signed : ℕ) (other : String) {r : AuthResult}
      → IsValid db.users db.next_user_id
      → result (reset_password lib salt now signed_at token password) db ≡ ok r
      → result
          (reset_password lib salt' later signed token other)
          (final (reset_password lib salt now signed_at token password) db)
        ≡ err bad_request
  reset_password_once salt' later signed other valid h =
      let done = reset_password-IsReset h in
      let u = done.read in
      let p = resets u.id (lib.sha256 token) in
      let gone : find (has_reset_hash (lib.sha256 token))
            (update p (with_password (lib.bcrypt_hash salt password) now u) db.users)
          ≡ none =
        find-update-none (has_reset_hash (lib.sha256 token)) p _ db.users {r = u}
          (valid.reset_hashes _) done.found
          (ground
            (arith, find-holds (has_reset_hash (lib.sha256 token)) db.users {r = u} done.found))
          (λ x s. refl) in
      reset_password_unknown lib salt' later signed token other _
        (rw (done.after, redeem-users lib salt (lib.sha256 token) password now signed_at u db) gone)

-- A link that verified an address is used up.
pub verify_email_once :
    (lib : Libraries) (now later : ℕ) (token : String) (db : AuthDb) {email : String}
    → IsValid db.users db.next_user_id
    → result (verify_email lib now token) db ≡ ok email
    → result (verify_email lib later token) (final (verify_email lib now token) db)
      ≡ err bad_request
unfolding verify_email
verify_email_once lib now later token db {email} valid h =
    let looked = find (has_verify_hash (lib.sha256 token)) db.users in
    elim (Option-cases (live_link now (λ u. u.email_verify_expires_at) looked)) [
      | inl dead ↦ absurd (ground arith)
      | inr (u, live) ↦
          let (found, alive) = live_link-found now (λ u. u.email_verify_expires_at) looked live in
          let gone : find (has_verify_hash (lib.sha256 token))
                (update (has_id u.id) (verified now) db.users)
              ≡ none =
            find-update-none (has_verify_hash (lib.sha256 token)) (has_id u.id) (verified now)
              db.users {r = u} (valid.verify_hashes _) found (==_self u.id) (λ x s. refl) in
          rw (live, final, gone) refl
    ]
