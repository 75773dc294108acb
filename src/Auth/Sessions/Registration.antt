-- ===== src/Auth/Sessions/Registration.antt =====
-- From the registration to the first session: `register`, `login` and `verifyEmail` of
-- backend/src/auth/auth.service.ts, and the guard.
use ordely.Common.{
  none_below, ℕ, ◌+◌, ◌/◌, ◌≤◌, ◌≡◌, refl, ◌≢◌, String, true, false, Option, some, [], ◌∷◌, ◌++◌,
  arith, Bool-cases, inl, inr, final, result, Result, ok, err, forbidden, if◌then◌else◌, find,
  update, ◌==◌, All, ==_self, find-append, find-update, count_of_any, eq_iff,
}
use ordely.Common.Text.{codes}
use ordely.Auth.{
  User, AuthDb, AuthResult, Libraries, has_id, has_email, has_verify_hash, issue_token,
  verify_link_ttl_ms, is_live,
}
use ordely.Auth.Sessions.{RegisterDto, register, create_account, login, new_user, row_taken}
use ordely.Auth.Links.{verify_email, verified}
use ordely.Auth.Valid.{IsValid}
use ordely.Auth.Sessions.Keys.{send_mail-users}
use ordely.Auth.Guard.{Route, AuthUser, can_activate}
use ordely.Auth.Guard.AfterReset.{bearer-token}

module _ (lib : Libraries) (salt token : String) (now : ℕ) (dto : RegisterDto) (db : AuthDb) where
  abbrev account : User
  account =
      new_user db.next_user_id db.next_boutique_id now (lib.bcrypt_hash salt dto.password)
        (lib.sha256 token) dto

  abbrev registered : AuthDb
  registered = final (register lib salt token now dto) db

  -- What a registration that succeeds has written, whether or not its mail was sent.
  record IsRegistered (r : AuthResult) : Type 0 where
    pub free : row_taken dto.email (lib.sha256 token) db ≡ false
    pub answer : r ≡ issue_token lib now account
    pub users : registered.users ≡ db.users ++ account ∷ []

  register-IsRegistered :
      {r : AuthResult} → result (register lib salt token now dto) db ≡ ok r → IsRegistered r
  unfolding register create_account
  register-IsRegistered {r} h = elim (Bool-cases (row_taken dto.email (lib.sha256 token) db)) [
    | inl taken ↦ absurd (ground arith)
    | inr free ↦ record {
      free = free;
      answer = ground arith;
      users = rw (free, final) (send_mail-users lib _ _);
    }
  ]

  -- Who registered can log in with that address and password, at any time until the account is
  -- written again, and gets the same user: also when the mail with the link could not be sent.
  pub register-login :
      (later : ℕ) {r : AuthResult}
      → lib.bcrypt_compare dto.password (lib.bcrypt_hash salt dto.password) ≡ true
      → result (register lib salt token now dto) db ≡ ok r
      → result (login lib later dto.email dto.password) registered
        ≡ ok (issue_token lib later account)
  unfolding login register
  register-login later {r} compares h =
      let done = register-IsRegistered h in
      let found : find (has_email dto.email) registered.users ≡ some account = rw done.users (
        find-append (has_email dto.email) db.users account
          (count_of_any (has_email dto.email) db.users (ground (arith, done.free)))
          ((eq_iff dto.email dto.email).1 refl)) in
      rw (found, compares) refl

  account-found :
      IsValid db.users db.next_user_id
      → registered.users ≡ db.users ++ account ∷ []
      → find (has_id account.id) registered.users ≡ some account
  account-found valid users = rw users (
      find-append (has_id db.next_user_id) db.users account
        (none_below (λ u. u.id) db.users db.next_user_id valid.below db.next_user_id (omega arith))
        (==_self db.next_user_id))

  -- The session of a new account, as its token says and as the guard hands it on.
  abbrev opened : Result (Option AuthUser)
  opened = ok (
      some (record {
        payload = record { sub = account.id; email = dto.email; iat = some (now / 1000) };
        boutique_id = db.next_boutique_id;
        is_platform_admin = false;
      }))

  -- The session that a registration opens: until the address is verified, it is accepted only on
  -- the routes that an unverified account may open, as long as its token verifies.
  pub register-guard :
      {r : AuthResult} (at : ℕ) (route : Route)
      → IsValid db.users db.next_user_id
      → result (register lib salt token now dto) db ≡ ok r
      → r.access_token ≢ []
      → All (λ c. (c == 32) ≡ false) r.access_token
      → lib.jwt_verify at r.access_token
        ≡ some (record { sub = r.user.id; email = r.user.email; iat = some (now / 1000) })
      → route.is_public ≡ false
      → can_activate lib at route (some (codes "Bearer " ++ r.access_token)) registered
        ≡ (if route.allow_unverified then opened else err forbidden)
  unfolding can_activate register
  register-guard {r} at route valid h nonempty spaceless signed closed =
      let done = register-IsRegistered h in
      let known = account-found valid done.users in
      elim (Bool-cases route.allow_unverified) [
        | inl e ↦
            rw
              (
                closed,
                bearer-token r.access_token nonempty spaceless,
                signed,
                done.answer,
                known,
                e,
              )
              refl
        | inr e ↦
            rw
              (
                closed,
                bearer-token r.access_token nonempty spaceless,
                signed,
                done.answer,
                known,
                e,
              )
              refl
      ]

  -- In a valid table: the link of a registration that succeeds verifies the address within a day,
  -- and on what that leaves, the session that the registration opened is accepted on every route
  -- that is not public, with no new login, at every instant `at` at which its token still verifies
  -- as it was signed, that is, has not expired. The token is not empty and has no space.
  pub register-verify_email :
      (later at : ℕ) {r : AuthResult} (route : Route)
      → IsValid db.users db.next_user_id
      → result (register lib salt token now dto) db ≡ ok r
      → later ≤ now + verify_link_ttl_ms
      → r.access_token ≢ []
      → All (λ c. (c == 32) ≡ false) r.access_token
      → lib.jwt_verify at r.access_token
        ≡ some (record { sub = r.user.id; email = r.user.email; iat = some (now / 1000) })
      → route.is_public ≡ false
      → (result (verify_email lib later token) registered ≡ ok dto.email)
        × (can_activate lib at route
              (some (codes "Bearer " ++ r.access_token))
              (final (verify_email lib later token) registered)
            ≡ opened)
  unfolding can_activate register verify_email
  register-verify_email later at {r} route valid h soon nonempty spaceless signed closed =
      let done = register-IsRegistered h in
      let by_link : find (has_verify_hash (lib.sha256 token)) registered.users ≡ some account =
        rw done.users (
          find-append (has_verify_hash (lib.sha256 token)) db.users account
            (count_of_any (has_verify_hash (lib.sha256 token)) db.users (ground (arith, done.free)))
            ((eq_iff (lib.sha256 token) (lib.sha256 token)).1 refl)) in
      let live : is_live later (some (now + verify_link_ttl_ms)) ≡ true = ground arith in
      let known : find (has_id account.id)
            (update (has_id account.id) (verified later) registered.users)
          ≡ some (verified later account) =
        rw
          (
            find-update (has_id account.id) (has_id account.id) (verified later) registered.users
                (λ u. refl),
            account-found valid done.users,
            ==_self account.id,
          )
          refl in
      (
        rw (by_link, live) refl,
        rw
            (
              closed,
              bearer-token r.access_token nonempty spaceless,
              signed,
              done.answer,
              by_link,
              live,
              known,
            )
            refl,
      )
