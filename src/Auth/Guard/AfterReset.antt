-- ===== src/Auth/Guard/AfterReset.antt =====
-- Sessions before and after a password reset: backend/src/auth/auth.guard.ts on the tables that
-- `resetPassword` of backend/src/auth/auth.service.ts leaves.
use ordely.Common.{
  ℕ, ◌/◌, ◌≤◌, ◌<◌, ◌≡◌, refl, ◌∙◌, String, true, false, Option, some, [], ◌∷◌, ◌++◌, arith,
  Bool-cases, Option-cases, inl, inr, final, result, ok, err, unauthorized, find, update, count,
  ◌==◌, ◌orelse◌, find-holds, find-update, find-count, ==_iff, All, is_set, ◌≢◌, ap,
}
use ordely.Common.Text.{Text, codes}
use ordely.Auth.{
  User, AuthDb, AuthResult, Libraries, JwtPayload, has_id, has_reset_hash, find_user, issue_token,
}
use ordely.Auth.Links.{reset_password, redeem, with_password, resets, whole_seconds}
use ordely.Auth.Links.SingleUse.{redeem-users, reset_password-IsReset}
use ordely.Auth.Valid.{IsValid}
use ordely.Auth.Guard.{
  Route, AuthUser, can_activate, bearer, first_piece, after_space, session_ended,
}

module _ (lib : Libraries) (salt hash password : String) (now signed_at : ℕ) (read : User)
    (db : AuthDb) where
  -- The row that a redeemed link leaves.
  pub record IsRedeemed (r : AuthResult) : Type 0 where
    pub row : User
    pub found :
        find (has_id read.id) (final (redeem lib salt hash password now signed_at read) db).users
        ≡ some row
    pub answer : r ≡ issue_token lib signed_at row
    pub id : row.id ≡ read.id
    pub chosen : row.password_hash ≡ lib.bcrypt_hash salt password
    pub changed : row.password_changed_at ≡ some (whole_seconds now)
    pub verified : is_set row.email_verified_at ≡ true

  pub redeem-IsRedeemed :
      {r : AuthResult}
      → IsValid db.users db.next_user_id
      → result (redeem lib salt hash password now signed_at read) db ≡ ok r
      → IsRedeemed r
  unfolding redeem find_user
  redeem-IsRedeemed {r} valid h =
      let p = resets read.id hash in
      let f = with_password (lib.bcrypt_hash salt password) now read in
      let found : find (has_id read.id) (update p f db.users) ≡ _ =
        find-update (has_id read.id) p f db.users (λ u. refl) in
      elim (Bool-cases (count p db.users == 0)) [
        | inl zero ↦ absurd (ground arith)
        | inr some_row ↦ elim (Option-cases (find (has_id read.id) db.users)) [
          | inl gone ↦ absurd (ground arith)
          | inr (v, known) ↦
              let here : has_reset_hash hash v ≡ true = ground (
                arith,
                find-count (has_id read.id) (has_reset_hash hash) db.users {r = v} known
                    (valid.ids read.id),
              ) in
              let same : (v.id == read.id) ≡ true = find-holds (has_id read.id) db.users known in
              let written : find (has_id read.id) (update p f db.users) ≡ some (f v) =
                rw (found, known, here, same) refl in
              record {
                row = f v;
                found = rw (redeem-users lib salt hash password now signed_at read db) written;
                answer = ground arith;
                id = (==_iff v.id read.id).0 same;
                chosen = refl;
                changed = refl;
                verified = refl;
              }
        ]
      ]

-- A header that is `Bearer ` and a token: its pieces are the two.
piece_of_token : (token : Text) → All (λ c. (c == 32) ≡ false) token → first_piece token ≡ token
unfolding first_piece
piece_of_token [] a = refl
piece_of_token (c ∷ cs) (space, a) = rw (space, piece_of_token cs a) refl

pub bearer-token :
    (token : Text)
    → token ≢ []
    → All (λ c. (c == 32) ≡ false) token
    → bearer (some (codes "Bearer " ++ token)) ≡ some token
unfolding bearer first_piece after_space
bearer-token [] nonempty a = absurd (nonempty refl)
bearer-token (c ∷ cs) nonempty a = rw (piece_of_token (c ∷ cs) a) refl

module _ (lib : Libraries) (salt : String) (now signed_at : ℕ) (token password : String)
    (db : AuthDb) where
  -- What the token of the session that is opened says, and the user that it stands for.
  abbrev session_of : AuthResult → JwtPayload
  session_of r = record { sub = r.user.id; email = r.user.email; iat = some (signed_at / 1000) }

  abbrev user_of : AuthResult → AuthUser
  user_of r = record {
    payload = session_of r;
    boutique_id = r.user.boutique_id;
    is_platform_admin = r.user.is_platform_admin;
  }

  abbrev after_reset : AuthDb
  after_reset = final (reset_password lib salt now signed_at token password) db

  reset_row :
      {r : AuthResult}
      → IsValid db.users db.next_user_id
      → result (reset_password lib salt now signed_at token password) db ≡ ok r
      → (row : User) × (find (has_id r.user.id) after_reset.users ≡ some row)
        × (r ≡ issue_token lib signed_at row)
        × (row.password_hash ≡ lib.bcrypt_hash salt password)
        × (row.password_changed_at ≡ some (whole_seconds now))
        × (is_set row.email_verified_at ≡ true)
  reset_row {r} valid h =
      let reset = reset_password-IsReset lib salt now signed_at token password db h in
      let done =
        redeem-IsRedeemed lib salt (lib.sha256 token) password now signed_at reset.read db valid
          reset.redeemed in
      let same : r.user.id ≡ reset.read.id = ap (λ a. a.user.id) done.answer ∙ done.id in
      (
        done.row,
        rw (same, reset.after) done.found,
        done.answer,
        done.chosen,
        done.changed,
        done.verified,
      )

  -- After a password reset, a session of that user whose token was signed in an earlier second is
  -- refused on every route that is not public, at any instant.
  pub reset_password-ends :
      {r : AuthResult} (at : ℕ) (route : Route) (authorization : Option Text) (session : Text)
      (payload : JwtPayload)
      → IsValid db.users db.next_user_id
      → result (reset_password lib salt now signed_at token password) db ≡ ok r
      → route.is_public ≡ false
      → bearer authorization ≡ some session
      → lib.jwt_verify at session ≡ some payload
      → payload.sub ≡ r.user.id
      → (payload.iat orelse 0) < now / 1000
      → can_activate lib at route authorization after_reset ≡ err unauthorized
  unfolding can_activate
  reset_password-ends {r} at route authorization session payload valid h closed carried signed own
        old =
      let (row, found, answer, chosen, changed, verified) = reset_row valid h in
      let ended : session_ended payload row.password_changed_at ≡ true = ground (arith, changed) in
      rw (closed, carried, signed, own, found, ended) refl

  -- The session that a password reset opens is accepted on every route, also for an account whose
  -- address was not verified, where the session is signed no earlier than the reset, and its token
  -- is not empty, has no space and verifies at the instant of the request as it was signed.
  pub reset_password-opens :
      {r : AuthResult} (at : ℕ) (route : Route)
      → IsValid db.users db.next_user_id
      → result (reset_password lib salt now signed_at token password) db ≡ ok r
      → r.access_token ≢ []
      → All (λ c. (c == 32) ≡ false) r.access_token
      → lib.jwt_verify at r.access_token ≡ some (session_of r)
      → now ≤ signed_at
      → route.is_public ≡ false
      → can_activate lib at route (some (codes "Bearer " ++ r.access_token)) after_reset
        ≡ ok (some (user_of r))
  unfolding can_activate
  reset_password-opens {r} at route valid h nonempty spaceless signed later closed =
      let (row, found, answer, chosen, changed, verified) = reset_row valid h in
      let live : session_ended (session_of r) row.password_changed_at ≡ false =
        ground (arith, changed) in
      rw
        (
          closed,
          bearer-token r.access_token nonempty spaceless,
          signed,
          found,
          live,
          verified,
          answer,
        )
        refl
