-- ===== src/Auth/Sessions.antt =====
-- backend/src/auth/auth.service.ts: registering, logging in and changing the password.
pub mod Keys
pub mod Registration
use ordely.Common.{
  ℕ, ◌+◌, String, Bool, true, false, not, ◌||◌, Option, none, some, List, [], ◌∷◌, ◌++◌, ◌orelse◌,
  any, Exec, refuse, gets, modify, pure, demand, transaction, ◌>>=◌, ◌>>◌, conflict, unauthorized,
  bad_request, find, update, require,
}
use ordely.Store.{Boutique}
use ordely.Auth.{
  User, AuthDb, AuthResult, Libraries, Link, has_id, has_email, has_verify_hash, with_verify_token,
  issue_token, find_user, send_mail, best_effort,
}

pub record RegisterDto : Type 0 where
  pub email : String
  pub name : String
  pub password : String
  pub accent_color : Option String
  pub theme_mode : Option String

-- `boutique.create({ data: {} })`: the defaults of the schema.
abbrev pub blank_boutique : ℕ → Boutique
blank_boutique id = record {
  id = id;
  name = none;
  business_phone = none;
  platform = none;
  call_languages = [];
  call_start_time = none;
  call_end_time = none;
  confirmation_process = none;
  sector = none;
  delivery_zones = [];
  daily_order_volume = none;
  acquisition_source = none;
  carrier = none;
  onboarding_completed_at = none;
  plan = none;
  plan_started_at = none;
  churned_at = none;
}

-- The row of a new account, with the columns of its verification link.
abbrev pub new_user : ℕ → ℕ → ℕ → String → String → RegisterDto → User
new_user id boutique_id now password_hash token_hash dto =
    with_verify_token token_hash now (record {
      id = id;
      email = dto.email;
      name = dto.name;
      password_hash = password_hash;
      boutique_id = boutique_id;
      avatar_key = none;
      accent_color = dto.accent_color;
      theme_mode = dto.theme_mode orelse "system";
      email_verified_at = none;
      email_verify_token_hash = none;
      email_verify_expires_at = none;
      email_verify_sent_at = none;
      password_reset_token_hash = none;
      password_reset_expires_at = none;
      password_reset_sent_at = none;
      password_changed_at = none;
      is_platform_admin = false;
      created_at = now;
    })

-- The unique columns of a new row: P2002.
abbrev pub row_taken : String → String → AuthDb → Bool
row_taken email token_hash db =
    any (has_email email) db.users || any (has_verify_hash token_hash) db.users

-- The transaction of `register`: the boutique, then the user.
unfoldable pub create_account : ℕ → String → String → RegisterDto → Exec AuthDb User
create_account now password_hash token_hash dto = do
  boutique_id ← gets (λ db. db.next_boutique_id)
  modify (λ db. record db {
    boutiques = db.boutiques ++ blank_boutique boutique_id ∷ [];
    next_boutique_id = boutique_id + 1;
  })
  taken ← gets (row_taken dto.email token_hash)
  refuse taken conflict
  user ← gets (λ db. new_user db.next_user_id boutique_id now password_hash token_hash dto)
  modify (λ db. record db { users = db.users ++ user ∷ []; next_user_id = db.next_user_id + 1 })
  pure user

-- A mail that fails does not lose the account. `token` and `salt` are the random values drawn.
unfoldable pub register : Libraries → String → String → ℕ → RegisterDto → Exec AuthDb AuthResult
unfolding create_account send_mail
register lib salt token now dto = do
  user ← transaction (create_account now (lib.bcrypt_hash salt dto.password) (lib.sha256 token) dto)
  best_effort
      (send_mail lib (record { to = user.email; name = user.name; link = Link.verify_link token }))
  pure (issue_token lib now user)

abbrev pub stored_hash : Libraries → Option User → String
stored_hash lib none = lib.dummy_hash
stored_hash lib (some user) = user.password_hash

-- An unknown address is compared against a hash of its own, and refused alike.
unfoldable pub login : Libraries → ℕ → String → String → Exec AuthDb AuthResult
unfolding find
login lib now email password = do
  found ← gets (λ db. find (has_email email) db.users)
  valid ← gets (λ db. lib.bcrypt_compare password (stored_hash lib found))
  user ← require unauthorized found
  refuse (not valid) unauthorized
  pure (issue_token lib now user)

unfoldable pub change_password : Libraries → String → ℕ → String → String → Exec AuthDb (Unit {0})
unfolding find_user update
change_password lib salt user_id current_password new_password = do
  user ← find_user user_id
  refuse (not (lib.bcrypt_compare current_password user.password_hash)) bad_request
  modify (λ db. record db {
    users =
        update (has_id user_id)
          (λ u. record u { password_hash = lib.bcrypt_hash salt new_password }) db.users;
  })
