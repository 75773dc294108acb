-- ===== src/Auth.antt =====
-- backend/src/auth/auth.service.ts: the accounts and the links that are emailed to them. The table
-- of users is that of backend/prisma/schema.prisma; hashing, tokens, random values, mail and the
-- object storage are other libraries', and so parameters.
pub mod Links
pub mod Sessions
pub mod Profile
pub mod Guard
pub mod Gateway
pub mod Steps
pub mod Valid
use ordely.Common.{
  ℕ, ◌+◌, ◌-◌, ◌*◌, ◌/◌, String, Bool, true, false, not, ◌&&◌, ◌||◌, Option, none, some, List, [],
  ◌∷◌, ◌++◌, if◌then◌else◌, ltb, ◌==◌, ◌orelse◌, holds, str_eq, any, Exec, Result, ok, refuse, gets,
  modify, pure, final, demand, transaction, ◌>>=◌, ◌>>◌, conflict, unauthorized,
  service_unavailable, find,
}
use ordely.Common.Text.{Text}
use ordely.Store.{Boutique}

-- `avatars/<user>/<uuid>.<ext>`
pub record ObjectKey : Type 0 where
  pub user_id : ℕ
  pub uuid : String
  pub ext : String

pub record User : Type 0 where
  pub id : ℕ
  pub email : String
  pub name : String
  pub password_hash : String
  pub boutique_id : ℕ
  pub avatar_key : Option ObjectKey
  pub accent_color : Option String
  pub theme_mode : String
  pub email_verified_at : Option ℕ
  pub email_verify_token_hash : Option String
  pub email_verify_expires_at : Option ℕ
  pub email_verify_sent_at : Option ℕ
  pub password_reset_token_hash : Option String
  pub password_reset_expires_at : Option ℕ
  pub password_reset_sent_at : Option ℕ
  pub password_changed_at : Option ℕ
  pub is_platform_admin : Bool
  pub created_at : ℕ

-- A link is determined by its token: `<APP_URL>/verify-email?token=<token>`.
pub data Link : Type 0 where
  verify_link reset_link : String → Link

pub record Mail : Type 0 where
  pub to : String
  pub name : String
  pub link : Link

-- The tables that the service writes, the mails it sent and the files it stored.
pub record AuthDb : Type 0 where
  pub users : List User
  pub boutiques : List Boutique
  pub next_user_id : ℕ
  pub next_boutique_id : ℕ
  pub mails : List Mail
  pub objects : List ObjectKey

pub record JwtPayload : Type 0 where
  pub sub : ℕ
  pub email : String
  pub iat : Option ℕ

-- What other libraries do: SHA-256, bcrypt (with its salt), the signature of sessions and its check
-- at an instant (a token expires `expires_in` seconds after it was signed), the mail server, and the storage, which accepts or fails to write, to delete and to sign.
pub record Libraries : Type 0 where
  pub sha256 : String → String
  pub bcrypt_hash : String → String → String
  pub bcrypt_compare : String → String → Bool
  pub dummy_hash : String
  pub jwt_sign : JwtPayload → Text
  pub jwt_verify : ℕ → Text → Option JwtPayload
  pub expires_in : ℕ
  pub delivers : Mail → Bool
  pub puts : ObjectKey → Bool
  pub removes : ObjectKey → Bool
  pub url : ObjectKey → String

abbrev pub verify_link_ttl_ms : ℕ
verify_link_ttl_ms = 24 * 60 * 60 * 1000

abbrev pub verify_resend_cooldown_ms : ℕ
verify_resend_cooldown_ms = 60 * 1000

abbrev pub reset_link_ttl_ms : ℕ
reset_link_ttl_ms = 60 * 60 * 1000

abbrev pub reset_resend_cooldown_ms : ℕ
reset_resend_cooldown_ms = 60 * 1000

-- The keys of the table: `id`, `email` and the two token hashes are unique.
abbrev pub has_id : ℕ → User → Bool
has_id id u = u.id == id

abbrev pub has_email : String → User → Bool
has_email email u = str_eq u.email email

abbrev pub has_verify_hash : String → User → Bool
has_verify_hash hash u = holds u.email_verify_token_hash hash

abbrev pub has_reset_hash : String → User → Bool
has_reset_hash hash u = holds u.password_reset_token_hash hash

-- The columns that remember a verification link.
abbrev pub with_verify_token : String → ℕ → User → User
with_verify_token hash now u = record u {
  email_verify_token_hash = some hash;
  email_verify_expires_at = some (now + verify_link_ttl_ms);
  email_verify_sent_at = some now;
}

-- A user as the API returns it.
pub record PublicUser : Type 0 where
  pub id : ℕ
  pub email : String
  pub name : String
  pub boutique_id : ℕ
  pub accent_color : Option String
  pub theme_mode : String
  pub email_verified_at : Option ℕ
  pub is_platform_admin : Bool
  pub created_at : ℕ
  pub avatar_url : Option String

abbrev signed_url : Libraries → Option ObjectKey → Option String
signed_url lib none = none
signed_url lib (some key) = some (lib.url key)

abbrev pub public_user : Libraries → User → PublicUser
public_user lib u = record {
  id = u.id;
  email = u.email;
  name = u.name;
  boutique_id = u.boutique_id;
  accent_color = u.accent_color;
  theme_mode = u.theme_mode;
  email_verified_at = u.email_verified_at;
  is_platform_admin = u.is_platform_admin;
  created_at = u.created_at;
  avatar_url = signed_url lib u.avatar_key;
}

pub record AuthResult : Type 0 where
  pub access_token : Text
  pub expires_in : ℕ
  pub user : PublicUser

-- Signing adds the whole seconds of the instant as `iat`.
abbrev pub issue_token : Libraries → ℕ → User → AuthResult
issue_token lib now u = record {
  access_token = lib.jwt_sign (record { sub = u.id; email = u.email; iat = some (now / 1000) });
  expires_in = lib.expires_in;
  user = public_user lib u;
}

unfoldable pub find_user : ℕ → Exec AuthDb User
unfolding find
find_user id = demand unauthorized (λ db. find (has_id id) db.users)

-- A mail that the server does not take is an error 503.
unfoldable pub send_mail : Libraries → Mail → Exec AuthDb (Unit {0})
send_mail lib mail = do
  refuse (not (lib.delivers mail)) service_unavailable
  modify (λ db. record db { mails = db.mails ++ mail ∷ [] })

-- `.catch(...)`: an error is logged.
abbrev pub best_effort : {S : Type 0} → Exec S (Unit {0}) → Exec S (Unit {0})
best_effort m s = (ok tt, final m s)

-- An emailed link works until its expiry.
abbrev pub is_live : ℕ → Option ℕ → Bool
is_live now none = false
is_live now (some expiry) = not (ltb expiry now)

-- The last mail was sent within the cooldown; without one the last instant is 0.
abbrev pub cools_down : ℕ → ℕ → Option ℕ → Bool
cools_down now cooldown sent = ltb (now - (sent orelse 0)) cooldown
