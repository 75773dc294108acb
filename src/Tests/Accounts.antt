-- ===== src/Tests/Accounts.antt =====
-- Examples of the theorems on accounts: one account, whose address is not verified, and libraries
-- that hash a text to itself and sign one session, which expires after a day.
use ordely.Common.{
  ℕ, ◌≡◌, refl, String, true, false, Option, none, some, List, [], ◌∷◌, ◌++◌, arith, find, update,
  count, result, final, ok, err, bad_request, unauthorized, str_eq, any, ltb, ◌/◌, ◌+◌, ◌orelse◌,
  if◌then◌else◌,
}
use ordely.Common.Text.{codes}
use ordely.Auth.{
  User, AuthDb, Libraries, JwtPayload, AuthResult, find_user, send_mail, has_email, has_reset_hash,
  issue_token,
}
use ordely.Auth.Valid.{IsValid}
use ordely.Auth.Links.{
  reset_password, redeem, verify_email, request_password_reset, send_reset, with_reset_token,
  with_password, may_reset, hash_taken,
}
use ordely.Auth.Sessions.{RegisterDto, register, create_account, login, new_user}
use ordely.Auth.Guard.{Route, can_activate, bearer, first_piece, after_space}
use ordely.Auth.Guard.AfterReset.{reset_password-ends, reset_password-opens}
use ordely.Auth.Links.SingleUse.{redeem_twice, reset_password_once}
use ordely.Auth.Links.Forgotten.{request-reset-login, request-again}
use ordely.Auth.Sessions.Registration.{register-verify_email}
use ordely.Auth.Profile.{upload_avatar, UploadedFile}
use ordely.Auth.Profile.Avatars.{AvatarsStored, upload_avatar-AvatarsStored}
use ordely.Auth.Steps.{Request, Requests, Requests-IsValid}

abbrev libraries : JwtPayload → Libraries
libraries payload = record {
  sha256 = λ s. s;
  bcrypt_hash = λ salt s. s;
  bcrypt_compare = str_eq;
  dummy_hash = "timing-equalizer";
  jwt_sign = λ p. codes "jwt";
  jwt_verify =
      λ at t. if ltb (at / 1000) ((payload.iat orelse 0) + 86400) then some payload else none;
  expires_in = 86400;
  delivers = λ m. true;
  puts = λ k. true;
  removes = λ k. true;
  url = λ k. "url";
}

abbrev session : ℕ → JwtPayload
session iat = record { sub = 5; email = "ali@dar.tn"; iat = some iat }

abbrev pub lib : Libraries
lib = libraries (session 3600)

abbrev app_route : Route
app_route = record { is_public = false; allow_unverified = false }

abbrev ali : RegisterDto
ali = record {
  email = "ali@dar.tn";
  name = "Ali";
  password = "password1";
  accent_color = none;
  theme_mode = none;
}

abbrev empty_db : AuthDb
empty_db = record {
  users = [];
  boutiques = [];
  next_user_id = 5;
  next_boutique_id = 1;
  mails = [];
  objects = [];
}

nobody : IsValid empty_db.users empty_db.next_user_id
unfolding count
nobody = record {
  ids = λ id. omega arith;
  emails = λ email. omega arith;
  verify_hashes = λ hash. omega arith;
  reset_hashes = λ hash. omega arith;
  below = tt;
}

abbrev route_header : Option (List ℕ)
route_header = some (codes "Bearer jwt")

abbrev pub ali_db : AuthDb
ali_db = final (register lib "salt" "first" 1000000 ali) empty_db

abbrev asked_db : AuthDb
asked_db = final (request_password_reset lib "second" 2000000 "ali@dar.tn") ali_db

-- An account is registered, and asks for a new password.
asked_by-Requests : Requests lib empty_db asked_db
asked_by-Requests =
    Requests.go empty_db ali_db asked_db (Request.registered "salt" "first" 1000000 ali refl) (
      Requests.go ali_db asked_db asked_db
        (Request.reset_requested "second" 2000000 "ali@dar.tn" refl) (Requests.stay asked_db))

Requests-IsValid_example : IsValid asked_db.users asked_db.next_user_id
Requests-IsValid_example = Requests-IsValid lib empty_db asked_db asked_by-Requests nobody

asked-IsValid : IsValid asked_db.users asked_db.next_user_id
asked-IsValid = Requests-IsValid lib empty_db asked_db asked_by-Requests nobody

ali-IsValid : IsValid ali_db.users ali_db.next_user_id
ali-IsValid =
    Requests-IsValid lib empty_db ali_db
      (Requests.go empty_db ali_db ali_db (Request.registered "salt" "first" 1000000 ali refl)
        (Requests.stay ali_db))
      nobody

abbrev ali_user : User
ali_user = new_user 5 1 1000000 "password1" "first" ali

abbrev asked_user : User
asked_user = with_reset_token "second" 2000000 ali_user

abbrev changed : AuthResult
changed = issue_token lib 3600500 (with_password "password2" 3600000 asked_user asked_user)

ali_registered :
    result (register lib "salt" "first" 1000000 ali) empty_db
    ≡ ok (issue_token lib 1000000 ali_user)
unfolding register create_account send_mail
ali_registered = refl

reset_done :
    result (reset_password lib "salt" 3600000 3600500 "second" "password2") asked_db ≡ ok changed
unfolding reset_password redeem request_password_reset send_reset register create_account send_mail
    find_user find update count
reset_done = refl

reset_password_once_example :
    result
      (reset_password lib "pepper" 3700000 3700000 "second" "password3")
      (final (reset_password lib "salt" 3600000 3600500 "second" "password2") asked_db)
    ≡ err bad_request
reset_password_once_example =
    reset_password_once lib "salt" 3600000 3600500 "second" "password2" asked_db "pepper" 3700000
      3700000 "password3" {r = changed} asked-IsValid reset_done

redeem_twice_example :
    result
      (redeem lib "pepper" "second" "password3" 3600001 3600600 asked_user)
      (final (redeem lib "salt" "second" "password2" 3600000 3600500 asked_user) asked_db)
    ≡ err bad_request
redeem_twice_example =
    redeem_twice lib "salt" "pepper" "second" "password2" "password3" 3600000 3600001 3600500
      3600600 asked_user asked_user asked_db refl

-- A session that was signed a second before the reset.
abbrev early : Libraries
early = libraries (session 3599)

early_reset :
    result (reset_password early "salt" 3600000 3600500 "second" "password2") asked_db ≡ ok changed
unfolding reset_password redeem request_password_reset send_reset register create_account send_mail
    find_user find update count
early_reset = refl

carried : bearer route_header ≡ some (codes "jwt")
unfolding bearer first_piece after_space
carried = refl

reset_password-ends_example :
    can_activate early 3700000 app_route route_header
      (final (reset_password early "salt" 3600000 3600500 "second" "password2") asked_db)
    ≡ err unauthorized
reset_password-ends_example =
    reset_password-ends early "salt" 3600000 3600500 "second" "password2" asked_db {r = changed}
      3700000 app_route route_header (codes "jwt") (session 3599) asked-IsValid early_reset refl
      carried refl refl (omega arith)

reset_password-opens_example :
    can_activate lib 3700000 app_route
      (some (codes "Bearer " ++ codes "jwt"))
      (final (reset_password lib "salt" 3600000 3600500 "second" "password2") asked_db)
    ≡ ok (some (record { payload = session 3600; boutique_id = 1; is_platform_admin = false }))
reset_password-opens_example =
    reset_password-opens lib "salt" 3600000 3600500 "second" "password2" asked_db {r = changed}
      3700000 app_route asked-IsValid reset_done (λ h. cc) (refl, (refl, (refl, tt))) refl
      (omega arith) refl

registered_again :
    result (register (libraries (session 1000)) "salt" "first" 1000000 ali) empty_db
    ≡ ok (issue_token lib 1000000 ali_user)
unfolding register create_account send_mail
registered_again = refl

register-verify_email_example :
    (result
        (verify_email (libraries (session 1000)) 87000000 "first")
        (final (register (libraries (session 1000)) "salt" "first" 1000000 ali) empty_db)
      ≡ ok "ali@dar.tn")
    × (can_activate
          (libraries (session 1000))
          87300000
          app_route
          (some (codes "Bearer " ++ codes "jwt"))
          (final
            (verify_email (libraries (session 1000)) 87000000 "first")
            (final (register (libraries (session 1000)) "salt" "first" 1000000 ali) empty_db))
        ≡ ok (some (record { payload = session 1000; boutique_id = 1; is_platform_admin = false })))
register-verify_email_example =
    register-verify_email (libraries (session 1000)) "salt" "first" 1000000 ali empty_db 87000000
      87300000 {r = issue_token lib 1000000 ali_user} app_route nobody registered_again
      (omega arith) (λ h. cc) (refl, (refl, (refl, tt))) refl refl

may : may_reset 2000000 (find (has_email "ali@dar.tn") ali_db.users) ≡ some ali_user
unfolding register create_account send_mail find
may = refl

free : hash_taken has_reset_hash 5 "second" ali_db ≡ false
unfolding register create_account send_mail
free = refl

request-reset-login_example :
    (result (reset_password lib "salt" 3600000 3600500 "second" "password2") asked_db ≡ ok changed)
    × (result
          (login lib 4000000 "ali@dar.tn" "password2")
          (final (reset_password lib "salt" 3600000 3600500 "second" "password2") asked_db)
        ≡ ok (issue_token lib 4000000 (with_password "password2" 3600000 asked_user asked_user)))
request-reset-login_example =
    request-reset-login lib "second" 2000000 "ali@dar.tn" ali_db {u = ali_user} ali-IsValid may free
      "salt" "password2" 3600000 3600500 4000000 (omega arith) refl

request-again_example :
    request_password_reset lib "third" 2059999 "ali@dar.tn" asked_db ≡ (ok tt, asked_db)
request-again_example =
    request-again lib "second" 2000000 "ali@dar.tn" ali_db {u = ali_user} ali-IsValid may free
      "third" 2059999 (omega arith)

always_free : (token : String) (id : ℕ) → hash_taken has_reset_hash id token ali_db ≡ false
unfolding register create_account send_mail
always_free token id = refl

-- The account uploads a JPEG.
abbrev photo : UploadedFile
photo = record { buffer = 0xff ∷ 0xd8 ∷ 0xff ∷ 0xe0 ∷ []; size = 4 }

no_pictures : AvatarsStored ali_db
unfolding register create_account send_mail
no_pictures = (tt, tt)

no_files : any (λ k. str_eq "uuid" k.uuid) ali_db.objects ≡ false
unfolding register create_account send_mail
no_files = refl

upload_avatar-AvatarsStored_example :
    AvatarsStored (final (upload_avatar lib "uuid" 5 (some photo)) ali_db)
upload_avatar-AvatarsStored_example =
    upload_avatar-AvatarsStored lib "uuid" 5 (some photo) ali_db no_files no_pictures
