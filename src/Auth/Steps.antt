-- ===== src/Auth/Steps.antt =====
-- The requests of backend/src/auth/auth.service.ts as steps on the tables, each with the clock, the
-- random values and the arguments it runs with.
use ordely.Common.{ℕ, ◌≡◌, subst, String, Option, final}
use ordely.Auth.{User, AuthDb, Libraries}
use ordely.Auth.Links.{verify_email, resend_verification, request_password_reset, redeem}
use ordely.Auth.Sessions.{RegisterDto, register, login, change_password}
use ordely.Auth.Profile.{
  UploadedFile, UpdateAppearanceDto, update_profile, update_appearance, upload_avatar,
  remove_avatar,
}
use ordely.Auth.Valid.{DbValid, IsValid}
use ordely.Auth.Sessions.Keys.{register-IsValid, login-IsValid, change_password-IsValid}
use ordely.Auth.Links.Keys.{
  verify_email-IsValid, resend_verification-IsValid, request_password_reset-IsValid, redeem-IsValid,
}
use ordely.Auth.Profile.Keys.{
  update_profile-IsValid, update_appearance-IsValid, upload_avatar-IsValid, remove_avatar-IsValid,
}

pub data Request (lib : Libraries) (before after : AuthDb) : Type 0 where
  registered :
      (salt token : String) (now : ℕ) (dto : RegisterDto)
      → final (register lib salt token now dto) before ≡ after
      → Request lib before after
  logged_in :
      (now : ℕ) (email password : String)
      → final (login lib now email password) before ≡ after
      → Request lib before after
  password_changed :
      (salt : String) (id : ℕ) (old new : String)
      → final (change_password lib salt id old new) before ≡ after
      → Request lib before after
  email_verified :
      (now : ℕ) (token : String)
      → final (verify_email lib now token) before ≡ after
      → Request lib before after
  verification_resent :
      (token : String) (now id : ℕ)
      → final (resend_verification lib token now id) before ≡ after
      → Request lib before after
  reset_requested :
      (token : String) (now : ℕ) (email : String)
      → final (request_password_reset lib token now email) before ≡ after
      → Request lib before after
  redeemed :
      (salt hash password : String) (now signed_at : ℕ) (read : User)
      → final (redeem lib salt hash password now signed_at read) before ≡ after
      → Request lib before after
  profile_updated :
      (id : ℕ) (name : String)
      → final (update_profile lib id name) before ≡ after
      → Request lib before after
  appearance_updated :
      (id : ℕ) (dto : UpdateAppearanceDto)
      → final (update_appearance lib id dto) before ≡ after
      → Request lib before after
  avatar_uploaded :
      (uuid : String) (id : ℕ) (upload : Option UploadedFile)
      → final (upload_avatar lib uuid id upload) before ≡ after
      → Request lib before after
  avatar_removed : (id : ℕ) → final (remove_avatar lib id) before ≡ after → Request lib before after

pub data Requests (lib : Libraries) : AuthDb → AuthDb → Type 0 where
  stay : (db : AuthDb) → Requests lib db db
  go :
      (before middle after : AuthDb)
      → Request lib before middle
      → Requests lib middle after
      → Requests lib before after

Request-IsValid :
    (lib : Libraries) (before after : AuthDb)
    → Request lib before after
    → DbValid before
    → DbValid after
Request-IsValid lib before after (Request.registered salt token now dto e) valid =
    subst DbValid e (register-IsValid lib before valid salt token now dto)
Request-IsValid lib before after (Request.logged_in now email password e) valid =
    subst DbValid e (login-IsValid lib before valid now email password)
Request-IsValid lib before after (Request.password_changed salt id old new e) valid =
    subst DbValid e (change_password-IsValid lib before valid salt id old new)
Request-IsValid lib before after (Request.email_verified now token e) valid =
    subst DbValid e (verify_email-IsValid lib before valid now token)
Request-IsValid lib before after (Request.verification_resent token now id e) valid =
    subst DbValid e (resend_verification-IsValid lib before valid token now id)
Request-IsValid lib before after (Request.reset_requested token now email e) valid =
    subst DbValid e (request_password_reset-IsValid lib before valid token now email)
Request-IsValid lib before after (Request.redeemed salt hash password now at read e) valid =
    subst DbValid e (redeem-IsValid lib before valid salt hash password now at read)
Request-IsValid lib before after (Request.profile_updated id name e) valid =
    subst DbValid e (update_profile-IsValid lib before valid id name)
Request-IsValid lib before after (Request.appearance_updated id dto e) valid =
    subst DbValid e (update_appearance-IsValid lib before valid id dto)
Request-IsValid lib before after (Request.avatar_uploaded uuid id upload e) valid =
    subst DbValid e (upload_avatar-IsValid lib before valid uuid id upload)
Request-IsValid lib before after (Request.avatar_removed id e) valid =
    subst DbValid e (remove_avatar-IsValid lib before valid id)

-- Whatever requests run, in any order: no two users have one id, one address or one token of a
-- link, and every id is below the next one.
pub Requests-IsValid :
    (lib : Libraries) (before after : AuthDb)
    → Requests lib before after
    → IsValid before.users before.next_user_id
    → IsValid after.users after.next_user_id
Requests-IsValid lib before after (Requests.stay db) valid = valid
Requests-IsValid lib before after (Requests.go a middle b s r) valid =
    Requests-IsValid lib middle after r (Request-IsValid lib before middle s valid)
