-- ===== src/Auth/Sessions/Keys.antt =====
-- Registering, logging in and changing the password keep the unique columns of the users unique.
use ordely.Common.{ℕ, ◌≡◌, refl, String, arith, Bool-cases, Option-cases, inl, inr, final, find}
use ordely.Auth.{AuthDb, Libraries, Mail, has_id, has_email, find_user, send_mail}
use ordely.Auth.Sessions.{RegisterDto, register, login, change_password, create_account, row_taken}
use ordely.Auth.Valid.{DbValid, IsValid, Clears-IsValid, new_user-IsValid}

pub send_mail-users :
    (lib : Libraries) (mail : Mail) (db : AuthDb) → (final (send_mail lib mail) db).users ≡ db.users
unfolding send_mail
send_mail-users lib mail db = ground arith

pub send_mail-IsValid :
    (lib : Libraries) (mail : Mail) (db : AuthDb)
    → DbValid db
    → DbValid (final (send_mail lib mail) db)
unfolding send_mail
send_mail-IsValid lib mail db valid = elim (Bool-cases (lib.delivers mail)) [
  | inl e ↦ rw (e, final) valid
  | inr e ↦ rw (e, final) valid
]

module _ (lib : Libraries) (db : AuthDb) (valid : IsValid db.users db.next_user_id) where
  pub register-IsValid :
      (salt token : String) (now : ℕ) (dto : RegisterDto)
      → DbValid (final (register lib salt token now dto) db)
  unfolding register create_account
  register-IsValid salt token now dto =
      elim (Bool-cases (row_taken dto.email (lib.sha256 token) db)) [
        | inl taken ↦ rw (taken, final) valid
        | inr free ↦
            rw (free, final)
              (send_mail-IsValid lib _ _
                (new_user-IsValid db.next_boutique_id now _ (lib.sha256 token) dto db valid free))
      ]

  pub login-IsValid :
      (now : ℕ) (email password : String) → DbValid (final (login lib now email password) db)
  unfolding login
  login-IsValid now email password = elim (Option-cases (find (has_email email) db.users)) [
    | inl unknown ↦ rw (unknown, final) valid
    | inr (u, known) ↦ elim (Bool-cases (lib.bcrypt_compare password u.password_hash)) [
      | inl e ↦ rw (known, e, final) valid
      | inr e ↦ rw (known, e, final) valid
    ]
  ]

  pub change_password-IsValid :
      (salt : String) (id : ℕ) (old new : String)
      → DbValid (final (change_password lib salt id old new) db)
  unfolding change_password find_user
  change_password-IsValid salt id old new = elim (Option-cases (find (has_id id) db.users)) [
    | inl unknown ↦ rw (unknown, final) valid
    | inr (u, known) ↦ elim (Bool-cases (lib.bcrypt_compare old u.password_hash)) [
      | inl e ↦
          rw (known, e, final)
            (Clears-IsValid (has_id id) _ db.users db.next_user_id
              (record {
                id = λ u. refl;
                email = λ u. refl;
                verify_hash = λ h u e. e;
                reset_hash = λ h u e. e;
              })
              valid)
      | inr e ↦ rw (known, e, final) valid
    ]
  ]
