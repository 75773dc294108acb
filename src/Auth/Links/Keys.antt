-- ===== src/Auth/Links/Keys.antt =====
-- The emailed links keep the unique columns of the users unique.
use ordely.Common.{
  ℕ, ◌==◌, refl, String, Bool-cases, Option-cases, inl, inr, final, find, update, is_set, count,
}
use ordely.Auth.{
  User, AuthDb, Libraries, has_id, has_email, has_verify_hash, has_reset_hash, find_user,
  cools_down, verify_resend_cooldown_ms,
}
use ordely.Auth.Links.{
  verify_email, resend_verification, request_password_reset, redeem, live_link, verified,
  hash_taken, with_password, send_reset, may_reset, resets,
}
use ordely.Auth.Valid.{DbValid, IsValid, Clears-IsValid, verify_token-IsValid, reset_token-IsValid}
use ordely.Auth.Sessions.Keys.{send_mail-IsValid}

module _ (lib : Libraries) (db : AuthDb) (valid : IsValid db.users db.next_user_id) where
  pub verify_email-IsValid :
      (now : ℕ) (token : String) → DbValid (final (verify_email lib now token) db)
  unfolding verify_email
  verify_email-IsValid now token =
      elim (Option-cases (
        live_link now (λ u. u.email_verify_expires_at)
          (find (has_verify_hash (lib.sha256 token)) db.users))) [
            | inl dead ↦ rw (dead, final) valid
            | inr (u, live) ↦
                rw (live, final)
                  (Clears-IsValid (has_id u.id) (verified now) db.users db.next_user_id
                    (record {
                      id = λ u. refl;
                      email = λ u. refl;
                      verify_hash = λ h u e. cc;
                      reset_hash = λ h u e. e;
                    })
                    valid)
          ]

  pub resend_verification-IsValid :
      (token : String) (now id : ℕ) → DbValid (final (resend_verification lib token now id) db)
  unfolding resend_verification find_user
  resend_verification-IsValid token now id = elim (Option-cases (find (has_id id) db.users)) [
    | inl unknown ↦ rw (unknown, final) valid
    | inr (u, known) ↦ elim (Bool-cases (is_set u.email_verified_at)) [
      | inl e ↦ rw (known, e, final) valid
      | inr unverified ↦
          elim (Bool-cases (cools_down now verify_resend_cooldown_ms u.email_verify_sent_at)) [
            | inl soon ↦ rw (known, unverified, soon, final) valid
            | inr late ↦ elim (Bool-cases (hash_taken has_verify_hash id (lib.sha256 token) db)) [
              | inl taken ↦ rw (known, unverified, late, taken, final) valid
              | inr free ↦
                  rw (known, unverified, late, free, final)
                    (send_mail-IsValid lib _ _ (
                      verify_token-IsValid (lib.sha256 token) now id db.users db.next_user_id valid
                        free))
            ]
          ]
    ]
  ]

  pub request_password_reset-IsValid :
      (token : String) (now : ℕ) (email : String)
      → DbValid (final (request_password_reset lib token now email) db)
  unfolding request_password_reset send_reset
  request_password_reset-IsValid token now email =
      elim (Option-cases (may_reset now (find (has_email email) db.users))) [
        | inl none_found ↦ rw (none_found, final) valid
        | inr (u, found) ↦
            elim (Bool-cases (hash_taken has_reset_hash u.id (lib.sha256 token) db)) [
              | inl taken ↦ rw (found, taken, final) valid
              | inr free ↦
                  rw (found, free, final)
                    (send_mail-IsValid lib _ _ (
                      reset_token-IsValid (lib.sha256 token) now u.id db.users db.next_user_id valid
                        free))
            ]
      ]

  pub redeem-IsValid :
      (salt hash password : String) (now signed_at : ℕ) (read : User)
      → DbValid (final (redeem lib salt hash password now signed_at read) db)
  unfolding redeem find_user
  redeem-IsValid salt hash password now signed_at read =
      let users =
        update (resets read.id hash) (with_password (lib.bcrypt_hash salt password) now read)
          db.users in
      let kept : IsValid users db.next_user_id =
        Clears-IsValid (resets read.id hash) _ db.users db.next_user_id
          (record {
            id = λ u. refl;
            email = λ u. refl;
            verify_hash = λ h u e. cc;
            reset_hash = λ h u e. cc;
          })
          valid in
      elim (Bool-cases (count (resets read.id hash) db.users == 0)) [
        | inl zero ↦ rw (zero, final) kept
        | inr some_row ↦ elim (Option-cases (find (has_id read.id) users)) [
          | inl gone ↦ rw (some_row, gone, final) kept
          | inr (u, found) ↦ rw (some_row, found, final) kept
        ]
      ]
