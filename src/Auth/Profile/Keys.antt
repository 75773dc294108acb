-- ===== src/Auth/Profile/Keys.antt =====
-- The changes of a profile keep the unique columns of the users unique.
use ordely.Common.{
  ℕ, ltb, ◌orelse◌, refl, String, Option, none, some, Bool-cases, Option-cases, inl, inr, final,
  find, update,
}
use ordely.Auth.{AuthDb, Libraries, has_id, find_user, ObjectKey}
use ordely.Auth.Profile.{
  UploadedFile, UpdateAppearanceDto, update_profile, update_appearance, upload_avatar,
  remove_avatar, detect_image_type, remove_object, drop_avatar, has_bytes, avatar_max_bytes,
}
use ordely.Auth.Valid.{DbValid, IsValid, Clears-IsValid}

remove_object-IsValid :
    (lib : Libraries) (key : Option ObjectKey) (db : AuthDb)
    → DbValid db
    → DbValid (remove_object lib key db)
remove_object-IsValid lib none db valid = valid
remove_object-IsValid lib (some key) db valid = elim (Bool-cases (lib.removes key)) [
  | inl e ↦ rw (remove_object, e) valid
  | inr e ↦ rw (remove_object, e) valid
]

module _ (lib : Libraries) (db : AuthDb) (valid : IsValid db.users db.next_user_id) where
  pub update_profile-IsValid :
      (id : ℕ) (name : String) → DbValid (final (update_profile lib id name) db)
  unfolding update_profile find_user
  update_profile-IsValid id name =
      let users = update (has_id id) (λ u. record u { name = name }) db.users in
      let kept : IsValid users db.next_user_id =
        Clears-IsValid (has_id id) _ db.users db.next_user_id
          (record {
            id = λ u. refl;
            email = λ u. refl;
            verify_hash = λ h u e. e;
            reset_hash = λ h u e. e;
          })
          valid in
      elim (Option-cases (find (has_id id) db.users)) [
        | inl unknown ↦ rw (unknown, final) valid
        | inr (u, known) ↦ elim (Option-cases (find (has_id id) users)) [
          | inl gone ↦ rw (known, gone, final) kept
          | inr (v, found) ↦ rw (known, found, final) kept
        ]
      ]

  pub update_appearance-IsValid :
      (id : ℕ) (dto : UpdateAppearanceDto) → DbValid (final (update_appearance lib id dto) db)
  unfolding update_appearance find_user
  update_appearance-IsValid id dto =
      let users =
        update (has_id id)
          (λ u. record u {
            accent_color = dto.accent_color orelse u.accent_color;
            theme_mode = dto.theme_mode orelse u.theme_mode;
          })
          db.users in
      let kept : IsValid users db.next_user_id =
        Clears-IsValid (has_id id) _ db.users db.next_user_id
          (record {
            id = λ u. refl;
            email = λ u. refl;
            verify_hash = λ h u e. e;
            reset_hash = λ h u e. e;
          })
          valid in
      elim (Option-cases (find (has_id id) db.users)) [
        | inl unknown ↦ rw (unknown, final) valid
        | inr (u, known) ↦ elim (Option-cases (find (has_id id) users)) [
          | inl gone ↦ rw (known, gone, final) kept
          | inr (v, found) ↦ rw (known, found, final) kept
        ]
      ]

  pub remove_avatar-IsValid : (id : ℕ) → DbValid (final (remove_avatar lib id) db)
  unfolding remove_avatar find_user
  remove_avatar-IsValid id =
      let users = update (has_id id) (λ u. record u { avatar_key = none }) db.users in
      let kept : IsValid users db.next_user_id =
        Clears-IsValid (has_id id) _ db.users db.next_user_id
          (record {
            id = λ u. refl;
            email = λ u. refl;
            verify_hash = λ h u e. e;
            reset_hash = λ h u e. e;
          })
          valid in
      elim (Option-cases (find (has_id id) db.users)) [
        | inl unknown ↦ rw (unknown, final) valid
        | inr (u, known) ↦ elim (Option-cases u.avatar_key) [
          | inl no_avatar ↦ rw (known, no_avatar, drop_avatar, final) valid
          | inr (key, avatar) ↦ elim (Option-cases (find (has_id id) users)) [
            | inl gone ↦ rw (known, avatar, drop_avatar, gone, final) kept
            | inr (v, found) ↦ elim (Bool-cases (lib.removes key)) [
              | inl e ↦ rw (known, avatar, drop_avatar, found, remove_object, e, final) kept
              | inr e ↦ rw (known, avatar, drop_avatar, found, remove_object, e, final) kept
            ]
          ]
        ]
      ]

  pub upload_avatar-IsValid :
      (uuid : String) (id : ℕ) (upload : Option UploadedFile)
      → DbValid (final (upload_avatar lib uuid id upload) db)
  unfolding upload_avatar find_user
  upload_avatar-IsValid uuid id upload = elim (Option-cases (has_bytes upload)) [
    | inl no_file ↦ rw (no_file, final) valid
    | inr (file, bytes) ↦ elim (Bool-cases (ltb avatar_max_bytes file.size)) [
      | inl large ↦ rw (bytes, large, final) valid
      | inr small ↦ elim (Option-cases (detect_image_type file.buffer)) [
        | inl unknown_type ↦ rw (bytes, small, unknown_type, final) valid
        | inr (ext, type) ↦ elim (Option-cases (find (has_id id) db.users)) [
          | inl unknown ↦ rw (bytes, small, type, unknown, final) valid
          | inr (u, known) ↦
              let key : ObjectKey = record { user_id = id; uuid = uuid; ext = ext } in
              let users = update (has_id id) (λ u. record u { avatar_key = some key }) db.users in
              let kept : IsValid users db.next_user_id =
                Clears-IsValid (has_id id) _ db.users db.next_user_id
                  (record {
                    id = λ u. refl;
                    email = λ u. refl;
                    verify_hash = λ h u e. e;
                    reset_hash = λ h u e. e;
                  })
                  valid in
              elim (Bool-cases (lib.puts key)) [
                | inr failed ↦ rw (bytes, small, type, known, failed, final) valid
                | inl put ↦ elim (Option-cases (find (has_id id) users)) [
                  | inl gone ↦ rw (bytes, small, type, known, put, gone, final) kept
                  | inr (v, found) ↦
                      rw (bytes, small, type, known, put, found, final)
                        (remove_object-IsValid lib u.avatar_key _ kept)
                ]
              ]
        ]
      ]
    ]
  ]
