-- ===== src/Auth/Profile/Avatars.antt =====
-- The profile pictures of backend/src/auth/auth.service.ts: the row of a user never names a file
-- that the storage does not have.
use ordely.Common.{
  ℕ, ◌≡◌, refl, subst, String, Bool, true, false, Option, none, some, List, [], ◌∷◌, ◌++◌, arith,
  Bool-cases, Option-cases, inl, inr, final, find, update, delete, any, All, ◌==◌, ==_iff, str_eq,
  eq_iff, find-All, find-holds, ltb,
}
use ordely.Auth.{User, AuthDb, ObjectKey, Libraries, has_id, find_user}
use ordely.Auth.Profile.{
  UploadedFile, upload_avatar, remove_avatar, same_key, remove_object, drop_avatar, has_bytes,
  detect_image_type, avatar_max_bytes,
}

-- A picture stands under its owner's id, and it is stored.
abbrev pub PictureStored : List ObjectKey → ℕ → Option ObjectKey → Type 0
PictureStored objects id none = Unit {0}
PictureStored objects id (some key) = (key.user_id ≡ id) × (any (same_key key) objects ≡ true)

abbrev pub AvatarsStored : AuthDb → Type 0
AvatarsStored db = All (λ u. PictureStored db.objects u.id u.avatar_key) db.users

any-delete :
    (p q : ObjectKey → Bool) (objects : List ObjectKey)
    → ((k : ObjectKey) → p k ≡ true → q k ≡ false)
    → any p objects ≡ true
    → any p (delete q objects) ≡ true
unfolding delete
any-delete p q [] h e = e
any-delete p q (k ∷ objects) h e = ground (arith, h k, any-delete p q objects h)

any-append :
    (p : ObjectKey → Bool) (objects : List ObjectKey) (key : ObjectKey)
    → any p objects ≡ true
    → any p (objects ++ key ∷ []) ≡ true
any-append p [] key e = cc
any-append p (k ∷ objects) key e = ground (arith, any-append p objects key)

any-append-last :
    (p : ObjectKey → Bool) (objects : List ObjectKey) (key : ObjectKey)
    → p key ≡ true
    → any p (objects ++ key ∷ []) ≡ true
any-append-last p [] key e = ground arith
any-append-last p (k ∷ objects) key e = ground (arith, any-append-last p objects key)

same_key_self : (k : ObjectKey) → same_key k k ≡ true
same_key_self k = ground (arith, eq_iff k.uuid k.uuid, eq_iff k.ext k.ext)

-- Every picture is stored still when the one of another owner is deleted.
other_owner :
    (key old k : ObjectKey)
    → (key.user_id == old.user_id) ≡ false
    → same_key key k ≡ true
    → same_key old k ≡ false
other_owner key old k other h = ground arith

-- A write of one user's picture: what the others have must stay, and what is written must be there.
pictures-update :
    (before after : List ObjectKey) (id : ℕ) (picture : Option ObjectKey) (users : List User)
    → PictureStored after id picture
    → ((key : ObjectKey)
        → (key.user_id == id) ≡ false
        → any (same_key key) before ≡ true
        → any (same_key key) after ≡ true)
    → All (λ u. PictureStored before u.id u.avatar_key) users
    → All
        (λ u. PictureStored after u.id u.avatar_key)
        (update (has_id id) (λ u. record u { avatar_key = picture }) users)
unfolding update
pictures-update before after id picture [] written others a = tt
pictures-update before after id picture (u ∷ users) written others (stored, a) =
    elim (Bool-cases (u.id == id)) [
      | inl e ↦
          rw (e, (==_iff u.id id).0 e)
            (written, pictures-update before after id picture users written others a)
      | inr e ↦
          rw e (kept u e stored, pictures-update before after id picture users written others a)
    ]
  where
    kept :
        (u : User)
        → (u.id == id) ≡ false
        → PictureStored before u.id u.avatar_key
        → PictureStored after u.id u.avatar_key
    kept u other stored = on u.avatar_key stored
      where
        on : (p : Option ObjectKey) → PictureStored before u.id p → PictureStored after u.id p
        on none s = tt
        on (some key) (own, s) = (own, others key (rw own other) s)

-- The name of a stored file is not that of a new one.
uuid_other :
    (uuid : String) (old : ObjectKey) (objects : List ObjectKey)
    → any (λ k. str_eq uuid k.uuid) objects ≡ false
    → any (same_key old) objects ≡ true
    → str_eq uuid old.uuid ≡ false
uuid_other uuid old [] fresh e = cc
uuid_other uuid old (k ∷ objects) fresh e =
    ground (arith, uuid_other uuid old objects, eq_iff old.uuid k.uuid)

different_file :
    (key old k : ObjectKey)
    → str_eq key.uuid old.uuid ≡ false
    → same_key key k ≡ true
    → same_key old k ≡ false
different_file key old k other h =
    ground (arith, eq_iff key.uuid k.uuid, eq_iff old.uuid k.uuid, eq_iff key.uuid old.uuid)

module _ (lib : Libraries) (id : ℕ) where
  -- Deleting an owner's file keeps the others'.
  removed-others :
      (old : Option ObjectKey) (objects : List ObjectKey) (db : AuthDb)
      → PictureStored objects id old
      → (key : ObjectKey) → (key.user_id == id) ≡ false
      → any (same_key key) db.objects ≡ true
      → any (same_key key) (remove_object lib old db).objects ≡ true
  removed-others none objects db s key other e = e
  removed-others (some old) objects db (own, s) key other e = elim (Bool-cases (lib.removes old)) [
    | inl r ↦
        rw (remove_object, r)
          (any-delete (same_key key) (same_key old) db.objects
            (λ k. other_owner key old k (rw own other)) e)
    | inr r ↦ rw (remove_object, r) e
  ]

  removed-new :
      (old : Option ObjectKey) (objects : List ObjectKey) (key : ObjectKey) (db : AuthDb)
      → PictureStored objects id old
      → any (λ k. str_eq key.uuid k.uuid) objects ≡ false
      → any (same_key key) db.objects ≡ true
      → any (same_key key) (remove_object lib old db).objects ≡ true
  removed-new none objects key db s fresh e = e
  removed-new (some old) objects key db (own, s) fresh e = elim (Bool-cases (lib.removes old)) [
    | inl r ↦
        rw (remove_object, r)
          (any-delete (same_key key) (same_key old) db.objects
            (λ k. different_file key old k (uuid_other key.uuid old objects fresh s)) e)
    | inr r ↦ rw (remove_object, r) e
  ]

found_picture :
    (id : ℕ) (db : AuthDb) {u : User}
    → AvatarsStored db
    → find (has_id id) db.users ≡ some u
    → PictureStored db.objects id u.avatar_key
found_picture id db {u} a known =
    let own : u.id ≡ id = (==_iff u.id id).0 (find-holds (has_id id) db.users known) in
    subst (λ i. PictureStored db.objects i u.avatar_key) own
      (find-All (λ v. PictureStored db.objects v.id v.avatar_key) (has_id id) db.users known a)

-- Removing a picture, whether or not the storage deletes the file.
pub remove_avatar-AvatarsStored :
    (lib : Libraries) (id : ℕ) (db : AuthDb)
    → AvatarsStored db
    → AvatarsStored (final (remove_avatar lib id) db)
unfolding remove_avatar find_user
remove_avatar-AvatarsStored lib id db a =
    let users = update (has_id id) (λ u. record u { avatar_key = none }) db.users in
    elim (Option-cases (find (has_id id) db.users)) [
      | inl unknown ↦ rw (unknown, final) a
      | inr (u, known) ↦ elim (Option-cases u.avatar_key) [
        | inl no_avatar ↦ rw (known, no_avatar, drop_avatar, final) a
        | inr (key, avatar) ↦
            let old : PictureStored db.objects id (some key) =
              subst (PictureStored db.objects id) avatar (found_picture id db a known) in
            elim (Option-cases (find (has_id id) users)) [
              | inl gone ↦
                  rw (known, avatar, drop_avatar, gone, final)
                    (pictures-update db.objects db.objects id none db.users tt (λ k e s. s) a)
              | inr (v, found) ↦ elim (Bool-cases (lib.removes key)) [
                | inl e ↦
                    rw (known, avatar, drop_avatar, found, remove_object, e, final)
                      (pictures-update db.objects (delete (same_key key) db.objects) id none
                        db.users tt
                        (λ k o s.
                          any-delete (same_key k) (same_key key) db.objects
                            (λ x. other_owner k key x (rw old.0 o)) s)
                        a)
                | inr e ↦
                    rw (known, avatar, drop_avatar, found, remove_object, e, final)
                      (pictures-update db.objects db.objects id none db.users tt (λ k e s. s) a)
              ]
            ]
      ]
    ]

remove_object-users :
    (lib : Libraries) (old : Option ObjectKey) (db : AuthDb)
    → (remove_object lib old db).users ≡ db.users
remove_object-users lib none db = refl
remove_object-users lib (some key) db = ground arith

-- A new picture is stored before its row names it, and the old file is deleted only then: where the
-- random name is new, every row names a file that is stored, however the request ends.
pub upload_avatar-AvatarsStored :
    (lib : Libraries) (uuid : String) (id : ℕ) (upload : Option UploadedFile) (db : AuthDb)
    → any (λ k. str_eq uuid k.uuid) db.objects ≡ false
    → AvatarsStored db
    → AvatarsStored (final (upload_avatar lib uuid id upload) db)
unfolding upload_avatar find_user
upload_avatar-AvatarsStored lib uuid id upload db fresh a = elim (Option-cases (has_bytes upload)) [
  | inl no_file ↦ rw (no_file, final) a
  | inr (file, bytes) ↦ elim (Bool-cases (ltb avatar_max_bytes file.size)) [
    | inl large ↦ rw (bytes, large, final) a
    | inr small ↦ elim (Option-cases (detect_image_type file.buffer)) [
      | inl unknown_type ↦ rw (bytes, small, unknown_type, final) a
      | inr (ext, type) ↦ elim (Option-cases (find (has_id id) db.users)) [
        | inl unknown ↦ rw (bytes, small, type, unknown, final) a
        | inr (u, known) ↦
            let key : ObjectKey = record { user_id = id; uuid = uuid; ext = ext } in
            let users = update (has_id id) (λ u. record u { avatar_key = some key }) db.users in
            let put_db : AuthDb = record db { objects = db.objects ++ key ∷ []; users = users } in
            let old = found_picture id db a known in
            let here : any (same_key key) put_db.objects ≡ true =
              any-append-last (same_key key) db.objects key (same_key_self key) in
            elim (Bool-cases (lib.puts key)) [
              | inr failed ↦ rw (bytes, small, type, known, failed, final) a
              | inl put ↦ elim (Option-cases (find (has_id id) users)) [
                | inl gone ↦
                    rw (bytes, small, type, known, put, gone, final)
                      (pictures-update db.objects put_db.objects id (some key) db.users (refl, here)
                        (λ k e s. any-append (same_key k) db.objects key s) a)
                | inr (v, found) ↦
                    rw
                      (
                        bytes,
                        small,
                        type,
                        known,
                        put,
                        found,
                        final,
                        remove_object-users lib u.avatar_key put_db,
                      )
                      (pictures-update db.objects (remove_object lib u.avatar_key put_db).objects id
                        (some key) db.users
                        (refl, removed-new lib id u.avatar_key db.objects key put_db old fresh here)
                        (λ k e s.
                          removed-others lib id u.avatar_key db.objects put_db old k e
                            (any-append (same_key k) db.objects key s))
                        a)
              ]
            ]
      ]
    ]
  ]
]
