-- ===== src/Auth/Profile.antt =====
-- backend/src/auth/auth.service.ts: what an account sees and changes of itself; and
-- backend/src/storage/image-type.ts.
pub mod Keys
pub mod Avatars
use ordely.Common.{
  ℕ, ◌+◌, ◌*◌, ◌%◌, map, String, Bool, true, false, not, ◌&&◌, Option, none, some, List, [], ◌∷◌,
  ◌++◌, if◌then◌else◌, ltb, ◌==◌, ◌orelse◌, str_eq, take, drop, Exec, refuse, modify, pure, require,
  ◌>>=◌, ◌>>◌, bad_request, internal, update, delete,
}
use ordely.Common.Text.{Text, codes, text_eq}
use ordely.Auth.{User, AuthDb, ObjectKey, PublicUser, Libraries, has_id, find_user, public_user}

unfoldable pub me : Libraries → ℕ → Exec AuthDb PublicUser
unfolding find_user
me lib user_id = do user ← find_user user_id; pure (public_user lib user)

-- `user.update({ where: { id } })`, which returns the row.
abbrev pub update_user : Libraries → ℕ → (User → User) → Exec AuthDb PublicUser
update_user lib user_id f = do
  modify (λ db. record db { users = update (has_id user_id) f db.users })
  updated ← find_user user_id
  pure (public_user lib updated)

unfoldable pub update_profile : Libraries → ℕ → String → Exec AuthDb PublicUser
unfolding find_user update
update_profile lib user_id name = do
  user ← find_user user_id
  update_user lib user_id (λ u. record u { name = name })

-- An omitted accent keeps its value; `some none` resets it.
pub record UpdateAppearanceDto : Type 0 where
  pub accent_color : Option (Option String)
  pub theme_mode : Option String

unfoldable pub update_appearance : Libraries → ℕ → UpdateAppearanceDto → Exec AuthDb PublicUser
unfolding find_user update
update_appearance lib user_id dto = do
  user ← find_user user_id
  update_user lib user_id (λ u. record u {
    accent_color = dto.accent_color orelse u.accent_color;
    theme_mode = dto.theme_mode orelse u.theme_mode;
  })

-- `toString('ascii')` drops the highest bit of a byte.
abbrev pub ascii : List ℕ → Text
ascii bytes = map (λ b. b % 128) bytes

-- The extension of an image by its first bytes.
unfoldable pub detect_image_type : List ℕ → Option String
detect_image_type buf =
    if text_eq (take 3 buf) (0xff ∷ 0xd8 ∷ 0xff ∷ [])
    then some "jpg"
    else if text_eq (take 8 buf) (0x89 ∷ 0x50 ∷ 0x4e ∷ 0x47 ∷ 0x0d ∷ 0x0a ∷ 0x1a ∷ 0x0a ∷ [])
    then some "png"
    else if text_eq (ascii (take 4 buf)) (codes "RIFF")
        && text_eq (ascii (take 4 (drop 8 buf))) (codes "WEBP")
    then some "webp"
    else none

abbrev pub avatar_max_bytes : ℕ
avatar_max_bytes = 2 * 1024 * 1024

abbrev pub same_key : ObjectKey → ObjectKey → Bool
same_key a b = a.user_id == b.user_id && str_eq a.uuid b.uuid && str_eq a.ext b.ext

-- A file that is not deleted is left over; the request does not fail.
abbrev pub remove_object : Libraries → Option ObjectKey → AuthDb → AuthDb
remove_object lib none db = db
remove_object lib (some key) db =
    if lib.removes key then record db { objects = delete (same_key key) db.objects } else db

pub record UploadedFile : Type 0 where
  pub buffer : List ℕ
  pub size : ℕ

abbrev pub has_bytes : Option UploadedFile → Option UploadedFile
has_bytes none = none
has_bytes (some file) = elim file.buffer [ [] ↦ none | _ ∷ _ ↦ some file ]

-- `uuid` is the random name of the new object.
unfoldable pub upload_avatar : Libraries → String → ℕ → Option UploadedFile → Exec AuthDb PublicUser
unfolding detect_image_type find_user update delete
upload_avatar lib uuid user_id upload = do
  file ← require bad_request (has_bytes upload)
  refuse (ltb avatar_max_bytes file.size) bad_request
  ext ← require bad_request (detect_image_type file.buffer)
  user ← find_user user_id
  let key : ObjectKey = record { user_id = user_id; uuid = uuid; ext = ext } in
      do
        refuse (not (lib.puts key)) internal
        modify (λ db. record db { objects = db.objects ++ key ∷ [] })
        modify (λ db. record db {
          users = update (has_id user_id) (λ u. record u { avatar_key = some key }) db.users;
        })
        updated ← find_user user_id
        modify (remove_object lib user.avatar_key)
        pure (public_user lib updated)

abbrev pub drop_avatar : Libraries → ℕ → User → Option ObjectKey → Exec AuthDb PublicUser
drop_avatar lib user_id user none = pure (public_user lib user)
drop_avatar lib user_id user (some key) = do
  modify (λ db. record db {
    users = update (has_id user_id) (λ u. record u { avatar_key = none }) db.users;
  })
  updated ← find_user user_id
  modify (remove_object lib (some key))
  pure (public_user lib updated)

unfoldable pub remove_avatar : Libraries → ℕ → Exec AuthDb PublicUser
unfolding find_user update delete
remove_avatar lib user_id = do
  user ← find_user user_id
  drop_avatar lib user_id user user.avatar_key
