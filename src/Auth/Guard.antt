-- ===== src/Auth/Guard.antt =====
-- backend/src/auth/auth.guard.ts: who may open a route.
pub mod AfterReset
use ordely.Common.{
  ℕ, ◌*◌, Bool, true, false, not, ◌&&◌, Option, none, some, List, [], ◌∷◌, if◌then◌else◌, ltb, ◌==◌,
  ◌orelse◌, is_set, Result, ok, err, unauthorized, forbidden, find, String,
}
use ordely.Common.Text.{Text, codes, text_eq}
use ordely.Auth.{User, AuthDb, Libraries, JwtPayload, has_id}

-- `@Public()` and `@AllowUnverified()` on a handler or its class.
pub record Route : Type 0 where
  pub is_public : Bool
  pub allow_unverified : Bool

-- `user` of a request.
pub record AuthUser : Type 0 where
  pub payload : JwtPayload
  pub boutique_id : ℕ
  pub is_platform_admin : Bool

-- The pieces of `split(' ')`: the first one, and the text after the first space.
unfoldable pub first_piece : Text → Text
first_piece [] = []
first_piece (c ∷ cs) = let rest = first_piece cs in if c == 32 then [] else c ∷ rest

unfoldable pub after_space : Text → Text
after_space [] = []
after_space (c ∷ cs) = let rest = after_space cs in if c == 32 then cs else rest

abbrev nonempty : Text → Option Text
nonempty [] = none
nonempty (c ∷ cs) = some (c ∷ cs)

-- `const [type, token] = authorization.split(' ')`
unfoldable pub bearer : Option Text → Option Text
unfolding first_piece after_space
bearer none = none
bearer (some header) =
    if text_eq (first_piece header) (codes "Bearer")
    then nonempty (first_piece (after_space header))
    else none

-- A password reset ends every session opened before it.
abbrev pub session_ended : JwtPayload → Option ℕ → Bool
session_ended payload none = false
session_ended payload (some changed_at) = ltb ((payload.iat orelse 0) * 1000) changed_at

abbrev pub admit : Route → JwtPayload → Option User → Result (Option AuthUser)
admit route payload none = err unauthorized
admit route payload (some u) =
    if session_ended payload u.password_changed_at
    then err unauthorized
    else if not (is_set u.email_verified_at) && not route.allow_unverified
    then err forbidden
    else ok (
        some (record {
          payload = payload;
          boutique_id = u.boutique_id;
          is_platform_admin = u.is_platform_admin;
        }))

abbrev pub open_session : Route → AuthDb → Option JwtPayload → Result (Option AuthUser)
open_session route db none = err unauthorized
open_session route db (some payload) = admit route payload (find (has_id payload.sub) db.users)

abbrev pub authenticate : Libraries → ℕ → Route → AuthDb → Option Text → Result (Option AuthUser)
authenticate lib at route db none = err unauthorized
authenticate lib at route db (some token) = open_session route db (lib.jwt_verify at token)

-- `at` is the instant of the request: `verifyAsync` refuses a token that has expired by then.
unfoldable pub can_activate :
    Libraries → ℕ → Route → Option Text → AuthDb → Result (Option AuthUser)
unfolding bearer find
can_activate lib at route authorization db =
    if route.is_public then ok none else authenticate lib at route db (bearer authorization)
