-- ===== src/Auth/Gateway.antt =====
-- backend/src/realtime/realtime.gateway.ts: who joins the room of a shop.
use ordely.Common.{
  ℕ, ◌≡◌, refl, true, false, Option, none, some, [], ◌∷◌, Bool-cases, Option-cases, inl, inr,
  if◌then◌else◌, ok, err, Result, find, is_set, drop, take, String,
}
use ordely.Common.Text.{Text, codes, text_eq}
use ordely.Auth.{User, AuthDb, Libraries, JwtPayload, has_id}
use ordely.Auth.Guard.{Route, AuthUser, can_activate, bearer, session_ended, admit, authenticate}

-- Where a client carries its token: `auth.token`, the header, and `?token=`.
pub record Handshake : Type 0 where
  pub auth_token : Option Text
  pub authorization : Option Text
  pub query_token : Option Text

-- An empty text counts as absent.
abbrev pub truthy_text : Option Text → Option Text
truthy_text none = none
truthy_text (some []) = none
truthy_text (some (c ∷ t)) = some (c ∷ t)

-- `startsWith('Bearer ') ? substring(7) : undefined`
unfoldable pub bearer_token : Option Text → Option Text
bearer_token none = none
bearer_token (some header) =
    if text_eq (take 7 header) (codes "Bearer ") then some (drop 7 header) else none

abbrev or_else : Option Text → Option Text → Option Text
or_else none b = b
or_else (some t) b = some t

-- `auth.token || bearerToken || queryToken`
unfoldable pub token_of : Handshake → Option Text
unfolding bearer_token
token_of h =
    or_else (truthy_text h.auth_token)
      (or_else (truthy_text (bearer_token h.authorization)) (truthy_text h.query_token))

-- `boutique:<id>`: what a client's socket remembers, and the room that it joins.
pub record Client : Type 0 where
  pub sub : ℕ
  pub email : String
  pub room : ℕ

abbrev pub join : JwtPayload → Option User → Option Client
join payload none = none
join payload (some u) =
    if session_ended payload u.password_changed_at
    then none
    else some (record { sub = u.id; email = u.email; room = u.boutique_id })

abbrev pub verified_client : AuthDb → Option JwtPayload → Option Client
verified_client db none = none
verified_client db (some payload) = join payload (find (has_id payload.sub) db.users)

abbrev pub client_of : Libraries → ℕ → AuthDb → Option Text → Option Client
client_of lib at db none = none
client_of lib at db (some token) = verified_client db (lib.jwt_verify at token)

-- `handleConnection`: no client is a disconnection.
unfoldable pub handle_connection : Libraries → ℕ → Handshake → AuthDb → Option Client
unfolding token_of find
handle_connection lib at handshake db = client_of lib at db (token_of handshake)

abbrev pub unverified_route : Route
unverified_route = record { is_public = false; allow_unverified = true }

abbrev pub room_of : Option Client → Option ℕ
room_of none = none
room_of (some c) = some c.room

abbrev pub shop_of : Result (Option AuthUser) → Option ℕ
shop_of (err e) = none
shop_of (ok none) = none
shop_of (ok (some u)) = some u.boutique_id

-- A client joins the room of a shop exactly where the guard, on a route that unverified accounts
-- may open, takes the same token for a user of that shop: in particular no session that a password
-- reset has ended joins a room.
pub handle_connection-can_activate :
    (lib : Libraries) (at : ℕ) (handshake : Handshake) (authorization : Option Text) (db : AuthDb)
    → token_of handshake ≡ bearer authorization
    → room_of (handle_connection lib at handshake db)
      ≡ shop_of (can_activate lib at unverified_route authorization db)
unfolding handle_connection can_activate
handle_connection-can_activate lib at handshake authorization db same =
    rw same (by_token (bearer authorization))
  where
    by_user :
        (payload : JwtPayload) (found : Option User)
        → room_of (join payload found) ≡ shop_of (admit unverified_route payload found)
    by_user payload none = refl
    by_user payload (some u) = elim (Bool-cases (session_ended payload u.password_changed_at)) [
      | inl over ↦ rw (over, join) refl
      | inr live ↦ elim (Bool-cases (is_set u.email_verified_at)) [
        | inl e ↦ rw (live, e, join) refl
        | inr e ↦ rw (live, e, join) refl
      ]
    ]

    by_token :
        (token : Option Text)
        → room_of (client_of lib at db token)
          ≡ shop_of (authenticate lib at unverified_route db token)
    by_token none = refl
    by_token (some token) = elim (Option-cases (lib.jwt_verify at token)) [
      | inl forged ↦ rw (forged, client_of) refl
      | inr (payload, signed) ↦
          rw (signed, client_of) (by_user payload (find (has_id payload.sub) db.users))
    ]
