-- ===== src/Voice/Guards.antt =====
-- backend/src/voice/voice-callback.guard.ts, backend/src/voice/callbacks/call-callback.guard.ts and
-- backend/src/admin/admin.guard.ts: who may post the results of calls, and who opens the back office.
use ordely.Common.{
  ℕ, ◌≡◌, refl, ap, ◌↔◌, ◌≤◌, Bool, true, Option, none, some, [], ◌∷◌, arith, if◌then◌else◌, ltb,
  ◌orelse◌, length, take, drop, Result, ok, err, unauthorized, forbidden, service_unavailable,
  Bool-cases, Option-cases, inl, inr,
}
use ordely.Common.Text.{Text, codes, text_eq, text_eq-eq}
use ordely.Voice.Rules.{trim}
use ordely.Auth.Guard.{AuthUser, bearer}

abbrev pub min_secret_length : ℕ
min_secret_length = 16

abbrev pub admits_token : (Text → Text) → Text → Option Text → Result Bool
admits_token sha256 secret none = err unauthorized
admits_token sha256 secret (some token) =
    if text_eq (sha256 token) (sha256 secret) then ok true else err unauthorized

-- `VoiceCallbackGuard.canActivate`: the header is split as in AuthGuard.
unfoldable pub voice_callback_guard : (Text → Text) → Option Text → Option Text → Result Bool
unfolding bearer
voice_callback_guard sha256 configured authorization =
    let secret = configured orelse [] in
    if ltb (length secret) min_secret_length
    then err service_unavailable
    else admits_token sha256 secret (bearer authorization)

abbrev pub call_token : Text → Option Text
call_token header =
    if text_eq (take 7 header) (codes "Bearer ") then some (trim (drop 7 header)) else none

abbrev pub matches_secret : Text → Option Text → Result Bool
matches_secret secret none = err unauthorized
matches_secret secret (some token) = if text_eq token secret then ok true else err unauthorized

-- `CallCallbackGuard.canActivate`
unfoldable pub call_callback_guard : Option Text → Option Text → Result Bool
unfolding trim
call_callback_guard configured none = err unauthorized
call_callback_guard configured (some header) =
    matches_secret (configured orelse codes "dev-test-token") (call_token header)

-- `AdminGuard.canActivate`, after the global guard.
abbrev pub admin_guard : Option AuthUser → Result Bool
admin_guard none = err forbidden
admin_guard (some user) = if user.is_platform_admin then ok true else err forbidden

text_eq_refl : (t : Text) → text_eq t t ≡ true
text_eq_refl [] = refl
text_eq_refl (c ∷ t) = ground (arith, text_eq_refl t)

-- A callback of the agent is let in exactly where a secret of at least 16 characters is configured
-- and the request carries it as its bearer token; digests of other tokens differ from its own.
pub voice_callback_guard_iff :
    (sha256 : Text → Text) (secret : Text) (authorization : Option Text)
    → ((token : Text) → sha256 token ≡ sha256 secret → token ≡ secret)
    → (voice_callback_guard sha256 (some secret) authorization ≡ ok true)
      ↔ ((16 ≤ length secret) × (bearer authorization ≡ some secret))
unfolding voice_callback_guard
voice_callback_guard_iff sha256 secret authorization collision_free =
    elim (Bool-cases (ltb (length secret) min_secret_length)) [
      | inl short ↦ rw short (ground arith)
      | inr long ↦ elim (Option-cases (bearer authorization)) [
        | inl nothing ↦ rw (long, nothing) (ground arith)
        | inr (token, carried) ↦ elim (Bool-cases (text_eq (sha256 token) (sha256 secret))) [
          | inl e ↦
              let same : token ≡ secret =
                collision_free token (text_eq-eq (sha256 token) (sha256 secret) e) in
              rw (long, carried, e) ((λ h. (ground arith, ap some same)), λ h. refl)
          | inr e ↦
              rw (long, carried, e)
                (
                  (λ h. absurd (ground arith)),
                  λ h. absurd (ground (arith, text_eq_refl (sha256 secret))),
                )
        ]
      ]
    ]
