-- ===== src/Common/Effects.antt =====
-- Request handlers: actions on a state that may end in an HTTP exception. What was written before
-- an exception stays written, unless it was written inside a transaction.
use mathlib.Core.Path.{◌≡◌, refl}
use mathlib.Core.Logic.{◌⊎◌, inl, inr}
use mathlib.Core.Bool.{Bool, true, false}
use mathlib.Core.Option.{Option, none, some}

-- The exceptions of `@nestjs/common` that the services throw; `internal` is any other error.
pub data HttpError : Type 0 where
  bad_request unauthorized payment_required forbidden not_found : HttpError
  conflict too_many_requests service_unavailable internal : HttpError

pub data Result {ℓ} (A : Type ℓ) : Type ℓ where
  ok : A → Result A
  err : HttpError → Result A

abbrev pub Exec : Type 0 → Type 0 → Type 0
Exec S A = S → Result A × S

module _ {S A : Type 0} where
  abbrev pub pure : A → Exec S A
  pure a s = (ok a, s)

  abbrev pub throw : HttpError → Exec S A
  throw e s = (err e, s)

  abbrev pub gets : (S → A) → Exec S A
  gets f s = (ok (f s), s)

  -- A value that must be there: `if (!x) throw e`
  abbrev pub require : HttpError → Option A → Exec S A
  require e none s = (err e, s)
  require e (some a) s = (ok a, s)

  -- `const x = await find(...); if (!x) throw e`
  abbrev pub demand : HttpError → (S → Option A) → Exec S A
  demand e f s = require e (f s) s

  -- `$transaction`: an exception undoes what the body wrote.
  abbrev commit : S → Result A × S → Result A × S
  commit before (ok a, s) = (ok a, s)
  commit before (err e, s) = (err e, before)

  abbrev pub transaction : Exec S A → Exec S A
  transaction m s = commit s (m s)

  abbrev pub result : Exec S A → S → Result A
  result m s = (m s).0

  abbrev pub final : Exec S A → S → S
  final m s = (m s).1

module _ {S : Type 0} where
  abbrev pub modify : (S → S) → Exec S (Unit {0})
  modify f s = (ok tt, f s)

  -- `if (b) throw e`
  abbrev pub refuse : Bool → HttpError → Exec S (Unit {0})
  refuse true e s = (err e, s)
  refuse false e s = (ok tt, s)

  -- `if (b) m`
  abbrev pub when : Bool → Exec S (Unit {0}) → Exec S (Unit {0})
  when true m s = m s
  when false m s = (ok tt, s)

module _ {S A B : Type 0} where
  abbrev continue : Result A × S → (A → Exec S B) → Result B × S
  continue (ok a, s) f = f a s
  continue (err e, s) f = (err e, s)

  infixl 10 ◌>>=◌ ◌>>◌
  abbrev pub ◌>>=◌ : Exec S A → (A → Exec S B) → Exec S B
  ◌>>=◌ m f s = continue (m s) f

  abbrev pub ◌>>◌ : Exec S A → Exec S B → Exec S B
  m >> n = m >>= λ _. n

pub Result-cases {ℓ} :
    {A : Type ℓ} (r : Result A) → ((e : HttpError) × (r ≡ err e)) ⊎ ((a : A) × (r ≡ ok a))
Result-cases (ok a) = inr (a, refl)
Result-cases (err e) = inl (e, refl)
