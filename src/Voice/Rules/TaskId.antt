-- ===== src/Voice/Rules/TaskId.antt =====
-- Task ids of voice.rules.ts: `callIdFrom` reads back what `taskIdFor` writes.
use ordely.Common.{
  ℕ, zero, suc, ◌+◌, ◌*◌, ◌/◌, ◌%◌, ◌^◌, ◌<◌, ◌≤◌, ◌≡◌, refl, true, some, [], ◌∷◌, ◌++◌, arith, ltb,
  length, all, length-append, Bool-cases, ◌∙◌, ◌-◌, ◌&&◌, Bool, inl, inr, le→leb,
}
use native.Mathlib.Nat.{pow-suc}
use ordely.Common.Text.{Text}
use ordely.Voice.Rules.{is_digit, decimal_from, decimal, digits_value, task_id_for, call_id_from}

digits_value-append :
    (v : ℕ) (s t : Text) → digits_value v (s ++ t) ≡ digits_value (digits_value v s) t
unfolding digits_value
digits_value-append v [] t = refl
digits_value-append v (c ∷ s) t = digits_value-append (v * 10 + (c - b'0')) s t

digits_value-snoc :
    (t : Text) (c : ℕ) → digits_value 0 (t ++ c ∷ []) ≡ digits_value 0 t * 10 + (c - b'0')
digits_value-snoc t c = digits_value-append 0 t (c ∷ []) ∙ (unfold digits_value in refl)

-- The digits of a number, read back, are the number.
pub digits_value-decimal_from : (fuel n : ℕ) → n < fuel → digits_value 0 (decimal_from fuel n) ≡ n
unfolding decimal_from
digits_value-decimal_from zero n h = elim h [ ]
digits_value-decimal_from (suc fuel) n h = elim (Bool-cases (ltb n 10)) [
  | inl small ↦ rw small (unfold digits_value in omega arith)
  | inr large ↦ rw large (
      digits_value-snoc (decimal_from fuel (n / 10)) (b'0' + n % 10)
      ∙ rw (digits_value-decimal_from fuel (n / 10) (ground arith)) (omega arith))
]

all-append : (p : ℕ → Bool) (s t : Text) → all p (s ++ t) ≡ (all p s && all p t)
all-append p [] t = refl
all-append p (c ∷ s) t = ground (arith, all-append p s t)

all-is_digit-decimal_from : (fuel n : ℕ) → all is_digit (decimal_from fuel n) ≡ true
unfolding decimal_from
all-is_digit-decimal_from zero n = refl
all-is_digit-decimal_from (suc fuel) n = elim (Bool-cases (ltb n 10)) [
  | inl small ↦ rw small (ground arith)
  | inr large ↦ rw (large, all-append, all-is_digit-decimal_from fuel (n / 10)) (ground arith)
]

-- Dividing by ten takes one digit off.
div-ten-lt : (k n : ℕ) → n < 10 ^ suc (suc k) → n / 10 < 10 ^ suc k
div-ten-lt k n h = let e : n < 10 ^ suc k * 10 = rw pow-suc at h in omega arith

length-decimal_from :
    (k fuel n : ℕ)
    → n < 10 ^ suc k
    → n < fuel
    → (1 ≤ length (decimal_from fuel n)) × (length (decimal_from fuel n) ≤ suc k)
unfolding decimal_from
length-decimal_from k zero n h f = elim f [ ]
length-decimal_from zero (suc fuel) n h f = ground arith
length-decimal_from (suc k) (suc fuel) n h f = elim (Bool-cases (ltb n 10)) [
  | inl small ↦ rw small (omega arith)
  | inr large ↦
      rw (large, length-append)
        (omega (arith, length-decimal_from k fuel (n / 10) (div-ten-lt k n h) (ground arith)))
]

-- A call's id of at most ten digits comes back from the task id that carries it.
pub call_id_from-task_id_for :
    (call_id : ℕ) → call_id < 10 ^ 10 → call_id_from (task_id_for call_id) ≡ some call_id
unfolding call_id_from task_id_for decimal
call_id_from-task_id_for n h =
    let (some_digit, few) = length-decimal_from 9 (suc n) n h (omega arith) in
    rw (
      all-is_digit-decimal_from (suc n) n,
      le→leb _ _ some_digit,
      le→leb _ _ few,
      digits_value-decimal_from (suc n) n (omega arith),
    )
