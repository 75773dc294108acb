-- ===== src/Calls/Policy/Attempts.antt =====
-- Which attempts the policy allows.
use ordely.Common.{
  ℕ, ◌+◌, ◌≤◌, ◌≡◌, ◌↔◌, refl, true, false, none, some, List, [], ◌∷◌, arith, length, length-append,
  ap, ltb, All, ◌<◌, ◌++◌, if◌then◌else◌,
}
use ordely.Calls.Policy.{
  CallAttempt, max_attempts, retry_delay, can_retry, retry_at, latest_from, next_attempt_at,
  next_attempt_number,
}

-- A new attempt is numbered after those made, and is one of the three.
pub next_attempt_number_bounds :
    (calls : List CallAttempt) (now : ℕ) {n : ℕ}
    → next_attempt_number calls now ≡ some n
    → (n ≡ length calls + 1) × (n ≤ max_attempts)
unfolding next_attempt_number
next_attempt_number_bounds calls now h = ground arith

-- An order that may be called now may be called at any later time.
pub next_attempt_number_mono :
    (calls : List CallAttempt) (now later : ℕ) {n : ℕ}
    → now ≤ later
    → next_attempt_number calls now ≡ some n
    → next_attempt_number calls later ≡ some n
unfolding next_attempt_number
next_attempt_number_mono calls now later le h = ground arith

latest_from_first :
    (last : CallAttempt) (calls : List CallAttempt)
    → All (λ c. c.attempt < last.attempt) calls
    → latest_from last calls ≡ last
unfolding latest_from
latest_from_first last [] a = refl
latest_from_first last (c ∷ calls) (l, a) = ground (arith, latest_from_first last calls a)

latest_from_later :
    (current last : CallAttempt) (before after : List CallAttempt)
    → current.attempt < last.attempt
    → All (λ c. c.attempt < last.attempt) before
    → All (λ c. c.attempt < last.attempt) after
    → latest_from current (before ++ last ∷ after) ≡ last
unfolding latest_from
latest_from_later current last [] after h b a = ground (arith, latest_from_first last after a)
latest_from_later current last (c ∷ before) after h (l, b) a =
    latest_from_later (if ltb current.attempt c.attempt then c else current) last before after
      (ground arith) b a

module _ (last : CallAttempt) (before after : List CallAttempt)
    (b : All (λ c. c.attempt < last.attempt) before)
    (a : All (λ c. c.attempt < last.attempt) after) where
  next_attempt_at-latest :
      next_attempt_at (before ++ last ∷ after) ≡ retry_at last (length (before ++ last ∷ after))
  unfolding next_attempt_at
  next_attempt_at-latest = split before b
    where
      split :
          (xs : List CallAttempt)
          → All (λ c. c.attempt < last.attempt) xs
          → next_attempt_at (xs ++ last ∷ after) ≡ retry_at last (length (xs ++ last ∷ after))
      split [] h = ap (λ l. retry_at l (length (last ∷ after))) (latest_from_first last after a)
      split (x ∷ xs) (h, hs) =
          ap (λ l. retry_at l (length (x ∷ xs ++ last ∷ after)))
            (latest_from_later x last xs after h hs a)

  -- Whatever the order of the list, an order whose latest attempt is `last` may be called again
  -- exactly when `last` counts all attempts, is not the final one, ended without an answer or a clear
  -- decision, and ended 30 minutes (the first attempt) or two hours (the second) ago.
  pub next_attempt_number_iff :
      (now : ℕ)
      → (next_attempt_number (before ++ last ∷ after) now ≡ some (last.attempt + 1)) ↔ (
          (last.attempt ≡ length (before ++ last ∷ after))
          × (last.attempt < max_attempts)
          × (can_retry last.disposition ≡ true)
          × ((at : ℕ) × (last.completed_at ≡ some at) × (at + retry_delay last.attempt ≤ now)))
  unfolding next_attempt_number retry_at
  next_attempt_number_iff now =
      ground (arith, next_attempt_at-latest, length-append before (last ∷ after))

  -- An order whose latest attempt is not marked as unanswered, failed or ambiguous is never called
  -- again.
  pub next_attempt_number_of_no_retry :
      (now : ℕ)
      → can_retry last.disposition ≡ false
      → next_attempt_number (before ++ last ∷ after) now ≡ none
  unfolding next_attempt_number retry_at
  next_attempt_number_of_no_retry now h =
      ground (arith, next_attempt_at-latest, length-append before (last ∷ after))
