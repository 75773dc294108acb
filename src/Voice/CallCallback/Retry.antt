-- ===== src/Voice/CallCallback/Retry.antt =====
-- A report without a decision, as `handleResult` writes it, leaves the order due for another call.
use ordely.Common.{
  ℕ, String, false, leb, ◌+◌, ◌<◌, ◌≤◌, ◌≡◌, ◌≢◌, refl, true, some, List, ◌∷◌, ◌++◌, arith, length,
  All, eq_iff, ◌orelse◌,
}
use ordely.Voice.Rules.{Number, Outcome, decide_outcome, no_answer}
use ordely.Voice.Rules.Decision.{is_unanswered, decide_outcome-eq-no_answer_iff}
use ordely.Store.{Call, attempt_of}
use ordely.Calls.Policy.{CallAttempt, max_attempts, can_retry, retry_delay, next_attempt_number}
use ordely.Calls.Policy.Attempts.{next_attempt_number_iff}
use ordely.Voice.CallCallback.{VoiceCallResult, report_of, closing_of, write_result}

closing_of-can_retry :
    (outcome : Outcome) (result : VoiceCallResult) (attempt : ℕ)
    → outcome ≢ Outcome.confirmed
    → outcome ≢ Outcome.cancelled
    → (outcome ≡ no_answer → can_retry (some result.disposition) ≡ true)
    → attempt < max_attempts
    → can_retry (some (closing_of outcome result attempt).disposition) ≡ true
unfolding closing_of
closing_of-can_retry Outcome.confirmed result attempt c d n h = absurd (c refl)
closing_of-can_retry Outcome.cancelled result attempt c d n h = absurd (d refl)
closing_of-can_retry Outcome.no_answer result attempt c d n h =
    let early : leb max_attempts attempt ≡ false = ground arith in rw early (n refl)
closing_of-can_retry _ result attempt c d n h =
    let early : leb max_attempts attempt ≡ false = ground arith in rw early refl

unanswered-can_retry :
    (d : String) → d ≢ "rejected" → is_unanswered d ≡ true → can_retry (some d) ≡ true
unanswered-can_retry d n h = ground (arith, eq_iff d "rejected")

-- After a call that is not the last attempt and that ended without a decision (and was not reported
-- as rejected), the order may be called again once the delay has passed since the reported end,
-- whatever the other attempts are, as long as the call is the latest of all that were made.
pub apply_result_allows_retry :
    (min : Number) (now : ℕ) (result : VoiceCallResult) (call c : Call)
    (before after : List CallAttempt) (later : ℕ)
    → let outcome = decide_outcome (report_of result) min in
      let closed = write_result now result (closing_of outcome result call.attempt) call c in
      outcome ≢ Outcome.confirmed
      → outcome ≢ Outcome.cancelled
      → result.disposition ≢ "rejected"
      → call.attempt ≡ c.attempt
      → c.attempt < max_attempts
      → c.attempt ≡ length (before ++ attempt_of closed ∷ after)
      → All (λ x. x.attempt < c.attempt) before
      → All (λ x. x.attempt < c.attempt) after
      → (result.timestamp orelse now) + retry_delay c.attempt ≤ later
      → next_attempt_number (before ++ attempt_of closed ∷ after) later ≡ some (c.attempt + 1)
apply_result_allows_retry min now result call c before after later nc nd nr same early len b a due =
    let outcome = decide_outcome (report_of result) min in
    let closed = write_result now result (closing_of outcome result call.attempt) call c in
    let retry =
      closing_of-can_retry outcome result call.attempt nc nd
        (λ e.
          unanswered-can_retry result.disposition nr
            ((decide_outcome-eq-no_answer_iff (report_of result) min).0 e))
        (omega arith) in
    (next_attempt_number_iff (attempt_of closed) before after b a later).1
      (len, early, retry, (result.timestamp orelse now, refl, due))
