-- ===== src/Voice/VoiceCallbacks/Retry.antt =====
-- A result without a decision, as `result` of voice-callbacks.service.ts writes it, leaves the
-- order pending but never due for another call.
use ordely.Common.{ℕ, ◌<◌, ◌≡◌, none, List, ◌∷◌, ◌++◌, All}
use ordely.Voice.Rules.{Outcome}
use ordely.Store.{Call, attempt_of}
use ordely.Calls.Policy.{CallAttempt, next_attempt_number}
use ordely.Calls.Policy.Attempts.{next_attempt_number_of_no_retry}
use ordely.Voice.VoiceCallbacks.{VoiceResultDto, write_call_result}

-- A call whose row had no disposition when its result was written, and that is the latest attempt,
-- blocks every later attempt for its order: the policy names no next attempt at any time.
pub write_call_result_blocks_retry :
    (dto : VoiceResultDto) (outcome : Outcome) (seen c : Call) (before after : List CallAttempt)
    (now : ℕ)
    → c.disposition ≡ none
    → All (λ x. x.attempt < c.attempt) before
    → All (λ x. x.attempt < c.attempt) after
    → next_attempt_number (before ++ attempt_of (write_call_result dto outcome seen c) ∷ after) now
      ≡ none
write_call_result_blocks_retry dto outcome seen c before after now d b a =
    next_attempt_number_of_no_retry (attempt_of (write_call_result dto outcome seen c)) before after
      b a now (rw d)
