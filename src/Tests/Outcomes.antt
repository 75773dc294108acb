-- ===== src/Tests/Outcomes.antt =====
-- Examples of the theorems on the rules of a call and on the policy of its attempts.
use mathlib.Core.List.{Permᴰ}
use ordely.Common.{ℕ, ◌≡◌, refl, some, [], ◌∷◌, arith}
use ordely.Common.Text.{codes}
use ordely.Voice.Rules.{
  Report, Outcome, Speaker, TranscriptPart, one, decide_outcome, merge_transcript, call_id_from,
  task_id_for, within_call_hours,
}
use ordely.Voice.Rules.Decision.{decide_outcome-eq-confirmed_iff, unanswered_iff}
use ordely.Voice.Rules.Transcript.{merge_transcript-perm}
use ordely.Voice.Rules.TaskId.{call_id_from-task_id_for}
use ordely.Voice.CallCallback.{default_min_confidence}
use ordely.Calls.Policy.{CallAttempt, next_attempt_number, is_within_call_window, parse_clock}
use ordely.Calls.Policy.Attempts.{next_attempt_number_iff}
use ordely.Calls.Policy.Window.{within_call_hours-eq-is_within_call_window}
use ordely.Tests.{tunis, eleven}

abbrev says_yes : Report
says_yes = record {
  disposition = "answered";
  intent = some "CONFIRMED";
  confidence = some default_min_confidence;
}

decide_outcome-eq-confirmed_iff_example :
    decide_outcome says_yes default_min_confidence ≡ Outcome.confirmed
unfolding one
decide_outcome-eq-confirmed_iff_example =
    (decide_outcome-eq-confirmed_iff says_yes default_min_confidence).1 (
      (unanswered_iff "answered").0 refl,
      refl,
      (default_min_confidence, refl, omega arith, omega arith),
    )

abbrev hello : TranscriptPart
hello = record { seq = 1; speaker = Speaker.agent; text = codes "hello " }

abbrev yes : TranscriptPart
yes = record { seq = 2; speaker = Speaker.customer; text = codes "yes" }

merge_transcript-perm_example :
    merge_transcript (hello ∷ yes ∷ []) ≡ merge_transcript (yes ∷ hello ∷ [])
merge_transcript-perm_example =
    merge_transcript-perm (Permᴰ.swap refl refl) ((omega arith, tt), (tt, tt))

call_id_from-task_id_for_example : call_id_from (task_id_for 42) ≡ some 42
call_id_from-task_id_for_example = call_id_from-task_id_for 42 (omega arith)

abbrev no_answer_at : ℕ → ℕ → CallAttempt
no_answer_at attempt at = record {
  attempt = attempt;
  disposition = some "no_answer";
  completed_at = some at;
}

next_attempt_number_iff_example :
    next_attempt_number (no_answer_at 2 5000 ∷ no_answer_at 1 1000 ∷ []) 8000000 ≡ some 3
next_attempt_number_iff_example =
    (next_attempt_number_iff (no_answer_at 2 5000) [] (no_answer_at 1 1000 ∷ []) tt
        (omega arith, tt) 8000000).1
      (refl, omega arith, refl, (5000, refl, omega arith))

within_call_hours-eq-is_within_call_window_example :
    within_call_hours (some (codes "09:00")) (some (codes "18:00")) eleven
    ≡ is_within_call_window tunis (some (codes "09:00")) (some (codes "18:00")) eleven
within_call_hours-eq-is_within_call_window_example =
    within_call_hours-eq-is_within_call_window tunis (codes "09:00") (codes "18:00") eleven
      {s = 540} {e = 1080} (λ now. refl) (unfold parse_clock in refl) (unfold parse_clock in refl)
      (omega arith)
