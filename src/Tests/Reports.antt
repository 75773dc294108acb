-- ===== src/Tests/Reports.antt =====
-- Examples of the theorems on what is reported about a call.
use ordely.Common.{
  ◌≡◌, refl, true, none, some, [], ◌∷◌, arith, ok, count, find, update, if◌then◌else◌, ◌==◌,
  written,
}
use ordely.Common.Text.{codes}
use ordely.Store.{OrderStatus, CallStatus, Call, Db, pending_order, has_status, attempt_of}
use ordely.Voice.Rules.{one, Outcome, decide_outcome, task_id_for}
use ordely.Voice.CallCallback.{
  VoiceCallResult, report_of, apply_result, closing_of, write_result, default_min_confidence,
  settle_outcome, decide_order,
}
use ordely.Voice.CallCallback.Result.{
  HasKeys, verdict, apply_result-keeps_closed, find-apply_result-orders,
  apply_result_confirms_order,
}
use ordely.Voice.CallCallback.Retry.{apply_result_allows_retry}
use ordely.Voice.VoiceCallbacks.{
  VoiceResultDto, VoiceTranscriptDto, SpeakerDto, apply_report, dispatched_call, write_fragment,
  write_call_result, transcript,
}
use ordely.Voice.VoiceCallbacks as Callbacks
use ordely.Voice.VoiceCallbacks.Lifecycle.{
  dispatched_call-task_id_for, apply_report-keeps_closed, find-apply_report-orders, final_status,
}
use ordely.Voice.VoiceCallbacks.Retry.{write_call_result_blocks_retry}
use ordely.Calls.Policy.{next_attempt_number}
use ordely.Tests.{eleven, db_with, order_with, sent, answered, calling}

abbrev yes : VoiceCallResult
yes = record {
  task_id = "task";
  provider_call_id = none;
  disposition = "answered";
  intent = some "CONFIRMED";
  confidence = some default_min_confidence;
  language = some "FRENCH";
  duration_seconds = some 40;
  timestamp = some 9000;
  error = none;
}

abbrev no_reply : VoiceCallResult
no_reply = record yes { disposition = "no_answer"; intent = none; confidence = none }

keys : (status : OrderStatus) (call : Call) → HasKeys (db_with status (call ∷ []))
unfolding count
keys status call = record { calls_key = λ id. ground arith; orders_key = λ id. ground arith }

find-apply_result-orders_example :
    let done = apply_result default_min_confidence eleven yes sent calling in
    find (λ o. o.id == 7) done.1.orders ≡ (
      if done.0.applied
      then written
          (pending_order 7)
          (has_status (verdict (decide_outcome (report_of yes) default_min_confidence) 1))
          (find (λ o. o.id == 7) calling.orders)
      else find (λ o. o.id == 7) calling.orders)
find-apply_result-orders_example =
    find-apply_result-orders default_min_confidence eleven yes sent calling 7

found_order : find (λ x. x.id == 7) calling.orders ≡ some (order_with OrderStatus.pending)
unfolding find
found_order = refl

yes_applied : (apply_result default_min_confidence eleven yes sent calling).0.applied ≡ true
unfolding apply_result count update decide_outcome one settle_outcome decide_order
yes_applied = refl

yes_closes :
    (apply_result default_min_confidence eleven yes sent calling).0.closing.status
    ≡ CallStatus.confirmed
unfolding apply_result count update decide_outcome one settle_outcome decide_order closing_of
yes_closes = refl

apply_result_confirms_order_example :
    (true ≡ true)
    × (find (λ x. x.id == 7) (apply_result default_min_confidence eleven yes sent calling).1.orders
        ≡ some (order_with OrderStatus.confirmed))
apply_result_confirms_order_example =
    apply_result_confirms_order default_min_confidence eleven yes sent calling
      {o = order_with OrderStatus.pending} (keys OrderStatus.pending sent) found_order yes_applied
      yes_closes

abbrev settled : Db
settled = db_with OrderStatus.confirmed (answered ∷ [])

found_answered : find (λ c. c.id == 2) settled.calls ≡ some answered
unfolding find
found_answered = refl

-- The report of a call that was answered before arrives a second time.
apply_result-keeps_closed_example :
    find (λ c. c.id == 2) (apply_result default_min_confidence eleven no_reply sent settled).1.calls
    ≡ some answered
apply_result-keeps_closed_example =
    apply_result-keeps_closed default_min_confidence eleven no_reply sent settled 2 {c = answered}
      (keys OrderStatus.confirmed answered) found_answered refl

unanswered : decide_outcome (report_of no_reply) default_min_confidence ≡ Outcome.no_answer
unfolding decide_outcome one
unanswered = refl

apply_result_allows_retry_example :
    next_attempt_number
      (attempt_of (
          write_result eleven no_reply
            (closing_of (decide_outcome (report_of no_reply) default_min_confidence) no_reply 1)
            sent
            sent)
        ∷ [])
      2000000
    ≡ some 2
apply_result_allows_retry_example =
    apply_result_allows_retry default_min_confidence eleven no_reply sent sent [] [] 2000000
      (λ e. absurd (cc (unanswered))) (λ e. absurd (cc (unanswered))) (λ e. absurd cc) refl
      (omega arith) refl tt tt (omega arith)

abbrev report : VoiceResultDto
report = record {
  task_id = codes "call-2";
  provider_call_id = none;
  disposition = "answered";
  intent = some "CANCELLED";
  confidence = some default_min_confidence;
  language = none;
  duration_seconds = some 40;
}

find-apply_report-orders_example :
    let (t, after) = apply_report default_min_confidence report sent calling in
    find (λ o. o.id == 7) after.orders ≡ (
      if t.applied
      then written
          (pending_order 7)
          (has_status
            (final_status (decide_outcome (Callbacks.report_of report) default_min_confidence) 1))
          (find (λ o. o.id == 7) calling.orders)
      else find (λ o. o.id == 7) calling.orders)
find-apply_report-orders_example =
    find-apply_report-orders default_min_confidence report sent calling 7

apply_report-keeps_closed_example :
    find (λ c. c.id == 2) (apply_report default_min_confidence report sent settled).1.calls
    ≡ some answered
apply_report-keeps_closed_example =
    apply_report-keeps_closed default_min_confidence report sent settled 2 {c = answered}
      found_answered refl

write_call_result_blocks_retry_example :
    next_attempt_number
      (attempt_of (write_call_result report Outcome.unresolved sent sent) ∷ [])
      900000000
    ≡ none
write_call_result_blocks_retry_example =
    write_call_result_blocks_retry report Outcome.unresolved sent sent [] [] 900000000 refl tt tt

found_sent : find (λ c. c.id == 2) calling.calls ≡ some sent
unfolding find
found_sent = refl

found_over : dispatched_call (task_id_for 2) settled ≡ (ok answered, settled)
found_over = dispatched_call-task_id_for 1 settled {c = answered} (omega arith) found_answered refl
