-- ===== src/Voice/CallCallback.antt =====
-- backend/src/voice/callbacks/call-callback.service.ts: what the internal agent runtime reports
-- about a call, by the call's task id. `now` is what `new Date()` returns; a timestamp is the
-- instant that the reported text denotes.
pub mod Result
pub mod Retry
pub mod Pending
pub mod Evolution
use ordely.Common.{
  ℕ, ◌*◌, ◌^◌, ok, String, Bool, true, false, not, ◌&&◌, Option, none, some, if◌then◌else◌, leb,
  ◌==◌, str_eq, holds, truthy, is_set, ◌orelse◌, ◌ormaybe◌, find, update, count, Exec, ◌>>=◌,
  require, not_found, pure,
}
use ordely.Common.Int.{ℤ, leb_ℤ, pos}
use ordely.Voice.Rules.{Number, one, Report, Outcome, decide_outcome}
use ordely.Store.{
  CallStatus, OrderStatus, Call, Db, call_pending, pending_call, pending_order, settle_order,
  update_call,
}
use ordely.Calls.Policy.{max_attempts}

pub record VoiceCallEvent : Type 0 where
  pub task_id : String
  pub phase : String
  pub provider_call_id : Option String
  pub timestamp : Option ℕ
  pub message : Option String

pub record VoiceCallResult : Type 0 where
  pub task_id : String
  pub provider_call_id : Option String
  pub disposition : String
  pub intent : Option String
  pub confidence : Option Number
  pub language : Option String
  pub duration_seconds : Option ℕ
  pub timestamp : Option ℕ
  pub error : Option String

abbrev pub report_of : VoiceCallResult → Report
report_of r = record { disposition = r.disposition; intent = r.intent; confidence = r.confidence }

-- The double nearest to 0.7.
abbrev pub default_min_confidence : Number
default_min_confidence = pos (6305039478318694 * 2 ^ 1021)

-- `VOICE_MIN_CONFIDENCE`, if it is a finite number in (0, 1].
unfoldable pub min_confidence : Option Number → Number
unfolding one
min_confidence none = default_min_confidence
min_confidence (some value) =
    if not (leb_ℤ value (pos 0)) && leb_ℤ value one then value else default_min_confidence

-- LANGUAGE_LABELS, and what a write leaves in the column: a code that is no key gives `undefined`,
-- which leaves the column as it is.
abbrev pub language_label : String → Option String
language_label code =
    if str_eq code "FRENCH"
    then some "French"
    else if str_eq code "ENGLISH"
    then some "English"
    else if str_eq code "TUNISIAN_ARABIC"
    then some "Darija"
    else if str_eq code "MIXED"
    then some "Mixed"
    else none

abbrev written_label : Option String → Option String → Option String
written_label none column = some "Darija"
written_label (some code) column = language_label code ormaybe column

abbrev pub write_language : Option String → Option String → Option String
write_language language column = written_label (truthy language) column

-- `...(id && !call.providerCallId ? { providerCallId: id } : {})`; `seen` is the row read before.
abbrev given_id : Option String → Option String → Option String → Option String
given_id (some id) none column = some id
given_id _ _ column = column

abbrev pub write_provider_id : Option String → Option String → Option String → Option String
write_provider_id id seen column = given_id (truthy id) (truthy seen) column

abbrev pub by_task : String → Call → Bool
by_task task_id c = holds c.task_id task_id

abbrev pub completed_by_event : Option ℕ → VoiceCallEvent → ℕ → Option ℕ → Option ℕ
completed_by_event seen event now column =
    if str_eq event.phase "ended" && not (is_set seen)
    then some (event.timestamp orelse now)
    else column

abbrev pub failure_by_event : VoiceCallEvent → Option String → Option String
failure_by_event event column =
    if str_eq event.phase "error" then truthy event.message ormaybe column else column

abbrev write_event : ℕ → VoiceCallEvent → Call → Call → Call
write_event now event seen c = record c {
  transport_phase = some event.phase;
  provider_call_id =
      write_provider_id event.provider_call_id seen.provider_call_id c.provider_call_id;
  completed_at = completed_by_event seen.completed_at event now c.completed_at;
  failure_reason = failure_by_event event c.failure_reason;
}

unfoldable pub handle_event : ℕ → VoiceCallEvent → Exec Db Call
unfolding find update_call
handle_event now event = do
  call ← λ db. require not_found (find (by_task event.task_id) db.calls) db
  update_call call.id (write_event now event call)

-- How the call is closed: `status`, `disposition`, `failureReason`.
pub record Closing : Type 0 where
  pub status : CallStatus
  pub disposition : String
  pub failure_reason : Option String

abbrev without_decision : Outcome → VoiceCallResult → Closing
without_decision Outcome.no_answer result = record {
  status = if str_eq result.disposition "error" then CallStatus.failed else CallStatus.no_answer;
  disposition = result.disposition;
  failure_reason = some (truthy result.error orelse "No answer from customer");
}
without_decision _ result = record {
  status = CallStatus.failed;
  disposition = "ambiguous";
  failure_reason = some "Customer intent unclear; another call will be attempted";
}

abbrev needs_human : Closing
needs_human = record {
  status = CallStatus.failed;
  disposition = "needs_human";
  failure_reason =
      some
        "Customer could not be reached or did not provide a clear decision after the final call attempt";
}

unfoldable pub closing_of : Outcome → VoiceCallResult → ℕ → Closing
closing_of Outcome.confirmed result attempt = record {
  status = CallStatus.confirmed;
  disposition = "confirmed";
  failure_reason = none;
}
closing_of Outcome.cancelled result attempt = record {
  status = CallStatus.failed;
  disposition = "declined";
  failure_reason = some "Customer declined the order";
}
closing_of outcome result attempt =
    if leb max_attempts attempt then needs_human else without_decision outcome result

abbrev pub policy_blocked : Closing
policy_blocked = record {
  status = CallStatus.failed;
  disposition = "policy_blocked";
  failure_reason = some "Order is no longer pending; Maria's decision was not applied";
}

abbrev pub write_closing : Closing → Call → Call
write_closing closing c = record c {
  status = closing.status;
  disposition = some closing.disposition;
  failure_reason = closing.failure_reason;
}

abbrev pub write_result : ℕ → VoiceCallResult → Closing → Call → Call → Call
write_result now result closing seen c = record c {
  status = closing.status;
  disposition = some closing.disposition;
  failure_reason = closing.failure_reason;
  duration_seconds = result.duration_seconds ormaybe seen.duration_seconds;
  language = write_language result.language c.language;
  completed_at = some (result.timestamp orelse now);
  provider_call_id =
      write_provider_id result.provider_call_id seen.provider_call_id c.provider_call_id;
}

pub record Reply : Type 0 where
  pub closing : Closing
  pub applied : Bool

-- What the order becomes when the customer decided; the call is blocked when the order is settled.
unfoldable pub decide_order : OrderStatus → Call → Closing → Db → Reply × Db
unfolding count update settle_order
decide_order status call closing db =
    if count (pending_order call.order_id) db.orders == 0
    then (
      record { closing = policy_blocked; applied = true },
      record db { calls = update (λ c. c.id == call.id) (write_closing policy_blocked) db.calls },
    )
    else (record { closing = closing; applied = true }, settle_order call.order_id status db)

unfoldable pub settle_outcome : Outcome → Call → Closing → Db → Reply × Db
unfolding decide_order settle_order
settle_outcome Outcome.confirmed call closing db =
    decide_order OrderStatus.confirmed call closing db
settle_outcome Outcome.cancelled call closing db =
    decide_order OrderStatus.cancelled call closing db
settle_outcome _ call closing db = (
  record { closing = closing; applied = true },
  if leb max_attempts call.attempt
      then settle_order call.order_id OrderStatus.unreachable db
      else db,
)

-- The transaction of `handleResult`; `call` is the row as it was read before.
unfoldable pub apply_result : Number → ℕ → VoiceCallResult → Call → Db → Reply × Db
unfolding closing_of settle_outcome
apply_result min now result call db =
    let outcome = decide_outcome (report_of result) min in
    let closing = closing_of outcome result call.attempt in
    if count (pending_call call.id) db.calls == 0
    then (record { closing = closing; applied = false }, db)
    else settle_outcome outcome call closing (record db {
      calls = update (pending_call call.id) (write_result now result closing call) db.calls;
    })

abbrev as_exec : (Db → Reply × Db) → Exec Db Reply
as_exec f db = (ok (f db).0, (f db).1)

unfoldable pub handle_result : Number → ℕ → VoiceCallResult → Exec Db Reply
unfolding apply_result find
handle_result min now result = do
  call ← λ db. require not_found (find (by_task result.task_id) db.calls) db
  as_exec (apply_result min now result call)
