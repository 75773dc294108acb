-- ===== src/Voice/VoiceCallbacks.antt =====
-- backend/src/voice/voice-callbacks.service.ts: what the Ringio agent reports about a call that
-- Ordely dispatched, by the task id "call-<id>".
pub mod Lifecycle
pub mod Retry
pub mod Pending
pub mod Evolution
use ordely.Common.{
  ℕ, zero, suc, ◌*◌, ◌%◌, String, Bool, true, false, not, ◌&&◌, ◌||◌, Option, none, some, List, [],
  ◌∷◌, ◌++◌, map, if◌then◌else◌, leb, ltb, ◌==◌, find, update, count, Exec, Result, ok, err, ◌>>=◌,
  ◌>>◌, require, refuse, modify, pure, not_found, conflict, bad_request, truthy, is_set, take, drop,
  length,
}
use ordely.Common.Text.{Text, codes, text_eq}
use ordely.Voice.Rules.{
  Number, Report, Outcome, Speaker, TranscriptPart, decide_outcome, call_id_from, merge_transcript,
  decimal,
}
use ordely.Voice.CallCallback.{write_language, write_provider_id}
use ordely.Calls.Policy.{max_attempts}
use ordely.Store.{
  CallStatus, OrderStatus, OrderNews, has, Event, call_status_changed, order_status_changed, Call,
  RecordingKeys, Db, call_pending, pending_call, pending_order, settle_order, emit, order_of,
  update_call,
}

-- The speaker that the agent names: Ringio's "mobile" is the customer.
pub data SpeakerDto : Type 0 where
  agent customer mobile : SpeakerDto

abbrev pub speaker_of : SpeakerDto → Speaker
speaker_of SpeakerDto.agent = Speaker.agent
speaker_of _ = Speaker.customer

pub record VoiceEventDto : Type 0 where
  pub task_id : Text
  pub phase : String
  pub provider_call_id : Option String

pub record VoiceTranscriptDto : Type 0 where
  pub task_id : Text
  pub sequence : ℕ
  pub speaker : SpeakerDto
  pub text : Text

pub record VoiceResultDto : Type 0 where
  pub task_id : Text
  pub provider_call_id : Option String
  pub disposition : String
  pub intent : Option String
  pub confidence : Option Number
  pub language : Option String
  pub duration_seconds : Option ℕ

pub record UploadedFile : Type 0 where
  pub buffer : List ℕ
  pub size : ℕ

abbrev pub call_status : Outcome → CallStatus
call_status Outcome.confirmed = CallStatus.confirmed
call_status Outcome.cancelled = CallStatus.failed
call_status Outcome.no_answer = CallStatus.no_answer
call_status Outcome.unresolved = CallStatus.no_answer

-- `id ? findUnique : null`, then `!call || !call.dispatchedAt`; the id 0 is false.
abbrev if_dispatched : Option Call → Option Call
if_dispatched none = none
if_dispatched (some c) = if is_set c.dispatched_at then some c else none

abbrev call_with_id : Option ℕ → Db → Option Call
call_with_id none db = none
call_with_id (some zero) db = none
call_with_id (some (suc n)) db = find (λ c. c.id == suc n) db.calls

unfoldable pub dispatched_call : Text → Exec Db Call
unfolding call_id_from find
dispatched_call task_id db =
    require not_found (if_dispatched (call_with_id (call_id_from task_id) db)) db

-- The shop of a call, through its order; every call has one by the foreign key.
abbrev shop_of : Call → Db → ℕ
shop_of call db = elim (order_of call.order_id db) [ none ↦ 0 | some o ↦ o.boutique_id ]

abbrev keep_provider_id : Option String → Call → Db → Db
keep_provider_id (some p) call db = record db {
  calls = update (λ c. c.id == call.id) (λ c. record c { provider_call_id = some p }) db.calls;
}
keep_provider_id none call db = db

abbrev report_phase : VoiceEventDto → Call → Db → Db
report_phase dto call db =
    emit (call_status_changed (shop_of call db) call.id call.order_id call.status (some dto.phase))
      (if is_set (truthy call.provider_call_id)
        then db
        else keep_provider_id (truthy dto.provider_call_id) call db)

unfoldable pub event : VoiceEventDto → Exec Db (Unit {0})
unfolding update emit order_of
event dto = do call ← dispatched_call dto.task_id; modify (report_phase dto call)

-- The fragment is appended to what the row holds when it is locked.
abbrev pub write_fragment : VoiceTranscriptDto → Call → Call
write_fragment dto c =
    let parts =
      c.transcript_parts
      ++ record { seq = dto.sequence; speaker = speaker_of dto.speaker; text = dto.text } ∷ [] in
    record c { transcript_parts = parts; transcript = merge_transcript parts }

unfoldable pub append_fragment : VoiceTranscriptDto → Call → Exec Db (Unit {0})
unfolding update_call merge_transcript
append_fragment dto call = do update_call call.id (write_fragment dto); pure tt

unfoldable pub transcript : VoiceTranscriptDto → Exec Db (Unit {0})
transcript dto = do
  call ← dispatched_call dto.task_id
  refuse (not (call_pending call.status)) conflict
  append_fragment dto call

abbrev pub recording_max_bytes : ℕ
recording_max_bytes = 25 * 1024 * 1024

-- `buffer.toString('ascii', from, to) === word`: the decoder clears each byte's highest bit.
abbrev pub ascii_is : ℕ → ℕ → Text → List ℕ → Bool
ascii_is from n word buffer = text_eq (map (λ b. b % 128) (take n (drop from buffer))) word

unfoldable pub is_wav : List ℕ → Bool
is_wav buffer =
    leb 44 (length buffer)
    && ascii_is 0 4 (codes "RIFF") buffer
    && ascii_is 8 4 (codes "WAVE") buffer

abbrev speaker_name : Speaker → Text
speaker_name Speaker.agent = codes "agent"
speaker_name Speaker.customer = codes "customer"

unfoldable pub recording_key : ℕ → Speaker → Text
unfolding decimal
recording_key call_id speaker =
    codes "recordings/call-" ++ decimal call_id ++ codes "/" ++ speaker_name speaker ++ codes ".wav"

abbrev pub set_key : Speaker → Text → RecordingKeys → RecordingKeys
set_key Speaker.agent key keys = record keys { agent = some key }
set_key Speaker.customer key keys = record keys { customer = some key }

abbrev has_bytes : Option UploadedFile → Option UploadedFile
has_bytes none = none
has_bytes (some f) = if length f.buffer == 0 then none else some f

-- `put` is the object storage: what `storage.put` answers for a key and a content.
unfoldable pub recording :
    (Text → List ℕ → Result (Unit {0}))
    → Text
    → SpeakerDto
    → Option UploadedFile
    → Exec Db (Unit {0})
unfolding is_wav recording_key update_call
recording put task_id dto_speaker upload = do
  call ← dispatched_call task_id
  file ← require bad_request (has_bytes upload)
  refuse (ltb recording_max_bytes file.size) bad_request
  refuse (not (is_wav file.buffer)) bad_request
  let key = recording_key call.id (speaker_of dto_speaker)
  λ db. (put key file.buffer, db)
  update_call call.id
      (λ c. record c { recording_keys = set_key (speaker_of dto_speaker) key c.recording_keys })
  pure tt

pub record Transition : Type 0 where
  pub outcome : Outcome
  pub applied : Bool
  pub order_status : Option OrderStatus

abbrev pub write_call_result : VoiceResultDto → Outcome → Call → Call → Call
write_call_result dto outcome seen c = record c {
  status = call_status outcome;
  duration_seconds = dto.duration_seconds;
  language = write_language dto.language c.language;
  provider_call_id =
      write_provider_id dto.provider_call_id seen.provider_call_id c.provider_call_id;
}

-- The order's new status, if the call decides it.
unfoldable pub order_verdict : Outcome → ℕ → Option OrderStatus
order_verdict Outcome.confirmed attempt = some OrderStatus.confirmed
order_verdict Outcome.cancelled attempt = some OrderStatus.cancelled
order_verdict _ attempt = if leb max_attempts attempt then some OrderStatus.unreachable else none

abbrev pub move_order : Outcome → ℕ → Option OrderStatus → Db → Transition × Db
move_order outcome order_id none db =
    (record { outcome = outcome; applied = true; order_status = none }, db)
move_order outcome order_id (some s) db = (
  record {
    outcome = outcome;
    applied = true;
    order_status = if count (pending_order order_id) db.orders == 0 then none else some s;
  },
  settle_order order_id s db,
)

abbrev pub report_of : VoiceResultDto → Report
report_of dto = record {
  disposition = dto.disposition;
  intent = dto.intent;
  confidence = dto.confidence;
}

-- The transaction of `result`; `call` is the row as it was read before.
unfoldable pub apply_report : Number → VoiceResultDto → Call → Db → Transition × Db
unfolding count update settle_order order_verdict
apply_report min dto call db =
    let outcome = decide_outcome (report_of dto) min in
    if count (pending_call call.id) db.calls == 0
    then (record { outcome = outcome; applied = false; order_status = none }, db)
    else move_order outcome call.order_id (order_verdict outcome call.attempt) (record db {
      calls = update (pending_call call.id) (write_call_result dto outcome call) db.calls;
    })

abbrev announce_order : ℕ → Call → Option OrderStatus → Db → Db
announce_order boutique_id call none db = db
announce_order boutique_id call (some s) db =
    emit (order_status_changed boutique_id call.order_id (has s)) db

abbrev announce : ℕ → Call → Transition → Db → Db
announce boutique_id call t db =
    if t.applied
    then announce_order boutique_id call t.order_status (
        emit (call_status_changed boutique_id call.id call.order_id (call_status t.outcome) none)
          db)
    else db

unfoldable pub result : Number → VoiceResultDto → Exec Db Transition
unfolding apply_report emit order_of
result min dto = do
  call ← dispatched_call dto.task_id
  boutique_id ← λ db. (ok (shop_of call db), db)
  transition ← λ db. (ok (apply_report min dto call db).0, (apply_report min dto call db).1)
  modify (announce boutique_id call transition)
  pure transition
