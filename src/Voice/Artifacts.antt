-- ===== src/Voice/Artifacts.antt =====
-- backend/src/voice/artifacts/call-artifact.service.ts: the recordings and the transcript entries of
-- a call. The object storage is a list of keys; whether it accepts a file is a parameter.
pub mod Transcripts
use ordely.Common.{
  ℕ, ◌+◌, String, Bool, true, false, not, ◌&&◌, Option, none, some, List, [], ◌∷◌, ◌++◌, map,
  if◌then◌else◌, ◌==◌, leb, ◌orelse◌, ◌ormaybe◌, any, str_eq, Exec, refuse, gets, modify, pure,
  demand, ◌>>=◌, ◌>>◌, not_found, internal, find, select, update, count, truthy, length,
}
use ordely.Common.Text.{Text, codes, text_eq}
use ordely.Store.{Call, Db, order_of}
use ordely.Voice.Rules.{Speaker, Line, trim, decimal}
use ordely.Calls.Dispatcher.{callable}

pub record Entry : Type 0 where
  pub call_id : ℕ
  pub sequence : ℕ
  pub speaker : Speaker
  pub text : Text
  pub timestamp : ℕ

pub record Recording : Type 0 where
  pub call_id : ℕ
  pub speaker : String
  pub object_key : Text
  pub size_bytes : Option ℕ
  pub duration_ms : Option ℕ

pub record ArtifactDb : Type 0 where
  pub db : Db
  pub entries : List Entry
  pub recordings : List Recording
  pub objects : List Text

abbrev pub has_task : Text → Call → Bool
has_task task_id c = elim c.task_id [ none ↦ false | some t ↦ text_eq (codes t) task_id ]

abbrev pub of_call : ℕ → Entry → Bool
of_call call_id e = e.call_id == call_id

-- The unique key `[callId, sequence]`.
abbrev pub has_key : ℕ → ℕ → Entry → Bool
has_key call_id sequence e = e.call_id == call_id && e.sequence == sequence

-- `upsert` by the unique key: the columns of the entry are written either way.
unfoldable pub upsert_entry : Entry → List Entry → List Entry
unfolding count update
upsert_entry e entries =
    if count (has_key e.call_id e.sequence) entries == 0
    then entries ++ e ∷ []
    else update (has_key e.call_id e.sequence)
        (λ old. record old { speaker = e.speaker; text = e.text; timestamp = e.timestamp }) entries

-- `orderBy: { sequence: 'asc' }`
unfoldable pub insert_entry : Entry → List Entry → List Entry
insert_entry e [] = e ∷ []
insert_entry e (f ∷ entries) =
    let rest = insert_entry e entries in
    if leb e.sequence f.sequence then e ∷ f ∷ entries else f ∷ rest

unfoldable pub by_sequence : List Entry → List Entry
unfolding insert_entry
by_sequence [] = []
by_sequence (e ∷ entries) = insert_entry e (by_sequence entries)

-- `select: { speaker: true, text: true }`
abbrev pub line_of : Entry → Line
line_of e = record { speaker = e.speaker; text = e.text }

unfoldable pub lines_of : ℕ → List Entry → List Line
unfolding by_sequence select
lines_of call_id entries = map line_of (by_sequence (select (of_call call_id) entries))

-- What the runtime posts; without an instant, the clock's.
pub record TranscriptEntry : Type 0 where
  pub task_id : Text
  pub sequence : ℕ
  pub speaker : Speaker
  pub text : Text
  pub timestamp : Option ℕ

abbrev pub entry_row : ℕ → ℕ → TranscriptEntry → Entry
entry_row now call_id e = record {
  call_id = call_id;
  sequence = e.sequence;
  speaker = e.speaker;
  text = e.text;
  timestamp = e.timestamp orelse now;
}

abbrev pub with_transcript : List Line → Call → Call
with_transcript lines c = record c { transcript = lines }

-- The writes of `persistTranscript`, once the call is found.
unfoldable pub write_entry : Entry → ArtifactDb → ArtifactDb
unfolding upsert_entry lines_of update
write_entry e s =
    let entries = upsert_entry e s.entries in
    record s {
      entries = entries;
      db = record s.db {
        calls =
            update (λ c. c.id == e.call_id) (with_transcript (lines_of e.call_id entries))
              s.db.calls;
      };
    }

unfoldable pub persist_transcript : ℕ → TranscriptEntry → Exec ArtifactDb Entry
unfolding find write_entry
persist_transcript now e = do
  call ← demand not_found (λ s. find (has_task e.task_id) s.db.calls)
  modify (write_entry (entry_row now call.id e))
  pure (entry_row now call.id e)

pub record PartialEntry : Type 0 where
  pub sequence : Option ℕ
  pub speaker : Option String
  pub text : Option Text
  pub timestamp : Option ℕ

abbrev pub speaker_named : Option String → Speaker
speaker_named none = Speaker.agent
speaker_named (some s) = if str_eq s "customer" then Speaker.customer else Speaker.agent

-- `call.taskId || 'call-<id>'`
abbrev pub task_text : Call → Text
task_text c = elim (truthy c.task_id) [ none ↦ codes "call-" ++ decimal c.id | some t ↦ codes t ]

-- `saveTranscript(boutiqueId, callId, entry)`
unfoldable pub save_transcript : ℕ → ℕ → ℕ → PartialEntry → Exec ArtifactDb Entry
unfolding persist_transcript find count trim decimal
save_transcript now boutique_id call_id entry = do
  call ← demand not_found (λ s. find (callable s.db boutique_id call_id) s.db.calls)
  refuse (call_id == 0) not_found
  next ← gets (λ s. count (of_call call.id) s.entries + 1)
  persist_transcript now (record {
    task_id = task_text call;
    sequence = entry.sequence orelse next;
    speaker = speaker_named entry.speaker;
    text = trim (entry.text orelse []);
    timestamp = entry.timestamp;
  })

-- `calls/<boutique>/<call>/<speaker>.wav`
unfoldable pub recording_key : ℕ → ℕ → String → Text
unfolding decimal
recording_key boutique_id call_id speaker =
    codes "calls/"
    ++ decimal boutique_id
    ++ codes "/"
    ++ decimal call_id
    ++ codes "/"
    ++ codes speaker
    ++ codes ".wav"

abbrev pub has_recording : ℕ → String → Recording → Bool
has_recording call_id speaker r = r.call_id == call_id && str_eq r.speaker speaker

-- `upsert` by `[callId, speaker]`, with the columns of the update.
unfoldable pub upsert_recording :
    Recording → (Recording → Recording) → List Recording → List Recording
unfolding count update
upsert_recording r f recordings =
    if count (has_recording r.call_id r.speaker) recordings == 0
    then recordings ++ r ∷ []
    else update (has_recording r.call_id r.speaker) f recordings

pub record Asset : Type 0 where
  pub speaker : String
  pub bytes : Option ℕ
  pub duration_ms : Option ℕ

unfoldable pub save_asset : ℕ → ℕ → Asset → Exec ArtifactDb Recording
unfolding find recording_key upsert_recording
save_asset boutique_id call_id asset = do
  call ← demand not_found (λ s. find (callable s.db boutique_id call_id) s.db.calls)
  let speaker = if str_eq asset.speaker "customer" then "customer" else "agent" in
      let row : Recording = record {
        call_id = call.id;
        speaker = speaker;
        object_key = recording_key boutique_id call.id speaker;
        size_bytes = asset.bytes;
        duration_ms = asset.duration_ms;
      } in
      do
        modify (λ s. record s {
          recordings =
              upsert_recording row
                (λ old. record old {
                  object_key = row.object_key;
                  size_bytes = row.size_bytes;
                  duration_ms = row.duration_ms;
                })
                s.recordings;
        })
        pure row

-- `puts` says whether the storage takes the file. An update without a duration keeps the old one.
unfoldable pub save_recording :
    (Text → Bool) → Text → String → ℕ → Option ℕ → Exec ArtifactDb Recording
unfolding find recording_key upsert_recording
save_recording puts task_id speaker size duration_ms = do
  call ← demand not_found (λ s. find (has_task task_id) s.db.calls)
  order ← demand internal (λ s. order_of call.order_id s.db)
  let key = recording_key order.boutique_id call.id speaker in
      let row : Recording = record {
        call_id = call.id;
        speaker = speaker;
        object_key = key;
        size_bytes = some size;
        duration_ms = duration_ms;
      } in
      do
        refuse (not (puts key)) internal
        modify (λ s. record s { objects = s.objects ++ key ∷ [] })
        modify (λ s. record s {
          recordings =
              upsert_recording row
                (λ old. record old {
                  object_key = key;
                  size_bytes = some size;
                  duration_ms = duration_ms ormaybe old.duration_ms;
                })
                s.recordings;
        })
        pure row

-- `getRecordingUrl`: the key that is signed.
unfoldable pub recording_object : ℕ → ℕ → String → Exec ArtifactDb Text
unfolding find
recording_object boutique_id call_id speaker = do
  call ← demand not_found (λ s. find (callable s.db boutique_id call_id) s.db.calls)
  found ← demand not_found (λ s. find (has_recording call.id speaker) s.recordings)
  pure found.object_key

-- `listTranscripts`: the entries of a call, by sequence.
unfoldable pub list_transcripts : ℕ → ℕ → Exec ArtifactDb (List Entry)
unfolding find by_sequence select
list_transcripts boutique_id call_id = do
  call ← demand not_found (λ s. find (callable s.db boutique_id call_id) s.db.calls)
  gets (λ s. by_sequence (select (of_call call.id) s.entries))
