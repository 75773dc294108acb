-- ===== src/Voice/VoiceCallbacks/Lifecycle.antt =====
-- What the agent's callbacks of voice-callbacks.service.ts may change.
use mathlib.Core.List.{Permᴰ, append_assoc}
use ordely.Common.{
  ℕ, suc, ◌^◌, ◌<◌, ◌≡◌, refl, ◌∙◌, true, false, Option, none, some, List, [], ◌∷◌, ◌++◌, arith,
  if◌then◌else◌, ◌==◌, Bool-cases, inl, inr, find, count, written, find-update, find-update_other,
  is_set, err, ok, conflict, sym, leb, ltb,
}
use ordely.Voice.Rules.{Number, Outcome, TranscriptPart, task_id_for, decide_outcome}
use ordely.Voice.Rules.TaskId.{call_id_from-task_id_for}
use ordely.Voice.Rules.Transcript.{Distinct, merge_transcript-perm}
use ordely.Store.{
  OrderStatus, Order, Call, Db, call_pending, pending_call, pending_order, has_status, settle_order,
}
use ordely.Calls.Policy.{max_attempts}
use ordely.Voice.CallCallback.Result.{written_pending}
use ordely.Voice.VoiceCallbacks.{
  VoiceTranscriptDto, VoiceResultDto, dispatched_call, write_fragment, transcript, apply_report,
  order_verdict, report_of, move_order, speaker_of,
}

-- The id that Ordely hands out for a dispatched call leads back to that call.
pub dispatched_call-task_id_for :
    (id : ℕ) (db : Db) {c : Call}
    → suc id < 10 ^ 10
    → find (λ x. x.id == suc id) db.calls ≡ some c
    → is_set c.dispatched_at ≡ true
    → dispatched_call (task_id_for (suc id)) db ≡ (ok c, db)
unfolding dispatched_call
dispatched_call-task_id_for id db h f d = rw (call_id_from-task_id_for (suc id) h, f, d)

move_order-calls :
    (outcome : Outcome) (order_id : ℕ) (o : Option OrderStatus) (db : Db) (id : ℕ)
    → find (λ x. x.id == id) (move_order outcome order_id o db).1.calls
      ≡ find (λ x. x.id == id) db.calls
unfolding settle_order
move_order-calls outcome order_id none db id = refl
move_order-calls outcome order_id (some s) db id = refl

-- What a verdict makes of the order with its id.
abbrev after_verdict : Option OrderStatus → ℕ → Option Order → Option Order
after_verdict none order_id o = o
after_verdict (some s) order_id o = written (pending_order order_id) (has_status s) o

-- What a pending order becomes by a call with that outcome, by the number of the call.
abbrev pub final_status : Outcome → ℕ → OrderStatus
final_status Outcome.confirmed attempt = OrderStatus.confirmed
final_status Outcome.cancelled attempt = OrderStatus.cancelled
final_status Outcome.no_answer attempt =
    if ltb attempt 3 then OrderStatus.pending else OrderStatus.unreachable
final_status Outcome.unresolved attempt =
    if ltb attempt 3 then OrderStatus.pending else OrderStatus.unreachable

may_give_up :
    (attempt order_id : ℕ) (o : Option Order)
    → after_verdict
        (if leb max_attempts attempt then some OrderStatus.unreachable else none)
        order_id
        o
      ≡ written
          (pending_order order_id)
          (has_status (if ltb attempt 3 then OrderStatus.pending else OrderStatus.unreachable))
          o
may_give_up attempt order_id o = elim (Bool-cases (leb 3 attempt)) [
  | inl third ↦ let late : ltb attempt 3 ≡ false = ground arith in rw (third, late)
  | inr early ↦
      let soon : ltb attempt 3 ≡ true = ground arith in
      rw (early, soon) (sym (written_pending order_id o))
]

move_order-orders :
    (outcome : Outcome) (order_id : ℕ) (v : Option OrderStatus) (db : Db) (id : ℕ)
    → let (t, after) = move_order outcome order_id v db in
      find (λ o. o.id == id) after.orders ≡ (
        if t.applied
        then after_verdict v order_id (find (λ o. o.id == id) db.orders)
        else find (λ o. o.id == id) db.orders)
unfolding settle_order
move_order-orders outcome order_id none db id = refl
move_order-orders outcome order_id (some s) db id =
    find-update _ (pending_order order_id) (has_status s) db.orders (λ o. refl)

-- A call that is closed stays as it is, whatever result is reported of it or of another call.
pub apply_report-keeps_closed :
    (min : Number) (dto : VoiceResultDto) (call : Call) (db : Db) (id : ℕ) {c : Call}
    → find (λ x. x.id == id) db.calls ≡ some c
    → call_pending c.status ≡ false
    → find (λ x. x.id == id) (apply_report min dto call db).1.calls ≡ some c
unfolding apply_report
apply_report-keeps_closed min dto call db id f n =
    elim (Bool-cases (count (pending_call call.id) db.calls == 0)) [
      | inl closed ↦ rw closed f
      | inr open_call ↦ rw open_call (
          move_order-calls _ call.order_id _ _ id
          ∙ find-update_other _ _ _ db.calls (λ x. refl) f (rw n (ground arith)))
    ]

abbrev pub fragment : VoiceTranscriptDto → TranscriptPart
fragment dto = record { seq = dto.sequence; speaker = speaker_of dto.speaker; text = dto.text }

append_swap :
    (parts : List TranscriptPart) (p q : TranscriptPart)
    → Permᴰ ((parts ++ p ∷ []) ++ q ∷ []) ((parts ++ q ∷ []) ++ p ∷ [])
append_swap [] p q = Permᴰ.swap refl refl
append_swap (x ∷ parts) p q = Permᴰ.cons refl (append_swap parts p q)

-- Two fragments that arrive in either order leave the same readable transcript, if all sequence
-- numbers of the call differ.
pub write_fragment_comm :
    (d e : VoiceTranscriptDto) (c : Call)
    → Distinct (c.transcript_parts ++ fragment d ∷ fragment e ∷ [])
    → (write_fragment e (write_fragment d c)).transcript
      ≡ (write_fragment d (write_fragment e c)).transcript
write_fragment_comm d e c h =
    merge_transcript-perm (append_swap c.transcript_parts (fragment d) (fragment e))
      (rw append_assoc h)

-- A fragment for a call that is over is refused and changes nothing.
pub transcript_over :
    (dto : VoiceTranscriptDto) (db : Db) {c : Call}
    → dispatched_call dto.task_id db ≡ (ok c, db)
    → call_pending c.status ≡ false
    → transcript dto db ≡ (err conflict, db)
unfolding transcript
transcript_over dto db h n = rw (h, n)

order_verdict-final :
    (outcome : Outcome) (attempt order_id : ℕ) (o : Option Order)
    → after_verdict (order_verdict outcome attempt) order_id o
      ≡ written (pending_order order_id) (has_status (final_status outcome attempt)) o
unfolding order_verdict
order_verdict-final Outcome.confirmed attempt order_id o = refl
order_verdict-final Outcome.cancelled attempt order_id o = refl
order_verdict-final Outcome.no_answer attempt order_id o = may_give_up attempt order_id o
order_verdict-final Outcome.unresolved attempt order_id o = may_give_up attempt order_id o

-- Where a result is applied, exactly the pending order of its call moves: a confirmed call confirms
-- it, a cancelled one cancels it, and one without a decision gives it up from the third attempt on
-- and leaves it pending before. Every other order stays as it is, and all do where the result is not
-- applied.
pub find-apply_report-orders :
    (min : Number) (dto : VoiceResultDto) (call : Call) (db : Db) (id : ℕ)
    → let (t, after) = apply_report min dto call db in
      find (λ o. o.id == id) after.orders ≡ (
        if t.applied
        then written
            (pending_order call.order_id)
            (has_status (final_status (decide_outcome (report_of dto) min) call.attempt))
            (find (λ o. o.id == id) db.orders)
        else find (λ o. o.id == id) db.orders)
unfolding apply_report
find-apply_report-orders min dto call db id =
    elim (Bool-cases (count (pending_call call.id) db.calls == 0)) [
      | inl closed ↦ rw closed
      | inr open_call ↦
          let outcome = decide_outcome (report_of dto) min in
          rw
            (
              open_call,
              ← order_verdict-final outcome call.attempt call.order_id
                  (find (λ o. o.id == id) db.orders),
            )
            (move_order-orders outcome call.order_id (order_verdict outcome call.attempt) _ id)
    ]
