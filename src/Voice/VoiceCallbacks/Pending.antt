-- ===== src/Voice/VoiceCallbacks/Pending.antt =====
-- What the transaction of `result` in voice-callbacks.service.ts does to the pending calls.
use ordely.Common.{
  ℕ, ◌≡◌, refl, false, Option, none, some, arith, ◌==◌, Bool-cases, inl, inr, count, update,
}
use ordely.Store.{Call, Db, OrderStatus, OnePending, call_pending, pending_call, settle_order}
use ordely.Calls.Pending.{update-OnePending}
use ordely.Voice.Rules.{Number, Outcome, decide_outcome}
use ordely.Voice.VoiceCallbacks.{
  VoiceResultDto, apply_report, report_of, move_order, order_verdict, write_call_result,
  call_status,
}

call_status-ends : (outcome : Outcome) → call_pending (call_status outcome) ≡ false
call_status-ends Outcome.confirmed = refl
call_status-ends Outcome.cancelled = refl
call_status-ends Outcome.no_answer = refl
call_status-ends Outcome.unresolved = refl

move_order-OnePending :
    (outcome : Outcome) (order_id : ℕ) (verdict : Option OrderStatus) (db : Db)
    → OnePending db
    → OnePending (move_order outcome order_id verdict db).1
unfolding settle_order
move_order-OnePending outcome order_id none db one = one
move_order-OnePending outcome order_id (some s) db one = one

-- The report of a call keeps at most one pending call for each order.
pub apply_report-OnePending :
    (min : Number) (dto : VoiceResultDto) (call : Call) (db : Db)
    → OnePending db
    → OnePending (apply_report min dto call db).1
unfolding apply_report
apply_report-OnePending min dto call db one =
    elim (Bool-cases (count (pending_call call.id) db.calls == 0)) [
      | inl closed ↦ rw closed one
      | inr pending ↦
          let outcome = decide_outcome (report_of dto) min in
          let written = record db {
            calls = update (pending_call call.id) (write_call_result dto outcome call) db.calls;
          } in
          rw pending (
            move_order-OnePending outcome call.order_id (order_verdict outcome call.attempt) written
              (update-OnePending (pending_call call.id) (write_call_result dto outcome call) db
                written one (λ c. refl) (λ c _. ground (arith, call_status-ends outcome)) refl))
    ]
